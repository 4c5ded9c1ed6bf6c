-- ===== src/Lexicon/Correction/Patch.antt =====
-- The independent description of a corrected text: cut the raw text's characters at the
-- corrections, and put the replacements in. Both loops of the code are held against it.
use mathlib.Core.List.{append_assoc}
use free_whisper.Prelude.{
  ℕ, ◌+◌, ◌-◌, ◌^◌, ◌<◌, ◌≡◌, refl, sym, ap, ◌∙◌, ◌≢◌, List, [], ◌∷◌, ◌++◌, arith, length,
  length-append, take, drop, ok, Text, byte_len, take-length-append, drop-length-append, some,
  append-nil,
}
use free_whisper.Prelude.Str.{slice}
use free_whisper.Prelude.Str.Offsets.{byte_len-append, slice_parts, slice_from_parts}
use free_whisper.Domain.Transcript.{AppliedCorrection}
use free_whisper.Lexicon.Correction.{
  Candidate, CorrectionResult, char_count_to_u32, byte_offset_at_char, nth_offset, build,
}

-- The text from character `position` on, which is `rest`, with the corrections put in.
unfoldable pub patch : (position : ℕ) (rest : Text) → List AppliedCorrection → Text
patch position rest [] = rest
patch position rest (k ∷ ks) =
    take (k.start_char - position) rest
    ++ (k.replacement ++ patch k.end_char (drop (k.end_char - position) rest) ks)

-- Each correction replaces a non-empty piece of the text, at or after the end of the one before,
-- and records what stood there.
abbrev pub IsCut : (position : ℕ) (rest : Text) → List AppliedCorrection → Type 0
IsCut position rest [] = Unit {0}
IsCut position rest (k ∷ ks) =
    (gap : Text) × (tail : Text) × (rest ≡ gap ++ (k.original ++ tail))
    × (k.original ≢ [])
    × (k.start_char ≡ position + length gap)
    × (k.end_char ≡ k.start_char + length k.original)
    × IsCut k.end_char tail ks

-- The same of candidates, whose offsets count bytes.
abbrev pub IsByteCut : (cursor : ℕ) (rest : Text) → List Candidate → Type 0
IsByteCut cursor rest [] = Unit {0}
IsByteCut cursor rest (c ∷ cs) =
    (gap : Text) × (original : Text) × (tail : Text) × (rest ≡ gap ++ (original ++ tail))
    × (original ≢ [])
    × (c.start_byte ≡ cursor + byte_len gap)
    × (c.end_byte ≡ c.start_byte + byte_len original)
    × IsByteCut c.end_byte tail cs

char_count_parts :
    (pre post : Text) (n : ℕ)
    → n ≡ byte_len pre
    → length pre < 2 ^ 32
    → char_count_to_u32 (pre ++ post) n ≡ ok (length pre)
unfolding char_count_to_u32
char_count_parts pre post n e h =
    rw (slice_parts [] pre post 0 n (unfold byte_len in refl) (from_start e), char_count_to_u32)
      (ground arith)
  where
    from_start : n ≡ byte_len pre → n ≡ byte_len [] + byte_len pre
    from_start e = unfold byte_len in omega arith

nth_offset_parts :
    (pre : Text) (c : ℕ) (post : Text)
    → nth_offset (pre ++ c ∷ post) (length pre) ≡ some (byte_len pre)
unfolding nth_offset byte_len
nth_offset_parts [] c post = refl
nth_offset_parts (d ∷ pre) c post = rw (nth_offset_parts pre c post, nth_offset)

pub byte_offset_parts :
    (pre post : Text) (n : ℕ)
    → n ≡ length pre
    → byte_offset_at_char (pre ++ post) n ≡ ok (byte_len pre)
unfolding byte_offset_at_char
byte_offset_parts pre [] n e = ground (arith, append-nil pre)
byte_offset_parts pre (c ∷ post) n e =
    ground (arith, nth_offset_parts pre c post, length-append pre (c ∷ post))

pub patch_step :
    (position : ℕ) (rest gap original tail : Text) (k : AppliedCorrection)
    (ks : List AppliedCorrection)
    → rest ≡ gap ++ (original ++ tail)
    → k.start_char ≡ position + length gap
    → k.end_char ≡ k.start_char + length original
    → patch position rest (k ∷ ks) ≡ gap ++ (k.replacement ++ patch k.end_char tail ks)
unfolding patch
patch_step position rest gap original tail k ks e s f =
    let front : k.start_char - position ≡ length gap = omega arith in
    let upto : k.end_char - position ≡ length (gap ++ original) =
      omega (arith, length-append gap original) in
    let after : drop (k.end_char - position) rest ≡ tail =
      rw (e, upto, ← append_assoc gap original tail) (drop-length-append (gap ++ original) tail) in
    let before : take (k.start_char - position) rest ≡ gap =
      rw (e, front) (take-length-append gap (original ++ tail)) in
    rw (after, before)

-- One round of the writing loop.
build_step :
    (raw pre gap original tail : Text) (cursor : ℕ) (c : Candidate) (cs : List Candidate)
    (ids : ℕ → ℕ) (applied_at : ℕ) (r : CorrectionResult)
    → raw ≡ pre ++ (gap ++ (original ++ tail))
    → cursor ≡ byte_len pre
    → c.start_byte ≡ cursor + byte_len gap
    → c.end_byte ≡ c.start_byte + byte_len original
    → length raw < 2 ^ 32
    → build raw c.end_byte cs (λ n. ids (n + 1)) applied_at ≡ ok r
    → build raw cursor (c ∷ cs) ids applied_at
      ≡ ok (record {
        final_text = gap ++ (c.replacement ++ r.final_text);
        corrections =
            record {
              id = ids 0;
              variant_id = c.variant_id;
              original = original;
              replacement = c.replacement;
              start_char = length (pre ++ gap);
              end_char = length ((pre ++ gap) ++ original);
              applied_at = applied_at;
            }
            ∷ r.corrections;
      })
unfolding build
build_step raw pre gap original tail cursor c cs ids applied_at r e b s f small rest =
    rw (cut_gap, cut_original, start_chars, end_chars, rest, build)
  where
    upto_gap : raw ≡ (pre ++ gap) ++ (original ++ tail)
    upto_gap = e ∙ sym (append_assoc pre gap (original ++ tail))

    upto_original : raw ≡ ((pre ++ gap) ++ original) ++ tail
    upto_original = upto_gap ∙ sym (append_assoc (pre ++ gap) original tail)

    start_bytes : c.start_byte ≡ byte_len (pre ++ gap)
    start_bytes = omega (arith, byte_len-append pre gap)

    end_bytes : c.end_byte ≡ byte_len (pre ++ gap) + byte_len original
    end_bytes = omega (arith, start_bytes)

    cut_gap : slice cursor c.start_byte raw ≡ some gap
    cut_gap = rw e (slice_parts pre gap (original ++ tail) _ _ b (omega arith))

    cut_original : slice c.start_byte c.end_byte raw ≡ some original
    cut_original = rw upto_gap (slice_parts (pre ++ gap) original tail _ _ start_bytes end_bytes)

    start_chars : char_count_to_u32 raw c.start_byte ≡ ok (length (pre ++ gap))
    start_chars = rw upto_gap (
        char_count_parts (pre ++ gap) (original ++ tail) _ start_bytes
          (omega (arith, ap length upto_gap, length-append (pre ++ gap) (original ++ tail))))

    end_chars : char_count_to_u32 raw c.end_byte ≡ ok (length ((pre ++ gap) ++ original))
    end_chars = rw upto_original (
        char_count_parts ((pre ++ gap) ++ original) tail _
          (omega (arith, end_bytes, byte_len-append (pre ++ gap) original))
          (omega (arith, ap length upto_original, length-append ((pre ++ gap) ++ original) tail)))

-- The writing loop, with enough room for its positions, never fails, its corrections are cuts,
-- and its text is the patched one.
pub build_lem :
    (raw pre rest : Text) (cursor : ℕ) (cs : List Candidate) (ids : ℕ → ℕ) (applied_at : ℕ)
    → raw ≡ pre ++ rest
    → cursor ≡ byte_len pre
    → length raw < 2 ^ 32
    → IsByteCut cursor rest cs
    → (r : CorrectionResult) × (build raw cursor cs ids applied_at ≡ ok r)
      × IsCut (length pre) rest r.corrections
      × (r.final_text ≡ patch (length pre) rest r.corrections)
build_lem raw pre rest cursor [] ids applied_at e b small cut = (
  record { final_text = rest; corrections = [] },
  unfold build in rw (e, slice_from_parts pre rest cursor b, build),
  tt,
  unfold patch in refl,
)
build_lem raw pre rest cursor (c ∷ cs) ids applied_at e b small
      (gap, original, tail, e', ne, s, f, cut) =
    let whole : raw ≡ pre ++ (gap ++ (original ++ tail)) = e ∙ ap (◌++◌ pre) e' in
    let end : c.end_byte ≡ byte_len ((pre ++ gap) ++ original) =
      omega (arith, byte_len-append (pre ++ gap) original, byte_len-append pre gap) in
    let (r, made, cuts, text) =
      build_lem raw ((pre ++ gap) ++ original) tail c.end_byte cs (λ n. ids (n + 1)) applied_at
        (whole
          ∙ sym (append_assoc pre gap (original ++ tail))
          ∙ sym (append_assoc (pre ++ gap) original tail))
        end small cut in
    let start_chars = length-append pre gap in
    let end_chars = length-append (pre ++ gap) original in
    let correction : AppliedCorrection = record {
      id = ids 0;
      variant_id = c.variant_id;
      original = original;
      replacement = c.replacement;
      start_char = length (pre ++ gap);
      end_char = length ((pre ++ gap) ++ original);
      applied_at = applied_at;
    } in
    (
      _,
      build_step raw pre gap original tail cursor c cs ids applied_at r whole b s f small made,
      (gap, tail, e', ne, start_chars, end_chars, cuts),
      ap (λ t. gap ++ (c.replacement ++ t)) text
          ∙ sym (
              patch_step _ rest gap original tail correction r.corrections e' start_chars
                end_chars),
    )
