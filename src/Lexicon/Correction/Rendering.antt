-- ===== src/Lexicon/Correction/Rendering.antt =====
-- `render_corrections` on corrections that are cuts of the raw text.
use free_whisper.Prelude.{
  ℕ, ◌+◌, ◌<◌, ◌≡◌, refl, sym, ap, ◌∙◌, ◌≢◌, List, [], ◌∷◌, ◌++◌, arith, length, length-append,
  filter, Bool, false, Bool-cases, inl, inr, ok, Text, subst, ◌||◌, byte_len, text_eq_self,
  sort_by_self, InOrder, ltb, some, append_assoc,
}
use free_whisper.Prelude.Str.{slice}
use free_whisper.Prelude.Str.Offsets.{byte_len-append, slice_parts, slice_from_parts}
use free_whisper.Domain.Transcript.{AppliedCorrection}
use free_whisper.Lexicon.Correction.{
  byte_offset_at_char, correction_le, render_from, render_corrections,
}
use free_whisper.Lexicon.Correction.Patch.{patch, patch_step, IsCut, byte_offset_parts}

length_pos : (t : Text) → t ≢ [] → 0 < length t
length_pos [] h = absurd (h refl)
length_pos (c ∷ t) h = omega arith

-- Cuts stand in the order of the sort.
IsCut-InOrder :
    (position : ℕ) (rest : Text) (ks : List AppliedCorrection)
    → IsCut position rest ks
    → InOrder correction_le ks
IsCut-InOrder position rest [] cut = tt
IsCut-InOrder position rest (k ∷ []) cut = tt
IsCut-InOrder position rest (k ∷ l ∷ ls) (gap, tail, e, ne, s, f, cut) = (
  unfold correction_le in ground (arith, length_pos k.original ne, cut.4),
  IsCut-InOrder k.end_char tail (l ∷ ls) cut,
)

-- Leaving the front of the text alone: what was a gap of the tail is a longer gap of the whole.
IsCut-front :
    (position : ℕ) (front tail rest : Text) (end : ℕ) (ks : List AppliedCorrection)
    → rest ≡ front ++ tail
    → end ≡ position + length front
    → IsCut end tail ks
    → IsCut position rest ks
IsCut-front position front tail rest end [] e f cut = tt
IsCut-front position front tail rest end (k ∷ ks) e f (gap, tail', e', ne, s, g, cut) = (
  front ++ gap,
  tail',
  e ∙ ap (◌++◌ front) e' ∙ sym (append_assoc front gap (k.original ++ tail')),
  ne,
  omega (arith, length-append front gap),
  g,
  cut,
)

-- Any selection of the corrections is cuts again.
pub IsCut-filter :
    (p : AppliedCorrection → Bool) (position : ℕ) (rest : Text) (ks : List AppliedCorrection)
    → IsCut position rest ks
    → IsCut position rest (filter p ks)
IsCut-filter p position rest [] cut = tt
IsCut-filter p position rest (k ∷ ks) (gap, tail, e, ne, s, f, cut) =
    let later = IsCut-filter p k.end_char tail ks cut in
    elim (Bool-cases (p k)) [
      | inl kept ↦ rw kept (gap, tail, e, ne, s, f, later)
      | inr dropped ↦ rw dropped (
          IsCut-front position (gap ++ k.original) tail rest k.end_char (filter p ks)
            (e ∙ sym (append_assoc gap k.original tail))
            (omega (arith, length-append gap k.original)) later)
    ]

-- One round of the rendering loop.
render_step :
    (raw pre gap tail out : Text) (cursor : ℕ) (k : AppliedCorrection) (ks : List AppliedCorrection)
    → raw ≡ pre ++ (gap ++ (k.original ++ tail))
    → cursor ≡ byte_len pre
    → k.start_char ≡ length pre + length gap
    → k.end_char ≡ k.start_char + length k.original
    → render_from raw (byte_len ((pre ++ gap) ++ k.original)) ks ≡ ok out
    → render_from raw cursor (k ∷ ks) ≡ ok (gap ++ (k.replacement ++ out))
unfolding render_from
render_step raw pre gap tail out cursor k ks e b s f later =
    rw (start, end, no_overlap, cut_original, text_eq_self k.original, cut_gap, later, render_from)
  where
    upto_gap : raw ≡ (pre ++ gap) ++ (k.original ++ tail)
    upto_gap = e ∙ sym (append_assoc pre gap (k.original ++ tail))

    upto_original : raw ≡ ((pre ++ gap) ++ k.original) ++ tail
    upto_original = upto_gap ∙ sym (append_assoc (pre ++ gap) k.original tail)

    start : byte_offset_at_char raw k.start_char ≡ ok (byte_len (pre ++ gap))
    start = rw upto_gap (
        byte_offset_parts (pre ++ gap) (k.original ++ tail) k.start_char
          (omega (arith, length-append pre gap)))

    end : byte_offset_at_char raw k.end_char ≡ ok (byte_len ((pre ++ gap) ++ k.original))
    end = rw upto_original (
        byte_offset_parts ((pre ++ gap) ++ k.original) tail k.end_char
          (omega (arith, length-append pre gap, length-append (pre ++ gap) k.original)))

    no_overlap :
        (ltb (byte_len (pre ++ gap)) cursor
          || ltb (byte_len ((pre ++ gap) ++ k.original)) (byte_len (pre ++ gap)))
        ≡ false
    no_overlap = ground (arith, byte_len-append pre gap, byte_len-append (pre ++ gap) k.original)

    cut_original :
        slice (byte_len (pre ++ gap)) (byte_len ((pre ++ gap) ++ k.original)) raw ≡ some k.original
    cut_original = rw upto_gap (
        slice_parts (pre ++ gap) k.original tail _ _ refl (byte_len-append (pre ++ gap) k.original))

    cut_gap : slice cursor (byte_len (pre ++ gap)) raw ≡ some gap
    cut_gap = rw e (slice_parts pre gap (k.original ++ tail) _ _ b (byte_len-append pre gap))

render_from_lem :
    (raw pre rest : Text) (cursor : ℕ) (ks : List AppliedCorrection)
    → raw ≡ pre ++ rest
    → cursor ≡ byte_len pre
    → IsCut (length pre) rest ks
    → render_from raw cursor ks ≡ ok (patch (length pre) rest ks)
render_from_lem raw pre rest cursor [] e b cut =
    unfold render_from patch in rw (e, slice_from_parts pre rest cursor b, render_from)
render_from_lem raw pre rest cursor (k ∷ ks) e b (gap, tail, e', ne, s, f, cut) =
    render_step raw pre gap tail _ cursor k ks whole b s f (
      render_from_lem raw ((pre ++ gap) ++ k.original) tail _ ks
        (whole
          ∙ sym (append_assoc pre gap (k.original ++ tail))
          ∙ sym (append_assoc (pre ++ gap) k.original tail))
        refl (subst (λ n. IsCut n tail ks) end_chars cut))
    ∙ ap (λ n. ok (gap ++ (k.replacement ++ patch n tail ks))) (sym end_chars)
    ∙ ap ok (sym (patch_step (length pre) rest gap k.original tail k ks e' s f))
  where
    whole : raw ≡ pre ++ (gap ++ (k.original ++ tail))
    whole = e ∙ ap (◌++◌ pre) e'

    end_chars : k.end_char ≡ length ((pre ++ gap) ++ k.original)
    end_chars = omega (arith, length-append (pre ++ gap) k.original, length-append pre gap)

-- On cuts, rendering succeeds with the patched text.
pub render_lem :
    (raw : Text) (ks : List AppliedCorrection)
    → IsCut 0 raw ks
    → render_corrections raw ks ≡ ok (patch 0 raw ks)
unfolding render_corrections
render_lem raw ks cut =
    rw (sort_by_self correction_le ks (IsCut-InOrder 0 raw ks cut))
      (render_from_lem raw [] raw 0 ks refl (unfold byte_len in refl) cut)
