-- ===== src/Lexicon/Correction.antt =====
-- crates/lexicon/src/lib.rs: `apply_corrections` and `render_corrections`. Slicing a text off a
-- character boundary panics in Rust; here that is the fault `panic`, apart from the code's own
-- errors.
pub mod Patch
pub mod Rendering
pub mod Candidates
pub mod Selection
pub mod RoundTrip
mod Tests
use free_whisper.Prelude.{
  ℕ, suc, ◌+◌, ◌^◌, Bool, not, ◌||◌, ◌&&◌, List, [], ◌∷◌, ◌++◌, map, Option, none, some, ltb, leb,
  ◌==◌, if◌then◌else◌, length, any, filter, find?, Result, ok, err, ok_or, ◌>>=◌, ◌>>◌, refuse_if,
  sort_by, Text, len_utf8, byte_len, text_eq, false, true,
}
use free_whisper.Prelude.Str.{text_le, slice, slice_from, match_indices}
use free_whisper.Domain.Transcript.{AppliedCorrection}
use free_whisper.Lexicon.Entry.{
  Unicode, LexiconEntry, LexiconVariant, MatchMode, exact_casefold, exact_case_sensitive,
}

pub record CorrectionRule : Type 0 where
  pub entry : LexiconEntry
  pub variant : LexiconVariant

pub record CorrectionResult : Type 0 where
  pub final_text : Text
  pub corrections : List AppliedCorrection

pub data CorrectionError : Type 0 where
  variant_belongs_to_other_entry : (variant_id entry_id : ℕ) → CorrectionError
  position_too_large : CorrectionError
  invalid_stored_correction : (correction_id : ℕ) → CorrectionError

pub data Fault : Type 0 where
  error : CorrectionError → Fault
  panic : Fault

pub record Candidate : Type 0 where
  pub start_byte : ℕ
  pub end_byte : ℕ
  pub priority : ℕ
  pub variant_id : ℕ
  pub replacement : Text

pub record FoldSpan : Type 0 where
  pub folded_start : ℕ
  pub folded_end : ℕ
  pub raw_start : ℕ
  pub raw_end : ℕ

-- A `BTreeSet<usize>`: in order, with no element twice.
unfoldable pub set_insert : ℕ → List ℕ → List ℕ
set_insert n [] = n ∷ []
set_insert n (m ∷ ms) =
    let rest = set_insert n ms in
    if n == m then m ∷ ms else if ltb n m then n ∷ m ∷ ms else m ∷ rest

set_extend : List ℕ → List ℕ → List ℕ
unfolding set_insert
set_extend set [] = set
set_extend set (n ∷ ns) = set_extend (set_insert n set) ns

contains : List ℕ → ℕ → Bool
contains set n = any (λ m. m == n) set

-- `char_count_to_u32` and `byte_offset_at_char`.
unfoldable pub char_count_to_u32 : Text → ℕ → Result Fault ℕ
char_count_to_u32 text byte_offset = do
  upto ← ok_or (slice 0 byte_offset text) panic
  refuse_if (leb (2 ^ 32) (length upto)) (error position_too_large)
  ok (length upto)

-- The byte offset of the `n`-th character, as `char_indices().nth(n)`.
unfoldable pub nth_offset : Text → ℕ → Option ℕ
nth_offset [] n = none
nth_offset (c ∷ t) ℕ.zero = some 0
nth_offset (c ∷ t) (suc n) = elim (nth_offset t n) [ none ↦ none | some k ↦ some (len_utf8 c + k) ]

unfoldable pub byte_offset_at_char : Text → ℕ → Result Fault ℕ
byte_offset_at_char text char_offset =
    if char_offset == length text
    then ok (byte_len text)
    else ok_or (nth_offset text char_offset) (error position_too_large)

-- The loop of `apply_corrections` that keeps the candidates which start after the last kept one.
unfoldable pub select : (next_free_byte : ℕ) → List Candidate → List Candidate
select next_free_byte [] = []
select next_free_byte (c ∷ cs) =
    let is_free = leb next_free_byte c.start_byte in
    let rest = select (if is_free then c.end_byte else next_free_byte) cs in
    if is_free then c ∷ rest else rest

-- The comparison of candidates is not `Greater`.
unfoldable pub candidate_le : Candidate → Candidate → Bool
candidate_le left right =
    if left.start_byte == right.start_byte
    then (if left.priority == right.priority
        then (if left.end_byte == right.end_byte
            then (if text_eq left.replacement right.replacement
                then leb left.variant_id right.variant_id
                else text_le left.replacement right.replacement)
            else ltb right.end_byte left.end_byte)
        else ltb right.priority left.priority)
    else ltb left.start_byte right.start_byte

-- The loop that writes the final text: `ids` are the UUIDs that it draws.
unfoldable pub build :
    (raw_text : Text) (cursor : ℕ)
    → List Candidate
    → (ids : ℕ → ℕ) (applied_at : ℕ) → Result Fault CorrectionResult
build raw_text cursor [] ids applied_at = do
  rest ← ok_or (slice_from cursor raw_text) panic
  ok (record { final_text = rest; corrections = [] })
build raw_text cursor (c ∷ cs) ids applied_at = do
  gap ← ok_or (slice cursor c.start_byte raw_text) panic
  original ← ok_or (slice c.start_byte c.end_byte raw_text) panic
  start_char ← char_count_to_u32 raw_text c.start_byte
  end_char ← char_count_to_u32 raw_text c.end_byte
  rest ← build raw_text c.end_byte cs (λ n. ids (n + 1)) applied_at
  ok (record {
    final_text = gap ++ (c.replacement ++ rest.final_text);
    corrections =
        record {
          id = ids 0;
          variant_id = c.variant_id;
          original = original;
          replacement = c.replacement;
          start_char = start_char;
          end_char = end_char;
          applied_at = applied_at;
        }
        ∷ rest.corrections;
  })

-- `FoldedText::find_all`: a match counts if it starts and ends with whole characters.
locate : List FoldSpan → ℕ × ℕ → Option (ℕ × ℕ)
locate spans (start, end) = elim (find? (λ span. span.folded_start == start) spans) [
  | none ↦ none
  | some first ↦ elim (find? (λ span. span.folded_end == end) spans) [
    | none ↦ none
    | some last ↦ some (first.raw_start, last.raw_end)
  ]
]

locate_all : List FoldSpan → List (ℕ × ℕ) → List (ℕ × ℕ)
unfolding locate
locate_all spans [] = []
locate_all spans (m ∷ ms) = elim (locate spans m) [
  | none ↦ locate_all spans ms
  | some location ↦ location ∷ locate_all spans ms
]

candidate_at : CorrectionRule → ℕ × ℕ → Candidate
candidate_at rule (start_byte, end_byte) = record {
  start_byte = start_byte;
  end_byte = end_byte;
  priority = rule.entry.priority;
  variant_id = rule.variant.id;
  replacement = rule.entry.canonical_text;
}

module _ (u : Unicode) where
  open u use {default_case_fold_str, split_word_bound_offsets}

  -- `FoldedText::new`: the folded text, and one span for each character.
  unfoldable pub fold_from : (raw_start folded_start : ℕ) → Text → Text × List FoldSpan
  fold_from raw_start folded_start [] = ([], [])
  fold_from raw_start folded_start (c ∷ t) =
      let folded = default_case_fold_str (c ∷ []) in
      let raw_end = raw_start + len_utf8 c in
      let folded_end = folded_start + byte_len folded in
      let (value, spans) = fold_from raw_end folded_end t in
      (
        folded ++ value,
        record {
          folded_start = folded_start;
          folded_end = folded_end;
          raw_start = raw_start;
          raw_end = raw_end;
        }
            ∷ spans,
      )

  unfoldable pub find_all : Text → (needle : Text) → List (ℕ × ℕ)
  unfolding locate_all
  find_all raw_text needle =
      let (value, spans) = fold_from 0 0 raw_text in locate_all spans (match_indices value needle)

  unfoldable pub word_boundary_offsets : Text → List ℕ
  unfolding set_extend
  word_boundary_offsets text =
      set_extend (set_insert 0 (set_insert (byte_len text) [])) (split_word_bound_offsets text)

  locations : MatchMode → Text → LexiconVariant → List (ℕ × ℕ)
  locations exact_case_sensitive raw_text variant = match_indices raw_text variant.variant_text
  locations exact_casefold raw_text variant = find_all raw_text variant.variant_key

  unfoldable pub find_candidates : Text → (boundaries : List ℕ) → CorrectionRule → List Candidate
  unfolding locations contains candidate_at
  find_candidates raw_text boundaries rule = map (candidate_at rule) (
      filter (λ l. contains boundaries l.0 && contains boundaries l.1)
        (locations rule.variant.match_mode raw_text rule.variant))

  -- The first loop of `apply_corrections`.
  unfoldable pub collect :
      Text → (boundaries : List ℕ) → List CorrectionRule → Result Fault (List Candidate)
  collect raw_text boundaries [] = ok []
  collect raw_text boundaries (rule ∷ rules) = do
    refuse_if (not (rule.variant.entry_id == rule.entry.id))
        (error (variant_belongs_to_other_entry rule.variant.id rule.entry.id))
    rest ← collect raw_text boundaries rules
    ok (
        (if not rule.entry.enabled || leb (length boundaries) 1
          then []
          else find_candidates raw_text boundaries rule)
        ++ rest)

  unfoldable pub apply_corrections :
      Text → List CorrectionRule → (ids : ℕ → ℕ) (applied_at : ℕ) → Result Fault CorrectionResult
  apply_corrections raw_text rules ids applied_at = do
    candidates ← collect raw_text (word_boundary_offsets raw_text) rules
    build raw_text 0 (select 0 (sort_by candidate_le candidates)) ids applied_at

-- The sort key of `render_corrections` is not greater.
unfoldable pub correction_le : AppliedCorrection → AppliedCorrection → Bool
correction_le left right =
    if left.start_char == right.start_char
    then (if left.end_char == right.end_char
        then leb left.id right.id
        else ltb left.end_char right.end_char)
    else ltb left.start_char right.start_char

unfoldable pub render_from : Text → (previous_end : ℕ) → List AppliedCorrection → Result Fault Text
render_from raw_text previous_end [] = ok_or (slice_from previous_end raw_text) panic
render_from raw_text previous_end (c ∷ cs) = do
  start ← byte_offset_at_char raw_text c.start_char
  end ← byte_offset_at_char raw_text c.end_char
  refuse_if (ltb start previous_end || ltb end start) (error (invalid_stored_correction c.id))
  original ← ok_or (slice start end raw_text) panic
  refuse_if (not (text_eq original c.original)) (error (invalid_stored_correction c.id))
  gap ← ok_or (slice previous_end start raw_text) panic
  rest ← render_from raw_text end cs
  ok (gap ++ (c.replacement ++ rest))

unfoldable pub render_corrections : Text → List AppliedCorrection → Result Fault Text
render_corrections raw_text corrections = render_from raw_text 0 (sort_by correction_le corrections)
