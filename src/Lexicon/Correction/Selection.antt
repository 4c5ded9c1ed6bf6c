-- ===== src/Lexicon/Correction/Selection.antt =====
-- The candidates that are kept are cuts of the raw text, and only overlaps are left out.
use free_whisper.Prelude.{
  ℕ, ◌≤◌, ◌≡◌, refl, sym, ap, ◌∙◌, List, [], ◌∷◌, ◌++◌, arith, All, Bool-cases, inl, inr, leb,
  leb→le, Text, byte_len, append_assoc, len_utf8,
}
use free_whisper.Prelude.Str.Offsets.{byte_len-append, len_utf8_pos}
use free_whisper.Lexicon.Correction.{Candidate, select}
use free_whisper.Lexicon.Correction.Candidates.{IsPiece}
use free_whisper.Lexicon.Correction.Patch.{IsByteCut}

-- Of two beginnings of one text the one with fewer bytes begins the other.
prefix_le :
    (pre rest p r : Text)
    → pre ++ rest ≡ p ++ r
    → byte_len pre ≤ byte_len p
    → (gap : Text) × (p ≡ pre ++ gap) × (rest ≡ gap ++ r)
unfolding byte_len
prefix_le [] rest p r e h = (p, refl, e)
prefix_le (c ∷ pre) rest [] r e h = absurd (omega (arith, len_utf8_pos c))
prefix_le (c ∷ pre) rest (d ∷ p) r e h =
    let same : c ≡ d = cc in
    let tails : pre ++ rest ≡ p ++ r = cc in
    let (gap, f, g) = prefix_le pre rest p r tails (omega (arith, ap len_utf8 same)) in (gap, cc, g)

-- What `select` keeps from a position on cuts the text from there on.
pub select-IsByteCut :
    (raw pre rest : Text) (cursor : ℕ) (cs : List Candidate)
    → raw ≡ pre ++ rest
    → cursor ≡ byte_len pre
    → All (λ c. IsPiece raw c.start_byte c.end_byte) cs
    → IsByteCut cursor rest (select cursor cs)
unfolding select
select-IsByteCut raw pre rest cursor [] e b pieces = tt
select-IsByteCut raw pre rest cursor (c ∷ cs) e b ((p, mid, post, whole, ne, s, f), pieces) =
    elim (Bool-cases (leb cursor c.start_byte)) [
      | inl free ↦
          let (gap, p_is, rest_is) =
            prefix_le pre rest p (mid ++ post) (sym e ∙ whole)
              (omega (arith, leb→le cursor c.start_byte free)) in
          let start = byte_len-append pre gap in
          let p_len = ap byte_len p_is in
          let end = byte_len-append p mid in
          rw free (
            gap,
            mid,
            post,
            rest_is,
            ne,
            omega (arith, start, p_len),
            f,
            select-IsByteCut raw (p ++ mid) post c.end_byte cs
                (whole ∙ sym (append_assoc p mid post)) (omega (arith, end)) pieces,
          )
      | inr taken ↦ rw taken (select-IsByteCut raw pre rest cursor cs e b pieces)
    ]
