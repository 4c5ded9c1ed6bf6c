-- ===== src/Prelude/Str/Offsets.antt =====
-- Byte offsets that fall between two parts of a text: what slicing there gives, and where the
-- matches of a needle lie.
use Prim.Native.Nat.{ℕ, zero, suc, ◌+◌, ◌-◌, ◌<◌}
use mathlib.Core.Path.{◌≡◌, refl, ap, sym, ◌∙◌}
use mathlib.Core.Logic.{◌≢◌, inl, inr}
use mathlib.Core.Bool.{true}
use mathlib.Core.Option.{some}
use mathlib.Core.List.{List, [], ◌∷◌, ◌++◌, append_assoc}
use native.Mathlib.Omega.{arith}
use free_whisper.Prelude.Tests.{Bool-cases}
use free_whisper.Prelude.Lists.{length, All}
use free_whisper.Prelude.Str.{
  Text, len_utf8, byte_len, split_at, slice, slice_from, starts_with, matches_from, match_indices,
}

pub len_utf8_pos : (c : ℕ) → 0 < len_utf8 c
unfolding len_utf8
len_utf8_pos c = ground arith

pub byte_len-append : (t u : Text) → byte_len (t ++ u) ≡ byte_len t + byte_len u
unfolding byte_len
byte_len-append [] u = omega arith
byte_len-append (c ∷ t) u = omega (arith, byte_len-append t u)

pub byte_len_pos : (t : Text) → t ≢ [] → 0 < byte_len t
unfolding byte_len
byte_len_pos [] h = absurd (h refl)
byte_len_pos (c ∷ t) h = omega (arith, len_utf8_pos c)

pub split_at_parts : (t u : Text) → split_at (byte_len t) (t ++ u) ≡ some (t, u)
unfolding byte_len split_at
split_at_parts [] [] = refl
split_at_parts [] (d ∷ u) = refl
split_at_parts (c ∷ t) u =
    let size : len_utf8 c + byte_len t - len_utf8 c ≡ byte_len t = omega arith in
    ground (arith, len_utf8_pos c, split_at_parts t u, size)

-- Slicing between two parts gives what lies between them.
pub slice_parts :
    (pre mid post : Text) (start end : ℕ)
    → start ≡ byte_len pre
    → end ≡ byte_len pre + byte_len mid
    → slice start end (pre ++ (mid ++ post)) ≡ some mid
unfolding slice
slice_parts pre mid post start end hs he =
    let upto : split_at end (pre ++ (mid ++ post)) ≡ some (pre ++ mid, post) =
      rw (he, ← byte_len-append pre mid, ← append_assoc pre mid post)
        (split_at_parts (pre ++ mid) post) in
    rw (upto, slice) (rw (hs, split_at_parts pre mid, slice))

pub slice_from_parts :
    (pre post : Text) (start : ℕ)
    → start ≡ byte_len pre
    → slice_from start (pre ++ post) ≡ some post
unfolding slice_from
slice_from_parts pre post start h = rw (h, split_at_parts pre post, slice_from)

pub starts_with_parts : (t u : Text) → starts_with t u ≡ true → (rest : Text) × (t ≡ u ++ rest)
unfolding starts_with
starts_with_parts t [] h = (t, refl)
starts_with_parts [] (d ∷ u) h = cc
starts_with_parts (c ∷ t) (d ∷ u) h =
    let (rest, e) = starts_with_parts t u (ground arith) in (rest, ground (arith, e))

-- `n` is the offset in `t` of a character, or of the end.
abbrev pub IsBoundary : Text → ℕ → Type 0
IsBoundary t n = (pre : Text) × (post : Text) × (t ≡ pre ++ post) × (n ≡ byte_len pre)

-- A match of a needle between two characters.
abbrev pub IsMatch : Text → Text → ℕ × ℕ → Type 0
IsMatch needle t m =
    (pre : Text) × (post : Text) × (t ≡ pre ++ (needle ++ post))
    × (m.0 ≡ byte_len pre)
    × (m.1 ≡ byte_len pre + byte_len needle)

module _ (needle whole : Text) where
  Covers : Text → Text → ℕ → Type 0
  Covers before t position = (whole ≡ before ++ t) × (position ≡ byte_len before)

  Covers-next :
      (before : Text) (c : ℕ) (t : Text) (position : ℕ)
      → Covers before (c ∷ t) position
      → Covers (before ++ c ∷ []) t (position + len_utf8 c)
  unfolding Covers byte_len
  Covers-next before c t position (w, p) =
      (w ∙ sym (append_assoc before (c ∷ []) t), omega (arith, byte_len-append before (c ∷ [])))

  Covers-IsMatch :
      (before t : Text) (position : ℕ)
      → Covers before t position
      → starts_with t needle ≡ true
      → IsMatch needle whole (position, position + byte_len needle)
  unfolding Covers
  Covers-IsMatch before t position (w, p) hit =
      let (rest, e) = starts_with_parts t needle hit in
      (before, rest, w ∙ ap (◌++◌ before) e, p, omega arith)

  matches_from-IsMatch :
      (before t : Text) (position skip : ℕ)
      → Covers before t position
      → All (IsMatch needle whole) (matches_from needle position skip t)
  unfolding matches_from Covers
  matches_from-IsMatch before [] position (suc skip) h = tt
  matches_from-IsMatch before [] position zero h = at_end needle
    where
      at_end :
          (n : Text)
          → All
              (IsMatch n whole)
              (elim n as (λ _. List (ℕ × ℕ)) [ [] ↦ (position, position) ∷ [] | c ∷ t ↦ [] ])
      at_end [] = ((before, [], h.0, h.1, omega (arith, h.1)), tt)
      at_end (c ∷ t) = tt
  matches_from-IsMatch before (c ∷ t) position (suc skip) h =
      matches_from-IsMatch (before ++ c ∷ []) t (position + len_utf8 c) skip
        (Covers-next before c t position h)
  matches_from-IsMatch before (c ∷ t) position zero h =
      let next = Covers-next before c t position h in
      elim (Bool-cases (starts_with (c ∷ t) needle)) [
        | inl hit ↦
            rw (hit, starts_with)
              (
                Covers-IsMatch before (c ∷ t) position h hit,
                matches_from-IsMatch (before ++ c ∷ []) t _ (length needle - 1) next,
              )
        | inr miss ↦ rw (miss, starts_with) (matches_from-IsMatch (before ++ c ∷ []) t _ 0 next)
      ]

-- Every match of `match_indices` is an occurrence of the needle.
pub match_indices-IsMatch : (t needle : Text) → All (IsMatch needle t) (match_indices t needle)
unfolding match_indices Covers byte_len
match_indices-IsMatch t needle = matches_from-IsMatch needle t [] t 0 0 (refl, refl)
