-- ===== src/Prelude/Str.antt =====
-- Rust's `str`: the list of its Unicode scalar values. Offsets count the bytes of its UTF-8 form,
-- as in Rust, and `none` from `split_at` or `slice` is Rust's panic off a character boundary.
pub mod Offsets
use Prim.Native.Nat.{ℕ, zero, suc, ◌+◌, ◌-◌, ◌≤◌, ◌<◌}
use Prim.Native.Char.{code}
use Prim.Native.String.{String}
use mathlib.Core.Path.{◌≡◌, refl, ap}
use mathlib.Core.Logic.{◌↔◌}
use mathlib.Core.Bool.{Bool, true, false, ◌&&◌, ◌||◌, not}
use mathlib.Core.Option.{Option, none, some}
use mathlib.Core.List.{List, [], ◌∷◌, ◌++◌, map, reverse}
use native.Mathlib.Omega.{arith}
use free_whisper.Prelude.Tests.{ltb, leb, ◌==◌, ==_iff, if◌then◌else◌}
use free_whisper.Prelude.Lists.{length}

abbrev pub Text : Type 0
Text = List ℕ

-- A literal's scalar values.
abbrev pub codes : String → Text
codes String.[] = []
codes (String.◌∷◌ c s) = code c ∷ codes s

-- `char::len_utf8`.
unfoldable pub len_utf8 : ℕ → ℕ
len_utf8 c = if ltb c 0x80 then 1 else if ltb c 0x800 then 2 else if ltb c 0x10000 then 3 else 4

-- `str::len`.
unfoldable pub byte_len : Text → ℕ
unfolding len_utf8
byte_len [] = 0
byte_len (c ∷ t) = len_utf8 c + byte_len t

-- `==` on texts.
unfoldable pub text_eq : Text → Text → Bool
text_eq [] [] = true
text_eq [] (d ∷ u) = false
text_eq (c ∷ t) [] = false
text_eq (c ∷ t) (d ∷ u) = c == d && text_eq t u

pub text_eq_iff : (t u : Text) → (text_eq t u ≡ true) ↔ (t ≡ u)
unfolding text_eq
text_eq_iff [] [] = (λ _. refl, λ _. refl)
text_eq_iff [] (d ∷ u) = (λ e. cc, λ e. cc)
text_eq_iff (c ∷ t) [] = (λ e. cc, λ e. cc)
text_eq_iff (c ∷ t) (d ∷ u) =
    (λ e. ground (arith, (text_eq_iff t u).0), λ e. ground (arith, (text_eq_iff t u).1))

pub text_eq_self : (t : Text) → text_eq t t ≡ true
text_eq_self t = (text_eq_iff t t).1 refl

-- The order of UTF-8 bytes is that of scalar values: `a.cmp(b)` is not `Greater`.
unfoldable pub text_le : Text → Text → Bool
text_le [] u = true
text_le (c ∷ t) [] = false
text_le (c ∷ t) (d ∷ u) = let rest = text_le t u in if c == d then rest else ltb c d

-- `str::split_at(n)`.
unfoldable pub split_at : ℕ → Text → Option (Text × Text)
unfolding len_utf8
split_at n [] = if n == 0 then some ([], []) else none
split_at n (c ∷ t) =
    let rest = split_at (n - len_utf8 c) t in
    if n == 0
    then some ([], c ∷ t)
    else if leb (len_utf8 c) n
    then elim rest [ none ↦ none | some (front, back) ↦ some (c ∷ front, back) ]
    else none

-- `&text[start..end]`.
unfoldable pub slice : ℕ → ℕ → Text → Option Text
slice start end t = elim (split_at end t) [
  | none ↦ none
  | some (upto, _) ↦ elim (split_at start upto) [ none ↦ none | some (_, mid) ↦ some mid ]
]

-- `&text[start..]`.
unfoldable pub slice_from : ℕ → Text → Option Text
slice_from start t = elim (split_at start t) [ none ↦ none | some (_, back) ↦ some back ]

unfoldable pub starts_with : Text → Text → Bool
starts_with t [] = true
starts_with [] (d ∷ u) = false
starts_with (c ∷ t) (d ∷ u) = c == d && starts_with t u

unfoldable pub ends_with : Text → Text → Bool
unfolding starts_with
ends_with t u = starts_with (reverse t) (reverse u)

-- `text.match_indices(needle)`, each match as its first byte and the byte after it: leftmost
-- first, not overlapping; `skip` characters of the last match are still to be passed.
unfoldable pub matches_from : Text → (position skip : ℕ) → Text → List (ℕ × ℕ)
unfolding starts_with byte_len
matches_from needle position (suc skip) [] = []
matches_from needle position zero [] = elim needle [ [] ↦ (position, position) ∷ [] | c ∷ t ↦ [] ]
matches_from needle position (suc skip) (c ∷ t) = matches_from needle (position + len_utf8 c) skip t
matches_from needle position zero (c ∷ t) =
    let hit = starts_with (c ∷ t) needle in
    let rest =
      matches_from needle (position + len_utf8 c) (if hit then length needle - 1 else 0) t in
    if hit then (position, position + byte_len needle) ∷ rest else rest

unfoldable pub match_indices : Text → Text → List (ℕ × ℕ)
unfolding matches_from
match_indices t needle = matches_from needle 0 0 t

-- `char::is_whitespace`: the property White_Space.
unfoldable pub is_whitespace : ℕ → Bool
is_whitespace c =
    (leb 9 c && leb c 13)
    || c == 32
    || c == 0x85
    || c == 0xA0
    || c == 0x1680
    || (leb 0x2000 c && leb c 0x200A)
    || c == 0x2028
    || c == 0x2029
    || c == 0x202F
    || c == 0x205F
    || c == 0x3000

-- `char::is_control`: the category Cc.
unfoldable pub is_control : ℕ → Bool
is_control c = ltb c 32 || (leb 127 c && leb c 159)

unfoldable pub trim_start : Text → Text
unfolding is_whitespace
trim_start [] = []
trim_start (c ∷ t) = if is_whitespace c then trim_start t else c ∷ t

-- Drops the white space that ends a text.
unfoldable pub trim_end : Text → Text
unfolding is_whitespace
trim_end [] = []
trim_end (c ∷ t) = elim (trim_end t) [
  | [] ↦ if is_whitespace c then [] else c ∷ []
  | d ∷ u ↦ c ∷ d ∷ u
]

unfoldable pub trim : Text → Text
unfolding trim_start trim_end
trim t = trim_end (trim_start t)

unfoldable pub ascii_lower : ℕ → ℕ
ascii_lower c = if leb b'A' c && leb c b'Z' then c + 32 else c

-- `str::to_ascii_lowercase` and `str::eq_ignore_ascii_case`.
unfoldable pub to_ascii_lowercase : Text → Text
unfolding ascii_lower
to_ascii_lowercase t = map ascii_lower t

unfoldable pub eq_ignore_ascii_case : Text → Text → Bool
unfolding to_ascii_lowercase text_eq
eq_ignore_ascii_case t u = text_eq (to_ascii_lowercase t) (to_ascii_lowercase u)
