-- ===== src/Prelude/Sorting.antt =====
-- `slice::sort_by`: a stable sort. Insertion sort stands for it, since a stable sort has one
-- result for each order.
use mathlib.Core.Path.{◌≡◌, refl}
use mathlib.Core.Bool.{Bool, true, false}
use mathlib.Core.List.{List, [], ◌∷◌, Perm}
use mathlib.Core.List.Perm
use free_whisper.Prelude.Tests.{if◌then◌else◌, Bool-cases}
use free_whisper.Prelude.Lists.{All}
use mathlib.Core.Logic.{inl, inr}

module _ {ℓ} {A : Type ℓ} (le : A → A → Bool) where
  -- Before the first element that is strictly after `x`.
  abbrev pub insert_sorted : A → List A → List A
  insert_sorted x [] = x ∷ []
  insert_sorted x (y ∷ ys) = if le x y then x ∷ y ∷ ys else y ∷ insert_sorted x ys

  abbrev pub sort_by : List A → List A
  sort_by [] = []
  sort_by (x ∷ xs) = insert_sorted x (sort_by xs)

  insert_sorted-perm : (x : A) (ys : List A) → Perm (insert_sorted x ys) (x ∷ ys)
  insert_sorted-perm x [] = Perm.refl _
  insert_sorted-perm x (y ∷ ys) = elim (Bool-cases (le x y)) [
    | inl e ↦ rw e (Perm.refl _)
    | inr e ↦ rw e (Perm.trans (Perm.cons y (insert_sorted-perm x ys)) (Perm.swap x y ys))
  ]

  pub sort_by-perm : (xs : List A) → Perm (sort_by xs) xs
  sort_by-perm [] = Perm.refl []
  sort_by-perm (x ∷ xs) =
      Perm.trans (insert_sorted-perm x (sort_by xs)) (Perm.cons x (sort_by-perm xs))

  insert_sorted-All {κ} :
      (P : A → Type κ) (x : A) (ys : List A) → P x → All P ys → All P (insert_sorted x ys)
  insert_sorted-All P x [] h hs = (h, tt)
  insert_sorted-All P x (y ∷ ys) h hs = elim (Bool-cases (le x y)) [
    | inl e ↦ rw e (h, hs)
    | inr e ↦ rw e (hs.0, insert_sorted-All P x ys h hs.1)
  ]

  pub sort_by-All {κ} : (P : A → Type κ) (xs : List A) → All P xs → All P (sort_by xs)
  sort_by-All P [] h = tt
  sort_by-All P (x ∷ xs) h = insert_sorted-All P x (sort_by xs) h.0 (sort_by-All P xs h.1)

  insert_sorted-All_back {κ} :
      (P : A → Type κ) (x : A) (ys : List A) → All P (insert_sorted x ys) → P x × All P ys
  insert_sorted-All_back P x [] h = h
  insert_sorted-All_back P x (y ∷ ys) h = elim (Bool-cases (le x y)) [
    | inl e ↦ rw e at h
    | inr e ↦
        let kept : P y × All P (insert_sorted x ys) = rw e at h in
        let (hx, hs) = insert_sorted-All_back P x ys kept.1 in (hx, (kept.0, hs))
  ]

  pub sort_by-All_back {κ} : (P : A → Type κ) (xs : List A) → All P (sort_by xs) → All P xs
  sort_by-All_back P [] h = tt
  sort_by-All_back P (x ∷ xs) h =
      let (hx, hs) = insert_sorted-All_back P x (sort_by xs) h in (hx, sort_by-All_back P xs hs)

  -- Each element is at or before its successor.
  abbrev pub InOrder : List A → Type 0
  InOrder [] = Unit
  InOrder (x ∷ []) = Unit
  InOrder (x ∷ y ∷ ys) = (le x y ≡ true) × InOrder (y ∷ ys)

  -- A list that is in order stays as it is.
  pub sort_by_self : (xs : List A) → InOrder xs → sort_by xs ≡ xs
  sort_by_self [] h = refl
  sort_by_self (x ∷ []) h = refl
  sort_by_self (x ∷ y ∷ ys) h = rw (sort_by_self (y ∷ ys) h.1) (rw h.0)

  insert_sorted-InOrder_above :
      ((a b : A) → le a b ≡ false → le b a ≡ true)
      → (z x : A) (ys : List A) → le z x ≡ true
      → InOrder (z ∷ ys)
      → InOrder (z ∷ insert_sorted x ys)
  insert_sorted-InOrder_above tot z x [] zx h = (zx, tt)
  insert_sorted-InOrder_above tot z x (y ∷ ys) zx h = elim (Bool-cases (le x y)) [
    | inl e ↦ rw e (zx, (e, h.1))
    | inr e ↦ rw e (h.0, insert_sorted-InOrder_above tot y x ys (tot x y e) h.1)
  ]

  insert_sorted-InOrder :
      ((a b : A) → le a b ≡ false → le b a ≡ true)
      → (x : A) (ys : List A) → InOrder ys
      → InOrder (insert_sorted x ys)
  insert_sorted-InOrder tot x [] h = tt
  insert_sorted-InOrder tot x (y ∷ ys) h = elim (Bool-cases (le x y)) [
    | inl e ↦ rw e (e, h)
    | inr e ↦ rw e (insert_sorted-InOrder_above tot y x ys (tot x y e) h)
  ]

  -- The result is in order, for a total comparison.
  pub sort_by-InOrder :
      ((a b : A) → le a b ≡ false → le b a ≡ true) → (xs : List A) → InOrder (sort_by xs)
  sort_by-InOrder tot [] = tt
  sort_by-InOrder tot (x ∷ xs) = insert_sorted-InOrder tot x (sort_by xs) (sort_by-InOrder tot xs)
