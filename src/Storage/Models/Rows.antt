-- ===== src/Storage/Models/Rows.antt =====
-- crates/storage/src/lib.rs: what the statements on the installed models keep of the table.
use free_whisper.Prelude.{
  ◌≡◌, ◌≢◌, ◌∙◌, refl, sym, arith, inl, inr, Bool, true, List, [], ◌∷◌, map, filter, any, All,
  All-imp, All-map, All-filter, All-zip, Bool-cases, Text, text_eq, text_eq_iff, text_eq_self,
}
use free_whisper.Storage.Models.{
  InstalledModelRecord, in_slot, deactivate, choose, upsert, is_candidate, local_provider,
  cpu_backend,
}

-- Not both of one provider and backend and active.
unfoldable pub IsApart : InstalledModelRecord → InstalledModelRecord → Type 0
IsApart r s =
    r.active ≡ true → s.active ≡ true → r.provider_id ≡ s.provider_id → r.backend ≡ s.backend → ⊥

-- At most one model of each provider and backend is active.
unfoldable pub IsExclusive : List InstalledModelRecord → Type 0
unfolding IsApart
IsExclusive [] = Unit
IsExclusive (r ∷ rs) = All (IsApart r) rs × IsExclusive rs

-- The key is unique.
unfoldable pub IsKeyed : List InstalledModelRecord → Type 0
IsKeyed [] = Unit
IsKeyed (r ∷ rs) = All (λ s. r.model_id ≢ s.model_id) rs × IsKeyed rs

-- No row of the slot is active.
abbrev pub IsQuiet : (provider_id backend : Text) → InstalledModelRecord → Type 0
IsQuiet p b r = in_slot p b r ≡ true → r.active ≡ true → ⊥

IsApart-sym : (r s : InstalledModelRecord) → IsApart r s → IsApart s r
unfolding IsApart
IsApart-sym r s h a b p q = h b a (sym p) (sym q)

pub slot_of :
    (p b : Text) (r : InstalledModelRecord)
    → r.provider_id ≡ p
    → r.backend ≡ b
    → in_slot p b r ≡ true
unfolding in_slot
slot_of p b r e f = rw (e, f, text_eq_self p, text_eq_self b) refl

in_slot_same :
    (p b : Text) (r s : InstalledModelRecord)
    → r.provider_id ≡ s.provider_id
    → r.backend ≡ s.backend
    → in_slot p b r ≡ true
    → in_slot p b s ≡ true
unfolding in_slot
in_slot_same p b r s e f h = rw (sym e, sym f) h

module _ (p b : Text) where
  deactivate-IsQuiet : (r : InstalledModelRecord) → IsQuiet p b (deactivate p b r)
  unfolding deactivate in_slot
  deactivate-IsQuiet r = elim (Bool-cases (in_slot p b r)) [
    | inl e ↦ rw (e, deactivate) λ _ a. ground (arith, a)
    | inr e ↦ rw (e, deactivate) λ h _. ground (arith, h)
  ]

  pub deactivate_id : (r : InstalledModelRecord) → (deactivate p b r).model_id ≡ r.model_id
  unfolding deactivate
  deactivate_id r = elim (Bool-cases (in_slot p b r)) [ inl e ↦ rw e refl | inr e ↦ rw e refl ]

  deactivate-IsApart :
      (r s : InstalledModelRecord) → IsApart r s → IsApart (deactivate p b r) (deactivate p b s)
  unfolding deactivate IsApart
  deactivate-IsApart r s h = elim (Bool-cases (in_slot p b r)) [
    | inl e ↦ rw e λ a _ _ _. ground (arith, a)
    | inr e ↦ elim (Bool-cases (in_slot p b s)) [
      | inl f ↦ rw (e, f) λ _ c _ _. ground (arith, c)
      | inr f ↦ rw (e, f) h
    ]
  ]

  pub deactivate-IsExclusive :
      (rows : List InstalledModelRecord)
      → IsExclusive rows
      → IsExclusive (map (deactivate p b) rows)
  unfolding IsExclusive
  deactivate-IsExclusive [] h = tt
  deactivate-IsExclusive (r ∷ rows) h = (
    All-map _ _ rows (
        All-imp (IsApart r) (λ s. IsApart (deactivate p b r) (deactivate p b s)) rows
          (λ s k. deactivate-IsApart r s k) h.0),
    deactivate-IsExclusive rows h.1,
  )

  pub map-IsQuiet :
      (rows : List InstalledModelRecord) → All (IsQuiet p b) (map (deactivate p b) rows)
  map-IsQuiet [] = tt
  map-IsQuiet (r ∷ rows) = (deactivate-IsQuiet r, map-IsQuiet rows)

-- A change of rows that keeps their ids.
pub map-IsKeyed :
    (f : InstalledModelRecord → InstalledModelRecord)
    → ((r : InstalledModelRecord) → (f r).model_id ≡ r.model_id)
    → (rows : List InstalledModelRecord) → IsKeyed rows
    → IsKeyed (map f rows)
unfolding IsKeyed
map-IsKeyed f same [] h = tt
map-IsKeyed f same (r ∷ rows) h = (
  All-map _ f rows (
      All-imp (λ s. r.model_id ≢ s.model_id) (λ s. (f r).model_id ≢ (f s).model_id) rows
        (λ s k e. k (sym (same r) ∙ e ∙ same s)) h.0),
  map-IsKeyed f same rows h.1,
)

All-upsert {κ} :
    (P : InstalledModelRecord → Type κ) (model : InstalledModelRecord)
    (rows : List InstalledModelRecord)
    → P model
    → All P rows
    → All P (upsert model rows)
unfolding upsert
All-upsert P model [] h hs = (h, tt)
All-upsert P model (r ∷ rows) h hs = elim (Bool-cases (text_eq r.model_id model.model_id)) [
  | inl e ↦ rw e (h, hs.1)
  | inr e ↦ rw e (hs.0, All-upsert P model rows h hs.1)
]

pub upsert-IsExclusive :
    (model : InstalledModelRecord) (rows : List InstalledModelRecord)
    → All (IsApart model) rows
    → IsExclusive rows
    → IsExclusive (upsert model rows)
unfolding upsert IsExclusive
upsert-IsExclusive model [] free h = (tt, tt)
upsert-IsExclusive model (r ∷ rows) free h = elim (Bool-cases (text_eq r.model_id model.model_id)) [
  | inl e ↦ rw e (free.1, h.1)
  | inr e ↦ rw e (
    All-upsert (IsApart r) model rows (IsApart-sym model r free.0) h.0,
    upsert-IsExclusive model rows free.1 h.1,
  )
]

pub upsert-IsKeyed :
    (model : InstalledModelRecord) (rows : List InstalledModelRecord)
    → IsKeyed rows
    → IsKeyed (upsert model rows)
unfolding upsert IsKeyed
upsert-IsKeyed model [] h = (tt, tt)
upsert-IsKeyed model (r ∷ rows) h = elim (Bool-cases (text_eq r.model_id model.model_id)) [
  | inl e ↦ rw e (
    All-imp (λ s. r.model_id ≢ s.model_id) _ rows (λ s k f. k ((text_eq_iff _ _).0 e ∙ f)) h.0,
    h.1,
  )
  | inr e ↦ rw e (
    All-upsert (λ s. r.model_id ≢ s.model_id) model rows
        (λ f. ground (arith, e, (text_eq_iff r.model_id model.model_id).1 f)) h.0,
    upsert-IsKeyed model rows h.1,
  )
]

module _ (id : Text) where
  pub choose_id : (r : InstalledModelRecord) → (choose id r).model_id ≡ r.model_id
  unfolding choose
  choose_id r = elim (Bool-cases (text_eq r.model_id id)) [ inl e ↦ rw e refl | inr e ↦ rw e refl ]

  module _ (p b : Text) where
    -- The row that is chosen is of the slot.
    abbrev pub IsHome : InstalledModelRecord → Type 0
    IsHome r = r.model_id ≡ id → in_slot p b r ≡ true

    choose-IsApart :
        (r s : InstalledModelRecord)
        → IsApart r s
        → r.model_id ≢ s.model_id
        → IsQuiet p b r
        → IsQuiet p b s
        → IsHome r
        → IsHome s
        → IsApart (choose id r) (choose id s)
    unfolding choose IsApart
    choose-IsApart r s apart other quiet_r quiet_s home_r home_s =
        elim (Bool-cases (text_eq r.model_id id)) [
          | inl e ↦ elim (Bool-cases (text_eq s.model_id id)) [
            | inl f ↦ absurd (other ((text_eq_iff _ _).0 e ∙ sym ((text_eq_iff _ _).0 f)))
            | inr f ↦
                rw (e, f)
                  λ _ a q c. quiet_s (in_slot_same p b r s q c (home_r ((text_eq_iff _ _).0 e))) a
          ]
          | inr e ↦ elim (Bool-cases (text_eq s.model_id id)) [
            | inl f ↦
                rw (e, f)
                  λ a _ q c.
                    quiet_r (in_slot_same p b s r (sym q) (sym c) (home_s ((text_eq_iff _ _).0 f)))
                      a
            | inr f ↦ rw (e, f) apart
          ]
        ]

    pub choose-IsExclusive :
        (rows : List InstalledModelRecord)
        → IsExclusive rows
        → IsKeyed rows
        → All (IsQuiet p b) rows
        → All IsHome rows
        → IsExclusive (map (choose id) rows)
    unfolding IsExclusive IsKeyed
    choose-IsExclusive [] h k quiet home = tt
    choose-IsExclusive (r ∷ rows) h k quiet home = (
      All-map (IsApart (choose id r)) (choose id) rows (
          All-imp _ (λ s. IsApart (choose id r) (choose id s)) rows
            (λ s a. choose-IsApart r s a.0.0 a.0.1 quiet.0 a.1.0 home.0 a.1.1)
            (All-zip _ _ rows (All-zip (IsApart r) (λ s. r.model_id ≢ s.model_id) rows h.0 k.0)
              (All-zip (IsQuiet p b) IsHome rows quiet.1 home.1))),
      choose-IsExclusive rows h.1 k.1 quiet.1 home.1,
    )

    pub deactivate-IsHome : (r : InstalledModelRecord) → IsHome r → IsHome (deactivate p b r)
    unfolding deactivate in_slot
    deactivate-IsHome r h = elim (Bool-cases (in_slot p b r)) [
      | inl e ↦ rw (e, deactivate) h
      | inr e ↦ rw (e, deactivate) h
    ]

  pub absent_head :
      (other : Text) (rows : List InstalledModelRecord)
      → All (λ s. other ≢ s.model_id) rows
      → any (is_candidate id) rows ≡ true
      → other ≢ id
  unfolding is_candidate
  absent_head other [] h c e = ground (arith, c)
  absent_head other (r ∷ rows) h c e = elim (Bool-cases (text_eq r.model_id id)) [
    | inl f ↦ h.0 (e ∙ sym ((text_eq_iff _ _).0 f))
    | inr f ↦ absent_head other rows h.1 (rw f at c) e
  ]

  -- The candidate is the row of that id.
  pub is_candidate-IsHome :
      (rows : List InstalledModelRecord)
      → IsKeyed rows
      → any (is_candidate id) rows ≡ true
      → All (IsHome local_provider cpu_backend) rows
  unfolding IsKeyed is_candidate
  is_candidate-IsHome [] k c = tt
  is_candidate-IsHome (r ∷ rows) k c = elim (Bool-cases (is_candidate id r)) [
    | inl e ↦
        let here : r.model_id ≡ id = (text_eq_iff _ _).0 (ground arith) in
        (
          (λ _. ground arith),
          All-imp (λ s. r.model_id ≢ s.model_id) _ rows (λ s other f. absurd (other (here ∙ sym f)))
              k.0,
        )
    | inr e ↦
        let rest : any (is_candidate id) rows ≡ true = ground arith in
        ((λ f. absurd (absent_head r.model_id rows k.0 rest f)), is_candidate-IsHome rows k.1 rest)
  ]

pub filter-IsExclusive :
    (t : InstalledModelRecord → Bool) (rows : List InstalledModelRecord)
    → IsExclusive rows
    → IsExclusive (filter t rows)
unfolding IsExclusive
filter-IsExclusive t [] h = tt
filter-IsExclusive t (r ∷ rows) h = elim (Bool-cases (t r)) [
  | inl e ↦ rw e (All-filter (IsApart r) t rows h.0, filter-IsExclusive t rows h.1)
  | inr e ↦ rw e (filter-IsExclusive t rows h.1)
]

pub filter-IsKeyed :
    (t : InstalledModelRecord → Bool) (rows : List InstalledModelRecord)
    → IsKeyed rows
    → IsKeyed (filter t rows)
unfolding IsKeyed
filter-IsKeyed t [] h = tt
filter-IsKeyed t (r ∷ rows) h = elim (Bool-cases (t r)) [
  | inl e ↦ rw e (All-filter (λ s. r.model_id ≢ s.model_id) t rows h.0, filter-IsKeyed t rows h.1)
  | inr e ↦ rw e (filter-IsKeyed t rows h.1)
]
