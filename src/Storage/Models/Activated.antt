-- ===== src/Storage/Models/Activated.antt =====
-- crates/storage/src/lib.rs: the model that `activate_local_cpu` chooses.
use free_whisper.Prelude.{
  ℕ, ◌≡◌, refl, subst, arith, inl, inr, Bool, true, false, not, List, [], ◌∷◌, map, any, some,
  Bool-cases, ok, >>=-eq-ok, ok_eq, refuse_if, refuse_if-eq-ok, Text, text_eq, text_eq_iff,
}
use free_whisper.Storage.Models.{
  InstalledModelRecord, not_found, in_slot, deactivate, choose, get, is_validated, is_candidate,
  local_provider, cpu_backend, activate_local_cpu, active_local_cpu,
}
use free_whisper.Storage.Models.Rows.{IsKeyed, absent_head}
use free_whisper.Storage.Models.Active.{Change, run, run-IsExclusive, passed}

-- The row `r` with the id, validated, that the other functions find before and after.
abbrev pub IsChosen :
    (id : Text) (rows rows' : List InstalledModelRecord) → InstalledModelRecord → Type 0
IsChosen id rows rows' r =
    get id rows ≡ some r
    × is_validated r.validated_at ≡ true
    × active_local_cpu rows' ≡ some (record r { active = true })

module _ (id : Text) where
  abbrev activated : List InstalledModelRecord → List InstalledModelRecord
  activated rows = map (choose id) (map (deactivate local_provider cpu_backend) rows)

  candidate_head :
      (r : InstalledModelRecord) (rows : List InstalledModelRecord)
      → is_candidate id r ≡ true
      → IsChosen id (r ∷ rows) (activated (r ∷ rows)) r
  unfolding is_candidate get active_local_cpu deactivate choose in_slot
  candidate_head r rows c =
      let same : text_eq r.model_id id ≡ true = ground arith in
      let provider : text_eq r.provider_id local_provider ≡ true = ground arith in
      let backend : text_eq r.backend cpu_backend ≡ true = ground arith in
      let valid : is_validated r.validated_at ≡ true = ground arith in
      (rw same refl, valid, rw (provider, backend, same, provider, backend) refl)

  other_head :
      (r s : InstalledModelRecord) (rows : List InstalledModelRecord)
      → text_eq r.model_id id ≡ false
      → IsChosen id rows (activated rows) s
      → IsChosen id (r ∷ rows) (activated (r ∷ rows)) s
  unfolding get active_local_cpu deactivate choose in_slot
  other_head r s rows other (g, valid, a) =
      elim (Bool-cases (in_slot local_provider cpu_backend r)) [
        | inl e ↦
            let provider : text_eq r.provider_id local_provider ≡ true = ground arith in
            let backend : text_eq r.backend cpu_backend ≡ true = ground arith in
            (rw other g, valid, rw (provider, backend, other, provider, backend) a)
        | inr e ↦ (rw other g, valid, rw (e, other, e) a)
      ]

  activated-IsChosen :
      (rows : List InstalledModelRecord)
      → IsKeyed rows
      → any (is_candidate id) rows ≡ true
      → (r : InstalledModelRecord) × IsChosen id rows (activated rows) r
  unfolding IsKeyed
  activated-IsChosen [] k c = ground (arith, c)
  activated-IsChosen (r ∷ rows) k c = elim (Bool-cases (is_candidate id r)) [
    | inl e ↦ (r, candidate_head r rows e)
    | inr e ↦
        let rest : any (is_candidate id) rows ≡ true = ground arith in
        let (s, h) = activated-IsChosen rows k.1 rest in
        elim (Bool-cases (text_eq r.model_id id)) [
          | inl f ↦ absurd (absent_head id r.model_id rows k.0 rest ((text_eq_iff _ _).0 f))
          | inr f ↦ (s, other_head r s rows f h)
        ]
  ]

-- Where a model is activated in a table that changes have made of the empty one, its row is
-- there and validated, and with `active` set `active_local_cpu` finds it after that.
pub activate-IsChosen :
    (formats : ℕ → Bool) (cs : List Change) (id : Text) (rows' : List InstalledModelRecord)
    → activate_local_cpu id (run formats [] cs) ≡ ok rows'
    → (r : InstalledModelRecord) × IsChosen id (run formats [] cs) rows' r
unfolding activate_local_cpu
activate-IsChosen formats cs id rows' s =
    let rows = run formats [] cs in
    let (a, found, s) = >>=-eq-ok (refuse_if (not (any (is_candidate id) rows)) not_found) _ s in
    let (r, h) =
      activated-IsChosen id rows (run-IsExclusive formats cs).1
        (passed _ (refuse_if-eq-ok _ _ found)) in
    (r, subst (λ after. IsChosen id rows after r) (ok_eq s) h)
