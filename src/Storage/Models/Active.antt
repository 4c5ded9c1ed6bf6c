-- ===== src/Storage/Models/Active.antt =====
-- crates/storage/src/lib.rs: which installed models are active.
use free_whisper.Prelude.{
  ℕ, ◌^◌, ltb, ◌≡◌, refl, sym, subst, arith, inl, inr, Bool, true, false, not, ◌&&◌, List, [], ◌∷◌,
  map, any, All, All-imp, All-map, Result-cases, if◌then◌else◌, Result, ok, err, >>=-eq-ok, ok_eq,
  refuse_if, refuse_if-eq-ok, Text, text_eq,
}
use free_whisper.Storage.Models.{
  StorageError, not_found, invalid_record, time_error, InstalledModelRecord, deactivate, upsert,
  is_digest, has_format, save, delete, is_candidate, local_provider, cpu_backend,
  activate_local_cpu,
}
use free_whisper.Storage.Models.Rows.{
  IsApart, IsExclusive, IsKeyed, IsQuiet, deactivate_id, deactivate-IsExclusive, map-IsQuiet,
  map-IsKeyed, upsert-IsExclusive, upsert-IsKeyed, choose_id, choose-IsExclusive, deactivate-IsHome,
  is_candidate-IsHome, filter-IsExclusive, filter-IsKeyed, slot_of,
}

pub passed : (b : Bool) → not b ≡ false → b ≡ true
passed true h = refl
passed false h = cc

IsApart-of_quiet :
    (model : InstalledModelRecord) (rows : List InstalledModelRecord)
    → All (IsQuiet model.provider_id model.backend) rows
    → All (IsApart model) rows
unfolding IsApart
IsApart-of_quiet model rows h =
    All-imp (IsQuiet model.provider_id model.backend) _ rows
      (λ r quiet _ a p b. quiet (slot_of _ _ r (sym p) (sym b)) a) h

IsApart-of_inactive :
    (model : InstalledModelRecord)
    → model.active ≡ false
    → (rows : List InstalledModelRecord) → All (IsApart model) rows
unfolding IsApart
IsApart-of_inactive model off [] = tt
IsApart-of_inactive model off (r ∷ rows) =
    ((λ on _ _ _. ground (arith, on, off)), IsApart-of_inactive model off rows)

-- The operations that change the table.
pub data Change : Type 0 where
  saves : InstalledModelRecord → Change
  deletes activates : (id : Text) → Change

module _ (formats : ℕ → Bool) where
  unfoldable pub change :
      Change → List InstalledModelRecord → Result StorageError (List InstalledModelRecord)
  unfolding save delete activate_local_cpu
  change (saves model) rows = save formats model rows
  change (deletes id) rows = delete id rows
  change (activates id) rows = activate_local_cpu id rows

  -- One after the other; one that ends in an error leaves the table.
  unfoldable pub run : List InstalledModelRecord → List Change → List InstalledModelRecord
  unfolding change
  run rows [] = rows
  run rows (c ∷ cs) = run (elim (change c rows) [ ok rows' ↦ rows' | err e ↦ rows ]) cs

  upsert_keeps :
      (model : InstalledModelRecord) (rows : List InstalledModelRecord)
      → IsExclusive rows × IsKeyed rows
      → (active : Bool) → model.active ≡ active
      → IsExclusive (
          upsert model
            (if active then map (deactivate model.provider_id model.backend) rows else rows))
        × IsKeyed (
            upsert model
              (if active then map (deactivate model.provider_id model.backend) rows else rows))
  upsert_keeps model rows (h, k) true on = (
    upsert-IsExclusive model _
        (IsApart-of_quiet model _ (map-IsQuiet model.provider_id model.backend rows))
        (deactivate-IsExclusive model.provider_id model.backend rows h),
    upsert-IsKeyed model _ (map-IsKeyed _ (deactivate_id model.provider_id model.backend) rows k),
  )
  upsert_keeps model rows (h, k) false off = (
    upsert-IsExclusive model rows (IsApart-of_inactive model off rows) h,
    upsert-IsKeyed model rows k,
  )

  save_keeps :
      (model : InstalledModelRecord) (rows rows' : List InstalledModelRecord)
      → IsExclusive rows × IsKeyed rows
      → save formats model rows ≡ ok rows'
      → IsExclusive rows' × IsKeyed rows'
  unfolding save
  save_keeps model rows rows' (h, k) s =
      let (a, digest, s) =
        >>=-eq-ok (refuse_if (not (is_digest model.sha256)) invalid_record) _ s in
      let (b, size, s) =
        >>=-eq-ok (refuse_if (not (ltb model.size_bytes (2 ^ 63))) invalid_record) _ s in
      let (c, times, s) =
        >>=-eq-ok
          (refuse_if (not (formats model.installed_at && has_format formats model.validated_at))
            time_error)
          _ s in
      subst (λ r. IsExclusive r × IsKeyed r) (ok_eq s)
        (upsert_keeps model rows (h, k) model.active refl)

  activate_keeps :
      (id : Text) (rows rows' : List InstalledModelRecord)
      → IsExclusive rows × IsKeyed rows
      → activate_local_cpu id rows ≡ ok rows'
      → IsExclusive rows' × IsKeyed rows'
  unfolding activate_local_cpu
  activate_keeps id rows rows' (h, k) s =
      let (a, found, s) = >>=-eq-ok (refuse_if (not (any (is_candidate id) rows)) not_found) _ s in
      let home = is_candidate-IsHome id rows k (passed _ (refuse_if-eq-ok _ _ found)) in
      let keyed = map-IsKeyed _ (deactivate_id local_provider cpu_backend) rows k in
      subst (λ r. IsExclusive r × IsKeyed r) (ok_eq s)
        (
          choose-IsExclusive id local_provider cpu_backend
              (map (deactivate local_provider cpu_backend) rows)
              (deactivate-IsExclusive local_provider cpu_backend rows h) keyed
              (map-IsQuiet local_provider cpu_backend rows)
              (All-map _ _ rows
                (All-imp _ _ rows (deactivate-IsHome id local_provider cpu_backend) home)),
          map-IsKeyed _ (choose_id id) _ keyed,
        )

  delete_keeps :
      (id : Text) (rows rows' : List InstalledModelRecord)
      → IsExclusive rows × IsKeyed rows
      → delete id rows ≡ ok rows'
      → IsExclusive rows' × IsKeyed rows'
  unfolding delete
  delete_keeps id rows rows' (h, k) s =
      let (a, found, s) =
        >>=-eq-ok (refuse_if (not (any (λ row. text_eq row.model_id id) rows)) not_found) _ s in
      subst (λ r. IsExclusive r × IsKeyed r) (ok_eq s)
        (filter-IsExclusive _ rows h, filter-IsKeyed _ rows k)

  change_keeps :
      (c : Change) (rows rows' : List InstalledModelRecord)
      → IsExclusive rows × IsKeyed rows
      → change c rows ≡ ok rows'
      → IsExclusive rows' × IsKeyed rows'
  unfolding change
  change_keeps (saves model) rows rows' h s = save_keeps model rows rows' h s
  change_keeps (deletes id) rows rows' h s = delete_keeps id rows rows' h s
  change_keeps (activates id) rows rows' h s = activate_keeps id rows rows' h s

  run_keeps :
      (cs : List Change) (rows : List InstalledModelRecord)
      → IsExclusive rows × IsKeyed rows
      → IsExclusive (run rows cs) × IsKeyed (run rows cs)
  unfolding run
  run_keeps [] rows h = h
  run_keeps (c ∷ cs) rows h = elim (Result-cases (change c rows)) [
    | inl (rows', e) ↦ rw e (run_keeps cs rows' (change_keeps c rows rows' h e))
    | inr (x, e) ↦ rw e (run_keeps cs rows h)
  ]

  -- After any changes of the table, from the empty one, at most one installed model of each
  -- provider and backend is active, and no two rows have one key.
  pub run-IsExclusive : (cs : List Change) → IsExclusive (run [] cs) × IsKeyed (run [] cs)
  unfolding IsExclusive IsKeyed
  run-IsExclusive cs = run_keeps cs [] (tt, tt)
