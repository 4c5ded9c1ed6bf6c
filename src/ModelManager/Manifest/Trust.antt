-- ===== src/ModelManager/Manifest/Trust.antt =====
-- crates/model-manager/src/lib.rs: what a manifest that was accepted for a scope is.
use free_whisper.Prelude.{
  ℕ, ◌≡◌, ◌≢◌, sym, ◌∙◌, subst, arith, true, false, not, ◌||◌, List, [], ◌∷◌, some, any, is_empty,
  ◌==◌, All, All-Mem, All→Mem, find?_mem, All-imp, Memᴰ, All-zip, ok, ok_or, ok_or-eq-ok, ok_eq,
  ◌>>◌, >>=-eq-ok, refuse_if, refuse_if-eq-ok, Text, text_eq, text_eq_iff,
}
use free_whisper.Prelude.Str.{trim}
use free_whisper.ModelManager.Error.{
  duplicate_model_id, invalid_manifest, invalid_signature, unexpected_trust_scope,
}
use free_whisper.ModelManager.Manifest.{
  ManifestTrustScope, scope_name, same_scope, ModelManifestEntry, ModelManifest, Crates, validate,
  validate_models, validate_manifest, verify, find_model, verify_for_scope,
}
use free_whisper.ModelManager.Manifest.Entry.{IsInstallable, passed, validate-IsInstallable}

-- No two models have one id.
unfoldable pub IsDistinct : List ModelManifestEntry → Type 0
IsDistinct [] = Unit
IsDistinct (x ∷ xs) = All (λ y. y.id ≢ x.id) xs × IsDistinct xs

module _ (crates : Crates) where
  -- The ids that were seen are not met again.
  unseen :
      (id : Text) (ids : List Text) → any (text_eq id) ids ≡ false → All (λ seen. id ≢ seen) ids
  unseen id [] h = tt
  unseen id (seen ∷ ids) h =
      ((λ same. ground (arith, (text_eq_iff id seen).1 same, h)), unseen id ids (ground arith))

  validate_models_sound :
      (ids : List Text) (models : List ModelManifestEntry) {u : Unit {0}}
      → validate_models crates ids models ≡ ok u
      → All (IsInstallable crates) models
        × All (λ id. All (λ model. model.id ≢ id) models) ids
        × IsDistinct models
  unfolding validate_models IsDistinct
  validate_models_sound ids [] h =
      (tt, All-imp (λ id. Memᴰ id ids) _ ids (λ id _. tt) (All-Mem ids), tt)
  validate_models_sound ids (model ∷ models) h =
      let (a, valid, h) =
        >>=-eq-ok
          (validate crates model
            >> refuse_if (any (text_eq model.id) ids) (duplicate_model_id model.id))
          _ h in
      let (b, valid, fresh) = >>=-eq-ok (validate crates model) _ valid in
      let (usable, apart, distinct) = validate_models_sound (model.id ∷ ids) models h in
      (
        (validate-IsInstallable crates model valid, usable),
        All-zip _ _ ids (unseen model.id ids (refuse_if-eq-ok _ _ fresh)) apart.1,
        (apart.0, distinct),
      )

  validate_manifest_sound :
      (manifest : ModelManifest) {u : Unit {0}}
      → validate_manifest crates manifest ≡ ok u
      → All (IsInstallable crates) manifest.models × IsDistinct manifest.models
  unfolding validate_manifest
  validate_manifest_sound manifest h =
      let (a, versioned, h) =
        >>=-eq-ok
          (refuse_if
            (not (manifest.schema_version == 1)
              || is_empty (trim manifest.manifest_version)
              || is_empty manifest.models)
            (invalid_manifest "unsupported schema or empty model list"))
          _ h in
      let (usable, apart, distinct) = validate_models_sound [] manifest.models h in
      (usable, distinct)

  -- A manifest as it was signed.
  pub record IsTrusted (public_key bytes : List ℕ) (signature_base64 : Text)
      (scope : ManifestTrustScope) (manifest : ModelManifest) : Type 0 where
    pub read : crates.parse_json bytes ≡ some manifest
    pub signed :
        (signature canonical decoded : List ℕ) × (crates.decode_base64 (trim signature_base64)
          ≡ some decoded)
        × (crates.parse_signature decoded ≡ some signature)
        × (crates.canonical_json manifest ≡ some canonical)
        × (crates.is_signed public_key canonical signature ≡ true)
    pub scoped : manifest.trust_scope ≡ scope
    pub usable : All (IsInstallable crates) manifest.models
    pub distinct : IsDistinct manifest.models

  same_scope_sound : (a b : ManifestTrustScope) → same_scope a b ≡ true → a ≡ b
  unfolding same_scope
  same_scope_sound a b h = ground arith

  -- A manifest that is accepted for a scope is the JSON of the given bytes; the key signed its
  -- canonical form; it is for that scope; each of its models can be installed, which is to say that
  -- its size is not 0, it runs on the processor, it is fetched over HTTPS, its file name is one name,
  -- and its SHA-256 has 32 bytes; and no two models have one id.
  pub verify_for_scope-IsTrusted :
      (public_key bytes : List ℕ) (signature_base64 : Text) (scope : ManifestTrustScope)
      (manifest : ModelManifest)
      → verify_for_scope crates public_key bytes signature_base64 scope ≡ ok manifest
      → IsTrusted public_key bytes signature_base64 scope manifest
  unfolding verify_for_scope verify
  verify_for_scope-IsTrusted public_key bytes signature_base64 scope manifest h =
      let (m, verified, h) = >>=-eq-ok (verify crates public_key bytes signature_base64) _ h in
      let (a, scoped, h) =
        >>=-eq-ok
          (refuse_if (not (same_scope m.trust_scope scope))
            (unexpected_trust_scope (scope_name scope) (scope_name m.trust_scope)))
          _ h in
      let (m', parsed, v) =
        >>=-eq-ok (ok_or (crates.parse_json bytes) (invalid_manifest "invalid JSON")) _ verified in
      let (b, valid, v) = >>=-eq-ok (validate_manifest crates m') _ v in
      let (decoded, encoding, v) =
        >>=-eq-ok (ok_or (crates.decode_base64 (trim signature_base64)) invalid_signature) _ v in
      let (signature, form, v) =
        >>=-eq-ok (ok_or (crates.parse_signature decoded) invalid_signature) _ v in
      let (canonical, canon, v) =
        >>=-eq-ok
          (ok_or (crates.canonical_json m') (invalid_manifest "cannot canonicalize manifest")) _
          v in
      let (c, signed, v) =
        >>=-eq-ok
          (refuse_if (not (crates.is_signed public_key canonical signature)) invalid_signature) _
          v in
      let same : m' ≡ manifest = ok_eq v ∙ ok_eq h in
      let (usable, distinct) = validate_manifest_sound m' valid in
      subst (IsTrusted public_key bytes signature_base64 scope) same record {
        read = ok_or-eq-ok _ _ parsed;
        signed = (
          signature,
          canonical,
          decoded,
          ok_or-eq-ok _ _ encoding,
          ok_or-eq-ok _ _ form,
          ok_or-eq-ok _ _ canon,
          passed _ (refuse_if-eq-ok _ _ signed),
        );
        scoped = same_scope_sound m'.trust_scope scope (
            subst (λ x. same_scope x.trust_scope scope ≡ true) (sym (ok_eq v))
              (passed _ (refuse_if-eq-ok _ _ scoped)));
        usable = usable;
        distinct = distinct;
      }

  pub find_model-IsInstallable :
      (manifest : ModelManifest) (id : Text) (entry : ModelManifestEntry)
      → All (IsInstallable crates) manifest.models
      → find_model manifest id ≡ ok entry
      → IsInstallable crates entry
  unfolding find_model
  find_model-IsInstallable manifest id entry usable h =
      All→Mem (IsInstallable crates) manifest.models entry usable
        (find?_mem _ _ entry (ok_or-eq-ok _ _ h))
