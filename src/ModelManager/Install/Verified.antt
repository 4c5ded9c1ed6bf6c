-- ===== src/ModelManager/Install/Verified.antt =====
-- crates/model-manager/src/lib.rs, `ModelManager::install`: what the tests of size and digest show of
-- a file.
use free_whisper.Prelude.{
  ℕ, ◌≡◌, ◌⊎◌, inl, inr, sym, ap, arith, ◌∙◌, List, none, some, Bool-cases, length, Text, text_eq,
  text_eq_iff,
}
use free_whisper.Prelude.Str.{to_ascii_lowercase}
use free_whisper.ModelManager.Manifest.{ModelManifestEntry}
use free_whisper.ModelManager.Disk.{holds, Disk, refuse_if}
use free_whisper.ModelManager.Disk.Post.{
  Post, Post->>=, Post-refuse_if, Post-done, Post-throw, Post-operate,
}
use free_whisper.ModelManager.Install.{check_hash, verify_partial, validate_installed}
use free_whisper.ModelManager.Install.Steps.{IsCalm, IsPartial, Post-read, Post-read_model}

module _ (sha256_hex : List ℕ → Text) where
  -- The bytes are the entry's: its size, and its digest.
  unfoldable pub IsModel : ModelManifestEntry → List ℕ → Type 0
  IsModel entry bytes =
      (length bytes ≡ entry.size_bytes) × (sha256_hex bytes ≡ to_ascii_lowercase entry.sha256)

  -- The directory holds the entry's bytes.
  unfoldable pub IsInstalled : ModelManifestEntry → Disk → Type 0
  unfolding IsModel
  IsInstalled entry d =
      (bytes : List ℕ) × (d.destination ≡ some (holds bytes)) × IsModel entry bytes

  -- The directory is as it was; or it was not there, and now it is what another process made, or
  -- holds the entry's bytes.
  unfoldable pub IsFine : ModelManifestEntry → (first d : Disk) → Type 0
  unfolding IsInstalled
  IsFine entry first d =
      (d.destination ≡ first.destination)
      ⊎ ((first.destination ≡ none)
          × ((d.destination ≡ first.intruder)
              ⊎ ((d.destination ≡ first.late_intruder) ⊎ IsInstalled entry d)))

  -- The partial file holds the entry's bytes.
  unfoldable pub IsVerified : ModelManifestEntry → Disk → Type 0
  unfolding IsModel
  IsVerified entry d = (bytes : List ℕ) × (d.partial ≡ some bytes) × IsModel entry bytes

module _ (sha256_hex : List ℕ → Text) (entry : ModelManifestEntry) (first : Disk) where
  abbrev pub F : Disk → Type 0
  F = IsFine sha256_hex entry first

  pub calm : (d : Disk) → IsCalm first d → F d
  unfolding IsCalm IsFine
  calm d c = inl c.0

  Post-check_hash :
      (P : Disk → Type 0) (bytes : List ℕ) (d : Disk)
      → F d
      → (sha256_hex bytes ≡ to_ascii_lowercase entry.sha256 → P d)
      → Post F (λ d' u. P d') (check_hash sha256_hex bytes entry.sha256 d)
  unfolding check_hash refuse_if
  Post-check_hash P bytes d f h =
      elim (Bool-cases (text_eq (sha256_hex bytes) (to_ascii_lowercase entry.sha256))) [
        | inl e ↦ rw (e, check_hash) (Post-done F _ _ d (h ((text_eq_iff _ _).0 e)))
        | inr e ↦ rw (e, check_hash) (Post-throw F _ _ d f)
      ]

  pub Post-verify_partial :
      (d : Disk)
      → IsCalm first d × IsPartial entry.size_bytes d
      → Post F
          (λ d' u. IsCalm first d' × IsVerified sha256_hex entry d')
          (verify_partial sha256_hex entry d)
  unfolding verify_partial IsCalm IsPartial IsVerified IsModel
  Post-verify_partial d (c, (kept, there, counted)) =
      Post-operate F _ _ _ d (λ fs. calm _ c)
        λ fs. Post-read F first calm _ _ _ _ (calm _ c) λ bytes e.
          let same : kept ≡ bytes = cc in
          Post-check_hash (λ d'. IsCalm first d' × IsVerified sha256_hex entry d') bytes _
            (calm _ c) λ hash. (c, (bytes, e, (ap length (sym same) ∙ counted, hash)))

  pub Post-validate_installed :
      (d : Disk)
      → IsCalm first d
      → Post F (λ d' m. IsInstalled sha256_hex entry d') (validate_installed sha256_hex entry d)
  unfolding validate_installed IsCalm IsInstalled IsModel
  Post-validate_installed d c =
      Post-operate F _ _ _ d (λ fs. calm _ c)
        λ fs. Post-read_model F first calm _ _ _ _ (calm _ c) λ bytes e.
          Post-refuse_if F _ _ _ _ _ (calm _ c) λ sized.
            Post-operate F _ _ _ _ (λ fs. calm _ c)
              λ fs.
                Post->>= F _ _ _ _ _
                  (Post-check_hash (λ d'. IsInstalled sha256_hex entry d') bytes _ (calm _ c)
                    λ hash. (bytes, e, (ground (arith, sized), hash)))
                  λ d' u k. Post-done F _ _ _ k
