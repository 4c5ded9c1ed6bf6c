-- ===== src/ModelManager/Install/Safety.antt =====
-- crates/model-manager/src/lib.rs, `ModelManager::install`: what an installation does to the directory
-- of the model, whatever fails, is cancelled or comes in between.
use free_whisper.Prelude.{
  ℕ, ◌≡◌, ◌≢◌, inl, inr, refl, subst, arith, Bool, not, ◌&&◌, List, [], ◌∷◌, Option, none, some,
  ◌==◌, Bool-cases, if◌then◌else◌, ok, Text,
}
use free_whisper.ModelManager.Error.{cancelled}
use free_whisper.ModelManager.Manifest.{ModelManifestEntry, ModelManifest, find_model, model_id}
use free_whisper.ModelManager.Paths.{model_directory, legacy_staging_parent}
use free_whisper.ModelManager.Disk.{LegacyEntry, Disk, ◌>>=◌, ◌>>◌, lift, refuse_if, look, operate}
use free_whisper.ModelManager.Disk.Post.{
  Post, Post->>=, Post-look, Post-lift, Post-refuse_if, Post-done, Post-throw, Post-operate,
  Post-operate_last,
}
use free_whisper.ModelManager.Files.{is_file, has_resume, model_is_file, nothing}
use free_whisper.ModelManager.Activation.{activate}
use free_whisper.ModelManager.Legacy.{take_candidate, recover_from, recover_legacy}
use free_whisper.ModelManager.Install.{
  Answer, failed, response, verify_partial, validate_installed, receive, download_model, install,
}
use free_whisper.ModelManager.Install.Steps.{
  IsCalm, IsPartial, IsStart, Post-read, Post-resume_offset, Post-accept_status,
  Post-write_resume_state, Post-open_partial, Post-fetch,
}
use free_whisper.ModelManager.Install.Verified.{
  IsInstalled, IsFine, F, calm, Post-verify_partial, Post-validate_installed,
}
use free_whisper.ModelManager.Install.Publish.{Post-activate}
use free_whisper.ModelManager.Manifest.{Crates, ManifestTrustScope, verify_for_scope}
use free_whisper.ModelManager.Manifest.Trust.{find_model-IsInstallable, verify_for_scope-IsTrusted}

module _ (sha256_hex : List ℕ → Text) (entry : ModelManifestEntry) (first : Disk) where
  abbrev Fine : Disk → Type 0
  Fine = F sha256_hex entry first

  quiet : (d : Disk) → IsCalm first d → Fine d
  quiet = calm sha256_hex entry first

  Post-complete :
      (n : ℕ) (d : Disk)
      → n ≡ entry.size_bytes
      → IsCalm first d × IsPartial n d
      → Post Fine
          (λ d' m. IsInstalled sha256_hex entry d')
          ((verify_partial sha256_hex entry >> activate entry) d)
  Post-complete n d sized (c, p) =
      Post->>= Fine _ _ _ _ d
        (Post-verify_partial sha256_hex entry first d (c, subst (λ m. IsPartial m d) sized p))
        λ d' u v. Post-activate sha256_hex entry first d' v

  Post-receive :
      (n : ℕ) (answer : Answer) (d : Disk)
      → IsCalm first d × IsStart n d
      → Post Fine (λ d' m. IsInstalled sha256_hex entry d') (receive sha256_hex entry n answer d)
  unfolding receive IsCalm IsPartial
  Post-receive n Answer.interrupted d c = Post-throw Fine _ _ d (quiet d c.0)
  Post-receive n failed d c = Post-throw Fine _ _ d (quiet d c.0)
  Post-receive n (response status etag stream) d c =
      Post->>= Fine _ _ _ _ d (Post-accept_status Fine first quiet n status d c) λ d1 start c1.
        Post->>= Fine _ _ _ _ d1 (Post-write_resume_state Fine first quiet entry etag start d1 c1)
          λ d2 u c2.
            Post->>= Fine _ _ _ _ d2 (Post-open_partial Fine first quiet start d2 c2) λ d3 u c3.
              Post->>= Fine _ _ _ _ d3 (Post-fetch Fine first quiet entry start stream d3 c3)
                λ d4 total c4.
                  Post-operate Fine _ _ _ d4 (λ fs. quiet _ c4.0)
                    λ fs.
                      Post-refuse_if Fine _ _ _ _ _ (quiet _ c4.0)
                        λ sized. Post-complete total _ (ground (arith, sized)) c4

  Post-download_model :
      (request : (range : ℕ) (if_range : Option Text) → Answer) (d : Disk)
      → entry.size_bytes ≢ 0
      → IsCalm first d
      → Post Fine
          (λ d' m. IsInstalled sha256_hex entry d')
          (download_model sha256_hex entry request d)
  unfolding download_model IsStart IsPartial
  Post-download_model request d positive c =
      Post->>= Fine _ _ _ _ d (Post-resume_offset Fine first quiet entry d c) λ d1 info c1.
        elim (Bool-cases (info.downloaded_bytes == entry.size_bytes)) [
          | inl e ↦ rw e (elim c1.1 [
            | inl z ↦ absurd (positive (ground (arith, e, z)))
            | inr p ↦ Post-complete info.downloaded_bytes d1 (ground (arith, e)) (c1.0, p)
          ])
          | inr e ↦ rw e (Post-receive info.downloaded_bytes _ d1 c1)
        ]

  Post-take_candidate :
      (prefix : Text) (entries candidates : List LegacyEntry) (d : Disk)
      → IsCalm first d
      → Post Fine (λ d' u. IsCalm first d') (take_candidate entry prefix entries candidates d)
  unfolding take_candidate IsCalm
  Post-take_candidate prefix entries [] d c = Post-done Fine _ _ d c
  Post-take_candidate prefix entries (candidate ∷ second ∷ rest) d c =
      Post-throw Fine _ _ d (quiet _ c)
  Post-take_candidate prefix entries (candidate ∷ []) d c =
      Post-read Fine first quiet _ (λ d. candidate.staged) _ d (quiet _ c)
        λ bytes e.
          Post-operate Fine _ _ _ d (λ fs. quiet _ c)
            λ fs. Post-operate_last Fine _ _ _ (λ fs. quiet _ c) λ fs. c

  Post-recover_from :
      (prefix : Text) (legacy : Option (List LegacyEntry)) (d : Disk)
      → IsCalm first d
      → Post Fine (λ d' u. IsCalm first d') (recover_from entry prefix legacy d)
  unfolding recover_from
  Post-recover_from prefix none d c = Post-done Fine _ _ d c
  Post-recover_from prefix (some entries) d c = Post-take_candidate prefix entries _ d c

  -- The branch of `recover_legacy` that looks for a directory.
  Post-recover :
      (d : Disk)
      → IsCalm first d
      → Post Fine
          (λ d' u. IsCalm first d')
          ((lift (model_id entry) >>= λ id. lift (legacy_staging_parent id) >>= λ place.
              operate nothing >> look (λ d. d.legacy) >>= recover_from entry place.1)
            d)
  unfolding IsCalm
  Post-recover d c = Post-lift Fine _ _ _ _ (quiet _ c) λ id _.
      Post-lift Fine _ _ _ _ (quiet _ c) λ place _.
        Post-operate Fine _ _ _ d (λ fs. quiet _ c)
          λ fs. Post-look Fine _ _ _ _ (Post-recover_from place.1 _ _ c)

  Post-recover_legacy :
      (d : Disk) → IsCalm first d → Post Fine (λ d' u. IsCalm first d') (recover_legacy entry d)
  unfolding recover_legacy
  Post-recover_legacy d c = elim (Bool-cases (not (is_file d.partial) && has_resume d.resume)) [
    | inl e ↦ Post-look Fine _ _ _ d (rw e (Post-recover d c))
    | inr e ↦ Post-look Fine _ _ _ d (rw e (Post-done Fine _ _ d c))
  ]

  Post-install_entry :
      (is_cancelled : Bool) (request : (range : ℕ) (if_range : Option Text) → Answer) (d : Disk)
      → entry.size_bytes ≢ 0
      → IsCalm first d
      → Post Fine
          (λ d' m. IsInstalled sha256_hex entry d')
          ((operate nothing
              >> recover_legacy entry
              >> refuse_if is_cancelled cancelled
              >> download_model sha256_hex entry request)
            d)
  unfolding IsCalm
  Post-install_entry is_cancelled request d positive c =
      Post-operate Fine _ _ _ d (λ fs. quiet _ c)
        λ fs. Post->>= Fine _ _ _ _ _ (Post-recover_legacy (record d { faults = fs }) c) λ d1 u c1.
          Post-refuse_if Fine _ _ _ _ _ (quiet _ c1) λ _. Post-download_model request d1 positive c1

  -- `install` for the entry that was found.
  Post-found :
      (is_cancelled : Bool) (request : (range : ℕ) (if_range : Option Text) → Answer) (d : Disk)
      → entry.size_bytes ≢ 0
      → IsCalm first d
      → Post Fine
          (λ d' m. IsInstalled sha256_hex entry d')
          ((lift (model_id entry) >>= λ parsed_id. lift (model_directory parsed_id) >>= λ directory.
              look (λ d. model_is_file d.destination) >>= λ there.
              if there
              then validate_installed sha256_hex entry
              else (operate nothing
                  >> recover_legacy entry
                  >> refuse_if is_cancelled cancelled
                  >> download_model sha256_hex entry request))
            d)
  Post-found is_cancelled request d positive c = Post-lift Fine _ _ _ _ (quiet _ c) λ parsed_id _.
      Post-lift Fine _ _ _ _ (quiet _ c) λ directory _.
        Post-look Fine _ _ _ d (elim (Bool-cases (model_is_file d.destination)) [
          | inl e ↦ rw e (Post-validate_installed sha256_hex entry first d c)
          | inr e ↦ rw e (Post-install_entry is_cancelled request d positive c)
        ])

-- An installation of a model that an accepted manifest lists, whatever the directory and the
-- partial files hold at first, whatever fails, whatever the user and the server do: where it
-- succeeds, the model's directory holds bytes of the entry's size and SHA-256. Where it ends in an
-- error, that directory is as it was, or was not there and is what another process made of it or
-- holds such bytes.
pub install-IsInstalled :
    (sha256_hex : List ℕ → Text) (crates : Crates) (public_key manifest_bytes : List ℕ)
    → (signature_base64 : Text) (scope : ManifestTrustScope) (manifest : ModelManifest)
    → verify_for_scope crates public_key manifest_bytes signature_base64 scope ≡ ok manifest
    → (id : Text) (entry : ModelManifestEntry) → find_model manifest id ≡ ok entry
    → (is_cancelled : Bool) (request : (range : ℕ) (if_range : Option Text) → Answer) (d : Disk)
    → Post
        (IsFine sha256_hex entry d)
        (λ d' m. IsInstalled sha256_hex entry d')
        (install sha256_hex manifest id is_cancelled request d)
unfolding install ◌>>=◌ IsCalm
install-IsInstalled sha256_hex crates public_key manifest_bytes signature_base64 scope manifest
      trusted id entry found is_cancelled request d =
    let positive : entry.size_bytes ≢ 0 =
      (find_model-IsInstallable crates manifest id entry
        (verify_for_scope-IsTrusted crates public_key manifest_bytes signature_base64 scope manifest
          trusted).usable
        found).sized in
    rw found (Post-found sha256_hex entry d is_cancelled request d positive (refl, refl, refl))
