-- ===== src/ModelManager/Install/Publish.antt =====
-- crates/model-manager/src/lib.rs, `ModelManager::install`: the activation of a verified file, whatever
-- fails or comes in between.
use free_whisper.Prelude.{
  ℕ, ◌≡◌, inl, inr, refl, sym, subst, false, ◌∙◌, List, Option, none, some, Option-cases,
  if◌then◌else◌, Result, ok, err, Text,
}
use free_whisper.ModelManager.Error.{ModelManagerError, destination_exists}
use free_whisper.ModelManager.Manifest.{ModelManifestEntry}
use free_whisper.ModelManager.Disk.{Directory, holds, Disk, M, ◌>>=◌, ◌>>◌, throw, look}
use free_whisper.ModelManager.Disk.Post.{
  Post, Post->>=, Post-look, Post-lift, Post-refuse_if, Post-done, Post-throw, Post-operate,
  Post-operate_last, Post-imp,
}
use free_whisper.ModelManager.Files.{exists}
use free_whisper.ModelManager.Activation.{
  remove_staging_directory, stage_partial, restore_partial, others, publish, or_else,
  finish_activation, activate,
}
use free_whisper.ModelManager.Install.Steps.{IsCalm, Post-read, Post-read_model}
use free_whisper.ModelManager.Install.Verified.{IsModel, IsInstalled, IsFine, IsVerified, F, calm}

module _ (sha256_hex : List ℕ → Text) (entry : ModelManifestEntry) (first : Disk) where
  abbrev Fine : Disk → Type 0
  Fine = F sha256_hex entry first

  quiet : (d : Disk) → IsCalm first d → Fine d
  quiet = calm sha256_hex entry first

  abbrev FineKept : {A : Type 0} → Disk → A → Type 0
  FineKept d a = Fine d

  Post-or_else :
      {A : Type 0} (G : Disk → Type 0) (P : Disk → Unit {0} → Type 0) (Q : Disk → A → Type 0)
      → (x : Disk × Result ModelManagerError (Unit {0})) (handler next : M A) → Post G P x
      → ((d : Disk) → G d → Post Fine Q (handler d))
      → ((d : Disk) → P d tt → Post Fine Q (next d))
      → Post Fine Q (or_else x handler next)
  unfolding Post
  Post-or_else G P Q (d, ok u) handler next h e n = n d h
  Post-or_else G P Q (d, err x) handler next h e n = e d h

  Post-restore_partial : (d : Disk) → Fine d → Post Fine FineKept (restore_partial d)
  unfolding restore_partial remove_staging_directory IsFine IsInstalled
  Post-restore_partial d f = Post-read_model Fine first quiet _ _ _ _ f λ bytes e.
      Post-operate Fine _ _ _ _ (λ fs. f) λ fs. Post-operate_last Fine _ _ _ (λ fs. f) λ fs. f

  -- What the last step needs: the directory is not there, and the staged file is the model.
  unfoldable IsReady : Disk → Type 0
  unfolding IsModel
  IsReady d =
      (first.destination ≡ none)
      × (d.destination ≡ none)
      × (d.late_intruder ≡ first.late_intruder)
      × ((bytes : List ℕ) × (d.staging ≡ some (holds bytes)) × IsModel sha256_hex entry bytes)

  Post-publish :
      (d : Disk)
      → IsReady d
      → Post Fine
          (λ d' u. IsInstalled sha256_hex entry d')
          ((others (λ d. d.late_intruder) >> publish) d)
  unfolding others publish IsReady IsFine IsInstalled IsModel ◌>>=◌
  Post-publish d (absent, none_here, late, (bytes, staged, model)) =
      rw none_here (elim (Option-cases d.late_intruder) [
        | inl e ↦
            rw e
              (Post-operate_last Fine _ _ _ (λ fs. inl (sym absent)) λ fs. (bytes, staged, model))
        | inr (other, e) ↦ rw e (Post-throw Fine _ _ _ (inr (absent, inr (inl (sym e ∙ late)))))
      ])

  Post-finish_activation :
      (d : Disk)
      → IsReady d
      → Post Fine (λ d' m. IsInstalled sha256_hex entry d') (finish_activation entry d)
  unfolding finish_activation IsFine IsInstalled IsReady
  Post-finish_activation d ready =
      Post-or_else Fine (λ d' u. (first.destination ≡ none) × IsInstalled sha256_hex entry d') _ _ _
        _ (Post-imp Fine Fine _ _ _ (Post-publish d ready) (λ d' f. f) λ d' u k. (ready.0, k))
        (λ d' f.
          Post->>= Fine _ FineKept _ _ d' (Post-restore_partial d' f)
            λ d'' u g. Post-look Fine _ _ _ d'' (Post-throw Fine _ _ d'' g))
        λ d' k.
          Post-operate Fine _ _ _ d' (λ fs. inr (k.0, inr (inr k.1))) λ fs. Post-done Fine _ _ _ k.1

  Post-stage_partial :
      (d : Disk)
      → IsCalm first d × IsVerified sha256_hex entry d
      → Post Fine
          (λ d' u.
            IsCalm first d'
            × ((bytes : List ℕ) × (d'.staging ≡ some (holds bytes))
                × IsModel sha256_hex entry bytes))
          (stage_partial d)
  unfolding stage_partial IsCalm IsVerified
  Post-stage_partial d (c, (kept, there, model)) =
      Post-read Fine first quiet _ _ _ _ (quiet _ c) λ bytes e.
        let same : kept ≡ bytes = cc in
        Post-operate_last Fine _ _ _ (λ fs. quiet _ c)
          λ fs. (c, (bytes, refl, subst (IsModel sha256_hex entry) same model))

  Post-remove_staging :
      {A : Type 0} (Q : Disk → A → Type 0) (e : ModelManagerError) (d : Disk)
      → Fine d
      → Post Fine Q ((remove_staging_directory >> throw e) d)
  unfolding remove_staging_directory IsFine IsInstalled
  Post-remove_staging Q e d f = Post-operate Fine _ _ _ d (λ fs. f) λ fs. Post-throw Fine _ _ _ f

  exists_false : (directory : Option Directory) → exists directory ≡ false → directory ≡ none
  unfolding exists
  exists_false none h = refl
  exists_false (some x) h = cc

  -- After another process had its turn on a staged file.
  Post-staged :
      (d : Disk)
      → first.destination ≡ none
      → d.destination ≡ none
      → IsCalm first d
        × ((bytes : List ℕ) × (d.staging ≡ some (holds bytes)) × IsModel sha256_hex entry bytes)
      → Post Fine
          (λ d' m. IsInstalled sha256_hex entry d')
          ((others (λ d. d.intruder)
              >> look (λ d. exists d.destination) >>= λ there.
                  if there
                  then restore_partial >> throw (destination_exists entry.id)
                  else finish_activation entry)
            d)
  unfolding others exists ◌>>=◌ IsCalm IsFine IsReady IsModel
  Post-staged d absent none_here (c, model) = rw none_here (elim (Option-cases d.intruder) [
    | inl e ↦ rw e (
        Post-finish_activation (record d { destination = none; intruder = none })
          (absent, refl, c.2, model))
    | inr (other, e) ↦ rw e (
        Post->>= Fine _ FineKept restore_partial (λ u. throw (destination_exists entry.id)) _
          (Post-restore_partial _ (inr (absent, inl (sym e ∙ c.1))))
          λ d'' u g. Post-throw Fine _ _ d'' g)
  ])

  pub Post-activate :
      (d : Disk)
      → IsCalm first d × IsVerified sha256_hex entry d
      → Post Fine (λ d' m. IsInstalled sha256_hex entry d') (activate entry d)
  unfolding activate IsCalm IsVerified
  Post-activate d (c, v) = Post-lift Fine _ _ _ _ (quiet _ c) λ id _.
      Post-lift Fine _ _ _ _ (quiet _ c) λ directory _.
        Post-operate Fine _ _ _ d (λ fs. quiet _ c)
          λ fs. Post-look Fine _ _ _ _ (
            Post-refuse_if Fine _ _ _ _ _ (quiet _ c) λ gone.
              let absent : d.destination ≡ none = exists_false _ gone in
              Post-operate Fine _ _ _ _ (λ fs. quiet _ c)
                λ fs.
                  Post-or_else Fine _ _ _ _ _ (Post-stage_partial _ (c, v))
                    (λ d' f. Post-remove_staging _ _ d' f)
                    λ d' k. Post-staged d' (sym c.0 ∙ absent) (k.0.0 ∙ sym c.0 ∙ absent) k)
