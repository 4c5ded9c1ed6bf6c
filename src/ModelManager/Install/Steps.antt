-- ===== src/ModelManager/Install/Steps.antt =====
-- crates/model-manager/src/lib.rs, `ModelManager::install`: what its steps before the activation
-- leave of the directory of the model, and the count of bytes that the partial file has.
use free_whisper.Prelude.{
  ℕ, ◌+◌, ◌≡◌, ◌⊎◌, ◌∙◌, inl, inr, refl, ap, arith, not, ◌&&◌, ◌||◌, List, [], ◌∷◌, ◌++◌, Option,
  none, some, ◌==◌, Bool-cases, length, length-append, Text,
}
use free_whisper.ModelManager.Error.{io}
use free_whisper.ModelManager.Manifest.{ModelManifestEntry}
use free_whisper.ModelManager.Disk.{
  ResumeState, ResumeFile, parsed, garbled, Directory, holds, empty, Disk, M, ◌>>=◌, look,
}
use free_whisper.ModelManager.Disk.Post.{
  Post, Post->>=, Post-refuse_if, Post-done, Post-throw, Post-operate, Post-operate_last,
  Post-ignoring,
}
use free_whisper.ModelManager.Files.{is_file, has_resume, bytes_of, model_bytes}
use free_whisper.ModelManager.Resume.{
  ResumeInfo, matches, offset_of, read_resume, resume_offset, write_resume_state,
}
use free_whisper.ModelManager.Install.{
  Event, chunk, broken, write_chunk, fetch, open_partial, accept_status,
}

-- The directory of the model, and what others will make of it, are as on the first disk.
unfoldable pub IsCalm : (first d : Disk) → Type 0
IsCalm first d =
    (d.destination ≡ first.destination)
    × (d.intruder ≡ first.intruder)
    × (d.late_intruder ≡ first.late_intruder)

-- The partial file has this many bytes.
unfoldable pub IsPartial : ℕ → Disk → Type 0
IsPartial n d = (bytes : List ℕ) × (d.partial ≡ some bytes) × (length bytes ≡ n)

-- A download may continue at this byte.
unfoldable pub IsStart : ℕ → Disk → Type 0
unfolding IsPartial
IsStart n d = (n ≡ 0) ⊎ IsPartial n d

module _ (F : Disk → Type 0) (first : Disk) (calm : (d : Disk) → IsCalm first d → F d) where
  module _ {B : Type 0} (Q : Disk → B → Type 0) where
    Post-bytes_of :
        (file : Option (List ℕ)) (k : List ℕ → M B) (d : Disk)
        → F d
        → ((bytes : List ℕ) → file ≡ some bytes → Post F Q (k bytes d))
        → Post F Q ((bytes_of file >>= k) d)
    unfolding ◌>>=◌ bytes_of
    Post-bytes_of none k d c h = Post-throw F Q io d c
    Post-bytes_of (some bytes) k d c h = h bytes refl

    -- A file is read whole.
    pub Post-read :
        (file : Disk → Option (List ℕ)) (k : List ℕ → M B) (d : Disk)
        → F d
        → ((bytes : List ℕ) → file d ≡ some bytes → Post F Q (k bytes d))
        → Post F Q ((look file >>= bytes_of >>= k) d)
    unfolding ◌>>=◌
    Post-read file k d c h = Post-bytes_of (file d) k d c h

    Post-model_bytes :
        (directory : Option Directory) (k : List ℕ → M B) (d : Disk)
        → F d
        → ((bytes : List ℕ) → directory ≡ some (holds bytes) → Post F Q (k bytes d))
        → Post F Q ((model_bytes directory >>= k) d)
    unfolding ◌>>=◌ model_bytes
    Post-model_bytes none k d c h = Post-throw F Q io d c
    Post-model_bytes (some empty) k d c h = Post-throw F Q io d c
    Post-model_bytes (some (holds bytes)) k d c h = h bytes refl

    pub Post-read_model :
        (directory : Disk → Option Directory) (k : List ℕ → M B) (d : Disk)
        → F d
        → ((bytes : List ℕ) → directory d ≡ some (holds bytes) → Post F Q (k bytes d))
        → Post F Q ((look directory >>= model_bytes >>= k) d)
    unfolding ◌>>=◌
    Post-read_model directory k d c h = Post-model_bytes (directory d) k d c h

  abbrev Started : Disk → ResumeInfo → Type 0
  Started d info = IsCalm first d × IsStart info.downloaded_bytes d

  Post-offset_of :
      (entry : ModelManifestEntry) (state : ResumeState) (d : Disk)
      → IsCalm first d
      → Post F Started (offset_of entry state d)
  unfolding offset_of IsCalm IsStart IsPartial
  Post-offset_of entry state d c = elim (Bool-cases (matches state entry)) [
    | inl m ↦
        rw (m, offset_of)
          (Post-operate F _ _ _ d (λ fs. calm _ c)
            λ fs. Post-read _ _ _ _ (calm _ c) λ bytes e.
              Post-refuse_if F _ _ _ _ _ (calm _ c)
                λ fits. Post-done F _ _ _ (c, inr (bytes, e, refl)))
    | inr m ↦
        rw (m, offset_of)
          (Post-operate F _ _ _ d (λ fs. calm _ c)
            λ fs.
              Post-ignoring F _ _ _ _ (λ fs. Post-done F _ _ _ (c, inl refl))
                λ fs. Post-done F _ _ _ (c, inl refl))
  ]

  Post-read_resume :
      (entry : ModelManifestEntry) (file : Option ResumeFile) (d : Disk)
      → IsCalm first d
      → Post F Started (read_resume entry file d)
  unfolding read_resume
  Post-read_resume entry none d c = Post-throw F _ _ _ (calm d c)
  Post-read_resume entry (some garbled) d c = Post-throw F _ _ _ (calm d c)
  Post-read_resume entry (some (parsed state)) d c = Post-offset_of entry state d c

  pub Post-resume_offset :
      (entry : ModelManifestEntry) (d : Disk)
      → IsCalm first d
      → Post F Started (resume_offset entry d)
  unfolding resume_offset ◌>>=◌ IsCalm IsStart
  Post-resume_offset entry d c = elim (Bool-cases (is_file d.partial && has_resume d.resume)) [
    | inl e ↦
        rw (e, resume_offset)
          (Post-operate F _ _ _ d (λ fs. calm _ c)
            λ fs. Post-read_resume entry d.resume (record d { faults = fs }) c)
    | inr e ↦ rw (e, resume_offset) (Post-done F _ _ _ (c, inl refl))
  ]

  pub Post-write_resume_state :
      (entry : ModelManifestEntry) (etag : Option Text) (n : ℕ) (d : Disk)
      → IsCalm first d × IsStart n d
      → Post F (λ d' u. IsCalm first d' × IsStart n d') (write_resume_state entry etag d)
  unfolding write_resume_state IsCalm IsStart IsPartial
  Post-write_resume_state entry etag n d c = Post-operate_last F _ _ d (λ fs. calm _ c.0) λ fs. c

  pub Post-accept_status :
      (n status : ℕ) (d : Disk)
      → IsCalm first d × IsStart n d
      → Post F (λ d' m. IsCalm first d' × IsStart m d') (accept_status n status d)
  unfolding accept_status IsCalm IsStart IsPartial
  Post-accept_status n status d c = elim (Bool-cases (not (n == 0) && (status == 200))) [
    | inl e ↦
        rw (e, accept_status)
          (Post-operate F _ _ _ d (λ fs. calm _ c.0)
            λ fs.
              Post-ignoring F _ _ _ _ (λ fs. Post-done F _ _ _ (c.0, inl refl))
                λ fs. Post-done F _ _ _ (c.0, inl refl))
    | inr e ↦ elim (Bool-cases ((status == 200) || (status == 206))) [
      | inl f ↦ rw (e, f, accept_status) (Post-done F _ _ _ c)
      | inr f ↦ rw (e, f, accept_status) (Post-throw F _ _ _ (calm d c.0))
    ]
  ]

  pub Post-open_partial :
      (n : ℕ) (d : Disk)
      → IsCalm first d × IsStart n d
      → Post F (λ d' u. IsCalm first d' × IsPartial n d') (open_partial n d)
  unfolding open_partial IsCalm IsStart IsPartial
  Post-open_partial n d c = elim (Bool-cases (n == 0)) [
    | inl e ↦
        rw (e, open_partial)
          (Post-operate_last F _ _ d (λ fs. calm _ c.0) λ fs. (c.0, ([], refl, ground (arith, e))))
    | inr e ↦
        rw (e, open_partial)
          (Post-read _ _ _ d (calm _ c.0) λ bytes there.
            Post-operate_last F _ _ d (λ fs. calm _ c.0)
              λ fs. (c.0, elim c.1 [ inl z ↦ absurd (ground (arith, e, z)) | inr p ↦ p ]))
  ]

  Post-write_chunk :
      (bytes : List ℕ) (n : ℕ) (d : Disk)
      → IsCalm first d × IsPartial n d
      → Post F (λ d' u. IsCalm first d' × IsPartial (n + length bytes) d') (write_chunk bytes d)
  unfolding write_chunk IsCalm IsPartial
  Post-write_chunk bytes n d (c, (kept, there, counted)) = Post-read _ _ _ d (calm _ c) λ old e.
      let same : old ≡ kept = cc in
      Post-operate_last F _ _ d (λ fs. calm _ c)
        λ fs. (
          c,
          (
            old ++ bytes,
            refl,
            length-append old bytes ∙ ap (λ k. k + length bytes) (ap length same ∙ counted),
          ),
        )

  pub Post-fetch :
      (entry : ModelManifestEntry) (n : ℕ) (events : List Event) (d : Disk)
      → IsCalm first d × IsPartial n d
      → Post F (λ d' m. IsCalm first d' × IsPartial m d') (fetch entry n events d)
  unfolding fetch IsCalm
  Post-fetch entry n [] d c = Post-done F _ _ _ c
  Post-fetch entry n (Event.interrupted ∷ events) d c =
      Post-operate F _ _ _ d (λ fs. calm _ c.0) λ fs. Post-throw F _ _ _ (calm _ c.0)
  Post-fetch entry n (broken ∷ events) d c = Post-throw F _ _ _ (calm _ c.0)
  Post-fetch entry n (chunk bytes ∷ events) d c = Post-refuse_if F _ _ _ _ _ (calm _ c.0) λ _.
      Post-refuse_if F _ _ _ _ _ (calm _ c.0) λ _.
        Post->>= F _ _ _ _ d (Post-write_chunk bytes n d c)
          λ d' u k. Post-fetch entry (n + length bytes) events d' k
