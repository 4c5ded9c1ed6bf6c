-- ===== src/ModelManager/Disk/Post.antt =====
-- What holds where code on the disk ends: of the disk after an error, and of the disk and the value
-- after a success.
use free_whisper.Prelude.{
  ◌≡◌, refl, Bool, true, false, List, [], ◌∷◌, if◌then◌else◌, Result, ok, err,
}
use free_whisper.ModelManager.Error.{ModelManagerError}
use free_whisper.ModelManager.Disk.{
  Disk, M, proceed, ◌>>=◌, ◌>>◌, look, lift, refuse_if, attempt, operate, ignoring,
}

unfoldable pub Post :
    {A : Type 0}
    → (Disk → Type 0)
    → (Disk → A → Type 0)
    → Disk × Result ModelManagerError A
    → Type 0
Post E Q (d, ok a) = Q d a
Post E Q (d, err e) = E d

module _ {A B : Type 0} (E : Disk → Type 0) (Q : Disk → B → Type 0) where
  Post-proceed :
      (P : Disk → A → Type 0) (f : A → M B) (x : Disk × Result ModelManagerError A)
      → Post E P x
      → ((d : Disk) (a : A) → P d a → Post E Q (f a d))
      → Post E Q (proceed x.0 x.1 f)
  unfolding Post
  Post-proceed P f (d, ok a) h k = k d a h
  Post-proceed P f (d, err e) h k = h

  pub Post->>= :
      (P : Disk → A → Type 0) (m : M A) (f : A → M B) (d : Disk)
      → Post E P (m d)
      → ((d' : Disk) (a : A) → P d' a → Post E Q (f a d'))
      → Post E Q ((m >>= f) d)
  unfolding ◌>>=◌
  Post->>= P m f d h k = Post-proceed P f (m d) h k

  pub Post-look :
      (f : Disk → A) (k : A → M B) (d : Disk) → Post E Q (k (f d) d) → Post E Q ((look f >>= k) d)
  unfolding ◌>>=◌
  Post-look f k d h = h

  pub Post-lift :
      (r : Result ModelManagerError A) (k : A → M B) (d : Disk)
      → E d
      → ((a : A) → r ≡ ok a → Post E Q (k a d))
      → Post E Q ((lift r >>= k) d)
  unfolding Post ◌>>=◌
  Post-lift (ok a) k d e h = h a refl
  Post-lift (err x) k d e h = e

module _ {B : Type 0} (E : Disk → Type 0) (Q : Disk → B → Type 0) where
  pub Post-refuse_if :
      (test : Bool) (x : ModelManagerError) (k : M B) (d : Disk)
      → E d
      → (test ≡ false → Post E Q (k d))
      → Post E Q ((refuse_if test x >> k) d)
  unfolding Post ◌>>=◌
  Post-refuse_if true x k d e h = e
  Post-refuse_if false x k d e h = h refl

  pub Post-if :
      (test : Bool) (a b : M B) (d : Disk)
      → (test ≡ true → Post E Q (a d))
      → (test ≡ false → Post E Q (b d))
      → Post E Q ((if test then a else b) d)
  Post-if true a b d h k = h refl
  Post-if false a b d h k = k refl

  pub Post-done : (b : B) (d : Disk) → Q d b → Post E Q (d, ok b)
  unfolding Post
  Post-done b d h = h

  pub Post-throw : (x : ModelManagerError) (d : Disk) → E d → Post E Q (d, err x)
  unfolding Post
  Post-throw x d h = h

  Post-attempt :
      (change : Disk → Disk) (k : M B) (fs : List Bool) (d : Disk)
      → ((faults : List Bool) → E (record d { faults = faults }))
      → ((faults : List Bool) → Post E Q (k (change (record d { faults = faults }))))
      → Post E Q ((attempt fs change >> k) (record d { faults = fs }))
  unfolding Post ◌>>=◌
  Post-attempt change k [] d e q = q []
  Post-attempt change k (true ∷ fs) d e q = e fs
  Post-attempt change k (false ∷ fs) d e q = q fs

  Post-ignoring_at :
      (fs : List Bool) (change : Disk → Disk) (k : M B) (d : Disk)
      → ((faults : List Bool) → Post E Q (k (record d { faults = faults })))
      → ((faults : List Bool) → Post E Q (k (change (record d { faults = faults }))))
      → Post E Q (k (attempt fs change (record d { faults = fs })).0)
  Post-ignoring_at [] change k d e q = q []
  Post-ignoring_at (true ∷ fs) change k d e q = e fs
  Post-ignoring_at (false ∷ fs) change k d e q = q fs

  -- An operation of the file system, and what follows.
  pub Post-operate :
      (change : Disk → Disk) (k : M B) (d : Disk)
      → ((faults : List Bool) → E (record d { faults = faults }))
      → ((faults : List Bool) → Post E Q (k (change (record d { faults = faults }))))
      → Post E Q ((operate change >> k) d)
  unfolding ◌>>=◌ operate
  Post-operate change k d e q = Post-attempt change k d.faults d e q

  pub Post-ignoring :
      (change : Disk → Disk) (k : M B) (d : Disk)
      → ((faults : List Bool) → Post E Q (k (record d { faults = faults })))
      → ((faults : List Bool) → Post E Q (k (change (record d { faults = faults }))))
      → Post E Q ((ignoring (operate change) >> k) d)
  unfolding ◌>>=◌ ignoring operate
  Post-ignoring change k d e q = Post-ignoring_at d.faults change k d e q

module _ (E : Disk → Type 0) (Q : Disk → Unit {0} → Type 0) where
  Post-operate_at :
      (change : Disk → Disk) (fs : List Bool) (d : Disk)
      → ((faults : List Bool) → E (record d { faults = faults }))
      → ((faults : List Bool) → Q (change (record d { faults = faults })) tt)
      → Post E Q (attempt fs change (record d { faults = fs }))
  unfolding Post
  Post-operate_at change [] d e q = q []
  Post-operate_at change (true ∷ fs) d e q = e fs
  Post-operate_at change (false ∷ fs) d e q = q fs

  -- An operation at the end.
  pub Post-operate_last :
      (change : Disk → Disk) (d : Disk)
      → ((faults : List Bool) → E (record d { faults = faults }))
      → ((faults : List Bool) → Q (change (record d { faults = faults })) tt)
      → Post E Q (operate change d)
  unfolding operate
  Post-operate_last change d e q = Post-operate_at change d.faults d e q

-- A weaker claim.
pub Post-imp :
    {A : Type 0} (E F : Disk → Type 0) (P Q : Disk → A → Type 0)
    → (x : Disk × Result ModelManagerError A) → Post E P x
    → ((d : Disk) → E d → F d)
    → ((d : Disk) (a : A) → P d a → Q d a)
    → Post F Q x
unfolding Post
Post-imp E F P Q (d, ok a) h e q = q d a h
Post-imp E F P Q (d, err x) h e q = e d h
