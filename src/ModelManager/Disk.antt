-- ===== src/ModelManager/Disk.antt =====
-- crates/model-manager/src/lib.rs: the files that one model's installation touches, and the file
-- operations on them. The downloads are named by a hash of
-- the id and the directories by the id, so that a model with an id of its own has its files alone,
-- except where an id is the path of another's directory (`a` and `a/b`) or starts with `.downloads`:
-- such pairs of models are left out, as is what one installation does to another. An operation that can fail asks `faults` first: `true`
-- there is an I/O error, and an operation that failed changed nothing. Another process may create
-- the model's directory while this one stages it, before the second look at that directory
-- (`intruder`) or after it (`late_intruder`). Bytes that a failed write left are not kept.
pub mod Post
use free_whisper.Prelude.{ℕ, Bool, true, false, List, [], ◌∷◌, Option, Result, ok, err, Text}
use free_whisper.ModelManager.Error.{ModelManagerError, io}

-- `ResumeState`.
pub record ResumeState : Type 0 where
  pub download_url : Text
  pub size_bytes : ℕ
  pub sha256 : Text
  pub etag : Option Text

-- A file of resume metadata: what it parses to, if it does.
pub data ResumeFile : Type 0 where
  parsed : ResumeState → ResumeFile
  garbled : ResumeFile

-- A directory that holds the model's file, or does not.
pub data Directory : Type 0 where
  holds : (bytes : List ℕ) → Directory
  empty : Directory

-- An entry of the directory in which the alpha build staged.
pub record LegacyEntry : Type 0 where
  pub name : Text
  pub staged : Option (List ℕ)

pub record Disk : Type 0 where
  pub partial : Option (List ℕ)
  pub resume : Option ResumeFile
  pub destination : Option Directory
  pub staging : Option Directory
  pub legacy : Option (List LegacyEntry)
  pub intruder : Option Directory
  pub late_intruder : Option Directory
  pub faults : List Bool

-- Code that changes the disk and may fail.
abbrev pub M : Type 0 → Type 0
M A = Disk → Disk × Result ModelManagerError A

-- What follows a step that went through.
abbrev pub proceed :
    {A B : Type 0}
    → Disk
    → Result ModelManagerError A
    → (A → M B)
    → Disk × Result ModelManagerError B
proceed d (ok a) f = f a d
proceed d (err e) f = (d, err e)

-- `if test { return Err(e) }`.
unfoldable pub refuse_if : Bool → ModelManagerError → M (Unit {0})
refuse_if true e d = (d, err e)
refuse_if false e d = (d, ok tt)

infixl 5 ◌>>=◌
unfoldable pub ◌>>=◌ : {A B : Type 0} → M A → (A → M B) → M B
unfolding refuse_if
◌>>=◌ m f d = let (d', r) = m d in proceed d' r f

infixr 4 ◌>>◌
abbrev pub ◌>>◌ : {B : Type 0} → M (Unit {0}) → M B → M B
m >> k = m >>= λ done. k

abbrev pub done : {A : Type 0} → A → M A
done a d = (d, ok a)

abbrev pub throw : {A : Type 0} → ModelManagerError → M A
throw e d = (d, err e)

abbrev pub lift : {A : Type 0} → Result ModelManagerError A → M A
lift r d = (d, r)

abbrev pub look : {A : Type 0} → (Disk → A) → M A
look f d = (d, ok (f d))

-- An operation of the file system: it takes the next fault, and changes the disk if that is none.
abbrev pub attempt : List Bool → (Disk → Disk) → M (Unit {0})
attempt [] change d = (change d, ok tt)
attempt (true ∷ faults) change d = (record d { faults = faults }, err io)
attempt (false ∷ faults) change d = (change (record d { faults = faults }), ok tt)

unfoldable pub operate : (Disk → Disk) → M (Unit {0})
operate change d = attempt d.faults change d

-- `let _ = operation`, and an operation that is the last before an error is returned.
unfoldable pub ignoring : M (Unit {0}) → M (Unit {0})
ignoring m d = ((m d).0, ok tt)
