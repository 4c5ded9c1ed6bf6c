-- ===== src/ModelManager/Files.antt =====
-- crates/model-manager/src/lib.rs: whether the files of an installation are there, and their bytes.
use free_whisper.Prelude.{ℕ, Bool, true, false, List, Option, none, some}
use free_whisper.ModelManager.Error.{io}
use free_whisper.ModelManager.Disk.{ResumeFile, Directory, holds, empty, Disk, M, done, throw}

unfoldable pub is_file : Option (List ℕ) → Bool
is_file none = false
is_file (some bytes) = true

unfoldable pub has_resume : Option ResumeFile → Bool
has_resume none = false
has_resume (some file) = true

unfoldable pub exists : Option Directory → Bool
exists none = false
exists (some directory) = true

-- `destination.join(file_name).is_file()`.
unfoldable pub model_is_file : Option Directory → Bool
model_is_file none = false
model_is_file (some empty) = false
model_is_file (some (holds bytes)) = true

-- The bytes of a file: reading one that is not there is an I/O error.
unfoldable pub bytes_of : Option (List ℕ) → M (List ℕ)
bytes_of none = throw io
bytes_of (some bytes) = done bytes

unfoldable pub model_bytes : Option Directory → M (List ℕ)
model_bytes none = throw io
model_bytes (some empty) = throw io
model_bytes (some (holds bytes)) = done bytes

abbrev pub nothing : Disk → Disk
nothing d = d
