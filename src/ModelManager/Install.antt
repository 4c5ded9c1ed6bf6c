-- ===== src/ModelManager/Install.antt =====
-- crates/model-manager/src/lib.rs, `ModelManager::install` and what it calls. `sha256_hex` is the
-- crates' digest of a file's bytes in hexadecimal. The random name of a staging directory is never
-- that of another. What the user and the network do is an argument:
-- whether the user had cancelled, how the request was answered, and what the stream then gave.
-- The progress that is reported on the way decides nothing.
pub mod Steps
pub mod Verified
pub mod Publish
pub mod Safety
pub mod Stuck
pub mod Resumed
pub mod Again
use free_whisper.Prelude.{
  ℕ, ◌+◌, ◌^◌, Bool, true, false, not, ◌&&◌, ◌||◌, List, [], ◌∷◌, ◌++◌, Option, none, some, ltb,
  ◌==◌, if◌then◌else◌, filter, length, Result, ok, err, Text, codes, text_eq,
}
use free_whisper.Prelude.Str.{to_ascii_lowercase, starts_with, ends_with}
use free_whisper.ModelManager.Error.{
  ModelManagerError, unknown_model, not_installed, download, download_status, cancelled,
  size_mismatch, size_overflow, hash_mismatch, invalid_resume, destination_exists,
  ambiguous_legacy_staging, io,
}
use free_whisper.ModelManager.Manifest.{ModelManifestEntry, ModelManifest, find_model, model_id}
use free_whisper.ModelManager.Paths.{model_directory, legacy_staging_parent}
use free_whisper.ModelManager.Disk.{
  ResumeState, ResumeFile, parsed, garbled, Directory, holds, empty, LegacyEntry, Disk, M, ◌>>=◌,
  ◌>>◌, done, throw, lift, refuse_if, look, operate, ignoring,
}
use free_whisper.ModelManager.Files.{
  is_file, has_resume, exists, model_is_file, bytes_of, model_bytes, nothing,
}
use free_whisper.ModelManager.Resume.{
  ResumeInfo, no_resume, matches, offset_of, read_resume, resume_offset, write_resume_state,
}
use free_whisper.ModelManager.Activation.{
  InstalledModel, installed, remove_staging_directory, stage_partial, restore_partial, others,
  publish, or_else, finish_activation, activate,
}
use free_whisper.ModelManager.Legacy.{recover_legacy}

pub data Event : Type 0 where
  chunk : List ℕ → Event
  interrupted broken : Event

pub data Answer : Type 0 where
  interrupted failed : Answer
  response : (status : ℕ) (etag : Option Text) (stream : List Event) → Answer

unfoldable pub write_chunk : List ℕ → M (Unit {0})
write_chunk bytes = look (λ d. d.partial) >>= bytes_of >>= λ kept.
    operate λ d. record d { partial = some (kept ++ bytes) }

-- The loop over the stream: the count of bytes that the file has.
unfoldable pub fetch : ModelManifestEntry → (downloaded : ℕ) → List Event → M ℕ
unfolding write_chunk
fetch entry downloaded [] = done downloaded
fetch entry downloaded (Event.interrupted ∷ events) = operate nothing >> throw cancelled
fetch entry downloaded (broken ∷ events) = throw download
fetch entry downloaded (chunk bytes ∷ events) =
    refuse_if (not (ltb (downloaded + length bytes) (2 ^ 64))) size_overflow
    >> refuse_if (ltb entry.size_bytes (downloaded + length bytes))
        (size_mismatch entry.size_bytes (downloaded + length bytes))
    >> write_chunk bytes
    >> fetch entry (downloaded + length bytes) events

-- The file that is written to: a new one, or the partial one at its end.
unfoldable pub open_partial : (downloaded : ℕ) → M (Unit {0})
open_partial downloaded =
    if downloaded == 0
    then operate (λ d. record d { partial = some [] })
    else (look (λ d. d.partial) >>= bytes_of >>= λ kept. operate nothing)

-- What the status says of the bytes that are there: a full answer replaces them.
unfoldable pub accept_status : (downloaded status : ℕ) → M ℕ
accept_status downloaded status =
    if not (downloaded == 0) && (status == 200)
    then (operate (λ d. record d { partial = none })
        >> ignoring (operate (λ d. record d { resume = none }))
        >> done 0)
    else if (status == 200) || (status == 206)
    then done downloaded
    else throw (download_status status)

module _ (sha256_hex : List ℕ → Text) where
  unfoldable pub check_hash : List ℕ → (expected : Text) → M (Unit {0})
  check_hash bytes expected =
      refuse_if (not (text_eq (sha256_hex bytes) (to_ascii_lowercase expected)))
        (hash_mismatch expected (sha256_hex bytes))

  -- `verify_file_hash(&partial, …)`: opening and reading the file, and the comparison.
  unfoldable pub verify_partial : ModelManifestEntry → M (Unit {0})
  unfolding check_hash
  verify_partial entry =
      operate nothing
      >> look (λ d. d.partial) >>= bytes_of >>= λ bytes. check_hash bytes entry.sha256

  unfoldable pub validate_installed : ModelManifestEntry → M InstalledModel
  unfolding model_bytes check_hash installed
  validate_installed entry =
      operate nothing
      >> look (λ d. d.destination) >>= model_bytes >>= λ bytes.
          refuse_if (not (length bytes == entry.size_bytes))
            (size_mismatch entry.size_bytes (length bytes))
          >> operate nothing
          >> check_hash bytes entry.sha256
          >> done (installed entry)

  unfoldable pub receive : ModelManifestEntry → (downloaded : ℕ) → Answer → M InstalledModel
  unfolding accept_status write_resume_state open_partial fetch verify_partial activate
  receive entry downloaded interrupted = throw cancelled
  receive entry downloaded failed = throw download
  receive entry downloaded (response status etag stream) =
      accept_status downloaded status >>= λ start.
      write_resume_state entry etag
      >> open_partial start
      >> fetch entry start stream >>= λ total.
          operate nothing
          >> refuse_if (not (total == entry.size_bytes)) (size_mismatch entry.size_bytes total)
          >> verify_partial entry
          >> activate entry

  unfoldable pub download_model :
      ModelManifestEntry
      → (request : (range : ℕ) (if_range : Option Text) → Answer) → M InstalledModel
  unfolding resume_offset verify_partial activate receive
  download_model entry request = resume_offset entry >>= λ info.
      if info.downloaded_bytes == entry.size_bytes
      then verify_partial entry >> activate entry
      else receive entry info.downloaded_bytes (request info.downloaded_bytes info.etag)

  unfoldable pub install :
      ModelManifest
      → (id : Text) (is_cancelled : Bool)
      → (request : (range : ℕ) (if_range : Option Text) → Answer) → M InstalledModel
  unfolding model_is_file validate_installed recover_legacy download_model
  install manifest id is_cancelled request = lift (find_model manifest id) >>= λ entry.
      lift (model_id entry) >>= λ parsed_id. lift (model_directory parsed_id) >>= λ directory.
      look (λ d. model_is_file d.destination) >>= λ there.
      if there
      then validate_installed entry
      else (operate nothing
          >> recover_legacy entry
          >> refuse_if is_cancelled cancelled
          >> download_model entry request)

  -- `validate_installed_model`, by which a model is activated without a connection.
  unfoldable pub validate_installed_model : ModelManifest → (id : Text) → M InstalledModel
  unfolding model_is_file validate_installed
  validate_installed_model manifest id = lift (find_model manifest id) >>= λ entry.
      lift (model_id entry) >>= λ parsed_id. lift (model_directory parsed_id) >>= λ directory.
      look (λ d. model_is_file d.destination) >>= λ there.
      refuse_if (not there) (not_installed id) >> validate_installed entry

unfoldable pub delete : (id : Text) → M (Unit {0})
unfolding exists
delete id = lift (model_directory id) >>= λ directory. look (λ d. exists d.destination) >>= λ there.
    refuse_if (not there) (unknown_model id) >> operate λ d. record d { destination = none }
