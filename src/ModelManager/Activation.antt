-- ===== src/ModelManager/Activation.antt =====
-- crates/model-manager/src/lib.rs: `ModelManager::activate`, which makes the model's directory of a
-- verified partial file, with `restore_partial`.
use free_whisper.Prelude.{ℕ, Option, none, some, if◌then◌else◌, Result, ok, err, Text}
use free_whisper.ModelManager.Error.{ModelManagerError, destination_exists, io}
use free_whisper.ModelManager.Manifest.{ModelManifestEntry, model_id}
use free_whisper.ModelManager.Paths.{model_directory}
use free_whisper.ModelManager.Disk.{
  Directory, holds, empty, Disk, M, ◌>>=◌, ◌>>◌, done, throw, lift, refuse_if, look, operate,
}
use free_whisper.ModelManager.Files.{exists, bytes_of, model_bytes, nothing}

pub record InstalledModel : Type 0 where
  pub model_id : Text
  pub size_bytes : ℕ
  pub sha256 : Text

unfoldable pub installed : ModelManifestEntry → InstalledModel
installed entry = record {
  model_id = entry.id;
  size_bytes = entry.size_bytes;
  sha256 = entry.sha256;
}

unfoldable pub remove_staging_directory : M (Unit {0})
remove_staging_directory = operate λ d. record d { staging = none }

-- `fs::rename(partial, staged_file)` and back.
unfoldable pub stage_partial : M (Unit {0})
stage_partial = look (λ d. d.partial) >>= bytes_of >>= λ bytes.
    operate λ d. record d { partial = none; staging = some (holds bytes) }

unfoldable pub restore_partial : M (Unit {0})
unfolding model_bytes remove_staging_directory
restore_partial = look (λ d. d.staging) >>= model_bytes >>= λ bytes.
    operate (λ d. record d { partial = some bytes; staging = some empty })
    >> remove_staging_directory

abbrev pub take_place : Option Directory → Option Directory → Option Directory
take_place none other = other
take_place (some directory) other = some directory

-- What other processes do in between.
unfoldable pub others : (Disk → Option Directory) → M (Unit {0})
others who d = (record d { destination = take_place d.destination (who d) }, ok tt)

-- `fs::rename(staging, destination)`: it fails where the destination is there, as on Windows, for
-- which the host is written. Elsewhere an empty directory could be replaced.
unfoldable pub publish : M (Unit {0})
unfolding exists
publish = look (λ d. exists d.destination) >>= λ there.
    if there then throw io else operate λ d. record d { destination = d.staging; staging = none }

-- `if let Err(error) = first { handler }`, and on.
abbrev pub or_else :
    Disk × Result ModelManagerError (Unit {0})
    → {A : Type 0} → M A
    → M A
    → Disk × Result ModelManagerError A
or_else (d, ok u) handler next = next d
or_else (d, err e) handler next = handler d

unfoldable pub finish_activation : ModelManifestEntry → M InstalledModel
unfolding others publish restore_partial exists installed
finish_activation entry d =
    or_else ((others (λ d. d.late_intruder) >> publish) d)
      (restore_partial
        >> look (λ d. exists d.destination) >>= λ there.
            throw (if there then destination_exists entry.id else io))
      (operate (λ d. record d { resume = none }) >> done (installed entry))

unfoldable pub activate : ModelManifestEntry → M InstalledModel
unfolding exists stage_partial remove_staging_directory others restore_partial finish_activation
activate entry = lift (model_id entry) >>= λ id. lift (model_directory id) >>= λ directory.
    operate nothing
    >> look (λ d. exists d.destination) >>= λ there.
        refuse_if there (destination_exists entry.id)
        >> operate (λ d. record d { staging = some empty })
        >> λ d. or_else (stage_partial d) (remove_staging_directory >> throw io) (
            others (λ d. d.intruder)
            >> look (λ d. exists d.destination) >>= λ there.
                if there
                then restore_partial >> throw (destination_exists entry.id)
                else finish_activation entry)
