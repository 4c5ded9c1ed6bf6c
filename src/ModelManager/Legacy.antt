-- ===== src/ModelManager/Legacy.antt =====
-- crates/model-manager/src/lib.rs: `recover_legacy_staging_partial`.
use free_whisper.Prelude.{
  Bool, not, ◌&&◌, List, [], ◌∷◌, Option, none, some, if◌then◌else◌, filter, map, Text, codes,
}
use free_whisper.Prelude.Str.{starts_with, ends_with}
use free_whisper.ModelManager.Error.{ambiguous_legacy_staging}
use free_whisper.ModelManager.Manifest.{ModelManifestEntry, model_id}
use free_whisper.ModelManager.Paths.{legacy_staging_parent}
use free_whisper.ModelManager.Disk.{LegacyEntry, M, ◌>>=◌, ◌>>◌, done, throw, lift, look, operate}
use free_whisper.ModelManager.Files.{is_file, has_resume, bytes_of, nothing}

-- A directory in which the alpha build staged this model, with its file.
unfoldable pub has_staged : (prefix : Text) → LegacyEntry → Bool
unfolding is_file
has_staged prefix entry =
    starts_with entry.name prefix
    && (ends_with entry.name (codes ".staging") && is_file entry.staged)

-- The directory after its file was moved out.
unfoldable pub emptied : (prefix : Text) → LegacyEntry → LegacyEntry
unfolding has_staged
emptied prefix entry = if has_staged prefix entry then record entry { staged = none } else entry

-- One candidate is taken; two are an error.
unfoldable pub take_candidate :
    ModelManifestEntry → (prefix : Text) (entries candidates : List LegacyEntry) → M (Unit {0})
unfolding has_staged emptied
take_candidate entry prefix entries [] = done tt
take_candidate entry prefix entries (first ∷ second ∷ rest) =
    throw (ambiguous_legacy_staging entry.id)
take_candidate entry prefix entries (candidate ∷ []) =
    look (λ d. candidate.staged) >>= bytes_of >>= λ bytes.
    operate (λ d. record d { partial = some bytes; legacy = some (map (emptied prefix) entries) })
    >> operate λ d. record d { legacy = some (filter (λ e. not (has_staged prefix e)) entries) }

unfoldable pub recover_from :
    ModelManifestEntry → (prefix : Text) (legacy : Option (List LegacyEntry)) → M (Unit {0})
unfolding has_staged take_candidate
recover_from entry prefix none = done tt
recover_from entry prefix (some entries) =
    take_candidate entry prefix entries (filter (has_staged prefix) entries)

unfoldable pub recover_legacy : ModelManifestEntry → M (Unit {0})
unfolding is_file has_resume recover_from
recover_legacy entry = look (λ d. not (is_file d.partial) && has_resume d.resume) >>= λ may_recover.
    if may_recover
    then (lift (model_id entry) >>= λ id. lift (legacy_staging_parent id) >>= λ place.
        operate nothing >> look (λ d. d.legacy) >>= recover_from entry place.1)
    else done tt
