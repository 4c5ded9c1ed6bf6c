-- ===== src/ModelManager/Manifest.antt =====
-- crates/model-manager/src/lib.rs: the manifest and its verification. What the code takes from
-- other crates is the record `Crates`: JSON, Base64, hexadecimal, URLs, file names, the canonical
-- form of JSON, and Ed25519 signatures.
pub mod Entry
pub mod Trust
use Prim.Native.String.{String}
use free_whisper.Prelude.{
  ℕ, Bool, true, false, not, ◌&&◌, ◌||◌, List, [], ◌∷◌, Option, none, some, any, all, find?,
  is_empty, length, ◌==◌, if◌then◌else◌, Result, ok, err, ok_or, map_err, ◌>>=◌, ◌>>◌, refuse_if,
  Text, codes, text_eq,
}
use free_whisper.Prelude.Str.{trim}
use free_whisper.Domain.Language.{parse_model_id}
use free_whisper.ModelManager.Error.{
  ModelManagerError, invalid_manifest, duplicate_model_id, invalid_public_key, invalid_signature,
  unexpected_trust_scope, unknown_model,
}

pub data ModelPreset : Type 0 where
  fast balanced high_quality : ModelPreset

pub data ModelBackend : Type 0 where
  cpu cuda vulkan open_vino : ModelBackend

pub data ManifestTrustScope : Type 0 where
  alpha stable : ManifestTrustScope

unfoldable pub scope_name : ManifestTrustScope → String
scope_name alpha = "alpha"
scope_name stable = "stable"

unfoldable pub same_scope : ManifestTrustScope → ManifestTrustScope → Bool
same_scope alpha alpha = true
same_scope alpha stable = false
same_scope stable alpha = false
same_scope stable stable = true

unfoldable pub is_cpu : ModelBackend → Bool
is_cpu cpu = true
is_cpu cuda = false
is_cpu vulkan = false
is_cpu open_vino = false

pub record ModelManifestEntry : Type 0 where
  pub id : Text
  pub display_name : Text
  pub preset : ModelPreset
  pub revision : Text
  pub download_url : Text
  pub file_name : Text
  pub size_bytes : ℕ
  pub sha256 : Text
  pub license : Text
  pub license_url : Text
  pub source_url : Text
  pub backend : ModelBackend
  pub quantization : Text
  pub estimated_ram_bytes : ℕ

pub record ModelManifest : Type 0 where
  pub schema_version : ℕ
  pub manifest_version : Text
  pub trust_scope : ManifestTrustScope
  pub models : List ModelManifestEntry

pub record Url : Type 0 where
  pub scheme : Text
  pub has_query : Bool
  pub has_fragment : Bool

pub record Crates : Type 0 where
  pub parse_url : Text → Option Url
  pub path_file_name : Text → Option Text
  pub decode_hex : Text → Option (List ℕ)
  pub decode_base64 : Text → Option (List ℕ)
  pub parse_json : List ℕ → Option ModelManifest
  pub canonical_json : ModelManifest → Option (List ℕ)
  pub parse_public_key : List ℕ → Option (List ℕ)
  pub parse_signature : List ℕ → Option (List ℕ)
  pub is_signed : (public_key message signature : List ℕ) → Bool

unfoldable pub is_incomplete : ModelManifestEntry → Bool
unfolding is_cpu
is_incomplete entry =
    is_empty (trim entry.display_name)
    || is_empty (trim entry.revision)
    || is_empty (trim entry.license)
    || is_empty (trim entry.quantization)
    || not (is_cpu entry.backend)
    || (entry.size_bytes == 0)
    || (entry.estimated_ram_bytes == 0)

unfoldable pub model_id : ModelManifestEntry → Result ModelManagerError Text
model_id entry = map_err (λ e. invalid_manifest "identifier") (parse_model_id entry.id)

unfoldable pub some_eq : Option Text → Text → Bool
some_eq none text = false
some_eq (some t) text = text_eq t text

module _ (crates : Crates) where
  open crates use {
    parse_url, path_file_name, decode_hex, decode_base64, parse_json, canonical_json,
    parse_public_key, parse_signature, is_signed,
  }

  unfoldable pub is_https : Text → Bool
  is_https url = elim (parse_url url) [
    | none ↦ false
    | some parsed ↦ text_eq parsed.scheme (codes "https")
  ]

  unfoldable pub is_download_url : Url → Bool
  is_download_url url =
      text_eq url.scheme (codes "https") && (not url.has_query && not url.has_fragment)

  unfoldable pub validate : ModelManifestEntry → Result ModelManagerError (Unit {0})
  unfolding model_id is_incomplete is_download_url is_https some_eq
  validate entry = do
    _ ← model_id entry
    refuse_if (is_incomplete entry)
        (invalid_manifest "model metadata is incomplete or requests an unsupported backend")
    url ← ok_or (parse_url entry.download_url) (invalid_manifest "invalid download URL")
    refuse_if (not (is_download_url url))
        (invalid_manifest "model downloads must use a query-free HTTPS URL")
    refuse_if (not (is_https entry.license_url && is_https entry.source_url))
        (invalid_manifest "model provenance URLs must use HTTPS")
    refuse_if (not (some_eq (path_file_name entry.file_name) entry.file_name))
        (invalid_manifest "model file name must not contain a path")
    digest ← ok_or (decode_hex entry.sha256) (invalid_manifest "SHA-256 is not hexadecimal")
    refuse_if (not (length digest == 32)) (invalid_manifest "SHA-256 must contain exactly 32 bytes")
    ok tt

  -- The loop over the models, with the set of ids that it has seen.
  unfoldable pub validate_models :
      (ids : List Text) → List ModelManifestEntry → Result ModelManagerError (Unit {0})
  unfolding validate
  validate_models ids [] = ok tt
  validate_models ids (model ∷ models) =
      validate model
      >> refuse_if (any (text_eq model.id) ids) (duplicate_model_id model.id)
      >> validate_models (model.id ∷ ids) models

  unfoldable pub validate_manifest : ModelManifest → Result ModelManagerError (Unit {0})
  unfolding validate_models
  validate_manifest manifest = do
    refuse_if
        (not (manifest.schema_version == 1)
          || is_empty (trim manifest.manifest_version)
          || is_empty manifest.models)
        (invalid_manifest "unsupported schema or empty model list")
    validate_models [] manifest.models

  -- `ManifestVerifier::from_base64`: the verifier is its key.
  unfoldable pub from_base64 : Text → Result ModelManagerError (List ℕ)
  from_base64 value = do
    bytes ← ok_or (decode_base64 value) invalid_public_key
    refuse_if (not (length bytes == 32)) invalid_public_key
    ok_or (parse_public_key bytes) invalid_public_key

  unfoldable pub verify :
      (public_key manifest_bytes : List ℕ) (signature_base64 : Text)
      → Result ModelManagerError ModelManifest
  unfolding validate_manifest
  verify public_key manifest_bytes signature_base64 = do
    manifest ← ok_or (parse_json manifest_bytes) (invalid_manifest "invalid JSON")
    validate_manifest manifest
    bytes ← ok_or (decode_base64 (trim signature_base64)) invalid_signature
    signature ← ok_or (parse_signature bytes) invalid_signature
    canonical ← ok_or (canonical_json manifest) (invalid_manifest "cannot canonicalize manifest")
    refuse_if (not (is_signed public_key canonical signature)) invalid_signature
    ok manifest

  unfoldable pub verify_for_scope :
      (public_key manifest_bytes : List ℕ) (signature_base64 : Text)
      → ManifestTrustScope
      → Result ModelManagerError ModelManifest
  unfolding verify same_scope scope_name
  verify_for_scope public_key manifest_bytes signature_base64 expected_scope = do
    verified ← verify public_key manifest_bytes signature_base64
    refuse_if (not (same_scope verified.trust_scope expected_scope))
        (unexpected_trust_scope (scope_name expected_scope) (scope_name verified.trust_scope))
    ok verified

-- `VerifiedManifest::model`.
unfoldable pub find_model :
    ModelManifest → (id : Text) → Result ModelManagerError ModelManifestEntry
find_model manifest id =
    ok_or (find? (λ entry. text_eq entry.id id) manifest.models) (unknown_model id)
