-- ===== src/ModelManager/Error.antt =====
-- crates/model-manager/src/lib.rs, `ModelManagerError`. A reason is the code's own text, without
-- what the error of a crate adds to it.
use Prim.Native.String.{String}
use free_whisper.Prelude.{ℕ, Text}

pub data ModelManagerError : Type 0 where
  invalid_manifest : (reason : String) → ModelManagerError
  duplicate_model_id : Text → ModelManagerError
  invalid_public_key invalid_signature : ModelManagerError
  unexpected_trust_scope : (expected actual : String) → ModelManagerError
  unknown_model not_installed : (id : Text) → ModelManagerError
  download : ModelManagerError
  download_status : (status : ℕ) → ModelManagerError
  cancelled : ModelManagerError
  size_mismatch : (expected actual : ℕ) → ModelManagerError
  size_overflow : ModelManagerError
  hash_mismatch : (expected actual : Text) → ModelManagerError
  invalid_resume : ModelManagerError
  destination_exists ambiguous_legacy_staging unsafe_model_storage_path :
      (id : Text) → ModelManagerError
  io : ModelManagerError
