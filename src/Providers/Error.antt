-- ===== src/Providers/Error.antt =====
-- crates/providers/src/lib.rs, `ProviderError`. A message that quotes the worker is kept; a message
-- of the code's own is left out.
use free_whisper.Prelude.{ℕ, Text}

pub data ProviderError : Type 0 where
  unavailable unauthorized insecure_endpoint protocol sidecar_outdated : ProviderError
  worker_unavailable worker_protocol : (message : Text) → ProviderError
  model_not_ready : (message : Text) → ProviderError
  cancelled : (request_id : ℕ) → ProviderError
  rejected : (status : ℕ) (message : Text) → ProviderError
