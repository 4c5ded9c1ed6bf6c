-- ===== src/Domain/Transcript.antt =====
-- crates/domain/src/lib.rs, `AppliedCorrection`. Ids and times are numbers, texts are lists of
-- scalar values; `start_char` and `end_char` are `u32`.
use free_whisper.Prelude.{ℕ, Text}

pub record AppliedCorrection : Type 0 where
  pub id : ℕ
  pub variant_id : ℕ
  pub original : Text
  pub replacement : Text
  pub start_char : ℕ
  pub end_char : ℕ
  pub applied_at : ℕ
