-- ===== src/Domain/Payload.antt =====
-- crates/domain/src/lib.rs, `PcmF32Mono`. An `f32` is its bit pattern, a number below 2 ^ 32: it
-- is finite unless its exponent field is all ones.
use free_whisper.Prelude.{
  ℕ, ◌-◌, ◌*◌, ◌/◌, ◌%◌, ◌^◌, min, Bool, not, List, any, ◌==◌, length, Result, ok, ◌>>◌, refuse_if,
}

unfoldable pub is_finite : ℕ → Bool
is_finite sample = not (sample / 2 ^ 23 % 256 == 255)

-- `u64::saturating_mul`.
unfoldable pub saturating_mul : ℕ → ℕ → ℕ
saturating_mul a b = min (a * b) (2 ^ 64 - 1)

pub record PcmF32Mono : Type 0 where
  pub sample_rate_hz : ℕ
  pub samples : List ℕ

pub data AudioPayloadError : Type 0 where
  zero_sample_rate non_finite_sample : AudioPayloadError

unfoldable pub new : ℕ → List ℕ → Result AudioPayloadError PcmF32Mono
unfolding is_finite
new sample_rate_hz samples = do
  refuse_if (sample_rate_hz == 0) zero_sample_rate
  refuse_if (any (λ sample. not (is_finite sample)) samples) non_finite_sample
  ok (record { sample_rate_hz = sample_rate_hz; samples = samples })

unfoldable pub duration_ms : PcmF32Mono → ℕ
unfolding saturating_mul
duration_ms self = saturating_mul (length self.samples) 1000 / self.sample_rate_hz
