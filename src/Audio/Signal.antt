-- ===== src/Audio/Signal.antt =====
-- What crates/audio/src/lib.rs takes from the arithmetic of `f32`, from wavekat_vad and from rubato.
-- An `f32` is its bit pattern, as in Domain/Payload, and an `i16` is a number that stands for it.
use free_whisper.Prelude.{
  ℕ, ◌+◌, min, ◌-◌, ◌^◌, Bool, List, [], ◌∷◌, ◌++◌, Option, ◌==◌, if◌then◌else◌, length,
}
use free_whisper.Audio.Settings.{VadMode}

-- `mix` is the mean of the channels of a frame, `louder` the peak after a sample, `to_i16` a sample
-- in 16 bits, `to_milli` a peak in thousandths, and `above_half` the test `> 0.5`.
pub record Arithmetic : Type 0 where
  pub mix : (channels : ℕ) (frame : List ℕ) → ℕ
  pub louder : (peak sample : ℕ) → ℕ
  pub to_i16 : ℕ → ℕ
  pub to_milli : ℕ → ℕ
  pub above_half : ℕ → Bool

-- `WebRtcVad`: a detector answers for a frame with a probability, or fails.
pub record Backend : Type 1 where
  pub Detector : Type 0
  pub open_detector : (sample_rate_hz : ℕ) → VadMode → (frame_ms : ℕ) → Option Detector
  pub process : Detector → List ℕ → (sample_rate_hz : ℕ) → Detector × Option ℕ
  pub capability : Detector → ℕ

-- `FftFixedIn`: a resampler turns a chunk of its input size into some samples, or fails, and gives
-- the rest when it is flushed.
pub record Conversion : Type 1 where
  pub Resampler : Type 0
  pub open_resampler : (from to chunk : ℕ) → Option Resampler
  pub convert : Resampler → List ℕ → Option (Resampler × List ℕ)
  pub flush : Resampler → Option (List ℕ)

-- `u64::saturating_add`.
unfoldable pub saturating_add : ℕ → ℕ → ℕ
saturating_add a b = min (a + b) (2 ^ 64 - 1)

-- `chunks_exact(n)` and what is left over, after the samples of an unfinished chunk.
unfoldable pub chunks_exact_from : ℕ → (begun : List ℕ) → List ℕ → List (List ℕ)
chunks_exact_from n begun [] = []
chunks_exact_from n begun (x ∷ xs) =
    let chunk = begun ++ x ∷ [] in
    let rest = chunks_exact_from n (if length chunk == n then [] else chunk) xs in
    if length chunk == n then chunk ∷ rest else rest

unfoldable pub chunks_exact : ℕ → List ℕ → List (List ℕ)
unfolding chunks_exact_from
chunks_exact n xs = chunks_exact_from n [] xs
