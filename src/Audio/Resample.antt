-- ===== src/Audio/Resample.antt =====
-- crates/audio/src/lib.rs: `resample_to_target`.
use free_whisper.Prelude.{
  ℕ, zero, suc, ◌/◌, ◌-◌, List, [], ◌∷◌, ◌++◌, ◌==◌, if◌then◌else◌, length, is_empty, take, Result,
  ok, err, ok_or, ◌>>=◌,
}
use free_whisper.Domain.Payload.{saturating_mul}
use free_whisper.Audio.Settings.{AudioError, resampling}
use free_whisper.Audio.Signal.{Conversion}

-- `vec![0.0; n]`.
unfoldable pub zeros : ℕ → List ℕ
zeros zero = []
zeros (suc n) = 0 ∷ zeros n

-- `chunks(n)`, the last of them padded with zeros; `begun` is what the current chunk has.
unfoldable pub padded_chunks : ℕ → (begun : List ℕ) → List ℕ → List (List ℕ)
unfolding zeros
padded_chunks n begun [] = if is_empty begun then [] else (begun ++ zeros (n - length begun)) ∷ []
padded_chunks n begun (x ∷ xs) =
    let chunk = begun ++ x ∷ [] in
    let rest = padded_chunks n (if length chunk == n then [] else chunk) xs in
    if length chunk == n then chunk ∷ rest else rest

module _ (conversion : Conversion) where
  open conversion use {Resampler, open_resampler, convert, flush}

  -- The loop over the chunks, and the flush.
  unfoldable pub convert_chunks :
      Resampler → (output : List ℕ) → List (List ℕ) → Result AudioError (List ℕ)
  convert_chunks resampler output [] = do
    flushed ← ok_or (flush resampler) resampling
    ok (output ++ flushed)
  convert_chunks resampler output (chunk ∷ chunks) =
      ok_or (convert resampler chunk) resampling >>= λ produced.
      convert_chunks produced.0 (output ++ produced.1) chunks

  unfoldable pub resample_to_target : List ℕ → (sample_rate_hz : ℕ) → Result AudioError (List ℕ)
  unfolding convert_chunks padded_chunks saturating_mul
  resample_to_target input sample_rate_hz =
      if sample_rate_hz == 0
      then err resampling
      else if sample_rate_hz == 16000
      then ok input
      else ok_or (open_resampler sample_rate_hz 16000 1024) resampling >>= λ resampler.
          convert_chunks resampler [] (padded_chunks 1024 [] input) >>= λ output.
          ok (take (saturating_mul (length input) 16000 / sample_rate_hz) output)
