-- ===== src/Worker/Audio/Writer.antt =====
-- apps/worker/src/lib.rs, `pcm_f32le_to_wav`: the WAV file that whisper.cpp is given.
use free_whisper.Prelude.{
  ℕ, suc, zero, ◌+◌, ◌/◌, ◌%◌, ◌^◌, List, [], ◌∷◌, ◌++◌, leb, length, Result, ok, ◌>>◌, refuse_if,
}
use free_whisper.Worker.Audio.{riff, wave, fmt_id, data_id, is_incomplete}

-- `n.to_le_bytes()` at a width in bytes.
unfoldable pub le_bytes : (width : ℕ) → ℕ → List ℕ
le_bytes zero n = []
le_bytes (suc width) n = n % 256 ∷ le_bytes width (n / 256)

pub data ConversionError : Type 0 where
  malformed too_large : ConversionError

-- The 44 bytes before the samples.
unfoldable pub wav_header : (data_size : ℕ) → List ℕ
unfolding le_bytes
wav_header data_size =
    riff
    ++ le_bytes 4 (data_size + 36)
    ++ wave
    ++ fmt_id
    ++ le_bytes 4 16
    ++ le_bytes 2 3
    ++ le_bytes 2 1
    ++ le_bytes 4 16000
    ++ le_bytes 4 64000
    ++ le_bytes 2 4
    ++ le_bytes 2 32
    ++ data_id
    ++ le_bytes 4 data_size

-- Both conversions of a size report the same error.
unfoldable pub pcm_f32le_to_wav : List ℕ → Result ConversionError (List ℕ)
unfolding is_incomplete wav_header
pcm_f32le_to_wav pcm = do
  refuse_if (is_incomplete pcm 4) malformed
  refuse_if (leb (2 ^ 32) (length pcm)) too_large
  refuse_if (leb (2 ^ 32) (length pcm + 36)) too_large
  ok (wav_header (length pcm) ++ pcm)
