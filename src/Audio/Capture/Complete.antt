-- ===== src/Audio/Capture/Complete.antt =====
-- crates/audio/src/lib.rs: a recording that finishes well has lost nothing.
use free_whisper.Prelude.{
  ℕ, ◌≤◌, ◌≡◌, ◌∙◌, sym, ap, subst, arith, Bool, false, ltb, List, take_all, is_empty, ◌||◌, All,
  if◌then◌else◌, Result, ok, err, map_err, ◌>>◌, >>=-eq-ok, ok_eq, refuse_if, refuse_if-eq-ok,
}
use free_whisper.Audio.Settings.{
  RecordingSettings, AudioError, start_capture, device_lost, buffer_overflow,
  duration_limit_reached, vad_failed, empty_recording, payload,
}
use free_whisper.Audio.Signal.{Arithmetic, Backend, Conversion}
use free_whisper.Domain.Payload as Payload
use free_whisper.Audio.Vad.{analyze_speech}
use free_whisper.Audio.Resample.{resample_to_target}
use free_whisper.Audio.Capture.{
  RecordingHandle, FinalizedRecording, Callback, start, finish, capture_callback_failure,
  vad_has_failed,
}
use free_whisper.Audio.Capture.Kept.{
  IsDelivered, run, heard_in, run_kept, run_rate, events-IsDelivered, start-Keeps,
}

new_keeps_samples :
    (samples : List ℕ) (audio : Payload.PcmF32Mono)
    → map_err payload (Payload.new 16000 samples) ≡ ok audio
    → audio.samples ≡ samples
unfolding Payload.new
new_keeps_samples samples audio h = ground arith

not_over : (c a : ℕ) → ltb c a ≡ false → a ≤ c
not_over c a h = ground arith

both_false : (a b : Bool) → a ≡ false → b ≡ false → (a || b) ≡ false
both_false a b h k = ground arith

module _ (arithmetic : Arithmetic) (backend : Backend) where
  open arithmetic use {mix}
  open backend use {Detector}

  module _ (conversion : Conversion) where
    -- What a recording that finishes well went through.
    finish_sound :
        (pauses : Bool) (handle : RecordingHandle Detector) (recording : FinalizedRecording)
        → finish arithmetic backend conversion pauses handle ≡ ok recording
        → ((handle.stream_error || handle.callback_overflow) ≡ false)
          × (handle.state.limit_reached ≡ false)
          × (resample_to_target conversion handle.state.samples handle.state.sample_rate_hz
              ≡ ok recording.audio.samples)
          × (analyze_speech arithmetic backend recording.audio.samples handle.settings.vad
              ≡ ok recording.speech)
    unfolding finish capture_callback_failure
    finish_sound pauses handle recording h =
        let (a, paused, h) = >>=-eq-ok (if pauses then ok tt else err start_capture) _ h in
        let (b, quiet, h) =
          >>=-eq-ok
            (refuse_if handle.stream_error device_lost
              >> refuse_if handle.callback_overflow buffer_overflow)
            _ h in
        let (c, held, calm) = >>=-eq-ok (refuse_if handle.stream_error device_lost) _ quiet in
        let (d, limit, h) =
          >>=-eq-ok (refuse_if handle.state.limit_reached duration_limit_reached) _ h in
        let (e, voice, h) =
          >>=-eq-ok (refuse_if (vad_has_failed handle.state.live_vad) vad_failed) _ h in
        let (f, filled, h) =
          >>=-eq-ok (refuse_if (is_empty handle.state.samples) empty_recording) _ h in
        let (normalized, resampled, h) =
          >>=-eq-ok (resample_to_target conversion handle.state.samples handle.state.sample_rate_hz)
            _ h in
        let (speech, judged, h) =
          >>=-eq-ok (analyze_speech arithmetic backend normalized handle.settings.vad) _ h in
        let (audio, checked, h) = >>=-eq-ok (map_err payload (Payload.new 16000 normalized)) _ h in
        let kept : audio.samples ≡ normalized = new_keeps_samples normalized audio checked in
        let whole : FinalizedRecording = record { audio = audio; speech = speech } in
        let same : whole ≡ recording = ok_eq h in
        (
          both_false _ _ (refuse_if-eq-ok _ _ held) (refuse_if-eq-ok _ _ calm),
          refuse_if-eq-ok _ _ limit,
          resampled ∙ ap ok (sym kept ∙ ap (λ r. r.audio.samples) same),
          subst
              (λ r.
                analyze_speech arithmetic backend r.audio.samples handle.settings.vad ≡ ok r.speech)
              same (rw kept judged),
        )

    -- A recording that finishes well is complete: each callback delivered its samples, the samples
    -- are all that were heard, and the audio is these samples at 16 kHz, with the speech that was
    -- found in it.
    pub finish_is_complete :
        (reserve : ℕ → ℕ) (device : Result AudioError (ℕ × ℕ)) (settings : RecordingSettings)
        → (handle : RecordingHandle Detector) (events : List Callback) (pauses : Bool)
        → (recording : FinalizedRecording)
        → start arithmetic backend reserve device settings ≡ ok handle
        → finish arithmetic backend conversion pauses (run arithmetic backend handle events)
          ≡ ok recording
        → All IsDelivered events
          × ((run arithmetic backend handle events).state.samples
              ≡ heard_in arithmetic backend handle.state.channels events)
          × (resample_to_target conversion
                (heard_in arithmetic backend handle.state.channels events)
                handle.state.sample_rate_hz
              ≡ ok recording.audio.samples)
          × (analyze_speech arithmetic backend recording.audio.samples
                (run arithmetic backend handle events).settings.vad
              ≡ ok recording.speech)
    finish_is_complete reserve device settings handle events pauses recording started finished =
        let (quiet, within, resampled, judged) =
          finish_sound pauses (run arithmetic backend handle events) recording finished in
        let (kept, limit) =
          run_kept arithmetic backend events handle
            (start-Keeps arithmetic backend reserve device settings handle started) in
        let all : (run arithmetic backend handle events).state.samples
            ≡ heard_in arithmetic backend handle.state.channels events =
          kept ∙ take_all _ _ (not_over _ _ (sym limit ∙ within)) in
        (
          events-IsDelivered arithmetic backend events handle quiet,
          all,
          subst
              (λ s.
                resample_to_target conversion s handle.state.sample_rate_hz
                ≡ ok recording.audio.samples)
              all
              (subst
                (λ r.
                  resample_to_target conversion (run arithmetic backend handle events).state.samples
                    r
                  ≡ ok recording.audio.samples)
                (run_rate arithmetic backend events handle) resampled),
          judged,
        )
