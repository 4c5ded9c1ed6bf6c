-- ===== src/Audio/Capture/Kept.antt =====
-- crates/audio/src/lib.rs: a recording keeps what was delivered, up to its capacity.
use free_whisper.Prelude.{
  ℕ, ◌≤◌, ◌<◌, ◌≡◌, ◌∙◌, refl, sym, ap, subst, arith, inl, inr, Bool, true, false, ltb, List, [],
  ◌∷◌, ◌++◌, map, append_assoc, append-nil, take, take_all, take_more, length-take_most,
  length-take_less, length, length-append, ◌==◌, ==_iff, ◌||◌, All, lt→ltb, Bool-cases, Result, ok,
  ◌>>◌, >>=-eq-ok, ok_eq,
}
use free_whisper.Audio.Settings.{RecordingSettings, AudioError, validate_settings}
use free_whisper.Audio.Signal.{Arithmetic, Backend, chunks_exact}
use free_whisper.Audio.Capture.{
  CaptureState, RecordingHandle, Callback, delivered, contended, broken, new, start, keep_sample,
  append_frames, append, call_back,
}

clash : (b : Bool) → b ≡ true → b ≡ false → ⊥
clash b h k = ground arith

both_within : (c a b : ℕ) → a ≤ c → b ≤ c → ltb c a ≡ ltb c b
both_within c a b h k = ground arith

nothing_over : (c : ℕ) → false ≡ ltb c 0
nothing_over c = ground arith

unfoldable pub IsDelivered : Callback → Type 0
IsDelivered (delivered input) = Unit
IsDelivered (contended input) = ⊥
IsDelivered broken = ⊥

module _ (arithmetic : Arithmetic) (backend : Backend) where
  open arithmetic use {mix}
  open backend use {Detector}

  -- The samples are the first that were heard, and the limit says whether more were.
  unfoldable pub Keeps : (heard : List ℕ) → CaptureState Detector → Type 0
  Keeps heard state =
      (state.samples ≡ take state.capacity heard)
      × (state.limit_reached ≡ ltb state.capacity (length heard))

  append_frames-Keeps :
      (frames : List (List ℕ)) (heard : List ℕ) (state : CaptureState Detector)
      → Keeps heard state
      → Keeps
          (heard ++ map (mix state.channels) frames)
          (append_frames arithmetic backend state frames)
  unfolding append_frames keep_sample Keeps
  append_frames-Keeps [] heard state k = rw (append-nil heard) k
  append_frames-Keeps (frame ∷ frames) heard state (kept, limited) =
      elim (Bool-cases (length state.samples == state.capacity)) [
        | inl full ↦
            let long : state.capacity ≤ length heard =
              ground (
                arith,
                (==_iff _ _).0 full,
                ap length kept,
                length-take_most state.capacity heard,
              ) in
            rw full (
              kept ∙ sym (take_more state.capacity heard _ long),
              sym (
                  lt→ltb _ _ (
                    omega (
                      arith,
                      long,
                      length-append heard
                          (mix state.channels frame ∷ map (mix state.channels) frames),
                    ))),
            )
        | inr room ↦
            let short : length heard < state.capacity =
              length-take_less state.capacity heard
                (λ e. ground (arith, room, ap length kept, e)) in
            rw room (
              subst
                (λ h. Keeps h (
                  append_frames arithmetic backend
                    (keep_sample arithmetic backend state (mix state.channels frame)) frames))
                (append_assoc heard (mix state.channels frame ∷ [])
                  (map (mix state.channels) frames))
                (append_frames-Keeps frames (heard ++ mix state.channels frame ∷ [])
                  (keep_sample arithmetic backend state (mix state.channels frame))
                  (
                    ap (λ s. s ++ mix state.channels frame ∷ [])
                          (kept ∙ take_all state.capacity heard (omega (arith, short)))
                        ∙ sym (
                            take_all state.capacity _ (
                              omega (
                                arith,
                                short,
                                length-append heard (mix state.channels frame ∷ []),
                              ))),
                    limited
                        ∙ both_within state.capacity _ _ (omega (arith, short)) (
                            omega
                              (arith, short, length-append heard (mix state.channels frame ∷ []))),
                  )))
      ]

  append_frames_format :
      (frames : List (List ℕ)) (state : CaptureState Detector)
      → ((append_frames arithmetic backend state frames).channels ≡ state.channels)
        × ((append_frames arithmetic backend state frames).sample_rate_hz ≡ state.sample_rate_hz)
  unfolding append_frames keep_sample
  append_frames_format [] state = (refl, refl)
  append_frames_format (frame ∷ frames) state =
      elim (Bool-cases (length state.samples == state.capacity)) [
        | inl full ↦ rw full (refl, refl)
        | inr room ↦ rw room (
            append_frames_format frames
              (keep_sample arithmetic backend state (mix state.channels frame)))
      ]

  -- The callbacks of a recording, in their order.
  unfoldable pub run : RecordingHandle Detector → List Callback → RecordingHandle Detector
  unfolding call_back
  run handle [] = handle
  run handle (event ∷ events) = run (call_back arithmetic backend handle event) events

  -- The samples of one channel that the device delivered.
  unfoldable pub heard_in : (channels : ℕ) → List Callback → List ℕ
  unfolding chunks_exact
  heard_in channels [] = []
  heard_in channels (delivered input ∷ events) =
      map (mix channels) (chunks_exact channels input) ++ heard_in channels events
  heard_in channels (contended input ∷ events) = heard_in channels events
  heard_in channels (broken ∷ events) = heard_in channels events

  pub run-Keeps :
      (events : List Callback) (heard : List ℕ) (handle : RecordingHandle Detector)
      → Keeps heard handle.state
      → Keeps (heard ++ heard_in handle.state.channels events) (run handle events).state
  unfolding run heard_in call_back append
  run-Keeps [] heard handle k = rw (append-nil heard) k
  run-Keeps (contended input ∷ events) heard handle k =
      run-Keeps events heard (record handle { callback_overflow = true }) k
  run-Keeps (broken ∷ events) heard handle k =
      run-Keeps events heard (record handle { stream_error = true }) k
  run-Keeps (delivered input ∷ events) heard handle k =
      let next : CaptureState Detector =
        append_frames arithmetic backend handle.state (chunks_exact handle.state.channels input) in
      let same : next.channels ≡ handle.state.channels =
        (append_frames_format (chunks_exact handle.state.channels input) handle.state).0 in
      let now : Keeps
          (heard ++ map (mix handle.state.channels) (chunks_exact handle.state.channels input))
          next =
        append_frames-Keeps (chunks_exact handle.state.channels input) heard handle.state k in
      subst (λ h. Keeps h (run (record handle { state = next }) events).state)
        (append_assoc heard _ (heard_in next.channels events)
          ∙ ap
              (λ c.
                heard
                ++ (map (mix handle.state.channels) (chunks_exact handle.state.channels input)
                    ++ heard_in c events))
              same)
        (run-Keeps events _ (record handle { state = next }) now)

  pub run_rate :
      (events : List Callback) (handle : RecordingHandle Detector)
      → (run handle events).state.sample_rate_hz ≡ handle.state.sample_rate_hz
  unfolding run call_back append
  run_rate [] handle = refl
  run_rate (contended input ∷ events) handle =
      run_rate events (record handle { callback_overflow = true })
  run_rate (broken ∷ events) handle = run_rate events (record handle { stream_error = true })
  run_rate (delivered input ∷ events) handle =
      run_rate events (record handle { state = append arithmetic backend handle.state input })
      ∙ (append_frames_format (chunks_exact handle.state.channels input) handle.state).1

  run_keeps_flags :
      (events : List Callback) (handle : RecordingHandle Detector)
      → (handle.stream_error || handle.callback_overflow) ≡ true
      → ((run handle events).stream_error || (run handle events).callback_overflow) ≡ true
  unfolding run call_back
  run_keeps_flags [] handle h = h
  run_keeps_flags (contended input ∷ events) handle h =
      run_keeps_flags events (record handle { callback_overflow = true }) (ground (arith, h))
  run_keeps_flags (broken ∷ events) handle h =
      run_keeps_flags events (record handle { stream_error = true }) refl
  run_keeps_flags (delivered input ∷ events) handle h =
      run_keeps_flags events (call_back arithmetic backend handle (delivered input)) h

  pub events-IsDelivered :
      (events : List Callback) (handle : RecordingHandle Detector)
      → ((run handle events).stream_error || (run handle events).callback_overflow) ≡ false
      → All IsDelivered events
  unfolding run call_back IsDelivered
  events-IsDelivered [] handle h = tt
  events-IsDelivered (contended input ∷ events) handle h = absurd (
      clash _ (run_keeps_flags events (record handle { callback_overflow = true }) (ground arith))
        h)
  events-IsDelivered (broken ∷ events) handle h =
      absurd (clash _ (run_keeps_flags events (record handle { stream_error = true }) refl) h)
  events-IsDelivered (delivered input ∷ events) handle h = (tt, events-IsDelivered events _ h)

  pub start-Keeps :
      (reserve : ℕ → ℕ) (device : Result AudioError (ℕ × ℕ)) (settings : RecordingSettings)
      → (handle : RecordingHandle Detector)
      → start arithmetic backend reserve device settings ≡ ok handle
      → Keeps [] handle.state
  unfolding start new Keeps
  start-Keeps reserve device settings handle h =
      let (format, known, made) = >>=-eq-ok (validate_settings settings >> device) _ h in
      subst (λ r. Keeps [] r.state) (ok_eq made) (sym (take_all _ [] (omega arith)), nothing_over _)

  pub run_kept :
      (events : List Callback) (handle : RecordingHandle Detector)
      → Keeps [] handle.state
      → ((run handle events).state.samples
          ≡ take (run handle events).state.capacity (heard_in handle.state.channels events))
        × ((run handle events).state.limit_reached
            ≡ ltb
                (run handle events).state.capacity
                (length (heard_in handle.state.channels events)))
  unfolding Keeps
  run_kept events handle k = run-Keeps events [] handle k
