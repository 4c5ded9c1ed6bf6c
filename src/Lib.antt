-- ===== src/Lib.antt =====
-- free-whisper is a dictation program. A desktop host records speech, hands the recording to a
-- speech engine, which runs locally or behind a worker's HTTP interface, applies the user's
-- corrections to the transcript and pastes the result into the window that had the focus. This
-- library models the parts that decide and keep state.
--
-- The files, with the code that each is about:
--   Prelude and its children: tests on numbers, lists, `Result`, stable sorting, and `str`.
--   Domain/Job: crates/domain/src/lib.rs, `AppState` and `JobStateMachine`.
--   Domain/Catalogue, Domain/Language: the same file, the Whisper languages and `ModelId`.
--   Domain/Payload, Domain/Transcript: the same file, `PcmF32Mono` and `AppliedCorrection`.
--   Application/Coordinator, Application/Queue, Application/Registry:
--     crates/application/src/lib.rs, `RecordingCoordinator`, `BoundedJobQueue` and
--     `JobStateRegistry`, which the desktop host calls for every recording.
--   Lexicon/Entry, Lexicon/Prompt, Lexicon/Correction: crates/lexicon/src/lib.rs, the entries and
--     their validation, `select_prompt_terms`, and `apply_corrections` with `render_corrections`.
--   Worker/Failure, Worker/Limiter, Worker/Audio, Worker/Options, Worker/Multipart and
--     Worker/Service: apps/worker/src/lib.rs, the failures, `check_rate_limit`, the validation of
--     PCM and WAV audio, `pcm_f32le_to_wav` in Worker/Audio/Writer, `validate_options`,
--     `parse_multipart`, and the handlers `transcribe` and `cancel` on `WorkerState`. The data
--     types of crates/protocol/src/lib.rs come with them.
--   Desktop/Slot: apps/desktop/src-tauri/src/lib.rs, `reserve_processing_slot` and the functions
--     that clear and cancel the slot and the queue behind it.
--   Platform/Hotkey, Platform/Paste: crates/platform-windows/src/lib.rs, `HotkeyBinding` and
--     `evaluate_paste_policy`.
--   ModelManager: crates/model-manager/src/lib.rs. Manifest has the catalogue, its validation and
--     `ManifestVerifier`; Paths has `model_directory`; Disk has the files of one model and the
--     operations on them; Resume, Activation, Legacy and Install have the functions that
--     `ModelManager::install` is made of, and Install `delete` and `validate_installed_model`.
--   Audio: crates/audio/src/lib.rs. Settings has the settings and their validation, Capture the
--     `CaptureState`, the callbacks of the stream and the `RecordingHandle`, Vad the `LiveVad` and
--     `analyze_speech`, Resample `resample_to_target`. Signal has the parameters of these.
--   Providers: crates/providers/src/lib.rs. Endpoint has `validate_endpoint` and the making of a
--     client, Client what it sends and how it reads the answers, Sidecar the checks of a worker on
--     the same machine. The worker's side of the same exchange is in Worker.
--   Storage/Models: crates/storage/src/lib.rs, `InstalledModelRepository`, with its statements as
--     functions on the list of the rows.
-- A child module named for a topic has the proofs of its parent, and Tests modules have concrete
-- runs.
--
-- How code becomes definitions. A method on `&mut self` returns the state after the call with its
-- result. An id, a time and an instant are numbers. A `str` is the list of its Unicode scalar
-- values, with offsets in UTF-8 bytes; an operation that panics off a character boundary or out of
-- bounds gives a fault of its own. Machine integers keep their width where the code can reach it:
-- saturating and checked operations and the conversions to `u32` are written out. A mutex is never
-- poisoned, since no holder panics. Where tasks share state, each critical section is one step,
-- and a list of steps is a schedule.
--
-- Parameters. The Unicode crates that the lexicon calls are the record `Unicode` of Lexicon/Entry.
-- The proofs about corrections assume of it only that the needles are not empty. JSON, Base64,
-- hexadecimal, URLs, file names and signatures are the record `Crates` of ModelManager/Manifest,
-- of which the proofs assume nothing, and the SHA-256 of a file is an argument. A model's files
-- are in one record; ids of which one is the path of the other's directory, or starts with
-- `.downloads`, are left out, as their models share files. An operation may fail, by a list of
-- faults that is part of the record, and another process may make the model's directory at the two
-- points at which the code is open to it. A directory is not renamed onto one that is there, as on
-- Windows, for which the host is written. The arithmetic of `f32`, the voice detector and the
-- resampler are the records of Audio/Signal; of them it is assumed only that a detector keeps the
-- rate with which it was opened. A paused stream calls back no more. The storage asks of an
-- argument whether a time has a text. A provider gets the parsed URL, the JSON and what the
-- network answered as arguments. Of JSON it is assumed, where it matters, that the worker reads
-- back the options that the client wrote. Fresh UUIDs, the time, the authorization header, the
-- fields of the multipart body, the JSON decoder and the engine's answers are arguments.
--
-- Fuel. The scan of WAV chunks runs on fuel one above the number of bytes, since each turn moves
-- on by at least eight. Everything else recurs on its data.
--
-- Not modelled: the rest of the storage, the signing of catalogues for a release, the worker
-- process that the providers start, the audio devices, the desktop commands, the web interface,
-- and all input and output. A request whose connection is dropped in the middle of `transcribe` is
-- not modelled either.
pub mod Prelude
pub mod Domain
pub mod Application
pub mod Lexicon
pub mod Worker
pub mod Desktop
pub mod Platform
pub mod ModelManager
pub mod Audio
pub mod Providers
pub mod Storage
