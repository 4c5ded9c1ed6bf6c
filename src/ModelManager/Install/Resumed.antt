-- ===== src/ModelManager/Install/Resumed.antt =====
-- crates/model-manager/src/lib.rs: a download that goes on where the last one ended.
use free_whisper.Prelude.{
  ℕ, ◌+◌, ◌^◌, ◌<◌, ◌≤◌, ◌≡◌, ◌≢◌, refl, sym, arith, false, not, List, [], ◌∷◌, ◌++◌, map,
  append_assoc, append-nil, Option, none, some, ltb, ◌==◌, ==_self, length, length-append, ok, Text,
  text_eq_self,
}
use free_whisper.Prelude.Str.{to_ascii_lowercase}
use free_whisper.ModelManager.Manifest.{ModelManifestEntry, ModelManifest, find_model, model_id}
use free_whisper.ModelManager.Paths.{model_directory}
use free_whisper.ModelManager.Disk.{holds, Disk, ◌>>=◌, refuse_if, operate}
use free_whisper.ModelManager.Files.{is_file, has_resume, model_is_file, exists, bytes_of, nothing}
use free_whisper.ModelManager.Resume.{
  matches, offset_of, read_resume, resume_offset, write_resume_state,
}
use free_whisper.ModelManager.Activation.{
  installed, stage_partial, others, publish, finish_activation, activate,
}
use free_whisper.ModelManager.Install.{
  Answer, response, chunk, write_chunk, fetch, open_partial, accept_status, check_hash,
  verify_partial, receive, install,
}
use free_whisper.ModelManager.Install.Stuck.{left_over}

unfoldable pub joined : List (List ℕ) → List ℕ
joined [] = []
joined (piece ∷ pieces) = piece ++ joined pieces

-- What the installation leaves.
unfoldable pub installed_disk : (bytes : List ℕ) → Disk
installed_disk bytes = record {
  partial = none;
  resume = none;
  destination = some (holds bytes);
  staging = none;
  legacy = none;
  intruder = none;
  late_intruder = none;
  faults = [];
}

module _ (entry : ModelManifestEntry) (etag : Option Text) where
  pub fits_size : (a c : ℕ) → a ≤ c → ltb c a ≡ false
  fits_size a c h = ground arith

  pub fits_u64 : (a c : ℕ) → a ≤ c → c < 2 ^ 64 → not (ltb a (2 ^ 64)) ≡ false
  fits_u64 a c h k = ground arith

  pub write_chunk-left_over :
      (kept piece : List ℕ)
      → write_chunk piece (left_over entry etag kept)
        ≡ (left_over entry etag (kept ++ piece), ok tt)
  unfolding write_chunk left_over bytes_of operate ◌>>=◌
  write_chunk-left_over kept piece = refl

  pub fetch_pieces :
      (pieces : List (List ℕ)) (kept : List ℕ)
      → length (kept ++ joined pieces) ≤ entry.size_bytes
      → entry.size_bytes < 2 ^ 64
      → fetch entry (length kept) (map chunk pieces) (left_over entry etag kept)
        ≡ (left_over entry etag (kept ++ joined pieces), ok (length (kept ++ joined pieces)))
  unfolding fetch joined ◌>>=◌ refuse_if
  fetch_pieces [] kept fits small = rw (append-nil kept) refl
  fetch_pieces (piece ∷ pieces) kept fits small =
      let nested : (kept ++ piece) ++ joined pieces ≡ kept ++ (piece ++ joined pieces) =
        append_assoc kept piece (joined pieces) in
      let fits' : length ((kept ++ piece) ++ joined pieces) ≤ entry.size_bytes = rw nested fits in
      let short : length kept + length piece ≤ entry.size_bytes =
        omega
          (arith, fits', length-append kept piece, length-append (kept ++ piece) (joined pieces)) in
      rw
        (
          fits_u64 _ _ short small,
          fits_size _ _ short,
          write_chunk-left_over kept piece,
          sym (length-append kept piece),
          sym nested,
        )
        (fetch_pieces pieces (kept ++ piece) fits' small)

module _ (sha256_hex : List ℕ → Text) (entry : ModelManifestEntry) (etag : Option Text) where
  verify_partial_complete :
      (bytes : List ℕ)
      → sha256_hex bytes ≡ to_ascii_lowercase entry.sha256
      → verify_partial sha256_hex entry (left_over entry etag bytes)
        ≡ (left_over entry etag bytes, ok tt)
  unfolding verify_partial left_over ◌>>=◌ operate bytes_of check_hash refuse_if
  verify_partial_complete bytes same =
      rw (same, text_eq_self (to_ascii_lowercase entry.sha256)) refl

  activate_complete :
      (bytes : List ℕ) (parsed_id : Text) (directory : List Text)
      → model_id entry ≡ ok parsed_id
      → model_directory parsed_id ≡ ok directory
      → activate entry (left_over entry etag bytes) ≡ (installed_disk bytes, ok (installed entry))
  unfolding activate left_over ◌>>=◌ operate refuse_if exists stage_partial others finish_activation
      publish bytes_of installed_disk
  activate_complete bytes parsed_id directory named placed = rw (named, placed) refl

  resume_offset_kept :
      (kept : List ℕ)
      → length kept ≤ entry.size_bytes
      → resume_offset entry (left_over entry etag kept)
        ≡ (left_over entry etag kept, ok (record { downloaded_bytes = length kept; etag = etag }))
  unfolding resume_offset left_over is_file has_resume ◌>>=◌ operate read_resume offset_of matches
      bytes_of refuse_if
  resume_offset_kept kept fits =
      rw
        (
          text_eq_self entry.download_url,
          ==_self entry.size_bytes,
          text_eq_self entry.sha256,
          fits_size entry etag _ _ fits,
        )
        refl

  not_zero : (n : ℕ) → n ≢ 0 → (n == 0) ≡ false
  not_zero n h = ground (arith, h)

  pub nothing_done :
      (bytes : List ℕ)
      → operate nothing (left_over entry etag bytes) ≡ (left_over entry etag bytes, ok tt)
  unfolding operate left_over
  nothing_done bytes = refl

  accept_rest : (n : ℕ) (d : Disk) → (n == 0) ≡ false → accept_status n 206 d ≡ (d, ok n)
  unfolding accept_status
  accept_rest n d z = rw (z, accept_status) refl

  write_resume_kept :
      (kept : List ℕ) (etag' : Option Text)
      → write_resume_state entry etag' (left_over entry etag kept)
        ≡ (left_over entry etag' kept, ok tt)
  unfolding write_resume_state left_over operate
  write_resume_kept kept etag' = refl

  open_kept :
      (kept : List ℕ) (n : ℕ)
      → (n == 0) ≡ false
      → open_partial n (left_over entry etag kept) ≡ (left_over entry etag kept, ok tt)
  unfolding open_partial left_over operate ◌>>=◌ bytes_of
  open_kept kept n z = rw (z, open_partial) refl

module _ (sha256_hex : List ℕ → Text) (entry : ModelManifestEntry) (etag : Option Text) where
  pub unequal : (a b : ℕ) → a < b → (a == b) ≡ false
  unequal a b h = ground arith

  -- A partial answer from the byte on which was asked for.
  receive_rest :
      (kept : List ℕ) (pieces : List (List ℕ)) (etag' : Option Text) (parsed_id : Text)
      (directory : List Text)
      → model_id entry ≡ ok parsed_id
      → model_directory parsed_id ≡ ok directory
      → length (kept ++ joined pieces) ≡ entry.size_bytes
      → entry.size_bytes < 2 ^ 64
      → sha256_hex (kept ++ joined pieces) ≡ to_ascii_lowercase entry.sha256
      → length kept ≢ 0
      → receive sha256_hex entry
          (length kept)
          (response 206 etag' (map chunk pieces))
          (left_over entry etag kept)
        ≡ (installed_disk (kept ++ joined pieces), ok (installed entry))
  unfolding receive ◌>>=◌ operate refuse_if
  receive_rest kept pieces etag' parsed_id directory named placed sized small same some_kept =
      let z : (length kept == 0) ≡ false = not_zero sha256_hex entry etag _ some_kept in
      rw
        (
          accept_rest sha256_hex entry etag (length kept) (left_over entry etag kept) z,
          write_resume_kept sha256_hex entry etag kept etag',
          open_kept sha256_hex entry etag' kept _ z,
          fetch_pieces entry etag' pieces kept (omega (arith, sized)) small,
          sized,
          ==_self entry.size_bytes,
          nothing_done sha256_hex entry etag' (kept ++ joined pieces),
          verify_partial_complete sha256_hex entry etag' _ same,
          activate_complete sha256_hex entry etag' _ parsed_id directory named placed,
        )
        refl

  -- On the disk of a download that was cut off, with nothing else of the model, without faults,
  -- other processes or a cancellation, the rest completes the installation.
  pub install_resumes :
      (manifest : ModelManifest) (id parsed_id : Text) (directory : List Text)
      → (request : (range : ℕ) (if_range : Option Text) → Answer)
      → (kept : List ℕ) (pieces : List (List ℕ)) (etag' : Option Text)
      → find_model manifest id ≡ ok entry
      → model_id entry ≡ ok parsed_id
      → model_directory parsed_id ≡ ok directory
      → request (length kept) etag ≡ response 206 etag' (map chunk pieces)
      → length kept ≢ 0
      → length kept < entry.size_bytes
      → entry.size_bytes < 2 ^ 64
      → length (kept ++ joined pieces) ≡ entry.size_bytes
      → sha256_hex (kept ++ joined pieces) ≡ to_ascii_lowercase entry.sha256
      → install sha256_hex manifest id false request (left_over entry etag kept)
        ≡ (installed_disk (kept ++ joined pieces), ok (installed entry))
  unfolding install left_over ◌>>=◌ model_is_file refuse_if operate
  install_resumes manifest id parsed_id directory request kept pieces etag' found named placed
        answered some_kept part small sized same =
      rw
        (
          found,
          named,
          placed,
          resume_offset_kept sha256_hex entry etag kept (omega (arith, part)),
          unequal _ _ part,
          answered,
          receive_rest kept pieces etag' parsed_id directory named placed sized small same
              some_kept,
        )
        refl
