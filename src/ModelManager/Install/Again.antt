-- ===== src/ModelManager/Install/Again.antt =====
-- crates/model-manager/src/lib.rs: a first installation that does not succeed, and a later one.
use free_whisper.Prelude.{
  ℕ, ◌+◌, ◌^◌, ◌<◌, ◌≤◌, ◌≡◌, ◌≢◌, refl, arith, false, not, List, [], ◌∷◌, ◌++◌, map, Option, none,
  some, ◌==◌, ==_self, length, ok, err, Text, append_assoc, append-nil, length-append, sym, ◌∙◌,
}
use free_whisper.Prelude.Str.{to_ascii_lowercase}
use free_whisper.ModelManager.Error.{hash_mismatch, unknown_model, download, size_mismatch}
use free_whisper.ModelManager.Manifest.{ModelManifestEntry, ModelManifest, find_model, model_id}
use free_whisper.ModelManager.Paths.{model_directory}
use free_whisper.ModelManager.Disk.{M, Disk, ◌>>=◌, ◌>>◌, refuse_if, operate}
use free_whisper.ModelManager.Files.{is_file, has_resume, model_is_file, nothing}
use free_whisper.ModelManager.Resume.{resume_offset, write_resume_state}
use free_whisper.ModelManager.Activation.{InstalledModel, installed, activate}
use free_whisper.ModelManager.Install.{
  Event, Answer, response, chunk, broken, fetch, open_partial, accept_status, verify_partial,
  receive, install, delete,
}
use free_whisper.ModelManager.Install.Stuck.{left_over, install-left_over, verify_partial-left_over}
use free_whisper.ModelManager.Install.Resumed.{
  joined, installed_disk, fetch_pieces, install_resumes, nothing_done, write_chunk-left_over,
  fits_size, fits_u64,
}

-- No file of the model, no fault and no other process.
abbrev pub fresh : Disk
fresh = record {
  partial = none;
  resume = none;
  destination = none;
  staging = none;
  legacy = none;
  intruder = none;
  late_intruder = none;
  faults = [];
}

-- A stream that gives the pieces and then breaks.
abbrev pub breaks_after : List (List ℕ) → List Event
breaks_after pieces = map chunk pieces ++ broken ∷ []

module _ (sha256_hex : List ℕ → Text) (entry : ModelManifestEntry) (etag : Option Text) where
  fetch_broken :
      (pieces : List (List ℕ)) (kept : List ℕ)
      → length (kept ++ joined pieces) ≤ entry.size_bytes
      → entry.size_bytes < 2 ^ 64
      → fetch entry (length kept) (breaks_after pieces) (left_over entry etag kept)
        ≡ (left_over entry etag (kept ++ joined pieces), err download)
  unfolding fetch joined ◌>>=◌ refuse_if
  fetch_broken [] kept fits small = rw (append-nil kept) refl
  fetch_broken (piece ∷ pieces) kept fits small =
      let nested : (kept ++ piece) ++ joined pieces ≡ kept ++ (piece ++ joined pieces) =
        append_assoc kept piece (joined pieces) in
      let fits' : length ((kept ++ piece) ++ joined pieces) ≤ entry.size_bytes = rw nested fits in
      let short : length kept + length piece ≤ entry.size_bytes =
        omega
          (arith, fits', length-append kept piece, length-append (kept ++ piece) (joined pieces)) in
      rw
        (
          fits_u64 entry etag _ _ short small,
          fits_size entry etag _ _ short,
          write_chunk-left_over entry etag kept piece,
          sym (length-append kept piece),
          sym nested,
        )
        (fetch_broken pieces (kept ++ piece) fits' small)

  rest_of : (total : ℕ) → M InstalledModel
  rest_of total =
      operate nothing
      >> refuse_if (not (total == entry.size_bytes)) (size_mismatch entry.size_bytes total)
      >> verify_partial sha256_hex entry
      >> activate entry

  -- A first installation is one of the stream, on an empty partial file with its metadata.
  install_first :
      (manifest : ModelManifest) (id parsed_id : Text) (directory : List Text)
      → (request : (range : ℕ) (if_range : Option Text) → Answer) (stream : List Event)
      → find_model manifest id ≡ ok entry
      → model_id entry ≡ ok parsed_id
      → model_directory parsed_id ≡ ok directory
      → request 0 none ≡ response 200 etag stream
      → (0 == entry.size_bytes) ≡ false
      → install sha256_hex manifest id false request fresh
        ≡ (fetch entry 0 stream >>= rest_of) (left_over entry etag [])
  unfolding install ◌>>=◌ model_is_file refuse_if operate resume_offset is_file has_resume receive
      accept_status write_resume_state open_partial left_over rest_of
  install_first manifest id parsed_id directory request stream found named placed answered
        some_size =
      rw (found, named, placed, some_size, answered) refl

  stream_broke :
      (first : List (List ℕ))
      → length (joined first) ≤ entry.size_bytes
      → entry.size_bytes < 2 ^ 64
      → (fetch entry 0 (breaks_after first) >>= rest_of) (left_over entry etag [])
        ≡ (left_over entry etag (joined first), err download)
  unfolding ◌>>=◌
  stream_broke first fits small = rw (fetch_broken first [] fits small) refl

  stream_mismatched :
      (pieces : List (List ℕ))
      → entry.size_bytes < 2 ^ 64
      → length (joined pieces) ≡ entry.size_bytes
      → sha256_hex (joined pieces) ≢ to_ascii_lowercase entry.sha256
      → (fetch entry 0 (map chunk pieces) >>= rest_of) (left_over entry etag []) ≡ (
        left_over entry etag (joined pieces),
        err (hash_mismatch entry.sha256 (sha256_hex (joined pieces))),
      )
  unfolding ◌>>=◌ rest_of refuse_if
  stream_mismatched pieces small sized differs =
      rw
        (
          fetch_pieces entry etag pieces [] (omega (arith, sized)) small,
          nothing_done sha256_hex entry etag (joined pieces),
          sized,
          ==_self entry.size_bytes,
          verify_partial-left_over sha256_hex entry etag (joined pieces) differs,
        )
        refl

  -- For a model that the manifest lists, whose id has a directory and whose size is below 2 ^ 64, on
  -- a disk without files of the model, without faults, other processes or a cancellation: where a
  -- first installation is answered with 200 and a stream that gives some bytes but not all and
  -- breaks, it ends with the download's error; and where the server answers the next one's request
  -- for the rest, which names the first answer's ETag, with 206 and pieces that complete the file to
  -- the entry's size and SHA-256, that one succeeds, its file is the bytes of both, and nothing else
  -- is left.
  pub install_again_resumes :
      (manifest : ModelManifest) (id parsed_id : Text) (directory : List Text)
      → (request request' : (range : ℕ) (if_range : Option Text) → Answer)
      → (first rest : List (List ℕ)) (etag' : Option Text) → find_model manifest id ≡ ok entry
      → model_id entry ≡ ok parsed_id
      → model_directory parsed_id ≡ ok directory
      → request 0 none ≡ response 200 etag (breaks_after first)
      → request' (length (joined first)) etag ≡ response 206 etag' (map chunk rest)
      → length (joined first) ≢ 0
      → length (joined first) < entry.size_bytes
      → entry.size_bytes < 2 ^ 64
      → length (joined first ++ joined rest) ≡ entry.size_bytes
      → sha256_hex (joined first ++ joined rest) ≡ to_ascii_lowercase entry.sha256
      → ((install sha256_hex manifest id false request fresh).1 ≡ err download)
        × (install sha256_hex manifest id false request'
              (install sha256_hex manifest id false request fresh).0
            ≡ (installed_disk (joined first ++ joined rest), ok (installed entry)))
  install_again_resumes manifest id parsed_id directory request request' first rest etag' found
        named placed answered answered' some_first part small sized same =
      let broke : install sha256_hex manifest id false request fresh
          ≡ (left_over entry etag (joined first), err download) =
        install_first manifest id parsed_id directory request (breaks_after first) found named
          placed answered (ground (arith, part))
        ∙ stream_broke first (omega (arith, part)) small in
      rw broke (
        refl,
        install_resumes sha256_hex entry etag manifest id parsed_id directory request'
            (joined first) rest etag' found named placed answered' some_first part small sized same,
      )

  -- For a model that the manifest lists, whose id has a directory and whose size is not 0 and below
  -- 2 ^ 64, on a disk without files of the model, without faults, other processes or a cancellation:
  -- where a first installation is answered with 200 and all the bytes of the entry's size, and their
  -- SHA-256 is not the entry's, it ends with `HashMismatch` and leaves its partial file. A later
  -- installation, if it is not cancelled and nothing else touched the files, ends with
  -- `HashMismatch` whatever the server would answer, and leaves the files as they are, and `delete`
  -- does not find the model.
  pub install_again_mismatches :
      (manifest : ModelManifest) (id parsed_id : Text) (directory : List Text)
      → (request request' : (range : ℕ) (if_range : Option Text) → Answer)
      → (pieces : List (List ℕ)) → find_model manifest id ≡ ok entry
      → model_id entry ≡ ok parsed_id
      → model_directory parsed_id ≡ ok directory
      → request 0 none ≡ response 200 etag (map chunk pieces)
      → entry.size_bytes ≢ 0
      → entry.size_bytes < 2 ^ 64
      → length (joined pieces) ≡ entry.size_bytes
      → sha256_hex (joined pieces) ≢ to_ascii_lowercase entry.sha256
      → ((install sha256_hex manifest id false request fresh).1
          ≡ err (hash_mismatch entry.sha256 (sha256_hex (joined pieces))))
        × ((install sha256_hex manifest id false request fresh).0.partial ≡ some (joined pieces))
        × (install sha256_hex manifest id false request'
              (install sha256_hex manifest id false request fresh).0
            ≡ (
              (install sha256_hex manifest id false request fresh).0,
              err (hash_mismatch entry.sha256 (sha256_hex (joined pieces))),
            ))
        × (delete parsed_id (install sha256_hex manifest id false request fresh).0 ≡ (
          (install sha256_hex manifest id false request fresh).0,
          err (unknown_model parsed_id),
        ))
  install_again_mismatches manifest id parsed_id directory request request' pieces found named
        placed answered some_size small sized differs =
      let bad : install sha256_hex manifest id false request fresh ≡ (
        left_over entry etag (joined pieces),
        err (hash_mismatch entry.sha256 (sha256_hex (joined pieces))),
      ) =
        install_first manifest id parsed_id directory request (map chunk pieces) found named placed
          answered (ground (arith, some_size))
        ∙ stream_mismatched pieces small sized differs in
      let (again, deleted) =
        install-left_over sha256_hex entry etag (joined pieces) manifest id parsed_id directory
          request' found named placed sized differs in
      rw bad (refl, unfold left_over in refl, again, deleted)
