-- ===== src/ModelManager/Install/Stuck.antt =====
-- crates/model-manager/src/lib.rs: a complete partial file whose digest is not the entry's.
use free_whisper.Prelude.{
  ℕ, ◌≡◌, ◌≢◌, refl, arith, inl, inr, false, List, [], Option, none, some, ltb, ==_self, Bool-cases,
  length, ok, err, Text, text_eq, text_eq_iff, text_eq_self,
}
use free_whisper.Prelude.Str.{to_ascii_lowercase}
use free_whisper.ModelManager.Error.{hash_mismatch, unknown_model}
use free_whisper.ModelManager.Manifest.{ModelManifestEntry, ModelManifest, find_model, model_id}
use free_whisper.ModelManager.Paths.{model_directory}
use free_whisper.ModelManager.Disk.{parsed, Disk, ◌>>=◌, refuse_if, operate}
use free_whisper.ModelManager.Files.{is_file, has_resume, model_is_file, exists, bytes_of}
use free_whisper.ModelManager.Resume.{matches, offset_of, read_resume, resume_offset}
use free_whisper.ModelManager.Install.{Answer, check_hash, verify_partial, install, delete}

-- What a download that ran to the end leaves where the digest of its bytes was refused.
unfoldable pub left_over : ModelManifestEntry → (etag : Option Text) (bytes : List ℕ) → Disk
left_over entry etag bytes = record {
  partial = some bytes;
  resume = some (
      parsed (record {
        download_url = entry.download_url;
        size_bytes = entry.size_bytes;
        sha256 = entry.sha256;
        etag = etag;
      }));
  destination = none;
  staging = none;
  legacy = none;
  intruder = none;
  late_intruder = none;
  faults = [];
}

pub not_below_self : (n : ℕ) → ltb n n ≡ false
not_below_self n = ground arith

text_differs : (t u : Text) → t ≢ u → text_eq t u ≡ false
text_differs t u h = elim (Bool-cases (text_eq t u)) [
  | inl e ↦ absurd (h ((text_eq_iff t u).0 e))
  | inr e ↦ e
]

module _ (sha256_hex : List ℕ → Text) (entry : ModelManifestEntry) (etag : Option Text)
    (bytes : List ℕ) where
  resume_offset-left_over :
      length bytes ≡ entry.size_bytes
      → resume_offset entry (left_over entry etag bytes)
        ≡ (left_over entry etag bytes, ok (record { downloaded_bytes = length bytes; etag = etag }))
  unfolding resume_offset left_over is_file has_resume ◌>>=◌ operate read_resume offset_of matches
      bytes_of refuse_if
  resume_offset-left_over sized =
      rw
        (
          text_eq_self entry.download_url,
          ==_self entry.size_bytes,
          text_eq_self entry.sha256,
          sized,
          not_below_self entry.size_bytes,
        )
        refl

  pub verify_partial-left_over :
      sha256_hex bytes ≢ to_ascii_lowercase entry.sha256
      → verify_partial sha256_hex entry (left_over entry etag bytes)
        ≡ (left_over entry etag bytes, err (hash_mismatch entry.sha256 (sha256_hex bytes)))
  unfolding verify_partial left_over ◌>>=◌ operate bytes_of check_hash refuse_if
  verify_partial-left_over bad = rw (text_differs _ _ bad, check_hash) refl

  -- On the disk of a download that ran to the end with another digest, with nothing else of the
  -- model, without faults or a cancellation: an installation ends with `HashMismatch` and changes
  -- nothing, and `delete` does not find the model.
  pub install-left_over :
      (manifest : ModelManifest) (id : Text) (parsed_id : Text) (directory : List Text)
      → (request : (range : ℕ) (if_range : Option Text) → Answer)
      → find_model manifest id ≡ ok entry
      → model_id entry ≡ ok parsed_id
      → model_directory parsed_id ≡ ok directory
      → length bytes ≡ entry.size_bytes
      → sha256_hex bytes ≢ to_ascii_lowercase entry.sha256
      → (install sha256_hex manifest id false request (left_over entry etag bytes)
          ≡ (left_over entry etag bytes, err (hash_mismatch entry.sha256 (sha256_hex bytes))))
        × (delete parsed_id (left_over entry etag bytes)
            ≡ (left_over entry etag bytes, err (unknown_model parsed_id)))
  unfolding install delete left_over ◌>>=◌ model_is_file exists refuse_if operate
  install-left_over manifest id parsed_id directory request found named placed sized bad = (
    rw
        (
          found,
          named,
          placed,
          resume_offset-left_over sized,
          sized,
          ==_self entry.size_bytes,
          verify_partial-left_over bad,
        )
        refl,
    rw placed refl,
  )
