-- ===== src/ModelManager/Resume.antt =====
-- crates/model-manager/src/lib.rs: `resume_offset` and `write_resume_state`.
use free_whisper.Prelude.{
  ℕ, Bool, ◌&&◌, Option, none, some, ltb, ◌==◌, if◌then◌else◌, length, Text, text_eq,
}
use free_whisper.ModelManager.Error.{size_mismatch, invalid_resume, io}
use free_whisper.ModelManager.Manifest.{ModelManifestEntry}
use free_whisper.ModelManager.Disk.{
  ResumeState, ResumeFile, parsed, garbled, M, ◌>>=◌, ◌>>◌, done, throw, refuse_if, look, operate,
  ignoring,
}
use free_whisper.ModelManager.Files.{is_file, has_resume, bytes_of, nothing}

pub record ResumeInfo : Type 0 where
  pub downloaded_bytes : ℕ
  pub etag : Option Text

abbrev pub no_resume : ResumeInfo
no_resume = record { downloaded_bytes = 0; etag = none }

unfoldable pub matches : ResumeState → ModelManifestEntry → Bool
matches state entry =
    text_eq state.download_url entry.download_url
    && ((state.size_bytes == entry.size_bytes) && text_eq state.sha256 entry.sha256)

-- `resume_offset` on metadata that parsed.
unfoldable pub offset_of : ModelManifestEntry → ResumeState → M ResumeInfo
unfolding matches
offset_of entry state =
    if matches state entry
    then (operate nothing
        >> look (λ d. d.partial) >>= bytes_of >>= λ bytes.
            refuse_if (ltb entry.size_bytes (length bytes))
              (size_mismatch entry.size_bytes (length bytes))
            >> done (record { downloaded_bytes = length bytes; etag = state.etag }))
    else (operate (λ d. record d { partial = none })
        >> ignoring (operate (λ d. record d { resume = none }))
        >> done no_resume)

unfoldable pub read_resume : ModelManifestEntry → Option ResumeFile → M ResumeInfo
unfolding offset_of
read_resume entry none = throw io
read_resume entry (some garbled) = throw invalid_resume
read_resume entry (some (parsed state)) = offset_of entry state

unfoldable pub resume_offset : ModelManifestEntry → M ResumeInfo
unfolding is_file has_resume read_resume
resume_offset entry = look (λ d. is_file d.partial && has_resume d.resume) >>= λ can_resume.
    if can_resume
    then operate nothing >> look (λ d. d.resume) >>= read_resume entry
    else done no_resume

unfoldable pub write_resume_state : ModelManifestEntry → (etag : Option Text) → M (Unit {0})
write_resume_state entry etag = operate λ d. record d {
  resume = some (
      parsed (record {
        download_url = entry.download_url;
        size_bytes = entry.size_bytes;
        sha256 = entry.sha256;
        etag = etag;
      }));
}
