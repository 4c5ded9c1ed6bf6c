-- ===== src/ModelManager/Manifest/Entry.antt =====
-- crates/model-manager/src/lib.rs: what an entry that was validated is.
use free_whisper.Prelude.{
  ℕ, ◌≡◌, ◌≢◌, refl, ap, arith, Bool, true, false, not, ◌&&◌, List, Option, none, some, length,
  ◌==◌, ==_iff, ok, ok_or, ok_or-eq-ok, >>=-eq-ok, refuse_if, refuse_if-eq-ok, Text, codes,
  text_eq_iff,
}
use free_whisper.ModelManager.Error.{invalid_manifest}
use free_whisper.ModelManager.Manifest.{
  cpu, is_cpu, ModelManifestEntry, Url, Crates, is_incomplete, model_id, some_eq, is_https,
  is_download_url, validate,
}

-- An entry that can be installed: it has a size, runs on the processor, names its SHA-256 in full,
-- is fetched over HTTPS, and its file name is one name.
pub record IsInstallable (crates : Crates) (entry : ModelManifestEntry) : Type 0 where
  pub named : (id : Text) × (model_id entry ≡ ok id)
  pub sized : entry.size_bytes ≢ 0
  pub on_cpu : entry.backend ≡ cpu
  pub fetched :
      (url : Url) × (crates.parse_url entry.download_url ≡ some url) × (url.scheme ≡ codes "https")
  pub one_name : crates.path_file_name entry.file_name ≡ some entry.file_name
  pub digest :
      (bytes : List ℕ) × (crates.decode_hex entry.sha256 ≡ some bytes) × (length bytes ≡ 32)

is_incomplete_sized :
    (entry : ModelManifestEntry) → is_incomplete entry ≡ false → entry.size_bytes ≢ 0
unfolding is_incomplete
is_incomplete_sized entry h = ground arith

is_incomplete_on_cpu :
    (entry : ModelManifestEntry) → is_incomplete entry ≡ false → entry.backend ≡ cpu
unfolding is_incomplete is_cpu
is_incomplete_on_cpu entry h = ground arith

some_eq_iff : (o : Option Text) (t : Text) → some_eq o t ≡ true → o ≡ some t
unfolding some_eq
some_eq_iff none t h = cc
some_eq_iff (some u) t h = ap some ((text_eq_iff u t).0 h)

pub passed : (b : Bool) → not b ≡ false → b ≡ true
passed true h = refl
passed false h = cc

module _ (crates : Crates) where
  download_url_https : (url : Url) → is_download_url crates url ≡ true → url.scheme ≡ codes "https"
  unfolding is_download_url
  download_url_https url h = (text_eq_iff _ _).0 (ground arith)

  pub validate-IsInstallable :
      (entry : ModelManifestEntry) {u : Unit {0}}
      → validate crates entry ≡ ok u
      → IsInstallable crates entry
  unfolding validate
  validate-IsInstallable entry h =
      let (id, named, h) = >>=-eq-ok (model_id entry) _ h in
      let (a, complete, h) =
        >>=-eq-ok
          (refuse_if (is_incomplete entry)
            (invalid_manifest "model metadata is incomplete or requests an unsupported backend"))
          _ h in
      let (url, parsed, h) =
        >>=-eq-ok
          (ok_or (crates.parse_url entry.download_url) (invalid_manifest "invalid download URL")) _
          h in
      let (b, secure, h) =
        >>=-eq-ok
          (refuse_if (not (is_download_url crates url))
            (invalid_manifest "model downloads must use a query-free HTTPS URL"))
          _ h in
      let (c, provenance, h) =
        >>=-eq-ok
          (refuse_if (not (is_https crates entry.license_url && is_https crates entry.source_url))
            (invalid_manifest "model provenance URLs must use HTTPS"))
          _ h in
      let (d, name, h) =
        >>=-eq-ok
          (refuse_if (not (some_eq (crates.path_file_name entry.file_name) entry.file_name))
            (invalid_manifest "model file name must not contain a path"))
          _ h in
      let (bytes, hex, h) =
        >>=-eq-ok
          (ok_or (crates.decode_hex entry.sha256) (invalid_manifest "SHA-256 is not hexadecimal")) _
          h in
      let (e, long, h) =
        >>=-eq-ok
          (refuse_if (not (length bytes == 32))
            (invalid_manifest "SHA-256 must contain exactly 32 bytes"))
          _ h in
      let whole : is_incomplete entry ≡ false = refuse_if-eq-ok _ _ complete in
      let https : not (is_download_url crates url) ≡ false = refuse_if-eq-ok _ _ secure in
      record {
        named = (id, named);
        sized = is_incomplete_sized entry whole;
        on_cpu = is_incomplete_on_cpu entry whole;
        fetched = (url, ok_or-eq-ok _ _ parsed, download_url_https url (passed _ https));
        one_name = some_eq_iff _ _ (passed _ (refuse_if-eq-ok _ _ name));
        digest = (bytes, ok_or-eq-ok _ _ hex, (==_iff _ _).0 (passed _ (refuse_if-eq-ok _ _ long)));
      }
