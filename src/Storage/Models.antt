-- ===== src/Storage/Models.antt =====
-- crates/storage/src/lib.rs, `InstalledModelRepository`. The table is the list of its rows, in the
-- order in which they were inserted, and `model_id` is its primary key. A transaction that ends in
-- an error leaves the table as it was. A time is a number, and `formats` says whether it has a
-- text.
pub mod Activated
pub mod Active
pub mod Rows
use free_whisper.Prelude.{
  ℕ, ◌^◌, Bool, true, false, not, ◌&&◌, ◌||◌, List, [], ◌∷◌, map, filter, find?, any, all, Option,
  none, some, ltb, leb, ◌==◌, length, if◌then◌else◌, Result, ok, err, ◌>>=◌, ◌>>◌, refuse_if, Text,
  codes, text_eq, byte_len,
}

pub data StorageError : Type 0 where
  invalid_record not_found time_error : StorageError

pub record InstalledModelRecord : Type 0 where
  pub model_id : Text
  pub provider_id : Text
  pub installation_path : Text
  pub sha256 : Text
  pub size_bytes : ℕ
  pub backend : Text
  pub installed_at : ℕ
  pub validated_at : Option ℕ
  pub active : Bool

-- `u8::is_ascii_hexdigit`; a byte beyond ASCII is none, and no scalar value beyond it is.
unfoldable pub is_hexdigit : ℕ → Bool
is_hexdigit c =
    (leb b'0' c && leb c b'9') || (leb b'a' c && leb c b'f') || (leb b'A' c && leb c b'F')

unfoldable pub has_format : (formats : ℕ → Bool) → Option ℕ → Bool
has_format formats none = true
has_format formats (some time) = formats time

-- `provider_id = ?1 AND backend = ?2`.
unfoldable pub in_slot : (provider_id backend : Text) → InstalledModelRecord → Bool
in_slot provider_id backend row = text_eq row.provider_id provider_id && text_eq row.backend backend

-- `UPDATE … SET active = 0 WHERE` the row is in the slot.
unfoldable pub deactivate :
    (provider_id backend : Text) → InstalledModelRecord → InstalledModelRecord
unfolding in_slot
deactivate provider_id backend row =
    if in_slot provider_id backend row then record row { active = false } else row

-- `UPDATE … SET active = 1 WHERE model_id = ?1`.
unfoldable pub choose : (id : Text) → InstalledModelRecord → InstalledModelRecord
choose id row = if text_eq row.model_id id then record row { active = true } else row

-- `INSERT … ON CONFLICT(model_id) DO UPDATE`.
unfoldable pub upsert : InstalledModelRecord → List InstalledModelRecord → List InstalledModelRecord
upsert model [] = model ∷ []
upsert model (row ∷ rows) =
    let rest = upsert model rows in
    if text_eq row.model_id model.model_id then model ∷ rows else row ∷ rest

unfoldable pub is_digest : Text → Bool
unfolding is_hexdigit byte_len
is_digest sha256 = byte_len sha256 == 64 && all is_hexdigit sha256

unfoldable pub save :
    (formats : ℕ → Bool)
    → InstalledModelRecord
    → List InstalledModelRecord
    → Result StorageError (List InstalledModelRecord)
unfolding is_digest deactivate upsert has_format
save formats model rows = do
  refuse_if (not (is_digest model.sha256)) invalid_record
  refuse_if (not (ltb model.size_bytes (2 ^ 63))) invalid_record
  refuse_if (not (formats model.installed_at && has_format formats model.validated_at)) time_error
  ok (
      upsert model
        (if model.active then map (deactivate model.provider_id model.backend) rows else rows))

unfoldable pub get : (id : Text) → List InstalledModelRecord → Option InstalledModelRecord
get id rows = find? (λ row. text_eq row.model_id id) rows

unfoldable pub delete :
    (id : Text) → List InstalledModelRecord → Result StorageError (List InstalledModelRecord)
delete id rows =
    refuse_if (not (any (λ row. text_eq row.model_id id) rows)) not_found
    >> ok (filter (λ row. not (text_eq row.model_id id)) rows)

abbrev pub local_provider : Text
local_provider = codes "local-whisper-cpp"

abbrev pub cpu_backend : Text
cpu_backend = codes "cpu"

unfoldable pub is_validated : Option ℕ → Bool
is_validated none = false
is_validated (some time) = true

unfoldable pub is_candidate : (id : Text) → InstalledModelRecord → Bool
unfolding in_slot is_validated
is_candidate id row =
    text_eq row.model_id id
    && (in_slot local_provider cpu_backend row && is_validated row.validated_at)

unfoldable pub activate_local_cpu :
    (id : Text) → List InstalledModelRecord → Result StorageError (List InstalledModelRecord)
unfolding is_candidate deactivate choose
activate_local_cpu id rows =
    refuse_if (not (any (is_candidate id) rows)) not_found
    >> ok (map (choose id) (map (deactivate local_provider cpu_backend) rows))

unfoldable pub active_local_cpu : List InstalledModelRecord → Option InstalledModelRecord
unfolding in_slot
active_local_cpu rows = find? (λ row. in_slot local_provider cpu_backend row && row.active) rows
