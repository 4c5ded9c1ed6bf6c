-- ===== src/Storage/Tests.antt =====
-- crates/storage/src/lib.rs: two installed models, of which one is active at a time.
use free_whisper.Prelude.{
  ℕ, ◌≡◌, refl, Bool, true, false, List, [], ◌∷◌, none, some, codes, text_eq, ok,
}
use free_whisper.Storage.Models.{
  InstalledModelRecord, local_provider, cpu_backend, get, active_local_cpu, activate_local_cpu,
}
use free_whisper.Storage.Models.Rows.{IsExclusive, IsKeyed}
use free_whisper.Storage.Models.Activated.{IsChosen, activate-IsChosen}
use free_whisper.Storage.Models.Active.{Change, saves, activates, deletes, run, run-IsExclusive}

abbrev small : InstalledModelRecord
small = record {
  model_id = codes "small";
  provider_id = local_provider;
  installation_path = codes "models/small";
  sha256 = codes "0123456789abcdef0123456789abcdef0123456789abcdef0123456789ABCDEF";
  size_bytes = 466000000;
  backend = cpu_backend;
  installed_at = 100;
  validated_at = some 101;
  active = true;
}

abbrev base : InstalledModelRecord
base = record small {
  model_id = codes "base";
  installation_path = codes "models/base";
  size_bytes = 142000000;
}

-- Both are saved as active, and the first is activated again; a model that is not there cannot be.
abbrev changes : List Change
changes = saves small ∷ saves base ∷ activates (codes "small") ∷ activates (codes "tiny") ∷ []

abbrev every : ℕ → Bool
every time = true

run-IsExclusive_example : IsExclusive (run every [] changes) × IsKeyed (run every [] changes)
run-IsExclusive_example = run-IsExclusive every changes

-- The selection of the smaller model, after both were saved.
abbrev selected : List InstalledModelRecord
selected = record small { active = false } ∷ base ∷ []

base_can_be_activated : activate_local_cpu (codes "base") (run every [] changes) ≡ ok selected
unfolding activate_local_cpu run text_eq
base_can_be_activated = refl

activate-IsChosen_example :
    (r : InstalledModelRecord) × IsChosen (codes "base") (run every [] changes) selected r
activate-IsChosen_example =
    activate-IsChosen every changes (codes "base") selected base_can_be_activated

small_is_active : active_local_cpu (run every [] changes) ≡ some small
unfolding active_local_cpu run text_eq
small_is_active = refl

-- The activation of an unknown model leaves the selection.
base_is_inactive : get (codes "base") (run every [] changes) ≡ some (record base { active = false })
unfolding get run text_eq
base_is_inactive = refl

small_is_deleted :
    active_local_cpu (run every (run every [] changes) (deletes (codes "small") ∷ [])) ≡ none
unfolding active_local_cpu run text_eq
small_is_deleted = refl
