-- ===== src/ModelManager/Paths.antt =====
-- crates/model-manager/src/lib.rs: the directory of a model, and of its staging in the affected
-- alpha build. A path is the list of its segments below the root.
pub mod Safe
use free_whisper.Prelude.{
  ℕ, Bool, not, ◌&&◌, ◌||◌, List, [], ◌∷◌, ◌++◌, Option, none, some, all, any, is_empty, leb, ◌==◌,
  if◌then◌else◌, Result, ok, err, ◌>>=◌, ◌>>◌, refuse_if, Text, codes, text_eq,
}
use free_whisper.ModelManager.Error.{ModelManagerError, unsafe_model_storage_path}

-- `str::split('/')`, with the segment that is being read.
unfoldable pub split_slash : (segment : Text) → Text → List Text
split_slash segment [] = segment ∷ []
split_slash segment (c ∷ t) =
    let rest = split_slash (if c == b'/' then [] else segment ++ c ∷ []) t in
    if c == b'/' then segment ∷ rest else rest

unfoldable pub is_segment_char : ℕ → Bool
is_segment_char c =
    (leb b'0' c && leb c b'9')
    || (leb b'A' c && leb c b'Z')
    || (leb b'a' c && leb c b'z')
    || (c == b'.')
    || (c == b'_')
    || (c == b'-')

-- The bytes of a scalar value beyond ASCII are no ASCII either, so that a test of the bytes is a
-- test of the scalar values.
unfoldable pub is_unsafe : Text → Bool
unfolding is_segment_char text_eq
is_unsafe segment =
    is_empty segment
    || text_eq segment (codes ".")
    || text_eq segment (codes "..")
    || not (all is_segment_char segment)

unfoldable pub model_directory : (id : Text) → Result ModelManagerError (List Text)
unfolding split_slash is_unsafe
model_directory id = do
  refuse_if (any is_unsafe (split_slash [] id)) (unsafe_model_storage_path id)
  ok (split_slash [] id)

-- The segments but the last, and the last.
split_last : Text → List Text → List Text × Text
split_last first [] = ([], first)
split_last first (s ∷ ss) = let (parents, leaf) = split_last s ss in (first ∷ parents, leaf)

-- The directory with the staging directories of the alpha build, and the prefix of their names.
unfoldable pub legacy_staging_parent : (id : Text) → Result ModelManagerError (List Text × Text)
unfolding split_last
legacy_staging_parent id = do
  directory ← model_directory id
  elim directory [
    | [] ↦ err (unsafe_model_storage_path id)
    | first ∷ rest ↦
        let (parents, leaf) = split_last first rest in
        elim parents [
          | [] ↦ ok ([], codes "." ++ (leaf ++ codes "-"))
          | p ∷ ps ↦ ok ((codes "." ++ p) ∷ ps, leaf ++ codes "-")
        ]
  ]
