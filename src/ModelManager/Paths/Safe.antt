-- ===== src/ModelManager/Paths/Safe.antt =====
-- crates/model-manager/src/lib.rs: the directory of a model stays below the root, and names the
-- model.
use free_whisper.Prelude.{
  ℕ, ◌≡◌, ◌≢◌, ◌∙◌, refl, ap, subst, arith, inl, inr, true, false, List, [], ◌∷◌, ◌++◌,
  append_assoc, ◌<◌, any, All, All-imp, all→All, is_empty, ◌==◌, ==_iff, Bool-cases, ok, ok_eq,
  >>=-eq-ok, refuse_if, refuse_if-eq-ok, Text, codes, text_eq_iff,
}
use free_whisper.ModelManager.Error.{unsafe_model_storage_path}
use free_whisper.ModelManager.Paths.{split_slash, is_segment_char, is_unsafe, model_directory}

-- A name of its own: neither empty, nor this directory or its parent, and printable ASCII without
-- a separator or a drive's colon.
pub record IsPlain (segment : Text) : Type 0 where
  pub filled : segment ≢ []
  pub not_self : segment ≢ codes "."
  pub not_parent : segment ≢ codes ".."
  pub printable : All (λ c. (32 < c) × (c < 127) × (c ≢ b'/') × (c ≢ b'\\') × (c ≢ b':')) segment

-- The segments, each with a slash before it.
unfoldable pub slashed : List Text → Text
slashed [] = []
slashed (segment ∷ rest) = b'/' ∷ (segment ++ slashed rest)

segment_char_printable :
    (c : ℕ)
    → is_segment_char c ≡ true
    → (32 < c) × (c < 127) × (c ≢ b'/') × (c ≢ b'\\') × (c ≢ b':')
unfolding is_segment_char
segment_char_printable c h = (ground arith, ground arith, ground arith, ground arith, ground arith)

safe-IsPlain : (segment : Text) → is_unsafe segment ≡ false → IsPlain segment
unfolding is_unsafe
safe-IsPlain segment h = record {
  filled = λ e. ground (arith, ap is_empty e);
  not_self = λ e. ground (arith, (text_eq_iff segment (codes ".")).1 e);
  not_parent = λ e. ground (arith, (text_eq_iff segment (codes "..")).1 e);
  printable =
      All-imp _ _ segment segment_char_printable (all→All is_segment_char segment (ground arith));
}

none_unsafe : (segments : List Text) → any is_unsafe segments ≡ false → All IsPlain segments
none_unsafe [] h = tt
none_unsafe (s ∷ ss) h = (safe-IsPlain s (ground arith), none_unsafe ss (ground arith))

slashed-split_slash : (segment t : Text) → slashed (split_slash segment t) ≡ b'/' ∷ (segment ++ t)
unfolding slashed split_slash
slashed-split_slash segment [] = refl
slashed-split_slash segment (c ∷ t) = elim (Bool-cases (c == b'/')) [
  | inl e ↦ let slash : c ≡ b'/' = (==_iff _ _).0 e in rw (e, slashed-split_slash [] t, slash) refl
  | inr e ↦
      rw e (
        slashed-split_slash (segment ++ c ∷ []) t ∙ ap (◌∷◌ b'/') (append_assoc segment (c ∷ []) t))
]

-- Where a model has a directory, each segment of its path is a name of its own, that is neither
-- empty nor `.` nor `..` and has neither a separator nor a colon, and the segments after slashes are
-- the model's id: the path stays below the root, and two ids have two paths.
pub model_directory-IsPlain :
    (id : Text) (segments : List Text)
    → model_directory id ≡ ok segments
    → All IsPlain segments × (slashed segments ≡ b'/' ∷ id)
unfolding model_directory
model_directory-IsPlain id segments h =
    let (u, safe, rest) =
      >>=-eq-ok (refuse_if (any is_unsafe (split_slash [] id)) (unsafe_model_storage_path id)) _
        h in
    subst (λ s. All IsPlain s × (slashed s ≡ b'/' ∷ id)) (ok_eq rest)
      (none_unsafe _ (refuse_if-eq-ok _ _ safe), slashed-split_slash [] id)
