-- ===== src/Worker/Multipart/Once.antt =====
-- What an accepted multipart request consists of.
use Prim.Native.String.{String}
use free_whisper.Prelude.{
  ℕ, suc, ◌+◌, ◌*◌, ◌≤◌, ◌≡◌, refl, ap, ◌∙◌, subst, Bool, true, false, List, [], ◌∷◌, Option, none,
  some, arith, inl, inr, ltb, length, Bool-cases, Result, ok, err, ok_or, >>=-eq-ok, ok_eq,
  ok_or-eq-ok, refuse_if, refuse_if-eq-ok, map_err, Text, codes, text_eq,
}
use free_whisper.Worker.Failure.{failure, invalid_request}
use free_whisper.Worker.Audio.{refused, validate_audio}
use free_whisper.Worker.Options.{TranscriptionOptions}
use free_whisper.Worker.Multipart.{
  Field, Item, field, broken, Parts, MultipartInput, is_set, max_request_bytes, parse_encoding,
  set_encoding, set_audio, finish_parts, set_options, set_field, read_items, parse_multipart,
}

abbrev one : Bool → ℕ
one true = 1
one false = 0

-- How many of the three parts are there.
abbrev filled : Parts → ℕ
filled parts = one (is_set parts.options) + one (is_set parts.encoding) + one (is_set parts.audio)

abbrev IsSmall : Option (List ℕ) → Type 0
IsSmall none = Unit {0}
IsSmall (some bytes) = length bytes ≤ 33554432

-- One field fills one part.
abbrev Fills : Parts → Parts → Type 0
Fills parts parts' =
    (filled parts' ≡ suc (filled parts)) × (IsSmall parts.audio → IsSmall parts'.audio)

set_encoding-Fills :
    (parts : Parts) (part : Field) (parts' : Parts)
    → set_encoding parts part ≡ ok parts'
    → Fills parts parts'
unfolding set_encoding
set_encoding-Fills parts part parts' h =
    let (u, fresh, rest) = >>=-eq-ok (refuse_if (is_set parts.encoding) _) _ h in
    let (text, read, rest') = >>=-eq-ok (ok_or part.text _) _ rest in
    let (encoding, parsed, last) = >>=-eq-ok (parse_encoding text) _ rest' in
    let new = refuse_if-eq-ok (is_set parts.encoding) _ fresh in
    subst (Fills parts) (ok_eq last) (rw new (omega arith), λ s. s)

set_audio-Fills :
    (parts : Parts) (part : Field) (parts' : Parts)
    → set_audio parts part ≡ ok parts'
    → Fills parts parts'
unfolding set_audio
set_audio-Fills parts part parts' h =
    let (u, fresh, rest) = >>=-eq-ok (refuse_if (is_set parts.audio) _) _ h in
    let (bytes, read, rest') = >>=-eq-ok (ok_or part.bytes _) _ rest in
    let (v, small, last) = >>=-eq-ok (refuse_if (ltb max_request_bytes (length bytes)) _) _ rest' in
    let new = refuse_if-eq-ok (is_set parts.audio) _ fresh in
    let fits = refuse_if-eq-ok (ltb max_request_bytes (length bytes)) _ small in
    subst (Fills parts) (ok_eq last) (rw new (omega arith), λ s. ground (arith, fits))

module _ (from_str : Text → Result String TranscriptionOptions) where
  set_options-Fills :
      (parts : Parts) (part : Field) (parts' : Parts)
      → set_options from_str parts part ≡ ok parts'
      → Fills parts parts'
  unfolding set_options
  set_options-Fills parts part parts' h =
      let (u, fresh, rest) = >>=-eq-ok (refuse_if (is_set parts.options) _) _ h in
      let (text, read, rest') = >>=-eq-ok (ok_or part.text _) _ rest in
      let (options, parsed, last) =
        >>=-eq-ok
          (map_err (λ message. refused (failure 400 invalid_request message false none))
            (from_str text))
          _ rest' in
      let new = refuse_if-eq-ok (is_set parts.options) _ fresh in
      subst (Fills parts) (ok_eq last) (rw new (omega arith), λ s. s)

  set_field-Fills :
      (parts : Parts) (part : Field) (parts' : Parts)
      → set_field from_str parts part ≡ ok parts'
      → Fills parts parts'
  unfolding set_field
  set_field-Fills parts part parts' h = elim (Bool-cases (text_eq part.name (codes "options"))) [
    | inl e ↦ set_options-Fills parts part parts' (rw (e, set_field) at h)
    | inr e ↦ elim (Bool-cases (text_eq part.name (codes "audio_encoding"))) [
      | inl f ↦ set_encoding-Fills parts part parts' (rw (e, f, set_field) at h)
      | inr f ↦ elim (Bool-cases (text_eq part.name (codes "audio"))) [
        | inl g ↦ set_audio-Fills parts part parts' (rw (e, f, g, set_field) at h)
        | inr g ↦ let refused_field : err _ ≡ ok parts' = rw (e, f, g, set_field) at h in cc
      ]
    ]
  ]

  read_items-filled :
      (parts : Parts) (items : List Item) (parts' : Parts)
      → read_items from_str parts items ≡ ok parts'
      → (filled parts' ≡ filled parts + length items) × (IsSmall parts.audio → IsSmall parts'.audio)
  unfolding read_items
  read_items-filled parts [] parts' h =
      subst (λ p. (filled p ≡ filled parts + 0) × (IsSmall parts.audio → IsSmall p.audio)) (ok_eq h)
        (omega arith, λ s. s)
  read_items-filled parts (broken message ∷ items) parts' h = cc
  read_items-filled parts (field part ∷ items) parts' h =
      let (middle, first, rest) = >>=-eq-ok (set_field from_str parts part) _ h in
      let (one_more, small) = set_field-Fills parts part middle first in
      let (counted, small') = read_items-filled middle items parts' rest in
      (omega (arith, one_more, counted), λ s. small' (small s))

  finish_parts_sound :
      (parts : Parts) (input : MultipartInput)
      → finish_parts parts ≡ ok input
      → (filled parts ≡ 3)
        × (parts.audio ≡ some input.bytes)
        × (validate_audio input.encoding input.bytes ≡ ok input.duration_ms)
  unfolding finish_parts
  finish_parts_sound parts input h =
      let (options, has_options, rest) = >>=-eq-ok (ok_or parts.options _) _ h in
      let (encoding, has_encoding, rest') = >>=-eq-ok (ok_or parts.encoding _) _ rest in
      let (bytes, has_audio, rest'') = >>=-eq-ok (ok_or parts.audio _) _ rest' in
      let (duration, valid, last) = >>=-eq-ok (validate_audio encoding bytes) _ rest'' in
      let options' = ok_or-eq-ok parts.options _ has_options in
      let encoding' = ok_or-eq-ok parts.encoding _ has_encoding in
      let audio' = ok_or-eq-ok parts.audio _ has_audio in
      (
        rw (options', encoding', audio') refl,
        audio' ∙ ap (λ i. some i.bytes) (ok_eq last),
        subst (λ i. validate_audio i.encoding i.bytes ≡ ok i.duration_ms) (ok_eq last) valid,
      )

  -- A multipart request that is accepted has exactly three fields; its audio has at most 32 MiB
  -- and passed the validation in the encoding that was named, with the duration found there.
  pub accepted_has_three_fields :
      (items : List Item) (input : MultipartInput)
      → parse_multipart from_str items ≡ ok input
      → (length items ≡ 3)
        × (length input.bytes ≤ 32 * 1024 * 1024)
        × (validate_audio input.encoding input.bytes ≡ ok input.duration_ms)
  unfolding parse_multipart
  accepted_has_three_fields items input h =
      let (parts, read, last) =
        >>=-eq-ok
          (read_items from_str (record { options = none; encoding = none; audio = none }) items) _
          h in
      let (counted, small) = read_items-filled _ items parts read in
      let (full, audio, valid) = finish_parts_sound parts input last in
      (omega (arith, counted, full), subst IsSmall audio (small tt), valid)
