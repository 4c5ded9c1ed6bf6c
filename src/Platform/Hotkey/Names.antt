-- ===== src/Platform/Hotkey/Names.antt =====
-- A binding can be told from its display name.
use free_whisper.Prelude.{
  ◌≡◌, sym, ap, ◌∙◌, Bool, true, false, List, [], ◌∷◌, ◌++◌, Option, some, arith, find?, Text,
  text_eq,
}
use free_whisper.Platform.Hotkey.{
  HotkeyKey, HotkeyBinding, space, f8, f9, f10, f11, f12, display_name,
}

with_key : HotkeyKey → List HotkeyBinding
with_key k =
    record { control = false; alt = false; shift = false; key = k }
    ∷ record { control = false; alt = false; shift = true; key = k }
    ∷ record { control = false; alt = true; shift = false; key = k }
    ∷ record { control = false; alt = true; shift = true; key = k }
    ∷ record { control = true; alt = false; shift = false; key = k }
    ∷ record { control = true; alt = false; shift = true; key = k }
    ∷ record { control = true; alt = true; shift = false; key = k }
    ∷ record { control = true; alt = true; shift = true; key = k }
    ∷ []

-- The binding with a display name, looked up among all 48.
read_name : Text → Option HotkeyBinding
unfolding with_key
read_name name =
    find? (λ b. text_eq (display_name b) name)
      (with_key space ++ with_key f8 ++ with_key f9 ++ with_key f10 ++ with_key f11 ++ with_key f12)

read_name-display_name :
    (c a s : Bool) (k : HotkeyKey)
    → let binding : HotkeyBinding = record { control = c; alt = a; shift = s; key = k } in
      read_name (display_name binding) ≡ some binding
unfolding read_name display_name text_eq
read_name-display_name c a s k = ground arith

-- Two bindings with the same display name are the same binding: no two hotkeys are shown alike.
pub display_name-injective :
    (left right : HotkeyBinding) → display_name left ≡ display_name right → left ≡ right
display_name-injective left right same =
    let l = read_name-display_name left.control left.alt left.shift left.key in
    let r = read_name-display_name right.control right.alt right.shift right.key in
    some_eq (sym l ∙ ap read_name same ∙ r)
  where
    some_eq : {a b : HotkeyBinding} → some a ≡ some b → a ≡ b
    some_eq h = cc
