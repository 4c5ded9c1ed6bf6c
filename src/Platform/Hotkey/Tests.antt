-- ===== src/Platform/Hotkey/Tests.antt =====
-- Two ways to write the default binding.
use free_whisper.Prelude.{◌≡◌, refl, true, false, codes}
use free_whisper.Platform.Hotkey.{HotkeyBinding, default_binding, display_name, space}
use free_whisper.Platform.Hotkey.Names.{display_name-injective}

abbrev binding : HotkeyBinding
binding = record { control = true; alt = false; shift = false; key = space }

shown : display_name binding ≡ codes "Ctrl+Leertaste"
unfolding display_name
shown = refl

display_name-injective_example : default_binding ≡ binding
unfolding default_binding
display_name-injective_example = display_name-injective default_binding binding refl
