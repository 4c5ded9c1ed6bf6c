-- ===== src/Platform/Hotkey.antt =====
-- crates/platform-windows/src/lib.rs: `HotkeyBinding`.
pub mod Names
mod Tests
use Prim.Native.String.{String}
use free_whisper.Prelude.{
  ℕ, Bool, true, false, not, ◌&&◌, List, [], ◌∷◌, ◌++◌, if◌then◌else◌, Result, ok, ◌>>=◌, ◌>>◌,
  refuse_if, Text, codes,
}

pub data HotkeyKey : Type 0 where
  space f8 f9 f10 f11 f12 : HotkeyKey

pub record HotkeyBinding : Type 0 where
  pub control : Bool
  pub alt : Bool
  pub shift : Bool
  pub key : HotkeyKey

pub data HotkeyError : Type 0 where
  invalid_binding registration_failed startup_failed : (message : String) → HotkeyError

unfoldable pub default_binding : HotkeyBinding
default_binding = record { control = true; alt = false; shift = false; key = space }

unfoldable pub key_name : HotkeyKey → Text
key_name space = codes "Leertaste"
key_name f8 = codes "F8"
key_name f9 = codes "F9"
key_name f10 = codes "F10"
key_name f11 = codes "F11"
key_name f12 = codes "F12"

unfoldable pub segments : HotkeyBinding → List Text
unfolding key_name
segments self =
    (if self.control then codes "Ctrl" ∷ [] else [])
    ++ (if self.alt then codes "Alt" ∷ [] else [])
    ++ (if self.shift then codes "Shift" ∷ [] else [])
    ++ key_name self.key ∷ []

-- `segments.join("+")`.
unfoldable pub join_plus : List Text → Text
join_plus [] = []
join_plus (s ∷ []) = s
join_plus (s ∷ t ∷ ts) = s ++ codes "+" ++ join_plus (t ∷ ts)

unfoldable pub display_name : HotkeyBinding → Text
unfolding segments join_plus
display_name self = join_plus (segments self)

unfoldable pub validate : HotkeyBinding → Result HotkeyError (Unit {0})
validate self = do
  refuse_if (not self.control && (not self.alt && not self.shift))
      (invalid_binding "at least one modifier key is required")
  ok tt

unfoldable pub virtual_key : HotkeyBinding → ℕ
virtual_key self = elim self.key [
  | space ↦ 32
  | f8 ↦ 119
  | f9 ↦ 120
  | f10 ↦ 121
  | f11 ↦ 122
  | f12 ↦ 123
]
