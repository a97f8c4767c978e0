-- ===== src/Agent/Input.antt =====
-- Browser input: dispatchInputJSON and codeToVK of agent/stream.go, and what becomes of keys and
-- mouse buttons on Linux, agent/input_linux.go. The JSON decoding is outside the model: an `Input`
-- is the decoded message, its numbers truncated to integers and its key as code points.
use oblireach.Base.{
  ℕ, ◌+◌, ◌-◌, ◌%◌, Bool, true, false, not, ◌&&◌, Option, none, some, List, [], ◌∷◌, ◌++◌, Bytes,
  codes, text_eq, Table, load, leb, ◌==◌, if◌then◌else◌, ℤ, length,
}
pub mod Keys
pub mod Linux
mod Examples

pub record Input : Type 0 where
  pub type : Bytes
  pub action : Bytes
  pub x : ℤ
  pub y : ℤ
  pub button : ℤ
  pub delta : ℤ
  pub code : Bytes
  pub key : List ℕ
  pub shift : Bool

-- The calls of the platform's input functions.
pub data Call : Type 0 where
  mouse_move : ℤ → ℤ → Call
  mouse_button : ℤ → Bool → ℤ → ℤ → Call
  mouse_scroll : ℤ → Call
  key_call : ℕ → Bool → Call
  sas : Call

abbrev pub vk_shift : ℕ
vk_shift = 0x10

pub code_table : Table ℕ
code_table =
    (codes "KeyA", 0x41)
    ∷ (codes "KeyB", 0x42)
    ∷ (codes "KeyC", 0x43)
    ∷ (codes "KeyD", 0x44)
    ∷ (codes "KeyE", 0x45)
    ∷ (codes "KeyF", 0x46)
    ∷ (codes "KeyG", 0x47)
    ∷ (codes "KeyH", 0x48)
    ∷ (codes "KeyI", 0x49)
    ∷ (codes "KeyJ", 0x4A)
    ∷ (codes "KeyK", 0x4B)
    ∷ (codes "KeyL", 0x4C)
    ∷ (codes "KeyM", 0x4D)
    ∷ (codes "KeyN", 0x4E)
    ∷ (codes "KeyO", 0x4F)
    ∷ (codes "KeyP", 0x50)
    ∷ (codes "KeyQ", 0x51)
    ∷ (codes "KeyR", 0x52)
    ∷ (codes "KeyS", 0x53)
    ∷ (codes "KeyT", 0x54)
    ∷ (codes "KeyU", 0x55)
    ∷ (codes "KeyV", 0x56)
    ∷ (codes "KeyW", 0x57)
    ∷ (codes "KeyX", 0x58)
    ∷ (codes "KeyY", 0x59)
    ∷ (codes "KeyZ", 0x5A)
    ∷ (codes "Digit0", 0x30)
    ∷ (codes "Digit1", 0x31)
    ∷ (codes "Digit2", 0x32)
    ∷ (codes "Digit3", 0x33)
    ∷ (codes "Digit4", 0x34)
    ∷ (codes "Digit5", 0x35)
    ∷ (codes "Digit6", 0x36)
    ∷ (codes "Digit7", 0x37)
    ∷ (codes "Digit8", 0x38)
    ∷ (codes "Digit9", 0x39)
    ∷ (codes "Space", 0x20)
    ∷ (codes "Enter", 0x0D)
    ∷ (codes "Backspace", 0x08)
    ∷ (codes "Tab", 0x09)
    ∷ (codes "Escape", 0x1B)
    ∷ (codes "Delete", 0x2E)
    ∷ (codes "Insert", 0x2D)
    ∷ (codes "Home", 0x24)
    ∷ (codes "End", 0x23)
    ∷ (codes "PageUp", 0x21)
    ∷ (codes "PageDown", 0x22)
    ∷ (codes "ArrowLeft", 0x25)
    ∷ (codes "ArrowUp", 0x26)
    ∷ (codes "ArrowRight", 0x27)
    ∷ (codes "ArrowDown", 0x28)
    ∷ (codes "ShiftLeft", 0x10)
    ∷ (codes "ShiftRight", 0x10)
    ∷ (codes "ControlLeft", 0x11)
    ∷ (codes "ControlRight", 0x11)
    ∷ (codes "AltLeft", 0x12)
    ∷ (codes "AltRight", 0x12)
    ∷ (codes "MetaLeft", 0x5B)
    ∷ (codes "MetaRight", 0x5C)
    ∷ (codes "F1", 0x70)
    ∷ (codes "F2", 0x71)
    ∷ (codes "F3", 0x72)
    ∷ (codes "F4", 0x73)
    ∷ (codes "F5", 0x74)
    ∷ (codes "F6", 0x75)
    ∷ (codes "F7", 0x76)
    ∷ (codes "F8", 0x77)
    ∷ (codes "F9", 0x78)
    ∷ (codes "F10", 0x79)
    ∷ (codes "F11", 0x7A)
    ∷ (codes "F12", 0x7B)
    ∷ (codes "Minus", 0xBD)
    ∷ (codes "Equal", 0xBB)
    ∷ (codes "BracketLeft", 0xDB)
    ∷ (codes "BracketRight", 0xDD)
    ∷ (codes "Backslash", 0xDC)
    ∷ (codes "Semicolon", 0xBA)
    ∷ (codes "Quote", 0xDE)
    ∷ (codes "Comma", 0xBC)
    ∷ (codes "Period", 0xBE)
    ∷ (codes "Slash", 0xBF)
    ∷ (codes "Backquote", 0xC0)
    ∷ (codes "CapsLock", 0x14)
    ∷ (codes "NumLock", 0x90)
    ∷ (codes "ScrollLock", 0x91)
    ∷ []

pub code_to_vk : Bytes → ℕ
code_to_vk code = elim (load code code_table) [ none ↦ 0 | some vk ↦ vk ]

mouse_calls : Input → List Call
mouse_calls m =
    if text_eq m.action (codes "move")
    then mouse_move m.x m.y ∷ []
    else if text_eq m.action (codes "down")
    then mouse_button m.button true m.x m.y ∷ []
    else if text_eq m.action (codes "up")
    then mouse_button m.button false m.x m.y ∷ []
    else if text_eq m.action (codes "scroll")
    then mouse_scroll m.delta ∷ []
    else []

by_code : Input → Bool → List Call
by_code m down = let vk = code_to_vk m.code in if vk == 0 then [] else key_call vk down ∷ []

-- Shift is pressed and released around the key.
with_shift : Bool → ℕ → Bool → List Call
with_shift inject vk down =
    if inject
    then key_call vk_shift true ∷ key_call vk down ∷ key_call vk_shift false ∷ []
    else key_call vk down ∷ []

-- `vk_from_key` is inputVKFromKey on a text of one code point; its second number has the flag 1 when
-- the character needs Shift.
module _ (vk_from_key : ℕ → ℕ × ℕ) where
  by_key : Input → Bool → ℕ → List Call
  by_key m down rune =
      let found = vk_from_key rune in
      let needs_shift = found.1 % 2 == 1 in
      if found.0 == 0
      then by_code m down
      else with_shift (down && (needs_shift && not m.shift)) found.0 down

  key_calls : Input → Bool → List ℕ → List Call
  key_calls m down (rune ∷ []) = by_key m down rune
  key_calls m down [] = by_code m down
  key_calls m down (r ∷ q ∷ rest) = by_code m down

  pub dispatch_input : Input → List Call
  dispatch_input m =
      if text_eq m.type (codes "mouse")
      then mouse_calls m
      else if text_eq m.type (codes "key")
      then key_calls m (text_eq m.action (codes "down")) m.key
      else if text_eq m.type (codes "sas")
      then sas ∷ []
      else []
