-- ===== src/Agent/Input/Examples.antt =====
-- Browser input at concrete inputs.
use oblireach.Base.{ℕ, ◌≡◌, refl, true, false, [], ◌∷◌, codes, text_eq, pos, arith, load}
use oblireach.Agent.Input.{
  by_code, mouse_calls, mouse_scroll, Input, key_call, dispatch_input, key_calls, by_key,
  with_shift, code_to_vk, code_table,
}
use oblireach.Agent.Input.Keys.{shifts, dispatch_input_balanced}

-- The key "A" on a layout where it needs Shift, and the key "r".
abbrev press : ℕ → Input
press c = record {
  type = codes "key";
  action = codes "down";
  x = pos 0;
  y = pos 0;
  button = pos 0;
  delta = pos 0;
  code = codes "KeyA";
  key = c ∷ [];
  shift = false;
}

abbrev layout : ℕ → ℕ × ℕ
layout rune = (0x41, 1)

pressed :
    dispatch_input layout (press b'A')
    ≡ key_call 0x10 true ∷ key_call 0x41 true ∷ key_call 0x10 false ∷ []
unfolding dispatch_input key_calls by_key with_shift text_eq
pressed = refl

arrow : code_to_vk (codes "ArrowUp") ≡ 0x26
unfolding code_to_vk code_table load text_eq
arrow = refl

dispatch_input_balanced_example :
    shifts true (dispatch_input layout (press b'A'))
    ≡ shifts false (dispatch_input layout (press b'A'))
dispatch_input_balanced_example =
    dispatch_input_balanced layout (press b'A') b'A' refl refl (λ e. absurd (omega arith))
      (λ e. absurd (omega arith))

-- A key with a name of more than one character goes by its physical code.
abbrev arrow_down : Input
arrow_down = record (press 0) { code = codes "ArrowDown"; key = 1 ∷ 2 ∷ [] }

pressed_arrow : dispatch_input layout arrow_down ≡ key_call 0x28 true ∷ []
unfolding dispatch_input key_calls by_code code_to_vk code_table load text_eq
pressed_arrow = refl

abbrev wheel : Input
wheel = record (press 0) { type = codes "mouse"; action = codes "scroll"; delta = pos 3 }

scrolled : dispatch_input layout wheel ≡ mouse_scroll (pos 3) ∷ []
unfolding dispatch_input mouse_calls text_eq
scrolled = refl
