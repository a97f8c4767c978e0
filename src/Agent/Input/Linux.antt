-- ===== src/Agent/Input/Linux.antt =====
-- Keys and mouse buttons on Linux: agent/input_linux.go. A call of the X server is a keysym or a
-- button with its direction; XKeysymToKeycode and the server itself are outside the model.
use oblireach.Base.{
  ap, ℕ, ◌+◌, ◌-◌, ◌≤◌, ◌≡◌, refl, Bool, true, false, ◌&&◌, Option, none, some, List, [], ◌∷◌, ◌++◌,
  codes, text_eq, ltb, leb, ◌==◌, if◌then◌else◌, ℤ, pos, negsuc, arith,
}
use oblireach.Agent.Input.{
  Input, Call, mouse_move, mouse_button, mouse_scroll, key_call, sas, by_key, with_shift,
  dispatch_input, key_calls,
}

-- lx_keysym_from_char and inputVKFromKey, which reports no modifier.
pub keysym_from_char : ℕ → ℕ
keysym_from_char ch =
    if leb 0x20 ch && leb ch 0x7E then ch else if leb 0x100 ch then 0x01000000 + ch else 0

pub vk_from_key : ℕ → ℕ × ℕ
vk_from_key rune = (keysym_from_char rune, 0)

pub keysym_table : List (ℕ × ℕ)
keysym_table =
    (0x08, 0xFF08)
    ∷ (0x09, 0xFF09)
    ∷ (0x0D, 0xFF0D)
    ∷ (0x10, 0xFFE1)
    ∷ (0x11, 0xFFE3)
    ∷ (0x12, 0xFFE9)
    ∷ (0x14, 0xFFE5)
    ∷ (0x1B, 0xFF1B)
    ∷ (0x20, 0x0020)
    ∷ (0x21, 0xFF55)
    ∷ (0x22, 0xFF56)
    ∷ (0x23, 0xFF57)
    ∷ (0x24, 0xFF50)
    ∷ (0x25, 0xFF51)
    ∷ (0x26, 0xFF52)
    ∷ (0x27, 0xFF53)
    ∷ (0x28, 0xFF54)
    ∷ (0x2D, 0xFF63)
    ∷ (0x2E, 0xFFFF)
    ∷ (0x5B, 0xFFEB)
    ∷ []

pub lookup : ℕ → List (ℕ × ℕ) → Option ℕ
lookup k [] = none
lookup k ((j, v) ∷ t) = let rest = lookup k t in if j == k then some v else rest

pub outside_table : ℕ → ℕ
outside_table vk =
    if leb 0x41 vk && leb vk 0x5A
    then vk + 0x20
    else if leb 0x30 vk && leb vk 0x39
    then vk
    else if leb 0x70 vk && leb vk 0x7B
    then 0xFFBE + (vk - 0x70)
    else 0

pub vk_to_keysym : ℕ → ℕ
vk_to_keysym vk = elim (lookup vk keysym_table) [ some ks ↦ ks | none ↦ outside_table vk ]

-- inputKey
pub input_key : ℕ → Bool → List (ℕ × Bool)
input_key vk down = let ks = vk_to_keysym vk in if ks == 0 then [] else (ks, down) ∷ []

-- lx_mouse_button: the X button for a button of the browser.
pub x_button : ℤ → ℕ
x_button (pos n) = if n == 1 then 3 else if n == 2 then 2 else 1
x_button (negsuc n) = 1

-- The keys that a list of calls sends.
pub keysyms : List Call → List (ℕ × Bool)
keysyms [] = []
keysyms (key_call vk down ∷ l) = input_key vk down ++ keysyms l
keysyms (mouse_move x y ∷ l) = keysyms l
keysyms (mouse_button b d x y ∷ l) = keysyms l
keysyms (mouse_scroll n ∷ l) = keysyms l
keysyms (sas ∷ l) = keysyms l

-- The keys of the table are below the letters.
keys_below : ℕ → List (ℕ × ℕ) → Bool
keys_below b [] = true
keys_below b ((j, v) ∷ t) = ltb j b && keys_below b t

lookup_above : (b c : ℕ) (t : List (ℕ × ℕ)) → keys_below b t ≡ true → b ≤ c → lookup c t ≡ none
unfolding lookup keys_below
lookup_above b c [] h le = refl
lookup_above b c ((j, v) ∷ t) h le = ground (arith, lookup_above b c t)

table_below : keys_below 0x61 keysym_table ≡ true
unfolding keys_below keysym_table
table_below = refl

letter_keysym :
    (c : ℕ) → 0x61 ≤ c → c ≤ 0x7A → vk_to_keysym c ≡ (if leb c 0x6F then 0 else 0xFFBE + (c - 0x70))
unfolding outside_table vk_to_keysym
letter_keysym c lo hi =
    rw (vk_to_keysym, lookup_above 0x61 c keysym_table table_below lo) (ground arith)

keysym_from_char_ascii : (c : ℕ) → 0x20 ≤ c → c ≤ 0x7E → keysym_from_char c ≡ c
unfolding keysym_from_char
keysym_from_char_ascii c lo hi = ground arith

typed_calls :
    (m : Input) (down : Bool) (c : ℕ)
    → 0x20 ≤ c
    → c ≤ 0x7E
    → by_key vk_from_key m down c ≡ key_call c down ∷ []
unfolding by_key with_shift vk_from_key
typed_calls m true c lo hi =
    let known : (c == 0) ≡ false = ground arith in rw (keysym_from_char_ascii c lo hi, known) refl
typed_calls m false c lo hi =
    let known : (c == 0) ≡ false = ground arith in rw (keysym_from_char_ascii c lo hi, known) refl

keysyms_typed :
    (m : Input) (c : ℕ)
    → m.type ≡ codes "key"
    → m.key ≡ c ∷ []
    → 0x20 ≤ c
    → c ≤ 0x7E
    → keysyms (dispatch_input vk_from_key m) ≡ input_key c (text_eq m.action (codes "down")) ++ []
unfolding dispatch_input key_calls text_eq keysyms
keysyms_typed m c t k lo hi =
    let calls = typed_calls m (text_eq m.action (codes "down")) c lo hi in
    simp (t, k) (ap keysyms calls)

-- On Linux the letters from a to o that are typed send no key, and those from p to z the function
-- keys from F1 to F11, since the keysym of the letter is taken for a Windows key code.
pub letters_lost :
    (m : Input) (c : ℕ)
    → m.type ≡ codes "key"
    → m.key ≡ c ∷ []
    → 0x61 ≤ c
    → c ≤ 0x7A
    → keysyms (dispatch_input vk_from_key m)
      ≡ (if leb c 0x6F then [] else (0xFFBE + (c - 0x70), text_eq m.action (codes "down")) ∷ [])
unfolding input_key
letters_lost m c t k lo hi =
    rw (keysyms_typed m c t k (omega arith) (omega arith), input_key, letter_keysym c lo hi)
      (ground arith)

-- The middle button of a browser is 1, which becomes the right button of X.
middle_button : x_button (pos 1) ≡ 3
unfolding x_button
middle_button = refl
