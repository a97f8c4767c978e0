-- ===== src/Agent/Input/Keys.antt =====
-- The key codes of codeToVK and the Shift of dispatchInputJSON, agent/stream.go.
use oblireach.Base.{
  ℕ, ◌+◌, ◌<◌, ◌≡◌, ◌≢◌, refl, Bool, true, false, not, ◌&&◌, some, List, [], ◌∷◌, Bytes, codes,
  text_eq, Table, load, ltb, ◌==◌, if◌then◌else◌, Bool-cases, Option-cases, inl, inr, arith,
}
use oblireach.Agent.Input.{
  Input, Call, mouse_move, mouse_button, mouse_scroll, key_call, sas, vk_shift, code_table,
  code_to_vk, with_shift, by_key, key_calls, dispatch_input,
}

-- The entries of the table are in a range, checked one by one.
every_entry : (ℕ → Bool) → Table ℕ → Bool
every_entry p [] = true
every_entry p ((k, v) ∷ t) = p v && every_entry p t

load-every_entry :
    (p : ℕ → Bool) (t : Table ℕ) (k : Bytes) (v : ℕ)
    → every_entry p t ≡ true
    → load k t ≡ some v
    → p v ≡ true
unfolding load every_entry
load-every_entry p [] k v h e = cc
load-every_entry p ((j, w) ∷ t) k v h e = ground (arith, load-every_entry p t k v)

entries_small : every_entry (λ v. ltb v 256) code_table ≡ true
unfolding every_entry code_table
entries_small = refl

-- A physical key's code is 0, for a key that is not in the table, or a byte.
pub code_to_vk_bound : (code : Bytes) → code_to_vk code < 256
unfolding code_to_vk
code_to_vk_bound code = elim (Option-cases (load code code_table)) [
  | inl missing ↦ rw (code_to_vk, missing) (omega arith)
  | inr (v, found) ↦
      let small = load-every_entry (λ v. ltb v 256) code_table code v entries_small found in
      rw (code_to_vk, found) (ground arith)
]

-- How often a list of calls moves Shift down, or up.
abbrev pub shifts : Bool → List Call → ℕ
shifts down [] = 0
shifts down (key_call vk d ∷ l) =
    let rest = shifts down l in
    if vk == vk_shift && (if down then d else not d) then rest + 1 else rest
shifts down (mouse_move x y ∷ l) = shifts down l
shifts down (mouse_button b d x y ∷ l) = shifts down l
shifts down (mouse_scroll n ∷ l) = shifts down l
shifts down (sas ∷ l) = shifts down l

with_shift_balanced :
    (inject : Bool) (vk : ℕ) (down : Bool)
    → vk ≢ vk_shift
    → shifts true (with_shift inject vk down) ≡ shifts false (with_shift inject vk down)
unfolding with_shift
with_shift_balanced inject vk down h = elim (Bool-cases inject) [
  | inl on ↦ rw on (ground arith)
  | inr off ↦ rw off (ground arith)
]

module _ (vk_from_key : ℕ → ℕ × ℕ) where
  by_key_balanced :
      (m : Input) (down : Bool) (rune : ℕ)
      → (vk_from_key rune).0 ≢ 0
      → (vk_from_key rune).0 ≢ vk_shift
      → shifts true (by_key vk_from_key m down rune) ≡ shifts false (by_key vk_from_key m down rune)
  unfolding by_key
  by_key_balanced m down rune h k =
      let known : ((vk_from_key rune).0 == 0) ≡ false = ground arith in
      rw known (with_shift_balanced _ (vk_from_key rune).0 down k)

  -- A key event with one character that the layout maps to a key other than Shift moves Shift down as
  -- often as up.
  pub dispatch_input_balanced :
      (m : Input) (rune : ℕ)
      → m.type ≡ codes "key"
      → m.key ≡ rune ∷ []
      → (vk_from_key rune).0 ≢ 0
      → (vk_from_key rune).0 ≢ vk_shift
      → shifts true (dispatch_input vk_from_key m) ≡ shifts false (dispatch_input vk_from_key m)
  unfolding dispatch_input key_calls text_eq
  dispatch_input_balanced m rune t r h k =
      simp (t, r) (by_key_balanced m (text_eq m.action (codes "down")) rune h k)
