-- ===== src/Agent/LogonSessions/Choice.antt =====
-- Which session is captured (agent/sessions_windows.go).
use oblireach.Base.{
  ℕ, ◌≡◌, ◌≢◌, inl, inr, refl, Bool, true, false, ◌&&◌, not, List, [], ◌∷◌, ◌++◌, All, codes,
  is_empty, text_eq, ◌==◌, if◌then◌else◌, arith, Bool-cases,
}
use oblireach.Agent.LogonSessions.{
  Detail, wts_state_name, is_skipped, info, listed, Wts, enumerate_sessions, first_active,
  no_console, find_capture_session,
}

-- A session with a user at work: active, not the services' session 0, and with a name.
abbrev pub IsAttended : Detail → Type 0
IsAttended d = (d.state ≡ 0) × (d.session_id ≢ 0) × (is_empty d.username ≡ false)

active_name : (n : ℕ) → text_eq (wts_state_name n) (codes "Active") ≡ (n == 0)
unfolding wts_state_name text_eq
active_name n = ground arith

is_chosen : Detail → Bool
is_chosen d = d.state == 0 && (not (d.session_id == 0) && not (is_empty d.username))

-- The first row that is attended, in the order of the platform.
first_attended : ℕ → List Detail → ℕ
first_attended fallback [] = fallback
first_attended fallback (d ∷ ds) = if is_chosen d then d.session_id else first_attended fallback ds

first_active-listed :
    (console fallback : ℕ) (ds : List Detail)
    → first_active fallback (listed console ds) ≡ first_attended fallback ds
unfolding first_active listed first_attended is_chosen is_skipped info
first_active-listed console fallback [] = refl
first_active-listed console fallback (d ∷ ds) =
    ground (arith, active_name d.state, first_active-listed console fallback ds)

-- What the search ends with.
pub data Found (fallback : ℕ) (ds : List Detail) (n : ℕ) : Type 0 where
  attended :
      (before : List Detail) (d : Detail) (after : List Detail)
      → ds ≡ before ++ (d ∷ after)
      → All (λ e. IsAttended e → ⊥) before
      → IsAttended d
      → n ≡ d.session_id
      → Found fallback ds n
  nobody : All (λ e. IsAttended e → ⊥) ds → n ≡ fallback → Found fallback ds n

is_chosen-IsAttended : (d : Detail) → is_chosen d ≡ true → IsAttended d
unfolding is_chosen
is_chosen-IsAttended d h = ground arith

not_chosen : (d : Detail) → is_chosen d ≡ false → IsAttended d → ⊥
unfolding is_chosen
not_chosen d h a = absurd (ground arith)

Found-cons :
    (fallback : ℕ) (d : Detail) (ds : List Detail) (n : ℕ)
    → (IsAttended d → ⊥)
    → Found fallback ds n
    → Found fallback (d ∷ ds) n
Found-cons fallback d ds n h (attended before e after same others here found) =
    attended (d ∷ before) e after (rw same refl) (h, others) here found
Found-cons fallback d ds n h (nobody others found) = nobody (h, others) found

first_attended-Found :
    (fallback : ℕ) (ds : List Detail) → Found fallback ds (first_attended fallback ds)
unfolding first_attended
first_attended-Found fallback [] = nobody tt refl
first_attended-Found fallback (d ∷ ds) = elim (Bool-cases (is_chosen d)) [
  | inl yes' ↦ rw yes' (attended [] d ds refl tt (is_chosen-IsAttended d yes') refl)
  | inr no' ↦
      rw no' (Found-cons fallback d ds _ (not_chosen d no') (first_attended-Found fallback ds))
]

-- On a machine without a console session, the first session of the platform's list with a user at
-- work is captured, and the service's own session only if there is none.
pub find_capture_session_headless :
    (w : Wts)
    → w.console_session ≡ no_console
    → w.enumerates ≡ true
    → Found w.my_session w.rows (find_capture_session w)
unfolding find_capture_session enumerate_sessions
find_capture_session_headless w h e =
    let absent : (w.console_session == no_console) ≡ true = ground arith in
    rw (absent, e, first_active-listed w.console_session w.my_session w.rows)
      (first_attended-Found w.my_session w.rows)
