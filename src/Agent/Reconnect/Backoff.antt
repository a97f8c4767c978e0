-- ===== src/Agent/Reconnect/Backoff.antt =====
-- The waits between two command sessions.
use oblireach.Base.{
  ℕ, zero, suc, ◌+◌, ◌*◌, ◌<◌, ◌≤◌, ◌≡◌, refl, List, [], ◌∷◌, ◌++◌, Bytes, All, arith, get_elem?,
  some,
}
use oblireach.Agent.Reconnect.{
  second, reconnect_base, reconnect_max, Ending, clean_close, failed, grow, next_backoff, announced,
  sleeps,
}

abbrev pub InRange : ℕ → Type 0
InRange b = (reconnect_base ≤ b) × (b ≤ reconnect_max)

pub next_backoff-InRange : (e : Ending) (b : ℕ) → InRange b → InRange (next_backoff e b)
unfolding next_backoff grow
next_backoff-InRange clean_close b h = ground arith
next_backoff-InRange (failed m) b h = ground arith

-- Whatever the sessions' endings, every wait is between the base and the maximum.
pub sleeps-InRange : (es : List Ending) (b : ℕ) → InRange b → All InRange (sleeps b es)
unfolding sleeps
sleeps-InRange [] b h = ground arith
sleeps-InRange (e ∷ es) b h =
    (next_backoff-InRange e b h, sleeps-InRange es _ (next_backoff-InRange e b h))

-- A failure never shortens the wait, and one below the maximum makes it half as long again.
pub next_backoff_failed :
    (m : Bytes) (b : ℕ)
    → InRange b
    → (b ≤ next_backoff (failed m) b)
      × ((3 * b ≤ 2 * reconnect_max)
          → (2 * next_backoff (failed m) b ≤ 3 * b) × (3 * b < 2 * next_backoff (failed m) b + 2))
unfolding next_backoff grow
next_backoff_failed m b h = (ground arith, λ k. ground arith)

abbrev pub failures : ℕ → List Ending
failures zero = []
failures (suc n) = failed [] ∷ failures n

-- Nine failures in a row bring the wait to the maximum, where every further failure leaves it.
pub sleeps_saturate :
    (es : List Ending)
    → (get_elem? (sleeps reconnect_base (failures 9 ++ es)) 8 ≡ some reconnect_max)
      × ((m : Bytes) → next_backoff (failed m) reconnect_max ≡ reconnect_max)
unfolding sleeps next_backoff grow
sleeps_saturate es = (refl, λ m. refl)

-- The first wait behind a failure is three seconds, while the log announces two.
pub first_wait :
    (m : Bytes)
    → (announced (failed m) reconnect_base ≡ 2 * second)
      × (next_backoff (failed m) reconnect_base ≡ 3 * second)
unfolding announced next_backoff grow
first_wait m = (refl, refl)
