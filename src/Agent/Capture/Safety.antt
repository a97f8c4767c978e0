-- ===== src/Agent/Capture/Safety.antt =====
-- Frames of the Windows capture (agent/capture_windows.go): when the C code is safe, and when it is
-- not.
use oblireach.Base.{
  ℕ, ◌*◌, ◌≤◌, ◌<◌, ◌≡◌, ◌≢◌, ◌⊎◌, ◌∙◌, inl, inr, refl, Bool, true, false, ◌&&◌, ◌||◌, arith,
  get_elem?,
}
use oblireach.Agent.Capture.{
  Region, Dxgi, Gdi, Screen, Capture, Code, success, failure, set_region, dxgi_result, gdi_result,
  region_or, with_region, gdi_init, capture_init_monitor, capture_close, Acquired, acquire,
  capture_frame_c, crashed, panicked, reinit_failed, captured, reinit, on_grabbed, capture_frame,
}

abbrev pub IsOpen : Capture → Type 0
IsOpen s = (s.dup || s.use_gdi) ≡ true

dxgi_success :
    (d : Dxgi) (s : Capture) → (dxgi_result d s).1 ≡ success → (dxgi_result d s).0.dup ≡ true
unfolding dxgi_result
dxgi_success d s e = ground arith

gdi_success :
    (r : Region) (g : Gdi) (s : Capture)
    → (with_region r g s).1 ≡ success
    → (with_region r g s).0.use_gdi ≡ true
unfolding with_region gdi_result
gdi_success r g s e = ground arith

Code-cases : (c : Code) → (c ≡ success) ⊎ ((n : ℕ) × (c ≡ failure n))
Code-cases success = inl refl
Code-cases (failure n) = inr (n, refl)

dxgi_failure :
    (d : Dxgi) (s : Capture) (n : ℕ)
    → s.dup ≡ false
    → (dxgi_result d s).1 ≡ failure n
    → ((dxgi_result d s).0.dup ≡ false) × ((dxgi_result d s).0.use_gdi ≡ s.use_gdi)
unfolding dxgi_result set_region
dxgi_failure d s n h e = (ground arith, ground arith)

gdi_failure :
    (r : Region) (g : Gdi) (s : Capture) (n : ℕ)
    → s.use_gdi ≡ false
    → (with_region r g s).1 ≡ failure n
    → ((with_region r g s).0.use_gdi ≡ false) × ((with_region r g s).0.dup ≡ s.dup)
unfolding with_region gdi_result set_region
gdi_failure r g s n h e = (ground arith, ground arith)

init_opens :
    (idx : ℕ) (screen : Screen) (s : Capture)
    → (capture_init_monitor idx screen s).1 ≡ success
    → IsOpen (capture_init_monitor idx screen s).0
unfolding capture_init_monitor gdi_init
init_opens idx screen s e = ground (
  arith,
  dxgi_success (screen.dxgi idx) s,
  gdi_success (region_or screen.virtual_screen (get_elem? screen.monitors idx)) screen.gdi
      (dxgi_result (screen.dxgi idx) s).0,
)

init_fails :
    (idx : ℕ) (screen : Screen) (s : Capture) (n : ℕ)
    → s.dup ≡ false
    → s.use_gdi ≡ false
    → (capture_init_monitor idx screen s).1 ≡ failure n
    → ((capture_init_monitor idx screen s).0.dup ≡ false)
      × ((capture_init_monitor idx screen s).0.use_gdi ≡ false)
unfolding capture_init_monitor gdi_init
init_fails idx screen s n h k e =
    let r = region_or screen.virtual_screen (get_elem? screen.monitors idx) in
    let t = (dxgi_result (screen.dxgi idx) s).0 in
    elim (Code-cases (dxgi_result (screen.dxgi idx) s).1) [
      | inl worked ↦
          absurd (let x : success ≡ failure n = rw (capture_init_monitor, worked) at e in cc)
      | inr (m, bad) ↦
          let (no_dup, same) = dxgi_failure (screen.dxgi idx) s m h bad in
          let after : (with_region r screen.gdi t).1 ≡ failure n =
            rw (capture_init_monitor, bad) at e in
          let (no_gdi, kept) = gdi_failure r screen.gdi t n (same ∙ k) after in
          rw (capture_init_monitor, bad) (kept ∙ no_dup, no_gdi)
    ]

closes :
    (s : Capture)
    → (s.dup && s.use_gdi) ≡ false
    → ((capture_close s).dup ≡ false) × ((capture_close s).use_gdi ≡ false)
unfolding capture_close
closes s one = (ground arith, ground arith)

reinit_opens :
    (screen : Screen) (s : Capture)
    → IsOpen (reinit screen s).0 ⊎ ((n : ℕ) × ((reinit screen s).1 ≡ reinit_failed n))
unfolding reinit
reinit_opens screen s = elim (Code-cases (capture_init_monitor 0 screen (capture_close s)).1) [
  | inl worked ↦ inl (rw (reinit, worked) (init_opens 0 screen (capture_close s) worked))
  | inr (n, bad) ↦ inr (n, rw (reinit, bad) refl)
]

reinit_not_crashed : (screen : Screen) (s : Capture) → (reinit screen s).1 ≢ crashed
unfolding reinit
reinit_not_crashed screen s e = absurd (ground arith)

reinit_not_panicked : (screen : Screen) (s : Capture) → (reinit screen s).1 ≢ panicked
unfolding reinit
reinit_not_panicked screen s e = absurd (ground arith)

reinit_no_frame : (screen : Screen) (s : Capture) (w h : ℕ) → (reinit screen s).1 ≢ captured w h
unfolding reinit
reinit_no_frame screen s w h e = absurd (ground arith)

-- A failed restart leaves neither source.
reinit_closes :
    (screen : Screen) (s : Capture) (n : ℕ)
    → (s.dup && s.use_gdi) ≡ false
    → (reinit screen s).1 ≡ reinit_failed n
    → ((reinit screen s).0.dup ≡ false) × ((reinit screen s).0.use_gdi ≡ false)
unfolding reinit
reinit_closes screen s n one e =
    let (no_dup, no_gdi) = closes s one in
    ground (arith, init_fails 0 screen (capture_close s) n no_dup no_gdi)

-- An open capture, asked for a frame: the call panics at most on an empty buffer, the C code is never
-- called without a source, what it fills fits the buffer, and the capture is open afterwards unless a failed frame made it start again in vain.
pub capture_frame-IsOpen :
    (len : ℕ) (blits : Bool) (a : Acquired) (screen : Screen) (s : Capture)
    → IsOpen s
    → let (s', f) = capture_frame len blits a screen s in
      (f ≡ panicked → len ≡ 0)
      × (f ≢ crashed)
      × ((w h : ℕ) → f ≡ captured w h → w * h * 4 ≤ len)
      × (IsOpen s' ⊎ ((n : ℕ) × (f ≡ reinit_failed n)))
unfolding capture_frame on_grabbed capture_frame_c acquire
capture_frame-IsOpen len blits a screen s o = ground (
  arith,
  reinit_opens screen s,
  reinit_not_crashed screen s,
  reinit_not_panicked screen s,
  reinit_no_frame screen s,
)

-- A capture with at most one source whose frame failed and which then failed to start again, asked
-- for another frame with a buffer that is not empty and that its size fits, calls through a null pointer.
pub capture_frame_again :
    (len len' : ℕ) (blits blits' : Bool) (a a' : Acquired) (screen screen' : Screen) (s : Capture)
    (n : ℕ)
    → (s.dup && s.use_gdi) ≡ false
    → (capture_frame len blits a screen s).1 ≡ reinit_failed n
    → let s' = (capture_frame len blits a screen s).0 in
      s'.width * s'.height * 4 ≤ len'
      → 0 < len'
      → (capture_frame len' blits' a' screen' s').1 ≡ crashed
unfolding capture_frame on_grabbed capture_frame_c
capture_frame_again len len' blits blits' a a' screen screen' s n one e small full =
    ground (arith, reinit_closes screen s n one)
