-- ===== src/Agent/Capture/Examples.antt =====
-- The Windows capture at concrete screens.
use oblireach.Base.{ℕ, ◌≡◌, ◌≢◌, ◌⊎◌, ◌*◌, ◌≤◌, refl, true, [], pos, arith}
use oblireach.Agent.Capture.{
  Region, no_output, duplicates, no_screen, draws, Screen, Capture, closed, capture_init,
  capture_init_monitor, dxgi_result, set_region, capture_frame, on_grabbed, capture_frame_c,
  acquire, lost, got, reinit, capture_close, gdi_init, with_region, region_or, crashed, panicked,
  captured, reinit_failed,
}
use oblireach.Agent.Capture.Safety.{IsOpen, capture_frame-IsOpen, capture_frame_again}

abbrev region : Region
region = record { x = pos 0; y = pos 0; w = 2; h = 1 }

abbrev desktop : Screen
desktop = record {
  dxgi = λ _. duplicates region;
  monitors = [];
  virtual_screen = region;
  gdi = draws;
}

-- The secure desktop: neither source can be had.
abbrev secure : Screen
secure = record { dxgi = λ _. no_output 4; monitors = []; virtual_screen = region; gdi = no_screen }

abbrev started : Capture
started = (capture_init 0 desktop closed).0

capture_frame-IsOpen_example :
    let (s', f) = capture_frame 8 true got desktop started in
    (f ≡ panicked → ◌≡◌ {A = ℕ} 8 0)
    × (f ≢ crashed)
    × ((w h : ℕ) → f ≡ captured w h → w * h * 4 ≤ 8)
    × (IsOpen s' ⊎ ((n : ℕ) × (f ≡ reinit_failed n)))
unfolding capture_init capture_init_monitor dxgi_result set_region closed
capture_frame-IsOpen_example = capture_frame-IsOpen 8 true got desktop started refl

capture_frame_again_example :
    (capture_frame 8 true got desktop (capture_frame 8 true lost secure started).0).1 ≡ crashed
unfolding capture_init capture_init_monitor dxgi_result set_region closed capture_frame on_grabbed
    capture_frame_c acquire reinit capture_close gdi_init with_region region_or
capture_frame_again_example =
    capture_frame_again 8 8 true true lost got secure desktop started 10 refl refl (omega arith)
      (omega arith)
