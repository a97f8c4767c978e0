-- ===== src/Agent/Capture.antt =====
-- Screen capture on Windows: the C functions dxgi_init to capture_frame and the Go wrapper of
-- agent/capture_windows.go, up to the pixels. What Windows answers is an argument of each call.
use oblireach.Base.{
  ℕ, ◌*◌, Bool, true, false, ◌&&◌, ◌||◌, not, Option, none, some, List, get_elem?, ltb, ◌==◌,
  if◌then◌else◌, ℤ, pos,
}
pub mod Safety
mod Examples

-- The rectangle of a monitor on the desktop.
pub record Region : Type 0 where
  pub x : ℤ
  pub y : ℤ
  pub w : ℕ
  pub h : ℕ

-- How dxgi_init goes for a monitor: there is no device, it fails later but before the size is known,
-- at the interface or at the duplication of the output, or works.
pub data Dxgi : Type 0 where
  no_device : Dxgi
  no_output : ℕ → Dxgi
  no_interface no_duplication duplicates : Region → Dxgi

-- How the GDI calls go.
pub data Gdi : Type 0 where
  no_screen no_dc no_bitmap draws : Gdi

pub record Screen : Type 0 where
  pub dxgi : ℕ → Dxgi
  -- enumerate_monitors, and the virtual screen of GetSystemMetrics.
  pub monitors : List Region
  pub virtual_screen : Region
  pub gdi : Gdi

-- The globals: g_dup is there, g_use_gdi, the size, the origin, and captureActive of Go.
pub record Capture : Type 0 where
  pub dup : Bool
  pub use_gdi : Bool
  pub width : ℕ
  pub height : ℕ
  pub mon_x : ℤ
  pub mon_y : ℤ
  pub active : Bool

unfoldable pub closed : Capture
closed = record {
  dup = false;
  use_gdi = false;
  width = 0;
  height = 0;
  mon_x = pos 0;
  mon_y = pos 0;
  active = false;
}

-- A return code: 0, or a negative one by its amount.
pub data Code : Type 0 where
  success : Code
  failure : ℕ → Code

unfoldable pub set_region : Region → Capture → Capture
set_region r s = record s { width = r.w; height = r.h; mon_x = r.x; mon_y = r.y }

unfoldable pub dxgi_result : Dxgi → Capture → Capture × Code
dxgi_result no_device s = (s, failure 1)
dxgi_result (no_output n) s = (record s { dup = false }, failure n)
dxgi_result (no_interface r) s = (record (set_region r s) { dup = false }, failure 5)
dxgi_result (no_duplication r) s =
    (record (set_region r s) { dup = false; width = 0; height = 0 }, failure 6)
dxgi_result (duplicates r) s = (record (set_region r s) { dup = true }, success)

unfoldable pub gdi_result : Gdi → Capture → Capture × Code
gdi_result no_screen s = (s, failure 10)
gdi_result no_dc s = (record s { use_gdi = false }, failure 12)
gdi_result no_bitmap s = (record s { use_gdi = false }, failure 13)
gdi_result draws s = (record s { use_gdi = true }, success)

unfoldable pub region_or : Region → Option Region → Region
region_or d none = d
region_or d (some r) = if r.w == 0 || r.h == 0 then d else r

-- The region is set, and must not be empty.
unfoldable pub with_region : Region → Gdi → Capture → Capture × Code
with_region r no_screen s = (s, failure 10)
with_region r g s =
    let s' = set_region r s in if r.w == 0 || r.h == 0 then (s', failure 11) else gdi_result g s'

-- gdi_init on the region, or on the virtual screen where the region is empty.
unfoldable pub gdi_init : Option Region → Screen → Capture → Capture × Code
gdi_init region screen s = with_region (region_or screen.virtual_screen region) screen.gdi s

-- capture_init_monitor: DXGI first, then GDI on the monitor's region.
unfoldable pub capture_init_monitor : ℕ → Screen → Capture → Capture × Code
capture_init_monitor idx screen s =
    let (s', code) = dxgi_result (screen.dxgi idx) s in
    elim code [
      | success ↦ (s', success)
      | failure n ↦ gdi_init (get_elem? screen.monitors idx) screen s'
    ]

-- capture_close
unfoldable pub capture_close : Capture → Capture
capture_close s =
    if s.use_gdi
    then record s { use_gdi = false; width = 0; height = 0 }
    else record s { dup = false; width = 0; height = 0 }

-- How a frame goes: BitBlt and GetDIBits under GDI, and the duplication under DXGI.
pub data Acquired : Type 0 where
  timed_out lost got : Acquired

-- capture_frame: 0, 1, -1, or a call through g_dup where it is NULL.
pub data Grabbed : Type 0 where
  grabbed no_new grab_failed null_call : Grabbed

unfoldable pub acquire : Acquired → Grabbed
acquire timed_out = no_new
acquire lost = grab_failed
acquire got = grabbed

unfoldable pub capture_frame_c : Bool → Acquired → Capture → Grabbed
capture_frame_c blits a s =
    if s.use_gdi
    then (if blits then grabbed else grab_failed)
    else if s.dup
    then acquire a
    else null_call

-- What captureFrame of Go returns; `panicked` is the index panic of &buf[0] on an empty buffer.
pub data Frame : Type 0 where
  buffer_too_small no_new_frame panicked crashed : Frame
  reinit_failed : ℕ → Frame
  captured : ℕ → ℕ → Frame

unfoldable pub reinit : Screen → Capture → Capture × Frame
reinit screen s =
    let (s', code) = capture_init_monitor 0 screen (capture_close s) in
    elim code [ success ↦ (s', no_new_frame) | failure n ↦ (s', reinit_failed n) ]

unfoldable pub on_grabbed : Grabbed → Screen → Capture → Capture × Frame
on_grabbed grabbed screen s = (s, captured s.width s.height)
on_grabbed no_new screen s = (s, no_new_frame)
on_grabbed grab_failed screen s = reinit screen s
on_grabbed null_call screen s = (s, crashed)

-- captureFrame, on a buffer of a length
unfoldable pub capture_frame : ℕ → Bool → Acquired → Screen → Capture → Capture × Frame
capture_frame len blits a screen s =
    if ltb len (s.width * s.height * 4)
    then (s, buffer_too_small)
    else if len == 0
    then (s, panicked)
    else on_grabbed (capture_frame_c blits a s) screen s

-- captureInitMonitor, and captureInit for the first monitor
unfoldable pub capture_init : ℕ → Screen → Capture → Capture × Code
capture_init idx screen s =
    let (s', code) = capture_init_monitor idx screen s in
    elim code [ success ↦ (record s' { active = true }, success) | failure n ↦ (s', failure n) ]

-- captureClose
unfoldable pub capture_stop : Capture → Capture
capture_stop s = if s.active then record (capture_close s) { active = false } else s
