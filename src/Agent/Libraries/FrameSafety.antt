-- ===== src/Agent/Libraries/FrameSafety.antt =====
-- Frames through the VP9 wrapper (agent/encode_vp9_windows.go): the buffers that it indexes and the
-- planes that it copies to.
use oblireach.Base.{
  ℕ, zero, suc, ◌+◌, ◌*◌, ◌/◌, ◌≤◌, ◌<◌, ◌≡◌, ◌≢◌, inl, inr, refl, ap, Bool, true, false, ◌&&◌,
  Option, none, some, List, [], ◌∷◌, Bytes, All, is_empty, ◌^◌, length, leb, arith, Option-cases,
}
use oblireach.Agent.Pixels.Filled.{planes_filled}
use oblireach.Agent.Libraries.{
  Loader, success, is_success, i420_size, max_buf, Encoded, nothing, packet, not_initialised,
  failed, panicked, overran, wrote, wrap, zeroed,
}
use oblireach.Agent.Libraries.Packets.{pack_bounded}
use oblireach.Agent.Libraries.Vp9

-- An outcome that neither leaves the Go buffers nor the planes of the library, and no longer than the
-- buffer of the wrapper.
abbrev pub IsSafe : Encoded → Type 0
IsSafe nothing = Unit {0}
IsSafe (packet p) = length p ≤ max_buf
IsSafe not_initialised = ⊥
IsSafe (failed n) = n ≡ 2
IsSafe panicked = ⊥
IsSafe overran = ⊥

-- The wrapper is open for frames of a size.
pub record Ready (w h : ℕ) (s : Vp9.Vp9) : Type 0 where
  pub image : Vp9.Image
  pub flag : s.init_done ≡ true
  pub init : s.init ≡ true
  pub has_image : s.image ≡ some image
  pub room_y : w * h ≤ image.y_size
  pub room_uv : (w / 2) * (h / 2) ≤ image.uv_size
  pub room : length s.i420_buf ≡ w * h + 2 * ((w / 2) * (h / 2))

-- The library's images have room for their size, as vpx_img_alloc documents.
unfoldable pub AllocatesEnough : Vp9.Libvpx → Type 0
AllocatesEnough lib =
    (w h : ℕ) (i : Vp9.Image)
    → lib.alloc w h ≡ some i
    → (w * h ≤ i.y_size) × ((w / 2) * (h / 2) ≤ i.uv_size)

-- The packets that the library returns are so short that their sum with the buffer's size is no
-- negative int.
unfoldable pub ReturnsShort : Vp9.Libvpx → Type 0
ReturnsShort lib =
    (i420 : Bytes) (pts : ℕ) (ps : List (Bool × Bytes))
    → lib.encode i420 pts ≡ some ps
    → All (λ p. length p + max_buf < 2 ^ 31) (Vp9.frames ps)

length-zeroed : (n : ℕ) → length (zeroed n) ≡ n
unfolding zeroed
length-zeroed zero = refl
length-zeroed (suc n) = ap suc (length-zeroed n)

vpx_opened :
    (l : Loader) (lib : Vp9.Libvpx) (w h : ℕ) (s : Vp9.Vp9) (i : Vp9.Image)
    → s.init ≡ false
    → lib.alloc w h ≡ some i
    → (Vp9.vpx_encoder_init l lib w h s).1 ≡ success
    → ((Vp9.vpx_encoder_init l lib w h s).0.image ≡ some i)
      × ((Vp9.vpx_encoder_init l lib w h s).0.init ≡ true)
unfolding Vp9.vpx_encoder_init Vp9.with_image is_success
vpx_opened l lib w h s i closed e ok = (ground arith, ground arith)

vpx_allocated :
    (l : Loader) (lib : Vp9.Libvpx) (w h : ℕ) (s : Vp9.Vp9)
    → s.init ≡ false
    → lib.alloc w h ≡ none
    → (Vp9.vpx_encoder_init l lib w h s).1 ≢ success
unfolding Vp9.vpx_encoder_init Vp9.with_image is_success
vpx_allocated l lib w h s closed e ok = absurd (ground arith)

-- The wrapper's start is the library's, with the flag and a new buffer.
wrapper_opened :
    (l : Loader) (lib : Vp9.Libvpx) (w h : ℕ) (s : Vp9.Vp9)
    → (Vp9.vp9_encoder_init l lib w h s).1 ≡ success
    → ((Vp9.vpx_encoder_init l lib w h s).1 ≡ success)
      × ((Vp9.vp9_encoder_init l lib w h s).0 ≡ record (Vp9.vpx_encoder_init l lib w h s).0 {
        init_done = true;
        i420_buf = zeroed (i420_size w h);
      })
unfolding Vp9.vp9_encoder_init is_success
wrapper_opened l lib w h s ok = (ground arith, ground arith)

-- A start of a closed wrapper that succeeds makes it ready.
opened-Ready :
    (l : Loader) (lib : Vp9.Libvpx) (w h : ℕ) (s : Vp9.Vp9)
    → AllocatesEnough lib
    → s.init ≡ false
    → (Vp9.vp9_encoder_init l lib w h s).1 ≡ success
    → Ready w h (Vp9.vp9_encoder_init l lib w h s).0
unfolding AllocatesEnough i420_size
opened-Ready l lib w h s enough closed ok =
    let (started, same) = wrapper_opened l lib w h s ok in
    elim (Option-cases (lib.alloc w h)) [
      | inl e ↦ absurd (vpx_allocated l lib w h s closed e started)
      | inr (i, e) ↦
          let (image, init) = vpx_opened l lib w h s i closed e started in
          let (y, uv) = enough w h i e in
          rw same (record {
            image = i;
            flag = refl;
            init = init;
            has_image = image;
            room_y = y;
            room_uv = uv;
            room = length-zeroed (i420_size w h);
          })
    ]

wrap-IsSafe : (out : Bytes) → length out ≤ max_buf → IsSafe (wrap (wrote out))
unfolding wrap
wrap-IsSafe [] h = tt
wrap-IsSafe (b ∷ bs) h = h

encoded-IsSafe :
    (o : Option (List (Bool × Bytes))) (w h : ℕ) (s : Vp9.Vp9)
    → ((ps : List (Bool × Bytes))
        → o ≡ some ps
        → All (λ p. length p + max_buf < 2 ^ 31) (Vp9.frames ps))
    → Ready w h s
    → IsSafe (wrap (Vp9.encoded o max_buf s).1) × Ready w h (Vp9.encoded o max_buf s).0
unfolding Vp9.encoded wrap
encoded-IsSafe none w h s short r = (refl, r)
encoded-IsSafe (some ps) w h s short r =
    let (copied, e, bound) =
      pack_bounded max_buf [] (Vp9.frames ps) (omega arith) (short ps refl) in
    (
      rw e (wrap-IsSafe copied bound),
      record {
        image = r.image;
        flag = r.flag;
        init = r.init;
        has_image = r.has_image;
        room_y = r.room_y;
        room_uv = r.room_uv;
        room = r.room;
      },
    )

nonempty : (t : Bytes) → 0 < length t → is_empty t ≡ false
unfolding is_empty
nonempty [] h = absurd (omega arith)
nonempty (b ∷ t) h = refl

-- One frame.
frame-IsSafe :
    (lib : Vp9.Libvpx) (bgra : Bytes) (w h : ℕ) (s : Vp9.Vp9)
    → ReturnsShort lib
    → 0 < w * h
    → length bgra ≡ w * h * 4
    → Ready w h s
    → IsSafe (Vp9.vp9_encode_frame lib bgra w h s).1
      × Ready w h (Vp9.vp9_encode_frame lib bgra w h s).0
unfolding Vp9.vp9_encode_frame Vp9.on_planes Vp9.vpx_encode_frame Vp9.on_image ReturnsShort
frame-IsSafe lib bgra w h s short positive size r =
    let (t, e, held) = planes_filled bgra w h s.i420_buf size r.room in
    let fits : (leb (w * h) r.image.y_size && leb ((w / 2) * (h / 2)) r.image.uv_size) ≡ true =
      ground (arith, r.room_y, r.room_uv) in
    let full = nonempty t (omega (arith, held.size_kept)) in
    rw (r.flag, e, full, r.init, r.has_image, fits)
      (encoded-IsSafe (lib.encode t s.pts) w h _ (short t s.pts) (record {
        image = r.image;
        flag = refl;
        init = refl;
        has_image = refl;
        room_y = r.room_y;
        room_uv = r.room_uv;
        room = held.size_kept;
      }))

-- The frames of a stream, in order.
pub outcomes : Vp9.Libvpx → ℕ → ℕ → List Bytes → Vp9.Vp9 → List Encoded
outcomes lib w h [] s = []
outcomes lib w h (bgra ∷ frames) s =
    let r = Vp9.vp9_encode_frame lib bgra w h s in r.1 ∷ outcomes lib w h frames r.0

outcomes-IsSafe :
    (lib : Vp9.Libvpx) (w h : ℕ) (fs : List Bytes) (s : Vp9.Vp9)
    → ReturnsShort lib
    → 0 < w * h
    → All (λ f. length f ≡ w * h * 4) fs
    → Ready w h s
    → All IsSafe (outcomes lib w h fs s)
unfolding outcomes
outcomes-IsSafe lib w h [] s short positive sizes r = tt
outcomes-IsSafe lib w h (f ∷ fs) s short positive sizes r =
    let (safe, again) = frame-IsSafe lib f w h s short positive sizes.0 r in
    (safe, outcomes-IsSafe lib w h fs _ short positive sizes.1 again)

-- Frames of the size, with at least one pixel, that a closed VP9 encoder was opened for never index
-- outside the Go buffers nor copy past the planes of the library's image, and what is handed on fits
-- the wrapper's buffer; the library's images have room for their size, and its packets are so short
-- that their sums fit an int.
pub opened_frames-IsSafe :
    (l : Loader) (lib : Vp9.Libvpx) (w h : ℕ) (s : Vp9.Vp9) (fs : List Bytes)
    → AllocatesEnough lib
    → ReturnsShort lib
    → 0 < w * h
    → s.init ≡ false
    → (Vp9.vp9_encoder_init l lib w h s).1 ≡ success
    → All (λ f. length f ≡ w * h * 4) fs
    → All IsSafe (outcomes lib w h fs (Vp9.vp9_encoder_init l lib w h s).0)
opened_frames-IsSafe l lib w h s fs enough short positive closed ok sizes =
    outcomes-IsSafe lib w h fs _ short positive sizes (opened-Ready l lib w h s enough closed ok)

-- Opening an encoder again that is still open succeeds at any size and keeps its image: the first
-- frame that is larger than the image is copied past its planes.
pub reopened_overrun :
    (l : Loader) (lib : Vp9.Libvpx) (w h : ℕ) (s : Vp9.Vp9) (i : Vp9.Image) (bgra : Bytes)
    → s.init ≡ true
    → s.image ≡ some i
    → i.y_size < w * h
    → length bgra ≡ w * h * 4
    → ((Vp9.vp9_encoder_init l lib w h s).1 ≡ success)
      × ((Vp9.vp9_encode_frame lib bgra w h (Vp9.vp9_encoder_init l lib w h s).0).1 ≡ overran)
unfolding Vp9.vp9_encoder_init Vp9.vpx_encoder_init Vp9.vp9_encode_frame Vp9.on_planes
    Vp9.vpx_encode_frame Vp9.on_image is_success i420_size wrap
reopened_overrun l lib w h s i bgra open' image small size =
    let (t, e, held) =
      planes_filled bgra w h (zeroed (w * h + 2 * ((w / 2) * (h / 2)))) size (length-zeroed _) in
    let over : (leb (w * h) i.y_size && leb ((w / 2) * (h / 2)) i.uv_size) ≡ false = ground arith in
    let full = nonempty t (omega (arith, held.size_kept)) in
    (rw open' refl, rw (open', e, full, image, over) refl)
