-- ===== src/Agent/WebSocket/Frames.antt =====
-- Writing and reading frames, agent/websocket.go.
use oblireach.Base.{
  ℕ, zero, suc, ◌+◌, ◌%◌, ◌^◌, ◌≤◌, ◌<◌, ◌≡◌, refl, ap, bit_and, bit_or, true, false, not, arith,
  [], ◌∷◌, ◌++◌, Bytes, IsByte, All, length, length-append, take-append, drop-append, get_or, leb,
  ◌==◌, Bool-cases, inl, inr, ok, err, bit_and_0f, bit_and_7f, bit_and_80, bit_or_80, xor_twice,
}
use mathlib.Core.List.{append_assoc}
use oblireach.Agent.WebSocket.{
  makeslice_panic, read_full, be_value, be_bytes, mask_from, max_alloc, read_length, read_key,
  read_payload, read_frame, length_header, write_frame,
}

pub read_full-append : (s t : Bytes) (n : ℕ) → length s ≡ n → read_full n (s ++ t) ≡ ok (s, t)
unfolding read_full
read_full-append s t n h =
    rw (← h) (ground (arith, take-append s t, drop-append s t, length-append s t))

be_value_two : (n : ℕ) → n < 2 ^ 16 → be_value 0 (be_bytes 2 n) ≡ n
unfolding be_value be_bytes
be_value_two n h = omega arith

be_value_eight : (n : ℕ) → n < 2 ^ 64 → be_value 0 (be_bytes 8 n) ≡ n
unfolding be_value be_bytes
be_value_eight n h = omega arith

get_or-IsByte : (key : Bytes) (i : ℕ) → All IsByte key → get_or key i 0 < 256
get_or-IsByte [] i h = omega arith
get_or-IsByte (b ∷ bs) zero h = h.0
get_or-IsByte (b ∷ bs) (suc i) h = get_or-IsByte bs i h.1

length-mask_from : (i : ℕ) (key bs : Bytes) → length (mask_from i key bs) ≡ length bs
unfolding mask_from
length-mask_from i key [] = refl
length-mask_from i key (b ∷ bs) = ap suc (length-mask_from (i + 1) key bs)

-- Masking twice with one key gives the payload back, from any position.
pub mask_twice :
    (i : ℕ) (key bs : Bytes)
    → All IsByte key
    → All IsByte bs
    → mask_from i key (mask_from i key bs) ≡ bs
unfolding mask_from
mask_twice i key [] hk hb = refl
mask_twice i key (b ∷ bs) hk hb =
    let x = xor_twice b (get_or key (i % 4) 0) hb.0 (get_or-IsByte key (i % 4) hk) in
    ground (arith, x, mask_twice (i + 1) key bs hk hb.1)

-- A header byte that carries the mask bit and one of the numbers below 128.
top_byte :
    (n : ℕ)
    → n < 128
    → (not (bit_and (bit_or 0x80 n) 0x80 == 0) ≡ true) × (bit_and (bit_or 0x80 n) 0x7f ≡ n)
top_byte n h = rw (bit_or_80 n h) (ground (arith, bit_and_80 (n + 128), bit_and_7f (n + 128)))

abbrev Reads : ℕ → ℕ → Bytes → Type 0
Reads n l ext =
    (length_header n ≡ l ∷ ext)
    × (not (bit_and l 0x80 == 0) ≡ true)
    × ((t : Bytes) → read_length (bit_and l 0x7f) (ext ++ t) ≡ ok (n, t))

-- The second byte announces a mask, and the length field is read back.
length_header_read : (n : ℕ) → n < 2 ^ 64 → (l : ℕ) × (ext : Bytes) × Reads n l ext
unfolding length_header read_length
length_header_read n h = elim (Bool-cases (leb n 125)) [
  | inl small ↦
      let (m, l) = top_byte (n % 256) (ground arith) in
      (bit_or 0x80 (n % 256), [], (ground arith, m, λ t. ground (arith, l)))
  | inr more ↦ elim (Bool-cases (leb n 65535)) [
    | inl medium ↦
        let (m, l) = top_byte 126 (omega arith) in
        (
          bit_or 0x80 126,
          be_bytes 2 n,
          (
            ground arith,
            m,
            λ t. ground (
              arith,
              l,
              be_value_two n,
              read_full-append (be_bytes 2 n) t 2 (unfold be_bytes in refl),
            ),
          ),
        )
    | inr large ↦
        let (m, l) = top_byte 127 (omega arith) in
        (
          bit_or 0x80 127,
          be_bytes 8 n,
          (
            ground arith,
            m,
            λ t. ground (
              arith,
              l,
              be_value_eight n h,
              read_full-append (be_bytes 8 n) t 8 (unfold be_bytes in refl),
            ),
          ),
        )
  ]
]

opcode_byte : (opcode : ℕ) → opcode < 16 → bit_and (bit_or 0x80 opcode) 0x0f ≡ opcode
opcode_byte opcode h =
    rw (bit_or_80 opcode (omega arith)) (ground (arith, bit_and_0f (opcode + 128)))

read_payload-mask_from :
    (key payload rest : Bytes) (n : ℕ)
    → length payload ≡ n
    → n ≤ max_alloc
    → All IsByte key
    → All IsByte payload
    → read_payload true key n (mask_from 0 key payload ++ rest) ≡ ok (payload, rest)
unfolding read_payload
read_payload-mask_from key [] rest zero e h hk hp = unfold mask_from in refl
read_payload-mask_from key (b ∷ bs) rest zero e h hk hp = absurd (omega arith)
read_payload-mask_from key payload rest (suc n) e h hk hp = ground (
  arith,
  mask_twice 0 key payload hk hp,
  read_full-append (mask_from 0 key payload) rest (suc n),
  length-mask_from 0 key payload,
)

read_key_masked : (key t : Bytes) → length key ≡ 4 → read_key true (key ++ t) ≡ ok (key, t)
unfolding read_key
read_key_masked key t h = read_full-append key t 4 h

-- A frame that the agent writes is read back whole, and what follows it on the connection is left
-- for the next read. The opcode has four bits, the key four bytes, and the payload fits an
-- allocation of the runtime.
pub read_frame-write_frame :
    (opcode : ℕ) (key payload rest : Bytes)
    → opcode < 16
    → length key ≡ 4
    → All IsByte key
    → All IsByte payload
    → length payload ≤ max_alloc
    → read_frame (write_frame opcode key payload ++ rest) ≡ ok (opcode, payload, rest)
unfolding read_frame write_frame
read_frame-write_frame opcode key payload rest ho hk bk bp hp =
    let (l, ext, header) = length_header_read (length payload) (omega arith) in
    let (shape, m, reads) = header in
    let masked = mask_from 0 key payload in
    rw (
      shape,
      append_assoc ext (key ++ masked) rest,
      append_assoc key masked rest,
      reads,
      m,
      read_key_masked key (masked ++ rest) hk,
      read_payload-mask_from key payload rest (length payload) refl hp bk bp,
      opcode_byte opcode ho,
    )

read_payload_oversized :
    (n : ℕ) (s : Bytes)
    → max_alloc < n
    → read_payload false (0 ∷ 0 ∷ 0 ∷ 0 ∷ []) n s ≡ err makeslice_panic
unfolding read_payload
read_payload_oversized zero s h = absurd (omega arith)
read_payload_oversized (suc n) s h = ground arith

-- A frame that announces more than the runtime can allocate brings the reader down, whatever
-- follows: the length is not tested before the allocation.
pub read_frame_oversized :
    (h0 n : ℕ) (rest : Bytes)
    → max_alloc < n
    → n < 2 ^ 64
    → read_frame (h0 ∷ 127 ∷ (be_bytes 8 n ++ rest)) ≡ err makeslice_panic
unfolding read_frame read_length read_key
read_frame_oversized h0 n rest big fits =
    rw (read_full-append (be_bytes 8 n) rest 8 (unfold be_bytes in refl), be_value_eight n fits)
      (rw (read_payload_oversized n rest big))
