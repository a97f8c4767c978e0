-- ===== src/Agent/Libraries/Packets.antt =====
-- The copy of a library's packets into the buffer of the wrapper
-- (agent/encode_vp9_windows.go, encode_h265_windows.go).
use oblireach.Base.{
  ℕ, zero, suc, ◌+◌, ◌%◌, ◌^◌, ◌≤◌, ◌<◌, ◌≡◌, inl, inr, refl, ap, sym, ◌∙◌, true, false, List, [],
  ◌∷◌, ◌++◌, Bytes, All, take, length, length-append, leb, arith, Bool-cases,
}
use mathlib.Core.List.{append_assoc, append-nil}
use oblireach.Agent.Libraries.{pack, wrote}

pub concat : List Bytes → Bytes
concat [] = []
concat (p ∷ ps) = p ++ concat ps

length-take : (n : ℕ) (p : Bytes) → length (take n p) ≤ n
length-take zero p = omega arith
length-take (suc n) [] = omega arith
length-take (suc n) (b ∷ p) = omega (arith, length-take n p)

take-length : (p : Bytes) → take (length p) p ≡ p
take-length [] = refl
take-length (b ∷ p) = ap (λ l. b ∷ l) (take-length p)

-- Packets whose sizes cannot wrap the sum do not overrun the buffer.
pub pack_bounded :
    (cap : ℕ) (out : Bytes) (ps : List Bytes)
    → length out ≤ cap
    → All (λ p. length p + cap < 2 ^ 31) ps
    → (copied : Bytes) × (pack cap out ps ≡ wrote copied) × (length copied ≤ cap)
unfolding pack
pack_bounded cap out [] h small = (out, refl, h)
pack_bounded cap out (p ∷ ps) h small =
    let size = length p % 2 ^ 32 in
    let low : leb (2 ^ 31) (length out + size) ≡ false = ground (arith, small.0) in
    elim (Bool-cases (leb (length out + size) cap)) [
      | inl fits ↦
          rw (low, fits)
            (pack_bounded cap (out ++ take size p) ps
              (ground (arith, length-append out (take size p), length-take size p)) small.1)
      | inr full ↦ rw (low, full) (pack_bounded cap out ps h small.1)
    ]

-- Packets that fit together are all copied, in order.
pub pack_whole :
    (cap : ℕ) (out : Bytes) (ps : List Bytes)
    → cap < 2 ^ 31
    → length (out ++ concat ps) ≤ cap
    → pack cap out ps ≡ wrote (out ++ concat ps)
unfolding pack concat
pack_whole cap out [] c h = ap wrote (sym (append-nil out))
pack_whole cap out (p ∷ ps) c h =
    let room : length out + length p ≤ cap =
      omega (arith, length-append out (p ++ concat ps), length-append p (concat ps)) in
    let size : length p % 2 ^ 32 ≡ length p = omega arith in
    let low : leb (2 ^ 31) (length out + length p) ≡ false = ground arith in
    let fits : leb (length out + length p) cap ≡ true = ground arith in
    rw (size, low, fits, take-length p)
      (pack_whole cap (out ++ p) ps c (rw (append_assoc out p (concat ps)) h)
        ∙ ap wrote (append_assoc out p (concat ps)))
