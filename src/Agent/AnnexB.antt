-- ===== src/Agent/AnnexB.antt =====
-- ensureAnnexB of agent/encode_windows.go: the encoder's output with a length before each NAL unit
-- (AVCC) is turned into the form with start codes (Annex B). The bytes are what is left of the
-- data, `data[i:]`; the fuel counts the rounds of the loop.
use oblireach.Base.{
  ℕ, zero, suc, ◌+◌, ◌*◌, ◌^◌, Bool, ◌&&◌, ◌||◌, List, [], ◌∷◌, ◌++◌, Bytes, length, get_or, take,
  drop, is_empty, ltb, ◌==◌, if◌then◌else◌,
}
mod Examples
pub mod Units
pub mod Conversion

pub data Outcome : Type 0 where
  converted : Bytes → Outcome
  -- A length that is 0 or runs past the end.
  invalid : Outcome
  out_of_fuel : Outcome

abbrev pub start_code : Bytes
start_code = 0 ∷ 0 ∷ 0 ∷ 1 ∷ []

-- `int(data[i])<<24 | int(data[i+1])<<16 | int(data[i+2])<<8 | int(data[i+3])`
unfoldable pub nal_len : Bytes → ℕ
nal_len rest =
    get_or rest 0 0 * 2 ^ 24 + get_or rest 1 0 * 2 ^ 16 + get_or rest 2 0 * 2 ^ 8 + get_or rest 3 0

unfoldable pub convert : ℕ → Bytes → Bytes → Outcome
convert zero rest out = out_of_fuel
convert (suc fuel) rest out =
    let n = nal_len rest in
    let body = drop 4 rest in
    let next = convert fuel (drop n body) (out ++ (start_code ++ take n body)) in
    if ltb (length rest) 4
    then converted out
    else if n == 0 || ltb (length body) n
    then invalid
    else next

-- The two start codes, at the head of the data.
unfoldable pub has_start_code : Bytes → Bool
has_start_code bytes =
    let b0 = get_or bytes 0 0 == 0 in
    let b1 = get_or bytes 1 0 == 0 in
    let b2 = get_or bytes 2 0 in
    (b0 && (b1 && (b2 == 0 && get_or bytes 3 0 == 1))) || (b0 && (b1 && b2 == 1))

unfoldable pub or_unchanged : Bytes → Outcome → Bytes
or_unchanged bytes (converted out) = if is_empty out then bytes else out
or_unchanged bytes invalid = bytes
or_unchanged bytes out_of_fuel = bytes

unfoldable pub ensure_annex_b : Bytes → Bytes
ensure_annex_b bytes =
    if ltb (length bytes) 5
    then bytes
    else if has_start_code bytes
    then bytes
    else or_unchanged bytes (convert (suc (length bytes)) bytes [])
