-- ===== src/Agent/DeviceUuid.antt =====
-- The identity of the device: normaliseUUID and resolveDeviceUUID of agent/machine_uuid.go,
-- readMachineUUID of agent/machine_uuid_linux.go, generateUUID and setupConfig of agent/main.go.
-- Texts are read as ASCII: a byte from 128 on is no white space and has no other case, and no text with
-- such a byte is a UUID.
use oblireach.Base.{
  ℕ, zero, suc, ◌+◌, ◌-◌, ◌/◌, ◌%◌, Bool, true, false, ◌&&◌, ◌||◌, not, Option, none, some, List,
  [], ◌∷◌, ◌++◌, Bytes, codes, length, get_or, set, take, drop, is_empty, text_eq, trim_right, leb,
  ltb, ◌==◌, if◌then◌else◌, bit_and, bit_or, map,
}
use oblireach.Server.Token.{hex_encode}
pub mod Format
pub mod Trimming
pub mod Normal
pub mod Setup
mod Examples

-- unicode.IsSpace on ASCII
pub is_space : ℕ → Bool
is_space c = c == 32 || (leb 9 c && leb c 13)

pub trim_left_space : Bytes → Bytes
trim_left_space [] = []
trim_left_space (c ∷ s) = if is_space c then trim_left_space s else c ∷ s

keep_from : ℕ → Bytes → Bytes
keep_from c [] = if is_space c then [] else c ∷ []
keep_from c (d ∷ s) = c ∷ d ∷ s

pub trim_right_space : Bytes → Bytes
trim_right_space [] = []
trim_right_space (c ∷ s) = keep_from c (trim_right_space s)

-- strings.TrimSpace
pub trim_space : Bytes → Bytes
trim_space s = trim_right_space (trim_left_space s)

pub lower : ℕ → ℕ
lower c = if leb b'A' c && leb c b'Z' then c + 32 else c

-- strings.ToLower
pub to_lower : Bytes → Bytes
to_lower [] = []
to_lower (c ∷ s) = lower c ∷ to_lower s

-- `[0-9a-f]` under `(?i)`
unfoldable pub is_hex : ℕ → Bool
is_hex c = (leb b'0' c && leb c b'9') || ((leb b'a' c && leb c b'f') || (leb b'A' c && leb c b'F'))

-- The pattern of uuidRe: true is a digit, false a dash.
pub hex_digits : ℕ → List Bool
hex_digits zero = []
hex_digits (suc n) = true ∷ hex_digits n

pub uuid_re : List Bool
unfolding hex_digits
uuid_re =
    hex_digits 8
    ++ (false
        ∷ (hex_digits 4
            ++ (false ∷ (hex_digits 4 ++ (false ∷ (hex_digits 4 ++ (false ∷ hex_digits 12)))))))

unfoldable pub match_string : List Bool → Bytes → Bool
match_string [] [] = true
match_string [] (c ∷ s) = false
match_string (p ∷ ps) [] = false
match_string (p ∷ ps) (c ∷ s) = (if p then is_hex c else c == b'-') && match_string ps s

abbrev pub zero_uuid : Bytes
zero_uuid = codes "00000000-0000-0000-0000-000000000000"

-- normaliseUUID
pub normalise_uuid : Bytes → Bytes
normalise_uuid s =
    let t = to_lower (trim_space s) in
    if text_eq t zero_uuid || not (match_string uuid_re t) then [] else t

with_dashes : Bytes → Bytes
with_dashes id =
    take 8 id
    ++ (b'-'
        ∷ (take 4 (drop 8 id)
            ++ (b'-'
                ∷ (take 4 (drop 12 id)
                    ++ (b'-' ∷ (take 4 (drop 16 id) ++ (b'-' ∷ take 12 (drop 20 id))))))))

from_product : Option Bytes → Bytes
from_product none = []
from_product (some b) = normalise_uuid (trim_space b)

from_machine_id : Option Bytes → Bytes
from_machine_id none = []
from_machine_id (some b) =
    let id = trim_space b in if length id == 32 then normalise_uuid (with_dashes id) else []

-- readMachineUUID on Linux, on what /etc/machine-id and /sys/class/dmi/id/product_uuid hold.
pub read_machine_uuid : Option Bytes → Option Bytes → Bytes
read_machine_uuid machine_id product_uuid =
    let u = from_machine_id machine_id in if is_empty u then from_product product_uuid else u

-- generateUUID, on the sixteen bytes of rand.Read
pub with_version : Bytes → Bytes
with_version b =
    let b' = set b 6 (bit_or (bit_and (get_or b 6 0) 0x0f) 0x40) in
    set b' 8 (bit_or (bit_and (get_or b' 8 0) 0x3f) 0x80)

pub print_uuid : Bytes → Bytes
print_uuid b =
    hex_encode (take 4 b)
    ++ (b'-'
        ∷ (hex_encode (take 2 (drop 4 b))
            ++ (b'-'
                ∷ (hex_encode (take 2 (drop 6 b))
                    ++ (b'-'
                        ∷ (hex_encode (take 2 (drop 8 b))
                            ++ (b'-' ∷ hex_encode (take 6 (drop 10 b)))))))))

pub generate_uuid : Bytes → Bytes
generate_uuid random = print_uuid (with_version random)

-- resolveDeviceUUID
pub resolve_device_uuid : Bytes → Bytes → Bytes → Bytes
resolve_device_uuid machine random stored =
    if not (is_empty machine)
    then machine
    else if not (is_empty stored)
    then stored
    else generate_uuid random

pub record Config : Type 0 where
  pub server_url : Bytes
  pub api_key : Bytes
  pub device_uuid : Bytes

-- setupConfig: the configuration and whether it is written, or the exit of a first run that lacks an
-- argument. `loaded` is `none` where the file is missing or does not parse.
first_config : Bytes → Bytes → Bytes → Bytes → Option (Config × Bool)
first_config machine random url key =
    if is_empty url || is_empty key
    then none
    else some (
      record {
        server_url = trim_right b'/' url;
        api_key = key;
        device_uuid = resolve_device_uuid machine random [];
      },
      true,
    )

pub setup_config : Bytes → Bytes → Bytes → Bytes → Option Config → Option (Config × Bool)
setup_config machine random url key none = first_config machine random url key
setup_config machine random url key (some cfg) =
    let uuid = resolve_device_uuid machine random cfg.device_uuid in
    some (
      record {
        server_url = (if is_empty url then cfg.server_url else trim_right b'/' url);
        api_key = (if is_empty key then cfg.api_key else key);
        device_uuid = uuid;
      },
      not (is_empty uuid),
    )
