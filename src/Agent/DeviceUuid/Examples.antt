-- ===== src/Agent/DeviceUuid/Examples.antt =====
-- UUIDs at concrete machines.
use oblireach.Base.{
  ◌≡◌, refl, true, none, some, [], Bytes, codes, is_empty, text_eq, trim_right, arith,
}
use oblireach.Server.Token.{hex_encode}
use oblireach.Agent.DeviceUuid.{
  is_space, trim_left_space, keep_from, trim_right_space, trim_space, lower, to_lower, is_hex,
  hex_digits, uuid_re, match_string, normalise_uuid, with_dashes, from_product, from_machine_id,
  read_machine_uuid, with_version, print_uuid, generate_uuid, resolve_device_uuid, Config,
  first_config, setup_config,
}
use oblireach.Agent.DeviceUuid.Format.{array}
use oblireach.Agent.DeviceUuid.Normal.{IsUuid}
use oblireach.Agent.DeviceUuid.Setup.{setup_config_again, setup_config-IsUuid}

from_linux :
    read_machine_uuid (some (codes "0123456789ABCDEF0123456789abcdef\n")) none
    ≡ codes "01234567-89ab-cdef-0123-456789abcdef"
unfolding read_machine_uuid from_machine_id trim_space trim_left_space trim_right_space keep_from
    is_space with_dashes normalise_uuid to_lower lower match_string uuid_re hex_digits is_hex
    text_eq is_empty
from_linux = refl

abbrev random : Bytes
random = array 1 2 3 4 5 6 7 8 9 10 11 12 13 14 15 255

printed : generate_uuid random ≡ codes "01020304-0506-4708-890a-0b0c0d0e0fff"
unfolding generate_uuid with_version print_uuid hex_encode
printed = refl

abbrev first : Config
first = record {
  server_url = codes "https://x";
  api_key = codes "k";
  device_uuid = codes "01020304-0506-4708-890a-0b0c0d0e0fff";
}

first_run : setup_config [] random (codes "https://x/") (codes "k") none ≡ some (first, true)
unfolding setup_config first_config resolve_device_uuid generate_uuid with_version print_uuid
    hex_encode trim_right is_empty
first_run = refl

first_run_on_linux :
    setup_config (read_machine_uuid none none) random (codes "https://x/") (codes "k") none
    ≡ some (first, true)
unfolding setup_config first_config resolve_device_uuid generate_uuid with_version print_uuid
    hex_encode trim_right is_empty read_machine_uuid from_machine_id from_product
first_run_on_linux = refl

setup_config_again_example :
    (true ≡ true) × (setup_config [] [] [] [] (some first) ≡ some (first, true))
setup_config_again_example =
    setup_config_again [] random [] (codes "https://x/") (codes "k") none first true first_run

setup_config-IsUuid_example : IsUuid first.device_uuid
setup_config-IsUuid_example =
    setup_config-IsUuid none none 1 2 3 4 5 6 7 8 9 10 11 12 13 14 15 255 (codes "https://x/")
      (codes "k") none first true (omega arith) tt first_run_on_linux
