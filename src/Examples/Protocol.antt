-- ===== src/Examples/Protocol.antt =====
-- Packets, bodies and headers of main/src/bluetooth_common.cpp and main/src/firmware_package.cpp at
-- concrete inputs, with a cipher that leaves the text as it is.
use plant_watering.Prelude.{
  ℕ, ◌+◌, ◌≤◌, ◌<◌, ◌≡◌, refl, sym, ◌↔◌, ap, true, List, [], ◌∷◌, ◌++◌, Option, none, some, arith,
  length, drop, replicate,
}
use plant_watering.Bluetooth.Tlv.{TlvFieldView, find_first_field, max_body_size}
use plant_watering.Bluetooth.Tlv.Fields.{body_bytes, first_of_type, find_first_field_iff}
use plant_watering.Bluetooth.Message.{MessageId, message_id, Mac}
use plant_watering.Bluetooth.Crypto.{Primitives, IsAead, encrypt_payload, derive_iv}
use plant_watering.Bluetooth.Packet.{make_bt_packet, parse_bt_packet_header, on_result}
use plant_watering.Bluetooth.Packet.RoundTrip.{
  six_bytes, Structure, structures, manufacturer, parse_bt_packet_header-make_bt_packet,
  on_result-manufacturer,
}
use plant_watering.Ota.Package.{Header, ParseError, parse_header}
use plant_watering.Ota.Package.RoundTrip.{encode_header, IsInstallable, parse_header-encode_header}
use plant_watering.Text.{mac_from_hex_string, mac_to_hex_lower, copy_utf8_truncated}
use plant_watering.Text.MacHex.{mac_from_hex_string-mac_to_hex_lower}
use plant_watering.Text.Utf8.{Copied, copy_utf8_truncated-Copied}
use plant_watering.Watering.Command.{IsRequest, parse_water_command-water_command_body}
use plant_watering.Watering.{water_command_body, durations_ok}
use plant_watering.Prelude.Bytes.{popcount}
use plant_watering.Worker.Water.{parse_water_command}
use plant_watering.Worker.Control.{Snapshot, status_body}
use plant_watering.Nodes.{parse_status_body}
use plant_watering.Nodes.Status.{IsReading, parse_status_body-status_body}

abbrev plain_cipher : Primitives
plain_cipher = record {
  hmac = λ key material. some material;
  seal = λ key iv aad plain. some (plain, replicate 16 0);
  unseal = λ key iv aad cipher tag. some cipher;
}

text_of : Option (List ℕ × List ℕ) → List ℕ
text_of none = []
text_of (some (text, tag)) = text

tag_of : Option (List ℕ × List ℕ) → List ℕ
tag_of none = []
tag_of (some (text, tag)) = tag

plain_cipher-IsAead : IsAead plain_cipher
unfolding text_of tag_of
plain_cipher-IsAead = record {
  seal_lengths = λ key iv aad plain cipher tag e.
      (sym (ap (λ r. length (text_of r)) e), sym (ap (λ r. length (tag_of r)) e));
  unseal-seal = λ key iv aad plain cipher tag e. ap (λ r. some (text_of r)) (sym e);
}

abbrev probe : List ℕ
probe = 0x30 ∷ []

abbrev first_id : MessageId
first_id = message_id 77 1

abbrev target : Mac
target = six_bytes 1 2 3 4 5 6

sealed_probe :
    encrypt_payload plain_cipher true probe target first_id ≡ some (probe ++ replicate 16 0)
unfolding encrypt_payload derive_iv
sealed_probe = refl

abbrev probe_packet : List ℕ
probe_packet =
    0xFF
    ∷ 0xFF
    ∷ 1
    ∷ 2
    ∷ 3
    ∷ 4
    ∷ 5
    ∷ 6
    ∷ 0
    ∷ 0
    ∷ 0
    ∷ 0
    ∷ 0
    ∷ 0
    ∷ 0
    ∷ 77
    ∷ 0
    ∷ 0
    ∷ 0
    ∷ 1
    ∷ 0x30
    ∷ replicate 16 0

made_probe : make_bt_packet plain_cipher true target first_id probe ≡ some probe_packet
unfolding make_bt_packet encrypt_payload derive_iv
made_probe = refl

parse_bt_packet_header-make_bt_packet_example :
    (parse_bt_packet_header plain_cipher true (drop 2 probe_packet)
      ≡ some (record { target = target; id = first_id; body = probe }))
    × (length probe_packet ≡ length probe + 36)
    × (0 < length probe)
    × (length probe ≤ max_body_size)
parse_bt_packet_header-make_bt_packet_example =
    parse_bt_packet_header-make_bt_packet plain_cipher 1 2 3 4 5 6 first_id probe probe_packet
      plain_cipher-IsAead (omega arith, omega arith) made_probe

-- The flags that an advertisement begins with.
abbrev flags : Structure
flags = record { ad_type = 1; content = 6 ∷ []; is_other = λ e. omega arith }

on_result-manufacturer_example :
    on_result (structures (flags ∷ []) ++ (manufacturer (10 ∷ 11 ∷ []) ++ (0 ∷ [])))
    ≡ some (10 ∷ 11 ∷ [])
on_result-manufacturer_example = on_result-manufacturer (flags ∷ []) (10 ∷ 11 ∷ []) (0 ∷ [])

-- A body that ends inside a field.
find_first_field_iff_example :
    (find_first_field (5 ∷ 2 ∷ 0 ∷ []) 5 ≡ some none)
    ↔ ((fs : List TlvFieldView) × (5 ∷ 2 ∷ 0 ∷ [] ≡ body_bytes fs) × (none ≡ first_of_type 5 fs))
find_first_field_iff_example = find_first_field_iff (5 ∷ 2 ∷ 0 ∷ []) 5 none

abbrev release : Header
release = record {
  format_version = 1;
  header_size = 64;
  role = 2;
  chip = 1;
  hardware_target = 258;
  firmware_version = 70000;
  image_size = 1048576;
  image_sha256 = replicate 32 7;
}

release-IsInstallable : IsInstallable 2 258 true 2000000 release
release-IsInstallable = record {
  format_is = refl;
  size_is = refl;
  role_is = refl;
  chip_is = refl;
  hardware_fits = omega arith;
  hardware_is = λ _. refl;
  version_fits = (omega arith, omega arith);
  image_fits = (omega arith, omega arith, omega arith);
  sha_fits = refl;
}

parse_header-encode_header_example :
    parse_header (encode_header release) 2 258 true 2000000 release ≡ (ParseError.none, release)
parse_header-encode_header_example =
    parse_header-encode_header 2 258 true 2000000 release release release-IsInstallable

mac_from_hex_string-mac_to_hex_lower_example :
    mac_from_hex_string (mac_to_hex_lower (0xA0 ∷ 0xB7 ∷ 0x65 ∷ 1 ∷ 2 ∷ 0xFF ∷ []))
    ≡ some (0xA0 ∷ 0xB7 ∷ 0x65 ∷ 1 ∷ 2 ∷ 0xFF ∷ [])
mac_from_hex_string-mac_to_hex_lower_example =
    mac_from_hex_string-mac_to_hex_lower (0xA0 ∷ 0xB7 ∷ 0x65 ∷ 1 ∷ 2 ∷ 0xFF ∷ []) refl
      (omega arith, (omega arith, (omega arith, (omega arith, (omega arith, (omega arith, tt))))))

-- "a", a stray byte and "é", into four bytes.
abbrev accented : List ℕ
accented = 97 ∷ 0xFF ∷ 0xC3 ∷ 0xA9 ∷ 0xC3 ∷ 0xA9 ∷ []

copy_utf8_truncated-Copied_example :
    (length (copy_utf8_truncated accented 4) < 4)
    × Copied accented 3 (copy_utf8_truncated accented 4)
copy_utf8_truncated-Copied_example = copy_utf8_truncated-Copied accented 4 (omega arith)

-- Pots 0 and 2, for five and thirty seconds.
two_pots-IsRequest : IsRequest 5 (5 ∷ 30 ∷ [])
unfolding durations_ok popcount
two_pots-IsRequest = record {
  mask_fits = (omega arith, omega arith);
  counted = refl;
  few = (omega arith, omega arith);
  in_range = refl;
}

parse_water_command-water_command_body_example :
    (body : List ℕ) × (water_command_body 5 (5 ∷ 30 ∷ []) ≡ some body)
    × (parse_water_command 3 body ≡ some (record { pot_mask = 5; durations = 5 ∷ 30 ∷ [] }))
    × (length body ≤ max_body_size)
parse_water_command-water_command_body_example =
    parse_water_command-water_command_body 3 5 (5 ∷ 30 ∷ []) two_pots-IsRequest (omega arith)

abbrev two_soils : Snapshot
two_soils = record { battery_mv = 3900; soils = 2100 ∷ 1500 ∷ [] }

two_soils-IsReading : IsReading 2 12 two_soils
two_soils-IsReading = record {
  pots_fit = (omega arith, omega arith);
  counted = refl;
  small = (omega arith, (omega arith, (omega arith, tt)));
  version_fits = omega arith;
}

parse_status_body-status_body_example :
    (body : List ℕ) × (status_body 2 12 two_soils ≡ some body)
    × (length body ≤ max_body_size)
    × (parse_status_body body
        ≡ some (record {
          soils = 2100 ∷ 1500 ∷ [];
          pot_count = 2;
          battery_mv = 3900;
          firmware_version = 12;
        }))
parse_status_body-status_body_example =
    parse_status_body-status_body 2 12 two_soils two_soils-IsReading
