-- ===== src/Ota/Package.antt =====
-- main/src/firmware_package.cpp and main/include/FirmwarePackage.h: the 64-byte header in front of a
-- firmware image, as the main device reads it.
pub mod RoundTrip
use plant_watering.Prelude.{
  ℕ, zero, suc, ◌+◌, ◌*◌, ◌≤◌, ◌<◌, ◌≡◌, refl, ◌≢◌, ◌↔◌, ◌⊎◌, Bool, true, false, not, ◌&&◌, ◌||◌,
  List, [], ◌∷◌, ◌++◌, arith, ltb, ◌==◌, if◌then◌else◌, length, take, drop, replicate, get_or,
}
use plant_watering.Prelude.Bytes.{bytes_eq, byte_at, AllBytes, le16, le32}

abbrev pub header_size : ℕ
header_size = 64

abbrev pub format_version : ℕ
format_version = 1

abbrev pub role_main : ℕ
role_main = 1

abbrev pub role_worker : ℕ
role_worker = 2

abbrev pub chip_esp32_c3 : ℕ
chip_esp32_c3 = 1

-- "PWOTA001".
abbrev pub magic : List ℕ
magic = b'P' ∷ b'W' ∷ b'O' ∷ b'T' ∷ b'A' ∷ b'0' ∷ b'0' ∷ b'1' ∷ []

pub record Header : Type 0 where
  pub format_version : ℕ
  pub header_size : ℕ
  pub role : ℕ
  pub chip : ℕ
  pub hardware_target : ℕ
  pub firmware_version : ℕ
  pub image_size : ℕ
  pub image_sha256 : List ℕ

pub data ParseError : Type 0 where
  none bad_length bad_magic bad_format bad_header_size bad_role bad_chip bad_hardware : ParseError
  bad_version bad_image_size bad_reserved : ParseError

-- `readU16` and `readU32` at an offset.
abbrev pub read_u16 : List ℕ → ℕ → ℕ
read_u16 bytes at = byte_at bytes at + byte_at bytes (suc at) * 256

abbrev pub read_u32 : List ℕ → ℕ → ℕ
read_u32 bytes at =
    byte_at bytes at
    + byte_at bytes (suc at) * 256
    + byte_at bytes (suc (suc at)) * 65536
    + byte_at bytes (suc (suc (suc at))) * 16777216

-- The loop over the reserved bytes from index `i`.
unfoldable pub reserved_clear : List ℕ → ℕ → ℕ → Bool
reserved_clear bytes zero i = true
reserved_clear bytes (suc n) i = byte_at bytes i == 0 && reserved_clear bytes n (i + 1)

abbrev pub read_fields : List ℕ → Header
read_fields bytes = record {
  format_version = read_u16 bytes 8;
  header_size = read_u16 bytes 10;
  role = byte_at bytes 12;
  chip = byte_at bytes 13;
  hardware_target = read_u16 bytes 14;
  firmware_version = read_u32 bytes 16;
  image_size = read_u32 bytes 20;
  image_sha256 = take 32 (drop 24 bytes);
}

-- The checks on the fields, in the order of the source.
unfoldable pub check_fields : List ℕ → ℕ → ℕ → Bool → ℕ → Header → ParseError
unfolding reserved_clear
check_fields bytes expected_role expected_hardware check_hardware maximum_image_size h =
    if not (h.format_version == format_version)
    then bad_format
    else if not (h.header_size == header_size)
    then bad_header_size
    else if not (h.role == expected_role)
    then bad_role
    else if not (h.chip == chip_esp32_c3)
    then bad_chip
    else if check_hardware && not (h.hardware_target == expected_hardware)
    then bad_hardware
    else if h.firmware_version == 0
    then bad_version
    else if h.image_size == 0 || ltb maximum_image_size h.image_size
    then bad_image_size
    else if not (reserved_clear bytes 8 56)
    then bad_reserved
    else none

-- The answer, and the contents of `out` afterwards: before the fields are read it is left alone.
unfoldable pub parse_header : List ℕ → ℕ → ℕ → Bool → ℕ → Header → ParseError × Header
unfolding bytes_eq
parse_header bytes expected_role expected_hardware check_hardware maximum_image_size out =
    if not (length bytes == header_size)
    then (bad_length, out)
    else if not (bytes_eq (take 8 bytes) magic)
    then (bad_magic, out)
    else (
      check_fields bytes expected_role expected_hardware check_hardware maximum_image_size
          (read_fields bytes),
      read_fields bytes,
    )

-- The hardware target of the running main firmware is a build flag.
abbrev pub parse_main_header : ℕ → List ℕ → ℕ → Header → ParseError × Header
parse_main_header fw_hardware_target bytes maximum_image_size out =
    parse_header bytes role_main fw_hardware_target true maximum_image_size out

abbrev pub parse_worker_header : List ℕ → ℕ → Header → ParseError × Header
parse_worker_header bytes maximum_image_size out =
    parse_header bytes role_worker 0 false maximum_image_size out
