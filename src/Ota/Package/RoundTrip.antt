-- ===== src/Ota/Package/RoundTrip.antt =====
-- The packager's layout of the header (package_ota.py), and that the main device reads back from
-- it what was written.
use plant_watering.Prelude.{
  ℕ, ◌≤◌, ◌<◌, ◌≡◌, refl, Bool, true, List, ◌∷◌, ◌++◌, arith, length, take, drop, replicate,
  length-append, get_or-append_right, take-append_of,
}
use plant_watering.Prelude.Bytes.{bytes_eq, le16, le32}
use plant_watering.Ota.Package.{
  Header, none, magic, parse_header, check_fields, read_fields, reserved_clear, format_version,
  header_size, chip_esp32_c3,
}

unfoldable pub encode_header : Header → List ℕ
encode_header h =
    magic
    ++ (le16 h.format_version
        ++ (le16 h.header_size
            ++ (h.role
                ∷ h.chip
                ∷ (le16 h.hardware_target
                    ++ (le32 h.firmware_version
                        ++ (le32 h.image_size ++ (h.image_sha256 ++ replicate 8 0)))))))

-- The fields fit their types, and name an image that may be installed.
pub record IsInstallable (role hardware : ℕ) (check_hardware : Bool) (maximum : ℕ) (h : Header)
    : Type 0 where
  pub format_is : h.format_version ≡ format_version
  pub size_is : h.header_size ≡ header_size
  pub role_is : h.role ≡ role
  pub chip_is : h.chip ≡ chip_esp32_c3
  pub hardware_fits : h.hardware_target < 65536
  pub hardware_is : check_hardware ≡ true → h.hardware_target ≡ hardware
  pub version_fits : (0 < h.firmware_version) × (h.firmware_version < 4294967296)
  pub image_fits : (0 < h.image_size) × (h.image_size ≤ maximum) × (h.image_size < 4294967296)
  pub sha_fits : length h.image_sha256 ≡ 32

reserved_of_encode :
    (h : Header) → length h.image_sha256 ≡ 32 → reserved_clear (encode_header h) 8 56 ≡ true
unfolding reserved_clear encode_header
reserved_of_encode h e =
    let at = λ (i : ℕ) (k : ℕ). get_or-append_right h.image_sha256 (replicate 8 0) k i 0 in
    ground (
      arith,
      at 0 32 (omega arith),
      at 1 33 (omega arith),
      at 2 34 (omega arith),
      at 3 35 (omega arith),
      at 4 36 (omega arith),
      at 5 37 (omega arith),
      at 6 38 (omega arith),
      at 7 39 (omega arith),
    )

sha_of_encode :
    (h : Header) → length h.image_sha256 ≡ 32 → take 32 (drop 24 (encode_header h)) ≡ h.image_sha256
unfolding encode_header
sha_of_encode h e = take-append_of 32 h.image_sha256 (replicate 8 0) e

length-encode_header : (h : Header) → length h.image_sha256 ≡ 32 → length (encode_header h) ≡ 64
unfolding encode_header
length-encode_header h e = omega (arith, length-append h.image_sha256 (replicate 8 0))

read_fields-encode_header :
    (role hardware : ℕ) (check_hardware : Bool) (maximum : ℕ) (h : Header)
    → IsInstallable role hardware check_hardware maximum h
    → read_fields (encode_header h) ≡ h
unfolding encode_header
read_fields-encode_header role hardware check_hardware maximum h v =
    ground (arith, sha_of_encode h v.sha_fits)

check_fields-encode_header :
    (role hardware : ℕ) (check_hardware : Bool) (maximum : ℕ) (h : Header)
    → IsInstallable role hardware check_hardware maximum h
    → check_fields (encode_header h) role hardware check_hardware maximum h ≡ none
unfolding check_fields
check_fields-encode_header role hardware check_hardware maximum h v =
    ground (arith, reserved_of_encode h v.sha_fits)

magic_of_encode : (h : Header) → bytes_eq (take 8 (encode_header h)) magic ≡ true
unfolding encode_header bytes_eq
magic_of_encode h = refl

-- A header that the packager writes for an installable image is accepted, and read back field for
-- field, whatever was in the output before.
pub parse_header-encode_header :
    (role hardware : ℕ) (check_hardware : Bool) (maximum : ℕ) (h out : Header)
    → IsInstallable role hardware check_hardware maximum h
    → parse_header (encode_header h) role hardware check_hardware maximum out ≡ (none, h)
unfolding parse_header
parse_header-encode_header role hardware check_hardware maximum h out v = rw (
  length-encode_header h v.sha_fits,
  magic_of_encode h,
  read_fields-encode_header role hardware check_hardware maximum h v,
  check_fields-encode_header role hardware check_hardware maximum h v,
)
