-- ===== src/Worker/OtaService/Agreement.antt =====
-- The two readers of the header of a worker's firmware: main/src/firmware_package.cpp looks at it
-- when the file is uploaded, worker/src/worker_ota_service.cpp when the main device sends it on.
use plant_watering.Prelude.{
  ℕ, ◌≤◌, ◌<◌, ◌≡◌, refl, Bool, true, false, not, ◌&&◌, ◌||◌, List, ltb, leb, ◌==◌, if◌then◌else◌,
  length, take, drop, arith, Bool-cases, ==_iff, if_rule, inl, inr,
}
use plant_watering.Prelude.Bytes.{bytes_eq, byte_at}
use plant_watering.Ota.Package.{
  Header, ParseError, bad_format, bad_header_size, bad_role, bad_chip, bad_version, bad_image_size,
  bad_reserved, header_size, format_version, role_worker, chip_esp32_c3, magic, read_u16, read_u32,
  reserved_clear, read_fields, check_fields, parse_header, parse_worker_header,
}
use plant_watering.Worker.OtaService.{PackageHeader, Build}
use plant_watering.Worker.OtaService.Image.{parse_package_header}

abbrev package_fields : List ℕ → PackageHeader
package_fields bytes = record {
  role = byte_at bytes 12;
  hardware_target = read_u16 bytes 14;
  firmware_version = read_u32 bytes 16;
  image_size = read_u32 bytes 20;
  image_sha256 = take 32 (drop 24 bytes);
}

abbrev package_ok : Build → List ℕ → Bool
package_ok build bytes =
    reserved_clear bytes 8 56
    && (byte_at bytes 12 == role_worker
        && (byte_at bytes 13 == chip_esp32_c3
            && (not (read_u32 bytes 16 == 0) && leb build.image_prefix_size (read_u32 bytes 20))))

-- The tests that both readers make on the fields, whatever the fields are.
same_checks :
    (format header role chip version size limit prefix : ℕ) (clear : Bool)
    → 0 < prefix
    → let error : ParseError =
        if not (format == format_version)
        then bad_format
        else if not (header == header_size)
        then bad_header_size
        else if not (role == role_worker)
        then bad_role
        else if not (chip == chip_esp32_c3)
        then bad_chip
        else if version == 0
        then bad_version
        else if size == 0 || ltb limit size
        then bad_image_size
        else if not clear
        then bad_reserved
        else ParseError.none in
      let ok : Bool =
        clear
        && (role == role_worker
            && (chip == chip_esp32_c3 && (not (version == 0) && leb prefix size))) in
      (format ≡ format_version
        → header ≡ header_size
        → ok ≡ true
        → size ≤ limit
        → error ≡ ParseError.none)
      × (error ≡ ParseError.none
          → (format ≡ format_version) × (header ≡ header_size) × (prefix ≤ size → ok ≡ true))
same_checks format header role chip version size limit prefix clear positive =
    (ground arith, ground arith)

abbrev Agrees : Build → List ℕ → ℕ → PackageHeader × Bool → Type 0
Agrees build bytes limit (h', ok) =
    let error = check_fields bytes role_worker 0 false limit (read_fields bytes) in
    (ok ≡ true → read_u32 bytes 20 ≤ limit → error ≡ ParseError.none)
    × (error ≡ ParseError.none → build.image_prefix_size ≤ read_u32 bytes 20 → ok ≡ true)
    × (ok ≡ true
        → (read_u16 bytes 14 ≡ h'.hardware_target)
          × (read_u32 bytes 16 ≡ h'.firmware_version)
          × (read_u32 bytes 20 ≡ h'.image_size)
          × (take 32 (drop 24 bytes) ≡ h'.image_sha256))

checked :
    (build : Build) (bytes : List ℕ) (limit : ℕ) (out : PackageHeader)
    → 0 < build.image_prefix_size
    → Agrees build bytes limit (
        if not (read_u16 bytes 8 == format_version)
        then (out, false)
        else if not (read_u16 bytes 10 == header_size)
        then (out, false)
        else (package_fields bytes, package_ok build bytes))
unfolding check_fields
checked build bytes limit out positive =
    let (accepts, refuses) =
      same_checks (read_u16 bytes 8) (read_u16 bytes 10) (byte_at bytes 12) (byte_at bytes 13)
        (read_u32 bytes 16) (read_u32 bytes 20) limit build.image_prefix_size
        (reserved_clear bytes 8 56) positive in
    if_rule (Agrees build bytes limit) (not (read_u16 bytes 8 == format_version))
      (λ f. (λ e. ground arith, λ e long. ground (arith, (refuses e).0), λ e. ground arith))
      (λ f.
        if_rule (Agrees build bytes limit) (not (read_u16 bytes 10 == header_size))
          (λ g. (λ e. ground arith, λ e long. ground (arith, (refuses e).1), λ e. ground arith))
          (λ g.
            let f' = (==_iff (read_u16 bytes 8) format_version).0 (ground arith) in
            let g' = (==_iff (read_u16 bytes 10) header_size).0 (ground arith) in
            (
              λ ok fits. accepts f' g' ok fits,
              λ e long. (refuses e).2 long,
              λ _. (refl, refl, refl, refl),
            )))

-- A header that the worker takes is one that the main device takes too, as long as the image is no
-- larger than the main device allows, with the same hardware, version, size and hash; and a header
-- that the main device takes is one that the worker takes too, unless the image is shorter than the
-- image header that the worker waits for.
pub parse_package_header-parse_worker_header :
    (build : Build) (bytes : List ℕ) (maximum_image_size : ℕ) (out : PackageHeader) (out' : Header)
    → 0 < build.image_prefix_size
    → let (error, h) = parse_worker_header bytes maximum_image_size out' in
      let (h', ok) = parse_package_header build bytes out in
      (ok ≡ true → h.image_size ≤ maximum_image_size → error ≡ ParseError.none)
      × (error ≡ ParseError.none → build.image_prefix_size ≤ h.image_size → ok ≡ true)
      × (ok ≡ true
          → (h.hardware_target ≡ h'.hardware_target)
            × (h.firmware_version ≡ h'.firmware_version)
            × (h.image_size ≡ h'.image_size)
            × (h.image_sha256 ≡ h'.image_sha256))
unfolding parse_package_header parse_header check_fields
parse_package_header-parse_worker_header build bytes maximum_image_size out out' positive =
    elim (Bool-cases (length bytes == header_size)) [
      | inr h ↦ rw h (λ e. ground arith, λ e. ground arith, λ e. ground arith)
      | inl h ↦ elim (Bool-cases (bytes_eq (take 8 bytes) magic)) [
        | inr m ↦ rw (h, m) (λ e. ground arith, λ e. ground arith, λ e. ground arith)
        | inl m ↦ rw (h, m) (checked build bytes maximum_image_size out positive)
      ]
    ]
