-- ===== src/Worker/OtaService/Image.antt =====
-- `parsePackageHeader`, `beginImageWriteIfReady` and `writeImageBytes` of
-- worker/src/worker_ota_service.cpp.
use plant_watering.Prelude.{
  ℕ, ◌+◌, ◌-◌, Bool, true, false, not, ◌&&◌, ◌||◌, List, [], ◌++◌, ltb, leb, ◌==◌, if◌then◌else◌,
  length, take, drop,
}
use plant_watering.Prelude.Bytes.{bytes_eq, byte_at}
use plant_watering.Ota.Package.{
  header_size, format_version, role_worker, chip_esp32_c3, magic, read_u16, read_u32,
  reserved_clear,
}
use plant_watering.Worker.OtaService.{
  PackageHeader, Build, Platform, OtaState, fail, writing, no_error, bad_image, bad_offset,
  write_failed,
}

-- The answer, and the contents of `out` afterwards.
unfoldable pub parse_package_header : Build → List ℕ → PackageHeader → PackageHeader × Bool
unfolding bytes_eq reserved_clear
parse_package_header build bytes out =
    if not (length bytes == header_size)
    then (out, false)
    else if not (bytes_eq (take 8 bytes) magic)
    then (out, false)
    else if not (read_u16 bytes 8 == format_version)
    then (out, false)
    else if not (read_u16 bytes 10 == header_size)
    then (out, false)
    else (let h : PackageHeader = record {
      role = byte_at bytes 12;
      hardware_target = read_u16 bytes 14;
      firmware_version = read_u32 bytes 16;
      image_size = read_u32 bytes 20;
      image_sha256 = take 32 (drop 24 bytes);
    } in
        (
          h,
          reserved_clear bytes 8 56
              && (h.role == role_worker
                  && (byte_at bytes 13 == chip_esp32_c3
                      && (not (h.firmware_version == 0)
                          && leb build.image_prefix_size h.image_size))),
        ))

abbrev pub image_header_ok : Build → List ℕ → Bool
image_header_ok build prefix =
    build.image_magic_ok prefix
    && (build.image_chip_ok prefix
        && (not (build.image_segment_count prefix == 0)
            && (leb (build.image_segment_count prefix) 16
                && build.image_hash_appended prefix == 1)))

unfoldable pub begin_image_write_if_ready : Build → Platform → OtaState → OtaState × Bool
unfolding fail
begin_image_write_if_ready build p s =
    if ltb (length s.image_prefix) build.image_prefix_size || s.ota_begun
    then (s, true)
    else if not (image_header_ok build s.image_prefix)
    then (fail bad_image s, false)
    else (let hashing = record s { sha256_active = true; sha_input = [] } in
        if not p.sha_starts
        then (fail bad_image hashing, false)
        else if not (p.ota_begin s.target_partition s.header.image_size)
        then (fail write_failed hashing, false)
        else (
          record hashing { ota_begun = true; flash = []; state = writing; error = no_error },
          true,
        ))

-- `writeImageBytes` from behind its loop.
unfoldable pub append_image_bytes : Platform → OtaState → List ℕ → OtaState × Bool
unfolding fail
append_image_bytes p s bytes =
    if length bytes == 0
    then (s, true)
    else if not s.ota_begun
    then (s, true)
    else if not (p.sha_update s.image_bytes_received) || not (p.ota_write s.image_bytes_received)
    then (fail write_failed s, false)
    else (
      record s {
        sha_input = s.sha_input ++ bytes;
        flash = s.flash ++ bytes;
        image_bytes_received = s.image_bytes_received + length bytes;
      },
      true,
    )

abbrev pub past_end : OtaState → ℕ → Bool
past_end s len =
    ltb s.header.image_size s.image_bytes_received
    || ltb (s.header.image_size - s.image_bytes_received) len

-- The call of `writeImageBytes` on the complete prefix, from inside its loop.
unfoldable pub write_image_prefix : Platform → OtaState → OtaState × Bool
unfolding fail
write_image_prefix p s =
    if past_end s (length s.image_prefix)
    then (fail bad_offset s, false)
    else append_image_bytes p s s.image_prefix

-- `writeImageBytes`. After one round of its loop the bytes are used up or the prefix is complete,
-- so there is no second.
unfoldable pub write_image_bytes : Build → Platform → OtaState → List ℕ → OtaState × Bool
unfolding fail
write_image_bytes build p s bytes =
    if length bytes == 0
    then (s, true)
    else if past_end s (length bytes)
    then (fail bad_offset s, false)
    else if ltb (length s.image_prefix) build.image_prefix_size
    then (let missing = build.image_prefix_size - length s.image_prefix in
        let (s', ok) =
          begin_image_write_if_ready build p
            (record s { image_prefix = s.image_prefix ++ take missing bytes }) in
        let (s'', ok') = if s'.ota_begun then write_image_prefix p s' else (s', true) in
        if not ok
        then (s', false)
        else if not ok'
        then (s'', false)
        else append_image_bytes p s'' (drop missing bytes))
    else append_image_bytes p s bytes
