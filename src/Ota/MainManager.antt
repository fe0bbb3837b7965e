-- ===== src/Ota/MainManager.antt =====
-- main/src/ota_manager.cpp: the main device takes a package for itself and writes its image to the
-- partition that does not run. The build flags, the calls of ESP-IDF and mbedTLS and what they do are
-- those of Worker.OtaService.
pub mod Phase
pub mod Chunks
pub mod Safety
pub mod Reached
use plant_watering.Prelude.{
  ℕ, ◌+◌, ◌-◌, ◌%◌, Bool, true, false, not, ◌&&◌, ◌||◌, List, [], ◌++◌, Option, none, some, ltb,
  leb, ◌==◌, if◌then◌else◌, length, take, drop, String,
}
use plant_watering.Prelude.Bytes.{bytes_eq}
use plant_watering.Prelude.Words.{u32_mod, reached32}
use plant_watering.Policy.FirmwareVersion.{Decision, firmware_version_decision}
use plant_watering.Ota.Package.{Header, ParseError, header_size, parse_main_header}
use plant_watering.Ota.WorkerManager.{no_header, is_none}
use plant_watering.Ota.WorkerManager.Upload.{parse_error_name}
use plant_watering.Worker.OtaService.{Build, Platform}

-- `OtaUpdateState`.
pub data UpdateState : Type 0 where
  idle receiving_header receiving_image_prefix writing verifying ready_to_reboot failed :
      UpdateState

-- `OtaStatusSnapshot`. The texts all fit `error`.
pub record UpdateStatus : Type 0 where
  pub state : UpdateState
  pub active : Bool
  pub package_bytes_received : ℕ
  pub image_bytes_received : ℕ
  pub expected_image_bytes : ℕ
  pub firmware_version : ℕ
  pub hardware_target : ℕ
  pub free_heap_at_start : ℕ
  pub largest_block_at_start : ℕ
  pub error : String

-- The variables of the file. Of the flash, the model keeps what was written since `esp_ota_begin`; of
-- the hash context, what was hashed.
pub record MainManager : Type 0 where
  pub status : UpdateStatus
  pub package_header : List ℕ
  pub parsed_header : Header
  pub image_prefix : List ℕ
  pub target_partition : Option ℕ
  pub ota_begun : Bool
  pub flash : List ℕ
  pub sha256_active : Bool
  pub sha_input : List ℕ
  pub reboot_at_ms : ℕ
  pub clock_checkpointed : Bool

abbrev pub min_free_heap_to_start : ℕ
min_free_heap_to_start = 51200

abbrev pub min_largest_block_to_start : ℕ
min_largest_block_to_start = 24576

abbrev pub is_failed : UpdateState → Bool
is_failed failed = true
is_failed _ = false

-- `otaUploadSucceeded`, on the state.
abbrev pub is_ready : UpdateState → Bool
is_ready ready_to_reboot = true
is_ready _ = false

abbrev pub update_state : UpdateState → MainManager → MainManager
update_state state m = record m { status = record m.status { state = state } }

unfoldable pub fail : String → MainManager → MainManager
fail reason m = record m {
  ota_begun = false;
  sha256_active = false;
  status = record m.status { state = failed; error = reason };
}

-- `resetSession`; the arguments are the free heap and its largest block.
unfoldable pub reset_session : ℕ → ℕ → MainManager → MainManager
reset_session heap block m = record m {
  package_header = [];
  parsed_header = no_header;
  image_prefix = [];
  target_partition = none;
  ota_begun = false;
  sha256_active = false;
  reboot_at_ms = 0;
  clock_checkpointed = false;
  status = record {
    state = receiving_header;
    active = true;
    package_bytes_received = 0;
    image_bytes_received = 0;
    expected_image_bytes = 0;
    firmware_version = 0;
    hardware_target = 0;
    free_heap_at_start = heap;
    largest_block_at_start = block;
    error = "";
  };
}

-- `otaUploadStart`.
unfoldable pub upload_start : ℕ → ℕ → MainManager → MainManager × Bool
unfolding reset_session
upload_start heap block m =
    let fresh = reset_session heap block m in
    if m.status.active
    then (m, false)
    else if ltb heap min_free_heap_to_start
    then (fail "insufficient_free_heap" fresh, false)
    else if ltb block min_largest_block_to_start
    then (fail "largest_heap_block_too_small" fresh, false)
    else (fresh, true)

-- The end of `parsePackageHeader`, by the decision on the version.
unfoldable pub on_decision : Build → MainManager → Decision → MainManager × Bool
on_decision build m Decision.already_installed = (fail "already_up_to_date" m, false)
on_decision build m Decision.below_minimum = (fail "version_below_minimum" m, false)
on_decision build m Decision.allow =
    let h = m.parsed_header in
    if ltb h.image_size build.image_prefix_size then (fail "image_too_small" m, false) else (
      record m {
        status = record m.status {
          expected_image_bytes = h.image_size;
          firmware_version = h.firmware_version;
          hardware_target = h.hardware_target;
          state = receiving_image_prefix;
        };
      },
      true,
    )

-- `parsePackageHeader` from behind the parsing, on the session with the header.
unfoldable pub check_version : Build → MainManager → MainManager × Bool
unfolding on_decision
check_version build m = on_decision build m (
    firmware_version_decision build.fw_version m.parsed_header.firmware_version
      build.fw_min_allowed_version)

unfoldable pub parse_package_header : Build → Platform → MainManager → MainManager × Bool
unfolding check_version parse_error_name
parse_package_header build p m = elim p.next_partition [
  | none ↦ (fail "no_inactive_ota_partition" (record m { target_partition = none }), false)
  | some size ↦
      let (error, h) =
        parse_main_header build.fw_hardware_target m.package_header size m.parsed_header in
      let parsed = record m { target_partition = some size; parsed_header = h } in
      if is_none error
      then check_version build parsed
      else (fail (parse_error_name error) parsed, false)
]

-- `beginImageWrite` from behind its tests of the image header.
unfoldable pub begin_write : Platform → MainManager → MainManager × Bool
begin_write p m =
    let hashing = record m { sha256_active = true; sha_input = [] } in
    if not p.sha_starts
    then (fail "sha256_init_failed" hashing, false)
    else if not (p.ota_begin m.target_partition m.parsed_header.image_size)
    then (fail "ota_begin_failed" hashing, false)
    else (update_state writing (record hashing { ota_begun = true; flash = [] }), true)

unfoldable pub begin_image_write : Build → Platform → MainManager → MainManager × Bool
unfolding begin_write
begin_image_write build p m =
    let segments = build.image_segment_count m.image_prefix in
    if not (build.image_magic_ok m.image_prefix)
    then (fail "bad_esp_image_magic" m, false)
    else if not (build.image_chip_ok m.image_prefix)
    then (fail "esp_image_wrong_chip" m, false)
    else if segments == 0 || ltb 16 segments
    then (fail "bad_esp_segment_count" m, false)
    else if not (build.image_hash_appended m.image_prefix == 1)
    then (fail "esp_image_hash_missing" m, false)
    else begin_write p m

unfoldable pub write_image_data : Platform → MainManager → List ℕ → MainManager × Bool
write_image_data p m bytes =
    let received = m.status.image_bytes_received in
    if length bytes == 0
    then (m, true)
    else if ltb m.parsed_header.image_size received
        || ltb (m.parsed_header.image_size - received) (length bytes)
    then (fail "image_larger_than_declared" m, false)
    else if not (p.sha_update received)
    then (fail "sha256_update_failed" m, false)
    else if not (p.ota_write received)
    then (fail "ota_write_failed" (record m { sha_input = m.sha_input ++ bytes }), false)
    else (
      record m {
        sha_input = m.sha_input ++ bytes;
        flash = m.flash ++ bytes;
        status = record m.status { image_bytes_received = received + length bytes };
      },
      true,
    )

-- The loop of `otaUploadConsume` where the header is complete. After a round of its second branch the
-- bytes are used up or the prefix is complete, so there is no other.
unfoldable pub consume_image : Build → Platform → MainManager → List ℕ → MainManager × Bool
unfolding begin_image_write write_image_data
consume_image build p m bytes =
    let missing = build.image_prefix_size - length m.image_prefix in
    let longer = record m { image_prefix = m.image_prefix ++ take missing bytes } in
    let (begun, began) = begin_image_write build p longer in
    let (wrote, written) = write_image_data p begun longer.image_prefix in
    if length bytes == 0
    then (m, true)
    else if not (ltb (length m.image_prefix) build.image_prefix_size)
    then write_image_data p m bytes
    else if not (length longer.image_prefix == build.image_prefix_size)
    then (longer, true)
    else if not began
    then (begun, false)
    else if not written
    then (wrote, false)
    else write_image_data p wrote (drop missing bytes)

-- The loop of `otaUploadConsume`.
unfoldable pub consume_package : Build → Platform → MainManager → List ℕ → MainManager × Bool
unfolding parse_package_header consume_image
consume_package build p m bytes =
    let missing = header_size - length m.package_header in
    let longer = record m { package_header = m.package_header ++ take missing bytes } in
    let (parsed, ok) = parse_package_header build p longer in
    if not (ltb (length m.package_header) header_size)
    then consume_image build p m bytes
    else if not (length longer.package_header == header_size)
    then (longer, true)
    else if not ok
    then (parsed, false)
    else consume_image build p parsed (drop missing bytes)

-- `otaUploadConsume`.
unfoldable pub upload_consume : Build → Platform → MainManager → List ℕ → MainManager × Bool
unfolding consume_package
upload_consume build p m bytes =
    let total = m.status.package_bytes_received + length bytes in
    if length bytes == 0 || is_failed m.status.state
    then (m, not (is_failed m.status.state))
    else if ltb 4294967295 total
    then (fail "package_size_overflow" m, false)
    else consume_package build p
        (record m { status = record m.status { package_bytes_received = total } }) bytes

-- `otaUploadFinish` from behind its checks of the sizes.
unfoldable pub verify : Platform → MainManager → ℕ → MainManager × Bool
unfolding bytes_eq
verify p m now =
    let checking = update_state verifying m in
    let hashed = record checking { sha256_active = false } in
    let ended = record hashed { ota_begun = false } in
    if not p.sha_finish
    then (fail "sha256_finish_failed" checking, false)
    else if not (bytes_eq (p.sha256 m.sha_input) m.parsed_header.image_sha256)
    then (fail "sha256_mismatch" hashed, false)
    else if not p.ota_end
    then (fail "ota_image_validation_failed" ended, false)
    else if not p.set_boot
    then (fail "set_boot_partition_failed" ended, false)
    else (
      update_state ready_to_reboot (record ended { reboot_at_ms = (now + 2000) % u32_mod }),
      true,
    )

unfoldable pub upload_finish : Build → Platform → MainManager → ℕ → MainManager × Bool
unfolding verify
upload_finish build p m now =
    if is_failed m.status.state
    then (m, false)
    else if not m.ota_begun
        || (not (length m.package_header == header_size)
            || not (length m.image_prefix == build.image_prefix_size))
    then (fail "incomplete_upload" m, false)
    else if not (m.status.image_bytes_received == m.parsed_header.image_size)
        || not (
            m.status.package_bytes_received == (header_size + m.parsed_header.image_size) % u32_mod)
    then (fail "image_size_mismatch" m, false)
    else verify p m now

-- `otaUploadAbort`.
unfoldable pub upload_abort : String → MainManager → MainManager
upload_abort reason m = if is_ready m.status.state then m else fail reason m

-- `otaReleaseFailedUpload`.
unfoldable pub release_failed_upload : MainManager → MainManager
release_failed_upload m =
    if is_failed m.status.state then record m { status = record m.status { active = false } } else m

-- `otaManagerLoop`: whether it restarts the device, and whether the clock is saved before.
unfoldable pub ota_manager_loop : MainManager → ℕ → MainManager × Bool × Bool
ota_manager_loop m now =
    if not (is_ready m.status.state) || m.reboot_at_ms == 0
    then (m, false, false)
    else if not (reached32 now m.reboot_at_ms)
    then (m, false, false)
    else (record m { clock_checkpointed = true }, true, not m.clock_checkpointed)
