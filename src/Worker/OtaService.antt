-- ===== src/Worker/OtaService.antt =====
-- worker/src/worker_ota_service.cpp: a firmware update over GATT, from the header on the control
-- characteristic and the image on the data characteristic to the reboot. What the ESP-IDF and
-- mbedTLS calls do is a parameter. Of the flash, the model keeps what was written since
-- `esp_ota_begin`; of the hash context, what was hashed.
pub mod Info
pub mod Image
pub mod Commands
pub mod Safety
pub mod Reboot
pub mod Reached
pub mod Agreement
use plant_watering.Prelude.{
  ℕ, zero, suc, ◌+◌, ◌-◌, ◌*◌, ◌%◌, Bool, true, false, not, ◌&&◌, ◌||◌, List, [], ◌∷◌, ◌++◌, Option,
  none, some, ltb, leb, ◌==◌, if◌then◌else◌, length, take, drop, replicate,
}
use plant_watering.Prelude.Bytes.{bytes_eq, byte_at}
use plant_watering.Prelude.Words.{u32_mod, reached32}
use plant_watering.Policy.FirmwareVersion.{Decision, firmware_version_decision}
use plant_watering.Ota.Package.{
  header_size, format_version, role_worker, chip_esp32_c3, magic, read_u16, read_u32,
  reserved_clear,
}
use plant_watering.Bluetooth.Message.{Mac, zero_mac}

pub data WorkerOtaState : Type 0 where
  idle prepared writing verifying ready_to_reboot failed : WorkerOtaState

pub data WorkerOtaError : Type 0 where
  no_error bad_command bad_header wrong_hardware already_up_to_date no_partition : WorkerOtaError
  too_large bad_image bad_offset write_failed hash_mismatch : WorkerOtaError
  validation_failed set_boot_failed aborted version_below_minimum : WorkerOtaError

-- The role is checked and has no further use.
pub record PackageHeader : Type 0 where
  pub role : ℕ
  pub hardware_target : ℕ
  pub firmware_version : ℕ
  pub image_size : ℕ
  pub image_sha256 : List ℕ

-- `esp_image_header_t` and the build flags.
pub record Build : Type 0 where
  pub fw_version : ℕ
  pub fw_min_allowed_version : ℕ
  pub fw_hardware_target : ℕ
  pub image_prefix_size : ℕ
  pub image_magic_ok : List ℕ → Bool
  pub image_chip_ok : List ℕ → Bool
  pub image_segment_count : List ℕ → ℕ
  pub image_hash_appended : List ℕ → ℕ

-- How the platform's calls end in one call of a handler. A partition is its size. The two that a
-- handler can make twice are told apart by the offset in the image.
pub record Platform : Type 0 where
  pub next_partition : Option ℕ
  pub sha_starts : Bool
  pub ota_begin : Option ℕ → ℕ → Bool
  pub sha_update : ℕ → Bool
  pub ota_write : ℕ → Bool
  pub sha_finish : Bool
  pub sha256 : List ℕ → List ℕ
  pub ota_end : Bool
  pub set_boot : Bool

-- `image_prefix` is the received part of `gImagePrefix`.
pub record OtaState : Type 0 where
  pub state : WorkerOtaState
  pub error : WorkerOtaError
  pub header : PackageHeader
  pub image_prefix : List ℕ
  pub image_bytes_received : ℕ
  pub target_partition : Option ℕ
  pub ota_begun : Bool
  pub flash : List ℕ
  pub sha256_active : Bool
  pub sha_input : List ℕ
  pub reboot_at_ms : ℕ

abbrev pub empty_header : PackageHeader
empty_header = record {
  role = 0;
  hardware_target = 0;
  firmware_version = 0;
  image_size = 0;
  image_sha256 = replicate 32 0;
}

unfoldable pub abort_ota : OtaState → OtaState
abort_ota s = record s { ota_begun = false; sha256_active = false }

unfoldable pub reset_session : OtaState → OtaState
unfolding abort_ota
reset_session s = record (abort_ota s) {
  header = empty_header;
  image_prefix = [];
  image_bytes_received = 0;
  target_partition = none;
  reboot_at_ms = 0;
  state = idle;
  error = no_error;
}

unfoldable pub fail : WorkerOtaError → OtaState → OtaState
unfolding abort_ota
fail error s = record (abort_ota s) { state = failed; error = error }
