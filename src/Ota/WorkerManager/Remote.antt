-- ===== src/Ota/WorkerManager/Remote.antt =====
-- What main/src/worker_ota_manager.cpp reads from the info characteristic of a worker.
use plant_watering.Prelude.{
  ℕ, ◌<◌, ◌≡◌, ◌||◌, not, List, Option, none, some, ◌==◌, if◌then◌else◌, length, take, String,
  arith,
}
use plant_watering.Prelude.Bytes.{bytes_eq, byte_at}
use plant_watering.Ota.Package.{read_u16, read_u32, role_worker}
use plant_watering.Worker.OtaService.{Build, Platform, OtaState}
use plant_watering.Worker.OtaService.Info.{
  state_code, error_code, info_magic, slot_size, write_info_value,
}

-- `state` is the byte that is cast to `RemoteWorkerState`.
pub record RemoteWorkerInfo : Type 0 where
  pub role : ℕ
  pub state : ℕ
  pub error : ℕ
  pub hardware_target : ℕ
  pub current_version : ℕ
  pub ota_slot_size : ℕ
  pub received_bytes : ℕ

-- The two constants of `RemoteWorkerState` that are looked for.
abbrev pub remote_ready_to_reboot : ℕ
remote_ready_to_reboot = 4

abbrev pub remote_failed : ℕ
remote_failed = 5

unfoldable pub parse_worker_info : List ℕ → Option RemoteWorkerInfo
unfolding bytes_eq
parse_worker_info value =
    if not (length value == 28) || not (bytes_eq (take 8 value) info_magic)
    then none
    else some (record {
      role = byte_at value 8;
      state = byte_at value 9;
      error = byte_at value 10;
      hardware_target = read_u16 value 12;
      current_version = read_u32 value 16;
      ota_slot_size = read_u32 value 20;
      received_bytes = read_u32 value 24;
    })

unfoldable pub remote_error_name : ℕ → String
remote_error_name error =
    if error == 0
    then ""
    else if error == 1
    then "Worker rejected command"
    else if error == 2
    then "Worker rejected firmware header"
    else if error == 3
    then "Wrong hardware target"
    else if error == 4
    then "Firmware is already up to date"
    else if error == 5
    then "Worker OTA partition unavailable"
    else if error == 6
    then "Firmware too large"
    else if error == 7
    then "Worker rejected ESP image"
    else if error == 8
    then "Transfer offset mismatch"
    else if error == 9
    then "Worker flash write failed"
    else if error == 10
    then "Worker SHA-256 mismatch"
    else if error == 11
    then "Worker image validation failed"
    else if error == 12
    then "Worker boot partition select failed"
    else if error == 13
    then "Worker OTA aborted"
    else if error == 14
    then "version_below_minimum"
    else "Worker OTA failed"

-- The numbers of the build and of the partition fit the fields.
pub record FitsInfo (build : Build) (p : Platform) (s : OtaState) : Type 0 where
  pub hardware_fits : build.fw_hardware_target < 65536
  pub version_fits : build.fw_version < 4294967296
  pub slot_fits : slot_size p < 4294967296
  pub received_fits : s.image_bytes_received < 4294967296

-- What the main device reads from the info characteristic is what the worker's service knows: its
-- state and error by their numbers, its hardware and version, the size of the partition for the next
-- image (0 if there is none), and the bytes of the image that have come.
pub parse_worker_info-write_info_value :
    (build : Build) (p : Platform) (s : OtaState)
    → FitsInfo build p s
    → parse_worker_info (write_info_value build p s)
      ≡ some (record {
        role = role_worker;
        state = state_code s.state;
        error = error_code s.error;
        hardware_target = build.fw_hardware_target;
        current_version = build.fw_version;
        ota_slot_size = slot_size p;
        received_bytes = s.image_bytes_received;
      })
unfolding parse_worker_info write_info_value
parse_worker_info-write_info_value build p s fits = ground arith
