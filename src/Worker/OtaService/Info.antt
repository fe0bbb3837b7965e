-- ===== src/Worker/OtaService/Info.antt =====
-- `writeInfoValue` of worker/src/worker_ota_service.cpp: what a read of the info characteristic gives.
use plant_watering.Prelude.{ℕ, List, [], ◌∷◌, ◌++◌, none, some}
use plant_watering.Prelude.Bytes.{le16, le32}
use plant_watering.Ota.Package.{role_worker}
use plant_watering.Worker.OtaService.{
  WorkerOtaState, idle, prepared, writing, verifying, ready_to_reboot, failed, WorkerOtaError,
  no_error, bad_command, bad_header, wrong_hardware, already_up_to_date, no_partition, too_large,
  bad_image, bad_offset, write_failed, hash_mismatch, validation_failed, set_boot_failed, aborted,
  version_below_minimum, Build, Platform, OtaState,
}

-- The numbers that the enumerations give their constants.
abbrev pub state_code : WorkerOtaState → ℕ
state_code idle = 0
state_code prepared = 1
state_code writing = 2
state_code verifying = 3
state_code ready_to_reboot = 4
state_code failed = 5

abbrev pub error_code : WorkerOtaError → ℕ
error_code no_error = 0
error_code bad_command = 1
error_code bad_header = 2
error_code wrong_hardware = 3
error_code already_up_to_date = 4
error_code no_partition = 5
error_code too_large = 6
error_code bad_image = 7
error_code bad_offset = 8
error_code write_failed = 9
error_code hash_mismatch = 10
error_code validation_failed = 11
error_code set_boot_failed = 12
error_code aborted = 13
error_code version_below_minimum = 14

-- "PWOTAI01".
abbrev pub info_magic : List ℕ
info_magic = b'P' ∷ b'W' ∷ b'O' ∷ b'T' ∷ b'A' ∷ b'I' ∷ b'0' ∷ b'1' ∷ []

-- `next ? next->size : 0`.
abbrev pub slot_size : Platform → ℕ
slot_size p = elim p.next_partition [ none ↦ 0 | some size ↦ size ]

unfoldable pub write_info_value : Build → Platform → OtaState → List ℕ
write_info_value build p s =
    info_magic
    ++ (role_worker
        ∷ state_code s.state
        ∷ error_code s.error
        ∷ 0
        ∷ (le16 build.fw_hardware_target
            ++ (le16 0
                ++ (le32 build.fw_version ++ (le32 (slot_size p) ++ le32 s.image_bytes_received)))))
