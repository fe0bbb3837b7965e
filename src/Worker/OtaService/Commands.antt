-- ===== src/Worker/OtaService/Commands.antt =====
-- The callbacks of worker/src/worker_ota_service.cpp: the commands on the control characteristic, the
-- image on the data characteristic, and the disconnection; and `workerOtaServiceLoop`.
use plant_watering.Prelude.{
  ℕ, ◌+◌, ◌%◌, Bool, true, false, not, ◌&&◌, ◌||◌, List, none, some, ltb, ◌==◌, if◌then◌else◌,
  length, drop,
}
use plant_watering.Prelude.Bytes.{bytes_eq, byte_at}
use plant_watering.Prelude.Words.{u32_mod, reached32}
use plant_watering.Policy.FirmwareVersion.{Decision, firmware_version_decision}
use plant_watering.Ota.Package.{header_size, read_u32}
use plant_watering.Bluetooth.Message.{Mac}
use plant_watering.Worker.OtaService.{
  Build, Platform, OtaState, reset_session, fail, idle, prepared, writing, verifying,
  ready_to_reboot, failed, no_error, bad_command, bad_header, wrong_hardware, already_up_to_date,
  no_partition, too_large, bad_offset, hash_mismatch, validation_failed, set_boot_failed, aborted,
  version_below_minimum,
}
use plant_watering.Worker.OtaService.Image.{parse_package_header, write_image_bytes}

-- `handlePrepare` from behind the parsing, on the session with the header.
unfoldable pub check_prepared : Build → Platform → OtaState → OtaState
unfolding fail
check_prepared build p s =
    if not (s.header.hardware_target == build.fw_hardware_target)
    then fail wrong_hardware s
    else elim (firmware_version_decision build.fw_version s.header.firmware_version
        build.fw_min_allowed_version) [
          | Decision.already_installed ↦ fail already_up_to_date s
          | Decision.below_minimum ↦ fail version_below_minimum s
          | Decision.allow ↦ elim p.next_partition [
            | none ↦ fail no_partition s
            | some size ↦
                let chosen = record s { target_partition = some size } in
                if ltb size s.header.image_size
                then fail too_large chosen
                else record chosen { state = prepared; error = no_error }
          ]
        ]

-- The valves are closed where it ends in `prepared`.
unfoldable pub handle_prepare : Build → Platform → OtaState → List ℕ → OtaState
unfolding fail reset_session
handle_prepare build p s bytes =
    if not (length bytes == 1 + header_size)
    then fail bad_command s
    else (let fresh = reset_session s in
        let (h, ok) = parse_package_header build (drop 1 bytes) fresh.header in
        let parsed = record fresh { header = h } in
        if ok then check_prepared build p parsed else fail bad_header parsed)

unfoldable pub handle_commit : Platform → OtaState → ℕ → OtaState
unfolding fail
handle_commit p s now =
    if not s.ota_begun || not (s.image_bytes_received == s.header.image_size)
    then fail bad_offset s
    else (let checking = record s { state = verifying; error = no_error } in
        let hashed = record checking { sha256_active = false } in
        let ended = record hashed { ota_begun = false } in
        if not p.sha_finish
        then fail validation_failed checking
        else if not (bytes_eq (p.sha256 s.sha_input) s.header.image_sha256)
        then fail hash_mismatch hashed
        else if not p.ota_end
        then fail validation_failed ended
        else if not p.set_boot
        then fail set_boot_failed ended
        else record ended { state = ready_to_reboot; reboot_at_ms = (now + 1000) % u32_mod })

-- `ControlCallbacks::onWrite`.
unfoldable pub control_write : Build → Platform → OtaState → List ℕ → ℕ → OtaState
unfolding fail
control_write build p s bytes now =
    if length bytes == 0
    then fail bad_command s
    else if byte_at bytes 0 == 1
    then handle_prepare build p s bytes
    else if byte_at bytes 0 == 2
    then handle_commit p s now
    else if byte_at bytes 0 == 3
    then fail aborted s
    else fail bad_command s

-- `DataCallbacks::onWrite`.
unfoldable pub data_write : Build → Platform → OtaState → List ℕ → OtaState
unfolding fail
data_write build p s bytes =
    if ltb (length bytes) 4
    then fail bad_command s
    else if not (read_u32 bytes 0 == s.image_bytes_received)
    then fail bad_offset s
    else (write_image_bytes build p s (drop 4 bytes)).0

-- `ServerCallbacks::onDisconnect`.
unfoldable pub on_disconnect : OtaState → OtaState
unfolding fail
on_disconnect s = elim s.state [
  | prepared ↦ fail aborted s
  | writing ↦ fail aborted s
  | verifying ↦ fail aborted s
  | _ ↦ s
]

-- `workerOtaIsActive`.
unfoldable pub worker_ota_is_active : OtaState → Bool
worker_ota_is_active s = elim s.state [ idle ↦ false | failed ↦ false | _ ↦ true ]

-- The restart of `workerOtaServiceLoop`.
unfoldable pub reboot_due : OtaState → ℕ → Bool
reboot_due s now = not (s.reboot_at_ms == 0) && reached32 now s.reboot_at_ms

-- The advertising window.
pub record Window : Type 0 where
  pub allowed_main_mac : Mac
  pub window_until_ms : ℕ
  pub advertising_window : Bool
  pub connected : Bool

unfoldable pub worker_ota_open_window : Window → Mac → ℕ → ℕ → Window
worker_ota_open_window w allowed window_ms now = record w {
  allowed_main_mac = allowed;
  window_until_ms = (now + window_ms) % u32_mod;
  advertising_window = true;
}

-- The first half of `workerOtaServiceLoop`: the window closes, and the scan starts again.
unfoldable pub close_window_if_over : Window → ℕ → Window
close_window_if_over w now =
    if w.advertising_window && (not w.connected && reached32 now w.window_until_ms)
    then record w { advertising_window = false }
    else w
