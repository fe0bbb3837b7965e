-- ===== src/Examples/Devices.antt =====
-- The tasks and tables of main/src and worker/src at concrete inputs.
use plant_watering.Prelude.{
  ℕ, ◌+◌, ◌*◌, ◌≤◌, ◌<◌, ◌≡◌, refl, true, false, List, [], ◌∷◌, ◌++◌, Option, none, some, arith,
  ltb, length, drop, replicate,
}
use plant_watering.Prelude.Bytes.{bytes_eq, popcount}
use plant_watering.Bluetooth.Tlv.{
  find_first_field, find_loop, tlv_next, read_required_bytes, read_required_u16, read_required_u32,
  read_required_u16_array, u16s_of, field_sleep_sec,
}
use plant_watering.Bluetooth.Message.{message_id, Mac, zero_mac}
use plant_watering.Bluetooth.Packet.{Received}
use plant_watering.Ota.Package.{Header, ParseError, parse_worker_header, reserved_clear}
use plant_watering.Policy.FirmwareVersion.{firmware_version_decision}
use plant_watering.Worker.Water.{
  valve_set_mask, deep_sleep_us, WaterCommand, parse_water_command, validate_command,
  valid_sleep_body, durations_in_range, execute_water_command, max_sleep_seconds,
}
use plant_watering.Worker.Water.Trace.{
  open_intervals, last_mask, one_by_one, pots_in, execute_water_command-intervals,
}
use plant_watering.Worker.Control.{WorkerState, WorkerCommand, accept_packet, execute_command}
use plant_watering.Worker.Control.Safety.{IsSafe, Step-IsSafe, execute_sleep_safe, Step}
use plant_watering.Worker.Control.Retransmission.{Event, heard, copy}
use plant_watering.Worker.OtaService.{
  Build, Platform, OtaState, ready_to_reboot, empty_header, reset_session, abort_ota,
}
use plant_watering.Worker.OtaService.Commands.{
  control_write, data_write, handle_prepare, handle_commit, check_prepared,
}
use plant_watering.Worker.OtaService.Image.{
  parse_package_header, write_image_bytes, begin_image_write_if_ready, write_image_prefix,
  append_image_bytes,
}
use plant_watering.Worker.OtaService.Safety.{IsPlatform, Fits, IsAllowed}
use plant_watering.Worker.OtaService.Reached.{
  started, controlled, received, start, ready_to_reboot_verified,
}
use plant_watering.Worker.OtaService.Agreement.{parse_package_header-parse_worker_header}
use plant_watering.Worker.Valve.{
  ValveState, valve_call, valve_begin_battery_sampling, battery_recovery_us, battery_sampling_quiet,
}
use plant_watering.Worker.Valve

abbrev pub main_mac : Mac
main_mac = 1 ∷ 2 ∷ 3 ∷ 4 ∷ 5 ∷ 6 ∷ []

abbrev pub worker_mac : Mac
worker_mac = 9 ∷ 9 ∷ 9 ∷ 9 ∷ 9 ∷ 9 ∷ []

-- Pots 0 and 2, for five and thirty seconds.
abbrev water_body : List ℕ
water_body = 0x32 ∷ 5 ∷ 2 ∷ 0 ∷ 5 ∷ 6 ∷ 4 ∷ 0 ∷ 5 ∷ 0 ∷ 30 ∷ []

abbrev water_command : WaterCommand
water_command = record { pot_mask = 5; durations = 5 ∷ 30 ∷ [] }

water_body_parsed : parse_water_command 3 water_body ≡ some water_command
unfolding parse_water_command find_first_field find_loop tlv_next read_required_bytes
    read_required_u16 read_required_u16_array u16s_of durations_in_range popcount
water_body_parsed = refl

execute_water_command-intervals_example :
    (open_intervals 0 (execute_water_command 3 main_mac water_body)
      ≡ one_by_one (pots_in 3 0 5) (5 ∷ 30 ∷ []))
    × (last_mask 0 (execute_water_command 3 main_mac water_body) ≡ 0)
    × (length water_command.durations ≡ length (pots_in 3 0 5))
execute_water_command-intervals_example =
    execute_water_command-intervals 3 main_mac water_body water_command (omega arith)
      water_body_parsed

abbrev unpaired : WorkerState
unpaired = record {
  main_mac = zero_mac;
  last_command_id = message_id 0 0;
  last_communication_us = 0;
  command_queue = [];
  acking = none;
}

unpaired-IsSafe : IsSafe 3 0 unpaired
unpaired-IsSafe = record {
  bounded = omega arith;
  valid = tt;
  counted = omega arith;
  fresh = tt;
  unpaired = λ _. refl;
}

abbrev water_packet : Received
water_packet = record { target = worker_mac; id = message_id 77 1; body = water_body }

not_zero : bytes_eq main_mac zero_mac ≡ false
unfolding bytes_eq
not_zero = refl

Step-IsSafe_example : IsSafe 3 0 (accept_packet 3 worker_mac unpaired main_mac water_packet 1000).0
Step-IsSafe_example =
    Step-IsSafe 3 worker_mac (Step.heard main_mac water_packet 1000 not_zero) unpaired-IsSafe

-- An hour.
abbrev sleep_command : WorkerCommand
sleep_command = record {
  source_mac = main_mac;
  message_id = message_id 77 2;
  body = 0x31 ∷ 4 ∷ 4 ∷ 0 ∷ 0 ∷ 14 ∷ 16 ∷ [];
}

sleep_valid : validate_command 3 sleep_command.body ≡ true
unfolding validate_command valid_sleep_body find_first_field find_loop tlv_next read_required_bytes
    read_required_u32
sleep_valid = refl

execute_sleep_safe_example :
    (seconds : ℕ) × (read_required_u32 (drop 1 sleep_command.body) field_sleep_sec ≡ some seconds)
    × (0 < seconds)
    × (seconds ≤ max_sleep_seconds)
    × (execute_command 3 sleep_command ≡ valve_set_mask 0 ∷ deep_sleep_us (seconds * 1000000) ∷ [])
execute_sleep_safe_example = execute_sleep_safe 3 sleep_command sleep_valid refl

-- The acknowledgement of the first copy is not sent, those of the next two are; another packet is heard
-- between them.
abbrev three_copies : List Event
three_copies = copy false 10 ∷ copy true 20 ∷ heard main_mac water_packet 25 ∷ copy true 30 ∷ []

abbrev pub build : Build
build = record {
  fw_version = 5;
  fw_min_allowed_version = 3;
  fw_hardware_target = 258;
  image_prefix_size = 2;
  image_magic_ok = λ _. true;
  image_chip_ok = λ _. true;
  image_segment_count = λ _. 1;
  image_hash_appended = λ _. 1;
}

-- A hash that is the same for all images.
abbrev pub hash : List ℕ → List ℕ
hash bytes = replicate 32 9

abbrev pub platform : Platform
platform = record {
  next_partition = some 100;
  sha_starts = true;
  ota_begin = λ target size. elim target [ none ↦ false | some room ↦ ltb size (room + 1) ];
  sha_update = λ _. true;
  ota_write = λ _. true;
  sha_finish = true;
  sha256 = hash;
  ota_end = true;
  set_boot = true;
}

begin_checked :
    (target : Option ℕ) (size : ℕ)
    → platform.ota_begin target size ≡ true
    → (room : ℕ) × (target ≡ some room) × (size ≤ room)
begin_checked none size h = absurd (ground arith)
begin_checked (some room) size h = (room, refl, ground arith)

pub platform-IsPlatform : IsPlatform hash platform
platform-IsPlatform = record { begin_checked = begin_checked; hashes = λ bytes. refl }

abbrev pub package_header : List ℕ
package_header =
    b'P'
    ∷ b'W'
    ∷ b'O'
    ∷ b'T'
    ∷ b'A'
    ∷ b'0'
    ∷ b'0'
    ∷ b'1'
    ∷ 1
    ∷ 0
    ∷ 64
    ∷ 0
    ∷ 2
    ∷ 1
    ∷ 2
    ∷ 1
    ∷ 7
    ∷ 0
    ∷ 0
    ∷ 0
    ∷ 3
    ∷ 0
    ∷ 0
    ∷ 0
    ∷ (replicate 32 9 ++ replicate 8 0)

-- The header, the three bytes of the image, and the end.
abbrev updated : OtaState
updated =
    control_write build platform
      (data_write build platform (control_write build platform start (1 ∷ package_header) 10)
        (0 ∷ 0 ∷ 0 ∷ 0 ∷ 21 ∷ 22 ∷ 23 ∷ []))
      (2 ∷ []) 20

updated_ready : updated.state ≡ ready_to_reboot
unfolding control_write data_write handle_prepare handle_commit reset_session parse_package_header
    check_prepared write_image_bytes begin_image_write_if_ready write_image_prefix
    append_image_bytes abort_ota bytes_eq reserved_clear firmware_version_decision
updated_ready = refl

ready_to_reboot_verified_example :
    (hash updated.flash ≡ updated.header.image_sha256)
    × (length updated.flash ≡ updated.header.image_size)
    × Fits updated
    × IsAllowed build updated.header
ready_to_reboot_verified_example =
    ready_to_reboot_verified build hash updated
      (controlled platform (2 ∷ []) 20 platform-IsPlatform (
        received platform (0 ∷ 0 ∷ 0 ∷ 0 ∷ 21 ∷ 22 ∷ 23 ∷ []) platform-IsPlatform
          (controlled platform (1 ∷ package_header) 10 platform-IsPlatform started)))
      updated_ready

abbrev no_header : Header
no_header = record {
  format_version = 0;
  header_size = 0;
  role = 0;
  chip = 0;
  hardware_target = 0;
  firmware_version = 0;
  image_size = 0;
  image_sha256 = [];
}

parse_package_header-parse_worker_header_example :
    let (error, h) = parse_worker_header package_header 1000 no_header in
    let (h', ok) = parse_package_header build package_header empty_header in
    (ok ≡ true → h.image_size ≤ 1000 → error ≡ ParseError.none)
    × (error ≡ ParseError.none → 2 ≤ h.image_size → ok ≡ true)
    × (ok ≡ true
        → (h.hardware_target ≡ h'.hardware_target)
          × (h.firmware_version ≡ h'.firmware_version)
          × (h.image_size ≡ h'.image_size)
          × (h.image_sha256 ≡ h'.image_sha256))
parse_package_header-parse_worker_header_example =
    parse_package_header-parse_worker_header build package_header 1000 empty_header no_header
      (omega arith)

abbrev closed_valves : ValveState
closed_valves = record { valve_state = 0; battery_blocked_until_us = 0; sampling = false }

-- Pot 0 is open for five seconds.
abbrev watered_valves : ValveState
watered_valves =
    valve_call 3 (valve_call 3 closed_valves (Valve.set_mask 1) 1000) (Valve.set_mask 0) 5001000

watered_valves-Reached : Valve.Reached 3 watered_valves (some 5001000)
unfolding valve_call Valve.valve_set_mask Valve.set_valve_state
watered_valves-Reached =
    Valve.called (Valve.set_mask 0) 5001000 (Valve.called (Valve.set_mask 1) 1000 Valve.started)

battery_sampling_quiet_example :
    (watered_valves.sampling ≡ true → watered_valves.valve_state ≡ 0)
    × ((valve_begin_battery_sampling watered_valves 11000000).1 ≡ true
        → (watered_valves.valve_state ≡ 0)
          × ((at : ℕ) → some 5001000 ≡ some at → at + battery_recovery_us ≤ 11000000))
battery_sampling_quiet_example =
    battery_sampling_quiet 3 watered_valves (some 5001000) 11000000 watered_valves-Reached
