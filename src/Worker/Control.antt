-- ===== src/Worker/Control.antt =====
-- The pairing, the command queue and the control task of worker/src/bluetooth_worker.cpp. The scan
-- callback runs `parse_advert`; the task takes a command off the queue, acknowledges it, and acts
-- on it once the outcome of the acknowledgement is there. Times are microseconds.
pub mod Safety
pub mod Retransmission
use plant_watering.Prelude.{
  ℕ, zero, suc, ◌+◌, ◌-◌, ◌*◌, Bool, true, false, not, ◌&&◌, List, [], ◌∷◌, ◌++◌, Option, none,
  some, ltb, leb, ◌==◌, if◌then◌else◌, length, drop,
}
use plant_watering.Prelude.Bytes.{bytes_eq, byte_at, be16}
use plant_watering.Prelude.Maybe.{◌>>=◌, ◌>>◌, guard}
use plant_watering.Bluetooth.Tlv.{
  type_ack, type_cmd_probe, type_cmd_sleep, type_cmd_water, type_cmd_ota_prepare, type_status,
  field_batt, field_pot_count, field_fw_version, field_soil_list, field_sleep_sec, body_begin,
  tlv_append, tlv_append_u8, tlv_append_u16, tlv_append_u32, read_required_u32,
}
use plant_watering.Bluetooth.Message.{
  Mac, MessageId, message_id, same_message_id, zero_mac, broadcast_mac,
}
use plant_watering.Bluetooth.Crypto.{Primitives}
use plant_watering.Bluetooth.Packet.{Received, parse_bt_packet_header}
use plant_watering.Worker.Water.{
  Action, valve_set_mask, advertise_status, open_ota_window, deep_sleep_us, validate_command,
  execute_water_command,
}

abbrev pub command_queue_len : ℕ
command_queue_len = 4

abbrev pub comm_overdue_us : ℕ
comm_overdue_us = 300000000

pub record WorkerCommand : Type 0 where
  pub source_mac : Mac
  pub message_id : MessageId
  pub body : List ℕ

-- `acking` is the command that the control task has taken off the queue and is acknowledging.
pub record WorkerState : Type 0 where
  pub main_mac : Mac
  pub last_command_id : MessageId
  pub last_communication_us : ℕ
  pub command_queue : List WorkerCommand
  pub acking : Option WorkerCommand

-- `copyMainMac`: whether any byte of the address is set.
abbrev pub main_mac_is_set : WorkerState → Bool
main_mac_is_set s = not (bytes_eq s.main_mac zero_mac)

unfoldable pub set_main_mac : WorkerState → Mac → ℕ → WorkerState
set_main_mac s mac now = record s { main_mac = mac; last_communication_us = now }

unfoldable pub mark_communication : WorkerState → ℕ → WorkerState
mark_communication s now = record s { last_communication_us = now }

-- The new state, and whether the id is that of the last command.
unfoldable pub is_duplicate : WorkerState → MessageId → WorkerState × Bool
is_duplicate s id =
    if same_message_id s.last_command_id id
    then (s, true)
    else (record s { last_command_id = id }, false)

unfoldable pub main_mac_reset : WorkerState → WorkerState
main_mac_reset s = record s {
  main_mac = zero_mac;
  last_command_id = message_id 0 0;
  last_communication_us = 0;
}

unfoldable pub last_comm_overdue : WorkerState → ℕ → Bool
last_comm_overdue s now =
    not (s.last_communication_us == 0) && leb comm_overdue_us (now - s.last_communication_us)

-- `paired && memcmp(sourceMac, pairedMac, 6) != 0`.
abbrev pub stranger : WorkerState → Mac → Bool
stranger s source = main_mac_is_set s && not (bytes_eq source s.main_mac)

-- `xQueueSend` with no wait, and the pairing with the sender of the first command.
unfoldable pub enqueue_command : WorkerState → WorkerCommand → ℕ → WorkerState
unfolding set_main_mac
enqueue_command s command now =
    if ltb (length s.command_queue) command_queue_len
    then (let queued = record s { command_queue = s.command_queue ++ command ∷ [] } in
        if main_mac_is_set s then queued else set_main_mac queued command.source_mac now)
    else s

-- `parseAdvert` behind the decoding. The second part is the message that `btCommonMarkAck` is told
-- of.
unfoldable pub accept_packet :
    ℕ → Mac → WorkerState → Mac → Received → ℕ → WorkerState × Option (Mac × MessageId)
unfolding enqueue_command
accept_packet pots self s source r now =
    if not (bytes_eq r.target self)
    then (s, none)
    else if byte_at r.body 0 == type_ack && length r.body == 1
    then (if stranger s source then (s, none) else (s, some (source, r.id)))
    else if not (validate_command pots r.body)
    then (s, none)
    else if stranger s source
    then (s, none)
    else (
      enqueue_command s (record { source_mac = source; message_id = r.id; body = r.body }) now,
      none,
    )

unfoldable pub parse_advert :
    Primitives
    → Bool
    → ℕ
    → Mac
    → WorkerState
    → Mac
    → List ℕ
    → ℕ
    → WorkerState × Option (Mac × MessageId)
parse_advert p init_ok pots self s source bytes now =
    elim (parse_bt_packet_header p init_ok bytes) [
      | none ↦ (s, none)
      | some r ↦ accept_packet pots self s source r now
    ]

-- `xQueueReceive` of the control task.
unfoldable pub take_command : WorkerState → WorkerState
take_command s = elim s.acking [
  | some c ↦ s
  | none ↦ elim s.command_queue [
    | [] ↦ s
    | c ∷ rest ↦ record s { command_queue = rest; acking = some c }
  ]
]

-- `CMD_SLEEP` of the control task.
unfoldable pub execute_sleep : List ℕ → List Action
execute_sleep body = elim (read_required_u32 (drop 1 body) field_sleep_sec) [
  | none ↦ []
  | some seconds ↦ valve_set_mask 0 ∷ deep_sleep_us (seconds * 1000000) ∷ []
]

unfoldable pub execute_command : ℕ → WorkerCommand → List Action
execute_command pots c =
    if byte_at c.body 0 == type_cmd_probe
    then advertise_status ∷ []
    else if byte_at c.body 0 == type_cmd_water
    then execute_water_command pots c.source_mac c.body
    else if byte_at c.body 0 == type_cmd_ota_prepare
    then open_ota_window c.source_mac 120000 ∷ []
    else if byte_at c.body 0 == type_cmd_sleep
    then execute_sleep c.body
    else []

-- The body of the loop of `workerControlTask` behind the acknowledgement, where `started` is
-- `ack.transmissionStarted`.
unfoldable pub control_command :
    ℕ → WorkerState → WorkerCommand → Bool → ℕ → WorkerState × List Action
unfolding mark_communication is_duplicate
control_command pots s c started now =
    if not started
    then (s, [])
    else (let (s', duplicate) = is_duplicate (mark_communication s now) c.message_id in
        if duplicate then (s', []) else (s', execute_command pots c))

unfoldable pub control_step : ℕ → WorkerState → Bool → ℕ → WorkerState × List Action
control_step pots s started now = elim s.acking [
  | none ↦ (s, [])
  | some c ↦ control_command pots (record s { acking = none }) c started now
]

-- The readings of the sensors, one moisture for each pot.
pub record Snapshot : Type 0 where
  pub battery_mv : ℕ
  pub soils : List ℕ

abbrev pub soil_bytes : List ℕ → List ℕ
soil_bytes [] = []
soil_bytes (v ∷ vs) = be16 v ++ soil_bytes vs

unfoldable pub status_body : ℕ → ℕ → Snapshot → Option (List ℕ)
status_body pots fw_version snapshot = do
  battery ← tlv_append_u16 (body_begin type_status) field_batt snapshot.battery_mv
  count ← tlv_append_u8 battery field_pot_count pots
  version ← tlv_append_u32 count field_fw_version fw_version
  tlv_append version field_soil_list (soil_bytes snapshot.soils)

-- `btWorkerAdvertiseStatus`: the target and the body of the command that is sent.
unfoldable pub worker_advertise_status :
    ℕ → ℕ → Option Snapshot → WorkerState → Option (Mac × List ℕ)
worker_advertise_status pots fw_version snapshot s = do
  readings ← snapshot
  body ← status_body pots fw_version readings
  some (if main_mac_is_set s then s.main_mac else broadcast_mac, body)
