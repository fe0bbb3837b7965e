-- ===== src/Nodes.antt =====
-- The main device's side of the protocol, main/src/bluetooth_main.cpp: the table of nodes, and what
-- the scan callback makes of a decoded packet. Times are microseconds.
pub mod Status
pub mod Repeat
use plant_watering.Prelude.{
  ℕ, zero, suc, ◌+◌, ◌-◌, ◌*◌, ◌%◌, Bool, true, false, not, ◌&&◌, ◌||◌, List, [], ◌∷◌, ◌++◌, Option,
  none, some, ltb, leb, ◌==◌, if◌then◌else◌, length, min, take, drop, replicate, set,
}
use plant_watering.Prelude.Int.{ℤ, pos}
use plant_watering.Prelude.Bytes.{bytes_eq, byte_at, test_bit}
use plant_watering.Prelude.Loops.{for_range}
use plant_watering.Prelude.Maybe.{◌>>=◌, ◌>>◌, guard}
use plant_watering.Prelude.Words.{next_generation}
use plant_watering.Bluetooth.Tlv.{
  type_ack, type_status, type_event_water_done, field_batt, field_pot_count, field_soil_list,
  field_fw_version, field_pot_mask, read_required_bytes, read_required_u8, read_required_u16,
  read_optional_u32, u16s_of,
}
use plant_watering.Bluetooth.Message.{Mac, MessageId, message_id, same_message_id, broadcast_mac}
use plant_watering.Bluetooth.Packet.{Received}

abbrev pub max_worker_count : ℕ
max_worker_count = 8

abbrev pub max_pots_per_device : ℕ
max_pots_per_device = 16

pub record WorkerNode : Type 0 where
  pub mac : Mac
  pub pot_count : ℕ
  pub soils : List ℕ
  pub battery_mv : ℕ
  pub firmware_version : ℕ
  pub last_rssi : ℤ
  pub last_sync_us : ℕ
  pub last_water_us : List ℕ
  pub status_generation : ℕ
  pub last_message_id : MessageId

pub record StatusReading : Type 0 where
  pub soils : List ℕ
  pub pot_count : ℕ
  pub battery_mv : ℕ
  pub firmware_version : ℕ

unfoldable pub parse_status_body : List ℕ → Option StatusReading
parse_status_body body = do
  guard (leb 1 (length body) && byte_at body 0 == type_status)
  let tlvs = drop 1 body
  battery ← read_required_u16 tlvs field_batt
  count ← read_required_u8 tlvs field_pot_count
  soil_bytes ← read_required_bytes tlvs field_soil_list
  version ← read_optional_u32 tlvs field_fw_version
  guard
      (not (count == 0) && (leb count max_pots_per_device && length soil_bytes == count * 2 % 256))
  some (record {
    soils = u16s_of soil_bytes;
    pot_count = count;
    battery_mv = battery;
    firmware_version = version.0;
  })

-- The table with the message id of the node noted, and whether the message is a new one of a known
-- node.
unfoldable pub accept_message_id : List WorkerNode → Mac → MessageId → List WorkerNode × Bool
accept_message_id [] mac id = ([], false)
accept_message_id (n ∷ ns) mac id =
    let (rest, accepted) = accept_message_id ns mac id in
    if bytes_eq n.mac mac
    then (if same_message_id n.last_message_id id
        then (n ∷ ns, false)
        else (record n { last_message_id = id } ∷ ns, true))
    else (n ∷ rest, accepted)

-- The change of the node that `findNodeLocked` finds.
unfoldable pub change_node : List WorkerNode → Mac → (WorkerNode → WorkerNode) → List WorkerNode
change_node [] mac f = []
change_node (n ∷ ns) mac f =
    let rest = change_node ns mac f in if bytes_eq n.mac mac then f n ∷ ns else n ∷ rest

unfoldable pub note_status : StatusReading → ℤ → ℕ → WorkerNode → WorkerNode
note_status r rssi now n =
    let count = min r.pot_count max_pots_per_device in
    record n {
      battery_mv = r.battery_mv;
      firmware_version = r.firmware_version;
      pot_count = count;
      soils = take count r.soils ++ replicate (max_pots_per_device - count) 0;
      last_sync_us = now;
      last_rssi = rssi;
      status_generation = next_generation n.status_generation;
    }

unfoldable pub mark_node_watered : ℕ → ℕ → WorkerNode → WorkerNode
unfolding for_range
mark_node_watered pot_mask now n = record n {
  last_water_us =
      for_range max_pots_per_device 0
        (λ pot times. if test_bit pot_mask pot then set times pot now else times) n.last_water_us;
}

unfoldable pub find_node : List WorkerNode → Mac → Option WorkerNode
find_node [] mac = none
find_node (n ∷ ns) mac = let rest = find_node ns mac in if bytes_eq n.mac mac then some n else rest

unfoldable pub ensure_node_exists : List WorkerNode → Mac → List WorkerNode
ensure_node_exists ns mac = elim (find_node ns mac) [
  | some n ↦ ns
  | none ↦
      if ltb (length ns) max_worker_count
      then ns
        ++ record {
          mac = mac;
          pot_count = 0;
          soils = replicate 16 0;
          battery_mv = 0;
          firmware_version = 0;
          last_rssi = pos 0x7FFF;
          last_sync_us = 0;
          last_water_us = replicate 16 0;
          status_generation = 0;
          last_message_id = message_id 0 0;
        }
          ∷ []
      else ns
]

unfoldable pub remove_node : List WorkerNode → Mac → List WorkerNode
remove_node [] mac = []
remove_node (n ∷ ns) mac =
    let rest = remove_node ns mac in if bytes_eq n.mac mac then ns else n ∷ rest

-- The nodes, and the queue of the workers that want to be sent to sleep.
pub record MainState : Type 0 where
  pub nodes : List WorkerNode
  pub sleep_requests : List Mac

-- The calls that a packet leads to, in order.
pub data MainAction : Type 0 where
  mark_ack queue_ack : Mac → MessageId → MainAction
  ensure_worker_configs : Mac → ℕ → MainAction
  notify_completed : Mac → ℕ → MainAction

-- `sleeping` is `runtime.autoEnabled && runtime.state == SLEEPING`.
unfoldable pub queue_sleep_request_if_needed : MainState → Bool → Mac → MainState
queue_sleep_request_if_needed s sleeping mac =
    if not sleeping
    then s
    else if ltb (length s.sleep_requests) max_worker_count
    then record s { sleep_requests = s.sleep_requests ++ mac ∷ [] }
    else s

unfoldable pub handle_status :
    MainState → Bool → Mac → MessageId → StatusReading → ℤ → ℕ → MainState × List MainAction
unfolding queue_sleep_request_if_needed
handle_status s sleeping source id r rssi now =
    let (nodes, accepted) = accept_message_id s.nodes source id in
    let updated = record s { nodes = change_node nodes source (note_status r rssi now) } in
    if accepted
    then (
      queue_sleep_request_if_needed updated sleeping source,
      queue_ack source id ∷ ensure_worker_configs source r.pot_count ∷ [],
    )
    else (record s { nodes = nodes }, queue_ack source id ∷ [])

unfoldable pub handle_water_done : MainState → Mac → MessageId → ℕ → MainState × List MainAction
handle_water_done s source id mask =
    let (nodes, accepted) = accept_message_id s.nodes source id in
    (
      record s { nodes = nodes },
      queue_ack source id ∷ (if accepted then notify_completed source mask ∷ [] else []),
    )

-- `parseAdvert` behind the decoding.
unfoldable pub accept_packet :
    Mac → (Mac → Bool) → Bool → MainState → Mac → Received → ℤ → ℕ → MainState × List MainAction
unfolding handle_status handle_water_done
accept_packet self is_configured sleeping s source r rssi now =
    if not (bytes_eq r.target self) && not (bytes_eq r.target broadcast_mac)
    then (s, [])
    else if not (is_configured source)
    then (s, [])
    else if byte_at r.body 0 == type_ack && length r.body == 1
    then (s, mark_ack source r.id ∷ [])
    else if byte_at r.body 0 == type_status
    then elim (parse_status_body r.body) [
      | none ↦ (s, [])
      | some reading ↦ handle_status s sleeping source r.id reading rssi now
    ]
    else if byte_at r.body 0 == type_event_water_done
    then elim (read_required_u16 (drop 1 r.body) field_pot_mask) [
      | none ↦ (s, [])
      | some mask ↦ handle_water_done s source r.id mask
    ]
    else (s, [])
