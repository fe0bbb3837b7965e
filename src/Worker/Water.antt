-- ===== src/Worker/Water.antt =====
-- `parseWaterCommand`, `validateCommand` and `executeWaterCommand` of
-- worker/src/bluetooth_worker.cpp. The number of pots is a build constant, an argument here.
pub mod Trace
use plant_watering.Prelude.{
  ℕ, zero, suc, ◌+◌, ◌-◌, ◌*◌, ◌/◌, ◌^◌, ◌≤◌, ◌<◌, Bool, true, false, not, ◌&&◌, ◌||◌, List, [],
  ◌∷◌, ◌++◌, Option, none, some, ltb, leb, ◌==◌, if◌then◌else◌, length, get_or, drop,
}
use plant_watering.Prelude.Bytes.{byte_at, popcount, test_bit}
use plant_watering.Prelude.Maybe.{◌>>=◌, ◌>>◌, guard, is_some}
use plant_watering.Bluetooth.Tlv.{
  type_cmd_probe, type_cmd_sleep, type_cmd_water, type_cmd_ota_prepare, type_event_water_done,
  field_sleep_sec, field_pot_mask, field_duration_list, body_begin, tlv_append_u16,
  read_required_u16, read_required_u32, read_required_u16_array,
}
use plant_watering.Bluetooth.Message.{Mac}

abbrev pub max_sleep_seconds : ℕ
max_sleep_seconds = 2419200

abbrev pub max_water_seconds : ℕ
max_water_seconds = 60

-- `(potMask & ~allowedMask) == 0`: the mask has no bit at or above the pot count. With sixteen pots
-- or more every bit of the `uint16_t` is allowed.
abbrev pub mask_allowed : ℕ → ℕ → Bool
mask_allowed pots mask = if leb 16 pots then true else mask / 2 ^ pots == 0

unfoldable pub durations_in_range : List ℕ → Bool
durations_in_range [] = true
durations_in_range (d ∷ ds) =
    let rest = durations_in_range ds in if d == 0 || ltb max_water_seconds d then false else rest

pub record WaterCommand : Type 0 where
  pub pot_mask : ℕ
  pub durations : List ℕ

unfoldable pub parse_water_command : ℕ → List ℕ → Option WaterCommand
parse_water_command pots body = do
  guard (leb 1 (length body) && byte_at body 0 == type_cmd_water)
  let tlvs = drop 1 body
  mask ← read_required_u16 tlvs field_pot_mask
  guard (not (mask == 0) && mask_allowed pots mask)
  durations ← read_required_u16_array tlvs field_duration_list pots
  guard (length durations == popcount 16 mask)
  guard (durations_in_range durations)
  some (record { pot_mask = mask; durations = durations })

-- `FIELD_SLEEP_SEC` is there and in range.
unfoldable pub valid_sleep_body : List ℕ → Bool
valid_sleep_body body = elim (read_required_u32 (drop 1 body) field_sleep_sec) [
  | none ↦ false
  | some seconds ↦ ltb 0 seconds && leb seconds max_sleep_seconds
]

unfoldable pub validate_command : ℕ → List ℕ → Bool
validate_command pots body =
    if length body == 0
    then false
    else if byte_at body 0 == type_cmd_probe
    then length body == 1
    else if byte_at body 0 == type_cmd_sleep
    then valid_sleep_body body
    else if byte_at body 0 == type_cmd_water
    then is_some (parse_water_command pots body)
    else if byte_at body 0 == type_cmd_ota_prepare
    then length body == 1
    else false

-- What the worker does to its surroundings, in order. `send_ack` and `send_command` block until the
-- advertisement is over.
pub data Action : Type 0 where
  valve_set_mask : ℕ → Action
  delay_ms : ℕ → Action
  send_ack : Mac → Action
  send_command : Mac → List ℕ → Action
  advertise_status : Action
  open_ota_window : Mac → ℕ → Action
  deep_sleep_us : ℕ → Action

-- The loop of `executeWaterCommand` over the pots from `pot`, with `n` pots to go, and
-- `durationIndex`.
unfoldable pub water_pots : ℕ → ℕ → ℕ → ℕ → List ℕ → List Action
water_pots zero pot index mask durations = []
water_pots (suc n) pot index mask durations =
    let hit = test_bit mask pot in
    let rest = water_pots n (pot + 1) (if hit then index + 1 else index) mask durations in
    let seconds = get_or durations index 0 in
    if hit
    then valve_set_mask (2 ^ pot)
      ∷ delay_ms (seconds * 1000)
      ∷ valve_set_mask 0
      ∷ delay_ms 50
      ∷ rest
    else rest

-- The event that reports the end.
unfoldable pub water_done : Mac → ℕ → List Action
water_done source mask =
    elim (tlv_append_u16 (body_begin type_event_water_done) field_pot_mask mask) [
      | none ↦ []
      | some body ↦ send_command source body ∷ []
    ]

unfoldable pub execute_water_command : ℕ → Mac → List ℕ → List Action
execute_water_command pots source body = elim (parse_water_command pots body) [
  | none ↦ []
  | some c ↦ water_pots pots 0 0 c.pot_mask c.durations ++ water_done source c.pot_mask
]
