-- ===== src/WateringTask/Sleep.antt =====
-- The sleep command of main/src/main.cpp, as worker/src/bluetooth_worker.cpp understands it.
use plant_watering.Prelude.{
  ℕ, ◌+◌, ◌*◌, ◌≤◌, ◌<◌, ◌≡◌, refl, true, some, List, [], ◌∷◌, arith, some_rule,
}
use plant_watering.Prelude.Bytes.{be32}
use plant_watering.Bluetooth.Tlv.{
  TlvFieldView, type_cmd_sleep, field_sleep_sec, body_begin, tlv_append, tlv_append_u32,
  read_required_u32,
}
use plant_watering.Bluetooth.Tlv.Fields.{body_bytes, first_of_type}
use plant_watering.Bluetooth.Tlv.Reads.{read_required_u32-body_bytes}
use plant_watering.WateringTask.{sleep_seconds, sleep_command_body}
use plant_watering.Worker.Water.{validate_command, valid_sleep_body, max_sleep_seconds}

pub sleep_seconds-bounds :
    (wake_at_us now_us : ℕ)
    → let seconds = sleep_seconds wake_at_us now_us in
      (60 ≤ seconds)
      × (wake_at_us ≤ now_us + seconds * 1000000)
      × (now_us + 60000000 ≤ wake_at_us → now_us + seconds * 1000000 < wake_at_us + 1000000)
unfolding sleep_seconds
sleep_seconds-bounds wake_at_us now_us = ground arith

sleep_seconds-short :
    (wake_at_us now_us : ℕ)
    → wake_at_us ≤ now_us + max_sleep_seconds * 1000000
    → sleep_seconds wake_at_us now_us ≤ max_sleep_seconds
unfolding sleep_seconds
sleep_seconds-short wake_at_us now_us h = ground arith

abbrev sleep_field : ℕ → TlvFieldView
sleep_field seconds = record { type = field_sleep_sec; value = be32 seconds }

sleep_read :
    (seconds : ℕ)
    → seconds < 4294967296
    → read_required_u32 (body_bytes (sleep_field seconds ∷ [])) field_sleep_sec ≡ some seconds
unfolding first_of_type
sleep_read seconds h =
    read_required_u32-body_bytes (sleep_field seconds ∷ []) field_sleep_sec refl seconds h refl

valid_sleep_body-sleep_field :
    (seconds : ℕ)
    → 0 < seconds
    → seconds ≤ max_sleep_seconds
    → valid_sleep_body (type_cmd_sleep ∷ body_bytes (sleep_field seconds ∷ [])) ≡ true
unfolding valid_sleep_body
valid_sleep_body-sleep_field seconds more few =
    some_rule (λ b. b ≡ true) _ _ seconds (sleep_read seconds (omega (arith, few)))
      (ground (arith, more, few))

tlv_append_u32-sleep_field :
    (seconds : ℕ)
    → tlv_append_u32 (body_begin type_cmd_sleep) field_sleep_sec seconds
      ≡ some (type_cmd_sleep ∷ body_bytes (sleep_field seconds ∷ []))
unfolding tlv_append body_bytes
tlv_append_u32-sleep_field seconds = refl

validate_command-valid_sleep_body :
    (pots : ℕ) (fields : List ℕ)
    → valid_sleep_body (type_cmd_sleep ∷ fields) ≡ true
    → validate_command pots (type_cmd_sleep ∷ fields) ≡ true
unfolding validate_command
validate_command-valid_sleep_body pots fields h = rw h (ground arith)

-- The sleep command that the main device sends is one that every worker takes, as long as the time to
-- wake is at most 28 days off: the command is built, the worker finds its seconds in range, and they
-- are the same seconds. They are at least a minute, not too few to reach the time to wake, and where
-- that is at least a minute off, by less than one second too many.
pub validate_command-sleep_command_body :
    (pots wake_at_us now_us : ℕ)
    → wake_at_us ≤ now_us + max_sleep_seconds * 1000000
    → let seconds = sleep_seconds wake_at_us now_us in
      (fields : List ℕ) × (sleep_command_body wake_at_us now_us ≡ some (type_cmd_sleep ∷ fields))
      × (validate_command pots (type_cmd_sleep ∷ fields) ≡ true)
      × (read_required_u32 fields field_sleep_sec ≡ some seconds)
      × (60 ≤ seconds)
      × (wake_at_us ≤ now_us + seconds * 1000000)
      × (now_us + 60000000 ≤ wake_at_us → now_us + seconds * 1000000 < wake_at_us + 1000000)
unfolding sleep_command_body
validate_command-sleep_command_body pots wake_at_us now_us h =
    let seconds = sleep_seconds wake_at_us now_us in
    let short = sleep_seconds-short wake_at_us now_us h in
    let (minute, reaches, close) = sleep_seconds-bounds wake_at_us now_us in
    let fields = body_bytes (sleep_field seconds ∷ []) in
    (
      fields,
      tlv_append_u32-sleep_field seconds,
      validate_command-valid_sleep_body pots fields
          (valid_sleep_body-sleep_field seconds (omega (arith, minute)) short),
      sleep_read seconds (omega (arith, short)),
      minute,
      reaches,
      close,
    )
