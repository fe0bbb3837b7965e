-- ===== src/Watering.antt =====
-- main/src/watering_manager.cpp: manual watering requests, and one watering of one worker from the
-- command to the reported end.
pub mod Command
pub mod Execute
use plant_watering.Prelude.{
  ℕ, zero, suc, ◌+◌, ◌*◌, ◌≤◌, ◌<◌, Bool, true, false, not, ◌&&◌, ◌||◌, List, [], ◌∷◌, ◌++◌, Option,
  none, some, ltb, leb, ◌==◌, if◌then◌else◌, length,
}
use plant_watering.Prelude.Bytes.{popcount, bytes_eq, be16}
use plant_watering.Prelude.Maybe.{◌>>=◌, ◌>>◌, guard, is_some}
use plant_watering.Bluetooth.Tlv.{
  type_cmd_water, field_pot_mask, field_duration_list, body_begin, tlv_append, tlv_append_u16,
}
use plant_watering.Bluetooth.Message.{Mac, zero_mac}

abbrev pub max_pots_per_device : ℕ
max_pots_per_device = 16

abbrev pub manual_queue_len : ℕ
manual_queue_len = 4

abbrev pub water_ack_timeout_ms : ℕ
water_ack_timeout_ms = 700

abbrev pub water_completion_margin_seconds : ℕ
water_completion_margin_seconds = 5

-- The durations, with their count.
pub record ManualWaterRequest : Type 0 where
  pub mac : Mac
  pub pot_mask : ℕ
  pub durations : List ℕ

-- The first test of both entry points: one duration for each pot of the mask.
unfoldable pub input_ok : ℕ → List ℕ → Bool
input_ok mask durations =
    not (mask == 0)
    && (not (length durations == 0)
        && (leb (length durations) max_pots_per_device && length durations == popcount 16 mask))

-- The loop over the durations: each is from 1 to 60.
unfoldable pub durations_ok : List ℕ → Bool
durations_ok [] = true
durations_ok (d ∷ ds) = let rest = durations_ok ds in if d == 0 || ltb 60 d then false else rest

-- The state that the completion mutex guards, and the manual queue.
pub record WateringState : Type 0 where
  pub manual_queue : List ManualWaterRequest
  pub active_mac : Mac
  pub active_mask : ℕ
  pub completed : Bool

unfoldable pub begin_completion_wait : Mac → ℕ → WateringState → WateringState
begin_completion_wait mac mask s = record s {
  active_mac = mac;
  active_mask = mask;
  completed = false;
}

unfoldable pub end_completion_wait : WateringState → WateringState
end_completion_wait s = record s { active_mac = zero_mac; active_mask = 0; completed = false }

-- `wateringNotifyCompleted`, called from the scan callback.
unfoldable pub notify_completed : WateringState → Mac → ℕ → WateringState
notify_completed s mac mask =
    if bytes_eq s.active_mac mac && s.active_mask == mask then record s { completed = true } else s

-- `xQueueSend` with no wait: false when the queue is full.
unfoldable pub queue_manual : WateringState → Mac → ℕ → List ℕ → WateringState × Bool
queue_manual s mac mask durations =
    if not (input_ok mask durations)
    then (s, false)
    else if not (durations_ok durations)
    then (s, false)
    else if ltb (length s.manual_queue) manual_queue_len
    then (
      record s {
        manual_queue =
            s.manual_queue ++ record { mac = mac; pot_mask = mask; durations = durations } ∷ [];
      },
      true,
    )
    else (s, false)

abbrev pub sum : List ℕ → ℕ
sum [] = 0
sum (d ∷ ds) = d + sum ds

-- The bytes of the duration list, high byte first.
abbrev pub duration_bytes : List ℕ → List ℕ
duration_bytes [] = []
duration_bytes (d ∷ ds) = be16 d ++ duration_bytes ds

-- The command that `wateringExecuteWorker` sends, or `none` where it is rejected.
unfoldable pub water_command_body : ℕ → List ℕ → Option (List ℕ)
water_command_body mask durations = do
  guard (input_ok mask durations)
  guard (durations_ok durations)
  body ← tlv_append_u16 (body_begin type_cmd_water) field_pot_mask mask
  tlv_append body field_duration_list (duration_bytes durations)
