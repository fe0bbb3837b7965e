-- ===== src/Examples/Policies.antt =====
-- The policies of main/include and the table of workers of main/src/settings.cpp at concrete inputs.
use plant_watering.Prelude.{
  ◌/◌, ℕ, ◌+◌, ◌<◌, ◌≡◌, refl, ◌≢◌, ◌↔◌, true, false, ◌&&◌, some, arith, ltb, if◌then◌else◌, length,
  get_or, min, replicate,
}
use plant_watering.Prelude.Int.{pos}
use plant_watering.Prelude.Bytes.{test_bit}
use plant_watering.Policy.AutoRecovery.{
  wdt, other, reset_is_eligible, initialize, set_armed, make_record, initialize-set_armed,
}
use plant_watering.Policy.AutoWatering.{apply_completed, apply_completed_exact}
use plant_watering.Policy.ClockMath.{
  epoch_for_local_time_of_day, local_time_of_day_sec,
  local_time_of_day_sec-epoch_for_local_time_of_day, IsSane, local_of,
}
use plant_watering.Policy.StatusLed.{syncing, ConnectionState, PatternState, Inputs}

initialize-set_armed_example :
    let (resumed, kept) = initialize wdt (set_armed true (make_record false)) in
    (resumed ≡ (reset_is_eligible wdt && true))
    × (kept ≡ make_record resumed)
    × ((initialize (other 1) kept).0 ≡ (reset_is_eligible (other 1) && resumed))
initialize-set_armed_example = initialize-set_armed wdt (other 1) true (make_record false)

-- Pots 0 and 2 of a worker with three pots.
apply_completed_exact_example :
    let s = apply_completed (replicate 16 7) 3 13 1000 in
    ((j : ℕ)
      → get_or s.0 j 0
        ≡ (if ltb j (min 3 16) && test_bit 13 j then 1000 else get_or (replicate 16 7) j 0))
    × (length s.0 ≡ 16)
    × ((s.1 ≡ true) ↔ (s.0 ≢ replicate 16 7))
apply_completed_exact_example =
    apply_completed_exact (replicate 16 7) 3 13 1000 refl (λ e. omega arith)

abbrev watered_at : ℕ
watered_at = 4000

abbrev event : ℕ
event = 400

-- Eight in the morning, two hours east of UTC.
eight_o_clock : epoch_for_local_time_of_day 1800000000 (pos 120) 28800 ≡ some 1799992800
unfolding epoch_for_local_time_of_day
eight_o_clock = refl

local_time_of_day_sec-epoch_for_local_time_of_day_example :
    (local_time_of_day_sec 1799992800 (pos 120) ≡ 28800)
    × IsSane 1799992800
    × (local_of (pos 120) 1799992800 / 86400 ≡ local_of (pos 120) 1800000000 / 86400)
    × (1799992800 < 1800000000 + 86400)
    × (1800000000 < 1799992800 + 86400)
local_time_of_day_sec-epoch_for_local_time_of_day_example =
    local_time_of_day_sec-epoch_for_local_time_of_day 1800000000 (pos 120) 28800 1799992800
      (omega arith, omega arith) eight_o_clock

abbrev just_connected : ConnectionState
just_connected = record { was_connected = false; flash_active = false; flash_started_ms = 0 }

abbrev long_connected : ConnectionState
long_connected = record { was_connected = true; flash_active = false; flash_started_ms = 10 }

abbrev dry_tank : Inputs
dry_tank = record {
  ota_active = false;
  tank_sensor_ready = true;
  tank_is_low = true;
  wifi_is_connected = true;
  wifi_just_connected = false;
  is_watering = true;
  is_syncing = false;
}

abbrev syncing_since : PatternState
syncing_since = record { pattern = syncing; started_ms = 4294967000; initialized = true }
