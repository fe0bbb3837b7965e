-- ===== src/Examples/Cycle.antt =====
-- A cycle of the watering task of main/src/main.cpp with one worker of two pots.
use plant_watering.Prelude.{
  ℕ, zero, suc, ◌+◌, ◌*◌, ◌≤◌, ◌<◌, ◌≡◌, ◌⊎◌, ◌↔◌, refl, true, false, List, [], ◌∷◌, some,
  replicate, arith,
}
use plant_watering.Prelude.Int.{pos}
use plant_watering.Bluetooth.Tlv.{type_cmd_sleep, field_sleep_sec, read_required_u32}
use plant_watering.Nodes.{WorkerNode}
use plant_watering.Settings.Pots.{PotOk}
use plant_watering.Settings.{WorkerConfig, WorkerTable, mark_dirty}
use plant_watering.Settings.History.{
  rebase_last_auto_watering_timestamps, AllFollow, rebase_last_auto_watering_timestamps-AllFollow,
}
use plant_watering.Prelude.Words.{u32_mod}
use plant_watering.Settings.Validity.{IsValid}
use plant_watering.Watering.{WateringState}
use plant_watering.Watering.Execute.{Surroundings}
use plant_watering.WateringTask.{
  Cycle, watering_window_open, collect_requests, sleep_seconds, sleep_command_body,
}
use plant_watering.WateringTask.Commands.{AllUnderstood, collect_requests-AllUnderstood}
use plant_watering.WateringTask.Window.{seconds_until, watering_window_open_iff}
use plant_watering.WateringTask.Sleep.{validate_command-sleep_command_body}
use plant_watering.WateringTask.Rounds.{Reading, TaskState, watering_round}
use plant_watering.WateringTask.Rounds.Allowed.{AllAllowed, watering_round-AllAllowed}
use plant_watering.Worker.Water.{validate_command}

-- 22:00 to 06:00, at 23:00.
watering_window_open_iff_example :
    (watering_window_open 79200 21600 82800 ≡ true)
    ↔ (seconds_until 79200 82800 ≤ seconds_until 79200 21600)
watering_window_open_iff_example =
    watering_window_open_iff 79200 21600 82800 (omega arith) (omega arith) (omega arith)

validate_command-sleep_command_body_example :
    (fields : List ℕ) × (sleep_command_body 600000000 30000000 ≡ some (type_cmd_sleep ∷ fields))
    × (validate_command 4 (type_cmd_sleep ∷ fields) ≡ true)
    × (read_required_u32 fields field_sleep_sec ≡ some (sleep_seconds 600000000 30000000))
    × (60 ≤ sleep_seconds 600000000 30000000)
    × (600000000 ≤ 30000000 + sleep_seconds 600000000 30000000 * 1000000)
    × (30000000 + 60000000 ≤ 600000000
        → 30000000 + sleep_seconds 600000000 30000000 * 1000000 < 600000000 + 1000000)
validate_command-sleep_command_body_example =
    validate_command-sleep_command_body 4 600000000 30000000 (omega arith)

abbrev reading : Reading
reading = record {
  updating_at_start = false;
  automatic = true;
  manual_done = false;
  now_us = 900000000;
  updating_before_sync = false;
  data_sync_interval = 600;
  active_start = 0;
  active_end = 86399;
  updating_after_padding = false;
  cycle_start_us = 910000000;
  synced_us = 915000000;
  now_utc = 1700000000;
  clock_valid = true;
  second_of_day = 40000;
  updating_before_watering = false;
  watered_us = 930000000;
}

abbrev task : TaskState
task = record { last_sync_us = 100000000; previous_auto = true }

watering_round-AllAllowed_example : AllAllowed reading task (watering_round reading task).1
watering_round-AllAllowed_example = watering_round-AllAllowed reading task

abbrev mac : List ℕ
mac = 1 ∷ 2 ∷ 3 ∷ 4 ∷ 5 ∷ 6 ∷ []

abbrev worker : WorkerConfig
worker = record {
  mac = mac;
  worker_name = [];
  pot_count = 2;
  thresholds = 500 ∷ 500 ∷ replicate 14 500;
  durations = 5 ∷ 7 ∷ replicate 14 5;
  water_intervals = 3600 ∷ 3600 ∷ replicate 14 3600;
  last_auto_watering_utc_sec = replicate 16 0;
  pot_names = replicate 16 [];
}

-- The first pot is wet, the second is dry.
abbrev node : WorkerNode
node = record {
  mac = mac;
  pot_count = 2;
  soils = 300 ∷ 600 ∷ replicate 14 0;
  battery_mv = 3700;
  firmware_version = 1;
  last_rssi = pos 0;
  last_sync_us = 912000000;
  last_water_us = replicate 16 0;
  status_generation = 1;
  last_message_id = record { session_id = 1; sequence = 1 };
}

abbrev table : WorkerTable
table = record { workers = worker ∷ []; dirty_generation = 0; dirty_at_us = 0 }

pots_ok : (pot : ℕ) → pot < 2 → PotOk worker pot
pots_ok zero h = (omega arith, omega arith, omega arith, omega arith, omega arith)
pots_ok (suc zero) h = (omega arith, omega arith, omega arith, omega arith, omega arith)
pots_ok (suc (suc pot)) h = absurd (omega (arith, h))

table-IsValid : IsValid table
table-IsValid = record {
  few = omega arith;
  all_workers = (
    record {
      sized = (refl, refl, refl, refl);
      pots = (omega arith, omega arith);
      pot_ok = pots_ok;
    },
    tt,
    tt,
  );
}

collect_requests-AllUnderstood_example :
    AllUnderstood
      (worker ∷ [])
      (collect_requests (λ _ soil. soil) 1700000000 (node ∷ []) 910000000 (worker ∷ []) [])
collect_requests-AllUnderstood_example =
    collect_requests-AllUnderstood (λ _ soil. soil) 1700000000 (node ∷ []) 910000000 table
      table-IsValid

-- The clock goes back by a day.
rebase_last_auto_watering_timestamps-AllFollow_example :
    let t' = rebase_last_auto_watering_timestamps table 1700086400 1700000000 5 in
    (0 < 1700000000
      → 1700000000 < u32_mod
      → AllFollow 1700086400 1700000000 table.workers t'.workers
        × ((t' ≡ table) ⊎ (t' ≡ mark_dirty table t'.workers 5)))
    × ((◌≡◌ {A = ℕ} 1700000000 0) ⊎ (u32_mod ≤ 1700000000) → t' ≡ table)
rebase_last_auto_watering_timestamps-AllFollow_example =
    rebase_last_auto_watering_timestamps-AllFollow table 1700086400 1700000000 5 (omega arith, tt)

-- The worker reports the second pot after eight seconds.
abbrev call : Surroundings
call = record {
  tank_low = false;
  transmission_started = true;
  started_us = 920000000;
  during_send = [];
  polls =
      record { reports = []; now = 921000000; tank_low = false }
      ∷ record { reports = record { mac = mac; mask = 2 } ∷ []; now = 928000000; tank_low = false }
      ∷ record { reports = []; now = 940000000; tank_low = false }
      ∷ [];
  late = [];
}

abbrev cycle : Cycle
cycle = record {
  low_at_start = false;
  low_while_priming = false ∷ false ∷ [];
  low_after_priming = false;
  turn = λ _. record { low_before = false; call = call; low_after = false };
  table = table;
  completed_utc = 1700000020;
  now_us = 931000000;
}

abbrev quiet : WateringState
quiet = record { manual_queue = []; active_mac = []; active_mask = 0; completed = false }
