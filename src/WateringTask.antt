-- ===== src/WateringTask.antt =====
-- The automatic watering of main/src/main.cpp: which pots of which workers are watered in a cycle, the
-- batch under the pump, and how long the workers sleep. The correction of the soil reading by the
-- battery voltage is float arithmetic and a parameter.
pub mod Requests
pub mod Batch
pub mod Window
pub mod Sleep
pub mod Rounds
pub mod Commands
use plant_watering.Prelude.{
  ℕ, zero, suc, ◌+◌, ◌-◌, ◌/◌, ◌^◌, Bool, true, false, not, ◌&&◌, ◌||◌, List, [], ◌∷◌, ◌++◌, Option,
  none, some, min, max, ltb, leb, ◌==◌, if◌then◌else◌, length, get_or,
}
use plant_watering.Prelude.Bytes.{test_bit}
use plant_watering.Prelude.Loops.{for_range}
use plant_watering.Bluetooth.Message.{Mac}
use plant_watering.Bluetooth.Tlv.{type_cmd_sleep, field_sleep_sec, body_begin, tlv_append_u32}
use plant_watering.Nodes.{WorkerNode, find_node}
use plant_watering.Policy.AutoWatering.{pot_eligible}
use plant_watering.Settings.{WorkerConfig, WorkerTable, max_worker_count}
use plant_watering.Settings.History.{CompletedAutoWatering, record_completed_auto_watering_batch}
use plant_watering.Watering.{WateringState}
use plant_watering.Watering.Execute.{Surroundings, WorkerCall, watering_execute_worker}

-- `wateringWindowOpen`, on the active hours and the time of day.
unfoldable pub watering_window_open : ℕ → ℕ → ℕ → Bool
watering_window_open active_start active_end second_of_day =
    if leb active_start active_end
    then leb active_start second_of_day && leb second_of_day active_end
    else leb active_start second_of_day || leb second_of_day active_end

-- The part of `durations` below `durationCount`.
pub record AutoWaterRequest : Type 0 where
  pub mac : Mac
  pub pot_mask : ℕ
  pub durations : List ℕ

-- `mask |= 1u << pot`.
abbrev pub with_pot : ℕ → ℕ → ℕ
with_pot mask pot = if test_bit mask pot then mask else mask + 2 ^ pot

module _ (corrected_soil : ℕ → ℕ → ℕ) (now_utc : ℕ) where
  -- The question of the loop over the pots.
  abbrev pub wants_water : WorkerConfig → WorkerNode → ℕ → Bool
  wants_water worker node pot =
      let soil = get_or node.soils pot 0 in
      pot_eligible now_utc (get_or worker.last_auto_watering_utc_sec pot 0)
        (get_or worker.water_intervals pot 0) soil (corrected_soil node.battery_mv soil)
        (get_or worker.thresholds pot 0)

  -- One round of the loop over the pots.
  unfoldable pub choose_pot : WorkerConfig → WorkerNode → ℕ → AutoWaterRequest → AutoWaterRequest
  choose_pot worker node pot request =
      if wants_water worker node pot
      then record request {
        pot_mask = with_pot request.pot_mask pot;
        durations = request.durations ++ get_or worker.durations pot 0 ∷ [];
      }
      else request

  unfoldable pub choose_pots : WorkerConfig → WorkerNode → AutoWaterRequest
  unfolding choose_pot for_range
  choose_pots worker node =
      for_range (min worker.pot_count node.pot_count) 0 (choose_pot worker node)
        (record { mac = worker.mac; pot_mask = 0; durations = [] })

  -- One round of the loop over the workers: the request of a worker that has reported in this cycle.
  unfoldable pub request_of : List WorkerNode → ℕ → WorkerConfig → Option AutoWaterRequest
  unfolding find_node choose_pots
  request_of nodes cycle_start_us worker = elim (find_node nodes worker.mac) [
    | none ↦ none
    | some node ↦
        let request = choose_pots worker node in
        if ltb node.last_sync_us cycle_start_us
        then none
        else if request.pot_mask == 0
        then none
        else some request
  ]

  -- The loop over the workers.
  unfoldable pub collect_requests :
      List WorkerNode → ℕ → List WorkerConfig → List AutoWaterRequest → List AutoWaterRequest
  unfolding request_of
  collect_requests nodes cycle_start_us [] requests = requests
  collect_requests nodes cycle_start_us (worker ∷ workers) requests =
      let longer : List AutoWaterRequest = elim (request_of nodes cycle_start_us worker) [
        | none ↦ requests
        | some r ↦ if ltb (length requests) max_worker_count then requests ++ r ∷ [] else requests
      ] in
      collect_requests nodes cycle_start_us workers longer

-- What a turn of the batch finds: `isTankLow()` before and after, and what the call of
-- `wateringExecuteWorker` meets.
pub record Turn : Type 0 where
  pub low_before : Bool
  pub call : Surroundings
  pub low_after : Bool

pub data PumpAction : Type 0 where
  pump_on pump_off : PumpAction
  execute : AutoWaterRequest → List WorkerCall → Bool → PumpAction

-- What the batch leaves: the state of the waterings, its calls in order, and the completions.
pub record BatchRun : Type 0 where
  pub state : WateringState
  pub actions : List PumpAction
  pub completions : List CompletedAutoWatering

abbrev pub completion_of : AutoWaterRequest → Bool → List CompletedAutoWatering
completion_of r completed =
    if completed then record { mac = r.mac; pot_mask = r.pot_mask } ∷ [] else []

-- The turn behind a call, in front of the rest of the batch.
abbrev pub after_call : AutoWaterRequest → List WorkerCall → Bool → BatchRun → BatchRun
after_call r calls completed rest = record rest {
  actions = execute r calls completed ∷ rest.actions;
  completions = completion_of r completed ++ rest.completions;
}

-- The loop over the requests, from the one with the index `i`. `none`: a call has not returned.
unfoldable pub water_batch :
    (ℕ → Turn) → ℕ → List AutoWaterRequest → WateringState → Option BatchRun
unfolding watering_execute_worker
water_batch turn i [] s = some (record { state = s; actions = []; completions = [] })
water_batch turn i (r ∷ rs) s =
    if (turn i).low_before
    then some (record { state = s; actions = []; completions = [] })
    else elim (watering_execute_worker s r.mac r.pot_mask r.durations true (turn i).call) [
      | none ↦ none
      | some (s', calls, completed) ↦
          let stopped : BatchRun = record { state = s'; actions = []; completions = [] } in
          if (turn i).low_after
          then some (after_call r calls completed stopped)
          else elim (water_batch turn (suc i) rs s') [
            | none ↦ none
            | some rest ↦ some (after_call r calls completed rest)
          ]
    ]

-- What a cycle finds besides: `isTankLow()` before the pump is switched on, in each round while the
-- pipe fills, and behind them; and the table of workers, the clock and the timer at the end.
pub record Cycle : Type 0 where
  pub low_at_start : Bool
  pub low_while_priming : List Bool
  pub low_after_priming : Bool
  pub turn : ℕ → Turn
  pub table : WorkerTable
  pub completed_utc : ℕ
  pub now_us : ℕ

abbrev pub any_low : List Bool → Bool
any_low [] = false
any_low (b ∷ bs) = b || any_low bs

-- The history after the completions, where the clock has a time that fits.
unfoldable pub record_completions_at : Cycle → List CompletedAutoWatering → WorkerTable
unfolding record_completed_auto_watering_batch
record_completions_at c completions =
    if not (length completions == 0)
      && (not (c.completed_utc == 0) && leb c.completed_utc 4294967295)
    then record_completed_auto_watering_batch c.table completions c.completed_utc c.now_us
    else c.table

-- `waterFreshWorkers` on the requests: the state of the waterings, the calls, and the table.
unfoldable pub water_requests :
    Cycle
    → List AutoWaterRequest
    → WateringState
    → Option (WateringState × List PumpAction × WorkerTable)
unfolding water_batch record_completions_at
water_requests c requests s =
    let primed_low = any_low c.low_while_priming || c.low_after_priming in
    if length requests == 0
    then some (s, [], c.table)
    else if c.low_at_start
    then some (s, [], c.table)
    else if primed_low
    then some (s, pump_on ∷ pump_off ∷ [], c.table)
    else elim (water_batch c.turn 0 requests s) [
      | none ↦ none
      | some run ↦ some (
        run.state,
        pump_on ∷ (run.actions ++ pump_off ∷ []),
        record_completions_at c run.completions,
      )
    ]

unfoldable pub water_fresh_workers :
    (ℕ → ℕ → ℕ)
    → Cycle
    → List WorkerConfig
    → List WorkerNode
    → ℕ
    → ℕ
    → WateringState
    → Option (WateringState × List PumpAction × WorkerTable)
unfolding water_requests collect_requests
water_fresh_workers corrected_soil c workers nodes cycle_start_us now_utc s =
    water_requests c (collect_requests corrected_soil now_utc nodes cycle_start_us workers []) s

-- The seconds of `sendWorkerToSleepAt`, on times in microseconds. The cast to 32 bits drops nothing
-- as long as the time to wake is less than 136 years off.
unfoldable pub sleep_seconds : ℕ → ℕ → ℕ
sleep_seconds wake_at_us now_us =
    let remaining = wake_at_us - now_us in
    max (if ltb now_us wake_at_us then (remaining + 999999) / 1000000 else 60) 60

-- The command of `sendWorkerToSleepAt`.
unfoldable pub sleep_command_body : ℕ → ℕ → Option (List ℕ)
unfolding sleep_seconds
sleep_command_body wake_at_us now_us =
    tlv_append_u32 (body_begin type_cmd_sleep) field_sleep_sec (sleep_seconds wake_at_us now_us)
