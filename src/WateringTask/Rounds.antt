-- ===== src/WateringTask/Rounds.antt =====
-- `TaskWatering` of main/src/main.cpp: one round of its loop. Times are microseconds since the start,
-- where 0 stands for no synchronization yet.
pub mod Allowed
use plant_watering.Prelude.{
  ℕ, ◌+◌, ◌-◌, ◌*◌, ◌≤◌, ◌<◌, ◌≡◌, ◌≢◌, refl, ◌⊎◌, Bool, true, false, not, ◌&&◌, ◌||◌, List, [],
  ◌∷◌, ◌++◌, ltb, leb, ◌==◌, if◌then◌else◌, arith, if_rule, not-false,
}
use plant_watering.Watering.Execute.{RuntimeState, ready, syncing, watering, sleeping, updating}
use plant_watering.WateringTask.{watering_window_open}

abbrev pub manual_sync_interval_us : ℕ
manual_sync_interval_us = 30000000

-- The variables of the loop that decide.
pub record TaskState : Type 0 where
  pub last_sync_us : ℕ
  pub previous_auto : Bool

-- What a round reads, in the order of the code. `updating...` is `otaIsActive() || workerOtaIsActive()`
-- at the beginning, before the runtime state changes, after the padding, and before the watering.
pub record Reading : Type 0 where
  pub updating_at_start : Bool
  pub automatic : Bool
  pub manual_done : Bool
  pub now_us : ℕ
  pub updating_before_sync : Bool
  pub data_sync_interval : ℕ
  pub active_start : ℕ
  pub active_end : ℕ
  pub updating_after_padding : Bool
  pub cycle_start_us : ℕ
  pub synced_us : ℕ
  pub now_utc : ℕ
  pub clock_valid : Bool
  pub second_of_day : ℕ
  pub updating_before_watering : Bool
  pub watered_us : ℕ

-- The calls of a round. `set_data_sync` is `setDataSyncRuntime`; `water` is `waterFreshWorkers`.
pub data TaskAction : Type 0 where
  set_state : RuntimeState → TaskAction
  set_data_sync : ℕ → ℕ → TaskAction
  process_one_manual : TaskAction
  synchronize : ℕ → TaskAction
  handle_sleep_requests : ℕ → TaskAction
  water : ℕ → ℕ → TaskAction
  send_workers_to_sleep_at : ℕ → TaskAction

-- The manual mode.
unfoldable pub manual_round : Reading → TaskState → TaskState × List TaskAction
manual_round r s =
    let manual = record s { previous_auto = false } in
    let calls : List TaskAction = set_state ready ∷ set_data_sync 0 0 ∷ process_one_manual ∷ [] in
    if r.manual_done
    then (manual, calls)
    else if s.last_sync_us == 0 || leb manual_sync_interval_us (r.now_us - s.last_sync_us)
    then (if r.updating_before_sync then (manual, calls) else (
      record manual { last_sync_us = r.synced_us },
      calls ++ (set_state syncing ∷ synchronize r.now_us ∷ set_state ready ∷ []),
    ))
    else (manual, calls)

-- Whether the clock and the hours allow the watering.
abbrev pub watering_allowed : Reading → Bool
watering_allowed r =
    let clock_ok = r.clock_valid && not (r.now_utc == 0) in
    clock_ok
    && (watering_window_open r.active_start r.active_end r.second_of_day
        && leb r.now_utc 4294967295)

-- The automatic mode, once a cycle is due.
unfoldable pub cycle_round : Reading → TaskState → TaskState × List TaskAction
unfolding watering_window_open
cycle_round r s =
    let synced = record s { last_sync_us = r.synced_us } in
    let wake_at = r.watered_us + r.data_sync_interval * 1000000 in
    let closing : List TaskAction =
      set_state sleeping
      ∷ set_data_sync r.synced_us wake_at
      ∷ send_workers_to_sleep_at wake_at
      ∷ [] in
    let done = record s { last_sync_us = r.watered_us } in
    if r.updating_before_sync
    then (s, [])
    else if r.updating_after_padding
    then (s, set_state syncing ∷ [])
    else if watering_allowed r
    then (if r.updating_before_watering
        then (synced, set_state syncing ∷ synchronize r.cycle_start_us ∷ [])
        else (
          done,
          set_state syncing
              ∷ synchronize r.cycle_start_us
              ∷ set_state watering
              ∷ water r.cycle_start_us r.now_utc
              ∷ closing,
        ))
    else (done, set_state syncing ∷ synchronize r.cycle_start_us ∷ closing)

unfoldable pub watering_round : Reading → TaskState → TaskState × List TaskAction
unfolding manual_round cycle_round
watering_round r s =
    let entered =
      if s.previous_auto then s else record s { last_sync_us = 0; previous_auto = true } in
    let entering : List TaskAction = if s.previous_auto then [] else set_data_sync 0 0 ∷ [] in
    let interval_us = r.data_sync_interval * 1000000 in
    let wake_at = entered.last_sync_us + interval_us in
    let (s', actions) = cycle_round r entered in
    if r.updating_at_start
    then (s, set_state updating ∷ [])
    else if not r.automatic
    then manual_round r s
    else if not (entered.last_sync_us == 0) && ltb (r.now_us - entered.last_sync_us) interval_us
    then (
      entered,
      entering ++ (handle_sleep_requests wake_at ∷ set_data_sync entered.last_sync_us wake_at ∷ []),
    )
    else (s', entering ++ actions)
