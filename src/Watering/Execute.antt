-- ===== src/Watering/Execute.antt =====
-- `wateringExecuteWorker` and `wateringProcessOneManual` of main/src/watering_manager.cpp: the
-- command, and the wait for the worker's report. Reports come from the scan callback, so they can
-- arrive while the command is sent and between two rounds of the loop. Times are microseconds.
pub mod Returns
use plant_watering.Prelude.{
  ℕ, ◌+◌, ◌*◌, ◌≡◌, refl, ap, Bool, true, false, not, ◌&&◌, ◌||◌, inl, inr, List, [], ◌∷◌, ◌++◌,
  Option, none, some, leb, ◌==◌, if◌then◌else◌, arith, Bool-cases, Option-cases, if_rule,
}
use plant_watering.Prelude.Bytes.{bytes_eq}
use plant_watering.Bluetooth.Message.{Mac}
use plant_watering.Watering.{
  WateringState, begin_completion_wait, end_completion_wait, notify_completed, sum,
  water_command_body, water_completion_margin_seconds,
}

-- What the worker of an address reports about a mask.
pub record Report : Type 0 where
  pub mac : Mac
  pub mask : ℕ

-- One round of the loop: the reports since the last one, the time, and `isTankLow()`.
pub record Poll : Type 0 where
  pub reports : List Report
  pub now : ℕ
  pub tank_low : Bool

-- What the surroundings do in one call: `btMainSendCommand` returns `transmissionStarted` and
-- `startedUs`; the last reports come after the loop.
pub record Surroundings : Type 0 where
  pub tank_low : Bool
  pub transmission_started : Bool
  pub started_us : ℕ
  pub during_send : List Report
  pub polls : List Poll
  pub late : List Report

unfoldable pub notify_all : WateringState → List Report → WateringState
notify_all s [] = s
notify_all s (r ∷ rs) = notify_all (notify_completed s r.mac r.mask) rs

-- The loop. `none`: it has not ended after these rounds.
unfoldable pub wait_loop : Bool → ℕ → WateringState → List Poll → Option WateringState
wait_loop abort_on_low_tank deadline s [] = none
wait_loop abort_on_low_tank deadline s (p ∷ ps) =
    let s' = notify_all s p.reports in
    let rest = wait_loop abort_on_low_tank deadline s' ps in
    if s'.completed || leb deadline p.now
    then some s'
    else if abort_on_low_tank && p.tank_low
    then some s'
    else rest

abbrev pub deadline_us : List ℕ → ℕ → ℕ
deadline_us durations started =
    started + (sum durations + water_completion_margin_seconds) * 1000000

-- The calls of the Bluetooth side: `btMainSendCommand` and `btMainMarkNodeWatered`.
pub data WorkerCall : Type 0 where
  send_command : Mac → List ℕ → WorkerCall
  mark_node_watered : Mac → ℕ → WorkerCall

abbrev pub mark_if : Bool → Mac → ℕ → List WorkerCall
mark_if completed mac mask = if completed then mark_node_watered mac mask ∷ [] else []

-- The state afterwards, the calls in their order, and the answer; `none` while the call has not
-- returned.
unfoldable pub watering_execute_worker :
    WateringState
    → Mac
    → ℕ
    → List ℕ
    → Bool
    → Surroundings
    → Option (WateringState × List WorkerCall × Bool)
watering_execute_worker s mac mask durations abort_on_low_tank e =
    elim (water_command_body mask durations) [
      | none ↦ some (s, [], false)
      | some body ↦
          let sent = notify_all (begin_completion_wait mac mask s) e.during_send in
          if abort_on_low_tank && e.tank_low
          then some (s, [], false)
          else if not e.transmission_started
          then some (end_completion_wait sent, send_command mac body ∷ [], false)
          else elim (wait_loop abort_on_low_tank (deadline_us durations e.started_us) sent
              e.polls) [
                | none ↦ none
                | some s' ↦
                    let last = notify_all s' e.late in
                    some (
                      end_completion_wait last,
                      send_command mac body ∷ mark_if last.completed mac mask,
                      last.completed,
                    )
              ]
    ]

-- `State` of main/include/config.h.
pub data RuntimeState : Type 0 where
  ready syncing watering sleeping updating : RuntimeState

-- The queue moves on before the call. The answers are the calls of `setRuntimeState`, in order, and
-- whether there was a request.
unfoldable pub watering_process_one_manual :
    WateringState → Surroundings → Option (WateringState × List RuntimeState × Bool)
watering_process_one_manual s e = elim s.manual_queue [
  | [] ↦ some (s, [], false)
  | r ∷ rest ↦
      elim (watering_execute_worker (record s { manual_queue = rest }) r.mac r.pot_mask r.durations
        false e) [
          | none ↦ none
          | some (s', calls, completed) ↦ some (s', watering ∷ ready ∷ [], true)
        ]
]
