-- ===== src/WateringTask/Batch.antt =====
-- The batch of main/src/main.cpp: the pump, the waterings, and what is recorded of them.
use plant_watering.Prelude.{
  ℕ, suc, ◌≤◌, ◌<◌, ◌≡◌, ◌⊎◌, Bool, true, false, ◌||◌, List, [], ◌∷◌, ◌++◌, Option, some, ◌==◌,
  length,
}
use plant_watering.Settings.{WorkerTable, mark_dirty}
use plant_watering.Settings.History.Records.{AllRecorded}
use plant_watering.Prelude.Words.{u32_mod}
use plant_watering.Settings.History.{CompletedAutoWatering}
use plant_watering.Watering.{WateringState, water_command_body}
use plant_watering.Watering.Execute.{deadline_us, WorkerCall, send_command, mark_if}
use plant_watering.Watering.Execute.Returns.{any_match, any_past, reports_of}
use plant_watering.WateringTask.{
  AutoWaterRequest, Turn, PumpAction, pump_on, pump_off, execute, BatchRun, completion_of, Cycle,
  any_low,
}

-- The calls of a batch against its requests, from the turn `i`: the requests in their order, each once
-- and with a full tank before it, until all are done or the tank is low; a call ends well only if the
-- tank was not low when it began and the worker has reported just this mask; it sends the command of
-- its request once, and nothing with a low tank; and the completions are those of the calls that ended
-- well.
abbrev pub Ended : Turn → AutoWaterRequest → List WorkerCall → Bool → Type 0
Ended t r calls completed =
    (t.low_before ≡ false)
    × (completed ≡ true
        → (any_match r.mac r.pot_mask (reports_of t.call) ≡ true) × (t.call.tank_low ≡ false))
    × (t.call.tank_low ≡ true → calls ≡ [])
    × ((body : List ℕ)
        → water_command_body r.pot_mask r.durations ≡ some body
        → t.call.tank_low ≡ false
        → calls ≡ send_command r.mac body ∷ mark_if completed r.mac r.pot_mask)

pub data Runs (turn : ℕ → Turn)
    : ℕ → List AutoWaterRequest → List PumpAction → List CompletedAutoWatering → Type 0 where
  all_done : (i : ℕ) → Runs turn i [] [] []
  low : (i : ℕ) (rs : List AutoWaterRequest) → (turn i).low_before ≡ true → Runs turn i rs [] []
  last :
      (i : ℕ) (r : AutoWaterRequest) (rs : List AutoWaterRequest) (calls : List WorkerCall)
      (completed : Bool)
      → Ended (turn i) r calls completed
      → (turn i).low_after ≡ true
      → Runs turn i (r ∷ rs) (execute r calls completed ∷ []) (completion_of r completed ++ [])
  more :
      (i : ℕ) (r : AutoWaterRequest) (rs : List AutoWaterRequest) (calls : List WorkerCall)
      (completed : Bool) (actions : List PumpAction) (completions : List CompletedAutoWatering)
      → Ended (turn i) r calls completed
      → (turn i).low_after ≡ false
      → Runs turn (suc i) rs actions completions
      → Runs turn i
          (r ∷ rs)
          (execute r calls completed ∷ actions)
          (completion_of r completed ++ completions)

-- Each wait is polled until its deadline.
abbrev pub AllPolled : (ℕ → Turn) → ℕ → List AutoWaterRequest → Type 0
AllPolled turn i [] = Unit {0}
AllPolled turn i (r ∷ rs) =
    (any_past (deadline_us r.durations (turn i).call.started_us) (turn i).call.polls ≡ true)
    × AllPolled turn (suc i) rs

module _ (turn : ℕ → Turn) where
  abbrev Batches : ℕ → List AutoWaterRequest → Option BatchRun → Type 0
  Batches i rs o = (run : BatchRun) × (o ≡ some run) × Runs turn i rs run.actions run.completions

-- What the table has of the completions: with a time of the clock that fits 32 bits, each pot of a
-- completion has this time and nothing else has changed; otherwise the table stays.
abbrev pub Written : Cycle → List CompletedAutoWatering → WorkerTable → Type 0
Written c completions table =
    (0 < c.completed_utc
      → c.completed_utc < u32_mod
      → AllRecorded c.completed_utc completions c.table.workers table.workers)
    × ((c.completed_utc ≡ 0) ⊎ (u32_mod ≤ c.completed_utc) → table ≡ c.table)
    × ((table ≡ c.table) ⊎ (table ≡ mark_dirty c.table table.workers c.now_us))

-- What a cycle leaves alone, or does: the pump is on around the waterings, and only these are recorded.
abbrev pub Waters : Cycle → List AutoWaterRequest → List PumpAction → WorkerTable → Type 0
Waters c requests actions table =
    let primed_low = any_low c.low_while_priming || c.low_after_priming in
    (((length requests == 0 || c.low_at_start) ≡ true) × (actions ≡ []) × (table ≡ c.table))
    ⊎ ((c.low_at_start ≡ false)
        × (ran : List PumpAction) × (completions : List CompletedAutoWatering) × (actions
            ≡ pump_on ∷ (ran ++ pump_off ∷ []))
        × Written c completions table
        × (((primed_low ≡ true) × (ran ≡ []) × (completions ≡ []))
            ⊎ ((primed_low ≡ false) × Runs c.turn 0 requests ran completions)))

abbrev pub Cycles :
    Cycle → List AutoWaterRequest → Option (WateringState × List PumpAction × WorkerTable) → Type 0
Cycles c requests o =
    (s' : WateringState) × (actions : List PumpAction) × (table : WorkerTable) × (o
      ≡ some (s', actions, table))
    × Waters c requests actions table
