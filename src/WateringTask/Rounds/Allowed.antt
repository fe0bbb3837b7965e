-- ===== src/WateringTask/Rounds/Allowed.antt =====
-- What a round of `TaskWatering` of main/src/main.cpp does, and when.
use plant_watering.Prelude.{
  ℕ, ◌+◌, ◌-◌, ◌*◌, ◌≤◌, ◌<◌, ◌≡◌, ◌≢◌, ◌⊎◌, refl, Bool, true, false, not, ◌&&◌, ◌||◌, List, [],
  ◌∷◌, ◌++◌, ltb, leb, ◌==◌, if◌then◌else◌, arith, if_rule, not-false,
}
use plant_watering.WateringTask.{watering_window_open}
use plant_watering.WateringTask.Rounds.{
  TaskState, Reading, TaskAction, set_state, set_data_sync, process_one_manual, synchronize,
  handle_sleep_requests, water, send_workers_to_sleep_at, manual_round, watering_allowed,
  cycle_round, watering_round, manual_sync_interval_us,
}

-- The interval since the last cycle is over, if there was one since the automatic mode began.
abbrev pub Due : Reading → TaskState → Type 0
Due r s =
    s.previous_auto ≡ true
    → s.last_sync_us ≢ 0
    → r.data_sync_interval * 1000000 ≤ r.now_us - s.last_sync_us

-- What may be done: a watering by the clock only in the automatic mode, with a valid clock, within the
-- active hours, with no update under way, and not before the interval since the last cycle is over; a
-- manual one only in the manual mode. An automatic cycle synchronizes under the same interval, and only
-- if no update has begun in the padding before it.
abbrev pub Allowed : Reading → TaskState → TaskAction → Type 0
Allowed r s (water cycle_start utc) =
    (r.automatic ≡ true)
    × (r.clock_valid ≡ true)
    × (0 < r.now_utc)
    × (utc ≡ r.now_utc)
    × (cycle_start ≡ r.cycle_start_us)
    × (watering_window_open r.active_start r.active_end r.second_of_day ≡ true)
    × (r.updating_at_start ≡ false)
    × (r.updating_before_watering ≡ false)
    × Due r s
Allowed r s process_one_manual = (r.automatic ≡ false) × (r.updating_at_start ≡ false)
Allowed r s (send_workers_to_sleep_at wake_at) =
    (r.automatic ≡ true) × (wake_at ≡ r.watered_us + r.data_sync_interval * 1000000)
Allowed r s (synchronize at) =
    (r.updating_at_start ≡ false)
    × (r.updating_before_sync ≡ false)
    × (r.automatic ≡ true → (r.updating_after_padding ≡ false) × Due r s × (at ≡ r.cycle_start_us))
    × (r.automatic ≡ false
        → (r.manual_done ≡ false)
          × ((s.last_sync_us ≡ 0) ⊎ (manual_sync_interval_us ≤ r.now_us - s.last_sync_us)))
Allowed r s (set_state state) = Unit {0}
Allowed r s (set_data_sync last next) = Unit {0}
Allowed r s (handle_sleep_requests wake_at) = r.automatic ≡ true

abbrev pub AllAllowed : Reading → TaskState → List TaskAction → Type 0
AllAllowed r s [] = Unit {0}
AllAllowed r s (a ∷ actions) = Allowed r s a × AllAllowed r s actions

interval_over :
    (last entered now interval : ℕ)
    → entered ≡ last
    → last ≢ 0
    → (not (entered == 0) && ltb (now - entered) interval) ≡ false
    → interval ≤ now - last
interval_over last entered now interval same started over = ground arith

module _ (r : Reading) (s : TaskState) where
  abbrev Good : TaskState × List TaskAction → Type 0
  Good q = AllAllowed r s q.1

  manual_round-Good : r.updating_at_start ≡ false → r.automatic ≡ false → Good (manual_round r s)
  unfolding manual_round
  manual_round-Good quiet manual =
      if_rule Good r.manual_done (λ _. (tt, (tt, ((manual, quiet), tt))))
        (λ idle.
          if_rule Good
            (s.last_sync_us == 0 || leb manual_sync_interval_us (r.now_us - s.last_sync_us))
            (λ over.
              if_rule Good r.updating_before_sync (λ _. (tt, (tt, ((manual, quiet), tt))))
                (λ free.
                  let elapsed : (s.last_sync_us ≡ 0)
                      ⊎ (manual_sync_interval_us ≤ r.now_us - s.last_sync_us) =
                    ground (arith, over) in
                  let allowed : Allowed r s (synchronize r.now_us) = (
                    quiet,
                    free,
                    λ auto. absurd (ground (arith, manual, auto)),
                    λ _. (idle, elapsed),
                  ) in
                  (tt, (tt, ((manual, quiet), (tt, (allowed, (tt, tt))))))))
            (λ _. (tt, (tt, ((manual, quiet), tt)))))

  window_and : (a b c d : Bool) → a && b && (c && d) ≡ true → (a ≡ true) × (b ≡ true) × (c ≡ true)
  window_and a b c d h = ground arith

  cycle_round-Good :
      (entered : TaskState)
      → r.updating_at_start ≡ false
      → r.automatic ≡ true
      → Due r s
      → Good (cycle_round r entered)
  unfolding cycle_round
  cycle_round-Good entered quiet auto due =
      if_rule Good r.updating_before_sync (λ _. tt)
        (λ free.
          if_rule Good r.updating_after_padding (λ _. (tt, tt))
            (λ padded.
              let synced : Allowed r s (synchronize r.cycle_start_us) = (
                quiet,
                free,
                λ _. (padded, due, refl),
                λ manual. absurd (ground (arith, auto, manual)),
              ) in
              if_rule Good (watering_allowed r)
                (λ allowed.
                  let (valid, some_time, open_) =
                    window_and r.clock_valid (not (r.now_utc == 0))
                      (watering_window_open r.active_start r.active_end r.second_of_day)
                      (leb r.now_utc 4294967295) allowed in
                  let positive : 0 < r.now_utc = ground (arith, some_time) in
                  if_rule Good r.updating_before_watering (λ _. (tt, (synced, tt)))
                    (λ calm.
                      let watered : Allowed r s (water r.cycle_start_us r.now_utc) =
                        (auto, valid, positive, refl, refl, open_, quiet, calm, due) in
                      (tt, (synced, (tt, (watered, (tt, (tt, ((auto, refl), tt)))))))))
                (λ _. (tt, (synced, (tt, (tt, ((auto, refl), tt))))))))

  -- A round in the automatic mode, with the state and the calls from its beginning.
  auto_round-Good :
      (entered : TaskState) (entering : List TaskAction)
      → r.updating_at_start ≡ false
      → r.automatic ≡ true
      → ((actions : List TaskAction)
          → AllAllowed r s actions
          → AllAllowed r s (entering ++ actions))
      → (s.previous_auto ≡ true → entered.last_sync_us ≡ s.last_sync_us)
      → let interval_us = r.data_sync_interval * 1000000 in
        let wake_at = entered.last_sync_us + interval_us in
        Good (
          if not (entered.last_sync_us == 0) && ltb (r.now_us - entered.last_sync_us) interval_us
          then (
            entered,
            entering
                ++ (handle_sleep_requests wake_at
                    ∷ set_data_sync entered.last_sync_us wake_at
                    ∷ []),
          )
          else ((cycle_round r entered).0, entering ++ (cycle_round r entered).1))
  auto_round-Good entered entering quiet auto prefix same =
      let interval_us : ℕ = r.data_sync_interval * 1000000 in
      if_rule Good
        (not (entered.last_sync_us == 0) && ltb (r.now_us - entered.last_sync_us) interval_us)
        (λ _. prefix _ (auto, (tt, tt)))
        (λ over. prefix _ (
          cycle_round-Good entered quiet auto (λ was_auto started.
            interval_over s.last_sync_us entered.last_sync_us r.now_us interval_us (same was_auto)
              started over)))

  -- Whatever a round of the watering task reads: it waters by the clock only in the automatic mode, at
  -- a valid time within the active hours, with no update of a device under way at its beginning and
  -- right before the watering. It synchronizes with no update under way at its beginning and right
  -- before the synchronization, in the automatic mode also not after the padding. If the round before
  -- was automatic too and has a last cycle, neither happens before the interval since that cycle is
  -- over; in the manual mode, a synchronization needs an idle round and thirty seconds since the last
  -- one, if there was one. A round takes a manual request only in the manual mode, and the workers are
  -- sent to sleep until one interval after the end of the cycle.
  pub watering_round-AllAllowed : AllAllowed r s (watering_round r s).1
  unfolding watering_round
  watering_round-AllAllowed =
      if_rule Good r.updating_at_start (λ _. (tt, tt))
        (λ quiet.
          if_rule Good (not r.automatic)
            (λ manual. manual_round-Good quiet (ground (arith, manual)))
            (λ auto.
              auto_round-Good
                (if s.previous_auto then s else record s { last_sync_us = 0; previous_auto = true })
                (if s.previous_auto then [] else set_data_sync 0 0 ∷ []) quiet
                (not-false r.automatic auto)
                (λ actions good.
                  if_rule (λ l. AllAllowed r s (l ++ actions)) s.previous_auto (λ _. good)
                    (λ _. (tt, good)))
                (λ was_auto.
                  if_rule (λ (t : TaskState). t.last_sync_us ≡ s.last_sync_us) s.previous_auto
                    (λ _. refl) (λ h'. absurd (ground (arith, was_auto, h'))))))
