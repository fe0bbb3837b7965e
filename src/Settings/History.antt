-- ===== src/Settings/History.antt =====
-- When the pots were last watered automatically: `recordCompletedAutoWateringBatch` and
-- `rebaseLastAutoWateringTimestamps` of main/src/settings.cpp.
pub mod Records
use plant_watering.Prelude.{
  ℕ, ◌+◌, ◌≤◌, ◌<◌, ◌≡◌, refl, sym, ◌∙◌, ap, Bool, true, false, ◌||◌, ◌⊎◌, subst, List, [], ◌∷◌,
  ltb, leb, ◌==◌, if◌then◌else◌, length, set, get_or, get_or-set_self, get_or-set_ne, length-set,
  arith, Bool-cases, if_rule, ==_iff, inl, inr,
}
use plant_watering.Prelude.Bytes.{bytes_eq}
use plant_watering.Prelude.Loops.{for_range, for_range_inv}
use plant_watering.Prelude.Words.{u32_mod}
use plant_watering.Bluetooth.Message.{Mac}
use plant_watering.Policy.AutoWatering.{apply_completed}
use plant_watering.Policy.ClockMath.{rebase_timestamp_preserving_age, KeepsAge, rebase-KeepsAge}
use plant_watering.Settings.{WorkerConfig, WorkerTable, mark_dirty}

pub record CompletedAutoWatering : Type 0 where
  pub mac : Mac
  pub pot_mask : ℕ

-- The workers with the history of the one that `findWorkerLocked` finds changed, and whether it
-- did change.
unfoldable pub record_completion :
    List WorkerConfig → CompletedAutoWatering → ℕ → List WorkerConfig × Bool
record_completion [] c completed = ([], false)
record_completion (w ∷ ws) c completed =
    let (history, changed) =
      apply_completed w.last_auto_watering_utc_sec w.pot_count c.pot_mask completed in
    let (ws', later) = record_completion ws c completed in
    if bytes_eq w.mac c.mac
    then (record w { last_auto_watering_utc_sec = history } ∷ ws, changed)
    else (w ∷ ws', later)

-- The loop over the completions.
unfoldable pub record_completions :
    List WorkerConfig → List CompletedAutoWatering → ℕ → List WorkerConfig × Bool
record_completions ws [] completed = (ws, false)
record_completions ws (c ∷ cs) completed =
    let (ws', changed) = record_completion ws c completed in
    let (ws'', later) = record_completions ws' cs completed in (ws'', changed || later)

unfoldable pub record_completed_auto_watering_batch :
    WorkerTable → List CompletedAutoWatering → ℕ → ℕ → WorkerTable
record_completed_auto_watering_batch t cs completed now =
    if length cs == 0 || completed == 0
    then t
    else (let (ws, changed) = record_completions t.workers cs completed in
        if changed then mark_dirty t ws now else t)

-- The body of the loop over the pots.
abbrev pub rebase_pot : ℕ → ℕ → ℕ → List ℕ × Bool → List ℕ × Bool
rebase_pot old_now new_now pot (history, changed) =
    let previous = get_or history pot 0 in
    let next = rebase_timestamp_preserving_age old_now new_now previous in
    if next == previous then (history, changed) else (set history pot next, true)

unfoldable pub rebase_history : ℕ → ℕ → ℕ → List ℕ → List ℕ × Bool
unfolding for_range
rebase_history old_now new_now pot_count history =
    for_range pot_count 0 (rebase_pot old_now new_now) (history, false)

unfoldable pub rebase_workers : ℕ → ℕ → List WorkerConfig → List WorkerConfig × Bool
unfolding rebase_history
rebase_workers old_now new_now [] = ([], false)
rebase_workers old_now new_now (w ∷ ws) =
    let (history, changed) =
      rebase_history old_now new_now w.pot_count w.last_auto_watering_utc_sec in
    let (ws', later) = rebase_workers old_now new_now ws in
    (record w { last_auto_watering_utc_sec = history } ∷ ws', changed || later)

unfoldable pub rebase_last_auto_watering_timestamps : WorkerTable → ℕ → ℕ → ℕ → WorkerTable
unfolding rebase_workers
rebase_last_auto_watering_timestamps t old_now new_now now =
    if new_now == 0 || leb u32_mod new_now
    then t
    else (let (ws, changed) = rebase_workers old_now new_now t.workers in
        if changed then mark_dirty t ws now else t)

-- The pots below `i` are moved, the others are not.
record Rebased (old_now new_now : ℕ) (before : List ℕ) (i : ℕ) (s : List ℕ × Bool) : Type 0 where
  size : length s.0 ≡ length before
  entry :
      (j : ℕ)
      → get_or s.0 j 0 ≡ (
          if ltb j i
          then rebase_timestamp_preserving_age old_now new_now (get_or before j 0)
          else get_or before j 0)
  unchanged : s.1 ≡ false → s.0 ≡ before

rebase_pot-Rebased :
    (old_now new_now : ℕ) (before : List ℕ) (i : ℕ) (s : List ℕ × Bool)
    → i < length before
    → Rebased old_now new_now before i s
    → Rebased old_now new_now before (i + 1) (rebase_pot old_now new_now i s)
rebase_pot-Rebased old_now new_now before i (history, changed) h r =
    let moved = rebase_timestamp_preserving_age old_now new_now in
    let here : get_or history i 0 ≡ get_or before i 0 = ground (arith, r.entry i) in
    if_rule (Rebased old_now new_now before (i + 1))
      (moved (get_or history i 0) == get_or history i 0)
      (λ same. record {
        size = r.size;
        entry = λ j. elim (Bool-cases (j == i)) [
          | inl e ↦
              let at : j ≡ i = (==_iff j i).0 e in
              let kept : get_or history i 0 ≡ moved (get_or before i 0) =
                sym ((==_iff (moved (get_or history i 0)) (get_or history i 0)).0 same)
                ∙ ap moved here in
              rw at (ground (arith, kept))
          | inr e ↦ ground (arith, r.entry j)
        ];
        unchanged = r.unchanged;
      })
      (λ differs. record {
        size = length-set history i (moved (get_or history i 0)) ∙ r.size;
        entry = λ j. elim (Bool-cases (j == i)) [
          | inl e ↦
              let at : j ≡ i = (==_iff j i).0 e in
              rw
                (
                  at,
                  get_or-set_self history i (moved (get_or history i 0)) 0
                      (omega (arith, r.size, h)),
                )
                (ground (arith, ap moved here))
          | inr e ↦
              rw (get_or-set_ne history i j (moved (get_or history i 0)) 0 (ground arith))
                (ground (arith, r.entry j))
        ];
        unchanged = λ e. ground arith;
      })

-- After the clock is set, every pot that is configured has the time that keeps its age, no other
-- entry has changed, and where no change is reported there is none.
pub rebase_history_exact :
    (old_now new_now pot_count : ℕ) (history : List ℕ)
    → pot_count ≤ length history
    → let (moved, changed) = rebase_history old_now new_now pot_count history in
      (length moved ≡ length history)
      × ((j : ℕ)
          → get_or moved j 0 ≡ (
              if ltb j pot_count
              then rebase_timestamp_preserving_age old_now new_now (get_or history j 0)
              else get_or history j 0))
      × (changed ≡ false → moved ≡ history)
unfolding rebase_history
rebase_history_exact old_now new_now pot_count history h =
    let r =
      for_range_inv (Rebased old_now new_now history) (rebase_pot old_now new_now) pot_count 0
        pot_count (history, false)
        (λ k t lo hi r. rebase_pot-Rebased old_now new_now history k t (omega (arith, h, hi)) r)
        (omega arith) (record { size = refl; entry = λ j. ground arith; unchanged = λ e. refl }) in
    (r.size, r.entry, r.unchanged)

-- How a worker's history follows the clock: each configured pot keeps the age of its last watering,
-- the other entries and the rest of the worker stay.
pub record Follows (old_now new_now : ℕ) (w w' : WorkerConfig) : Type 0 where
  pub pots :
      (j : ℕ)
      → j < w.pot_count
      → KeepsAge old_now new_now
          (get_or w.last_auto_watering_utc_sec j 0)
          (get_or w'.last_auto_watering_utc_sec j 0)
  pub others :
      (j : ℕ)
      → w.pot_count ≤ j
      → get_or w'.last_auto_watering_utc_sec j 0 ≡ get_or w.last_auto_watering_utc_sec j 0
  pub rest : w' ≡ record w { last_auto_watering_utc_sec = w'.last_auto_watering_utc_sec }

-- One worker for one, in their order.
abbrev pub AllFollow : ℕ → ℕ → List WorkerConfig → List WorkerConfig → Type 0
AllFollow old_now new_now [] [] = Unit {0}
AllFollow old_now new_now [] (w' ∷ ws') = ⊥
AllFollow old_now new_now (w ∷ ws) [] = ⊥
AllFollow old_now new_now (w ∷ ws) (w' ∷ ws') =
    Follows old_now new_now w w' × AllFollow old_now new_now ws ws'

-- Every history has an entry for each configured pot.
abbrev pub AllCovered : List WorkerConfig → Type 0
AllCovered [] = Unit {0}
AllCovered (w ∷ ws) = (w.pot_count ≤ length w.last_auto_watering_utc_sec) × AllCovered ws

rebase_history-Follows :
    (old_now new_now : ℕ) (w : WorkerConfig)
    → w.pot_count ≤ length w.last_auto_watering_utc_sec
    → Follows old_now new_now w (record w {
      last_auto_watering_utc_sec =
          (rebase_history old_now new_now w.pot_count w.last_auto_watering_utc_sec).0;
    })
rebase_history-Follows old_now new_now w h =
    let (size, entry, same) =
      rebase_history_exact old_now new_now w.pot_count w.last_auto_watering_utc_sec h in
    record {
      pots = λ j below.
          let here = entry j in
          subst (KeepsAge old_now new_now (get_or w.last_auto_watering_utc_sec j 0))
            (sym (ground (arith, here, below)))
            (rebase-KeepsAge old_now new_now (get_or w.last_auto_watering_utc_sec j 0));
      others = λ j above. let here = entry j in ground (arith, here, above);
      rest = refl;
    }

rebase_workers-AllFollow :
    (old_now new_now : ℕ) (ws : List WorkerConfig)
    → AllCovered ws
    → AllFollow old_now new_now ws (rebase_workers old_now new_now ws).0
      × ((rebase_workers old_now new_now ws).1 ≡ false → (rebase_workers old_now new_now ws).0 ≡ ws)
unfolding rebase_workers
rebase_workers-AllFollow old_now new_now [] h = (tt, λ _. refl)
rebase_workers-AllFollow old_now new_now (w ∷ ws) (here, later) =
    let (follow, same) = rebase_workers-AllFollow old_now new_now ws later in
    let (size, entry, kept) =
      rebase_history_exact old_now new_now w.pot_count w.last_auto_watering_utc_sec here in
    (
      (rebase_history-Follows old_now new_now w here, follow),
      λ quiet i.
          record w { last_auto_watering_utc_sec = kept (ground (arith, quiet)) i }
          ∷ same (ground (arith, quiet)) i,
    )

-- After the clock is set to a time that fits 32 bits, every configured pot of every worker keeps the
-- age of its last automatic watering as far as the new time reaches back, and has the first second
-- for one that is older; never stays never, and a watering of the future is taken as one of now.
-- Nothing else of the workers changes, and the table either stays as it is or is marked as changed. A
-- time of 0 or one that does not fit changes nothing.
pub rebase_last_auto_watering_timestamps-AllFollow :
    (t : WorkerTable) (old_now new_now now : ℕ)
    → AllCovered t.workers
    → let t' = rebase_last_auto_watering_timestamps t old_now new_now now in
      (0 < new_now
        → new_now < u32_mod
        → AllFollow old_now new_now t.workers t'.workers
          × ((t' ≡ t) ⊎ (t' ≡ mark_dirty t t'.workers now)))
      × ((new_now ≡ 0) ⊎ (u32_mod ≤ new_now) → t' ≡ t)
unfolding rebase_last_auto_watering_timestamps
rebase_last_auto_watering_timestamps-AllFollow t old_now new_now now covered =
    let rebased = rebase_workers old_now new_now t.workers in
    let (follow, same) = rebase_workers-AllFollow old_now new_now t.workers covered in
    if_rule Goal (new_now == 0 || leb u32_mod new_now)
      (λ refused. (λ some_time fits. absurd (ground (arith, refused, some_time, fits)), λ _. refl))
      (λ taken. (
        λ _ _.
            if_rule
              (λ (t' : WorkerTable).
                AllFollow old_now new_now t.workers t'.workers
                × ((t' ≡ t) ⊎ (t' ≡ mark_dirty t t'.workers now)))
              rebased.1 (λ _. (follow, inr refl))
              (λ quiet.
                (subst (AllFollow old_now new_now t.workers) (same quiet) follow, inl refl)),
        λ bad. absurd (ground (arith, taken, bad)),
      ))
  where
    Goal : WorkerTable → Type 0
    Goal t' =
        (0 < new_now
          → new_now < u32_mod
          → AllFollow old_now new_now t.workers t'.workers
            × ((t' ≡ t) ⊎ (t' ≡ mark_dirty t t'.workers now)))
        × ((new_now ≡ 0) ⊎ (u32_mod ≤ new_now) → t' ≡ t)
