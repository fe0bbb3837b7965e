-- ===== src/Settings/History/Records.antt =====
-- What `recordCompletedAutoWateringBatch` of main/src/settings.cpp writes, over all workers.
use plant_watering.Prelude.{
  ℕ, ◌≡◌, ◌≢◌, refl, sym, subst, ap, ◌∙◌, ◌⊎◌, inl, inr, Bool, false, ◌&&◌, ◌||◌, List, [], ◌∷◌,
  ltb, ◌==◌, if◌then◌else◌, length, get_or, min, arith, if_rule, Bool-cases,
}
use plant_watering.Prelude.Bytes.{bytes_eq, bytes_eq_iff, test_bit}
use plant_watering.Bluetooth.Message.{Mac}
use plant_watering.Policy.AutoWatering.{apply_completed_exact, apply_completed_unchanged}
use plant_watering.Settings.{WorkerConfig, WorkerTable, mark_dirty}
use plant_watering.Settings.Validity.{Absent, AllWorkers}
use plant_watering.Settings.History.{
  CompletedAutoWatering, record_completion, record_completions,
  record_completed_auto_watering_batch,
}

-- Whether some completion names a pot of the worker with the address.
abbrev pub names_pot : List CompletedAutoWatering → Mac → ℕ → Bool
names_pot [] mac pot = false
names_pot (c ∷ cs) mac pot =
    let rest = names_pot cs mac pot in (bytes_eq mac c.mac && test_bit c.pot_mask pot) || rest

-- The time stands at exactly the worker's pots that a completion names; nothing else has changed.
pub record Recorded (completed : ℕ) (cs : List CompletedAutoWatering) (w w' : WorkerConfig)
    : Type 0 where
  pub entry :
      (pot : ℕ)
      → get_or w'.last_auto_watering_utc_sec pot 0 ≡ (
          if ltb pot (min w.pot_count 16) && names_pot cs w.mac pot
          then completed
          else get_or w.last_auto_watering_utc_sec pot 0)
  pub size : length w'.last_auto_watering_utc_sec ≡ length w.last_auto_watering_utc_sec
  pub rest : w' ≡ record w { last_auto_watering_utc_sec = w'.last_auto_watering_utc_sec }

-- One worker for one, in their order.
abbrev pub AllRecorded :
    ℕ → List CompletedAutoWatering → List WorkerConfig → List WorkerConfig → Type 0
AllRecorded completed cs [] [] = Unit {0}
AllRecorded completed cs [] (w' ∷ ws') = ⊥
AllRecorded completed cs (w ∷ ws) [] = ⊥
AllRecorded completed cs (w ∷ ws) (w' ∷ ws') =
    Recorded completed cs w w' × AllRecorded completed cs ws ws'

-- Histories of sixteen entries, and no address twice.
abbrev AllTidy : List WorkerConfig → Type 0
AllTidy [] = Unit {0}
AllTidy (w ∷ ws) = (length w.last_auto_watering_utc_sec ≡ 16) × Absent w.mac ws × AllTidy ws

AllWorkers-AllTidy : (ws : List WorkerConfig) → AllWorkers ws → AllTidy ws
AllWorkers-AllTidy [] v = tt
AllWorkers-AllTidy (w ∷ ws) (v, apart, vs) =
    let (a, b, c, d) = v.sized in (d, apart, AllWorkers-AllTidy ws vs)

-- A worker that no completion is about.
same-Recorded :
    (completed : ℕ) (c : CompletedAutoWatering) (w : WorkerConfig)
    → bytes_eq w.mac c.mac ≡ false
    → Recorded completed (c ∷ []) w w
same-Recorded completed c w other = record {
  entry = λ pot. ground (arith, other);
  size = refl;
  rest = refl;
}

Absent-AllRecorded :
    (completed : ℕ) (c : CompletedAutoWatering) (ws : List WorkerConfig)
    → Absent c.mac ws
    → AllRecorded completed (c ∷ []) ws ws
Absent-AllRecorded completed c [] h = tt
Absent-AllRecorded completed c (w ∷ ws) (h, hs) =
    let other : bytes_eq w.mac c.mac ≡ false = elim (Bool-cases (bytes_eq w.mac c.mac)) [
      | inl e ↦ absurd (h ((bytes_eq_iff w.mac c.mac).0 e))
      | inr e ↦ e
    ] in
    (same-Recorded completed c w other, Absent-AllRecorded completed c ws hs)

record_completion-AllRecorded :
    (ws : List WorkerConfig) (c : CompletedAutoWatering) (completed : ℕ)
    → completed ≢ 0
    → AllTidy ws
    → AllRecorded completed (c ∷ []) ws (record_completion ws c completed).0
      × ((record_completion ws c completed).1 ≡ false → (record_completion ws c completed).0 ≡ ws)
unfolding record_completion
record_completion-AllRecorded [] c completed nonzero t = (tt, λ _. refl)
record_completion-AllRecorded (w ∷ ws) c completed nonzero (size, apart, ts) =
    let old = w.last_auto_watering_utc_sec in
    let (entry, size', _) =
      apply_completed_exact old w.pot_count c.pot_mask completed size nonzero in
    let kept = apply_completed_unchanged old w.pot_count c.pot_mask completed size nonzero in
    let (later, same) = record_completion-AllRecorded ws c completed nonzero ts in
    if_rule
      (λ (r : List WorkerConfig × Bool).
        AllRecorded completed (c ∷ []) (w ∷ ws) r.0 × (r.1 ≡ false → r.0 ≡ w ∷ ws))
      (bytes_eq w.mac c.mac)
      (λ about. (
        (
          record {
            entry = λ pot. let here = entry pot in ground (arith, here, about);
            size = size' ∙ sym size;
            rest = refl;
          },
          Absent-AllRecorded completed c ws
              (subst (λ m. Absent m ws) ((bytes_eq_iff w.mac c.mac).0 about) apart),
        ),
        λ quiet i. record w { last_auto_watering_utc_sec = kept quiet i } ∷ ws,
      ))
      (λ other. ((same-Recorded completed c w other, later), λ quiet i. w ∷ same quiet i))

Recorded-Absent :
    (completed : ℕ) (cs : List CompletedAutoWatering) (ws ws' : List WorkerConfig) (mac : Mac)
    → AllRecorded completed cs ws ws'
    → Absent mac ws
    → Absent mac ws'
Recorded-Absent completed cs [] [] mac r h = tt
Recorded-Absent completed cs [] (w' ∷ ws') mac r h = absurd r
Recorded-Absent completed cs (w ∷ ws) [] mac r h = absurd r
Recorded-Absent completed cs (w ∷ ws) (w' ∷ ws') mac (r, rs) (h, hs) = (
  λ e. h (sym (ap (λ (x : WorkerConfig). x.mac) r.rest) ∙ e),
  Recorded-Absent completed cs ws ws' mac rs hs,
)

Recorded-AllTidy :
    (completed : ℕ) (cs : List CompletedAutoWatering) (ws ws' : List WorkerConfig)
    → AllRecorded completed cs ws ws'
    → AllTidy ws
    → AllTidy ws'
Recorded-AllTidy completed cs [] [] r t = tt
Recorded-AllTidy completed cs [] (w' ∷ ws') r t = absurd r
Recorded-AllTidy completed cs (w ∷ ws) [] r t = absurd r
Recorded-AllTidy completed cs (w ∷ ws) (w' ∷ ws') (r, rs) (size, apart, ts) = (
  r.size ∙ size,
  subst (λ m. Absent m ws') (sym (ap (λ (x : WorkerConfig). x.mac) r.rest))
      (Recorded-Absent completed cs ws ws' w.mac rs apart),
  Recorded-AllTidy completed cs ws ws' rs ts,
)

-- A completion, and then the others.
Recorded-cons :
    (completed : ℕ) (c : CompletedAutoWatering) (cs : List CompletedAutoWatering)
    (w w' w'' : WorkerConfig)
    → Recorded completed (c ∷ []) w w'
    → Recorded completed cs w' w''
    → Recorded completed (c ∷ cs) w w''
Recorded-cons completed c cs w w' w'' r s =
    let pots = ap (λ (x : WorkerConfig). x.pot_count) r.rest in
    let named : (pot : ℕ) → names_pot cs w'.mac pot ≡ names_pot cs w.mac pot =
      λ pot. ap (λ (x : WorkerConfig). names_pot cs x.mac pot) r.rest in
    record {
      entry = λ pot.
          let first = r.entry pot in
          let second = s.entry pot in
          let name = named pot in ground (arith, first, second, pots, name);
      size = s.size ∙ r.size;
      rest =
          s.rest
          ∙ ap
              (λ (x : WorkerConfig). record x {
                last_auto_watering_utc_sec = w''.last_auto_watering_utc_sec;
              })
              r.rest;
    }

AllRecorded-cons :
    (completed : ℕ) (c : CompletedAutoWatering) (cs : List CompletedAutoWatering)
    (ws ws' ws'' : List WorkerConfig)
    → AllRecorded completed (c ∷ []) ws ws'
    → AllRecorded completed cs ws' ws''
    → AllRecorded completed (c ∷ cs) ws ws''
AllRecorded-cons completed c cs [] [] [] r s = tt
AllRecorded-cons completed c cs [] [] (w'' ∷ ws'') r s = absurd s
AllRecorded-cons completed c cs [] (w' ∷ ws') ws'' r s = absurd r
AllRecorded-cons completed c cs (w ∷ ws) [] ws'' r s = absurd r
AllRecorded-cons completed c cs (w ∷ ws) (w' ∷ ws') [] r s = absurd s
AllRecorded-cons completed c cs (w ∷ ws) (w' ∷ ws') (w'' ∷ ws'') (r, rs) (s, ss) =
    (Recorded-cons completed c cs w w' w'' r s, AllRecorded-cons completed c cs ws ws' ws'' rs ss)

pub nothing-AllRecorded : (completed : ℕ) (ws : List WorkerConfig) → AllRecorded completed [] ws ws
nothing-AllRecorded completed [] = tt
nothing-AllRecorded completed (w ∷ ws) = (
  record { entry = λ pot. ground arith; size = refl; rest = refl },
  nothing-AllRecorded completed ws,
)

record_completions-AllRecorded :
    (ws : List WorkerConfig) (cs : List CompletedAutoWatering) (completed : ℕ)
    → completed ≢ 0
    → AllTidy ws
    → AllRecorded completed cs ws (record_completions ws cs completed).0
      × ((record_completions ws cs completed).1 ≡ false
          → (record_completions ws cs completed).0 ≡ ws)
unfolding record_completions
record_completions-AllRecorded ws [] completed nonzero t =
    (nothing-AllRecorded completed ws, λ _. refl)
record_completions-AllRecorded ws (c ∷ cs) completed nonzero t =
    let ws' = (record_completion ws c completed).0 in
    let (first, kept) = record_completion-AllRecorded ws c completed nonzero t in
    let (later, same) =
      record_completions-AllRecorded ws' cs completed nonzero
        (Recorded-AllTidy completed (c ∷ []) ws ws' first t) in
    (
      AllRecorded-cons completed c cs ws ws' _ first later,
      λ quiet. same (ground (arith, quiet)) ∙ kept (ground (arith, quiet)),
    )

-- The table after a batch: the time is recorded, and the table stays or is marked as changed.
pub record_completed_auto_watering_batch-AllRecorded :
    (t : WorkerTable) (cs : List CompletedAutoWatering) (completed now : ℕ)
    → completed ≢ 0
    → AllWorkers t.workers
    → let t' = record_completed_auto_watering_batch t cs completed now in
      AllRecorded completed cs t.workers t'.workers
      × ((t' ≡ t) ⊎ (t' ≡ mark_dirty t t'.workers now))
unfolding record_completed_auto_watering_batch
record_completed_auto_watering_batch-AllRecorded t [] completed now nonzero v =
    (nothing-AllRecorded completed t.workers, inl refl)
record_completed_auto_watering_batch-AllRecorded t (c ∷ cs) completed now nonzero v =
    let written = record_completions t.workers (c ∷ cs) completed in
    let (recorded, same) =
      record_completions-AllRecorded t.workers (c ∷ cs) completed nonzero
        (AllWorkers-AllTidy t.workers v) in
    if_rule Goal (length (c ∷ cs) == 0 || completed == 0)
      (λ refused. absurd (ground (arith, refused, nonzero)))
      (λ _.
        if_rule Goal written.1 (λ _. (recorded, inr refl))
          (λ quiet.
            (subst (AllRecorded completed (c ∷ cs) t.workers) (same quiet) recorded, inl refl)))
  where
    Goal : WorkerTable → Type 0
    Goal t' =
        AllRecorded completed (c ∷ cs) t.workers t'.workers
        × ((t' ≡ t) ⊎ (t' ≡ mark_dirty t t'.workers now))
