-- ===== src/Settings/Validity.antt =====
-- What every call keeps true of the table of workers of main/src/settings.cpp.
use plant_watering.Prelude.{
  ℕ, suc, ◌≤◌, ◌≡◌, ◌≢◌, refl, sym, ◌∙◌, ap, subst, inl, inr, List, [], ◌∷◌, ◌++◌, none, length,
  set, arith, Bool-cases, if_rule,
}
use plant_watering.Prelude.Bytes.{bytes_eq, bytes_eq_iff}
use plant_watering.Prelude.Loops.{for_range}
use plant_watering.Bluetooth.Message.{Mac}
use plant_watering.Settings.{
  WorkerConfig, WorkerTable, max_worker_count, initialize_worker, find_worker, change_worker,
  drop_worker,
}
use plant_watering.Settings.Pots.{IsWorker}

-- No two workers have the address `mac`, and so on for the rest.
abbrev pub Absent : Mac → List WorkerConfig → Type 0
Absent mac [] = Unit {0}
Absent mac (w ∷ ws) = (w.mac ≢ mac) × Absent mac ws

abbrev pub AllWorkers : List WorkerConfig → Type 0
AllWorkers [] = Unit {0}
AllWorkers (w ∷ ws) = IsWorker w × Absent w.mac ws × AllWorkers ws

-- At most eight workers, with different addresses, each with one to sixteen pots and every pot with
-- settings in their ranges.
pub record IsValid (t : WorkerTable) : Type 0 where
  pub few : length t.workers ≤ max_worker_count
  pub all_workers : AllWorkers t.workers

abbrev pub Keeps : (WorkerConfig → WorkerConfig) → Type 0
Keeps f = (w : WorkerConfig) → IsWorker w → IsWorker (f w) × ((f w).mac ≡ w.mac)

change_worker-Absent :
    (ws : List WorkerConfig) (mac other : Mac) (f : WorkerConfig → WorkerConfig)
    → Keeps f
    → AllWorkers ws
    → Absent other ws
    → Absent other (change_worker ws mac f)
unfolding change_worker
change_worker-Absent [] mac other f k v h = tt
change_worker-Absent (w ∷ ws) mac other f k (v, apart, vs) (h, hs) =
    if_rule (Absent other) (bytes_eq w.mac mac) (λ _. ((λ e. h (sym (k w v).1 ∙ e)), hs))
      (λ _. (h, change_worker-Absent ws mac other f k vs hs))

pub change_worker-AllWorkers :
    (ws : List WorkerConfig) (mac : Mac) (f : WorkerConfig → WorkerConfig)
    → Keeps f
    → AllWorkers ws
    → AllWorkers (change_worker ws mac f) × (length (change_worker ws mac f) ≡ length ws)
unfolding change_worker
change_worker-AllWorkers [] mac f k v = (tt, refl)
change_worker-AllWorkers (w ∷ ws) mac f k (v, apart, vs) =
    let (kept, same) = k w v in
    let (rest, size) = change_worker-AllWorkers ws mac f k vs in
    if_rule (λ r. AllWorkers r × (length r ≡ length (w ∷ ws))) (bytes_eq w.mac mac)
      (λ _. ((kept, subst (λ m. Absent m ws) (sym same) apart, vs), refl))
      (λ _. ((v, change_worker-Absent ws mac w.mac f k vs apart, rest), ap suc size))

pub drop_worker-AllWorkers :
    (ws : List WorkerConfig) (mac : Mac)
    → AllWorkers ws
    → AllWorkers (drop_worker ws mac)
      × (length (drop_worker ws mac) ≤ length ws)
      × ((other : Mac) → Absent other ws → Absent other (drop_worker ws mac))
unfolding drop_worker
drop_worker-AllWorkers [] mac v = (tt, omega arith, λ other h. h)
drop_worker-AllWorkers (w ∷ ws) mac (v, apart, vs) =
    let (rest, size, keeps) = drop_worker-AllWorkers ws mac vs in
    if_rule
      (λ r.
        AllWorkers r
        × (length r ≤ length (w ∷ ws))
        × ((other : Mac) → Absent other (w ∷ ws) → Absent other r))
      (bytes_eq w.mac mac) (λ _. (vs, omega arith, λ other h. h.1))
      (λ _. ((v, keeps w.mac apart, rest), omega (arith, size), λ other h. (h.0, keeps other h.1)))

-- A worker that is looked for in vain is absent.
pub find_worker-Absent :
    (ws : List WorkerConfig) (mac : Mac) → find_worker ws mac ≡ none → Absent mac ws
unfolding find_worker
find_worker-Absent [] mac h = tt
find_worker-Absent (w ∷ ws) mac h = elim (Bool-cases (bytes_eq w.mac mac)) [
  | inl e ↦ absurd (ground arith)
  | inr e ↦ (
    (λ same. ground (arith, (bytes_eq_iff w.mac mac).1 same)),
    find_worker-Absent ws mac (ground arith),
  )
]

pub append-AllWorkers :
    (ws : List WorkerConfig) (w : WorkerConfig)
    → AllWorkers ws
    → Absent w.mac ws
    → IsWorker w
    → AllWorkers (ws ++ w ∷ [])
append-AllWorkers [] w vs h v = (v, tt, tt)
append-AllWorkers (x ∷ xs) w (vx, apart, vs) (h, hs) v =
    (vx, absent_behind xs apart, append-AllWorkers xs w vs hs v)
  where
    absent_behind : (ys : List WorkerConfig) → Absent x.mac ys → Absent x.mac (ys ++ w ∷ [])
    absent_behind [] a = ((λ e. h (sym e)), tt)
    absent_behind (y ∷ ys) (n, a) = (n, absent_behind ys a)

-- The one pot of a new worker has the settings that the call brings.
pub fresh-IsWorker :
    (mac : Mac) (name : List ℕ) (threshold duration : ℕ)
    → threshold ≤ 4095
    → 1 ≤ duration
    → duration ≤ 60
    → let fresh = initialize_worker mac name 1 in
      IsWorker (record fresh {
        thresholds = set fresh.thresholds 0 threshold;
        durations = set fresh.durations 0 duration;
      })
unfolding initialize_worker for_range
fresh-IsWorker mac name threshold duration a b c = record {
  sized = (refl, refl, refl, refl);
  pots = (omega arith, omega arith);
  pot_ok = λ pot l. let e : pot ≡ 0 = omega arith in rw e (a, b, c, omega arith, omega arith);
}
