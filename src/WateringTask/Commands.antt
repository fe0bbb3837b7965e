-- ===== src/WateringTask/Commands.antt =====
-- The requests of a cycle of main/src/main.cpp as commands: what main/src/watering_manager.cpp builds
-- of them, and what worker/src/bluetooth_worker.cpp reads.
use native.Mathlib.Nat.{pow-le-pow_right}
use mathlib.Core.List.{Mem, mem-cons_self, mem-cons_of_mem}
use plant_watering.Prelude.{
  ℕ, zero, suc, ◌^◌, ◌≤◌, ◌<◌, ◌≡◌, ◌≢◌, refl, sym, subst, Bool, true, false, ◌||◌, List, [], ◌∷◌,
  ◌++◌, some, min, ltb, ◌==◌, length, get_or, arith, if_rule, option_rule, Bool-cases, inl, inr,
  length-append,
}
use plant_watering.Prelude.Bytes.{popcount-le}
use plant_watering.Nodes.{WorkerNode, find_node}
use plant_watering.Settings.{WorkerConfig, WorkerTable}
use plant_watering.Settings.Pots.{IsWorker}
use plant_watering.Settings.Validity.{AllWorkers, IsValid}
use plant_watering.Watering.{durations_ok, water_command_body}
use plant_watering.Watering.Command.{parse_water_command-water_command_body}
use plant_watering.WateringTask.{AutoWaterRequest, wants_water, collect_requests}
use plant_watering.WateringTask.Requests.{
  mask_of, list_of, mask_of-lt, popcount-mask_of, wanted_of, wanted_by, wanted,
  collect_requests-wanted,
}
use plant_watering.Worker.Water.{parse_water_command}

durations_ok-append :
    (ds : List ℕ) (d : ℕ)
    → durations_ok ds ≡ true
    → (0 < d) × (d ≤ 60)
    → durations_ok (ds ++ d ∷ []) ≡ true
unfolding durations_ok
durations_ok-append [] d h k = ground arith
durations_ok-append (e ∷ ds) d h k = ground (arith, durations_ok-append ds d)

durations_ok-list_of :
    (wants : ℕ → Bool) (of : ℕ → ℕ) (n : ℕ)
    → ((pot : ℕ) → pot < n → (0 < of pot) × (of pot ≤ 60))
    → durations_ok (list_of wants of n) ≡ true
unfolding durations_ok
durations_ok-list_of wants of zero each = refl
durations_ok-list_of wants of (suc n) each =
    let before = durations_ok-list_of wants of n (λ pot h. each pot (omega (arith, h))) in
    if_rule (λ ds. durations_ok ds ≡ true) (wants n)
      (λ _. durations_ok-append (list_of wants of n) (of n) before (each n (omega arith)))
      (λ _. before)

length-list_of :
    (wants : ℕ → Bool) (of : ℕ → ℕ) (n : ℕ) → mask_of wants n ≢ 0 → 0 < length (list_of wants of n)
length-list_of wants of zero some_pot = absurd (some_pot refl)
length-list_of wants of (suc n) some_pot = elim (Bool-cases (wants n)) [
  | inl h' ↦ rw h' (omega (arith, length-append (list_of wants of n) (of n ∷ [])))
  | inr h' ↦
      let below : mask_of wants n ≢ 0 = λ e. some_pot (rw h' e) in
      rw h' (length-list_of wants of n below)
]

-- The command for a request is built, and a worker with so many pots reads the request back.
abbrev pub Understood : ℕ → AutoWaterRequest → Type 0
Understood pots r =
    (body : List ℕ) × (water_command_body r.pot_mask r.durations ≡ some body)
    × (parse_water_command pots body
        ≡ some (record { pot_mask = r.pot_mask; durations = r.durations }))

-- Each worker has a request, if it has one, that it understands.
abbrev pub AllUnderstood : List WorkerConfig → List AutoWaterRequest → Type 0
AllUnderstood ws [] = Unit {0}
AllUnderstood ws (r ∷ rs) =
    ((w : WorkerConfig) × Mem w ws × (w.mac ≡ r.mac) × Understood w.pot_count r)
    × AllUnderstood ws rs

not_zero : (late : Bool) (m : ℕ) → late || m == 0 ≡ false → m ≢ 0
not_zero late m h = ground arith

duration_ok :
    (w : WorkerConfig)
    → IsWorker w
    → (pot : ℕ) → pot < w.pot_count
    → (0 < get_or w.durations pot 0) × (get_or w.durations pot 0 ≤ 60)
duration_ok w v pot h = let (_, positive, small, _, _) = v.pot_ok pot h in (positive, small)

module _ (corrected_soil : ℕ → ℕ → ℕ) (now_utc : ℕ) where
  wanted_of-Understood :
      (worker : WorkerConfig) (node : WorkerNode)
      → IsWorker worker
      → (wanted_of corrected_soil now_utc worker node).pot_mask ≢ 0
      → Understood worker.pot_count (wanted_of corrected_soil now_utc worker node)
  wanted_of-Understood worker node v some_pot =
      let few = v.pots.1 in
      let wants = wants_water corrected_soil now_utc worker node in
      let of : ℕ → ℕ = λ pot. get_or worker.durations pot 0 in
      let pots = min worker.pot_count node.pot_count in
      let small = mask_of-lt wants pots in
      let room : 2 ^ pots ≤ 2 ^ worker.pot_count = pow-le-pow_right (omega arith) (omega arith) in
      let below : pots ≤ 16 = omega (arith, few) in
      let room16 : 2 ^ pots ≤ 2 ^ 16 = pow-le-pow_right (omega arith) below in
      let counted = popcount-mask_of wants of pots (omega (arith, few)) in
      let at_most = popcount-le 16 pots (mask_of wants pots) small in
      let (body, built, reads, _) =
        parse_water_command-water_command_body worker.pot_count (mask_of wants pots)
          (list_of wants of pots)
          (record {
            mask_fits = (omega (arith, some_pot), omega (arith, small, room16));
            counted = sym counted;
            few = (length-list_of wants of pots some_pot, omega (arith, counted, at_most, few));
            in_range =
                durations_ok-list_of wants of pots
                  (λ pot h. duration_ok worker v pot (omega (arith, h)));
          })
          (omega (arith, small, room)) in
      (body, built, reads)

  wanted_by-AllUnderstood :
      (nodes : List WorkerNode) (start : ℕ) (all : List WorkerConfig) (worker : WorkerConfig)
      (rest : List AutoWaterRequest)
      → Mem worker all
      → IsWorker worker
      → AllUnderstood all rest
      → AllUnderstood all (wanted_by corrected_soil now_utc nodes start worker ++ rest)
  wanted_by-AllUnderstood nodes start all worker rest member have understood =
      let Goal : List AutoWaterRequest → Type 0 = λ l. AllUnderstood all (l ++ rest) in
      option_rule Goal (find_node nodes worker.mac) (λ _. understood)
        (λ node _.
          let r = wanted_of corrected_soil now_utc worker node in
          if_rule Goal (ltb node.last_sync_us start || r.pot_mask == 0) (λ _. understood)
            (λ h'. (
              (worker, member, refl, wanted_of-Understood worker node have (not_zero _ _ h')),
              understood,
            )))

  wanted-AllUnderstood :
      (nodes : List WorkerNode) (start : ℕ) (all workers : List WorkerConfig)
      → ((w : WorkerConfig) → Mem w workers → Mem w all)
      → AllWorkers workers
      → AllUnderstood all (wanted corrected_soil now_utc nodes start workers)
  wanted-AllUnderstood nodes start all [] inside have = tt
  wanted-AllUnderstood nodes start all (worker ∷ workers) inside (one, _, have) =
      wanted_by-AllUnderstood nodes start all worker _ (inside worker mem-cons_self) one (
        wanted-AllUnderstood nodes start all workers (λ w m. inside w (mem-cons_of_mem worker m))
          have)

  -- Every request of a cycle over a valid table is understood: it is for a worker of the table, its
  -- command is built, and a worker with as many pots as the table says reads back the mask and the
  -- durations of the request.
  pub collect_requests-AllUnderstood :
      (nodes : List WorkerNode) (start : ℕ) (t : WorkerTable)
      → IsValid t
      → AllUnderstood t.workers (collect_requests corrected_soil now_utc nodes start t.workers [])
  collect_requests-AllUnderstood nodes start t v =
      subst (λ rs. AllUnderstood t.workers rs)
        (sym (collect_requests-wanted corrected_soil now_utc nodes start t.workers v.few))
        (wanted-AllUnderstood nodes start t.workers t.workers (λ w m. m) v.all_workers)
