-- ===== src/WateringTask/Requests.antt =====
-- The requests of a cycle of main/src/main.cpp, and what wateringExecuteWorker of
-- main/src/watering_manager.cpp asks of a request.
use native.Mathlib.Nat.{pow-suc, pow-zero, div-eq_of_lt}
use mathlib.Core.List.{append-nil, append_assoc}
use plant_watering.Prelude.{
  ℕ, zero, suc, ◌+◌, ◌/◌, ◌%◌, ◌^◌, ◌≤◌, ◌<◌, ◌≡◌, refl, sym, ap, ◌∙◌, Bool, true, false, ◌||◌,
  List, [], ◌∷◌, ◌++◌, Option, none, some, min, ltb, lt→ltb, ◌==◌, if◌then◌else◌, length, get_or,
  arith, if_rule, subst, length-append, Bool-cases, option_rule, inl, inr,
}
use plant_watering.Prelude.Bytes.{test_bit, popcount, popcount_zero}
use plant_watering.Prelude.Loops.{for_range_inv}
use plant_watering.Bluetooth.Message.{Mac}
use plant_watering.Nodes.{WorkerNode, find_node}
use plant_watering.Settings.{WorkerConfig, max_worker_count}
use plant_watering.WateringTask.{
  AutoWaterRequest, with_pot, wants_water, choose_pot, choose_pots, request_of, collect_requests,
}

-- The pots below `n` for which `wants` is true, as a mask, and what `of` gives for each.
abbrev pub mask_of : (ℕ → Bool) → ℕ → ℕ
mask_of wants zero = 0
mask_of wants (suc n) = if wants n then mask_of wants n + 2 ^ n else mask_of wants n

abbrev pub list_of : (ℕ → Bool) → (ℕ → ℕ) → ℕ → List ℕ
list_of wants of zero = []
list_of wants of (suc n) = if wants n then list_of wants of n ++ of n ∷ [] else list_of wants of n

pub mask_of-lt : (wants : ℕ → Bool) (n : ℕ) → mask_of wants n < 2 ^ n
mask_of-lt wants zero = omega (arith, pow-zero 2)
mask_of-lt wants (suc n) =
    if_rule (λ m. m < 2 ^ suc n) (wants n) (λ _. omega (arith, mask_of-lt wants n, pow-suc 2 n))
      (λ _. omega (arith, mask_of-lt wants n, pow-suc 2 n))

with_pot-new : (m pot : ℕ) → m < 2 ^ pot → with_pot m pot ≡ m + 2 ^ pot
with_pot-new m pot h =
    let none_yet : test_bit m pot ≡ false = rw (div-eq_of_lt h) refl in rw none_yet refl

popcount-add :
    (bits pot m : ℕ)
    → pot < bits
    → m < 2 ^ pot
    → popcount bits (m + 2 ^ pot) ≡ suc (popcount bits m)
unfolding popcount
popcount-add zero pot m h fits = absurd (omega (arith, h))
popcount-add (suc bits) zero zero h fits = omega (arith, popcount_zero bits)
popcount-add (suc bits) zero (suc m) h fits = absurd (omega (arith, fits, pow-zero 2))
popcount-add (suc bits) (suc pot) m h fits =
    let half : (m + 2 ^ suc pot) / 2 ≡ m / 2 + 2 ^ pot = omega (arith, pow-suc 2 pot) in
    let odd : (m + 2 ^ suc pot) % 2 ≡ m % 2 = omega (arith, pow-suc 2 pot) in
    rw (half, odd)
      (omega (
        arith,
        popcount-add bits pot (m / 2) (omega (arith, h)) (omega (arith, fits, pow-suc 2 pot)),
      ))

-- As many pots are named as durations are given.
pub popcount-mask_of :
    (wants : ℕ → Bool) (of : ℕ → ℕ) (n : ℕ)
    → n ≤ 16
    → popcount 16 (mask_of wants n) ≡ length (list_of wants of n)
popcount-mask_of wants of zero h = popcount_zero 16
popcount-mask_of wants of (suc n) h =
    let before = popcount-mask_of wants of n (omega (arith, h)) in
    elim (Bool-cases (wants n)) [
      | inl h' ↦ rw h' (
          omega (
            arith,
            before,
            popcount-add 16 n (mask_of wants n) (omega (arith, h)) (mask_of-lt wants n),
            length-append (list_of wants of n) (of n ∷ []),
          ))
      | inr h' ↦ rw h' before
    ]

-- The request behind the pots below `n`.
abbrev request_at : Mac → (ℕ → Bool) → (ℕ → ℕ) → ℕ → AutoWaterRequest
request_at mac wants of n = record {
  mac = mac;
  pot_mask = mask_of wants n;
  durations = list_of wants of n;
}

request_at-suc :
    (mac : Mac) (wants : ℕ → Bool) (of : ℕ → ℕ) (n : ℕ)
    → (if wants n
        then record (request_at mac wants of n) {
          pot_mask = with_pot (mask_of wants n) n;
          durations = list_of wants of n ++ of n ∷ [];
        }
        else request_at mac wants of n)
      ≡ request_at mac wants of (suc n)
request_at-suc mac wants of n = elim (Bool-cases (wants n)) [
  | inl h' ↦ rw (h', with_pot-new (mask_of wants n) n (mask_of-lt wants n)) refl
  | inr h' ↦ rw h' refl
]

module _ (corrected_soil : ℕ → ℕ → ℕ) (now_utc : ℕ) where
  -- The request for the pots of a worker that are eligible: their mask, and their durations in order.
  abbrev pub wanted_of : WorkerConfig → WorkerNode → AutoWaterRequest
  wanted_of worker node =
      let pots = min worker.pot_count node.pot_count in
      record {
        mac = worker.mac;
        pot_mask = mask_of (wants_water corrected_soil now_utc worker node) pots;
        durations =
            list_of (wants_water corrected_soil now_utc worker node)
              (λ pot. get_or worker.durations pot 0) pots;
      }

  choose_pots-wanted_of :
      (worker : WorkerConfig) (node : WorkerNode)
      → choose_pots corrected_soil now_utc worker node ≡ wanted_of worker node
  unfolding choose_pots choose_pot
  choose_pots-wanted_of worker node =
      for_range_inv Chosen (choose_pot corrected_soil now_utc worker node) pots 0 pots _
        (λ i r _ _ held. chosen i r held) (omega arith) refl
    where
      pots : ℕ
      pots = min worker.pot_count node.pot_count

      first : ℕ → AutoWaterRequest
      first i =
          request_at worker.mac (wants_water corrected_soil now_utc worker node)
            (λ pot. get_or worker.durations pot 0) i

      Chosen : ℕ → AutoWaterRequest → Type 0
      Chosen i r = r ≡ first i

      chosen :
          (i : ℕ) (r : AutoWaterRequest)
          → Chosen i r
          → Chosen (i + 1) (choose_pot corrected_soil now_utc worker node i r)
      chosen i r held =
          let e : suc i ≡ i + 1 = omega arith in
          subst (λ k. Chosen k (choose_pot corrected_soil now_utc worker node i r)) e
            (ap (λ q. choose_pot corrected_soil now_utc worker node i q) held
              ∙ request_at-suc worker.mac (wants_water corrected_soil now_utc worker node)
                  (λ pot. get_or worker.durations pot 0) i)

  -- The request of a worker: it has reported since the cycle began, and some pot is eligible.
  abbrev pub wanted_by : List WorkerNode → ℕ → WorkerConfig → List AutoWaterRequest
  wanted_by nodes cycle_start_us worker = elim (find_node nodes worker.mac) [
    | none ↦ []
    | some node ↦
        if ltb node.last_sync_us cycle_start_us || (wanted_of worker node).pot_mask == 0
        then []
        else wanted_of worker node ∷ []
  ]

  abbrev pub wanted : List WorkerNode → ℕ → List WorkerConfig → List AutoWaterRequest
  wanted nodes cycle_start_us [] = []
  wanted nodes cycle_start_us (worker ∷ workers) =
      wanted_by nodes cycle_start_us worker ++ wanted nodes cycle_start_us workers

  abbrev added : List AutoWaterRequest → Option AutoWaterRequest → List AutoWaterRequest
  added requests o = elim o [
    | none ↦ requests
    | some r ↦ if ltb (length requests) max_worker_count then requests ++ r ∷ [] else requests
  ]

  picked :
      (requests : List AutoWaterRequest) (late : Bool) (r : AutoWaterRequest)
      → length requests < max_worker_count
      → added requests (if late then none else if r.pot_mask == 0 then none else some r)
        ≡ requests ++ (if late || r.pot_mask == 0 then [] else r ∷ [])
  picked requests true r room = sym (append-nil requests)
  picked requests false r room = elim (Bool-cases (r.pot_mask == 0)) [
    | inl h' ↦ rw h' (sym (append-nil requests))
    | inr h' ↦ rw (h', lt→ltb _ _ room) refl
  ]

  request_of-wanted_by :
      (nodes : List WorkerNode) (start : ℕ) (worker : WorkerConfig)
      (requests : List AutoWaterRequest)
      → length requests < max_worker_count
      → added requests (request_of corrected_soil now_utc nodes start worker)
        ≡ requests ++ wanted_by nodes start worker
  unfolding request_of
  request_of-wanted_by nodes start worker requests room = from_node (find_node nodes worker.mac)
    where
      from_node :
          (o : Option WorkerNode)
          → added requests (elim o [
            | none ↦ none
            | some node ↦
                let request = choose_pots corrected_soil now_utc worker node in
                if ltb node.last_sync_us start
                then none
                else if request.pot_mask == 0
                then none
                else some request
          ])
            ≡ requests ++ elim o [
              | none ↦ []
              | some node ↦
                  if ltb node.last_sync_us start || (wanted_of worker node).pot_mask == 0
                  then []
                  else wanted_of worker node ∷ []
            ]
      from_node none = sym (append-nil requests)
      from_node (some node) =
          subst
            (λ (r : AutoWaterRequest).
              added requests (
                if ltb node.last_sync_us start
                then none
                else if r.pot_mask == 0
                then none
                else some r)
              ≡ requests
                ++ (if ltb node.last_sync_us start || (wanted_of worker node).pot_mask == 0
                    then []
                    else wanted_of worker node ∷ []))
            (sym (choose_pots-wanted_of worker node))
            (picked requests (ltb node.last_sync_us start) (wanted_of worker node) room)

  wanted_by-length :
      (nodes : List WorkerNode) (start : ℕ) (worker : WorkerConfig)
      → length (wanted_by nodes start worker) ≤ 1
  wanted_by-length nodes start worker =
      option_rule (λ (l : List AutoWaterRequest). length l ≤ 1) (find_node nodes worker.mac)
        (λ _. omega arith)
        (λ node _.
          if_rule (λ (l : List AutoWaterRequest). length l ≤ 1)
            (ltb node.last_sync_us start || (wanted_of worker node).pot_mask == 0)
            (λ _. omega arith) (λ _. omega arith))

  collect_requests-from :
      (nodes : List WorkerNode) (start : ℕ) (workers : List WorkerConfig)
      (requests : List AutoWaterRequest)
      → length requests + length workers ≤ max_worker_count
      → collect_requests corrected_soil now_utc nodes start workers requests
        ≡ requests ++ wanted nodes start workers
  unfolding collect_requests
  collect_requests-from nodes start [] requests room = sym (append-nil requests)
  collect_requests-from nodes start (worker ∷ workers) requests room =
      ap (λ l. collect_requests corrected_soil now_utc nodes start workers l)
        (request_of-wanted_by nodes start worker requests (omega (arith, room)))
      ∙ collect_requests-from nodes start workers (requests ++ wanted_by nodes start worker) (
          omega (
            arith,
            room,
            length-append requests (wanted_by nodes start worker),
            wanted_by-length nodes start worker,
          ))
      ∙ append_assoc requests (wanted_by nodes start worker) (wanted nodes start workers)

  -- The requests of a cycle are those of the workers that have reported since it began and that have
  -- an eligible pot, in the order of the table: each names exactly the eligible pots that the worker
  -- and its report both have, with their durations in the order of the pots.
  pub collect_requests-wanted :
      (nodes : List WorkerNode) (start : ℕ) (workers : List WorkerConfig)
      → length workers ≤ max_worker_count
      → collect_requests corrected_soil now_utc nodes start workers [] ≡ wanted nodes start workers
  collect_requests-wanted nodes start workers few =
      collect_requests-from nodes start workers [] (omega (arith, few))
