-- ===== src/Policy/AutoWatering.antt =====
-- main/include/AutoWateringPolicy.h: when a pot may be watered automatically, and what a finished
-- watering writes into the history of a worker.
use plant_watering.Prelude.{
  ℕ, ◌+◌, ◌-◌, ◌≤◌, ◌<◌, ◌≡◌, refl, ◌↔◌, ◌⊎◌, Bool, true, false, ◌&&◌, List, arith, ltb, leb, ◌==◌,
  if◌then◌else◌, min, get_or, set, length, length-set, get_or-set_self, get_or-set_ne, ◌≢◌,
  Bool-cases, inl, inr, ap, ==_iff,
}
use plant_watering.Prelude.Bytes.{test_bit}
use plant_watering.Prelude.Loops.{for_range, for_range_inv}

abbrev pub water_interval_min : ℕ
water_interval_min = 60

abbrev pub water_interval_max : ℕ
water_interval_max = 2419200

abbrev pub default_water_interval : ℕ
default_water_interval = 3600

unfoldable pub valid_water_interval : ℕ → Bool
valid_water_interval sec = leb water_interval_min sec && leb sec water_interval_max

-- 0 stands for "never watered".
unfoldable pub cooldown_complete : ℕ → ℕ → ℕ → Bool
cooldown_complete now last interval =
    if last == 0 then true else (leb last now && leb interval (now - last))

unfoldable pub pot_eligible : ℕ → ℕ → ℕ → ℕ → ℕ → ℕ → Bool
unfolding cooldown_complete
pot_eligible now last interval raw_soil corrected_soil threshold =
    cooldown_complete now last interval && (ltb 200 raw_soil && ltb threshold corrected_soil)

-- One round of the loop of `applyCompletedAutoWatering`.
unfoldable pub mark_pot : ℕ → ℕ → ℕ → List ℕ × Bool → List ℕ × Bool
mark_pot pot_mask completed pot (history, changed) =
    if test_bit pot_mask pot
    then (if get_or history pot 0 == completed
        then (history, changed)
        else (set history pot completed, true))
    else (history, changed)

-- The history after the call, and whether it changed. The array has sixteen entries.
unfoldable pub apply_completed : List ℕ → ℕ → ℕ → ℕ → List ℕ × Bool
unfolding mark_pot for_range
apply_completed history pot_count pot_mask completed =
    if completed == 0
    then (history, false)
    else for_range (min pot_count 16) 0 (mark_pot pot_mask completed) (history, false)

-- The pots below `i` that the mask names hold the time; the others are as they were; and a change
-- is reported exactly when some pot's entry changed.
record Marked (before : List ℕ) (pot_mask completed i : ℕ) (s : List ℕ × Bool) : Type 0 where
  size : length s.0 ≡ length before
  entry :
      (j : ℕ)
      → get_or s.0 j 0 ≡ (if ltb j i && test_bit pot_mask j then completed else get_or before j 0)
  unchanged : s.1 ≡ false → s.0 ≡ before
  changed : s.1 ≡ true → (j : ℕ) × (get_or s.0 j 0 ≢ get_or before j 0)

mark_pot_changed :
    (before : List ℕ) (pot_mask completed i : ℕ) (history : List ℕ) (changed : Bool)
    → i < length before
    → Marked before pot_mask completed i (history, changed)
    → let s = mark_pot pot_mask completed i (history, changed) in
      s.1 ≡ true → (j : ℕ) × (get_or s.0 j 0 ≢ get_or before j 0)
unfolding mark_pot
mark_pot_changed before pot_mask completed i history changed h v =
    elim (Bool-cases (test_bit pot_mask i)) [
      | inl hit ↦ elim (Bool-cases (get_or history i 0 == completed)) [
        | inl same ↦ rw (hit, same) v.changed
        | inr new ↦
            rw (hit, new) λ _. (i, ground (arith, v.entry i, get_or-set_self history i completed 0))
      ]
      | inr miss ↦ rw miss v.changed
    ]

mark_pot-Marked :
    (before : List ℕ) (pot_mask completed i : ℕ) (s : List ℕ × Bool)
    → i < length before
    → Marked before pot_mask completed i s
    → Marked before pot_mask completed (i + 1) (mark_pot pot_mask completed i s)
unfolding mark_pot
mark_pot-Marked before pot_mask completed i (history, changed) h v = record {
  size = ground (arith, length-set history i completed);
  entry = λ j. ground (
    arith,
    v.entry j,
    v.entry i,
    get_or-set_self history i completed 0,
    get_or-set_ne history i j completed 0,
  );
  unchanged = ground (arith, v.unchanged);
  changed = mark_pot_changed before pot_mask completed i history changed h v;
}

apply_completed-Marked :
    (history : List ℕ) (pot_count pot_mask completed : ℕ)
    → length history ≡ 16
    → completed ≢ 0
    → Marked history pot_mask completed
        (min pot_count 16)
        (apply_completed history pot_count pot_mask completed)
unfolding apply_completed
apply_completed-Marked history pot_count pot_mask completed size nonzero =
    elim (Bool-cases (completed == 0)) [
      | inl zero_time ↦ absurd (nonzero ((==_iff completed 0).0 zero_time))
      | inr later ↦ rw later (
          for_range_inv (Marked history pot_mask completed) (mark_pot pot_mask completed)
            (min pot_count 16) 0 (min pot_count 16) (history, false)
            (λ k t lo hi v. mark_pot-Marked history pot_mask completed k t (omega arith) v)
            (omega arith)
            (record {
              size = refl;
              entry = λ j. ground arith;
              unchanged = λ _. refl;
              changed = λ e. cc;
            }))
    ]

pub apply_completed_unchanged :
    (history : List ℕ) (pot_count pot_mask completed : ℕ)
    → length history ≡ 16
    → completed ≢ 0
    → (apply_completed history pot_count pot_mask completed).1 ≡ false
    → (apply_completed history pot_count pot_mask completed).0 ≡ history
apply_completed_unchanged history pot_count pot_mask completed size nonzero =
    (apply_completed-Marked history pot_count pot_mask completed size nonzero).unchanged

-- A finished watering writes its time to exactly the pots that the worker has and the mask names,
-- and leaves the others; the call reports a change exactly when the history is another one.
pub apply_completed_exact :
    (history : List ℕ) (pot_count pot_mask completed : ℕ)
    → length history ≡ 16
    → completed ≢ 0
    → let s = apply_completed history pot_count pot_mask completed in
      ((j : ℕ)
        → get_or s.0 j 0 ≡ (
            if ltb j (min pot_count 16) && test_bit pot_mask j
            then completed
            else get_or history j 0))
      × (length s.0 ≡ 16)
      × ((s.1 ≡ true) ↔ (s.0 ≢ history))
apply_completed_exact history pot_count pot_mask completed size nonzero = (
  v.entry,
  omega (arith, v.size),
  (
    λ e same. (v.changed e).1 (ap (λ l. get_or l (v.changed e).0 0) same),
    λ differs. elim (Bool-cases (apply_completed history pot_count pot_mask completed).1) [
      | inl some_changed ↦ some_changed
      | inr kept ↦ absurd (differs (v.unchanged kept))
    ],
  ),
)
  where
    v :
        Marked history pot_mask completed
          (min pot_count 16)
          (apply_completed history pot_count pot_mask completed)
    v = apply_completed-Marked history pot_count pot_mask completed size nonzero

-- A pot is eligible exactly when it was never watered or its interval has passed since, on a clock
-- that has not gone back, the sensor is connected, and the soil is drier than the threshold.
pub pot_eligible_iff :
    (now last interval raw corrected threshold : ℕ)
    → (pot_eligible now last interval raw corrected threshold ≡ true)
      ↔ (((last ≡ 0) ⊎ (last + interval ≤ now)) × (200 < raw) × (threshold < corrected))
unfolding pot_eligible
pot_eligible_iff now last interval raw corrected threshold = ground arith
