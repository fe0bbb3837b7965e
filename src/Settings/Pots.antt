-- ===== src/Settings/Pots.antt =====
-- The settings of one worker in main/src/settings.cpp, and the loops over its pots.
use plant_watering.Prelude.{
  ℕ, ◌+◌, ◌-◌, ◌≤◌, ◌<◌, ◌≡◌, ◌≢◌, refl, sym, ◌∙◌, inl, inr, List, Option, none, some, ◌==◌, length,
  get_or, get_or-set_self, get_or-set_ne, length-set, arith, Bool-cases,
}
use plant_watering.Prelude.Loops.{for_range, for_range_inv}
use plant_watering.Policy.AutoWatering.{
  default_water_interval, water_interval_min, water_interval_max,
}
use plant_watering.Settings.{
  WorkerConfig, max_pots_per_device, put_pot, reset_pot, default_threshold, default_duration,
  rename, rename_pot, grow_pots, update_pot,
}

abbrev pub InRange : ℕ → ℕ → ℕ → Type 0
InRange threshold duration interval =
    (threshold ≤ 4095)
    × (1 ≤ duration)
    × (duration ≤ 60)
    × (water_interval_min ≤ interval)
    × (interval ≤ water_interval_max)

-- The settings of a pot are values that the API accepts.
abbrev pub PotOk : WorkerConfig → ℕ → Type 0
PotOk w pot =
    InRange (get_or w.thresholds pot 0) (get_or w.durations pot 0) (get_or w.water_intervals pot 0)

abbrev pub Sized : WorkerConfig → Type 0
Sized w =
    (length w.thresholds ≡ 16)
    × (length w.durations ≡ 16)
    × (length w.water_intervals ≡ 16)
    × (length w.last_auto_watering_utc_sec ≡ 16)

pub record IsWorker (w : WorkerConfig) : Type 0 where
  pub sized : Sized w
  pub pots : (1 ≤ w.pot_count) × (w.pot_count ≤ max_pots_per_device)
  pub pot_ok : (pot : ℕ) → pot < w.pot_count → PotOk w pot

pub put_pot-Sized :
    (w : WorkerConfig) (pot threshold duration interval : ℕ)
    → Sized w
    → Sized (put_pot w pot threshold duration interval)
put_pot-Sized w pot threshold duration interval (a, b, c, d) = (
  length-set w.thresholds pot threshold ∙ a,
  length-set w.durations pot duration ∙ b,
  length-set w.water_intervals pot interval ∙ c,
  d,
)

pub put_pot-PotOk :
    (w : WorkerConfig) (pot threshold duration interval i : ℕ)
    → Sized w
    → pot < 16
    → InRange threshold duration interval
    → (i ≢ pot → PotOk w i)
    → PotOk (put_pot w pot threshold duration interval) i
put_pot-PotOk w pot threshold duration interval i (a, b, c, d) small ok others =
    elim (Bool-cases (pot == i)) [
      | inl h ↦
          let e : i ≡ pot = ground arith in
          rw
            (
              e,
              get_or-set_self w.thresholds pot threshold 0 (omega (arith, a)),
              get_or-set_self w.durations pot duration 0 (omega (arith, b)),
              get_or-set_self w.water_intervals pot interval 0 (omega (arith, c)),
            )
            ok
      | inr h ↦
          let ne : pot ≢ i = ground arith in
          rw
            (
              get_or-set_ne w.thresholds pot i threshold 0 ne,
              get_or-set_ne w.durations pot i duration 0 ne,
              get_or-set_ne w.water_intervals pot i interval 0 ne,
            )
            (others (λ e. ne (sym e)))
    ]

-- The loop over new pots, up to the pot `k`.
record Filled (before : WorkerConfig) (k : ℕ) (w : WorkerConfig) : Type 0 where
  sized : Sized w
  same_mac : w.mac ≡ before.mac
  same_count : w.pot_count ≡ before.pot_count
  pot_ok : (pot : ℕ) → pot < k → PotOk w pot

pub defaults : InRange default_threshold default_duration default_water_interval
defaults = (omega arith, omega arith, omega arith, omega arith, omega arith)

reset_pot-Filled :
    (before w : WorkerConfig) (k : ℕ)
    → k < 16
    → Filled before k w
    → Filled before (k + 1) (reset_pot k w)
reset_pot-Filled before w k h f = record {
  sized =
      let (a, b, c, d) =
        put_pot-Sized w k default_threshold default_duration default_water_interval f.sized in
      (a, b, c, length-set w.last_auto_watering_utc_sec k 0 ∙ d);
  same_mac = f.same_mac;
  same_count = f.same_count;
  pot_ok = λ pot l.
      put_pot-PotOk w k default_threshold default_duration default_water_interval pot f.sized h
        defaults (λ ne. f.pot_ok pot (omega (arith, l, ne)));
}

pub grow_pots-IsWorker :
    (count : ℕ) (w : WorkerConfig)
    → count ≤ 16
    → IsWorker w
    → IsWorker (grow_pots count w)
      × ((grow_pots count w).mac ≡ w.mac)
      × (count ≤ (grow_pots count w).pot_count)
unfolding grow_pots
grow_pots-IsWorker count w h v =
    let more = count - w.pot_count in
    let before : Filled w w.pot_count w = record {
      sized = v.sized;
      same_mac = refl;
      same_count = refl;
      pot_ok = v.pot_ok;
    } in
    let f : Filled w (w.pot_count + more) (for_range more w.pot_count reset_pot w) =
      for_range_inv (Filled w) reset_pot more w.pot_count (w.pot_count + more) w
        (λ k t lo hi g. reset_pot-Filled w t k (omega (arith, hi, h, v.pots.1)) g) refl before in
    (
      record {
        sized = f.sized;
        pots = (ground (arith, v.pots), ground (arith, v.pots));
        pot_ok = λ pot l. f.pot_ok pot (ground arith);
      },
      f.same_mac,
      ground arith,
    )

pub update_pot-IsWorker :
    (pot threshold duration interval : ℕ) (name : Option (List ℕ)) (w : WorkerConfig)
    → pot < 16
    → InRange threshold duration interval
    → IsWorker w
    → IsWorker (update_pot pot threshold duration interval name w)
      × ((update_pot pot threshold duration interval name w).mac ≡ w.mac)
unfolding update_pot
update_pot-IsWorker pot threshold duration interval name w h ok v =
    let (grown, same, _) = grow_pots-IsWorker (pot + 1) w (omega (arith, h)) v in
    let g = grow_pots (pot + 1) w in
    let filled : IsWorker (put_pot g pot threshold duration interval) = record {
      sized = put_pot-Sized g pot threshold duration interval grown.sized;
      pots = grown.pots;
      pot_ok = λ i l.
          put_pot-PotOk g pot threshold duration interval i grown.sized h ok
            (λ _. grown.pot_ok i l);
    } in
    named name filled same
  where
    named :
        {g : WorkerConfig} (name : Option (List ℕ))
        → IsWorker g
        → g.mac ≡ w.mac
        → IsWorker (rename_pot pot name g) × ((rename_pot pot name g).mac ≡ w.mac)
    named none v e = (v, e)
    named (some text) v e = (record { sized = v.sized; pots = v.pots; pot_ok = v.pot_ok }, e)

pub rename-IsWorker :
    (name : Option (List ℕ)) (w : WorkerConfig)
    → IsWorker w
    → IsWorker (rename name w) × ((rename name w).mac ≡ w.mac)
rename-IsWorker none w v = (v, refl)
rename-IsWorker (some name) w v =
    (record { sized = v.sized; pots = v.pots; pot_ok = v.pot_ok }, refl)
