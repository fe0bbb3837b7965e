-- ===== src/Worker/Water/Trace.antt =====
-- Which valve is open, and for how long, while a worker executes a water command.
use native.Mathlib.Nat.{
  div-div-eq-div-mul, div-lt_iff_lt-mul, pow-suc, one-le-pow, pow-le-pow_right,
}
use plant_watering.Prelude.{
  ℕ, zero, suc, ◌+◌, ◌*◌, ◌/◌, ◌^◌, ◌≤◌, ◌<◌, ◌≡◌, refl, sym, ap, ◌∙◌, inl, inr, true, false, List,
  [], ◌∷◌, ◌++◌, some, leb, ◌==◌, if◌then◌else◌, length, get_or, drop, arith, drop-cons,
  length-drop, Bool-cases,
}
use plant_watering.Prelude.Bytes.{popcount, popcount_zero, test_bit}
use plant_watering.Bluetooth.Tlv.{tlv_append}
use plant_watering.Bluetooth.Message.{Mac}
use plant_watering.Worker.Water.{
  Action, valve_set_mask, delay_ms, send_command, send_ack, advertise_status, open_ota_window,
  deep_sleep_us, WaterCommand, parse_water_command, water_pots, water_done, execute_water_command,
  mask_allowed,
}

-- The intervals in which some valve is open: the mask and the milliseconds, from the mask at the
-- start.
pub open_intervals : ℕ → List Action → List (ℕ × ℕ)
open_intervals mask [] = []
open_intervals mask (valve_set_mask m ∷ rest) = open_intervals m rest
open_intervals mask (delay_ms d ∷ rest) =
    let later = open_intervals mask rest in if mask == 0 then later else (mask, d) ∷ later
open_intervals mask (send_ack m ∷ rest) = open_intervals mask rest
open_intervals mask (send_command m b ∷ rest) = open_intervals mask rest
open_intervals mask (advertise_status ∷ rest) = open_intervals mask rest
open_intervals mask (open_ota_window m d ∷ rest) = open_intervals mask rest
open_intervals mask (deep_sleep_us d ∷ rest) = open_intervals mask rest

pub last_mask : ℕ → List Action → ℕ
last_mask mask [] = mask
last_mask mask (valve_set_mask m ∷ rest) = last_mask m rest
last_mask mask (delay_ms d ∷ rest) = last_mask mask rest
last_mask mask (send_ack m ∷ rest) = last_mask mask rest
last_mask mask (send_command m b ∷ rest) = last_mask mask rest
last_mask mask (advertise_status ∷ rest) = last_mask mask rest
last_mask mask (open_ota_window m d ∷ rest) = last_mask mask rest
last_mask mask (deep_sleep_us d ∷ rest) = last_mask mask rest

-- The pots from `pot` on, `n` of them, that a mask names.
pub pots_in : ℕ → ℕ → ℕ → List ℕ
pots_in zero pot mask = []
pots_in (suc n) pot mask =
    let rest = pots_in n (pot + 1) mask in if test_bit mask pot then pot ∷ rest else rest

-- Each pot by itself, for its own duration.
pub one_by_one : List ℕ → List ℕ → List (ℕ × ℕ)
one_by_one [] ds = []
one_by_one (p ∷ ps) [] = []
one_by_one (p ∷ ps) (d ∷ ds) = (2 ^ p, d * 1000) ∷ one_by_one ps ds

pow_pos : (p : ℕ) → (2 ^ p == 0) ≡ false
pow_pos p = ground (arith, one-le-pow p 2)

water_pots-intervals :
    (n pot index mask : ℕ) (ds : List ℕ)
    → length (drop index ds) ≡ length (pots_in n pot mask)
    → (open_intervals 0 (water_pots n pot index mask ds)
        ≡ one_by_one (pots_in n pot mask) (drop index ds))
      × (last_mask 0 (water_pots n pot index mask ds) ≡ 0)
unfolding water_pots open_intervals pots_in one_by_one last_mask
water_pots-intervals zero pot index mask ds e = (refl, refl)
water_pots-intervals (suc n) pot index mask ds e = elim (Bool-cases (test_bit mask pot)) [
  | inl hit ↦
      let size : length (drop index ds) ≡ suc (length (pots_in n (pot + 1) mask)) = rw hit at e in
      let more : index < length ds = omega (arith, length-drop index ds) in
      let head = drop-cons index ds 0 more in
      let step : index + 1 ≡ suc index = omega arith in
      let ih =
        water_pots-intervals n (pot + 1) (suc index) mask ds (omega (arith, ap length head)) in
      rw (hit, step, head, pow_pos pot) (ap (◌∷◌ (2 ^ pot, get_or ds index 0 * 1000)) ih.0, ih.1)
  | inr miss ↦ rw miss (water_pots-intervals n (pot + 1) index mask ds (rw miss at e))
]

next_power : (pot : ℕ) → 2 ^ (pot + 1) ≡ 2 ^ suc pot
next_power pot = let e : pot + 1 ≡ suc pot = omega arith in rw e

length-pots_in : (n pot mask : ℕ) → length (pots_in n pot mask) ≡ popcount n (mask / 2 ^ pot)
unfolding pots_in popcount
length-pots_in zero pot mask = refl
length-pots_in (suc n) pot mask = ground (
  arith,
  length-pots_in n (pot + 1) mask,
  div-div-eq-div-mul mask (2 ^ pot) 2,
  pow-suc 2 pot,
  next_power pot,
)

popcount_width : (a b m : ℕ) → m < 2 ^ a → m < 2 ^ b → popcount a m ≡ popcount b m
unfolding popcount
popcount_width zero zero m h k = refl
popcount_width zero (suc b) m h k =
    let e : m ≡ 0 = omega arith in rw e (omega (arith, popcount_zero b))
popcount_width (suc a) zero m h k =
    let e : m ≡ 0 = omega arith in rw e (omega (arith, popcount_zero a))
popcount_width (suc a) (suc b) m h k =
    omega
      (arith, popcount_width a b (m / 2) (omega (arith, pow-suc 2 a)) (omega (arith, pow-suc 2 b)))

-- What the worker has checked of a command that it executes.
parse_water_command-inv :
    (pots : ℕ) (body : List ℕ) (c : WaterCommand)
    → parse_water_command pots body ≡ some c
    → (mask_allowed pots c.pot_mask ≡ true) × (length c.durations ≡ popcount 16 c.pot_mask)
unfolding parse_water_command
parse_water_command-inv pots body c e = ground arith

counted_pots :
    (pots mask : ℕ)
    → pots ≤ 16
    → mask_allowed pots mask ≡ true
    → length (pots_in pots 0 mask) ≡ popcount 16 mask
counted_pots pots mask h allowed = elim (Bool-cases (leb 16 pots)) [
  | inl many ↦
      let sixteen : pots ≡ 16 = ground arith in
      rw sixteen (length-pots_in 16 0 mask ∙ ap (popcount 16) (omega arith))
  | inr fewer ↦
      let zero_rest : mask / 2 ^ pots ≡ 0 = ground arith in
      let below : mask < 2 ^ pots = omega (
        arith,
        (div-lt_iff_lt-mul {k = 2 ^ pots} {x = mask} {y = 1} (one-le-pow pots 2 (omega arith))).0,
      ) in
      length-pots_in pots 0 mask
      ∙ ap (popcount pots) (omega arith)
      ∙ popcount_width pots 16 mask below
          (omega (arith, below, pow-le-pow_right {n = 2} (omega arith) h))
]

-- Actions that leave the valves alone, put behind others, change nothing.
abbrev Quiet : List Action → Type 0
Quiet ys = (m : ℕ) → (open_intervals m ys ≡ []) × (last_mask m ys ≡ m)

water_done-Quiet : (source : Mac) (mask : ℕ) → Quiet (water_done source mask)
unfolding water_done open_intervals last_mask tlv_append
water_done-Quiet source mask m = (refl, refl)

append-Quiet :
    (xs ys : List Action) (m : ℕ)
    → Quiet ys
    → (open_intervals m (xs ++ ys) ≡ open_intervals m xs)
      × (last_mask m (xs ++ ys) ≡ last_mask m xs)
unfolding open_intervals last_mask
append-Quiet [] ys m q = q m
append-Quiet (valve_set_mask k ∷ xs) ys m q = append-Quiet xs ys k q
append-Quiet (delay_ms d ∷ xs) ys m q = ground (arith, append-Quiet xs ys m q)
append-Quiet (send_ack k ∷ xs) ys m q = append-Quiet xs ys m q
append-Quiet (send_command k b ∷ xs) ys m q = append-Quiet xs ys m q
append-Quiet (advertise_status ∷ xs) ys m q = append-Quiet xs ys m q
append-Quiet (open_ota_window k d ∷ xs) ys m q = append-Quiet xs ys m q
append-Quiet (deep_sleep_us d ∷ xs) ys m q = append-Quiet xs ys m q

-- A worker that executes a water command opens one valve at a time: the pots of the mask in
-- increasing order, each for exactly its own duration in seconds; and at the end all are closed.
pub execute_water_command-intervals :
    (pots : ℕ) (source : Mac) (body : List ℕ) (c : WaterCommand)
    → pots ≤ 16
    → parse_water_command pots body ≡ some c
    → (open_intervals 0 (execute_water_command pots source body)
        ≡ one_by_one (pots_in pots 0 c.pot_mask) c.durations)
      × (last_mask 0 (execute_water_command pots source body) ≡ 0)
      × (length c.durations ≡ length (pots_in pots 0 c.pot_mask))
unfolding execute_water_command
execute_water_command-intervals pots source body c h e =
    let (allowed, counted) = parse_water_command-inv pots body c e in
    let size = counted ∙ sym (counted_pots pots c.pot_mask h allowed) in
    let (shown, closed) = water_pots-intervals pots 0 0 c.pot_mask c.durations size in
    let (same, still) =
      append-Quiet (water_pots pots 0 0 c.pot_mask c.durations) (water_done source c.pot_mask) 0
        (water_done-Quiet source c.pot_mask) in
    rw (e, execute_water_command) (same ∙ shown, still ∙ closed, size)
