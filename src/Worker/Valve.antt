-- ===== src/Worker/Valve.antt =====
-- worker/src/valve.cpp: the valves, and the time after they close in which the battery voltage is
-- not measured. Every function reads and writes the state under the mutex. It reads
-- the time before it takes the mutex, so the times of the calls are in any order, and writes the pins
-- after it has released it; the pins are not modelled. A sampling that has begun holds the mutex, so
-- no valve state changes until it ends; `sampling` says so. Times are microseconds.
use plant_watering.Prelude.{
  ℕ, ◌+◌, ◌-◌, ◌%◌, ◌^◌, ◌≤◌, ◌≡◌, Bool, true, false, not, ◌&&◌, arith, leb, ◌==◌, if◌then◌else◌,
  if_rule, Option, none, some,
}
use plant_watering.Prelude.Bytes.{test_bit}

abbrev pub battery_recovery_us : ℕ
battery_recovery_us = 5000000

pub record ValveState : Type 0 where
  pub valve_state : ℕ
  pub battery_blocked_until_us : ℕ
  pub sampling : Bool

-- `setValveState`, at the time that it reads.
unfoldable pub set_valve_state : ValveState → ℕ → ℕ → ValveState
set_valve_state s next now =
    let moved = record s { valve_state = next } in
    if not (s.valve_state == 0) && next == 0
    then record moved { battery_blocked_until_us = now + battery_recovery_us }
    else moved

-- `previousState | (1u << idx)` and `previousState & ~(1u << idx)`.
abbrev pub with_bit : ℕ → ℕ → Bool → ℕ
with_bit state idx enabled =
    if enabled
    then (if test_bit state idx then state else state + 2 ^ idx)
    else (if test_bit state idx then state - 2 ^ idx else state)

unfoldable pub update_valve_bit : ValveState → ℕ → Bool → ℕ → ValveState
unfolding set_valve_state
update_valve_bit s idx enabled now = set_valve_state s (with_bit s.valve_state idx enabled) now

unfoldable pub reset_valve_state : ValveState → ValveState
reset_valve_state s = record s { valve_state = 0; battery_blocked_until_us = 0 }

-- `mask & VALVE_MASK_ALL`.
abbrev pub valve_mask : ℕ → ℕ → ℕ
valve_mask pots mask = mask % 2 ^ (if leb 16 pots then 16 else pots)

-- For a worker with several pots. The valves follow the state through the shift registers.
unfoldable pub valve_on : ℕ → ValveState → ℕ → ℕ → ValveState
unfolding update_valve_bit
valve_on pots s idx now = if leb pots idx then s else update_valve_bit s idx true now

unfoldable pub valve_off : ℕ → ValveState → ℕ → ℕ → ValveState
unfolding update_valve_bit
valve_off pots s idx now = if leb pots idx then s else update_valve_bit s idx false now

unfoldable pub valve_set_mask : ℕ → ValveState → ℕ → ℕ → ValveState
unfolding set_valve_state
valve_set_mask pots s mask now = set_valve_state s (valve_mask pots mask) now

-- For a worker with one pot.
unfoldable pub valve_set_mask_single : ValveState → ℕ → ℕ → ValveState
unfolding set_valve_state
valve_set_mask_single s mask now = set_valve_state s (if mask % 2 == 1 then 1 else 0) now

unfoldable pub valve_begin_battery_sampling : ValveState → ℕ → ValveState × Bool
valve_begin_battery_sampling s now =
    let allowed = s.valve_state == 0 && leb s.battery_blocked_until_us now in
    (record s { sampling = allowed }, allowed)

unfoldable pub valve_end_battery_sampling : ValveState → ValveState
valve_end_battery_sampling s = record s { sampling = false }

-- The calls of the other tasks. The four that move valves or begin a sampling wait for the mutex.
pub data ValveCall : Type 0 where
  set_mask switch_on switch_off : ℕ → ValveCall
  begin_sampling end_sampling : ValveCall

-- One call at a time, none of the waiting ones while a sampling holds the mutex.
unfoldable pub valve_call : ℕ → ValveState → ValveCall → ℕ → ValveState
valve_call pots s end_sampling now = valve_end_battery_sampling s
valve_call pots s (set_mask mask) now = if s.sampling then s else valve_set_mask pots s mask now
valve_call pots s (switch_on idx) now = if s.sampling then s else valve_on pots s idx now
valve_call pots s (switch_off idx) now = if s.sampling then s else valve_off pots s idx now
valve_call pots s begin_sampling now =
    if s.sampling then s else (valve_begin_battery_sampling s now).0

-- The states after any calls, with the time at which the last open valve was shut.
pub data Reached (pots : ℕ) : ValveState → Option ℕ → Type 0 where
  started :
      Reached pots (record { valve_state = 0; battery_blocked_until_us = 0; sampling = false }) none
  called :
      {s : ValveState} {closed : Option ℕ} (c : ValveCall) (now : ℕ)
      → Reached pots s closed
      → Reached pots (valve_call pots s c now) (
          if not (s.valve_state == 0) && (valve_call pots s c now).valve_state == 0
          then some now
          else closed)

record IsQuiet (s : ValveState) (closed : Option ℕ) : Type 0 where
  shut : s.sampling ≡ true → s.valve_state ≡ 0
  blocked :
      (at : ℕ)
      → closed ≡ some at
      → s.valve_state ≡ 0
      → at + battery_recovery_us ≤ s.battery_blocked_until_us

-- The time of the last closing after a step from `s` to `s'`.
abbrev closing : ValveState → Option ℕ → ℕ → ValveState → Option ℕ
closing s closed now s' =
    if not (s.valve_state == 0) && s'.valve_state == 0 then some now else closed

abbrev QuietAfter : ValveState → Option ℕ → ℕ → ValveState → Type 0
QuietAfter s closed now s' = IsQuiet s' (closing s closed now s')

set_valve_state-IsQuiet :
    (s : ValveState) (closed : Option ℕ) (next now : ℕ)
    → s.sampling ≡ false
    → IsQuiet s closed
    → QuietAfter s closed now (set_valve_state s next now)
unfolding set_valve_state
set_valve_state-IsQuiet s closed next now free w = record {
  shut = λ h. ground arith;
  blocked = λ at e h. ground (arith, w.blocked at);
}

same-IsQuiet :
    (s : ValveState) (closed : Option ℕ) (now : ℕ) → IsQuiet s closed → QuietAfter s closed now s
same-IsQuiet s closed now w =
    let never : not (s.valve_state == 0) && s.valve_state == 0 ≡ false = ground arith in rw never w

sampling-IsQuiet :
    (s : ValveState) (closed : Option ℕ) (now : ℕ) (sampling : Bool)
    → (sampling ≡ true → s.valve_state ≡ 0)
    → IsQuiet s closed
    → QuietAfter s closed now (record s { sampling = sampling })
sampling-IsQuiet s closed now sampling h w =
    let never : not (s.valve_state == 0) && s.valve_state == 0 ≡ false = ground arith in
    rw never (record { shut = h; blocked = w.blocked })

valve_call-IsQuiet :
    (pots : ℕ) (s : ValveState) (closed : Option ℕ) (c : ValveCall) (now : ℕ)
    → IsQuiet s closed
    → QuietAfter s closed now (valve_call pots s c now)
unfolding valve_call valve_set_mask valve_on valve_off update_valve_bit valve_begin_battery_sampling
    valve_end_battery_sampling
valve_call-IsQuiet pots s closed (set_mask mask) now w =
    if_rule (QuietAfter s closed now) s.sampling (λ _. same-IsQuiet s closed now w)
      (λ free. set_valve_state-IsQuiet s closed (valve_mask pots mask) now free w)
valve_call-IsQuiet pots s closed (switch_on idx) now w =
    if_rule (QuietAfter s closed now) s.sampling (λ _. same-IsQuiet s closed now w)
      (λ free.
        if_rule (QuietAfter s closed now) (leb pots idx) (λ _. same-IsQuiet s closed now w)
          (λ _. set_valve_state-IsQuiet s closed (with_bit s.valve_state idx true) now free w))
valve_call-IsQuiet pots s closed (switch_off idx) now w =
    if_rule (QuietAfter s closed now) s.sampling (λ _. same-IsQuiet s closed now w)
      (λ free.
        if_rule (QuietAfter s closed now) (leb pots idx) (λ _. same-IsQuiet s closed now w)
          (λ _. set_valve_state-IsQuiet s closed (with_bit s.valve_state idx false) now free w))
valve_call-IsQuiet pots s closed begin_sampling now w =
    if_rule (QuietAfter s closed now) s.sampling (λ _. same-IsQuiet s closed now w)
      (λ free. sampling-IsQuiet s closed now _ (λ h. ground arith) w)
valve_call-IsQuiet pots s closed end_sampling now w =
    sampling-IsQuiet s closed now false (λ h. ground arith) w

Reached-IsQuiet :
    (pots : ℕ) {s : ValveState} {closed : Option ℕ} → Reached pots s closed → IsQuiet s closed
Reached-IsQuiet pots started = record { shut = λ h. ground arith; blocked = λ at e. ground arith }
Reached-IsQuiet pots (called {s} {closed} c now r) =
    valve_call-IsQuiet pots s closed c now (Reached-IsQuiet pots r)

-- After any calls: while the battery is sampled all valves are shut, and a sampling that may begin
-- begins with the valves shut and at least five seconds after the last open one was shut.
pub battery_sampling_quiet :
    (pots : ℕ) (s : ValveState) (closed : Option ℕ) (now : ℕ)
    → Reached pots s closed
    → (s.sampling ≡ true → s.valve_state ≡ 0)
      × ((valve_begin_battery_sampling s now).1 ≡ true
          → (s.valve_state ≡ 0) × ((at : ℕ) → closed ≡ some at → at + battery_recovery_us ≤ now))
unfolding valve_begin_battery_sampling
battery_sampling_quiet pots s closed now r =
    let w = Reached-IsQuiet pots r in
    (w.shut, λ ok. (ground arith, λ at e. ground (arith, w.blocked at e)))
