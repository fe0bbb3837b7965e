-- ===== src/Clock/Manual.antt =====
-- Setting the time of day by hand in main/src/clock_manager.cpp.
use plant_watering.Prelude.{
  ℕ, ◌+◌, ◌-◌, ◌/◌, ◌%◌, ◌<◌, ◌≡◌, refl, ◌∙◌, Bool, true, false, List, Option, none, some, leb,
  ◌==◌, arith, if_rule,
}
use plant_watering.Prelude.Int.{ℤ}
use plant_watering.Prelude.Words.{u32_mod, next_generation_fresh}
use plant_watering.Policy.ClockMath.{
  clock_max_sane_epoch_sec, epoch_is_sane, IsSane, IsInt16, local_time_of_day_sec,
  local_time_of_day_sec-mod, epoch_for_local_time_of_day,
  local_time_of_day_sec-epoch_for_local_time_of_day,
}
use plant_watering.Clock.{
  ClockManager, Effect, manual, current_epoch, apply_epoch_correction, cancel_ntp_attempt,
}
use plant_watering.Clock.Calls.{
  set_user_epoch, clock_set_user_time_of_day_sec, clock_get_current_time_of_day_sec,
}
use plant_watering.Clock.Stale.{IsIdle, SameClock, QuietEvent, quiet_run, quiet_run-SameClock}

local_time_of_day_sec-later :
    (utc d : ℕ) (tz : ℤ)
    → IsInt16 tz
    → IsSane utc
    → utc + d < clock_max_sane_epoch_sec
    → local_time_of_day_sec (utc + d) tz ≡ (local_time_of_day_sec utc tz + d) % 86400
local_time_of_day_sec-later utc d tz h s below =
    rw
      (
        local_time_of_day_sec-mod utc tz h s,
        local_time_of_day_sec-mod (utc + d) tz h (omega arith, below),
      )
      (omega arith)

-- A successful call has stored the value that it found, and cancelled any attempt to ask the network.
record IsShowing (tz : ℤ) (sec later : ℕ) (s : ClockManager) : Type 0 where
  sane : IsSane s.clock_base_utc
  wanted : local_time_of_day_sec s.clock_base_utc tz ≡ sec
  since : s.clock_base_us ≡ later
  by_hand : s.clock_source ≡ manual
  no_attempt : IsIdle s

apply_epoch_correction-manual :
    (tz : ℤ) (sec later out : ℕ) (s : ClockManager)
    → IsIdle s
    → IsSane out
    → local_time_of_day_sec out tz ≡ sec
    → IsShowing tz sec later (apply_epoch_correction s out manual true 0 later).1
unfolding apply_epoch_correction epoch_is_sane
apply_epoch_correction-manual tz sec later out s w sane wanted =
    let ok : epoch_is_sane out ≡ true = ground arith in
    rw ok (record {
      sane = sane;
      wanted = wanted;
      since = refl;
      by_hand = refl;
      no_attempt = record {
        attempted = w.attempted;
        idle = w.idle;
        same_attempt = w.same_attempt;
        mailbox = w.mailbox;
      };
    })

cancel_ntp_attempt-IsIdle :
    (clear : Bool) (s : ClockManager)
    → s.ntp_attempt_generation < u32_mod
    → IsIdle (cancel_ntp_attempt clear s).0
unfolding cancel_ntp_attempt
cancel_ntp_attempt-IsIdle clear s g = record {
  attempted = (next_generation_fresh s.ntp_attempt_generation g).0;
  idle = refl;
  same_attempt = refl;
  mailbox = λ e. absurd (ground (arith, e));
}

set_user_epoch-IsShowing :
    (tz : ℤ) (sec later reference : ℕ) (s : ClockManager) (found : Option ℕ)
    → IsInt16 tz
    → IsIdle s
    → epoch_for_local_time_of_day reference tz sec ≡ found
    → (set_user_epoch s later found).0 ≡ true
    → IsShowing tz sec later (set_user_epoch s later found).1
unfolding set_user_epoch
set_user_epoch-IsShowing tz sec later reference s none h w e set = absurd (ground (arith, set))
set_user_epoch-IsShowing tz sec later reference s (some out) h w e set =
    let (wanted, sane, day, below, above) =
      local_time_of_day_sec-epoch_for_local_time_of_day reference tz sec out h e in
    apply_epoch_correction-manual tz sec later out s w sane wanted

clock_set_user_time_of_day_sec-IsShowing :
    (tz : ℤ) (sec now later : ℕ) (s : ClockManager)
    → IsInt16 tz
    → s.ntp_attempt_generation < u32_mod
    → (clock_set_user_time_of_day_sec tz sec now later s).0 ≡ true
    → IsShowing tz sec later (clock_set_user_time_of_day_sec tz sec now later s).1
unfolding clock_set_user_time_of_day_sec
clock_set_user_time_of_day_sec-IsShowing tz sec now later s h g =
    let s1 = (cancel_ntp_attempt false s).0 in
    if_rule (λ (r : Bool × ClockManager × List Effect). r.0 ≡ true → IsShowing tz sec later r.1)
      (leb 86400 sec) (λ _ e. absurd (ground (arith, e)))
      (λ _ e.
        set_user_epoch-IsShowing tz sec later (current_epoch s1 now) s1 _ h
          (cancel_ntp_attempt-IsIdle false s g) refl e)

-- The seconds of a clock that has been set, at a later time.
current_epoch-IsShowing :
    (tz : ℤ) (sec later now : ℕ) (s : ClockManager)
    → IsShowing tz sec later s
    → current_epoch s now ≡ s.clock_base_utc + (now - later) / 1000000
unfolding current_epoch
current_epoch-IsShowing tz sec later now s w =
    let ne : (s.clock_base_utc == 0) ≡ false = ground (arith, w.sane) in
    rw (w.by_hand, ne, w.since) refl

clock_get_current_time_of_day_sec-IsShowing :
    (tz : ℤ) (sec later now : ℕ) (s : ClockManager)
    → IsInt16 tz
    → IsShowing tz sec later s
    → s.clock_base_utc + (now - later) / 1000000 < clock_max_sane_epoch_sec
    → clock_get_current_time_of_day_sec tz now s ≡ (sec + (now - later) / 1000000) % 86400
unfolding clock_get_current_time_of_day_sec
clock_get_current_time_of_day_sec-IsShowing tz sec later now s h w below =
    let ne : (s.clock_base_utc + (now - later) / 1000000 == 0) ≡ false = ground (arith, w.sane) in
    let shown =
      local_time_of_day_sec-later s.clock_base_utc ((now - later) / 1000000) tz h w.sane below in
    rw (current_epoch-IsShowing tz sec later now s w, ne, shown, w.wanted) refl

IsShowing-SameClock :
    (tz : ℤ) (sec later : ℕ) (s s' : ClockManager)
    → IsShowing tz sec later s
    → IsIdle s' × SameClock s s'
    → IsShowing tz sec later s'
IsShowing-SameClock tz sec later s s' w (idle, (utc, us, source)) = record {
  sane = rw utc w.sane;
  wanted = rw utc w.wanted;
  since = us ∙ w.since;
  by_hand = source ∙ w.by_hand;
  no_attempt = idle;
}

-- After the user has set the time of day, the clock shows that time and counts on, modulo a day:
-- whatever late answers of the network come, and however the loop and the checkpoints run, until a new
-- time is asked for, with the same time zone and up to the end of the range of dates.
pub clock_get_current_time_of_day_sec-quiet_run :
    (tz : ℤ) (sec now later shown_us : ℕ) (s : ClockManager) (es : List QuietEvent)
    → IsInt16 tz
    → s.ntp_attempt_generation < u32_mod
    → (clock_set_user_time_of_day_sec tz sec now later s).0 ≡ true
    → let set = (clock_set_user_time_of_day_sec tz sec now later s).1 in
      set.clock_base_utc + (shown_us - later) / 1000000 < clock_max_sane_epoch_sec
      → clock_get_current_time_of_day_sec tz shown_us (quiet_run es set)
        ≡ (sec + (shown_us - later) / 1000000) % 86400
clock_get_current_time_of_day_sec-quiet_run tz sec now later shown_us s es h g done below =
    let set = (clock_set_user_time_of_day_sec tz sec now later s).1 in
    let w = clock_set_user_time_of_day_sec-IsShowing tz sec now later s h g done in
    let kept = quiet_run-SameClock es set w.no_attempt in
    clock_get_current_time_of_day_sec-IsShowing tz sec later shown_us (quiet_run es set) h
      (IsShowing-SameClock tz sec later set _ w kept) (rw (kept.1.0) below)
