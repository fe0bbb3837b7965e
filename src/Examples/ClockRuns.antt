-- ===== src/Examples/ClockRuns.antt =====
-- The clock of main/src/clock_manager.cpp at concrete inputs.
use plant_watering.Prelude.{◌+◌, ◌-◌, ◌/◌, ◌≡◌, ◌<◌, refl, true, false, List, [], ◌∷◌, ◌++◌, arith}
use plant_watering.Prelude.Int.{pos}
use plant_watering.Policy.ClockMath.{ntp_epoch_is_sane}
use plant_watering.Clock.{
  ClockManager, LoopTimes, Effect, restored, ntp, timeout, current_epoch, ntp_time_available,
  clock_manager_loop, clock_request_ntp_sync,
}
use plant_watering.Clock.Calls.{clock_set_user_time_of_day_sec, clock_get_current_time_of_day_sec}
use plant_watering.Clock.Stale.{
  IsIdle, SameClock, QuietEvent, heard, loop, quiet_run, quiet_run-SameClock,
}
use plant_watering.Clock.Answer.{correction_effects, clock_manager_loop-clock_request_ntp_sync}
use plant_watering.Clock.Manual.{clock_get_current_time_of_day_sec-quiet_run}

-- The third attempt has run out of time.
abbrev timed_out : ClockManager
timed_out = record {
  clock_base_utc = 1700000000;
  clock_base_us = 1000000;
  clock_source = restored;
  ntp_sync_pending = false;
  ntp_deadline_us = 0;
  last_checkpoint_us = 1000000;
  ntp_sync_error = timeout;
  ntp_attempt_generation = 3;
  ntp_callback_ready = false;
  ntp_callback_epoch = 0;
  ntp_callback_active_generation = 3;
  ntp_callback_generation = 0;
}

timed_out-IsIdle : IsIdle timed_out
timed_out-IsIdle = record {
  attempted = λ e. omega (arith, e);
  idle = refl;
  same_attempt = refl;
  mailbox = λ e. absurd (ground (arith, e));
}

abbrev at_thirty : LoopTimes
at_thirty = record {
  correction_us = 30000000;
  check_us = 30000010;
  checkpoint_us = 30000020;
  later_us = 30000030;
}

-- An answer that comes after that.
abbrev late_answer : List QuietEvent
late_answer = heard 1800000000 ∷ loop true at_thirty ∷ []

quiet_run-SameClock_example :
    IsIdle (quiet_run late_answer timed_out) × SameClock timed_out (quiet_run late_answer timed_out)
quiet_run-SameClock_example = quiet_run-SameClock late_answer timed_out timed_out-IsIdle

time_is_set : (clock_set_user_time_of_day_sec (pos 60) 30000 5000000 5000100 timed_out).0 ≡ true
unfolding clock_set_user_time_of_day_sec
time_is_set = refl

time_in_range :
    (clock_set_user_time_of_day_sec (pos 60) 30000 5000000 5000100 timed_out).1.clock_base_utc
      + (62000100 - 5000100) / 1000000
    < 4102444800
unfolding clock_set_user_time_of_day_sec
time_in_range = omega arith

clock_get_current_time_of_day_sec-quiet_run_example :
    clock_get_current_time_of_day_sec (pos 60) 62000100 (
      quiet_run late_answer
        (clock_set_user_time_of_day_sec (pos 60) 30000 5000000 5000100 timed_out).1)
    ≡ 30057
clock_get_current_time_of_day_sec-quiet_run_example =
    clock_get_current_time_of_day_sec-quiet_run (pos 60) 30000 5000000 5000100 62000100 timed_out
      late_answer (omega arith, omega arith) (omega arith) time_is_set time_in_range

plausible_answer : ntp_epoch_is_sane 1800000000 ≡ true
unfolding ntp_epoch_is_sane
plausible_answer = refl

clock_manager_loop-clock_request_ntp_sync_example :
    let answered =
      ntp_time_available 1800000000 (clock_request_ntp_sync true 20000000 timed_out).1 in
    let (s', effects) = clock_manager_loop true at_thirty answered in
    (s'.clock_base_utc ≡ 1800000000)
    × (s'.clock_base_us ≡ 30000000)
    × (s'.clock_source ≡ ntp)
    × (s'.ntp_sync_pending ≡ false)
    × ((rest : List Effect) × (effects
          ≡ correction_effects (current_epoch timed_out 30000000) 1800000000 ++ rest))
clock_manager_loop-clock_request_ntp_sync_example =
    clock_manager_loop-clock_request_ntp_sync timed_out 20000000 1800000000 true at_thirty refl
      (omega arith) plausible_answer
