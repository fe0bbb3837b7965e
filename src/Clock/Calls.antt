-- ===== src/Clock/Calls.antt =====
-- The calls of main/src/clock_manager.cpp that set the clock or read the time of day.
use plant_watering.Prelude.{
  ℕ, Bool, true, false, List, [], ◌++◌, Option, none, some, leb, ◌==◌, if◌then◌else◌,
}
use plant_watering.Prelude.Int.{ℤ}
use plant_watering.Policy.ClockMath.{
  clock_default_epoch_sec, local_time_of_day_sec, epoch_for_local_time_of_day,
}
use plant_watering.Clock.{
  fallback, manual, ClockManager, Effect, current_epoch, apply_epoch_correction, cancel_ntp_attempt,
}

unfoldable pub clock_reset_to_default : ℕ → ClockManager → ClockManager × List Effect
unfolding cancel_ntp_attempt apply_epoch_correction
clock_reset_to_default now_us s =
    let (s1, effects1) = cancel_ntp_attempt true s in
    let (done, s2, effects2) =
      apply_epoch_correction s1 clock_default_epoch_sec fallback true 0 now_us in
    (s2, effects1 ++ effects2)

-- The end of `clockSetUserTimeOfDaySec`, with the answer of `clockEpochForLocalTimeOfDay`.
unfoldable pub set_user_epoch : ClockManager → ℕ → Option ℕ → Bool × ClockManager × List Effect
unfolding apply_epoch_correction
set_user_epoch s later_us none = (false, s, [])
set_user_epoch s later_us (some new_utc) =
    let (done, s', effects) = apply_epoch_correction s new_utc manual true 0 later_us in
    (true, s', effects)

-- `clockSetUserTimeOfDaySec`, with the time zone of the settings and the two times it reads.
unfoldable pub clock_set_user_time_of_day_sec :
    ℤ → ℕ → ℕ → ℕ → ClockManager → Bool × ClockManager × List Effect
unfolding cancel_ntp_attempt current_epoch epoch_for_local_time_of_day set_user_epoch
clock_set_user_time_of_day_sec tz sec_of_day now_us later_us s =
    let (s1, effects1) = cancel_ntp_attempt false s in
    let reference = current_epoch s1 now_us in
    let (done, s2, effects2) =
      set_user_epoch s1 later_us (epoch_for_local_time_of_day reference tz sec_of_day) in
    if leb 86400 sec_of_day then (false, s, []) else (done, s2, effects1 ++ effects2)

-- `clockGetCurrentTimeOfDaySec`.
unfoldable pub clock_get_current_time_of_day_sec : ℤ → ℕ → ClockManager → ℕ
unfolding current_epoch local_time_of_day_sec
clock_get_current_time_of_day_sec tz now_us s =
    let utc = current_epoch s now_us in if utc == 0 then 0 else local_time_of_day_sec utc tz
