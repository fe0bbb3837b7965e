-- ===== src/Clock.antt =====
-- main/src/clock_manager.cpp: the wall clock as a base value and the time since, and the requests for
-- the network's time. A call holds the mutex, so it is one step. Times of `esp_timer_get_time` are
-- microseconds, which are not negative.
pub mod Calls
pub mod Stale
pub mod Answer
pub mod Manual
use plant_watering.Prelude.{
  ℕ, zero, ◌+◌, ◌-◌, ◌*◌, ◌/◌, Bool, true, false, not, ◌&&◌, ◌||◌, List, [], ◌∷◌, ◌++◌, Option,
  none, some, ltb, leb, ◌==◌, if◌then◌else◌,
}
use plant_watering.Prelude.Int.{ℤ}
use plant_watering.Prelude.Words.{next_generation}
use plant_watering.Policy.ClockMath.{
  clock_default_epoch_sec, epoch_is_sane, ntp_epoch_is_sane, InitialSelection, select_initial_epoch,
  local_time_of_day_sec, epoch_for_local_time_of_day,
}

pub data ClockSource : Type 0 where
  uninitialized fallback restored manual ntp : ClockSource

-- The texts that `gNtpSyncError` can hold.
pub data NtpSyncError : Type 0 where
  no_error invalid_time wifi_disconnected timeout : NtpSyncError

abbrev is_uninitialized : ClockSource → Bool
is_uninitialized uninitialized = true
is_uninitialized fallback = false
is_uninitialized restored = false
is_uninitialized manual = false
is_uninitialized ntp = false

abbrev pub ntp_timeout_us : ℕ
ntp_timeout_us = 10000000

abbrev pub checkpoint_interval_us : ℕ
checkpoint_interval_us = 21600000000

-- The variables of the file. The mailbox of the network task is the last four.
pub record ClockManager : Type 0 where
  pub clock_base_utc : ℕ
  pub clock_base_us : ℕ
  pub clock_source : ClockSource
  pub ntp_sync_pending : Bool
  pub ntp_deadline_us : ℕ
  pub last_checkpoint_us : ℕ
  pub ntp_sync_error : NtpSyncError
  pub ntp_attempt_generation : ℕ
  pub ntp_callback_ready : Bool
  pub ntp_callback_epoch : ℕ
  pub ntp_callback_active_generation : ℕ
  pub ntp_callback_generation : ℕ

-- The calls of other parts, in their order.
pub data Effect : Type 0 where
  stop_ntp config_time : Effect
  set_system_epoch : ℕ → Effect
  rebase_timestamps : ℕ → ℕ → Effect
  set_saved_utc : ℕ → Bool → Effect

-- `currentEpochLocked`.
unfoldable pub current_epoch : ClockManager → ℕ → ℕ
current_epoch s now_us =
    if is_uninitialized s.clock_source || s.clock_base_utc == 0
    then 0
    else s.clock_base_utc + (now_us - s.clock_base_us) / 1000000

-- `applyEpochCorrection` behind its guards.
abbrev corrected : ClockManager → ℕ → ClockSource → Bool → ℕ → ClockManager
corrected s new_epoch source for_ntp now_us =
    let clock = record s {
      clock_base_utc = new_epoch;
      clock_base_us = now_us;
      clock_source = source;
      last_checkpoint_us = now_us;
    } in
    if for_ntp
    then record clock { ntp_sync_pending = false; ntp_deadline_us = 0; ntp_sync_error = no_error }
    else clock

unfoldable pub apply_epoch_correction :
    ClockManager → ℕ → ClockSource → Bool → ℕ → ℕ → Bool × ClockManager × List Effect
unfolding epoch_is_sane current_epoch
apply_epoch_correction s new_epoch source save_immediately expected_generation now_us =
    let for_ntp = not (expected_generation == 0) in
    if not (epoch_is_sane new_epoch)
    then (false, s, [])
    else if for_ntp
        && (not s.ntp_sync_pending || not (s.ntp_attempt_generation == expected_generation))
    then (false, s, [])
    else (
      true,
      corrected s new_epoch source for_ntp now_us,
      (if for_ntp then stop_ntp ∷ [] else [])
          ++ (set_system_epoch new_epoch
              ∷ rebase_timestamps (current_epoch s now_us) new_epoch
              ∷ set_saved_utc new_epoch save_immediately
              ∷ []),
    )

-- `ntpTimeAvailable`, with the seconds of the network's time.
unfoldable pub ntp_time_available : ℕ → ClockManager → ClockManager
ntp_time_available seconds s = if seconds == 0 then s else record s {
  ntp_callback_epoch = seconds;
  ntp_callback_generation = s.ntp_callback_active_generation;
  ntp_callback_ready = true;
}

-- The mailbox emptied, for the attempts with this number.
abbrev pub empty_mailbox : ℕ → ClockManager → ClockManager
empty_mailbox generation s = record s {
  ntp_callback_active_generation = generation;
  ntp_callback_ready = false;
  ntp_callback_epoch = 0;
  ntp_callback_generation = 0;
}

-- The state after `takeNtpCallback`.
abbrev pub take_ntp_callback : ClockManager → ClockManager
take_ntp_callback s =
    if s.ntp_callback_ready then empty_mailbox s.ntp_callback_active_generation s else s

-- The attempt is over, with this error.
abbrev pub fail_ntp : NtpSyncError → ClockManager → ClockManager
fail_ntp error s = record s {
  ntp_sync_pending = false;
  ntp_deadline_us = 0;
  ntp_sync_error = error;
}

unfoldable pub cancel_ntp_attempt : Bool → ClockManager → ClockManager × List Effect
cancel_ntp_attempt clear_error s =
    let generation = next_generation s.ntp_attempt_generation in
    (
      empty_mailbox generation (record s {
        ntp_sync_pending = false;
        ntp_deadline_us = 0;
        ntp_attempt_generation = generation;
        ntp_sync_error = if clear_error then no_error else s.ntp_sync_error;
      }),
      if s.ntp_sync_pending then stop_ntp ∷ [] else [],
    )

-- `clockManagerInit`, with the retained clock value and the saved one.
unfoldable pub clock_manager_init : ℕ → ℕ → ℕ → ClockManager → ClockManager × List Effect
unfolding select_initial_epoch
clock_manager_init retained saved now_us s =
    let initial = select_initial_epoch retained saved in
    (
      record s {
        clock_base_utc = initial.epoch_sec;
        clock_base_us = now_us;
        clock_source = if initial.restored then restored else fallback;
        ntp_sync_pending = false;
        ntp_deadline_us = 0;
        last_checkpoint_us = now_us;
        ntp_sync_error = no_error;
      },
      set_system_epoch initial.epoch_sec
          ∷ (if saved == initial.epoch_sec then [] else set_saved_utc initial.epoch_sec true ∷ []),
    )

-- The first part of `clockManagerLoop`: what has come from the network.
unfoldable pub use_ntp_callback : ℕ → ClockManager → ClockManager × List Effect
unfolding apply_epoch_correction ntp_epoch_is_sane
use_ntp_callback now_us s =
    let taken = take_ntp_callback s in
    let (done, applied, effects) =
      apply_epoch_correction taken s.ntp_callback_epoch ntp true s.ntp_callback_generation now_us in
    if not s.ntp_callback_ready
    then (s, [])
    else if ntp_epoch_is_sane s.ntp_callback_epoch
    then (applied, effects)
    else if taken.ntp_sync_pending && taken.ntp_attempt_generation == s.ntp_callback_generation
    then (fail_ntp invalid_time taken, stop_ntp ∷ [])
    else (taken, [])

-- The second part: the end of an attempt.
unfoldable pub end_ntp_attempt : Bool → ℕ → ClockManager → ClockManager × List Effect
end_ntp_attempt wifi_connected now_us s =
    if s.ntp_sync_pending && not wifi_connected
    then (fail_ntp wifi_disconnected s, stop_ntp ∷ [])
    else if s.ntp_sync_pending && leb s.ntp_deadline_us now_us
    then (fail_ntp timeout s, stop_ntp ∷ [])
    else (s, [])

-- `clockCheckpointNow`, which reads the time twice.
unfoldable pub clock_checkpoint_now : ℕ → ℕ → ClockManager → ClockManager × List Effect
unfolding current_epoch
clock_checkpoint_now now_us later_us s =
    let utc = current_epoch s now_us in
    if utc == 0
    then (s, [])
    else (record s { last_checkpoint_us = later_us }, set_saved_utc utc true ∷ [])

-- The times at which a round of `clockManagerLoop` asks for the time.
pub record LoopTimes : Type 0 where
  pub correction_us : ℕ
  pub check_us : ℕ
  pub checkpoint_us : ℕ
  pub later_us : ℕ

-- The rest of `clockManagerLoop`, behind the answer: the end of an attempt and the checkpoint.
unfoldable pub end_of_round : Bool → LoopTimes → ClockManager → ClockManager × List Effect
unfolding end_ntp_attempt clock_checkpoint_now
end_of_round wifi_connected t s =
    let (s1, effects1) = end_ntp_attempt wifi_connected t.check_us s in
    let due =
      not (is_uninitialized s1.clock_source)
      && leb checkpoint_interval_us (t.check_us - s1.last_checkpoint_us) in
    let (s2, effects2) =
      if due then clock_checkpoint_now t.checkpoint_us t.later_us s1 else (s1, []) in
    (s2, effects1 ++ effects2)

unfoldable pub clock_manager_loop : Bool → LoopTimes → ClockManager → ClockManager × List Effect
unfolding use_ntp_callback end_of_round
clock_manager_loop wifi_connected t s =
    let (s1, effects1) = use_ntp_callback t.correction_us s in
    let (s2, effects2) = end_of_round wifi_connected t s1 in (s2, effects1 ++ effects2)

unfoldable pub clock_request_ntp_sync : Bool → ℕ → ClockManager → Bool × ClockManager × List Effect
clock_request_ntp_sync wifi_connected now_us s =
    let generation = next_generation s.ntp_attempt_generation in
    if not wifi_connected then (false, s, []) else if s.ntp_sync_pending then (true, s, []) else (
      true,
      empty_mailbox generation (record s {
        ntp_sync_pending = true;
        ntp_deadline_us = now_us + ntp_timeout_us;
        ntp_sync_error = no_error;
        ntp_attempt_generation = generation;
      }),
      config_time ∷ [],
    )
