-- ===== src/Clock/Stale.antt =====
-- When the network's time may change the clock of main/src/clock_manager.cpp.
use plant_watering.Prelude.{
  ℕ, ◌≡◌, ◌≢◌, refl, sym, ◌∙◌, Bool, true, false, not, ◌&&◌, List, [], ◌∷◌, leb, ◌==◌, arith,
  Bool-cases, if_rule, inl, inr,
}
use plant_watering.Policy.ClockMath.{epoch_is_sane, ntp_epoch_is_sane}
use plant_watering.Clock.{
  ClockSource, ntp, ClockManager, Effect, LoopTimes, current_epoch, apply_epoch_correction,
  ntp_time_available, take_ntp_callback, use_ntp_callback, end_ntp_attempt, end_of_round,
  clock_checkpoint_now, clock_manager_loop,
}

-- An attempt has been made or cancelled, and none is running.
pub record IsIdle (s : ClockManager) : Type 0 where
  pub attempted : s.ntp_attempt_generation ≢ 0
  pub idle : s.ntp_sync_pending ≡ false
  pub same_attempt : s.ntp_callback_active_generation ≡ s.ntp_attempt_generation
  pub mailbox : s.ntp_callback_ready ≡ true → s.ntp_callback_generation ≡ s.ntp_attempt_generation

-- The clock shows the same time at every moment.
abbrev pub SameClock : ClockManager → ClockManager → Type 0
SameClock s s' =
    (s'.clock_base_utc ≡ s.clock_base_utc)
    × (s'.clock_base_us ≡ s.clock_base_us)
    × (s'.clock_source ≡ s.clock_source)

abbrev Keeps : ClockManager → ClockManager → Type 0
Keeps s s' = IsIdle s' × SameClock s s'

Keeps-trans : (s s1 s2 : ClockManager) → Keeps s s1 → Keeps s1 s2 → Keeps s s2
Keeps-trans s s1 s2 (w, (a, b, c)) (w', (a', b', c')) = (w', (a' ∙ a, b' ∙ b, c' ∙ c))

ntp_time_available-Keeps :
    (seconds : ℕ) (s : ClockManager) → IsIdle s → Keeps s (ntp_time_available seconds s)
unfolding ntp_time_available
ntp_time_available-Keeps seconds s w =
    if_rule (Keeps s) (seconds == 0) (λ _. (w, (refl, refl, refl)))
      (λ _. (
        record {
          attempted = w.attempted;
          idle = w.idle;
          same_attempt = w.same_attempt;
          mailbox = λ _. w.same_attempt;
        },
        (refl, refl, refl),
      ))

take_ntp_callback-Keeps : (s : ClockManager) → IsIdle s → Keeps s (take_ntp_callback s)
take_ntp_callback-Keeps s w =
    if_rule (Keeps s) s.ntp_callback_ready
      (λ _. (
        record {
          attempted = w.attempted;
          idle = w.idle;
          same_attempt = w.same_attempt;
          mailbox = λ e. absurd (ground (arith, e));
        },
        (refl, refl, refl),
      ))
      (λ _. (w, (refl, refl, refl)))

-- A correction for an attempt that is over is refused.
apply_epoch_correction-idle :
    (s : ClockManager) (epoch : ℕ) (source : ClockSource) (save : Bool) (expected now : ℕ)
    → expected ≢ 0
    → s.ntp_sync_pending ≡ false
    → apply_epoch_correction s epoch source save expected now ≡ (false, s, [])
unfolding apply_epoch_correction
apply_epoch_correction-idle s epoch source save expected now attempted idle =
    elim (Bool-cases (epoch_is_sane epoch)) [ inl h ↦ rw (h, idle, ne) refl | inr h ↦ rw h refl ]
  where
    ne : (expected == 0) ≡ false
    ne = ground (arith, attempted)

use_ntp_callback-Keeps :
    (now : ℕ) (s : ClockManager) → IsIdle s → Keeps s (use_ntp_callback now s).0
unfolding use_ntp_callback
use_ntp_callback-Keeps now s w =
    let taken = take_ntp_callback s in
    let kept = take_ntp_callback-Keeps s w in
    if_rule (λ (r : ClockManager × List Effect). Keeps s r.0) (not s.ntp_callback_ready)
      (λ _. (w, (refl, refl, refl)))
      (λ ready.
        let number : s.ntp_callback_generation ≡ s.ntp_attempt_generation =
          w.mailbox (ground (arith, ready)) in
        let attempt : s.ntp_callback_generation ≢ 0 = λ e. w.attempted (sym number ∙ e) in
        if_rule (λ (r : ClockManager × List Effect). Keeps s r.0)
          (ntp_epoch_is_sane s.ntp_callback_epoch)
          (λ _.
            rw
              (apply_epoch_correction-idle taken s.ntp_callback_epoch ntp true
                s.ntp_callback_generation now attempt kept.0.idle)
              kept)
          (λ _.
            if_rule (λ (r : ClockManager × List Effect). Keeps s r.0)
              (taken.ntp_sync_pending && taken.ntp_attempt_generation == s.ntp_callback_generation)
              (λ e. absurd (ground (arith, e, kept.0.idle))) (λ _. kept)))

end_ntp_attempt-Keeps :
    (wifi : Bool) (now : ℕ) (s : ClockManager) → IsIdle s → Keeps s (end_ntp_attempt wifi now s).0
unfolding end_ntp_attempt
end_ntp_attempt-Keeps wifi now s w =
    if_rule (λ (r : ClockManager × List Effect). Keeps s r.0) (s.ntp_sync_pending && not wifi)
      (λ e. absurd (ground (arith, e, w.idle)))
      (λ _.
        if_rule (λ (r : ClockManager × List Effect). Keeps s r.0)
          (s.ntp_sync_pending && leb s.ntp_deadline_us now)
          (λ e. absurd (ground (arith, e, w.idle))) (λ _. (w, (refl, refl, refl))))

clock_checkpoint_now-Keeps :
    (now later : ℕ) (s : ClockManager) → IsIdle s → Keeps s (clock_checkpoint_now now later s).0
unfolding clock_checkpoint_now
clock_checkpoint_now-Keeps now later s w =
    if_rule (λ (r : ClockManager × List Effect). Keeps s r.0) (current_epoch s now == 0)
      (λ _. (w, (refl, refl, refl)))
      (λ _. (
        record {
          attempted = w.attempted;
          idle = w.idle;
          same_attempt = w.same_attempt;
          mailbox = w.mailbox;
        },
        (refl, refl, refl),
      ))

pub end_of_round-Keeps :
    (wifi : Bool) (t : LoopTimes) (s : ClockManager)
    → IsIdle s
    → IsIdle (end_of_round wifi t s).0 × SameClock s (end_of_round wifi t s).0
unfolding end_of_round
end_of_round-Keeps wifi t s w =
    let s1 = (end_ntp_attempt wifi t.check_us s).0 in
    let k1 = end_ntp_attempt-Keeps wifi t.check_us s w in
    Keeps-trans s s1 _ k1 (
      if_rule (λ (r : ClockManager × List Effect). Keeps s1 r.0) _
        (λ _. clock_checkpoint_now-Keeps t.checkpoint_us t.later_us s1 k1.0)
        (λ _. (k1.0, (refl, refl, refl))))

clock_manager_loop-Keeps :
    (wifi : Bool) (t : LoopTimes) (s : ClockManager)
    → IsIdle s
    → Keeps s (clock_manager_loop wifi t s).0
unfolding clock_manager_loop
clock_manager_loop-Keeps wifi t s w =
    let s1 = (use_ntp_callback t.correction_us s).0 in
    let k1 = use_ntp_callback-Keeps t.correction_us s w in
    Keeps-trans s s1 _ k1 (end_of_round-Keeps wifi t s1 k1.0)

-- What happens while nobody asks for a new time.
pub data QuietEvent : Type 0 where
  heard : ℕ → QuietEvent
  loop : Bool → LoopTimes → QuietEvent
  checkpoint : ℕ → ℕ → QuietEvent

abbrev pub quiet_step : QuietEvent → ClockManager → ClockManager
quiet_step (heard seconds) s = ntp_time_available seconds s
quiet_step (loop wifi t) s = (clock_manager_loop wifi t s).0
quiet_step (checkpoint now later) s = (clock_checkpoint_now now later s).0

unfoldable pub quiet_run : List QuietEvent → ClockManager → ClockManager
quiet_run [] s = s
quiet_run (e ∷ es) s = quiet_run es (quiet_step e s)

quiet_step-Keeps : (e : QuietEvent) (s : ClockManager) → IsIdle s → Keeps s (quiet_step e s)
quiet_step-Keeps (heard seconds) s w = ntp_time_available-Keeps seconds s w
quiet_step-Keeps (loop wifi t) s w = clock_manager_loop-Keeps wifi t s w
quiet_step-Keeps (checkpoint now later) s w = clock_checkpoint_now-Keeps now later s w

-- Once an attempt to ask the network has ended or was cancelled, answers that come late, in any
-- number and any order with the rounds of the loop and the checkpoints, do not change the clock, and
-- no attempt starts by itself.
pub quiet_run-SameClock :
    (es : List QuietEvent) (s : ClockManager)
    → IsIdle s
    → IsIdle (quiet_run es s) × SameClock s (quiet_run es s)
unfolding quiet_run
quiet_run-SameClock [] s w = (w, (refl, refl, refl))
quiet_run-SameClock (e ∷ es) s w =
    let k = quiet_step-Keeps e s w in
    Keeps-trans s (quiet_step e s) _ k (quiet_run-SameClock es (quiet_step e s) k.0)
