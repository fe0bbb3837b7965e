-- ===== src/Clock/Answer.antt =====
-- An answer of the network to a running request in main/src/clock_manager.cpp.
use plant_watering.Prelude.{
  ℕ, ◌≡◌, ◌≢◌, ◌<◌, refl, sym, ap, subst, ◌∙◌, Bool, true, false, not, ◌&&◌, ◌||◌, List, [], ◌∷◌,
  ◌++◌, ◌==◌, arith, if_rule,
}
use plant_watering.Prelude.Words.{next_generation_fresh, u32_mod}
use plant_watering.Policy.ClockMath.{epoch_is_sane, ntp_epoch_is_sane}
use plant_watering.Clock.{
  ClockManager, Effect, stop_ntp, set_system_epoch, rebase_timestamps, set_saved_utc, ntp,
  LoopTimes, current_epoch, apply_epoch_correction, ntp_time_available, take_ntp_callback,
  use_ntp_callback, end_of_round, clock_manager_loop, clock_request_ntp_sync,
}
use plant_watering.Clock.Stale.{IsIdle, end_of_round-Keeps}

-- A running request whose answer has come.
record IsAnswered (seconds : ℕ) (s : ClockManager) : Type 0 where
  numbered : s.ntp_attempt_generation ≢ 0
  running : s.ntp_sync_pending ≡ true
  same_attempt : s.ntp_callback_active_generation ≡ s.ntp_attempt_generation
  ready : s.ntp_callback_ready ≡ true
  answer : s.ntp_callback_epoch ≡ seconds
  for_it : s.ntp_callback_generation ≡ s.ntp_attempt_generation

clock_request_ntp_sync-IsAnswered :
    (s : ClockManager) (now seconds : ℕ)
    → s.ntp_sync_pending ≡ false
    → s.ntp_attempt_generation < u32_mod
    → seconds ≢ 0
    → IsAnswered seconds (ntp_time_available seconds (clock_request_ntp_sync true now s).1)
unfolding clock_request_ntp_sync ntp_time_available
clock_request_ntp_sync-IsAnswered s now seconds idle g some_time =
    if_rule
      (λ (r : Bool × ClockManager × List Effect).
        IsAnswered seconds (ntp_time_available seconds r.1))
      s.ntp_sync_pending (λ e. absurd (ground (arith, e, idle)))
      (λ _.
        if_rule (IsAnswered seconds) (seconds == 0) (λ e. absurd (ground (arith, e, some_time)))
          (λ _. record {
            numbered = (next_generation_fresh s.ntp_attempt_generation g).0;
            running = refl;
            same_attempt = refl;
            ready = refl;
            answer = refl;
            for_it = refl;
          }))

-- The clock after the correction.
abbrev ShowsAnswer : ℕ → ℕ → ClockManager → Type 0
ShowsAnswer seconds at_us s =
    IsIdle s × (s.clock_base_utc ≡ seconds) × (s.clock_base_us ≡ at_us) × (s.clock_source ≡ ntp)

ntp_epoch_is_sane-sane :
    (seconds : ℕ) → ntp_epoch_is_sane seconds ≡ true → epoch_is_sane seconds ≡ true
unfolding ntp_epoch_is_sane epoch_is_sane
ntp_epoch_is_sane-sane seconds h = ground (arith, h)

-- The effects of a correction by the network's time.
abbrev pub correction_effects : ℕ → ℕ → List Effect
correction_effects old_utc seconds =
    stop_ntp
    ∷ set_system_epoch seconds
    ∷ rebase_timestamps old_utc seconds
    ∷ set_saved_utc seconds true
    ∷ []

abbrev IsCorrected : ℕ → ℕ → ℕ → ClockManager × List Effect → Type 0
IsCorrected old_utc seconds at_us (s, effects) =
    ShowsAnswer seconds at_us s × (effects ≡ correction_effects old_utc seconds)

-- The running request with the mailbox emptied.
abbrev IsTaken : ClockManager → ClockManager → Type 0
IsTaken s taken =
    (taken.ntp_attempt_generation ≡ s.ntp_attempt_generation)
    × (taken.ntp_sync_pending ≡ s.ntp_sync_pending)
    × (taken.ntp_callback_active_generation ≡ s.ntp_callback_active_generation)
    × (taken.ntp_callback_ready ≡ false)
    × ((now : ℕ) → current_epoch taken now ≡ current_epoch s now)

take_ntp_callback-IsTaken : (s : ClockManager) → IsTaken s (take_ntp_callback s)
unfolding current_epoch
take_ntp_callback-IsTaken s =
    if_rule (IsTaken s) s.ntp_callback_ready (λ _. (refl, refl, refl, refl, λ now. refl))
      (λ e. (refl, refl, refl, e, λ now. refl))

apply_epoch_correction-IsCorrected :
    (s : ClockManager) (seconds expected now : ℕ)
    → expected ≢ 0
    → s.ntp_attempt_generation ≡ expected
    → s.ntp_sync_pending ≡ true
    → s.ntp_callback_active_generation ≡ expected
    → s.ntp_callback_ready ≡ false
    → epoch_is_sane seconds ≡ true
    → let (done, s', effects) = apply_epoch_correction s seconds ntp true expected now in
      IsCorrected (current_epoch s now) seconds now (s', effects)
unfolding apply_epoch_correction
apply_epoch_correction-IsCorrected s seconds expected now ne number running active empty sane =
    if_rule Goal (not (epoch_is_sane seconds)) (λ e. absurd (ground (arith, e, sane)))
      (λ _.
        if_rule Goal
          (not (expected == 0)
            && (not s.ntp_sync_pending || not (s.ntp_attempt_generation == expected)))
          (λ e. absurd (ground (arith, e, ne, number, running)))
          (λ _. rw nonzero (
            (
              record {
                attempted = λ e. ne (sym number ∙ e);
                idle = refl;
                same_attempt = active ∙ sym number;
                mailbox = λ e. absurd (ground (arith, e, empty));
              },
              refl,
              refl,
              refl,
            ),
            refl,
          )))
  where
    nonzero : (expected == 0) ≡ false
    nonzero = ground (arith, ne)

    Goal : Bool × ClockManager × List Effect → Type 0
    Goal (done, s', effects) = IsCorrected (current_epoch s now) seconds now (s', effects)

apply_epoch_correction-taken :
    (s taken : ClockManager) (seconds now : ℕ)
    → IsTaken s taken
    → IsAnswered seconds s
    → ntp_epoch_is_sane seconds ≡ true
    → let (done, s', effects) =
        apply_epoch_correction taken seconds ntp true s.ntp_attempt_generation now in
      IsCorrected (current_epoch s now) seconds now (s', effects)
apply_epoch_correction-taken s taken seconds now (number, running, active, empty, same_time) w
      plausible =
    let (shows, effects) =
      apply_epoch_correction-IsCorrected taken seconds s.ntp_attempt_generation now w.numbered
        number (running ∙ w.running) (active ∙ w.same_attempt) empty
        (ntp_epoch_is_sane-sane seconds plausible) in
    (shows, effects ∙ ap (λ old. correction_effects old seconds) (same_time now))

use_ntp_callback-IsCorrected :
    (s : ClockManager) (seconds now : ℕ)
    → IsAnswered seconds s
    → ntp_epoch_is_sane seconds ≡ true
    → IsCorrected (current_epoch s now) seconds now (use_ntp_callback now s)
unfolding use_ntp_callback
use_ntp_callback-IsCorrected s seconds now w plausible =
    let plausible' : ntp_epoch_is_sane s.ntp_callback_epoch ≡ true = rw w.answer plausible in
    if_rule (IsCorrected (current_epoch s now) seconds now) (not s.ntp_callback_ready)
      (λ e. absurd (ground (arith, e, w.ready)))
      (λ _.
        if_rule (IsCorrected (current_epoch s now) seconds now)
          (ntp_epoch_is_sane s.ntp_callback_epoch)
          (λ _.
            subst
              (λ (v : ℕ × ℕ).
                let (done, s', effects) =
                  apply_epoch_correction (take_ntp_callback s) v.0 ntp true v.1 now in
                IsCorrected (current_epoch s now) seconds now (s', effects))
              (sym (λ i. (w.answer i, w.for_it i)))
              (apply_epoch_correction-taken s (take_ntp_callback s) seconds now
                (take_ntp_callback-IsTaken s) w plausible))
          (λ e. absurd (ground (arith, e, plausible'))))

-- A round of the loop uses the answer that has come.
clock_manager_loop-answered :
    (s : ClockManager) (seconds : ℕ) (wifi : Bool) (t : LoopTimes)
    → IsAnswered seconds s
    → ntp_epoch_is_sane seconds ≡ true
    → ShowsAnswer seconds t.correction_us (clock_manager_loop wifi t s).0
unfolding clock_manager_loop
clock_manager_loop-answered s seconds wifi t w plausible =
    let s1 = (use_ntp_callback t.correction_us s).0 in
    let ((idle, utc, us, source), effects) =
      use_ntp_callback-IsCorrected s seconds t.correction_us w plausible in
    let (idle', (utc', us', source')) = end_of_round-Keeps wifi t s1 idle in
    (idle', utc' ∙ utc, us' ∙ us, source' ∙ source)

clock_manager_loop-effects :
    (s : ClockManager) (seconds : ℕ) (wifi : Bool) (t : LoopTimes)
    → IsAnswered seconds s
    → ntp_epoch_is_sane seconds ≡ true
    → (rest : List Effect) × ((clock_manager_loop wifi t s).1
        ≡ correction_effects (current_epoch s t.correction_us) seconds ++ rest)
unfolding clock_manager_loop
clock_manager_loop-effects s seconds wifi t w plausible =
    let (shows, effects) = use_ntp_callback-IsCorrected s seconds t.correction_us w plausible in
    let rest = (end_of_round wifi t (use_ntp_callback t.correction_us s).0).1 in
    (rest, ap (λ e. e ++ rest) effects)

ntp_epoch_is_sane-nonzero : (seconds : ℕ) → ntp_epoch_is_sane seconds ≡ true → seconds ≢ 0
unfolding ntp_epoch_is_sane
ntp_epoch_is_sane-nonzero seconds h = λ e. ground (arith, h, e)

clock_request_ntp_sync-current_epoch :
    (s : ClockManager) (now seconds at_us : ℕ)
    → current_epoch (ntp_time_available seconds (clock_request_ntp_sync true now s).1) at_us
      ≡ current_epoch s at_us
unfolding clock_request_ntp_sync ntp_time_available current_epoch
clock_request_ntp_sync-current_epoch s now seconds at_us =
    if_rule
      (λ (r : Bool × ClockManager × List Effect).
        current_epoch (ntp_time_available seconds r.1) at_us ≡ current_epoch s at_us)
      s.ntp_sync_pending
      (λ _.
        if_rule (λ (s' : ClockManager). current_epoch s' at_us ≡ current_epoch s at_us)
          (seconds == 0) (λ _. refl) (λ _. refl))
      (λ _.
        if_rule (λ (s' : ClockManager). current_epoch s' at_us ≡ current_epoch s at_us)
          (seconds == 0) (λ _. refl) (λ _. refl))

-- A plausible answer to a new request takes effect in the next round of the loop: the clock counts on
-- from the answer, its source is the network, no attempt is running, and the watering times are moved
-- by the change of the clock, even if that round finds the deadline past or the Wi-Fi gone.
pub clock_manager_loop-clock_request_ntp_sync :
    (s : ClockManager) (now seconds : ℕ) (wifi : Bool) (t : LoopTimes)
    → s.ntp_sync_pending ≡ false
    → s.ntp_attempt_generation < u32_mod
    → ntp_epoch_is_sane seconds ≡ true
    → let answered = ntp_time_available seconds (clock_request_ntp_sync true now s).1 in
      let (s', effects) = clock_manager_loop wifi t answered in
      (s'.clock_base_utc ≡ seconds)
      × (s'.clock_base_us ≡ t.correction_us)
      × (s'.clock_source ≡ ntp)
      × (s'.ntp_sync_pending ≡ false)
      × ((rest : List Effect) × (effects
            ≡ correction_effects (current_epoch s t.correction_us) seconds ++ rest))
clock_manager_loop-clock_request_ntp_sync s now seconds wifi t idle g plausible =
    let answered = ntp_time_available seconds (clock_request_ntp_sync true now s).1 in
    let w =
      clock_request_ntp_sync-IsAnswered s now seconds idle g
        (ntp_epoch_is_sane-nonzero seconds plausible) in
    let (calm, utc, us, source) = clock_manager_loop-answered answered seconds wifi t w plausible in
    let (rest, effects) = clock_manager_loop-effects answered seconds wifi t w plausible in
    (
      utc,
      us,
      source,
      calm.idle,
      (
        rest,
        effects
            ∙ ap (λ old. correction_effects old seconds ++ rest)
                (clock_request_ntp_sync-current_epoch s now seconds t.correction_us),
      ),
    )
