-- ===== src/Policy/ClockMath.antt =====
-- main/include/ClockMath.h: plausible clock values, local time of day, and moving an event's time
-- stamp when the clock is corrected. Seconds are `uint64_t`; the signed intermediate values stay
-- far inside `int64_t`.
use plant_watering.Prelude.{
  ℕ, ◌+◌, ◌-◌, ◌*◌, ◌%◌, ◌/◌, ◌≤◌, ◌<◌, ◌≡◌, sym, ◌∙◌, ap, ◌↔◌, ◌⊎◌, Bool, true, false, ◌&&◌, ◌||◌,
  not, Option, none, some, arith, ltb, leb, ◌==◌, if◌then◌else◌, max, ◌≢◌,
}
use plant_watering.Prelude.Int.{
  ℤ, pos, negsuc, pos_part, neg_part, ◌+ℤ◌, ◌-ℤ◌, ◌*ℤ◌, rem_ℤ, leb_ℤ, int_laws,
}

abbrev pub clock_default_epoch_sec : ℕ
clock_default_epoch_sec = 946684800

abbrev pub clock_max_sane_epoch_sec : ℕ
clock_max_sane_epoch_sec = 4102444800

abbrev pub clock_min_ntp_epoch_sec : ℕ
clock_min_ntp_epoch_sec = 1600000000

pub record InitialSelection : Type 0 where
  pub epoch_sec : ℕ
  pub restored : Bool

unfoldable pub epoch_is_sane : ℕ → Bool
epoch_is_sane e = leb clock_default_epoch_sec e && ltb e clock_max_sane_epoch_sec

unfoldable pub ntp_epoch_is_sane : ℕ → Bool
ntp_epoch_is_sane e = leb clock_min_ntp_epoch_sec e && ltb e clock_max_sane_epoch_sec

unfoldable pub select_initial_epoch : ℕ → ℕ → InitialSelection
unfolding epoch_is_sane
select_initial_epoch retained saved =
    let retained_sane = epoch_is_sane retained in
    let saved_sane = epoch_is_sane saved in
    if not retained_sane && not saved_sane
    then record { epoch_sec = clock_default_epoch_sec; restored = false }
    else if not retained_sane
    then record { epoch_sec = saved; restored = true }
    else if not saved_sane
    then record { epoch_sec = retained; restored = true }
    else record { epoch_sec = if ltb saved retained then retained else saved; restored = true }

-- `(x % 86400 + 86400) % 86400` with the remainder of C++.
abbrev day_rem : ℤ → ℤ
day_rem x = rem_ℤ (rem_ℤ x 86400 +ℤ pos 86400) 86400

-- `utcSec + tzOffsetMinutes * 60`.
local_seconds : ℕ → ℤ → ℤ
unfolding ◌+ℤ◌ ◌*ℤ◌
local_seconds utc tz_offset_minutes = pos utc +ℤ tz_offset_minutes *ℤ pos 60

-- The cast to `uint32_t` keeps the value, which is not negative.
unfoldable pub local_time_of_day_sec : ℕ → ℤ → ℕ
unfolding local_seconds rem_ℤ
local_time_of_day_sec utc tz_offset_minutes =
    pos_part (day_rem (local_seconds utc tz_offset_minutes))

-- The value of `utc` in `clockEpochForLocalTimeOfDay`, from its `localReference`.
unfoldable pub utc_on_day : ℤ → ℤ → ℕ → ℤ
unfolding rem_ℤ ◌+ℤ◌ ◌-ℤ◌ ◌*ℤ◌
utc_on_day local_reference tz_offset_minutes sec_of_day =
    let local_day = local_reference -ℤ day_rem local_reference in
    local_day +ℤ pos sec_of_day -ℤ tz_offset_minutes *ℤ pos 60

unfoldable pub candidate_utc : ℕ → ℤ → ℕ → ℤ
unfolding local_seconds utc_on_day
candidate_utc reference tz_offset_minutes sec_of_day =
    utc_on_day (local_seconds reference tz_offset_minutes) tz_offset_minutes sec_of_day

-- The tests of `clockEpochForLocalTimeOfDay` around that value.
unfoldable pub accept_candidate : ℕ → ℕ → ℤ → Option ℕ
unfolding epoch_is_sane
accept_candidate reference sec_of_day utc =
    if not (epoch_is_sane reference) || leb 86400 sec_of_day
    then none
    else if leb_ℤ utc (pos 0)
    then none
    else if epoch_is_sane (pos_part utc)
    then some (pos_part utc)
    else none

-- `none` is the answer `false`.
unfoldable pub epoch_for_local_time_of_day : ℕ → ℤ → ℕ → Option ℕ
unfolding accept_candidate candidate_utc
epoch_for_local_time_of_day reference tz_offset_minutes sec_of_day =
    accept_candidate reference sec_of_day (candidate_utc reference tz_offset_minutes sec_of_day)

unfoldable pub rebase_timestamp_preserving_age : ℕ → ℕ → ℕ → ℕ
rebase_timestamp_preserving_age old_now new_now old_event =
    let age : ℕ = if leb old_event old_now then old_now - old_event else 0 in
    if old_event == 0 then 0 else if ltb age new_now then new_now - age else 1

-- The range of `int16_t`.
abbrev pub IsInt16 : ℤ → Type 0
IsInt16 z = (pos_part z < 32768) × (neg_part z ≤ 32768)

abbrev pub IsSane : ℕ → Type 0
IsSane e = (clock_default_epoch_sec ≤ e) × (e < clock_max_sane_epoch_sec)

-- The selected start value is always plausible. It is the later one of the plausible candidates,
-- and the fixed default, marked as not restored, exactly when there is none.
pub select_initial_epoch-IsSane :
    (retained saved : ℕ)
    → let s = select_initial_epoch retained saved in
      IsSane s.epoch_sec
      × ((s.restored ≡ true) ↔ (IsSane retained ⊎ IsSane saved))
      × (s.restored ≡ false → s.epoch_sec ≡ clock_default_epoch_sec)
      × (IsSane retained → retained ≤ s.epoch_sec)
      × (IsSane saved → saved ≤ s.epoch_sec)
      × (s.restored ≡ true → (s.epoch_sec ≡ retained) ⊎ (s.epoch_sec ≡ saved))
unfolding select_initial_epoch
select_initial_epoch-IsSane retained saved = ground arith

-- The local time in seconds is not negative, for any offset that fits its type.
local_seconds-pos :
    (utc : ℕ) (tz : ℤ)
    → IsInt16 tz
    → IsSane utc
    → local_seconds utc tz ≡ pos (utc + pos_part tz * 60 - neg_part tz * 60)
unfolding local_seconds
local_seconds-pos utc (pos n) h s = ground arith
local_seconds-pos utc (negsuc n) h s = ground arith

day_rem-pos : (n : ℕ) → day_rem (pos n) ≡ pos (n % 86400)
unfolding rem_ℤ ◌+ℤ◌
day_rem-pos n = ground arith

mul_sixty_parts :
    (tz : ℤ)
    → pos_part (tz *ℤ pos 60) + neg_part tz * 60 ≡ neg_part (tz *ℤ pos 60) + pos_part tz * 60
unfolding ◌*ℤ◌
mul_sixty_parts (pos n) = ground arith
mul_sixty_parts (negsuc n) = ground arith

utc_on_day-eq :
    (l : ℕ) (tz : ℤ) (sec : ℕ)
    → utc_on_day (pos l) tz sec ≡ pos l -ℤ pos (l % 86400) +ℤ pos sec -ℤ tz *ℤ pos 60
unfolding utc_on_day
utc_on_day-eq l tz sec = ap (λ r. pos l -ℤ r +ℤ pos sec -ℤ tz *ℤ pos 60) (day_rem-pos l)

split_sum :
    (l r sec m out : ℤ)
    → l -ℤ r +ℤ sec -ℤ m ≡ out
    → pos_part l + neg_part r + pos_part sec + neg_part m + neg_part out
      ≡ neg_part l + pos_part r + neg_part sec + pos_part m + pos_part out
split_sum l r sec m out e = omega (int_laws, ap pos_part e, ap neg_part e)

-- The wanted second, counted from the start of the local day `l - l % 86400`.
utc_on_day_sum :
    (l : ℕ) (tz : ℤ) (sec out : ℕ)
    → utc_on_day (pos l) tz sec ≡ pos out
    → out + pos_part tz * 60 ≡ l - l % 86400 + sec + neg_part tz * 60
utc_on_day_sum l tz sec out e = omega (
  arith,
  split_sum (pos l) (pos (l % 86400)) (pos sec) (tz *ℤ pos 60) (pos out)
      (sym (utc_on_day-eq l tz sec) ∙ e),
  mul_sixty_parts tz,
)

pub local_time_of_day_sec-mod :
    (utc : ℕ) (tz : ℤ)
    → IsInt16 tz
    → IsSane utc
    → local_time_of_day_sec utc tz ≡ (utc + pos_part tz * 60 - neg_part tz * 60) % 86400
unfolding local_time_of_day_sec
local_time_of_day_sec-mod utc tz h s = rw (local_seconds-pos utc tz h s, day_rem-pos)

candidate_utc_sum :
    (reference : ℕ) (tz : ℤ) (sec out : ℕ)
    → IsInt16 tz
    → IsSane reference
    → candidate_utc reference tz sec ≡ pos out
    → let l = reference + pos_part tz * 60 - neg_part tz * 60 in
      out + pos_part tz * 60 ≡ l - l % 86400 + sec + neg_part tz * 60
unfolding candidate_utc
candidate_utc_sum reference tz sec out h s e =
    utc_on_day_sum (reference + pos_part tz * 60 - neg_part tz * 60) tz sec out
      (rw (local_seconds-pos reference tz h s) at e)

-- What a successful call has checked.
accept_candidate-inv :
    (reference sec out : ℕ) (utc : ℤ)
    → accept_candidate reference sec utc ≡ some out
    → IsSane reference × (sec < 86400) × (utc ≡ pos out) × IsSane out
unfolding accept_candidate
accept_candidate-inv reference sec out (pos n) e = ground arith
accept_candidate-inv reference sec out (negsuc n) e = ground arith

epoch_for_local_time_of_day-inv :
    (reference : ℕ) (tz : ℤ) (sec out : ℕ)
    → epoch_for_local_time_of_day reference tz sec ≡ some out
    → IsSane reference × (sec < 86400) × (candidate_utc reference tz sec ≡ pos out) × IsSane out
unfolding epoch_for_local_time_of_day
epoch_for_local_time_of_day-inv reference tz sec out e =
    accept_candidate-inv reference sec out (candidate_utc reference tz sec) e

-- Local seconds since the start of 1970.
abbrev pub local_of : ℤ → ℕ → ℕ
local_of tz utc = utc + pos_part tz * 60 - neg_part tz * 60

-- Setting the time of day: the clock value that is found shows the wanted local second of the day,
-- is plausible, and lies on the same local day as the old value, counted from the start of 1970, so
-- it is less than a day from it.
pub local_time_of_day_sec-epoch_for_local_time_of_day :
    (reference : ℕ) (tz : ℤ) (sec out : ℕ)
    → IsInt16 tz
    → epoch_for_local_time_of_day reference tz sec ≡ some out
    → (local_time_of_day_sec out tz ≡ sec)
      × IsSane out
      × (local_of tz out / 86400 ≡ local_of tz reference / 86400)
      × (out < reference + 86400)
      × (reference < out + 86400)
local_time_of_day_sec-epoch_for_local_time_of_day reference tz sec out h e =
    let (sane, below, found, sane_out) = epoch_for_local_time_of_day-inv reference tz sec out e in
    let sum = candidate_utc_sum reference tz sec out h sane found in
    (
      rw (local_time_of_day_sec-mod out tz h sane_out) (omega arith),
      sane_out,
      omega arith,
      omega arith,
      omega arith,
    )

-- A correction of the clock keeps the age of an event, and an event is never turned into "never".
pub rebase_age :
    (old_now new_now old_event : ℕ)
    → let moved = rebase_timestamp_preserving_age old_now new_now old_event in
      ((moved ≡ 0) ↔ (old_event ≡ 0))
      × (old_event ≢ 0
          → old_event ≤ old_now
          → old_now - old_event < new_now
          → new_now - moved ≡ old_now - old_event)
      × (old_event ≢ 0 → moved ≤ max new_now 1)
unfolding rebase_timestamp_preserving_age
rebase_age old_now new_now old_event = ground arith

-- What becomes of the time of an event, in terms of ages: never stays never; an event of the past
-- keeps its age, as far as the new time reaches back, and gets the first second otherwise; an event
-- of the future is taken as one of now.
pub record KeepsAge (old_now new_now old_event moved : ℕ) : Type 0 where
  pub never : old_event ≡ 0 → moved ≡ 0
  pub past :
      old_event ≢ 0
      → old_event ≤ old_now
      → old_now - old_event < new_now
      → moved + (old_now - old_event) ≡ new_now
  pub too_old : old_event ≢ 0 → old_event ≤ old_now → new_now ≤ old_now - old_event → moved ≡ 1
  pub future : old_event ≢ 0 → old_now < old_event → 0 < new_now → moved ≡ new_now

pub rebase-KeepsAge :
    (old_now new_now old_event : ℕ)
    → KeepsAge old_now new_now old_event (rebase_timestamp_preserving_age old_now new_now old_event)
unfolding rebase_timestamp_preserving_age
rebase-KeepsAge old_now new_now old_event = record {
  never = λ a. ground arith;
  past = λ a b c. ground arith;
  too_old = λ a b c. ground arith;
  future = λ a b c. ground arith;
}
