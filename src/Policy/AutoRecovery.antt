-- ===== src/Policy/AutoRecovery.antt =====
-- main/include/AutoRecovery.h and main/src/auto_recovery.cpp: the record in retained memory that
-- says whether automatic mode is resumed after a crash.
use plant_watering.Prelude.{
  ℕ, ◌≡◌, ◌↔◌, Bool, true, false, ◌&&◌, arith, bit_xor, leb, ◌==◌, if◌then◌else◌,
}

-- `esp_reset_reason_t`: the reasons that the code names, and the number of any other one.
pub data ResetReason : Type 0 where
  panic int_wdt task_wdt wdt : ResetReason
  other : ℕ → ResetReason

pub record AutoRecoveryRecord : Type 0 where
  pub magic : ℕ
  pub version : ℕ
  pub armed : ℕ
  pub check : ℕ

abbrev pub auto_recovery_magic : ℕ
auto_recovery_magic = 0x4155544F

abbrev pub auto_recovery_version : ℕ
auto_recovery_version = 1

abbrev pub auto_recovery_check_seed : ℕ
auto_recovery_check_seed = 0xA35F19C7

unfoldable pub record_check : AutoRecoveryRecord → ℕ
record_check r = bit_xor (bit_xor (bit_xor r.magic r.version) r.armed) auto_recovery_check_seed

unfoldable pub make_record : Bool → AutoRecoveryRecord
unfolding record_check
make_record armed = record bare { check = record_check bare }
  where
    bare : AutoRecoveryRecord
    bare = record {
      magic = auto_recovery_magic;
      version = auto_recovery_version;
      armed = if armed then 1 else 0;
      check = 0;
    }

unfoldable pub record_is_valid : AutoRecoveryRecord → Bool
unfolding record_check
record_is_valid r =
    r.magic == auto_recovery_magic
    && (r.version == auto_recovery_version && (leb r.armed 1 && r.check == record_check r))

unfoldable pub reset_is_eligible : ResetReason → Bool
reset_is_eligible panic = true
reset_is_eligible int_wdt = true
reset_is_eligible task_wdt = true
reset_is_eligible wdt = true
reset_is_eligible (other n) = false

unfoldable pub should_resume : ResetReason → AutoRecoveryRecord → Bool
unfolding record_is_valid
should_resume reason r = reset_is_eligible reason && (record_is_valid r && r.armed == 1)

-- `autoRecoveryInitialize`: the answer, and the retained record afterwards.
unfoldable pub initialize : ResetReason → AutoRecoveryRecord → Bool × AutoRecoveryRecord
unfolding should_resume
initialize reason r =
    let resume = should_resume reason r in (resume, if resume then r else make_record false)

-- `autoRecoverySetArmed` overwrites the retained record.
unfoldable pub set_armed : Bool → AutoRecoveryRecord → AutoRecoveryRecord
unfolding make_record
set_armed armed r = make_record armed

record_eq :
    (r : AutoRecoveryRecord) (m v a c : ℕ)
    → r.magic ≡ m
    → r.version ≡ v
    → r.armed ≡ a
    → r.check ≡ c
    → r ≡ record { magic = m; version = v; armed = a; check = c }
record_eq r m v a c p q s t = λ i. record { magic = p i; version = q i; armed = s i; check = t i }

armed_check :
    (r : AutoRecoveryRecord) (m v a : ℕ)
    → r.magic ≡ m
    → r.version ≡ v
    → r.armed ≡ a
    → record_check r ≡ bit_xor (bit_xor (bit_xor m v) a) auto_recovery_check_seed
unfolding record_check
armed_check r m v a p q s =
    λ i. bit_xor (bit_xor (bit_xor (p i) (q i)) (s i)) auto_recovery_check_seed

-- A reset resumes automatic mode exactly when its reason is a panic or a watchdog and the retained
-- record is, word for word, the one that arming writes: no other memory content passes the check.
pub should_resume_iff :
    (reason : ResetReason) (r : AutoRecoveryRecord)
    → (should_resume reason r ≡ true) ↔ ((reset_is_eligible reason ≡ true) × (r ≡ make_record true))
unfolding should_resume make_record
should_resume_iff reason r = (
  λ h. ground (arith, record_eq r 0x4155544F 1 1, armed_check r 0x4155544F 1 1),
  λ h. ground arith,
)

-- Over one boot, from a record that was written by arming or disarming: the answer is the armed
-- intent if the reason is eligible, the retained record keeps only an intent that was resumed, and
-- so a second boot resumes only what the first one did.
pub initialize-set_armed :
    (reason later : ResetReason) (armed : Bool) (r : AutoRecoveryRecord)
    → let (resumed, kept) = initialize reason (set_armed armed r) in
      (resumed ≡ (reset_is_eligible reason && armed))
      × (kept ≡ make_record resumed)
      × ((initialize later kept).0 ≡ (reset_is_eligible later && resumed))
unfolding initialize set_armed reset_is_eligible
initialize-set_armed reason later true r = ground arith
initialize-set_armed reason later false r = ground arith
