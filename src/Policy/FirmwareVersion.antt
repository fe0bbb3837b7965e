-- ===== src/Policy/FirmwareVersion.antt =====
-- main/include/FirmwareVersionPolicy.h (the worker has the same header): which firmware versions
-- may be installed.
use plant_watering.Prelude.{ℕ, ◌≤◌, ◌<◌, ◌≡◌, ◌≢◌, arith, ltb, ◌==◌, if◌then◌else◌}

pub data Decision : Type 0 where
  allow already_installed below_minimum : Decision

unfoldable pub firmware_version_decision : ℕ → ℕ → ℕ → Decision
firmware_version_decision current candidate minimum_allowed =
    if candidate == current
    then already_installed
    else if ltb candidate minimum_allowed
    then below_minimum
    else allow

-- What each answer says. The floor is not asked of the installed version, so re-flashing it is
-- refused as such even where the floor has passed it.
abbrev pub Answers : ℕ → ℕ → ℕ → Decision → Type 0
Answers current candidate minimum_allowed allow =
    (candidate ≢ current) × (minimum_allowed ≤ candidate)
Answers current candidate minimum_allowed already_installed = candidate ≡ current
Answers current candidate minimum_allowed below_minimum =
    (candidate ≢ current) × (candidate < minimum_allowed)

-- Each answer of the policy means what its name says, so a candidate is allowed exactly when it
-- differs from the installed version and is not below the floor.
pub firmware_version_decision-Answers :
    (current candidate minimum_allowed : ℕ)
    → Answers current candidate minimum_allowed
        (firmware_version_decision current candidate minimum_allowed)
unfolding firmware_version_decision
firmware_version_decision-Answers current candidate minimum_allowed = ground arith
