-- ===== src/Prelude/Loops.antt =====
-- Counting loops, as the arrays of the firmware are walked: the number of rounds, the first index,
-- and the body as a function of the index and the state.
use plant_watering.Prelude.{ℕ, zero, suc, ◌+◌, ◌≤◌, ◌<◌, ◌≡◌, subst, arith}

unfoldable pub for_range {ℓ} : {S : Type ℓ} (rounds index : ℕ) (step : ℕ → S → S) (state : S) → S
for_range zero index step state = state
for_range (suc rounds) index step state = for_range rounds (index + 1) step (step index state)

module _ {ℓ κ} {S : Type ℓ} (Holds : ℕ → S → Type κ) (step : ℕ → S → S) where
  -- `end` is where the index comes out, given by an equation.
  pub for_range_inv :
      (rounds first end : ℕ) (state : S)
      → ((index : ℕ) (now : S)
          → first ≤ index
          → index < end
          → Holds index now
          → Holds (index + 1) (step index now))
      → first + rounds ≡ end
      → Holds first state
      → Holds end (for_range rounds first step state)
  unfolding for_range
  for_range_inv zero first end state each count start =
      let over : first ≡ end = omega arith in subst (λ index. Holds index state) over start
  for_range_inv (suc rounds) first end state each count start =
      let entered = each first state (omega arith) (omega arith) start in
      for_range_inv rounds (first + 1) end (step first state)
        (λ index now above below held. each index now (omega arith) below held) (omega arith)
        entered
