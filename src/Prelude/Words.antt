-- ===== src/Prelude/Words.antt =====
-- Unsigned machine words: the numbers below 2 ^ w, with the wrap-around written out.
use plant_watering.Prelude.{ℕ, ◌+◌, ◌-◌, ◌%◌, ◌<◌, Bool, ltb, ◌==◌, if◌then◌else◌, arith, ◌≢◌}

abbrev pub u16_mod : ℕ
u16_mod = 65536

abbrev pub u32_mod : ℕ
u32_mod = 4294967296

abbrev pub u64_mod : ℕ
u64_mod = 18446744073709551616

-- `uint32_t` a - b.
abbrev pub sub32 : ℕ → ℕ → ℕ
sub32 a b = (a + u32_mod - b) % u32_mod

-- `static_cast<int32_t>(a - b) >= 0`.
abbrev pub reached32 : ℕ → ℕ → Bool
reached32 a b = ltb (sub32 a b) 2147483648

-- `++g; if (g == 0) ++g;` on a `uint32_t`.
abbrev pub next_generation : ℕ → ℕ
next_generation g = if (g + 1) % u32_mod == 0 then 1 else (g + 1) % u32_mod

-- A generation number is never 0, and always another one than the last.
pub next_generation_fresh :
    (g : ℕ)
    → g < u32_mod
    → (next_generation g ≢ 0) × (next_generation g ≢ g) × (next_generation g < u32_mod)
next_generation_fresh g h = ground arith
