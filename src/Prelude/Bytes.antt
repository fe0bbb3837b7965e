-- ===== src/Prelude/Bytes.antt =====
-- Byte strings as lists of numbers below 256: comparison as by `memcmp`, and the big- and
-- little-endian numbers that the protocol and the package format use.

use native.Mathlib.Nat.{pow-suc, pow-zero}
use plant_watering.Prelude.{
  zero, suc, ◌≤◌, ℕ, ◌+◌, ◌*◌, ◌/◌, ◌%◌, ◌^◌, ◌<◌, ◌≡◌, refl, ◌↔◌, Bool, true, false, List, [], ◌∷◌,
  arith, ◌==◌, if◌then◌else◌, get_or,
}

-- `memcmp(a, b, n) == 0` for two arrays of the same length.
unfoldable pub bytes_eq : List ℕ → List ℕ → Bool
bytes_eq [] [] = true
bytes_eq [] (y ∷ ys) = false
bytes_eq (x ∷ xs) [] = false
bytes_eq (x ∷ xs) (y ∷ ys) = let rest = bytes_eq xs ys in if x == y then rest else false

bytes_eq_sound : (xs ys : List ℕ) → bytes_eq xs ys ≡ true → xs ≡ ys
unfolding bytes_eq
bytes_eq_sound [] [] h = refl
bytes_eq_sound [] (y ∷ ys) h = ground arith
bytes_eq_sound (x ∷ xs) [] h = ground arith
bytes_eq_sound (x ∷ xs) (y ∷ ys) h = ground (arith, bytes_eq_sound xs ys)

pub bytes_eq_refl : (xs : List ℕ) → bytes_eq xs xs ≡ true
unfolding bytes_eq
bytes_eq_refl [] = refl
bytes_eq_refl (x ∷ xs) = ground (arith, bytes_eq_refl xs)

pub bytes_eq_iff : (xs ys : List ℕ) → (bytes_eq xs ys ≡ true) ↔ (xs ≡ ys)
bytes_eq_iff xs ys = (bytes_eq_sound xs ys, λ e. subst_eq e)
  where
    subst_eq : xs ≡ ys → bytes_eq xs ys ≡ true
    subst_eq e = rw (← e) (bytes_eq_refl xs)

-- Every entry is a byte.
abbrev pub AllBytes : List ℕ → Type 0
AllBytes [] = Unit {0}
AllBytes (b ∷ bs) = (b < 256) × AllBytes bs

-- A cast to `uint8_t` of a number shifted right by 8 * k.
abbrev pub byte_of : ℕ → ℕ → ℕ
byte_of n k = n / 2 ^ (8 * k) % 256

abbrev pub be16 : ℕ → List ℕ
be16 n = byte_of n 1 ∷ byte_of n 0 ∷ []

abbrev pub be32 : ℕ → List ℕ
be32 n = byte_of n 3 ∷ byte_of n 2 ∷ byte_of n 1 ∷ byte_of n 0 ∷ []

abbrev pub le16 : ℕ → List ℕ
le16 n = byte_of n 0 ∷ byte_of n 1 ∷ []

abbrev pub le32 : ℕ → List ℕ
le32 n = byte_of n 0 ∷ byte_of n 1 ∷ byte_of n 2 ∷ byte_of n 3 ∷ []

-- The shifted bytes do not overlap, so the bitwise or of the source is a sum.
abbrev pub of_be16 : ℕ → ℕ → ℕ
of_be16 a b = a * 256 + b

abbrev pub of_be32 : ℕ → ℕ → ℕ → ℕ → ℕ
of_be32 a b c d = a * 16777216 + b * 65536 + c * 256 + d

pub of_be16-be16 : (n : ℕ) → n < 65536 → of_be16 (byte_of n 1) (byte_of n 0) ≡ n
of_be16-be16 n h = omega arith

pub of_be32-be32 :
    (n : ℕ) → n < 4294967296 → of_be32 (byte_of n 3) (byte_of n 2) (byte_of n 1) (byte_of n 0) ≡ n
of_be32-be32 n h = omega arith

-- `data[i]` of an array: a read past the end does not occur where the source reads.
abbrev pub byte_at : List ℕ → ℕ → ℕ
byte_at bs i = get_or bs i 0

-- `(mask & (1u << pot)) != 0`.
abbrev pub test_bit : ℕ → ℕ → Bool
test_bit mask pot = mask / 2 ^ pot % 2 == 1

-- `__builtin_popcount` of a number of at most `bits` bits.
unfoldable pub popcount : ℕ → ℕ → ℕ
popcount zero m = 0
popcount (suc bits) m = m % 2 + popcount bits (m / 2)

pub popcount_zero : (bits : ℕ) → popcount bits 0 ≡ 0
unfolding popcount
popcount_zero zero = refl
popcount_zero (suc bits) = omega (arith, popcount_zero bits)

pub popcount-le : (bits width m : ℕ) → m < 2 ^ width → popcount bits m ≤ width
unfolding popcount
popcount-le zero width m h = omega arith
popcount-le (suc bits) zero zero h = omega (arith, popcount_zero bits)
popcount-le (suc bits) zero (suc m) h = absurd (omega (arith, pow-zero 2))
popcount-le (suc bits) (suc width) m h =
    omega (arith, popcount-le bits width (m / 2) (omega (arith, pow-suc 2 width)))
