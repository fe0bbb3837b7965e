-- ===== src/Text/MacHex.antt =====
-- The text form of an address, written and read by main/src/utility.cpp.
use plant_watering.Prelude.{
  ℕ, ◌+◌, ◌*◌, ◌/◌, ◌%◌, ◌<◌, ◌≡◌, refl, sym, ◌∙◌, ap, List, [], ◌∷◌, some, length, arith,
}
use plant_watering.Prelude.Bytes.{AllBytes}
use plant_watering.Text.{
  hexchar_to_nibble, hex_bytes, mac_from_hex_string, hex_digit, mac_to_hex_lower,
}

hexchar_to_nibble-hex_digit : (n : ℕ) → n < 16 → hexchar_to_nibble (hex_digit n) ≡ some n
unfolding hexchar_to_nibble
hexchar_to_nibble-hex_digit n h = ground arith

length-mac_to_hex_lower : (bs : List ℕ) → length (mac_to_hex_lower bs) ≡ length bs * 2
length-mac_to_hex_lower [] = refl
length-mac_to_hex_lower (b ∷ bs) = omega (arith, length-mac_to_hex_lower bs)

hex_bytes-mac_to_hex_lower :
    (bs : List ℕ) → AllBytes bs → hex_bytes (length bs) (mac_to_hex_lower bs) ≡ some bs
unfolding hex_bytes
hex_bytes-mac_to_hex_lower [] h = refl
hex_bytes-mac_to_hex_lower (b ∷ bs) h =
    let whole : b / 16 * 16 + b % 16 ≡ b = omega arith in
    rw
      (
        hexchar_to_nibble-hex_digit (b / 16) (omega (arith, h.0)),
        hexchar_to_nibble-hex_digit (b % 16) (omega arith),
        hex_bytes-mac_to_hex_lower bs h.1,
        whole,
      )
      refl

-- An address is read back from its text form.
pub mac_from_hex_string-mac_to_hex_lower :
    (mac : List ℕ)
    → length mac ≡ 6
    → AllBytes mac
    → mac_from_hex_string (mac_to_hex_lower mac) ≡ some mac
unfolding mac_from_hex_string
mac_from_hex_string-mac_to_hex_lower mac six h =
    let twelve : length (mac_to_hex_lower mac) ≡ 12 = omega (arith, length-mac_to_hex_lower mac) in
    rw twelve
      (ap (λ n. hex_bytes n (mac_to_hex_lower mac)) (sym six) ∙ hex_bytes-mac_to_hex_lower mac h)
