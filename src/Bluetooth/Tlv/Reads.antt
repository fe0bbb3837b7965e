-- ===== src/Bluetooth/Tlv/Reads.antt =====
-- Typed reads of a body that was built from fields, and the numbers in a list field.
use plant_watering.Prelude.{
  ℕ, ◌*◌, ◌≤◌, ◌<◌, ◌≡◌, refl, ap, true, List, [], ◌∷◌, some, length, arith,
}
use plant_watering.Prelude.Bytes.{be16, be32, byte_of, of_be16-be16, of_be32-be32}
use plant_watering.Bluetooth.Tlv.{
  TlvFieldView, read_required_bytes, read_required_u8, read_required_u16, read_required_u32,
  read_optional_u32, read_required_u16_array, u16s_of,
}
use plant_watering.Bluetooth.Tlv.Fields.{body_bytes, first_of_type, find_first_field-body_bytes}

-- Big-endian pairs, as the senders of list fields write them.
abbrev pub be16s : List ℕ → List ℕ
be16s [] = []
be16s (n ∷ ns) = byte_of n 1 ∷ byte_of n 0 ∷ be16s ns

abbrev pub AllU16 : List ℕ → Type 0
AllU16 [] = Unit {0}
AllU16 (n ∷ ns) = (n < 65536) × AllU16 ns

pub u16s_of-be16s : (ns : List ℕ) → AllU16 ns → u16s_of (be16s ns) ≡ ns
unfolding u16s_of
u16s_of-be16s [] h = refl
u16s_of-be16s (n ∷ ns) h = λ i. of_be16-be16 n h.0 i ∷ u16s_of-be16s ns h.1 i

pub length-be16s : (ns : List ℕ) → length (be16s ns) ≡ 2 * length ns
length-be16s [] = omega arith
length-be16s (n ∷ ns) = omega (arith, length-be16s ns)

-- A read of a body that was built from fields sees the first field of its type.
module _ (fs : List TlvFieldView) (type : ℕ) {value : List ℕ}
    (found : first_of_type type fs ≡ some (record { type = type; value = value })) where
  pub read_required_bytes-body_bytes : read_required_bytes (body_bytes fs) type ≡ some value
  unfolding read_required_bytes
  read_required_bytes-body_bytes = rw (find_first_field-body_bytes fs type, found)

  pub read_required_u8-body_bytes :
      (n : ℕ) → value ≡ n ∷ [] → read_required_u8 (body_bytes fs) type ≡ some n
  unfolding read_required_u8
  read_required_u8-body_bytes n e = rw (read_required_bytes-body_bytes, e)

  pub read_required_u16-body_bytes :
      (n : ℕ) → n < 65536 → value ≡ be16 n → read_required_u16 (body_bytes fs) type ≡ some n
  unfolding read_required_u16
  read_required_u16-body_bytes n h e =
      rw (read_required_bytes-body_bytes, e) (ap some (of_be16-be16 n h))

  pub read_required_u32-body_bytes :
      (n : ℕ) → n < 4294967296 → value ≡ be32 n → read_required_u32 (body_bytes fs) type ≡ some n
  unfolding read_required_u32
  read_required_u32-body_bytes n h e =
      rw (read_required_bytes-body_bytes, e) (ap some (of_be32-be32 n h))

  pub read_optional_u32-body_bytes :
      (n : ℕ)
      → n < 4294967296
      → value ≡ be32 n
      → read_optional_u32 (body_bytes fs) type ≡ some (n, true)
  unfolding read_optional_u32
  read_optional_u32-body_bytes n h e =
      rw (find_first_field-body_bytes fs type, found, e)
        (ap (λ k. some (k, true)) (of_be32-be32 n h))

  pub read_required_u16_array-body_bytes :
      (ns : List ℕ) (max_count : ℕ)
      → AllU16 ns
      → length ns ≤ max_count
      → value ≡ be16s ns
      → read_required_u16_array (body_bytes fs) type max_count ≡ some ns
  unfolding read_required_u16_array
  read_required_u16_array-body_bytes ns max_count small short e =
      rw (read_required_bytes-body_bytes, e)
        (ground (arith, length-be16s ns, u16s_of-be16s ns small))
