-- ===== src/Bluetooth/Tlv.antt =====
-- The bodies of main/src/bluetooth_common.cpp: `btBodyBegin`, `btTlvAppend...`, `btTlvNext` and
-- `btTlvRead...`. A body builder is the list of the bytes written so far, and a pointer into a
-- body with its length is the list of the bytes that it shows.
pub mod Fields
pub mod Reads
use plant_watering.Prelude.{
  ℕ, zero, suc, ◌+◌, ◌*◌, ◌%◌, ◌/◌, ◌≤◌, ◌<◌, Bool, true, false, not, List, [], ◌∷◌, ◌++◌, Option,
  none, some, ltb, leb, ◌==◌, if◌then◌else◌, length, take, drop,
}
use plant_watering.Prelude.Bytes.{byte_at, be16, be32, of_be16, of_be32}
use plant_watering.Prelude.Maybe.{◌>>=◌, ◌>>◌, guard}

abbrev pub max_body_size : ℕ
max_body_size = 64

-- The message types, and the field types.
abbrev pub type_ack : ℕ
type_ack = 0x20

abbrev pub type_cmd_probe : ℕ
type_cmd_probe = 0x30

abbrev pub type_cmd_sleep : ℕ
type_cmd_sleep = 0x31

abbrev pub type_cmd_water : ℕ
type_cmd_water = 0x32

abbrev pub type_cmd_ota_prepare : ℕ
type_cmd_ota_prepare = 0x33

abbrev pub type_status : ℕ
type_status = 0x40

abbrev pub type_event_water_done : ℕ
type_event_water_done = 0x42

abbrev pub field_batt : ℕ
field_batt = 1

abbrev pub field_pot_count : ℕ
field_pot_count = 2

abbrev pub field_soil_list : ℕ
field_soil_list = 3

abbrev pub field_sleep_sec : ℕ
field_sleep_sec = 4

abbrev pub field_pot_mask : ℕ
field_pot_mask = 5

abbrev pub field_duration_list : ℕ
field_duration_list = 6

abbrev pub field_fw_version : ℕ
field_fw_version = 7

-- `len` of the source is the length of `value`.
pub record TlvFieldView : Type 0 where
  pub type : ℕ
  pub value : List ℕ

abbrev pub body_begin : ℕ → List ℕ
body_begin msg_type = msg_type ∷ []

-- `none` is `false`, and then the body is unchanged.
unfoldable pub tlv_append : List ℕ → ℕ → List ℕ → Option (List ℕ)
tlv_append body type value =
    if ltb max_body_size (length body + 2 + length value)
    then none
    else some (body ++ (type ∷ length value ∷ value))

abbrev pub tlv_append_u8 : List ℕ → ℕ → ℕ → Option (List ℕ)
tlv_append_u8 body type value = tlv_append body type (value ∷ [])

abbrev pub tlv_append_u16 : List ℕ → ℕ → ℕ → Option (List ℕ)
tlv_append_u16 body type value = tlv_append body type (be16 value)

abbrev pub tlv_append_u32 : List ℕ → ℕ → ℕ → Option (List ℕ)
tlv_append_u32 body type value = tlv_append body type (be32 value)

-- The field at the offset, and the next offset.
unfoldable pub tlv_next : List ℕ → ℕ → Option (TlvFieldView × ℕ)
tlv_next tlvs offset =
    let len = byte_at tlvs (suc offset) in
    if ltb (length tlvs) (offset + 2)
    then none
    else if ltb (length tlvs) (offset + 2 + len)
    then none
    else some (
      record { type = byte_at tlvs offset; value = take len (drop (offset + 2) tlvs) },
      offset + 2 + len,
    )

-- `if (!found && field.type == type) match = field`.
abbrev pub keep_first : ℕ → Option TlvFieldView → TlvFieldView → Option TlvFieldView
keep_first type none field = if field.type == type then some field else none
keep_first type (some found) field = some found

-- The loop of `findFirstField`; each round moves the offset on by two at least.
unfoldable pub find_loop : ℕ → List ℕ → ℕ → ℕ → Option TlvFieldView → Option (Option TlvFieldView)
find_loop zero tlvs offset type found = none
find_loop (suc fuel) tlvs offset type found =
    if ltb offset (length tlvs)
    then (elim (tlv_next tlvs offset) [
      | none ↦ none
      | some (field, next) ↦ find_loop fuel tlvs next type (keep_first type found field)
    ])
    else some found

-- `none` for a malformed body, `some none` where no field has the type.
unfoldable pub find_first_field : List ℕ → ℕ → Option (Option TlvFieldView)
find_first_field tlvs type = find_loop (suc (length tlvs)) tlvs 0 type none

-- `findFirstField(...) && found`.
unfoldable pub read_required_bytes : List ℕ → ℕ → Option (List ℕ)
read_required_bytes tlvs type = do
  match ← find_first_field tlvs type
  field ← match
  some field.value

unfoldable pub read_required_u8 : List ℕ → ℕ → Option ℕ
read_required_u8 tlvs type = do
  value ← read_required_bytes tlvs type
  guard (length value == 1)
  some (byte_at value 0)

unfoldable pub read_required_u16 : List ℕ → ℕ → Option ℕ
read_required_u16 tlvs type = do
  value ← read_required_bytes tlvs type
  guard (length value == 2)
  some (of_be16 (byte_at value 0) (byte_at value 1))

abbrev be32_at_start : List ℕ → ℕ
be32_at_start value =
    of_be32 (byte_at value 0) (byte_at value 1) (byte_at value 2) (byte_at value 3)

unfoldable pub read_required_u32 : List ℕ → ℕ → Option ℕ
read_required_u32 tlvs type = do
  value ← read_required_bytes tlvs type
  guard (length value == 4)
  some (be32_at_start value)

-- The value with `found`; a missing field gives 0.
unfoldable pub read_optional_u32 : List ℕ → ℕ → Option (ℕ × Bool)
read_optional_u32 tlvs type = do
  match ← find_first_field tlvs type
  elim match [
    | none ↦ some (0, false)
    | some field ↦ if length field.value == 4 then some (be32_at_start field.value, true) else none
  ]

-- The loop over the pairs of bytes.
unfoldable pub u16s_of : List ℕ → List ℕ
u16s_of [] = []
u16s_of (a ∷ []) = []
u16s_of (a ∷ b ∷ rest) = of_be16 a b ∷ u16s_of rest

unfoldable pub read_required_u16_array : List ℕ → ℕ → ℕ → Option (List ℕ)
read_required_u16_array tlvs type max_count = do
  value ← read_required_bytes tlvs type
  guard (length value % 2 == 0)
  guard (leb (length value / 2) max_count)
  some (u16s_of value)
