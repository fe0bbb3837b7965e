-- ===== src/Watering/Command.antt =====
-- The water command of the main device, as the worker understands it.
use native.Mathlib.Nat.{div-eq_of_lt}
use mathlib.Core.List.{append-nil}
use plant_watering.Prelude.{length-append}
use plant_watering.Prelude.{
  ℕ, ◌+◌, ◌*◌, ◌^◌, ◌≤◌, ◌<◌, ◌≡◌, refl, ap, true, List, [], ◌∷◌, some, length, arith,
}
use plant_watering.Prelude.Bytes.{popcount, popcount-le, be16, byte_of}
use plant_watering.Bluetooth.Tlv.{
  TlvFieldView, type_cmd_water, field_pot_mask, field_duration_list, tlv_append, read_required_u16,
  read_required_u16_array, max_body_size,
}
use plant_watering.Bluetooth.Tlv.Fields.{body_bytes, first_of_type}
use plant_watering.Bluetooth.Tlv.Reads.{
  be16s, AllU16, length-be16s, read_required_u16-body_bytes, read_required_u16_array-body_bytes,
}
use plant_watering.Worker.Water.{parse_water_command, durations_in_range, mask_allowed}
use plant_watering.Watering.{
  input_ok, durations_ok, duration_bytes, water_command_body, max_pots_per_device,
}

-- What both entry points demand of a request.
pub record IsRequest (mask : ℕ) (durations : List ℕ) : Type 0 where
  pub mask_fits : (0 < mask) × (mask < 65536)
  pub counted : length durations ≡ popcount 16 mask
  pub few : (0 < length durations) × (length durations ≤ max_pots_per_device)
  pub in_range : durations_ok durations ≡ true

duration_bytes-be16s : (ds : List ℕ) → duration_bytes ds ≡ be16s ds
duration_bytes-be16s [] = refl
duration_bytes-be16s (d ∷ ds) = ap (λ r. byte_of d 1 ∷ byte_of d 0 ∷ r) (duration_bytes-be16s ds)

abbrev mask_field : ℕ → TlvFieldView
mask_field mask = record { type = field_pot_mask; value = be16 mask }

abbrev durations_field : List ℕ → TlvFieldView
durations_field ds = record { type = field_duration_list; value = be16s ds }

-- The body of every valid request fits, and is its type byte and two fields.
water_command_body_fields :
    (mask : ℕ) (durations : List ℕ)
    → IsRequest mask durations
    → water_command_body mask durations
      ≡ some (type_cmd_water ∷ body_bytes (mask_field mask ∷ durations_field durations ∷ []))
unfolding water_command_body input_ok tlv_append body_bytes
water_command_body_fields mask durations v =
    ground
      (arith, duration_bytes-be16s durations, length-be16s durations, append-nil (be16s durations))

durations_in_range-durations_ok :
    (ds : List ℕ) → durations_ok ds ≡ true → (durations_in_range ds ≡ true) × AllU16 ds
unfolding durations_ok durations_in_range
durations_in_range-durations_ok [] h = (refl, tt)
durations_in_range-durations_ok (d ∷ ds) h = ground (arith, durations_in_range-durations_ok ds)

abbrev command_fields : ℕ → List ℕ → List TlvFieldView
command_fields mask durations = mask_field mask ∷ durations_field durations ∷ []

mask_read :
    (mask : ℕ) (durations : List ℕ)
    → mask < 65536
    → read_required_u16 (body_bytes (command_fields mask durations)) field_pot_mask ≡ some mask
unfolding first_of_type
mask_read mask durations h =
    read_required_u16-body_bytes (command_fields mask durations) field_pot_mask refl mask h refl

durations_read :
    (mask pots : ℕ) (durations : List ℕ)
    → AllU16 durations
    → length durations ≤ pots
    → read_required_u16_array (body_bytes (command_fields mask durations)) field_duration_list pots
      ≡ some durations
unfolding first_of_type
durations_read mask pots durations small few =
    read_required_u16_array-body_bytes (command_fields mask durations) field_duration_list refl
      durations pots small few refl

length-command_fields :
    (mask : ℕ) (durations : List ℕ)
    → length (body_bytes (command_fields mask durations)) ≡ 6 + 2 * length durations
unfolding body_bytes
length-command_fields mask durations =
    omega (arith, length-append (be16s durations) [], length-be16s durations)

mask_allowed-lt : (pots mask : ℕ) → mask < 2 ^ pots → mask_allowed pots mask ≡ true
mask_allowed-lt pots mask h = ground (arith, div-eq_of_lt h)

-- Every valid request of the main device is understood by a worker that has the pots: it reads
-- back the same mask and the same durations, in order, from a body that fits.
pub parse_water_command-water_command_body :
    (pots mask : ℕ) (durations : List ℕ)
    → IsRequest mask durations
    → mask < 2 ^ pots
    → (body : List ℕ) × (water_command_body mask durations ≡ some body)
      × (parse_water_command pots body ≡ some (record { pot_mask = mask; durations = durations }))
      × (length body ≤ max_body_size)
unfolding parse_water_command
parse_water_command-water_command_body pots mask durations v fits =
    let (in_range, small) = durations_in_range-durations_ok durations v.in_range in
    let few : length durations ≤ pots = omega (arith, popcount-le 16 pots mask fits, v.counted) in
    (
      type_cmd_water ∷ body_bytes (command_fields mask durations),
      water_command_body_fields mask durations v,
      rw (mask_read mask durations v.mask_fits.1, durations_read mask pots durations small few)
          (ground (arith, in_range, mask_allowed-lt pots mask fits, v.counted)),
      omega (arith, length-command_fields mask durations, v.few),
    )
