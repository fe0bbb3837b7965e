-- ===== src/Nodes/Status.antt =====
-- A status on its way: worker/src/bluetooth_worker.cpp builds it, main/src/bluetooth_main.cpp reads
-- it.
use mathlib.Core.List.{append-nil}
use plant_watering.Prelude.{
  ℕ, ◌+◌, ◌*◌, ◌≤◌, ◌<◌, ◌≡◌, refl, ap, List, [], ◌∷◌, some, length, length-append, arith,
}
use plant_watering.Prelude.Bytes.{be16, be32, byte_of}
use plant_watering.Bluetooth.Tlv.{
  TlvFieldView, type_status, field_batt, field_pot_count, field_soil_list, field_fw_version,
  tlv_append, max_body_size,
}
use plant_watering.Bluetooth.Tlv.Fields.{body_bytes, first_of_type}
use plant_watering.Bluetooth.Tlv.Reads.{
  be16s, AllU16, length-be16s, u16s_of-be16s, read_required_u16-body_bytes,
  read_required_u8-body_bytes, read_required_bytes-body_bytes, read_optional_u32-body_bytes,
}
use plant_watering.Worker.Control.{Snapshot, status_body, soil_bytes}
use plant_watering.Nodes.{parse_status_body, max_pots_per_device}

soil_bytes-be16s : (vs : List ℕ) → soil_bytes vs ≡ be16s vs
soil_bytes-be16s [] = refl
soil_bytes-be16s (v ∷ vs) = ap (λ r. byte_of v 1 ∷ byte_of v 0 ∷ r) (soil_bytes-be16s vs)

abbrev status_fields : ℕ → ℕ → Snapshot → List TlvFieldView
status_fields pots fw_version snapshot =
    record { type = field_batt; value = be16 snapshot.battery_mv }
    ∷ record { type = field_pot_count; value = pots ∷ [] }
    ∷ record { type = field_fw_version; value = be32 fw_version }
    ∷ record { type = field_soil_list; value = be16s snapshot.soils }
    ∷ []

-- What the sensors and the build of a worker give.
pub record IsReading (pots fw_version : ℕ) (snapshot : Snapshot) : Type 0 where
  pub pots_fit : (1 ≤ pots) × (pots ≤ max_pots_per_device)
  pub counted : length snapshot.soils ≡ pots
  pub small : (snapshot.battery_mv < 65536) × AllU16 snapshot.soils
  pub version_fits : fw_version < 4294967296

status_body_fields :
    (pots fw_version : ℕ) (snapshot : Snapshot)
    → IsReading pots fw_version snapshot
    → status_body pots fw_version snapshot
      ≡ some (type_status ∷ body_bytes (status_fields pots fw_version snapshot))
unfolding status_body tlv_append body_bytes
status_body_fields pots fw_version snapshot v = ground (
  arith,
  v.counted,
  soil_bytes-be16s snapshot.soils,
  length-be16s snapshot.soils,
  append-nil (be16s snapshot.soils),
)

length-status_fields :
    (pots fw_version : ℕ) (snapshot : Snapshot)
    → length (body_bytes (status_fields pots fw_version snapshot)) ≡ 15 + 2 * length snapshot.soils
unfolding body_bytes
length-status_fields pots fw_version snapshot =
    omega (arith, length-append (be16s snapshot.soils) [], length-be16s snapshot.soils)

-- Every status of a worker fits a body, and the main device reads the readings back from it.
pub parse_status_body-status_body :
    (pots fw_version : ℕ) (snapshot : Snapshot)
    → IsReading pots fw_version snapshot
    → (body : List ℕ) × (status_body pots fw_version snapshot ≡ some body)
      × (length body ≤ max_body_size)
      × (parse_status_body body
          ≡ some (record {
            soils = snapshot.soils;
            pot_count = pots;
            battery_mv = snapshot.battery_mv;
            firmware_version = fw_version;
          }))
unfolding parse_status_body first_of_type
parse_status_body-status_body pots fw_version snapshot v =
    let fields = status_fields pots fw_version snapshot in
    (
      type_status ∷ body_bytes fields,
      status_body_fields pots fw_version snapshot v,
      omega (arith, length-status_fields pots fw_version snapshot, v.counted, v.pots_fit),
      rw
          (
            read_required_u16-body_bytes fields field_batt refl snapshot.battery_mv v.small.0 refl,
            read_required_u8-body_bytes fields field_pot_count refl pots refl,
            read_required_bytes-body_bytes fields field_soil_list refl,
            read_optional_u32-body_bytes fields field_fw_version refl fw_version v.version_fits
                refl,
            u16s_of-be16s snapshot.soils v.small.1,
          )
          (ground (arith, length-be16s snapshot.soils, v.counted, v.pots_fit)),
    )
