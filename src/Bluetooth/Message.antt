-- ===== src/Bluetooth/Message.antt =====
-- `BtMessageId` of main/include/BluetoothCommon.h, Bluetooth addresses, and how the header of a
-- packet writes them.
use plant_watering.Prelude.{
  ℕ, ◌+◌, ◌*◌, ◌≡◌, ◌↔◌, Bool, true, ◌&&◌, List, [], ◌∷◌, ◌++◌, arith, ◌==◌, ◌<◌,
}
use plant_watering.Prelude.Bytes.{byte_of, byte_at, be32, of_be32, of_be32-be32}
use plant_watering.Prelude.Loops.{for_range}

-- An address is its six bytes.
abbrev pub Mac : Type 0
Mac = List ℕ

abbrev pub broadcast_mac : Mac
broadcast_mac = 0xFF ∷ 0xFF ∷ 0xFF ∷ 0xFF ∷ 0xFF ∷ 0xFF ∷ []

abbrev pub zero_mac : Mac
zero_mac = 0 ∷ 0 ∷ 0 ∷ 0 ∷ 0 ∷ 0 ∷ []

pub record MessageId : Type 0 where
  pub session_id : ℕ
  pub sequence : ℕ

abbrev pub message_id : ℕ → ℕ → MessageId
message_id session sequence = record { session_id = session; sequence = sequence }

abbrev pub same_message_id : MessageId → MessageId → Bool
same_message_id a b = a.session_id == b.session_id && a.sequence == b.sequence

pub same_message_id_iff : (a b : MessageId) → (same_message_id a b ≡ true) ↔ (a ≡ b)
same_message_id_iff a b = ground arith

-- The ids that fit their types.
abbrev pub IsId : MessageId → Type 0
IsId id = (id.session_id < 18446744073709551616) × (id.sequence < 4294967296)

-- `encodeMessageId`: both numbers, high byte first.
abbrev pub encode_message_id : MessageId → List ℕ
encode_message_id id =
    byte_of id.session_id 7
    ∷ byte_of id.session_id 6
    ∷ byte_of id.session_id 5
    ∷ byte_of id.session_id 4
    ∷ byte_of id.session_id 3
    ∷ byte_of id.session_id 2
    ∷ byte_of id.session_id 1
    ∷ byte_of id.session_id 0
    ∷ be32 id.sequence

-- The loop of `parse_bt_packet_header` that shifts eight bytes in, and the sequence number behind.
abbrev pub decode_message_id : List ℕ → ℕ → MessageId
decode_message_id bytes at = record {
  session_id = for_range 8 0 (λ i acc. acc * 256 + byte_at bytes (at + i)) 0;
  sequence =
      of_be32 (byte_at bytes (at + 8)) (byte_at bytes (at + 9)) (byte_at bytes (at + 10))
        (byte_at bytes (at + 11));
}

eight_bytes :
    (n : ℕ)
    → n < 18446744073709551616
    → ((((((((0 * 256 + byte_of n 7) * 256 + byte_of n 6) * 256 + byte_of n 5) * 256 + byte_of n 4)
                      * 256
                    + byte_of n 3)
                  * 256
                + byte_of n 2)
              * 256
            + byte_of n 1)
          * 256
        + byte_of n 0)
      ≡ n
eight_bytes n h = omega arith

-- The receiver reads back the id of the sender, wherever it stands behind a six-byte address.
pub decode_message_id-encode_message_id :
    (a b c d e f : ℕ) (id : MessageId) (rest : List ℕ)
    → IsId id
    → decode_message_id (a ∷ b ∷ c ∷ d ∷ e ∷ f ∷ (encode_message_id id ++ rest)) 6 ≡ id
unfolding for_range
decode_message_id-encode_message_id a b c d e f id rest h = λ i. record {
  session_id = eight_bytes id.session_id h.0 i;
  sequence = of_be32-be32 id.sequence h.1 i;
}
