-- ===== src/Bluetooth/Packet.antt =====
-- `make_bt_packet`, `parse_bt_packet_header` and `CommonScanCallbacks::onResult` of
-- main/src/bluetooth_common.cpp, built with USE_BT_CRYPTO=1: a packet is the company id 0xFFFF, the
-- target, the message id and the encrypted body.
pub mod RoundTrip
use plant_watering.Prelude.{
  ℕ, zero, suc, ◌+◌, ◌-◌, ◌≤◌, Bool, true, false, ◌&&◌, ◌||◌, List, [], ◌∷◌, ◌++◌, Option, none,
  some, arith, ltb, leb, ◌==◌, if◌then◌else◌, length, take, drop,
}
use plant_watering.Prelude.Bytes.{byte_at}
use plant_watering.Prelude.Maybe.{◌>>=◌, ◌>>◌, guard}
use plant_watering.Bluetooth.Tlv.{max_body_size}
use plant_watering.Bluetooth.Message.{Mac, MessageId, encode_message_id, decode_message_id}
use plant_watering.Bluetooth.Crypto.{Primitives, encrypt_payload, decrypt_payload}

abbrev pub packet_header_size : ℕ
packet_header_size = 18

-- `none` is the length 0.
unfoldable pub make_bt_packet : Primitives → Bool → Mac → MessageId → List ℕ → Option (List ℕ)
make_bt_packet p init_ok target id payload =
    if length payload == 0 || ltb max_body_size (length payload) then none else (do
      encrypted ← encrypt_payload p init_ok payload target id
      some (0xFF ∷ 0xFF ∷ (target ++ (encode_message_id id ++ encrypted))))

pub record Received : Type 0 where
  pub target : Mac
  pub id : MessageId
  pub body : List ℕ

-- Of the data behind the company id.
unfoldable pub parse_bt_packet_header : Primitives → Bool → List ℕ → Option Received
parse_bt_packet_header p init_ok bytes = if ltb (length bytes) packet_header_size then none else (do
  let target = take 6 bytes
  let id = decode_message_id bytes 6
  body ← decrypt_payload p init_ok (drop packet_header_size bytes) target id
  guard (ltb 0 (length body))
  some (record { target = target; id = id; body = body }))

-- The loop over the structures of an advertisement, from an offset: the data that is handed to the
-- handler. Each round moves the offset on by two at least.
unfoldable pub find_manufacturer_data : ℕ → List ℕ → ℕ → Option (List ℕ)
find_manufacturer_data zero bytes offset = none
find_manufacturer_data (suc fuel) bytes offset =
    let ad_len = byte_at bytes offset in
    let rest = find_manufacturer_data fuel bytes (offset + ad_len + 1) in
    if ltb offset (length bytes)
    then (if ad_len == 0 || leb (length bytes) (offset + ad_len)
        then none
        else if byte_at bytes (suc offset) == 0xFF
            && (leb 3 ad_len
                && (byte_at bytes (suc (suc offset)) == 0xFF
                    && byte_at bytes (suc (suc (suc offset))) == 0xFF))
        then some (take (ad_len - 3) (drop (offset + 4) bytes))
        else rest)
    else none

unfoldable pub on_result : List ℕ → Option (List ℕ)
on_result bytes = find_manufacturer_data (suc (length bytes)) bytes 0
