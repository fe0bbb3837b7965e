-- ===== src/Bluetooth/Packet/RoundTrip.antt =====
-- A packet that one device sends is taken apart by the other one into the same target, id and body.
use mathlib.Core.List.{append_assoc}
use plant_watering.Prelude.{
  ℕ, zero, suc, ◌+◌, ◌-◌, ◌≤◌, ◌<◌, ◌≡◌, refl, sym, ◌∙◌, inl, inr, true, false, List, [], ◌∷◌, ◌++◌,
  some, arith, ltb, length, drop, Option-cases, length-append, ge→ltb, lt→ltb, ◌≢◌,
  get_or-append_right, drop-append_right, take-append_of,
}
use plant_watering.Bluetooth.Tlv.{max_body_size}
use plant_watering.Bluetooth.Message.{
  Mac, MessageId, IsId, encode_message_id, decode_message_id-encode_message_id,
}
use plant_watering.Bluetooth.Crypto.{
  Primitives, IsAead, encrypt_payload, decrypt_payload, decrypt_payload-encrypt_payload,
}
use plant_watering.Bluetooth.Packet.{
  make_bt_packet, parse_bt_packet_header, packet_header_size, on_result, find_manufacturer_data,
}

abbrev pub six_bytes : ℕ → ℕ → ℕ → ℕ → ℕ → ℕ → Mac
six_bytes a b c d e f = a ∷ b ∷ c ∷ d ∷ e ∷ f ∷ []

-- What `make_bt_packet` returns, and when.
make_bt_packet-inv :
    (p : Primitives) (target : Mac) (id : MessageId) (body packet : List ℕ)
    → make_bt_packet p true target id body ≡ some packet
    → (encrypted : List ℕ) × (encrypt_payload p true body target id ≡ some encrypted)
      × (packet ≡ 0xFF ∷ 0xFF ∷ (target ++ (encode_message_id id ++ encrypted)))
      × (0 < length body)
      × (length body ≤ max_body_size)
unfolding make_bt_packet
make_bt_packet-inv p target id body packet e =
    elim (Option-cases (encrypt_payload p true body target id)) [
      | inl failed ↦ ground arith
      | inr (encrypted, good) ↦ (encrypted, good, ground arith, ground arith, ground arith)
    ]

parse_bt_packet_header_parts :
    (p : Primitives) (a b c d e f : ℕ) (id : MessageId) (encrypted body : List ℕ)
    → IsId id
    → decrypt_payload p true encrypted (six_bytes a b c d e f) id ≡ some body
    → 0 < length body
    → parse_bt_packet_header p true (six_bytes a b c d e f ++ (encode_message_id id ++ encrypted))
      ≡ some (record { target = six_bytes a b c d e f; id = id; body = body })
unfolding parse_bt_packet_header
parse_bt_packet_header_parts p a b c d e f id encrypted body fits back some_body =
    let long : ltb (length (six_bytes a b c d e f ++ (encode_message_id id ++ encrypted)))
          packet_header_size
        ≡ false =
      ge→ltb _ _ (omega arith) in
    let nonempty : ltb 0 (length body) ≡ true = lt→ltb _ _ some_body in
    rw (long, decode_message_id-encode_message_id a b c d e f id encrypted fits, back, nonempty)

-- Under the law of the cipher, the receiver takes every packet apart into the sender's target, id
-- and body; the body is not empty and at most 64 bytes long, and the packet is 36 bytes longer.
pub parse_bt_packet_header-make_bt_packet :
    (p : Primitives) (a b c d e f : ℕ) (id : MessageId) (body packet : List ℕ)
    → IsAead p
    → IsId id
    → make_bt_packet p true (six_bytes a b c d e f) id body ≡ some packet
    → (parse_bt_packet_header p true (drop 2 packet)
        ≡ some (record { target = six_bytes a b c d e f; id = id; body = body }))
      × (length packet ≡ length body + 36)
      × (0 < length body)
      × (length body ≤ max_body_size)
parse_bt_packet_header-make_bt_packet p a b c d e f id body packet law fits made =
    let target : Mac = six_bytes a b c d e f in
    let (encrypted, good, whole, some_body, short) =
      make_bt_packet-inv p target id body packet made in
    let (back, size) = decrypt_payload-encrypt_payload p body encrypted target id law good in
    (
      rw whole (parse_bt_packet_header_parts p a b c d e f id encrypted body fits back some_body),
      rw whole (omega arith),
      some_body,
      short,
    )

-- A structure of an advertisement; one that is no manufacturer data is passed over.
pub record Structure : Type 0 where
  pub ad_type : ℕ
  pub content : List ℕ
  pub is_other : ad_type ≢ 0xFF

unfoldable pub structures : List Structure → List ℕ
structures [] = []
structures (s ∷ ss) = ((length s.content + 1) ∷ s.ad_type ∷ s.content) ++ structures ss

-- The manufacturer data with the company id of the project.
abbrev pub manufacturer : List ℕ → List ℕ
manufacturer content = (length content + 3) ∷ 0xFF ∷ 0xFF ∷ 0xFF ∷ content

find_manufacturer_data_hit :
    (fuel : ℕ) (before content after : List ℕ) (offset : ℕ)
    → offset ≡ length before
    → find_manufacturer_data (suc fuel) (before ++ (manufacturer content ++ after)) offset
      ≡ some content
unfolding find_manufacturer_data
find_manufacturer_data_hit fuel before content after offset e =
    let ys : List ℕ = manufacturer content ++ after in
    ground (
      arith,
      get_or-append_right before ys offset 0 0 (omega arith),
      get_or-append_right before ys (suc offset) 1 0 (omega arith),
      get_or-append_right before ys (suc (suc offset)) 2 0 (omega arith),
      get_or-append_right before ys (suc (suc (suc offset))) 3 0 (omega arith),
      drop-append_right before ys (offset + 4) 4 (omega arith),
      take-append_of (length content + 3 - 3) content after (omega arith),
      length-append before ys,
      length-append content after,
    )

find_manufacturer_data_skip :
    (fuel : ℕ) (before : List ℕ) (s : Structure) (rest : List ℕ) (offset : ℕ)
    → offset ≡ length before
    → 0 < length rest
    → find_manufacturer_data
        (suc fuel)
        (before ++ (((length s.content + 1) ∷ s.ad_type ∷ s.content) ++ rest))
        offset
      ≡ find_manufacturer_data fuel
          (before ++ (((length s.content + 1) ∷ s.ad_type ∷ s.content) ++ rest))
          (offset + (length s.content + 1) + 1)
unfolding find_manufacturer_data
find_manufacturer_data_skip fuel before s rest offset e more =
    let ys : List ℕ = ((length s.content + 1) ∷ s.ad_type ∷ s.content) ++ rest in
    ground (
      arith,
      s.is_other,
      get_or-append_right before ys offset 0 0 (omega arith),
      get_or-append_right before ys (suc offset) 1 0 (omega arith),
      length-append before ys,
      length-append s.content rest,
    )

find_manufacturer_data-structures :
    (ss : List Structure) (fuel : ℕ) (before content after : List ℕ) (offset : ℕ)
    → offset ≡ length before
    → length (structures ss) < fuel
    → find_manufacturer_data fuel
        (before ++ (structures ss ++ (manufacturer content ++ after)))
        offset
      ≡ some content
unfolding structures
find_manufacturer_data-structures ss zero before content after offset e h = absurd (omega arith)
find_manufacturer_data-structures [] (suc fuel) before content after offset e h =
    find_manufacturer_data_hit fuel before content after offset e
find_manufacturer_data-structures (s ∷ ss) (suc fuel) before content after offset e h =
    let here : List ℕ = (length s.content + 1) ∷ s.ad_type ∷ s.content in
    let rest = structures ss ++ (manufacturer content ++ after) in
    rw (append_assoc here (structures ss) (manufacturer content ++ after)) (
      find_manufacturer_data_skip fuel before s rest offset e
        (omega (arith, length-append (structures ss) (manufacturer content ++ after)))
      ∙ rw (sym (append_assoc before here rest)) (
          find_manufacturer_data-structures ss fuel (before ++ here) content after
            (offset + (length s.content + 1) + 1) (omega (arith, length-append before here))
            (omega (arith, length-append s.content (structures ss)))))

-- The scan hands exactly the project's manufacturer data to the handler, whatever structures of
-- other types stand before it and whatever stands behind it.
pub on_result-manufacturer :
    (ss : List Structure) (content after : List ℕ)
    → on_result (structures ss ++ (manufacturer content ++ after)) ≡ some content
unfolding on_result
on_result-manufacturer ss content after =
    find_manufacturer_data-structures ss
      (suc (length (structures ss ++ (manufacturer content ++ after)))) [] content after 0 refl
      (omega (arith, length-append (structures ss) (manufacturer content ++ after)))
