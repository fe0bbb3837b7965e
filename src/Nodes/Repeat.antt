-- ===== src/Nodes/Repeat.antt =====
-- Packets that the main device of main/src/bluetooth_main.cpp hears more than once.
use plant_watering.Prelude.{
  ℕ, ◌≡◌, refl, ap, Bool, true, false, not, ◌&&◌, inl, inr, List, [], ◌∷◌, none, some, ◌==◌,
  if◌then◌else◌, length, drop, arith, Bool-cases, if_rule, ltb,
}
use plant_watering.Prelude.Int.{ℤ}
use plant_watering.Prelude.Bytes.{bytes_eq, byte_at}
use plant_watering.Bluetooth.Tlv.{
  type_ack, type_status, type_event_water_done, field_pot_mask, read_required_u16,
}
use plant_watering.Bluetooth.Message.{
  Mac, MessageId, same_message_id, same_message_id_iff, broadcast_mac,
}
use plant_watering.Bluetooth.Packet.{Received}
use plant_watering.Nodes.{
  WorkerNode, StatusReading, MainState, MainAction, mark_ack, queue_ack, notify_completed,
  ensure_worker_configs, accept_message_id, change_node, note_status, queue_sleep_request_if_needed,
  handle_status, handle_water_done, parse_status_body, accept_packet,
}

-- No node would take the message as a new one.
abbrev pub Seen : Mac → MessageId → List WorkerNode → Type 0
Seen mac id ns = accept_message_id ns mac id ≡ (ns, false)

Seen-cons :
    (n : WorkerNode) (ns : List WorkerNode) (mac : Mac) (id : MessageId)
    → bytes_eq n.mac mac ≡ false
    → Seen mac id ns
    → Seen mac id (n ∷ ns)
unfolding accept_message_id
Seen-cons n ns mac id h s = rw (h, s) refl

Seen-same :
    (n : WorkerNode) (ns : List WorkerNode) (mac : Mac) (id : MessageId)
    → bytes_eq n.mac mac ≡ true
    → same_message_id n.last_message_id id ≡ true
    → Seen mac id (n ∷ ns)
unfolding accept_message_id
Seen-same n ns mac id h s = rw (h, s) refl

accept_message_id-Seen :
    (ns : List WorkerNode) (mac : Mac) (id : MessageId)
    → Seen mac id (accept_message_id ns mac id).0
unfolding accept_message_id
accept_message_id-Seen [] mac id = refl
accept_message_id-Seen (n ∷ ns) mac id = elim (Bool-cases (bytes_eq n.mac mac)) [
  | inr h ↦ rw (h, accept_message_id) (Seen-cons n _ mac id h (accept_message_id-Seen ns mac id))
  | inl h ↦ elim (Bool-cases (same_message_id n.last_message_id id)) [
    | inl g ↦ rw (h, g, accept_message_id) (Seen-same n ns mac id h g)
    | inr g ↦
        rw (h, g, accept_message_id)
          (Seen-same (record n { last_message_id = id }) ns mac id h
            ((same_message_id_iff id id).1 refl))
  ]
]

Seen-tail :
    (n : WorkerNode) (ns : List WorkerNode) (mac : Mac) (id : MessageId)
    → bytes_eq n.mac mac ≡ false
    → Seen mac id (n ∷ ns)
    → Seen mac id ns
unfolding accept_message_id
Seen-tail n ns mac id h s =
    let opened : (n ∷ (accept_message_id ns mac id).0, (accept_message_id ns mac id).1)
        ≡ (n ∷ ns, false) =
      rw h at s in
    λ i. (drop 1 (opened i).0, (opened i).1)

Seen-head :
    (n : WorkerNode) (ns : List WorkerNode) (mac : Mac) (id : MessageId)
    → bytes_eq n.mac mac ≡ true
    → Seen mac id (n ∷ ns)
    → same_message_id n.last_message_id id ≡ true
unfolding accept_message_id
Seen-head n ns mac id h s = elim (Bool-cases (same_message_id n.last_message_id id)) [
  | inl g ↦ g
  | inr g ↦
      let flag : (accept_message_id (n ∷ ns) mac id).1 ≡ true = rw (h, g, accept_message_id) refl in
      absurd (ground (arith, flag, ap (λ r. r.1) s))
]

-- A status changes neither the address of a node nor its last message.
change_node-Seen :
    (ns : List WorkerNode) (mac : Mac) (id : MessageId) (r : StatusReading) (rssi : ℤ) (now : ℕ)
    → Seen mac id ns
    → Seen mac id (change_node ns mac (note_status r rssi now))
unfolding change_node note_status
change_node-Seen [] mac id r rssi now s = s
change_node-Seen (n ∷ ns) mac id r rssi now s = elim (Bool-cases (bytes_eq n.mac mac)) [
  | inl h ↦
      rw (h, change_node)
        (Seen-same (note_status r rssi now n) ns mac id h (Seen-head n ns mac id h s))
  | inr h ↦
      rw (h, change_node)
        (Seen-cons n (change_node ns mac (note_status r rssi now)) mac id h
          (change_node-Seen ns mac id r rssi now (Seen-tail n ns mac id h s)))
]

module _ (s : MainState) (sleeping : Bool) (source : Mac) (id : MessageId) (now : ℕ) where
  handle_status_again :
      (r : StatusReading) (rssi : ℤ)
      → Seen source id s.nodes
      → handle_status s sleeping source id r rssi now ≡ (s, queue_ack source id ∷ [])
  unfolding handle_status
  handle_status_again r rssi h = rw (h, handle_status) refl

  handle_water_done_again :
      (mask : ℕ)
      → Seen source id s.nodes
      → handle_water_done s source id mask ≡ (s, queue_ack source id ∷ [])
  unfolding handle_water_done
  handle_water_done_again mask h = rw (h, handle_water_done) refl

  handle_status-Seen :
      (r : StatusReading) (rssi : ℤ)
      → Seen source id (handle_status s sleeping source id r rssi now).0.nodes
  unfolding handle_status queue_sleep_request_if_needed
  handle_status-Seen r rssi =
      let noted = accept_message_id-Seen s.nodes source id in
      let changed =
        change_node-Seen (accept_message_id s.nodes source id).0 source id r rssi now noted in
      if_rule (λ (q : MainState × List MainAction). Seen source id q.0.nodes)
        (accept_message_id s.nodes source id).1
        (λ _.
          if_rule (λ (q : MainState). Seen source id q.nodes) (not sleeping) (λ _. changed)
            (λ _.
              if_rule (λ (q : MainState). Seen source id q.nodes) (ltb (length s.sleep_requests) 8)
                (λ _. changed) (λ _. changed)))
        (λ _. noted)

  handle_water_done-Seen : (mask : ℕ) → Seen source id (handle_water_done s source id mask).0.nodes
  unfolding handle_water_done
  handle_water_done-Seen mask = accept_message_id-Seen s.nodes source id

-- Only acknowledgements.
abbrev pub AcksOnly : List MainAction → Type 0
AcksOnly [] = Unit {0}
AcksOnly (mark_ack mac id ∷ rest) = AcksOnly rest
AcksOnly (queue_ack mac id ∷ rest) = AcksOnly rest
AcksOnly (ensure_worker_configs mac count ∷ rest) = ⊥
AcksOnly (notify_completed mac mask ∷ rest) = ⊥

-- What a packet is to the main device, whatever state it is in.
data Kind : Type 0 where
  dropped : Kind
  ack : Kind
  status : StatusReading → Kind
  water_done : ℕ → Kind

kind_of : Mac → (Mac → Bool) → Mac → Received → Kind
kind_of self is_configured source r =
    if not (bytes_eq r.target self) && not (bytes_eq r.target broadcast_mac)
    then dropped
    else if not (is_configured source)
    then dropped
    else if byte_at r.body 0 == type_ack && length r.body == 1
    then ack
    else if byte_at r.body 0 == type_status
    then elim (parse_status_body r.body) [ none ↦ dropped | some reading ↦ status reading ]
    else if byte_at r.body 0 == type_event_water_done
    then elim (read_required_u16 (drop 1 r.body) field_pot_mask) [
      | none ↦ dropped
      | some mask ↦ water_done mask
    ]
    else dropped

handle_kind : Kind → Bool → MainState → Mac → MessageId → ℤ → ℕ → MainState × List MainAction
handle_kind dropped sleeping s source id rssi now = (s, [])
handle_kind ack sleeping s source id rssi now = (s, mark_ack source id ∷ [])
handle_kind (status reading) sleeping s source id rssi now =
    handle_status s sleeping source id reading rssi now
handle_kind (water_done mask) sleeping s source id rssi now = handle_water_done s source id mask

accept_packet-kind_of :
    (self : Mac) (is_configured : Mac → Bool) (sleeping : Bool) (s : MainState) (source : Mac)
    (r : Received) (rssi : ℤ) (now : ℕ)
    → accept_packet self is_configured sleeping s source r rssi now
      ≡ handle_kind (kind_of self is_configured source r) sleeping s source r.id rssi now
unfolding accept_packet kind_of handle_kind
accept_packet-kind_of self is_configured sleeping s source r rssi now = ground arith

handle_kind_repeated :
    (k : Kind) (sleeping sleeping' : Bool) (s : MainState) (source : Mac) (id : MessageId)
    (rssi rssi' : ℤ) (now now' : ℕ)
    → let s' = (handle_kind k sleeping s source id rssi now).0 in
      let again = handle_kind k sleeping' s' source id rssi' now' in
      (again.0 ≡ s') × AcksOnly again.1
unfolding handle_kind
handle_kind_repeated dropped sleeping sleeping' s source id rssi rssi' now now' = (refl, tt)
handle_kind_repeated ack sleeping sleeping' s source id rssi rssi' now now' = (refl, tt)
handle_kind_repeated (status reading) sleeping sleeping' s source id rssi rssi' now now' =
    let same =
      handle_status_again (handle_status s sleeping source id reading rssi now).0 sleeping' source
        id now' reading rssi' (handle_status-Seen s sleeping source id now reading rssi) in
    rw same (refl, tt)
handle_kind_repeated (water_done mask) sleeping sleeping' s source id rssi rssi' now now' =
    let same =
      handle_water_done_again (handle_water_done s source id mask).0 sleeping' source id now' mask
        (handle_water_done-Seen s sleeping source id now mask) in
    rw same (refl, tt)

-- A packet that is heard again at once, with another signal strength and in another mode, changes
-- nothing more and leads to nothing but acknowledgements.
pub accept_packet_repeated :
    (self : Mac) (is_configured : Mac → Bool) (sleeping sleeping' : Bool) (s : MainState)
    (source : Mac) (r : Received) (rssi rssi' : ℤ) (now now' : ℕ)
    → let s' = (accept_packet self is_configured sleeping s source r rssi now).0 in
      let again = accept_packet self is_configured sleeping' s' source r rssi' now' in
      (again.0 ≡ s') × AcksOnly again.1
accept_packet_repeated self is_configured sleeping sleeping' s source r rssi rssi' now now' =
    let k = kind_of self is_configured source r in
    let s' = (accept_packet self is_configured sleeping s source r rssi now).0 in
    let first = accept_packet-kind_of self is_configured sleeping s source r rssi now in
    let second = accept_packet-kind_of self is_configured sleeping' s' source r rssi' now' in
    rw (second, first) (handle_kind_repeated k sleeping sleeping' s source r.id rssi rssi' now now')
