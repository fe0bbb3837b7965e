-- ===== src/Bluetooth/Sender.antt =====
-- The sender of main/src/bluetooth_common.cpp (worker/src has the same): message ids, and one
-- command with its retries until an acknowledgement comes. The sender task works on one job at a
-- time; acknowledgements come from the scan callback. Times are microseconds.
pub mod Ids
pub mod Answers
pub mod Job
use plant_watering.Prelude.{
  ℕ, zero, suc, ◌+◌, ◌*◌, ◌%◌, Bool, true, false, not, ◌&&◌, ◌||◌, List, [], ◌∷◌, ◌++◌, Option,
  none, some, ltb, leb, ◌==◌, if◌then◌else◌, replicate,
}
use plant_watering.Prelude.Bytes.{bytes_eq}
use plant_watering.Prelude.Words.{u32_mod, u64_mod}
use plant_watering.Bluetooth.Message.{
  Mac, MessageId, message_id, same_message_id, broadcast_mac, zero_mac,
}

-- `gSessionId` and `gNextSequence`.
pub record IdState : Type 0 where
  pub session_id : ℕ
  pub next_sequence : ℕ

-- `++gSessionId; if (gSessionId == 0) gSessionId = 1`.
abbrev pub next_session : ℕ → ℕ
next_session session = let next = (session + 1) % u64_mod in if next == 0 then 1 else next

unfoldable pub allocate_message_id : IdState → MessageId × IdState
allocate_message_id s =
    let next = (s.next_sequence + 1) % u32_mod in
    (
      message_id s.session_id s.next_sequence,
      if next == 0
          then record { session_id = next_session s.session_id; next_sequence = 1 }
          else record s { next_sequence = next },
    )

pub data SendStatus : Type 0 where
  invalid queue_full transmit_failed sent acked : SendStatus

pub record SendResult : Type 0 where
  pub status : SendStatus
  pub message_id : MessageId
  pub transmission_started : Bool
  pub started_us : ℕ
  pub ack_mac : Mac

pub record PendingAck : Type 0 where
  pub active : Bool
  pub acked : Bool
  pub target_mac : Mac
  pub message_id : MessageId
  pub ack_mac : Mac

-- An acknowledgement that the scan callback passes on.
pub record Ack : Type 0 where
  pub source : Mac
  pub id : MessageId

-- The condition of `btCommonMarkAck` behind `active`.
abbrev pub answers : Mac → MessageId → Ack → Bool
answers target id a =
    same_message_id id a.id && (bytes_eq target broadcast_mac || bytes_eq target a.source)

-- `btCommonMarkAck`.
unfoldable pub mark_ack : PendingAck → Ack → PendingAck
mark_ack p a =
    if p.active && answers p.target_mac p.message_id a
    then record p { acked = true; ack_mac = a.source }
    else p

unfoldable pub mark_acks : PendingAck → List Ack → PendingAck
mark_acks p [] = p
mark_acks p (a ∷ acks) = mark_acks (mark_ack p a) acks

-- One round of the wait: the acknowledgements since the last one, and the time.
pub record Round : Type 0 where
  pub acks : List Ack
  pub now : ℕ

-- One attempt: what `broadcastPacket` answers, the acknowledgements that come meanwhile, the time
-- at which the wait begins, and its rounds.
pub record Attempt : Type 0 where
  pub broadcast_ok : Bool
  pub started_us : ℕ
  pub during : List Ack
  pub wait_from_us : ℕ
  pub rounds : List Round

-- The inner loop, up to the deadline; the answer is whether it saw the acknowledgement. `none`: it
-- has not ended after these rounds.
unfoldable pub wait_for_ack : ℕ → PendingAck → List Round → Option (PendingAck × Bool)
wait_for_ack deadline p [] = none
wait_for_ack deadline p (r ∷ rs) =
    let p' = mark_acks p r.acks in
    let rest = wait_for_ack deadline p' rs in
    if leb deadline r.now then some (p', false) else if p'.acked then some (p', true) else rest

-- The result after a transmission: only the first one counts as the start.
abbrev pub note_start : SendResult → ℕ → SendResult
note_start r started =
    if r.transmission_started
    then r
    else record r { transmission_started = true; started_us = started; status = sent }

-- The loop over the attempts, with `n` left.
unfoldable pub attempts_loop :
    ℕ → ℕ → PendingAck → SendResult → List Attempt → Option (PendingAck × SendResult)
attempts_loop zero timeout_ms p r attempts = some (p, r)
attempts_loop (suc n) timeout_ms p r [] = none
attempts_loop (suc n) timeout_ms p r (a ∷ later) =
    let heard = mark_acks p a.during in
    let started = note_start r a.started_us in
    if not a.broadcast_ok
    then attempts_loop n timeout_ms heard r later
    else elim (wait_for_ack (a.wait_from_us + timeout_ms * 1000) heard a.rounds) [
      | none ↦ none
      | some (p', true) ↦ some (p', record started { status = acked; ack_mac = p'.ack_mac })
      | some (p', false) ↦ attempts_loop n timeout_ms p' started later
    ]

pub record TxJob : Type 0 where
  pub mac : Mac
  pub message_id : MessageId
  pub retries : ℕ
  pub ack_timeout_ms : ℕ

-- The result that `processCommandJob` starts from.
abbrev pub failed_result : TxJob → SendResult
failed_result job = record {
  status = transmit_failed;
  message_id = job.message_id;
  transmission_started = false;
  started_us = 0;
  ack_mac = zero_mac;
}

-- The pending entry that it sets up.
abbrev pub pending_for : TxJob → PendingAck
pending_for job = record {
  active = true;
  acked = false;
  target_mac = job.mac;
  message_id = job.message_id;
  ack_mac = zero_mac;
}

-- `processCommandJob`, where `encoded` says whether `make_bt_packet` made a packet. The result is
-- what the waiting task is given.
unfoldable pub process_command_job :
    TxJob → Bool → PendingAck → List Attempt → Option (PendingAck × SendResult)
process_command_job job encoded p attempts =
    if not encoded
    then some (p, failed_result job)
    else elim (attempts_loop (job.retries + 1) job.ack_timeout_ms (pending_for job)
        (failed_result job) attempts) [
          | none ↦ none
          | some (p', r) ↦ some (record p' { active = false }, r)
        ]
