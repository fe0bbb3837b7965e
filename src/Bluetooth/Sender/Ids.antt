-- ===== src/Bluetooth/Sender/Ids.antt =====
-- The ids that `allocateMessageId` of main/src/bluetooth_common.cpp gives out.
use plant_watering.Prelude.{
  ℕ, zero, suc, ◌+◌, ◌-◌, ◌*◌, ◌%◌, ◌≤◌, ◌<◌, ◌≡◌, ◌≢◌, ap, ◌==◌, if_rule, arith,
}
use plant_watering.Prelude.Words.{u32_mod, u64_mod}
use plant_watering.Bluetooth.Message.{message_id}
use plant_watering.Bluetooth.Sender.{IdState, allocate_message_id, next_session}

-- The state after `n` ids.
unfoldable pub after_ids : ℕ → IdState → IdState
after_ids zero s = s
after_ids (suc n) s = after_ids n (allocate_message_id s).1

-- The sequence numbers run from 1 to the largest 32-bit number, so the ids of all sessions are in
-- one row.
abbrev pub rank : ℕ → ℕ → ℕ
rank session sequence = session * 4294967295 + (sequence - 1)

pub record IsIdState (s : IdState) : Type 0 where
  pub session_range : (1 ≤ s.session_id) × (s.session_id < u64_mod)
  pub sequence_range : (1 ≤ s.next_sequence) × (s.next_sequence < u32_mod)

next_session_below : (session : ℕ) → session + 1 < u64_mod → next_session session ≡ session + 1
next_session_below session h = ground arith

-- One id further in the row.
abbrev Advanced : IdState → IdState → Type 0
Advanced s s' =
    IsIdState s' × (rank s'.session_id s'.next_sequence ≡ rank s.session_id s.next_sequence + 1)

allocate_message_id-IsIdState :
    (s : IdState)
    → IsIdState s
    → rank s.session_id s.next_sequence + 1 < u64_mod * 4294967295
    → Advanced s (allocate_message_id s).1
unfolding allocate_message_id
allocate_message_id-IsIdState s w room =
    let (lo, hi) = w.sequence_range in
    if_rule (Advanced s) ((s.next_sequence + 1) % u32_mod == 0)
      (λ h.
        let last : s.next_sequence ≡ 4294967295 = ground arith in
        let more : s.session_id + 1 < u64_mod = omega arith in
        let next = next_session_below s.session_id more in
        (
          record {
            session_range = (omega (arith, next), omega (arith, next, more));
            sequence_range = (omega arith, omega arith);
          },
          omega (arith, next, last),
        ))
      (λ h.
        let small : s.next_sequence + 1 < u32_mod = ground arith in
        let same : (s.next_sequence + 1) % u32_mod ≡ s.next_sequence + 1 = omega arith in
        (
          record {
            session_range = w.session_range;
            sequence_range = (omega (arith, same), omega (arith, same, small));
          },
          omega (arith, same, lo),
        ))

after_ids-IsIdState :
    (n : ℕ) (s : IdState)
    → IsIdState s
    → rank s.session_id s.next_sequence + n < u64_mod * 4294967295
    → let s' = after_ids n s in
      IsIdState s' × (rank s'.session_id s'.next_sequence ≡ rank s.session_id s.next_sequence + n)
unfolding after_ids
after_ids-IsIdState zero s w room = (w, omega arith)
after_ids-IsIdState (suc n) s w room =
    let (next, one) = allocate_message_id-IsIdState s w (omega arith) in
    let (end, more) =
      after_ids-IsIdState n (allocate_message_id s).1 next (omega (arith, one, room)) in
    (end, omega (arith, one, more))

-- As long as the 64-bit session does not wrap, no id is given out twice, and none is the id 0 of
-- session 0 that a device starts with as the last one heard: an id is followed by different ones.
pub allocate_message_id_fresh :
    (s : IdState) (n : ℕ)
    → IsIdState s
    → rank s.session_id s.next_sequence + suc n < u64_mod * 4294967295
    → ((allocate_message_id s).0 ≢ (allocate_message_id (after_ids (suc n) s)).0)
      × ((allocate_message_id s).0 ≢ message_id 0 0)
unfolding allocate_message_id
allocate_message_id_fresh s n w room =
    let (end, more) = after_ids-IsIdState (suc n) s w room in
    (
      λ e. omega (arith, more, ap (λ id. id.session_id) e, ap (λ id. id.sequence) e),
      λ e. omega (arith, w.sequence_range, ap (λ id. id.sequence) e),
    )
