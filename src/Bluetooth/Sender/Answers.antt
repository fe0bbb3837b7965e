-- ===== src/Bluetooth/Sender/Answers.antt =====
-- The acknowledgements that answer a command of main/src/bluetooth_common.cpp.
use plant_watering.Prelude.{
  ◌≡◌, refl, Bool, true, false, ◌||◌, ◌⊎◌, inl, inr, List, [], ◌∷◌, ◌++◌, if◌then◌else◌, arith,
  Bool-cases, sym,
}
use plant_watering.Prelude.Bytes.{bytes_eq, bytes_eq_iff}
use plant_watering.Bluetooth.Message.{Mac, MessageId, broadcast_mac, same_message_id_iff}
use plant_watering.Bluetooth.Sender.{Ack, answers, Round, Attempt}

abbrev pub any_answer : Mac → MessageId → List Ack → Bool
any_answer target id [] = false
any_answer target id (a ∷ acks) =
    let rest = any_answer target id acks in if answers target id a then true else rest

-- Among the acknowledgements is one with the message id, from the worker itself unless the command was
-- for all.
abbrev pub Answered : Mac → MessageId → List Ack → Type 0
Answered target id [] = ⊥
Answered target id (a ∷ acks) =
    ((a.id ≡ id) × ((target ≡ broadcast_mac) ⊎ (target ≡ a.source))) ⊎ Answered target id acks

answers-inv :
    (target : Mac) (id : MessageId) (a : Ack)
    → answers target id a ≡ true
    → (a.id ≡ id) × ((target ≡ broadcast_mac) ⊎ (target ≡ a.source))
answers-inv target id a h =
    let same : id ≡ a.id = (same_message_id_iff id a.id).0 (ground (arith, h)) in
    (
      sym same,
      elim (Bool-cases (bytes_eq target broadcast_mac)) [
        | inl e ↦ inl ((bytes_eq_iff target broadcast_mac).0 e)
        | inr e ↦ inr ((bytes_eq_iff target a.source).0 (ground (arith, h, e)))
      ],
    )

pub any_answer-Answered :
    (target : Mac) (id : MessageId) (acks : List Ack)
    → any_answer target id acks ≡ true
    → Answered target id acks
any_answer-Answered target id [] h = absurd (ground (arith, h))
any_answer-Answered target id (a ∷ acks) h = elim (Bool-cases (answers target id a)) [
  | inl e ↦ inl (answers-inv target id a e)
  | inr e ↦ inr (any_answer-Answered target id acks (ground (arith, h, e)))
]

abbrev pub acks_of_rounds : List Round → List Ack
acks_of_rounds [] = []
acks_of_rounds (r ∷ rs) = r.acks ++ acks_of_rounds rs

abbrev pub acks_of : List Attempt → List Ack
acks_of [] = []
acks_of (a ∷ later) = a.during ++ (acks_of_rounds a.rounds ++ acks_of later)

pub any_answer-append :
    (target : Mac) (id : MessageId) (xs ys : List Ack)
    → any_answer target id (xs ++ ys) ≡ any_answer target id xs || any_answer target id ys
any_answer-append target id [] ys = refl
any_answer-append target id (a ∷ acks) ys = ground (arith, any_answer-append target id acks ys)
