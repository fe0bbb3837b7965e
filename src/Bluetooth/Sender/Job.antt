-- ===== src/Bluetooth/Sender/Job.antt =====
-- What `processCommandJob` of main/src/bluetooth_common.cpp gives the waiting task.
use plant_watering.Prelude.{
  ℕ, zero, suc, ◌+◌, ◌*◌, ◌≤◌, ◌≡◌, refl, ◌∙◌, Bool, true, false, not, ◌&&◌, ◌||◌, ◌⊎◌, inl, inr,
  List, [], ◌∷◌, ◌++◌, Option, none, some, leb, if◌then◌else◌, length, arith, Bool-cases, if_rule,
  not-false,
}
use plant_watering.Bluetooth.Message.{Mac, MessageId}
use plant_watering.Bluetooth.Sender.{
  transmit_failed, sent, acked, SendResult, PendingAck, Ack, answers, mark_ack, mark_acks, Round,
  Attempt, wait_for_ack, note_start, attempts_loop, TxJob, pending_for, failed_result,
  process_command_job,
}
use plant_watering.Bluetooth.Sender.Answers.{
  any_answer, Answered, any_answer-Answered, acks_of_rounds, acks_of, any_answer-append,
}

-- The pending entry of a job, where `seen` says whether an answer has come.
record Waits (target : Mac) (id : MessageId) (seen : Bool) (p : PendingAck) : Type 0 where
  on : p.active ≡ true
  worker : p.target_mac ≡ target
  message : p.message_id ≡ id
  seen_if : p.acked ≡ true → seen ≡ true

Waits-weaken :
    (target : Mac) (id : MessageId) (seen seen' : Bool) (p : PendingAck)
    → (seen ≡ true → seen' ≡ true)
    → Waits target id seen p
    → Waits target id seen' p
Waits-weaken target id seen seen' p f w = record {
  on = w.on;
  worker = w.worker;
  message = w.message;
  seen_if = λ h. f (w.seen_if h);
}

mark_ack-Waits :
    (target : Mac) (id : MessageId) (seen : Bool) (p : PendingAck) (a : Ack)
    → Waits target id seen p
    → Waits target id (seen || answers target id a) (mark_ack p a)
unfolding mark_ack
mark_ack-Waits target id seen p a w =
    let same : answers p.target_mac p.message_id a ≡ answers target id a =
      λ i. answers (w.worker i) (w.message i) a in
    if_rule (Waits target id (seen || answers target id a))
      (p.active && answers p.target_mac p.message_id a)
      (λ h. record {
        on = w.on;
        worker = w.worker;
        message = w.message;
        seen_if = λ _. ground (arith, same);
      })
      (λ h. Waits-weaken target id seen _ p (λ e. ground arith) w)

mark_acks-Waits :
    (acks : List Ack) (target : Mac) (id : MessageId) (seen : Bool) (p : PendingAck)
    → Waits target id seen p
    → Waits target id (seen || any_answer target id acks) (mark_acks p acks)
unfolding mark_acks
mark_acks-Waits [] target id seen p w = Waits-weaken target id seen _ p (λ e. ground arith) w
mark_acks-Waits (a ∷ acks) target id seen p w =
    Waits-weaken target id ((seen || answers target id a) || any_answer target id acks) _ _
      (λ e. ground arith) (mark_acks-Waits acks target id _ _ (mark_ack-Waits target id seen p a w))

abbrev pub any_past : ℕ → List Round → Bool
any_past deadline [] = false
any_past deadline (r ∷ rs) =
    let rest = any_past deadline rs in if leb deadline r.now then true else rest

-- The wait ends at its deadline at the latest, and says that it saw the acknowledgement only if the
-- entry has it.
wait_for_ack-ends :
    (rs : List Round) (deadline : ℕ) (target : Mac) (id : MessageId) (seen : Bool) (p : PendingAck)
    → any_past deadline rs ≡ true
    → Waits target id seen p
    → (p' : PendingAck) × (saw : Bool) × (wait_for_ack deadline p rs ≡ some (p', saw))
      × Waits target id (seen || any_answer target id (acks_of_rounds rs)) p'
      × (saw ≡ true → p'.acked ≡ true)
unfolding wait_for_ack mark_acks
wait_for_ack-ends [] deadline target id seen p past w = absurd (ground arith)
wait_for_ack-ends (r ∷ rs) deadline target id seen p past w =
    let p1 = mark_acks p r.acks in
    let w1 = mark_acks-Waits r.acks target id seen p w in
    let split = any_answer-append target id r.acks (acks_of_rounds rs) in
    let here : Waits target id (seen || any_answer target id (r.acks ++ acks_of_rounds rs)) p1 =
      Waits-weaken target id _ _ p1 (λ e. ground (arith, split)) w1 in
    elim (Bool-cases (leb deadline r.now)) [
      | inl h ↦ (p1, false, rw h refl, here, λ e. ground arith)
      | inr h ↦ elim (Bool-cases p1.acked) [
        | inl g ↦ (p1, true, rw (h, g) refl, here, λ _. g)
        | inr g ↦
            let (p', saw, e, w', s) =
              wait_for_ack-ends rs deadline target id (seen || any_answer target id r.acks) p1
                (ground arith) w1 in
            (p', saw, rw (h, g) e, Waits-weaken target id _ _ p' (λ q. ground (arith, split)) w', s)
      ]
    ]

-- Every attempt whose broadcast succeeds is given rounds up to its deadline.
abbrev pub AllTimed : ℕ → List Attempt → Type 0
AllTimed timeout_ms [] = Unit {0}
AllTimed timeout_ms (a ∷ later) =
    (a.broadcast_ok ≡ true → any_past (a.wait_from_us + timeout_ms * 1000) a.rounds ≡ true)
    × AllTimed timeout_ms later

-- A result in which the start and the status agree.
abbrev pub IsStarted : SendResult → Type 0
IsStarted r =
    ((r.transmission_started ≡ true) × ((r.status ≡ sent) ⊎ (r.status ≡ acked)))
    ⊎ ((r.transmission_started ≡ false) × (r.status ≡ transmit_failed))

-- What the loop over the attempts makes of a result.
abbrev Ends : Mac → MessageId → Bool → MessageId → PendingAck × SendResult → Type 0
Ends target id seen own (p', r') =
    Waits target id seen p'
    × IsStarted r'
    × (r'.message_id ≡ own)
    × (r'.status ≡ acked → seen ≡ true)

Ends-weaken :
    (target : Mac) (id : MessageId) (seen seen' : Bool) (own : MessageId)
    (q : PendingAck × SendResult)
    → (seen ≡ true → seen' ≡ true)
    → Ends target id seen own q
    → Ends target id seen' own q
Ends-weaken target id seen seen' own (p, r) f (w, s, m, k) =
    (Waits-weaken target id seen seen' p f w, s, m, λ e. f (k e))

abbrev Returns : Mac → MessageId → Bool → MessageId → Option (PendingAck × SendResult) → Type 0
Returns target id seen own o =
    (q : PendingAck × SendResult) × (o ≡ some q) × Ends target id seen own q

Returns-weaken :
    (target : Mac) (id : MessageId) (seen seen' : Bool) (own : MessageId)
    (o : Option (PendingAck × SendResult))
    → (seen ≡ true → seen' ≡ true)
    → Returns target id seen own o
    → Returns target id seen' own o
Returns-weaken target id seen seen' own o f (q, e, h) =
    (q, e, Ends-weaken target id seen seen' own q f h)

note_start-IsStarted :
    (r : SendResult) (started : ℕ)
    → IsStarted r
    → IsStarted (note_start r started) × ((note_start r started).message_id ≡ r.message_id)
note_start-IsStarted r started s = ground arith

note_start-acked :
    (r : SendResult) (started : ℕ) (seen seen' : Bool)
    → (r.status ≡ acked → seen ≡ true)
    → (seen ≡ true → seen' ≡ true)
    → (note_start r started).status ≡ acked
    → seen' ≡ true
note_start-acked r started seen seen' k f =
    if_rule (λ (r' : SendResult). r'.status ≡ acked → seen' ≡ true) r.transmission_started
      (λ _ e. f (k e)) (λ _ e. absurd (ground (arith, e)))

note_start-IsStarted_acked :
    (r : SendResult) (started : ℕ) (mac : Mac)
    → IsStarted (record (note_start r started) { status = acked; ack_mac = mac })
note_start-IsStarted_acked r started mac = inl (
  if_rule (λ (r' : SendResult). r'.transmission_started ≡ true) r.transmission_started (λ h. h)
      (λ _. refl),
  inr refl,
)

note_start-message_id :
    (r : SendResult) (started : ℕ) (mac : Mac)
    → (record (note_start r started) { status = acked; ack_mac = mac }).message_id ≡ r.message_id
note_start-message_id r started mac =
    if_rule (λ (r' : SendResult). r'.message_id ≡ r.message_id) r.transmission_started (λ _. refl)
      (λ _. refl)

attempts_loop-Ends :
    (n : ℕ) (attempts : List Attempt) (timeout_ms : ℕ) (target : Mac) (id own : MessageId)
    (seen : Bool) (p : PendingAck) (r : SendResult)
    → n ≤ length attempts
    → AllTimed timeout_ms attempts
    → Ends target id seen own (p, r)
    → Returns target id
        (seen || any_answer target id (acks_of attempts))
        own
        (attempts_loop n timeout_ms p r attempts)
unfolding attempts_loop
attempts_loop-Ends zero attempts timeout_ms target id own seen p r enough timed h =
    ((p, r), refl, Ends-weaken target id seen _ own (p, r) (λ e. ground arith) h)
attempts_loop-Ends (suc n) [] timeout_ms target id own seen p r enough timed h =
    absurd (omega arith)
attempts_loop-Ends (suc n) (a ∷ later) timeout_ms target id own seen p r enough (past, timed)
      (w, s, m, k) =
    if_rule (Returns target id all own) (not a.broadcast_ok)
      (λ off.
        Returns-weaken target id _ all own _ (λ e. ground (arith, split, split'))
          (attempts_loop-Ends n later timeout_ms target id own
            (seen || any_answer target id a.during) p1 r (omega (arith, enough)) timed
            (w1, s, m, λ e. ground (arith, k e))))
      (λ on.
        let (p', saw, e, w', acked_if) =
          wait_for_ack-ends a.rounds (a.wait_from_us + timeout_ms * 1000) target id _ p1
            (past (not-false a.broadcast_ok on)) w1 in
        rw e (
          waited
            (λ q r1 seen'.
              attempts_loop-Ends n later timeout_ms target id own seen' q r1 (omega (arith, enough))
                timed)
            p' saw w' acked_if))
  where
    p1 : PendingAck
    p1 = mark_acks p a.during

    w1 : Waits target id (seen || any_answer target id a.during) p1
    w1 = mark_acks-Waits a.during target id seen p w

    all : Bool
    all = seen || any_answer target id (a.during ++ (acks_of_rounds a.rounds ++ acks_of later))

    split :
        any_answer target id (a.during ++ (acks_of_rounds a.rounds ++ acks_of later))
        ≡ any_answer target id a.during
          || any_answer target id (acks_of_rounds a.rounds ++ acks_of later)
    split = any_answer-append target id a.during (acks_of_rounds a.rounds ++ acks_of later)

    split' :
        any_answer target id (acks_of_rounds a.rounds ++ acks_of later)
        ≡ any_answer target id (acks_of_rounds a.rounds) || any_answer target id (acks_of later)
    split' = any_answer-append target id (acks_of_rounds a.rounds) (acks_of later)

    heard : Bool
    heard =
        (seen || any_answer target id a.during) || any_answer target id (acks_of_rounds a.rounds)

    waited :
        (again : (q : PendingAck) (r1 : SendResult) (seen' : Bool)
          → Ends target id seen' own (q, r1)
          → Returns target id
              (seen' || any_answer target id (acks_of later))
              own
              (attempts_loop n timeout_ms q r1 later))
        → (p' : PendingAck) (saw : Bool) → Waits target id heard p'
        → (saw ≡ true → p'.acked ≡ true)
        → let outcome : Option (PendingAck × Bool) = some (p', saw) in
          Returns target id all own (elim outcome [
            | none ↦ none
            | some (p'', true) ↦
                some (
                  p'',
                  record (note_start r a.started_us) { status = acked; ack_mac = p''.ack_mac },
                )
            | some (p'', false) ↦ attempts_loop n timeout_ms p'' (note_start r a.started_us) later
          ])
    waited again p' true w' acked_if = (
      (p', record (note_start r a.started_us) { status = acked; ack_mac = p'.ack_mac }),
      refl,
      (
        Waits-weaken target id heard all p' (λ e. ground (arith, split, split')) w',
        note_start-IsStarted_acked r a.started_us p'.ack_mac,
        note_start-message_id r a.started_us p'.ack_mac ∙ m,
        λ e. ground (arith, split, split', w'.seen_if (acked_if refl)),
      ),
    )
    waited again p' false w' acked_if =
        let (s1, m1) = note_start-IsStarted r a.started_us s in
        Returns-weaken target id _ all own _ (λ e. ground (arith, split, split'))
          (again p' (note_start r a.started_us) heard (
            w',
            s1,
            m1 ∙ m,
            λ e. note_start-acked r a.started_us seen heard k (λ g. ground arith) e,
          ))

-- Where every attempt whose broadcast succeeds is given rounds up to its deadline, the waiting task is
-- given a result: its message id is the job's, the start and the status agree, it is acknowledged only
-- if among the acknowledgements of the attempts is one with the job's message id and, unless the job
-- is for all, from the job's worker; and afterwards no entry is pending.
pub process_command_job-returns :
    (job : TxJob) (p : PendingAck) (attempts : List Attempt)
    → job.retries + 1 ≤ length attempts
    → AllTimed job.ack_timeout_ms attempts
    → (p' : PendingAck) × (r : SendResult) × (process_command_job job true p attempts
        ≡ some (p', r))
      × (p'.active ≡ false)
      × IsStarted r
      × (r.message_id ≡ job.message_id)
      × (r.status ≡ acked → Answered job.mac job.message_id (acks_of attempts))
unfolding process_command_job
process_command_job-returns job p attempts enough timed =
    let ((p', r), e, (w, s, m, k)) =
      attempts_loop-Ends (job.retries + 1) attempts job.ack_timeout_ms job.mac job.message_id
        job.message_id false (pending_for job) (failed_result job) enough timed
        (
          record { on = refl; worker = refl; message = refl; seen_if = λ x. x },
          inr (refl, refl),
          refl,
          λ x. absurd (ground (arith, x)),
        ) in
    (
      record p' { active = false },
      r,
      rw e refl,
      refl,
      s,
      m,
      λ h. any_answer-Answered job.mac job.message_id (acks_of attempts) (k h),
    )
