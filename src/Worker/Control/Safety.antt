-- ===== src/Worker/Control/Safety.antt =====
-- What the queue of worker/src/bluetooth_worker.cpp holds in every state that its tasks reach.
use mathlib.Core.List.{append_assoc}
use plant_watering.Prelude.{
  ℕ, zero, suc, ◌*◌, ◌≤◌, ◌<◌, ◌≡◌, refl, sym, subst, ap, ◌∙◌, Bool, true, false, inl, inr, List,
  [], ◌∷◌, ◌++◌, Option, none, some, ltb, length, length-append, arith, Bool-cases, Option-cases,
  drop, drop_all, drop-append_long, ltb→lt,
}
use plant_watering.Prelude.Bytes.{bytes_eq, bytes_eq_iff, byte_at}
use plant_watering.Bluetooth.Tlv.{type_cmd_sleep, field_sleep_sec, read_required_u32}
use plant_watering.Bluetooth.Message.{Mac, MessageId, same_message_id, zero_mac}
use plant_watering.Bluetooth.Packet.{Received}
use plant_watering.Worker.Water.{
  valve_set_mask, deep_sleep_us, validate_command, valid_sleep_body, max_sleep_seconds,
}
use plant_watering.Worker.Control.{
  WorkerState, WorkerCommand, command_queue_len, main_mac_is_set, stranger, enqueue_command,
  accept_packet, take_command, execute_command, execute_sleep, control_command, control_step,
  mark_communication, is_duplicate, set_main_mac, last_comm_overdue, main_mac_reset,
}

-- Every command of a list passed the checks.
abbrev pub AllValid : ℕ → List WorkerCommand → Type 0
AllValid pots [] = Unit {0}
AllValid pots (c ∷ cs) = (validate_command pots c.body ≡ true) × AllValid pots cs

-- Every command of a list came from the device.
abbrev pub AllFrom : Mac → List WorkerCommand → Type 0
AllFrom mac [] = Unit {0}
AllFrom mac (c ∷ cs) = (c.source_mac ≡ mac) × AllFrom mac cs

abbrev pub pending : Option WorkerCommand → List WorkerCommand
pending none = []
pending (some c) = c ∷ []

-- The commands that have been accepted and not dealt with: the one being acknowledged, and the queue.
abbrev pub waiting : WorkerState → List WorkerCommand
waiting s = pending s.acking ++ s.command_queue

-- `stale` of the waiting commands have been there since before the last reset of the pairing.
pub record IsSafe (pots stale : ℕ) (s : WorkerState) : Type 0 where
  pub bounded : length s.command_queue ≤ command_queue_len
  pub valid : AllValid pots (waiting s)
  pub counted : stale ≤ length (waiting s)
  pub fresh : AllFrom s.main_mac (drop stale (waiting s))
  pub unpaired : main_mac_is_set s ≡ false → drop stale (waiting s) ≡ []

abbrev one_less : ℕ → ℕ
one_less zero = zero
one_less (suc n) = n

-- The stale commands once the one being acknowledged, which is the first, is dealt with.
abbrev pub stale_behind : Option WorkerCommand → ℕ → ℕ
stale_behind none stale = stale
stale_behind (some c) stale = one_less stale

-- One step of the tasks, with the number of stale commands: a packet is heard (from a device with an
-- address of its own), a command is taken off the queue, the acknowledgement of the taken one is over,
-- or the main loop resets the pairing since the main device has been silent for too long.
pub data Step (pots : ℕ) (self : Mac) : ℕ → WorkerState → ℕ → WorkerState → Type 0 where
  heard :
      {stale : ℕ} {s : WorkerState} (source : Mac) (r : Received) (now : ℕ)
      → bytes_eq source zero_mac ≡ false
      → Step pots self stale s stale (accept_packet pots self s source r now).0
  taken : {stale : ℕ} {s : WorkerState} → Step pots self stale s stale (take_command s)
  acked :
      {stale : ℕ} {s : WorkerState} (started : Bool) (now : ℕ)
      → Step pots self stale s (stale_behind s.acking stale) (control_step pots s started now).0
  reset :
      {stale : ℕ} {s : WorkerState} (now : ℕ)
      → last_comm_overdue s now ≡ true
      → Step pots self stale s (length (waiting s)) (main_mac_reset s)

AllValid-append :
    (pots : ℕ) (c : WorkerCommand) (cs : List WorkerCommand)
    → AllValid pots cs
    → validate_command pots c.body ≡ true
    → AllValid pots (cs ++ c ∷ [])
AllValid-append pots c [] h ok = (ok, tt)
AllValid-append pots c (d ∷ ds) h ok = (h.0, AllValid-append pots c ds h.1 ok)

AllFrom-append :
    (mac : Mac) (c : WorkerCommand) (cs : List WorkerCommand)
    → AllFrom mac cs
    → c.source_mac ≡ mac
    → AllFrom mac (cs ++ c ∷ [])
AllFrom-append mac c [] h ok = (ok, tt)
AllFrom-append mac c (d ∷ ds) h ok = (h.0, AllFrom-append mac c ds h.1 ok)

-- A command joins the waiting ones at their end, behind the stale ones.
joined :
    (stale : ℕ) (s : WorkerState) (c : WorkerCommand)
    → pending s.acking ++ (s.command_queue ++ c ∷ []) ≡ waiting s ++ c ∷ []
joined stale s c = sym (append_assoc (pending s.acking) s.command_queue (c ∷ []))

enqueue_command-IsSafe :
    (pots stale : ℕ) (s : WorkerState) (c : WorkerCommand) (now : ℕ)
    → validate_command pots c.body ≡ true
    → stranger s c.source_mac ≡ false
    → bytes_eq c.source_mac zero_mac ≡ false
    → IsSafe pots stale s
    → IsSafe pots stale (enqueue_command s c now)
unfolding enqueue_command set_main_mac
enqueue_command-IsSafe pots stale s c now ok known own w =
    elim (Bool-cases (ltb (length s.command_queue) 4)) [
      | inr full ↦ rw full w
      | inl room ↦
          let size : length (s.command_queue ++ c ∷ []) ≤ command_queue_len = omega (
            arith,
            length-append s.command_queue (c ∷ []),
            ltb→lt (length s.command_queue) 4 room,
          ) in
          let last = joined stale s c in
          let valid =
            subst (AllValid pots) (sym last) (AllValid-append pots c (waiting s) w.valid ok) in
          let counted : stale ≤ length (pending s.acking ++ (s.command_queue ++ c ∷ [])) = omega (
            arith,
            w.counted,
            ap (λ (l : List WorkerCommand). length l) last,
            length-append (waiting s) (c ∷ []),
          ) in
          let dropped =
            ap (λ l. drop stale l) last ∙ drop-append_long stale (waiting s) (c ∷ []) w.counted in
          elim (Bool-cases (main_mac_is_set s)) [
            | inl paired ↦
                let same : c.source_mac ≡ s.main_mac =
                  (bytes_eq_iff c.source_mac s.main_mac).0 (ground arith) in
                rw (room, paired)
                  (record {
                    bounded = size;
                    valid = valid;
                    counted = counted;
                    fresh =
                        subst (AllFrom s.main_mac) (sym dropped)
                          (AllFrom-append s.main_mac c (drop stale (waiting s)) w.fresh same);
                    unpaired = λ h. ground arith;
                  })
            | inr alone ↦
                let only = dropped ∙ ap (λ l. l ++ c ∷ []) (w.unpaired alone) in
                rw (room, alone)
                  (record {
                    bounded = size;
                    valid = valid;
                    counted = counted;
                    fresh = subst (AllFrom c.source_mac) (sym only) (refl, tt);
                    unpaired = λ h. ground arith;
                  })
          ]
    ]

accept_packet-IsSafe :
    (pots stale : ℕ) (self : Mac) (s : WorkerState) (source : Mac) (r : Received) (now : ℕ)
    → bytes_eq source zero_mac ≡ false
    → IsSafe pots stale s
    → IsSafe pots stale (accept_packet pots self s source r now).0
unfolding accept_packet
accept_packet-IsSafe pots stale self s source r now own w = ground (
  arith,
  enqueue_command-IsSafe pots stale s
      (record { source_mac = source; message_id = r.id; body = r.body }) now,
)

abbrev state : Mac → MessageId → ℕ → List WorkerCommand → Option WorkerCommand → WorkerState
state mac last comm queue acking = record {
  main_mac = mac;
  last_command_id = last;
  last_communication_us = comm;
  command_queue = queue;
  acking = acking;
}

take_command-IsSafe :
    (pots stale : ℕ) (mac : Mac) (last : MessageId) (comm : ℕ) (queue : List WorkerCommand)
    (acking : Option WorkerCommand)
    → IsSafe pots stale (state mac last comm queue acking)
    → IsSafe pots stale (take_command (state mac last comm queue acking))
unfolding take_command
take_command-IsSafe pots stale mac last comm queue (some c) w = w
take_command-IsSafe pots stale mac last comm [] none w = w
take_command-IsSafe pots stale mac last comm (c ∷ rest) none w = record {
  bounded = omega (arith, w.bounded);
  valid = w.valid;
  counted = w.counted;
  fresh = w.fresh;
  unpaired = w.unpaired;
}

-- The taken command is dealt with: the time and the last id are of no matter.
acked-IsSafe :
    (pots stale : ℕ) (mac : Mac) (last last' : MessageId) (comm comm' : ℕ)
    (queue : List WorkerCommand) (c : WorkerCommand)
    → IsSafe pots stale (state mac last comm queue (some c))
    → IsSafe pots (one_less stale) (state mac last' comm' queue none)
acked-IsSafe pots zero mac last last' comm comm' queue c w = record {
  bounded = w.bounded;
  valid = w.valid.1;
  counted = omega arith;
  fresh = w.fresh.1;
  unpaired = λ h. ap (λ (l : List WorkerCommand). drop 1 l) (w.unpaired h);
}
acked-IsSafe pots (suc stale) mac last last' comm comm' queue c w = record {
  bounded = w.bounded;
  valid = w.valid.1;
  counted = omega (arith, w.counted);
  fresh = w.fresh;
  unpaired = w.unpaired;
}

control_step-IsSafe :
    (pots stale : ℕ) (mac : Mac) (last : MessageId) (comm : ℕ) (queue : List WorkerCommand)
    (acking : Option WorkerCommand) (started : Bool) (now : ℕ)
    → IsSafe pots stale (state mac last comm queue acking)
    → IsSafe pots
        (stale_behind acking stale)
        (control_step pots (state mac last comm queue acking) started now).0
unfolding control_step control_command mark_communication is_duplicate
control_step-IsSafe pots stale mac last comm queue none started now w = w
control_step-IsSafe pots stale mac last comm queue (some c) false now w =
    acked-IsSafe pots stale mac last last comm comm queue c w
control_step-IsSafe pots stale mac last comm queue (some c) true now w =
    elim (Bool-cases (same_message_id last c.message_id)) [
      | inl h ↦ rw h (acked-IsSafe pots stale mac last last comm now queue c w)
      | inr h ↦ rw h (acked-IsSafe pots stale mac last c.message_id comm now queue c w)
    ]

main_mac_reset-IsSafe :
    (pots stale : ℕ) (s : WorkerState)
    → IsSafe pots stale s
    → IsSafe pots (length (waiting s)) (main_mac_reset s)
unfolding main_mac_reset
main_mac_reset-IsSafe pots stale s w =
    let none_fresh = drop_all (length (waiting s)) (waiting s) (omega arith) in
    record {
      bounded = w.bounded;
      valid = w.valid;
      counted = omega arith;
      fresh = subst (AllFrom zero_mac) (sym none_fresh) tt;
      unpaired = λ _. none_fresh;
    }

-- No step of the tasks takes a worker out of the safe states: at most four commands are in the queue,
-- each of them and the one being acknowledged is well formed, and all but the stale ones, which come
-- first, are from the paired main device; an unpaired worker has no others. A reset of the pairing
-- makes all that wait stale, since the code leaves the queue as it is; nothing else adds a stale one,
-- and each command that is dealt with takes one away.
pub Step-IsSafe :
    (pots : ℕ) (self : Mac) {stale stale' : ℕ} {s s' : WorkerState}
    → Step pots self stale s stale' s'
    → IsSafe pots stale s
    → IsSafe pots stale' s'
Step-IsSafe pots self {stale} {s = s} (heard source r now own) w =
    accept_packet-IsSafe pots stale self s source r now own w
Step-IsSafe pots self {stale} {s = s} taken w =
    take_command-IsSafe pots stale s.main_mac s.last_command_id s.last_communication_us
      s.command_queue s.acking w
Step-IsSafe pots self {stale} {s = s} (acked started now) w =
    control_step-IsSafe pots stale s.main_mac s.last_command_id s.last_communication_us
      s.command_queue s.acking started now w
Step-IsSafe pots self {stale} {s = s} (reset now overdue) w = main_mac_reset-IsSafe pots stale s w

-- A worker that executes a sleep command closes the valves first, and sleeps for the time in the
-- command, from a second to 28 days; in a safe state such a command is never without a time.
pub execute_sleep_safe :
    (pots : ℕ) (c : WorkerCommand)
    → validate_command pots c.body ≡ true
    → byte_at c.body 0 ≡ type_cmd_sleep
    → (seconds : ℕ) × (read_required_u32 (drop 1 c.body) field_sleep_sec ≡ some seconds)
      × (0 < seconds)
      × (seconds ≤ max_sleep_seconds)
      × (execute_command pots c ≡ valve_set_mask 0 ∷ deep_sleep_us (seconds * 1000000) ∷ [])
unfolding execute_command execute_sleep validate_command valid_sleep_body
execute_sleep_safe pots c valid sleep =
    elim (Option-cases (read_required_u32 (drop 1 c.body) field_sleep_sec)) [
      | inl e ↦ absurd (ground arith)
      | inr (seconds, e) ↦ (seconds, e, ground arith, ground arith, ground arith)
    ]
