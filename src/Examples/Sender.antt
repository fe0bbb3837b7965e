-- ===== src/Examples/Sender.antt =====
-- Ids and jobs of the sender of main/src/bluetooth_common.cpp at concrete inputs.
use plant_watering.Prelude.{◌≡◌, ◌≢◌, refl, true, false, List, [], ◌∷◌, some, arith}
use plant_watering.Bluetooth.Message.{Mac, message_id}
use plant_watering.Bluetooth.Sender.{
  IdState, allocate_message_id, SendResult, PendingAck, Attempt, TxJob, acked, process_command_job,
  pending_for,
}
use plant_watering.Bluetooth.Sender.Ids.{after_ids, IsIdState, allocate_message_id_fresh}
use plant_watering.Bluetooth.Sender.Answers.{Answered, acks_of}
use plant_watering.Bluetooth.Sender.Job.{IsStarted, process_command_job-returns}

-- The last id of session 7.
abbrev last_of_session : IdState
last_of_session = record { session_id = 7; next_sequence = 4294967295 }

last_of_session-IsIdState : IsIdState last_of_session
last_of_session-IsIdState = record {
  session_range = (omega arith, omega arith);
  sequence_range = (omega arith, omega arith);
}

allocate_message_id_fresh_example :
    ((allocate_message_id last_of_session).0
      ≢ (allocate_message_id (after_ids 1 last_of_session)).0)
    × ((allocate_message_id last_of_session).0 ≢ message_id 0 0)
allocate_message_id_fresh_example =
    allocate_message_id_fresh last_of_session 0 last_of_session-IsIdState (omega arith)

abbrev worker_mac : Mac
worker_mac = 1 ∷ 2 ∷ 3 ∷ 4 ∷ 5 ∷ 6 ∷ []

-- One retry, 150 ms of waiting.
abbrev one_job : TxJob
one_job = record {
  mac = worker_mac;
  message_id = message_id 7 1;
  retries = 1;
  ack_timeout_ms = 150;
}

-- The first attempt is not acknowledged, the second one is.
abbrev two_attempts : List Attempt
two_attempts =
    record {
      broadcast_ok = true;
      started_us = 1000;
      during = [];
      wait_from_us = 2000;
      rounds = record { acks = []; now = 100000 } ∷ record { acks = []; now = 152000 } ∷ [];
    }
    ∷ record {
      broadcast_ok = true;
      started_us = 160000;
      during = record { source = worker_mac; id = message_id 7 1 } ∷ [];
      wait_from_us = 170000;
      rounds = record { acks = []; now = 170010 } ∷ record { acks = []; now = 320010 } ∷ [];
    }
    ∷ []

process_command_job-returns_example :
    (p' : PendingAck) × (r : SendResult) × (process_command_job one_job true
        (pending_for one_job)
        two_attempts
      ≡ some (p', r))
    × (p'.active ≡ false)
    × IsStarted r
    × (r.message_id ≡ message_id 7 1)
    × (r.status ≡ acked → Answered worker_mac (message_id 7 1) (acks_of two_attempts))
process_command_job-returns_example =
    process_command_job-returns one_job (pending_for one_job) two_attempts (omega arith)
      (λ _. refl, (λ _. refl, tt))
