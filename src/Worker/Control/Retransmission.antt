-- ===== src/Worker/Control/Retransmission.antt =====
-- Commands that the main device of worker/src/bluetooth_worker.cpp repeats, since it saw no
-- acknowledgement.
use plant_watering.Prelude.{ℕ, Bool, true, false, List, [], ◌∷◌, ◌++◌, if◌then◌else◌}
use plant_watering.Bluetooth.Message.{Mac}
use plant_watering.Bluetooth.Packet.{Received}
use plant_watering.Worker.Water.{Action}
use plant_watering.Worker.Control.{WorkerState, WorkerCommand, control_command, accept_packet}

-- What comes while one command is repeated: any packet that is heard, or a copy of the command that
-- the task meets, with the outcome of its acknowledgement and the time.
pub data Event : Type 0 where
  heard : Mac → Received → ℕ → Event
  copy : Bool → ℕ → Event

unfoldable pub control_copies :
    ℕ → Mac → WorkerState → WorkerCommand → List Event → WorkerState × List Action
control_copies pots self s c [] = (s, [])
control_copies pots self s c (heard source r now ∷ events) =
    control_copies pots self (accept_packet pots self s source r now).0 c events
control_copies pots self s c (copy started now ∷ events) =
    let (s', first) = control_command pots s c started now in
    let (s'', later) = control_copies pots self s' c events in (s'', first ++ later)

abbrev pub any_started : List Event → Bool
any_started [] = false
any_started (heard source r now ∷ events) = any_started events
any_started (copy started now ∷ events) =
    let rest = any_started events in if started then true else rest
