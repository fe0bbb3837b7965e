-- ===== src/Examples/Tables.antt =====
-- The watering call and the tables of main/src at concrete inputs.
use plant_watering.Prelude.{ℕ, ◌≤◌, ◌≡◌, refl, Bool, true, false, List, [], ◌∷◌, none, arith}
use plant_watering.Prelude.Int.{pos}
use plant_watering.Bluetooth.Message.{message_id, zero_mac}
use plant_watering.Bluetooth.Packet.{Received}
use plant_watering.Policy.AutoRecovery.{make_record}
use plant_watering.Watering.{WateringState}
use plant_watering.Watering.Execute.{Surroundings}
use plant_watering.Nodes.{MainState, MainAction}
use plant_watering.Nodes
use plant_watering.Nodes.Repeat.{AcksOnly, accept_packet_repeated}
use plant_watering.Settings.{WorkerTable}
use plant_watering.Settings.Calls.{GoodReply, Call, add, perform, perform-GoodReply}
use plant_watering.Settings.Runtime.{
  AutoMode, set_auto_enabled, AllRetain, set_auto_enabled-Retains, WifiState,
  service_wifi_maintenance, service_wifi_calls, NoReconnect, service_wifi_spaced,
}
use plant_watering.Examples.Devices.{main_mac, worker_mac}

abbrev quiet : WateringState
quiet = record { manual_queue = []; active_mac = zero_mac; active_mask = 0; completed = false }

-- The worker reports in the second round.
abbrev good_day : Surroundings
good_day = record {
  tank_low = false;
  transmission_started = true;
  started_us = 1000;
  during_send = [];
  polls =
      record { reports = []; now = 101000; tank_low = false }
      ∷ record {
        reports = record { mac = worker_mac; mask = 5 } ∷ [];
        now = 50000000;
        tank_low = false;
      }
      ∷ [];
  late = [];
}

-- A table without workers, and its first worker.
abbrev empty_table : WorkerTable
empty_table = record { workers = []; dirty_generation = 1; dirty_at_us = 0 }

abbrev add_first : Call
add_first =
    add (b'a' ∷ b'0' ∷ b'0' ∷ b'0' ∷ b'0' ∷ b'0' ∷ b'0' ∷ b'0' ∷ b'0' ∷ b'0' ∷ b'0' ∷ b'1' ∷ [])
      1800 10 none

perform-GoodReply_example : GoodReply empty_table (perform empty_table add_first 5)
perform-GoodReply_example =
    perform-GoodReply empty_table add_first 5 (record { few = omega arith; all_workers = tt })

abbrev armed_mode : AutoMode
armed_mode = record { auto_enabled = true; retained = make_record true }

set_auto_enabled-Retains_example : AllRetain (set_auto_enabled false armed_mode)
set_auto_enabled-Retains_example = set_auto_enabled-Retains false armed_mode (λ reason h. refl)

abbrev lost_wifi : WifiState
lost_wifi = record {
  credentials_available = true;
  was_connected = false;
  reconnect_attempt = 0;
  next_reconnect_us = 5000000;
}

abbrev later_calls : List (Bool × ℕ)
later_calls = (false, 7000000) ∷ (false, 20000000) ∷ []

lost_wifi_reconnects : (service_wifi_maintenance lost_wifi false 6000000).reconnect ≡ true
unfolding service_wifi_maintenance
lost_wifi_reconnects = refl

service_wifi_spaced_example :
    (false ≡ false)
    × (lost_wifi.credentials_available ≡ true)
    × (lost_wifi.next_reconnect_us ≤ 6000000)
    × NoReconnect
        (service_wifi_calls (service_wifi_maintenance lost_wifi false 6000000).wifi later_calls)
service_wifi_spaced_example =
    service_wifi_spaced lost_wifi false 6000000 later_calls lost_wifi_reconnects (refl, (refl, tt))
      (omega arith, (omega arith, tt))

abbrev no_nodes : MainState
no_nodes = record { nodes = []; sleep_requests = [] }

-- The report of a watering, heard twice.
abbrev done_packet : Received
done_packet = record { target = main_mac; id = message_id 8 1; body = 0x42 ∷ 5 ∷ 2 ∷ 0 ∷ 5 ∷ [] }

accept_packet_repeated_example :
    let s' =
      (Nodes.accept_packet main_mac
        (λ _. true)
        false
        no_nodes
        worker_mac
        done_packet
        (pos 3)
        10).0 in
    let again =
      Nodes.accept_packet main_mac (λ _. true) true s' worker_mac done_packet (pos 4) 20 in
    (again.0 ≡ s') × AcksOnly again.1
accept_packet_repeated_example =
    accept_packet_repeated main_mac (λ _. true) false true no_nodes worker_mac done_packet (pos 3)
      (pos 4) 10 20
