-- ===== src/Watering/Execute/Returns.antt =====
-- That `wateringExecuteWorker` of main/src/watering_manager.cpp returns, and what its answer says.
use plant_watering.Prelude.{
  ℕ, ◌≡◌, Bool, true, false, ◌&&◌, List, [], ◌∷◌, ◌++◌, leb, ◌==◌, if◌then◌else◌,
}
use plant_watering.Prelude.Bytes.{bytes_eq}
use plant_watering.Bluetooth.Message.{Mac}
use plant_watering.Watering.{WateringState}
use plant_watering.Watering.Execute.{Report, Poll, Surroundings}

-- Whether a report about the worker and the mask is among the reports.
abbrev pub any_match : Mac → ℕ → List Report → Bool
any_match mac mask [] = false
any_match mac mask (r ∷ rs) =
    let rest = any_match mac mask rs in if bytes_eq mac r.mac && mask == r.mask then true else rest

abbrev pub all_reports : List Poll → List Report
all_reports [] = []
all_reports (p ∷ ps) = p.reports ++ all_reports ps

-- The state while the call waits for the worker and the mask.
record Waits (mac : Mac) (mask : ℕ) (seen : Bool) (s : WateringState) : Type 0 where
  worker : s.active_mac ≡ mac
  pots : s.active_mask ≡ mask
  seen_if : s.completed ≡ true → seen ≡ true

-- A round at or past the deadline.
abbrev pub any_past : ℕ → List Poll → Bool
any_past deadline [] = false
any_past deadline (p ∷ ps) =
    let rest = any_past deadline ps in if leb deadline p.now then true else rest

-- All the reports that can reach one call.
abbrev pub reports_of : Surroundings → List Report
reports_of e = e.during_send ++ (all_reports e.polls ++ e.late)
