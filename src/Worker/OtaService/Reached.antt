-- ===== src/Worker/OtaService/Reached.antt =====
-- The states that the update service of worker/src/worker_ota_service.cpp reaches.
use plant_watering.Prelude.{ℕ, ◌≡◌, refl, ap, false, List, [], none, length}
use plant_watering.Worker.OtaService.{
  idle, ready_to_reboot, no_error, Build, Platform, OtaState, empty_header,
}
use plant_watering.Worker.OtaService.Commands.{control_write, data_write, on_disconnect}
use plant_watering.Worker.OtaService.Safety.{IsPlatform, IsSound, IsAllowed, Fits, is_ready}
use plant_watering.Worker.OtaService.Reboot.{
  Blank-IsSound, control_write-IsSound, data_write-IsSound, on_disconnect-IsSound,
}

abbrev pub start : OtaState
start = record {
  state = idle;
  error = no_error;
  header = empty_header;
  image_prefix = [];
  image_bytes_received = 0;
  target_partition = none;
  ota_begun = false;
  flash = [];
  sha256_active = false;
  sha_input = [];
  reboot_at_ms = 0;
}

-- The states of the service after any writes to its characteristics and any disconnections.
pub data Reached (build : Build) (sha : List ℕ → List ℕ) : OtaState → Type 0 where
  started : Reached build sha start
  controlled :
      {s : OtaState} (p : Platform) (bytes : List ℕ) (now : ℕ)
      → IsPlatform sha p
      → Reached build sha s
      → Reached build sha (control_write build p s bytes now)
  received :
      {s : OtaState} (p : Platform) (bytes : List ℕ)
      → IsPlatform sha p
      → Reached build sha s
      → Reached build sha (data_write build p s bytes)
  disconnected : {s : OtaState} → Reached build sha s → Reached build sha (on_disconnect s)

Reached-IsSound :
    (build : Build) (sha : List ℕ → List ℕ) {s : OtaState}
    → Reached build sha s
    → IsSound build sha s
Reached-IsSound build sha started = Blank-IsSound build sha start (refl, refl, refl, refl)
Reached-IsSound build sha (controlled {s} p bytes now good r) =
    control_write-IsSound build sha p s bytes now good (Reached-IsSound build sha r)
Reached-IsSound build sha (received {s} p bytes good r) =
    data_write-IsSound build sha p s bytes good (Reached-IsSound build sha r)
Reached-IsSound build sha (disconnected {s} r) =
    on_disconnect-IsSound build sha s (Reached-IsSound build sha r)

-- Whatever is written to the characteristics, in whatever order and with whatever failures of the
-- platform: a service that is ready to reboot has written an image that is complete, has the hash
-- and the size of its header and fits the chosen partition, and the header is for this hardware and
-- for a version other than the installed one and not below the floor.
pub ready_to_reboot_verified :
    (build : Build) (sha : List ℕ → List ℕ) (s : OtaState)
    → Reached build sha s
    → s.state ≡ ready_to_reboot
    → (sha s.flash ≡ s.header.image_sha256)
      × (length s.flash ≡ s.header.image_size)
      × Fits s
      × IsAllowed build s.header
ready_to_reboot_verified build sha s r h =
    let w = Reached-IsSound build sha r in
    let (hash, size, fits) = w.ready (ap is_ready h) in (hash, size, fits, w.chosen fits.0 fits.1)
