-- ===== src/Ota/WorkerManager.antt =====
-- main/src/worker_ota_manager.cpp: the main device keeps one firmware package for its workers, and
-- sends it to one of them at a time. Files are lists of bytes; how a call of the file system or of
-- mbedTLS ends is an argument of the function that makes it.
pub mod Remote
pub mod Upload
pub mod Deploy
use plant_watering.Prelude.{
  ℕ, Bool, true, false, not, ◌&&◌, List, [], ◌∷◌, Option, none, some, ◌==◌, if◌then◌else◌, length,
  take, replicate, String,
}
use plant_watering.Bluetooth.Message.{Mac, zero_mac}
use plant_watering.Ota.Package.{Header, ParseError, header_size, parse_worker_header}

-- `WorkerOtaJobState`.
pub data JobState : Type 0 where
  idle receiving_package stored connecting checking transferring : JobState
  verifying rebooting done failed : JobState

-- `WorkerOtaStatusSnapshot`. The texts all fit `message`.
pub record JobStatus : Type 0 where
  pub state : JobState
  pub active : Bool
  pub target_mac : Mac
  pub package_bytes_received : ℕ
  pub image_bytes_sent : ℕ
  pub expected_image_bytes : ℕ
  pub package_version : ℕ
  pub package_hardware : ℕ
  pub message : String

-- The variables of the file. `header_received` is the received part of `gHeader`, `sha_input` what
-- the hash context was given; the two files are those of WORKER_FW_PATH and WORKER_FW_TMP_PATH.
pub record WorkerManager : Type 0 where
  pub status : JobStatus
  pub upload_open : Bool
  pub header_received : List ℕ
  pub parsed_header : Header
  pub sha256_active : Bool
  pub sha_input : List ℕ
  pub storage_available : Bool
  pub upload_capacity_bytes : ℕ
  pub stored_file : Option (List ℕ)
  pub temp_file : Option (List ℕ)

abbrev pub worker_ota_slot_size : ℕ
worker_ota_slot_size = 0x140000

abbrev pub no_header : Header
no_header = record {
  format_version = 0;
  header_size = 0;
  role = 0;
  chip = 0;
  hardware_target = 0;
  firmware_version = 0;
  image_size = 0;
  image_sha256 = replicate 32 0;
}

-- A status set to zero.
abbrev pub no_status : JobStatus
no_status = record {
  state = idle;
  active = false;
  target_mac = zero_mac;
  package_bytes_received = 0;
  image_bytes_sent = 0;
  expected_image_bytes = 0;
  package_version = 0;
  package_hardware = 0;
  message = "";
}

-- The three below are about `gStatus` only.
abbrev pub set_status : JobState → String → JobStatus → JobStatus
set_status state message s = record s { state = state; message = message }

abbrev pub set_progress : ℕ → JobStatus → JobStatus
set_progress sent s = record s { image_bytes_sent = sent }

abbrev pub finish_active_job : JobState → String → JobStatus → JobStatus
finish_active_job state message s = record s { state = state; active = false; message = message }

abbrev pub set_message : String → WorkerManager → WorkerManager
set_message message m = record m { status = record m.status { message = message } }

abbrev pub set_failure : String → WorkerManager → WorkerManager
set_failure message m = record m { status = finish_active_job failed message m.status }

-- A file after `LittleFS.remove`, which may fail.
abbrev pub remove : Bool → Option (List ℕ) → Option (List ℕ)
remove removes file = if removes then none else file

-- `cleanupUpload`; `removes` says whether the temporary file can be removed.
unfoldable pub cleanup_upload : Bool → Bool → WorkerManager → WorkerManager
cleanup_upload remove_temp removes m = record m {
  upload_open = false;
  sha256_active = false;
  header_received = [];
  parsed_header = no_header;
  upload_capacity_bytes = 0;
  temp_file =
      if remove_temp && m.storage_available then remove removes m.temp_file else m.temp_file;
}

abbrev pub is_none : ParseError → Bool
is_none ParseError.none = true
is_none _ = false

-- The header in front of the bytes of a file, where it is one of a worker package.
unfoldable pub header_of : List ℕ → Option Header
header_of bytes =
    let (error, header) =
      parse_worker_header (take header_size bytes) worker_ota_slot_size no_header in
    if is_none error then some header else none

-- `loadStoredHeader`.
unfoldable pub load_stored_header : WorkerManager → Option Header
unfolding header_of
load_stored_header m =
    if m.storage_available
    then elim m.stored_file [ none ↦ none | some bytes ↦ header_of bytes ]
    else none
