-- ===== src/Web/WorkerUpload.antt =====
-- `handleWorkerOtaUploadChunk`, `handleWorkerOtaRequestComplete` and `handleWorkerOtaStart` of
-- main/src/webui.cpp. The handlers run one at a time, in the task of the web server.
pub mod Safety
pub mod Complete
use plant_watering.Prelude.{
  Option, none, some, ℕ, suc, Bool, true, false, not, ◌&&◌, ◌||◌, List, [], ◌∷◌, if◌then◌else◌,
  String,
}
use plant_watering.Text.{mac_from_hex_string}
use plant_watering.Ota.WorkerManager.{WorkerManager}
use plant_watering.Ota.WorkerManager.Upload.{
  Opening, package_upload_start, Writing, package_upload_consume, Closing, package_upload_finish,
  package_upload_abort,
}
use plant_watering.Ota.WorkerManager.Deploy.{start_for_worker}

-- The variables `sWorkerOta...`.
pub record UploadRequest : Type 0 where
  pub saw_file : Bool
  pub started : Bool
  pub accepted : Bool
  pub finished : Bool
  pub request_error : String
  pub request_error_status : ℕ

abbrev pub no_request : UploadRequest
no_request = record {
  saw_file = false;
  started = false;
  accepted = false;
  finished = false;
  request_error = "";
  request_error_status = 400;
}

abbrev pub is_empty : String → Bool
is_empty String.[] = true
is_empty (String.◌∷◌ c s) = false

abbrev text_or : String → String → String
text_or message other = if is_empty message then other else message

-- What the handlers work on, and the calls of `stopManualPump` with `pumpOff` that they have made.
pub record Site : Type 0 where
  pub request : UploadRequest
  pub manager : WorkerManager
  pub pump_stops : ℕ

-- What a chunk can find: the automatic mode, and a runtime state of watering or synchronizing or an
-- update of the main device. `removes` is the removal of the temporary file in an abort.
pub record Moment : Type 0 where
  pub auto_enabled : Bool
  pub busy : Bool
  pub removes : Bool

abbrev fails : String → UploadRequest → UploadRequest
fails error r = record r { request_error = error }

-- UPLOAD_FILE_START.
unfoldable pub file_start : Moment → Opening → Site → Site
unfolding package_upload_start package_upload_abort
file_start now o s =
    let r = s.request in
    let m = s.manager in
    let seen = record r { saw_file = true } in
    let (m', ok) = package_upload_start o m in
    let opened = record s {
      request = record seen { started = true; accepted = true };
      manager = m';
      pump_stops = suc s.pump_stops;
    } in
    let not_opened = record s {
      request = record (fails (text_or m'.status.message "worker_ota_start_failed") seen) {
        started = true;
      };
      manager = m';
      pump_stops = suc s.pump_stops;
    } in
    if now.auto_enabled
    then record s { request = record (fails "AUTO_MODE" seen) { request_error_status = 409 } }
    else if r.saw_file
    then record s {
      request = record (fails "multiple_files_not_allowed" r) { accepted = false };
      manager =
          if r.started then package_upload_abort now.removes "multiple_files_not_allowed" m else m;
    }
    else if now.busy || m.status.active
    then record s { request = fails "system_busy" seen }
    else if ok
    then opened
    else not_opened

-- UPLOAD_FILE_WRITE.
unfoldable pub file_write : Moment → Writing → List ℕ → Site → Site
unfolding package_upload_consume package_upload_abort
file_write now w bytes s =
    let (m', ok) = package_upload_consume w s.manager bytes in
    if not s.request.accepted then s else if ok then record s { manager = m' } else record s {
      request = record (fails m'.status.message s.request) { accepted = false };
      manager = package_upload_abort now.removes m'.status.message m';
    }

-- UPLOAD_FILE_END.
unfoldable pub file_end : Closing → Site → Site
unfolding package_upload_finish
file_end c s =
    let over = record s.request { finished = true } in
    let (m', ok) = package_upload_finish c s.manager in
    if not s.request.accepted
    then record s { request = over }
    else if ok
    then record s { request = over; manager = m' }
    else record s {
      request = record (fails m'.status.message over) { accepted = false };
      manager = m';
    }

-- UPLOAD_FILE_ABORTED.
unfoldable pub file_aborted : Moment → Site → Site
unfolding package_upload_abort
file_aborted now s =
    let error = text_or s.request.request_error "upload_aborted" in
    record s {
      request = record s.request { request_error = error; accepted = false; finished = true };
      manager =
          if s.request.started then package_upload_abort now.removes error s.manager else s.manager;
    }

-- `handleWorkerOtaRequestComplete`: whether the answer is a success, its error text, and the state
-- afterwards.
unfoldable pub request_complete : Moment → Site → Bool × String × Site
unfolding package_upload_abort
request_complete now s =
    let r = s.request in
    let succeeded = r.saw_file && (r.finished && is_empty r.request_error) in
    let error =
      if not r.saw_file && is_empty r.request_error
      then "missing_firmware_file"
      else if not succeeded && is_empty r.request_error
      then text_or s.manager.status.message "worker_update_failed"
      else r.request_error in
    (
      succeeded,
      error,
      record s {
        request = no_request;
        manager =
            if not succeeded && r.started
            then package_upload_abort now.removes error s.manager
            else s.manager;
      },
    )

-- `handleWorkerOtaStart`: the status of the answer. `text` is the address that the JSON parser finds in
-- the body, and `none` if it finds none (BAD_JSON).
unfoldable pub worker_ota_start : Moment → Option (List ℕ) → Bool → Bool → Site → ℕ × Site
unfolding start_for_worker mac_from_hex_string
worker_ota_start now text configured creates s =
    if now.auto_enabled || (now.busy || s.manager.status.active) then (409, s) else elim text [
      | none ↦ (400, s)
      | some digits ↦ elim (mac_from_hex_string digits) [
        | none ↦ (400, s)
        | some mac ↦
            let (m', started) = start_for_worker mac configured creates s.manager in
            (
              (if started then 202 else 400),
              record s { manager = m'; pump_stops = suc s.pump_stops },
            )
      ]
    ]
