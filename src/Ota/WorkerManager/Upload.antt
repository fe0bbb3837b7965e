-- ===== src/Ota/WorkerManager/Upload.antt =====
-- The calls of main/src/worker_ota_manager.cpp that take a package: start, the chunks, finish and
-- abort; and `workerOtaManagerInit`.
pub mod HeaderBytes
pub mod Chunks
pub mod Accepted
pub mod Stored
use plant_watering.Prelude.{
  ℕ, ◌+◌, ◌-◌, ◌%◌, Bool, true, false, not, ◌&&◌, ◌||◌, List, [], ◌++◌, Option, none, some, min,
  ltb, leb, ◌==◌, if◌then◌else◌, length, take, drop, String,
}
use plant_watering.Prelude.Maybe.{is_some}
use plant_watering.Prelude.Bytes.{bytes_eq}
use plant_watering.Prelude.Words.{u32_mod}
use plant_watering.Ota.Package.{Header, ParseError, header_size, parse_worker_header}
use plant_watering.Ota.WorkerManager.{
  JobStatus, idle, receiving_package, stored, failed, WorkerManager, worker_ota_slot_size,
  no_status, finish_active_job, set_message, set_failure, remove, cleanup_upload, is_none,
  load_stored_header,
}

-- `FirmwarePackage::parseErrorName`.
unfoldable pub parse_error_name : ParseError → String
parse_error_name ParseError.none = "none"
parse_error_name ParseError.bad_length = "bad_header_length"
parse_error_name ParseError.bad_magic = "bad_magic"
parse_error_name ParseError.bad_format = "bad_format"
parse_error_name ParseError.bad_header_size = "bad_header_size"
parse_error_name ParseError.bad_role = "wrong_role"
parse_error_name ParseError.bad_chip = "wrong_chip"
parse_error_name ParseError.bad_hardware = "wrong_hardware"
parse_error_name ParseError.bad_version = "bad_version"
parse_error_name ParseError.bad_image_size = "bad_image_size"
parse_error_name ParseError.bad_reserved = "bad_reserved"

-- How the calls of `workerOtaPackageUploadStart` end. The temporary file is removed twice.
pub record Opening : Type 0 where
  pub cleanup_removes : Bool
  pub removes_temp : Bool
  pub removes_stored : Bool
  pub total_bytes : ℕ
  pub used_bytes : ℕ
  pub opens : Bool
  pub sha_starts : Bool
  pub removes_new_temp : Bool

-- The first removal of the temporary file is that of `cleanupUpload`.
unfoldable pub package_upload_start : Opening → WorkerManager → WorkerManager × Bool
unfolding cleanup_upload
package_upload_start o m =
    let clean = cleanup_upload true o.cleanup_removes m in
    let removed = record clean {
      temp_file = remove o.removes_temp clean.temp_file;
      stored_file = remove o.removes_stored clean.stored_file;
    } in
    let measured = record removed {
      upload_capacity_bytes =
          if leb o.used_bytes o.total_bytes then o.total_bytes - o.used_bytes else 0;
    } in
    let opened = record measured {
      upload_open = true;
      temp_file = some [];
      sha256_active = true;
      sha_input = [];
    } in
    if not m.storage_available
    then (set_failure "Worker firmware storage unavailable" m, false)
    else if m.status.active
    then (m, false)
    else if is_some removed.temp_file || is_some removed.stored_file
    then (set_failure "Worker firmware storage cleanup failed" removed, false)
    else if not o.opens
    then (set_failure "Worker firmware storage open failed" measured, false)
    else if not o.sha_starts
    then (
      set_failure "worker_package_hash_start_failed"
          (cleanup_upload true o.removes_new_temp opened),
      false,
    )
    else (
      record opened {
        status = record no_status {
          state = receiving_package;
          active = true;
          message = "Receiving worker firmware";
        };
      },
      true,
    )

-- How the calls of one `workerOtaPackageUploadConsume` end: the bytes that were written, and whether
-- they could be hashed.
pub record Writing : Type 0 where
  pub written : ℕ
  pub sha_update : Bool

-- What becomes of a complete header.
abbrev pub accept_header : Header → WorkerManager → WorkerManager
accept_header h m = record m {
  status = record m.status {
    expected_image_bytes = h.image_size;
    package_version = h.firmware_version;
    package_hardware = h.hardware_target;
  };
}

unfoldable pub check_header : WorkerManager → WorkerManager × Bool
unfolding parse_error_name
check_header m =
    let (error, h) = parse_worker_header m.header_received worker_ota_slot_size m.parsed_header in
    let parsed = record m { parsed_header = h } in
    if not (is_none error)
    then (set_message (parse_error_name error) parsed, false)
    else if ltb m.upload_capacity_bytes (header_size + h.image_size)
    then (set_message "worker_package_too_large_for_storage" parsed, false)
    else (accept_header h parsed, true)

-- The bytes of a chunk that are still missing in the header.
unfoldable pub consume_header : WorkerManager → List ℕ → WorkerManager × Bool
unfolding check_header
consume_header m bytes =
    let missing = header_size - length m.header_received in
    let longer = record m { header_received = m.header_received ++ take missing bytes } in
    if length longer.header_received == header_size then check_header longer else (longer, true)

-- The bytes of a chunk behind the header.
unfoldable pub consume_image : Bool → WorkerManager → List ℕ → WorkerManager × Bool
consume_image sha_update m bytes =
    if length bytes == 0
    then (m, true)
    else if not sha_update
    then (m, false)
    else (record m { sha_input = m.sha_input ++ bytes }, true)

-- The loop of `workerOtaPackageUploadConsume`. After a round of its first branch the bytes are used
-- up or the header is complete, and its second branch uses up the bytes.
unfoldable pub consume_bytes : Bool → WorkerManager → List ℕ → WorkerManager × Bool
unfolding consume_header consume_image
consume_bytes sha_update m bytes =
    let missing = header_size - length m.header_received in
    let (m', ok) = consume_header m bytes in
    if ltb (length m.header_received) header_size
    then (if ok then consume_image sha_update m' (drop missing bytes) else (m', false))
    else consume_image sha_update m bytes

unfoldable pub package_upload_consume : Writing → WorkerManager → List ℕ → WorkerManager × Bool
unfolding consume_bytes
package_upload_consume w m bytes =
    let held : List ℕ = elim m.temp_file [ none ↦ [] | some file ↦ file ] in
    let wrote = record m { temp_file = some (held ++ take w.written bytes) } in
    let counted = record wrote {
      status = record m.status {
        package_bytes_received = (m.status.package_bytes_received + length bytes) % u32_mod;
      };
    } in
    if length bytes == 0 || not m.upload_open
    then (m, false)
    else if not (w.written == length bytes)
    then (set_message "worker_package_write_failed" wrote, false)
    else consume_bytes w.sha_update counted bytes

-- How the calls of `workerOtaPackageUploadFinish` end.
pub record Closing : Type 0 where
  pub sha_finish : Bool
  pub sha256 : List ℕ → List ℕ
  pub renames : Bool
  pub cleanup_removes : Bool

unfoldable pub package_upload_finish : Closing → WorkerManager → WorkerManager × Bool
unfolding cleanup_upload bytes_eq
package_upload_finish c m =
    let closed = record m { upload_open = false } in
    let hashed = record closed { sha256_active = false } in
    let clean = λ (m' : WorkerManager). cleanup_upload true c.cleanup_removes m' in
    let h = m.parsed_header in
    if not m.upload_open
    then (m, false)
    else if not (length m.header_received == header_size)
        || not (m.status.package_bytes_received == (header_size + h.image_size) % u32_mod)
    then (set_failure "worker_package_size_mismatch" (clean closed), false)
    else if not c.sha_finish
    then (set_failure "worker_package_hash_failed" (clean closed), false)
    else if not (bytes_eq (c.sha256 m.sha_input) h.image_sha256)
    then (set_failure "worker_package_sha256_mismatch" (clean hashed), false)
    else if not c.renames
    then (set_failure "worker_package_store_failed" (clean hashed), false)
    else (let moved = record hashed { stored_file = m.temp_file; temp_file = none } in
        let kept = record (accept_header h moved) {
          status = finish_active_job stored "Worker firmware stored" (accept_header h moved).status;
        } in
        (cleanup_upload false c.cleanup_removes kept, true))

unfoldable pub package_upload_abort : Bool → String → WorkerManager → WorkerManager
unfolding cleanup_upload
package_upload_abort removes reason m = set_failure reason (cleanup_upload true removes m)

-- `workerOtaManagerInit`: `begins` is the mount of the file system, `removes` a removal of the stored
-- package. The other variables have their initial values.
unfoldable pub worker_ota_manager_init : Bool → Bool → WorkerManager → WorkerManager
unfolding load_stored_header
worker_ota_manager_init begins removes m =
    let mounted = record m { storage_available = begins; status = no_status } in
    if not begins
    then record mounted {
      status = record no_status { state = failed; message = "Worker firmware storage unavailable" };
    }
    else if not (is_some m.stored_file)
    then mounted
    else elim (load_stored_header mounted) [
      | some h ↦ record (accept_header h mounted) {
        status = record (accept_header h mounted).status {
          state = stored;
          message = "Worker firmware stored";
        };
      }
      | none ↦ record mounted {
        stored_file = remove removes m.stored_file;
        status = record no_status { state = idle; message = "Stored worker firmware was invalid" };
      }
    ]
