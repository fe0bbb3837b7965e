-- ===== src/Examples/WorkerUpdate.antt =====
-- An update of a worker: the package from the browser over the main device to the worker, as in
-- main/src/webui.cpp, main/src/worker_ota_manager.cpp and worker/src/worker_ota_service.cpp.
use plant_watering.Prelude.{
  ℕ, suc, ◌≡◌, refl, ap, subst, true, false, List, [], ◌∷◌, ◌++◌, Option, none, some, take, drop,
  replicate, arith,
}
use plant_watering.Prelude.Bytes.{bytes_eq}
use plant_watering.Policy.FirmwareVersion.{firmware_version_decision}
use plant_watering.Ota.Package.{Header, role_worker, parse_header, check_fields, reserved_clear}
use plant_watering.Ota.WorkerManager.{WorkerManager, no_header, no_status, header_of}
use plant_watering.Ota.WorkerManager.Remote.{parse_worker_info, parse_worker_info-write_info_value}
use plant_watering.Ota.WorkerManager.Upload.{Opening, Closing}
use plant_watering.Ota.WorkerManager.Upload.Stored.{IsSafe, IsWorkerPackage}
use plant_watering.Ota.WorkerManager.Deploy.{Peer, Link, deploy_to_worker, worker_ota_task}
use plant_watering.Ota.WorkerManager.Deploy.Ends.{Ends, deploy_to_worker-Ends}
use plant_watering.Ota.WorkerManager.Deploy.WorkerEnd.{worker_peer}
use plant_watering.Ota.WorkerManager.Deploy.Prepared.{IsUpgrade}
use plant_watering.Ota.WorkerManager.Deploy.Task.{Updates, worker_ota_task-Updates}
use plant_watering.Web.WorkerUpload.{
  Site, Moment, no_request, file_start, file_end, request_complete,
}
use plant_watering.Web.WorkerUpload.Safety.{starts, ends, completes, here, next, Reach-IsSafe}
use plant_watering.Web.WorkerUpload.Complete.{Piece, upload, Answers, upload-Answers}
use plant_watering.Worker.OtaService.Info.{write_info_value, slot_size, state_code, error_code}
use plant_watering.Worker.OtaService.Reached.{start}
use plant_watering.Examples.Devices.{build, hash, platform, package_header}

abbrev firmware : List ℕ
firmware = package_header ++ (21 ∷ 22 ∷ 23 ∷ [])

abbrev release : Header
release = record {
  format_version = 1;
  header_size = 64;
  role = 2;
  chip = 1;
  hardware_target = 258;
  firmware_version = 7;
  image_size = 3;
  image_sha256 = replicate 32 9;
}

package_read : header_of firmware ≡ some release
unfolding header_of parse_header check_fields reserved_clear bytes_eq
package_read = refl

package_decided :
    firmware_version_decision 5 7 3 ≡ plant_watering.Policy.FirmwareVersion.Decision.allow
unfolding firmware_version_decision
package_decided = refl

package-IsUpgrade : IsUpgrade build platform release firmware 100
package-IsUpgrade = record {
  stored = package_read;
  complete = refl;
  platform = record {
    partition = refl;
    hash_starts = refl;
    begins = refl;
    hashes = λ _. refl;
    writes = λ _. refl;
    hash_ends = refl;
    image_ends = refl;
    boots = refl;
  };
  prefix_ok = refl;
  prefix_small = (omega arith, omega arith);
  prefix_fits = omega arith;
  hash = refl;
  hardware = refl;
  newer = package_decided;
  slot = omega arith;
  size_fits = omega arith;
  version_fits = omega arith;
  hardware_fits = omega arith;
}

abbrev manager : Option (List ℕ) → WorkerManager
manager file = record {
  status = no_status;
  upload_open = false;
  header_received = [];
  parsed_header = no_header;
  sha256_active = false;
  sha_input = [];
  storage_available = true;
  upload_capacity_bytes = 0;
  stored_file = file;
  temp_file = none;
}

abbrev connected : Link
connected = record { prepare_acked = true; connected = true; service_found = true }

worker_ota_task-Updates_example :
    Updates build platform release firmware 100 package-IsUpgrade 20
      (manager (some firmware))
      (worker_ota_task (worker_peer build platform 20) connected 2 (manager (some firmware)) start)
worker_ota_task-Updates_example =
    worker_ota_task-Updates build platform release firmware 100 package-IsUpgrade 20 connected 1
      (manager (some firmware)) start refl refl (refl, refl, refl) (omega arith) (omega arith)

-- A worker that confirms nothing.
abbrev silent : Peer ℕ
silent = record {
  write_control = λ r _. (suc r, false);
  write_data = λ r _. (suc r, false);
  read_info = λ _. [];
  disconnect = λ r. r;
  reads_header = true;
  reopens = true;
  seeks = true;
  reads = λ _. true;
}

deploy_to_worker-Ends_example :
    Ends silent (deploy_to_worker silent connected 2 release (some firmware) no_status 0)
deploy_to_worker-Ends_example =
    deploy_to_worker-Ends silent connected 1 release (some firmware) no_status 0 (omega arith)

parse_worker_info-write_info_value_example :
    parse_worker_info (write_info_value build platform start)
    ≡ some (record {
      role = role_worker;
      state = state_code start.state;
      error = error_code start.error;
      hardware_target = build.fw_hardware_target;
      current_version = build.fw_version;
      ota_slot_size = slot_size platform;
      received_bytes = start.image_bytes_received;
    })
parse_worker_info-write_info_value_example =
    parse_worker_info-write_info_value build platform start (record {
      hardware_fits = omega arith;
      version_fits = omega arith;
      slot_fits = omega arith;
      received_fits = omega arith;
    })

abbrev moment : Moment
moment = record { auto_enabled = false; busy = false; removes = true }

abbrev opening : Opening
opening = record {
  cleanup_removes = true;
  removes_temp = true;
  removes_stored = true;
  total_bytes = 2000000;
  used_bytes = 100000;
  opens = true;
  sha_starts = true;
  removes_new_temp = true;
}

abbrev closing : Closing
closing = record { sha_finish = true; sha256 = hash; renames = true; cleanup_removes = true }

-- The package in three chunks, the first of which ends in the header.
abbrev pieces : List Piece
pieces =
    (record { written = 10; sha_update = true }, take 10 firmware)
    ∷ (record { written = 56; sha_update = true }, take 56 (drop 10 firmware))
    ∷ (record { written = 1; sha_update = true }, drop 66 firmware)
    ∷ []

abbrev site : Site
site = record { request = no_request; manager = manager none; pump_stops = 0 }

upload-Answers_example :
    Answers 1900000 firmware release package_read refl
      (omega arith)
      (upload moment opening pieces closing site)
upload-Answers_example =
    upload-Answers 1900000 firmware release package_read refl (omega arith) moment opening pieces
      closing site
      (record {
        manual = refl;
        calm = refl;
        new = refl;
        free = refl;
        storage = refl;
        removes_temp = refl;
        removes_stored = refl;
        opens = refl;
        sha_starts = refl;
        used = omega arith;
      })
      refl refl
      (
        λ e. omega (arith, e),
        refl,
        refl,
        (λ e. omega (arith, e), refl, refl, (λ e. omega (arith, e), refl, refl, tt)),
      )
      (refl, refl) refl

abbrev kept_site : Site
kept_site = record { request = no_request; manager = manager (some firmware); pump_stops = 0 }

kept_site-IsSafe : IsSafe hash kept_site.manager
kept_site-IsSafe = record {
  stored_whole = λ f e.
      subst (IsWorkerPackage hash) (ap (λ o. elim o [ none ↦ firmware | some x ↦ x ]) e)
        (release, package_read, refl, refl);
  receiving = λ e. absurd (ground (arith, e));
}

Reach-IsSafe_example :
    IsSafe hash
      (file_end closing (file_start moment opening (request_complete moment kept_site).2)).manager
Reach-IsSafe_example = Reach-IsSafe hash kept_site-IsSafe (
    next
      (next (next here (completes kept_site moment))
        (starts (request_complete moment kept_site).2 moment opening))
      (ends (file_start moment opening (request_complete moment kept_site).2) closing (λ _. refl)))
