-- ===== src/Ota/WorkerManager/Deploy.antt =====
-- `workerOtaStartForWorker`, `workerOtaTask` and `deployToWorker` of main/src/worker_ota_manager.cpp.
pub mod Ends
pub mod WorkerEnd
pub mod Chunk
pub mod Transfer
pub mod Prepared
pub mod Undisturbed
pub mod Task
use plant_watering.Prelude.{
  ℕ, zero, suc, ◌+◌, ◌-◌, ◌*◌, Bool, true, false, not, ◌&&◌, ◌||◌, List, [], ◌∷◌, ◌++◌, Option,
  none, some, min, ltb, leb, ◌==◌, if◌then◌else◌, length, take, drop, String,
}
use plant_watering.Prelude.Maybe.{is_some}
use plant_watering.Prelude.Bytes.{le32}
use plant_watering.Bluetooth.Message.{Mac}
use plant_watering.Ota.Package.{Header, header_size, role_worker}
use plant_watering.Ota.WorkerManager.{
  JobState, JobStatus, connecting, checking, transferring, verifying, done, failed, WorkerManager,
  no_status, set_status, set_progress, finish_active_job, set_failure, load_stored_header,
}
use plant_watering.Ota.WorkerManager.Remote.{
  RemoteWorkerInfo, remote_ready_to_reboot, remote_failed, parse_worker_info, remote_error_name,
}

-- `workerOtaStartForWorker`: `configured` is the look-up of the worker, `creates` the creation of the
-- task.
unfoldable pub start_for_worker : Mac → Bool → Bool → WorkerManager → WorkerManager × Bool
start_for_worker mac configured creates m =
    let queued = record m {
      status = record no_status {
        state = connecting;
        active = true;
        target_mac = mac;
        message = "Queued";
      };
    } in
    if not m.storage_available
    then (set_failure "Worker firmware storage unavailable" m, false)
    else if not (is_some m.stored_file)
    then (set_failure "No worker firmware uploaded" m, false)
    else if not configured
    then (set_failure "Worker not configured" m, false)
    else if m.status.active
    then (m, false)
    else if creates
    then (queued, true)
    else (set_failure "Worker OTA task create failed" queued, false)

-- A connected worker, as the GATT client sees it: what a write does and whether it is confirmed, what
-- a read of the info characteristic gives, and the end of the connection. And the calls of the file
-- system on the stored package: whether the header is read in full, the file opens again, the position
-- behind the header is found, and the read of the image from an offset gives what the file has.
pub record Peer (R : Type 0) : Type 0 where
  pub write_control : R → List ℕ → R × Bool
  pub write_data : R → List ℕ → R × Bool
  pub read_info : R → List ℕ
  pub disconnect : R → R
  pub reads_header : Bool
  pub reopens : Bool
  pub seeks : Bool
  pub reads : ℕ → Bool

-- Whether the prepare command was acknowledged, the connection came about, and the service with its
-- three characteristics was found.
pub record Link : Type 0 where
  pub prepare_acked : Bool
  pub connected : Bool
  pub service_found : Bool

abbrev pub transfer_chunk_size : ℕ
transfer_chunk_size = 160

-- `setFailure`, on the status.
abbrev pub failing : String → JobStatus → JobStatus
failing message job = finish_active_job failed message job

-- The checks on the worker, with the text of the first that fails.
unfoldable pub refusal : Header → RemoteWorkerInfo → Option String
refusal h info =
    if not (info.role == role_worker)
    then some "Worker role mismatch"
    else if not (info.hardware_target == h.hardware_target)
    then some "Wrong hardware target"
    else if h.firmware_version == info.current_version
    then some "already_up_to_date"
    else if info.ota_slot_size == 0
    then some "Worker OTA partition unavailable"
    else if ltb info.ota_slot_size h.image_size
    then some "Firmware too large"
    else none

module _ {R : Type 0} (peer : Peer R) where
  -- The status of the job, the worker, and whether to go on.
  abbrev pub Progress : Type 0
  Progress = JobStatus × R × Bool

  -- `image` is what the file still has. `none`: it has not ended after so many rounds.
  unfoldable pub transfer : ℕ → Header → List ℕ → ℕ → JobStatus → R → Option Progress
  transfer zero h image offset job r = none
  transfer (suc rounds) h image offset job r =
      let want = min transfer_chunk_size (h.image_size - offset) in
      let chunk = take want image in
      let (r', ok) = peer.write_data r (le32 offset ++ chunk) in
      let rest =
        transfer rounds h (drop want image) (offset + want) (set_progress (offset + want) job) r' in
      if leb h.image_size offset
      then some (job, r, true)
      else if not (peer.reads offset && length chunk == want)
      then some (failing "Stored worker firmware read failed" job, r, false)
      else if not ok
      then some (failing "BLE transfer failed" job, r', false)
      else rest

  -- Behind the commit.
  unfoldable pub verify : JobStatus → R → Progress
  unfolding parse_worker_info remote_error_name
  verify job r =
      let checking_job = set_status verifying "Worker verifying" job in
      let (r', ok) = peer.write_control r (2 ∷ []) in
      if not ok
      then (failing "Worker commit failed" checking_job, r', false)
      else elim (parse_worker_info (peer.read_info r')) [
        | none ↦ (failing "Worker verify status failed" checking_job, r', false)
        | some info ↦
            if info.state == remote_failed
            then (failing (remote_error_name info.error) checking_job, r', false)
            else if not (info.state == remote_ready_to_reboot)
            then (failing "Worker did not accept firmware" checking_job, r', false)
            else (finish_active_job done "Updated, waiting for reconnect" checking_job, r', true)
      ]

  -- The image, behind the prepare command.
  unfoldable pub send_image : ℕ → Header → List ℕ → JobStatus → R → Option Progress
  unfolding transfer verify
  send_image rounds h file job r =
      let updating = set_status transferring "Updating" job in
      if not peer.reopens
      then some (failing "Stored worker firmware missing" updating, r, false)
      else if not peer.seeks || ltb (length file) header_size
      then some (failing "Stored worker firmware seek failed" updating, r, false)
      else elim (transfer rounds h (drop header_size file) 0 updating r) [
        | none ↦ none
        | some (job', r', true) ↦ some (verify job' r')
        | some (job', r', false) ↦ some (job', r', false)
      ]

  -- The prepare command with the header of the stored package.
  unfoldable pub prepare : ℕ → Header → Option (List ℕ) → JobStatus → R → Option Progress
  unfolding send_image parse_worker_info remote_error_name
  prepare rounds h none job r = some (failing "Stored worker firmware missing" job, r, false)
  prepare rounds h (some file) job r =
      let (r', ok) = peer.write_control r (1 ∷ take header_size file) in
      if not (peer.reads_header && length (take header_size file) == header_size)
      then some (failing "Stored worker firmware header unreadable" job, r, false)
      else if not ok
      then some (failing "Worker prepare failed" job, r', false)
      else elim (parse_worker_info (peer.read_info r')) [
        | none ↦ some (failing "Worker prepare status failed" job, r', false)
        | some info ↦
            if info.state == remote_failed
            then some (failing (remote_error_name info.error) job, r', false)
            else send_image rounds h file job r'
      ]

  -- `deployToWorker` on an open connection, up to `done`.
  unfoldable pub update_worker : ℕ → Header → Option (List ℕ) → JobStatus → R → Option Progress
  unfolding prepare refusal parse_worker_info
  update_worker rounds h file job r =
      let checking_job = set_status checking "Checking worker" job in
      elim (parse_worker_info (peer.read_info r)) [
        | none ↦ some (failing "Worker info read failed" checking_job, r, false)
        | some info ↦ elim (refusal h info) [
          | some message ↦ some (failing message checking_job, r, false)
          | none ↦ prepare rounds h file checking_job r
        ]
      ]

  unfoldable pub deploy_to_worker :
      Link → ℕ → Header → Option (List ℕ) → JobStatus → R → Option Progress
  unfolding update_worker
  deploy_to_worker link rounds h file job r =
      let opening = set_status connecting "Opening worker OTA window" job in
      let linking = set_status connecting "Connecting over BLE" opening in
      if not link.prepare_acked
      then some (failing "Worker not reachable" opening, r, false)
      else if not link.connected
      then some (failing "BLE connection failed" linking, r, false)
      else if not link.service_found
      then some (failing "Worker OTA service unavailable" linking, peer.disconnect r, false)
      else elim (update_worker rounds h file linking r) [
        | none ↦ none
        | some (job', r', ok) ↦ some (job', peer.disconnect r', ok)
      ]

  unfoldable pub worker_ota_task : Link → ℕ → WorkerManager → R → Option (WorkerManager × R × Bool)
  unfolding load_stored_header deploy_to_worker
  worker_ota_task link rounds m r = elim (load_stored_header m) [
    | none ↦ some (set_failure "No worker firmware uploaded" m, r, false)
    | some h ↦
        let job = record m.status {
          expected_image_bytes = h.image_size;
          package_version = h.firmware_version;
          package_hardware = h.hardware_target;
        } in
        elim (deploy_to_worker link rounds h m.stored_file job r) [
          | none ↦ none
          | some (job', r', ok) ↦ some (record m { status = job' }, r', ok)
        ]
  ]
