-- ===== src/Ota/WorkerManager/Deploy/Undisturbed.antt =====
-- `deployToWorker` of main/src/worker_ota_manager.cpp against worker/src/worker_ota_service.cpp, from
-- the first connection to the worker's restart, where nothing goes wrong.
use plant_watering.Prelude.{
  ℕ, suc, ◌*◌, ◌≤◌, ◌<◌, ◌≡◌, ◌≢◌, refl, sym, ap, true, false, not, List, [], ◌∷◌, Option, none,
  some, ltb, length, take, drop, arith, some_rule, goes_on, same_test, other_test, long_test,
  length-take, subst,
}
use plant_watering.Policy.FirmwareVersion.{firmware_version_decision-Answers, Answers}
use plant_watering.Ota.Package.{Header, header_size, role_worker}
use plant_watering.Ota.WorkerManager.{
  JobStatus, done, connecting, checking, transferring, verifying, set_status, finish_active_job,
}
use plant_watering.Ota.WorkerManager.Remote.{
  remote_ready_to_reboot, remote_failed, RemoteWorkerInfo, parse_worker_info,
  parse_worker_info-write_info_value,
}
use plant_watering.Ota.WorkerManager.Deploy.{
  Link, refusal, verify, send_image, prepare, update_worker, deploy_to_worker, transfer_chunk_size,
  Progress,
}
use plant_watering.Ota.WorkerManager.Deploy.WorkerEnd.{Has, worker_peer}
use plant_watering.Ota.WorkerManager.Deploy.Transfer.{transfer-Arrives}
use plant_watering.Ota.WorkerManager.Deploy.Prepared.{
  IsUpgrade, received_header, is_received, received_header-IsUpdate, control_write-prepared,
  control_write-ready_to_reboot,
}
use plant_watering.Worker.OtaService.{ready_to_reboot, Build, Platform, OtaState}
use plant_watering.Worker.OtaService.Info.{write_info_value, slot_size, state_code, error_code}
use plant_watering.Worker.OtaService.Commands.{control_write, on_disconnect}

refusal-none_if :
    (h : Header) (info : RemoteWorkerInfo)
    → info.role ≡ role_worker
    → info.hardware_target ≡ h.hardware_target
    → h.firmware_version ≢ info.current_version
    → h.image_size ≤ info.ota_slot_size
    → 0 < info.ota_slot_size
    → refusal h info ≡ none
unfolding refusal
refusal-none_if h info role hardware other fits some_slot = ground arith

on_disconnect-ready_to_reboot : (s : OtaState) → s.state ≡ ready_to_reboot → on_disconnect s ≡ s
unfolding on_disconnect
on_disconnect-ready_to_reboot s ready = ground (arith, ready)

module _ (build : Build) (p : Platform) (header : Header) (file : List ℕ) (size : ℕ)
    (i : IsUpgrade build p header file size) (now : ℕ) where
  abbrev Outcome : Type 0
  Outcome = Option (Progress (worker_peer build p now))

  -- The worker holds the image and is about to start it, and the job is done.
  abbrev pub IsInstalled : JobStatus → OtaState → Type 0
  IsInstalled job s =
      (job.state ≡ done)
      × (job.active ≡ false)
      × (s.state ≡ ready_to_reboot)
      × (s.flash ≡ drop header_size file)

  abbrev pub Installs : Outcome → Type 0
  Installs o = (job : JobStatus) × (s : OtaState) × (o ≡ some (job, s, true)) × IsInstalled job s

  abbrev Accepted : Progress (worker_peer build p now) → Type 0
  Accepted (job, s, ok) = (ok ≡ true) × IsInstalled job s

  -- What the main device reads of the worker.
  abbrev info_of : OtaState → RemoteWorkerInfo
  info_of s = record {
    role = role_worker;
    state = state_code s.state;
    error = error_code s.error;
    hardware_target = build.fw_hardware_target;
    current_version = build.fw_version;
    ota_slot_size = slot_size p;
    received_bytes = s.image_bytes_received;
  }

  slot_size-size : slot_size p ≡ size
  slot_size-size = rw i.platform.partition refl

  reads :
      (s : OtaState)
      → s.image_bytes_received < 4294967296
      → parse_worker_info (write_info_value build p s) ≡ some (info_of s)
  reads s received = parse_worker_info-write_info_value build p s (record {
    hardware_fits = i.hardware_fits;
    version_fits = i.version_fits;
    slot_fits = omega (arith, slot_size-size, i.size_fits);
    received_fits = received;
  })

  refusal-none : (s : OtaState) → refusal header (info_of s) ≡ none
  refusal-none s =
      let current = build.fw_version in
      let (other, _) =
        subst (λ d. Answers current header.firmware_version build.fw_min_allowed_version d) i.newer
          (firmware_version_decision-Answers current header.firmware_version
            build.fw_min_allowed_version) in
      refusal-none_if header (info_of s) refl (sym i.hardware) other
        (omega (arith, slot_size-size, i.slot))
        (omega (arith, slot_size-size, i.slot, i.prefix_small.0, i.prefix_fits))

  verify-Accepted :
      (job : JobStatus) (s : OtaState)
      → Has build
          (received_header build p header file size i)
          size
          (drop header_size file)
          header.image_size
          s
      → Accepted (verify (worker_peer build p now) job s)
  unfolding verify
  verify-Accepted job s w =
      let (ready, flash, received) =
        control_write-ready_to_reboot build p header file size i s now w in
      let s' = control_write build p s (2 ∷ []) now in
      let code : state_code s'.state ≡ remote_ready_to_reboot = ap state_code ready in
      let installed : Accepted (
        finish_active_job done "Updated, waiting for reconnect"
            (set_status verifying "Worker verifying" job),
        s',
        true,
      ) =
        (refl, (refl, refl, ready, flash)) in
      some_rule Accepted _ _ (info_of s') (reads s' (omega (arith, received, i.slot, i.size_fits)))
        (goes_on Accepted _ _ (other_test (state_code s'.state) remote_failed (omega (arith, code)))
          (goes_on Accepted _ _ (same_test _ _ code) installed))

  verify-Installs :
      (job : JobStatus) (s : OtaState)
      → Has build
          (received_header build p header file size i)
          size
          (drop header_size file)
          header.image_size
          s
      → Installs (some (verify (worker_peer build p now) job s))
  verify-Installs job s w =
      let r = verify (worker_peer build p now) job s in
      let (ok, installed) = verify-Accepted job s w in
      (r.0, r.1, ap (λ b. some (r.0, r.1, b)) ok, installed)

  send_image-Installs :
      (rounds : ℕ) (job : JobStatus) (s : OtaState)
      → header.image_size ≤ transfer_chunk_size * rounds
      → Has build (received_header build p header file size i) size (drop header_size file) 0 s
      → Installs (send_image (worker_peer build p now) (suc rounds) header file job s)
  unfolding send_image
  send_image-Installs rounds job s enough w =
      let updating = set_status transferring "Updating" job in
      let same = (is_received build p header file size i).same_size in
      let (job', s', e, whole) =
        transfer-Arrives build p (received_header build p header file size i) size
          (drop header_size file) (received_header-IsUpdate build p header file size i) now header
          same rounds 0 updating s (omega arith) (omega (arith, same, enough)) w in
      goes_on Installs (ltb (length file) header_size) _ (long_test _ _ (omega (arith, i.complete)))
        (some_rule Installs _ _ (job', s', true) e
          (verify-Installs job' s' (
            subst
              (λ n.
                Has build (received_header build p header file size i) size (drop header_size file)
                  n s')
              (sym same) whole)))

  prepare-Installs :
      (rounds : ℕ) (job : JobStatus) (s : OtaState)
      → header.image_size ≤ transfer_chunk_size * rounds
      → Installs (prepare (worker_peer build p now) (suc rounds) header (some file) job s)
  unfolding prepare
  prepare-Installs rounds job s enough =
      let (ready, w) = control_write-prepared build p header file size i s now in
      let s' = control_write build p s (1 ∷ take header_size file) now in
      let code : state_code s'.state ≡ 1 = ap state_code ready in
      goes_on Installs _ _
        (same_test _ _ (length-take header_size file (omega (arith, i.complete))))
        (some_rule Installs _ _ (info_of s') (reads s' (omega (arith, w.received))) (
          goes_on Installs _ _
            (other_test (state_code s'.state) remote_failed (omega (arith, code)))
            (send_image-Installs rounds job s' enough w)))

  update_worker-Installs :
      (rounds : ℕ) (job : JobStatus) (s : OtaState)
      → s.image_bytes_received < 4294967296
      → header.image_size ≤ transfer_chunk_size * rounds
      → Installs (update_worker (worker_peer build p now) (suc rounds) header (some file) job s)
  unfolding update_worker
  update_worker-Installs rounds job s received enough =
      some_rule Installs _ _ (info_of s) (reads s received) (
        rw (refusal-none s)
          (prepare-Installs rounds (set_status checking "Checking worker" job) s enough))

  pub deploy_to_worker-Installs :
      (link : Link) (rounds : ℕ) (job : JobStatus) (s : OtaState)
      → (link.prepare_acked ≡ true) × (link.connected ≡ true) × (link.service_found ≡ true)
      → s.image_bytes_received < 4294967296
      → header.image_size ≤ transfer_chunk_size * rounds
      → Installs
          (deploy_to_worker (worker_peer build p now) link (suc rounds) header (some file) job s)
  unfolding deploy_to_worker
  deploy_to_worker-Installs link rounds job s (acked, connected, found) received enough =
      let linking =
        set_status connecting "Connecting over BLE"
          (set_status connecting "Opening worker OTA window" job) in
      let (job', s', e, (is_done, over, ready, flash)) =
        update_worker-Installs rounds linking s received enough in
      goes_on Installs _ _ (ap not acked) (
        goes_on Installs _ _ (ap not connected) (
          goes_on Installs _ _ (ap not found) (
            some_rule Installs _ _ (job', s', true) e
              (
                job',
                s',
                ap (λ s. some (job', s, true)) (on_disconnect-ready_to_reboot s' ready),
                (is_done, over, ready, flash),
              ))))
