-- ===== src/Ota/WorkerManager/Deploy/Task.antt =====
-- `workerOtaTask` of main/src/worker_ota_manager.cpp on a stored package, against
-- worker/src/worker_ota_service.cpp.
use plant_watering.Prelude.{
  ℕ, suc, ◌*◌, ◌≤◌, ◌<◌, ◌≡◌, refl, ap, ◌∙◌, Bool, true, List, Option, some, drop, some_rule,
}
use plant_watering.Ota.Package.{Header, header_size}
use plant_watering.Ota.WorkerManager.{WorkerManager, done, load_stored_header}
use plant_watering.Ota.WorkerManager.Deploy.{
  Link, deploy_to_worker, worker_ota_task, transfer_chunk_size,
}
use plant_watering.Ota.WorkerManager.Deploy.WorkerEnd.{worker_peer}
use plant_watering.Ota.WorkerManager.Deploy.Prepared.{IsUpgrade}
use plant_watering.Ota.WorkerManager.Deploy.Undisturbed.{deploy_to_worker-Installs}
use plant_watering.Worker.OtaService.{ready_to_reboot, Build, Platform, OtaState}

module _ (build : Build) (p : Platform) (header : Header) (file : List ℕ) (size : ℕ)
    (i : IsUpgrade build p header file size) (now : ℕ) where
  load_stored_header-stored :
      (m : WorkerManager)
      → m.storage_available ≡ true
      → m.stored_file ≡ some file
      → load_stored_header m ≡ some header
  unfolding load_stored_header
  load_stored_header-stored m available kept = rw (available, kept) i.stored

  -- The update has succeeded, and the package is still there for the next worker.
  abbrev pub Updates : WorkerManager → Option (WorkerManager × OtaState × Bool) → Type 0
  Updates m o =
      (m' : WorkerManager) × (s' : OtaState) × (o ≡ some (m', s', true))
      × (m'.status.state ≡ done)
      × (m'.stored_file ≡ m.stored_file)
      × (s'.state ≡ ready_to_reboot)
      × (s'.flash ≡ drop header_size file)

  -- Where the stored package is one that the worker has reason to install and none to refuse, its
  -- platform does its part, the connection comes about and confirms each write, and there are as many
  -- rounds as the image has chunks and one more, the update task succeeds from any state of the
  -- worker's service: the job is done, the package is still stored, and the worker has exactly the
  -- image of the package in its flash and waits for its restart.
  pub worker_ota_task-Updates :
      (link : Link) (rounds : ℕ) (m : WorkerManager) (s : OtaState)
      → m.storage_available ≡ true
      → m.stored_file ≡ some file
      → (link.prepare_acked ≡ true) × (link.connected ≡ true) × (link.service_found ≡ true)
      → s.image_bytes_received < 4294967296
      → header.image_size ≤ transfer_chunk_size * rounds
      → Updates m (worker_ota_task (worker_peer build p now) link (suc rounds) m s)
  unfolding worker_ota_task
  worker_ota_task-Updates link rounds m s available kept up received enough =
      let job = record m.status {
        expected_image_bytes = header.image_size;
        package_version = header.firmware_version;
        package_hardware = header.hardware_target;
      } in
      let (job', s', e, (is_done, _, ready, flash)) =
        deploy_to_worker-Installs build p header file size i now link rounds job s up received
          enough in
      some_rule (Updates m) _ _ header (load_stored_header-stored m available kept) (
        some_rule (Updates m) _ _ (job', s', true)
          (ap (λ f. deploy_to_worker (worker_peer build p now) link (suc rounds) header f job s)
              kept
            ∙ e)
          (record m { status = job' }, s', refl, is_done, refl, ready, flash))
