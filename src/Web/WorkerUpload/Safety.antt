-- ===== src/Web/WorkerUpload/Safety.antt =====
-- That the package which main/src/webui.cpp and main/src/worker_ota_manager.cpp keep for the workers
-- is whole, whatever requests come.
use plant_watering.Prelude.{
  option_rule, Option, ℕ, ◌+◌, ◌≤◌, ◌≡◌, refl, sym, ◌∙◌, Bool, false, not, ◌||◌, List, some,
  if◌then◌else◌, length, arith, if_rule, Bool-cases, inl, inr, String,
}
use plant_watering.Text.{mac_from_hex_string}
use plant_watering.Ota.WorkerManager.{JobStatus, WorkerManager}
use plant_watering.Ota.WorkerManager.Deploy.{start_for_worker}
use plant_watering.Ota.WorkerManager.Upload.{
  Opening, package_upload_start, Writing, package_upload_consume, Closing, package_upload_finish,
  package_upload_abort,
}
use plant_watering.Ota.WorkerManager.Upload.HeaderBytes.{file_max}
use plant_watering.Ota.WorkerManager.Upload.Stored.{
  IsSafe, closed-IsSafe, package_upload_abort-IsSafe, package_upload_start-IsSafe,
  package_upload_consume-IsSafe, package_upload_finish-IsSafe,
}
use plant_watering.Prelude.Maybe.{is_some}
use plant_watering.Ota.WorkerManager.Upload.Accepted.{package_upload_consume-KeepsOpen}
use plant_watering.Web.WorkerUpload.{
  Site, Moment, file_start, file_write, file_end, file_aborted, request_complete, worker_ota_start,
}

-- A file of the file system does not grow past its greatest length.
abbrev pub FitsFile : Writing → WorkerManager → Type 0
FitsFile w m = (t : List ℕ) → m.temp_file ≡ some t → length t + w.written ≤ file_max

-- One call of a handler. The hash of the platform is `sha`.
pub data Step (sha : List ℕ → List ℕ) : Site → Site → Type 0 where
  starts : (s : Site) (now : Moment) (o : Opening) → Step sha s (file_start now o s)
  writes :
      (s : Site) (now : Moment) (w : Writing) (bytes : List ℕ)
      → FitsFile w s.manager
      → Step sha s (file_write now w bytes s)
  ends :
      (s : Site) (c : Closing)
      → ((bytes : List ℕ) → c.sha256 bytes ≡ sha bytes)
      → Step sha s (file_end c s)
  aborts : (s : Site) (now : Moment) → Step sha s (file_aborted now s)
  completes : (s : Site) (now : Moment) → Step sha s (request_complete now s).2
  deploys :
      (s : Site) (now : Moment) (text : Option (List ℕ)) (configured creates : Bool)
      → Step sha s (worker_ota_start now text configured creates s).1
  -- `workerOtaTask` writes the status, and nothing else. It is started when no upload is under way, and
  -- no upload starts while it is active.
  works :
      (s : Site) (job : JobStatus)
      → s.manager.upload_open ≡ false
      → Step sha s (record s { manager = record s.manager { status = job } })

pub data Reach (sha : List ℕ → List ℕ) (s : Site) : Site → Type 0 where
  here : Reach sha s s
  next : {t u : Site} → Reach sha s t → Step sha t u → Reach sha s u

module _ (sha : List ℕ → List ℕ) where
  abbrev SafeSite : Site → Type 0
  SafeSite s = IsSafe sha s.manager

  aborted_if-IsSafe :
      (b removes : Bool) (reason : String) (m : WorkerManager)
      → IsSafe sha m
      → IsSafe sha (if b then package_upload_abort removes reason m else m)
  aborted_if-IsSafe b removes reason m w =
      if_rule (IsSafe sha) b (λ _. package_upload_abort-IsSafe sha removes reason m w.stored_whole)
        (λ _. w)

  file_start-IsSafe :
      (now : Moment) (o : Opening) (s : Site) → SafeSite s → SafeSite (file_start now o s)
  unfolding file_start
  file_start-IsSafe now o s w =
      if_rule SafeSite now.auto_enabled (λ _. w)
        (λ _.
          if_rule SafeSite s.request.saw_file
            (λ _. aborted_if-IsSafe s.request.started now.removes _ s.manager w)
            (λ _.
              if_rule SafeSite (now.busy || s.manager.status.active) (λ _. w)
                (λ _.
                  if_rule SafeSite (package_upload_start o s.manager).1
                    (λ _. package_upload_start-IsSafe sha o s.manager w)
                    (λ _. package_upload_start-IsSafe sha o s.manager w))))

  file_write-IsSafe :
      (now : Moment) (w : Writing) (bytes : List ℕ) (s : Site)
      → FitsFile w s.manager
      → SafeSite s
      → SafeSite (file_write now w bytes s)
  unfolding file_write
  file_write-IsSafe now w bytes s room safe =
      let (same_open, capacity, same_file, active, available) =
        package_upload_consume-KeepsOpen w s.manager bytes in
      if_rule SafeSite (not s.request.accepted) (λ _. safe)
        (λ _.
          if_rule SafeSite (package_upload_consume w s.manager bytes).1
            (λ ok. package_upload_consume-IsSafe sha w s.manager bytes room safe ok)
            (λ _.
              package_upload_abort-IsSafe sha now.removes _
                (package_upload_consume w s.manager bytes).0
                (λ f e. safe.stored_whole f (sym same_file ∙ e))))

  file_end-IsSafe :
      (c : Closing) (s : Site)
      → ((bytes : List ℕ) → c.sha256 bytes ≡ sha bytes)
      → SafeSite s
      → SafeSite (file_end c s)
  unfolding file_end
  file_end-IsSafe c s hashes safe =
      let finished = package_upload_finish-IsSafe sha c s.manager hashes safe in
      if_rule SafeSite (not s.request.accepted) (λ _. safe)
        (λ _.
          if_rule SafeSite (package_upload_finish c s.manager).1 (λ _. finished) (λ _. finished))

  -- An upload is active, so it is not interrupted.
  worker_ota_start-IsSafe :
      (now : Moment) (text : Option (List ℕ)) (configured creates : Bool) (s : Site)
      → SafeSite s
      → SafeSite (worker_ota_start now text configured creates s).1
  unfolding worker_ota_start start_for_worker
  worker_ota_start-IsSafe now text configured creates s safe =
      if_rule (λ (r : ℕ × Site). SafeSite r.1)
        (now.auto_enabled || (now.busy || s.manager.status.active)) (λ _. safe)
        (λ free.
          let closed : s.manager.upload_open ≡ false = elim (Bool-cases s.manager.upload_open) [
            | inr h ↦ h
            | inl h ↦ absurd (ground (arith, free, (safe.receiving h).2))
          ] in
          let quiet = λ (m : WorkerManager).
            λ (same : m.stored_file ≡ s.manager.stored_file) (off : m.upload_open ≡ false).
              closed-IsSafe sha m (λ f e. safe.stored_whole f (sym same ∙ e)) off in
          let Goal : WorkerManager × Bool → Type 0 = λ r. IsSafe sha r.0 in
          let Reply : ℕ × Site → Type 0 = λ r. SafeSite r.1 in
          option_rule Reply text (λ _. safe)
            (λ digits _.
              option_rule Reply (mac_from_hex_string digits) (λ _. safe)
                (λ mac _.
                  if_rule Goal (not s.manager.storage_available) (λ _. quiet _ refl closed)
                    (λ _.
                      if_rule Goal (not (is_some s.manager.stored_file)) (λ _. quiet _ refl closed)
                        (λ _.
                          if_rule Goal (not configured) (λ _. quiet _ refl closed)
                            (λ _.
                              if_rule Goal s.manager.status.active (λ _. safe)
                                (λ _.
                                  if_rule Goal creates (λ _. quiet _ refl closed)
                                    (λ _. quiet _ refl closed))))))))

  Step-IsSafe : {s t : Site} → Step sha s t → SafeSite s → SafeSite t
  Step-IsSafe (starts s now o) safe = file_start-IsSafe now o s safe
  Step-IsSafe (writes s now w bytes room) safe = file_write-IsSafe now w bytes s room safe
  Step-IsSafe (ends s c hashes) safe = file_end-IsSafe c s hashes safe
  Step-IsSafe (aborts s now) safe =
      unfold file_aborted in aborted_if-IsSafe s.request.started now.removes _ s.manager safe
  Step-IsSafe (completes s now) safe =
      unfold request_complete in aborted_if-IsSafe _ now.removes _ s.manager safe
  Step-IsSafe (deploys s now text configured creates) safe =
      worker_ota_start-IsSafe now text configured creates s safe
  Step-IsSafe (works s job closed) safe = closed-IsSafe sha _ safe.stored_whole closed

  -- Whatever requests come, with whatever chunks, aborts and failures of the file system and the hash:
  -- the package that is kept for the workers is complete, has an accepted header, and its image has
  -- the size and the hash that the header names, if that holds of the package kept at first.
  pub Reach-IsSafe : {s t : Site} → IsSafe sha s.manager → Reach sha s t → IsSafe sha t.manager
  Reach-IsSafe safe here = safe
  Reach-IsSafe safe (next r step) = Step-IsSafe step (Reach-IsSafe safe r)
