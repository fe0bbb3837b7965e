-- ===== src/Ota/WorkerManager/Deploy/Ends.antt =====
-- That `deployToWorker` of main/src/worker_ota_manager.cpp ends, whatever the worker does.
use plant_watering.Prelude.{
  ℕ, zero, suc, ◌+◌, ◌-◌, ◌*◌, ◌≤◌, ◌≡◌, refl, ◌⊎◌, inl, inr, true, false, not, ◌&&◌, ◌||◌, List,
  [], ◌∷◌, ◌++◌, Option, none, some, min, ltb, leb, ◌==◌, if◌then◌else◌, length, take, drop, arith,
  if_rule, leb→gt, String, option_rule,
}
use plant_watering.Prelude.Bytes.{le32}
use plant_watering.Ota.Package.{Header, header_size}
use plant_watering.Ota.WorkerManager.{
  JobStatus, done, failed, set_status, set_progress, checking, transferring, verifying, connecting,
}
use plant_watering.Ota.WorkerManager.Remote.{
  parse_worker_info, remote_failed, remote_ready_to_reboot,
}
use plant_watering.Ota.WorkerManager.Deploy.{
  Peer, Link, failing, refusal, Progress, transfer, verify, send_image, prepare, update_worker,
  deploy_to_worker, transfer_chunk_size,
}

module _ {R : Type 0} (peer : Peer R) where
  -- The job is over, and its state says how it ended.
  abbrev pub IsOver : Progress peer → Type 0
  IsOver (job, r, ok) =
      (job.active ≡ false)
      × (((ok ≡ true) × (job.state ≡ done)) ⊎ ((ok ≡ false) × (job.state ≡ failed)))

  failing-IsOver :
      (message : String) (job : JobStatus) (r : R) → IsOver (failing message job, r, false)
  failing-IsOver message job r = (refl, inr (refl, refl))

  abbrev pub Ends : Option (Progress peer) → Type 0
  Ends o = (q : Progress peer) × (o ≡ some q) × IsOver q

  failing-Ends :
      (message : String) (job : JobStatus) (r : R) → Ends (some (failing message job, r, false))
  failing-Ends message job r = ((failing message job, r, false), refl, failing-IsOver message job r)

  -- What the transfer leaves: an open job, or one that is over.
  abbrev Transfers : Option (Progress peer) → Type 0
  Transfers o = (q : Progress peer) × (o ≡ some q) × (q.2 ≡ false → IsOver q)

  -- One round, where the rest of the rounds is a Transfers if there is a need for it.
  round-Transfers :
      (h : Header) (image : List ℕ) (offset : ℕ) (job : JobStatus) (r : R)
      (rest : Option (Progress peer))
      → (offset + 1 ≤ h.image_size → Transfers rest)
      → let want = min transfer_chunk_size (h.image_size - offset) in
        let (r', ok) = peer.write_data r (le32 offset ++ take want image) in
        Transfers (
          if leb h.image_size offset
          then some (job, r, true)
          else if not (peer.reads offset && length (take want image) == want)
          then some (failing "Stored worker firmware read failed" job, r, false)
          else if not ok
          then some (failing "BLE transfer failed" job, r', false)
          else rest)
  round-Transfers h image offset job r rest again =
      let want = min transfer_chunk_size (h.image_size - offset) in
      let sent = peer.write_data r (le32 offset ++ take want image) in
      if_rule Transfers (leb h.image_size offset)
        (λ _. ((job, r, true), refl, λ e. absurd (ground (arith, e))))
        (λ more.
          if_rule Transfers (not (peer.reads offset && length (take want image) == want))
            (λ _. (_, refl, λ _. (refl, inr (refl, refl))))
            (λ _.
              if_rule Transfers (not sent.1) (λ _. (_, refl, λ _. (refl, inr (refl, refl))))
                (λ _. again (omega (arith, leb→gt _ _ more)))))

  transfer-Transfers :
      (rounds : ℕ) (h : Header) (image : List ℕ) (offset : ℕ) (job : JobStatus) (r : R)
      → h.image_size ≤ offset + transfer_chunk_size * rounds
      → Transfers (transfer peer (suc rounds) h image offset job r)
  unfolding transfer
  transfer-Transfers zero h image offset job r enough =
      round-Transfers h image offset job r none (λ more. absurd (omega (arith, more, enough)))
  transfer-Transfers (suc rounds) h image offset job r enough =
      let want = min transfer_chunk_size (h.image_size - offset) in
      let sent = peer.write_data r (le32 offset ++ take want image) in
      round-Transfers h image offset job r _ (λ more.
        transfer-Transfers rounds h (drop want image) (offset + want)
          (set_progress (offset + want) job) sent.0 (omega (arith, more, enough)))

  verify-IsOver : (job : JobStatus) (r : R) → IsOver (verify peer job r)
  unfolding verify
  verify-IsOver job r =
      let checking_job = set_status verifying "Worker verifying" job in
      let sent = peer.write_control r (2 ∷ []) in
      if_rule IsOver (not sent.1) (λ _. (refl, inr (refl, refl)))
        (λ _.
          option_rule IsOver (parse_worker_info (peer.read_info sent.0))
            (λ _. (refl, inr (refl, refl)))
            (λ info _.
              if_rule IsOver (info.state == remote_failed) (λ _. (refl, inr (refl, refl)))
                (λ _.
                  if_rule IsOver (not (info.state == remote_ready_to_reboot))
                    (λ _. (refl, inr (refl, refl))) (λ _. (refl, inl (refl, refl))))))

  module _ (rounds : ℕ) (h : Header) (enough : h.image_size ≤ transfer_chunk_size * rounds) where
    send_image-Ends :
        (file : List ℕ) (job : JobStatus) (r : R) → Ends (send_image peer (suc rounds) h file job r)
    unfolding send_image
    send_image-Ends file job r =
        let updating = set_status transferring "Updating" job in
        if_rule Ends (not peer.reopens) (λ _. failing-Ends _ updating r)
          (λ _.
            if_rule Ends (not peer.seeks || ltb (length file) header_size)
              (λ _. failing-Ends _ updating r)
              (λ _.
                let (q, e, over) =
                  transfer-Transfers rounds h (drop header_size file) 0 updating r
                    (omega (arith, enough)) in
                rw e (sent q over)))
      where
        sent :
            (q : Progress peer)
            → (q.2 ≡ false → IsOver q)
            → let outcome : Option (Progress peer) = some q in
              Ends (elim outcome [
                | none ↦ none
                | some (job', r', true) ↦ some (verify peer job' r')
                | some (job', r', false) ↦ some (job', r', false)
              ])
        sent (job', r', true) over = (_, refl, verify-IsOver job' r')
        sent (job', r', false) over = (_, refl, over refl)

    prepare-Ends :
        (file : Option (List ℕ)) (job : JobStatus) (r : R)
        → Ends (prepare peer (suc rounds) h file job r)
    unfolding prepare
    prepare-Ends none job r = failing-Ends _ job r
    prepare-Ends (some file) job r =
        let sent = peer.write_control r (1 ∷ take header_size file) in
        if_rule Ends (not (peer.reads_header && length (take header_size file) == header_size))
          (λ _. failing-Ends _ job r)
          (λ _.
            if_rule Ends (not sent.1) (λ _. failing-Ends _ job sent.0)
              (λ _.
                option_rule Ends (parse_worker_info (peer.read_info sent.0))
                  (λ _. failing-Ends _ job sent.0)
                  (λ info _.
                    if_rule Ends (info.state == remote_failed) (λ _. failing-Ends _ job sent.0)
                      (λ _. send_image-Ends file job sent.0))))

    update_worker-Ends :
        (file : Option (List ℕ)) (job : JobStatus) (r : R)
        → Ends (update_worker peer (suc rounds) h file job r)
    unfolding update_worker
    update_worker-Ends file job r =
        let checking_job = set_status checking "Checking worker" job in
        option_rule Ends (parse_worker_info (peer.read_info r)) (λ _. failing-Ends _ checking_job r)
          (λ info _. refused (refusal h info))
      where
        refused :
            (o : Option String)
            → Ends (elim o [
              | some message ↦
                  some (failing message (set_status checking "Checking worker" job), r, false)
              | none ↦
                  prepare peer (suc rounds) h file (set_status checking "Checking worker" job) r
            ])
        refused (some message) = failing-Ends message (set_status checking "Checking worker" job) r
        refused none = prepare-Ends file (set_status checking "Checking worker" job) r

  -- With one round for each chunk of the image and one more, an update of a worker ends whatever the
  -- worker answers and whatever fails, on the air or in the file system: the job is no longer active, and it is done if the answer is
  -- true, and failed if it is false.
  pub deploy_to_worker-Ends :
      (link : Link) (rounds : ℕ) (h : Header) (file : Option (List ℕ)) (job : JobStatus) (r : R)
      → h.image_size ≤ transfer_chunk_size * rounds
      → Ends (deploy_to_worker peer link (suc rounds) h file job r)
  unfolding deploy_to_worker
  deploy_to_worker-Ends link rounds h file job r enough =
      let opening = set_status connecting "Opening worker OTA window" job in
      let linking = set_status connecting "Connecting over BLE" opening in
      if_rule Ends (not link.prepare_acked) (λ _. failing-Ends _ opening r)
        (λ _.
          if_rule Ends (not link.connected) (λ _. failing-Ends _ linking r)
            (λ _.
              if_rule Ends (not link.service_found)
                (λ _. failing-Ends _ linking (peer.disconnect r))
                (λ _.
                  let ((job', r', ok), e, over) =
                    update_worker-Ends rounds h enough file linking r in
                  rw e ((job', peer.disconnect r', ok), refl, over))))
