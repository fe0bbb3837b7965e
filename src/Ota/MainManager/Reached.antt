-- ===== src/Ota/MainManager/Reached.antt =====
-- Any sequence of the calls of main/src/ota_manager.cpp, and the restart.
use plant_watering.Prelude.{
  ℕ, ◌<◌, ◌≡◌, refl, Bool, true, false, not, ◌||◌, List, [], none, String, ◌==◌, length, arith,
  if_rule, not-false,
}
use plant_watering.Prelude.Words.{reached32}
use plant_watering.Ota.WorkerManager.{no_header}
use plant_watering.Ota.MainManager.{
  MainManager, UpdateState, idle, is_ready, is_failed, upload_start, upload_consume, upload_finish,
  upload_abort, release_failed_upload, ota_manager_loop,
}
use plant_watering.Ota.MainManager.Phase.{
  Phase, broken, receiving, writes, verified, Fits, IsAllowed,
}
use plant_watering.Ota.MainManager.Chunks.{upload_consume-Phase}
use plant_watering.Ota.MainManager.Safety.{
  upload_start-Phase, upload_finish-Phase, upload_abort-Phase, release_failed_upload-Phase,
}
use plant_watering.Worker.OtaService.{Build, Platform}
use plant_watering.Worker.OtaService.Safety.{IsPlatform}

-- After `otaManagerInit`.
abbrev pub start : MainManager
start = record {
  status = record {
    state = idle;
    active = false;
    package_bytes_received = 0;
    image_bytes_received = 0;
    expected_image_bytes = 0;
    firmware_version = 0;
    hardware_target = 0;
    free_heap_at_start = 0;
    largest_block_at_start = 0;
    error = "";
  };
  package_header = [];
  parsed_header = no_header;
  image_prefix = [];
  target_partition = none;
  ota_begun = false;
  flash = [];
  sha256_active = false;
  sha_input = [];
  reboot_at_ms = 0;
  clock_checkpointed = false;
}

-- The hash of every platform is `sha`.
pub data Reached (build : Build) (sha : List ℕ → List ℕ) : MainManager → Type 0 where
  booted : Reached build sha start
  started :
      {m : MainManager} (heap block : ℕ)
      → Reached build sha m
      → Reached build sha (upload_start heap block m).0
  consumed :
      {m : MainManager} (p : Platform) (bytes : List ℕ)
      → IsPlatform sha p
      → Reached build sha m
      → Reached build sha (upload_consume build p m bytes).0
  finished :
      {m : MainManager} (p : Platform) (now : ℕ)
      → IsPlatform sha p
      → Reached build sha m
      → Reached build sha (upload_finish build p m now).0
  aborted :
      {m : MainManager} (reason : String)
      → Reached build sha m
      → Reached build sha (upload_abort reason m)
  released : {m : MainManager} → Reached build sha m → Reached build sha (release_failed_upload m)
  looped :
      {m : MainManager} (now : ℕ)
      → Reached build sha m
      → Reached build sha (ota_manager_loop m now).0

module _ (build : Build) (sha : List ℕ → List ℕ) (some_prefix : 0 < build.image_prefix_size) where
  checkpointed-Phase :
      (m : MainManager)
      → Phase build sha m
      → Phase build sha (record m { clock_checkpointed = true })
  checkpointed-Phase m (broken f b) = broken f b
  checkpointed-Phase m (receiving c b z o a) = receiving c b z o a
  checkpointed-Phase m (writes c o same size f a) = writes c o same size f a
  checkpointed-Phase m (verified s c b z l h f a) = verified s c b z l h f a

  ota_manager_loop-Phase :
      (m : MainManager) (now : ℕ) → Phase build sha m → Phase build sha (ota_manager_loop m now).0
  unfolding ota_manager_loop
  ota_manager_loop-Phase m now phase =
      if_rule Goal (not (is_ready m.status.state) || m.reboot_at_ms == 0) (λ _. phase)
        (λ _.
          if_rule Goal (not (reached32 now m.reboot_at_ms)) (λ _. phase)
            (λ _. checkpointed-Phase m phase))
    where
      Goal : MainManager × Bool × Bool → Type 0
      Goal r = Phase build sha r.0

  Reached-Phase : {m : MainManager} → Reached build sha m → Phase build sha m
  Reached-Phase booted =
      receiving (refl, refl) refl refl (ground (arith, some_prefix))
        (λ e. absurd (ground (arith, e)))
  Reached-Phase (started {m} heap block r) =
      upload_start-Phase build sha heap block m some_prefix (Reached-Phase r)
  Reached-Phase (consumed {m} p bytes good r) =
      upload_consume-Phase build sha p m bytes good (Reached-Phase r)
  Reached-Phase (finished {m} p now good r) =
      upload_finish-Phase build sha p m now good (Reached-Phase r)
  Reached-Phase (aborted {m} reason r) = upload_abort-Phase build sha reason m (Reached-Phase r)
  Reached-Phase (released {m} r) = release_failed_upload-Phase build sha m (Reached-Phase r)
  Reached-Phase (looped {m} now r) = ota_manager_loop-Phase m now (Reached-Phase r)

  abbrev pub Verified : MainManager → Type 0
  Verified m =
      (sha m.flash ≡ m.parsed_header.image_sha256)
      × (length m.flash ≡ m.parsed_header.image_size)
      × Fits m
      × IsAllowed build m.parsed_header

  Phase-Verified :
      (m : MainManager) → is_ready m.status.state ≡ true → Phase build sha m → Verified m
  Phase-Verified m ready (broken f b) = absurd (not_both m.status.state ready f)
    where
      not_both : (s : UpdateState) → is_ready s ≡ true → is_failed s ≡ true → ⊥
      not_both s r f = ground (arith, r, f)
  Phase-Verified m ready (receiving c b z o a) = absurd (ground (arith, ready, c))
  Phase-Verified m ready (writes c o same size f a) = absurd (ground (arith, ready, c))
  Phase-Verified m ready (verified s c b z l h f a) = (h, l, f, a)

  -- Whatever calls came before, with whatever chunks and whatever the platform answered: the device
  -- restarts into a new firmware only once the time for it has come, and only if the image in the flash
  -- has the size and the hash that the header of the package names, fits the partition, is for this
  -- hardware, and has a version that differs from the running one and is not below the minimum.
  pub ota_manager_loop-Verified :
      (m : MainManager) (now : ℕ)
      → Reached build sha m
      → (ota_manager_loop m now).1 ≡ true
      → (reached32 now m.reboot_at_ms ≡ true) × Verified m
  unfolding ota_manager_loop
  ota_manager_loop-Verified m now r =
      if_rule Goal (not (is_ready m.status.state) || m.reboot_at_ms == 0)
        (λ _ e. absurd (ground (arith, e)))
        (λ there.
          if_rule Goal (not (reached32 now m.reboot_at_ms)) (λ _ e. absurd (ground (arith, e)))
            (λ due _. (not-false _ due, Phase-Verified m (ready_of _ _ there) (Reached-Phase r))))
    where
      Goal : MainManager × Bool × Bool → Type 0
      Goal q = q.1 ≡ true → (reached32 now m.reboot_at_ms ≡ true) × Verified m

      ready_of : (ready other : Bool) → (not ready || other) ≡ false → ready ≡ true
      ready_of ready other e = ground arith
