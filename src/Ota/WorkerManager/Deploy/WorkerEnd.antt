-- ===== src/Ota/WorkerManager/Deploy/WorkerEnd.antt =====
-- The two ends of an update together: `deployToWorker` of main/src/worker_ota_manager.cpp, with the
-- callbacks of worker/src/worker_ota_service.cpp as the connected worker.
use mathlib.Core.List.{append-nil}
use plant_watering.Prelude.{
  ℕ, ◌+◌, ◌≤◌, ◌<◌, ◌≡◌, refl, sym, ap, ◌∙◌, Bool, true, false, not, List, [], ◌∷◌, ◌++◌, some, ltb,
  ◌==◌, length, take, arith, if_rule, length-take, ◌||◌,
}
use plant_watering.Ota.WorkerManager.Deploy.{Peer, transfer_chunk_size}
use plant_watering.Worker.OtaService.{PackageHeader, Build, Platform, OtaState}
use plant_watering.Worker.OtaService.Info.{write_info_value}
use plant_watering.Worker.OtaService.Image.{
  image_header_ok, begin_image_write_if_ready, append_image_bytes,
}
use plant_watering.Worker.OtaService.Commands.{control_write, data_write, on_disconnect}

-- The worker's service behind a connection that confirms each write; `now` is the worker's time at a
-- commit.
abbrev pub worker_peer : Build → Platform → ℕ → Peer OtaState
worker_peer build p now = record {
  write_control = λ s bytes. (control_write build p s bytes now, true);
  write_data = λ s bytes. (data_write build p s bytes, true);
  read_info = λ s. write_info_value build p s;
  disconnect = λ s. on_disconnect s;
  reads_header = true;
  reopens = true;
  seeks = true;
  reads = λ _. true;
}

-- All that the worker asks of its platform goes well.
pub record IsCooperative (p : Platform) (size image_size : ℕ) : Type 0 where
  pub partition : p.next_partition ≡ some size
  pub hash_starts : p.sha_starts ≡ true
  pub begins : p.ota_begin (some size) image_size ≡ true
  pub hashes : (offset : ℕ) → p.sha_update offset ≡ true
  pub writes : (offset : ℕ) → p.ota_write offset ≡ true
  pub hash_ends : p.sha_finish ≡ true
  pub image_ends : p.ota_end ≡ true
  pub boots : p.set_boot ≡ true

-- What an update needs: a platform that does its part, an image with the size and the hash of the
-- header, and a readable prefix in its first chunk.
pub record IsUpdate (build : Build) (p : Platform) (h : PackageHeader) (size : ℕ) (image : List ℕ)
    : Type 0 where
  pub platform : IsCooperative p size h.image_size
  pub prefix_ok : image_header_ok build (take build.image_prefix_size image) ≡ true
  pub prefix_small : (0 < build.image_prefix_size) × (build.image_prefix_size ≤ transfer_chunk_size)
  pub prefix_fits : build.image_prefix_size ≤ h.image_size
  pub whole : length image ≡ h.image_size
  pub size_fits : h.image_size < 4294967296
  pub hash : p.sha256 image ≡ h.image_sha256

-- The worker while it has the first `offset` bytes of the image.
pub record Has (build : Build) (h : PackageHeader) (size : ℕ) (image : List ℕ) (offset : ℕ)
    (s : OtaState) : Type 0 where
  pub header : s.header ≡ h
  pub partition : s.target_partition ≡ some size
  pub received : s.image_bytes_received ≡ offset
  pub fresh : offset ≡ 0 → (s.ota_begun ≡ false) × (s.image_prefix ≡ [])
  pub begun :
      0 < offset
      → (s.ota_begun ≡ true)
        × (build.image_prefix_size ≤ length s.image_prefix)
        × (s.flash ≡ take offset image)
        × (s.sha_input ≡ take offset image)

module _ (build : Build) (p : Platform) (h : PackageHeader) (size : ℕ) (image : List ℕ)
    (u : IsUpdate build p h size image) where
  -- Bytes that are written behind the ones that are there.
  abbrev pub Appended : OtaState → List ℕ → OtaState × Bool → Type 0
  Appended s bytes (s', ok) =
      (ok ≡ true)
      × (s'.header ≡ s.header)
      × (s'.target_partition ≡ s.target_partition)
      × (s'.image_prefix ≡ s.image_prefix)
      × (s'.ota_begun ≡ true)
      × (s'.flash ≡ s.flash ++ bytes)
      × (s'.sha_input ≡ s.sha_input ++ bytes)
      × (s'.image_bytes_received ≡ s.image_bytes_received + length bytes)

  pub append_image_bytes-Appended :
      (s : OtaState) (bytes : List ℕ)
      → s.ota_begun ≡ true
      → Appended s bytes (append_image_bytes p s bytes)
  unfolding append_image_bytes
  append_image_bytes-Appended s [] on = (
    refl,
    refl,
    refl,
    refl,
    on,
    sym (append-nil s.flash),
    sym (append-nil s.sha_input),
    omega arith,
  )
  append_image_bytes-Appended s (b ∷ bytes) on =
      if_rule (Appended s (b ∷ bytes)) (length (b ∷ bytes) == 0) (λ e. absurd (ground (arith, e)))
        (λ _.
          if_rule (Appended s (b ∷ bytes)) (not s.ota_begun) (λ e. absurd (ground (arith, e, on)))
            (λ _.
              if_rule (Appended s (b ∷ bytes))
                (not (p.sha_update s.image_bytes_received)
                  || not (p.ota_write s.image_bytes_received))
                (λ e. absurd (
                  ground (
                    arith,
                    e,
                    u.platform.hashes s.image_bytes_received,
                    u.platform.writes s.image_bytes_received,
                  )))
                (λ _. (refl, refl, refl, refl, on, refl, refl, refl))))

  -- The image write begins with its complete prefix.
  abbrev pub Begun : OtaState → OtaState × Bool → Type 0
  Begun s (s', ok) =
      (ok ≡ true)
      × (s'.header ≡ s.header)
      × (s'.target_partition ≡ s.target_partition)
      × (s'.image_prefix ≡ s.image_prefix)
      × (s'.ota_begun ≡ true)
      × (s'.flash ≡ [])
      × (s'.sha_input ≡ [])
      × (s'.image_bytes_received ≡ s.image_bytes_received)

  pub begin_image_write_if_ready-Begun :
      (s : OtaState)
      → s.header ≡ h
      → s.target_partition ≡ some size
      → s.ota_begun ≡ false
      → s.image_prefix ≡ take build.image_prefix_size image
      → Begun s (begin_image_write_if_ready build p s)
  unfolding begin_image_write_if_ready
  begin_image_write_if_ready-Begun s header partition off prefix =
      let long =
        ap (λ (l : List ℕ). length l) prefix
        ∙ length-take build.image_prefix_size image (omega (arith, u.whole, u.prefix_fits)) in
      let header_ok = ap (λ l. image_header_ok build l) prefix ∙ u.prefix_ok in
      let begins : p.ota_begin s.target_partition s.header.image_size ≡ true =
        (λ i. p.ota_begin (partition i) (header i).image_size) ∙ u.platform.begins in
      if_rule (Begun s) (ltb (length s.image_prefix) build.image_prefix_size || s.ota_begun)
        (λ e. absurd (ground (arith, e, long, off)))
        (λ _.
          if_rule (Begun s) (not (image_header_ok build s.image_prefix))
            (λ e. absurd (ground (arith, e, header_ok)))
            (λ _.
              if_rule (Begun s) (not p.sha_starts)
                (λ e. absurd (ground (arith, e, u.platform.hash_starts)))
                (λ _.
                  if_rule (Begun s) (not (p.ota_begin s.target_partition s.header.image_size))
                    (λ e. absurd (ground (arith, e, begins)))
                    (λ _. (refl, refl, refl, refl, refl, refl, refl, refl)))))
