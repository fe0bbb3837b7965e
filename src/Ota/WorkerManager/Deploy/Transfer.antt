-- ===== src/Ota/WorkerManager/Deploy/Transfer.antt =====
-- The whole image on its way from `deployToWorker` of main/src/worker_ota_manager.cpp to the data
-- characteristic of worker/src/worker_ota_service.cpp.
use plant_watering.Prelude.{
  ℕ, zero, suc, ◌+◌, ◌-◌, ◌*◌, ◌≤◌, ◌<◌, ◌≡◌, refl, sym, true, false, not, List, ◌++◌, Option, none,
  some, min, ltb, leb, ◌==◌, if◌then◌else◌, length, take, drop, arith, if_rule, leb→gt, leb→le,
  length-take, drop-drop, length-drop, subst,
}
use plant_watering.Prelude.Bytes.{le32}
use plant_watering.Ota.Package.{Header, read_u32}
use plant_watering.Ota.WorkerManager.{JobStatus, set_progress}
use plant_watering.Ota.WorkerManager.Deploy.{transfer, transfer_chunk_size, failing, Progress}
use plant_watering.Ota.WorkerManager.Deploy.WorkerEnd.{worker_peer, IsUpdate, Has}
use plant_watering.Ota.WorkerManager.Deploy.Chunk.{write_image_bytes-first, write_image_bytes-later}
use plant_watering.Worker.OtaService.{PackageHeader, Build, Platform, OtaState}
use plant_watering.Worker.OtaService.Image.{write_image_bytes}
use plant_watering.Worker.OtaService.Commands.{data_write}

read_u32-le32 : (n : ℕ) (bytes : List ℕ) → n < 4294967296 → read_u32 (le32 n ++ bytes) 0 ≡ n
read_u32-le32 n bytes h = omega arith

module _ (build : Build) (p : Platform) (h : PackageHeader) (size : ℕ) (image : List ℕ)
    (u : IsUpdate build p h size image) where
  abbrev chunk_at : ℕ → List ℕ
  chunk_at offset = take (min transfer_chunk_size (h.image_size - offset)) (drop offset image)

  write_image_bytes-Has :
      (s : OtaState) (offset : ℕ)
      → offset < h.image_size
      → Has build h size image offset s
      → Has build h size image
          (offset + min transfer_chunk_size (h.image_size - offset))
          (write_image_bytes build p s (chunk_at offset)).0
  write_image_bytes-Has s zero more w =
      let n = min transfer_chunk_size (h.image_size - zero) in
      let e : zero + n ≡ n = omega arith in
      rw e (
        write_image_bytes-first build p h size image u s n
          (omega (arith, u.prefix_small, u.prefix_fits)) (omega arith) w)
  write_image_bytes-Has s (suc offset) more w =
      write_image_bytes-later build p h size image u s (suc offset)
        (min transfer_chunk_size (h.image_size - suc offset)) (omega arith) (omega (arith, more))
        (omega (arith, more)) w

  data_write-Has :
      (s : OtaState) (offset : ℕ)
      → offset < h.image_size
      → Has build h size image offset s
      → Has build h size image
          (offset + min transfer_chunk_size (h.image_size - offset))
          (data_write build p s (le32 offset ++ chunk_at offset))
  unfolding data_write
  data_write-Has s offset more w =
      let Goal : OtaState → Type 0 =
        Has build h size image (offset + min transfer_chunk_size (h.image_size - offset)) in
      if_rule Goal (ltb (length (le32 offset ++ chunk_at offset)) 4)
        (λ e. absurd (ground (arith, e)))
        (λ _.
          if_rule Goal (not (read_u32 (le32 offset ++ chunk_at offset) 0 == s.image_bytes_received))
            (λ e. absurd (
              ground (
                arith,
                e,
                read_u32-le32 offset (chunk_at offset) (omega (arith, more, u.size_fits)),
                w.received,
              )))
            (λ _. write_image_bytes-Has s offset more w))

  module _ (now : ℕ) (header : Header) (same_size : header.image_size ≡ h.image_size) where
    abbrev Arrives : Option (Progress (worker_peer build p now)) → Type 0
    Arrives o =
        (job : JobStatus) × (s : OtaState) × (o ≡ some (job, s, true))
        × Has build h size image h.image_size s

    round-Arrives :
        (offset : ℕ) (job : JobStatus) (s : OtaState)
        (rest : Option (Progress (worker_peer build p now)))
        → offset ≤ h.image_size
        → Has build h size image offset s
        → (offset < h.image_size → Arrives rest)
        → let want = min transfer_chunk_size (header.image_size - offset) in
          Arrives (
            if leb header.image_size offset
            then some (job, s, true)
            else if not (length (take want (drop offset image)) == want)
            then some (failing "Stored worker firmware read failed" job, s, false)
            else rest)
    round-Arrives offset job s rest upto w again =
        let want = min transfer_chunk_size (header.image_size - offset) in
        let taken =
          length-take want (drop offset image)
            (omega (arith, same_size, length-drop offset image, u.whole)) in
        if_rule Arrives (leb header.image_size offset)
          (λ end.
            let e : offset ≡ h.image_size = omega (arith, leb→le _ _ end, same_size, upto) in
            (job, s, refl, subst (λ n. Has build h size image n s) e w))
          (λ more.
            if_rule Arrives (not (length (take want (drop offset image)) == want))
              (λ e. absurd (ground (arith, e, taken)))
              (λ _. again (omega (arith, leb→gt _ _ more, same_size))))

    pub transfer-Arrives :
        (rounds offset : ℕ) (job : JobStatus) (s : OtaState)
        → offset ≤ h.image_size
        → h.image_size ≤ offset + transfer_chunk_size * rounds
        → Has build h size image offset s
        → Arrives (
            transfer (worker_peer build p now) (suc rounds) header (drop offset image) offset job s)
    unfolding transfer
    transfer-Arrives zero offset job s upto enough w =
        round-Arrives offset job s none upto w (λ more. absurd (omega (arith, more, enough)))
    transfer-Arrives (suc rounds) offset job s upto enough w =
        round-Arrives offset job s _ upto w (λ more.
          let step : ℕ → ℕ = λ total. min transfer_chunk_size (total - offset) in
          let Next : ℕ → List ℕ → Type 0 = λ want left. Arrives (
            transfer (worker_peer build p now) (suc rounds) header left (offset + want)
              (set_progress (offset + want) job)
              (data_write build p s (le32 offset ++ take want (drop offset image)))) in
          let want : ℕ = step h.image_size in
          let again : Next want (drop (offset + want) image) =
            transfer-Arrives rounds (offset + want) (set_progress (offset + want) job) _
              (omega (arith, more)) (omega (arith, more, enough))
              (data_write-Has s offset more w) in
          let here : Next want (drop want (drop offset image)) =
            subst (λ left. Next want left) (sym (drop-drop offset want image)) again in
          subst (λ total. Next (step total) (drop (step total) (drop offset image))) (sym same_size)
            here)
