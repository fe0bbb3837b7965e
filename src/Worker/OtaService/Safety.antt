-- ===== src/Worker/OtaService/Safety.antt =====
-- What every sequence of writes to the characteristics of worker/src/worker_ota_service.cpp leaves
-- true, so what a reboot into a new firmware rests on.
use plant_watering.Prelude.{
  ℕ, ◌+◌, ◌-◌, ◌≤◌, ◌<◌, ◌≡◌, ◌≢◌, refl, sym, ◌∙◌, ap, Bool, true, false, not, ◌||◌, List, [], ◌++◌,
  Option, some, ltb, ◌==◌, if◌then◌else◌, length, take, drop, length-append, arith, if_rule, ltb→lt,
}
use plant_watering.Worker.OtaService.{
  WorkerOtaState, ready_to_reboot, WorkerOtaError, PackageHeader, Build, Platform, OtaState, fail,
}
use plant_watering.Worker.OtaService.Image.{
  image_header_ok, begin_image_write_if_ready, append_image_bytes, past_end, write_image_prefix,
  write_image_bytes,
}

-- `esp_ota_begin` refuses a missing partition and an image that does not fit.
abbrev pub IsBeginChecked : Platform → Type 0
IsBeginChecked p =
    (target : Option ℕ) (image_size : ℕ)
    → p.ota_begin target image_size ≡ true
    → (size : ℕ) × (target ≡ some size) × (image_size ≤ size)

pub record IsPlatform (sha : List ℕ → List ℕ) (p : Platform) : Type 0 where
  pub begin_checked : IsBeginChecked p
  pub hashes : (bytes : List ℕ) → p.sha256 bytes ≡ sha bytes

abbrev pub is_ready : WorkerOtaState → Bool
is_ready ready_to_reboot = true
is_ready _ = false

-- The header is for this hardware and for a version that may be installed.
abbrev pub IsAllowed : Build → PackageHeader → Type 0
IsAllowed build h =
    (h.hardware_target ≡ build.fw_hardware_target)
    × (h.firmware_version ≢ build.fw_version)
    × (build.fw_min_allowed_version ≤ h.firmware_version)

abbrev pub Fits : OtaState → Type 0
Fits s = (size : ℕ) × (s.target_partition ≡ some size) × (s.header.image_size ≤ size)

pub record IsSound (build : Build) (sha : List ℕ → List ℕ) (s : OtaState) : Type 0 where
  pub chosen : (size : ℕ) → s.target_partition ≡ some size → IsAllowed build s.header
  pub incomplete :
      length s.image_prefix < build.image_prefix_size
      → (s.image_bytes_received ≡ 0) × (s.ota_begun ≡ false) × (is_ready s.state ≡ false)
  pub begun :
      s.ota_begun ≡ true
      → (s.sha_input ≡ s.flash)
        × (length s.flash ≡ s.image_bytes_received)
        × (is_ready s.state ≡ false)
        × Fits s
  pub ready :
      is_ready s.state ≡ true
      → (sha s.flash ≡ s.header.image_sha256) × (length s.flash ≡ s.header.image_size) × Fits s

pub fail-IsSound :
    (build : Build) (sha : List ℕ → List ℕ) (e : WorkerOtaError) (s : OtaState)
    → IsSound build sha s
    → IsSound build sha (fail e s)
unfolding fail
fail-IsSound build sha e s w = record {
  chosen = w.chosen;
  incomplete = λ h. ((w.incomplete h).0, refl, refl);
  begun = λ h. ground arith;
  ready = λ h. ground arith;
}

abbrev pub SoundResult : Build → (List ℕ → List ℕ) → OtaState × Bool → Type 0
SoundResult build sha r = IsSound build sha r.0

append_image_bytes-IsSound :
    (build : Build) (sha : List ℕ → List ℕ) (p : Platform) (s : OtaState) (bytes : List ℕ)
    → IsSound build sha s
    → SoundResult build sha (append_image_bytes p s bytes)
unfolding append_image_bytes
append_image_bytes-IsSound build sha p s bytes w =
    if_rule (SoundResult build sha) (length bytes == 0) (λ _. w)
      (λ h.
        if_rule (SoundResult build sha) (not s.ota_begun) (λ _. w)
          (λ b.
            if_rule (SoundResult build sha)
              (not (p.sha_update s.image_bytes_received)
                || not (p.ota_write s.image_bytes_received))
              (λ _. fail-IsSound build sha _ s w)
              (λ _.
                let on : s.ota_begun ≡ true = ground arith in
                let (same, size, still, fits) = w.begun on in
                record {
                  chosen = w.chosen;
                  incomplete = λ h. ground (arith, w.incomplete h);
                  begun = λ h. (
                    ap (λ l. l ++ bytes) same,
                    length-append s.flash bytes ∙ ap (λ n. n + length bytes) size,
                    still,
                    fits,
                  );
                  ready = λ h. ground (arith, still);
                })))

begin_image_write_if_ready-IsSound :
    (build : Build) (sha : List ℕ → List ℕ) (p : Platform) (s : OtaState)
    → IsPlatform sha p
    → IsSound build sha s
    → s.image_bytes_received ≡ 0
    → SoundResult build sha (begin_image_write_if_ready build p s)
unfolding begin_image_write_if_ready fail
begin_image_write_if_ready-IsSound build sha p s good w nothing =
    if_rule (SoundResult build sha)
      (ltb (length s.image_prefix) build.image_prefix_size || s.ota_begun) (λ _. w)
      (λ h.
        if_rule (SoundResult build sha) (not (image_header_ok build s.image_prefix))
          (λ _. fail-IsSound build sha _ s w)
          (λ _.
            if_rule (SoundResult build sha) (not p.sha_starts) (λ _. hashing_failed)
              (λ _.
                if_rule (SoundResult build sha)
                  (not (p.ota_begin s.target_partition s.header.image_size)) (λ _. hashing_failed)
                  (λ b. record {
                    chosen = w.chosen;
                    incomplete = λ l. ground arith;
                    begun = λ _. (
                      refl,
                      sym nothing,
                      refl,
                      good.begin_checked s.target_partition s.header.image_size (ground arith),
                    );
                    ready = λ r. ground arith;
                  }))))
  where
    hashing_failed :
        {e : WorkerOtaError}
        → IsSound build sha (fail e (record s { sha256_active = true; sha_input = [] }))
    hashing_failed = record {
      chosen = w.chosen;
      incomplete = λ h. (nothing, refl, refl);
      begun = λ h. ground arith;
      ready = λ h. ground arith;
    }

write_image_prefix-IsSound :
    (build : Build) (sha : List ℕ → List ℕ) (p : Platform) (s : OtaState)
    → IsSound build sha s
    → SoundResult build sha (write_image_prefix p s)
unfolding write_image_prefix
write_image_prefix-IsSound build sha p s w =
    if_rule (SoundResult build sha) (past_end s (length s.image_prefix))
      (λ _. fail-IsSound build sha _ s w)
      (λ _. append_image_bytes-IsSound build sha p s s.image_prefix w)

extend_prefix-IsSound :
    (build : Build) (sha : List ℕ → List ℕ) (s : OtaState) (bytes : List ℕ)
    → length s.image_prefix < build.image_prefix_size
    → IsSound build sha s
    → IsSound build sha (record s { image_prefix = bytes })
extend_prefix-IsSound build sha s bytes h w = record {
  chosen = w.chosen;
  incomplete = λ _. w.incomplete h;
  begun = w.begun;
  ready = w.ready;
}

pub write_image_bytes-IsSound :
    (build : Build) (sha : List ℕ → List ℕ) (p : Platform) (s : OtaState) (bytes : List ℕ)
    → IsPlatform sha p
    → IsSound build sha s
    → SoundResult build sha (write_image_bytes build p s bytes)
unfolding write_image_bytes
write_image_bytes-IsSound build sha p s bytes good w =
    if_rule (SoundResult build sha) (length bytes == 0) (λ _. w)
      (λ h.
        if_rule (SoundResult build sha) (past_end s (length bytes))
          (λ _. fail-IsSound build sha _ s w)
          (λ _.
            if_rule (SoundResult build sha) (ltb (length s.image_prefix) build.image_prefix_size)
              (λ short.
                let missing = build.image_prefix_size - length s.image_prefix in
                let little = ltb→lt (length s.image_prefix) build.image_prefix_size short in
                let extended = s.image_prefix ++ take missing bytes in
                let begun =
                  begin_image_write_if_ready-IsSound build sha p
                    (record s { image_prefix = extended }) good
                    (extend_prefix-IsSound build sha s extended little w) (w.incomplete little).0 in
                let r = begin_image_write_if_ready build p (record s { image_prefix = extended }) in
                let r' : OtaState × Bool =
                  if r.0.ota_begun then write_image_prefix p r.0 else (r.0, true) in
                let written : SoundResult build sha r' =
                  if_rule (SoundResult build sha) r.0.ota_begun
                    (λ _. write_image_prefix-IsSound build sha p r.0 begun) (λ _. begun) in
                if_rule (SoundResult build sha) (not r.1) (λ _. begun)
                  (λ _.
                    if_rule (SoundResult build sha) (not r'.1) (λ _. written)
                      (λ _.
                        append_image_bytes-IsSound build sha p r'.0 (drop missing bytes) written)))
              (λ _. append_image_bytes-IsSound build sha p s bytes w)))
