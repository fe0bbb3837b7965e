-- ===== src/Ota/MainManager/Phase.antt =====
-- What main/src/ota_manager.cpp has done and checked of an update of the main device, and how the
-- writing of its image goes on.
use plant_watering.Prelude.{
  ℕ, ◌+◌, ◌-◌, ◌≤◌, ◌≡◌, ◌≢◌, refl, sym, ap, ◌∙◌, Bool, true, false, not, ◌||◌, List, [], ◌++◌,
  some, ltb, ◌==◌, if◌then◌else◌, length, String, arith, if_rule, length-append, not-false,
}
use plant_watering.Ota.Package.{Header, header_size}
use plant_watering.Ota.MainManager.{
  MainManager, is_failed, is_ready, fail, begin_write, begin_image_write, write_image_data,
}
use plant_watering.Worker.OtaService.{Build, Platform}
use plant_watering.Worker.OtaService.Safety.{IsPlatform}

-- The header is for this hardware and for a version that may be installed.
abbrev pub IsAllowed : Build → Header → Type 0
IsAllowed build h =
    (h.hardware_target ≡ build.fw_hardware_target)
    × (h.firmware_version ≢ build.fw_version)
    × (build.fw_min_allowed_version ≤ h.firmware_version)

abbrev pub Fits : MainManager → Type 0
Fits m = (size : ℕ) × (m.target_partition ≡ some size) × (m.parsed_header.image_size ≤ size)

abbrev pub Calm : MainManager → Type 0
Calm m = (is_failed m.status.state ≡ false) × (is_ready m.status.state ≡ false)

abbrev pub header_open : MainManager → Bool
header_open m = ltb (length m.package_header) header_size

abbrev pub prefix_open : Build → MainManager → Bool
prefix_open build m = ltb (length m.image_prefix) build.image_prefix_size

-- An update is broken off, has not written yet, writes, or has been verified.
pub data Phase (build : Build) (sha : List ℕ → List ℕ) (m : MainManager) : Type 0 where
  broken : is_failed m.status.state ≡ true → m.ota_begun ≡ false → Phase build sha m
  receiving :
      Calm m
      → m.ota_begun ≡ false
      → m.status.image_bytes_received ≡ 0
      → prefix_open build m ≡ true
      → (header_open m ≡ false → IsAllowed build m.parsed_header)
      → Phase build sha m
  writes :
      Calm m
      → (header_open m ≡ false) × (prefix_open build m ≡ false)
      → m.sha_input ≡ m.flash
      → length m.flash ≡ m.status.image_bytes_received
      → Fits m
      → IsAllowed build m.parsed_header
      → Phase build sha m
  verified :
      (is_ready m.status.state ≡ true) × (is_failed m.status.state ≡ false)
      → (header_open m ≡ false) × (prefix_open build m ≡ false)
      → m.ota_begun ≡ false
      → m.status.image_bytes_received ≡ m.parsed_header.image_size
      → length m.flash ≡ m.parsed_header.image_size
      → sha m.flash ≡ m.parsed_header.image_sha256
      → Fits m
      → IsAllowed build m.parsed_header
      → Phase build sha m

pub not-true : (b : Bool) → not b ≡ true → b ≡ false
not-true true h = ground (arith, h)
not-true false h = refl

module _ (build : Build) (sha : List ℕ → List ℕ) where
  abbrev pub Result : MainManager × Bool → Type 0
  Result r = Phase build sha r.0

  pub fail-Phase : (reason : String) (m : MainManager) → Phase build sha (fail reason m)
  unfolding fail
  fail-Phase reason m = broken refl refl

  -- More of the image, behind its prefix.
  pub write_image_data-Phase :
      (p : Platform) (m : MainManager) (bytes : List ℕ)
      → is_failed m.status.state ≡ false
      → prefix_open build m ≡ false
      → Phase build sha m
      → Result (write_image_data p m bytes)
  unfolding write_image_data
  write_image_data-Phase p m bytes sane full (broken f b) = absurd (ground (arith, sane, f))
  write_image_data-Phase p m bytes sane full (receiving c b z o a) =
      absurd (ground (arith, full, o))
  write_image_data-Phase p m bytes sane full (verified s c b z l h f a) =
      if_rule Result (length bytes == 0) (λ _. verified s c b z l h f a)
        (λ some_bytes.
          if_rule Result
            (ltb m.parsed_header.image_size m.status.image_bytes_received
              || ltb (m.parsed_header.image_size - m.status.image_bytes_received) (length bytes))
            (λ _. fail-Phase _ m) (λ fits. absurd (ground (arith, some_bytes, fits, z))))
  write_image_data-Phase p m bytes sane full (writes c o same size f a) =
      if_rule Result (length bytes == 0) (λ _. writes c o same size f a)
        (λ _.
          if_rule Result
            (ltb m.parsed_header.image_size m.status.image_bytes_received
              || ltb (m.parsed_header.image_size - m.status.image_bytes_received) (length bytes))
            (λ _. fail-Phase _ m)
            (λ _.
              if_rule Result (not (p.sha_update m.status.image_bytes_received))
                (λ _. fail-Phase _ m)
                (λ _.
                  if_rule Result (not (p.ota_write m.status.image_bytes_received))
                    (λ _. fail-Phase _ (record m { sha_input = m.sha_input ++ bytes }))
                    (λ _.
                      writes c o (ap (λ l. l ++ bytes) same)
                        (length-append m.flash bytes ∙ ap (λ n. n + length bytes) size) f a))))

  abbrev pub Begins : MainManager × Bool → Type 0
  Begins r =
      Result r
      × (r.1 ≡ true → (is_failed r.0.status.state ≡ false) × (prefix_open build r.0 ≡ false))

  pub refused : (reason : String) (m : MainManager) → Begins (fail reason m, false)
  refused reason m = (fail-Phase reason m, λ e. absurd (ground (arith, e)))

  -- The start of the image, with its complete prefix.
  pub begin_write-Phase :
      (p : Platform) (m : MainManager)
      → IsPlatform sha p
      → (header_open m ≡ false) × (prefix_open build m ≡ false)
      → m.status.image_bytes_received ≡ 0
      → IsAllowed build m.parsed_header
      → Begins (begin_write p m)
  unfolding begin_write
  begin_write-Phase p m good full none_yet allowed =
      let hashing = record m { sha256_active = true; sha_input = [] } in
      if_rule Begins (not p.sha_starts) (λ _. refused "sha256_init_failed" hashing)
        (λ _.
          if_rule Begins (not (p.ota_begin m.target_partition m.parsed_header.image_size))
            (λ _. refused "ota_begin_failed" hashing)
            (λ b. (
              writes (refl, refl) full refl (sym none_yet)
                  (good.begin_checked m.target_partition m.parsed_header.image_size (not-false _ b))
                  allowed,
              λ _. (refl, full.1),
            )))

  pub begin_image_write-Phase :
      (p : Platform) (m : MainManager)
      → IsPlatform sha p
      → (header_open m ≡ false) × (prefix_open build m ≡ false)
      → m.status.image_bytes_received ≡ 0
      → IsAllowed build m.parsed_header
      → Begins (begin_image_write build p m)
  unfolding begin_image_write
  begin_image_write-Phase p m good full none_yet allowed =
      let segments = build.image_segment_count m.image_prefix in
      let begins = begin_write-Phase p m good full none_yet allowed in
      if_rule Begins (not (build.image_magic_ok m.image_prefix))
        (λ _. refused "bad_esp_image_magic" m)
        (λ _.
          if_rule Begins (not (build.image_chip_ok m.image_prefix))
            (λ _. refused "esp_image_wrong_chip" m)
            (λ _.
              if_rule Begins (segments == 0 || ltb 16 segments)
                (λ _. refused "bad_esp_segment_count" m)
                (λ _.
                  if_rule Begins (not (build.image_hash_appended m.image_prefix == 1))
                    (λ _. refused "esp_image_hash_missing" m) (λ _. begins))))

  abbrev pub Kept : MainManager → MainManager × Bool → Type 0
  Kept m r =
      r.1 ≡ true
      → (is_failed r.0.status.state ≡ is_failed m.status.state)
        × (prefix_open build r.0 ≡ prefix_open build m)

  pub write_image_data-Kept :
      (p : Platform) (m : MainManager) (bytes : List ℕ) → Kept m (write_image_data p m bytes)
  unfolding write_image_data
  write_image_data-Kept p m bytes =
      if_rule (Kept m) (length bytes == 0) (λ _ _. (refl, refl))
        (λ _.
          if_rule (Kept m)
            (ltb m.parsed_header.image_size m.status.image_bytes_received
              || ltb (m.parsed_header.image_size - m.status.image_bytes_received) (length bytes))
            (λ _ e. absurd (ground (arith, e)))
            (λ _.
              if_rule (Kept m) (not (p.sha_update m.status.image_bytes_received))
                (λ _ e. absurd (ground (arith, e)))
                (λ _.
                  if_rule (Kept m) (not (p.ota_write m.status.image_bytes_received))
                    (λ _ e. absurd (ground (arith, e))) (λ _ _. (refl, refl)))))

  -- The prefix and the bytes behind it.
  pub write_prefix-Phase :
      (p : Platform) (begun : MainManager × Bool) (prefix rest : List ℕ)
      → Begins begun
      → let wrote = write_image_data p begun.0 prefix in
        Result (
          if not begun.1
          then (begun.0, false)
          else if not wrote.1
          then (wrote.0, false)
          else write_image_data p wrote.0 rest)
  write_prefix-Phase p begun prefix rest (phase, going) =
      let wrote = write_image_data p begun.0 prefix in
      if_rule Result (not begun.1) (λ _. phase)
        (λ on.
          let (sane, full) = going (not-false _ on) in
          let first = write_image_data-Phase p begun.0 prefix sane full phase in
          if_rule Result (not wrote.1) (λ _. first)
            (λ ok.
              let (same, same_prefix) = write_image_data-Kept p begun.0 prefix (not-false _ ok) in
              write_image_data-Phase p wrote.0 rest (same ∙ sane) (same_prefix ∙ full) first))
