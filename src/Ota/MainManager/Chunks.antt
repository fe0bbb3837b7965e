-- ===== src/Ota/MainManager/Chunks.antt =====
-- The chunks of a package in main/src/ota_manager.cpp: its header, the prefix of the image, the image.
use plant_watering.Prelude.{
  ℕ, ◌+◌, ◌-◌, ◌≤◌, ◌<◌, ◌≡◌, refl, ◌∙◌, Bool, true, false, not, ◌||◌, List, ◌++◌, none, some, ltb,
  ◌==◌, length, take, drop, String, arith, if_rule, option_rule, length-append, not-false, ltb→lt,
  ge→ltb, length-take_le,
}
use plant_watering.Prelude.Bytes.{bytes_eq}
use plant_watering.Policy.FirmwareVersion.{Decision, firmware_version_decision-Answers, Answers}
use plant_watering.Ota.Package.{
  Header, ParseError, header_size, parse_main_header, parse_header, check_fields, read_fields,
  magic, role_main,
}
use plant_watering.Ota.WorkerManager.{is_none}
use plant_watering.Ota.MainManager.{
  MainManager, is_failed, fail, on_decision, check_version, parse_package_header, begin_image_write,
  consume_image, consume_package, upload_consume,
}
use plant_watering.Ota.WorkerManager.Upload.{parse_error_name}
use plant_watering.Worker.OtaService.{Build, Platform}
use plant_watering.Worker.OtaService.Safety.{IsPlatform}
use plant_watering.Ota.MainManager.Phase.{
  Calm, IsAllowed, Phase, Result, begin_image_write-Phase, broken, fail-Phase, header_open,
  not-true, prefix_open, receiving, verified, write_image_data-Phase, write_prefix-Phase, writes,
}

-- The header of a package for the main device that is accepted is for its hardware.
check_fields-hardware :
    (bytes : List ℕ) (role hardware maximum : ℕ) (h : Header)
    → is_none (check_fields bytes role hardware true maximum h) ≡ true
    → h.hardware_target ≡ hardware
unfolding check_fields
check_fields-hardware bytes role hardware maximum h e = ground arith

abbrev ForHardware : ℕ → ParseError × Header → Type 0
ForHardware hardware (error, h) = is_none error ≡ true → h.hardware_target ≡ hardware

parse_main_header-ForHardware :
    (hardware : ℕ) (bytes : List ℕ) (maximum : ℕ) (out : Header)
    → ForHardware hardware (parse_main_header hardware bytes maximum out)
unfolding parse_header
parse_main_header-ForHardware hardware bytes maximum out =
    if_rule (ForHardware hardware) (not (length bytes == header_size))
      (λ _ e. absurd (ground (arith, e)))
      (λ _.
        if_rule (ForHardware hardware) (not (bytes_eq (take 8 bytes) magic))
          (λ _ e. absurd (ground (arith, e)))
          (λ _ e. check_fields-hardware bytes role_main hardware maximum (read_fields bytes) e))

still_open :
    (whole size have : ℕ) {added : ℕ}
    → not (whole == size) ≡ true
    → have < size
    → whole ≡ have + added
    → added ≤ size - have
    → ltb whole size ≡ true
still_open whole size have other short total few = ground arith

at_least : (whole size : ℕ) → not (whole == size) ≡ false → size ≤ whole
at_least whole size e = ground arith

module _ (build : Build) (sha : List ℕ → List ℕ) where
  -- The header and the prefix of a session that has not written yet.
  abbrev Parsed : MainManager → MainManager × Bool → Type 0
  Parsed m r =
      Result build sha r
      × (r.1 ≡ true → (is_failed r.0.status.state ≡ false) × (header_open r.0 ≡ header_open m))

  unparsed : (reason : String) (m m' : MainManager) → Parsed m (fail reason m', false)
  unparsed reason m m' = (fail-Phase build sha reason m', λ e. absurd (ground (arith, e)))

  on_decision-Parsed :
      (m : MainManager) (d : Decision)
      → Answers build.fw_version m.parsed_header.firmware_version build.fw_min_allowed_version d
      → m.ota_begun ≡ false
      → m.status.image_bytes_received ≡ 0
      → prefix_open build m ≡ true
      → m.parsed_header.hardware_target ≡ build.fw_hardware_target
      → Parsed m (on_decision build m d)
  unfolding on_decision
  on_decision-Parsed m Decision.already_installed a off none_yet part hardware =
      unparsed "already_up_to_date" m m
  on_decision-Parsed m Decision.below_minimum a off none_yet part hardware =
      unparsed "version_below_minimum" m m
  on_decision-Parsed m Decision.allow (other, least) off none_yet part hardware =
      if_rule (Parsed m) (ltb m.parsed_header.image_size build.image_prefix_size)
        (λ _. unparsed "image_too_small" m m)
        (λ _. (
          receiving (refl, refl) off none_yet part (λ _. (hardware, other, least)),
          λ _. (refl, refl),
        ))

  check_version-Parsed :
      (m : MainManager)
      → m.ota_begun ≡ false
      → m.status.image_bytes_received ≡ 0
      → prefix_open build m ≡ true
      → m.parsed_header.hardware_target ≡ build.fw_hardware_target
      → Parsed m (check_version build m)
  unfolding check_version
  check_version-Parsed m off none_yet part hardware =
      on_decision-Parsed m _
        (firmware_version_decision-Answers build.fw_version m.parsed_header.firmware_version
          build.fw_min_allowed_version)
        off none_yet part hardware

  parse_package_header-Parsed :
      (p : Platform) (m : MainManager)
      → m.ota_begun ≡ false
      → m.status.image_bytes_received ≡ 0
      → prefix_open build m ≡ true
      → Parsed m (parse_package_header build p m)
  unfolding parse_package_header
  parse_package_header-Parsed p m off none_yet part =
      option_rule (Parsed m) p.next_partition
        (λ _. unparsed "no_inactive_ota_partition" m (record m { target_partition = none }))
        (λ size _.
          let r =
            parse_main_header build.fw_hardware_target m.package_header size m.parsed_header in
          let parsed = record m { target_partition = some size; parsed_header = r.1 } in
          if_rule (Parsed m) (is_none r.0)
            (λ good. check_version-Parsed parsed off none_yet part (
              parse_main_header-ForHardware build.fw_hardware_target m.package_header size
                m.parsed_header good))
            (λ _. unparsed (parse_error_name r.0) m parsed))

  -- What a session that is not failed and waits for its prefix has.
  abbrev Waits : MainManager → Type 0
  Waits m =
      Calm m
      × (m.ota_begun ≡ false)
      × (m.status.image_bytes_received ≡ 0)
      × (header_open m ≡ false → IsAllowed build m.parsed_header)

  Phase-Waits :
      (m : MainManager)
      → is_failed m.status.state ≡ false
      → prefix_open build m ≡ true
      → Phase build sha m
      → Waits m
  Phase-Waits m sane part (broken f b) = absurd (ground (arith, sane, f))
  Phase-Waits m sane part (receiving c b z o a) = (c, b, z, a)
  Phase-Waits m sane part (writes c o same size f a) = absurd (ground (arith, part, o))
  Phase-Waits m sane part (verified s c b z l h f a) = absurd (ground (arith, part, c))

  Phase-Header :
      (m : MainManager)
      → is_failed m.status.state ≡ false
      → header_open m ≡ true
      → Phase build sha m
      → Calm m
        × (m.ota_begun ≡ false)
        × (m.status.image_bytes_received ≡ 0)
        × (prefix_open build m ≡ true)
  Phase-Header m sane part (broken f b) = absurd (ground (arith, sane, f))
  Phase-Header m sane part (receiving c b z o a) = (c, b, z, o)
  Phase-Header m sane part (writes c o same size f a) = absurd (ground (arith, part, o))
  Phase-Header m sane part (verified s c b z l h f a) = absurd (ground (arith, part, c))

  -- The bytes behind the header.
  consume_image-Phase :
      (p : Platform) (m : MainManager) (bytes : List ℕ)
      → IsPlatform sha p
      → is_failed m.status.state ≡ false
      → header_open m ≡ false
      → Phase build sha m
      → Result build sha (consume_image build p m bytes)
  unfolding consume_image
  consume_image-Phase p m bytes good sane read phase =
      let missing = build.image_prefix_size - length m.image_prefix in
      let longer = record m { image_prefix = m.image_prefix ++ take missing bytes } in
      let total = length-append m.image_prefix (take missing bytes) in
      let few = length-take_le missing bytes in
      if_rule (Result build sha) (length bytes == 0) (λ _. phase)
        (λ _.
          if_rule (Result build sha) (not (prefix_open build m))
            (λ closed. write_image_data-Phase build sha p m bytes sane (not-true _ closed) phase)
            (λ part.
              let short : prefix_open build m ≡ true = not-false _ part in
              let (calm, off, none_yet, allowed) = Phase-Waits m sane short phase in
              if_rule (Result build sha)
                (not (length longer.image_prefix == build.image_prefix_size))
                (λ more.
                  receiving calm off none_yet (still_open _ _ _ more (ltb→lt _ _ short) total few)
                    allowed)
                (λ full.
                  write_prefix-Phase build sha p (begin_image_write build p longer)
                    longer.image_prefix (drop missing bytes)
                    (begin_image_write-Phase build sha p longer good
                      (read, ge→ltb _ _ (at_least _ _ full)) none_yet (allowed read)))))

  -- The bytes of a chunk.
  consume_package-Phase :
      (p : Platform) (m : MainManager) (bytes : List ℕ)
      → IsPlatform sha p
      → is_failed m.status.state ≡ false
      → Phase build sha m
      → Result build sha (consume_package build p m bytes)
  unfolding consume_package
  consume_package-Phase p m bytes good sane phase =
      let missing = header_size - length m.package_header in
      let longer = record m { package_header = m.package_header ++ take missing bytes } in
      let total = length-append m.package_header (take missing bytes) in
      let few = length-take_le missing bytes in
      if_rule (Result build sha) (not (header_open m))
        (λ closed. consume_image-Phase p m bytes good sane (not-true _ closed) phase)
        (λ part.
          let short : header_open m ≡ true = not-false _ part in
          let (calm, off, none_yet, prefix) = Phase-Header m sane short phase in
          if_rule (Result build sha) (not (length longer.package_header == header_size))
            (λ more. receiving calm off none_yet prefix (λ closed.
              absurd (ground (arith, closed, still_open _ _ _ more (ltb→lt _ _ short) total few))))
            (λ full.
              let (parsed, going) = parse_package_header-Parsed p longer off none_yet prefix in
              let r = parse_package_header build p longer in
              if_rule (Result build sha) (not r.1) (λ _. parsed)
                (λ ok.
                  let (sane', same) = going (not-false _ ok) in
                  consume_image-Phase p r.0 (drop missing bytes) good sane'
                    (same ∙ ge→ltb _ _ (at_least _ _ full)) parsed)))

  counted-Phase :
      (m : MainManager) (n : ℕ)
      → Phase build sha m
      → Phase build sha (record m { status = record m.status { package_bytes_received = n } })
  counted-Phase m n (broken f b) = broken f b
  counted-Phase m n (receiving c b z o a) = receiving c b z o a
  counted-Phase m n (writes c o same size f a) = writes c o same size f a
  counted-Phase m n (verified s c b z l h f a) = verified s c b z l h f a

  pub upload_consume-Phase :
      (p : Platform) (m : MainManager) (bytes : List ℕ)
      → IsPlatform sha p
      → Phase build sha m
      → Result build sha (upload_consume build p m bytes)
  unfolding upload_consume
  upload_consume-Phase p m bytes good phase =
      let total = m.status.package_bytes_received + length bytes in
      let counted = record m { status = record m.status { package_bytes_received = total } } in
      if_rule (Result build sha) (length bytes == 0 || is_failed m.status.state) (λ _. phase)
        (λ some_bytes.
          let sane : is_failed m.status.state ≡ false = ground (arith, some_bytes) in
          if_rule (Result build sha) (ltb 4294967295 total)
            (λ _. fail-Phase build sha "package_size_overflow" m)
            (λ _. consume_package-Phase p counted bytes good sane (counted-Phase m total phase)))
