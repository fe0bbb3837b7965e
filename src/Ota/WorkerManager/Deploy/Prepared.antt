-- ===== src/Ota/WorkerManager/Deploy/Prepared.antt =====
-- The commands of `deployToWorker` of main/src/worker_ota_manager.cpp at the control characteristic of
-- worker/src/worker_ota_service.cpp, where nothing goes wrong.
use plant_watering.Prelude.{
  ℕ, ◌+◌, ◌≤◌, ◌<◌, ◌≡◌, refl, sym, ap, ◌∙◌, Bool, true, false, not, ◌||◌, List, [], ◌∷◌, some, ltb,
  ◌==◌, length, take, drop, arith, if_rule, goes_on, same_test, length-take, length-drop, subst,
  take_all,
}
use plant_watering.Prelude.Bytes.{bytes_eq_iff}
use plant_watering.Policy.FirmwareVersion.{Decision, firmware_version_decision}
use plant_watering.Ota.Package.{
  Header, header_size, parse_worker_header, ParseError, bad_length, bad_magic, bad_format,
  bad_header_size, bad_role, bad_chip, bad_hardware, bad_version, bad_image_size, bad_reserved,
}
use plant_watering.Ota.WorkerManager.{header_of, no_header, worker_ota_slot_size, is_none}
use plant_watering.Ota.WorkerManager.Upload.Accepted.{header_of-inv}
use plant_watering.Ota.WorkerManager.Deploy.{transfer_chunk_size}
use plant_watering.Ota.WorkerManager.Deploy.WorkerEnd.{IsCooperative, IsUpdate, Has}
use plant_watering.Worker.OtaService.{
  prepared, ready_to_reboot, no_error, PackageHeader, Build, Platform, OtaState, empty_header,
  reset_session,
}
use plant_watering.Worker.OtaService.Image.{parse_package_header, image_header_ok}
use plant_watering.Worker.OtaService.Commands.{
  check_prepared, handle_prepare, handle_commit, control_write,
}
use plant_watering.Worker.OtaService.Agreement.{parse_package_header-parse_worker_header}

-- A stored package that the worker has a reason to install and no reason to refuse, and a platform of
-- the worker that does its part.
pub record IsUpgrade (build : Build) (p : Platform) (header : Header) (file : List ℕ) (size : ℕ)
    : Type 0 where
  pub stored : header_of file ≡ some header
  pub complete : length file ≡ header_size + header.image_size
  pub platform : IsCooperative p size header.image_size
  pub prefix_ok :
      image_header_ok build (take build.image_prefix_size (drop header_size file)) ≡ true
  pub prefix_small : (0 < build.image_prefix_size) × (build.image_prefix_size ≤ transfer_chunk_size)
  pub prefix_fits : build.image_prefix_size ≤ header.image_size
  pub hash : p.sha256 (drop header_size file) ≡ header.image_sha256
  pub hardware : header.hardware_target ≡ build.fw_hardware_target
  pub newer :
      firmware_version_decision build.fw_version header.firmware_version
        build.fw_min_allowed_version
      ≡ Decision.allow
  pub slot : header.image_size ≤ size
  pub size_fits : size < 4294967296
  pub version_fits : build.fw_version < 4294967296
  pub hardware_fits : build.fw_hardware_target < 65536

check_prepared-prepared :
    (build : Build) (p : Platform) (size : ℕ) (s : OtaState)
    → s.header.hardware_target ≡ build.fw_hardware_target
    → firmware_version_decision build.fw_version s.header.firmware_version
        build.fw_min_allowed_version
      ≡ Decision.allow
    → p.next_partition ≡ some size
    → s.header.image_size ≤ size
    → check_prepared build p s
      ≡ record s { target_partition = some size; state = prepared; error = no_error }
unfolding check_prepared
check_prepared-prepared build p size s hardware newer partition slot =
    if_rule (λ r. r ≡ record s { target_partition = some size; state = prepared; error = no_error })
      (not (s.header.hardware_target == build.fw_hardware_target))
      (λ e. absurd (ground (arith, e, hardware)))
      (λ _.
        rw (newer, partition)
          (if_rule
            (λ r. r ≡ record s { target_partition = some size; state = prepared; error = no_error })
            (ltb size s.header.image_size) (λ e. absurd (ground (arith, e, slot))) (λ _. refl)))

is_none-inv : (e : ParseError) → is_none e ≡ true → e ≡ ParseError.none
is_none-inv ParseError.none h = refl
is_none-inv bad_length h = ground arith
is_none-inv bad_magic h = ground arith
is_none-inv bad_format h = ground arith
is_none-inv bad_header_size h = ground arith
is_none-inv bad_role h = ground arith
is_none-inv bad_chip h = ground arith
is_none-inv bad_hardware h = ground arith
is_none-inv bad_version h = ground arith
is_none-inv bad_image_size h = ground arith
is_none-inv bad_reserved h = ground arith

control_write-handle_prepare :
    (build : Build) (p : Platform) (s : OtaState) (bytes : List ℕ) (now : ℕ)
    → control_write build p s (1 ∷ bytes) now ≡ handle_prepare build p s (1 ∷ bytes)
unfolding control_write
control_write-handle_prepare build p s bytes now = ground arith

complete_test :
    {begun : Bool} {m n : ℕ} → begun ≡ true → m ≡ n → (not begun || not (m == n)) ≡ false
complete_test b e = ground arith

module _ (build : Build) (p : Platform) (header : Header) (file : List ℕ) (size : ℕ)
    (i : IsUpgrade build p header file size) where
  abbrev pub image : List ℕ
  image = drop header_size file

  -- The header as the worker reads it.
  abbrev pub received_header : PackageHeader
  received_header = (parse_package_header build (take header_size file) empty_header).0

  -- The worker takes the header, and reads in it what the main device read.
  pub record IsReceived : Type 0 where
    pub accepted : (parse_package_header build (take header_size file) empty_header).1 ≡ true
    pub same_hardware : header.hardware_target ≡ received_header.hardware_target
    pub same_version : header.firmware_version ≡ received_header.firmware_version
    pub same_size : header.image_size ≡ received_header.image_size
    pub same_hash : header.image_sha256 ≡ received_header.image_sha256

  pub is_received : IsReceived
  is_received =
      let (good, is) = header_of-inv file header i.stored in
      let (_, accepts, same) =
        parse_package_header-parse_worker_header build (take header_size file) worker_ota_slot_size
          empty_header no_header i.prefix_small.0 in
      let read : Header =
        (parse_worker_header (take header_size file) worker_ota_slot_size no_header).1 in
      let back : read ≡ header = is in
      let ok =
        accepts (is_none-inv _ good)
          (subst (λ (h : Header). build.image_prefix_size ≤ h.image_size) (sym is) i.prefix_fits) in
      let (hardware, version, image_size, sha) = same ok in
      record {
        accepted = ok;
        same_hardware = ap (λ (h : Header). h.hardware_target) (sym back) ∙ hardware;
        same_version = ap (λ (h : Header). h.firmware_version) (sym back) ∙ version;
        same_size = ap (λ (h : Header). h.image_size) (sym back) ∙ image_size;
        same_hash = ap (λ (h : Header). h.image_sha256) (sym back) ∙ sha;
      }

  pub received_header-IsUpdate : IsUpdate build p received_header size image
  received_header-IsUpdate = record {
    platform = subst (λ n. IsCooperative p size n) is_received.same_size i.platform;
    prefix_ok = i.prefix_ok;
    prefix_small = i.prefix_small;
    prefix_fits = omega (arith, is_received.same_size, i.prefix_fits);
    whole = omega (arith, is_received.same_size, i.complete, length-drop header_size file);
    size_fits = omega (arith, is_received.same_size, i.slot, i.size_fits);
    hash = i.hash ∙ is_received.same_hash;
  }

  -- The worker behind the prepare command.
  pub control_write-prepared :
      (s : OtaState) (now : ℕ)
      → let s' = control_write build p s (1 ∷ take header_size file) now in
        (s'.state ≡ prepared) × Has build received_header size image 0 s'
  unfolding handle_prepare reset_session
  control_write-prepared s now =
      let Goal : OtaState → Type 0 =
        λ s'. (s'.state ≡ prepared) × Has build received_header size image 0 s' in
      let fresh = record (reset_session s) { header = received_header } in
      let taken = length-take header_size file (omega (arith, i.complete)) in
      subst Goal (sym (control_write-handle_prepare build p s (take header_size file) now)) (
        goes_on Goal _ _
          (same_test (length (1 ∷ take header_size file)) (1 + header_size) (omega (arith, taken)))
          (rw is_received.accepted (
            subst Goal
              (sym (
                check_prepared-prepared build p size fresh
                  (sym is_received.same_hardware ∙ i.hardware)
                  (rw (← is_received.same_version) i.newer) i.platform.partition
                  (omega (arith, is_received.same_size, i.slot))))
              (
                refl,
                record {
                  header = refl;
                  partition = refl;
                  received = refl;
                  fresh = λ _. (refl, refl);
                  begun = λ more. absurd (omega (arith, more));
                },
              ))))

  -- The worker behind the commit command, with the whole image.
  pub control_write-ready_to_reboot :
      (s : OtaState) (now : ℕ)
      → Has build received_header size image header.image_size s
      → let s' = control_write build p s (2 ∷ []) now in
        (s'.state ≡ ready_to_reboot)
        × (s'.flash ≡ image)
        × (s'.image_bytes_received ≡ header.image_size)
  unfolding control_write handle_commit
  control_write-ready_to_reboot s now w =
      let Goal : OtaState → Type 0 = λ s'.
        (s'.state ≡ ready_to_reboot)
        × (s'.flash ≡ image)
        × (s'.image_bytes_received ≡ header.image_size) in
      let (begun, _, flash, hashed) = w.begun (omega (arith, i.prefix_small.0, i.prefix_fits)) in
      let whole : take header.image_size image ≡ image =
        take_all header.image_size image
          (omega (arith, i.complete, length-drop header_size file)) in
      let hash : p.sha256 s.sha_input ≡ s.header.image_sha256 =
        ap p.sha256 (hashed ∙ whole)
        ∙ i.hash
        ∙ is_received.same_hash
        ∙ ap (λ (h : PackageHeader). h.image_sha256) (sym w.header) in
      let expected : s.header.image_size ≡ header.image_size =
        ap (λ (h : PackageHeader). h.image_size) w.header ∙ sym is_received.same_size in
      goes_on Goal _ _ (complete_test begun (w.received ∙ sym expected)) (
        goes_on Goal _ _ (ap not i.platform.hash_ends) (
          goes_on Goal _ _ (ap not ((bytes_eq_iff _ _).1 hash)) (
            goes_on Goal _ _ (ap not i.platform.image_ends)
              (goes_on Goal _ _ (ap not i.platform.boots) (refl, flash ∙ whole, w.received)))))
