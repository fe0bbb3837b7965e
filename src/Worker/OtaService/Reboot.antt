-- ===== src/Worker/OtaService/Reboot.antt =====
-- The commands of worker/src/worker_ota_service.cpp that begin and end an update, and what every
-- run of the service keeps true.
use plant_watering.Prelude.{
  ℕ, ◌+◌, ◌≡◌, refl, sym, ◌∙◌, ap, Bool, false, not, ◌||◌, List, Option, none, some, ltb, ◌==◌,
  if◌then◌else◌, length, drop, arith, if_rule, ==_iff,
}
use plant_watering.Prelude.Bytes.{bytes_eq, bytes_eq_iff, byte_at}
use plant_watering.Policy.FirmwareVersion.{
  Decision, Answers, firmware_version_decision, firmware_version_decision-Answers,
}
use plant_watering.Ota.Package.{header_size, read_u32}
use plant_watering.Worker.OtaService.{
  WorkerOtaState, idle, prepared, writing, verifying, ready_to_reboot, failed, no_error, aborted,
  WorkerOtaError, already_up_to_date, version_below_minimum, no_partition, too_large, Build,
  Platform, OtaState, reset_session, fail,
}
use plant_watering.Worker.OtaService.Image.{parse_package_header}
use plant_watering.Worker.OtaService.Commands.{
  check_prepared, handle_prepare, handle_commit, control_write, data_write, on_disconnect,
}
use plant_watering.Worker.OtaService.Safety.{
  IsPlatform, IsSound, IsAllowed, is_ready, fail-IsSound, write_image_bytes-IsSound,
}

-- A session in which nothing has been received and no partition is chosen.
abbrev Blank : OtaState → Type 0
Blank s =
    (s.ota_begun ≡ false)
    × (is_ready s.state ≡ false)
    × (s.image_bytes_received ≡ 0)
    × (s.target_partition ≡ none)

pub Blank-IsSound :
    (build : Build) (sha : List ℕ → List ℕ) (s : OtaState) → Blank s → IsSound build sha s
Blank-IsSound build sha s (off, still, nothing, free) = record {
  chosen = λ size h. absurd (ground (arith, h, free));
  incomplete = λ h. (nothing, off, still);
  begun = λ h. ground (arith, h, off);
  ready = λ h. ground (arith, h, still);
}

-- The partition is chosen for a header that is allowed.
chosen-IsSound :
    (build : Build) (sha : List ℕ → List ℕ) (s : OtaState) (size : ℕ) (state : WorkerOtaState)
    (error : WorkerOtaError)
    → Blank s
    → is_ready state ≡ false
    → IsAllowed build s.header
    → IsSound build sha (record s { target_partition = some size; state = state; error = error })
chosen-IsSound build sha s size state error (off, still, nothing, free) quiet ok = record {
  chosen = λ _ _. ok;
  incomplete = λ h. (nothing, off, quiet);
  begun = λ h. ground (arith, h, off);
  ready = λ h. ground (arith, h, quiet);
}

check_prepared-IsSound :
    (build : Build) (sha : List ℕ → List ℕ) (p : Platform) (s : OtaState)
    → Blank s
    → IsSound build sha (check_prepared build p s)
unfolding check_prepared
check_prepared-IsSound build sha p s blank =
    if_rule (IsSound build sha) (not (s.header.hardware_target == build.fw_hardware_target))
      (λ _. fail-IsSound build sha _ s (Blank-IsSound build sha s blank))
      (λ right.
        decided
          (firmware_version_decision build.fw_version s.header.firmware_version
            build.fw_min_allowed_version)
          (firmware_version_decision-Answers build.fw_version s.header.firmware_version
            build.fw_min_allowed_version)
          p.next_partition
          ((==_iff s.header.hardware_target build.fw_hardware_target).0 (ground arith)))
  where
    decided :
        (d : Decision)
        → Answers build.fw_version s.header.firmware_version build.fw_min_allowed_version d
        → (next : Option ℕ) → s.header.hardware_target ≡ build.fw_hardware_target
        → IsSound build sha (elim d [
          | Decision.already_installed ↦ fail already_up_to_date s
          | Decision.below_minimum ↦ fail version_below_minimum s
          | Decision.allow ↦ elim next [
            | none ↦ fail no_partition s
            | some size ↦
                let chosen = record s { target_partition = some size } in
                if ltb size s.header.image_size
                then fail too_large chosen
                else record chosen { state = prepared; error = no_error }
          ]
        ])
    decided Decision.already_installed a next hw =
        fail-IsSound build sha _ s (Blank-IsSound build sha s blank)
    decided Decision.below_minimum a next hw =
        fail-IsSound build sha _ s (Blank-IsSound build sha s blank)
    decided Decision.allow a none hw = fail-IsSound build sha _ s (Blank-IsSound build sha s blank)
    decided Decision.allow a (some size) hw =
        if_rule (IsSound build sha) (ltb size s.header.image_size)
          (λ _.
            fail-IsSound build sha _ _
              (chosen-IsSound build sha s size s.state s.error blank blank.1 (hw, a.0, a.1)))
          (λ _. chosen-IsSound build sha s size prepared no_error blank refl (hw, a.0, a.1))

handle_prepare-IsSound :
    (build : Build) (sha : List ℕ → List ℕ) (p : Platform) (s : OtaState) (bytes : List ℕ)
    → IsSound build sha s
    → IsSound build sha (handle_prepare build p s bytes)
unfolding handle_prepare reset_session
handle_prepare-IsSound build sha p s bytes w =
    let fresh = reset_session s in
    let (h, ok) = parse_package_header build (drop 1 bytes) fresh.header in
    let parsed = record fresh { header = h } in
    let blank : Blank parsed = (refl, refl, refl, refl) in
    if_rule (IsSound build sha) (not (length bytes == 1 + header_size))
      (λ _. fail-IsSound build sha _ s w)
      (λ _.
        if_rule (IsSound build sha) ok (λ _. check_prepared-IsSound build sha p parsed blank)
          (λ _. fail-IsSound build sha _ parsed (Blank-IsSound build sha parsed blank)))

-- The update while it is verified.
verifying-IsSound :
    (build : Build) (sha : List ℕ → List ℕ) (s : OtaState) (active : Bool)
    → IsSound build sha s
    → IsSound build sha (record s { state = verifying; error = no_error; sha256_active = active })
verifying-IsSound build sha s active w = record {
  chosen = w.chosen;
  incomplete = λ h. ((w.incomplete h).0, (w.incomplete h).1, refl);
  begun = λ h. ((w.begun h).0, (w.begun h).1, refl, (w.begun h).3);
  ready = λ h. ground arith;
}

handle_commit-IsSound :
    (build : Build) (sha : List ℕ → List ℕ) (p : Platform) (s : OtaState) (now : ℕ)
    → IsPlatform sha p
    → IsSound build sha s
    → IsSound build sha (handle_commit p s now)
unfolding handle_commit
handle_commit-IsSound build sha p s now good w =
    if_rule (IsSound build sha)
      (not s.ota_begun || not (s.image_bytes_received == s.header.image_size))
      (λ _. fail-IsSound build sha _ s w)
      (λ all.
        if_rule (IsSound build sha) (not p.sha_finish)
          (λ _. fail-IsSound build sha _ _ (verifying-IsSound build sha s s.sha256_active w))
          (λ _.
            if_rule (IsSound build sha)
              (not (bytes_eq (p.sha256 s.sha_input) s.header.image_sha256))
              (λ _. fail-IsSound build sha _ _ (verifying-IsSound build sha s false w))
              (λ hash.
                if_rule (IsSound build sha) (not p.ota_end) (λ _. fail-IsSound build sha _ _ ended)
                  (λ _.
                    if_rule (IsSound build sha) (not p.set_boot)
                      (λ _. fail-IsSound build sha _ _ ended)
                      (λ _.
                        let (same, size, still, fits) = w.begun (ground arith) in
                        let matched : p.sha256 s.sha_input ≡ s.header.image_sha256 =
                          (bytes_eq_iff (p.sha256 s.sha_input) s.header.image_sha256).0
                            (ground arith) in
                        record {
                          chosen = w.chosen;
                          incomplete = λ h. absurd (ground (arith, w.incomplete h));
                          begun = λ h. ground arith;
                          ready = λ _. (
                            ap sha (sym same) ∙ sym (good.hashes s.sha_input) ∙ matched,
                            ground (arith, size),
                            fits,
                          );
                        })))))
  where
    ended :
        IsSound build sha (record s {
          state = verifying;
          error = no_error;
          sha256_active = false;
          ota_begun = false;
        })
    ended = record {
      chosen = w.chosen;
      incomplete = λ h. ((w.incomplete h).0, refl, refl);
      begun = λ h. ground arith;
      ready = λ h. ground arith;
    }

pub control_write-IsSound :
    (build : Build) (sha : List ℕ → List ℕ) (p : Platform) (s : OtaState) (bytes : List ℕ) (now : ℕ)
    → IsPlatform sha p
    → IsSound build sha s
    → IsSound build sha (control_write build p s bytes now)
unfolding control_write
control_write-IsSound build sha p s bytes now good w =
    if_rule (IsSound build sha) (length bytes == 0) (λ _. fail-IsSound build sha _ s w)
      (λ _.
        if_rule (IsSound build sha) (byte_at bytes 0 == 1)
          (λ _. handle_prepare-IsSound build sha p s bytes w)
          (λ _.
            if_rule (IsSound build sha) (byte_at bytes 0 == 2)
              (λ _. handle_commit-IsSound build sha p s now good w)
              (λ _.
                if_rule (IsSound build sha) (byte_at bytes 0 == 3)
                  (λ _. fail-IsSound build sha _ s w) (λ _. fail-IsSound build sha _ s w))))

pub data_write-IsSound :
    (build : Build) (sha : List ℕ → List ℕ) (p : Platform) (s : OtaState) (bytes : List ℕ)
    → IsPlatform sha p
    → IsSound build sha s
    → IsSound build sha (data_write build p s bytes)
unfolding data_write
data_write-IsSound build sha p s bytes good w =
    if_rule (IsSound build sha) (ltb (length bytes) 4) (λ _. fail-IsSound build sha _ s w)
      (λ _.
        if_rule (IsSound build sha) (not (read_u32 bytes 0 == s.image_bytes_received))
          (λ _. fail-IsSound build sha _ s w)
          (λ _. write_image_bytes-IsSound build sha p s (drop 4 bytes) good w))

pub on_disconnect-IsSound :
    (build : Build) (sha : List ℕ → List ℕ) (s : OtaState)
    → IsSound build sha s
    → IsSound build sha (on_disconnect s)
unfolding on_disconnect
on_disconnect-IsSound build sha s w = by_state s.state
  where
    by_state :
        (st : WorkerOtaState)
        → IsSound build sha (elim st [
          | prepared ↦ fail aborted s
          | writing ↦ fail aborted s
          | verifying ↦ fail aborted s
          | _ ↦ s
        ])
    by_state idle = w
    by_state prepared = fail-IsSound build sha aborted s w
    by_state writing = fail-IsSound build sha aborted s w
    by_state verifying = fail-IsSound build sha aborted s w
    by_state ready_to_reboot = w
    by_state failed = w
