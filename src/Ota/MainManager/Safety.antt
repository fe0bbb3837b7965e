-- ===== src/Ota/MainManager/Safety.antt =====
-- What main/src/ota_manager.cpp has checked before the main device restarts into a new firmware.
use plant_watering.Prelude.{
  ℕ, ◌+◌, ◌%◌, ◌<◌, ◌≡◌, refl, sym, ap, ◌∙◌, Bool, true, false, not, ◌||◌, List, ltb, ◌==◌, length,
  String, arith, if_rule, not-false,
}
use plant_watering.Prelude.Bytes.{bytes_eq, bytes_eq_iff}
use plant_watering.Prelude.Words.{u32_mod}
use plant_watering.Ota.Package.{header_size}
use plant_watering.Ota.MainManager.{
  verifying, update_state, min_free_heap_to_start, min_largest_block_to_start, MainManager,
  is_failed, is_ready, reset_session, upload_start, verify, upload_finish, upload_abort,
  release_failed_upload,
}
use plant_watering.Worker.OtaService.{Build, Platform}
use plant_watering.Worker.OtaService.Safety.{IsPlatform}
use plant_watering.Ota.MainManager.Phase.{
  Fits, IsAllowed, Phase, Result, broken, fail-Phase, header_open, prefix_open, receiving, verified,
  writes,
}

begun_of : (begun other : Bool) → (not begun || other) ≡ false → begun ≡ true
begun_of begun other e = ground arith

size_of : (m n : ℕ) (other : Bool) → (not (m == n) || other) ≡ false → m ≡ n
size_of m n other e = ground arith

module _ (build : Build) (sha : List ℕ → List ℕ) where
  pub upload_start-Phase :
      (heap block : ℕ) (m : MainManager)
      → 0 < build.image_prefix_size
      → Phase build sha m
      → Result build sha (upload_start heap block m)
  unfolding upload_start reset_session
  upload_start-Phase heap block m some_prefix phase =
      if_rule (Result build sha) m.status.active (λ _. phase)
        (λ _.
          if_rule (Result build sha) (ltb heap min_free_heap_to_start)
            (λ _. fail-Phase build sha "insufficient_free_heap" (reset_session heap block m))
            (λ _.
              if_rule (Result build sha) (ltb block min_largest_block_to_start)
                (λ _.
                  fail-Phase build sha "largest_heap_block_too_small" (reset_session heap block m))
                (λ _.
                  receiving (refl, refl) refl refl (ground (arith, some_prefix))
                    (λ e. absurd (ground (arith, e))))))

  -- The end of an image that is complete.
  verify-Phase :
      (p : Platform) (m : MainManager) (now : ℕ)
      → IsPlatform sha p
      → (header_open m ≡ false) × (prefix_open build m ≡ false)
      → m.sha_input ≡ m.flash
      → length m.flash ≡ m.status.image_bytes_received
      → m.status.image_bytes_received ≡ m.parsed_header.image_size
      → Fits m
      → IsAllowed build m.parsed_header
      → Result build sha (verify p m now)
  unfolding verify
  verify-Phase p m now good full same size all fits allowed =
      let checking = update_state verifying m in
      let hashed = record checking { sha256_active = false } in
      let ended = record hashed { ota_begun = false } in
      if_rule (Result build sha) (not p.sha_finish)
        (λ _. fail-Phase build sha "sha256_finish_failed" checking)
        (λ _.
          if_rule (Result build sha)
            (not (bytes_eq (p.sha256 m.sha_input) m.parsed_header.image_sha256))
            (λ _. fail-Phase build sha "sha256_mismatch" hashed)
            (λ matches.
              if_rule (Result build sha) (not p.ota_end)
                (λ _. fail-Phase build sha "ota_image_validation_failed" ended)
                (λ _.
                  if_rule (Result build sha) (not p.set_boot)
                    (λ _. fail-Phase build sha "set_boot_partition_failed" ended)
                    (λ _.
                      verified (refl, refl) full refl all (size ∙ all)
                        (ap sha (sym same)
                          ∙ sym (good.hashes m.sha_input)
                          ∙ (bytes_eq_iff _ _).0 (not-false _ matches))
                        fits allowed))))

  pub upload_finish-Phase :
      (p : Platform) (m : MainManager) (now : ℕ)
      → IsPlatform sha p
      → Phase build sha m
      → Result build sha (upload_finish build p m now)
  unfolding upload_finish
  upload_finish-Phase p m now good phase =
      if_rule (Result build sha) (is_failed m.status.state) (λ _. phase)
        (λ sane.
          if_rule (Result build sha)
            (not m.ota_begun
              || (not (length m.package_header == header_size)
                  || not (length m.image_prefix == build.image_prefix_size)))
            (λ _. fail-Phase build sha "incomplete_upload" m)
            (λ there.
              if_rule (Result build sha)
                (not (m.status.image_bytes_received == m.parsed_header.image_size)
                  || not (
                      m.status.package_bytes_received
                      == (header_size + m.parsed_header.image_size) % u32_mod))
                (λ _. fail-Phase build sha "image_size_mismatch" m)
                (λ sized. whole sane (begun_of _ _ there) (size_of _ _ _ sized) phase)))
    where
      whole :
          is_failed m.status.state ≡ false
          → m.ota_begun ≡ true
          → m.status.image_bytes_received ≡ m.parsed_header.image_size
          → Phase build sha m
          → Result build sha (verify p m now)
      whole sane begun all (broken f b) = absurd (ground (arith, sane, f))
      whole sane begun all (receiving c b z o a) = absurd (ground (arith, begun, b))
      whole sane begun all (writes c o same size f a) =
          verify-Phase p m now good o same size all f a
      whole sane begun all (verified s c b z l h f a) = absurd (ground (arith, begun, b))

  pub upload_abort-Phase :
      (reason : String) (m : MainManager)
      → Phase build sha m
      → Phase build sha (upload_abort reason m)
  unfolding upload_abort
  upload_abort-Phase reason m phase =
      if_rule (Phase build sha) (is_ready m.status.state) (λ _. phase)
        (λ _. fail-Phase build sha reason m)

  pub release_failed_upload-Phase :
      (m : MainManager) → Phase build sha m → Phase build sha (release_failed_upload m)
  unfolding release_failed_upload
  release_failed_upload-Phase m phase =
      if_rule (Phase build sha) (is_failed m.status.state) (λ f. broken f (not_begun f phase))
        (λ _. phase)
    where
      not_begun : is_failed m.status.state ≡ true → Phase build sha m → m.ota_begun ≡ false
      not_begun f (broken g b) = b
      not_begun f (receiving c b z o a) = b
      not_begun f (writes c o same size g a) = absurd (ground (arith, f, c))
      not_begun f (verified s c b z l h g a) = b
