-- ===== src/Examples/MainUpdate.antt =====
-- An update of the main device, by the calls of main/src/ota_manager.cpp.
use plant_watering.Prelude.{ℕ, ◌≡◌, refl, true, List, [], ◌∷◌, ◌++◌, replicate, take, drop, arith}
use plant_watering.Prelude.Bytes.{bytes_eq}
use plant_watering.Prelude.Words.{reached32}
use plant_watering.Policy.FirmwareVersion.{firmware_version_decision}
use plant_watering.Ota.Package.{parse_header, check_fields, reserved_clear}
use plant_watering.Ota.MainManager.{
  MainManager, fail, reset_session, upload_start, on_decision, check_version, parse_package_header,
  begin_write, begin_image_write, write_image_data, consume_image, consume_package, upload_consume,
  verify, upload_finish, ota_manager_loop,
}
use plant_watering.Ota.MainManager.Reached.{
  start, Reached, booted, started, consumed, finished, Verified, ota_manager_loop-Verified,
}
use plant_watering.Examples.Devices.{build, hash, platform, platform-IsPlatform}

-- A package for the main device, with an image of three bytes.
abbrev firmware : List ℕ
firmware =
    b'P'
    ∷ b'W'
    ∷ b'O'
    ∷ b'T'
    ∷ b'A'
    ∷ b'0'
    ∷ b'0'
    ∷ b'1'
    ∷ 1
    ∷ 0
    ∷ 64
    ∷ 0
    ∷ 1
    ∷ 1
    ∷ 2
    ∷ 1
    ∷ 7
    ∷ 0
    ∷ 0
    ∷ 0
    ∷ 3
    ∷ 0
    ∷ 0
    ∷ 0
    ∷ (replicate 32 9 ++ (replicate 8 0 ++ (21 ∷ 22 ∷ 23 ∷ [])))

-- In two chunks, the first of which ends in the prefix of the image.
abbrev updated : MainManager
updated =
    (upload_finish build platform
      (upload_consume build platform
        (upload_consume build platform (upload_start 100000 50000 start).0 (take 65 firmware)).0
        (drop 65 firmware)).0
      10).0

updated-Reached : Reached build hash updated
updated-Reached = finished platform 10 platform-IsPlatform (
    consumed platform (drop 65 firmware) platform-IsPlatform
      (consumed platform (take 65 firmware) platform-IsPlatform (started 100000 50000 booted)))

updated_restarts : (ota_manager_loop updated 3000).1 ≡ true
unfolding fail reset_session upload_start on_decision check_version parse_package_header begin_write
    begin_image_write write_image_data consume_image consume_package upload_consume verify
    upload_finish ota_manager_loop parse_header check_fields reserved_clear bytes_eq
    firmware_version_decision
updated_restarts = refl

ota_manager_loop-Verified_example :
    (reached32 3000 updated.reboot_at_ms ≡ true) × Verified build hash (omega arith) updated
ota_manager_loop-Verified_example =
    ota_manager_loop-Verified build hash (omega arith) updated 3000 updated-Reached updated_restarts
