-- ===== src/Ota/WorkerManager/Upload/HeaderBytes.antt =====
-- The header of a package and the bytes behind it, in workerOtaPackageUploadConsume of
-- main/src/worker_ota_manager.cpp.
use mathlib.Core.List.{append-nil}
use plant_watering.Prelude.{
  ℕ, ◌+◌, ◌≤◌, ◌≡◌, refl, sym, ap, ◌∙◌, Bool, true, false, not, List, [], ◌∷◌, ◌++◌, some, ltb,
  ◌==◌, if◌then◌else◌, length, take, drop, arith, Bool-cases, inl, inr, if_rule, take-append_long,
  length-take,
}
use plant_watering.Prelude.Bytes.{bytes_eq}
use plant_watering.Ota.Package.{
  Header, ParseError, header_size, parse_header, parse_worker_header, magic,
}
use plant_watering.Ota.WorkerManager.{
  WorkerManager, worker_ota_slot_size, no_header, is_none, header_of,
}
use plant_watering.Ota.WorkerManager.Upload.{check_header, consume_image}

-- LFS_FILE_MAX: no file of the file system is longer.
abbrev pub file_max : ℕ
file_max = 2147483647

-- The manager while the bytes `t` of a package have come.
pub record Received (t : List ℕ) (m : WorkerManager) : Type 0 where
  pub held : m.temp_file ≡ some t
  pub header : m.header_received ≡ take header_size t
  pub hashed : m.sha_input ≡ drop header_size t
  pub counted : m.status.package_bytes_received ≡ length t
  pub bounded : length t ≤ file_max
  pub parsed : header_size ≤ length t → header_of t ≡ some m.parsed_header

-- A header that is accepted is read whatever was in the output before.
pub parse_worker_header-out :
    (bytes : List ℕ) (maximum : ℕ) (out out' : Header)
    → is_none (parse_worker_header bytes maximum out).0 ≡ true
    → parse_worker_header bytes maximum out' ≡ parse_worker_header bytes maximum out
unfolding parse_header
parse_worker_header-out bytes maximum out out' h = elim (Bool-cases (length bytes == header_size)) [
  | inr l ↦ absurd (ground (arith, h, l))
  | inl l ↦ elim (Bool-cases (bytes_eq (take 8 bytes) magic)) [
    | inr m ↦ absurd (ground (arith, h, l, m))
    | inl m ↦ rw (l, m) refl
  ]
]

-- The result of the checks on the header.
abbrev pub read_header : WorkerManager → ParseError × Header
read_header m = parse_worker_header m.header_received worker_ota_slot_size m.parsed_header

-- What the checks of the header leave alone.
abbrev pub SameBytes : WorkerManager → WorkerManager → Type 0
SameBytes m m' =
    (m'.temp_file ≡ m.temp_file)
    × (m'.header_received ≡ m.header_received)
    × (m'.sha_input ≡ m.sha_input)
    × (m'.status.package_bytes_received ≡ m.status.package_bytes_received)
    × (m'.stored_file ≡ m.stored_file)
    × (m'.upload_open ≡ m.upload_open)
    × (m'.status.active ≡ m.status.active)
    × (m'.storage_available ≡ m.storage_available)
    × (m'.upload_capacity_bytes ≡ m.upload_capacity_bytes)

pub check_header-SameBytes :
    (m : WorkerManager)
    → SameBytes m (check_header m).0
      × ((check_header m).0.parsed_header ≡ (read_header m).1)
      × ((check_header m).1 ≡ true → is_none (read_header m).0 ≡ true)
unfolding check_header
check_header-SameBytes m =
    if_rule Goal (not (is_none (read_header m).0))
      (λ bad. (
        (refl, refl, refl, refl, refl, refl, refl, refl, refl),
        refl,
        λ ok. absurd (ground (arith, ok)),
      ))
      (λ good.
        if_rule Goal (ltb m.upload_capacity_bytes (header_size + (read_header m).1.image_size))
          (λ _. (
            (refl, refl, refl, refl, refl, refl, refl, refl, refl),
            refl,
            λ ok. absurd (ground (arith, ok)),
          ))
          (λ _. (
            (refl, refl, refl, refl, refl, refl, refl, refl, refl),
            refl,
            λ _. ground (arith, good),
          )))
  where
    Goal : WorkerManager × Bool → Type 0
    Goal r =
        SameBytes m r.0
        × (r.0.parsed_header ≡ (read_header m).1)
        × (r.1 ≡ true → is_none (read_header m).0 ≡ true)

header_of-read_header :
    (m : WorkerManager) (t : List ℕ)
    → m.header_received ≡ take header_size t
    → is_none (read_header m).0 ≡ true
    → header_of t ≡ some (read_header m).1
unfolding header_of
header_of-read_header m t e good =
    let same =
      parse_worker_header-out m.header_received worker_ota_slot_size m.parsed_header no_header
        good in
    rw (← e, same, good) refl

check_header-header_of :
    (m : WorkerManager) (t : List ℕ)
    → m.header_received ≡ take header_size t
    → (check_header m).1 ≡ true
    → header_of t ≡ some (check_header m).0.parsed_header
check_header-header_of m t e ok =
    let (same, parsed, good) = check_header-SameBytes m in
    rw parsed (header_of-read_header m t e (good ok))

-- The bytes of the header do not depend on what follows.
pub header_of-append :
    (t bytes : List ℕ) → header_size ≤ length t → header_of (t ++ bytes) ≡ header_of t
unfolding header_of
header_of-append t bytes h = rw (take-append_long header_size t bytes h) refl

-- The bytes behind the header, where `f` is what has come with them.
pub consume_image-Received :
    (f bytes : List ℕ) (sha_update : Bool) (m : WorkerManager)
    → m.temp_file ≡ some f
    → m.header_received ≡ take header_size f
    → m.sha_input ++ bytes ≡ drop header_size f
    → m.status.package_bytes_received ≡ length f
    → length f ≤ file_max
    → header_of f ≡ some m.parsed_header
    → (consume_image sha_update m bytes).1 ≡ true
    → Received f (consume_image sha_update m bytes).0
unfolding consume_image
consume_image-Received f [] sha_update m held header hashed counted bounded parsed ok = record {
  held = held;
  header = header;
  hashed = sym (append-nil m.sha_input) ∙ hashed;
  counted = counted;
  bounded = bounded;
  parsed = λ _. parsed;
}
consume_image-Received f (b ∷ bytes) true m held header hashed counted bounded parsed ok =
    rw nonempty (record {
      held = held;
      header = header;
      hashed = hashed;
      counted = counted;
      bounded = bounded;
      parsed = λ _. parsed;
    })
  where
    nonempty : (length (b ∷ bytes) == 0) ≡ false
    nonempty = ground arith
consume_image-Received f (b ∷ bytes) false m held header hashed counted bounded parsed ok =
    absurd (ground (arith, ok))

-- The result of a call that has taken the bytes up to `f`.
abbrev pub Takes : List ℕ → WorkerManager × Bool → Type 0
Takes f r = r.1 ≡ true → Received f r.0

-- A complete header, and the bytes behind it.
pub header_checked-Takes :
    (f rest : List ℕ) (sha_update : Bool) (m : WorkerManager)
    → m.temp_file ≡ some f
    → m.header_received ≡ take header_size f
    → m.sha_input ++ rest ≡ drop header_size f
    → m.status.package_bytes_received ≡ length f
    → length f ≤ file_max
    → Takes f (
        if (check_header m).1
        then consume_image sha_update (check_header m).0 rest
        else ((check_header m).0, false))
header_checked-Takes f rest sha_update m held header hashed counted bounded =
    let (same, parsed, good) = check_header-SameBytes m in
    if_rule (Takes f) (check_header m).1
      (λ ok.
        consume_image-Received f rest sha_update (check_header m).0 (same.0 ∙ held)
          (same.1 ∙ header) (ap (λ l. l ++ rest) same.2 ∙ hashed) (same.3 ∙ counted) bounded
          (check_header-header_of m f header ok))
      (λ _ e. absurd (ground (arith, e)))

-- An incomplete header: nothing lies behind it.
pub header_incomplete-Takes :
    (f rest : List ℕ) (sha_update : Bool) (m : WorkerManager)
    → m.temp_file ≡ some f
    → m.header_received ≡ take header_size f
    → m.sha_input ++ rest ≡ drop header_size f
    → m.status.package_bytes_received ≡ length f
    → length f ≤ file_max
    → (length m.header_received == header_size) ≡ false
    → rest ≡ []
    → Takes f (consume_image sha_update m rest)
unfolding consume_image
header_incomplete-Takes f rest sha_update m held header hashed counted bounded part none_left =
    rw none_left (λ _. record {
      held = held;
      header = header;
      hashed = sym (append-nil m.sha_input) ∙ ap (λ l. m.sha_input ++ l) (sym none_left) ∙ hashed;
      counted = counted;
      bounded = bounded;
      parsed = λ long. absurd (
          ground
            (arith, part, ap (λ (l : List ℕ). length l) header, length-take header_size f long));
    })
