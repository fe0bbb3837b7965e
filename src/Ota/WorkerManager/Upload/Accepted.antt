-- ===== src/Ota/WorkerManager/Upload/Accepted.antt =====
-- When main/src/worker_ota_manager.cpp takes a chunk, and what a chunk leaves alone.
use plant_watering.Prelude.{
  ℕ, ◌+◌, ◌-◌, ◌≤◌, ◌<◌, ◌≡◌, ◌≢◌, refl, ap, ◌∙◌, Bool, true, false, not, ◌||◌, List, ◌++◌, some,
  ltb, leb, ◌==◌, if◌then◌else◌, length, take, drop, arith, Bool-cases, inl, inr, if_rule,
  length-take, ltb→lt, ltb→ge, subst, take_all,
}
use plant_watering.Prelude.Bytes.{bytes_eq}
use plant_watering.Ota.Package.{
  Header, ParseError, header_size, parse_worker_header, parse_header, check_fields, read_fields,
  magic, role_worker,
}
use plant_watering.Ota.WorkerManager.{
  WorkerManager, worker_ota_slot_size, no_header, is_none, header_of,
}
use plant_watering.Ota.WorkerManager.Upload.{
  check_header, consume_header, consume_image, consume_bytes, Writing, package_upload_consume,
}
use plant_watering.Ota.WorkerManager.Upload.HeaderBytes.{
  Received, read_header, parse_worker_header-out, check_header-SameBytes,
}
use plant_watering.Ota.WorkerManager.Upload.Chunks.{
  Counted, written_counted, written_counted-Counted, header_of_chunk,
}

-- What every chunk leaves alone, taken or not.
abbrev pub KeepsOpen : WorkerManager → WorkerManager → Type 0
KeepsOpen m m' =
    (m'.upload_open ≡ m.upload_open)
    × (m'.upload_capacity_bytes ≡ m.upload_capacity_bytes)
    × (m'.stored_file ≡ m.stored_file)
    × (m'.status.active ≡ m.status.active)
    × (m'.storage_available ≡ m.storage_available)

KeepsOpen-trans : (m m1 m2 : WorkerManager) → KeepsOpen m m1 → KeepsOpen m1 m2 → KeepsOpen m m2
KeepsOpen-trans m m1 m2 (a, b, c, d, e) (a', b', c', d', e') =
    (a' ∙ a, b' ∙ b, c' ∙ c, d' ∙ d, e' ∙ e)

consume_image-KeepsOpen :
    (sha_update : Bool) (m : WorkerManager) (bytes : List ℕ)
    → KeepsOpen m (consume_image sha_update m bytes).0
unfolding consume_image
consume_image-KeepsOpen sha_update m bytes =
    if_rule Goal (length bytes == 0) (λ _. (refl, refl, refl, refl, refl))
      (λ _.
        if_rule Goal (not sha_update) (λ _. (refl, refl, refl, refl, refl))
          (λ _. (refl, refl, refl, refl, refl)))
  where
    Goal : WorkerManager × Bool → Type 0
    Goal r = KeepsOpen m r.0

consume_header-KeepsOpen :
    (m : WorkerManager) (bytes : List ℕ) → KeepsOpen m (consume_header m bytes).0
unfolding consume_header
consume_header-KeepsOpen m bytes =
    let longer = record m {
      header_received = m.header_received ++ take (header_size - length m.header_received) bytes;
    } in
    let (same, parsed, good) = check_header-SameBytes longer in
    if_rule (λ (r : WorkerManager × Bool). KeepsOpen m r.0)
      (length longer.header_received == header_size) (λ _. (same.5, same.8, same.4, same.6, same.7))
      (λ _. (refl, refl, refl, refl, refl))

consume_bytes-KeepsOpen :
    (sha_update : Bool) (m : WorkerManager) (bytes : List ℕ)
    → KeepsOpen m (consume_bytes sha_update m bytes).0
unfolding consume_bytes
consume_bytes-KeepsOpen sha_update m bytes =
    let m' = (consume_header m bytes).0 in
    let kept = consume_header-KeepsOpen m bytes in
    let rest = drop (header_size - length m.header_received) bytes in
    if_rule (λ (r : WorkerManager × Bool). KeepsOpen m r.0)
      (ltb (length m.header_received) header_size)
      (λ _.
        if_rule (λ (r : WorkerManager × Bool). KeepsOpen m r.0) (consume_header m bytes).1
          (λ _.
            KeepsOpen-trans m m' (consume_image sha_update m' rest).0 kept
              (consume_image-KeepsOpen sha_update m' rest))
          (λ _. kept))
      (λ _. consume_image-KeepsOpen sha_update m bytes)

pub package_upload_consume-KeepsOpen :
    (w : Writing) (m : WorkerManager) (bytes : List ℕ)
    → KeepsOpen m (package_upload_consume w m bytes).0
unfolding package_upload_consume
package_upload_consume-KeepsOpen w m bytes =
    if_rule (λ (r : WorkerManager × Bool). KeepsOpen m r.0) (length bytes == 0 || not m.upload_open)
      (λ _. (refl, refl, refl, refl, refl))
      (λ _.
        if_rule (λ (r : WorkerManager × Bool). KeepsOpen m r.0) (not (w.written == length bytes))
          (λ _. (refl, refl, refl, refl, refl))
          (λ _.
            KeepsOpen-trans m (written_counted w m bytes)
              (consume_bytes w.sha_update (written_counted w m bytes) bytes).0
              (refl, refl, refl, refl, refl)
              (consume_bytes-KeepsOpen w.sha_update (written_counted w m bytes) bytes)))

-- The header of a file, where it has one.
pub header_of-inv :
    (f : List ℕ) (h : Header)
    → header_of f ≡ some h
    → let r = parse_worker_header (take header_size f) worker_ota_slot_size no_header in
      (is_none r.0 ≡ true) × (r.1 ≡ h)
unfolding header_of
header_of-inv f h e =
    let r = parse_worker_header (take header_size f) worker_ota_slot_size no_header in
    elim (Bool-cases (is_none r.0)) [
      | inl good ↦ (good, ground (arith, e, good))
      | inr bad ↦ absurd (ground (arith, e, bad))
    ]

check_fields-image_size :
    (bytes : List ℕ) (role hardware : ℕ) (check_hardware : Bool) (maximum : ℕ) (h : Header)
    → is_none (check_fields bytes role hardware check_hardware maximum h) ≡ true
    → h.image_size ≤ maximum
unfolding check_fields
check_fields-image_size bytes role hardware check_hardware maximum h e = ground arith

-- An accepted header names an image that fits.
parse_worker_header-image_size :
    (bytes : List ℕ) (maximum : ℕ) (out : Header)
    → is_none (parse_worker_header bytes maximum out).0 ≡ true
    → (parse_worker_header bytes maximum out).1.image_size ≤ maximum
unfolding parse_header
parse_worker_header-image_size bytes maximum out =
    if_rule Goal (not (length bytes == header_size)) (λ _ e. absurd (ground (arith, e)))
      (λ _.
        if_rule Goal (not (bytes_eq (take 8 bytes) magic)) (λ _ e. absurd (ground (arith, e)))
          (λ _. check_fields-image_size bytes role_worker 0 false maximum (read_fields bytes)))
  where
    Goal : ParseError × Header → Type 0
    Goal (error, h) = is_none error ≡ true → h.image_size ≤ maximum

pub header_of-image_size :
    (f : List ℕ) (h : Header) → header_of f ≡ some h → h.image_size ≤ worker_ota_slot_size
header_of-image_size f h e =
    let (good, is) = header_of-inv f h e in
    subst (λ (h : Header). h.image_size ≤ worker_ota_slot_size) is
      (parse_worker_header-image_size (take header_size f) worker_ota_slot_size no_header good)

-- The header fits the space that is left for the package.
abbrev pub HasHeader : List ℕ → ℕ → Type 0
HasHeader f capacity =
    (h : Header) × (header_of f ≡ some h) × (header_size + h.image_size ≤ capacity)

check_header-accepts :
    (m : WorkerManager) (f : List ℕ)
    → m.header_received ≡ take header_size f
    → HasHeader f m.upload_capacity_bytes
    → (check_header m).1 ≡ true
unfolding check_header
check_header-accepts m f e (h, found, room) =
    let (good, is) = header_of-inv f h found in
    let same : read_header m
        ≡ parse_worker_header (take header_size f) worker_ota_slot_size no_header =
      ap (λ l. parse_worker_header l worker_ota_slot_size m.parsed_header) e
      ∙ parse_worker_header-out (take header_size f) worker_ota_slot_size no_header m.parsed_header
          good in
    let good' : is_none (read_header m).0 ≡ true = ap (λ r. is_none r.0) same ∙ good in
    let is' : (read_header m).1 ≡ h = ap (λ r. r.1) same ∙ is in
    if_rule (λ (r : WorkerManager × Bool). r.1 ≡ true) (not (is_none (read_header m).0))
      (λ b. absurd (ground (arith, b, good')))
      (λ _.
        if_rule (λ (r : WorkerManager × Bool). r.1 ≡ true)
          (ltb m.upload_capacity_bytes (header_size + (read_header m).1.image_size))
          (λ big. absurd (omega (arith, ltb→lt _ _ big, ap (λ h. h.image_size) is', room)))
          (λ _. refl))

abbrev Succeeds : WorkerManager × Bool → Type 0
Succeeds r = r.1 ≡ true

consume_image-Succeeds :
    (m : WorkerManager) (bytes : List ℕ) → Succeeds (consume_image true m bytes)
unfolding consume_image
consume_image-Succeeds m bytes = if_rule Succeeds (length bytes == 0) (λ _. refl) (λ _. refl)

-- A chunk is hashed unless its header is refused.
consume_bytes-Succeeds :
    (t bytes : List ℕ) (m : WorkerManager)
    → Counted t bytes m
    → (header_size ≤ length (t ++ bytes) → HasHeader (t ++ bytes) m.upload_capacity_bytes)
    → Succeeds (consume_bytes true m bytes)
unfolding consume_bytes consume_header
consume_bytes-Succeeds t bytes m (held, header, hashed, counted, bounded) good =
    let missing = header_size - length m.header_received in
    let longer = record m { header_received = m.header_received ++ take missing bytes } in
    if_rule Succeeds (ltb (length m.header_received) header_size)
      (λ short.
        if_rule
          (λ (r : WorkerManager × Bool).
            Succeeds (if r.1 then consume_image true r.0 (drop missing bytes) else (r.0, false)))
          (length longer.header_received == header_size)
          (λ full.
            let header' = header_of_chunk t bytes m (few short) (all short) in
            let checked =
              check_header-accepts longer (t ++ bytes) header' (good (long header' full)) in
            rw checked (consume_image-Succeeds (check_header longer).0 (drop missing bytes)))
          (λ _. consume_image-Succeeds longer (drop missing bytes)))
      (λ _. consume_image-Succeeds m bytes)
  where
    few : ltb (length m.header_received) header_size ≡ true → length t < header_size
    few short = elim (Bool-cases (ltb (length t) header_size)) [
      | inl h ↦ ltb→lt _ _ h
      | inr h ↦ absurd (
          omega (
            arith,
            ltb→lt _ _ short,
            ap (λ (l : List ℕ). length l) header,
            length-take header_size t (ltb→ge _ _ h),
          ))
    ]

    all : ltb (length m.header_received) header_size ≡ true → m.header_received ≡ t
    all short = header ∙ take_all header_size t (omega (arith, few short))

    long :
        {l : List ℕ}
        → l ≡ take header_size (t ++ bytes)
        → (length l == header_size) ≡ true
        → header_size ≤ length (t ++ bytes)
    long {l} e full = elim (Bool-cases (leb header_size (length (t ++ bytes)))) [
      | inl h ↦ ground (arith, h)
      | inr h ↦ absurd (
          ground (
            arith,
            full,
            h,
            ap (λ (l : List ℕ). length l)
                (e ∙ take_all header_size (t ++ bytes) (ground (arith, h))),
          ))
    ]

-- A chunk of a package that fits is taken, where the file system and the hash do their part.
pub package_upload_consume-Succeeds :
    (t bytes : List ℕ) (w : Writing) (m : WorkerManager)
    → Received t m
    → m.upload_open ≡ true
    → length bytes ≢ 0
    → w.written ≡ length bytes
    → w.sha_update ≡ true
    → length t + w.written ≤ 2147483647
    → (header_size ≤ length (t ++ bytes) → HasHeader (t ++ bytes) m.upload_capacity_bytes)
    → Succeeds (package_upload_consume w m bytes)
unfolding package_upload_consume
package_upload_consume-Succeeds t bytes w m r is_open some_bytes whole hashes room good =
    if_rule Succeeds (length bytes == 0 || not m.upload_open)
      (λ e. absurd (ground (arith, e, is_open, some_bytes)))
      (λ _.
        if_rule Succeeds (not (w.written == length bytes)) (λ e. absurd (ground (arith, e, whole)))
          (λ _. rw hashes (
            consume_bytes-Succeeds t bytes (written_counted w m bytes)
              (written_counted-Counted t bytes w m r room whole) good)))
