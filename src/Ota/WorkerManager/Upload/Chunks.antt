-- ===== src/Ota/WorkerManager/Upload/Chunks.antt =====
-- What the chunks of a package leave in main/src/worker_ota_manager.cpp: the same, however the
-- package is cut.

use plant_watering.Prelude.{
  ℕ, ◌+◌, ◌-◌, ◌%◌, ◌≤◌, ◌<◌, ◌≡◌, sym, ap, ◌∙◌, Bool, false, not, ◌||◌, List, [], ◌++◌, Option,
  none, some, ltb, ◌==◌, if◌then◌else◌, length, take, drop, arith, Bool-cases, inl, inr, if_rule,
  length-append, take_all, take-append_short, take-append_long, drop-append_long, drop-append_right,
  drop_all, length-take, ltb→lt, ltb→ge,
}
use plant_watering.Prelude.Words.{u32_mod}
use plant_watering.Ota.Package.{header_size}
use plant_watering.Ota.WorkerManager.{WorkerManager, header_of}
use plant_watering.Ota.WorkerManager.Upload.{
  consume_header, consume_image, consume_bytes, Writing, package_upload_consume,
}
use plant_watering.Ota.WorkerManager.Upload.HeaderBytes.{
  file_max, Received, header_of-append, consume_image-Received, Takes, header_checked-Takes,
  header_incomplete-Takes,
}

-- A chunk `bytes` behind the bytes `t`, where `m` has it written and counted.
module _ (t bytes : List ℕ) (m : WorkerManager) where
  abbrev pub Counted : Type 0
  Counted =
      (m.temp_file ≡ some (t ++ bytes))
      × (m.header_received ≡ take header_size t)
      × (m.sha_input ≡ drop header_size t)
      × (m.status.package_bytes_received ≡ length (t ++ bytes))
      × (length (t ++ bytes) ≤ file_max)

  consume_bytes-long :
      (sha_update : Bool)
      → header_size ≤ length t
      → Counted
      → header_of t ≡ some m.parsed_header
      → Takes (t ++ bytes) (consume_bytes sha_update m bytes)
  unfolding consume_bytes
  consume_bytes-long sha_update long (held, header, hashed, counted, bounded) parsed =
      let full = ap (λ (l : List ℕ). length l) header ∙ length-take header_size t long in
      if_rule (Takes (t ++ bytes)) (ltb (length m.header_received) header_size)
        (λ e. absurd (ground (arith, e, full)))
        (λ _.
          consume_image-Received (t ++ bytes) bytes sha_update m held
            (header ∙ sym (take-append_long header_size t bytes long))
            (ap (λ l. l ++ bytes) hashed ∙ sym (drop-append_long header_size t bytes long)) counted
            bounded (header_of-append t bytes long ∙ parsed))

  -- The bytes behind the header are what is left of the chunk.
  rest_of_chunk :
      length t < header_size
      → m.header_received ≡ t
      → m.sha_input ≡ drop header_size t
      → m.sha_input ++ drop (header_size - length m.header_received) bytes
        ≡ drop header_size (t ++ bytes)
  rest_of_chunk short header hashed =
      let empty = hashed ∙ drop_all header_size t (omega arith) in
      rw (empty, header)
        (sym (drop-append_right t bytes header_size (header_size - length t) (omega arith)))

  pub header_of_chunk :
      length t < header_size
      → m.header_received ≡ t
      → m.header_received ++ take (header_size - length m.header_received) bytes
        ≡ take header_size (t ++ bytes)
  header_of_chunk short header =
      rw header (sym (take-append_short header_size t bytes (omega arith)))

  consume_bytes-short :
      (sha_update : Bool)
      → length t < header_size
      → Counted
      → Takes (t ++ bytes) (consume_bytes sha_update m bytes)
  unfolding consume_bytes consume_header
  consume_bytes-short sha_update short (held, header, hashed, counted, bounded) =
      let all : m.header_received ≡ t = header ∙ take_all header_size t (omega arith) in
      let missing = header_size - length m.header_received in
      let longer = record m { header_received = m.header_received ++ take missing bytes } in
      let header' = header_of_chunk short all in
      let rest = rest_of_chunk short all hashed in
      if_rule (Takes (t ++ bytes)) (ltb (length m.header_received) header_size)
        (λ _.
          if_rule
            (λ (r : WorkerManager × Bool).
              Takes (t ++ bytes)
                (if r.1 then consume_image sha_update r.0 (drop missing bytes) else (r.0, false)))
            (length longer.header_received == header_size)
            (λ _.
              header_checked-Takes (t ++ bytes) (drop missing bytes) sha_update longer held header'
                rest counted bounded)
            (λ part.
              header_incomplete-Takes (t ++ bytes) (drop missing bytes) sha_update longer held
                header' rest counted bounded part (nothing_behind all header' part)))
        (λ e. absurd (ground (arith, e, all)))
    where
      nothing_behind :
          m.header_received ≡ t
          → m.header_received ++ take (header_size - length m.header_received) bytes
            ≡ take header_size (t ++ bytes)
          → (length (m.header_received ++ take (header_size - length m.header_received) bytes)
              == header_size)
            ≡ false
          → drop (header_size - length m.header_received) bytes ≡ []
      nothing_behind all header' part =
          let few : length (t ++ bytes) < header_size =
            elim (Bool-cases (ltb (length (t ++ bytes)) header_size)) [
              | inl h ↦ ltb→lt _ _ h
              | inr h ↦ absurd (
                  ground (
                    arith,
                    part,
                    ap (λ (l : List ℕ). length l) header',
                    length-take header_size (t ++ bytes) (ltb→ge _ _ h),
                  ))
            ] in
          drop_all (header_size - length m.header_received) bytes
            (omega (arith, ap (λ (l : List ℕ). length l) all, length-append t bytes))

-- The bytes of a file that may be missing.
abbrev pub bytes_of : Option (List ℕ) → List ℕ
bytes_of file = elim file [ none ↦ [] | some bytes ↦ bytes ]

abbrev pub written_counted : Writing → WorkerManager → List ℕ → WorkerManager
written_counted w m bytes = record m {
  temp_file = some (bytes_of m.temp_file ++ take w.written bytes);
  status = record m.status {
    package_bytes_received = (m.status.package_bytes_received + length bytes) % u32_mod;
  };
}

pub written_counted-Counted :
    (t bytes : List ℕ) (w : Writing) (m : WorkerManager)
    → Received t m
    → length t + w.written ≤ file_max
    → w.written ≡ length bytes
    → Counted t bytes (written_counted w m bytes)
written_counted-Counted t bytes w m r room whole =
    let total = length-append t bytes in
    let before : bytes_of m.temp_file ≡ t = ap (λ f. bytes_of f) r.held in
    (
      ap some (
          ap (λ l. l ++ take w.written bytes) before
          ∙ ap (λ l. t ++ l) (take_all w.written bytes (omega arith))),
      r.header,
      r.hashed,
      omega (arith, total, r.counted),
      omega (arith, total),
    )

-- A chunk that is taken leaves the manager as if the bytes had come in one piece.
pub package_upload_consume-Received :
    (t bytes : List ℕ) (w : Writing) (m : WorkerManager)
    → Received t m
    → length t + w.written ≤ file_max
    → Takes (t ++ bytes) (package_upload_consume w m bytes)
unfolding package_upload_consume
package_upload_consume-Received t bytes w m r room =
    if_rule (Takes (t ++ bytes)) (length bytes == 0 || not m.upload_open)
      (λ _ e. absurd (ground (arith, e)))
      (λ _.
        if_rule (Takes (t ++ bytes)) (not (w.written == length bytes))
          (λ _ e. absurd (ground (arith, e)))
          (λ whole.
            let counted = written_counted-Counted t bytes w m r room (ground (arith, whole)) in
            elim (Bool-cases (ltb (length t) header_size)) [
              | inl h ↦
                  consume_bytes-short t bytes (written_counted w m bytes) w.sha_update
                    (ltb→lt _ _ h) counted
              | inr h ↦
                  consume_bytes-long t bytes (written_counted w m bytes) w.sha_update (ltb→ge _ _ h)
                    counted (r.parsed (ltb→ge _ _ h))
            ]))
