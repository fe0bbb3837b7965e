-- ===== src/Ota/WorkerManager/Upload/Stored.antt =====
-- What main/src/worker_ota_manager.cpp keeps as the package for the workers.
use plant_watering.Prelude.{
  ℕ, ◌+◌, ◌%◌, ◌≤◌, ◌≡◌, refl, sym, ap, ◌∙◌, Bool, true, false, not, ◌||◌, List, [], ◌++◌, none,
  some, ◌==◌, if◌then◌else◌, length, drop, arith, if_rule, String, ltb, Bool-cases, inl, inr,
  ltb→lt, ltb→ge, ==-eq_of_or, not-false, subst, take_all,
}
use plant_watering.Prelude.Bytes.{bytes_eq, bytes_eq_iff}
use plant_watering.Prelude.Words.{u32_mod}
use plant_watering.Prelude.Maybe.{is_some}
use plant_watering.Ota.Package.{Header, header_size}
use plant_watering.Ota.WorkerManager.{WorkerManager, header_of, cleanup_upload, remove}
use plant_watering.Ota.WorkerManager.Upload.{
  Opening, package_upload_start, Writing, package_upload_consume, Closing, package_upload_finish,
  package_upload_abort,
}
use plant_watering.Ota.WorkerManager.Upload.HeaderBytes.{file_max, Received}
use plant_watering.Ota.WorkerManager.Upload.Chunks.{bytes_of, package_upload_consume-Received}
use plant_watering.Ota.WorkerManager.Upload.Accepted.{
  package_upload_consume-KeepsOpen, header_of-image_size,
}

-- A complete package for a worker: a header that is accepted, and an image of its size and hash.
abbrev pub IsWorkerPackage : (List ℕ → List ℕ) → List ℕ → Type 0
IsWorkerPackage sha f =
    (h : Header) × (header_of f ≡ some h)
    × (length f ≡ header_size + h.image_size)
    × (sha (drop header_size f) ≡ h.image_sha256)

pub record IsSafe (sha : List ℕ → List ℕ) (m : WorkerManager) : Type 0 where
  pub stored_whole : (f : List ℕ) → m.stored_file ≡ some f → IsWorkerPackage sha f
  pub receiving :
      m.upload_open ≡ true
      → (t : List ℕ) × Received t m × (m.status.active ≡ true) × (m.storage_available ≡ true)

abbrev pub SafeResult : (List ℕ → List ℕ) → WorkerManager × Bool → Type 0
SafeResult sha r = IsSafe sha r.0

pub closed-IsSafe :
    (sha : List ℕ → List ℕ) (m : WorkerManager)
    → ((f : List ℕ) → m.stored_file ≡ some f → IsWorkerPackage sha f)
    → m.upload_open ≡ false
    → IsSafe sha m
closed-IsSafe sha m whole closed = record {
  stored_whole = whole;
  receiving = λ h. absurd (ground (arith, h, closed));
}

pub package_upload_abort-IsSafe :
    (sha : List ℕ → List ℕ) (removes : Bool) (reason : String) (m : WorkerManager)
    → ((f : List ℕ) → m.stored_file ≡ some f → IsWorkerPackage sha f)
    → IsSafe sha (package_upload_abort removes reason m)
unfolding package_upload_abort cleanup_upload
package_upload_abort-IsSafe sha removes reason m whole = closed-IsSafe sha _ whole refl

-- Where the storage has failed or an upload goes on, a start changes nothing that counts.
pub package_upload_start-IsSafe :
    (sha : List ℕ → List ℕ) (o : Opening) (m : WorkerManager)
    → IsSafe sha m
    → SafeResult sha (package_upload_start o m)
unfolding package_upload_start cleanup_upload
package_upload_start-IsSafe sha o m w =
    let closed = cleanup_upload true o.cleanup_removes m in
    let temp = remove o.removes_temp closed.temp_file in
    let kept = remove o.removes_stored m.stored_file in
    if_rule (SafeResult sha) (not m.storage_available)
      (λ missing. record {
        stored_whole = w.stored_whole;
        receiving = λ h. absurd (ground (arith, h, missing, (w.receiving h).3));
      })
      (λ there.
        if_rule (SafeResult sha) m.status.active (λ _. w)
          (λ _.
            if_rule (SafeResult sha) (is_some temp || is_some kept)
              (λ _. closed-IsSafe sha _ still refl)
              (λ _.
                if_rule (SafeResult sha) (not o.opens) (λ _. closed-IsSafe sha _ still refl)
                  (λ _.
                    if_rule (SafeResult sha) (not o.sha_starts)
                      (λ _. closed-IsSafe sha _ still refl)
                      (λ _. record {
                        stored_whole = still;
                        receiving = λ _. (
                          [],
                          record {
                            held = refl;
                            header = refl;
                            hashed = refl;
                            counted = refl;
                            bounded = omega arith;
                            parsed = λ long. absurd (omega (arith, long));
                          },
                          refl,
                          ground (arith, there),
                        );
                      })))))
  where
    still :
        (f : List ℕ)
        → (if o.removes_stored then none else m.stored_file) ≡ some f
        → IsWorkerPackage sha f
    still f e = w.stored_whole f (ground (arith, e))

-- A chunk that is not taken is followed by an abort, so only what becomes of a taken one matters.
pub package_upload_consume-IsSafe :
    (sha : List ℕ → List ℕ) (w : Writing) (m : WorkerManager) (bytes : List ℕ)
    → ((t : List ℕ) → m.temp_file ≡ some t → length t + w.written ≤ file_max)
    → IsSafe sha m
    → (package_upload_consume w m bytes).1 ≡ true
    → SafeResult sha (package_upload_consume w m bytes)
package_upload_consume-IsSafe sha w m bytes room safe ok =
    let (open', capacity, stored', active, available) =
      package_upload_consume-KeepsOpen w m bytes in
    record {
      stored_whole = λ f e. safe.stored_whole f (sym stored' ∙ e);
      receiving = λ h.
          let (t, r, busy, there) = safe.receiving (sym open' ∙ h) in
          (
            t ++ bytes,
            package_upload_consume-Received t bytes w m r (room t r.held) ok,
            active ∙ busy,
            available ∙ there,
          );
    }

-- The bytes that have come, where the checks of the end hold.
received-IsWorkerPackage :
    (sha : List ℕ → List ℕ) (t : List ℕ) (m : WorkerManager)
    → Received t m
    → length m.header_received ≡ header_size
    → m.status.package_bytes_received ≡ (header_size + m.parsed_header.image_size) % u32_mod
    → sha m.sha_input ≡ m.parsed_header.image_sha256
    → (f : List ℕ) → m.temp_file ≡ some f
    → IsWorkerPackage sha f
received-IsWorkerPackage sha t m r full sized matched f e =
    let long : header_size ≤ length t = long_enough in
    let found = r.parsed long in
    let fits = header_of-image_size t m.parsed_header found in
    subst (IsWorkerPackage sha) (ap bytes_of (sym r.held ∙ e)) (
      m.parsed_header,
      found,
      omega (arith, r.counted, sized, fits),
      ap sha (sym r.hashed) ∙ matched,
    )
  where
    long_enough : header_size ≤ length t
    long_enough = elim (Bool-cases (ltb (length t) header_size)) [
      | inr h ↦ ltb→ge _ _ h
      | inl h ↦ absurd (
          omega (
            arith,
            ltb→lt _ _ h,
            full,
            ap (λ (l : List ℕ). length l)
                (r.header ∙ take_all header_size t (omega (arith, ltb→lt _ _ h))),
          ))
    ]

pub package_upload_finish-IsSafe :
    (sha : List ℕ → List ℕ) (c : Closing) (m : WorkerManager)
    → ((bytes : List ℕ) → c.sha256 bytes ≡ sha bytes)
    → IsSafe sha m
    → SafeResult sha (package_upload_finish c m)
unfolding package_upload_finish cleanup_upload
package_upload_finish-IsSafe sha c m hashes safe =
    let h = m.parsed_header in
    if_rule (SafeResult sha) (not m.upload_open) (λ _. safe)
      (λ on.
        if_rule (SafeResult sha)
          (not (length m.header_received == header_size)
            || not (m.status.package_bytes_received == (header_size + h.image_size) % u32_mod))
          (λ _. closed-IsSafe sha _ safe.stored_whole refl)
          (λ sized.
            if_rule (SafeResult sha) (not c.sha_finish)
              (λ _. closed-IsSafe sha _ safe.stored_whole refl)
              (λ _.
                if_rule (SafeResult sha) (not (bytes_eq (c.sha256 m.sha_input) h.image_sha256))
                  (λ _. closed-IsSafe sha _ safe.stored_whole refl)
                  (λ matched.
                    if_rule (SafeResult sha) (not c.renames)
                      (λ _. closed-IsSafe sha _ safe.stored_whole refl)
                      (λ _.
                        closed-IsSafe sha _
                          (let (t, r, busy, there) = safe.receiving (not-false _ on) in
                            let (full, counted) = ==-eq_of_or _ _ _ _ sized in
                            received-IsWorkerPackage sha t m r full counted (
                              sym (hashes m.sha_input)
                              ∙ (bytes_eq_iff (c.sha256 m.sha_input) h.image_sha256).0
                                  (not-false _ matched)))
                          refl)))))
