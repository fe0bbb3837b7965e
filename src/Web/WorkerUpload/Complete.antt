-- ===== src/Web/WorkerUpload/Complete.antt =====
-- The upload of a package through the handlers of main/src/webui.cpp, from the first chunk to the
-- answer, where the file system and the hash do their part.
use mathlib.Core.List.{append-nil, append_assoc}
use plant_watering.Prelude.{
  ℕ, ◌+◌, ◌-◌, ◌%◌, ◌≤◌, ◌≡◌, ◌≢◌, refl, sym, ap, ◌∙◌, subst, Bool, true, false, not, ◌||◌, List,
  [], ◌∷◌, ◌++◌, Option, none, some, length, drop, arith, goes_on, ◌==◌, length-append, length-take,
  String,
}
use plant_watering.Prelude.Words.{u32_mod}
use plant_watering.Prelude.Bytes.{bytes_eq_iff}
use plant_watering.Prelude.Maybe.{is_some}
use plant_watering.Ota.Package.{Header, header_size}
use plant_watering.Ota.WorkerManager.{WorkerManager, stored, cleanup_upload, remove, header_of}
use plant_watering.Ota.WorkerManager.Upload.{
  Opening, package_upload_start, Writing, Closing, package_upload_finish,
}
use plant_watering.Ota.WorkerManager.Upload.HeaderBytes.{file_max, Received, header_of-append}
use plant_watering.Ota.WorkerManager.Upload.Chunks.{package_upload_consume-Received}
use plant_watering.Ota.WorkerManager.Upload.Accepted.{
  package_upload_consume-Succeeds, package_upload_consume-KeepsOpen, header_of-image_size,
}
use plant_watering.Web.WorkerUpload.{
  UploadRequest, no_request, Site, Moment, file_start, file_write, file_end, request_complete,
}

-- The chunks of an upload, each with how its calls end.
abbrev pub Piece : Type 0
Piece = Writing × List ℕ

abbrev pub joined : List Piece → List ℕ
joined [] = []
joined ((w, bytes) ∷ pieces) = bytes ++ joined pieces

-- No chunk is empty, and each is written and hashed.
abbrev pub Works : List Piece → Type 0
Works [] = Unit {0}
Works ((w, bytes) ∷ pieces) =
    (length bytes ≢ 0) × (w.written ≡ length bytes) × (w.sha_update ≡ true) × Works pieces

abbrev pub write_all : Moment → List Piece → Site → Site
write_all now [] s = s
write_all now ((w, bytes) ∷ pieces) s = write_all now pieces (file_write now w bytes s)

-- The whole request.
abbrev pub upload : Moment → Opening → List Piece → Closing → Site → Bool × String × Site
upload now o pieces c s =
    request_complete now (file_end c (write_all now pieces (file_start now o s)))

abbrev under_way : UploadRequest
under_way = record no_request { saw_file = true; started = true; accepted = true }

-- The site while the bytes `t` of a package have come, with room for `capacity` bytes.
record Uploading (capacity : ℕ) (t : List ℕ) (s : Site) : Type 0 where
  received : Received t s.manager
  is_open : s.manager.upload_open ≡ true
  room : s.manager.upload_capacity_bytes ≡ capacity
  request : s.request ≡ under_way

-- How the calls of the start go, in a manager that is free.
pub record Starts (now : Moment) (o : Opening) (s : Site) : Type 0 where
  pub manual : now.auto_enabled ≡ false
  pub calm : now.busy ≡ false
  pub new : s.request ≡ no_request
  pub free : s.manager.status.active ≡ false
  pub storage : s.manager.storage_available ≡ true
  pub removes_temp : o.removes_temp ≡ true
  pub removes_stored : o.removes_stored ≡ true
  pub opens : o.opens ≡ true
  pub sha_starts : o.sha_starts ≡ true
  pub used : o.used_bytes ≤ o.total_bytes

both_removed :
    {a b : Bool} (f g : Option (List ℕ))
    → a ≡ true
    → b ≡ true
    → (is_some (remove a f) || is_some (remove b g)) ≡ false
both_removed f g d e = rw (d, e) refl

neither : {a b : Bool} → a ≡ false → b ≡ false → (a || b) ≡ false
neither d e = rw (d, e) refl

both_same : (a b c d : ℕ) → a ≡ b → c ≡ d → (not (a == b) || not (c == d)) ≡ false
both_same a b c d e f = ground arith

module _ (capacity : ℕ) (file : List ℕ) (h : Header) (found : header_of file ≡ some h)
    (whole : length file ≡ header_size + h.image_size) (fits : length file ≤ capacity) where
  -- The part of the file that has come, with the next chunk.
  file_write-Uploading :
      (now : Moment) (w : Writing) (t bytes rest : List ℕ) (s : Site)
      → (t ++ bytes) ++ rest ≡ file
      → length bytes ≢ 0
      → w.written ≡ length bytes
      → w.sha_update ≡ true
      → Uploading capacity t s
      → Uploading capacity (t ++ bytes) (file_write now w bytes s)
  unfolding file_write
  file_write-Uploading now w t bytes rest s part some_bytes written hashes u =
      let total = length-append (t ++ bytes) rest in
      let here = length-append t bytes in
      let all = ap (λ (l : List ℕ). length l) part in
      let small = header_of-image_size file h found in
      let room : length t + w.written ≤ file_max =
        omega (arith, total, here, all, whole, small, written) in
      let ok =
        package_upload_consume-Succeeds t bytes w s.manager u.received u.is_open some_bytes written
          hashes room
          (λ long. (
            h,
            sym (header_of-append (t ++ bytes) rest long) ∙ ap (λ f. header_of f) part ∙ found,
            omega (arith, whole, fits, u.room),
          )) in
      let (same_open, same_room, _, _, _) = package_upload_consume-KeepsOpen w s.manager bytes in
      rw (u.request, ok)
        (record {
          received = package_upload_consume-Received t bytes w s.manager u.received room ok;
          is_open = same_open ∙ u.is_open;
          room = same_room ∙ u.room;
          request = refl;
        })

  write_all-Uploading :
      (now : Moment) (pieces : List Piece) (t : List ℕ) (s : Site)
      → t ++ joined pieces ≡ file
      → Works pieces
      → Uploading capacity t s
      → Uploading capacity file (write_all now pieces s)
  write_all-Uploading now [] t s part works u =
      subst (λ f. Uploading capacity f s) (sym (append-nil t) ∙ part) u
  write_all-Uploading now ((w, bytes) ∷ pieces) t s part (some_bytes, written, hashes, works) u =
      let part' : (t ++ bytes) ++ joined pieces ≡ file =
        append_assoc t bytes (joined pieces) ∙ part in
      write_all-Uploading now pieces (t ++ bytes) (file_write now w bytes s) part' works
        (file_write-Uploading now w t bytes (joined pieces) s part' some_bytes written hashes u)

  -- The package is kept, and the request is over without an error.
  abbrev Kept : Site → Type 0
  Kept s =
      (s.manager.stored_file ≡ some file)
      × (s.manager.status.state ≡ stored)
      × (s.manager.status.active ≡ false)
      × (s.request ≡ record under_way { finished = true })

  abbrev Finished : WorkerManager × Bool → Type 0
  Finished (m, ok) =
      (ok ≡ true)
      × (m.stored_file ≡ some file)
      × (m.status.state ≡ stored)
      × (m.status.active ≡ false)

  package_upload_finish-Finished :
      (c : Closing) (m : WorkerManager)
      → Received file m
      → m.upload_open ≡ true
      → c.sha_finish ≡ true
      → c.renames ≡ true
      → c.sha256 (drop header_size file) ≡ h.image_sha256
      → Finished (package_upload_finish c m)
  unfolding package_upload_finish cleanup_upload
  package_upload_finish-Finished c m r is_open finishes renames hash =
      let small = header_of-image_size file h found in
      let parsed : m.parsed_header ≡ h =
        ap (λ o. elim o [ none ↦ h | some x ↦ x ])
          (sym (r.parsed (omega (arith, whole))) ∙ found) in
      let image_size = ap (λ (h : Header). h.image_size) parsed in
      let full =
        ap (λ (l : List ℕ). length l) r.header
        ∙ length-take header_size file (omega (arith, whole)) in
      let matches : c.sha256 m.sha_input ≡ m.parsed_header.image_sha256 =
        ap c.sha256 r.hashed ∙ hash ∙ ap (λ (h : Header). h.image_sha256) (sym parsed) in
      let counted : m.status.package_bytes_received
          ≡ (header_size + m.parsed_header.image_size) % u32_mod =
        omega (arith, r.counted, whole, small, image_size) in
      goes_on Finished _ _ (ap not is_open) (
        goes_on Finished _ _ (both_same _ _ _ _ full counted) (
          goes_on Finished _ _ (ap not finishes) (
            goes_on Finished _ _ (ap not ((bytes_eq_iff _ _).1 matches))
              (goes_on Finished _ _ (ap not renames) (refl, r.held, refl, refl)))))

  file_end-Kept :
      (c : Closing) (s : Site)
      → Uploading capacity file s
      → c.sha_finish ≡ true
      → c.renames ≡ true
      → c.sha256 (drop header_size file) ≡ h.image_sha256
      → Kept (file_end c s)
  unfolding file_end
  file_end-Kept c s u finishes renames hash =
      let (ok, kept, state, active) =
        package_upload_finish-Finished c s.manager u.received u.is_open finishes renames hash in
      rw (u.request, ok) (kept, state, active, refl)

  abbrev Opened : WorkerManager × Bool → Type 0
  Opened (m, ok) =
      (ok ≡ true) × Received [] m × (m.upload_open ≡ true) × (m.upload_capacity_bytes ≡ capacity)

  package_upload_start-Opened :
      (now : Moment) (o : Opening) (s : Site)
      → Starts now o s
      → capacity ≡ o.total_bytes - o.used_bytes
      → Opened (package_upload_start o s.manager)
  unfolding package_upload_start cleanup_upload
  package_upload_start-Opened now o s starts size = goes_on Opened _ _ (ap not starts.storage) (
      goes_on Opened _ _ starts.free (
        goes_on Opened _ _ (both_removed _ _ starts.removes_temp starts.removes_stored) (
          goes_on Opened _ _ (ap not starts.opens) (
            goes_on Opened _ _ (ap not starts.sha_starts) (
              refl,
              record {
                held = refl;
                header = refl;
                hashed = refl;
                counted = refl;
                bounded = omega arith;
                parsed = λ long. absurd (omega (arith, long));
              },
              refl,
              ground (arith, size, starts.used),
            )))))

  file_start-Uploading :
      (now : Moment) (o : Opening) (s : Site)
      → Starts now o s
      → capacity ≡ o.total_bytes - o.used_bytes
      → Uploading capacity [] (file_start now o s)
  unfolding file_start
  file_start-Uploading now o s starts size =
      let (ok, received, is_open, room) = package_upload_start-Opened now o s starts size in
      let fresh = λ (f : UploadRequest → Bool). ap f starts.new in
      goes_on (Uploading capacity []) _ _ starts.manual (
        goes_on (Uploading capacity []) _ _ (fresh (λ r. r.saw_file)) (
          goes_on (Uploading capacity []) _ _ (neither starts.calm starts.free) (
            rw ok (record {
              received = received;
              is_open = is_open;
              room = room;
              request =
                  ap {B = UploadRequest}
                    (λ (r : UploadRequest). record r {
                      saw_file = true;
                      started = true;
                      accepted = true;
                    })
                    starts.new;
            }))))

  -- What the sender is told, and what is kept.
  abbrev pub Answers : Bool × String × Site → Type 0
  Answers r =
      (r.0 ≡ true)
      × (r.1 ≡ "")
      × (r.2.manager.stored_file ≡ some file)
      × (r.2.manager.status.state ≡ stored)
      × (r.2.manager.status.active ≡ false)
      × (r.2.request ≡ no_request)

  -- The upload of a package for the workers, in the manual mode and with nothing else under way,
  -- ends well however the package is cut into chunks, as long as none is empty, the storage has room
  -- and the calls of the file system and the hash do their part: the sender is told so, exactly the
  -- bytes of the package are kept, and the variables of the request are as before the first chunk.
  pub upload-Answers :
      (now : Moment) (o : Opening) (pieces : List Piece) (c : Closing) (s : Site)
      → Starts now o s
      → capacity ≡ o.total_bytes - o.used_bytes
      → joined pieces ≡ file
      → Works pieces
      → (c.sha_finish ≡ true) × (c.renames ≡ true)
      → c.sha256 (drop header_size file) ≡ h.image_sha256
      → Answers (upload now o pieces c s)
  unfolding request_complete
  upload-Answers now o pieces c s starts size all works (finishes, renames) hash =
      let u =
        write_all-Uploading now pieces [] (file_start now o s) all works
          (file_start-Uploading now o s starts size) in
      let (kept, state, active, request) =
        file_end-Kept c (write_all now pieces (file_start now o s)) u finishes renames hash in
      rw request (refl, refl, kept, state, active, refl)
