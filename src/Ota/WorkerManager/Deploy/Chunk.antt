-- ===== src/Ota/WorkerManager/Deploy/Chunk.antt =====
-- A chunk of the image that main/src/worker_ota_manager.cpp sends, in the write to the data
-- characteristic of worker/src/worker_ota_service.cpp.
use plant_watering.Prelude.{
  ℕ, ◌+◌, ◌-◌, ◌≤◌, ◌<◌, ◌≡◌, refl, sym, ap, ◌∙◌, Bool, true, false, not, ◌||◌, List, [], ◌++◌,
  some, ltb, ◌==◌, if◌then◌else◌, length, take, drop, arith, if_rule, length-take, take-add,
  take-take, append-take-drop, length-drop, ltb→lt,
}
use plant_watering.Ota.WorkerManager.Deploy.WorkerEnd.{
  IsUpdate, Has, Appended, append_image_bytes-Appended, begin_image_write_if_ready-Begun,
}
use plant_watering.Worker.OtaService.{PackageHeader, Build, Platform, OtaState}
use plant_watering.Worker.OtaService.Image.{
  begin_image_write_if_ready, append_image_bytes, past_end, write_image_prefix, write_image_bytes,
}

module _ (build : Build) (p : Platform) (h : PackageHeader) (size : ℕ) (image : List ℕ)
    (u : IsUpdate build p h size image) where
  abbrev pub Holds : ℕ → OtaState × Bool → Type 0
  Holds offset r = Has build h size image offset r.0

  -- A chunk behind the first.
  append_image_bytes-Has :
      (s : OtaState) (offset n : ℕ)
      → 0 < offset
      → offset + n ≤ h.image_size
      → Has build h size image offset s
      → Holds (offset + n) (append_image_bytes p s (take n (drop offset image)))
  append_image_bytes-Has s offset n later fits w =
      let chunk = take n (drop offset image) in
      let (on, prefix, flash, hashed) = w.begun later in
      let (ok, header, partition, prefix', on', flash', hashed', received) =
        append_image_bytes-Appended build p h size image u s chunk on in
      let long =
        length-take n (drop offset image) (omega (arith, length-drop offset image, u.whole)) in
      record {
        header = header ∙ w.header;
        partition = partition ∙ w.partition;
        received = omega (arith, received, w.received, long);
        fresh = λ e. absurd (omega (arith, e, later));
        begun = λ _. (
          on',
          omega (arith, prefix, ap (λ (l : List ℕ). length l) prefix'),
          flash' ∙ ap (λ l. l ++ chunk) flash ∙ sym (take-add offset n image),
          hashed' ∙ ap (λ l. l ++ chunk) hashed ∙ sym (take-add offset n image),
        );
      }

  in_image :
      (received length : ℕ)
      → received + length ≤ h.image_size
      → ltb h.image_size received || ltb (h.image_size - received) length ≡ false
  in_image received length fits = ground arith

  past_end-false :
      (s : OtaState) (len : ℕ)
      → s.header ≡ h
      → s.image_bytes_received + len ≤ h.image_size
      → past_end s len ≡ false
  past_end-false s len header fits =
      (λ i.
        ltb (header i).image_size s.image_bytes_received
        || ltb ((header i).image_size - s.image_bytes_received) len)
      ∙ in_image s.image_bytes_received len fits

  write_image_prefix-Appended :
      (s : OtaState)
      → s.header ≡ h
      → s.ota_begun ≡ true
      → s.image_bytes_received + length s.image_prefix ≤ h.image_size
      → Appended build p h size image u s s.image_prefix (write_image_prefix p s)
  unfolding write_image_prefix
  write_image_prefix-Appended s header on fits =
      if_rule (Appended build p h size image u s s.image_prefix)
        (past_end s (length s.image_prefix))
        (λ e. absurd (ground (arith, e, past_end-false s (length s.image_prefix) header fits)))
        (λ _. append_image_bytes-Appended build p h size image u s s.image_prefix on)

  -- The prefix is written from `s1`, in which it is complete, and then the rest of the chunk.
  prefix_and_rest :
      (s1 : OtaState) (n missing : ℕ)
      → build.image_prefix_size ≤ n
      → n ≤ h.image_size
      → s1.header ≡ h
      → s1.target_partition ≡ some size
      → s1.ota_begun ≡ false
      → s1.image_bytes_received ≡ 0
      → s1.image_prefix ≡ take build.image_prefix_size image
      → missing ≡ build.image_prefix_size
      → let (s', ok) = begin_image_write_if_ready build p s1 in
        let (s'', ok') = if s'.ota_begun then write_image_prefix p s' else (s', true) in
        Holds n (
          if not ok
          then (s', false)
          else if not ok'
          then (s'', false)
          else append_image_bytes p s'' (drop missing (take n image)))
  prefix_and_rest s1 n missing long fits header partition off nothing prefix is =
      let r = begin_image_write_if_ready build p s1 in
      let r' : OtaState × Bool = if r.0.ota_begun then write_image_prefix p r.0 else (r.0, true) in
      let (ok, header1, partition1, prefix1, on1, flash1, hashed1, received1) =
        begin_image_write_if_ready-Begun build p h size image u s1 header partition off prefix in
      let is_long =
        ap (λ (l : List ℕ). length l) (prefix1 ∙ prefix)
        ∙ length-take build.image_prefix_size image (omega (arith, u.whole, u.prefix_fits)) in
      let written : Appended build p h size image u r.0 r.0.image_prefix r' =
        if_rule (Appended build p h size image u r.0 r.0.image_prefix) r.0.ota_begun
          (λ _.
            write_image_prefix-Appended r.0 (header1 ∙ header) on1
              (omega (arith, received1, nothing, is_long, u.prefix_fits)))
          (λ e. absurd (ground (arith, e, on1))) in
      if_rule (Holds n) (not r.1) (λ e. absurd (ground (arith, e, ok)))
        (λ _.
          if_rule (Holds n) (not r'.1) (λ e. absurd (ground (arith, e, written.0)))
            (λ _.
              finish r.0 r'.0 (header1 ∙ header) (partition1 ∙ partition) (prefix1 ∙ prefix) flash1
                hashed1 (received1 ∙ nothing) is_long written.1 written.2 written.3 written.4
                written.5 written.6 written.7))
    where
      finish :
          (s2 s3 : OtaState)
          → s2.header ≡ h
          → s2.target_partition ≡ some size
          → s2.image_prefix ≡ take build.image_prefix_size image
          → s2.flash ≡ []
          → s2.sha_input ≡ []
          → s2.image_bytes_received ≡ 0
          → length s2.image_prefix ≡ build.image_prefix_size
          → s3.header ≡ s2.header
          → s3.target_partition ≡ s2.target_partition
          → s3.image_prefix ≡ s2.image_prefix
          → s3.ota_begun ≡ true
          → s3.flash ≡ s2.flash ++ s2.image_prefix
          → s3.sha_input ≡ s2.sha_input ++ s2.image_prefix
          → s3.image_bytes_received ≡ s2.image_bytes_received + length s2.image_prefix
          → Holds n (append_image_bytes p s3 (drop missing (take n image)))
      finish s2 s3 h2 p2 x2 f2 i2 r2 l2 h3 p3 x3 on3 f3 i3 r3 =
          let rest = drop missing (take n image) in
          let (ok, h4, p4, x4, on4, f4, i4, r4) =
            append_image_bytes-Appended build p h size image u s3 rest on3 in
          let all : take build.image_prefix_size image ++ rest ≡ take n image =
            ap (λ l. l ++ rest) (sym (take-take build.image_prefix_size n image long))
            ∙ ap (λ k. take build.image_prefix_size (take n image) ++ drop k (take n image)) is
            ∙ append-take-drop build.image_prefix_size (take n image) in
          let taken = length-take n image (omega (arith, u.whole)) in
          record {
            header = h4 ∙ h3 ∙ h2;
            partition = p4 ∙ p3 ∙ p2;
            received = omega (arith, r4, r3, r2, l2, length-drop missing (take n image), taken, is);
            fresh = λ e. absurd (omega (arith, e, long, u.prefix_small.0));
            begun = λ _. (
              on4,
              omega (arith, ap (λ (l : List ℕ). length l) (x4 ∙ x3), l2),
              f4 ∙ ap (λ l. l ++ rest) (f3 ∙ ap (λ l. l ++ s2.image_prefix) f2 ∙ x2) ∙ all,
              i4 ∙ ap (λ l. l ++ rest) (i3 ∙ ap (λ l. l ++ s2.image_prefix) i2 ∙ x2) ∙ all,
            );
          }

  -- The first chunk, which holds the whole prefix.
  pub write_image_bytes-first :
      (s : OtaState) (n : ℕ)
      → build.image_prefix_size ≤ n
      → n ≤ h.image_size
      → Has build h size image 0 s
      → Holds n (write_image_bytes build p s (take n image))
  unfolding write_image_bytes write_image_prefix
  write_image_bytes-first s n long fits w =
      let chunk = take n image in
      let room = length-take n image (omega (arith, u.whole)) in
      let (off, no_prefix) = w.fresh refl in
      let short = ap (λ (l : List ℕ). length l) no_prefix in
      let missing = build.image_prefix_size - length s.image_prefix in
      let s1 = record s { image_prefix = s.image_prefix ++ take missing chunk } in
      let is : missing ≡ build.image_prefix_size = omega (arith, short) in
      let prefix : s.image_prefix ++ take missing chunk ≡ take build.image_prefix_size image =
        ap (λ l. l ++ take missing chunk) no_prefix
        ∙ ap (λ k. take k chunk) is
        ∙ take-take build.image_prefix_size n image long in
      if_rule (Holds n) (length chunk == 0)
        (λ e. absurd (ground (arith, e, room, long, u.prefix_small.0)))
        (λ _.
          if_rule (Holds n) (past_end s (length chunk))
            (λ e. absurd (
              ground (
                arith,
                e,
                past_end-false s (length chunk) w.header (omega (arith, room, w.received, fits)),
              )))
            (λ _.
              if_rule (Holds n) (ltb (length s.image_prefix) build.image_prefix_size)
                (λ _.
                  prefix_and_rest s1 n missing long fits w.header w.partition off w.received prefix
                    is)
                (λ e. absurd (ground (arith, e, short, u.prefix_small.0)))))

  -- A chunk that is sent at its offset is written.
  pub write_image_bytes-later :
      (s : OtaState) (offset n : ℕ)
      → 0 < offset
      → 0 < n
      → offset + n ≤ h.image_size
      → Has build h size image offset s
      → Holds (offset + n) (write_image_bytes build p s (take n (drop offset image)))
  unfolding write_image_bytes
  write_image_bytes-later s offset n later some_bytes fits w =
      let chunk = take n (drop offset image) in
      let room =
        length-take n (drop offset image) (omega (arith, length-drop offset image, u.whole)) in
      let (on, prefix, flash, hashed) = w.begun later in
      if_rule (Holds (offset + n)) (length chunk == 0)
        (λ e. absurd (ground (arith, e, room, some_bytes)))
        (λ _.
          if_rule (Holds (offset + n)) (past_end s (length chunk))
            (λ e. absurd (
              ground (
                arith,
                e,
                past_end-false s (length chunk) w.header (omega (arith, room, w.received, fits)),
              )))
            (λ _.
              if_rule (Holds (offset + n)) (ltb (length s.image_prefix) build.image_prefix_size)
                (λ e. absurd (omega (arith, ltb→lt _ _ e, prefix)))
                (λ _. append_image_bytes-Has s offset n later fits w)))
