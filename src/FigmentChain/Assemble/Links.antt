-- ===== src/FigmentChain/Assemble/Links.antt =====
-- The object that one link builds.
use demo_s3_archiving.Prelude.{ℕ, ◌+◌, ◌-◌, ◌<◌, ◌≡◌, ◌≢◌, refl, sym, ap, ap₂, ◌∙◌, subst, arith}
use demo_s3_archiving.Prelude.{Option, none, some, List, [], ◌∷◌, ◌++◌}
use demo_s3_archiving.Prelude.{length, take, drop, All, All-map}
use demo_s3_archiving.Bytes.{Byte, Text}
use demo_s3_archiving.Figment.ZipFormat.{local_header}
use demo_s3_archiving.Figment.Plan.{FileId}
use demo_s3_archiving.FigmentChain.RateLimit.{high}
use demo_s3_archiving.FigmentChain.PlanChain.{
  Link, bootstrap, anchor_only, anchor_then_append, forward_then_append, ChainPlan,
}
use demo_s3_archiving.FigmentChain.PlanChain.Contents.{link_bytes}
use demo_s3_archiving.FigmentChain.Assemble.{s3, Result, ok, err, Machine}
use demo_s3_archiving.FigmentChain.Assemble.Service.{
  Answer, done, failed, Client, CompletedPart, read_chunks, insert_part, sort_parts, create_mpu,
  complete_mpu, get_object_range_bytes,
}
use demo_s3_archiving.FigmentChain.Assemble.Build.{
  CrcStore, call, source_key, copy_source, link_ids, link_parts, build_one_link,
}
use mathlib.Core.Path.{fun_ext}
use demo_s3_archiving.FigmentChain.Assemble.Interface.{IsService, joined}
use demo_s3_archiving.FigmentChain.Assemble.Attempts.{
  with_retry_governed-last, >>=-ok, lift-ok, lift->>=,
}
use demo_s3_archiving.FigmentChain.Assemble.Objects.{
  meta_with, meta_of-arrived, Same, IsStored, IsKnown, join_two, slice_front, call-IsStored,
  upload_part-IsPart, copy-IsPart, copy_range-IsPart, build_piece_part-IsStored,
}

completed_answer :
    (r : Answer (Unit {0})) → elim r [ done u ↦ ok u | failed t ↦ err (s3 t) ] ≡ ok tt → r ≡ done tt
completed_answer (done u) h = refl
completed_answer (failed t) h = absurd (cc h)

module _ (client : Client) (bucket : Text) (service : IsService client bucket) where
  -- A task that returns from S3 what a successful call reads; it changes no object.
  call_read :
      {A : Type 0} (op : client.World → Result A × client.World) (s s' : Machine client.World)
      (a : A)
      → ((w : client.World) → Same client bucket service w (op w).1)
      → call client op s ≡ (ok a, s')
      → (w : client.World) × Same client bucket service s.world w
        × ((op w).0 ≡ ok a)
        × Same client bucket service s.world s'.world
  unfolding call
  call_read {A} op s s' a keeps h =
      let (w, same, result, world) =
        with_retry_governed-last op high (λ v. Same client bucket service s.world v)
          (λ v p k. keeps v k ∙ p k) s (λ k. refl) in
      let end : s'.world ≡ (op w).1 =
        ap (λ (r : Result A × Machine client.World). r.1.world) (sym h) ∙ world in
      (
        w,
        same,
        sym result ∙ ap (λ (r : Result A × Machine client.World). r.0) h,
        λ k. ap (λ v. service.objects v k) end ∙ keeps w k ∙ same k,
      )

  read_answer :
      {bytes : List Byte} {P : Type 0} (r : Answer (List (Answer (List Byte))))
      → elim r [ done chunks ↦ read_chunks chunks | failed t ↦ err (s3 t) ] ≡ ok bytes
      → ((chunks : List (Answer (List Byte))) → r ≡ done chunks → read_chunks chunks ≡ ok bytes → P)
      → P
  read_answer (done chunks) h f = f chunks refl h
  read_answer (failed t) h f = absurd (cc h)

  read_range :
      (key : Text) (k : ℕ) (s s' : Machine client.World) (bytes prefix : List Byte)
      → service.objects s.world key ≡ some bytes
      → 0 < k
      → k < length bytes
      → call client (get_object_range_bytes client key 0 k) s ≡ (ok prefix, s')
      → Same client bucket service s.world s'.world × (prefix ≡ take k bytes)
  unfolding get_object_range_bytes
  read_range key k s s' bytes prefix there pos inside h =
      let (w, kept, result, same) =
        call_read (get_object_range_bytes client key 0 k) s s' prefix
          (λ v l. service.get_keeps key (0, 0 + k - 1) v l) h in
      let bound : 0 + k - 1 < length bytes = omega (arith, pos, inside) in
      (
        same,
        read_answer (client.get_object key (0, 0 + k - 1) w).0 result (λ chunks e r.
            service.get_reads key 0 (0 + k - 1) w bytes prefix chunks (kept key ∙ there)
              (omega arith) bound e r
            ∙ slice_front k bytes pos),
      )

  module _ (files_prefix : Text) (plan : ChainPlan) (crcs : CrcStore)
      (header body : FileId → List Byte) where
    -- The object that the link before has built.
    abbrev pub IsPrevious : client.World → Option Text → List Byte → Type 0
    IsPrevious w none bytes = bytes ≡ []
    IsPrevious w (some key) bytes = service.objects w key ≡ some bytes

    -- The prefix that is read of a big file is not empty, and not all of it.
    abbrev pub IsReadable : Link → Type 0
    IsReadable (bootstrap anchor k) = (0 < k) × (k < length (body anchor))
    IsReadable (anchor_only anchor) = Unit
    IsReadable (anchor_then_append anchor piece) = Unit
    IsReadable (forward_then_append piece) = Unit

    two_stored :
        {s t u : Machine client.World} {uid : Text} {a b : List Byte} {p q : CompletedPart}
        → IsStored client bucket service s t uid 1 a p
        → IsStored client bucket service t u uid 2 b q
        → Same client bucket service s.world u.world
          × (joined (service.parts u.world uid) (sort_parts (p ∷ q ∷ [])) ≡ some (a ++ b))
    two_stored {s} {t} {u} {uid} {a} {b} {p} {q} i j =
        let apart : 2 ≢ 1 = λ e. omega (arith, e) in
        (
          λ k. j.same k ∙ i.same k,
          join_two (service.parts u.world uid) p q a b i.numbered j.numbered
              (j.kept 1 apart ∙ i.stored) j.stored,
        )

    join_one :
        (stored : ℕ → Option (List Byte)) (p : CompletedPart) (a : List Byte)
        → p.part_number ≡ 1
        → stored 1 ≡ some a
        → joined stored (sort_parts (p ∷ [])) ≡ some (a ++ [])
    unfolding sort_parts insert_part
    join_one stored p a hp ha = rw (joined, hp, ha) refl

    finish :
        (s t u : Machine client.World) (uid : Text) (qs ps : List CompletedPart) (bytes : List Byte)
        → (ok qs ≡ ok ps)
        → t ≡ u
        → Same client bucket service s.world t.world
        → joined (service.parts t.world uid) (sort_parts qs) ≡ some bytes
        → Same client bucket service s.world u.world
          × (joined (service.parts u.world uid) (sort_parts ps) ≡ some bytes)
    finish s t u uid qs ps bytes e f same h =
        let g : qs ≡ ps = cc e in
        subst
          (λ (v : Machine client.World).
            Same client bucket service s.world v.world
            × (joined (service.parts v.world uid) (sort_parts ps) ≡ some bytes))
          f (same, subst (λ l. joined (service.parts t.world uid) (sort_parts l) ≡ some bytes) g h)

    pub IsKnown-kept :
        (s t : Machine client.World) (id : FileId)
        → Same client bucket service s.world t.world
        → IsKnown client bucket service files_prefix plan crcs header body s.world id
        → IsKnown client bucket service files_prefix plan crcs header body t.world id
    IsKnown-kept s t id same i = record {
      entry = i.entry;
      crc = i.crc;
      found = i.found;
      arrived = i.arrived;
      headed = i.headed;
      sized = i.sized;
      there = same (source_key files_prefix i.entry.name) ∙ i.there;
    }

    link_parts-joined :
        (link : Link) (prev_object : Option Text) (prev : List Byte) (key uid : Text)
        (s s' : Machine client.World) (ps : List CompletedPart)
        → IsPrevious s.world prev_object prev
        → IsReadable link
        → All
            (IsKnown client bucket service files_prefix plan crcs header body s.world)
            (link_ids (link ∷ []))
        → link_parts client bucket files_prefix plan crcs link prev_object key uid s ≡ (ok ps, s')
        → Same client bucket service s.world s'.world
          × (joined (service.parts s'.world uid) (sort_parts ps)
              ≡ some (link_bytes header body link prev))
    unfolding link_parts link_ids copy_source source_key
    link_parts-joined (bootstrap anchor k) o prev key uid s s' ps before (pos, inside)
          (i, none_left) h =
        let k1 = lift->>= client _ _ s s' i.entry ps i.found h in
        let k2 =
          lift->>= client _ _ s s' (meta_with i.entry i.crc) ps
            (meta_of-arrived client bucket service files_prefix plan crcs i.entry i.crc i.arrived)
            k1 in
        let (prefix, s1, h1, r1) = >>=-ok client _ _ s s' ps k2 in
        let (same, read) = read_range _ k s s1 (body anchor) prefix i.there pos inside h1 in
        let (p, s2, h2, r2) = >>=-ok client _ _ s1 s' ps r1 in
        let a =
          call-IsStored client bucket service _ s1 s2 uid 1
            (local_header (meta_with i.entry i.crc) ++ prefix) p
            (upload_part-IsPart client bucket service s1.world key uid 1 _) h2 in
        let (q, s4, h3, r3) = >>=-ok client _ _ s2 s' ps r2 in
        let size = i.entry.size in
        let b =
          call-IsStored client bucket service _ s2 s4 uid 2 (drop k (body anchor)) q
            (copy_range-IsPart client bucket service s2.world key uid 2
              (source_key files_prefix i.entry.name) k size (body anchor)
              (a.same _ ∙ same _ ∙ i.there) i.sized (omega (arith, inside, i.sized)))
            h3 in
        let (e, t) = lift-ok client _ s4 s' ps r3 in
        let (kept, both) = two_stored a b in
        finish s s4 s' uid (p ∷ q ∷ []) ps _ e t (λ l. kept l ∙ same l)
          (both ∙ ap₂ (λ t u. some ((t ++ u) ++ drop k (body anchor))) (sym i.headed) read)
    link_parts-joined (anchor_only anchor) o prev key uid s s' ps before readable (i, none_left) h =
        let k1 = lift->>= client _ _ s s' i.entry ps i.found h in
        let (p, s1, h1, r1) = >>=-ok client _ _ s s' ps k1 in
        let a =
          call-IsStored client bucket service _ s s1 uid 1 (body anchor) p
            (copy-IsPart client bucket service s.world key uid 1
              (source_key files_prefix i.entry.name) (body anchor) i.there)
            h1 in
        let (e, t) = lift-ok client _ s1 s' ps r1 in
        finish s s1 s' uid (p ∷ []) ps _ e t a.same (join_one _ p (body anchor) a.numbered a.stored)
    link_parts-joined (anchor_then_append anchor piece) o prev key uid s s' ps before readable
          (i, (j, none_left)) h =
        let k1 = lift->>= client _ _ s s' i.entry ps i.found h in
        let (p, s1, h1, r1) = >>=-ok client _ _ s s' ps k1 in
        let a =
          call-IsStored client bucket service _ s s1 uid 1 (body anchor) p
            (copy-IsPart client bucket service s.world key uid 1
              (source_key files_prefix i.entry.name) (body anchor) i.there)
            h1 in
        let (q, s2, h2, r2) = >>=-ok client _ _ s1 s' ps r1 in
        let b =
          build_piece_part-IsStored client bucket service files_prefix plan crcs header body piece
            key uid 2 s1 s2 q (IsKnown-kept s s1 _ a.same j) h2 in
        let (e, t) = lift-ok client _ s2 s' ps r2 in
        let (kept, both) = two_stored a b in finish s s2 s' uid (p ∷ q ∷ []) ps _ e t kept both
    link_parts-joined (forward_then_append piece) none prev key uid s s' ps before readable
          (j, none_left) h =
        let (e, t) = lift-ok client _ s s' ps h in absurd (cc e)
    link_parts-joined (forward_then_append piece) (some key') prev key uid s s' ps before readable
          (j, none_left) h =
        let (p, s1, h1, r1) = >>=-ok client _ _ s s' ps h in
        let a =
          call-IsStored client bucket service _ s s1 uid 1 prev p
            (copy-IsPart client bucket service s.world key uid 1 key' prev before) h1 in
        let (q, s2, h2, r2) = >>=-ok client _ _ s1 s' ps r1 in
        let b =
          build_piece_part-IsStored client bucket service files_prefix plan crcs header body piece
            key uid 2 s1 s2 q (IsKnown-kept s s1 _ a.same j) h2 in
        let (e, t) = lift-ok client _ s2 s' ps r2 in
        let (kept, both) = two_stored a b in finish s s2 s' uid (p ∷ q ∷ []) ps _ e t kept both

    IsPrevious-kept :
        (s t : Machine client.World) (o : Option Text) (prev : List Byte)
        → Same client bucket service s.world t.world
        → IsPrevious s.world o prev
        → IsPrevious t.world o prev
    IsPrevious-kept s t none prev same h = h
    IsPrevious-kept s t (some key) prev same h = same key ∙ h

    completed :
        (key uid : Text) (ps : List CompletedPart) (s s' : Machine client.World)
        → call client (complete_mpu client key uid ps) s ≡ (ok tt, s')
        → (service.objects s'.world key ≡ joined (service.parts s.world uid) (sort_parts ps))
          × ((k : Text) → key ≢ k → service.objects s'.world k ≡ service.objects s.world k)
    unfolding call complete_mpu
    completed key uid ps s s' h =
        let P : client.World → Type 0 = λ v.
          ((k : Text) → key ≢ k → service.objects v k ≡ service.objects s.world k)
          × ((m : ℕ) → service.parts v uid m ≡ service.parts s.world uid m) in
        let (w, (kept, parts), result, world) =
          with_retry_governed-last (complete_mpu client key uid ps) high P
            (λ v (a, b). (
              λ k e. service.complete_keeps key uid (sort_parts ps) v k e ∙ a k e,
              λ m. service.complete_parts key uid (sort_parts ps) v m ∙ b m,
            ))
            s (λ k e. refl, λ m. refl) in
        let end : s'.world ≡ (client.complete_multipart_upload key uid (sort_parts ps) w).1 =
          ap (λ (r : Result (Unit {0}) × Machine client.World). r.1.world) (sym h) ∙ world in
        let answer : (client.complete_multipart_upload key uid (sort_parts ps) w).0 ≡ done tt =
          completed_answer _
            (sym result ∙ ap (λ (r : Result (Unit {0}) × Machine client.World). r.0) h) in
        (
          ap (λ v. service.objects v key) end
              ∙ service.complete_joins key uid (sort_parts ps) w answer
              ∙ ap (λ stored. joined stored (sort_parts ps)) (fun_ext parts),
          λ k e.
              ap (λ v. service.objects v k) end
              ∙ service.complete_keeps key uid (sort_parts ps) w k e
              ∙ kept k e,
        )

    -- A link that is built is an object of its key, and no other object is changed.
    pub build_one_link-object :
        (link : Link) (o : Option Text) (prev : List Byte) (key : Text)
        (s s' : Machine client.World)
        → IsPrevious s.world o prev
        → IsReadable link
        → All
            (IsKnown client bucket service files_prefix plan crcs header body s.world)
            (link_ids (link ∷ []))
        → build_one_link client bucket files_prefix plan crcs link o key s ≡ (ok tt, s')
        → (service.objects s'.world key ≡ some (link_bytes header body link prev))
          × ((k : Text) → key ≢ k → service.objects s'.world k ≡ service.objects s.world k)
    unfolding build_one_link create_mpu
    build_one_link-object link o prev key s s' before readable known h =
        let (uid, s1, h1, r1) = >>=-ok client _ _ s s' tt h in
        let (w, kept, result, opened) =
          call_read (create_mpu client key) s s1 uid (λ v l. service.create_keeps key v l) h1 in
        let (ps, s2, h2, r2) = >>=-ok client _ _ s1 s' tt r1 in
        let (same, joins) =
          link_parts-joined link o prev key uid s1 s2 ps (IsPrevious-kept s s1 o prev opened before)
            readable (All-map (link_ids (link ∷ [])) (λ id i. IsKnown-kept s s1 id opened i) known)
            h2 in
        let (built, others) = completed key uid ps s2 s' r2 in
        (built ∙ joins, λ k e. others k e ∙ same k ∙ opened k)
