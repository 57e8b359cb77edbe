-- ===== src/FigmentChain/Assemble/Segments.antt =====
-- The object that the links of a segment build, from the CRCs that its task waits for.
use demo_s3_archiving.Prelude.{ℕ, suc, ◌<◌, ◌≡◌, ◌≢◌, refl, ◌∙◌, subst, arith, inl, inr}
use demo_s3_archiving.Prelude.{
  true, false, Bool-cases, leb, ◌==◌, Option, none, some, List, [], ◌∷◌, ◌++◌, append-nil, length,
  All, All-map,
}
use demo_s3_archiving.Bytes.{Byte, Text, codes}
use demo_s3_archiving.Figment.Plan.{FileId}
use demo_s3_archiving.FigmentChain.PlanChain.{
  Link, bootstrap, anchor_only, anchor_then_append, forward_then_append, Segment, ChainPlan,
}
use demo_s3_archiving.FigmentChain.PlanChain.Contents.{link_bytes, chain_bytes}
use demo_s3_archiving.FigmentChain.Assemble.{ok, Machine}
use demo_s3_archiving.FigmentChain.Assemble.Service.{Client}
use demo_s3_archiving.FigmentChain.Assemble.Build.{
  CrcStore, source_key, link_key, decimal, link_ids, insert_id, sort_ids, dedup_after, dedup,
  segment_crc_ids, build_links, build_segment_object,
}
use demo_s3_archiving.FigmentChain.Assemble.Interface.{IsService}
use demo_s3_archiving.FigmentChain.Assemble.Attempts.{>>=-ok}
use demo_s3_archiving.FigmentChain.Assemble.Objects.{IsKnown}
use demo_s3_archiving.FigmentChain.Assemble.Links.{IsPrevious, IsReadable, build_one_link-object}

dedup_same :
    (last x : FileId) (xs : List FileId)
    → (last == x) ≡ true
    → dedup_after last (x ∷ xs) ≡ dedup_after last xs
unfolding dedup_after
dedup_same last x xs e = rw (dedup_after, e) refl

dedup_new :
    (last x : FileId) (xs : List FileId)
    → (last == x) ≡ false
    → dedup_after last (x ∷ xs) ≡ x ∷ dedup_after x xs
unfolding dedup_after
dedup_new last x xs e = rw (dedup_after, e) refl

module _ (P : FileId → Type 0) where
  insert_id-All : (id : FileId) (xs : List FileId) → All P (insert_id id xs) → P id × All P xs
  unfolding insert_id
  insert_id-All id [] h = h
  insert_id-All id (x ∷ xs) h = elim (Bool-cases (leb id x)) [
    | inl e ↦ rw e at h
    | inr e ↦
        let k : P x × All P (insert_id id xs) = rw e at h in
        let (p, rest) = insert_id-All id xs k.1 in (p, (k.0, rest))
  ]

  sort_ids-All : (xs : List FileId) → All P (sort_ids xs) → All P xs
  unfolding sort_ids
  sort_ids-All [] h = h
  sort_ids-All (x ∷ xs) h =
      let (p, rest) = insert_id-All x (sort_ids xs) h in (p, sort_ids-All xs rest)

  dedup_after-All :
      (xs : List FileId) (last : FileId) → P last → All P (dedup_after last xs) → All P xs
  unfolding dedup_after
  dedup_after-All [] last p h = tt
  dedup_after-All (x ∷ xs) last p h = elim (Bool-cases (last == x)) [
    | inl e ↦
        let same : last ≡ x = ground (arith, e) in
        (subst P same p, dedup_after-All xs last p (subst (All P) (dedup_same last x xs e) h))
    | inr e ↦
        let k : P x × All P (dedup_after x xs) = subst (All P) (dedup_new last x xs e) h in
        (k.0, dedup_after-All xs x k.0 k.1)
  ]

  dedup-All : (xs : List FileId) → All P (dedup xs) → All P xs
  unfolding dedup
  dedup-All [] h = tt
  dedup-All (x ∷ xs) (p, h) = (p, dedup_after-All xs x p h)

  -- The ids that a task waits for are all that its links need.
  pub segment_crc_ids-All :
      (seg : Segment) → All P (segment_crc_ids seg) → All P (link_ids seg.links)
  unfolding segment_crc_ids
  segment_crc_ids-All seg h =
      sort_ids-All (link_ids seg.links) (dedup-All (sort_ids (link_ids seg.links)) h)

  pub link_ids-All :
      (link : Link) (links : List Link)
      → All P (link_ids (link ∷ links))
      → All P (link_ids (link ∷ [])) × All P (link_ids links)
  unfolding link_ids
  link_ids-All (bootstrap anchor k) links (p, h) = ((p, tt), h)
  link_ids-All (anchor_only anchor) links (p, h) = ((p, tt), h)
  link_ids-All (anchor_then_append anchor piece) links (p, (q, h)) = ((p, (q, tt)), h)
  link_ids-All (forward_then_append piece) links (p, h) = ((p, tt), h)

module _ (client : Client) (bucket : Text) (service : IsService client bucket) where
  module _ (files_prefix : Text) (plan : ChainPlan) (crcs : CrcStore)
      (header body : FileId → List Byte) where
    abbrev Known : client.World → FileId → Type 0
    Known w id = IsKnown client bucket service files_prefix plan crcs header body w id

    -- No key that starts with that of the segment is the key of a source.
    abbrev pub IsApart : Text → Type 0
    IsApart seg_key = (suffix name : Text) → seg_key ++ suffix ≢ source_key files_prefix name

    IsKnown_past_link :
        (seg_key suffix : Text) (s t : Machine client.World) (id : FileId)
        → IsApart seg_key
        → ((k : Text)
            → seg_key ++ suffix ≢ k
            → service.objects t.world k ≡ service.objects s.world k)
        → Known s.world id
        → Known t.world id
    IsKnown_past_link seg_key suffix s t id apart kept i = record {
      entry = i.entry;
      crc = i.crc;
      found = i.found;
      arrived = i.arrived;
      headed = i.headed;
      sized = i.sized;
      there = kept (source_key files_prefix i.entry.name) (apart suffix i.entry.name) ∙ i.there;
    }

    build_links-object :
        (seg_key : Text)
        → IsApart seg_key
        → (links : List Link) (link : Link) (li : ℕ) (o : Option Text) (prev : List Byte)
          (s s' : Machine client.World)
        → IsPrevious client bucket service files_prefix plan crcs header body s.world o prev
        → All (IsReadable client bucket service files_prefix plan crcs header body) (link ∷ links)
        → All (Known s.world) (link_ids (link ∷ links))
        → build_links client bucket files_prefix plan crcs li o (link ∷ links) seg_key s
          ≡ (ok tt, s')
        → (service.objects s'.world seg_key ≡ some (chain_bytes header body (link ∷ links) prev))
          × ((k : Text)
              → ((suffix : Text) → seg_key ++ suffix ≢ k)
              → service.objects s'.world k ≡ service.objects s.world k)
    unfolding build_links link_key
    build_links-object seg_key apart [] link li o prev s s' before (r, none_left) known h =
        let (built, others) =
          build_one_link-object client bucket service files_prefix plan crcs header body link o prev
            seg_key s s' before r known h in
        (built, λ k e. others k (subst (λ t. t ≢ k) (append-nil seg_key) (e [])))
    build_links-object seg_key apart (next ∷ links) link li o prev s s' before (r, rs) known h =
        let suffix = codes ".l" ++ decimal li in
        let (u, s1, h1, r1) = >>=-ok client _ _ s s' tt h in
        let (own, rest) = link_ids-All (Known s.world) link (next ∷ links) known in
        let (built, others) =
          build_one_link-object client bucket service files_prefix plan crcs header body link o prev
            (seg_key ++ suffix) s s1 before r own h1 in
        let (last, kept) =
          build_links-object seg_key apart links next (suc li) (some (seg_key ++ suffix))
            (link_bytes header body link prev) s1 s' built rs
            (All-map (link_ids (next ∷ links))
              (λ id i. IsKnown_past_link seg_key suffix s s1 id apart others i) rest)
            r1 in
        (last, λ k e. kept k e ∙ others k (e suffix))

    some_links-object :
        (seg_key : Text) (links : List Link) (s s' : Machine client.World)
        → IsApart seg_key
        → 0 < length links
        → All (IsReadable client bucket service files_prefix plan crcs header body) links
        → All (Known s.world) (link_ids links)
        → build_links client bucket files_prefix plan crcs 0 none links seg_key s ≡ (ok tt, s')
        → (service.objects s'.world seg_key ≡ some (chain_bytes header body links []))
          × ((k : Text)
              → ((suffix : Text) → seg_key ++ suffix ≢ k)
              → service.objects s'.world k ≡ service.objects s.world k)
    some_links-object seg_key [] s s' apart h readable known e = absurd (omega (arith, h))
    some_links-object seg_key (link ∷ links) s s' apart h readable known e =
        build_links-object seg_key apart links link 0 none [] s s' refl readable known e

    -- Where the CRCs of the ids that the task of a segment waits for have arrived and their objects
    -- are in the bucket, and no key of the segment is that of a source, a task that builds the
    -- segment's object and does not fail leaves at the segment's key the object of the plan's links,
    -- and changes no object but those whose keys start with it. The prefix that is read of a big file
    -- is neither empty nor all of it.
    pub build_segment_object-object :
        (seg : Segment) (seg_key : Text) (s s' : Machine client.World) (k : Text)
        → IsApart seg_key
        → 0 < length seg.links
        → All (IsReadable client bucket service files_prefix plan crcs header body) seg.links
        → All (Known s.world) (segment_crc_ids seg)
        → ((suffix : Text) → seg_key ++ suffix ≢ k)
        → build_segment_object client bucket files_prefix plan crcs seg seg_key s ≡ (ok tt, s')
        → (service.objects s'.world seg_key ≡ some (chain_bytes header body seg.links []))
          × (service.objects s'.world k ≡ service.objects s.world k)
    unfolding build_segment_object
    build_segment_object-object seg seg_key s s' k apart some_links readable known other h =
        let (built, others) =
          some_links-object seg_key seg.links s s' apart some_links readable
            (segment_crc_ids-All (Known s.world) seg known) h in
        (built, others k other)
