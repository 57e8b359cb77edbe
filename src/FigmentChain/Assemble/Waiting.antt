-- ===== src/FigmentChain/Assemble/Waiting.antt =====
-- No task of a segment waits for ever: what it waits for is what the producer of the CRCs provides.
use demo_s3_archiving.Prelude.{ℕ, zero, suc, ◌≡◌, refl, ap, subst, arith, inl, inr}
use demo_s3_archiving.Prelude.{
  true, Bool-cases, leb, ◌==◌, Option, none, some, List, [], ◌∷◌, map, All, All-append,
  All-append_inv, All-map,
}
use demo_s3_archiving.Bytes.{Text}
use demo_s3_archiving.Figment.Plan.{FileId, SourceFile, SizeOf}
use demo_s3_archiving.FigmentChain.PlanChain.{
  Piece, header_of, body_of, Link, bootstrap, anchor_only, anchor_then_append, forward_then_append,
  Segment, ChainPlan, Bucket, next_big, pieces_of, links_of, Chaining, add_segment, add_segments,
  start, make_buckets, plan_segment_chain,
}
use demo_s3_archiving.FigmentChain.PlanChain
use demo_s3_archiving.FigmentChain.PlanChain.Whole.{table, bigs_of, smalls_of, planned}
use demo_s3_archiving.FigmentChain.Assemble.{ok, Machine}
use demo_s3_archiving.FigmentChain.Assemble.Service.{Client}
use demo_s3_archiving.FigmentChain.Assemble.Build.{
  CrcStore, put, is_some, all_present, piece_id, link_ids, insert_id, sort_ids, dedup_after, dedup,
  segment_crc_ids,
}
use demo_s3_archiving.FigmentChain.Assemble.Retry.{Result-cases}
use demo_s3_archiving.FigmentChain.Assemble.Run.{head_crc, produce_crcs}

module _ (P : FileId → Type 0) where
  insert_id-keeps : (id : FileId) (xs : List FileId) → P id → All P xs → All P (insert_id id xs)
  unfolding insert_id
  insert_id-keeps id [] p h = (p, tt)
  insert_id-keeps id (x ∷ xs) p (q, h) = elim (Bool-cases (leb id x)) [
    | inl e ↦ rw (e, All) ((p, (q, h)))
    | inr e ↦ rw (e, All) ((q, insert_id-keeps id xs p h))
  ]

  sort_ids-keeps : (xs : List FileId) → All P xs → All P (sort_ids xs)
  unfolding sort_ids
  sort_ids-keeps [] h = tt
  sort_ids-keeps (x ∷ xs) (p, h) = insert_id-keeps x (sort_ids xs) p (sort_ids-keeps xs h)

  dedup_after-keeps : (xs : List FileId) (last : FileId) → All P xs → All P (dedup_after last xs)
  unfolding dedup_after
  dedup_after-keeps [] last h = tt
  dedup_after-keeps (x ∷ xs) last (p, h) = elim (Bool-cases (last == x)) [
    | inl e ↦ rw (dedup_after, e) (dedup_after-keeps xs last h)
    | inr e ↦ rw (dedup_after, e) ((p, dedup_after-keeps xs x h))
  ]

  segment_crc_ids-keeps : (seg : Segment) → All P (link_ids seg.links) → All P (segment_crc_ids seg)
  unfolding segment_crc_ids
  segment_crc_ids-keeps seg h = dedup-keeps (sort_ids (link_ids seg.links)) (sort_ids-keeps _ h)
    where
      dedup-keeps : (xs : List FileId) → All P xs → All P (dedup xs)
      dedup-keeps [] h = tt
      dedup-keeps (x ∷ xs) (p, h) = (p, dedup_after-keeps xs x h)

  IsNext : Option FileId → Type 0
  IsNext none = Unit
  IsNext (some id) = P id

  pieces_of-All :
      (smalls : List FileId) (next : Option FileId)
      → All P smalls
      → IsNext next
      → All (λ p. P (piece_id p)) (pieces_of smalls next)
  unfolding pieces_of piece_id IsNext
  pieces_of-All [] none h n = tt
  pieces_of-All [] (some big) h n = (n, tt)
  pieces_of-All (s ∷ smalls) next (p, h) n = (p, (p, pieces_of-All smalls next h n))

  forward-All :
      (ps : List Piece)
      → All (λ p. P (piece_id p)) ps
      → All P (link_ids (map forward_then_append ps))
  unfolding link_ids
  forward-All [] h = tt
  forward-All (p ∷ ps) (q, h) = (q, forward-All ps h)

  links_of-All :
      (size_of : SizeOf) (k : ℕ) (anchor : FileId) (ps : List Piece)
      → P anchor
      → All (λ p. P (piece_id p)) ps
      → All P (link_ids (links_of size_of k anchor ps))
  unfolding links_of link_ids
  links_of-All size_of zero anchor ps p h = (p, forward-All ps h)
  links_of-All size_of (suc k) anchor [] p h = (p, tt)
  links_of-All size_of (suc k) anchor (q ∷ ps) p (r, h) = (p, (r, forward-All ps h))

  -- What holds of the ids of the order holds of those of the buckets.
  order-All :
      (size_of : SizeOf) (bs : List Bucket) (k : ℕ) (c : Chaining)
      → All P (add_segments size_of k bs c).order
      → All P c.order × All (λ b. P b.0 × All P b.1) bs
  unfolding add_segments add_segment
  order-All size_of [] k c h = (h, tt)
  order-All size_of (b ∷ bs) k c h =
      let (own, rest) = order-All size_of bs (suc k) (add_segment size_of k b (next_big bs) c) h in
      let (before, bucket) = All-append_inv P c.order (b.0 ∷ b.1) own in (before, (bucket, rest))

  -- And of those that the links of the segments need.
  segments-All :
      (size_of : SizeOf) (bs : List Bucket) (k : ℕ) (c : Chaining)
      → All (λ b. P b.0 × All P b.1) bs
      → All (λ seg. All P (link_ids seg.links)) c.segments
      → All (λ seg. All P (link_ids seg.links)) (add_segments size_of k bs c).segments
  unfolding add_segments add_segment IsNext next_big
  segments-All size_of [] k c h s = s
  segments-All size_of (b ∷ bs) k c ((p, q), h) s =
      let ps = pieces_of b.1 (next_big bs) in
      segments-All size_of bs (suc k) (add_segment size_of k b (next_big bs) c) h (
        All-append (λ seg. All P (link_ids seg.links)) c.segments _ s
          (links_of-All size_of k b.0 ps p (pieces_of-All b.1 (next_big bs) q (is_next bs h)), tt))
    where
      is_next : (bs : List Bucket) → All (λ b. P b.0 × All P b.1) bs → IsNext (next_big bs)
      is_next [] h = tt
      is_next (b ∷ bs) ((p, q), h) = p

  -- What holds of the ids of a plan holds of those that the tasks of its segments wait for.
  pub waiting-All :
      (files : List SourceFile) (plan : ChainPlan)
      → plan_segment_chain files ≡ PlanChain.ok plan
      → All P plan.order
      → All (λ seg. All P (segment_crc_ids seg)) plan.segments
  waiting-All files plan e =
      let (r, big, found, same) = planned files plan e in
      subst (λ (p : ChainPlan). All P p.order → All (λ seg. All P (segment_crc_ids seg)) p.segments)
        same
        (λ h.
          let (before, buckets) =
            order-All (table files) (make_buckets (bigs_of files) (smalls_of files)) 0 start h in
          All-map _ (λ seg i. segment_crc_ids-keeps seg i)
            (segments-All (table files) (make_buckets (bigs_of files) (smalls_of files)) 0 start
              buckets tt))

-- The CRC of an id has arrived.
abbrev HasArrived : CrcStore → FileId → Type 0
HasArrived crcs id = is_some (crcs id) ≡ true

put-arrived :
    (id other : FileId) (crc : ℕ) (crcs : CrcStore)
    → HasArrived crcs other
    → HasArrived (put id crc crcs) other
unfolding put is_some
put-arrived id other crc crcs h = elim (Bool-cases (id == other)) [
  | inl e ↦ rw e refl
  | inr e ↦ rw e h
]

put-own : (id : FileId) (crc : ℕ) (crcs : CrcStore) → HasArrived (put id crc crcs) id
unfolding put is_some
put-own id crc crcs = let e : (id == id) ≡ true = ground arith in rw e refl

all_present-All :
    (crcs : CrcStore) (ids : List FileId) → All (HasArrived crcs) ids → all_present crcs ids ≡ true
unfolding all_present
all_present-All crcs [] h = refl
all_present-All crcs (id ∷ ids) (p, h) = rw (p, all_present-All crcs ids h) refl

module _ (client : Client) (bucket files_prefix archive_key : Text) (shown_id : FileId → Text)
    (plan : ChainPlan) where
  produced :
      (order : List FileId) (crcs crcs' : CrcStore) (s s' : Machine client.World)
      → produce_crcs client bucket files_prefix archive_key shown_id plan order crcs s
        ≡ (ok tt, crcs', s')
      → All (HasArrived crcs') order × ((id : FileId) → HasArrived crcs id → HasArrived crcs' id)
  unfolding produce_crcs
  produced [] crcs crcs' s s' e =
      let same : crcs ≡ crcs' = ap (λ r. r.1) e in (tt, λ id h. subst (λ c. HasArrived c id) same h)
  produced (id ∷ order) crcs crcs' s s' e =
      elim (Result-cases (head_crc client bucket files_prefix archive_key shown_id plan id s).0) [
        | inl (crc, h) ↦
            let t = (head_crc client bucket files_prefix archive_key shown_id plan id s).1 in
            let (rest, kept) =
              produced order (put id crc crcs) crcs' t s' (rw (produce_crcs, h) at e) in
            (
              (kept id (put-own id crc crcs), rest),
              λ other a. kept other (put-arrived id other crc crcs a),
            )
        | inr (x, h) ↦ absurd (cc (ap (λ r. r.0) (rw (produce_crcs, h) at e)))
      ]

  -- Where the producer of the CRCs of a plan succeeds, in whatever state of S3 and with whatever CRCs
  -- it starts, all the CRCs that the task of any segment of the plan waits for are in the store: no
  -- task waits for ever.
  pub produce_crcs-all_present :
      (files : List SourceFile) (crcs crcs' : CrcStore) (s s' : Machine client.World)
      → plan_segment_chain files ≡ PlanChain.ok plan
      → produce_crcs client bucket files_prefix archive_key shown_id plan plan.order crcs s
        ≡ (ok tt, crcs', s')
      → All (λ seg. all_present crcs' (segment_crc_ids seg) ≡ true) plan.segments
  produce_crcs-all_present files crcs crcs' s s' e h =
      All-map plan.segments (λ seg i. all_present-All crcs' (segment_crc_ids seg) i)
        (waiting-All (HasArrived crcs') files plan e (produced plan.order crcs crcs' s s' h).0)
