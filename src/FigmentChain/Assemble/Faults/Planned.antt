-- ===== src/FigmentChain/Assemble/Faults/Planned.antt =====
-- The tasks of the segments of a plan: their links and their ids are those of the plan.
use demo_s3_archiving.Prelude.{ℕ, zero, suc, ◌≤◌, ◌≡◌, refl, ap, ◌∙◌, subst, arith}
use demo_s3_archiving.Prelude.{true, Option-cases, List, [], ◌∷◌, inl, inr, All, All-append}
use demo_s3_archiving.Bytes.{Text}
use demo_s3_archiving.Figment.Plan.{FileId, SourceFile, SizeOf, compute_offsets}
use demo_s3_archiving.FigmentChain.PlanChain.{
  Entry, Piece, Segment, ChainPlan, Bucket, next_big, pieces_of, links_of, Chaining, add_segment,
  add_segments, start, make_buckets, plan_segment_chain,
}
use demo_s3_archiving.FigmentChain.PlanChain
use demo_s3_archiving.FigmentChain.PlanChain.Table.{
  count, listed, entries_of-listed, entries_of-distinct,
}
use demo_s3_archiving.FigmentChain.PlanChain.Offsets.{listed-ids}
use demo_s3_archiving.FigmentChain.PlanChain.Whole.{table, bigs_of, smalls_of, chained, planned}
use demo_s3_archiving.FigmentChain.Assemble.{ok, Machine}
use demo_s3_archiving.FigmentChain.Assemble.Service.{Client}
use demo_s3_archiving.FigmentChain.Assemble.Build.{
  CrcStore, is_some, all_present, entry_at, meta_of, segment_crc_ids, build_segment_object,
}
use demo_s3_archiving.FigmentChain.Assemble.Directory.{Entries, keys, entry_at-found}
use demo_s3_archiving.FigmentChain.Assemble.Waiting.{waiting-All}
use demo_s3_archiving.FigmentChain.Assemble.Faults.{
  Comes, IsReady, IsStarting, build_segment_object-IsSafe,
}

-- An id that has an entry of its own in a plan.
abbrev IsListed : Entries → FileId → Type 0
IsListed entries id = (e : Entry) × (entry_at entries id ≡ ok e) × (e.id ≡ id)

links_of-IsStarting :
    (size_of : SizeOf) (k : ℕ) (anchor : FileId) (ps : List Piece)
    → IsStarting (links_of size_of k anchor ps)
unfolding links_of
links_of-IsStarting size_of zero anchor ps = tt
links_of-IsStarting size_of (suc k) anchor [] = tt
links_of-IsStarting size_of (suc k) anchor (p ∷ ps) = tt

segments-IsStarting :
    (size_of : SizeOf) (bs : List Bucket) (k : ℕ) (c : Chaining)
    → All (λ seg. IsStarting seg.links) c.segments
    → All (λ seg. IsStarting seg.links) (add_segments size_of k bs c).segments
unfolding add_segments add_segment
segments-IsStarting size_of [] k c h = h
segments-IsStarting size_of (b ∷ bs) k c h =
    segments-IsStarting size_of bs (suc k) (add_segment size_of k b (next_big bs) c) (
      All-append (λ seg. IsStarting seg.links) c.segments _ h
        (links_of-IsStarting size_of k b.0 (pieces_of b.1 (next_big bs)), tt))

planned-IsStarting :
    (files : List SourceFile) (plan : ChainPlan)
    → plan_segment_chain files ≡ PlanChain.ok plan
    → All (λ seg. IsStarting seg.links) plan.segments
planned-IsStarting files plan e =
    let (r, big, found, same) = planned files plan e in
    subst (λ (p : ChainPlan). All (λ seg. IsStarting seg.links) p.segments) same
      (segments-IsStarting (table files) (make_buckets (bigs_of files) (smalls_of files)) 0 start
        tt)

listed_own :
    (full : Entries) (size_of : SizeOf) (order : List FileId) (acc : ℕ)
    → All (λ p. entry_at full p.0 ≡ ok p.1) (listed size_of acc order)
    → All (IsListed full) order
listed_own full size_of [] acc h = tt
listed_own full size_of (id ∷ order) acc (e, h) = ((_, e, refl), listed_own full size_of order _ h)

-- Each id of the order of a plan has an entry.
planned-IsListed :
    (files : List SourceFile) (plan : ChainPlan)
    → plan_segment_chain files ≡ PlanChain.ok plan
    → All (IsListed plan.entries) plan.order
unfolding compute_offsets
planned-IsListed files plan e =
    let (r, big, found, same) = planned files plan e in
    let order = (chained files).order in
    let read = entries_of-listed (table files) order [] 0 r found in
    let own : r.0 ≡ listed (table files) 0 order = ap (λ (q : Entries × ℕ). q.0) read in
    let keyed : keys r.0 ≡ order = ap keys own ∙ listed-ids (table files) order 0 in
    let single : (a : FileId) → count a (keys r.0) ≤ 1 = λ a. omega (
      arith,
      ap (count a) keyed,
      entries_of-distinct (table files) order [] _ r found (λ b. omega arith) a,
    ) in
    subst (λ (p : ChainPlan). All (IsListed p.entries) p.order) same
      (listed_own r.0 (table files) order 0
        (subst (All (λ p. entry_at r.0 p.0 ≡ ok p.1)) own (entry_at-found r.0 single)))

module _ (client : Client) (bucket files_prefix : Text) (crcs : CrcStore) where
  ready :
      (plan : ChainPlan) (ids : List FileId)
      → All (IsListed plan.entries) ids
      → all_present crcs ids ≡ true
      → All (IsReady client bucket files_prefix plan crcs) ids
  unfolding all_present is_some meta_of
  ready plan [] h present = tt
  ready plan (id ∷ ids) ((e, found, own), h) present = elim (Option-cases (crcs id)) [
    | inl n ↦ absurd (cc (rw n at present))
    | inr (crc, s) ↦ (
      (
        e,
        record {
          name = e.name;
          size = e.size;
          crc = crc;
          local_header_offset = e.local_header_offset;
        },
        found,
        rw (meta_of, own, s) refl,
      ),
      ready plan ids h (rw s at present),
    )
  ]

  -- Whatever S3 answers, and in whatever state it starts: for a plan, once the CRCs that the tasks of
  -- its segments wait for are in the store, no call of `build_segment_object` for one of its segments
  -- panics or ends with the error of a missing CRC. It succeeds, or fails with an error of S3, with an
  -- upload id or a tag that S3 has left out, or with a body that breaks off.
  pub build_segment_object-Comes :
      (files : List SourceFile) (plan : ChainPlan) (seg_key : Segment → Text)
      (s : Machine client.World)
      → plan_segment_chain files ≡ PlanChain.ok plan
      → All (λ seg. all_present crcs (segment_crc_ids seg) ≡ true) plan.segments
      → All
          (λ seg.
            Comes (build_segment_object client bucket files_prefix plan crcs seg (seg_key seg) s).0)
          plan.segments
  build_segment_object-Comes files plan seg_key s e present =
      each plan.segments (planned-IsStarting files plan e)
        (waiting-All (IsListed plan.entries) files plan e (planned-IsListed files plan e)) present
    where
      each :
          (segs : List Segment)
          → All (λ seg. IsStarting seg.links) segs
          → All (λ seg. All (IsListed plan.entries) (segment_crc_ids seg)) segs
          → All (λ seg. all_present crcs (segment_crc_ids seg) ≡ true) segs
          → All
              (λ seg.
                Comes
                  (build_segment_object client bucket files_prefix plan crcs seg (seg_key seg) s).0)
              segs
      each [] a b c = tt
      each (seg ∷ segs) (a, starting) (b, own) (c, there) = (
        build_segment_object-IsSafe client bucket files_prefix plan crcs seg (seg_key seg) a
            (ready plan (segment_crc_ids seg) b c) s,
        each segs starting own there,
      )
