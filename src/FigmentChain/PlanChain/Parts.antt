-- ===== src/FigmentChain/PlanChain/Parts.antt =====
-- The two parts of each link of a plan of the chain: their sizes, and S3's floor.
use demo_s3_archiving.Prelude.{ℕ, zero, suc, ◌-◌, ◌≤◌, ◌≡◌, refl, ap, subst, arith}
use demo_s3_archiving.Prelude.{
  List, [], ◌∷◌, ◌++◌, map, length, length-append, length-take, take, drop, sum_by, All, All-append,
}
use demo_s3_archiving.Bytes.{Byte}
use demo_s3_archiving.Figment.Plan.{FileId, SourceFile, SizeOf, part_floor}
use demo_s3_archiving.FigmentChain.PlanChain.{
  Piece, header_of, body_of, Link, forward_then_append, Segment, Bucket, ChainPlan, ok, next_big,
  pieces_of, links_of, object_len_of, plen, hdr, body_len, Chaining, add_segment, add_segments,
  make_buckets, start, plan_segment_chain,
}
use demo_s3_archiving.FigmentChain.PlanChain.Contents.{
  piece_bytes, pieces_bytes, first_part, link_bytes, chain_bytes, links_of-bytes,
}
use demo_s3_archiving.FigmentChain.PlanChain.Offsets.{IsMeasured}
use demo_s3_archiving.FigmentChain.PlanChain.Whole.{
  bigs_of, smalls_of, table, planned, looked_up-IsDistinct, anchors-floored,
}

module _ (header body : FileId → List Byte) where
  -- The first part of each link of a chain is no smaller than S3 takes it, wherever the chain is.
  abbrev pub IsFloored : List Link → List Byte → Type 0
  IsFloored [] prev = Unit
  IsFloored (link ∷ links) prev =
      (part_floor ≤ length (first_part header body link prev))
      × IsFloored links (link_bytes header body link prev)

  forward-IsFloored :
      (ps : List Piece) (prev : List Byte)
      → part_floor ≤ length prev
      → IsFloored (map forward_then_append ps) prev
  forward-IsFloored [] prev h = tt
  forward-IsFloored (p ∷ ps) prev h = (
    h,
    forward-IsFloored ps (prev ++ piece_bytes header body p)
        (omega (arith, h, length-append prev (piece_bytes header body p))),
  )

  module _ (size_of : SizeOf) (known : (id : FileId) → IsMeasured header body size_of id) where
    pieces-len : (ps : List Piece) → length (pieces_bytes header body ps) ≡ sum_by (plen size_of) ps
    unfolding plen hdr body_len
    pieces-len [] = refl
    pieces-len (header_of id ∷ ps) =
        omega
          (arith, length-append (header id) (pieces_bytes header body ps), known id, pieces-len ps)
    pieces-len (body_of id ∷ ps) =
        omega
          (arith, length-append (body id) (pieces_bytes header body ps), known id, pieces-len ps)

    -- The object of a segment is as long as the planner says.
    length-links_of :
        (k : ℕ) (anchor : FileId) (ps : List Piece)
        → length (chain_bytes header body (links_of size_of k anchor ps) [])
          ≡ object_len_of size_of k anchor ps
    unfolding object_len_of hdr body_len
    length-links_of zero anchor ps = omega (
      arith,
      ap length (links_of-bytes header body size_of zero anchor ps),
      length-append (header anchor) (body anchor ++ pieces_bytes header body ps),
      length-append (body anchor) (pieces_bytes header body ps),
      known anchor,
      pieces-len ps,
    )
    length-links_of (suc k) anchor ps = omega (
      arith,
      ap length (links_of-bytes header body size_of (suc k) anchor ps),
      length-append (body anchor) (pieces_bytes header body ps),
      known anchor,
      pieces-len ps,
    )

    links_of-IsFloored :
        (k : ℕ) (anchor : FileId) (ps : List Piece)
        → part_floor ≤ body_len size_of anchor
        → IsFloored (links_of size_of k anchor ps) []
    unfolding links_of hdr body_len
    links_of-IsFloored zero anchor ps large =
        let steal = part_floor - hdr size_of anchor in
        let first : part_floor ≤ length (header anchor ++ take steal (body anchor)) = omega (
          arith,
          length-append (header anchor) (take steal (body anchor)),
          length-take steal (body anchor),
          known anchor,
          large,
        ) in
        (
          first,
          forward-IsFloored ps _ (
              omega (
                arith,
                first,
                length-append (header anchor ++ take steal (body anchor))
                    (drop steal (body anchor)),
              )),
        )
    links_of-IsFloored (suc k) anchor [] large = (omega (arith, known anchor, large), tt)
    links_of-IsFloored (suc k) anchor (p ∷ ps) large = (
      omega (arith, known anchor, large),
      forward-IsFloored ps _ (
          omega
            (arith, known anchor, large, length-append (body anchor) (piece_bytes header body p))),
    )

  -- The object that the links of a segment build is as long as the planner says, and the first part
  -- of each of the links has at least `PART_FLOOR` bytes.
  pub record IsBuilt (s : Segment) : Type 0 where
    pub long : length (chain_bytes header body s.links []) ≡ s.object_len
    pub floored : IsFloored s.links []

  module _ (size_of : SizeOf) (known : (id : FileId) → IsMeasured header body size_of id) where
    add_segments-IsBuilt :
        (bs : List Bucket) (k : ℕ) (c : Chaining)
        → All (λ b. part_floor ≤ body_len size_of b.0) bs
        → All IsBuilt c.segments
        → All IsBuilt (add_segments size_of k bs c).segments
    unfolding add_segments add_segment
    add_segments-IsBuilt [] k c h i = i
    add_segments-IsBuilt (b ∷ bs) k c (large, h) i =
        let ps = pieces_of b.1 (next_big bs) in
        add_segments-IsBuilt bs (suc k) (add_segment size_of k b (next_big bs) c) h (
          All-append IsBuilt c.segments _ i (
            record {
              long = length-links_of size_of known k b.0 ps;
              floored = links_of-IsFloored size_of known k b.0 ps large;
            },
            tt,
          ))

  -- Where there is a plan, the object that the links of each segment build is as long as the plan
  -- says, and the first part of each link, which is not the last of its upload but for the link that
  -- copies a big file alone, has at least `PART_FLOOR` bytes, if the headers and bodies are as long
  -- as the planner's table of names and sizes says.
  pub plan_segment_chain-IsBuilt :
      (files : List SourceFile) (plan : ChainPlan)
      → ((id : FileId) → IsMeasured header body (table files) id)
      → plan_segment_chain files ≡ ok plan
      → All IsBuilt plan.segments
  plan_segment_chain-IsBuilt files plan known e =
      let (r, big, found, same) = planned files plan e in
      subst (λ (p : ChainPlan). All IsBuilt p.segments) same
        (add_segments-IsBuilt (table files) known (make_buckets (bigs_of files) (smalls_of files)) 0
          start (anchors-floored files (looked_up-IsDistinct files r big found)) tt)
