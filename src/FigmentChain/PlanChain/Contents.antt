-- ===== src/FigmentChain/PlanChain/Contents.antt =====
-- What the links of a segment build, and what the segments of a plan make stitched together: the
-- entries in their order, each with its header and its whole body.
use demo_s3_archiving.Prelude.{ℕ, zero, suc, ◌≡◌, refl, sym, ap, ap₂, ◌∙◌}
use demo_s3_archiving.Prelude.{
  List, [], ◌∷◌, ◌++◌, map, append_assoc, append-nil, Option, none, some,
}
use demo_s3_archiving.Prelude.{take, drop, take-append-drop}
use demo_s3_archiving.Bytes.{Byte}
use demo_s3_archiving.Figment.Plan.{FileId, SizeOf}
use demo_s3_archiving.Figment.Plan.Contents.{order_bytes}
use demo_s3_archiving.FigmentChain.PlanChain.{
  Piece, header_of, body_of, Link, bootstrap, anchor_only, anchor_then_append, forward_then_append,
  Segment, Bucket, next_big, pieces_of, links_of, Chaining, add_segment, add_segments,
}

module _ (header body : FileId → List Byte) where
  abbrev pub piece_bytes : Piece → List Byte
  piece_bytes (header_of id) = header id
  piece_bytes (body_of id) = body id

  abbrev pub pieces_bytes : List Piece → List Byte
  pieces_bytes [] = []
  pieces_bytes (p ∷ ps) = piece_bytes p ++ pieces_bytes ps

  -- The two parts of a link, of which the object that the link builds is made; `prev` is the object
  -- of the link before.
  abbrev pub first_part : Link → List Byte → List Byte
  first_part (bootstrap anchor steal_len) prev = header anchor ++ take steal_len (body anchor)
  first_part (anchor_only anchor) prev = body anchor
  first_part (anchor_then_append anchor piece) prev = body anchor
  first_part (forward_then_append piece) prev = prev

  abbrev pub last_part : Link → List Byte
  last_part (bootstrap anchor steal_len) = drop steal_len (body anchor)
  last_part (anchor_only anchor) = []
  last_part (anchor_then_append anchor piece) = piece_bytes piece
  last_part (forward_then_append piece) = piece_bytes piece

  abbrev pub link_bytes : Link → List Byte → List Byte
  link_bytes link prev = first_part link prev ++ last_part link

  -- The object at the end of a chain of links.
  abbrev pub chain_bytes : List Link → List Byte → List Byte
  chain_bytes [] prev = prev
  chain_bytes (link ∷ links) prev = chain_bytes links (link_bytes link prev)

  -- The objects of the segments, stitched together.
  abbrev pub stitched : List Segment → List Byte
  stitched [] = []
  stitched (s ∷ segments) = chain_bytes s.links [] ++ stitched segments

  pub stitched-append : (ss ts : List Segment) → stitched (ss ++ ts) ≡ stitched ss ++ stitched ts
  stitched-append [] ts = refl
  stitched-append (s ∷ ss) ts =
      ap (λ t. chain_bytes s.links [] ++ t) (stitched-append ss ts)
      ∙ sym (append_assoc (chain_bytes s.links []) (stitched ss) (stitched ts))

  order-append :
      (xs ys : List FileId)
      → order_bytes header body [] (xs ++ ys)
        ≡ order_bytes header body [] xs ++ order_bytes header body [] ys
  order-append [] ys = refl
  order-append (x ∷ xs) ys =
      ap (λ t. (header x ++ body x) ++ t) (order-append xs ys)
      ∙ sym (
          append_assoc (header x ++ body x) (order_bytes header body [] xs)
            (order_bytes header body [] ys))

  forward_lem :
      (ps : List Piece) (prev : List Byte)
      → chain_bytes (map forward_then_append ps) prev ≡ prev ++ pieces_bytes ps
  forward_lem [] prev = sym (append-nil prev)
  forward_lem (p ∷ ps) prev =
      forward_lem ps (prev ++ piece_bytes p) ∙ append_assoc prev (piece_bytes p) (pieces_bytes ps)

  -- The header that a segment starts with: only the first starts with its own.
  abbrev pub lead : ℕ → FileId → List Byte
  lead zero anchor = header anchor
  lead (suc k) anchor = []

  -- A chain builds the body of the anchor, with its header in the first segment, and the pieces.
  pub links_of-bytes :
      (size_of : SizeOf) (k : ℕ) (anchor : FileId) (ps : List Piece)
      → chain_bytes (links_of size_of k anchor ps) []
        ≡ lead k anchor ++ (body anchor ++ pieces_bytes ps)
  unfolding links_of
  links_of-bytes size_of zero anchor ps =
      forward_lem ps _
      ∙ ap (λ t. t ++ pieces_bytes ps)
          (append_assoc (header anchor) _ _
            ∙ ap (λ t. header anchor ++ t) (take-append-drop _ (body anchor)))
      ∙ append_assoc (header anchor) (body anchor) (pieces_bytes ps)
  links_of-bytes size_of (suc k) anchor [] = refl
  links_of-bytes size_of (suc k) anchor (p ∷ ps) =
      forward_lem ps (body anchor ++ piece_bytes p)
      ∙ append_assoc (body anchor) (piece_bytes p) (pieces_bytes ps)

  -- The header of the next segment's big file.
  abbrev pub trailing : Option FileId → List Byte
  trailing none = []
  trailing (some id) = header id

  pub pieces_of-bytes :
      (smalls : List FileId) (next : Option FileId)
      → pieces_bytes (pieces_of smalls next) ≡ order_bytes header body [] smalls ++ trailing next
  unfolding pieces_of
  pieces_of-bytes [] none = refl
  pieces_of-bytes [] (some big) = append-nil (header big)
  pieces_of-bytes (s ∷ smalls) next =
      sym (append_assoc (header s) (body s) (pieces_bytes (pieces_of smalls next)))
      ∙ ap (λ t. (header s ++ body s) ++ t) (pieces_of-bytes smalls next)
      ∙ sym (append_assoc (header s ++ body s) (order_bytes header body [] smalls) (trailing next))

  -- What the objects so far hold beyond the order so far: the header of the next big file.
  abbrev pub ahead : ℕ → List Bucket → List Byte
  ahead zero buckets = []
  ahead (suc k) buckets = trailing (next_big buckets)

  regroup :
      (o x h b s t : List Byte)
      → (o ++ x) ++ ((h ++ (b ++ (s ++ t))) ++ []) ≡ (o ++ ((x ++ h) ++ (b ++ s))) ++ t
  regroup o x h b s t = simp (append_assoc, append-nil)

  lead_lem : (k : ℕ) (b : Bucket) (bs : List Bucket) → ahead k (b ∷ bs) ++ lead k b.0 ≡ header b.0
  unfolding next_big
  lead_lem zero b bs = refl
  lead_lem (suc k) b bs = append-nil (header b.0)

  add_segment-bytes :
      (size_of : SizeOf) (k : ℕ) (b : Bucket) (bs : List Bucket) (c : Chaining)
      → stitched c.segments ≡ order_bytes header body [] c.order ++ ahead k (b ∷ bs)
      → let d = add_segment size_of k b (next_big bs) c in
        stitched d.segments ≡ order_bytes header body [] d.order ++ ahead (suc k) bs
  unfolding add_segment
  add_segment-bytes size_of k b bs c h =
      let ps = pieces_of b.1 (next_big bs) in
      let smalls = order_bytes header body [] b.1 in
      let before = order_bytes header body [] c.order in
      stitched-append c.segments _
      ∙ ap₂ (λ t u. t ++ (u ++ [])) h
          (links_of-bytes size_of k b.0 ps
            ∙ ap (λ t. lead k b.0 ++ (body b.0 ++ t)) (pieces_of-bytes b.1 (next_big bs)))
      ∙ regroup before (ahead k (b ∷ bs)) (lead k b.0) (body b.0) smalls (trailing (next_big bs))
      ∙ ap (λ t. (before ++ t) ++ trailing (next_big bs))
          (ap (λ t. t ++ (body b.0 ++ smalls)) (lead_lem k b bs)
            ∙ sym (append_assoc (header b.0) (body b.0) smalls))
      ∙ ap (λ t. t ++ trailing (next_big bs)) (sym (order-append c.order (b.0 ∷ b.1)))

  add_segments-bytes :
      (size_of : SizeOf) (bs : List Bucket) (k : ℕ) (c : Chaining)
      → stitched c.segments ≡ order_bytes header body [] c.order ++ ahead (suc k) bs
      → let d = add_segments size_of (suc k) bs c in
        stitched d.segments ≡ order_bytes header body [] d.order
  unfolding add_segments next_big
  add_segments-bytes size_of [] k c h = h ∙ append-nil (order_bytes header body [] c.order)
  add_segments-bytes size_of (b ∷ bs) k c h =
      add_segments-bytes size_of bs (suc k) _ (add_segment-bytes size_of (suc k) b bs c h)

  -- Stitched together, the objects of all segments are the entries of the order.
  pub all_segments-bytes :
      (size_of : SizeOf) (bs : List Bucket) (c : Chaining)
      → c.segments ≡ []
      → c.order ≡ []
      → let d = add_segments size_of 0 bs c in
        stitched d.segments ≡ order_bytes header body [] d.order
  unfolding add_segments
  all_segments-bytes size_of [] c s o = ap stitched s ∙ sym (ap (order_bytes header body []) o)
  all_segments-bytes size_of (b ∷ bs) c s o = add_segments-bytes size_of bs 0 _ (
      add_segment-bytes size_of 0 b bs c
        (ap stitched s ∙ sym (ap (λ t. order_bytes header body [] t ++ []) o)))
