-- ===== src/FigmentChain/PlanChain/Sizes.antt =====
-- The sizes that the planner of the chain sums up while it goes through the buckets.
use demo_s3_archiving.Prelude.{ℕ, zero, suc, ◌+◌, ◌≤◌, ◌≡◌, refl, subst, arith, max}
use demo_s3_archiving.Prelude.{List, [], ◌∷◌, ◌++◌, Option, none, some}
use demo_s3_archiving.Prelude.{length, length-append, sum_by, sum_by-append, All, All-append}
use demo_s3_archiving.Figment.Plan.{FileId, SizeOf, part_floor}
use demo_s3_archiving.FigmentChain.PlanChain.{
  Piece, Segment, Bucket, next_big, pieces_of, links_of, hdr, body_len, plen, object_len_of,
  Chaining, add_segment, add_segments,
}

-- The segments are numbered from `n`.
abbrev pub IsIndexed : ℕ → List Segment → Type 0
IsIndexed n [] = Unit
IsIndexed n (s ∷ ss) = (s.index ≡ n) × IsIndexed (suc n) ss

IsIndexed-snoc :
    (n : ℕ) (ss : List Segment) (s : Segment)
    → IsIndexed n ss
    → s.index ≡ n + length ss
    → IsIndexed n (ss ++ s ∷ [])
IsIndexed-snoc n [] s h e = (omega (arith, e), tt)
IsIndexed-snoc n (t ∷ ss) s (i, h) e = (i, IsIndexed-snoc (suc n) ss s h (omega (arith, e)))

All-deeper :
    (n m : ℕ) (ss : List Segment)
    → n ≤ m
    → All (λ s. length s.links ≤ n) ss
    → All (λ s. length s.links ≤ m) ss
All-deeper n m [] h a = tt
All-deeper n m (s ∷ ss) h (p, a) = (omega (arith, p, h), All-deeper n m ss h a)

-- The entries of a bucket, measured by `m`.
abbrev pub bucket_sum : (FileId → ℕ) → Bucket → ℕ
bucket_sum m b = m b.0 + sum_by m b.1

module _ (size_of : SizeOf) where
  abbrev pub entry_len : FileId → ℕ
  entry_len id = hdr size_of id + body_len size_of id

  abbrev trailing_len : Option FileId → ℕ
  trailing_len none = 0
  trailing_len (some id) = hdr size_of id

  abbrev ahead_len : ℕ → List Bucket → ℕ
  ahead_len zero bs = 0
  ahead_len (suc k) bs = trailing_len (next_big bs)

  pieces_of-len :
      (smalls : List FileId) (next : Option FileId)
      → sum_by (plen size_of) (pieces_of smalls next) ≡ sum_by entry_len smalls + trailing_len next
  unfolding pieces_of plen
  pieces_of-len [] none = refl
  pieces_of-len [] (some big) = omega arith
  pieces_of-len (s ∷ smalls) next = omega (arith, pieces_of-len smalls next)

  -- What the loop keeps true: the objects are as long as the entries so far and the header of the
  -- next big file, each has at least `PART_FLOOR` bytes, and the counts are those of the segments.
  pub record IsChaining (k : ℕ) (bs : List Bucket) (c : Chaining) : Type 0 where
    pub lengths : sum_by (λ s. s.object_len) c.segments ≡ c.offset + ahead_len k bs
    pub offset_lem : c.offset ≡ sum_by entry_len c.order
    pub indexed : IsIndexed 0 c.segments
    pub counted : length c.segments ≡ k
    pub floored : All (λ s. part_floor ≤ s.object_len) c.segments
    pub linked : c.total_links ≡ sum_by (λ s. length s.links) c.segments
    pub deep : All (λ s. length s.links ≤ c.max_depth) c.segments

  ahead_len_end : (k : ℕ) → ahead_len k [] ≡ 0
  unfolding next_big
  ahead_len_end zero = refl
  ahead_len_end (suc k) = refl

  pub lengths_end :
      (k : ℕ) (c : Chaining) → IsChaining k [] c → sum_by (λ s. s.object_len) c.segments ≡ c.offset
  lengths_end k c i = omega (arith, i.lengths, ahead_len_end k)

  object_len_lem :
      (k : ℕ) (b : Bucket) (bs : List Bucket)
      → ahead_len k (b ∷ bs) + object_len_of size_of k b.0 (pieces_of b.1 (next_big bs))
        ≡ bucket_sum entry_len b + trailing_len (next_big bs)
  unfolding object_len_of next_big
  object_len_lem zero b bs = omega (arith, pieces_of-len b.1 (next_big bs))
  object_len_lem (suc k) b bs = omega (arith, pieces_of-len b.1 (next_big bs))

  object_len-floored :
      (k : ℕ) (anchor : FileId) (ps : List Piece)
      → part_floor ≤ body_len size_of anchor
      → part_floor ≤ object_len_of size_of k anchor ps
  unfolding object_len_of
  object_len-floored zero anchor ps h = omega (arith, h)
  object_len-floored (suc k) anchor ps h = omega (arith, h)

  add_segment-IsChaining :
      (k : ℕ) (b : Bucket) (bs : List Bucket) (c : Chaining)
      → part_floor ≤ body_len size_of b.0
      → IsChaining k (b ∷ bs) c
      → IsChaining (suc k) bs (add_segment size_of k b (next_big bs) c)
  unfolding add_segment
  add_segment-IsChaining k b bs c large i =
      let ps = pieces_of b.1 (next_big bs) in
      let depth = length (links_of size_of k b.0 ps) in
      let s : Segment = record {
        anchor = b.0;
        index = k;
        links = links_of size_of k b.0 ps;
        object_len = object_len_of size_of k b.0 ps;
      } in
      record {
        lengths = omega (
          arith,
          i.lengths,
          sum_by-append (λ (t : Segment). t.object_len) c.segments (s ∷ []),
          object_len_lem k b bs,
        );
        offset_lem = omega (arith, i.offset_lem, sum_by-append entry_len c.order (b.0 ∷ b.1));
        indexed = IsIndexed-snoc 0 c.segments s i.indexed (omega (arith, i.counted));
        counted = omega (arith, i.counted, length-append c.segments (s ∷ []));
        floored =
            All-append (λ t. part_floor ≤ t.object_len) c.segments (s ∷ []) i.floored
              (object_len-floored k b.0 ps large, tt);
        linked =
            omega (
              arith,
              i.linked,
              sum_by-append (λ (t : Segment). length t.links) c.segments (s ∷ []),
            );
        deep =
            All-append (λ t. length t.links ≤ max c.max_depth depth) c.segments (s ∷ [])
              (All-deeper c.max_depth (max c.max_depth depth) c.segments (omega arith) i.deep)
              (omega arith, tt);
      }

  pub add_segments-IsChaining :
      (bs : List Bucket) (k : ℕ) (c : Chaining)
      → All (λ b. part_floor ≤ body_len size_of b.0) bs
      → IsChaining k bs c
      → IsChaining (k + length bs) [] (add_segments size_of k bs c)
  unfolding add_segments
  add_segments-IsChaining [] k c h i =
      let e : k ≡ k + 0 = omega arith in subst (λ n. IsChaining n [] c) e i
  add_segments-IsChaining (b ∷ bs) k c (large, h) i =
      let d = add_segment size_of k b (next_big bs) c in
      let e : suc k + length bs ≡ k + suc (length bs) = omega arith in
      subst (λ n. IsChaining n [] (add_segments size_of (suc k) bs d)) e
        (add_segments-IsChaining bs (suc k) d h (add_segment-IsChaining k b bs c large i))

  -- The order holds what the buckets hold.
  pub add_segments-order :
      (m : FileId → ℕ) (bs : List Bucket) (k : ℕ) (c : Chaining)
      → sum_by m (add_segments size_of k bs c).order ≡ sum_by m c.order + sum_by (bucket_sum m) bs
  unfolding add_segments add_segment
  add_segments-order m [] k c = omega arith
  add_segments-order m (b ∷ bs) k c = omega (
    arith,
    add_segments-order m bs (suc k) (add_segment size_of k b (next_big bs) c),
    sum_by-append m c.order (b.0 ∷ b.1),
  )
