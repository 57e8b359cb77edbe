-- ===== src/FigmentChain/PlanChain/Tiles.antt =====
-- The outcomes of the planner of the chain, and how the objects of a plan tile the archive.
use demo_s3_archiving.Prelude.{◌≤◌, ◌<◌, ◌≡◌, ◌⊎◌, refl, sym, ap, ◌∙◌, subst, arith, inl, inr}
use demo_s3_archiving.Prelude.{Bool-cases, leb, ◌==◌}
use demo_s3_archiving.Prelude.{List, [], ◌∷◌, Perm, Option-cases}
use demo_s3_archiving.Prelude.{length, sum_by, All}
use demo_s3_archiving.Bytes.{Byte}
use demo_s3_archiving.Figment.Plan.{FileId, SourceFile, part_floor, partition, ids}
use demo_s3_archiving.Figment.Plan.Contents.{order_bytes}
use demo_s3_archiving.FigmentChain.PlanChain.{
  ChainPlan, no_bigs, ok, err, panic, make_buckets, plan_segment_chain,
}
use demo_s3_archiving.FigmentChain.PlanChain.Contents.{stitched, all_segments-bytes}
use demo_s3_archiving.FigmentChain.PlanChain.Sizes.{IsIndexed, lengths_end}
use demo_s3_archiving.FigmentChain.PlanChain.Table.{IsDistinct, length-make_buckets}
use demo_s3_archiving.FigmentChain.PlanChain.Whole.{
  bigs_of, smalls_of, table, chained, looked_up, finished, planned, build_chain-some,
  build_chain-none, looked_up-total, looked_up-IsDistinct, order-perm, chained-IsChaining,
}

abbrev pub IsSmall : SourceFile → Type 0
IsSmall f = f.size < part_floor

partition-none :
    (fs : List SourceFile)
    → length (partition fs).0 ≡ 0
    → All IsSmall fs × (length (partition fs).1 ≡ length fs)
unfolding partition
partition-none [] h = (tt, refl)
partition-none (f ∷ fs) h = elim (Bool-cases (leb part_floor f.size)) [
  | inl e ↦ absurd (omega (arith, rw e at h))
  | inr e ↦
      let k : length (partition fs).0 ≡ 0 = rw e at h in
      let (small, same) = partition-none fs k in
      rw e ((ground (arith, e), small), omega (arith, same))
]

partition-all_small : (fs : List SourceFile) → All IsSmall fs → length (partition fs).0 ≡ 0
unfolding partition
partition-all_small [] h = refl
partition-all_small (f ∷ fs) (p, h) = elim (Bool-cases (leb part_floor f.size)) [
  | inl e ↦ absurd (ground (arith, e, p))
  | inr e ↦ rw e (partition-all_small fs h)
]

-- The planner fails with the number of the files where all of them are below `PART_FLOOR`. Else it
-- panics where two files have one id, and makes a plan where each file has an id of its own.
pub plan_segment_chain-outcome :
    (files : List SourceFile)
    → (All IsSmall files × (plan_segment_chain files ≡ err (no_bigs (length files))))
      ⊎ (¬ All IsSmall files × ¬ IsDistinct files × (plan_segment_chain files ≡ panic))
      ⊎ (¬ All IsSmall files
          × IsDistinct files
          × ((plan : ChainPlan) × (plan_segment_chain files ≡ ok plan)))
unfolding plan_segment_chain
plan_segment_chain-outcome files = elim (Bool-cases (length (partition files).0 == 0)) [
  | inl c ↦
      let (small, same) = partition-none files (ground (arith, c)) in
      inl (small, rw c (ap (λ n. err (no_bigs n)) same))
  | inr c ↦
      let big : 0 < length (partition files).0 = ground (arith, c) in
      let some_big : ¬ All IsSmall files = λ s. omega (arith, big, partition-all_small files s) in
      elim (Option-cases (looked_up files)) [
        | inl n ↦ inr (
            inl (
              some_big,
              λ d. let (r, e) = looked_up-total files big d in absurd (cc (sym n ∙ e)),
              rw c (build_chain-none files n),
            ))
        | inr (r, e) ↦ inr (
            inr (
              some_big,
              looked_up-IsDistinct files r big e,
              (finished files r, rw c (build_chain-some files r e)),
            ))
      ]
]

-- Where there is a plan, its order is a permutation of the ids of the files, and the objects that
-- the links of its segments build, stitched together, are the entries of the order, each with its
-- header and its whole body right behind it: each big file but the first has its header at the end
-- of the object before.
pub plan_segment_chain-whole :
    (header body : FileId → List Byte) (files : List SourceFile) (plan : ChainPlan)
    → plan_segment_chain files ≡ ok plan
    → (stitched header body plan.segments ≡ order_bytes header body [] plan.order)
      × Perm plan.order (ids files)
plan_segment_chain-whole header body files plan e =
    let (r, big, found, same) = planned files plan e in
    subst
      (λ p.
        (stitched header body p.segments ≡ order_bytes header body [] p.order)
        × Perm p.order (ids files))
      same
      (
        all_segments-bytes header body (table files)
            (make_buckets (bigs_of files) (smalls_of files)) _ refl refl,
        order-perm files big,
      )

-- What a plan says of its segments.
pub record IsTiled (files : List SourceFile) (plan : ChainPlan) : Type 0 where
  pub tiles : sum_by (λ s. s.object_len) plan.segments ≡ plan.cd_offset
  pub floored : All (λ s. part_floor ≤ s.object_len) plan.segments
  pub indexed : IsIndexed 0 plan.segments
  pub counted : length plan.segments ≡ plan.stats.segments
  pub one_per_big : plan.stats.segments ≡ plan.stats.bigs
  pub linked : plan.stats.links ≡ sum_by (λ s. length s.links) plan.segments
  pub deep : All (λ s. length s.links ≤ plan.stats.max_chain_depth) plan.segments

-- Where there is a plan, the lengths of the objects of its segments sum up to the offset of the
-- central directory, each has at least `PART_FLOOR` bytes, so that the debug assertions of the
-- planner hold, the segments are numbered from 0, there is one for each big file, and the numbers of
-- links of the statistics are the sum of those of the segments and a bound of each.
pub plan_segment_chain-IsTiled :
    (files : List SourceFile) (plan : ChainPlan)
    → plan_segment_chain files ≡ ok plan
    → IsTiled files plan
plan_segment_chain-IsTiled files plan e =
    let (r, big, found, same) = planned files plan e in
    let i = chained-IsChaining files (looked_up-IsDistinct files r big found) in
    subst (IsTiled files) same (record {
      tiles = lengths_end (table files) _ (chained files) i;
      floored = i.floored;
      indexed = i.indexed;
      counted = omega (arith, i.counted);
      one_per_big = length-make_buckets (bigs_of files) (smalls_of files);
      linked = i.linked;
      deep = i.deep;
    })
