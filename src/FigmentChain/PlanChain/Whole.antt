-- ===== src/FigmentChain/PlanChain/Whole.antt =====
-- The whole plan of the chain: when there is one, and what its segments make.
use demo_s3_archiving.Prelude.{ℕ, suc, ◌+◌, ◌≤◌, ◌<◌, ◌≡◌, refl, sym, ap, ◌∙◌, arith, inl, inr}
use demo_s3_archiving.Prelude.{Bool, Bool-cases, ◌==◌}
use demo_s3_archiving.Prelude.{List, [], ◌∷◌, ◌++◌, Perm, Option, none, some, Option-cases}
use demo_s3_archiving.Prelude.{length, sum_by, sum_by-append, All, All-append_inv}
use demo_s3_archiving.Prelude.Bags.{SameSums-perm}
use demo_s3_archiving.Figment.Plan.{
  FileId, SourceFile, SizeOf, part_floor, partition, sort_by, insert_by, big_first, insert_sizes,
  compute_offsets, ids,
}
use demo_s3_archiving.Figment.Plan.Sizes.{IsFound}
use demo_s3_archiving.Figment.Plan.Floor.{sort_by-All, partition-large}
use demo_s3_archiving.Figment.Plan.Whole.{partition-sum, sort_by-sum, ids-sum}
use demo_s3_archiving.FigmentChain.PlanChain.{
  Entry, ChainPlan, ok, panic, id_first, make_buckets, body_len, Chaining, add_segments, start,
  entries_of, build_chain, plan_segment_chain,
}
use demo_s3_archiving.FigmentChain.PlanChain.Sizes.{
  IsChaining, add_segments-IsChaining, add_segments-order,
}
use demo_s3_archiving.FigmentChain.PlanChain.Table.{
  is, IsDistinct, entries_of-total, entries_of-distinct, insert_sizes-distinct, make_buckets-All,
  make_buckets-sum,
}
use native.Mathlib.Decide.{ℕ_discrete}

-- The big and the small files in the order in which the planner goes through them, its table of
-- them, and what its loop over the buckets ends with.
abbrev pub bigs_of : List SourceFile → List SourceFile
bigs_of files = sort_by big_first (partition files).0

abbrev pub smalls_of : List SourceFile → List SourceFile
smalls_of files = sort_by id_first (partition files).1

abbrev pub table : List SourceFile → SizeOf
table files = insert_sizes (λ id. ([], 0)) (bigs_of files ++ smalls_of files)

abbrev pub chained : List SourceFile → Chaining
chained files = add_segments (table files) 0 (make_buckets (bigs_of files) (smalls_of files)) start

-- The loop over the order.
abbrev pub looked_up : List SourceFile → Option (List (FileId × Entry) × ℕ)
looked_up files =
    entries_of (table files) [] (chained files).order
      (compute_offsets (table files) (chained files).order)

abbrev pub finished : List SourceFile → List (FileId × Entry) × ℕ → ChainPlan
finished files r =
    let c = chained files in
    record {
      order = c.order;
      entries = r.0;
      segments = c.segments;
      cd_offset = c.offset;
      cd_size = r.1;
      stats = record {
        entries = length c.order;
        segments = length (make_buckets (bigs_of files) (smalls_of files));
        bigs = length (bigs_of files);
        smalls = length (smalls_of files);
        links = c.total_links;
        max_chain_depth = c.max_depth;
      };
    }

pub build_chain-some :
    (files : List SourceFile) (r : List (FileId × Entry) × ℕ)
    → looked_up files ≡ some r
    → build_chain (bigs_of files) (smalls_of files) ≡ ok (finished files r)
unfolding build_chain
build_chain-some files r e = rw (e, build_chain) refl

pub build_chain-none :
    (files : List SourceFile)
    → looked_up files ≡ none
    → build_chain (bigs_of files) (smalls_of files) ≡ panic
unfolding build_chain
build_chain-none files e = rw (e, build_chain) refl

-- A plan is the one of the sorted files, of which some are big.
pub planned :
    (files : List SourceFile) (plan : ChainPlan)
    → plan_segment_chain files ≡ ok plan
    → (r : List (FileId × Entry) × ℕ) × (0 < length (partition files).0)
      × (looked_up files ≡ some r)
      × (finished files r ≡ plan)
unfolding plan_segment_chain
planned files plan e = elim (Bool-cases (length (partition files).0 == 0)) [
  | inl c ↦ absurd (cc (rw c at e))
  | inr c ↦
      let k : build_chain (bigs_of files) (smalls_of files) ≡ ok plan = rw c at e in
      elim (Option-cases (looked_up files)) [
        | inl n ↦ absurd (cc (sym (build_chain-none files n) ∙ k))
        | inr (r, s) ↦
            (r, ground (arith, c), s, (let same = sym (build_chain-some files r s) ∙ k in cc same))
      ]
]

module _ (before : SourceFile → SourceFile → Bool) where
  length-insert_by :
      (f : SourceFile) (gs : List SourceFile) → length (insert_by before f gs) ≡ suc (length gs)
  unfolding insert_by
  length-insert_by f [] = refl
  length-insert_by f (g ∷ gs) = ground (arith, length-insert_by f gs)

  length-sort_by : (fs : List SourceFile) → length (sort_by before fs) ≡ length fs
  unfolding sort_by
  length-sort_by [] = refl
  length-sort_by (f ∷ fs) = length-insert_by f (sort_by before fs) ∙ ap suc (length-sort_by fs)

module _ (files : List SourceFile) where
  -- The sorted files are the files, and the order holds the ids of all of them.
  sorted-sum : (m : SourceFile → ℕ) → sum_by m (bigs_of files ++ smalls_of files) ≡ sum_by m files
  sorted-sum m = omega (
    arith,
    sum_by-append m (bigs_of files) (smalls_of files),
    partition-sum m files,
    sort_by-sum m big_first (partition files).0,
    sort_by-sum m id_first (partition files).1,
  )

  order-sum :
      (m : FileId → ℕ)
      → 0 < length (partition files).0
      → sum_by m (chained files).order ≡ sum_by (λ f. m f.id) files
  order-sum m h = omega (
    arith,
    add_segments-order (table files) m (make_buckets (bigs_of files) (smalls_of files)) 0 start,
    make_buckets-sum m (bigs_of files) (smalls_of files)
        (omega (arith, h, length-sort_by big_first (partition files).0)),
    sum_by-append (λ (f : SourceFile). m f.id) (bigs_of files) (smalls_of files),
    sorted-sum (λ f. m f.id),
  )

  pub order-perm : 0 < length (partition files).0 → Perm (chained files).order (ids files)
  order-perm h = SameSums-perm ℕ_discrete _ (ids files) (λ m. order-sum m h ∙ sym (ids-sum m files))

  -- Where the loop over the order does not panic, the files have ids of their own.
  pub looked_up-IsDistinct :
      (r : List (FileId × Entry) × ℕ)
      → 0 < length (partition files).0
      → looked_up files ≡ some r
      → IsDistinct files
  looked_up-IsDistinct r h e a = omega (
    arith,
    entries_of-distinct (table files) (chained files).order [] _ r e (λ b. omega arith) a,
    order-sum (is a) h,
  )

  pub looked_up-total :
      0 < length (partition files).0
      → IsDistinct files
      → (r : List (FileId × Entry) × ℕ) × (looked_up files ≡ some r)
  unfolding compute_offsets
  looked_up-total h d =
      entries_of-total (table files) (chained files).order [] 0
        (λ a. omega (arith, order-sum (is a) h, d a))

  -- The table holds every file under its id.
  pub table-IsFound :
      IsDistinct files → All (IsFound (table files)) (bigs_of files ++ smalls_of files)
  table-IsFound d =
      insert_sizes-distinct _ (λ id. ([], 0)) (λ a. omega (arith, sorted-sum (λ f. is a f.id), d a))

  floored_lem :
      (size_of : SizeOf) (fs : List SourceFile)
      → All (IsFound size_of) fs
      → All (λ f. part_floor ≤ f.size) fs
      → All (λ f. part_floor ≤ body_len size_of f.id) fs
  unfolding body_len
  floored_lem size_of [] h k = tt
  floored_lem size_of (f ∷ fs) (e, h) (p, k) =
      (omega (arith, p, ap (λ t. t.1) e), floored_lem size_of fs h k)

  -- Every bucket stands on a big file.
  pub anchors-floored :
      IsDistinct files
      → All
          (λ b. part_floor ≤ body_len (table files) b.0)
          (make_buckets (bigs_of files) (smalls_of files))
  anchors-floored d =
      make_buckets-All (λ id. part_floor ≤ body_len (table files) id) (bigs_of files)
        (smalls_of files)
        (floored_lem (table files) (bigs_of files)
          (All-append_inv _ (bigs_of files) (smalls_of files) (table-IsFound d)).0
          (sort_by-All (λ f. part_floor ≤ f.size) big_first _ (partition-large files)))

  pub chained-IsChaining :
      IsDistinct files
      → IsChaining
          (table files)
          (0 + length (make_buckets (bigs_of files) (smalls_of files)))
          []
          (chained files)
  chained-IsChaining d =
      add_segments-IsChaining (table files) (make_buckets (bigs_of files) (smalls_of files)) 0 start
        (anchors-floored d)
        (record {
          lengths = refl;
          offset_lem = refl;
          indexed = tt;
          counted = refl;
          floored = tt;
          linked = refl;
          deep = tt;
        })
