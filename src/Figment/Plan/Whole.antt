-- ===== src/Figment/Plan/Whole.antt =====
-- The whole plan: its order is one of the files, and its parts put together are the archive.
use demo_s3_archiving.Prelude.{
  ℕ, zero, suc, ◌+◌, ◌-◌, ◌≡◌, refl, sym, ap, ap₂, ◌∙◌, subst, arith, inl, inr,
}
use demo_s3_archiving.Prelude.{Bool, false, ◌||◌, Bool-cases, lt→ltb, ltb, leb, ◌==◌, if◌then◌else◌}
use demo_s3_archiving.Prelude.{List, [], ◌∷◌, ◌++◌, append_assoc, append-nil, Perm}
use demo_s3_archiving.Prelude.{
  length, take, drop, take-append-drop, length-append, sum_by, sum_by-append,
}
use demo_s3_archiving.Prelude.Bags.{SameSums-perm}
use demo_s3_archiving.Bytes.{Byte}
use demo_s3_archiving.Figment.ZipFormat.{local_header_len}
use demo_s3_archiving.Figment.Plan.{
  FileId, SourceFile, Segment, streamed_file, copied_file_header, streamed_big_prefix,
  central_directory, copy, stream, SinglePlan, single_mpu, SizeOf, Planning, pull_smalls, copy_big,
  fold_big, part_floor, plan_big, plan_bigs, steal_len, leftover, last_part, start, build_plan,
  plan_single_mpu, partition, sort_by, big_first, small_first, ids, insert_by, viability_min_total,
}
use demo_s3_archiving.Figment.Plan.Contents.{
  IsNumbered, IsNumbered-append, segments_bytes, parts_bytes, order_bytes, parts-append,
  segments-append, order-snoc, stream_small, pull_smalls-IsPlanning, IsPlanning, regroup,
}
use native.Mathlib.Decide.{ℕ_discrete}

regroup_two : (p s h t d : List Byte) → p ++ ((s ++ (h ++ t)) ++ d) ≡ (p ++ s) ++ (h ++ (t ++ d))
regroup_two p s h t d = simp append_assoc

module _ (header body : FileId → List Byte) (directory : List Byte) where
  copy_tail :
      (xs : List Segment) (id k : ℕ)
      → segments_bytes header body directory (
          xs
          ++ (if ltb 0 k
              then copied_file_header id ∷ streamed_big_prefix id k ∷ []
              else copied_file_header id ∷ []))
        ≡ segments_bytes header body directory xs ++ (header id ++ take k (body id))
  copy_tail xs id zero = segments-append header body directory xs (copied_file_header id ∷ [])
  copy_tail xs id (suc k) = rw (lt→ltb 0 (suc k) (omega arith)) (
      segments-append header body directory xs
        (copied_file_header id ∷ streamed_big_prefix id (suc k) ∷ [])
      ∙ ap (λ t. segments_bytes header body directory xs ++ (header id ++ t))
          (append-nil (take (suc k) (body id))))

  module _ (total : (FileId → ℕ) → ℕ) where
    copy_big-IsPlanning :
        (p : Planning) (big : SourceFile) (k : ℕ)
        → IsPlanning header body directory total p
        → IsPlanning header body directory (λ m. total m + m big.id) (copy_big p big k)
    unfolding copy_big
    copy_big-IsPlanning p big k i =
        let front = parts_bytes header body directory p.parts in
        let batch = segments_bytes header body directory p.cur_segs in
        record {
          bytes_lem =
              append-nil _
              ∙ parts-append header body directory p.parts _
              ∙ ap (λ t. front ++ (t ++ (drop k (body big.id) ++ [])))
                  (copy_tail p.cur_segs big.id k)
              ∙ regroup_two front batch (header big.id) (take k (body big.id))
                  (drop k (body big.id) ++ [])
              ∙ ap₂ (λ t u. t ++ (header big.id ++ u)) i.bytes_lem
                  (ap (λ t. take k (body big.id) ++ t) (append-nil (drop k (body big.id)))
                    ∙ take-append-drop k (body big.id))
              ∙ sym (order-snoc header body directory p.order big.id);
          numbered =
              IsNumbered-append 1 p.parts _ i.numbered
                ((omega (arith, i.counted), (omega (arith, i.counted), tt)));
          counted = omega (
            arith,
            i.counted,
            length-append p.parts (
                stream p.part_number (
                  p.cur_segs
                  ++ (if ltb 0 k
                      then copied_file_header big.id ∷ streamed_big_prefix big.id k ∷ []
                      else copied_file_header big.id ∷ []))
                ∷ copy (p.part_number + 1) big.id k
                ∷ []),
          );
          summed = λ m. omega (arith, i.summed m, sum_by-append m p.order (big.id ∷ []));
        }

    fold_big-IsPlanning :
        (p : Planning) (big : SourceFile)
        → IsPlanning header body directory total p
        → IsPlanning header body directory (λ m. total m + m big.id) (fold_big p big)
    unfolding fold_big
    fold_big-IsPlanning p big i = record {
      bytes_lem =
          append-nil _
          ∙ parts-append header body directory p.parts _
          ∙ ap (λ t. parts_bytes header body directory p.parts ++ t) (append-nil _)
          ∙ stream_small header body directory total p big i.bytes_lem;
      numbered = IsNumbered-append 1 p.parts _ i.numbered ((omega (arith, i.counted), tt));
      counted = omega (
        arith,
        i.counted,
        length-append p.parts (stream p.part_number (p.cur_segs ++ streamed_file big.id ∷ []) ∷ []),
      );
      summed = λ m. omega (arith, i.summed m, sum_by-append m p.order (big.id ∷ []));
    }

    plan_big-IsPlanning :
        (size_of : SizeOf) (p : Planning) (big : SourceFile)
        → IsPlanning header body directory total p
        → IsPlanning header body directory (λ m. total m + m big.id) (plan_big size_of p big)
    unfolding plan_big
    plan_big-IsPlanning size_of p big i =
        let h = local_header_len (size_of big.id).0 in
        let steal = big.size - part_floor in
        let run = pull_smalls size_of h steal p.smalls false p in
        let j =
          pull_smalls-IsPlanning header body directory total size_of h steal p.smalls false p refl
            i in
        let k = steal_len (run.1.cur_bytes + h) steal run.0 run.1.smalls in
        elim (Bool-cases (leb part_floor (run.1.cur_bytes + h + k))) [
          | inl e ↦ rw e (copy_big-IsPlanning run.1 big k j)
          | inr e ↦ rw e (fold_big-IsPlanning run.1 big j)
        ]

  plan_bigs-IsPlanning :
      (size_of : SizeOf) (bigs : List SourceFile) (total : (FileId → ℕ) → ℕ) (p : Planning)
      → IsPlanning header body directory total p
      → IsPlanning header body directory
          (λ m. total m + sum_by (λ f. m f.id) bigs)
          (plan_bigs size_of p bigs)
  unfolding plan_bigs
  plan_bigs-IsPlanning size_of [] total p i = record {
    bytes_lem = i.bytes_lem;
    numbered = i.numbered;
    counted = i.counted;
    summed = λ m. omega (arith, i.summed m);
  }
  plan_bigs-IsPlanning size_of (big ∷ bigs) total p i =
      let next =
        plan_bigs-IsPlanning size_of bigs (λ m. total m + m big.id) (plan_big size_of p big)
          (plan_big-IsPlanning total size_of p big i) in
      record {
        bytes_lem = next.bytes_lem;
        numbered = next.numbered;
        counted = next.counted;
        summed = λ m. omega (arith, next.summed m);
      }

  leftover_lem :
      (smalls : List SourceFile) (p : Planning)
      → parts_bytes header body directory p.parts ++ segments_bytes header body directory p.cur_segs
        ≡ order_bytes header body directory p.order
      → let q = leftover p smalls in
        (parts_bytes header body directory q.parts
            ++ segments_bytes header body directory q.cur_segs
          ≡ order_bytes header body directory q.order)
        × (q.parts ≡ p.parts)
        × (q.part_number ≡ p.part_number)
        × ((m : FileId → ℕ) → sum_by m q.order ≡ sum_by m p.order + sum_by (λ f. m f.id) smalls)
  unfolding leftover
  leftover_lem [] p h = (h, refl, refl, λ m. omega arith)
  leftover_lem (s ∷ rest) p h =
      let next =
        leftover_lem rest
          (record p {
            order = p.order ++ s.id ∷ [];
            cur_segs = p.cur_segs ++ streamed_file s.id ∷ [];
          })
          (stream_small header body directory (λ m. 0) p s h) in
      (next.0, next.1, next.2, λ m. omega (arith, next.3 m, sum_by-append m p.order (s.id ∷ [])))

  last_part_lem :
      (total : (FileId → ℕ) → ℕ) (p : Planning)
      → IsPlanning header body directory total p
      → let q = last_part p in
        (parts_bytes header body directory q.parts
          ≡ order_bytes header body directory q.order ++ directory)
        × IsNumbered 1 q.parts
        × ((m : FileId → ℕ) → sum_by m q.order ≡ total m)
  unfolding last_part
  last_part_lem total p i =
      let q = leftover p p.smalls in
      let (bytes, same, number, sums) = leftover_lem p.smalls p i.bytes_lem in
      let numbered : IsNumbered 1 q.parts = subst (IsNumbered 1) (sym same) i.numbered in
      (
        parts-append header body directory q.parts _
            ∙ ap (λ t. parts_bytes header body directory q.parts ++ t)
                (append-nil _
                  ∙ segments-append header body directory q.cur_segs (central_directory ∷ [])
                  ∙ ap (λ t. segments_bytes header body directory q.cur_segs ++ t)
                      (append-nil directory))
            ∙ regroup _ _ _ directory bytes,
        IsNumbered-append 1 q.parts _ numbered
            ((omega (arith, number, i.counted, ap length same), tt)),
        λ m. omega (arith, sums m, i.summed m),
      )

pub partition-sum :
    (m : SourceFile → ℕ) (files : List SourceFile)
    → sum_by m (partition files).0 + sum_by m (partition files).1 ≡ sum_by m files
unfolding partition
partition-sum m [] = refl
partition-sum m (f ∷ fs) = ground (arith, partition-sum m fs)

module _ (m : SourceFile → ℕ) (before : SourceFile → SourceFile → Bool) where
  insert_by-sum :
      (f : SourceFile) (gs : List SourceFile) → sum_by m (insert_by before f gs) ≡ m f + sum_by m gs
  unfolding insert_by
  insert_by-sum f [] = refl
  insert_by-sum f (g ∷ gs) = ground (arith, insert_by-sum f gs)

  pub sort_by-sum : (fs : List SourceFile) → sum_by m (sort_by before fs) ≡ sum_by m fs
  unfolding sort_by
  sort_by-sum [] = refl
  sort_by-sum (f ∷ fs) = omega (arith, insert_by-sum f (sort_by before fs), sort_by-sum fs)

pub ids-sum : (m : FileId → ℕ) (fs : List SourceFile) → sum_by m (ids fs) ≡ sum_by (λ f. m f.id) fs
unfolding ids
ids-sum m [] = refl
ids-sum m (f ∷ fs) = omega (arith, ids-sum m fs)

-- Where the files are planned, the plan is the one of the sorted files.
pub planned :
    (files : List SourceFile) (plan : SinglePlan)
    → plan_single_mpu files ≡ single_mpu plan
    → build_plan (sort_by big_first (partition files).0) (sort_by small_first (partition files).1)
      ≡ plan
unfolding plan_single_mpu
planned files plan e =
    let (bigs, smalls) = partition files in
    let total = sum_by (λ f. f.size) (bigs ++ smalls) in
    elim (Bool-cases (length bigs == 0 || ltb total viability_min_total)) [
      | inl c ↦ absurd (cc (rw c at e))
      | inr c ↦ let k = rw c at e in cc k
    ]

module _ (header body : FileId → List Byte) (directory : List Byte) where
  build_plan_lem :
      (bigs smalls : List SourceFile)
      → let plan = build_plan bigs smalls in
        (parts_bytes header body directory plan.parts
          ≡ order_bytes header body directory plan.order ++ directory)
        × IsNumbered 1 plan.parts
        × ((m : FileId → ℕ)
            → sum_by m plan.order ≡ sum_by (λ f. m f.id) smalls + sum_by (λ f. m f.id) bigs)
  unfolding build_plan
  build_plan_lem bigs smalls = last_part_lem header body directory _ _ (
      plan_bigs-IsPlanning header body directory _ bigs (λ m. sum_by (λ f. m f.id) smalls)
        (start smalls)
        (record { bytes_lem = refl; numbered = tt; counted = refl; summed = λ m. omega arith }))

  -- Where the planner does not fall back to streaming, the order of the plan is a permutation of the
  -- ids of the files, the parts are numbered from 1 without a gap, and put together in this order
  -- they are the entries of the order, each with its header and its whole body right behind it, and
  -- then the central directory: what is stolen from a big file and what is copied of it fit together.
  pub plan_single_mpu-whole :
      (files : List SourceFile) (plan : SinglePlan)
      → plan_single_mpu files ≡ single_mpu plan
      → (parts_bytes header body directory plan.parts
          ≡ order_bytes header body directory plan.order ++ directory)
        × IsNumbered 1 plan.parts
        × Perm plan.order (ids files)
  plan_single_mpu-whole files plan e =
      let bigs = sort_by big_first (partition files).0 in
      let smalls = sort_by small_first (partition files).1 in
      let (bytes, numbered, sums) = build_plan_lem bigs smalls in
      subst
        (λ p.
          (parts_bytes header body directory p.parts
            ≡ order_bytes header body directory p.order ++ directory)
          × IsNumbered 1 p.parts
          × Perm p.order (ids files))
        (planned files plan e)
        (
          bytes,
          numbered,
          SameSums-perm ℕ_discrete _ (ids files) (λ m. omega (
            arith,
            sums m,
            ids-sum m files,
            partition-sum (λ f. m f.id) files,
            sort_by-sum (λ f. m f.id) big_first (partition files).0,
            sort_by-sum (λ f. m f.id) small_first (partition files).1,
          )),
        )
