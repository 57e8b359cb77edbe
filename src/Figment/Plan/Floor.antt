-- ===== src/Figment/Plan/Floor.antt =====
-- The floor of S3 for the parts of a whole plan.
use demo_s3_archiving.Prelude.{ℕ, ◌≤◌, ◌≡◌, refl, sym, ap, ◌∙◌, arith, inl, inr}
use demo_s3_archiving.Prelude.{Bool, Bool-cases, leb, leb→le, ◌==◌}
use demo_s3_archiving.Prelude.{List, [], ◌∷◌, ◌++◌, All, All-append, All-append_inv}
use demo_s3_archiving.Figment.Plan.{
  FileId, SourceFile, Segment, PartSpec, stream, central_directory, SinglePlan, SizeOf, Planning,
  part_floor, plan_bigs, leftover, last_part, start, build_plan, partition, sort_by, insert_by,
  insert_sizes, insert_size, big_first, small_first, plan_single_mpu, single_mpu,
}
use demo_s3_archiving.Figment.Plan.Sizes.{IsLarge, IsFound, IsCounted, plan_bigs-IsLarge}
use demo_s3_archiving.Figment.Plan.Whole.{planned}

-- The files of a plan in the order in which the planner goes through them, and its table of them.
abbrev pub sorted : List SourceFile → List SourceFile
sorted files = sort_by big_first (partition files).0 ++ sort_by small_first (partition files).1

abbrev pub table : List SourceFile → SizeOf
table files = insert_sizes (λ id. ([], 0)) (sorted files)

module _ (P : SourceFile → Type 0) where
  insert_by-All :
      (before : SourceFile → SourceFile → Bool) (f : SourceFile) (gs : List SourceFile)
      → P f
      → All P gs
      → All P (insert_by before f gs)
  unfolding insert_by
  insert_by-All before f [] p h = (p, tt)
  insert_by-All before f (g ∷ gs) p (q, h) = elim (Bool-cases (before f g)) [
    | inl e ↦ rw (e, All) ((p, (q, h)))
    | inr e ↦ rw (e, All) ((q, insert_by-All before f gs p h))
  ]

  pub sort_by-All :
      (before : SourceFile → SourceFile → Bool) (fs : List SourceFile)
      → All P fs
      → All P (sort_by before fs)
  unfolding sort_by
  sort_by-All before [] h = tt
  sort_by-All before (f ∷ fs) (p, h) =
      insert_by-All before f (sort_by before fs) p (sort_by-All before fs h)

  pub partition-All :
      (fs : List SourceFile) → All P fs → All P (partition fs).0 × All P (partition fs).1
  unfolding partition
  partition-All [] h = (tt, tt)
  partition-All (f ∷ fs) (p, h) =
      let (a, b) = partition-All fs h in
      elim (Bool-cases (leb part_floor f.size)) [
        | inl e ↦ rw (e, All) ((p, a), b)
        | inr e ↦ rw (e, All) (a, (p, b))
      ]

  sorted-All : (files : List SourceFile) → All P files → All P (sorted files)
  sorted-All files h =
      let (a, b) = partition-All files h in
      All-append P _ _ (sort_by-All big_first _ a) (sort_by-All small_first _ b)

pub partition-large : (fs : List SourceFile) → All (λ f. part_floor ≤ f.size) (partition fs).0
unfolding partition
partition-large [] = tt
partition-large (f ∷ fs) = elim (Bool-cases (leb part_floor f.size)) [
  | inl e ↦ rw (e, All) ((leb→le _ _ e, partition-large fs))
  | inr e ↦ rw (e, All) (partition-large fs)
]

module _ (known : SizeOf) where
  insert_sizes_keep :
      (fs : List SourceFile) (size_of : SizeOf) (id : FileId)
      → All (IsFound known) fs
      → size_of id ≡ known id
      → insert_sizes size_of fs id ≡ known id
  unfolding insert_sizes insert_size
  insert_sizes_keep [] size_of id h e = e
  insert_sizes_keep (f ∷ fs) size_of id (p, h) e =
      insert_sizes_keep fs (insert_size size_of f) id h (elim (Bool-cases (f.id == id)) [
        | inl t ↦ rw t (sym p ∙ ap known (ground (arith, t)))
        | inr t ↦ rw t e
      ])

  insert_sizes-IsFound :
      (fs : List SourceFile) (size_of : SizeOf)
      → All (IsFound known) fs
      → All (IsFound (insert_sizes size_of fs)) fs
  unfolding insert_sizes insert_size
  insert_sizes-IsFound [] size_of h = tt
  insert_sizes-IsFound (f ∷ fs) size_of (p, h) =
      let own : insert_size size_of f f.id ≡ known f.id = elim (Bool-cases (f.id == f.id)) [
        | inl t ↦ rw t (sym p)
        | inr t ↦ absurd (ground (arith, t))
      ] in
      (
        insert_sizes_keep fs (insert_size size_of f) f.id h own ∙ p,
        insert_sizes-IsFound fs (insert_size size_of f) h,
      )

leftover-parts : (p : Planning) (smalls : List SourceFile) → (leftover p smalls).parts ≡ p.parts
unfolding leftover
leftover-parts p [] = refl
leftover-parts p (s ∷ rest) = leftover-parts _ rest

-- Where the planner does not fall back, and files with the same id have the same name and size, which
-- `known` gives, every part of the plan but the last has at least `PART_FLOOR` bytes, headers,
-- stolen prefixes and the rests of copies included. The last part is a stream that ends in the
-- central directory. The sizes are those of the planner's table, which holds the name and the size
-- of every file.
pub plan_single_mpu-IsLarge :
    (known : SizeOf) (files : List SourceFile) (plan : SinglePlan)
    → All (IsFound known) files
    → plan_single_mpu files ≡ single_mpu plan
    → (front : List PartSpec) × (n : ℕ) × (segs : List Segment) × (plan.parts
        ≡ front ++ stream n (segs ++ central_directory ∷ []) ∷ [])
      × All (IsLarge (table files)) front
      × All (IsFound (table files)) (sorted files)
unfolding build_plan last_part IsCounted
plan_single_mpu-IsLarge known files plan h e =
    let bigs = sort_by big_first (partition files).0 in
    let smalls = sort_by small_first (partition files).1 in
    let p = plan_bigs (table files) (start smalls) bigs in
    let q = leftover p p.smalls in
    let found = insert_sizes-IsFound known (sorted files) (λ id. ([], 0)) (sorted-All _ files h) in
    let large = sort_by-All (λ f. part_floor ≤ f.size) big_first _ (partition-large files) in
    (
      p.parts,
      q.part_number,
      q.cur_segs,
      ap (λ t. t.parts) (sym (planned files plan e))
          ∙ ap (λ t. t ++ stream q.part_number (q.cur_segs ++ central_directory ∷ []) ∷ [])
              (leftover-parts p p.smalls),
      plan_bigs-IsLarge (table files) bigs (start smalls) ((refl, tt))
          (All-append_inv (IsFound (table files)) bigs smalls found).0 large,
      found,
    )
