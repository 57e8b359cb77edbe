-- ===== src/FigmentChain/PlanChain/Table.antt =====
-- The buckets of the planner of the chain, and its table of names and sizes, from which each entry
-- is taken once.
use demo_s3_archiving.Prelude.{
  ℕ, zero, suc, ◌+◌, ◌%◌, ◌≤◌, ◌<◌, ◌≡◌, refl, ap, ◌∙◌, arith, inl, inr,
}
use demo_s3_archiving.Prelude.{true, false, Bool-cases, ◌==◌, if◌then◌else◌}
use demo_s3_archiving.Prelude.{List, [], ◌∷◌, map, some, Option-cases}
use demo_s3_archiving.Prelude.{length, length-map, sum_by, sum_by-append, All}
use demo_s3_archiving.Figment.Plan.{
  FileId, SourceFile, SizeOf, insert_size, insert_sizes, contains, offsets_from,
}
use demo_s3_archiving.Figment.Plan.Sizes.{IsFound}
use demo_s3_archiving.FigmentChain.PlanChain.{
  Entry, Bucket, new_bucket, push_at, spread, make_buckets, entries_of,
}
use demo_s3_archiving.FigmentChain.PlanChain.Sizes.{bucket_sum}
use demo_s3_archiving.Figment.ZipFormat.{entry_total_len, central_dir_entry_len}
use native.Mathlib.Nat.{mod-lt}

-- How often an id stands in an order, and among files.
abbrev pub is : FileId → FileId → ℕ
is a id = if id == a then 1 else 0

abbrev pub count : FileId → List FileId → ℕ
count a order = sum_by (is a) order

abbrev pub count_file : FileId → List SourceFile → ℕ
count_file a files = sum_by (λ f. is a f.id) files

-- No two of the files have one id.
abbrev pub IsDistinct : List SourceFile → Type 0
IsDistinct files = (a : FileId) → count_file a files ≤ 1

is_self : (a : FileId) → is a a ≡ 1
is_self a = ground arith

count-contains : (taken : List FileId) (id : FileId) → contains taken id ≡ true → 1 ≤ count id taken
unfolding contains
count-contains [] id h = absurd (cc h)
count-contains (x ∷ taken) id h = elim (Bool-cases (x == id)) [
  | inl e ↦ rw e (omega arith)
  | inr e ↦ let k : contains taken id ≡ true = rw e at h in omega (arith, count-contains taken id k)
]

count-absent : (taken : List FileId) (id : FileId) → contains taken id ≡ false → count id taken ≡ 0
unfolding contains
count-absent [] id h = refl
count-absent (x ∷ taken) id h = elim (Bool-cases (x == id)) [
  | inl e ↦ absurd (cc (rw e at h))
  | inr e ↦
      let k : contains taken id ≡ false = rw e at h in rw e (omega (arith, count-absent taken id k))
]

fresh :
    (taken : List FileId) (id b : FileId)
    → count b taken ≤ 1
    → count id taken ≡ 0
    → count b (id ∷ taken) ≤ 1
fresh taken id b h k = elim (Bool-cases (id == b)) [
  | inl e ↦
      let same : id ≡ b = ground (arith, e) in rw e (omega (arith, k, ap (λ t. count t taken) same))
  | inr e ↦ rw e (omega (arith, h))
]

module _ (size_of : SizeOf) where
  -- Where no id stands twice, the loop over the order does not panic.
  pub entries_of-total :
      (order taken : List FileId) (acc : ℕ)
      → ((a : FileId) → count a taken + count a order ≤ 1)
      → (r : List (FileId × Entry) × ℕ) × (entries_of size_of taken order
            (offsets_from size_of acc order)
          ≡ some r)
  unfolding entries_of offsets_from
  entries_of-total [] taken acc h = (([], 0), refl)
  entries_of-total (id ∷ order) taken acc h = elim (Bool-cases (contains taken id)) [
    | inl e ↦ absurd (omega (arith, count-contains taken id e, h id, is_self id))
    | inr e ↦
        let (r, k) =
          entries_of-total order (id ∷ taken) (acc + entry_total_len (size_of id).0 (size_of id).1)
            (λ a. omega (arith, h a)) in
        rw (e, k) (_, refl)
  ]

  -- And where it does not panic, no id stands twice.
  pub entries_of-distinct :
      (order taken : List FileId) (offsets : List ℕ) (r : List (FileId × Entry) × ℕ)
      → entries_of size_of taken order offsets ≡ some r
      → ((a : FileId) → count a taken ≤ 1)
      → (a : FileId) → count a taken + count a order ≤ 1
  unfolding entries_of
  entries_of-distinct [] taken offsets r h one a = omega (arith, one a)
  entries_of-distinct (id ∷ order) taken [] r h one a = absurd (cc h)
  entries_of-distinct (id ∷ order) taken (offset ∷ offsets) r h one a =
      elim (Bool-cases (contains taken id)) [
        | inl e ↦ absurd (cc (rw e at h))
        | inr e ↦ elim (Option-cases (entries_of size_of (id ∷ taken) order offsets)) [
          | inl k ↦ absurd (cc (rw (e, k) at h))
          | inr (s, k) ↦
              let next =
                entries_of-distinct order (id ∷ taken) offsets s k
                  (λ b. fresh taken id b (one b) (count-absent taken id e)) a in
              omega (arith, next)
        ]
      ]

-- The entries of an order from an offset on, each right behind the one before.
abbrev pub listed : SizeOf → ℕ → List FileId → List (FileId × Entry)
listed size_of acc [] = []
listed size_of acc (id ∷ order) =
    (
      id,
      record { id = id; name = (size_of id).0; size = (size_of id).1; local_header_offset = acc },
    )
    ∷ listed size_of (acc + entry_total_len (size_of id).0 (size_of id).1) order

-- The lengths of their records in the central directory.
abbrev pub records_len : List (FileId × Entry) → ℕ
records_len entries = sum_by (λ p. central_dir_entry_len p.1.name p.1.local_header_offset) entries

-- What the loop over the order returns.
pub entries_of-listed :
    (size_of : SizeOf) (order taken : List FileId) (acc : ℕ) (r : List (FileId × Entry) × ℕ)
    → entries_of size_of taken order (offsets_from size_of acc order) ≡ some r
    → r ≡ (listed size_of acc order, records_len (listed size_of acc order))
unfolding entries_of offsets_from
entries_of-listed size_of [] taken acc r h = cc h
entries_of-listed size_of (id ∷ order) taken acc r h =
    let next = acc + entry_total_len (size_of id).0 (size_of id).1 in
    elim (Bool-cases (contains taken id)) [
      | inl c ↦ absurd (cc (rw c at h))
      | inr c ↦
          elim (Option-cases
            (entries_of size_of (id ∷ taken) order (offsets_from size_of next order))) [
              | inl k ↦ absurd (cc (rw (c, k) at h))
              | inr (s, k) ↦
                  let whole = rw (c, k) at h in
                  let rest = entries_of-listed size_of order (id ∷ taken) next s k in
                  cc (whole, rest)
            ]
    ]

-- The table holds what was inserted under an id last.
insert_sizes_other :
    (fs : List SourceFile) (size_of : SizeOf) (id : FileId)
    → count_file id fs ≡ 0
    → insert_sizes size_of fs id ≡ size_of id
unfolding insert_sizes insert_size
insert_sizes_other [] size_of id h = refl
insert_sizes_other (f ∷ fs) size_of id h =
    insert_sizes_other fs (insert_size size_of f) id (omega (arith, h))
    ∙ (elim (Bool-cases (f.id == id)) [
      | inl e ↦ absurd (let k : 1 + count_file id fs ≡ 0 = rw e at h in omega (arith, k))
      | inr e ↦ rw e refl
    ])

pub insert_sizes-distinct :
    (fs : List SourceFile) (size_of : SizeOf)
    → IsDistinct fs
    → All (IsFound (insert_sizes size_of fs)) fs
unfolding insert_sizes insert_size
insert_sizes-distinct [] size_of h = tt
insert_sizes-distinct (f ∷ fs) size_of h =
    let own : insert_size size_of f f.id ≡ (f.name, f.size) = elim (Bool-cases (f.id == f.id)) [
      | inl e ↦ rw e refl
      | inr e ↦ absurd (ground (arith, e))
    ] in
    (
      insert_sizes_other fs (insert_size size_of f) f.id (omega (arith, h f.id, is_self f.id))
          ∙ own,
      insert_sizes-distinct fs (insert_size size_of f) (λ a. omega (arith, h a)),
    )

push_at-sum :
    (m : FileId → ℕ) (i : ℕ) (id : FileId) (bs : List Bucket)
    → i < length bs
    → sum_by (bucket_sum m) (push_at i id bs) ≡ m id + sum_by (bucket_sum m) bs
unfolding push_at
push_at-sum m i id [] h = absurd (omega (arith, h))
push_at-sum m zero id (b ∷ bs) h = omega (arith, sum_by-append m b.1 (id ∷ []))
push_at-sum m (suc i) id (b ∷ bs) h = omega (arith, push_at-sum m i id bs (omega (arith, h)))

length-push_at : (i : ℕ) (id : FileId) (bs : List Bucket) → length (push_at i id bs) ≡ length bs
unfolding push_at
length-push_at i id [] = refl
length-push_at zero id (b ∷ bs) = refl
length-push_at (suc i) id (b ∷ bs) = ap suc (length-push_at i id bs)

module _ (P : FileId → Type 0) where
  push_at-All :
      (i : ℕ) (id : FileId) (bs : List Bucket)
      → All (λ b. P b.0) bs
      → All (λ b. P b.0) (push_at i id bs)
  unfolding push_at
  push_at-All i id [] h = tt
  push_at-All zero id (b ∷ bs) h = h
  push_at-All (suc i) id (b ∷ bs) (p, h) = (p, push_at-All i id bs h)

  spread-All :
      (n : ℕ) (smalls : List SourceFile) (i : ℕ) (bs : List Bucket)
      → All (λ b. P b.0) bs
      → All (λ b. P b.0) (spread n i smalls bs)
  unfolding spread
  spread-All n [] i bs h = h
  spread-All n (s ∷ smalls) i bs h = spread-All n smalls (i + 1) _ (push_at-All (i % n) s.id bs h)

  new-All :
      (bigs : List SourceFile) → All (λ f. P f.id) bigs → All (λ b. P b.0) (map new_bucket bigs)
  unfolding new_bucket
  new-All [] h = tt
  new-All (f ∷ fs) (p, h) = (p, new-All fs h)

  -- The anchors are the big files.
  pub make_buckets-All :
      (bigs smalls : List SourceFile)
      → All (λ f. P f.id) bigs
      → All (λ b. P b.0) (make_buckets bigs smalls)
  unfolding make_buckets
  make_buckets-All bigs smalls h = spread-All (length bigs) smalls 0 _ (new-All bigs h)

module _ (m : FileId → ℕ) where
  spread-sum :
      (n : ℕ) (smalls : List SourceFile) (i : ℕ) (bs : List Bucket)
      → 0 < n
      → length bs ≡ n
      → sum_by (bucket_sum m) (spread n i smalls bs)
        ≡ sum_by (λ f. m f.id) smalls + sum_by (bucket_sum m) bs
  unfolding spread
  spread-sum n [] i bs h e = omega arith
  spread-sum n (s ∷ smalls) i bs h e = omega (
    arith,
    spread-sum n smalls (i + 1) (push_at (i % n) s.id bs) h (length-push_at (i % n) s.id bs ∙ e),
    push_at-sum m (i % n) s.id bs (omega (arith, mod-lt i h, e)),
  )

  new-sum :
      (bigs : List SourceFile)
      → sum_by (bucket_sum m) (map new_bucket bigs) ≡ sum_by (λ f. m f.id) bigs
  unfolding new_bucket
  new-sum [] = refl
  new-sum (f ∷ fs) = omega (arith, new-sum fs)

  -- The round robin loses no file.
  pub make_buckets-sum :
      (bigs smalls : List SourceFile)
      → 0 < length bigs
      → sum_by (bucket_sum m) (make_buckets bigs smalls)
        ≡ sum_by (λ f. m f.id) smalls + sum_by (λ f. m f.id) bigs
  unfolding make_buckets
  make_buckets-sum bigs smalls h =
      spread-sum (length bigs) smalls 0 _ h (length-map new_bucket bigs)
      ∙ ap (λ t. sum_by (λ f. m f.id) smalls + t) (new-sum bigs)

length-spread :
    (n : ℕ) (smalls : List SourceFile) (i : ℕ) (bs : List Bucket)
    → length (spread n i smalls bs) ≡ length bs
unfolding spread
length-spread n [] i bs = refl
length-spread n (s ∷ smalls) i bs =
    length-spread n smalls (i + 1) _ ∙ length-push_at (i % n) s.id bs

pub length-make_buckets :
    (bigs smalls : List SourceFile) → length (make_buckets bigs smalls) ≡ length bigs
unfolding make_buckets
length-make_buckets bigs smalls =
    length-spread (length bigs) smalls 0 _ ∙ length-map new_bucket bigs
