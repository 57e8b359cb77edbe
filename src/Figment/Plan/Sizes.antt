-- ===== src/Figment/Plan/Sizes.antt =====
-- The sizes of the parts of a plan: S3 takes no part below its floor but the last.
use demo_s3_archiving.Prelude.{ℕ, zero, suc, ◌+◌, ◌-◌, ◌≤◌, ◌≡◌, refl, ap, arith, inl, inr}
use demo_s3_archiving.Prelude.{Bool, true, false, ◌&&◌, Bool-cases, leb, leb→le, lt→ltb}
use demo_s3_archiving.Prelude.{List, [], ◌∷◌, sum_by, sum_by-append, All, All-append}
use demo_s3_archiving.Figment.ZipFormat.{local_header_len, entry_total_len}
use demo_s3_archiving.Figment.Plan.{
  SourceFile, Segment, streamed_file, copied_file_header, streamed_big_prefix, central_directory,
  PartSpec, copy, stream, SizeOf, Planning, take_small, pull_smalls, copy_big, fold_big, part_floor,
  plan_big, plan_bigs, steal_len,
}

module _ (size_of : SizeOf) where
  -- The bytes of a segment, by the sizes of the files; the directory is counted as nothing.
  abbrev pub segment_size : Segment → ℕ
  segment_size (streamed_file id) = entry_total_len (size_of id).0 (size_of id).1
  segment_size (copied_file_header id) = local_header_len (size_of id).0
  segment_size (streamed_big_prefix id len) = len
  segment_size central_directory = 0

  -- A copy runs from its start to the end of the file.
  abbrev pub part_size : PartSpec → ℕ
  part_size (copy n id from) = (size_of id).1 - from
  part_size (stream n segs) = sum_by segment_size segs

  abbrev pub IsLarge : PartSpec → Type 0
  IsLarge p = part_floor ≤ part_size p

  -- What the table says of a file.
  abbrev pub IsFound : SourceFile → Type 0
  IsFound f = size_of f.id ≡ (f.name, f.size)

  -- The counter holds the size of the batch, and the parts are large.
  unfoldable pub IsCounted : Planning → Type 0
  IsCounted p = (p.cur_bytes ≡ sum_by segment_size p.cur_segs) × All IsLarge p.parts

  pull_smalls-IsCounted :
      (h m : ℕ) (smalls : List SourceFile) (pulled : Bool) (p : Planning)
      → IsCounted p
      → IsCounted (pull_smalls size_of h m smalls pulled p).1
  unfolding pull_smalls take_small IsCounted
  pull_smalls-IsCounted h m [] pulled p i = i
  pull_smalls-IsCounted h m (s ∷ rest) pulled p i =
      let next = pull_smalls-IsCounted h m rest true (take_small size_of p s rest) (
        (
          omega (arith, i.0, sum_by-append segment_size p.cur_segs (streamed_file s.id ∷ [])),
          i.1,
        )) in
      elim (Bool-cases (leb part_floor (p.cur_bytes + h))) [
        | inl a ↦ rw a i
        | inr a ↦ elim (Bool-cases (leb (part_floor - (p.cur_bytes + h)) m && pulled)) [
          | inl b ↦ rw (a, b) i
          | inr b ↦ rw (a, b) next
        ]
      ]

  -- No more is stolen than may be.
  steal_len_le :
      (w m : ℕ) (pulled : Bool) (smalls : List SourceFile) → steal_len w m pulled smalls ≤ m
  unfolding steal_len
  steal_len_le w m pulled [] = ground arith
  steal_len_le w m true (s ∷ rest) = ground arith
  steal_len_le w m false (s ∷ rest) = omega arith

  copy_big-IsCounted :
      (p : Planning) (big : SourceFile) (k : ℕ)
      → IsCounted p
      → IsFound big
      → part_floor ≤ p.cur_bytes + local_header_len (size_of big.id).0 + k
      → part_floor + k ≤ big.size
      → IsCounted (copy_big p big k)
  unfolding copy_big IsCounted local_header_len
  copy_big-IsCounted p big zero i found large left = (
    refl,
    All-append IsLarge p.parts _ i.1 (
        (
          omega
              (arith, i.0, sum_by-append segment_size p.cur_segs (copied_file_header big.id ∷ [])),
          (omega (arith, ap (λ t. t.1) found), tt),
        )),
  )
  copy_big-IsCounted p big (suc k) i found large left = rw (lt→ltb 0 (suc k) (omega arith)) (
      (
        refl,
        All-append IsLarge p.parts _ i.1 (
            (
              omega (
                arith,
                i.0,
                sum_by-append segment_size p.cur_segs
                    (copied_file_header big.id ∷ streamed_big_prefix big.id (suc k) ∷ []),
              ),
              (omega (arith, ap (λ t. t.1) found), tt),
            )),
      ))

  fold_big-IsCounted :
      (p : Planning) (big : SourceFile)
      → IsCounted p
      → IsFound big
      → part_floor ≤ big.size
      → IsCounted (fold_big p big)
  unfolding fold_big IsCounted entry_total_len
  fold_big-IsCounted p big i found large = (
    refl,
    All-append IsLarge p.parts _ i.1 (
        (
          omega (
            arith,
            ap (λ t. t.1) found,
            sum_by-append segment_size p.cur_segs (streamed_file big.id ∷ []),
          ),
          tt,
        )),
  )

  plan_big-IsCounted :
      (p : Planning) (big : SourceFile)
      → IsCounted p
      → IsFound big
      → part_floor ≤ big.size
      → IsCounted (plan_big size_of p big)
  unfolding plan_big
  plan_big-IsCounted p big i found large =
      let h = local_header_len (size_of big.id).0 in
      let steal = big.size - part_floor in
      let run = pull_smalls size_of h steal p.smalls false p in
      let j = pull_smalls-IsCounted h steal p.smalls false p i in
      let k = steal_len (run.1.cur_bytes + h) steal run.0 run.1.smalls in
      elim (Bool-cases (leb part_floor (run.1.cur_bytes + h + k))) [
        | inl e ↦ rw e (
            copy_big-IsCounted run.1 big k j found (leb→le _ _ e)
              (omega (arith, steal_len_le (run.1.cur_bytes + h) steal run.0 run.1.smalls)))
        | inr e ↦ rw e (fold_big-IsCounted run.1 big j found large)
      ]

  pub plan_bigs-IsLarge :
      (bigs : List SourceFile) (p : Planning)
      → IsCounted p
      → All IsFound bigs
      → All (λ f. part_floor ≤ f.size) bigs
      → All IsLarge (plan_bigs size_of p bigs).parts
  unfolding plan_bigs IsCounted
  plan_bigs-IsLarge [] p i found large = i.1
  plan_bigs-IsLarge (big ∷ bigs) p i found large =
      plan_bigs-IsLarge bigs (plan_big size_of p big) (plan_big-IsCounted p big i found.0 large.0)
        found.1 large.1
