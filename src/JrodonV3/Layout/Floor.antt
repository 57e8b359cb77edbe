-- ===== src/JrodonV3/Layout/Floor.antt =====
-- Every planned part but the last is large enough for S3.
use demo_s3_archiving.Prelude.{ℕ, zero, suc, ◌+◌, ◌-◌, ◌≡◌, ◌≤◌, ◌⊎◌, refl, arith}
use demo_s3_archiving.Prelude.{Bool-cases, Option-cases, inl, inr}
use demo_s3_archiving.Prelude.{List, [], ◌∷◌, ◌++◌}
use demo_s3_archiving.Prelude.{leb, ◌==◌, length, sum_by-append}
use demo_s3_archiving.Prelude.{leb→le, All}
use demo_s3_archiving.JrodonV3.Files.{FileInfo, sort_by_size, target_part_size}
use demo_s3_archiving.JrodonV3.Files.{min_part_size, part_size, loc_size, entry_size}
use demo_s3_archiving.JrodonV3.Layout.{
  RegularZipPart, CopyZipPart, ZipLayoutPart, full_copy, partial_copy, single, duo, pop_back,
  make_duo, min_missing, fill_duo, duo_pass, absorb, promote_pass, pad, pad_pass, single_pass,
  from_files_info,
}

-- A Single uploads at least the minimum. Of a Duo, the regular half does, with the header of the
-- copied file and the bytes downloaded of it, and the copied bytes do too.
abbrev pub IsLarge : ZipLayoutPart → Type 0
IsLarge (single regular) = min_part_size ≤ part_size regular
IsLarge (duo regular (full_copy big)) =
    (min_part_size ≤ part_size regular + loc_size big) × (min_part_size ≤ big.size)
IsLarge (duo regular (partial_copy big start)) =
    (min_part_size ≤ part_size regular + loc_size big + start) × (min_part_size + start ≤ big.size)

abbrev pub IsSingle : ZipLayoutPart → Type 0
IsSingle (single regular) = Unit
IsSingle (duo regular copy) = ⊥

-- Every part is large, but for a Single at the end.
abbrev pub IsFloored : List ZipLayoutPart → Type 0
IsFloored [] = Unit
IsFloored (p ∷ ps) = (IsLarge p ⊎ (IsSingle p × (ps ≡ []))) × IsFloored ps

part_size-snoc :
    (r : RegularZipPart) (f : FileInfo) → part_size (r ++ f ∷ []) ≡ part_size r + entry_size f
part_size-snoc r f = omega (arith, sum_by-append entry_size r (f ∷ []))

make_duo-IsLarge :
    (big : FileInfo) (r : RegularZipPart)
    → min_part_size ≤ big.size
    → min_missing big ≤ part_size r
    → IsLarge (make_duo big r)
unfolding make_duo min_missing
make_duo-IsLarge big r h enough =
    elim (Bool-cases (min_part_size - part_size r - loc_size big == 0)) [
      | inl e ↦ rw e ((ground (arith, e), h))
      | inr e ↦ rw e ((omega arith, omega arith))
    ]

fill_duo-IsLarge :
    (big : FileInfo) (r q : List FileInfo)
    → min_part_size ≤ big.size
    → IsLarge (fill_duo big (min_missing big) r q).0
unfolding fill_duo
fill_duo-IsLarge big r [] h = elim (Bool-cases (leb (min_missing big) (part_size r))) [
  | inl e ↦ rw e (make_duo-IsLarge big r h (leb→le _ _ e))
  | inr e ↦ rw e (unfold entry_size in omega (arith, part_size-snoc r big))
]
fill_duo-IsLarge big r (f ∷ q) h = elim (Bool-cases (leb (min_missing big) (part_size r))) [
  | inl e ↦ rw e (make_duo-IsLarge big r h (leb→le _ _ e))
  | inr e ↦ rw e (fill_duo-IsLarge big (r ++ f ∷ []) q h)
]

duo_pass-IsLarge : (n : ℕ) (q : List FileInfo) → All IsLarge (duo_pass n q).0
unfolding duo_pass
duo_pass-IsLarge zero q = tt
duo_pass-IsLarge (suc n) q = elim (Option-cases (pop_back q)) [
  | inl p ↦ rw (p, All) tt
  | inr ((big, front), p) ↦ elim (Bool-cases (leb min_part_size big.size)) [
    | inl h ↦
        rw (p, h, All)
          ((
            fill_duo-IsLarge big [] front (leb→le _ _ h),
            duo_pass-IsLarge n (fill_duo big (min_missing big) [] front).1,
          ))
    | inr h ↦ rw (p, h, All) tt
  ]
]

-- What is taken off the start of a copy is added to the regular half.
absorb-sum :
    (start : ℕ) (r q : List FileInfo)
    → let (start', r', left) = absorb start r q in
      (part_size r + start ≤ part_size r' + start') × (start' ≤ start)
unfolding absorb
absorb-sum start r [] = omega arith
absorb-sum start r (f ∷ q) =
    ground (arith, part_size-snoc r f, absorb-sum (start - entry_size f) (r ++ f ∷ []) q)

promote_pass-IsLarge :
    (ps : List ZipLayoutPart) (q : List FileInfo)
    → All IsLarge ps
    → All IsLarge (promote_pass ps q).0
unfolding promote_pass
promote_pass-IsLarge [] q h = tt
promote_pass-IsLarge (single r ∷ ps) q (h, hs) = (h, promote_pass-IsLarge ps q hs)
promote_pass-IsLarge (duo r (full_copy big) ∷ ps) q (h, hs) = (h, promote_pass-IsLarge ps q hs)
promote_pass-IsLarge (duo r (partial_copy big start) ∷ ps) q (h, hs) =
    let step = absorb start r q in
    elim (Bool-cases (step.0 == 0)) [
      | inl e ↦ rw e (
        (ground (arith, e, absorb-sum start r q), omega arith),
        promote_pass-IsLarge ps step.2 hs,
      )
      | inr e ↦
          rw e ((ground (arith, absorb-sum start r q), ground (arith, absorb-sum start r q)), hs)
    ]

pad-grows : (missing : ℕ) (r q : List FileInfo) → part_size r ≤ part_size (pad missing r q).1
unfolding pad
pad-grows missing r [] = omega arith
pad-grows missing r (f ∷ q) =
    ground (arith, part_size-snoc r f, pad-grows (missing - entry_size f) (r ++ f ∷ []) q)

-- Where `pad` leaves something in the queue, nothing is missing any more.
pad_fills :
    (missing : ℕ) (r q : List FileInfo)
    → ((pad missing r q).2 ≡ []) ⊎ (part_size r + missing ≤ part_size (pad missing r q).1)
unfolding pad
pad_fills missing r [] = inl refl
pad_fills missing r (f ∷ q) =
    ground (arith, part_size-snoc r f, pad_fills (missing - entry_size f) (r ++ f ∷ []) q)

IsLarge-grows :
    (r r' : RegularZipPart) (c : CopyZipPart)
    → part_size r ≤ part_size r'
    → IsLarge (duo r c)
    → IsLarge (duo r' c)
IsLarge-grows r r' (full_copy big) le h = omega arith
IsLarge-grows r r' (partial_copy big start) le h = omega arith

pad_pass-IsLarge :
    (ps : List ZipLayoutPart) (q : List FileInfo) → All IsLarge ps → All IsLarge (pad_pass ps q).0
unfolding pad_pass
pad_pass-IsLarge [] q h = tt
pad_pass-IsLarge (single r ∷ ps) q (h, hs) = (h, pad_pass-IsLarge ps q hs)
pad_pass-IsLarge (duo r c ∷ ps) q (h, hs) =
    let missing = target_part_size - part_size r in
    let step = pad missing r q in
    let larger = IsLarge-grows r step.1 c (pad-grows missing r q) h in
    elim (Bool-cases (step.0 == 0)) [
      | inl e ↦ rw e ((larger, pad_pass-IsLarge ps step.2 hs))
      | inr e ↦ rw e ((larger, hs))
    ]

single_pass-nil : (n : ℕ) → single_pass n [] ≡ []
unfolding single_pass
single_pass-nil zero = refl
single_pass-nil (suc n) = refl

single_pass-IsFloored : (n : ℕ) (q : List FileInfo) → IsFloored (single_pass n q)
unfolding single_pass
single_pass-IsFloored zero [] = tt
single_pass-IsFloored (suc n) [] = tt
single_pass-IsFloored zero (f ∷ q) = tt
single_pass-IsFloored (suc n) (f ∷ q) =
    let left = (pad target_part_size [] (f ∷ q)).2 in
    elim (pad_fills target_part_size [] (f ∷ q)) [
      | inl e ↦ (inr (tt, rw e (single_pass-nil n)), single_pass-IsFloored n left)
      | inr le ↦ (inl (omega arith), single_pass-IsFloored n left)
    ]

IsFloored-append :
    (ps qs : List ZipLayoutPart) → All IsLarge ps → IsFloored qs → IsFloored (ps ++ qs)
IsFloored-append [] qs h k = k
IsFloored-append (p ∷ ps) qs (h, hs) k = (inl h, IsFloored-append ps qs hs k)

-- Each part of the plan meets the least part size of S3 in both of its halves, but for a Single that
-- ends the plan.
pub from_files_info-IsFloored : (fs : List FileInfo) → IsFloored (from_files_info fs)
unfolding from_files_info
from_files_info-IsFloored fs =
    let one = duo_pass (length fs) (sort_by_size fs) in
    let two = promote_pass one.0 one.1 in
    let three = pad_pass two.0 two.1 in
    IsFloored-append three.0 _
      (pad_pass-IsLarge two.0 two.1
        (promote_pass-IsLarge one.0 one.1 (duo_pass-IsLarge (length fs) (sort_by_size fs))))
      (single_pass-IsFloored (length three.1) three.1)
