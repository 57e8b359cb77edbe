-- ===== src/JrodonV3/Layout/Conserve.antt =====
-- The planned parts hold each source file once.
use demo_s3_archiving.Prelude.{ℕ, zero, suc, ◌+◌, ◌-◌, ◌≡◌, ◌≤◌, ◌<◌, refl, arith}
use demo_s3_archiving.Prelude.{Bool-cases, Option-cases, inl, inr, Perm}
use demo_s3_archiving.Prelude.{List, [], ◌∷◌, ◌++◌, none, some}
use demo_s3_archiving.Prelude.{leb, ◌==◌, length, sum_by, sum_by-append}
use demo_s3_archiving.Prelude.Bags.{SameSums-perm}
use demo_s3_archiving.JrodonV3.Files.{
  FileInfo, insert_by_size, sort_by_size, entry_size, target_part_size,
}
use demo_s3_archiving.JrodonV3.Files.{min_part_size, part_size, loc_size}
use demo_s3_archiving.JrodonV3.Layout.{
  RegularZipPart, CopyZipPart, ZipLayoutPart, full_copy, partial_copy, single, duo, pop_back,
  make_duo, min_missing, fill_duo, duo_pass, absorb, promote_pass, pad, pad_pass, single_pass,
  from_files_info,
}
use native.Mathlib.Decide.{ℕ_discrete}

-- The files of a part, in the order of the archive: the copied file comes behind the regular half.
abbrev pub copied : CopyZipPart → FileInfo
copied (full_copy f) = f
copied (partial_copy f start) = f

abbrev pub part_files : ZipLayoutPart → List FileInfo
part_files (single regular) = regular
part_files (duo regular copy) = regular ++ copied copy ∷ []

abbrev pub layout_files : List ZipLayoutPart → List FileInfo
layout_files [] = []
layout_files (p ∷ ps) = part_files p ++ layout_files ps

pub FileInfo-discrete : Discrete FileInfo
FileInfo-discrete = hlevel ℕ_discrete

module _ (m : FileInfo → ℕ) where
  sum_layout : List ZipLayoutPart → ℕ
  sum_layout [] = 0
  sum_layout (p ∷ ps) = sum_by m (part_files p) + sum_layout ps

  sum-layout_files : (ps : List ZipLayoutPart) → sum_by m (layout_files ps) ≡ sum_layout ps
  unfolding sum_layout
  sum-layout_files [] = refl
  sum-layout_files (p ∷ ps) =
      omega (arith, sum_by-append m (part_files p) (layout_files ps), sum-layout_files ps)

  sum-snoc : (xs : List FileInfo) (f : FileInfo) → sum_by m (xs ++ f ∷ []) ≡ sum_by m xs + m f
  sum-snoc xs f = omega (arith, sum_by-append m xs (f ∷ []))

  insert-sum :
      (f : FileInfo) (gs : List FileInfo) → sum_by m (insert_by_size f gs) ≡ m f + sum_by m gs
  unfolding insert_by_size
  insert-sum f [] = refl
  insert-sum f (g ∷ gs) = ground (arith, insert-sum f gs)

  sort-sum : (fs : List FileInfo) → sum_by m (sort_by_size fs) ≡ sum_by m fs
  unfolding sort_by_size
  sort-sum [] = refl
  sort-sum (f ∷ fs) = omega (arith, insert-sum f (sort_by_size fs), sort-sum fs)

  pub pop_back-none : (fs : List FileInfo) → pop_back fs ≡ none → fs ≡ []
  unfolding pop_back
  pop_back-none [] e = refl
  pop_back-none (f ∷ fs) e = ground arith

  pop_back-sum :
      (fs : List FileInfo) {last : FileInfo} {front : List FileInfo}
      → pop_back fs ≡ some (last, front)
      → sum_by m fs ≡ sum_by m front + m last
  unfolding pop_back
  pop_back-sum [] e = cc
  pop_back-sum (f ∷ fs) {last} {front} e = elim (Option-cases (pop_back fs)) [
    | inl p ↦ ground (arith, p, e, pop_back-none fs p)
    | inr ((l, r), p) ↦ ground (arith, p, e, pop_back-sum fs {last = l} {front = r} p)
  ]

  make_duo-sum :
      (big : FileInfo) (r : RegularZipPart)
      → sum_by m (part_files (make_duo big r)) ≡ sum_by m r + m big
  unfolding make_duo
  make_duo-sum big r = elim (Bool-cases (min_part_size - part_size r - loc_size big == 0)) [
    | inl e ↦ rw e (sum-snoc r big)
    | inr e ↦ rw e (sum-snoc r big)
  ]

  fill_duo-sum :
      (big : FileInfo) (missing : ℕ) (r q : List FileInfo)
      → let (p, left) = fill_duo big missing r q in
        sum_by m (part_files p) + sum_by m left ≡ sum_by m r + sum_by m q + m big
  unfolding fill_duo
  fill_duo-sum big missing r [] = ground (arith, make_duo-sum big r, sum-snoc r big)
  fill_duo-sum big missing r (f ∷ q) =
      ground (arith, make_duo-sum big r, sum-snoc r f, fill_duo-sum big missing (r ++ f ∷ []) q)

  duo_pass-sum :
      (n : ℕ) (q : List FileInfo)
      → let (ps, left) = duo_pass n q in sum_layout ps + sum_by m left ≡ sum_by m q
  unfolding duo_pass sum_layout
  duo_pass-sum zero q = omega arith
  duo_pass-sum (suc n) q = elim (Option-cases (pop_back q)) [
    | inl p ↦ ground (arith, p)
    | inr ((big, front), p) ↦ elim (Bool-cases (leb min_part_size big.size)) [
      | inl h ↦ ground (
        arith,
        p,
        h,
        pop_back-sum q p,
        fill_duo-sum big (min_missing big) [] front,
        duo_pass-sum n (fill_duo big (min_missing big) [] front).1,
      )
      | inr h ↦ ground (arith, p, h)
    ]
  ]

  absorb-sum :
      (start : ℕ) (r q : List FileInfo)
      → let (s, r', left) = absorb start r q in
        sum_by m r' + sum_by m left ≡ sum_by m r + sum_by m q
  unfolding absorb
  absorb-sum start r [] = refl
  absorb-sum start r (f ∷ q) =
      ground (arith, sum-snoc r f, absorb-sum (start - entry_size f) (r ++ f ∷ []) q)

  pad-sum :
      (missing : ℕ) (r q : List FileInfo)
      → let (s, r', left) = pad missing r q in sum_by m r' + sum_by m left ≡ sum_by m r + sum_by m q
  unfolding pad
  pad-sum missing r [] = refl
  pad-sum missing r (f ∷ q) =
      ground (arith, sum-snoc r f, pad-sum (missing - entry_size f) (r ++ f ∷ []) q)

  promote_pass-sum :
      (ps : List ZipLayoutPart) (q : List FileInfo)
      → let (ps', left) = promote_pass ps q in
        sum_layout ps' + sum_by m left ≡ sum_layout ps + sum_by m q
  unfolding promote_pass sum_layout
  promote_pass-sum [] q = refl
  promote_pass-sum (single r ∷ ps) q = omega (arith, promote_pass-sum ps q)
  promote_pass-sum (duo r (full_copy big) ∷ ps) q = omega (arith, promote_pass-sum ps q)
  promote_pass-sum (duo r (partial_copy big start) ∷ ps) q = ground (
    arith,
    absorb-sum start r q,
    sum-snoc r big,
    sum-snoc (absorb start r q).1 big,
    promote_pass-sum ps (absorb start r q).2,
  )

  pad_pass-sum :
      (ps : List ZipLayoutPart) (q : List FileInfo)
      → let (ps', left) = pad_pass ps q in
        sum_layout ps' + sum_by m left ≡ sum_layout ps + sum_by m q
  unfolding pad_pass sum_layout
  pad_pass-sum [] q = refl
  pad_pass-sum (single r ∷ ps) q = omega (arith, pad_pass-sum ps q)
  pad_pass-sum (duo r c ∷ ps) q =
      let step = pad (target_part_size - part_size r) r q in
      ground (
        arith,
        pad-sum (target_part_size - part_size r) r q,
        sum-snoc r (copied c),
        sum-snoc step.1 (copied c),
        pad_pass-sum ps step.2,
      )

-- What `pad` leaves is not longer, and shorter where something was missing.
length-pad : (missing : ℕ) (r q : List FileInfo) → length (pad missing r q).2 ≤ length q
unfolding pad
length-pad missing r [] = omega arith
length-pad missing r (f ∷ q) = ground (arith, length-pad (missing - entry_size f) (r ++ f ∷ []) q)

pub length-pad_lt :
    (missing : ℕ) (r : List FileInfo) (f : FileInfo) (q : List FileInfo)
    → 0 < missing
    → length (pad missing r (f ∷ q)).2 ≤ length q
unfolding pad
length-pad_lt missing r f q h = ground (arith, length-pad (missing - entry_size f) (r ++ f ∷ []) q)

single_pass-sum :
    (m : FileInfo → ℕ) (n : ℕ) (q : List FileInfo)
    → length q ≤ n
    → sum_layout m (single_pass n q) ≡ sum_by m q
unfolding single_pass sum_layout
single_pass-sum m n [] h = refl
single_pass-sum m zero (f ∷ q) h = absurd (omega arith)
single_pass-sum m (suc n) (f ∷ q) h =
    let left = (pad target_part_size [] (f ∷ q)).2 in
    omega (
      arith,
      pad-sum m target_part_size [] (f ∷ q),
      single_pass-sum m n left (omega (arith, length-pad_lt target_part_size [] f q (omega arith))),
    )

module _ (m : FileInfo → ℕ) where
  layout-append :
      (ps qs : List ZipLayoutPart) → sum_layout m (ps ++ qs) ≡ sum_layout m ps + sum_layout m qs
  unfolding sum_layout
  layout-append [] qs = omega arith
  layout-append (p ∷ ps) qs = omega (arith, layout-append ps qs)

  from_files_info-sum :
      (fs : List FileInfo) → sum_by m (layout_files (from_files_info fs)) ≡ sum_by m fs
  unfolding from_files_info
  from_files_info-sum fs =
      let one = duo_pass (length fs) (sort_by_size fs) in
      let two = promote_pass one.0 one.1 in
      let three = pad_pass two.0 two.1 in
      omega (
        arith,
        sum-layout_files m (from_files_info fs),
        layout-append three.0 (single_pass (length three.1) three.1),
        single_pass-sum m (length three.1) three.1 (omega arith),
        pad_pass-sum m two.0 two.1,
        promote_pass-sum m one.0 one.1,
        duo_pass-sum m (length fs) (sort_by_size fs),
        sort-sum m fs,
      )

-- The files of the planned parts are the source files: none is lost, added or doubled.
pub from_files_info-perm : (fs : List FileInfo) → Perm (layout_files (from_files_info fs)) fs
from_files_info-perm fs =
    SameSums-perm FileInfo-discrete (layout_files (from_files_info fs)) fs
      (λ m. from_files_info-sum m fs)
