-- ===== src/JrodonV3/Execute/Collect.antt =====
-- The order of the collected headers does not depend on the order in which they were received.
use demo_s3_archiving.Prelude.{ℕ, suc, ◌+◌, ◌≤◌, ◌≡◌, refl, sym, ap, ◌∙◌, arith, inl, inr}
use demo_s3_archiving.Prelude.{
  List, [], ◌∷◌, ◌++◌, length, sum_by, sum_by-append, ◌==◌, if◌then◌else◌, Bool-cases,
}
use demo_s3_archiving.Prelude.Bags.{SameSums, SameSums-split}
use demo_s3_archiving.JrodonV3.ZipFormat.Cdfh.{CentralDirectoryFileHeader, loc_offset}
use demo_s3_archiving.JrodonV3.Execute.{Entries, insert, collect}
use native.Mathlib.Decide.{ℕ_discrete}

CentralDirectoryFileHeader-discrete : Discrete CentralDirectoryFileHeader
CentralDirectoryFileHeader-discrete = hlevel ℕ_discrete

-- All that was received.
unfoldable pub insert_all : List CentralDirectoryFileHeader → Entries → Entries
insert_all [] es = es
insert_all (c ∷ cs) es = insert_all cs (insert (loc_offset c) c es)

length-insert :
    (k : ℕ) (c : CentralDirectoryFileHeader) (es : Entries)
    → length (insert k c es) ≤ suc (length es)
unfolding insert
length-insert k c [] = omega arith
length-insert k c ((l, d) ∷ es) = ground (arith, length-insert k c es)

-- The loop does not stop before the last header.
pub collect-insert_all :
    (n : ℕ) (cs : List CentralDirectoryFileHeader) (es : Entries)
    → length es + length cs ≤ n
    → collect n cs es ≡ insert_all cs es
unfolding collect insert_all
collect-insert_all n [] es h = refl
collect-insert_all n (c ∷ []) es h = elim (Bool-cases (n == length (insert (loc_offset c) c es))) [
  | inl e ↦ rw e refl
  | inr e ↦ rw e refl
]
collect-insert_all n (c ∷ d ∷ cs) es h =
    let es' = insert (loc_offset c) c es in
    let short = length-insert (loc_offset c) c es in
    elim (Bool-cases (n == length es')) [
      | inl e ↦ absurd (ground (arith, e, short, h))
      | inr e ↦ rw e (collect-insert_all n (d ∷ cs) es' (omega (arith, short, h)))
    ]

-- Headers with different offsets can be inserted in either order.
insert_comm :
    (k l : ℕ) (c d : CentralDirectoryFileHeader) (es : Entries)
    → ¬ (k ≡ l)
    → insert k c (insert l d es) ≡ insert l d (insert k c es)
unfolding insert
insert_comm k l c d [] n = ground arith
insert_comm k l c d ((m, e) ∷ es) n = ground (arith, insert_comm k l c d es n)

abbrev keyed : ℕ → CentralDirectoryFileHeader → ℕ
keyed k c = if loc_offset c == k then 1 else 0

-- No two headers stand at the same offset.
abbrev pub IsDistinct : List CentralDirectoryFileHeader → Type 0
IsDistinct cs = (k : ℕ) → sum_by (λ c. if loc_offset c == k then 1 else 0) cs ≤ 1

-- A header can be inserted first if no other stands at its offset.
insert_all-middle :
    (c : CentralDirectoryFileHeader) (front back : List CentralDirectoryFileHeader) (es : Entries)
    → sum_by (keyed (loc_offset c)) front ≡ 0
    → insert_all (front ++ c ∷ back) es ≡ insert_all (front ++ back) (insert (loc_offset c) c es)
unfolding insert_all
insert_all-middle c [] back es h = refl
insert_all-middle c (d ∷ front) back es h =
    let other : ¬ (loc_offset c ≡ loc_offset d) = ground (arith, h) in
    insert_all-middle c front back (insert (loc_offset d) d es) (omega (arith, h))
    ∙ ap (insert_all (front ++ back)) (insert_comm (loc_offset c) (loc_offset d) c d es other)

-- Headers at different offsets give the same directory in whatever order they come.
pub insert_all-SameSums :
    (xs ys : List CentralDirectoryFileHeader) (es : Entries)
    → SameSums xs ys
    → IsDistinct ys
    → insert_all xs es ≡ insert_all ys es
unfolding insert_all
insert_all-SameSums [] [] es same d = refl
insert_all-SameSums [] (y ∷ ys) es same d = absurd (omega (arith, same (λ _. 1)))
insert_all-SameSums (x ∷ xs) ys es same d =
    let (front, back, e, rest) = SameSums-split CentralDirectoryFileHeader-discrete x xs ys same in
    let counted = λ (f : CentralDirectoryFileHeader → ℕ).
      (ap (sum_by f) e ∙ sum_by-append f front (x ∷ back)) in
    let one : keyed (loc_offset x) x ≡ 1 = ground arith in
    insert_all-SameSums xs (front ++ back) (insert (loc_offset x) x es) rest
      (λ k. omega (arith, d k, counted (keyed k), sum_by-append (keyed k) front back))
    ∙ sym (
        ap (λ t. insert_all t es) e
        ∙ insert_all-middle x front back es
            (omega (arith, d (loc_offset x), counted (keyed (loc_offset x)), one)))
