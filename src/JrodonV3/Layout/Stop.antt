-- ===== src/JrodonV3/Layout/Stop.antt =====
-- The loops of the planner end by their own tests: the fuel is enough.
use demo_s3_archiving.Prelude.{ℕ, zero, suc, ◌≤◌, ◌≡◌, refl, ap, arith}
use demo_s3_archiving.Prelude.{Bool-cases, Option-cases, inl, inr}
use demo_s3_archiving.Prelude.{List, [], ◌∷◌, ◌++◌, some, length, leb}
use demo_s3_archiving.JrodonV3.Files.{FileInfo, min_part_size, target_part_size}
use demo_s3_archiving.JrodonV3.Layout.{
  single, pop_back, min_missing, fill_duo, duo_pass, pad, single_pass,
}
use demo_s3_archiving.JrodonV3.Layout.Conserve.{pop_back-none, length-pad_lt}

length-pop_back :
    (fs : List FileInfo) (last : FileInfo) (front : List FileInfo)
    → pop_back fs ≡ some (last, front)
    → length fs ≡ suc (length front)
unfolding pop_back
length-pop_back [] last front e = cc
length-pop_back (f ∷ fs) last front e = elim (Option-cases (pop_back fs)) [
  | inl p ↦ ground (arith, p, e, pop_back-none (λ f. 0) fs p)
  | inr ((l, r), p) ↦ ground (arith, p, e, length-pop_back fs l r p)
]

length-fill_duo :
    (big : FileInfo) (missing : ℕ) (r q : List FileInfo)
    → length (fill_duo big missing r q).1 ≤ length q
unfolding fill_duo
length-fill_duo big missing r [] = ground arith
length-fill_duo big missing r (f ∷ q) = ground (arith, length-fill_duo big missing (r ++ f ∷ []) q)

-- With fuel for the length of the queue, pass 1 gives the same with more fuel.
duo_pass-more : (n m : ℕ) (q : List FileInfo) → length q ≤ n → n ≤ m → duo_pass m q ≡ duo_pass n q
unfolding duo_pass pop_back
duo_pass-more zero zero q h k = refl
duo_pass-more zero (suc m) [] h k = refl
duo_pass-more zero (suc m) (f ∷ q) h k = absurd (omega arith)
duo_pass-more (suc n) zero q h k = absurd (omega arith)
duo_pass-more (suc n) (suc m) q h k = elim (Option-cases (pop_back q)) [
  | inl p ↦ rw (p, duo_pass) refl
  | inr ((big, front), p) ↦ elim (Bool-cases (leb min_part_size big.size)) [
    | inl e ↦
        let left = (fill_duo big (min_missing big) [] front).1 in
        let next =
          duo_pass-more n m left
            (omega (
              arith,
              length-pop_back q big front p,
              length-fill_duo big (min_missing big) [] front,
            ))
            (omega arith) in
        rw (p, duo_pass, e)
          (ap (λ t. ((fill_duo big (min_missing big) [] front).0 ∷ t.0, t.1)) next)
    | inr e ↦ rw (p, duo_pass, e) refl
  ]
]

single_pass-more :
    (n m : ℕ) (q : List FileInfo) → length q ≤ n → n ≤ m → single_pass m q ≡ single_pass n q
unfolding single_pass
single_pass-more zero zero q h k = refl
single_pass-more zero (suc m) [] h k = refl
single_pass-more (suc n) zero q h k = absurd (omega arith)
single_pass-more zero (suc m) (f ∷ q) h k = absurd (omega arith)
single_pass-more (suc n) (suc m) [] h k = refl
single_pass-more (suc n) (suc m) (f ∷ q) h k =
    let step = pad target_part_size [] (f ∷ q) in
    ap (λ t. single step.1 ∷ t)
      (single_pass-more n m step.2
        (omega (arith, length-pad_lt target_part_size [] f q (omega arith))) (omega arith))

-- Passes 1 and 4 end by their own tests: with fuel for as many rounds as entries are queued, more
-- fuel changes nothing.
pub passes-stop :
    (m : ℕ) (q : List FileInfo)
    → length q ≤ m
    → (duo_pass m q ≡ duo_pass (length q) q) × (single_pass m q ≡ single_pass (length q) q)
passes-stop m q h =
    (duo_pass-more (length q) m q (omega arith) h, single_pass-more (length q) m q (omega arith) h)
