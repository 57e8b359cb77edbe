-- ===== src/Prelude/Bags.antt =====
-- Two lists that every measure sums alike are permutations of one another.
use Prim.Native.Nat.{ℕ, ◌<◌}
use mathlib.Core.Path.{◌≡◌, refl, sym, ap}
use mathlib.Core.Logic.{ite, if_pos, if_neg}
use mathlib.Core.List.{List, [], ◌∷◌, ◌++◌, Perm, perm_middle}
use mathlib.Core.List.Perm
use mathlib.Core.List.{Permᴰ}
use native.Mathlib.Omega.{arith}
use demo_s3_archiving.Prelude.Sums.{sum_by, sum_by-append}

module _ {A : Type 0} where
  abbrev pub SameSums : List A → List A → Type 0
  SameSums xs ys = (f : A → ℕ) → sum_by f xs ≡ sum_by f ys

  module _ (dec : Discrete A) where
    indicator : A → A → ℕ
    indicator a x = ite (dec a x) 1 0

    indicator_self : (a : A) → indicator a a ≡ 1
    unfolding indicator
    indicator_self a = if_pos (dec a a) refl 1 0

    indicator_ne : (a x : A) → ¬ (a ≡ x) → indicator a x ≡ 0
    unfolding indicator
    indicator_ne a x n = if_neg (dec a x) n 1 0

    -- A value that is counted stands somewhere.
    split_at :
        (a : A) (ys : List A)
        → 0 < sum_by (indicator a) ys
        → (front : List A) × (back : List A) × (ys ≡ front ++ a ∷ back)
    split_at a [] h = elim h [ ]
    split_at a (y ∷ ys) h = elim (dec a y) [
      | yes e ↦ ([], ys, ap (λ b. b ∷ ys) (sym e))
      | no n ↦
          let (front, back, e) = split_at a ys (omega (arith, indicator_ne a y n)) in
          (y ∷ front, back, ap (λ t. y ∷ t) e)
    ]

    -- The first element of one list stands in the other, and the rest has the same sums.
    pub SameSums-split :
        (x : A) (xs ys : List A)
        → SameSums (x ∷ xs) ys
        → (front : List A) × (back : List A) × (ys ≡ front ++ x ∷ back)
          × SameSums xs (front ++ back)
    SameSums-split x xs ys same =
        let (front, back, e) =
          split_at x ys (omega (arith, same (indicator x), indicator_self x)) in
        (
          front,
          back,
          e,
          λ f. omega (
            arith,
            same f,
            ap (sum_by f) e,
            sum_by-append f front (x ∷ back),
            sum_by-append f front back,
          ),
        )

    pub SameSums-perm : (xs ys : List A) → SameSums xs ys → Perm xs ys
    SameSums-perm [] [] same = Perm.rfl
    SameSums-perm [] (y ∷ ys) same = absurd (omega (arith, same (λ _. 1)))
    SameSums-perm (x ∷ xs) ys same =
        let (front, back, e, rest) = SameSums-split x xs ys same in
        rw e (
          Perm.trans (Perm.cons x (SameSums-perm xs (front ++ back) rest))
            (Perm.symm (perm_middle front back)))

module _ {A : Type 0} (f : A → ℕ) where
  pub sum_by-perm_d : {xs ys : List A} → Permᴰ xs ys → sum_by f xs ≡ sum_by f ys
  sum_by-perm_d Permᴰ.nil = refl
  sum_by-perm_d (Permᴰ.cons e p) = omega (arith, ap f e, sum_by-perm_d p)
  sum_by-perm_d (Permᴰ.swap e e') = omega (arith, ap f e, ap f e')
  sum_by-perm_d (Permᴰ.trans p q) = omega (arith, sum_by-perm_d p, sum_by-perm_d q)

  -- A permutation keeps sums.
  pub sum_by-perm : {xs ys : List A} → Perm xs ys → sum_by f xs ≡ sum_by f ys
  sum_by-perm {xs} {ys} p =
      let prop : IsProp (sum_by f xs ≡ sum_by f ys) = hlevel in
      ∥∥₁_rec prop (λ d. sum_by-perm_d d) p
