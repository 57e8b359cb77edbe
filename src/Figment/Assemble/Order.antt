-- ===== src/Figment/Assemble/Order.antt =====
-- Numbered pieces that arrive in any order are put in order by their numbers.
use demo_s3_archiving.Prelude.{
  ℕ, suc, ◌+◌, ◌≤◌, ◌<◌, ◌≡◌, ◌≢◌, ◌⊎◌, refl, sym, ap, ap₂, ◌∙◌, arith, inl, inr,
}
use demo_s3_archiving.Prelude.{true, false, Bool-cases, leb, leb→le, leb→lt, ◌==◌, if◌then◌else◌}
use demo_s3_archiving.Prelude.{List, [], ◌∷◌, map, Perm, sum_by}
use demo_s3_archiving.Bytes.{Byte}
use demo_s3_archiving.Prelude.Bags.{sum_by-perm_d, sum_by-perm}
use mathlib.Core.List.{Permᴰ}

abbrev pub Piece : Type 0
Piece = ℕ × List Byte

le_or_lt : (a b : ℕ) → (a ≤ b) ⊎ (b < a)
le_or_lt a b = elim (Bool-cases (leb a b)) [
  | inl e ↦ inl (leb→le a b e)
  | inr e ↦ inr (leb→lt a b e)
]

-- The stable sort by the numbers.
unfoldable pub insert : Piece → List Piece → List Piece
insert p [] = p ∷ []
insert p (q ∷ ps) = if leb p.0 q.0 then p ∷ q ∷ ps else q ∷ insert p ps

unfoldable pub sort : List Piece → List Piece
sort [] = []
sort (p ∷ ps) = insert p (sort ps)

-- How often a number stands.
abbrev pub count : ℕ → List Piece → ℕ
count n ps = sum_by (λ p. if p.0 == n then 1 else 0) ps

abbrev pub IsDistinct : List Piece → Type 0
IsDistinct ps = (n : ℕ) → count n ps ≤ 1

front : (p q : Piece) (ps : List Piece) → p.0 ≤ q.0 → insert p (q ∷ ps) ≡ p ∷ q ∷ ps
unfolding insert
front p q ps h = let e : leb p.0 q.0 ≡ true = ground (arith, h) in rw e refl

behind : (p q : Piece) (ps : List Piece) → q.0 < p.0 → insert p (q ∷ ps) ≡ q ∷ insert p ps
unfolding insert
behind p q ps h = let e : leb p.0 q.0 ≡ false = ground (arith, h) in rw e refl

insert_lt :
    (p q : Piece) (ps : List Piece) → p.0 < q.0 → insert p (insert q ps) ≡ insert q (insert p ps)
unfolding insert
insert_lt p q [] h = front p q [] (omega (arith, h)) ∙ sym (behind q p [] h)
insert_lt p q (r ∷ ps) h = elim (le_or_lt q.0 r.0) [
  | inl a ↦
      let pr : p.0 ≤ r.0 = omega (arith, a, h) in
      ap (insert p) (front q r ps a)
      ∙ front p q (r ∷ ps) (omega (arith, h))
      ∙ sym (
          ap (insert q) (front p r ps pr)
          ∙ behind q p (r ∷ ps) h
          ∙ ap (λ t. p ∷ t) (front q r ps a))
  | inr a ↦ elim (le_or_lt p.0 r.0) [
    | inl b ↦
        ap (insert p) (behind q r ps a)
        ∙ front p r (insert q ps) b
        ∙ sym (
            ap (insert q) (front p r ps b)
            ∙ behind q p (r ∷ ps) h
            ∙ ap (λ t. p ∷ t) (behind q r ps a))
    | inr b ↦
        ap (insert p) (behind q r ps a)
        ∙ behind p r (insert q ps) b
        ∙ ap (λ t. r ∷ t) (insert_lt p q ps h)
        ∙ sym (ap (insert q) (behind p r ps b) ∙ behind q r (insert p ps) a)
  ]
]

insert-insert :
    (p q : Piece) (ps : List Piece) → p.0 ≢ q.0 → insert p (insert q ps) ≡ insert q (insert p ps)
insert-insert p q ps apart = elim (le_or_lt p.0 q.0) [
  | inl a ↦ insert_lt p q ps (omega (arith, a, apart))
  | inr a ↦ sym (insert_lt q p ps a)
]

twice : (a b : Piece) (l : List Piece) → IsDistinct (a ∷ b ∷ l) → a.0 ≢ b.0
twice a b l h e =
    let own : (a.0 == a.0) ≡ true = ground arith in
    let other : (b.0 == a.0) ≡ true = ground (arith, e) in
    let bound : 1 + (1 + count a.0 l) ≤ 1 = rw (own, other) at (h a.0) in omega (arith, bound)

sort-perm_d : {xs ys : List Piece} → Permᴰ xs ys → IsDistinct xs → sort xs ≡ sort ys
unfolding sort
sort-perm_d Permᴰ.nil h = refl
sort-perm_d (Permᴰ.cons e p) h = ap₂ insert e (sort-perm_d p (λ n. omega (arith, h n)))
sort-perm_d (Permᴰ.swap {a = a} {b = b} {l = l} e e') h =
    insert-insert a b (sort l) (twice a b l h) ∙ ap₂ (λ t u. insert t (insert u (sort l))) e' e
sort-perm_d (Permᴰ.trans p q) h =
    sort-perm_d p h
    ∙ sort-perm_d q
        (λ n. omega (arith, h n, sum_by-perm_d (λ (r : Piece). if r.0 == n then 1 else 0) p))

map-perm_d : {A B : Type 0} (f : A → B) {xs ys : List A} → Permᴰ xs ys → Permᴰ (map f xs) (map f ys)
map-perm_d f Permᴰ.nil = Permᴰ.nil
map-perm_d f (Permᴰ.cons e p) = Permᴰ.cons (ap f e) (map-perm_d f p)
map-perm_d f (Permᴰ.swap e e') = Permᴰ.swap (ap f e) (ap f e')
map-perm_d f (Permᴰ.trans p q) = Permᴰ.trans (map-perm_d f p) (map-perm_d f q)

-- Pieces with numbers of their own are put in the same order, however they arrive.
pub sort-map_perm :
    {A : Type 0} (f : A → Piece) {xs ys : List A}
    → Perm xs ys
    → IsDistinct (map f xs)
    → sort (map f xs) ≡ sort (map f ys)
sort-map_perm f {xs} {ys} p h =
    let prop : IsProp (sort (map f xs) ≡ sort (map f ys)) = hlevel in
    ∥∥₁_rec prop (λ d. sort-perm_d (map-perm_d f d) h) p

-- The pieces are numbered upwards from `n` without a gap.
abbrev pub IsNumbered : ℕ → List Piece → Type 0
IsNumbered n [] = Unit
IsNumbered n (p ∷ ps) = (p.0 ≡ n) × IsNumbered (suc n) ps

pub sort-IsNumbered : (ps : List Piece) (n : ℕ) → IsNumbered n ps → sort ps ≡ ps
unfolding sort insert
sort-IsNumbered [] n h = refl
sort-IsNumbered (p ∷ []) n h = refl
sort-IsNumbered (p ∷ q ∷ ps) n (e, h) =
    ap (insert p) (sort-IsNumbered (q ∷ ps) (suc n) h) ∙ front p q ps (omega (arith, e, h.0))

numbered-count : (ps : List Piece) (n m : ℕ) → IsNumbered n ps → m < n → count m ps ≡ 0
numbered-count [] n m h lt = refl
numbered-count (p ∷ ps) n m (e, h) lt =
    let other : (p.0 == m) ≡ false = ground (arith, e, lt) in
    rw other (omega (arith, numbered-count ps (suc n) m h (omega (arith, lt))))

pub IsNumbered-IsDistinct : (ps : List Piece) (n : ℕ) → IsNumbered n ps → IsDistinct ps
IsNumbered-IsDistinct [] n h m = omega arith
IsNumbered-IsDistinct (p ∷ ps) n (e, h) m = elim (Bool-cases (p.0 == m)) [
  | inl t ↦
      let same : p.0 ≡ m = ground (arith, t) in
      rw t (omega (arith, numbered-count ps (suc n) m h (omega (arith, e, same))))
  | inr t ↦ rw t (omega (arith, IsNumbered-IsDistinct ps (suc n) h m))
]

-- A permutation keeps numbers apart.
pub IsDistinct-perm :
    {A : Type 0} (f : A → Piece) {xs ys : List A}
    → Perm xs ys
    → IsDistinct (map f ys)
    → IsDistinct (map f xs)
IsDistinct-perm f {xs} {ys} p h n =
    let m : Piece → ℕ = λ r. if r.0 == n then 1 else 0 in
    omega (arith, h n, sum_by-perm (λ a. m (f a)) p, sum_by-map m f xs, sum_by-map m f ys)
  where
    sum_by-map :
        {A : Type 0} (m : Piece → ℕ) (f : A → Piece) (xs : List A)
        → sum_by m (map f xs) ≡ sum_by (λ a. m (f a)) xs
    sum_by-map m f [] = refl
    sum_by-map m f (x ∷ xs) = ap (λ t. m (f x) + t) (sum_by-map m f xs)
