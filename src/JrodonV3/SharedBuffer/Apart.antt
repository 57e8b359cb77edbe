-- ===== src/JrodonV3/SharedBuffer/Apart.antt =====
-- The slices of a buffer never overlap.
use demo_s3_archiving.Prelude.{ℕ, ◌+◌, ◌≤◌, ◌≡◌, refl, sym, subst, arith, inl, inr}
use demo_s3_archiving.Prelude.{List, [], ◌∷◌, ◌++◌, some, length, ◌==◌, Bool-cases}
use demo_s3_archiving.JrodonV3.SharedBuffer.{
  BufSlice, SharedBuf, with_capacity, strong_count, slice, split, Step, sliced, was_split, dropped,
  Reachable, allocated, stepped,
}

-- Between `low` and `high` the slices stand one behind the other: each ends where the next one
-- starts, or before.
abbrev pub IsApart : ℕ → ℕ → List BufSlice → Type 0
IsApart low high [] = low ≤ high
IsApart low high (s ∷ ss) = (low ≤ s.start_at) × IsApart (s.start_at + s.slice_length) high ss

lower : (a b high : ℕ) (ss : List BufSlice) → a ≤ b → IsApart b high ss → IsApart a high ss
lower a b high [] le h = omega arith
lower a b high (s ∷ ss) le (h, hs) = (omega arith, hs)

split-IsApart :
    (low high : ℕ) (front : List BufSlice) (s : BufSlice) (back : List BufSlice) (at : ℕ)
    → at ≤ s.slice_length
    → IsApart low high (front ++ s ∷ back)
    → IsApart low high (front ++ (split s at).0 ∷ (split s at).1 ∷ back)
unfolding split
split-IsApart low high [] s back at le (h, hs) =
    (h, (omega arith, lower _ (s.start_at + s.slice_length) high back (omega arith) hs))
split-IsApart low high (f ∷ front) s back at le (h, hs) =
    (h, split-IsApart (f.start_at + f.slice_length) high front s back at le hs)

drop-IsApart :
    (low high : ℕ) (front : List BufSlice) (s : BufSlice) (back : List BufSlice)
    → IsApart low high (front ++ s ∷ back)
    → IsApart low high (front ++ back)
drop-IsApart low high [] s back (h, hs) =
    lower low (s.start_at + s.slice_length) high back (omega arith) hs
drop-IsApart low high (f ∷ front) s back (h, hs) =
    (h, drop-IsApart (f.start_at + f.slice_length) high front s back hs)

nil_of-length : (ss : List BufSlice) → length ss ≡ 0 → ss ≡ []
nil_of-length [] e = refl
nil_of-length (s ∷ ss) e = absurd (omega (arith, e))

-- A slice is handed out only where none is alive.
slice-IsApart :
    (b b' : SharedBuf) (s : BufSlice) → slice b ≡ some (s, b') → IsApart 0 b'.len b'.slices
unfolding slice strong_count
slice-IsApart b b' s e = elim (Bool-cases (1 + length b.slices == 1)) [
  | inl t ↦
      let whole : BufSlice = record { start_at = 0; slice_length = b.len } in
      let empty = nil_of-length b.slices (ground (arith, t)) in
      let k = rw t at e in
      let same : record b { slices = whole ∷ b.slices } ≡ b' = cc k in
      subst (λ (c : SharedBuf). IsApart 0 c.len c.slices) same
        (subst (λ ss. IsApart 0 b.len (whole ∷ ss)) (sym empty) ((omega arith, omega arith)))
  | inr t ↦ absurd (cc (rw t at e))
]

Step-IsApart :
    {b b' : SharedBuf} → Step b b' → IsApart 0 b.len b.slices → IsApart 0 b'.len b'.slices
Step-IsApart (sliced b b' s e) h = slice-IsApart b b' s e
Step-IsApart (was_split b front s back at e le) h =
    split-IsApart 0 b.len front s back at le (subst (IsApart 0 b.len) e h)
Step-IsApart (dropped b front s back e) h =
    drop-IsApart 0 b.len front s back (subst (IsApart 0 b.len) e h)

-- However a buffer is sliced, and its slices are split not behind their ends and dropped, the slices
-- that are alive lie inside the buffer and no two of them have a byte in common.
pub Reachable-IsApart : {b : SharedBuf} → Reachable b → IsApart 0 b.len b.slices
unfolding with_capacity
Reachable-IsApart (allocated len) = omega arith
Reachable-IsApart (stepped r s) = Step-IsApart s (Reachable-IsApart r)
