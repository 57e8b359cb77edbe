-- ===== src/Bytes/Sink.antt =====
-- `impl Write for &mut [u8]`: a write copies what fits, moves the slice forward and returns the
-- number of bytes copied. It never fails, so the `Result` of the serializers is left out.
use demo_s3_archiving.Prelude.{ℕ, zero, suc, ◌+◌, ◌-◌, ◌≤◌, ◌≡◌, refl, sym, ap, ◌∙◌, arith, min}
use demo_s3_archiving.Prelude.{List, [], ◌++◌, append_assoc, append-nil}
use demo_s3_archiving.Prelude.{length, take, length-append, take-append_lem, take_all}
use demo_s3_archiving.Bytes.{Byte}
use mathlib.Core.Path.{fun_ext}

-- The slice: the bytes written so far, and how many more it can take.
pub record Sink : Type 0 where
  pub out : List Byte
  pub room : ℕ

-- A serializer writes into the slice and returns the number of bytes written.
abbrev pub Dump : Type 0
Dump = Sink → ℕ × Sink

unfoldable pub write : List Byte → Dump
write bs s =
    (min (length bs) s.room, record { out = s.out ++ take s.room bs; room = s.room - length bs })

-- `written += a.dump(&mut buf)?; written += b.dump(&mut buf)?;`
infixr 20 ◌⨾◌
unfoldable pub ◌⨾◌ : Dump → Dump → Dump
◌⨾◌ a b s = let (n, s') = a s in let (m, s'') = b s' in (n + m, s'')

-- A branch that writes nothing.
unfoldable pub nothing : Dump
nothing s = (0, s)

take-nil : (n : ℕ) → take {A = Byte} n [] ≡ []
take-nil zero = refl
take-nil (suc n) = refl

write-nil_at : (s : Sink) → nothing s ≡ write [] s
unfolding nothing write
write-nil_at s =
    let count : 0 ≡ min 0 s.room = omega arith in
    let left : s.room ≡ s.room - 0 = omega arith in
    let bytes : s.out ++ take s.room [] ≡ s.out =
      ap (λ t. s.out ++ t) (take-nil s.room) ∙ append-nil s.out in
    λ i. (count i, record { out = sym bytes i; room = left i })

pub write-nil : nothing ≡ write []
write-nil = fun_ext write-nil_at

write-seq_at : (a b : List Byte) (s : Sink) → (write a ⨾ write b) s ≡ write (a ++ b) s
unfolding write ◌⨾◌
write-seq_at a b s =
    let count : min (length a) s.room + min (length b) (s.room - length a)
        ≡ min (length (a ++ b)) s.room =
      omega (arith, length-append a b) in
    let left : s.room - length a - length b ≡ s.room - length (a ++ b) =
      omega (arith, length-append a b) in
    let bytes : (s.out ++ take s.room a) ++ take (s.room - length a) b
        ≡ s.out ++ take s.room (a ++ b) =
      append_assoc s.out (take s.room a) (take (s.room - length a) b)
      ∙ ap (λ t. s.out ++ t) (sym (take-append_lem s.room a b)) in
    λ i. (count i, record { out = bytes i; room = left i })

-- Two writes in a row are one write of both.
pub write-seq : (a b : List Byte) → (write a ⨾ write b) ≡ write (a ++ b)
write-seq a b = fun_ext (write-seq_at a b)

-- Into a slice with room for them, all bytes are written.
pub write_fits :
    (bs : List Byte) (s : Sink)
    → length bs ≤ s.room
    → write bs s ≡ (length bs, record { out = s.out ++ bs; room = s.room - length bs })
unfolding write
write_fits bs s h =
    let count : min (length bs) s.room ≡ length bs = omega arith in
    λ i. (count i, record { out = s.out ++ take_all s.room bs h i; room = s.room - length bs })

-- The outcome `r` of a serializer started at `s`: it wrote `n` bytes, of which `Q` holds.
abbrev pub Wrote : Sink → ℕ → ℕ × Sink → (List Byte → Type 0) → Type 0
Wrote s n r Q =
    (r.0 ≡ n)
    × (r.1.room ≡ s.room - n)
    × ((bs : List Byte) × (r.1.out ≡ s.out ++ bs) × (length bs ≡ n) × Q bs)

pub Wrote-intro :
    (d : Dump) (bs : List Byte) {n : ℕ} (Q : List Byte → Type 0) (s : Sink)
    → d ≡ write bs
    → length bs ≡ n
    → n ≤ s.room
    → Q bs
    → Wrote s n (d s) Q
Wrote-intro d bs {n} Q s same long fits q =
    let run : d s ≡ (length bs, record { out = s.out ++ bs; room = s.room - length bs }) =
      ap (λ f. f s) same ∙ write_fits bs s (omega arith) in
    (
      ap (λ p. p.0) run ∙ long,
      ap (λ p. p.1.room) run ∙ ap (λ m. s.room - m) long,
      (bs, ap (λ p. p.1.out) run, long, q),
    )
