-- ===== src/Bytes.antt =====
-- Byte strings as lists of numbers: the integer conversions of the Rust standard library
-- (`to_le_bytes`, `to_be_bytes`) and `std::io::Write` on a mutable slice.
pub mod Sink
use demo_s3_archiving.Prelude.{
  ℕ, zero, suc, ◌+◌, ◌-◌, ◌*◌, ◌/◌, ◌%◌, ◌^◌, ◌<◌, ◌≡◌, refl, sym, ap, ◌∙◌, arith,
}
use demo_s3_archiving.Prelude.{Bool, true, false, ◌&&◌, ◌||◌, ◌==◌}
use demo_s3_archiving.Prelude.{List, [], ◌∷◌, ◌++◌, Option, none, some, length, length-append}
use mathlib.Core.Option
use Prim.Native.Char.{code}
use Prim.Native.String.{String}
use Prim.Native.String
use native.Mathlib.Nat.{pow-suc, add-mul-mod_self_left, mod-eq_of_lt, mod-lt, div-add-mod}

abbrev pub Byte : Type 0
Byte = ℕ

abbrev pub Text : Type 0
Text = List Byte

abbrev pub IsByte : ℕ → Type 0
IsByte b = b < 256

-- The `k` bytes of a number, lowest first. On a number of more than `k` bytes it is the
-- conversion of the number cast to `k` bytes.
unfoldable pub le_bytes : ℕ → ℕ → List Byte
le_bytes zero v = []
le_bytes (suc k) v = v % 256 ∷ le_bytes k (v / 256)

-- The same, highest first.
unfoldable pub be_bytes : ℕ → ℕ → List Byte
be_bytes zero v = []
be_bytes (suc k) v = be_bytes k (v / 256) ++ v % 256 ∷ []

-- A reader of `k` bytes, lowest first, from the front of a byte string.
unfoldable pub read_le : ℕ → List Byte → Option (ℕ × List Byte)
read_le zero bs = some (0, bs)
read_le (suc k) [] = none
read_le (suc k) (b ∷ bs) = Option.map (λ p. (b + 256 * p.0, p.1)) (read_le k bs)

pub length-le_bytes : (k v : ℕ) → length (le_bytes k v) ≡ k
unfolding le_bytes
length-le_bytes zero v = refl
length-le_bytes (suc k) v = ap suc (length-le_bytes k (v / 256))

pub length-be_bytes : (k v : ℕ) → length (be_bytes k v) ≡ k
unfolding be_bytes
length-be_bytes zero v = refl
length-be_bytes (suc k) v =
    omega (arith, length-append (be_bytes k (v / 256)) (v % 256 ∷ []), length-be_bytes k (v / 256))

mod_digit : (v m : ℕ) → 0 < m → v % 256 + 256 * (v / 256 % m) ≡ v % (256 * m)
mod_digit v m h =
    let low = v % 256 + 256 * (v / 256 % m) in
    let small : low < 256 * m = omega (arith, mod-lt (v / 256) h) in
    let split : low + 256 * m * (v / 256 / m) ≡ v =
      omega (arith, ap (λ (t : ℕ). 256 * t) (div-add-mod (v / 256) m)) in
    sym (mod-eq_of_lt small)
    ∙ sym (add-mul-mod_self_left low (256 * m) (v / 256 / m))
    ∙ ap (λ t. t % (256 * m)) split

pow_pos : (k : ℕ) → 0 < 256 ^ k
pow_pos zero = omega arith
pow_pos (suc k) = omega (arith, pow-suc 256 k, pow_pos k)

-- What `le_bytes` wrote reads back modulo the width.
pub read_le-le_bytes :
    (k v : ℕ) (rest : List Byte) → read_le k (le_bytes k v ++ rest) ≡ some (v % 256 ^ k, rest)
unfolding read_le le_bytes
read_le-le_bytes zero v rest = let e : 0 ≡ v % 1 = omega arith in ap (λ n. some (n, rest)) e
read_le-le_bytes (suc k) v rest =
    let width : 256 * 256 ^ k ≡ 256 ^ suc k = omega (arith, pow-suc 256 k) in
    let whole = mod_digit v (256 ^ k) (pow_pos k) ∙ ap (λ t. v % t) width in
    rw (read_le-le_bytes k (v / 256) rest) (ap (λ n. some (n, rest)) whole)

-- The code points of a text: its bytes, if it is ASCII.
abbrev pub codes : String → Text
codes String.[] = []
codes (String.◌∷◌ c s) = code c ∷ codes s

-- `str::contains`
unfoldable pub starts_with : Text → Text → Bool
starts_with xs [] = true
starts_with [] (y ∷ ys) = false
starts_with (x ∷ xs) (y ∷ ys) = (x == y) && starts_with xs ys

unfoldable pub contains_text : Text → Text → Bool
unfolding starts_with
contains_text [] needle = starts_with [] needle
contains_text (x ∷ xs) needle = starts_with (x ∷ xs) needle || contains_text xs needle
