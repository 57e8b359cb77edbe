-- ===== src/Figment/Crc/RoundTrip.antt =====
-- Checksums in base64 read back.
use demo_s3_archiving.Prelude.{ℕ, ◌+◌, ◌-◌, ◌*◌, ◌/◌, ◌%◌, ◌^◌, ◌<◌, ◌≡◌, refl, ap, ◌∙◌, arith}
use demo_s3_archiving.Prelude.{Bool, true, false, ltb, ◌==◌, if◌then◌else◌}
use demo_s3_archiving.Prelude.{Option, none, some, List, [], ◌∷◌, ◌++◌, length, All, All-reverse}
use demo_s3_archiving.Bytes.{Byte, Text, IsByte, be_bytes}
use demo_s3_archiving.Figment.Crc.{
  val, val_or_pad, chunk_bytes, decode_chunk, decode_chunks, is_space, trim_start, trim,
  base64_decode, four_bytes, decode_s3_crc32,
}
use mathlib.Core.List.{reverse, reverse-reverse}

-- The alphabet of base64.
abbrev pub char : ℕ → Byte
char d =
    if ltb d 26
    then d + b'A'
    else if ltb d 52
    then d - 26 + b'a'
    else if ltb d 62
    then d - 52 + b'0'
    else if d == 62
    then b'+'
    else b'/'

-- The standard encoding, three bytes at a time, with padding at the end.
abbrev pub encode : List Byte → Text
encode [] = []
encode (a ∷ []) = char (a / 4) ∷ char (a % 4 * 16) ∷ b'=' ∷ b'=' ∷ []
encode (a ∷ b ∷ []) = char (a / 4) ∷ char (a % 4 * 16 + b / 16) ∷ char (b % 16 * 4) ∷ b'=' ∷ []
encode (a ∷ b ∷ c ∷ rest) =
    char (a / 4)
    ∷ char (a % 4 * 16 + b / 16)
    ∷ char (b % 16 * 4 + c / 64)
    ∷ char (c % 64)
    ∷ encode rest

val-char : (d : ℕ) → d < 64 → val (char d) ≡ some d
unfolding val
val-char d h = ground arith

is_pad-char : (d : ℕ) → d < 64 → (char d == b'=') ≡ false
is_pad-char d h = ground arith

is_space-char : (d : ℕ) → d < 64 → is_space (char d) ≡ false
unfolding is_space
is_space-char d h = ground arith

val_or_pad-char : (d : ℕ) → d < 64 → val_or_pad (char d) ≡ some (d, false)
unfolding val_or_pad
val_or_pad-char d h = rw (is_pad-char d h, val-char d h) refl

decode_chunk-char :
    (x y : ℕ) (c d : Byte) (p q : ℕ × Bool)
    → x < 64
    → y < 64
    → val_or_pad c ≡ some p
    → val_or_pad d ≡ some q
    → decode_chunk (char x) (char y) c d ≡ some (chunk_bytes x y p q)
unfolding decode_chunk
decode_chunk-char x y c d p q hx hy hc hd =
    rw (decode_chunk, val-char x hx, val-char y hy, hc, hd) refl

-- The bytes of the three kinds of chunks.
three :
    (a b c : ℕ)
    → a < 256
    → b < 256
    → c < 256
    → chunk_bytes (a / 4) (a % 4 * 16 + b / 16) (b % 16 * 4 + c / 64, false) (c % 64, false)
      ≡ a ∷ b ∷ c ∷ []
unfolding chunk_bytes
three a b c ha hb hc =
    let n =
      a / 4 * 2 ^ 18 + (a % 4 * 16 + b / 16) * 2 ^ 12 + (b % 16 * 4 + c / 64) * 2 ^ 6 + c % 64 in
    let x : n / 2 ^ 16 % 256 ≡ a = omega (arith, ha, hb, hc) in
    let y : n / 2 ^ 8 % 256 ≡ b = omega (arith, ha, hb, hc) in
    let z : n % 256 ≡ c = omega (arith, ha, hb, hc) in λ i. x i ∷ y i ∷ z i ∷ []

two :
    (a b : ℕ)
    → a < 256
    → b < 256
    → chunk_bytes (a / 4) (a % 4 * 16 + b / 16) (b % 16 * 4, false) (0, true) ≡ a ∷ b ∷ []
unfolding chunk_bytes
two a b ha hb =
    let n = a / 4 * 2 ^ 18 + (a % 4 * 16 + b / 16) * 2 ^ 12 + b % 16 * 4 * 2 ^ 6 + 0 in
    let x : n / 2 ^ 16 % 256 ≡ a = omega (arith, ha, hb) in
    let y : n / 2 ^ 8 % 256 ≡ b = omega (arith, ha, hb) in λ i. x i ∷ y i ∷ []

one : (a : ℕ) → a < 256 → chunk_bytes (a / 4) (a % 4 * 16) (0, true) (0, true) ≡ a ∷ []
unfolding chunk_bytes
one a ha =
    let n = a / 4 * 2 ^ 18 + a % 4 * 16 * 2 ^ 12 + 0 * 2 ^ 6 + 0 in
    let x : n / 2 ^ 16 % 256 ≡ a = omega (arith, ha) in λ i. x i ∷ []

pad : val_or_pad b'=' ≡ some (0, true)
unfolding val_or_pad
pad = refl

decode_step :
    (a b c d : Byte) (rest front out : List Byte)
    → decode_chunk a b c d ≡ some front
    → decode_chunks rest ≡ some out
    → decode_chunks (a ∷ b ∷ c ∷ d ∷ rest) ≡ some (front ++ out)
unfolding decode_chunks
decode_step a b c d rest front out e h =
    rw (decode_chunks, e)
      (ap (λ (o : Option (List Byte)). elim o [ none ↦ none | some t ↦ some (front ++ t) ]) h)

decode_chunks-encode : (bs : List Byte) → All IsByte bs → decode_chunks (encode bs) ≡ some bs
unfolding decode_chunks
decode_chunks-encode [] h = refl
decode_chunks-encode (a ∷ []) (ha, h) =
    rw
      (
        decode_chunks,
        decode_chunk-char (a / 4) (a % 4 * 16) b'=' b'=' (0, true) (0, true) (omega (arith, ha))
            (omega (arith, ha)) pad pad,
        one a ha,
      )
      refl
decode_chunks-encode (a ∷ b ∷ []) (ha, (hb, h)) =
    rw
      (
        decode_chunks,
        decode_chunk-char (a / 4) (a % 4 * 16 + b / 16) (char (b % 16 * 4)) b'=' (b % 16 * 4, false)
            (0, true) (omega (arith, ha)) (omega (arith, ha, hb))
            (val_or_pad-char (b % 16 * 4) (omega (arith, hb))) pad,
        two a b ha hb,
      )
      refl
decode_chunks-encode (a ∷ b ∷ c ∷ rest) (ha, (hb, (hc, h))) =
    decode_step (char (a / 4)) (char (a % 4 * 16 + b / 16)) (char (b % 16 * 4 + c / 64))
      (char (c % 64)) (encode rest) (a ∷ b ∷ c ∷ []) rest
      (decode_chunk-char (a / 4) (a % 4 * 16 + b / 16) (char (b % 16 * 4 + c / 64)) (char (c % 64))
          (b % 16 * 4 + c / 64, false) (c % 64, false) (omega (arith, ha)) (omega (arith, ha, hb))
          (val_or_pad-char (b % 16 * 4 + c / 64) (omega (arith, hb, hc)))
          (val_or_pad-char (c % 64) (omega arith))
        ∙ ap some (three a b c ha hb hc))
      (decode_chunks-encode rest h)

abbrev IsSolid : Byte → Type 0
IsSolid c = is_space c ≡ false

encode-IsSolid : (bs : List Byte) → All IsByte bs → All IsSolid (encode bs)
unfolding is_space
encode-IsSolid [] h = tt
encode-IsSolid (a ∷ []) (ha, h) = (
  is_space-char (a / 4) (omega (arith, ha)),
  (is_space-char (a % 4 * 16) (omega (arith, ha)), (refl, (refl, tt))),
)
encode-IsSolid (a ∷ b ∷ []) (ha, (hb, h)) = (
  is_space-char (a / 4) (omega (arith, ha)),
  (
    is_space-char (a % 4 * 16 + b / 16) (omega (arith, ha, hb)),
    (is_space-char (b % 16 * 4) (omega (arith, hb)), (refl, tt)),
  ),
)
encode-IsSolid (a ∷ b ∷ c ∷ rest) (ha, (hb, (hc, h))) = (
  is_space-char (a / 4) (omega (arith, ha)),
  (
    is_space-char (a % 4 * 16 + b / 16) (omega (arith, ha, hb)),
    (
      is_space-char (b % 16 * 4 + c / 64) (omega (arith, hb, hc)),
      (is_space-char (c % 64) (omega arith), encode-IsSolid rest h),
    ),
  ),
)

length-encode : (bs : List Byte) → length (encode bs) % 4 ≡ 0
length-encode [] = refl
length-encode (a ∷ []) = refl
length-encode (a ∷ b ∷ []) = refl
length-encode (a ∷ b ∷ c ∷ rest) = omega (arith, length-encode rest)

trim_start-IsSolid : (s : Text) → All IsSolid s → trim_start s ≡ s
unfolding trim_start
trim_start-IsSolid [] h = refl
trim_start-IsSolid (c ∷ s) (p, h) = rw p refl

trim-IsSolid : (s : Text) → All IsSolid s → trim s ≡ s
unfolding trim
trim-IsSolid s h =
    ap (λ t. reverse (trim_start (reverse t))) (trim_start-IsSolid s h)
    ∙ ap reverse (trim_start-IsSolid (reverse s) (All-reverse IsSolid s h))
    ∙ reverse-reverse s

-- The encoding of bytes decodes to the bytes.
pub base64_decode-encode : (bs : List Byte) → All IsByte bs → base64_decode (encode bs) ≡ some bs
unfolding base64_decode
base64_decode-encode bs h =
    let whole : (length (encode bs) % 4 == 0) ≡ true = ground (arith, length-encode bs) in
    rw (trim-IsSolid (encode bs) (encode-IsSolid bs h), whole) (decode_chunks-encode bs h)

be_value : (v : ℕ) → v < 2 ^ 32 → four_bytes (be_bytes 4 v) ≡ some v
unfolding four_bytes be_bytes
be_value v h = ap some (omega (arith, h))

be-All : (v : ℕ) → All IsByte (be_bytes 4 v)
unfolding be_bytes
be-All v = (omega arith, (omega arith, (omega arith, (omega arith, tt))))

-- The base64 text of the four bytes of a checksum below 2^32, highest first, decodes to the checksum.
pub decode_s3_crc32-encode :
    (crc : ℕ) → crc < 2 ^ 32 → decode_s3_crc32 (encode (be_bytes 4 crc)) ≡ some crc
unfolding decode_s3_crc32
decode_s3_crc32-encode crc h =
    rw (decode_s3_crc32, base64_decode-encode (be_bytes 4 crc) (be-All crc)) (be_value crc h)
