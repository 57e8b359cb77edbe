-- ===== src/Figment/Crc.antt =====
-- contenders/rust/figment-engine/src/engine/crc.rs: the checksums of S3, which come as base64 text of
-- four bytes, highest first. White space is that of ASCII.
pub mod RoundTrip
use demo_s3_archiving.Prelude.{ℕ, ◌+◌, ◌-◌, ◌*◌, ◌/◌, ◌%◌, ◌^◌, Bool, true, false, ◌||◌, ◌&&◌}
use demo_s3_archiving.Prelude.{Option, none, some, List, [], ◌∷◌, ◌++◌}
use demo_s3_archiving.Prelude.{ltb, leb, ◌==◌, length, if◌then◌else◌}
use demo_s3_archiving.Bytes.{Byte, Text}
use mathlib.Core.List.{reverse}

-- `val`
unfoldable pub val : Byte → Option ℕ
val c =
    if leb b'A' c && leb c b'Z'
    then some (c - b'A')
    else if leb b'a' c && leb c b'z'
    then some (c - b'a' + 26)
    else if leb b'0' c && leb c b'9'
    then some (c - b'0' + 52)
    else if c == b'+'
    then some 62
    else if c == b'/'
    then some 63
    else none

-- `if c == b'=' { (0, true) } else { (val(c)?, false) }`
unfoldable pub val_or_pad : Byte → Option (ℕ × Bool)
unfolding val
val_or_pad c =
    if c == b'=' then some (0, true) else elim (val c) [ none ↦ none | some v ↦ some (v, false) ]

-- The bytes of a chunk. The operands of `|` have no bit in common.
unfoldable pub chunk_bytes : ℕ → ℕ → ℕ × Bool → ℕ × Bool → List Byte
chunk_bytes c0 c1 (c2, pad2) (c3, pad3) =
    let n = c0 * 2 ^ 18 + c1 * 2 ^ 12 + c2 * 2 ^ 6 + c3 in
    n / 2 ^ 16 % 256
    ∷ ((if pad2 then [] else n / 2 ^ 8 % 256 ∷ []) ++ (if pad3 then [] else n % 256 ∷ []))

unfoldable pub decode_chunk : Byte → Byte → Byte → Byte → Option (List Byte)
unfolding val val_or_pad chunk_bytes
decode_chunk a b c d = elim (val a) [
  | none ↦ none
  | some c0 ↦ elim (val b) [
    | none ↦ none
    | some c1 ↦ elim (val_or_pad c) [
      | none ↦ none
      | some p2 ↦ elim (val_or_pad d) [ none ↦ none | some p3 ↦ some (chunk_bytes c0 c1 p2 p3) ]
    ]
  ]
]

-- The loop over `bytes.chunks(4)`; the length is a multiple of 4.
unfoldable pub decode_chunks : List Byte → Option (List Byte)
unfolding decode_chunk
decode_chunks (a ∷ b ∷ c ∷ d ∷ rest) = elim (decode_chunk a b c d) [
  | none ↦ none
  | some front ↦ elim (decode_chunks rest) [ none ↦ none | some out ↦ some (front ++ out) ]
]
decode_chunks [] = some []
decode_chunks (a ∷ []) = none
decode_chunks (a ∷ b ∷ []) = none
decode_chunks (a ∷ b ∷ c ∷ []) = none

unfoldable pub is_space : Byte → Bool
is_space c = leb 9 c && leb c 13 || (c == 32)

unfoldable pub trim_start : Text → Text
trim_start [] = []
trim_start (c ∷ s) = if is_space c then trim_start s else c ∷ s

-- `str::trim`
unfoldable pub trim : Text → Text
unfolding trim_start
trim s = reverse (trim_start (reverse (trim_start s)))

unfoldable pub base64_decode : Text → Option (List Byte)
unfolding trim decode_chunks
base64_decode s = let bytes = trim s in if length bytes % 4 == 0 then decode_chunks bytes else none

-- `u32::from_be_bytes`, of four bytes.
unfoldable pub four_bytes : List Byte → Option ℕ
four_bytes (a ∷ b ∷ c ∷ d ∷ []) = some (((a * 256 + b) * 256 + c) * 256 + d)
four_bytes bytes = none

unfoldable pub decode_s3_crc32 : Text → Option ℕ
unfolding base64_decode four_bytes
decode_s3_crc32 b64 = elim (base64_decode b64) [ none ↦ none | some bytes ↦ four_bytes bytes ]
