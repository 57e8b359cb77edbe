-- ===== src/JrodonV3/ZipFormat/Field.antt =====
-- contenders/rust/jrodon-v3/src/zip_format.rs: integers, signatures and checksums, and how they are
-- serialized. `usize` and `u64` are 64 bits wide; sums of sizes are exact numbers here, and the casts
-- `as u16` and `as u32` wrap.
use demo_s3_archiving.Prelude.{ℕ, ◌%◌, ◌^◌, Bool, List, [], ◌∷◌, Option, if◌then◌else◌}
use demo_s3_archiving.Prelude.{◌+◌, ◌*◌, ◌++◌, some, ◌≡◌, refl}
use demo_s3_archiving.Bytes.{Byte, Text, le_bytes, be_bytes, read_le}
use demo_s3_archiving.Bytes.Sink.{Dump, write, ◌⨾◌}
use mathlib.Core.Option

abbrev pub u16_max : ℕ
u16_max = 65535

abbrev pub u32_max : ℕ
u32_max = 4294967295

abbrev pub as_u16 : ℕ → ℕ
as_u16 v = v % 2 ^ 16

abbrev pub as_u32 : ℕ → ℕ
as_u32 v = v % 2 ^ 32

unfoldable pub dump_u16 : ℕ → Dump
dump_u16 v = write (le_bytes 2 v)

unfoldable pub dump_u32 : ℕ → Dump
dump_u32 v = write (le_bytes 4 v)

unfoldable pub dump_u64 : ℕ → Dump
dump_u64 v = write (le_bytes 8 v)

-- A ZIP signature, written with its highest byte first.
unfoldable pub dump_magic : ℕ → Dump
dump_magic v = write (be_bytes 4 v)

-- `CRC32([u8; 4])`: the checksum's bytes in the order of the ZIP record.
pub record Crc32 : Type 0 where
  pub b0 : Byte
  pub b1 : Byte
  pub b2 : Byte
  pub b3 : Byte

reverse_crc : Crc32 → Crc32
reverse_crc c = record { b0 = c.b3; b1 = c.b2; b2 = c.b1; b3 = c.b0 }

-- `CRC32::from_str`. `decode_slice` is the base64 crate's, into a zeroed buffer of four bytes.
unfoldable pub from_str : (Text → Option Crc32) → Text → Option Crc32
unfolding reverse_crc
from_str decode_slice s = Option.map reverse_crc (decode_slice s)

abbrev pub crc_bytes : Crc32 → List Byte
crc_bytes c = c.b0 ∷ c.b1 ∷ c.b2 ∷ c.b3 ∷ []

unfoldable pub dump_crc : Crc32 → Dump
dump_crc c = write (crc_bytes c)

-- The size fields, twice: the sentinel where the ZIP64 extra field carries the value.
unfoldable pub dump_size_twice : Bool → ℕ → Dump
dump_size_twice extended size =
    let field = if extended then dump_u32 u32_max else dump_u32 (as_u32 size) in field ⨾ field

-- The checksum as the number that its four bytes stand for, lowest first.
abbrev pub crc_value : Crc32 → ℕ
crc_value c = c.b0 + 256 * (c.b1 + 256 * (c.b2 + 256 * (c.b3 + 256 * 0)))

pub read_crc :
    (c : Crc32) (rest : List Byte) → read_le 4 (crc_bytes c ++ rest) ≡ some (crc_value c, rest)
unfolding read_le
read_crc c rest = refl
