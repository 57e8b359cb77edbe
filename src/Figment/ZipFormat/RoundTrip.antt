-- ===== src/Figment/ZipFormat/RoundTrip.antt =====
-- The records of figment-engine read back, and their predicted lengths.
use demo_s3_archiving.Prelude.{ℕ, ◌+◌, ◌^◌, ◌%◌, ◌≤◌, ◌<◌, ◌≡◌, ap₂, arith}
use demo_s3_archiving.Prelude.{List, ◌++◌, some, inl, inr}
use demo_s3_archiving.Prelude.{ltb, leb, length, length-append, Bool-cases, ltb→le, if◌then◌else◌}
use demo_s3_archiving.Bytes.{Byte, length-le_bytes}
use demo_s3_archiving.ZipReader.{
  reading, resolve, EntryView, CentralView, EndView, read_local_header, read_central_header,
  read_end,
}
use demo_s3_archiving.Figment.ZipFormat.{
  u16_max, u32_max, as_u16, as_u32, p16, p32, p64, EntryMeta, local_header, local_header_len,
  central_dir_entry, central_dir_entry_len, end_records,
}

abbrev view : EntryMeta → ℕ → ℕ → EntryView
view e crc size = record { name = e.name; crc = crc; size = size }

abbrev central : EntryMeta → ℕ → ℕ → ℕ → CentralView
central e crc size offset = record { entry = view e crc size; offset = offset }

-- The header is as long as `local_header_len` says.
pub length-local_header : (e : EntryMeta) → length (local_header e) ≡ local_header_len e.name
unfolding local_header local_header_len p16 p32
length-local_header e = simp (length-append, length-le_bytes) (omega arith)

pub length-central_dir_entry :
    (e : EntryMeta)
    → length (central_dir_entry e) ≡ central_dir_entry_len e.name e.local_header_offset
unfolding central_dir_entry central_dir_entry_len p16 p32 p64
length-central_dir_entry e = elim (Bool-cases (ltb u32_max e.local_header_offset)) [
  | inl p ↦ rw p (simp (length-append, length-le_bytes) (omega arith))
  | inr p ↦ rw p (simp (length-append, length-le_bytes) (omega arith))
]

module _ (e : EntryMeta) (named : length e.name < 2 ^ 16) (sized : e.size ≤ u32_max)
    (summed : e.crc < 2 ^ 32) where
  name_len : as_u16 (length e.name) % 256 ^ 2 ≡ length e.name
  name_len = omega arith

  crc_lem : e.crc % 256 ^ 4 ≡ e.crc
  crc_lem = omega arith

  size_lem : as_u32 e.size % 256 ^ 4 ≡ e.size
  size_lem = omega arith

  -- A ZIP reader finds in `local_header` the name, the checksum and the size of the entry, and
  -- leaves what follows; and the header is as long as `local_header_len` says. The name is shorter
  -- than 2^16 bytes, the size fits 32 bits, as the planner's comment has it, and the checksum is a
  -- 32-bit number.
  pub read_local_header-local_header :
      (rest : List Byte)
      → (read_local_header (local_header e ++ rest) ≡ some (view e e.crc e.size, rest))
        × (length (local_header e) ≡ local_header_len e.name)
  unfolding read_local_header local_header p16 p32
  read_local_header-local_header rest = (
    simp (name_len, reading) (ap₂ (λ c n. some (view e c n, rest)) crc_lem size_lem),
    length-local_header e,
  )

  -- A ZIP reader finds in `central_dir_entry` the name, the checksum, the size and the offset of the
  -- entry, where the offset does not fit 32 bits too, and leaves what follows; and the record is as
  -- long as `central_dir_entry_len` says. The name is shorter than 2^16 bytes, the size fits 32
  -- bits, the checksum is a 32-bit and the offset a 64-bit number.
  pub read_central_header-central_dir_entry :
      (rest : List Byte)
      → e.local_header_offset < 2 ^ 64
      → (read_central_header (central_dir_entry e ++ rest)
          ≡ some (central e e.crc e.size e.local_header_offset, rest))
        × (length (central_dir_entry e) ≡ central_dir_entry_len e.name e.local_header_offset)
  unfolding read_central_header central_dir_entry p16 p32 p64
  read_central_header-central_dir_entry rest placed = (
    elim (Bool-cases (ltb u32_max e.local_header_offset)) [
      | inl p ↦
          let far : e.local_header_offset % 256 ^ 8 ≡ e.local_header_offset = omega arith in
          rw p (
            simp (name_len, reading) (λ i. some (central e (crc_lem i) (size_lem i) (far i), rest)))
      | inr p ↦
          let near : as_u32 e.local_header_offset % 256 ^ 4 ≡ e.local_header_offset =
            omega (arith, ltb→le _ _ p) in
          rw p (
            simp (name_len, reading)
              (λ i. some (central e (crc_lem i) (size_lem i) (near i), rest)))
    ],
    length-central_dir_entry e,
  )

abbrev end_view : ℕ → ℕ → ℕ → ℕ → EndView
end_view n o l z = record {
  entries = n;
  directory_size = l;
  directory_offset = o;
  zip64 = some (z, 1);
}

-- A field of the classic record is the value, or all ones where the value is in the ZIP64 record.
resolve_short :
    (n : ℕ)
    → n < 2 ^ 64
    → resolve 0xFFFF ((if leb u16_max n then u16_max else as_u16 n) % 256 ^ 2) (n % 256 ^ 8) ≡ n
unfolding resolve
resolve_short n h = elim (Bool-cases (leb u16_max n)) [
  | inl p ↦ ground (arith, p, h)
  | inr p ↦ ground (arith, p, h)
]

resolve_long :
    (n : ℕ)
    → n < 2 ^ 64
    → resolve 0xFFFFFFFF ((if leb u32_max n then u32_max else as_u32 n) % 256 ^ 4) (n % 256 ^ 8) ≡ n
unfolding resolve
resolve_long n h = elim (Bool-cases (leb u32_max n)) [
  | inl p ↦ ground (arith, p, h)
  | inr p ↦ ground (arith, p, h)
]

-- A ZIP reader finds in `end_records` the number of entries, the offset and the size of the
-- directory, and that the ZIP64 record stands right behind the directory, on one disk, and leaves
-- what follows; and the records have 98 bytes. The reader takes a value of the ZIP64 record only
-- where the field of the classic record is all ones. The number is a 64-bit number, and so is the end
-- of the directory.
pub read_end-end_records :
    (entry_count cd_offset cd_size : ℕ) (rest : List Byte)
    → entry_count < 2 ^ 64
    → cd_offset + cd_size < 2 ^ 64
    → (read_end (end_records entry_count cd_offset cd_size ++ rest)
        ≡ some (end_view entry_count cd_offset cd_size (cd_offset + cd_size), rest))
      × (length (end_records entry_count cd_offset cd_size) ≡ 98)
unfolding read_end end_records p16 p32 p64
read_end-end_records n o l rest counted placed =
    let n' = resolve_short n counted in
    let o' = resolve_long o (omega arith) in
    let l' = resolve_long l (omega arith) in
    let z' : (o + l) % 256 ^ 8 ≡ o + l = omega arith in
    (
      simp reading (λ i. some (end_view (n' i) (o' i) (l' i) (z' i), rest)),
      simp (length-append, length-le_bytes) (omega arith),
    )
