-- ===== src/JrodonV3/ZipFormat/Loc/RoundTrip.antt =====
-- A serialized local header: its length, and what a reader finds in it.
use demo_s3_archiving.Prelude.{◌^◌, ◌%◌, ◌≤◌, ◌<◌, ◌≡◌, refl, ap, arith}
use demo_s3_archiving.Prelude.{Bool, List, [], ◌++◌, some, inl, inr, append_assoc}
use demo_s3_archiving.Prelude.{ltb, length, length-append, if◌then◌else◌, Bool-cases, ltb→le}
use demo_s3_archiving.Bytes.{Byte, le_bytes, be_bytes, length-le_bytes, length-be_bytes}
use demo_s3_archiving.Bytes.{read_le}
use demo_s3_archiving.ZipReader.{reading, EntryView, read_local_header}
use demo_s3_archiving.Bytes.Sink.{Sink, write, write-seq, write-nil, Wrote, Wrote-intro}
use demo_s3_archiving.JrodonV3.ZipFormat.Field.{
  u32_max, as_u16, as_u32, Crc32, crc_bytes, crc_value, read_crc,
}
use demo_s3_archiving.JrodonV3.ZipFormat.Field.{dump_u16, dump_u32, dump_u64, dump_magic, dump_crc}
use demo_s3_archiving.JrodonV3.ZipFormat.Field.{dump_size_twice}
use demo_s3_archiving.JrodonV3.ZipFormat.Loc.{LocalFileHeader, dump, size, loc_magic}

-- The bytes of the header, field by field; `extended` says that the ZIP64 extra field is there.
pub loc_bytes : Bool → LocalFileHeader Crc32 → List Byte
loc_bytes extended h =
    be_bytes 4 loc_magic
    ++ (le_bytes 2 10
        ++ (le_bytes 2 0
            ++ (le_bytes 2 0
                ++ (le_bytes 2 0
                    ++ (le_bytes 2 0
                        ++ (crc_bytes h.crc32
                            ++ (le_bytes 4 (if extended then u32_max else as_u32 h.file_size)
                                ++ (le_bytes 4 (if extended then u32_max else as_u32 h.file_size)
                                    ++ (le_bytes 2 (as_u16 (length h.name))
                                        ++ (le_bytes 2 (if extended then 20 else 0)
                                            ++ (h.name
                                                ++ (if extended
                                                    then le_bytes 2 1
                                                      ++ (le_bytes 2 16
                                                          ++ (le_bytes 8 h.file_size
                                                            ++ le_bytes 8 h.file_size))
                                                    else []))))))))))))

-- The header's bytes as the program chooses them.
abbrev pub written : LocalFileHeader Crc32 → List Byte
written h = loc_bytes (ltb u32_max h.file_size) h

pub dump-eq-write : (h : LocalFileHeader Crc32) → dump h ≡ write (written h)
unfolding dump loc_bytes dump_u16 dump_u32 dump_u64 dump_magic dump_crc dump_size_twice
dump-eq-write h = elim (Bool-cases (ltb u32_max h.file_size)) [
  | inl e ↦ rw e (simp (write-seq, append_assoc))
  | inr e ↦ rw e (simp (write-seq, write-nil, append_assoc))
]

-- What a reader is to find.
abbrev pub entry_view : LocalFileHeader Crc32 → EntryView
entry_view h = record { name = h.name; crc = crc_value h.crc32; size = h.file_size }

read_signature :
    (rest : List Byte) → read_le 4 (be_bytes 4 loc_magic ++ rest) ≡ some (0x04034B50, rest)
unfolding read_le be_bytes
read_signature rest = refl

pub length-written : (h : LocalFileHeader Crc32) → length (written h) ≡ size h
unfolding loc_bytes size
length-written h = elim (Bool-cases (ltb u32_max h.file_size)) [
  | inl e ↦ rw e (simp (length-append, length-le_bytes, length-be_bytes) (omega arith))
  | inr e ↦ rw e (simp (length-append, length-le_bytes, length-be_bytes) (omega arith))
]

module _ (h : LocalFileHeader Crc32) (named : length h.name < 2 ^ 16)
    (sized : h.file_size < 2 ^ 64) where
  name_len : as_u16 (length h.name) % 256 ^ 2 ≡ length h.name
  name_len = omega arith

  pub read-written :
      (rest : List Byte) → read_local_header (written h ++ rest) ≡ some (entry_view h, rest)
  unfolding read_local_header loc_bytes
  read-written rest = elim (Bool-cases (ltb u32_max h.file_size)) [
    | inl e ↦
        let whole : h.file_size % 2 ^ 64 ≡ h.file_size = omega arith in
        rw e (
          simp (read_signature, read_crc, name_len, reading)
            (ap (λ v. some (record { name = h.name; crc = crc_value h.crc32; size = v }, rest))
              whole))
    | inr e ↦
        let whole : as_u32 h.file_size % 2 ^ 32 ≡ h.file_size = omega (arith, ltb→le _ _ e) in
        rw e (
          simp (read_signature, read_crc, name_len, reading)
            (ap (λ v. some (record { name = h.name; crc = crc_value h.crc32; size = v }, rest))
              whole))
  ]

  -- Into a slice with room for `size` bytes, `dump` writes exactly that many and returns their
  -- number, and a ZIP reader finds in them the name, the checksum and the size of the entry, and
  -- leaves what follows. The name is shorter than 2^16 bytes, and the size a 64-bit number.
  pub read_local_header-dump :
      (s : Sink) (rest : List Byte)
      → size h ≤ s.room
      → Wrote s
          (size h)
          (dump h s)
          (λ bs. read_local_header (bs ++ rest) ≡ some (entry_view h, rest))
  read_local_header-dump s rest fits =
      Wrote-intro (dump h) (written h) _ s (dump-eq-write h) (length-written h) fits
        (read-written rest)
