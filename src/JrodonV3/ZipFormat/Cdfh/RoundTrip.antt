-- ===== src/JrodonV3/ZipFormat/Cdfh/RoundTrip.antt =====
-- A serialized central directory header: its length, and what a reader finds in it.
use demo_s3_archiving.Prelude.{ℕ, ◌^◌, ◌%◌, ◌≤◌, ◌<◌, ◌≡◌, refl, ap₂, append-nil, arith, Bool, ◌||◌}
use demo_s3_archiving.Prelude.{List, [], ◌++◌, some, inl, inr, append_assoc}
use demo_s3_archiving.Prelude.{ltb, length, length-append, if◌then◌else◌, Bool-cases, ltb→le}
use demo_s3_archiving.Bytes.{Byte, le_bytes, be_bytes, length-le_bytes, length-be_bytes, read_le}
use demo_s3_archiving.Bytes.Sink.{Sink, write, write-seq, write-nil, Wrote, Wrote-intro}
use demo_s3_archiving.ZipReader.{reading, give, CentralView, read_central_header}
use demo_s3_archiving.JrodonV3.ZipFormat.Field.{u32_max, as_u16, as_u32, crc_bytes, crc_value}
use demo_s3_archiving.JrodonV3.ZipFormat.Field.{read_crc, dump_u16, dump_u32, dump_u64}
use demo_s3_archiving.JrodonV3.ZipFormat.Field.{dump_magic, dump_crc, dump_size_twice}
use demo_s3_archiving.JrodonV3.ZipFormat.Loc.RoundTrip.{entry_view}
use demo_s3_archiving.JrodonV3.ZipFormat.Cdfh.{CentralDirectoryFileHeader, dump, predict_size}
use demo_s3_archiving.JrodonV3.ZipFormat.Cdfh.{cdfh_magic}

-- The bytes of the header, field by field; `far` and `big` say what the ZIP64 extra field holds.
pub cdfh_bytes : Bool → Bool → CentralDirectoryFileHeader → List Byte
cdfh_bytes far big c =
    let h = c.loc in
    be_bytes 4 cdfh_magic
    ++ (le_bytes 2 10
        ++ (le_bytes 2 10
            ++ (le_bytes 2 0
                ++ (le_bytes 2 0
                    ++ (le_bytes 2 0
                        ++ (le_bytes 2 0
                            ++ (crc_bytes h.crc32
                                ++ (le_bytes 4 (if far || big then u32_max else as_u32 h.file_size)
                                    ++ (le_bytes 4
                                          (if far || big then u32_max else as_u32 h.file_size)
                                        ++ (le_bytes 2 (as_u16 (length h.name))
                                            ++ (le_bytes 2
                                                  (if far then 28 else if big then 20 else 0)
                                                ++ (le_bytes 2 0
                                                    ++ (le_bytes 2 0
                                                        ++ (le_bytes 2 0
                                                            ++ (le_bytes 4 0
                                                            ++ (le_bytes 4 (
                                                            if far
                                                            then u32_max
                                                            else as_u32 h.offset)
                                                            ++ (h.name
                                                            ++ (if far
                                                            then le_bytes 2 1
                                                            ++ (le_bytes 2 24
                                                            ++ (le_bytes 8 h.file_size
                                                            ++ (le_bytes 8 h.file_size
                                                            ++ le_bytes 8 h.offset)))
                                                            else if big
                                                            then le_bytes 2 1
                                                            ++ (le_bytes 2 16
                                                            ++ (le_bytes 8 h.file_size
                                                            ++ le_bytes 8 h.file_size))
                                                            else []))))))))))))))))))

read_signature :
    (rest : List Byte) → read_le 4 (be_bytes 4 cdfh_magic ++ rest) ≡ some (0x02014B50, rest)
unfolding read_le be_bytes
read_signature rest = refl

-- The header's bytes as the program chooses them.
abbrev pub written : CentralDirectoryFileHeader → List Byte
written c = cdfh_bytes (ltb u32_max c.loc.offset) (ltb u32_max c.loc.file_size) c

pub dump-eq-write : (c : CentralDirectoryFileHeader) → dump c ≡ write (written c)
unfolding dump cdfh_bytes dump_u16 dump_u32 dump_u64 dump_magic dump_crc dump_size_twice
dump-eq-write c = elim (Bool-cases (ltb u32_max c.loc.offset)) [
  | inl e ↦ rw e (simp (write-seq, append_assoc))
  | inr e ↦ elim (Bool-cases (ltb u32_max c.loc.file_size)) [
    | inl f ↦ rw (e, f) (simp (write-seq, write-nil, append_assoc, append-nil))
    | inr f ↦ rw (e, f) (simp (write-seq, write-nil, append_assoc))
  ]
]

pub length-written :
    (c : CentralDirectoryFileHeader)
    → length (written c) ≡ predict_size c.loc.file_size (length c.loc.name) c.loc.offset
unfolding cdfh_bytes predict_size
length-written c = elim (Bool-cases (ltb u32_max c.loc.offset)) [
  | inl e ↦ rw e (simp (length-append, length-le_bytes, length-be_bytes) (omega arith))
  | inr e ↦ elim (Bool-cases (ltb u32_max c.loc.file_size)) [
    | inl f ↦ rw (e, f) (simp (length-append, length-le_bytes, length-be_bytes) (omega arith))
    | inr f ↦ rw (e, f) (simp (length-append, length-le_bytes, length-be_bytes) (omega arith))
  ]
]

-- What a reader is to find.
abbrev pub central_view : CentralDirectoryFileHeader → CentralView
central_view c = record { entry = entry_view c.loc; offset = c.loc.offset }

module _ (c : CentralDirectoryFileHeader) (named : length c.loc.name < 2 ^ 16)
    (sized : c.loc.file_size < 2 ^ 64) (placed : c.loc.offset < 2 ^ 64) where
  name_len : as_u16 (length c.loc.name) % 256 ^ 2 ≡ length c.loc.name
  name_len = omega arith

  -- The view with its numbers as they were read.
  view_at : ℕ → ℕ → CentralView
  view_at size offset = record {
    entry = record { name = c.loc.name; crc = crc_value c.loc.crc32; size = size };
    offset = offset;
  }

  found :
      (size offset : ℕ) (rest : List Byte)
      → size ≡ c.loc.file_size
      → offset ≡ c.loc.offset
      → give (view_at size offset) rest ≡ some (central_view c, rest)
  unfolding view_at
  found size offset rest p q = ap₂ (λ n m. give (view_at n m) rest) p q

  pub read-written :
      (rest : List Byte) → read_central_header (written c ++ rest) ≡ some (central_view c, rest)
  unfolding read_central_header cdfh_bytes view_at
  read-written rest = elim (Bool-cases (ltb u32_max c.loc.offset)) [
    | inl e ↦ rw e (
        simp (read_signature, read_crc, name_len, reading)
          (found _ _ rest (omega arith) (omega arith)))
    | inr e ↦ elim (Bool-cases (ltb u32_max c.loc.file_size)) [
      | inl f ↦
          rw (e, f)
            (simp (read_signature, read_crc, name_len, reading)
              (found _ _ rest (omega arith) (omega (arith, ltb→le _ _ e))))
      | inr f ↦
          rw (e, f)
            (simp (read_signature, read_crc, name_len, reading)
              (found _ _ rest (omega (arith, ltb→le _ _ f)) (omega (arith, ltb→le _ _ e))))
    ]
  ]

  -- Into a slice with room for the predicted size, `dump` writes exactly that many bytes and returns
  -- their number, and a ZIP reader finds in them the name, the checksum, the size and the offset of
  -- the entry, and leaves what follows. The name is shorter than 2^16 bytes, and the size and the
  -- offset are 64-bit numbers.
  pub read_central_header-dump :
      (s : Sink) (rest : List Byte)
      → predict_size c.loc.file_size (length c.loc.name) c.loc.offset ≤ s.room
      → Wrote s
          (predict_size c.loc.file_size (length c.loc.name) c.loc.offset)
          (dump c s)
          (λ bs. read_central_header (bs ++ rest) ≡ some (central_view c, rest))
  read_central_header-dump s rest fits =
      Wrote-intro (dump c) (written c) _ s (dump-eq-write c) (length-written c) fits
        (read-written rest)
