-- ===== src/JrodonV3/ZipFormat/Eocd/RoundTrip.antt =====
-- The serialized end of an archive: its length, and what a reader finds in it.
use demo_s3_archiving.Prelude.{ℕ, ◌^◌, ◌%◌, ◌≤◌, ◌<◌, ◌≡◌, refl, arith, Bool, false}
use demo_s3_archiving.Prelude.{List, ◌++◌, none, some, Option, inl, inr, append_assoc}
use demo_s3_archiving.Prelude.{length, length-append, if◌then◌else◌, Bool-cases}
use demo_s3_archiving.Bytes.{Byte, le_bytes, be_bytes, length-le_bytes, length-be_bytes, read_le}
use demo_s3_archiving.Bytes.Sink.{Sink, write, write-seq, write-nil, Wrote, Wrote-intro}
use demo_s3_archiving.ZipReader.{reading, EndView, read_end}
use demo_s3_archiving.JrodonV3.ZipFormat.Field.{u16_max, u32_max, as_u16, as_u32}
use demo_s3_archiving.JrodonV3.ZipFormat.Field.{dump_u16, dump_u32, dump_u64, dump_magic}
use demo_s3_archiving.JrodonV3.ZipFormat.Eocd.{EndOfCentralDirectory64, needs, need_eocd64, size}
use demo_s3_archiving.JrodonV3.ZipFormat.Eocd.{dump, eocd_magic, eocd64_magic, eocd64_locator_magic}

classic_bytes : ℕ → ℕ → ℕ → ℕ → List Byte
classic_bytes disk count length offset =
    be_bytes 4 eocd_magic
    ++ (le_bytes 2 disk
        ++ (le_bytes 2 disk
            ++ (le_bytes 2 count
                ++ (le_bytes 2 count
                    ++ (le_bytes 4 length ++ (le_bytes 4 offset ++ le_bytes 2 0))))))

zip64_bytes : EndOfCentralDirectory64 → List Byte
zip64_bytes e =
    be_bytes 4 eocd64_magic
    ++ (le_bytes 8 44
        ++ (le_bytes 2 10
            ++ (le_bytes 2 10
                ++ (le_bytes 4 0
                    ++ (le_bytes 4 0
                        ++ (le_bytes 8 e.record_count
                            ++ (le_bytes 8 e.record_count
                                ++ (le_bytes 8 e.central_directory_size
                                    ++ (le_bytes 8 e.central_directory_offset
                                        ++ (be_bytes 4 eocd64_locator_magic
                                            ++ (le_bytes 4 0
                                                ++ (le_bytes 8 e.eocd64_offset
                                                    ++ le_bytes 4 0))))))))))))

-- The bytes that `dump` writes.
pub end_bytes : Bool → EndOfCentralDirectory64 → List Byte
unfolding classic_bytes zip64_bytes
end_bytes zip64 e =
    if zip64
    then zip64_bytes e ++ classic_bytes u16_max u16_max u32_max u32_max
    else classic_bytes 0 (as_u16 e.record_count) (as_u32 e.central_directory_size)
        (as_u32 e.central_directory_offset)

pub dump-eq-write : (e : EndOfCentralDirectory64) → dump e ≡ write (end_bytes (needs e) e)
unfolding dump end_bytes dump_u16 dump_u32 dump_u64 dump_magic
dump-eq-write e = elim (Bool-cases (needs e)) [
  | inl p ↦ rw p (simp (write-seq, append_assoc))
  | inr p ↦ rw p (simp (write-seq, write-nil, append_assoc))
]

pub length-end_bytes : (e : EndOfCentralDirectory64) → length (end_bytes (needs e) e) ≡ size e
unfolding end_bytes size
length-end_bytes e = elim (Bool-cases (needs e)) [
  | inl p ↦ rw p (simp (length-append, length-le_bytes, length-be_bytes) (omega arith))
  | inr p ↦ rw p (simp (length-append, length-le_bytes, length-be_bytes) (omega arith))
]

read_eocd : (rest : List Byte) → read_le 4 (be_bytes 4 eocd_magic ++ rest) ≡ some (0x06054B50, rest)
unfolding read_le be_bytes
read_eocd rest = refl

read_eocd64 :
    (rest : List Byte) → read_le 4 (be_bytes 4 eocd64_magic ++ rest) ≡ some (0x06064B50, rest)
unfolding read_le be_bytes
read_eocd64 rest = refl

read_locator :
    (rest : List Byte)
    → read_le 4 (be_bytes 4 eocd64_locator_magic ++ rest) ≡ some (0x07064B50, rest)
unfolding read_le be_bytes
read_locator rest = refl

abbrev view : ℕ → ℕ → ℕ → Option (ℕ × ℕ) → EndView
view n l o z = record { entries = n; directory_size = l; directory_offset = o; zip64 = z }

-- What a reader is to find: the ZIP64 records where a value does not fit the classic record.
abbrev pub end_view : EndOfCentralDirectory64 → EndView
end_view e = record {
  entries = e.record_count;
  directory_size = e.central_directory_size;
  directory_offset = e.central_directory_offset;
  zip64 = if needs e then some (e.eocd64_offset, 0) else none;
}

-- Without the ZIP64 records every value fits the classic one.
classic_fits :
    (e : EndOfCentralDirectory64)
    → needs e ≡ false
    → (e.record_count ≤ u16_max)
      × (e.central_directory_size ≤ u32_max)
      × (e.central_directory_offset ≤ u32_max)
unfolding need_eocd64
classic_fits e p = ground arith

module _ (e : EndOfCentralDirectory64) (counted : e.record_count < 2 ^ 64)
    (sized : e.central_directory_size < 2 ^ 64) (placed : e.central_directory_offset < 2 ^ 64)
    (located : e.eocd64_offset < 2 ^ 64) where
  read-end_bytes :
      (rest : List Byte) → read_end (end_bytes (needs e) e ++ rest) ≡ some (end_view e, rest)
  unfolding read_end end_bytes
  read-end_bytes rest = elim (Bool-cases (needs e)) [
    | inl p ↦
        let n : e.record_count % 2 ^ 64 ≡ e.record_count = omega arith in
        let l : e.central_directory_size % 2 ^ 64 ≡ e.central_directory_size = omega arith in
        let o : e.central_directory_offset % 2 ^ 64 ≡ e.central_directory_offset = omega arith in
        let z : e.eocd64_offset % 2 ^ 64 ≡ e.eocd64_offset = omega arith in
        rw p (
          simp (read_eocd, read_eocd64, read_locator, reading)
            (λ i. some (view (n i) (l i) (o i) (some (z i, 0)), rest)))
    | inr p ↦
        let n : as_u16 e.record_count % 2 ^ 16 ≡ e.record_count = omega (arith, classic_fits e p) in
        let l : as_u32 e.central_directory_size % 2 ^ 32 ≡ e.central_directory_size =
          omega (arith, classic_fits e p) in
        let o : as_u32 e.central_directory_offset % 2 ^ 32 ≡ e.central_directory_offset =
          omega (arith, classic_fits e p) in
        rw p (simp (read_eocd, reading) (λ i. some (view (n i) (l i) (o i) none, rest)))
  ]

  -- Into a slice with room for `size` bytes, `dump` writes exactly that many and returns their
  -- number, and a ZIP reader finds in them the number of entries, the size and the offset of the
  -- directory, and, where one of these does not fit the classic record, the place of the ZIP64
  -- record, with 0 for the number of disks, and leaves what follows. The reader takes a value of the
  -- ZIP64 record only where the field of the classic record is all ones. All four values are 64-bit
  -- numbers.
  pub read_end-dump :
      (s : Sink) (rest : List Byte)
      → size e ≤ s.room
      → Wrote s (size e) (dump e s) (λ bs. read_end (bs ++ rest) ≡ some (end_view e, rest))
  read_end-dump s rest fits =
      Wrote-intro (dump e) (end_bytes (needs e) e) _ s (dump-eq-write e) (length-end_bytes e) fits
        (read-end_bytes rest)
