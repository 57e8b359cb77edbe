-- ===== src/JrodonV3/Jobs/Archive.antt =====
-- The plan and the jobs together: the archive that the jobs of `part_executor/mod.rs` upload.
use demo_s3_archiving.Prelude.{ℕ, ◌+◌, ◌≡◌, refl, arith, Perm}
use demo_s3_archiving.Prelude.{List, [], ◌∷◌, ◌++◌, length, length-append, sum_by}
use demo_s3_archiving.Bytes.{Byte}
use demo_s3_archiving.JrodonV3.Files.{FileInfo, entry_size}
use demo_s3_archiving.JrodonV3.ZipFormat.Cdfh.{CentralDirectoryFileHeader}
use demo_s3_archiving.JrodonV3.ZipFormat.Cdfh.RoundTrip.{written, length-written}
use demo_s3_archiving.JrodonV3.ZipFormat.Eocd.{EndOfCentralDirectory64, needs}
use demo_s3_archiving.JrodonV3.ZipFormat.Eocd.RoundTrip.{end_bytes, length-end_bytes}
use demo_s3_archiving.JrodonV3.PartJob.{PartJob, elem_size}
use demo_s3_archiving.JrodonV3.Jobs.{cdfh_size}
use demo_s3_archiving.JrodonV3.Jobs.Stream.{Storage, header_with}
use demo_s3_archiving.JrodonV3.Jobs.Elements.{IsExact, sizes_from}
use demo_s3_archiving.JrodonV3.Jobs.Finish.{end_at, directory_of}
use mathlib.Core.List.Perm

-- The end records of an archive of these files.
abbrev pub end_of : List FileInfo → EndOfCentralDirectory64
end_of fs = end_at (sizes_from 0 fs) (sum_by entry_size fs)

module _ (s3 : Storage) where
  -- The directory header of a file whose local header stands at an offset.
  abbrev pub header_at : ℕ → FileInfo → CentralDirectoryFileHeader
  header_at offset f = record {
    loc = header_with offset f.name f.size (s3.checksum (f.bucket_name ++ b'/' ∷ f.key));
  }

  abbrev pub headers_bytes : ℕ → List FileInfo → List Byte
  headers_bytes offset [] = []
  headers_bytes offset (f ∷ fs) =
      written (header_at offset f) ++ headers_bytes (offset + entry_size f) fs

  abbrev pub directory_bytes : List FileInfo → List Byte
  directory_bytes fs = headers_bytes 0 fs ++ end_bytes (needs (end_of fs)) (end_of fs)

  -- The storage, where a directory's element writes the directory headers of these files, and the end
  -- records that the element itself carries.
  abbrev pub with_directory : List FileInfo → Storage
  with_directory fs = record s3 { directory = λ e. headers_bytes 0 fs ++ end_bytes (needs e) e }

  length-header_at :
      (offset : ℕ) (f : FileInfo) → length (written (header_at offset f)) ≡ cdfh_size offset f
  unfolding cdfh_size
  length-header_at offset f = length-written (header_at offset f)

  length-headers_bytes :
      (offset : ℕ) (fs : List FileInfo)
      → length (headers_bytes offset fs) ≡ sum_by (λ n. n) (sizes_from offset fs)
  unfolding sizes_from
  length-headers_bytes offset [] = refl
  length-headers_bytes offset (f ∷ fs) = omega (
    arith,
    length-append (written (header_at offset f)) (headers_bytes (offset + entry_size f) fs),
    length-header_at offset f,
    length-headers_bytes (offset + entry_size f) fs,
  )

  pub directory-IsExact : (fs : List FileInfo) → IsExact (with_directory fs) (directory_of fs)
  unfolding elem_size
  directory-IsExact fs = omega (
    arith,
    length-append (headers_bytes 0 fs) (end_bytes (needs (end_of fs)) (end_of fs)),
    length-headers_bytes 0 fs,
    length-end_bytes (end_of fs),
  )
