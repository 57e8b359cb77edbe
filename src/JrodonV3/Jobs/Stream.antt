-- ===== src/JrodonV3/Jobs/Stream.antt =====
-- What the part jobs upload, as bytes: the meaning of a list of jobs.
use demo_s3_archiving.Prelude.{ℕ, ◌+◌, ◌-◌, List, [], ◌∷◌, ◌++◌, Option, none, some}
use demo_s3_archiving.Prelude.{take, drop}
use demo_s3_archiving.Bytes.{Byte, Text}
use demo_s3_archiving.JrodonV3.ZipFormat.Field.{Crc32}
use demo_s3_archiving.JrodonV3.ZipFormat.Loc.{LocalFileHeader}
use demo_s3_archiving.JrodonV3.ZipFormat.Loc.RoundTrip.{written}
use demo_s3_archiving.JrodonV3.ZipFormat.Eocd.{EndOfCentralDirectory64}
use demo_s3_archiving.JrodonV3.Files.{FileInfo, entry_size}
use demo_s3_archiving.JrodonV3.PartJob.{S3ObjectOperation, get, partial_get, head}
use demo_s3_archiving.JrodonV3.PartJob.{UploadPartElement, entry_from_s3, central_directory}
use demo_s3_archiving.JrodonV3.PartJob.{PartJobType, upload, copy, PartJob}

-- The part of an object that an element downloads.
abbrev pub downloaded : S3ObjectOperation → List Byte → List Byte
downloaded get object = object
downloaded (partial_get n) object = take n object
downloaded head object = []

-- The part of an object that S3 copies.
abbrev pub copied_bytes : Option (ℕ × ℕ) → List Byte → List Byte
copied_bytes none object = object
copied_bytes (some (first, last)) object = take (last + 1 - first) (drop first object)

-- What the jobs draw on: the objects of Amazon S3 and their checksums, both by `bucket/key`, and the
-- bytes that the central directory element writes.
pub record Storage : Type 0 where
  pub object : Text → List Byte
  pub checksum : Text → Crc32
  pub directory : EndOfCentralDirectory64 → List Byte

-- The local header of a file with its checksum.
abbrev pub header_with : ℕ → Text → ℕ → Crc32 → LocalFileHeader Crc32
header_with offset name size crc = record {
  offset = offset;
  name = name;
  crc32 = crc;
  file_size = size;
}

module _ (s3 : Storage) where
  open s3 use {object, checksum, directory}

  abbrev pub elem_bytes : UploadPartElement → List Byte
  elem_bytes (entry_from_s3 e) =
      let source = e.bucket_name ++ b'/' ∷ e.key in
      written (header_with e.loc.offset e.loc.name e.loc.file_size (checksum source))
      ++ downloaded e.operation (object source)
  elem_bytes (central_directory total_size eocd64) = directory eocd64

  abbrev pub elems_bytes : List UploadPartElement → List Byte
  elems_bytes [] = []
  elems_bytes (e ∷ es) = elem_bytes e ++ elems_bytes es

  abbrev pub type_bytes : PartJobType → List Byte
  type_bytes (upload elems) = elems_bytes elems
  type_bytes (copy source range) = copied_bytes range (object source)

  abbrev pub job_bytes : PartJob → List Byte
  job_bytes j = type_bytes j.part_job_type

  -- The archive that S3 puts together of the parts, in the order of their numbers.
  abbrev pub archive : List PartJob → List Byte
  archive [] = []
  archive (j ∷ js) = job_bytes j ++ archive js

  -- A file in the archive: its local header and its content.
  abbrev pub entry_bytes : ℕ → FileInfo → List Byte
  entry_bytes offset f =
      let source = f.bucket_name ++ b'/' ∷ f.key in
      written (header_with offset f.name f.size (checksum source)) ++ object source

  abbrev pub entries_bytes : ℕ → List FileInfo → List Byte
  entries_bytes offset [] = []
  entries_bytes offset (f ∷ fs) = entry_bytes offset f ++ entries_bytes (offset + entry_size f) fs
