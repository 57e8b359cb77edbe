-- ===== src/JrodonV3/PartJob.antt =====
-- contenders/rust/jrodon-v3/src/part_executor/mod.rs: the part jobs and their elements. The channel
-- that carries the central directory headers is one for all jobs and is left out here.
use demo_s3_archiving.Prelude.{ℕ, ◌+◌, List, Option}
use demo_s3_archiving.Bytes.{Text}
use demo_s3_archiving.JrodonV3.ZipFormat.Loc.{LocalFileHeader, NoCrc}
use demo_s3_archiving.JrodonV3.ZipFormat.Loc
use demo_s3_archiving.JrodonV3.ZipFormat.Eocd.{EndOfCentralDirectory64}

pub data S3ObjectOperation : Type 0 where
  get : S3ObjectOperation
  partial_get : ℕ → S3ObjectOperation
  head : S3ObjectOperation

-- `SerializableEntryFromS3`
pub record EntryFromS3 : Type 0 where
  pub loc : LocalFileHeader NoCrc
  pub operation : S3ObjectOperation
  pub bucket_name : Text
  pub key : Text

pub data UploadPartElement : Type 0 where
  entry_from_s3 : EntryFromS3 → UploadPartElement
  central_directory : ℕ → EndOfCentralDirectory64 → UploadPartElement

-- A range `bytes=first-last` is its two numbers.
pub data PartJobType : Type 0 where
  upload : List UploadPartElement → PartJobType
  copy : Text → Option (ℕ × ℕ) → PartJobType

pub record PartJob : Type 0 where
  pub part_number : ℕ
  pub part_size : ℕ
  pub part_job_type : PartJobType

operation_size : LocalFileHeader NoCrc → S3ObjectOperation → ℕ
operation_size loc get = Loc.size loc + loc.file_size
operation_size loc (partial_get size) = Loc.size loc + size
operation_size loc head = Loc.size loc

-- `UploadPartElement::elem_size`
unfoldable pub elem_size : UploadPartElement → ℕ
unfolding operation_size
elem_size (entry_from_s3 e) = operation_size e.loc e.operation
elem_size (central_directory total_size eocd64) = total_size
