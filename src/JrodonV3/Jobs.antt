-- ===== src/JrodonV3/Jobs.antt =====
-- contenders/rust/jrodon-v3/src/part_executor/part_builder.rs, and `ZipLayout::into_part_jobs` of
-- zip_layout.rs: from a layout to part jobs. What is only logged is left out.
pub mod Stream
pub mod Elements
pub mod Build
pub mod Finish
pub mod Archive
pub mod Floor
use demo_s3_archiving.Prelude.{ℕ, ◌+◌, ◌-◌, List, [], ◌∷◌, ◌++◌, Option, none, some}
use demo_s3_archiving.Prelude.{length, sum_by}
use demo_s3_archiving.Bytes.{Text}
use demo_s3_archiving.JrodonV3.ZipFormat.Loc.{LocalFileHeader, NoCrc, make}
use demo_s3_archiving.JrodonV3.ZipFormat.Loc
use demo_s3_archiving.JrodonV3.ZipFormat.Cdfh
use demo_s3_archiving.JrodonV3.ZipFormat.Eocd
use demo_s3_archiving.JrodonV3.ZipFormat.Eocd.{EndOfCentralDirectory64}
use demo_s3_archiving.JrodonV3.Files.{FileInfo}
use demo_s3_archiving.JrodonV3.Layout.{ZipLayoutPart, single, duo, full_copy, partial_copy}
use demo_s3_archiving.JrodonV3.PartJob.{S3ObjectOperation, get, partial_get, head}
use demo_s3_archiving.JrodonV3.PartJob.{UploadPartElement, entry_from_s3, central_directory}
use demo_s3_archiving.JrodonV3.PartJob.{PartJobType, upload, copy, PartJob, elem_size}
use mathlib.Core.List.{reverse}

-- `PartJobsBuilder`; the parts stand newest first, so that the last one is at the head.
pub record PartJobsBuilder : Type 0 where
  pub current_archive_offset : ℕ
  pub cdfh_sizes : List ℕ
  pub parts : List PartJob

abbrev pub new : PartJobsBuilder
new = record { current_archive_offset = 0; cdfh_sizes = []; parts = [] }

-- `bucket/key`
unfoldable pub copy_source_of : FileInfo → Text
copy_source_of f = f.bucket_name ++ b'/' ∷ f.key

-- A header at the current offset, and the size of its central directory header.
abbrev pub loc_at : ℕ → FileInfo → LocalFileHeader NoCrc
loc_at offset f = make offset f.name f.size

abbrev pub element : LocalFileHeader NoCrc → S3ObjectOperation → FileInfo → UploadPartElement
element loc operation f =
    entry_from_s3
      (record { loc = loc; operation = operation; bucket_name = f.bucket_name; key = f.key })

-- `predict_size(file_info.size, name_len, loc.offset())`
unfoldable pub cdfh_size : ℕ → FileInfo → ℕ
cdfh_size offset f = Cdfh.predict_size f.size (length f.name) offset

-- The iterator of `add_files`: the elements, the new offset and the new sizes.
unfoldable pub get_elements : ℕ → List ℕ → List FileInfo → List UploadPartElement × ℕ × List ℕ
unfolding cdfh_size
get_elements offset sizes [] = ([], offset, sizes)
get_elements offset sizes (f ∷ fs) =
    let loc = loc_at offset f in
    let (elems, offset', sizes') =
      get_elements (offset + (Loc.size loc + f.size)) (sizes ++ cdfh_size offset f ∷ []) fs in
    (element loc get f ∷ elems, offset', sizes')

unfoldable pub new_upload : List PartJob → List UploadPartElement → PartJob
new_upload parts elems = record {
  part_number = length parts + 1;
  part_size = sum_by elem_size elems;
  part_job_type = upload elems;
}

-- The elements go to the last part if that is an upload, and else to a new one.
unfoldable pub extend_parts : List PartJob → List UploadPartElement → List PartJob
unfolding new_upload
extend_parts [] elems = new_upload [] elems ∷ []
extend_parts (last ∷ parts) elems = elim (last.part_job_type) [
  | upload before ↦
      record last {
        part_size = sum_by elem_size (before ++ elems);
        part_job_type = upload (before ++ elems);
      }
      ∷ parts
  | copy source range ↦ new_upload (last ∷ parts) elems ∷ last ∷ parts
]

unfoldable pub add_files : PartJobsBuilder → List FileInfo → PartJobsBuilder
add_files b files =
    let (elems, offset, sizes) = get_elements b.current_archive_offset b.cdfh_sizes files in
    record {
      current_archive_offset = offset;
      cdfh_sizes = sizes;
      parts = extend_parts b.parts elems;
    }

-- How a copy starts: the operation of its header's element, the bytes that it adds to the upload
-- part, and the range that is left to copy.
unfoldable pub copy_operation : Option ℕ → S3ObjectOperation
copy_operation none = head
copy_operation (some start) = partial_get start

unfoldable pub copy_start : Option ℕ → ℕ
copy_start none = 0
copy_start (some start) = start

unfoldable pub copy_range : Option ℕ → ℕ → Option (ℕ × ℕ)
copy_range none size = none
copy_range (some start) size = some (start, size - 1)

-- The last part with the header's element added.
unfoldable pub header_part : PartJob → List UploadPartElement → UploadPartElement → PartJob
header_part last elems elem = record last {
  part_size = last.part_size + elem_size elem;
  part_job_type = upload (elems ++ elem ∷ []);
}

-- The part that is copied by S3.
unfoldable pub copy_part : List PartJob → FileInfo → Option ℕ → PartJob
copy_part parts f start = record {
  part_number = length parts + 1;
  part_size = f.size - copy_start start;
  part_job_type = copy (copy_source_of f) (copy_range start f.size);
}

unfoldable pub copy_behind :
    PartJobsBuilder
    → FileInfo
    → Option ℕ
    → PartJob
    → List UploadPartElement
    → List PartJob
    → PartJobsBuilder
unfolding header_part copy_part
copy_behind b f start last elems parts =
    let loc = loc_at b.current_archive_offset f in
    let last' = header_part last elems (element loc (copy_operation start) f) in
    let part_offset = b.current_archive_offset + Loc.size loc + copy_start start in
    record {
      current_archive_offset = part_offset + (f.size - copy_start start);
      cdfh_sizes = b.cdfh_sizes ++ cdfh_size b.current_archive_offset f ∷ [];
      parts = copy_part (last' ∷ parts) f start ∷ last' ∷ parts;
    }

-- `internal_copy_file`; `none` is one of its two panics.
unfoldable pub internal_copy_file : PartJobsBuilder → FileInfo → Option ℕ → Option PartJobsBuilder
internal_copy_file b f start = elim (b.parts) [
  | [] ↦ none
  | last ∷ parts ↦ elim (last.part_job_type) [
    | upload elems ↦ some (copy_behind b f start last elems parts)
    | copy source range ↦ none
  ]
]

unfoldable pub copy_file : PartJobsBuilder → FileInfo → Option PartJobsBuilder
copy_file b f = internal_copy_file b f none

unfoldable pub partial_copy_file : PartJobsBuilder → FileInfo → ℕ → Option PartJobsBuilder
partial_copy_file b f start = internal_copy_file b f (some start)

-- The end records of the archive.
unfoldable pub end_records : PartJobsBuilder → EndOfCentralDirectory64
end_records b =
    let central_directory_size = sum_by (λ n. n) b.cdfh_sizes in
    record {
      record_count = length b.cdfh_sizes;
      central_directory_size = central_directory_size;
      central_directory_offset = b.current_archive_offset;
      eocd64_offset = b.current_archive_offset + central_directory_size;
    }

-- The element of the central directory.
unfoldable pub directory_element : PartJobsBuilder → UploadPartElement
unfolding end_records
directory_element b =
    central_directory (sum_by (λ n. n) b.cdfh_sizes + Eocd.size (end_records b)) (end_records b)

unfoldable pub finish_parts : List PartJob → UploadPartElement → List PartJob
finish_parts [] cd = new_upload [] (cd ∷ []) ∷ []
finish_parts (last ∷ parts) cd = elim (last.part_job_type) [
  | upload elems ↦ header_part last elems cd ∷ parts
  | copy source range ↦ new_upload (last ∷ parts) (cd ∷ []) ∷ last ∷ parts
]

unfoldable pub finalize : PartJobsBuilder → List PartJob
finalize b = reverse (finish_parts b.parts (directory_element b))

-- One round of the loop of `into_part_jobs`.
unfoldable pub add_part : PartJobsBuilder → ZipLayoutPart → Option PartJobsBuilder
add_part b (single regular) = some (add_files b regular)
add_part b (duo regular (full_copy f)) = copy_file (add_files b regular) f
add_part b (duo regular (partial_copy f start)) = partial_copy_file (add_files b regular) f start

unfoldable pub add_parts : PartJobsBuilder → List ZipLayoutPart → Option PartJobsBuilder
add_parts b [] = some b
add_parts b (p ∷ ps) = elim (add_part b p) [ none ↦ none | some b' ↦ add_parts b' ps ]

-- `ZipLayout::into_part_jobs`
unfoldable pub into_part_jobs : List ZipLayoutPart → Option (List PartJob)
into_part_jobs parts = elim (add_parts new parts) [ none ↦ none | some b ↦ some (finalize b) ]
