-- ===== src/JrodonV3/Tests.antt =====
-- The theorems of jrodon-v3 at concrete inputs.
use demo_s3_archiving.Prelude.{ℕ, zero, suc, ◌≡◌, refl, arith, Perm, if◌then◌else◌, ◌==◌}
use demo_s3_archiving.Prelude.{List, [], ◌∷◌, ◌++◌, some, length, All}
use demo_s3_archiving.Bytes.{Byte}
use demo_s3_archiving.Bytes.Sink.{Sink, Wrote}
use demo_s3_archiving.ZipReader.{read_local_header, read_central_header, read_end}
use demo_s3_archiving.JrodonV3.Files.{FileInfo}
use demo_s3_archiving.JrodonV3.ZipFormat.Field.{Crc32}
use demo_s3_archiving.JrodonV3.ZipFormat.Loc
use demo_s3_archiving.JrodonV3.ZipFormat.Loc.{LocalFileHeader}
use demo_s3_archiving.JrodonV3.ZipFormat.Loc.RoundTrip.{read_local_header-dump, entry_view}
use demo_s3_archiving.JrodonV3.ZipFormat.Cdfh
use demo_s3_archiving.JrodonV3.ZipFormat.Cdfh.{CentralDirectoryFileHeader}
use demo_s3_archiving.JrodonV3.ZipFormat.Cdfh.RoundTrip.{read_central_header-dump, central_view}
use demo_s3_archiving.JrodonV3.ZipFormat.Eocd
use demo_s3_archiving.JrodonV3.ZipFormat.Eocd.{EndOfCentralDirectory64}
use demo_s3_archiving.JrodonV3.ZipFormat.Eocd.RoundTrip.{read_end-dump, end_view}
use demo_s3_archiving.JrodonV3.Layout.{from_files_info}
use demo_s3_archiving.JrodonV3.Layout.Conserve.{layout_files, from_files_info-perm}
use demo_s3_archiving.JrodonV3.Layout.Floor.{IsFloored, from_files_info-IsFloored}
use demo_s3_archiving.JrodonV3.PartJob.{PartJob}
use demo_s3_archiving.JrodonV3.Jobs.{into_part_jobs}
use demo_s3_archiving.JrodonV3.Jobs.Stream.{Storage}
use demo_s3_archiving.JrodonV3.Jobs.Archive.{directory_bytes}
use demo_s3_archiving.JrodonV3.Jobs.Floor.{IsAccepted, into_part_jobs-IsAccepted}
use demo_s3_archiving.Prelude.{◌+◌, none, Option, take, sym, append-nil}
use demo_s3_archiving.Bytes.{Text}
use demo_s3_archiving.Bytes.Sink.{Dump}
use demo_s3_archiving.JrodonV3.Files.{entry_size}
use demo_s3_archiving.JrodonV3.ZipFormat.Field.{from_str}
use demo_s3_archiving.JrodonV3.Jobs.Stream.{header_with}
use demo_s3_archiving.JrodonV3.ZipFormat.Cdfh.{from_loc}
use demo_s3_archiving.JrodonV3.PartJob.{EntryFromS3, entry_from_s3, get, elem_size}
use demo_s3_archiving.JrodonV3.Jobs.{loc_at}
use demo_s3_archiving.JrodonV3.Jobs.Stream.{elem_bytes}
use demo_s3_archiving.JrodonV3.Jobs.Elements.{get-IsExact}
use demo_s3_archiving.JrodonV3.Jobs.Finish.{directory_of}
use demo_s3_archiving.JrodonV3.Jobs.Archive.{header_at, end_of}
use demo_s3_archiving.JrodonV3.Execute.{write_directory}
use demo_s3_archiving.JrodonV3.Execute.Directory.{write_directory-order}
use demo_s3_archiving.JrodonV3.Resolve.{Response, parse_checksum, resolve_and_write}
use demo_s3_archiving.JrodonV3.Resolve.Content.{IsServed, resolve_and_write-Wrote}
use demo_s3_archiving.JrodonV3.Layout.{duo_pass, single_pass}
use demo_s3_archiving.JrodonV3.Layout.Stop.{passes-stop}
use demo_s3_archiving.JrodonV3.SharedBuffer.{
  BufSlice, SharedBuf, with_capacity, slice, strong_count, split, sliced, was_split, dropped,
  Reachable, allocated, stepped,
}
use demo_s3_archiving.JrodonV3.SharedBuffer.Apart.{IsApart, Reachable-IsApart}
use mathlib.Core.List.Perm

zeros : ℕ → List Byte
zeros zero = []
zeros (suc n) = 0 ∷ zeros n

-- A file of 5,500,000 bytes, which is copied in part, and two small ones.
abbrev big : FileInfo
big = record {
  name = (b'b' ∷ b'i' ∷ b'g' ∷ []);
  bucket_name = (b'b' ∷ []);
  key = (b'p' ∷ b'/' ∷ b'b' ∷ b'i' ∷ b'g' ∷ []);
  size = 5500000;
}

abbrev tiny : FileInfo
tiny = record {
  name = (b's' ∷ []);
  bucket_name = (b'b' ∷ []);
  key = (b'p' ∷ b'/' ∷ b's' ∷ []);
  size = 3;
}

abbrev files : List FileInfo
files = tiny ∷ big ∷ tiny ∷ []

abbrev some_crc : Crc32
some_crc = record { b0 = 1; b1 = 2; b2 = 3; b3 = 4 }

abbrev store : Storage
store = record {
  object = λ source. if length source == 7 then zeros 5500000 else 7 ∷ 8 ∷ 9 ∷ [];
  checksum = λ source. some_crc;
  directory = λ e. [];
}

into_part_jobs-IsAccepted_example :
    (front : List PartJob) × (last : PartJob) × (into_part_jobs (from_files_info files)
      ≡ some (front ++ last ∷ []))
    × All IsAccepted front
into_part_jobs-IsAccepted_example = into_part_jobs-IsAccepted files

from_files_info-IsFloored_example : IsFloored (from_files_info files)
from_files_info-IsFloored_example = from_files_info-IsFloored files

passes-stop_example :
    (duo_pass 9 files ≡ duo_pass 3 files) × (single_pass 9 files ≡ single_pass 3 files)
passes-stop_example = passes-stop 9 files (omega arith)

from_files_info-perm_example : Perm (layout_files (from_files_info files)) files
from_files_info-perm_example = from_files_info-perm files

-- Headers of an entry of more than 4 GiB behind 5 GiB of archive, and the end of such an archive.
abbrev far_loc : LocalFileHeader Crc32
far_loc = record {
  offset = 5368709120;
  name = (b'b' ∷ b'i' ∷ b'g' ∷ []);
  crc32 = some_crc;
  file_size = 4294967300;
}

abbrev far_cdfh : CentralDirectoryFileHeader
far_cdfh = record { loc = far_loc }

abbrev far_end : EndOfCentralDirectory64
far_end = record {
  record_count = 3;
  central_directory_size = 200;
  central_directory_offset = 9663676500;
  eocd64_offset = 9663676700;
}

abbrev buffer : Sink
buffer = record { out = []; room = 1000 }

read_local_header-dump_example :
    Wrote buffer
      (Loc.size far_loc)
      (Loc.dump far_loc buffer)
      (λ bs. read_local_header (bs ++ 9 ∷ []) ≡ some (entry_view far_loc, 9 ∷ []))
unfolding Loc.size Loc.predict_size
read_local_header-dump_example =
    read_local_header-dump far_loc (omega arith) (omega arith) buffer (9 ∷ []) (omega arith)

read_central_header-dump_example :
    Wrote buffer
      (Cdfh.predict_size 4294967300 3 5368709120)
      (Cdfh.dump far_cdfh buffer)
      (λ bs. read_central_header (bs ++ 9 ∷ []) ≡ some (central_view far_cdfh, 9 ∷ []))
unfolding Cdfh.predict_size
read_central_header-dump_example =
    read_central_header-dump far_cdfh (omega arith) (omega arith) (omega arith) buffer (9 ∷ [])
      (omega arith)

read_end-dump_example :
    Wrote buffer
      (Eocd.size far_end)
      (Eocd.dump far_end buffer)
      (λ bs. read_end (bs ++ 9 ∷ []) ≡ some (end_view far_end, 9 ∷ []))
unfolding Eocd.size Eocd.need_eocd64
read_end-dump_example =
    read_end-dump far_end (omega arith) (omega arith) (omega arith) (omega arith) buffer (9 ∷ [])
      (omega arith)

-- The headers of two entries come out of the channel in the wrong order.
abbrev two_files : List FileInfo
two_files = tiny ∷ tiny ∷ []

abbrev second : CentralDirectoryFileHeader
second = header_at store (0 + entry_size tiny) tiny

abbrev directory_buffer : Sink
directory_buffer = record { out = []; room = elem_size (directory_of two_files) }

write_directory-order_example :
    Wrote directory_buffer
      (elem_size (directory_of two_files))
      (write_directory (end_of two_files) (second ∷ header_at store 0 tiny ∷ []) directory_buffer)
      (λ bs. bs ≡ directory_bytes store two_files)
write_directory-order_example =
    write_directory-order store two_files (second ∷ header_at store 0 tiny ∷ []) directory_buffer
      (Perm.swap (header_at store 0 tiny) second []) (omega arith)

-- S3 answers with the object in two chunks.
abbrev decode_slice : Text → Option Crc32
decode_slice text = some (record { b0 = 4; b1 = 3; b2 = 2; b3 = 1 })

abbrev get_object : Text → Text → Option (ℕ × ℕ) → Option Response
get_object bucket key none =
    some (record { checksum_crc32 = some []; body = some (7 ∷ []) ∷ some (8 ∷ 9 ∷ []) ∷ [] })
get_object bucket key (some (first, last)) =
    some (record { checksum_crc32 = none; body = some (take (suc last) (7 ∷ 8 ∷ 9 ∷ [])) ∷ [] })

abbrev head_object : Text → Text → Option Response
head_object bucket key = some (record { checksum_crc32 = some []; body = [] })

tiny-IsServed : IsServed decode_slice get_object head_object store tiny.bucket_name tiny.key
unfolding parse_checksum from_str
tiny-IsServed = record {
  whole = record { checksum_crc32 = some []; body = some (7 ∷ []) ∷ some (8 ∷ 9 ∷ []) ∷ [] };
  whole_get = refl;
  whole_crc = refl;
  whole_body = (8 ∷ 9 ∷ [], refl, ([], refl, refl));
  range =
      λ last. record { checksum_crc32 = none; body = some (take (suc last) (7 ∷ 8 ∷ 9 ∷ [])) ∷ [] };
  range_get = λ last. refl;
  range_body = λ last. ([], sym (append-nil _), refl);
  about = record { checksum_crc32 = some []; body = [] };
  about_get = refl;
  about_crc = refl;
}

abbrev tiny_entry : EntryFromS3
tiny_entry = record {
  loc = loc_at 0 tiny;
  operation = get;
  bucket_name = tiny.bucket_name;
  key = tiny.key;
}

abbrev entry_buffer : Sink
entry_buffer = record { out = []; room = elem_size (entry_from_s3 tiny_entry) }

resolve_and_write-Wrote_example :
    (d : Dump) × (resolve_and_write decode_slice get_object head_object tiny_entry
      ≡ some (
        d,
        record {
          loc =
              header_with tiny_entry.loc.offset tiny_entry.loc.name tiny_entry.loc.file_size
                some_crc;
        },
      ))
    × Wrote entry_buffer
        (elem_size (entry_from_s3 tiny_entry))
        (d entry_buffer)
        (λ bs. bs ≡ elem_bytes store (entry_from_s3 tiny_entry))
resolve_and_write-Wrote_example =
    resolve_and_write-Wrote decode_slice get_object head_object store tiny_entry entry_buffer
      tiny-IsServed tt (get-IsExact store 0 tiny refl).0 (omega arith)

-- A buffer of ten bytes, of which the last six are still held.
abbrev fresh : SharedBuf
fresh = with_capacity 10

abbrev all_ten : BufSlice
all_ten = record { start_at = 0; slice_length = 10 }

abbrev held : SharedBuf
held = record { len = 10; slices = record { start_at = 4; slice_length = 6 } ∷ [] }

held-Reachable : Reachable held
unfolding with_capacity slice strong_count split
held-Reachable =
    stepped
      (stepped
        (stepped (allocated 10)
          (sliced fresh (record { len = 10; slices = all_ten ∷ [] }) all_ten refl))
        (was_split (record { len = 10; slices = all_ten ∷ [] }) [] all_ten [] 4 refl (omega arith)))
      (dropped
        (record {
          len = 10;
          slices =
              record { start_at = 0; slice_length = 4 }
              ∷ record { start_at = 4; slice_length = 6 }
              ∷ [];
        })
        [] (record { start_at = 0; slice_length = 4 })
        (record { start_at = 4; slice_length = 6 } ∷ []) refl)

Reachable-IsApart_example : IsApart 0 10 held.slices
Reachable-IsApart_example = Reachable-IsApart held-Reachable
