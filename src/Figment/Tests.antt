-- ===== src/Figment/Tests.antt =====
-- The theorems of figment-engine at concrete inputs: records and plans.
mod Upload
mod Heads
use demo_s3_archiving.Prelude.{ℕ, zero, suc, ◌≡◌, refl, ap, arith, Perm}
use demo_s3_archiving.Prelude.{List, [], ◌∷◌, ◌++◌, some, length, All}
use demo_s3_archiving.Bytes.{Byte}
use demo_s3_archiving.ZipReader.{read_local_header, read_central_header, read_end}
use demo_s3_archiving.Figment.ZipFormat.{
  EntryMeta, local_header, local_header_len, central_dir_entry, central_dir_entry_len, end_records,
}
use demo_s3_archiving.Figment.ZipFormat.RoundTrip.{
  read_local_header-local_header, read_central_header-central_dir_entry, read_end-end_records,
}
use demo_s3_archiving.Figment.Plan.{
  FileId, SourceFile, Segment, PartSpec, stream, central_directory, SinglePlan, SizeOf, single_mpu,
  plan_single_mpu, ids, build_plan, sort_by, big_first, small_first, partition,
}
use demo_s3_archiving.Figment.Plan.Contents.{parts_bytes, order_bytes, IsNumbered}
use demo_s3_archiving.Figment.Plan.Sizes.{IsLarge, IsFound}
use demo_s3_archiving.Figment.Plan.Whole.{plan_single_mpu-whole}
use demo_s3_archiving.Figment.Plan.Floor.{plan_single_mpu-IsLarge, sorted, table}
use demo_s3_archiving.Figment.Plan.Offsets.{IsPlaced, plan_single_mpu-IsPlaced}

zeros : ℕ → List Byte
zeros zero = []
zeros (suc n) = 0 ∷ zeros n

length-zeros : (n : ℕ) → length (zeros n) ≡ n
unfolding zeros
length-zeros zero = refl
length-zeros (suc n) = ap suc (length-zeros n)

abbrev meta : EntryMeta
meta = record {
  name = (b'a' ∷ b'.' ∷ b't' ∷ b'x' ∷ b't' ∷ []);
  size = 13;
  crc = 0xDEADBEEF;
  local_header_offset = 5368709120;
}

read_local_header-local_header_example :
    (read_local_header (local_header meta ++ 9 ∷ [])
      ≡ some (
        record { name = (b'a' ∷ b'.' ∷ b't' ∷ b'x' ∷ b't' ∷ []); crc = 0xDEADBEEF; size = 13 },
        9 ∷ [],
      ))
    × (length (local_header meta) ≡ local_header_len (b'a' ∷ b'.' ∷ b't' ∷ b'x' ∷ b't' ∷ []))
read_local_header-local_header_example =
    read_local_header-local_header meta (omega arith) (omega arith) (omega arith) (9 ∷ [])

read_central_header-central_dir_entry_example :
    (read_central_header (central_dir_entry meta ++ 9 ∷ [])
      ≡ some (
        record {
          entry = record {
            name = (b'a' ∷ b'.' ∷ b't' ∷ b'x' ∷ b't' ∷ []);
            crc = 0xDEADBEEF;
            size = 13;
          };
          offset = 5368709120;
        },
        9 ∷ [],
      ))
    × (length (central_dir_entry meta)
        ≡ central_dir_entry_len (b'a' ∷ b'.' ∷ b't' ∷ b'x' ∷ b't' ∷ []) 5368709120)
read_central_header-central_dir_entry_example =
    read_central_header-central_dir_entry meta (omega arith) (omega arith) (omega arith) (9 ∷ [])
      (omega arith)

read_end-end_records_example :
    (read_end (end_records 3000 14000000000 200000 ++ 9 ∷ [])
      ≡ some (
        record {
          entries = 3000;
          directory_size = 200000;
          directory_offset = 14000000000;
          zip64 = some (14000200000, 1);
        },
        9 ∷ [],
      ))
    × (length (end_records 3000 14000000000 200000) ≡ 98)
read_end-end_records_example =
    read_end-end_records 3000 14000000000 200000 (9 ∷ []) (omega arith) (omega arith)

-- Two big files, of which the second is stolen from, and a small one.
abbrev files : List SourceFile
files =
    record { id = 0; key = (b'p' ∷ b'/' ∷ b'a' ∷ []); name = (b'a' ∷ []); size = 12000000 }
    ∷ record { id = 1; key = (b'p' ∷ b'/' ∷ b's' ∷ []); name = (b's' ∷ []); size = 1000 }
    ∷ record { id = 2; key = (b'p' ∷ b'/' ∷ b'b' ∷ []); name = (b'b' ∷ []); size = 11000000 }
    ∷ []

abbrev planned_files : SinglePlan
planned_files =
    build_plan (sort_by big_first (partition files).0) (sort_by small_first (partition files).1)

files-planned : plan_single_mpu files ≡ single_mpu planned_files
unfolding plan_single_mpu partition
files-planned = refl

abbrev header : FileId → List Byte
header id = zeros (local_header_len (table files id).0)

abbrev body : FileId → List Byte
body id = zeros (table files id).1

plan_single_mpu-whole_example :
    (parts_bytes header body (7 ∷ []) planned_files.parts
      ≡ order_bytes header body (7 ∷ []) planned_files.order ++ 7 ∷ [])
    × IsNumbered 1 planned_files.parts
    × Perm planned_files.order (ids files)
plan_single_mpu-whole_example =
    plan_single_mpu-whole header body (7 ∷ []) files planned_files files-planned

abbrev known : SizeOf
known zero = ((b'a' ∷ []), 12000000)
known (suc zero) = ((b's' ∷ []), 1000)
known (suc (suc n)) = ((b'b' ∷ []), 11000000)

plan_single_mpu-IsLarge_example :
    (front : List PartSpec) × (n : ℕ) × (segs : List Segment) × (planned_files.parts
      ≡ front ++ stream n (segs ++ central_directory ∷ []) ∷ [])
    × All (IsLarge (table files)) front
    × All (IsFound (table files)) (sorted files)
plan_single_mpu-IsLarge_example =
    plan_single_mpu-IsLarge known files planned_files ((refl, (refl, (refl, tt)))) files-planned

plan_single_mpu-IsPlaced_example :
    All
      (IsPlaced header body (7 ∷ []) (parts_bytes header body (7 ∷ []) planned_files.parts))
      planned_files.entries
plan_single_mpu-IsPlaced_example =
    plan_single_mpu-IsPlaced header body (7 ∷ []) files planned_files
      (λ id. (length-zeros (local_header_len (table files id).0), length-zeros (table files id).1))
      files-planned
