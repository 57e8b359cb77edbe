-- ===== src/Figment/Assemble/Checksums/Directory.antt =====
-- The central directory of a plan whose checksums have been filled in.
use demo_s3_archiving.Prelude.{ℕ, ◌+◌, ◌≡◌, refl, inl, Option, List, [], ◌∷◌, ◌++◌, length, All}
use mathlib.Core.List.{Permᴰ}
use demo_s3_archiving.Bytes.{Byte, Text}
use demo_s3_archiving.Figment.ZipFormat.{
  local_header_len, entry_total_len, central_dir_entry, end_records,
}
use demo_s3_archiving.Figment.Plan.{FileId, Entry, SinglePlan}
use demo_s3_archiving.Figment.Assemble.{
  AssembleError, Result, ok, ◌>>=◌, entry_at, entry_meta, crc_of, total_len, build_records,
  build_central_directory,
}
use demo_s3_archiving.Figment.Assemble.Stream.{Ends, Ends->>=}
use demo_s3_archiving.Figment.Assemble.Checksums.{Job, fill_crcs}
use demo_s3_archiving.Figment.Assemble.Checksums.Filled.{IsFilled, IsHeaded, job_of, fill_crcs-Ends}

-- The records of the files of an order, and what their local headers, of 30 bytes and the name, and
-- their bodies take.
module _ (original : FileId → Entry) (sum : FileId → ℕ) where
  abbrev pub record_of : FileId → List Byte
  record_of id = central_dir_entry (record {
    name = (original id).name;
    size = (original id).size;
    crc = sum id;
    local_header_offset = (original id).local_header_offset;
  })

  abbrev pub records : List FileId → List Byte
  records [] = []
  records (id ∷ order) = record_of id ++ records order

  abbrev pub records_len : List FileId → ℕ
  records_len [] = 0
  records_len (id ∷ order) = length (record_of id) + records_len order

  abbrev pub files_len : List FileId → ℕ
  files_len [] = 0
  files_len (id ∷ order) = entry_total_len (original id).name (original id).size + files_len order

module _ (P : AssembleError → Type 0) (head : ℕ → Text → Result (Option Text))
    (shown_id : FileId → Text) (files_prefix : Text) (original : FileId → Entry)
    (sum : FileId → ℕ) where
  build_records-ok :
      (entries : List (FileId × Entry)) (order : List FileId)
      → All (IsFilled P head shown_id files_prefix original sum entries) order
      → build_records entries order
        ≡ ok (records original sum order, records_len original sum order)
  unfolding build_records crc_of entry_meta
  build_records-ok entries [] h = refl
  build_records-ok entries (id ∷ order) (e, h) =
      rw (build_records, e, build_records-ok entries order h) refl

  total_len-ok :
      (entries : List (FileId × Entry)) (order : List FileId)
      → All (IsFilled P head shown_id files_prefix original sum entries) order
      → total_len entries order ≡ ok (files_len original sum order)
  unfolding total_len entry_total_len local_header_len
  total_len-ok entries [] h = refl
  total_len-ok entries (id ∷ order) (e, h) = rw (total_len, e, total_len-ok entries order h) refl

  -- The checksums of a plan filled in, in whatever order the HEADs are answered, and then its central
  -- directory built: these are the record of every file of the order, with the name, the size and the
  -- offset of its entry and the checksum that S3 has stored, and the end records with their number, the place behind all the files and their length;
  -- or the first call ends with an error of which `P` holds. Every id of the order has an entry, and
  -- every object has a checksum that can be decoded.
  pub fill_crcs-build_central_directory :
      (plan : SinglePlan) (arrive : List Job → List Job)
      → ((jobs : List Job) → Permᴰ (arrive jobs) jobs)
      → All (λ id. entry_at plan.entries id ≡ ok (original id)) plan.order
      → All
          (λ id.
            IsHeaded P head shown_id files_prefix original sum
              (job_of P head shown_id files_prefix original sum id))
          plan.order
      → Ends P
          (λ bytes.
            bytes
            ≡ records original sum plan.order
              ++ end_records
                  (length plan.order)
                  (files_len original sum plan.order)
                  (records_len original sum plan.order))
          (fill_crcs head shown_id files_prefix arrive plan >>= build_central_directory)
  unfolding build_central_directory
  fill_crcs-build_central_directory plan arrive perm found headed =
      Ends->>= P _ _ _ _
        (fill_crcs-Ends P head shown_id files_prefix original sum plan arrive perm found headed)
        (λ filled (all, same, parts).
          rw
            (
              same,
              total_len-ok filled.entries plan.order all,
              build_records-ok filled.entries plan.order all,
            )
            (inl (_, refl, refl)))
