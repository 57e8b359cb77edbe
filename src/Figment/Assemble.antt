-- ===== src/Figment/Assemble.antt =====
-- contenders/rust/figment-engine/src/aws/assemble.rs: the parts of a plan are realised side by side.
-- The answers of S3 are arguments; where a call is tried again, they depend on the attempt.
pub mod Stream
pub mod Arrival
pub mod Order
pub mod Checksums
use demo_s3_archiving.Prelude.{ℕ, zero, suc, ◌+◌, ◌-◌, Bool, true, false, ◌||◌, ◌&&◌}
use demo_s3_archiving.Prelude.{
  Option, none, some, List, [], ◌∷◌, ◌++◌, length, ltb, leb, ◌==◌, if◌then◌else◌,
}
use demo_s3_archiving.Bytes.{Byte, Text, codes, contains_text}
use demo_s3_archiving.Figment.ZipFormat.{
  EntryMeta, local_header, entry_total_len, central_dir_entry, end_records,
}
use demo_s3_archiving.Figment.Plan.{
  FileId, Entry, Segment, streamed_file, copied_file_header, streamed_big_prefix, central_directory,
  PartSpec, copy, stream, SinglePlan,
}
use demo_s3_archiving.Figment.Crc.{decode_s3_crc32}

-- `AssembleError`; an error of the SDK is the text that it is shown as. `panicked` stands for a
-- panic.
pub data AssembleError : Type 0 where
  s3 : Text → AssembleError
  no_upload_id : AssembleError
  no_etag : Text → AssembleError
  bad_crc : Text → AssembleError
  byte_stream : Text → AssembleError
  panicked : AssembleError

pub data Result (A : Type 0) : Type 0 where
  ok : A → Result A
  err : AssembleError → Result A

infixl 5 ◌>>=◌
abbrev pub ◌>>=◌ : {A B : Type 0} → Result A → (A → Result B) → Result B
ok a >>= f = f a
err e >>= f = err e

unfoldable pub is_retryable : AssembleError → Bool
unfolding contains_text
is_retryable (byte_stream e) = true
is_retryable (s3 e) =
    let s = codes "s3 error: " ++ e in
    contains_text s (codes "SlowDown")
    || contains_text s (codes "Throttl")
    || contains_text s (codes "ServiceUnavailable")
    || contains_text s (codes "Service Unavailable")
    || contains_text s (codes "RequestTimeout")
    || contains_text s (codes "InternalError")
    || contains_text s (codes "(500)")
    || contains_text s (codes "(503)")
is_retryable no_upload_id = false
is_retryable (no_etag what) = false
is_retryable (bad_crc what) = false
is_retryable panicked = false

abbrev pub max_attempts : ℕ
max_attempts = 5

-- The loop of `with_retry`, from the attempt of number `attempt`, which `left` more may follow. The
-- sleeps in between are left out.
unfoldable pub retry_from : {A : Type 0} → ℕ → ℕ → (ℕ → Result A) → Result A
retry_from zero attempt op = op attempt
retry_from (suc left) attempt op = elim (op attempt) [
  | ok v ↦ ok v
  | err e ↦ elim (is_retryable e) [ false ↦ err e | true ↦ retry_from left (suc attempt) op ]
]

unfoldable pub with_retry : {A : Type 0} → (ℕ → Result A) → Result A
unfolding retry_from
with_retry op = retry_from (max_attempts - 1) 0 op

-- `plan.entries[id]`, which panics without the entry.
unfoldable pub entry_at : List (FileId × Entry) → FileId → Result Entry
entry_at [] id = err panicked
entry_at ((other, e) ∷ entries) id = if other == id then ok e else entry_at entries id

unfoldable pub entry_meta : Entry → ℕ → EntryMeta
entry_meta e crc = record {
  name = e.name;
  size = e.size;
  crc = crc;
  local_header_offset = e.local_header_offset;
}

-- `entry.crc.ok_or_else(..)?`
unfoldable pub crc_of : Entry → Result ℕ
crc_of e = elim e.crc [ none ↦ err (bad_crc e.name) | some crc ↦ ok crc ]

unfoldable pub object_key : Text → Text → Text
object_key files_prefix name = files_prefix ++ b'/' ∷ name

-- The loop over the chunks of a body.
unfoldable pub read_chunks : List (Result (List Byte)) → Result (List Byte)
read_chunks [] = ok []
read_chunks (err e ∷ chunks) = err e
read_chunks (ok bytes ∷ chunks) = read_chunks chunks >>= λ rest. ok (bytes ++ rest)

unfoldable pub total_len : List (FileId × Entry) → List FileId → Result ℕ
unfolding entry_at
total_len entries [] = ok 0
total_len entries (id ∷ order) = entry_at entries id >>= λ e.
    total_len entries order >>= λ rest. ok (entry_total_len e.name e.size + rest)

unfoldable pub build_records : List (FileId × Entry) → List FileId → Result (List Byte × ℕ)
unfolding entry_at crc_of entry_meta
build_records entries [] = ok ([], 0)
build_records entries (id ∷ order) = entry_at entries id >>= λ e. crc_of e >>= λ crc.
    build_records entries order >>= λ r.
    let rec = central_dir_entry (entry_meta e crc) in ok (rec ++ r.0, length rec + r.1)

unfoldable pub build_central_directory : SinglePlan → Result (List Byte)
unfolding total_len build_records
build_central_directory plan = total_len plan.entries plan.order >>= λ cd_offset.
    build_records plan.entries plan.order >>= λ r.
    ok (r.0 ++ end_records (length plan.order) cd_offset r.1)

-- `get` is the answer to a GET of a key, of the whole object or of a range by its first and last
-- byte.
module _ (get : Text → Option (ℕ × ℕ) → Result (List (Result (List Byte)))) where
  unfoldable pub get_object_bytes : Text → Result (List Byte)
  unfolding read_chunks
  get_object_bytes key = get key none >>= read_chunks

  unfoldable pub get_object_range_bytes : Text → ℕ → ℕ → Result (List Byte)
  unfolding read_chunks
  get_object_range_bytes key start len = get key (some (start, start + len - 1)) >>= read_chunks

  module _ (files_prefix : Text) (plan : SinglePlan) where
    -- One round of the loop of `build_stream_part_bytes`.
    unfoldable pub segment_part : Segment → Result (List Byte)
    unfolding entry_at crc_of entry_meta object_key get_object_bytes get_object_range_bytes
    segment_part (streamed_file id) = entry_at plan.entries id >>= λ entry.
        get_object_bytes (object_key files_prefix entry.name) >>= λ body.
        crc_of entry >>= λ crc. ok (local_header (entry_meta entry crc) ++ body)
    segment_part (copied_file_header id) = entry_at plan.entries id >>= λ entry.
        crc_of entry >>= λ crc. ok (local_header (entry_meta entry crc))
    segment_part (streamed_big_prefix id len) = entry_at plan.entries id >>= λ entry.
        get_object_range_bytes (object_key files_prefix entry.name) 0 len
    segment_part central_directory = build_central_directory plan

    unfoldable pub build_stream_part_bytes : List Segment → Result (List Byte)
    unfolding segment_part
    build_stream_part_bytes [] = ok []
    build_stream_part_bytes (seg ∷ segments) = segment_part seg >>= λ front.
        build_stream_part_bytes segments >>= λ rest. ok (front ++ rest)

-- What is asked of S3 for a part: to take bytes, or to copy an object, whole or a range of it.
pub data PartRequest : Type 0 where
  upload_part : List Byte → PartRequest
  upload_part_copy : Text → Option (ℕ × ℕ) → PartRequest

-- `CompletedPart`, with the request that it comes from.
pub record CompletedPart : Type 0 where
  pub part_number : ℕ
  pub e_tag : Text
  pub request : PartRequest

-- `completed.sort_by_key(|p| p.part_number())`
unfoldable pub insert_part : CompletedPart → List CompletedPart → List CompletedPart
insert_part p [] = p ∷ []
insert_part p (q ∷ parts) =
    if leb p.part_number q.part_number then p ∷ q ∷ parts else q ∷ insert_part p parts

unfoldable pub sort_parts : List CompletedPart → List CompletedPart
unfolding insert_part
sort_parts [] = []
sort_parts (p ∷ parts) = insert_part p (sort_parts parts)

-- The range of a copy: all of the object, or what is behind a streamed prefix.
unfoldable pub copy_range : ℕ → ℕ → Option (ℕ × ℕ)
copy_range copy_from size = if ltb 0 copy_from then some (copy_from, size - 1) else none

-- `get` and `send` are the answers of S3 to the GETs and to the request of a part, by the attempt.
-- `send` is the tag, if there is one.
module _ (get : ℕ → Text → Option (ℕ × ℕ) → Result (List (Result (List Byte))))
    (send : ℕ → ℕ → PartRequest → Result (Option Text)) (bucket files_prefix : Text)
    (plan : SinglePlan) where
  unfoldable pub sent : ℕ → ℕ → PartRequest → Text → Result CompletedPart
  sent attempt part_number request what = send attempt part_number request >>= λ tag. elim tag [
    | none ↦ err (no_etag what)
    | some e_tag ↦ ok (record { part_number = part_number; e_tag = e_tag; request = request })
  ]

  unfoldable pub attempt_part : PartSpec → ℕ → Result CompletedPart
  unfolding entry_at object_key build_stream_part_bytes sent copy_range
  attempt_part (copy part_number id copy_from) attempt = entry_at plan.entries id >>= λ entry.
      sent attempt part_number
        (upload_part_copy (bucket ++ b'/' ∷ object_key files_prefix entry.name)
          (copy_range copy_from entry.size))
        (codes "upload_part_copy")
  attempt_part (stream part_number segments) attempt =
      build_stream_part_bytes (get attempt) files_prefix plan segments >>= λ bytes.
      sent attempt part_number (upload_part bytes) (codes "upload_part")

  -- The parts in the order in which they are done; the first error ends the loop.
  unfoldable pub realise_parts : List PartSpec → Result (List CompletedPart)
  unfolding with_retry attempt_part
  realise_parts [] = ok []
  realise_parts (part ∷ arrival) = with_retry (attempt_part part) >>= λ p.
      realise_parts arrival >>= λ completed. ok (p ∷ completed)

  -- What is handed to the completion of the upload.
  unfoldable pub assemble_parts : List PartSpec → Result (List CompletedPart)
  unfolding realise_parts sort_parts
  assemble_parts arrival = realise_parts arrival >>= λ completed. ok (sort_parts completed)
