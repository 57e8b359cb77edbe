-- ===== src/Figment/Assemble/Checksums.antt =====
-- contenders/rust/figment-engine/src/aws/assemble.rs: the checksums of the objects of a plan, which
-- are asked for side by side. The answers of S3 to the HEADs are an argument.
pub mod Filled
pub mod Directory
use demo_s3_archiving.Prelude.{ℕ, Option, none, some, List, [], ◌∷◌, map, ◌==◌, if◌then◌else◌}
use demo_s3_archiving.Bytes.{Text}
use demo_s3_archiving.Figment.Plan.{FileId, Entry, SinglePlan}
use demo_s3_archiving.Figment.Crc.{decode_s3_crc32}
use demo_s3_archiving.Figment.Assemble.{
  bad_crc, Result, ok, err, ◌>>=◌, with_retry, entry_at, object_key,
}

-- A HEAD that is to be made: the id and the key of its object.
abbrev pub Job : Type 0
Job = FileId × Text

-- `jobs`, which panics where an id of the order has no entry.
unfoldable pub jobs_of : Text → List (FileId × Entry) → List FileId → Result (List Job)
unfolding entry_at object_key
jobs_of files_prefix entries [] = ok []
jobs_of files_prefix entries (id ∷ order) = entry_at entries id >>= λ e.
    jobs_of files_prefix entries order >>= λ jobs. ok ((id, object_key files_prefix e.name) ∷ jobs)

-- `e.crc = Some(crc)`
unfoldable pub filled_entry : Entry → ℕ → Entry
filled_entry e crc = record {
  id = e.id;
  name = e.name;
  size = e.size;
  local_header_offset = e.local_header_offset;
  crc = some crc;
  streamed = e.streamed;
}

-- `if let Some(e) = plan.entries.get_mut(&id)`
unfoldable pub fill_entry : FileId → ℕ → List (FileId × Entry) → List (FileId × Entry)
unfolding filled_entry
fill_entry id crc [] = []
fill_entry id crc ((other, e) ∷ entries) =
    if other == id
    then (other, filled_entry e crc) ∷ entries
    else (other, e) ∷ fill_entry id crc entries

-- `head` is the answer of S3 to a HEAD of a key, by the attempt: the stored checksum, if there is
-- one. `shown_id` is the `Debug` text of an id.
module _ (head : ℕ → Text → Result (Option Text)) (shown_id : FileId → Text) where
  unfoldable pub head_job : Job → Result (FileId × Option Text)
  unfolding with_retry
  head_job job = with_retry (λ attempt. head attempt job.1 >>= λ crc_b64. ok (job.0, crc_b64))

  unfoldable pub crc_from : FileId → Option Text → Result ℕ
  crc_from id none = err (bad_crc (shown_id id))
  crc_from id (some b64) = elim (decode_s3_crc32 b64) [
    | none ↦ err (bad_crc (shown_id id))
    | some crc ↦ ok crc
  ]

  -- The loop over the results.
  unfoldable pub fill_entries :
      List (Result (FileId × Option Text)) → List (FileId × Entry) → Result (List (FileId × Entry))
  unfolding crc_from fill_entry
  fill_entries [] entries = ok entries
  fill_entries (res ∷ results) entries =
      res >>= λ r. crc_from r.0 r.1 >>= λ crc. fill_entries results (fill_entry r.0 crc entries)

  -- `arrive` is the order in which the HEADs of the jobs are done.
  unfoldable pub fill_crcs : Text → (List Job → List Job) → SinglePlan → Result SinglePlan
  unfolding jobs_of head_job fill_entries
  fill_crcs files_prefix arrive plan = jobs_of files_prefix plan.entries plan.order >>= λ jobs.
      fill_entries (map head_job (arrive jobs)) plan.entries >>= λ entries.
      ok (record plan { entries = entries })
