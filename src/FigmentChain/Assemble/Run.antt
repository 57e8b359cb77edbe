-- ===== src/FigmentChain/Assemble/Run.antt =====
-- assemble_chain.rs: `run`, which heads the objects for their CRCs, lets the tasks of the segments
-- work and stitches their objects together. The calls of side-by-side tasks are taken one task after
-- the other, in an order that is an argument. The task of a segment starts once the CRCs are there.
use demo_s3_archiving.Prelude.{ℕ, ◌+◌, Option, none, some, List, [], ◌∷◌, ◌++◌, length}
use demo_s3_archiving.Bytes.{Text}
use demo_s3_archiving.Figment.Crc.{decode_s3_crc32}
use demo_s3_archiving.Figment.Plan.{FileId}
use demo_s3_archiving.FigmentChain.RateLimit.{low}
use demo_s3_archiving.FigmentChain.PlanChain.{Segment, ChainPlan}
use demo_s3_archiving.FigmentChain.Assemble.{
  s3, bad_crc, Result, ok, err, Machine, attempt_once, with_retry, with_retry_governed,
}
use demo_s3_archiving.FigmentChain.Assemble.Service.{
  done, failed, Client, CompletedPart, create_mpu, upload_part, upload_part_copy, complete_mpu,
}
use demo_s3_archiving.FigmentChain.Assemble.Build.{
  CrcStore, put, Task, ◌>>=◌, lift, call, entry_at, source_key, segment_key, build_segment_object,
  build_central_directory,
}

-- `crc_b64.as_deref().and_then(decode_s3_crc32).ok_or_else(..)`
unfoldable pub crc_from : Text → Option Text → Result ℕ
crc_from shown_id none = err (bad_crc shown_id)
crc_from shown_id (some b64) = elim (decode_s3_crc32 b64) [
  | none ↦ err (bad_crc shown_id)
  | some crc ↦ ok crc
]

-- The loop over the results of the tasks.
unfoldable pub collect_parts : List (Result CompletedPart) → Result (List CompletedPart)
collect_parts [] = ok []
collect_parts (err e ∷ results) = err e
collect_parts (ok part ∷ results) = elim (collect_parts results) [
  | err e ↦ err e
  | ok parts ↦ ok (part ∷ parts)
]

-- `shown_id` is the `Debug` text of an id.
module _ (client : Client) (bucket files_prefix archive_key : Text) (shown_id : FileId → Text)
    (plan : ChainPlan) where
  unfoldable pub head : Text → client.World → Result (Option Text) × client.World
  head key w =
      let (r, w') = client.head_object key w in
      (elim r [ done b64 ↦ ok b64 | failed t ↦ err (s3 t) ], w')

  unfoldable pub head_crc : FileId → Task client ℕ
  head_crc id = ◌>>=◌ client (lift client (entry_at plan.entries id)) (λ entry.
      ◌>>=◌ client (call client (head (source_key files_prefix entry.name)))
        (λ crc_b64. lift client (crc_from (shown_id id) crc_b64)))

  -- The producer of the CRCs: all HEADs are made, and the first error is returned.
  unfoldable pub produce_crcs :
      List FileId
      → CrcStore
      → Machine client.World
      → Result (Unit {0}) × CrcStore × Machine client.World
  unfolding head_crc
  produce_crcs [] crcs s = (ok tt, crcs, s)
  produce_crcs (id ∷ order) crcs s =
      let (r, s') = head_crc id s in
      elim r [
        | ok crc ↦ produce_crcs order (put id crc crcs) s'
        | err e ↦ let (r', crcs', s'') = produce_crcs order crcs s' in (err e, crcs', s'')
      ]

  -- The task of a segment: it builds the object and copies it into the archive.
  unfoldable pub segment_task : CrcStore → Text → Segment → Task client CompletedPart
  segment_task crcs upload_id seg =
      let seg_key = segment_key archive_key seg.index in
      ◌>>=◌ client (build_segment_object client bucket files_prefix plan crcs seg seg_key) (λ u.
        with_retry_governed low (
          upload_part_copy client archive_key upload_id (seg.index + 1) (bucket ++ b'/' ∷ seg_key)
            none))

  unfoldable pub run_tasks :
      CrcStore
      → Text
      → List Segment
      → Machine client.World
      → List (Result CompletedPart) × Machine client.World
  unfolding segment_task
  run_tasks crcs upload_id [] s = ([], s)
  run_tasks crcs upload_id (seg ∷ schedule) s =
      let (r, s') = segment_task crcs upload_id seg s in
      let (results, s'') = run_tasks crcs upload_id schedule s' in (r ∷ results, s'')

  -- What follows the CRCs: the segments, the central directory and the completion.
  unfoldable pub finish_run : CrcStore → Text → List Segment → Task client (Unit {0})
  unfolding run_tasks
  finish_run crcs upload_id schedule s =
      let (results, s') = run_tasks crcs upload_id schedule s in
      (◌>>=◌ client (lift client (build_central_directory plan crcs)) (λ cd_bytes.
          ◌>>=◌ client
            (with_retry
              (upload_part client archive_key upload_id (length plan.segments + 1) cd_bytes))
            (λ cd_part. ◌>>=◌ client (lift client (collect_parts results)) (λ parts.
              attempt_once (complete_mpu client archive_key upload_id (cd_part ∷ parts))))))
        s'

  -- `run`, with the order in which the segments are done.
  unfoldable pub run : List Segment → Task client (Unit {0})
  unfolding produce_crcs finish_run
  run schedule = ◌>>=◌ client (attempt_once (create_mpu client archive_key)) (λ upload_id s.
      let (r, crcs, s') = produce_crcs plan.order (λ id. none) s in
      elim r [ err e ↦ (err e, s') | ok u ↦ finish_run crcs upload_id schedule s' ])
