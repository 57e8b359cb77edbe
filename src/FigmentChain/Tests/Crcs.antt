-- ===== src/FigmentChain/Tests/Crcs.antt =====
-- The producer of the CRCs at a concrete input.
use demo_s3_archiving.Prelude.{◌≡◌, refl, true, none, some, [], ◌∷◌, All}
use demo_s3_archiving.Bytes.{codes}
use demo_s3_archiving.Figment.Crc
use demo_s3_archiving.Figment.Plan
use demo_s3_archiving.FigmentChain.PlanChain
use demo_s3_archiving.FigmentChain.Assemble.{
  Result, ok, Machine, attempt_governed, with_retry_governed,
}
use demo_s3_archiving.FigmentChain.Assemble
use demo_s3_archiving.FigmentChain.Assemble.Service.{Client, done}
use demo_s3_archiving.FigmentChain.Assemble.Build.{
  build_segment_object, CrcStore, all_present, segment_crc_ids,
}
use demo_s3_archiving.FigmentChain.Assemble.Build
use demo_s3_archiving.FigmentChain.Assemble.Run.{produce_crcs, head_crc}
use demo_s3_archiving.FigmentChain.Assemble.Run
use demo_s3_archiving.FigmentChain.Assemble.Faults.{Comes}
use demo_s3_archiving.FigmentChain.Assemble.Faults.Planned.{build_segment_object-Comes}
use demo_s3_archiving.FigmentChain.Assemble.Waiting.{produce_crcs-all_present}
use demo_s3_archiving.FigmentChain.Tests.Plan.{files, plan, files-planned}

-- A bucket of which all objects have the checksum 0.
abbrev checked : Client
checked = record {
  World = Unit;
  create_multipart_upload = λ key w. (done (some []), w);
  upload_part = λ key uid n bytes w. (done (some []), w);
  upload_part_copy = λ key uid n source range w. (done (some []), w);
  complete_multipart_upload = λ key uid ps w. (done tt, w);
  get_object = λ key range w. (done [], w);
  head_object = λ key w. (done (some (codes "AAAAAA==")), w);
}

abbrev produced : Result (Unit {0}) × CrcStore × Machine Unit
produced =
    produce_crcs checked (b'b' ∷ []) (b'f' ∷ []) (b'z' ∷ []) (λ id. []) plan plan.order (λ id. none)
      (record { world = tt; events = [] })

produced_ok : produced ≡ (ok tt, produced.1, produced.2)
unfolding produce_crcs head_crc Run.head Run.crc_from PlanChain.plan_segment_chain Plan.partition
    PlanChain.build_chain PlanChain.entries_of PlanChain.add_segments PlanChain.make_buckets
    PlanChain.spread Plan.sort_by Plan.insert_by PlanChain.id_first PlanChain.push_at Plan.big_first
    PlanChain.add_segment Plan.compute_offsets Plan.offsets_from Plan.contains PlanChain.new_bucket
    Crc.base64_decode Crc.chunk_bytes Crc.decode_chunk Crc.decode_chunks Crc.decode_s3_crc32
    Crc.four_bytes Crc.is_space Crc.trim Crc.trim_start Crc.val Crc.val_or_pad Plan.insert_size
    Plan.insert_sizes Build.call Build.entry_at Build.lift Build.put Build.source_key Build.◌>>=◌
    attempt_governed Assemble.attempt_once Assemble.emit Assemble.retry_loop with_retry_governed
produced_ok = refl

produce_crcs-all_present_example :
    All (λ seg. all_present produced.1 (segment_crc_ids seg) ≡ true) plan.segments
produce_crcs-all_present_example =
    produce_crcs-all_present checked (b'b' ∷ []) (b'f' ∷ []) (b'z' ∷ []) (λ id. []) plan files
      (λ id. none) produced.1 (record { world = tt; events = [] }) produced.2 files-planned
      produced_ok

build_segment_object-Comes_example :
    All
      (λ seg.
        Comes
          (build_segment_object checked
            (b'b' ∷ [])
            (b'f' ∷ [])
            plan
            produced.1
            seg
            (b's' ∷ [])
            (record { world = tt; events = [] })).0)
      plan.segments
build_segment_object-Comes_example =
    build_segment_object-Comes checked (b'b' ∷ []) (b'f' ∷ []) produced.1 files plan
      (λ seg. b's' ∷ []) (record { world = tt; events = [] }) files-planned
      (produce_crcs-all_present checked (b'b' ∷ []) (b'f' ∷ []) (b'z' ∷ []) (λ id. []) plan files
        (λ id. none) produced.1 (record { world = tt; events = [] }) produced.2 files-planned
        produced_ok)
