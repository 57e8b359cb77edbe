-- ===== src/Lib.antt =====
-- Archivers on Amazon S3: programs that put many objects into one ZIP archive, which is uploaded as
-- a multipart upload whose large pieces S3 copies itself. S3 takes a part of fewer than 5 MiB only at
-- the end, so that the programs plan the parts from the sizes of the objects alone, and every offset
-- in the archive is computed before a byte is read.
--
-- contenders/rust/jrodon-v3
--   JrodonV3/ZipFormat: src/zip_format.rs. `dump` writes into a mutable slice, which is Bytes/Sink;
--     the write of a slice never fails, so the Results are left out. Integers are exact numbers where
--     they are sums of sizes, and casts wrap. The base64 crate is an argument of `from_str`.
--   JrodonV3/Files, JrodonV3/Layout: src/zip_layout.rs, with FileInfo of src/s3_ops.rs. The VecDeque
--     is a list, front first. `duo_pass` and `single_pass` have fuel, the number of queued entries:
--     each round takes at least one entry off the queue.
--   JrodonV3/PartJob, JrodonV3/Jobs: src/part_executor/part_builder.rs, the types of
--     src/part_executor/mod.rs and ZipLayout::into_part_jobs. The builder's two panics are `none`. The
--     parts stand newest first until `finalize`.
--   JrodonV3/Jobs/Stream is the meaning of a list of jobs: the bytes that they upload, given the
--     objects of S3 and their checksums as functions.
--   JrodonV3/Resolve, JrodonV3/Execute: `resolve_and_write` of an entry and of the central directory
--     in src/part_executor/mod.rs. The answers of S3 and the order in which the headers come out of
--     the channel are arguments; a BTreeMap is a list by rising keys.
--   JrodonV3/SharedBuffer: src/shared_buffer.rs, the places of the slices of a part's buffer as a step
--     relation. The bytes behind the unsafe pointers are not modelled, nor are other clones of the
--     buffer's handle: the test of the reference count and the clone behind it are one step.
--   The schedule of the jobs and the sub-workers (src/lambda_executor.rs) are not modelled.
--
-- contenders/rust/figment-engine
--   Figment/ZipFormat: src/engine/zip_format.rs. Each function returns the bytes that the source
--     pushes onto its vector.
--   Figment/Plan: src/engine/plan.rs. The state of the loops of `plan_single_mpu` is the record
--     Planning, with the peekable iterator over the small files as the list that is left. Hash maps
--     are functions or association lists.
--   Figment/Crc: src/engine/crc.rs.
--   Figment/Assemble: src/aws/assemble.rs, from the plan with its checksums to the list of parts that
--     completes the upload. The answers of S3 are arguments, by the attempt; the two pools are an order
--     in which the parts are done. A retry recurses on the attempts that are left.
--     Assemble/Checksums is `fill_crcs`, which asks for the checksums before, with the order in which
--     the answers come as an argument.
--   The calls that open and complete an upload, the listing of the objects and the entry point (src/aws,
--   src/main.rs) are not modelled.
--
-- contenders/rust/figment-engine-chain
--   FigmentChain/RateLimit: src/rate_limit.rs, as a step relation on the counters. The floating point
--     sum of the refill is an argument.
--   FigmentChain/PlanChain: src/plan_chain.rs. The state of the loop over the buckets is the record
--     Chaining. A panic of an `expect` is an outcome of its own.
--   FigmentChain/Assemble: src/assemble_chain.rs. The client of S3 is a record of operations on a state
--     (Assemble/Service), and Assemble/Interface states what the code relies on of it. A retry loop
--     recurses on the attempts that are left. What a task tells the governor and how long it sleeps is
--     a list of events; the jitter of the sleeps is left out. Assemble/Build is the building of a
--     segment's object, and of the central directory. The subtraction in `seg.links.len() - 1` is one
--     that is checked for overflow, so that a segment without links is a panic.
--     Assemble/Run is `run`: the HEADs are made in the order of the plan, and the tasks of the segments,
--     which the source lets work side by side, one after the other in an order that is an argument.
--     What a run uploads as a whole is not stated; what its tasks do is, one by one.
--
-- ZipReader is a reader of ZIP records written from the format's description, with which the records
-- of both programs are compared. Prelude holds Boolean tests, lists over the native numbers, sums,
-- and permutations by sums.
--
-- Not modelled: contenders/rust/jrodon and contenders/rust/jrodon-v2, the contenders in other
-- languages, the benchmark tools, and all calls of the AWS SDK.
pub mod Prelude
pub mod Bytes
pub mod ZipReader
pub mod JrodonV3
pub mod Figment
pub mod FigmentChain
