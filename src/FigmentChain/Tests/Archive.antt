-- ===== src/FigmentChain/Tests/Archive.antt =====
-- The theorems of the assembly of the chain at concrete inputs.
use demo_s3_archiving.Prelude.{ℕ, zero, suc, ◌+◌, ◌≡◌, ◌≢◌, refl, sym, ap, ◌∙◌, arith, inl, inr}
use demo_s3_archiving.Prelude.{
  Bool, true, false, ◌&&◌, Bool-cases, ◌==◌, Option, none, some, List, [], ◌∷◌, ◌++◌, append-nil,
  drop, All, if◌then◌else◌,
}
use demo_s3_archiving.Bytes.{Byte, Text, codes}
use demo_s3_archiving.Figment.ZipFormat.{EntryMeta, local_header}
use demo_s3_archiving.Figment.Plan.{FileId}
use demo_s3_archiving.FigmentChain.RateLimit.{high}
use demo_s3_archiving.FigmentChain.PlanChain.{
  header_of, body_of, bootstrap, forward_then_append, Segment, ChainPlan,
}
use demo_s3_archiving.FigmentChain.PlanChain.Contents.{chain_bytes}
use demo_s3_archiving.FigmentChain.Assemble.Build.{
  CrcStore, entry_at, meta_of, source_key, link_ids, piece_id, insert_id, sort_ids, dedup,
  dedup_after, segment_crc_ids, build_segment_object,
}
use demo_s3_archiving.FigmentChain.Assemble.Retry.{
  Tries, IsOver, again, waits, acquires, retries, waited, with_retry_governed-attempts,
}
use demo_s3_archiving.FigmentChain.Assemble.Objects.{IsKnown}
use demo_s3_archiving.FigmentChain.Assemble.Segments.{IsApart, build_segment_object-object}
use demo_s3_archiving.FigmentChain.Assemble.Directory.{IsDirected, build_central_directory-outcome}
use demo_s3_archiving.FigmentChain.Assemble
use demo_s3_archiving.FigmentChain.Assemble.Build
use demo_s3_archiving.FigmentChain.Assemble.Service
use demo_s3_archiving.FigmentChain.Tests.Plan
use demo_s3_archiving.FigmentChain.Assemble.{
  Machine, Result, ok, err, s3, attempt_governed, with_retry_governed,
}
use demo_s3_archiving.FigmentChain.Assemble.Service.{
  Answer, done, Client, CompletedPart, read_chunks,
}
use demo_s3_archiving.FigmentChain.Assemble.Interface.{IsService, slice, joined}

same_text : Text → Text → Bool
same_text [] [] = true
same_text [] (y ∷ ys) = false
same_text (x ∷ xs) [] = false
same_text (x ∷ xs) (y ∷ ys) = (x == y) && same_text xs ys

same_text_refl : (xs : Text) → same_text xs xs ≡ true
unfolding same_text
same_text_refl [] = refl
same_text_refl (x ∷ xs) = let e : (x == x) ≡ true = ground arith in rw (e, same_text_refl xs) refl

same_text_eq : (xs ys : Text) → same_text xs ys ≡ true → xs ≡ ys
unfolding same_text
same_text_eq [] [] h = refl
same_text_eq [] (y ∷ ys) h = absurd (cc h)
same_text_eq (x ∷ xs) [] h = absurd (cc h)
same_text_eq (x ∷ xs) (y ∷ ys) h = elim (Bool-cases (x == y)) [
  | inl e ↦
      let same : x ≡ y = ground (arith, e) in
      let rest = same_text_eq xs ys (rw e at h) in cc (same, rest)
  | inr e ↦ absurd (cc (rw e at h))
]

-- A bucket in memory, with one upload at a time.
record Memory : Type 0 where
  stored : Text → Option (List Byte)
  uploaded : ℕ → Option (List Byte)

set_part : ℕ → List Byte → Memory → Memory
set_part n bytes w = record w { uploaded = λ m. if n == m then some bytes else w.uploaded m }

copied : Option (ℕ × ℕ) → List Byte → List Byte
copied none bytes = bytes
copied (some (start, last)) bytes = slice start last bytes

copy_part : ℕ → Option (ℕ × ℕ) → Option (List Byte) → Memory → Memory
unfolding set_part copied
copy_part n range none w = w
copy_part n range (some bytes) w = set_part n (copied range bytes) w

read_body : ℕ × ℕ → Option (List Byte) → List (Answer (List Byte))
read_body range none = []
read_body (start, last) (some bytes) = done (slice start last bytes) ∷ []

finish_upload : Text → List CompletedPart → Memory → Memory
finish_upload key ps w = record w {
  stored = λ k. if same_text key k then joined w.uploaded ps else w.stored k;
}

-- The bucket is called `b`.
abbrev memory : Client
memory = record {
  World = Memory;
  create_multipart_upload = λ key w. (done (some key), w);
  upload_part = λ key uid n bytes w. (done (some []), set_part n bytes w);
  upload_part_copy =
      λ key uid n source range w. (done (some []), copy_part n range (w.stored (drop 2 source)) w);
  complete_multipart_upload = λ key uid ps w. (done tt, finish_upload key ps w);
  get_object = λ key range w. (done (read_body range (w.stored key)), w);
  head_object = λ key w. (done none, w);
}

copy_part-stored :
    (n : ℕ) (range : Option (ℕ × ℕ)) (o : Option (List Byte)) (w : Memory) (k : Text)
    → (copy_part n range o w).stored k ≡ w.stored k
unfolding copy_part set_part
copy_part-stored n range none w k = refl
copy_part-stored n range (some bytes) w k = refl

set_part-other :
    (n : ℕ) (bytes : List Byte) (w : Memory) (m : ℕ)
    → n ≢ m
    → (set_part n bytes w).uploaded m ≡ w.uploaded m
unfolding set_part
set_part-other n bytes w m apart = elim (Bool-cases (n == m)) [
  | inl e ↦ absurd (apart (ground (arith, e)))
  | inr e ↦ rw e refl
]

set_part-own :
    (n : ℕ) (bytes : List Byte) (w : Memory) → (set_part n bytes w).uploaded n ≡ some bytes
unfolding set_part
set_part-own n bytes w = let e : (n == n) ≡ true = ground arith in rw e refl

copy_part-other :
    (n : ℕ) (range : Option (ℕ × ℕ)) (o : Option (List Byte)) (w : Memory) (m : ℕ)
    → n ≢ m
    → (copy_part n range o w).uploaded m ≡ w.uploaded m
unfolding copy_part
copy_part-other n range none w m apart = refl
copy_part-other n range (some bytes) w m apart = set_part-other n (copied range bytes) w m apart

copy_part-own :
    (n : ℕ) (range : Option (ℕ × ℕ)) (o : Option (List Byte)) (w : Memory) (bytes : List Byte)
    → o ≡ some bytes
    → (copy_part n range o w).uploaded n ≡ some (copied range bytes)
unfolding copy_part
copy_part-own n range o w bytes e = rw e (set_part-own n (copied range bytes) w)

memory_reads :
    (start last : ℕ) (o : Option (List Byte)) (bytes body : List Byte)
    (chunks : List (Answer (List Byte)))
    → o ≡ some bytes
    → done (read_body (start, last) o) ≡ done chunks
    → read_chunks chunks ≡ ok body
    → body ≡ slice start last bytes
unfolding read_body read_chunks
memory_reads start last o bytes body chunks there e r =
    let read : done (done (slice start last bytes) ∷ []) ≡ done chunks = rw there at e in
    let same : done (slice start last bytes) ∷ [] ≡ chunks = cc read in
    let whole : ok (slice start last bytes ++ []) ≡ ok body = ap read_chunks same ∙ r in
    let value : slice start last bytes ++ [] ≡ body = cc whole in
    sym value ∙ append-nil (slice start last bytes)

memory-IsService : IsService memory (b'b' ∷ [])
unfolding finish_upload read_body copied read_chunks set_part
memory-IsService = record {
  objects = λ w. w.stored;
  parts = λ w uid. w.uploaded;
  create_keeps = λ key w k. refl;
  upload_keeps = λ key uid n bytes w k. refl;
  copy_keeps =
      λ key uid n source range w k. copy_part-stored n range (w.stored (drop 2 source)) w k;
  get_keeps = λ key range w k. refl;
  complete_keeps = λ key uid ps w k apart. elim (Bool-cases (same_text key k)) [
    | inl e ↦ absurd (apart (same_text_eq key k e))
    | inr e ↦ rw e refl
  ];
  upload_others = λ key uid n bytes w m apart. set_part-other n bytes w m apart;
  copy_others = λ key uid n source range w m apart.
      copy_part-other n range (w.stored (drop 2 source)) w m apart;
  get_parts = λ key range w uid m. refl;
  complete_parts = λ key uid ps w m. refl;
  upload_stores = λ key uid n bytes w tag e. set_part-own n bytes w;
  copy_stores =
      λ key uid n source w bytes tag there e. copy_part-own n none (w.stored source) w bytes there;
  copy_range_stores = λ key uid n source start last w bytes tag there le lt e.
      copy_part-own n (some (start, last)) (w.stored source) w bytes there;
  get_reads = λ key start last w bytes body chunks there le lt e r.
      memory_reads start last (w.stored key) bytes body chunks there e r;
  complete_joins = λ key uid ps w e. rw (same_text_refl key) refl;
}

-- A plan of a big file `a` and a small one `b`, in sizes that can be written out.
abbrev segment : Segment
segment = record {
  anchor = 0;
  index = 0;
  links = bootstrap 0 2 ∷ forward_then_append (header_of 1) ∷ forward_then_append (body_of 1) ∷ [];
  object_len = 66;
}

abbrev plan : ChainPlan
plan = record {
  order = 0 ∷ 1 ∷ [];
  entries =
      (0, record { id = 0; name = (b'a' ∷ []); size = 3; local_header_offset = 0 })
      ∷ (1, record { id = 1; name = (b'b' ∷ []); size = 1; local_header_offset = 34 })
      ∷ [];
  segments = segment ∷ [];
  cd_offset = 66;
  cd_size = 94;
  stats = record {
    entries = 2;
    segments = 1;
    bigs = 1;
    smalls = 1;
    links = 3;
    max_chain_depth = 3;
  };
}

abbrev crcs : CrcStore
crcs id = some (id + 7)

abbrev meta : FileId → EntryMeta
meta zero = record { name = (b'a' ∷ []); size = 3; crc = 7; local_header_offset = 0 }
meta (suc id) = record { name = (b'b' ∷ []); size = 1; crc = 8; local_header_offset = 34 }

abbrev header : FileId → List Byte
header id = local_header (meta id)

abbrev body : FileId → List Byte
body zero = 1 ∷ 2 ∷ 3 ∷ []
body (suc id) = 9 ∷ []

abbrev sources : Text → Option (List Byte)
sources (p ∷ s ∷ c ∷ []) = if c == b'a' then some (body 0) else some (body 1)
sources key = none

-- The state at the start: the objects are `f/a` and `f/b`.
abbrev machine : Machine Memory
machine = record { world = record { stored = sources; uploaded = λ n. none }; events = [] }

waited_for : segment_crc_ids segment ≡ 0 ∷ 1 ∷ []
unfolding segment_crc_ids link_ids piece_id sort_ids insert_id dedup dedup_after
waited_for = refl

-- What the task comes to.
abbrev built : Result (Unit {0}) × Machine Memory
built = build_segment_object memory (b'b' ∷ []) (b'f' ∷ []) plan crcs segment (b's' ∷ []) machine

built_ok : built ≡ (ok tt, built.1)
unfolding build_segment_object Build.build_links Build.build_one_link Build.link_parts
    Build.build_piece_part Build.◌>>=◌ Build.lift Build.call Build.link_key Build.decimal
    Build.digits entry_at meta_of source_key Build.copy_source Service.create_mpu
    Service.upload_part Service.upload_part_copy Service.complete_mpu Service.get_object_range_bytes
    Service.required Service.tagged read_chunks attempt_governed with_retry_governed
    Assemble.retry_loop Assemble.emit set_part copy_part copied read_body finish_upload same_text
built_ok = refl

known :
    All
      (IsKnown memory (b'b' ∷ []) memory-IsService (b'f' ∷ []) plan crcs header body machine.world)
      (segment_crc_ids segment)
unfolding entry_at meta_of source_key memory-IsService
known = rw waited_for (
  record {
    entry = _;
    crc = 7;
    found = refl;
    arrived = refl;
    headed = refl;
    sized = refl;
    there = refl;
  },
  (
    record {
      entry = _;
      crc = 8;
      found = refl;
      arrived = refl;
      headed = refl;
      sized = refl;
      there = refl;
    },
    tt,
  ),
)

abbrev head : Text → ℕ
head [] = 0
head (c ∷ text) = c

apart : IsApart memory (b'b' ∷ []) memory-IsService (b'f' ∷ []) plan crcs header body (b's' ∷ [])
unfolding source_key
apart suffix name e = let h : 115 ≡ 102 = ap head e in omega (arith, h)

other : (suffix : Text) → (b's' ∷ []) ++ suffix ≢ (b'f' ∷ b'/' ∷ b'a' ∷ [])
other suffix e = let h : 115 ≡ 102 = ap head e in omega (arith, h)

build_segment_object-object_example :
    (built.1.world.stored (b's' ∷ []) ≡ some (chain_bytes header body segment.links []))
    × (built.1.world.stored (b'f' ∷ b'/' ∷ b'a' ∷ []) ≡ some (1 ∷ 2 ∷ 3 ∷ []))
unfolding memory-IsService
build_segment_object-object_example =
    build_segment_object-object memory (b'b' ∷ []) memory-IsService (b'f' ∷ []) plan crcs header
      body segment (b's' ∷ []) machine built.1 (b'f' ∷ b'/' ∷ b'a' ∷ []) apart (omega arith)
      ((omega arith, omega arith), (tt, (tt, tt))) known other built_ok

build_central_directory-outcome_example : IsDirected crcs Plan.plan
build_central_directory-outcome_example =
    build_central_directory-outcome Plan.files Plan.plan crcs Plan.files-planned

-- A call that S3 throttles twice.
abbrev throttled_twice : ℕ → Result ℕ × ℕ
throttled_twice n = (if n == 2 then ok 5 else err (s3 (codes "SlowDown")), suc n)

abbrev idle : Machine ℕ
idle = record { world = 0; events = [] }

with_retry_governed-attempts_example :
    (end : ℕ) × (n : ℕ) × (t : Machine ℕ) × (end + suc n ≡ 10)
    × Tries (attempt_governed high throttled_twice) (again throttled_twice high) 9 end n idle t
    × (with_retry_governed high throttled_twice idle ≡ attempt_governed high throttled_twice t)
    × IsOver end (attempt_governed high throttled_twice t).0
    × (acquires throttled_twice high (with_retry_governed high throttled_twice idle).1 ≡ 0 + suc n)
    × (retries throttled_twice high (with_retry_governed high throttled_twice idle).1 ≡ 0 + n)
    × (waited throttled_twice high (with_retry_governed high throttled_twice idle).1 + waits 7 end
        ≡ 0 + 38300)
with_retry_governed-attempts_example = with_retry_governed-attempts throttled_twice high idle
