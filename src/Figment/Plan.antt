-- ===== src/Figment/Plan.antt =====
-- contenders/rust/figment-engine/src/engine/plan.rs: the plan of the single multipart upload. A
-- `HashMap` is an association list in the order of insertion, and a `HashSet` the list of its
-- elements.
pub mod Sizes
pub mod Contents
pub mod Whole
pub mod Floor
pub mod Offsets
use demo_s3_archiving.Prelude.{ℕ, zero, suc, ◌+◌, ◌-◌, ◌*◌, Bool, true, false, ◌||◌, ◌&&◌}
use demo_s3_archiving.Prelude.{List, [], ◌∷◌, ◌++◌, Option, none, some}
use demo_s3_archiving.Prelude.{ltb, leb, ◌==◌, if◌then◌else◌, length, sum_by}
use demo_s3_archiving.Bytes.{Text}
use demo_s3_archiving.Figment.ZipFormat.{local_header_len, entry_total_len}

abbrev pub part_floor : ℕ
part_floor = 5 * 1024 * 1024

abbrev pub viability_min_total : ℕ
viability_min_total = 4 * part_floor

abbrev pub FileId : Type 0
FileId = ℕ

pub record SourceFile : Type 0 where
  pub id : FileId
  pub key : Text
  pub name : Text
  pub size : ℕ

pub record Entry : Type 0 where
  pub id : FileId
  pub name : Text
  pub size : ℕ
  pub local_header_offset : ℕ
  pub crc : Option ℕ
  pub streamed : Bool

pub data Segment : Type 0 where
  streamed_file : FileId → Segment
  copied_file_header : FileId → Segment
  streamed_big_prefix : FileId → ℕ → Segment
  central_directory : Segment

-- `Copy { part_number, id, copy_from }` and `Stream { part_number, segments }`
pub data PartSpec : Type 0 where
  copy : ℕ → FileId → ℕ → PartSpec
  stream : ℕ → List Segment → PartSpec

pub record PlanStats : Type 0 where
  pub entries : ℕ
  pub parts : ℕ
  pub copy_parts : ℕ
  pub stream_parts : ℕ
  pub folded_bigs : ℕ
  pub stolen_bigs : ℕ
  pub bigs : ℕ
  pub smalls : ℕ

pub record SinglePlan : Type 0 where
  pub order : List FileId
  pub entries : List (FileId × Entry)
  pub parts : List PartSpec
  pub copyable : List FileId
  pub stats : PlanStats

pub data SingleRouting : Type 0 where
  single_mpu : SinglePlan → SingleRouting
  fallback : SingleRouting

-- `partition(|f| f.size >= PART_FLOOR)`
unfoldable pub partition : List SourceFile → List SourceFile × List SourceFile
partition [] = ([], [])
partition (f ∷ fs) =
    let (bigs, smalls) = partition fs in
    if leb part_floor f.size then (f ∷ bigs, smalls) else (bigs, f ∷ smalls)

-- The two orders, as tests for "not behind".
unfoldable pub big_first : SourceFile → SourceFile → Bool
big_first a b = ltb b.size a.size || (a.size == b.size) && leb a.id b.id

unfoldable pub small_first : SourceFile → SourceFile → Bool
small_first a b = ltb a.size b.size || (a.size == b.size) && leb a.id b.id

unfoldable pub insert_by :
    (SourceFile → SourceFile → Bool) → SourceFile → List SourceFile → List SourceFile
insert_by before f [] = f ∷ []
insert_by before f (g ∷ gs) = if before f g then f ∷ g ∷ gs else g ∷ insert_by before f gs

-- `sort_by`, which is stable.
unfoldable pub sort_by : (SourceFile → SourceFile → Bool) → List SourceFile → List SourceFile
sort_by before [] = []
sort_by before (f ∷ fs) = insert_by before f (sort_by before fs)

-- `size_of`: the files by their id, of which a later one replaces an earlier one.
abbrev pub SizeOf : Type 0
SizeOf = FileId → Text × ℕ

unfoldable pub insert_size : SizeOf → SourceFile → SizeOf
insert_size size_of f id = if f.id == id then (f.name, f.size) else size_of id

unfoldable pub insert_sizes : SizeOf → List SourceFile → SizeOf
insert_sizes size_of [] = size_of
insert_sizes size_of (f ∷ fs) = insert_sizes (insert_size size_of f) fs

-- What the loops over the files keep.
pub record Planning : Type 0 where
  pub order : List FileId
  pub parts : List PartSpec
  pub part_number : ℕ
  pub smalls : List SourceFile
  pub cur_segs : List Segment
  pub cur_bytes : ℕ
  pub streamed_bigs : List FileId
  pub stolen_count : ℕ

-- One small file is streamed into the batch; `rest` are the small files behind it.
unfoldable pub take_small : SizeOf → Planning → SourceFile → List SourceFile → Planning
take_small size_of p s rest = record p {
  order = p.order ++ s.id ∷ [];
  smalls = rest;
  cur_segs = p.cur_segs ++ streamed_file s.id ∷ [];
  cur_bytes = p.cur_bytes + entry_total_len (size_of s.id).0 (size_of s.id).1;
}

-- The `loop` that pulls small files, over the small files that are left, which are those of `p`.
-- Without one it stops, whatever the gap.
unfoldable pub pull_smalls : SizeOf → ℕ → ℕ → List SourceFile → Bool → Planning → Bool × Planning
unfolding take_small
pull_smalls size_of header_big max_steal [] pulled_small p = (pulled_small, p)
pull_smalls size_of header_big max_steal (s ∷ rest) pulled_small p =
    let with_header = p.cur_bytes + header_big in
    let gap = part_floor - with_header in
    let next = pull_smalls size_of header_big max_steal rest true (take_small size_of p s rest) in
    if leb part_floor with_header
    then (pulled_small, p)
    else if leb gap max_steal && pulled_small
    then (pulled_small, p)
    else next

-- The stolen prefix: `PART_FLOOR.saturating_sub(with_header).min(max_steal)`, or nothing.
unfoldable pub steal_len : ℕ → ℕ → Bool → List SourceFile → ℕ
steal_len with_header max_steal pulled_small [] =
    let gap = part_floor - with_header in if leb gap max_steal then gap else max_steal
steal_len with_header max_steal pulled_small (s ∷ rest) =
    let gap = part_floor - with_header in
    if pulled_small then (if leb gap max_steal then gap else max_steal) else 0

-- The big file is copied: its header and its prefix end the batch.
unfoldable pub copy_big : Planning → SourceFile → ℕ → Planning
copy_big p big k =
    let segs =
      p.cur_segs
      ++ (if ltb 0 k
          then copied_file_header big.id ∷ streamed_big_prefix big.id k ∷ []
          else copied_file_header big.id ∷ []) in
    record p {
      order = p.order ++ big.id ∷ [];
      parts = p.parts ++ stream p.part_number segs ∷ copy (p.part_number + 1) big.id k ∷ [];
      part_number = p.part_number + 2;
      cur_segs = [];
      cur_bytes = 0;
      stolen_count = if ltb 0 k then p.stolen_count + 1 else p.stolen_count;
    }

unfoldable pub contains : List FileId → FileId → Bool
contains [] id = false
contains (x ∷ xs) id = (x == id) || contains xs id

-- `HashSet::insert`
unfoldable pub insert_id : List FileId → FileId → List FileId
insert_id xs id = if contains xs id then xs else xs ++ id ∷ []

-- The big file is folded: it is streamed whole and ends the batch.
unfoldable pub fold_big : Planning → SourceFile → Planning
fold_big p big = record p {
  order = p.order ++ big.id ∷ [];
  parts = p.parts ++ stream p.part_number (p.cur_segs ++ streamed_file big.id ∷ []) ∷ [];
  part_number = p.part_number + 1;
  cur_segs = [];
  cur_bytes = 0;
  streamed_bigs = insert_id p.streamed_bigs big.id;
}

-- One round of `for big in bigs.iter()`.
unfoldable pub plan_big : SizeOf → Planning → SourceFile → Planning
unfolding pull_smalls steal_len copy_big fold_big
plan_big size_of p big =
    let header_big = local_header_len (size_of big.id).0 in
    let max_steal = big.size - part_floor in
    let (pulled_small, q) = pull_smalls size_of header_big max_steal p.smalls false p in
    let with_header = q.cur_bytes + header_big in
    let k = steal_len with_header max_steal pulled_small q.smalls in
    if leb part_floor (with_header + k) then copy_big q big k else fold_big q big

unfoldable pub plan_bigs : SizeOf → Planning → List SourceFile → Planning
plan_bigs size_of p [] = p
plan_bigs size_of p (big ∷ bigs) = plan_bigs size_of (plan_big size_of p big) bigs

-- `for s in small_iter`
unfoldable pub leftover : Planning → List SourceFile → Planning
leftover p [] = p
leftover p (s ∷ rest) =
    leftover
      (record p { order = p.order ++ s.id ∷ []; cur_segs = p.cur_segs ++ streamed_file s.id ∷ [] })
      rest

-- The final part.
unfoldable pub last_part : Planning → Planning
last_part p =
    let q = leftover p p.smalls in
    record q {
      parts = q.parts ++ stream q.part_number (q.cur_segs ++ central_directory ∷ []) ∷ [];
      cur_segs = [];
    }

-- `compute_offsets`: the `scan`, from what it has summed up so far.
unfoldable pub offsets_from : SizeOf → ℕ → List FileId → List ℕ
offsets_from size_of acc [] = []
offsets_from size_of acc (id ∷ order) =
    acc ∷ offsets_from size_of (acc + entry_total_len (size_of id).0 (size_of id).1) order

unfoldable pub compute_offsets : SizeOf → List FileId → List ℕ
compute_offsets size_of order = offsets_from size_of 0 order

unfoldable pub ids : List SourceFile → List FileId
ids [] = []
ids (f ∷ fs) = f.id ∷ ids fs

-- The entries of the order, each with its offset.
unfoldable pub entries_of :
    SizeOf → List FileId → List FileId → List FileId → List ℕ → List (FileId × Entry)
entries_of size_of big_ids streamed_bigs [] offsets = []
entries_of size_of big_ids streamed_bigs (id ∷ order) [] = []
entries_of size_of big_ids streamed_bigs (id ∷ order) (offset ∷ offsets) =
    (
      id,
      record {
        id = id;
        name = (size_of id).0;
        size = (size_of id).1;
        local_header_offset = offset;
        crc = none;
        streamed = if contains big_ids id then contains streamed_bigs id else true;
      },
    )
    ∷ entries_of size_of big_ids streamed_bigs order offsets

-- `filter(|id| !streamed_bigs.contains(id))`
unfoldable pub without : List FileId → List FileId → List FileId
without streamed [] = []
without streamed (id ∷ xs) =
    let rest = without streamed xs in if contains streamed id then rest else id ∷ rest

unfoldable pub count_copies : List PartSpec → ℕ
count_copies [] = 0
count_copies (copy n id from ∷ parts) = suc (count_copies parts)
count_copies (stream n segs ∷ parts) = count_copies parts

-- The start of the loops.
abbrev pub start : List SourceFile → Planning
start smalls = record {
  order = [];
  parts = [];
  part_number = 1;
  smalls = smalls;
  cur_segs = [];
  cur_bytes = 0;
  streamed_bigs = [];
  stolen_count = 0;
}

-- The plan of sorted files: the loops, and what is computed from them.
unfoldable pub build_plan : List SourceFile → List SourceFile → SinglePlan
build_plan bigs smalls =
    let size_of = insert_sizes (λ id. ([], 0)) (bigs ++ smalls) in
    let p = last_part (plan_bigs size_of (start smalls) bigs) in
    record {
      order = p.order;
      entries =
          entries_of size_of (ids bigs) p.streamed_bigs p.order (compute_offsets size_of p.order);
      parts = p.parts;
      copyable = without p.streamed_bigs (ids bigs);
      stats = record {
        entries = length p.order;
        parts = length p.parts;
        copy_parts = count_copies p.parts;
        stream_parts = length p.parts - count_copies p.parts;
        folded_bigs = length p.streamed_bigs;
        stolen_bigs = p.stolen_count;
        bigs = length bigs;
        smalls = length smalls;
      };
    }

unfoldable pub plan_single_mpu : List SourceFile → SingleRouting
plan_single_mpu files =
    let (bigs, smalls) = partition files in
    let total = sum_by (λ f. f.size) (bigs ++ smalls) in
    if length bigs == 0 || ltb total viability_min_total
    then fallback
    else single_mpu (build_plan (sort_by big_first bigs) (sort_by small_first smalls))
