-- ===== src/FigmentChain/PlanChain.antt =====
-- contenders/rust/figment-engine-chain/src/plan_chain.rs: the plan of the copy-only archive. The
-- segments are objects of their own, each built by a chain of uploads, and then stitched together.
-- A `HashMap` from an id is a function of it, or an association list in the order of insertion.
pub mod Contents
pub mod Sizes
pub mod Table
pub mod Whole
pub mod Tiles
pub mod Offsets
pub mod Parts
use demo_s3_archiving.Prelude.{ℕ, zero, suc, ◌+◌, ◌-◌, ◌*◌, ◌%◌, Bool, true, false, max}
use demo_s3_archiving.Prelude.{List, [], ◌∷◌, ◌++◌, map, Option, none, some}
use demo_s3_archiving.Prelude.{ltb, leb, ◌==◌, if◌then◌else◌, length, sum_by}
use demo_s3_archiving.Bytes.{Text}
use demo_s3_archiving.Figment.ZipFormat.{local_header_len, central_dir_entry_len}
use demo_s3_archiving.Figment.Plan.{
  FileId, SourceFile, SizeOf, part_floor, partition, sort_by, big_first, insert_sizes,
  compute_offsets, contains,
}

pub record Entry : Type 0 where
  pub id : FileId
  pub name : Text
  pub size : ℕ
  pub local_header_offset : ℕ

pub data Piece : Type 0 where
  header_of : FileId → Piece
  body_of : FileId → Piece

-- `Bootstrap { anchor, steal_len }`, `AnchorOnly { anchor }`, `AnchorThenAppend { anchor, piece }`
-- and `ForwardThenAppend { piece }`
pub data Link : Type 0 where
  bootstrap : FileId → ℕ → Link
  anchor_only : FileId → Link
  anchor_then_append : FileId → Piece → Link
  forward_then_append : Piece → Link

pub record Segment : Type 0 where
  pub anchor : FileId
  pub index : ℕ
  pub links : List Link
  pub object_len : ℕ

pub record ChainStats : Type 0 where
  pub entries : ℕ
  pub segments : ℕ
  pub bigs : ℕ
  pub smalls : ℕ
  pub links : ℕ
  pub max_chain_depth : ℕ

pub record ChainPlan : Type 0 where
  pub order : List FileId
  pub entries : List (FileId × Entry)
  pub segments : List Segment
  pub cd_offset : ℕ
  pub cd_size : ℕ
  pub stats : ChainStats

unfoldable pub archive_len : ChainPlan → ℕ
archive_len p = p.cd_offset + p.cd_size + 56 + 20 + 22

pub data PlanError : Type 0 where
  no_bigs : ℕ → PlanError

-- What a call of the planner comes to: `Ok`, `Err`, or the panic of an `expect`.
pub data Outcome : Type 0 where
  ok : ChainPlan → Outcome
  err : PlanError → Outcome
  panic : Outcome

-- The order of `sort_by_key(|a| a.id.0)`, as a test for "not behind".
unfoldable pub id_first : SourceFile → SourceFile → Bool
id_first a b = leb a.id b.id

-- A bucket is the id of its big file, which is there from the start, and those of its small files.
abbrev pub Bucket : Type 0
Bucket = FileId × List FileId

unfoldable pub new_bucket : SourceFile → Bucket
new_bucket b = (b.id, [])

-- `buckets[i].push(id)`
unfoldable pub push_at : ℕ → FileId → List Bucket → List Bucket
push_at i id [] = []
push_at zero id (b ∷ bs) = (b.0, b.1 ++ id ∷ []) ∷ bs
push_at (suc i) id (b ∷ bs) = b ∷ push_at i id bs

-- The round robin over `n` buckets, from the small file of number `i`.
unfoldable pub spread : ℕ → ℕ → List SourceFile → List Bucket → List Bucket
spread n i [] buckets = buckets
spread n i (s ∷ smalls) buckets = spread n (i + 1) smalls (push_at (i % n) s.id buckets)

unfoldable pub make_buckets : List SourceFile → List SourceFile → List Bucket
make_buckets bigs smalls = spread (length bigs) 0 smalls (map new_bucket bigs)

unfoldable pub next_big : List Bucket → Option FileId
next_big [] = none
next_big (b ∷ bs) = some b.0

-- `hdr`, `body` and `plen`
unfoldable pub hdr : SizeOf → FileId → ℕ
hdr size_of id = local_header_len (size_of id).0

unfoldable pub body_len : SizeOf → FileId → ℕ
body_len size_of id = (size_of id).1

unfoldable pub plen : SizeOf → Piece → ℕ
plen size_of (header_of id) = hdr size_of id
plen size_of (body_of id) = body_len size_of id

-- The pieces of a segment.
unfoldable pub pieces_of : List FileId → Option FileId → List Piece
pieces_of [] none = []
pieces_of [] (some big) = header_of big ∷ []
pieces_of (s ∷ smalls) next = header_of s ∷ body_of s ∷ pieces_of smalls next

-- The links of segment `k`, and the length of its object.
unfoldable pub links_of : SizeOf → ℕ → FileId → List Piece → List Link
links_of size_of zero anchor pieces =
    bootstrap anchor (part_floor - hdr size_of anchor) ∷ map forward_then_append pieces
links_of size_of (suc k) anchor [] = anchor_only anchor ∷ []
links_of size_of (suc k) anchor (p ∷ pieces) =
    anchor_then_append anchor p ∷ map forward_then_append pieces

unfoldable pub object_len_of : SizeOf → ℕ → FileId → List Piece → ℕ
object_len_of size_of zero anchor pieces =
    hdr size_of anchor + body_len size_of anchor + sum_by (plen size_of) pieces
object_len_of size_of (suc k) anchor pieces = body_len size_of anchor + sum_by (plen size_of) pieces

-- What the loop over the buckets keeps.
pub record Chaining : Type 0 where
  pub order : List FileId
  pub segments : List Segment
  pub offset : ℕ
  pub total_links : ℕ
  pub max_depth : ℕ

-- One round of the loop, on bucket `k`.
unfoldable pub add_segment : SizeOf → ℕ → Bucket → Option FileId → Chaining → Chaining
unfolding object_len_of
add_segment size_of k (anchor, smalls) next c =
    let pieces = pieces_of smalls next in
    let links = links_of size_of k anchor pieces in
    record {
      order = c.order ++ anchor ∷ smalls;
      segments =
          c.segments
          ++ record {
            anchor = anchor;
            index = k;
            links = links;
            object_len = object_len_of size_of k anchor pieces;
          }
            ∷ [];
      offset =
          c.offset
          + (hdr size_of anchor + body_len size_of anchor)
          + sum_by (λ s. hdr size_of s + body_len size_of s) smalls;
      total_links = c.total_links + length links;
      max_depth = max c.max_depth (length links);
    }

unfoldable pub add_segments : SizeOf → ℕ → List Bucket → Chaining → Chaining
add_segments size_of k [] c = c
add_segments size_of k (b ∷ buckets) c =
    add_segments size_of (suc k) buckets (add_segment size_of k b (next_big buckets) c)

abbrev pub start : Chaining
start = record { order = []; segments = []; offset = 0; total_links = 0; max_depth = 0 }

-- The loop over the order, each id with its offset: `taken` are the ids that have been removed from
-- the table. An id that is not in it any more is a panic.
unfoldable pub entries_of :
    SizeOf → List FileId → List FileId → List ℕ → Option (List (FileId × Entry) × ℕ)
entries_of size_of taken [] offsets = some ([], 0)
entries_of size_of taken (id ∷ order) [] = none
entries_of size_of taken (id ∷ order) (offset ∷ offsets) =
    if contains taken id then none else elim (entries_of size_of (id ∷ taken) order offsets) [
      | none ↦ none
      | some (entries, cd_size) ↦
          let (name, size) = size_of id in
          some (
            (id, record { id = id; name = name; size = size; local_header_offset = offset })
                ∷ entries,
            central_dir_entry_len name offset + cd_size,
          )
    ]

-- The plan of sorted files.
unfoldable pub build_chain : List SourceFile → List SourceFile → Outcome
build_chain bigs smalls =
    let size_of = insert_sizes (λ id. ([], 0)) (bigs ++ smalls) in
    let buckets = make_buckets bigs smalls in
    let c = add_segments size_of 0 buckets start in
    elim (entries_of size_of [] c.order (compute_offsets size_of c.order)) [
      | none ↦ panic
      | some (entries, cd_size) ↦ ok (record {
        order = c.order;
        entries = entries;
        segments = c.segments;
        cd_offset = c.offset;
        cd_size = cd_size;
        stats = record {
          entries = length c.order;
          segments = length buckets;
          bigs = length bigs;
          smalls = length smalls;
          links = c.total_links;
          max_chain_depth = c.max_depth;
        };
      })
    ]

unfoldable pub plan_segment_chain : List SourceFile → Outcome
plan_segment_chain files =
    let (bigs, smalls) = partition files in
    if length bigs == 0
    then err (no_bigs (length smalls))
    else build_chain (sort_by big_first bigs) (sort_by id_first smalls)
