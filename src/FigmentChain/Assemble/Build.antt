-- ===== src/FigmentChain/Assemble/Build.antt =====
-- assemble_chain.rs: how a task builds the object of a segment link by link, and the central
-- directory. A CRC that the store does not hold is an error.
use demo_s3_archiving.Prelude.{ℕ, zero, suc, ◌+◌, ◌-◌, ◌/◌, ◌%◌, Option, none, some}
use demo_s3_archiving.Prelude.{
  Bool, true, false, ◌&&◌, ltb, leb, ◌==◌, List, [], ◌∷◌, ◌++◌, length, if◌then◌else◌,
}
use demo_s3_archiving.Bytes.{Byte, Text, codes}
use demo_s3_archiving.Figment.ZipFormat.{EntryMeta, local_header, central_dir_entry, end_records}
use demo_s3_archiving.Figment.Plan.{FileId}
use demo_s3_archiving.FigmentChain.RateLimit.{high}
use demo_s3_archiving.FigmentChain.PlanChain.{
  Entry, Piece, header_of, body_of, Link, bootstrap, anchor_only, anchor_then_append,
  forward_then_append, Segment, ChainPlan,
}
use demo_s3_archiving.FigmentChain.Assemble.{
  bad_crc, panicked, Result, ok, err, Machine, with_retry_governed,
}
use demo_s3_archiving.FigmentChain.Assemble.Service.{
  Client, CompletedPart, create_mpu, upload_part, upload_part_copy, complete_mpu,
  get_object_range_bytes,
}

-- `CrcStore`: the CRCs that have arrived.
abbrev pub CrcStore : Type 0
CrcStore = FileId → Option ℕ

unfoldable pub put : FileId → ℕ → CrcStore → CrcStore
put id crc crcs other = if id == other then some crc else crcs other

unfoldable pub is_some : {A : Type 0} → Option A → Bool
is_some none = false
is_some (some a) = true

-- The test at which `wait_for` returns.
unfoldable pub all_present : CrcStore → List FileId → Bool
all_present crcs [] = true
all_present crcs (id ∷ ids) = is_some (crcs id) && all_present crcs ids

unfoldable pub piece_id : Piece → FileId
piece_id (header_of id) = id
piece_id (body_of id) = id

-- The ids that the links of a segment need, before they are sorted.
unfoldable pub link_ids : List Link → List FileId
link_ids [] = []
link_ids (bootstrap anchor steal_len ∷ links) = anchor ∷ link_ids links
link_ids (anchor_only anchor ∷ links) = anchor ∷ link_ids links
link_ids (anchor_then_append anchor piece ∷ links) = anchor ∷ piece_id piece ∷ link_ids links
link_ids (forward_then_append piece ∷ links) = piece_id piece ∷ link_ids links

unfoldable pub insert_id : FileId → List FileId → List FileId
insert_id id [] = id ∷ []
insert_id id (x ∷ xs) = if leb id x then id ∷ x ∷ xs else x ∷ insert_id id xs

unfoldable pub sort_ids : List FileId → List FileId
unfolding insert_id
sort_ids [] = []
sort_ids (id ∷ ids) = insert_id id (sort_ids ids)

-- `dedup_by_key`, behind an element `last` that is kept.
unfoldable pub dedup_after : FileId → List FileId → List FileId
dedup_after last [] = []
dedup_after last (id ∷ ids) = elim (last == id) [
  | true ↦ dedup_after last ids
  | false ↦ id ∷ dedup_after id ids
]

unfoldable pub dedup : List FileId → List FileId
unfolding dedup_after
dedup [] = []
dedup (id ∷ ids) = id ∷ dedup_after id ids

unfoldable pub segment_crc_ids : Segment → List FileId
unfolding link_ids sort_ids dedup
segment_crc_ids seg = dedup (sort_ids (link_ids seg.links))

-- `{n}` in a format string, and `{n:08}`.
unfoldable pub digits : ℕ → ℕ → Text
digits zero n = []
digits (suc fuel) n =
    let front = digits fuel (n / 10) in
    if ltb n 10 then (48 + n) ∷ [] else front ++ (48 + n % 10) ∷ []

unfoldable pub decimal : ℕ → Text
unfolding digits
decimal n = digits (suc n) n

unfoldable pub zeros : ℕ → Text
zeros zero = []
zeros (suc n) = b'0' ∷ zeros n

unfoldable pub segment_key : Text → ℕ → Text
unfolding decimal zeros
segment_key archive_key index =
    codes "seg-temps/"
    ++ (archive_key ++ b'/' ∷ (zeros (8 - length (decimal index)) ++ decimal index))

unfoldable pub link_key : Text → ℕ → Text
unfolding decimal
link_key seg_key li = seg_key ++ (codes ".l" ++ decimal li)

unfoldable pub source_key : Text → Text → Text
source_key files_prefix name = files_prefix ++ b'/' ∷ name

unfoldable pub copy_source : Text → Text → Text → Text
copy_source bucket files_prefix name = bucket ++ b'/' ∷ (files_prefix ++ b'/' ∷ name)

-- `plan.entries[id]`, which panics without the entry.
unfoldable pub entry_at : List (FileId × Entry) → FileId → Result Entry
entry_at [] id = err panicked
entry_at ((other, e) ∷ entries) id = if other == id then ok e else entry_at entries id

unfoldable pub meta_of : Entry → CrcStore → Result EntryMeta
meta_of e crcs = elim (crcs e.id) [
  | none ↦ err (bad_crc e.name)
  | some crc ↦ ok (record {
    name = e.name;
    size = e.size;
    crc = crc;
    local_header_offset = e.local_header_offset;
  })
]

module _ (client : Client) where
  -- A task: it changes the machine and ends with a value or an error.
  abbrev pub Task : Type 0 → Type 0
  Task A = Machine client.World → Result A × Machine client.World

  infixl 5 ◌>>=◌
  unfoldable pub ◌>>=◌ : {A B : Type 0} → Task A → (A → Task B) → Task B
  ◌>>=◌ m f s = let (r, s') = m s in elim r [ ok a ↦ f a s' | err e ↦ (err e, s') ]

  -- `?` on a value at hand, and a value.
  unfoldable pub lift : {A : Type 0} → Result A → Task A
  lift r s = (r, s)

  -- A governed call of high priority.
  unfoldable pub call : {A : Type 0} → (client.World → Result A × client.World) → Task A
  unfolding with_retry_governed
  call op = with_retry_governed high op

  module _ (bucket files_prefix : Text) (plan : ChainPlan) (crcs : CrcStore) where
    unfoldable pub build_piece_part : Piece → Text → Text → ℕ → Task CompletedPart
    build_piece_part (header_of id) out_key upload_id part_number = do
      entry ← lift (entry_at plan.entries id)
      meta ← lift (meta_of entry crcs)
      call (upload_part client out_key upload_id part_number (local_header meta))
    build_piece_part (body_of id) out_key upload_id part_number = do
      entry ← lift (entry_at plan.entries id)
      call (
          upload_part_copy client out_key upload_id part_number
            (copy_source bucket files_prefix entry.name) none)

    -- The parts of a link: a first part, and the last one, which S3 takes at any size. `prev_object`
    -- is the object that the link before has built.
    unfoldable pub link_parts : Link → Option Text → Text → Text → Task (List CompletedPart)
    link_parts (bootstrap anchor steal_len) prev_object out_key uid = do
      entry ← lift (entry_at plan.entries anchor)
      meta ← lift (meta_of entry crcs)
      prefix ← call (get_object_range_bytes client (source_key files_prefix entry.name) 0 steal_len)
      p1 ← call (upload_part client out_key uid 1 (local_header meta ++ prefix))
      p2 ← call (
          upload_part_copy client out_key uid 2 (copy_source bucket files_prefix entry.name)
            (some (steal_len, entry.size - 1)))
      lift (ok (p1 ∷ p2 ∷ []))
    link_parts (anchor_only anchor) prev_object out_key uid = do
      entry ← lift (entry_at plan.entries anchor)
      p ←
          call (
            upload_part_copy client out_key uid 1 (copy_source bucket files_prefix entry.name) none)
      lift (ok (p ∷ []))
    link_parts (anchor_then_append anchor piece) prev_object out_key uid = do
      entry ← lift (entry_at plan.entries anchor)
      p1 ←
          call (
            upload_part_copy client out_key uid 1 (copy_source bucket files_prefix entry.name) none)
      p2 ← build_piece_part piece out_key uid 2
      lift (ok (p1 ∷ p2 ∷ []))
    link_parts (forward_then_append piece) none out_key uid = lift (err panicked)
    link_parts (forward_then_append piece) (some prev) out_key uid = do
      p1 ← call (upload_part_copy client out_key uid 1 (bucket ++ b'/' ∷ prev) none)
      p2 ← build_piece_part piece out_key uid 2
      lift (ok (p1 ∷ p2 ∷ []))

    unfoldable pub build_one_link : Link → Option Text → Text → Task (Unit {0})
    build_one_link link prev_object out_key = do
      upload_id ← call (create_mpu client out_key)
      parts ← link_parts link prev_object out_key upload_id
      call (complete_mpu client out_key upload_id parts)

    -- The loop over the links of a segment, from link `li`. Each but the last has a key of its own.
    -- Without links, `seg.links.len() - 1` underflows, which is a panic where overflow is checked.
    unfoldable pub build_links : ℕ → Option Text → List Link → Text → Task (Unit {0})
    build_links li prev_object [] seg_key = lift (err panicked)
    build_links li prev_object (link ∷ []) seg_key = build_one_link link prev_object seg_key
    build_links li prev_object (link ∷ next ∷ links) seg_key = do
      _ ← build_one_link link prev_object (link_key seg_key li)
      build_links (suc li) (some (link_key seg_key li)) (next ∷ links) seg_key

    unfoldable pub build_segment_object : Segment → Text → Task (Unit {0})
    unfolding build_links
    build_segment_object seg seg_key = build_links 0 none seg.links seg_key

-- The loop over the order: the records, and how many bytes they are.
unfoldable pub build_records :
    List (FileId × Entry) → CrcStore → List FileId → Result (List Byte × ℕ)
unfolding meta_of
build_records entries crcs [] = ok ([], 0)
build_records entries crcs (id ∷ order) = elim (entry_at entries id) [
  | err e ↦ err e
  | ok entry ↦ elim (meta_of entry crcs) [
    | err e ↦ err e
    | ok meta ↦ elim (build_records entries crcs order) [
      | err e ↦ err e
      | ok (out, cd_size) ↦
          let rec = central_dir_entry meta in ok (rec ++ out, length rec + cd_size)
    ]
  ]
]

unfoldable pub build_central_directory : ChainPlan → CrcStore → Result (List Byte)
unfolding build_records
build_central_directory plan crcs = elim (build_records plan.entries crcs plan.order) [
  | err e ↦ err e
  | ok (out, cd_size) ↦ ok (out ++ end_records (length plan.order) plan.cd_offset cd_size)
]
