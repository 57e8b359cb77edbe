-- ===== src/JrodonV3/Layout.antt =====
-- contenders/rust/jrodon-v3/src/zip_layout.rs: the four passes that plan the parts of an archive.
-- The queue of entries (`VecDeque`) is a list, front first.
pub mod Conserve
pub mod Floor
pub mod Stop
use demo_s3_archiving.Prelude.{ℕ, zero, suc, ◌+◌, ◌-◌, Bool, true, false}
use demo_s3_archiving.Prelude.{List, [], ◌∷◌, ◌++◌, Option, none, some}
use demo_s3_archiving.Prelude.{leb, ◌==◌, if◌then◌else◌, length}
use demo_s3_archiving.JrodonV3.Files.{FileInfo, min_part_size, target_part_size}
use demo_s3_archiving.JrodonV3.Files.{loc_size, entry_size, part_size, sort_by_size}

abbrev pub RegularZipPart : Type 0
RegularZipPart = List FileInfo

pub data CopyZipPart : Type 0 where
  full_copy : FileInfo → CopyZipPart
  partial_copy : FileInfo → ℕ → CopyZipPart

pub data ZipLayoutPart : Type 0 where
  single : RegularZipPart → ZipLayoutPart
  duo : RegularZipPart → CopyZipPart → ZipLayoutPart

-- `VecDeque::pop_back`: the last entry and those before it.
unfoldable pub pop_back : List FileInfo → Option (FileInfo × List FileInfo)
pop_back [] = none
pop_back (f ∷ fs) = elim (pop_back fs) [
  | none ↦ some (f, [])
  | some (last, front) ↦ some (last, f ∷ front)
]

-- What the regular half must hold at least, so that a copy of `min_part_size` bytes is left.
unfoldable pub min_missing : FileInfo → ℕ
min_missing big = min_part_size - loc_size big - (big.size - min_part_size)

-- The Duo of a regular half that is large enough.
unfoldable pub make_duo : FileInfo → RegularZipPart → ZipLayoutPart
make_duo big regular =
    let copy_start_byte = min_part_size - part_size regular - loc_size big in
    duo regular (if copy_start_byte == 0 then full_copy big else partial_copy big copy_start_byte)

-- The inner loop of pass 1: small files until the regular half is large enough. Without enough of
-- them the large file is folded into a Single.
unfoldable pub fill_duo :
    FileInfo → ℕ → RegularZipPart → List FileInfo → ZipLayoutPart × List FileInfo
fill_duo big missing regular [] =
    if leb missing (part_size regular)
    then (make_duo big regular, [])
    else (single (regular ++ big ∷ []), [])
fill_duo big missing regular (f ∷ queue) =
    let next = fill_duo big missing (regular ++ f ∷ []) queue in
    if leb missing (part_size regular) then (make_duo big regular, f ∷ queue) else next

-- Pass 1, with fuel for its rounds: each takes one entry from the back.
unfoldable pub duo_pass : ℕ → List FileInfo → List ZipLayoutPart × List FileInfo
duo_pass zero queue = ([], queue)
duo_pass (suc rounds) queue = elim (pop_back queue) [
  | none ↦ ([], queue)
  | some (big, front) ↦ elim (leb min_part_size big.size) [
    | false ↦ ([], queue)
    | true ↦
        let (part, left) = fill_duo big (min_missing big) [] front in
        let (parts, rest) = duo_pass rounds left in (part ∷ parts, rest)
  ]
]

-- The `while` of pass 2: the new start of the copy, the regular half and the queue.
unfoldable pub absorb : ℕ → RegularZipPart → List FileInfo → ℕ × RegularZipPart × List FileInfo
absorb start regular [] = (start, regular, [])
absorb start regular (f ∷ queue) =
    let next = absorb (start - entry_size f) (regular ++ f ∷ []) queue in
    if start == 0 then (start, regular, f ∷ queue) else next

-- Pass 2. A start above 0 behind the `while` means that the queue ran empty: `break 'outer`.
unfoldable pub promote_pass :
    List ZipLayoutPart → List FileInfo → List ZipLayoutPart × List FileInfo
promote_pass [] queue = ([], queue)
promote_pass (single regular ∷ parts) queue =
    let (parts', rest) = promote_pass parts queue in (single regular ∷ parts', rest)
promote_pass (duo regular (full_copy big) ∷ parts) queue =
    let (parts', rest) = promote_pass parts queue in (duo regular (full_copy big) ∷ parts', rest)
promote_pass (duo regular (partial_copy big start) ∷ parts) queue =
    let (start', regular', left) = absorb start regular queue in
    let (parts', rest) = promote_pass parts left in
    if start' == 0
    then (duo regular' (full_copy big) ∷ parts', rest)
    else (duo regular' (partial_copy big start') ∷ parts, left)

-- The `while missing_size > 0` of passes 3 and 4: what is still missing, the part and the queue.
unfoldable pub pad : ℕ → RegularZipPart → List FileInfo → ℕ × RegularZipPart × List FileInfo
pad missing regular [] = (missing, regular, [])
pad missing regular (f ∷ queue) =
    let next = pad (missing - entry_size f) (regular ++ f ∷ []) queue in
    if missing == 0 then (missing, regular, f ∷ queue) else next

-- Pass 3. Something missing behind the `while` means that the queue ran empty: `break 'outer`.
unfoldable pub pad_pass : List ZipLayoutPart → List FileInfo → List ZipLayoutPart × List FileInfo
pad_pass [] queue = ([], queue)
pad_pass (single regular ∷ parts) queue =
    let (parts', rest) = pad_pass parts queue in (single regular ∷ parts', rest)
pad_pass (duo regular copy ∷ parts) queue =
    let (missing, regular', left) = pad (target_part_size - part_size regular) regular queue in
    let (parts', rest) = pad_pass parts left in
    if missing == 0 then (duo regular' copy ∷ parts', rest) else (duo regular' copy ∷ parts, left)

-- Pass 4, with fuel for its rounds: each takes one entry at least.
unfoldable pub single_pass : ℕ → List FileInfo → List ZipLayoutPart
single_pass rounds [] = []
single_pass zero (f ∷ queue) = []
single_pass (suc rounds) (f ∷ queue) =
    let (missing, regular, rest) = pad target_part_size [] (f ∷ queue) in
    single regular ∷ single_pass rounds rest

-- `ZipLayout::from_files_info`
unfoldable pub from_files_info : List FileInfo → List ZipLayoutPart
from_files_info files =
    let (parts, left) = duo_pass (length files) (sort_by_size files) in
    let (parts', left') = promote_pass parts left in
    let (parts'', left'') = pad_pass parts' left' in parts'' ++ single_pass (length left'') left''
