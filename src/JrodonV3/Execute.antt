-- ===== src/JrodonV3/Execute.antt =====
-- contenders/rust/jrodon-v3/src/part_executor/mod.rs: how the central directory is written. The
-- headers are those that come out of the channel, in the order in which the entries were completed.
pub mod Collect
pub mod Directory
use demo_s3_archiving.Prelude.{ℕ, List, [], ◌∷◌, length, ltb, ◌==◌, if◌then◌else◌}
use demo_s3_archiving.Bytes.Sink.{Dump, nothing, ◌⨾◌}
use demo_s3_archiving.JrodonV3.ZipFormat.Cdfh.{CentralDirectoryFileHeader, loc_offset}
use demo_s3_archiving.JrodonV3.ZipFormat.Cdfh
use demo_s3_archiving.JrodonV3.ZipFormat.Eocd.{EndOfCentralDirectory64}
use demo_s3_archiving.JrodonV3.ZipFormat.Eocd

-- `BTreeMap<usize, CentralDirectoryFileHeader>`, by rising keys.
abbrev pub Entries : Type 0
Entries = List (ℕ × CentralDirectoryFileHeader)

-- `BTreeMap::insert`
unfoldable pub insert : ℕ → CentralDirectoryFileHeader → Entries → Entries
insert k c [] = (k, c) ∷ []
insert k c ((l, d) ∷ es) =
    let rest = insert k c es in
    if ltb k l then (k, c) ∷ (l, d) ∷ es else if k == l then (k, c) ∷ es else (l, d) ∷ rest

-- The `while` over the channel.
unfoldable pub collect : ℕ → List CentralDirectoryFileHeader → Entries → Entries
collect record_count [] entries = entries
collect record_count (c ∷ received) entries =
    let entries' = insert (loc_offset c) c entries in
    let rest = collect record_count received entries' in
    if record_count == length entries' then entries' else rest

-- `for cdfh in entries.into_values()`
unfoldable pub dump_values : Entries → Dump
dump_values [] = nothing
dump_values ((k, c) ∷ entries) = Cdfh.dump c ⨾ dump_values entries

-- `UploadPartElement::resolve_and_write` of a central directory.
unfoldable pub write_directory : EndOfCentralDirectory64 → List CentralDirectoryFileHeader → Dump
write_directory eocd64 received =
    dump_values (collect eocd64.record_count received []) ⨾ Eocd.dump eocd64
