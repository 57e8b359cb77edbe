-- ===== src/JrodonV3/Files.antt =====
-- contenders/rust/jrodon-v3: `FileInfo` (s3_ops.rs), the `FileEntry` view of it (zip_layout.rs) and
-- the part sizes (main.rs).
use demo_s3_archiving.Prelude.{ℕ, ◌+◌, ◌*◌, List, [], ◌∷◌, leb, if◌then◌else◌, length, sum_by}
use demo_s3_archiving.Bytes.{Text}
use demo_s3_archiving.JrodonV3.ZipFormat.Loc.{predict_size}

-- `MIN_PART_SIZE`, the least size that S3 accepts of a part which is not the last.
abbrev pub min_part_size : ℕ
min_part_size = 5 * 1024 * 1024

-- `TARGET_PART_SIZE`
abbrev pub target_part_size : ℕ
target_part_size = 10 * 1024 * 1024

pub record FileInfo : Type 0 where
  pub name : Text
  pub bucket_name : Text
  pub key : Text
  pub size : ℕ

unfoldable pub loc_size : FileInfo → ℕ
loc_size f = predict_size f.size (length f.name)

unfoldable pub entry_size : FileInfo → ℕ
entry_size f = loc_size f + f.size

-- `RegularZipPart::part_size`
abbrev pub part_size : List FileInfo → ℕ
part_size = sum_by entry_size

unfoldable pub insert_by_size : FileInfo → List FileInfo → List FileInfo
insert_by_size f [] = f ∷ []
insert_by_size f (g ∷ gs) = if leb f.size g.size then f ∷ g ∷ gs else g ∷ insert_by_size f gs

-- `sort_by_key(|file_info| file_info.size)`, which is stable.
unfoldable pub sort_by_size : List FileInfo → List FileInfo
unfolding insert_by_size
sort_by_size [] = []
sort_by_size (f ∷ fs) = insert_by_size f (sort_by_size fs)
