-- ===== src/JrodonV3/ZipFormat/Loc.antt =====
-- contenders/rust/jrodon-v3/src/zip_format.rs: the local file header.
pub mod RoundTrip
use demo_s3_archiving.Prelude.{ℕ, ◌+◌, ltb, length, if◌then◌else◌}
use demo_s3_archiving.Bytes.{Text}
use demo_s3_archiving.Bytes.Sink.{Dump, write, nothing, ◌⨾◌}
use demo_s3_archiving.JrodonV3.ZipFormat.Field.{u32_max, as_u16, dump_u16, dump_u64, dump_magic}
use demo_s3_archiving.JrodonV3.ZipFormat.Field.{Crc32, dump_crc, dump_size_twice}

-- The typestate of a header whose checksum is not known yet.
pub data NoCrc : Type 0 where
  no_crc : NoCrc

pub record LocalFileHeader (C : Type 0) : Type 0 where
  pub offset : ℕ
  pub name : Text
  pub crc32 : C
  pub file_size : ℕ

abbrev pub loc_magic : ℕ
loc_magic = 0x504B0304

abbrev pub min_ver : ℕ
min_ver = 10

abbrev pub general_purpose_big_flag : ℕ
general_purpose_big_flag = 0

abbrev pub compression_method : ℕ
compression_method = 0

abbrev pub file_last_mod_time : ℕ
file_last_mod_time = 0

abbrev pub file_last_mod_date : ℕ
file_last_mod_date = 0

abbrev pub base_loc_length : ℕ
base_loc_length = 30

abbrev pub loc_zip64ext_length : ℕ
loc_zip64ext_length = 20

-- `LocalFileHeader::predict_size`
unfoldable pub predict_size : ℕ → ℕ → ℕ
predict_size file_size name_len =
    if ltb u32_max file_size
    then base_loc_length + loc_zip64ext_length + name_len
    else base_loc_length + name_len

unfoldable pub size : {C : Type 0} → LocalFileHeader C → ℕ
unfolding predict_size
size h = predict_size h.file_size (length h.name)

-- `LocalFileHeader::<NoCRC>::new`
unfoldable pub make : ℕ → Text → ℕ → LocalFileHeader NoCrc
make offset name size = record {
  offset = offset;
  name = name;
  crc32 = NoCrc.no_crc;
  file_size = size;
}

unfoldable pub set_crc : LocalFileHeader NoCrc → Crc32 → LocalFileHeader Crc32
set_crc h crc = record { offset = h.offset; name = h.name; crc32 = crc; file_size = h.file_size }

-- `<LocalFileHeader<CRC32> as ZipSerialize>::dump`
unfoldable pub dump : LocalFileHeader Crc32 → Dump
dump h =
    let need_zip64_extension = ltb u32_max h.file_size in
    dump_magic loc_magic
    ⨾ dump_u16 min_ver
    ⨾ dump_u16 general_purpose_big_flag
    ⨾ dump_u16 compression_method
    ⨾ dump_u16 file_last_mod_time
    ⨾ dump_u16 file_last_mod_date
    ⨾ dump_crc h.crc32
    ⨾ dump_size_twice need_zip64_extension h.file_size
    ⨾ dump_u16 (as_u16 (length h.name))
    ⨾ (if need_zip64_extension then dump_u16 (as_u16 loc_zip64ext_length) else dump_u16 0)
    ⨾ write h.name
    ⨾ (if need_zip64_extension
        then dump_u16 1 ⨾ dump_u16 16 ⨾ dump_u64 h.file_size ⨾ dump_u64 h.file_size
        else nothing)
