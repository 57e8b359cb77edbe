-- ===== src/JrodonV3/ZipFormat/Cdfh.antt =====
-- contenders/rust/jrodon-v3/src/zip_format.rs: the central directory file header.
pub mod RoundTrip
use demo_s3_archiving.Prelude.{ℕ, ◌+◌, ◌||◌, ltb, length, if◌then◌else◌}
use demo_s3_archiving.Bytes.Sink.{Dump, write, nothing, ◌⨾◌}
use demo_s3_archiving.JrodonV3.ZipFormat.Field.{
  u32_max, as_u16, as_u32, dump_u16, dump_u32, dump_u64, dump_magic,
}
use demo_s3_archiving.JrodonV3.ZipFormat.Field.{Crc32, dump_crc, dump_size_twice}
use demo_s3_archiving.JrodonV3.ZipFormat.Loc.{LocalFileHeader, loc_zip64ext_length, min_ver}
use demo_s3_archiving.JrodonV3.ZipFormat.Loc.{general_purpose_big_flag, compression_method}
use demo_s3_archiving.JrodonV3.ZipFormat.Loc.{file_last_mod_time, file_last_mod_date}

-- `CentralDirectoryFileHeader(LocalFileHeader<CRC32>)`
pub record CentralDirectoryFileHeader : Type 0 where
  pub loc : LocalFileHeader Crc32

abbrev pub cdfh_magic : ℕ
cdfh_magic = 0x504B0102

abbrev pub ver_made_by : ℕ
ver_made_by = 10

abbrev pub base_cdfh_length : ℕ
base_cdfh_length = 46

abbrev pub cdfh_size_zip64ext_length : ℕ
cdfh_size_zip64ext_length = loc_zip64ext_length

abbrev pub cdfh_offset_zip64ext_length : ℕ
cdfh_offset_zip64ext_length = cdfh_size_zip64ext_length + 8

unfoldable pub from_loc : LocalFileHeader Crc32 → CentralDirectoryFileHeader
from_loc loc = record { loc = loc }

unfoldable pub loc_offset : CentralDirectoryFileHeader → ℕ
loc_offset c = c.loc.offset

-- `CentralDirectoryFileHeader::predict_size`
unfoldable pub predict_size : ℕ → ℕ → ℕ → ℕ
predict_size file_size name_len loc_offset =
    if ltb u32_max loc_offset
    then base_cdfh_length + cdfh_offset_zip64ext_length + name_len
    else if ltb u32_max file_size
    then base_cdfh_length + cdfh_size_zip64ext_length + name_len
    else base_cdfh_length + name_len

-- `<CentralDirectoryFileHeader as ZipSerialize>::dump`
unfoldable pub dump : CentralDirectoryFileHeader → Dump
dump c =
    let h = c.loc in
    let need_offset_zip64_extension = ltb u32_max h.offset in
    let need_size_zip64_extension = need_offset_zip64_extension || ltb u32_max h.file_size in
    dump_magic cdfh_magic
    ⨾ dump_u16 ver_made_by
    ⨾ dump_u16 min_ver
    ⨾ dump_u16 general_purpose_big_flag
    ⨾ dump_u16 compression_method
    ⨾ dump_u16 file_last_mod_time
    ⨾ dump_u16 file_last_mod_date
    ⨾ dump_crc h.crc32
    ⨾ dump_size_twice need_size_zip64_extension h.file_size
    ⨾ dump_u16 (as_u16 (length h.name))
    ⨾ (if need_offset_zip64_extension
        then dump_u16 (as_u16 cdfh_offset_zip64ext_length)
        else if need_size_zip64_extension
        then dump_u16 (as_u16 cdfh_size_zip64ext_length)
        else dump_u16 0)
    ⨾ dump_u16 0
    ⨾ dump_u16 0
    ⨾ dump_u16 0
    ⨾ dump_u32 0
    ⨾ (if need_offset_zip64_extension then dump_u32 u32_max else dump_u32 (as_u32 h.offset))
    ⨾ write h.name
    ⨾ (if need_size_zip64_extension
        then dump_u16 1
          ⨾ (if need_offset_zip64_extension then dump_u16 24 else dump_u16 16)
          ⨾ dump_u64 h.file_size
          ⨾ dump_u64 h.file_size
          ⨾ (if need_offset_zip64_extension then dump_u64 h.offset else nothing)
        else nothing)
