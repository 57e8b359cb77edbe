-- ===== src/JrodonV3/ZipFormat/Eocd.antt =====
-- contenders/rust/jrodon-v3/src/zip_format.rs: the records at the end of the central directory.
pub mod RoundTrip
use demo_s3_archiving.Prelude.{ℕ, ◌+◌, Bool, ◌||◌, ltb, if◌then◌else◌}
use demo_s3_archiving.Bytes.Sink.{Dump, nothing, ◌⨾◌}
use demo_s3_archiving.JrodonV3.ZipFormat.Field.{
  u16_max, u32_max, as_u16, as_u32, dump_u16, dump_u32, dump_u64, dump_magic,
}
use demo_s3_archiving.JrodonV3.ZipFormat.Loc.{min_ver}
use demo_s3_archiving.JrodonV3.ZipFormat.Cdfh.{ver_made_by}

pub record EndOfCentralDirectory64 : Type 0 where
  pub record_count : ℕ
  pub central_directory_size : ℕ
  pub central_directory_offset : ℕ
  pub eocd64_offset : ℕ

abbrev pub eocd_magic : ℕ
eocd_magic = 0x504B0506

abbrev pub eocd64_magic : ℕ
eocd64_magic = 0x504B0606

abbrev pub eocd64_locator_magic : ℕ
eocd64_locator_magic = 0x504B0607

abbrev pub eocd_length : ℕ
eocd_length = 22

abbrev pub eocd64_length : ℕ
eocd64_length = 56

abbrev pub eocd64_locator_length : ℕ
eocd64_locator_length = 20

unfoldable pub need_eocd64 : ℕ → ℕ → ℕ → Bool
need_eocd64 central_directory_size central_directory_offset record_count =
    ltb u32_max central_directory_size
    || ltb u32_max central_directory_offset
    || ltb u16_max record_count

abbrev pub needs : EndOfCentralDirectory64 → Bool
needs e = need_eocd64 e.central_directory_size e.central_directory_offset e.record_count

unfoldable pub size : EndOfCentralDirectory64 → ℕ
size e = if needs e then eocd_length + eocd64_length + eocd64_locator_length else eocd_length

dump_eocd64 : EndOfCentralDirectory64 → Dump
dump_eocd64 e =
    dump_magic eocd64_magic
    ⨾ dump_u64 44
    ⨾ dump_u16 ver_made_by
    ⨾ dump_u16 min_ver
    ⨾ dump_u32 0
    ⨾ dump_u32 0
    ⨾ dump_u64 e.record_count
    ⨾ dump_u64 e.record_count
    ⨾ dump_u64 e.central_directory_size
    ⨾ dump_u64 e.central_directory_offset

dump_eocd64_locator : EndOfCentralDirectory64 → Dump
dump_eocd64_locator e =
    dump_magic eocd64_locator_magic ⨾ dump_u32 0 ⨾ dump_u64 e.eocd64_offset ⨾ dump_u32 0

dump_eocd : EndOfCentralDirectory64 → Bool → Dump
dump_eocd e need_eocd64 =
    dump_magic eocd_magic
    ⨾ (if need_eocd64
        then dump_u16 u16_max
          ⨾ dump_u16 u16_max
          ⨾ dump_u16 u16_max
          ⨾ dump_u16 u16_max
          ⨾ dump_u32 u32_max
          ⨾ dump_u32 u32_max
        else dump_u16 0
          ⨾ dump_u16 0
          ⨾ dump_u16 (as_u16 e.record_count)
          ⨾ dump_u16 (as_u16 e.record_count)
          ⨾ dump_u32 (as_u32 e.central_directory_size)
          ⨾ dump_u32 (as_u32 e.central_directory_offset))
    ⨾ dump_u16 0

-- `<EndOfCentralDirectory64 as ZipSerialize>::dump`
unfoldable pub dump : EndOfCentralDirectory64 → Dump
unfolding dump_eocd64 dump_eocd64_locator dump_eocd
dump e =
    (if needs e then dump_eocd64 e ⨾ dump_eocd64_locator e else nothing) ⨾ dump_eocd e (needs e)
