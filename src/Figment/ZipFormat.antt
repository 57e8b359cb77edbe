-- ===== src/Figment/ZipFormat.antt =====
-- contenders/rust/figment-engine/src/engine/zip_format.rs: the records of an archive, each as the
-- bytes that are pushed onto its vector, in order. The `debug_assert`s on sizes are not there in a
-- release build.
pub mod RoundTrip
use demo_s3_archiving.Prelude.{ℕ, ◌+◌, ◌%◌, ◌^◌, List, [], ◌++◌, ltb, leb, length, if◌then◌else◌}
use demo_s3_archiving.Bytes.{Byte, Text, le_bytes}

abbrev pub sig_local : ℕ
sig_local = 0x04034B50

abbrev pub sig_central : ℕ
sig_central = 0x02014B50

abbrev pub sig_eocd : ℕ
sig_eocd = 0x06054B50

abbrev pub sig_zip64_eocd : ℕ
sig_zip64_eocd = 0x06064B50

abbrev pub sig_zip64_locator : ℕ
sig_zip64_locator = 0x07064B50

abbrev pub zip64_extra_tag : ℕ
zip64_extra_tag = 1

abbrev pub version_needed : ℕ
version_needed = 45

abbrev pub version_made_by : ℕ
version_made_by = 45

abbrev pub method_store : ℕ
method_store = 0

abbrev pub u32_max : ℕ
u32_max = 0xFFFFFFFF

abbrev pub u16_max : ℕ
u16_max = 0xFFFF

-- `v as u16` and `v as u32`
abbrev pub as_u16 : ℕ → ℕ
as_u16 v = v % 2 ^ 16

abbrev pub as_u32 : ℕ → ℕ
as_u32 v = v % 2 ^ 32

unfoldable pub p16 : ℕ → List Byte
p16 v = le_bytes 2 v

unfoldable pub p32 : ℕ → List Byte
p32 v = le_bytes 4 v

unfoldable pub p64 : ℕ → List Byte
p64 v = le_bytes 8 v

pub record EntryMeta : Type 0 where
  pub name : Text
  pub size : ℕ
  pub crc : ℕ
  pub local_header_offset : ℕ

unfoldable pub local_header : EntryMeta → List Byte
unfolding p16 p32
local_header e =
    p32 sig_local
    ++ (p16 version_needed
        ++ (p16 0
            ++ (p16 method_store
                ++ (p16 0
                    ++ (p16 0
                        ++ (p32 e.crc
                            ++ (p32 (as_u32 e.size)
                                ++ (p32 (as_u32 e.size)
                                    ++ (p16 (as_u16 (length e.name)) ++ (p16 0 ++ e.name))))))))))

unfoldable pub local_header_len : Text → ℕ
local_header_len name = 30 + length name

unfoldable pub entry_total_len : Text → ℕ → ℕ
entry_total_len name size = local_header_len name + size

unfoldable pub central_dir_entry : EntryMeta → List Byte
unfolding p16 p32 p64
central_dir_entry e =
    let needs_zip64_offset = ltb u32_max e.local_header_offset in
    let extra_len = if needs_zip64_offset then 12 else 0 in
    p32 sig_central
    ++ (p16 version_made_by
        ++ (p16 version_needed
            ++ (p16 0
                ++ (p16 method_store
                    ++ (p16 0
                        ++ (p16 0
                            ++ (p32 e.crc
                                ++ (p32 (as_u32 e.size)
                                    ++ (p32 (as_u32 e.size)
                                        ++ (p16 (as_u16 (length e.name))
                                            ++ (p16 extra_len
                                                ++ (p16 0
                                                    ++ (p16 0
                                                        ++ (p16 0
                                                            ++ (p32 0
                                                            ++ ((if needs_zip64_offset
                                                            then p32 u32_max
                                                            else p32 (as_u32 e.local_header_offset))
                                                            ++ (e.name
                                                            ++ (if needs_zip64_offset
                                                            then p16 zip64_extra_tag
                                                            ++ (p16 8 ++ p64 e.local_header_offset)
                                                            else []))))))))))))))))))

unfoldable pub central_dir_entry_len : Text → ℕ → ℕ
central_dir_entry_len name local_header_offset =
    let extra = if ltb u32_max local_header_offset then 12 else 0 in 46 + length name + extra

unfoldable pub end_records : ℕ → ℕ → ℕ → List Byte
unfolding p16 p32 p64
end_records entry_count cd_offset cd_size =
    let zip64_eocd_offset = cd_offset + cd_size in
    p32 sig_zip64_eocd
    ++ (p64 44
        ++ (p16 version_made_by
            ++ (p16 version_needed
                ++ (p32 0
                    ++ (p32 0
                        ++ (p64 entry_count
                            ++ (p64 entry_count
                                ++ (p64 cd_size
                                    ++ (p64 cd_offset
                                        ++ (p32 sig_zip64_locator
                                            ++ (p32 0
                                                ++ (p64 zip64_eocd_offset
                                                    ++ (p32 1
                                                        ++ (p32 sig_eocd
                                                            ++ (p16 0
                                                            ++ (p16 0
                                                            ++ (p16 (
                                                            if leb u16_max entry_count
                                                            then u16_max
                                                            else as_u16 entry_count)
                                                            ++ (p16 (
                                                            if leb u16_max entry_count
                                                            then u16_max
                                                            else as_u16 entry_count)
                                                            ++ (p32 (
                                                            if leb u32_max cd_size
                                                            then u32_max
                                                            else as_u32 cd_size)
                                                            ++ (p32 (
                                                            if leb u32_max cd_offset
                                                            then u32_max
                                                            else as_u32 cd_offset)
                                                            ++ p16 0))))))))))))))))))))
