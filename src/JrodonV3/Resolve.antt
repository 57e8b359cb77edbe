-- ===== src/JrodonV3/Resolve.antt =====
-- contenders/rust/jrodon-v3/src/part_executor/mod.rs: `EntryFromS3::resolve_and_write`. Any error
-- ends it, which is `none`. The calls of the AWS SDK and of the base64 crate are arguments.
pub mod Content
use demo_s3_archiving.Prelude.{ℕ, ◌-◌, List, [], ◌∷◌, Option, none, some}
use demo_s3_archiving.Bytes.{Byte, Text}
use demo_s3_archiving.Bytes.Sink.{Dump, write, nothing, ◌⨾◌}
use demo_s3_archiving.JrodonV3.ZipFormat.Field.{Crc32, from_str}
use demo_s3_archiving.JrodonV3.ZipFormat.Loc.{set_crc}
use demo_s3_archiving.JrodonV3.ZipFormat.Loc
use demo_s3_archiving.JrodonV3.ZipFormat.Cdfh.{CentralDirectoryFileHeader, from_loc}
use demo_s3_archiving.JrodonV3.PartJob.{S3ObjectOperation, get, partial_get, head, EntryFromS3}

-- An error ends a function.
infixl 5 ◌>>=◌
abbrev ◌>>=◌ {ℓ κ} : {A : Type ℓ} {B : Type κ} → Option A → (A → Option B) → Option B
none >>= f = none
some a >>= f = f a

-- A body is its chunks, each of which may fail.
abbrev pub ByteStream : Type 0
ByteStream = List (Option (List Byte))

-- What a response carries: the checksum's text, and the body.
pub record Response : Type 0 where
  pub checksum_crc32 : Option Text
  pub body : ByteStream

-- The `while` over the chunks of the body.
unfoldable pub write_chunks : ByteStream → Option Dump
write_chunks [] = some nothing
write_chunks (none ∷ stream) = none
write_chunks (some chunk ∷ stream) = elim (write_chunks stream) [
  | none ↦ none
  | some d ↦ some (write chunk ⨾ d)
]

module _ (decode_slice : Text → Option Crc32)
    (get_object : Text → Text → Option (ℕ × ℕ) → Option Response)
    (head_object : Text → Text → Option Response) where
  -- `.checksum_crc32.ok_or(..)?.parse()?`
  unfoldable pub parse_checksum : Option Text → Option Crc32
  parse_checksum none = none
  parse_checksum (some text) = from_str decode_slice text

  -- The `match operation`: the checksum and the body. A range is `bytes=first-last`.
  unfoldable pub resolve : S3ObjectOperation → Text → Text → Option (Crc32 × Option ByteStream)
  resolve get bucket key = do
    resp ← get_object bucket key none
    crc ← parse_checksum resp.checksum_crc32
    some (crc, some resp.body)
  resolve (partial_get size) bucket key = do
    head_obj ← head_object bucket key
    crc ← parse_checksum head_obj.checksum_crc32
    get_obj ← get_object bucket key (some (0, size - 1))
    some (crc, some get_obj.body)
  resolve head bucket key = do
    resp ← head_object bucket key
    crc ← parse_checksum resp.checksum_crc32
    some (crc, none)

  -- What is written of the body.
  unfoldable pub write_body : Option ByteStream → Option Dump
  write_body none = some nothing
  write_body (some stream) = write_chunks stream

  -- `EntryFromS3::resolve_and_write`: what is written, and the header that is sent.
  unfoldable pub resolve_and_write : EntryFromS3 → Option (Dump × CentralDirectoryFileHeader)
  resolve_and_write e = do
    resolved ← resolve e.operation e.bucket_name e.key
    let loc = set_crc e.loc resolved.0
    rest ← write_body resolved.1
    some (Loc.dump loc ⨾ rest, from_loc loc)
