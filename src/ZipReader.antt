-- ===== src/ZipReader.antt =====
-- A reader of ZIP records, written from the file format's description (APPNOTE 4.3 and 4.5) and not
-- from any archiver: the yardstick for what the archivers write. Entries are stored, not compressed.
use demo_s3_archiving.Prelude.{ℕ, zero, suc, ◌&&◌, ◌==◌}
use demo_s3_archiving.Prelude.{
  List, [], ◌∷◌, Option, none, some, if◌then◌else◌, length, ◌++◌, ◌≡◌, refl, arith, append_assoc,
}
use demo_s3_archiving.Bytes.{Byte, Text, read_le, read_le-le_bytes}

abbrev pub Reader : Type 0 → Type 0
Reader A = List Byte → Option (A × List Byte)

-- What follows a read: it goes on with the value and the bytes that are left.
unfoldable pub after {ℓ} : {A : Type 0} {C : Type ℓ} → Option A → (A → Option C) → Option C
after none f = none
after (some a) f = f a

infixl 5 ◌>>=◌ ◌>>◌
abbrev pub ◌>>=◌ : {A B : Type 0} → Reader A → (A → Reader B) → Reader B
◌>>=◌ m f bs = after (m bs) (λ p. f p.0 p.1)

abbrev pub ◌>>◌ : {A B : Type 0} → Reader A → Reader B → Reader B
◌>>◌ m k bs = after (m bs) (λ p. k p.1)

pub after-some {ℓ} : {A : Type 0} {C : Type ℓ} (a : A) (f : A → Option C) → after (some a) f ≡ f a
unfolding after
after-some a f = refl

abbrev pub give : {A : Type 0} → A → Reader A
give a bs = some (a, bs)

abbrev pub u16 : Reader ℕ
u16 = read_le 2

abbrev pub u32 : Reader ℕ
u32 = read_le 4

abbrev pub u64 : Reader ℕ
u64 = read_le 8

-- A field that must have one value.
unfoldable pub check : ℕ → ℕ → Reader (Unit {0})
check v w bs = if w == v then some (tt, bs) else none

abbrev pub expect : Reader ℕ → ℕ → Reader (Unit {0})
expect field v = field >>= check v

pub check_self : (v : ℕ) (bs : List Byte) → check v v bs ≡ some (tt, bs)
unfolding check
check_self v bs = ground arith

-- So many bytes as they are.
unfoldable pub text : ℕ → Reader Text
text zero bs = some ([], bs)
text (suc n) [] = none
text (suc n) (b ∷ bs) = (text n >>= λ t. give (b ∷ t)) bs

pub text-append : (t rest : List Byte) → text (length t) (t ++ rest) ≡ some (t, rest)
unfolding text after
text-append [] rest = refl
text-append (b ∷ t) rest = rw (text-append t rest)

pub text-zero : (bs : List Byte) → text 0 bs ≡ some ([], bs)
unfolding text
text-zero bs = refl

-- How a reader runs over what `le_bytes` and the like wrote.
pub ruleset reading =
    (append_assoc, read_le-le_bytes, text-append, text-zero, after-some, check_self)

-- The ZIP64 extra field of a local header: both sizes.
unfoldable pub zip64_size : ℕ → ℕ → Reader ℕ
zip64_size size extra_len =
    if extra_len == 20 && size == 0xFFFFFFFF
    then (do expect u16 1; expect u16 16; big ← u64; expect u64 big; give big)
    else (do text extra_len; give size)

-- What a reader needs of an entry.
pub record EntryView : Type 0 where
  pub name : Text
  pub crc : ℕ
  pub size : ℕ

unfoldable pub read_local_header : Reader EntryView
unfolding zip64_size
read_local_header = do
  expect u32 0x04034B50
  u16
  expect u16 0
  expect u16 0
  u16
  u16
  crc ← u32
  compressed ← u32
  expect u32 compressed
  name_len ← u16
  extra_len ← u16
  name ← text name_len
  size ← zip64_size compressed extra_len
  give (record { name = name; crc = crc; size = size })

-- The ZIP64 extra field of a central directory header carries what its fixed fields leave out.
unfoldable pub zip64_fields : ℕ → ℕ → ℕ → Reader (ℕ × ℕ)
zip64_fields size offset extra_len =
    if extra_len == 28 && size == 0xFFFFFFFF && offset == 0xFFFFFFFF
    then (do expect u16 1; expect u16 24; big ← u64; expect u64 big; far ← u64; give (big, far))
    else if extra_len == 20 && size == 0xFFFFFFFF
    then (do expect u16 1; expect u16 16; big ← u64; expect u64 big; give (big, offset))
    else if extra_len == 12 && offset == 0xFFFFFFFF
    then (do expect u16 1; expect u16 8; far ← u64; give (size, far))
    else (do text extra_len; give (size, offset))

-- An entry, and where its local header is.
pub record CentralView : Type 0 where
  pub entry : EntryView
  pub offset : ℕ

unfoldable pub read_central_header : Reader CentralView
unfolding zip64_fields
read_central_header = do
  expect u32 0x02014B50
  u16
  u16
  expect u16 0
  expect u16 0
  u16
  u16
  crc ← u32
  compressed ← u32
  expect u32 compressed
  name_len ← u16
  extra_len ← u16
  expect u16 0
  expect u16 0
  u16
  u32
  offset ← u32
  name ← text name_len
  fields ← zip64_fields compressed offset extra_len
  give (record { entry = record { name = name; crc = crc; size = fields.0 }; offset = fields.1 })

-- What the end of an archive says of its directory. `zip64` is what the ZIP64 locator says where there
-- is one: where the ZIP64 record is, and how many disks there are.
pub record EndView : Type 0 where
  pub entries : ℕ
  pub directory_size : ℕ
  pub directory_offset : ℕ
  pub zip64 : Option (ℕ × ℕ)

-- A field of the classic record, which the ZIP64 record replaces exactly where it is all ones.
unfoldable pub resolve : ℕ → ℕ → ℕ → ℕ
resolve ones field big = if field == ones then big else field

-- The classic record behind its signature, with what a ZIP64 record before says.
abbrev pub read_classic_end : EndView → Reader EndView
read_classic_end big = do
  disk ← u16
  check 0 (resolve 0xFFFF disk 0)
  start ← u16
  check 0 (resolve 0xFFFF start 0)
  entries ← u16
  expect u16 entries
  size ← u32
  offset ← u32
  expect u16 0
  give (record {
    entries = resolve 0xFFFF entries big.entries;
    directory_size = resolve 0xFFFFFFFF size big.directory_size;
    directory_offset = resolve 0xFFFFFFFF offset big.directory_offset;
    zip64 = big.zip64;
  })

-- The classic record where there is no ZIP64 record: all fields are as they stand.
abbrev pub read_plain_end : Reader EndView
read_plain_end = do
  expect u16 0
  expect u16 0
  entries ← u16
  expect u16 entries
  size ← u32
  offset ← u32
  expect u16 0
  give
      (record { entries = entries; directory_size = size; directory_offset = offset; zip64 = none })

-- The ZIP64 record behind its signature, its locator, and the classic record.
abbrev pub read_zip64_end : Reader EndView
read_zip64_end = do
  expect u64 44
  u16
  u16
  expect u32 0
  expect u32 0
  entries ← u64
  expect u64 entries
  size ← u64
  offset ← u64
  expect u32 0x07064B50
  expect u32 0
  at ← u64
  disks ← u32
  expect u32 0x06054B50
  read_classic_end (record {
    entries = entries;
    directory_size = size;
    directory_offset = offset;
    zip64 = some (at, disks);
  })

unfoldable pub read_end : Reader EndView
unfolding resolve
read_end = do
  signature ← u32
  if signature == 0x06064B50
      then read_zip64_end
      else if signature == 0x06054B50
      then read_plain_end
      else (λ bs. none)
