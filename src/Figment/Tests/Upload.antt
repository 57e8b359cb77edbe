-- ===== src/Figment/Tests/Upload.antt =====
-- The theorems of the assembly of figment-engine at concrete inputs.
use demo_s3_archiving.Prelude.{ℕ, zero, suc, ◌+◌, ◌-◌, ◌<◌, ◌≡◌, refl, ap, ◌∙◌, arith, inl}
use demo_s3_archiving.Prelude.{
  true, false, Option, none, some, List, [], ◌∷◌, ◌++◌, append-nil, Perm, take, drop, ◌==◌,
  if◌then◌else◌,
}
use demo_s3_archiving.Bytes.{Byte, Text, be_bytes}
use demo_s3_archiving.Figment.ZipFormat.{local_header}
use demo_s3_archiving.Figment.Plan.{
  FileId, Entry, streamed_file, copied_file_header, streamed_big_prefix, central_directory,
  PartSpec, copy, stream, SinglePlan,
}
use demo_s3_archiving.Figment.Plan.Contents.{parts_bytes}
use demo_s3_archiving.Figment.Crc.{decode_s3_crc32}
use demo_s3_archiving.Figment.Crc.RoundTrip.{encode, decode_s3_crc32-encode}
use demo_s3_archiving.Figment.Assemble.{
  AssembleError, Result, ok, err, PartRequest, entry_at, entry_meta, crc_of, object_key,
  read_chunks, total_len, build_records, build_central_directory, get_object_bytes,
  get_object_range_bytes, assemble_parts,
}
use demo_s3_archiving.Figment.Assemble.Stream.{Ends, IsServed}
use demo_s3_archiving.Figment.Assemble.Arrival.{completed_bytes, IsCopied, assemble_parts-Ends}
use mathlib.Core.List.{perm_middle}

decode_s3_crc32-encode_example : decode_s3_crc32 (encode (be_bytes 4 0xA2EE69DC)) ≡ some 0xA2EE69DC
decode_s3_crc32-encode_example = decode_s3_crc32-encode 0xA2EE69DC (omega arith)

-- A plan of a big file `a`, of which one byte is streamed, and a small one `b`, in sizes that can be
-- written out.
abbrev entry_a : Entry
entry_a = record {
  id = 0;
  name = (b'a' ∷ []);
  size = 3;
  local_header_offset = 0;
  crc = some 7;
  streamed = false;
}

abbrev entry_b : Entry
entry_b = record {
  id = 1;
  name = (b'b' ∷ []);
  size = 1;
  local_header_offset = 34;
  crc = some 8;
  streamed = true;
}

abbrev plan : SinglePlan
plan = record {
  order = 0 ∷ 1 ∷ [];
  entries = (0, entry_a) ∷ (1, entry_b) ∷ [];
  parts =
      stream 1 (copied_file_header 0 ∷ streamed_big_prefix 0 1 ∷ [])
      ∷ copy 2 0 1
      ∷ stream 3 (streamed_file 1 ∷ central_directory ∷ [])
      ∷ [];
  copyable = 0 ∷ [];
  stats = record {
    entries = 2;
    parts = 3;
    copy_parts = 1;
    stream_parts = 2;
    folded_bigs = 0;
    stolen_bigs = 1;
    bigs = 1;
    smalls = 1;
  };
}

abbrev header : FileId → List Byte
header zero = local_header (entry_meta entry_a 7)
header (suc id) = local_header (entry_meta entry_b 8)

abbrev body : FileId → List Byte
body zero = 1 ∷ 2 ∷ 3 ∷ []
body (suc id) = 9 ∷ []

abbrev value : Result (List Byte) → List Byte
value (ok bytes) = bytes
value (err e) = []

abbrev directory : List Byte
directory = value (build_central_directory plan)

-- The objects `b/f/a` and `b/f/b`, and the answers to GETs in the bucket.
abbrev objects : Text → List Byte
objects (b ∷ s ∷ p ∷ t ∷ c ∷ []) = if c == b'a' then body 0 else body 1
objects source = []

abbrev get : ℕ → Text → Option (ℕ × ℕ) → Result (List (Result (List Byte)))
get attempt key none = ok (ok (objects (b'b' ∷ b'/' ∷ key)) ∷ [])
get attempt key (some (start, last)) =
    ok (ok (take (suc last - start) (drop start (objects (b'b' ∷ b'/' ∷ key)))) ∷ [])

abbrev send : ℕ → ℕ → PartRequest → Result (Option Text)
send attempt n request = ok (some [])

abbrev Never : AssembleError → Type 0
Never e = ⊥

front_bytes :
    (len : ℕ) (bs : List Byte) → 0 < len → take (suc (0 + len - 1) - 0) bs ++ [] ≡ take len bs
front_bytes len bs pos =
    let e : suc (0 + len - 1) - 0 ≡ len = omega (arith, pos) in
    append-nil (take (suc (0 + len - 1) - 0) bs) ∙ ap (λ n. take n bs) e

served_a : (attempt : ℕ) → IsServed Never (b'f' ∷ []) plan header body directory (get attempt) 0
unfolding entry_at entry_meta get_object_bytes get_object_range_bytes object_key read_chunks
served_a attempt = record {
  entry = entry_a;
  crc = 7;
  found = refl;
  filled = refl;
  headed = refl;
  whole = inl (1 ∷ 2 ∷ 3 ∷ [], refl, refl);
  prefix = λ len pos fits. inl (_, front_bytes len (body 0) pos, refl);
}

served_b : (attempt : ℕ) → IsServed Never (b'f' ∷ []) plan header body directory (get attempt) 1
unfolding entry_at entry_meta get_object_bytes get_object_range_bytes object_key read_chunks
served_b attempt = record {
  entry = entry_b;
  crc = 8;
  found = refl;
  filled = refl;
  headed = refl;
  whole = inl (9 ∷ [], refl, refl);
  prefix = λ len pos fits. inl (_, front_bytes len (body 1) pos, refl);
}

copy_of_a : IsCopied Never objects get send (b'b' ∷ []) (b'f' ∷ []) plan header body directory 0 1
unfolding object_key served_a
copy_of_a = record { served = served_a 0; there = refl; sized = refl; inside = omega arith }

directed : build_central_directory plan ≡ ok directory
unfolding build_central_directory total_len build_records entry_at crc_of
directed = refl

-- The copy is done first, and the first part last.
abbrev arrival : List PartSpec
arrival =
    copy 2 0 1
    ∷ stream 3 (streamed_file 1 ∷ central_directory ∷ [])
    ∷ stream 1 (copied_file_header 0 ∷ streamed_big_prefix 0 1 ∷ [])
    ∷ []

arrival-perm : Perm arrival plan.parts
arrival-perm =
    perm_middle (copy 2 0 1 ∷ stream 3 (streamed_file 1 ∷ central_directory ∷ []) ∷ []) []

assemble_parts-Ends_example :
    Ends Never
      (λ ps. completed_bytes objects ps ≡ parts_bytes header body directory plan.parts)
      (assemble_parts get send (b'b' ∷ []) (b'f' ∷ []) plan arrival)
assemble_parts-Ends_example =
    assemble_parts-Ends Never objects get send (b'b' ∷ []) (b'f' ∷ []) plan header body directory
      arrival (λ attempt n request. inl (some [], ([], refl), refl)) arrival-perm
      (refl, (refl, (refl, tt)))
      (
        copy_of_a,
        (
          λ attempt. (served_b attempt, (directed, tt)),
          (λ attempt. (served_a attempt, ((served_a attempt, omega arith, omega arith), tt)), tt),
        ),
      )
