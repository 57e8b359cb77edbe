-- ===== src/Figment/Tests/Heads.antt =====
-- The checksums of a plan of figment-engine at a concrete input.
use demo_s3_archiving.Prelude.{
  ℕ, zero, suc, ◌≡◌, refl, inl, true, false, Option, none, some, List, [], ◌∷◌, ◌++◌, All,
}
use mathlib.Core.List.{Permᴰ}
use demo_s3_archiving.Bytes.{Text, codes}
use demo_s3_archiving.Figment.Plan.{FileId, Entry, SinglePlan}
use demo_s3_archiving.Figment.Crc
use demo_s3_archiving.Figment.ZipFormat.{end_records}
use demo_s3_archiving.Figment.Assemble.Checksums.Directory.{
  records, records_len, files_len, fill_crcs-build_central_directory,
}
use demo_s3_archiving.Figment.Assemble.{
  ◌>>=◌, build_central_directory, AssembleError, Result, ok, entry_at,
}
use demo_s3_archiving.Figment.Assemble.Stream.{Ends}
use demo_s3_archiving.Figment.Assemble.Checksums.{Job, fill_crcs}
use demo_s3_archiving.Figment.Assemble.Checksums.Filled.{fill_crcs-Ends}

-- Two files before their checksums are known.
abbrev bare : FileId → Entry
bare zero = record {
  id = 0;
  name = (b'a' ∷ []);
  size = 3;
  local_header_offset = 0;
  crc = none;
  streamed = false;
}
bare (suc id) = record {
  id = 1;
  name = (b'b' ∷ []);
  size = 1;
  local_header_offset = 34;
  crc = none;
  streamed = true;
}

abbrev bare_plan : SinglePlan
bare_plan = record {
  order = 0 ∷ 1 ∷ [];
  entries = (0, bare 0) ∷ (1, bare 1) ∷ [];
  parts = [];
  copyable = [];
  stats = record {
    entries = 2;
    parts = 0;
    copy_parts = 0;
    stream_parts = 0;
    folded_bigs = 0;
    stolen_bigs = 0;
    bigs = 0;
    smalls = 0;
  };
}

abbrev head : ℕ → Text → Result (Option Text)
head attempt key = ok (some (codes "AAAABw=="))

-- The answer to the second HEAD comes first.
abbrev arrive : List Job → List Job
arrive [] = []
arrive (j ∷ []) = j ∷ []
arrive (i ∷ j ∷ jobs) = j ∷ i ∷ jobs

arrive-perm : (jobs : List Job) → Permᴰ (arrive jobs) jobs
arrive-perm [] = Permᴰ.nil
arrive-perm (j ∷ []) = Permᴰ.cons refl Permᴰ.nil
arrive-perm (i ∷ j ∷ jobs) = Permᴰ.swap refl refl

decoded : Crc.decode_s3_crc32 (codes "AAAABw==") ≡ some 7
unfolding Crc.base64_decode Crc.chunk_bytes Crc.decode_chunk Crc.decode_chunks Crc.decode_s3_crc32
    Crc.four_bytes Crc.is_space Crc.trim Crc.trim_start Crc.val Crc.val_or_pad
decoded = refl

-- The entries are found in the plan.
found_a : entry_at bare_plan.entries 0 ≡ ok (bare 0)
unfolding entry_at
found_a = refl

found_b : entry_at bare_plan.entries 1 ≡ ok (bare 1)
unfolding entry_at
found_b = refl

abbrev Never : AssembleError → Type 0
Never e = ⊥

fill_crcs-Ends_example :
    Ends Never
      (λ filled.
        All (λ id. entry_at filled.entries id ≡ ok (record (bare id) { crc = some 7 })) (0 ∷ 1 ∷ [])
        × (filled.order ≡ (0 ∷ 1 ∷ []))
        × (filled.parts ≡ []))
      (fill_crcs head (λ id. []) (b'f' ∷ []) arrive bare_plan)
fill_crcs-Ends_example =
    fill_crcs-Ends Never head (λ id. []) (b'f' ∷ []) bare (λ id. 7) bare_plan arrive arrive-perm
      (found_a, (found_b, tt))
      (
        λ attempt. inl (some (codes "AAAABw=="), (codes "AAAABw==", refl, decoded), refl),
        (λ attempt. inl (some (codes "AAAABw=="), (codes "AAAABw==", refl, decoded), refl), tt),
      )

fill_crcs-build_central_directory_example :
    Ends Never
      (λ bytes.
        bytes
        ≡ records bare (λ id. 7) (0 ∷ 1 ∷ [])
          ++ end_records 2
              (files_len bare (λ id. 7) (0 ∷ 1 ∷ []))
              (records_len bare (λ id. 7) (0 ∷ 1 ∷ [])))
      (fill_crcs head (λ id. []) (b'f' ∷ []) arrive bare_plan >>= build_central_directory)
fill_crcs-build_central_directory_example =
    fill_crcs-build_central_directory Never head (λ id. []) (b'f' ∷ []) bare (λ id. 7) bare_plan
      arrive arrive-perm (found_a, (found_b, tt))
      (
        λ attempt. inl (some (codes "AAAABw=="), (codes "AAAABw==", refl, decoded), refl),
        (λ attempt. inl (some (codes "AAAABw=="), (codes "AAAABw==", refl, decoded), refl), tt),
      )
