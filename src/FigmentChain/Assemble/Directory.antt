-- ===== src/FigmentChain/Assemble/Directory.antt =====
-- The central directory that is built behind the segments of a plan.
use demo_s3_archiving.Prelude.{ℕ, ◌+◌, ◌≤◌, ◌≡◌, ◌⊎◌, refl, sym, ap, ◌∙◌, subst, arith, inl, inr}
use demo_s3_archiving.Prelude.{
  true, false, Bool-cases, ◌==◌, some, Option-cases, List, [], ◌∷◌, ◌++◌, map, length,
  length-append, All,
}
use demo_s3_archiving.Bytes.{Byte, Text}
use demo_s3_archiving.Figment.ZipFormat.{EntryMeta, central_dir_entry, end_records}
use demo_s3_archiving.Figment.ZipFormat.RoundTrip.{length-central_dir_entry}
use demo_s3_archiving.Figment.Plan.{FileId, SourceFile, compute_offsets}
use demo_s3_archiving.FigmentChain.PlanChain.{Entry, ChainPlan, plan_segment_chain}
use demo_s3_archiving.FigmentChain.PlanChain
use demo_s3_archiving.FigmentChain.PlanChain.Table.{
  is, count, records_len, entries_of-listed, entries_of-distinct,
}
use demo_s3_archiving.FigmentChain.PlanChain.Offsets.{listed-ids}
use demo_s3_archiving.FigmentChain.PlanChain.Whole.{table, chained, planned, finished}
use demo_s3_archiving.FigmentChain.Assemble.{bad_crc, ok, err}
use demo_s3_archiving.FigmentChain.Assemble.Build.{
  CrcStore, entry_at, meta_of, build_records, build_central_directory,
}

abbrev pub Entries : Type 0
Entries = List (FileId × Entry)

abbrev pub keys : Entries → List FileId
keys es = map (λ p. p.0) es

absent : (id : FileId) (es : Entries) → count id (keys es) ≡ 0 → All (λ p. (id == p.0) ≡ false) es
absent id [] h = tt
absent id (p ∷ es) h = elim (Bool-cases (id == p.0)) [
  | inl e ↦
      let same : p.0 ≡ id = ground (arith, e) in
      absurd (let one : is id p.0 ≡ 1 = ground (arith, same) in omega (arith, h, one))
  | inr e ↦ (e, absent id es (omega (arith, h)))
]

found_behind :
    (es : Entries) (id : FileId) (e : Entry) (fs : Entries)
    → All (λ p. (id == p.0) ≡ false) fs
    → All (λ p. entry_at es p.0 ≡ ok p.1) fs
    → All (λ p. entry_at ((id, e) ∷ es) p.0 ≡ ok p.1) fs
unfolding entry_at
found_behind es id e [] a b = tt
found_behind es id e (p ∷ fs) (x, a) (y, b) = (rw x y, found_behind es id e fs a b)

-- Where no id stands twice, each entry is found under its id.
pub entry_at-found :
    (es : Entries) → ((a : FileId) → count a (keys es) ≤ 1) → All (λ p. entry_at es p.0 ≡ ok p.1) es
unfolding entry_at
entry_at-found [] h = tt
entry_at-found ((id, e) ∷ es) h =
    let own : (id == id) ≡ true = ground arith in
    let one : is id id ≡ 1 = ground arith in
    (
      rw own refl,
      found_behind es id e es (absent id es (omega (arith, h id, one)))
          (entry_at-found es (λ a. omega (arith, h a))),
    )

-- Bytes that are the records of these entries in their order, each with the name, the size and the
-- offset of its entry and the CRC that has arrived for it.
abbrev pub AreRecords : CrcStore → Entries → List Byte → Type 0
AreRecords crcs [] out = out ≡ []
AreRecords crcs ((id, e) ∷ es) out =
    (crc : ℕ) × (rest : List Byte) × (crcs e.id ≡ some crc)
    × (out
        ≡ central_dir_entry (record {
          name = e.name;
          size = e.size;
          crc = crc;
          local_header_offset = e.local_header_offset;
        })
          ++ rest)
    × AreRecords crcs es rest

module _ (full : Entries) (crcs : CrcStore) where
  -- The CRC of an entry has arrived.
  abbrev pub HasCrc : FileId × Entry → Type 0
  HasCrc p = (crc : ℕ) × (crcs p.1.id ≡ some crc)

  build_records-outcome :
      (es : Entries)
      → All (λ p. entry_at full p.0 ≡ ok p.1) es
      → (All HasCrc es
          × ((out : List Byte) × AreRecords crcs es out
              × (length out ≡ records_len es)
              × (build_records full crcs (keys es) ≡ ok (out, length out))))
        ⊎ (¬ All HasCrc es
            × ((name : Text) × (build_records full crcs (keys es) ≡ err (bad_crc name))))
  unfolding build_records meta_of
  build_records-outcome [] h = inl (tt, ([], refl, refl, refl))
  build_records-outcome (p ∷ es) (found, h) = elim (Option-cases (crcs p.1.id)) [
    | inl n ↦ inr (
      λ a. let (crc, e) = a.0 in absurd (cc (sym n ∙ e)),
      (p.1.name, rw (build_records, found, n) refl),
    )
    | inr (crc, s) ↦ elim (build_records-outcome es h) [
      | inl (arrived, (out, records, long, e)) ↦
          let meta : EntryMeta = record {
            name = p.1.name;
            size = p.1.size;
            crc = crc;
            local_header_offset = p.1.local_header_offset;
          } in
          let rec = central_dir_entry meta in
          let sum : length rec + length out ≡ length (rec ++ out) =
            omega (arith, length-append rec out) in
          inl (
            ((crc, s), arrived),
            (
              rec ++ out,
              (crc, out, s, refl, records),
              omega (arith, length-append rec out, long, length-central_dir_entry meta),
              rw (build_records, found, s, e) (ap (λ n. ok (rec ++ out, n)) sum),
            ),
          )
      | inr (missing, (name, e)) ↦
          inr (λ a. missing a.1, (name, rw (build_records, found, s, e) refl))
    ]
  ]

directory-ok :
    (plan : ChainPlan) (crcs : CrcStore) (out : List Byte) (cd_size : ℕ)
    → build_records plan.entries crcs plan.order ≡ ok (out, length out)
    → length out ≡ cd_size
    → build_central_directory plan crcs
      ≡ ok (out ++ end_records (length plan.order) plan.cd_offset cd_size)
unfolding build_central_directory
directory-ok plan crcs out cd_size e long =
    rw (build_central_directory, e)
      (ap (λ n. ok (out ++ end_records (length plan.order) plan.cd_offset n)) long)

directory-err :
    (plan : ChainPlan) (crcs : CrcStore) (name : Text)
    → build_records plan.entries crcs plan.order ≡ err (bad_crc name)
    → build_central_directory plan crcs ≡ err (bad_crc name)
unfolding build_central_directory
directory-err plan crcs name e = rw (build_central_directory, e) refl

-- The two outcomes of building the central directory.
abbrev pub IsDirected : CrcStore → ChainPlan → Type 0
IsDirected crcs plan =
    (All (HasCrc plan.entries crcs) plan.entries
      × ((records : List Byte) × AreRecords crcs plan.entries records
          × (length records ≡ plan.cd_size)
          × (build_central_directory plan crcs
              ≡ ok (records ++ end_records (length plan.order) plan.cd_offset plan.cd_size))))
    ⊎ (¬ All (HasCrc plan.entries crcs) plan.entries
        × ((name : Text) × (build_central_directory plan crcs ≡ err (bad_crc name))))

-- For a plan, the central directory is built exactly where the CRC of each entry has arrived: it is
-- the record of each entry in their order, with the name, the size and the offset of the entry and the
-- CRC that has arrived, together of the length that the planner has computed, and the end records with
-- the number of entries and the planner's offset and length. Else it is an error of a missing CRC.
pub build_central_directory-outcome :
    (files : List SourceFile) (plan : ChainPlan) (crcs : CrcStore)
    → plan_segment_chain files ≡ PlanChain.ok plan
    → IsDirected crcs plan
unfolding compute_offsets
build_central_directory-outcome files plan crcs e =
    let (r, big, found, same) = planned files plan e in
    let order = (chained files).order in
    let read = entries_of-listed (table files) order [] 0 r found in
    let keyed : keys r.0 ≡ order =
      ap (λ (q : Entries × ℕ). keys q.0) read ∙ listed-ids (table files) order 0 in
    let sized : records_len r.0 ≡ r.1 =
      ap (λ (q : Entries × ℕ). records_len q.0) read ∙ ap (λ (q : Entries × ℕ). q.1) (sym read) in
    let single : (a : FileId) → count a (keys r.0) ≤ 1 = λ a. omega (
      arith,
      ap (count a) keyed,
      entries_of-distinct (table files) order [] _ r found (λ b. omega arith) a,
    ) in
    subst (IsDirected crcs) same
      (elim (build_records-outcome r.0 crcs r.0 (entry_at-found r.0 single)) [
        | inl (arrived, (out, records, long, h)) ↦
            let k : build_records r.0 crcs order ≡ ok (out, length out) =
              subst (λ o. build_records r.0 crcs o ≡ ok (out, length out)) keyed h in
            inl (
              arrived,
              (
                out,
                records,
                long ∙ sized,
                directory-ok (finished files r) crcs out r.1 k (long ∙ sized),
              ),
            )
        | inr (missing, (name, h)) ↦
            let k : build_records r.0 crcs order ≡ err (bad_crc name) =
              subst (λ o. build_records r.0 crcs o ≡ err (bad_crc name)) keyed h in
            inr (missing, (name, directory-err (finished files r) crcs name k))
      ])
