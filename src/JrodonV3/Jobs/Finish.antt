-- ===== src/JrodonV3/Jobs/Finish.antt =====
-- `into_part_jobs` as a whole: it never panics, and its jobs upload the entries one after the other
-- and then the central directory.
use demo_s3_archiving.Prelude.{ℕ, ◌+◌, ◌≤◌, ◌≡◌, refl, sym, ap, ap₂, ◌∙◌, subst, arith}
use demo_s3_archiving.Prelude.{List, [], ◌∷◌, ◌++◌, Option, none, some, append_assoc, append-nil}
use demo_s3_archiving.Prelude.{length, All, All-append_inv, All-reverse, sum_by, inl, inr}
use demo_s3_archiving.Bytes.{Byte}
use demo_s3_archiving.JrodonV3.Files.{FileInfo, part_size}
use demo_s3_archiving.JrodonV3.ZipFormat.Eocd
use demo_s3_archiving.JrodonV3.ZipFormat.Eocd.{EndOfCentralDirectory64}
use demo_s3_archiving.JrodonV3.Layout.{ZipLayoutPart, single, duo, full_copy, partial_copy}
use demo_s3_archiving.JrodonV3.Layout.Conserve.{part_files, layout_files}
use demo_s3_archiving.JrodonV3.PartJob.{UploadPartElement, central_directory, PartJob, upload}
use demo_s3_archiving.JrodonV3.Jobs.{
  PartJobsBuilder, new_upload, get_elements, add_files, header_part, copy_behind,
  internal_copy_file, copy_file, partial_copy_file, add_part, add_parts, copy_start,
  directory_element, finish_parts, finalize, into_part_jobs,
}
use demo_s3_archiving.JrodonV3.Jobs.Stream.{Storage, elem_bytes, job_bytes, archive, entries_bytes}
use demo_s3_archiving.JrodonV3.Jobs.Elements.{IsStored, IsExact, sizes_from}
use demo_s3_archiving.JrodonV3.Jobs.Build.{
  type_cases, IsNumbered, built, IsExactPart, IsGood, Builds, new-Builds, extend_parts-upload,
  add_files-Builds, copy_behind-Builds, header_part-bytes, header_part-exact,
}
use mathlib.Core.List.{reverse, reverse-cons, reverse-reverse}

-- What a copy downloads lies inside the file.
abbrev pub IsWithin : ZipLayoutPart → Type 0
IsWithin (single regular) = Unit
IsWithin (duo regular (full_copy f)) = Unit
IsWithin (duo regular (partial_copy f start)) = start ≤ f.size

-- The end records of an archive with directory headers of these sizes behind `offset` bytes.
abbrev pub end_at : List ℕ → ℕ → EndOfCentralDirectory64
end_at sizes offset = record {
  record_count = length sizes;
  central_directory_size = sum_by (λ n. n) sizes;
  central_directory_offset = offset;
  eocd64_offset = offset + sum_by (λ n. n) sizes;
}

abbrev pub directory_at : List ℕ → ℕ → UploadPartElement
directory_at sizes offset =
    central_directory (sum_by (λ n. n) sizes + Eocd.size (end_at sizes offset))
      (end_at sizes offset)

abbrev pub directory_of : List FileInfo → UploadPartElement
directory_of fs = directory_at (sizes_from 0 fs) (part_size fs)

pub internal_copy_file-upload :
    (b : PartJobsBuilder) (f : FileInfo) (start : Option ℕ) (last : PartJob) (parts : List PartJob)
    (es : List UploadPartElement)
    → b.parts ≡ last ∷ parts
    → last.part_job_type ≡ upload es
    → internal_copy_file b f start ≡ some (copy_behind b f start last es parts)
unfolding internal_copy_file copy_behind
internal_copy_file-upload b f start last parts es p e = rw (p, internal_copy_file, e) refl

module _ (s3 : Storage) where
  -- A copy behind `add_files` does not panic.
  copy_added :
      {b : PartJobsBuilder} {fs : List FileInfo} (gs : List FileInfo) (f : FileInfo)
      (start : Option ℕ)
      → Builds s3 b fs
      → All (IsStored s3) (gs ++ f ∷ [])
      → copy_start start ≤ f.size
      → (b' : PartJobsBuilder) × (internal_copy_file (add_files b gs) f start ≡ some b')
        × Builds s3 b' (fs ++ (gs ++ f ∷ []))
  unfolding add_files
  copy_added {b} {fs} gs f start i stored within =
      let (own, big) = All-append_inv (IsStored s3) gs (f ∷ []) stored in
      let elems = (get_elements b.current_archive_offset b.cdfh_sizes gs).0 in
      let (last, front, es, ps, e) = extend_parts-upload s3 b.parts elems in
      (
        copy_behind (add_files b gs) f start last es front,
        internal_copy_file-upload (add_files b gs) f start last front es ps e,
        subst (Builds s3 _) (append_assoc fs gs (f ∷ [])) (
            copy_behind-Builds s3 f start last es front (add_files-Builds s3 gs i own) big.0 within
              ps e),
      )

  add_part-Builds :
      {b : PartJobsBuilder} {fs : List FileInfo} (p : ZipLayoutPart)
      → Builds s3 b fs
      → All (IsStored s3) (part_files p)
      → IsWithin p
      → (b' : PartJobsBuilder) × (add_part b p ≡ some b') × Builds s3 b' (fs ++ part_files p)
  unfolding add_part copy_file partial_copy_file copy_start
  add_part-Builds {b} (single r) i stored w = (add_files b r, refl, add_files-Builds s3 r i stored)
  add_part-Builds (duo r (full_copy f)) i stored w = copy_added r f none i stored (omega arith)
  add_part-Builds (duo r (partial_copy f start)) i stored w = copy_added r f (some start) i stored w

  add_parts-Builds :
      (ps : List ZipLayoutPart) {b : PartJobsBuilder} {fs : List FileInfo}
      → Builds s3 b fs
      → All (IsStored s3) (layout_files ps)
      → All IsWithin ps
      → (b' : PartJobsBuilder) × (add_parts b ps ≡ some b') × Builds s3 b' (fs ++ layout_files ps)
  unfolding add_parts
  add_parts-Builds [] {b} {fs} i stored w = (b, refl, subst (Builds s3 b) (sym (append-nil fs)) i)
  add_parts-Builds (p ∷ ps) {b} {fs} i stored (w, ws) =
      let (own, others) = All-append_inv (IsStored s3) (part_files p) (layout_files ps) stored in
      let (b1, e1, i1) = add_part-Builds p i own w in
      let (b2, e2, i2) = add_parts-Builds ps {b = b1} {fs = fs ++ part_files p} i1 others ws in
      (
        b2,
        rw (e1, add_parts) e2,
        subst (Builds s3 b2) (append_assoc fs (part_files p) (layout_files ps)) i2,
      )

  archive-append : (js ks : List PartJob) → archive s3 (js ++ ks) ≡ archive s3 js ++ archive s3 ks
  archive-append [] ks = refl
  archive-append (j ∷ js) ks =
      ap (λ t. job_bytes s3 j ++ t) (archive-append js ks)
      ∙ sym (append_assoc (job_bytes s3 j) (archive s3 js) (archive s3 ks))

  archive-reverse : (js : List PartJob) → archive s3 (reverse js) ≡ built s3 js
  archive-reverse [] = refl
  archive-reverse (j ∷ js) =
      ap (archive s3) (reverse-cons j js)
      ∙ archive-append (reverse js) (j ∷ [])
      ∙ ap₂ ◌++◌ (archive-reverse js) (append-nil (job_bytes s3 j))

  finish_parts-IsGood :
      (parts : List PartJob) {bytes : List Byte} (cd : UploadPartElement)
      → IsGood s3 parts bytes
      → IsExact s3 cd
      → IsGood s3 (finish_parts parts cd) (bytes ++ elem_bytes s3 cd)
  unfolding finish_parts new_upload header_part
  finish_parts-IsGood [] cd g x = record {
    bytes_lem = ap₂ ◌++◌ g.bytes_lem (append-nil (elem_bytes s3 cd));
    exact = ((refl, (x, tt)), tt);
    numbered = (refl, tt);
  }
  finish_parts-IsGood (last ∷ parts) {bytes} cd g x = elim (type_cases last.part_job_type) [
    | inl (elems, e) ↦ rw e (record {
      bytes_lem =
          ap (λ t. built s3 parts ++ t) (header_part-bytes s3 last elems cd e)
          ∙ sym (append_assoc (built s3 parts) (job_bytes s3 last) (elem_bytes s3 cd))
          ∙ ap (λ t. t ++ elem_bytes s3 cd) g.bytes_lem;
      exact = (header_part-exact s3 last elems cd e g.exact.0 x, g.exact.1);
      numbered = g.numbered;
    })
    | inr (source, range, e) ↦ rw e (record {
      bytes_lem = ap₂ ◌++◌ g.bytes_lem (append-nil (elem_bytes s3 cd));
      exact = ((refl, (x, tt)), g.exact);
      numbered = (refl, g.numbered);
    })
  ]

  directory_element_lem :
      (b : PartJobsBuilder) (fs : List FileInfo)
      → Builds s3 b fs
      → directory_element b ≡ directory_of fs
  unfolding directory_element
  directory_element_lem b fs i = ap₂ (λ (s : List ℕ) (o : ℕ). directory_at s o) i.sizes i.offset

  -- For a layout of stored files the builder does not panic. Its jobs upload the entries of the
  -- files in the order of the layout and then the central directory, and each job is as long as it
  -- says if the directory is.
  pub into_part_jobs_lem :
      (ps : List ZipLayoutPart)
      → All (IsStored s3) (layout_files ps)
      → All IsWithin ps
      → IsExact s3 (directory_of (layout_files ps))
      → (jobs : List PartJob) × (into_part_jobs ps ≡ some jobs)
        × (archive s3 jobs
            ≡ entries_bytes s3 0 (layout_files ps)
              ++ elem_bytes s3 (directory_of (layout_files ps)))
        × All (IsExactPart s3) jobs
        × IsNumbered (reverse jobs)
  unfolding into_part_jobs finalize
  into_part_jobs_lem ps stored within exact =
      let (b, e, i) = add_parts-Builds ps (new-Builds s3) stored within in
      let cd = directory_element_lem b (layout_files ps) i in
      let parts = finish_parts b.parts (directory_element b) in
      let good =
        finish_parts-IsGood b.parts (directory_element b) i.good
          (subst (IsExact s3) (sym cd) exact) in
      (
        reverse parts,
        rw (e, into_part_jobs) refl,
        archive-reverse parts
            ∙ good.bytes_lem
            ∙ ap (λ d. entries_bytes s3 0 (layout_files ps) ++ elem_bytes s3 d) cd,
        All-reverse (IsExactPart s3) parts good.exact,
        rw (reverse-reverse, IsNumbered) good.numbered,
      )
