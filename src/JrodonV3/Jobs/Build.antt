-- ===== src/JrodonV3/Jobs/Build.antt =====
-- The builder's invariant: what the parts built so far upload is the entries registered so far.
use demo_s3_archiving.Prelude.{ℕ, ◌+◌, ◌≤◌, ◌≡◌, ◌⊎◌, refl, sym, ap, ap₂, ◌∙◌, subst, arith}
use demo_s3_archiving.Prelude.{List, [], ◌∷◌, ◌++◌, Option, append_assoc, append-nil}
use demo_s3_archiving.Prelude.{length, All, All-append, sum_by, sum_by-append, inl, inr}
use demo_s3_archiving.Bytes.{Byte, Text}
use demo_s3_archiving.JrodonV3.Files.{FileInfo, loc_size, entry_size, part_size}
use demo_s3_archiving.JrodonV3.ZipFormat.Loc
use demo_s3_archiving.JrodonV3.ZipFormat.Loc.{make}
use demo_s3_archiving.JrodonV3.PartJob.{UploadPartElement, PartJob, PartJobType, upload, copy}
use demo_s3_archiving.JrodonV3.PartJob.{elem_size}
use demo_s3_archiving.JrodonV3.Jobs.{
  PartJobsBuilder, new, get_elements, new_upload, extend_parts, add_files, header_part, copy_part,
  copy_behind, element, loc_at, copy_operation, copy_start, copy_range, copy_source_of, cdfh_size,
}
use demo_s3_archiving.JrodonV3.Jobs.Stream.{
  Storage, elem_bytes, elems_bytes, job_bytes, entries_bytes,
}
use demo_s3_archiving.JrodonV3.Jobs.Stream.{copied_bytes, entry_bytes}
use demo_s3_archiving.JrodonV3.Jobs.Elements.{IsStored, IsExact, sizes_from, sizes_from-append}
use demo_s3_archiving.JrodonV3.Jobs.Elements.{entries_bytes-append, get_elements_lem, copy_bytes}
use demo_s3_archiving.JrodonV3.Jobs.Elements.{copy-IsExact}

pub type_cases :
    (t : PartJobType)
    → ((es : List UploadPartElement) × (t ≡ upload es))
      ⊎ ((s : Text) × (r : Option (ℕ × ℕ)) × (t ≡ copy s r))
type_cases (upload es) = inl (es, refl)
type_cases (copy s r) = inr (s, r, refl)

-- Parts are numbered from 1 without a gap; the newest stands first.
abbrev pub IsNumbered : List PartJob → Type 0
IsNumbered [] = Unit
IsNumbered (j ∷ js) = (j.part_number ≡ length js + 1) × IsNumbered js

regroup : (a b c d : List Byte) → (a ++ (b ++ c)) ++ d ≡ (a ++ b) ++ (c ++ d)
regroup a b c d = simp append_assoc

module _ (s3 : Storage) where
  open s3 use {object, checksum}

  -- The bytes of the parts, the newest first in the list.
  abbrev pub built : List PartJob → List Byte
  built [] = []
  built (j ∷ js) = built js ++ job_bytes s3 j

  -- A part has as many bytes as it says, and so has each element of an upload.
  abbrev pub IsExactType : ℕ → PartJobType → Type 0
  IsExactType n (upload es) = (n ≡ sum_by elem_size es) × All (IsExact s3) es
  IsExactType n (copy source range) = n ≡ length (copied_bytes range (object source))

  abbrev pub IsExactPart : PartJob → Type 0
  IsExactPart j = IsExactType j.part_size j.part_job_type

  elems_bytes-append :
      (es ds : List UploadPartElement)
      → elems_bytes s3 (es ++ ds) ≡ elems_bytes s3 es ++ elems_bytes s3 ds
  elems_bytes-append [] ds = refl
  elems_bytes-append (e ∷ es) ds =
      ap (λ t. elem_bytes s3 e ++ t) (elems_bytes-append es ds)
      ∙ sym (append_assoc (elem_bytes s3 e) (elems_bytes s3 es) (elems_bytes s3 ds))

  -- What a step on the parts keeps.
  pub record IsGood (parts : List PartJob) (bytes : List Byte) : Type 0 where
    pub bytes_lem : built parts ≡ bytes
    pub exact : All IsExactPart parts
    pub numbered : IsNumbered parts

  pub extend_parts-IsGood :
      {parts : List PartJob} {bytes : List Byte} (es : List UploadPartElement)
      → IsGood parts bytes
      → All (IsExact s3) es
      → IsGood (extend_parts parts es) (bytes ++ elems_bytes s3 es)
  unfolding extend_parts new_upload
  extend_parts-IsGood {parts = []} es g h = record {
    bytes_lem = ap (λ t. t ++ elems_bytes s3 es) g.bytes_lem;
    exact = ((refl, h), tt);
    numbered = (refl, tt);
  }
  extend_parts-IsGood {parts = last ∷ parts} {bytes} es g h = elim (type_cases last.part_job_type) [
    | inl (before, e) ↦
        let old : built parts ++ elems_bytes s3 before ≡ bytes = rw e at g.bytes_lem in
        let sized : IsExactType last.part_size (upload before) = rw e at g.exact.0 in
        rw e (record {
          bytes_lem =
              ap (λ t. built parts ++ t) (elems_bytes-append before es)
              ∙ sym (append_assoc (built parts) (elems_bytes s3 before) (elems_bytes s3 es))
              ∙ ap (λ t. t ++ elems_bytes s3 es) old;
          exact = ((refl, All-append (IsExact s3) before es sized.1 h), g.exact.1);
          numbered = g.numbered;
        })
    | inr (source, range, e) ↦ rw e (record {
      bytes_lem = ap (λ t. t ++ elems_bytes s3 es) g.bytes_lem;
      exact = ((refl, h), g.exact);
      numbered = (refl, g.numbered);
    })
  ]

  -- After `extend_parts` the last part is an upload.
  pub extend_parts-upload :
      (parts : List PartJob) (es : List UploadPartElement)
      → (last : PartJob) × (front : List PartJob) × (elems : List UploadPartElement) × (extend_parts
            parts es
          ≡ last ∷ front)
        × (last.part_job_type ≡ upload elems)
  unfolding extend_parts new_upload
  extend_parts-upload [] es = (new_upload [] es, [], es, refl, refl)
  extend_parts-upload (last ∷ parts) es = elim (type_cases last.part_job_type) [
    | inl (before, e) ↦ (
      record last {
        part_size = sum_by elem_size (before ++ es);
        part_job_type = upload (before ++ es);
      },
      parts,
      before ++ es,
      rw e refl,
      refl,
    )
    | inr (source, range, e) ↦ (new_upload (last ∷ parts) es, last ∷ parts, es, simp e, refl)
  ]

  -- The invariant for the files `fs`.
  pub record Builds (b : PartJobsBuilder) (fs : List FileInfo) : Type 0 where
    pub good : IsGood b.parts (entries_bytes s3 0 fs)
    pub offset : b.current_archive_offset ≡ part_size fs
    pub sizes : b.cdfh_sizes ≡ sizes_from 0 fs

  pub new-Builds : Builds new []
  unfolding sizes_from
  new-Builds = record {
    good = record { bytes_lem = refl; exact = tt; numbered = tt };
    offset = refl;
    sizes = refl;
  }

  pub add_files-Builds :
      {b : PartJobsBuilder} {fs : List FileInfo} (gs : List FileInfo)
      → Builds b fs
      → All (IsStored s3) gs
      → Builds (add_files b gs) (fs ++ gs)
  unfolding add_files
  add_files-Builds {b} {fs} gs i stored =
      let made = get_elements_lem s3 b.current_archive_offset b.cdfh_sizes gs stored in
      let elems = (get_elements b.current_archive_offset b.cdfh_sizes gs).0 in
      let here : b.current_archive_offset ≡ 0 + part_size fs = omega (arith, i.offset) in
      let bytes : entries_bytes s3 0 fs ++ elems_bytes s3 elems ≡ entries_bytes s3 0 (fs ++ gs) =
        ap (λ t. entries_bytes s3 0 fs ++ t) (made.0 ∙ ap (λ n. entries_bytes s3 n gs) here)
        ∙ sym (entries_bytes-append s3 0 fs gs) in
      record {
        good =
            subst (IsGood (extend_parts b.parts elems)) bytes
              (extend_parts-IsGood elems i.good made.1);
        offset = omega (arith, made.3, i.offset, sum_by-append entry_size fs gs);
        sizes =
            made.4
            ∙ ap (λ n. b.cdfh_sizes ++ sizes_from n gs) here
            ∙ ap (λ t. t ++ sizes_from (0 + part_size fs) gs) i.sizes
            ∙ sym (sizes_from-append 0 fs gs);
      }

  pub header_part-bytes :
      (last : PartJob) (elems : List UploadPartElement) (elem : UploadPartElement)
      → last.part_job_type ≡ upload elems
      → job_bytes s3 (header_part last elems elem) ≡ job_bytes s3 last ++ elem_bytes s3 elem
  unfolding header_part
  header_part-bytes last elems elem e =
      elems_bytes-append elems (elem ∷ [])
      ∙ ap (λ t. elems_bytes s3 elems ++ t) (append-nil (elem_bytes s3 elem))
      ∙ rw e refl

  pub header_part-exact :
      (last : PartJob) (elems : List UploadPartElement) (elem : UploadPartElement)
      → last.part_job_type ≡ upload elems
      → IsExactPart last
      → IsExact s3 elem
      → IsExactPart (header_part last elems elem)
  unfolding header_part
  header_part-exact last elems elem e x y =
      let old : IsExactType last.part_size (upload elems) = rw e at x in
      (
        omega (arith, sum_by-append elem_size elems (elem ∷ [])),
        All-append (IsExact s3) elems (elem ∷ []) old.1 (y, tt),
      )

  pub copy_behind-Builds :
      {b : PartJobsBuilder} {fs : List FileInfo} (f : FileInfo) (start : Option ℕ) (last : PartJob)
      (elems : List UploadPartElement) (parts : List PartJob)
      → Builds b fs
      → IsStored s3 f
      → copy_start start ≤ f.size
      → b.parts ≡ last ∷ parts
      → last.part_job_type ≡ upload elems
      → Builds (copy_behind b f start last elems parts) (fs ++ f ∷ [])
  unfolding copy_behind copy_part sizes_from Loc.size make entry_size loc_size
  copy_behind-Builds {b} {fs} f start last elems parts i stored within ps e =
      let here : b.current_archive_offset ≡ 0 + part_size fs = omega (arith, i.offset) in
      let elem = element (loc_at b.current_archive_offset f) (copy_operation start) f in
      let last' = header_part last elems elem in
      let good : IsGood (last ∷ parts) (entries_bytes s3 0 fs) =
        subst (λ p. IsGood p (entries_bytes s3 0 fs)) ps i.good in
      let (exact, copied) = copy-IsExact s3 b.current_archive_offset f start stored within in
      let body = copied_bytes (copy_range start f.size) (object (copy_source_of f)) in
      let entry = entry_bytes s3 b.current_archive_offset f in
      let old = entries_bytes s3 0 fs in
      let bytes : built (last' ∷ parts) ++ body ≡ entries_bytes s3 0 (fs ++ f ∷ []) =
        ap (λ t. (built parts ++ t) ++ body) (header_part-bytes last elems elem e)
        ∙ regroup (built parts) (job_bytes s3 last) (elem_bytes s3 elem) body
        ∙ ap₂ ◌++◌ good.bytes_lem (copy_bytes s3 b.current_archive_offset f start stored)
        ∙ ap (λ t. old ++ t) (sym (append-nil entry) ∙ ap (λ n. entry_bytes s3 n f ++ []) here)
        ∙ sym (entries_bytes-append s3 0 fs (f ∷ [])) in
      record {
        good = record {
          bytes_lem = bytes;
          exact = (copied, (header_part-exact last elems elem e good.exact.0 exact, good.exact.1));
          numbered = (refl, (good.numbered.0, good.numbered.1));
        };
        offset = omega (arith, i.offset, sum_by-append entry_size fs (f ∷ []));
        sizes =
            ap (λ n. b.cdfh_sizes ++ cdfh_size n f ∷ []) here
            ∙ ap (λ t. t ++ cdfh_size (0 + part_size fs) f ∷ []) i.sizes
            ∙ sym (sizes_from-append 0 fs (f ∷ []));
      }
