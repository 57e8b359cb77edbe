-- ===== src/JrodonV3/Jobs/Floor.antt =====
-- The sizes of the part jobs: S3 takes no part below its floor but the last.
use demo_s3_archiving.Prelude.{ℕ, ◌+◌, ◌≤◌, ◌≡◌, ◌⊎◌, inl, inr, refl, sym, ap, ◌∙◌, subst, arith}
use demo_s3_archiving.Prelude.{
  List, [], ◌∷◌, ◌++◌, Option, none, some, All, All-reverse, sum_by, sum_by-append,
}
use demo_s3_archiving.JrodonV3.Files.{FileInfo, min_part_size, part_size, loc_size, entry_size}
use demo_s3_archiving.JrodonV3.ZipFormat.Loc
use demo_s3_archiving.JrodonV3.ZipFormat.Loc.{make}
use demo_s3_archiving.JrodonV3.Layout.{
  ZipLayoutPart, single, duo, full_copy, partial_copy, from_files_info,
}
use demo_s3_archiving.JrodonV3.Layout.Floor.{
  IsLarge, IsSingle, IsFloored, from_files_info-IsFloored,
}
use demo_s3_archiving.JrodonV3.PartJob.{
  UploadPartElement, PartJobType, upload, copy, PartJob, elem_size,
}
use demo_s3_archiving.JrodonV3.Jobs.{
  PartJobsBuilder, new, new_upload, get_elements, extend_parts, add_files, header_part, copy_part,
  copy_behind, copy_file, partial_copy_file, internal_copy_file, copy_operation, copy_start,
  element, loc_at, add_part, add_parts, directory_element, finish_parts, finalize, into_part_jobs,
}
use demo_s3_archiving.JrodonV3.Jobs.Build.{type_cases}
use demo_s3_archiving.JrodonV3.Jobs.Finish.{internal_copy_file-upload}
use mathlib.Core.List.{reverse, reverse-cons}

-- S3 takes the part wherever it stands.
abbrev pub IsAccepted : PartJob → Type 0
IsAccepted j = min_part_size ≤ j.part_size

abbrev IsUpload : PartJobType → Type 0
IsUpload (upload es) = Unit
IsUpload (copy source range) = ⊥

-- The parts so far, the newest first: those below the newest one are large, and so is the newest
-- one unless it is an upload, which still grows.
abbrev IsGrowing : List PartJob → Type 0
IsGrowing [] = Unit
IsGrowing (j ∷ js) = (IsUpload j.part_job_type ⊎ IsAccepted j) × All IsAccepted js

-- The newest part is an upload of at least so many bytes on top of large parts.
record IsOpen (n : ℕ) (parts : List PartJob) : Type 0 where
  last : PartJob
  front : List PartJob
  elems : List UploadPartElement
  parts_lem : parts ≡ last ∷ front
  type_lem : last.part_job_type ≡ upload elems
  large : n ≤ last.part_size
  below : All IsAccepted front

extend_parts-IsOpen :
    (parts : List PartJob) (es : List UploadPartElement)
    → IsGrowing parts
    → IsOpen (sum_by elem_size es) (extend_parts parts es)
unfolding extend_parts new_upload
extend_parts-IsOpen [] es g = record {
  last = new_upload [] es;
  front = [];
  elems = es;
  parts_lem = refl;
  type_lem = refl;
  large = omega arith;
  below = tt;
}
extend_parts-IsOpen (j ∷ js) es g = elim (type_cases j.part_job_type) [
  | inl (before, e) ↦ record {
    last = record j {
      part_size = sum_by elem_size (before ++ es);
      part_job_type = upload (before ++ es);
    };
    front = js;
    elems = before ++ es;
    parts_lem = rw e refl;
    type_lem = refl;
    large = omega (arith, sum_by-append elem_size before es);
    below = g.1;
  }
  | inr (source, range, e) ↦ record {
    last = new_upload (j ∷ js) es;
    front = j ∷ js;
    elems = es;
    parts_lem = simp e;
    type_lem = refl;
    large = omega arith;
    below = (elim g.0 [ inl u ↦ absurd (rw e at u) | inr h ↦ h ], g.1);
  }
]

IsOpen-IsGrowing : {n : ℕ} (parts : List PartJob) → IsOpen n parts → IsGrowing parts
IsOpen-IsGrowing parts o =
    subst IsGrowing (sym o.parts_lem) ((inl (subst IsUpload (sym o.type_lem) tt), o.below))

get_elements-sum :
    (o : ℕ) (sizes : List ℕ) (fs : List FileInfo)
    → sum_by elem_size (get_elements o sizes fs).0 ≡ part_size fs
unfolding get_elements elem_size Loc.size make entry_size loc_size
get_elements-sum o sizes [] = refl
get_elements-sum o sizes (f ∷ fs) = omega (arith, get_elements-sum (o + entry_size f) _ fs)

add_files-IsOpen :
    (b : PartJobsBuilder) (fs : List FileInfo)
    → IsGrowing b.parts
    → IsOpen (part_size fs) (add_files b fs).parts
unfolding add_files
add_files-IsOpen b fs g =
    subst (λ n. IsOpen n (add_files b fs).parts)
      (get_elements-sum b.current_archive_offset b.cdfh_sizes fs)
      (extend_parts-IsOpen b.parts (get_elements b.current_archive_offset b.cdfh_sizes fs).0 g)

-- The size of a copied file's header element.
header-size :
    (o : ℕ) (f : FileInfo) (start : Option ℕ)
    → elem_size (element (loc_at o f) (copy_operation start) f) ≡ loc_size f + copy_start start
unfolding elem_size copy_operation copy_start Loc.size make loc_size
header-size o f none = omega arith
header-size o f (some start) = refl

-- What a copy does to the parts, where both halves are large.
copy_added :
    (b : PartJobsBuilder) (gs : List FileInfo) (f : FileInfo) (start : Option ℕ)
    → IsGrowing b.parts
    → min_part_size ≤ part_size gs + loc_size f + copy_start start
    → min_part_size + copy_start start ≤ f.size
    → (b' : PartJobsBuilder) × (internal_copy_file (add_files b gs) f start ≡ some b')
      × IsGrowing b'.parts
unfolding copy_behind copy_part header_part
copy_added b gs f start g large rest =
    let c = add_files b gs in
    let o = add_files-IsOpen b gs g in
    (
      copy_behind c f start o.last o.elems o.front,
      internal_copy_file-upload c f start o.last o.front o.elems o.parts_lem o.type_lem,
      (
        inr (omega arith),
        (omega (arith, o.large, header-size c.current_archive_offset f start), o.below),
      ),
    )

add_part-IsGrowing :
    (b : PartJobsBuilder) (p : ZipLayoutPart)
    → IsGrowing b.parts
    → IsLarge p ⊎ IsSingle p
    → (b' : PartJobsBuilder) × (add_part b p ≡ some b') × IsGrowing b'.parts
unfolding add_part copy_file partial_copy_file copy_start
add_part-IsGrowing b (single r) g h =
    (add_files b r, refl, IsOpen-IsGrowing (add_files b r).parts (add_files-IsOpen b r g))
add_part-IsGrowing b (duo r (full_copy f)) g (inl h) =
    copy_added b r f none g (omega (arith, h)) (omega (arith, h))
add_part-IsGrowing b (duo r (partial_copy f start)) g (inl h) =
    copy_added b r f (some start) g (omega (arith, h)) (omega (arith, h))
add_part-IsGrowing b (duo r c) g (inr h) = absurd h

add_parts-IsGrowing :
    (ps : List ZipLayoutPart) (b : PartJobsBuilder)
    → IsGrowing b.parts
    → IsFloored ps
    → (b' : PartJobsBuilder) × (add_parts b ps ≡ some b') × IsGrowing b'.parts
unfolding add_parts
add_parts-IsGrowing [] b g h = (b, refl, g)
add_parts-IsGrowing (p ∷ ps) b g (h, hs) =
    let one : IsLarge p ⊎ IsSingle p = elim h [ inl l ↦ inl l | inr s ↦ inr s.0 ] in
    let (b1, e1, g1) = add_part-IsGrowing b p g one in
    let (b2, e2, g2) = add_parts-IsGrowing ps b1 g1 hs in (b2, rw (e1, add_parts) e2, g2)

finish_parts-below :
    (parts : List PartJob) (cd : UploadPartElement)
    → IsGrowing parts
    → (last : PartJob) × (front : List PartJob) × (finish_parts parts cd ≡ last ∷ front)
      × All IsAccepted front
unfolding finish_parts header_part
finish_parts-below [] cd g = (new_upload [] (cd ∷ []), [], refl, tt)
finish_parts-below (j ∷ js) cd g = elim (type_cases j.part_job_type) [
  | inl (elems, e) ↦ (header_part j elems cd, js, rw e refl, g.1)
  | inr (source, range, e) ↦ (
    new_upload (j ∷ js) (cd ∷ []),
    j ∷ js,
    simp e,
    (elim g.0 [ inl u ↦ absurd (rw e at u) | inr h ↦ h ], g.1),
  )
]

-- Whatever the files, `from_files_info` and `into_part_jobs` give jobs without a panic, at least one,
-- and every job but the last has a `part_size` of at least `MIN_PART_SIZE`, uploads and copies alike.
pub into_part_jobs-IsAccepted :
    (fs : List FileInfo)
    → (front : List PartJob) × (last : PartJob) × (into_part_jobs (from_files_info fs)
        ≡ some (front ++ last ∷ []))
      × All IsAccepted front
unfolding into_part_jobs finalize
into_part_jobs-IsAccepted fs =
    let (b, e, g) =
      add_parts-IsGrowing (from_files_info fs) new tt (from_files_info-IsFloored fs) in
    let (last, front, f, large) = finish_parts-below b.parts (directory_element b) g in
    (
      reverse front,
      last,
      rw (e, into_part_jobs) (ap (λ ps. some (reverse ps)) f ∙ ap some (reverse-cons last front)),
      All-reverse IsAccepted front large,
    )
