-- ===== src/JrodonV3/Jobs/Elements.antt =====
-- The elements of one file: their bytes and sizes.
use demo_s3_archiving.Prelude.{ℕ, ◌+◌, ◌-◌, ◌≤◌, ◌≡◌, refl, sym, ap, ap₂, append-nil, ◌∙◌, arith}
use demo_s3_archiving.Prelude.{List, [], ◌∷◌, ◌++◌, Option, none, some, append_assoc}
use demo_s3_archiving.Prelude.{length, take, drop, length-append, length-take, length-drop}
use demo_s3_archiving.Prelude.{take_all, take-append-drop, All, sum_by}
use demo_s3_archiving.JrodonV3.ZipFormat.Field.{Crc32}
use demo_s3_archiving.JrodonV3.ZipFormat.Loc
use demo_s3_archiving.JrodonV3.ZipFormat.Loc.{make}
use demo_s3_archiving.JrodonV3.Jobs.Stream.{header_with}
use demo_s3_archiving.JrodonV3.ZipFormat.Loc.RoundTrip.{written, length-written}
use demo_s3_archiving.JrodonV3.Files.{FileInfo, loc_size, entry_size, part_size}
use demo_s3_archiving.JrodonV3.PartJob.{get, UploadPartElement, elem_size}
use demo_s3_archiving.JrodonV3.Jobs.{loc_at, element, get_elements, cdfh_size, copy_source_of}
use demo_s3_archiving.JrodonV3.Jobs.{copy_operation, copy_start, copy_range}
use demo_s3_archiving.JrodonV3.Jobs.Stream.{elem_bytes, elems_bytes, entry_bytes, entries_bytes}
use demo_s3_archiving.JrodonV3.Jobs.Stream.{copied_bytes, Storage}

-- The sizes of the directory headers of files that stand from an offset on.
unfoldable pub sizes_from : ℕ → List FileInfo → List ℕ
sizes_from offset [] = []
sizes_from offset (f ∷ fs) = cdfh_size offset f ∷ sizes_from (offset + entry_size f) fs

pub sizes_from-append :
    (o : ℕ) (fs gs : List FileInfo)
    → sizes_from o (fs ++ gs) ≡ sizes_from o fs ++ sizes_from (o + part_size fs) gs
unfolding sizes_from
sizes_from-append o [] gs = let e : o ≡ o + 0 = omega arith in ap (λ n. sizes_from n gs) e
sizes_from-append o (f ∷ fs) gs =
    let e : o + entry_size f + part_size fs ≡ o + (entry_size f + part_size fs) = omega arith in
    ap (◌∷◌ (cdfh_size o f)) (
      sizes_from-append (o + entry_size f) fs gs
      ∙ ap (λ n. sizes_from (o + entry_size f) fs ++ sizes_from n gs) e)

module _ (s3 : Storage) where
  open s3 use {object, checksum}

  -- The object has the size that the listing gave.
  abbrev pub IsStored : FileInfo → Type 0
  IsStored f = length (object (f.bucket_name ++ b'/' ∷ f.key)) ≡ f.size

  -- An element has as many bytes as it says.
  abbrev pub IsExact : UploadPartElement → Type 0
  IsExact e = elem_size e ≡ length (elem_bytes s3 e)

  loc_length :
      (o : ℕ) (f : FileInfo) (c : Crc32)
      → length (written (header_with o f.name f.size c)) ≡ loc_size f
  unfolding Loc.size loc_size
  loc_length o f c = length-written (header_with o f.name f.size c)

  pub get-IsExact :
      (o : ℕ) (f : FileInfo)
      → IsStored f
      → IsExact (element (loc_at o f) get f)
        × (elem_size (element (loc_at o f) get f) ≡ entry_size f)
  unfolding elem_size entry_size loc_size Loc.size make
  get-IsExact o f s =
      let source = f.bucket_name ++ b'/' ∷ f.key in
      let loc = written (header_with o f.name f.size (checksum source)) in
      (omega (arith, loc_length o f (checksum source), length-append loc (object source), s), refl)

  pub entries_bytes-append :
      (o : ℕ) (fs gs : List FileInfo)
      → entries_bytes s3 o (fs ++ gs)
        ≡ entries_bytes s3 o fs ++ entries_bytes s3 (o + part_size fs) gs
  entries_bytes-append o [] gs =
      let e : o ≡ o + 0 = omega arith in ap (λ n. entries_bytes s3 n gs) e
  entries_bytes-append o (f ∷ fs) gs =
      let e : o + entry_size f + part_size fs ≡ o + (entry_size f + part_size fs) = omega arith in
      let head = entry_bytes s3 o f in
      let front = entries_bytes s3 (o + entry_size f) fs in
      ap (λ t. head ++ t)
        (entries_bytes-append (o + entry_size f) fs gs ∙ ap (λ n. front ++ entries_bytes s3 n gs) e)
      ∙ sym (append_assoc head front (entries_bytes s3 (o + (entry_size f + part_size fs)) gs))

  pub get_elements_lem :
      (o : ℕ) (sizes : List ℕ) (fs : List FileInfo)
      → All IsStored fs
      → let (elems, o', sizes') = get_elements o sizes fs in
        (elems_bytes s3 elems ≡ entries_bytes s3 o fs)
        × All IsExact elems
        × (sum_by elem_size elems ≡ part_size fs)
        × (o' ≡ o + part_size fs)
        × (sizes' ≡ sizes ++ sizes_from o fs)
  unfolding get_elements sizes_from Loc.size make entry_size loc_size
  get_elements_lem o sizes [] h = (refl, tt, refl, omega arith, sym (append-nil sizes))
  get_elements_lem o sizes (f ∷ fs) (h, hs) =
      let rest = get_elements_lem (o + entry_size f) (sizes ++ cdfh_size o f ∷ []) fs hs in
      let (exact, sized) = get-IsExact o f h in
      (
        ap (λ t. entry_bytes s3 o f ++ t) rest.0,
        (exact, rest.1),
        ap₂ ◌+◌ sized rest.2,
        omega (arith, rest.3),
        rest.4 ∙ append_assoc sizes (cdfh_size o f ∷ []) (sizes_from (o + entry_size f) fs),
      )

  -- The header's element of a copied file, with the bytes that are copied behind it, is the entry.
  pub copy_bytes :
      (o : ℕ) (f : FileInfo) (start : Option ℕ)
      → IsStored f
      → elem_bytes s3 (element (loc_at o f) (copy_operation start) f)
          ++ copied_bytes (copy_range start f.size) (object (copy_source_of f))
        ≡ entry_bytes s3 o f
  unfolding copy_operation copy_range copy_source_of make
  copy_bytes o f none s =
      let source = f.bucket_name ++ b'/' ∷ f.key in
      let loc = written (header_with o f.name f.size (checksum source)) in
      ap (λ t. t ++ object source) (append-nil loc)
  copy_bytes o f (some start) s =
      let source = f.bucket_name ++ b'/' ∷ f.key in
      let loc = written (header_with o f.name f.size (checksum source)) in
      let body = object source in
      let whole : take (f.size - 1 + 1 - start) (drop start body) ≡ drop start body =
        take_all _ (drop start body) (omega (arith, length-drop start body, s)) in
      append_assoc loc (take start body) (take (f.size - 1 + 1 - start) (drop start body))
      ∙ ap (λ t. loc ++ (take start body ++ t)) whole
      ∙ ap (λ t. loc ++ t) (take-append-drop start body)

  -- The header's element of a copied file has the bytes that it says, and so has the copy.
  pub copy-IsExact :
      (o : ℕ) (f : FileInfo) (start : Option ℕ)
      → IsStored f
      → copy_start start ≤ f.size
      → IsExact (element (loc_at o f) (copy_operation start) f)
        × (f.size - copy_start start
            ≡ length (copied_bytes (copy_range start f.size) (object (copy_source_of f))))
  unfolding copy_operation copy_start copy_range copy_source_of elem_size loc_size Loc.size make
  copy-IsExact o f none s h =
      let source = f.bucket_name ++ b'/' ∷ f.key in
      let loc = written (header_with o f.name f.size (checksum source)) in
      (omega (arith, loc_length o f (checksum source), length-append loc []), omega (arith, s))
  copy-IsExact o f (some start) s h =
      let source = f.bucket_name ++ b'/' ∷ f.key in
      let loc = written (header_with o f.name f.size (checksum source)) in
      let body = object source in
      (
        omega (
          arith,
          loc_length o f (checksum source),
          length-append loc (take start body),
          length-take start body,
          s,
        ),
        omega (
          arith,
          length-take (f.size - 1 + 1 - start) (drop start body),
          length-drop start body,
          s,
        ),
      )
