-- ===== src/JrodonV3/Execute/Directory.antt =====
-- What `resolve_and_write` writes for the central directory of planned files.
use demo_s3_archiving.Prelude.{
  ℕ, suc, ◌+◌, ◌<◌, ◌≤◌, ◌≡◌, refl, sym, ap, ap₂, ◌∙◌, arith, inl, inr, Perm,
}
use demo_s3_archiving.Prelude.{
  List, [], ◌∷◌, ◌++◌, append_assoc, append-nil, length, All, All-append, sum_by, ◌==◌,
  if◌then◌else◌, Bool-cases,
}
use demo_s3_archiving.Prelude.Bags.{sum_by-perm}
use demo_s3_archiving.Bytes.{Byte}
use demo_s3_archiving.Bytes.Sink.{Sink, write, ◌⨾◌, write-seq, write-nil, Wrote, Wrote-intro}
use demo_s3_archiving.JrodonV3.Files.{FileInfo, entry_size, loc_size}
use demo_s3_archiving.JrodonV3.ZipFormat.Loc
use demo_s3_archiving.JrodonV3.ZipFormat.Cdfh.{CentralDirectoryFileHeader, loc_offset}
use demo_s3_archiving.JrodonV3.ZipFormat.Cdfh.RoundTrip as CdfhText
use demo_s3_archiving.JrodonV3.ZipFormat.Eocd
use demo_s3_archiving.JrodonV3.ZipFormat.Eocd.{needs}
use demo_s3_archiving.JrodonV3.ZipFormat.Eocd.RoundTrip as EocdText
use demo_s3_archiving.JrodonV3.PartJob.{elem_size}
use demo_s3_archiving.JrodonV3.Jobs.Stream.{Storage}
use demo_s3_archiving.JrodonV3.Jobs.Elements.{sizes_from}
use demo_s3_archiving.JrodonV3.Jobs.Finish.{directory_of}
use demo_s3_archiving.JrodonV3.Jobs.Archive.{
  header_at, headers_bytes, directory_bytes, end_of, directory-IsExact,
}
use demo_s3_archiving.JrodonV3.Execute.{Entries, insert, collect, dump_values, write_directory}
use demo_s3_archiving.JrodonV3.Execute.Collect.{
  insert_all, collect-insert_all, IsDistinct, insert_all-SameSums,
}

-- A header behind all others goes to the end.
insert-last :
    (k : ℕ) (c : CentralDirectoryFileHeader) (es : Entries)
    → All (λ (e : ℕ × CentralDirectoryFileHeader). e.0 < k) es
    → insert k c es ≡ es ++ (k, c) ∷ []
unfolding insert
insert-last k c [] h = refl
insert-last k c ((l, d) ∷ es) (h, hs) = ground (arith, insert-last k c es hs)

values_bytes : Entries → List Byte
values_bytes [] = []
values_bytes ((k, c) ∷ es) = CdfhText.written c ++ values_bytes es

dump_values-write : (es : Entries) → dump_values es ≡ write (values_bytes es)
unfolding dump_values values_bytes
dump_values-write [] = write-nil
dump_values-write ((k, c) ∷ es) =
    ap₂ ◌⨾◌ (CdfhText.dump-eq-write c) (dump_values-write es)
    ∙ write-seq (CdfhText.written c) (values_bytes es)

sum_by-ones : (cs : List CentralDirectoryFileHeader) → sum_by (λ c. 1) cs ≡ length cs
sum_by-ones [] = refl
sum_by-ones (c ∷ cs) = omega (arith, sum_by-ones cs)

module _ (s3 : Storage) where
  -- The headers of files that stand from an offset on.
  abbrev pub headers : ℕ → List FileInfo → List CentralDirectoryFileHeader
  headers offset [] = []
  headers offset (f ∷ fs) = header_at s3 offset f ∷ headers (offset + entry_size f) fs

  entries : ℕ → List FileInfo → Entries
  entries offset [] = []
  entries offset (f ∷ fs) = (offset, header_at s3 offset f) ∷ entries (offset + entry_size f) fs

  length-headers : (o : ℕ) (fs : List FileInfo) → length (headers o fs) ≡ length (sizes_from o fs)
  unfolding sizes_from
  length-headers o [] = refl
  length-headers o (f ∷ fs) = ap suc (length-headers (o + entry_size f) fs)

  values_bytes-entries :
      (o : ℕ) (fs : List FileInfo) → values_bytes (entries o fs) ≡ headers_bytes s3 o fs
  unfolding values_bytes entries
  values_bytes-entries o [] = refl
  values_bytes-entries o (f ∷ fs) =
      ap (λ t. CdfhText.written (header_at s3 o f) ++ t)
        (values_bytes-entries (o + entry_size f) fs)

  entry_size-positive : (f : FileInfo) → 0 < entry_size f
  unfolding entry_size loc_size Loc.predict_size
  entry_size-positive f = ground arith

  header_at-offset : (o : ℕ) (f : FileInfo) → loc_offset (header_at s3 o f) ≡ o
  unfolding loc_offset
  header_at-offset o f = refl

  weaken :
      (a b : ℕ) (es : Entries)
      → a ≤ b
      → All (λ (e : ℕ × CentralDirectoryFileHeader). e.0 < a) es
      → All (λ (e : ℕ × CentralDirectoryFileHeader). e.0 < b) es
  weaken a b [] le h = tt
  weaken a b (e ∷ es) le (h, hs) = (omega (arith, h), weaken a b es le hs)

  -- The headers in the order of the archive stay in this order.
  insert_all-headers :
      (o : ℕ) (fs : List FileInfo) (es : Entries)
      → All (λ (e : ℕ × CentralDirectoryFileHeader). e.0 < o) es
      → insert_all (headers o fs) es ≡ es ++ entries o fs
  unfolding insert_all entries
  insert_all-headers o [] es h = sym (append-nil es)
  insert_all-headers o (f ∷ fs) es h =
      let grown : o < o + entry_size f = omega (arith, entry_size-positive f) in
      ap (λ k. insert_all (headers (o + entry_size f) fs) (insert k (header_at s3 o f) es))
        (header_at-offset o f)
      ∙ ap (insert_all (headers (o + entry_size f) fs)) (insert-last o (header_at s3 o f) es h)
      ∙ insert_all-headers (o + entry_size f) fs (es ++ (o, header_at s3 o f) ∷ []) (
          All-append _ es _ (weaken o (o + entry_size f) es (omega (arith, grown)) h) ((grown, tt)))
      ∙ append_assoc es ((o, header_at s3 o f) ∷ []) (entries (o + entry_size f) fs)

  abbrev at : ℕ → CentralDirectoryFileHeader → ℕ
  at k c = if loc_offset c == k then 1 else 0

  headers-behind : (o k : ℕ) (fs : List FileInfo) → k < o → sum_by (at k) (headers o fs) ≡ 0
  headers-behind o k [] h = refl
  headers-behind o k (f ∷ fs) h =
      ground
        (arith, header_at-offset o f, headers-behind (o + entry_size f) k fs (omega (arith, h)))

  headers-IsDistinct : (o : ℕ) (fs : List FileInfo) → IsDistinct (headers o fs)
  headers-IsDistinct o [] k = omega arith
  headers-IsDistinct o (f ∷ fs) k = elim (Bool-cases (loc_offset (header_at s3 o f) == k)) [
    | inl e ↦
        let behind =
          headers-behind (o + entry_size f) k fs
            (ground (arith, e, header_at-offset o f, entry_size-positive f)) in
        ground (arith, e, behind)
    | inr e ↦ ground (arith, e, headers-IsDistinct (o + entry_size f) fs k)
  ]

  collected :
      (fs : List FileInfo) (received : List CentralDirectoryFileHeader)
      → Perm received (headers 0 fs)
      → collect (length (sizes_from 0 fs)) received [] ≡ entries 0 fs
  collected fs received p =
      let count = sum_by-perm (λ c. 1) p in
      collect-insert_all (length (sizes_from 0 fs)) received [] (
        omega (arith, count, length-headers 0 fs, sum_by-ones received, sum_by-ones (headers 0 fs)))
      ∙ insert_all-SameSums received (headers 0 fs) [] (λ f. sum_by-perm f p)
          (headers-IsDistinct 0 fs)
      ∙ insert_all-headers 0 fs [] tt

  write_directory-eq-write :
      (fs : List FileInfo) (received : List CentralDirectoryFileHeader)
      → Perm received (headers 0 fs)
      → write_directory (end_of fs) received ≡ write (directory_bytes s3 fs)
  unfolding write_directory
  write_directory-eq-write fs received p =
      ap (λ es. dump_values es ⨾ Eocd.dump (end_of fs)) (collected fs received p)
      ∙ ap₂ ◌⨾◌ (dump_values-write (entries 0 fs) ∙ ap write (values_bytes-entries 0 fs))
          (EocdText.dump-eq-write (end_of fs))
      ∙ write-seq (headers_bytes s3 0 fs) (EocdText.end_bytes (needs (end_of fs)) (end_of fs))

  -- In whatever order the headers of the files are received, into a slice with room for the size of
  -- the directory's element, `resolve_and_write` writes exactly as many bytes: the headers in the
  -- order of the archive and the end records behind them.
  pub write_directory-order :
      (fs : List FileInfo) (received : List CentralDirectoryFileHeader) (s : Sink)
      → Perm received (headers 0 fs)
      → elem_size (directory_of fs) ≤ s.room
      → Wrote s
          (elem_size (directory_of fs))
          (write_directory (end_of fs) received s)
          (λ bs. bs ≡ directory_bytes s3 fs)
  write_directory-order fs received s p fits =
      Wrote-intro (write_directory (end_of fs) received) (directory_bytes s3 fs) _ s
        (write_directory-eq-write fs received p) (sym (directory-IsExact s3 fs)) fits refl
