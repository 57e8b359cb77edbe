-- ===== src/Figment/Plan/Contents.antt =====
-- What the parts of a plan upload: the entries, each with its header and its whole body, and then
-- the central directory.
use demo_s3_archiving.Prelude.{ℕ, suc, ◌+◌, ◌-◌, ◌≡◌, refl, sym, ap, ◌∙◌, subst, arith, inl, inr}
use demo_s3_archiving.Prelude.{Bool, true, ◌&&◌, Bool-cases, leb}
use demo_s3_archiving.Prelude.{List, [], ◌∷◌, ◌++◌, append_assoc, append-nil}
use demo_s3_archiving.Prelude.{length, take, drop, sum_by, sum_by-append}
use demo_s3_archiving.Bytes.{Byte}
use demo_s3_archiving.Figment.Plan.{
  FileId, SourceFile, Segment, streamed_file, copied_file_header, streamed_big_prefix,
  central_directory, PartSpec, copy, stream, SizeOf, Planning, take_small, pull_smalls, part_floor,
}

-- The number of a part.
abbrev pub number : PartSpec → ℕ
number (copy n id from) = n
number (stream n segs) = n

-- The parts are numbered upwards from `n` without a gap.
abbrev pub IsNumbered : ℕ → List PartSpec → Type 0
IsNumbered n [] = Unit
IsNumbered n (p ∷ ps) = (number p ≡ n) × IsNumbered (suc n) ps

pub IsNumbered-append :
    (n : ℕ) (ps qs : List PartSpec)
    → IsNumbered n ps
    → IsNumbered (n + length ps) qs
    → IsNumbered n (ps ++ qs)
IsNumbered-append n [] qs h k = let e : n + 0 ≡ n = omega arith in subst (λ m. IsNumbered m qs) e k
IsNumbered-append n (p ∷ ps) qs (e, h) k =
    let s : n + suc (length ps) ≡ suc n + length ps = omega arith in
    (e, IsNumbered-append (suc n) ps qs h (subst (λ m. IsNumbered m qs) s k))

pub regroup : (p s o e : List Byte) → p ++ s ≡ o → p ++ (s ++ e) ≡ o ++ e
regroup p s o e h = sym (append_assoc p s e) ∙ ap (λ t. t ++ e) h

module _ (header body : FileId → List Byte) (directory : List Byte) where
  abbrev pub segment_bytes : Segment → List Byte
  segment_bytes (streamed_file id) = header id ++ body id
  segment_bytes (copied_file_header id) = header id
  segment_bytes (streamed_big_prefix id len) = take len (body id)
  segment_bytes central_directory = directory

  abbrev pub segments_bytes : List Segment → List Byte
  segments_bytes [] = []
  segments_bytes (s ∷ segs) = segment_bytes s ++ segments_bytes segs

  abbrev pub part_bytes : PartSpec → List Byte
  part_bytes (copy n id from) = drop from (body id)
  part_bytes (stream n segs) = segments_bytes segs

  -- The archive: the parts one after the other.
  abbrev pub parts_bytes : List PartSpec → List Byte
  parts_bytes [] = []
  parts_bytes (p ∷ ps) = part_bytes p ++ parts_bytes ps

  -- The entries in an order.
  abbrev pub order_bytes : List FileId → List Byte
  order_bytes [] = []
  order_bytes (id ∷ order) = (header id ++ body id) ++ order_bytes order

  pub segments-append :
      (ss ts : List Segment) → segments_bytes (ss ++ ts) ≡ segments_bytes ss ++ segments_bytes ts
  segments-append [] ts = refl
  segments-append (s ∷ ss) ts =
      ap (λ t. segment_bytes s ++ t) (segments-append ss ts)
      ∙ sym (append_assoc (segment_bytes s) (segments_bytes ss) (segments_bytes ts))

  pub parts-append :
      (ps qs : List PartSpec) → parts_bytes (ps ++ qs) ≡ parts_bytes ps ++ parts_bytes qs
  parts-append [] qs = refl
  parts-append (p ∷ ps) qs =
      ap (λ t. part_bytes p ++ t) (parts-append ps qs)
      ∙ sym (append_assoc (part_bytes p) (parts_bytes ps) (parts_bytes qs))

  pub order-snoc :
      (xs : List FileId) (id : FileId)
      → order_bytes (xs ++ id ∷ []) ≡ order_bytes xs ++ (header id ++ body id)
  order-snoc [] id = append-nil (header id ++ body id)
  order-snoc (x ∷ xs) id =
      ap (λ t. (header x ++ body x) ++ t) (order-snoc xs id)
      ∙ sym (append_assoc (header x ++ body x) (order_bytes xs) (header id ++ body id))

  -- The invariant of the loops: the parts and the batch hold the entries so far, the parts are
  -- numbered without a gap, and, for every measure of the files, the ids so far and the small files
  -- that are left have the sum of `total`.
  pub record IsPlanning (total : (FileId → ℕ) → ℕ) (p : Planning) : Type 0 where
    pub bytes_lem : parts_bytes p.parts ++ segments_bytes p.cur_segs ≡ order_bytes p.order
    pub numbered : IsNumbered 1 p.parts
    pub counted : p.part_number ≡ suc (length p.parts)
    pub summed : (m : FileId → ℕ) → sum_by m p.order + sum_by (λ f. m f.id) p.smalls ≡ total m

  module _ (total : (FileId → ℕ) → ℕ) where
    pub stream_small :
        (p : Planning) (s : SourceFile)
        → parts_bytes p.parts ++ segments_bytes p.cur_segs ≡ order_bytes p.order
        → parts_bytes p.parts ++ segments_bytes (p.cur_segs ++ streamed_file s.id ∷ [])
          ≡ order_bytes (p.order ++ s.id ∷ [])
    stream_small p s h =
        ap (λ t. parts_bytes p.parts ++ t)
          (segments-append p.cur_segs (streamed_file s.id ∷ [])
            ∙ ap (λ t. segments_bytes p.cur_segs ++ t) (append-nil (header s.id ++ body s.id)))
        ∙ regroup (parts_bytes p.parts) (segments_bytes p.cur_segs) (order_bytes p.order)
            (header s.id ++ body s.id) h
        ∙ sym (order-snoc p.order s.id)

    take_small-IsPlanning :
        (size_of : SizeOf) (p : Planning) (s : SourceFile) (rest : List SourceFile)
        → p.smalls ≡ s ∷ rest
        → IsPlanning total p
        → IsPlanning total (take_small size_of p s rest)
    unfolding take_small
    take_small-IsPlanning size_of p s rest e i = record {
      bytes_lem = stream_small p s i.bytes_lem;
      numbered = i.numbered;
      counted = i.counted;
      summed = λ m.
          omega
            (arith, i.summed m, sum_by-append m p.order (s.id ∷ []), ap (sum_by (λ f. m f.id)) e);
    }

    pub pull_smalls-IsPlanning :
        (size_of : SizeOf) (header_big max_steal : ℕ) (smalls : List SourceFile) (pulled : Bool)
        (p : Planning)
        → p.smalls ≡ smalls
        → IsPlanning total p
        → IsPlanning total (pull_smalls size_of header_big max_steal smalls pulled p).1
    unfolding pull_smalls take_small
    pull_smalls-IsPlanning size_of h m [] pulled p e i = i
    pull_smalls-IsPlanning size_of h m (s ∷ rest) pulled p e i =
        let next =
          pull_smalls-IsPlanning size_of h m rest true (take_small size_of p s rest) refl
            (take_small-IsPlanning size_of p s rest e i) in
        elim (Bool-cases (leb part_floor (p.cur_bytes + h))) [
          | inl a ↦ rw a i
          | inr a ↦ elim (Bool-cases (leb (part_floor - (p.cur_bytes + h)) m && pulled)) [
            | inl b ↦ rw (a, b) i
            | inr b ↦ rw (a, b) next
          ]
        ]
