-- ===== src/Figment/Assemble/Arrival.antt =====
-- The upload of a plan: the parts may be done in any order.
use demo_s3_archiving.Prelude.{
  ℕ, zero, suc, ◌-◌, ◌<◌, ◌≡◌, refl, sym, ap, ap₂, ◌∙◌, arith, inl, inr,
}
use demo_s3_archiving.Prelude.{true, Bool-cases, ltb, lt→ltb, leb, if◌then◌else◌}
use demo_s3_archiving.Prelude.{
  Option, none, some, List, [], ◌∷◌, ◌++◌, map, Perm, length, take, drop, take_all, length-drop,
  All,
}
use demo_s3_archiving.Bytes.{Byte, Text, codes}
use demo_s3_archiving.Figment.Plan.{FileId, PartSpec, copy, stream, SinglePlan}
use demo_s3_archiving.Figment.Plan.Contents
use demo_s3_archiving.Figment.Plan.Contents.{number, part_bytes, parts_bytes, order_bytes}
use demo_s3_archiving.Figment.Assemble.{
  AssembleError, Result, object_key, PartRequest, upload_part, upload_part_copy, CompletedPart,
  insert_part, sort_parts, sent, copy_range, attempt_part, realise_parts, assemble_parts,
}
use demo_s3_archiving.Figment.Assemble.Stream.{
  Ends, Ends->>=, Ends-map, with_retry-Ends, IsServed, IsServable, build_stream_part_bytes-Ends,
}
use demo_s3_archiving.Figment.Assemble.Order.{
  Piece, insert, sort, IsNumbered, IsDistinct-perm, sort-map_perm, sort-IsNumbered,
  IsNumbered-IsDistinct,
}

-- The bytes that a request makes a part of, where `objects` are those of S3 by bucket and key.
module _ (objects : Text → List Byte) where
  abbrev pub request_bytes : PartRequest → List Byte
  request_bytes (upload_part bytes) = bytes
  request_bytes (upload_part_copy source none) = objects source
  request_bytes (upload_part_copy source (some (start, last))) =
      take (suc last - start) (drop start (objects source))

  abbrev pub view : CompletedPart → Piece
  view p = (p.part_number, request_bytes p.request)

  -- The object that the completed parts make.
  abbrev pub completed_bytes : List CompletedPart → List Byte
  completed_bytes [] = []
  completed_bytes (p ∷ parts) = request_bytes p.request ++ completed_bytes parts

abbrev joined : List Piece → List Byte
joined [] = []
joined (p ∷ ps) = p.1 ++ joined ps

module _ (objects : Text → List Byte) where
  insert_part-view :
      (p : CompletedPart) (ps : List CompletedPart)
      → map (view objects) (insert_part p ps) ≡ insert (view objects p) (map (view objects) ps)
  unfolding insert_part insert
  insert_part-view p [] = refl
  insert_part-view p (q ∷ ps) = elim (Bool-cases (leb p.part_number q.part_number)) [
    | inl e ↦ rw e refl
    | inr e ↦ rw e (ap (λ t. view objects q ∷ t) (insert_part-view p ps))
  ]

  sort_parts-view :
      (ps : List CompletedPart) → map (view objects) (sort_parts ps) ≡ sort (map (view objects) ps)
  unfolding sort_parts sort
  sort_parts-view [] = refl
  sort_parts-view (p ∷ ps) =
      insert_part-view p (sort_parts ps) ∙ ap (insert (view objects p)) (sort_parts-view ps)

  joined-view :
      (ps : List CompletedPart) → joined (map (view objects) ps) ≡ completed_bytes objects ps
  joined-view [] = refl
  joined-view (p ∷ ps) = ap (λ t. request_bytes objects p.request ++ t) (joined-view ps)

module _ (P : AssembleError → Type 0) (objects : Text → List Byte)
    (get : ℕ → Text → Option (ℕ × ℕ) → Result (List (Result (List Byte))))
    (send : ℕ → ℕ → PartRequest → Result (Option Text)) (bucket files_prefix : Text)
    (plan : SinglePlan) (header body : FileId → List Byte) (directory : List Byte) where
  -- The parts that the plan asks for, as pieces.
  abbrev pub piece_of : PartSpec → Piece
  piece_of p = (number p, part_bytes header body directory p)

  -- A copy is of an object that is there, from a byte of it on.
  pub record IsCopied (id k : ℕ) : Type 0 where
    pub served : IsServed P files_prefix plan header body directory (get 0) id
    pub there : objects (bucket ++ b'/' ∷ object_key files_prefix served.entry.name) ≡ body id
    pub sized : length (body id) ≡ served.entry.size
    pub inside : k < served.entry.size

  abbrev pub IsRealisable : PartSpec → Type 0
  IsRealisable (copy n id k) = IsCopied id k
  IsRealisable (stream n segs) =
      (attempt : ℕ) → All (IsServable P files_prefix plan header body directory (get attempt)) segs

  -- S3 answers a request of a part with a tag, or else with an error of which `P` holds.
  abbrev pub IsTagging : Type 0
  IsTagging =
      (attempt n : ℕ) (request : PartRequest)
      → Ends P (λ t. (tag : Text) × (t ≡ some tag)) (send attempt n request)

  sent-Ends :
      IsTagging
      → (attempt n : ℕ) (request : PartRequest) (what : Text)
      → Ends P
          (λ p. view objects p ≡ (n, request_bytes objects request))
          (sent get send bucket files_prefix plan attempt n request what)
  unfolding sent
  sent-Ends tagging attempt n request what = Ends->>= P _ _ _ _ (tagging attempt n request) (λ t h.
      let (tag, e) = h in
      rw e (inl (record { part_number = n; e_tag = tag; request = request }, refl, refl)))

  attempt_part-Ends :
      IsTagging
      → (part : PartSpec) (attempt : ℕ) → IsRealisable part
      → Ends P
          (λ p. view objects p ≡ piece_of part)
          (attempt_part get send bucket files_prefix plan part attempt)
  unfolding attempt_part copy_range
  attempt_part-Ends tagging (copy n id zero) attempt i = rw i.served.found (
      Ends-map P _ _ _ (λ p e. e ∙ ap (λ t. (n, t)) i.there)
        (sent-Ends tagging attempt n _ (codes "upload_part_copy")))
  attempt_part-Ends tagging (copy n id (suc k)) attempt i =
      let positive : ltb 0 (suc k) ≡ true = lt→ltb 0 (suc k) (omega arith) in
      let size = i.served.entry.size in
      let rest : take (suc (size - 1) - suc k) (drop (suc k) (body id)) ≡ drop (suc k) (body id) =
        take_all (suc (size - 1) - suc k) (drop (suc k) (body id))
          (omega (arith, i.sized, length-drop (suc k) (body id))) in
      let source = bucket ++ b'/' ∷ object_key files_prefix i.served.entry.name in
      let ranged : request_bytes objects (upload_part_copy source (copy_range (suc k) size))
          ≡ drop (suc k) (body id) =
        ap
          (λ b.
            request_bytes objects
              (upload_part_copy source (if b then some (suc k, size - 1) else none)))
          positive
        ∙ ap (λ t. take (suc (size - 1) - suc k) (drop (suc k) t)) i.there
        ∙ rest in
      rw i.served.found (
        Ends-map P _ _ _ (λ p e. e ∙ ap (λ t. (n, t)) ranged)
          (sent-Ends tagging attempt n _ (codes "upload_part_copy")))
  attempt_part-Ends tagging (stream n segs) attempt h =
      Ends->>= P _ _ _ _
        (build_stream_part_bytes-Ends P files_prefix plan header body directory (get attempt) segs
          (h attempt))
        (λ bs e.
          Ends-map P _ _ _ (λ p k. k ∙ ap (λ t. (n, t)) e)
            (sent-Ends tagging attempt n (upload_part bs) (codes "upload_part")))

  realise_parts-Ends :
      IsTagging
      → (arrival : List PartSpec) → All IsRealisable arrival
      → Ends P
          (λ ps. map (view objects) ps ≡ map piece_of arrival)
          (realise_parts get send bucket files_prefix plan arrival)
  unfolding realise_parts
  realise_parts-Ends tagging [] h = inl ([], refl, refl)
  realise_parts-Ends tagging (part ∷ arrival) (i, h) =
      Ends->>= P _ _ _ _
        (with_retry-Ends P _ _ (λ attempt. attempt_part-Ends tagging part attempt i))
        (λ p e.
          Ends->>= P _ _ _ _ (realise_parts-Ends tagging arrival h)
            (λ ps k. inl (p ∷ ps, ap₂ (λ t u. t ∷ u) e k, refl)))

  map-IsNumbered :
      (parts : List PartSpec) (n : ℕ)
      → Contents.IsNumbered n parts
      → IsNumbered n (map piece_of parts)
  map-IsNumbered [] n h = tt
  map-IsNumbered (p ∷ parts) n (e, h) = (e, map-IsNumbered parts (suc n) h)

  joined_pieces :
      (parts : List PartSpec)
      → joined (map piece_of parts) ≡ parts_bytes header body directory parts
  joined_pieces [] = refl
  joined_pieces (p ∷ parts) =
      ap (λ t. part_bytes header body directory p ++ t) (joined_pieces parts)

  -- In whatever order the parts of a plan are done, the completion of the upload gets the parts whose
  -- bytes, one after the other, are those of the plan's parts in their order, or the upload ends with
  -- an error of which `P` holds: where S3 answers no error, it succeeds. The objects are those that
  -- the plan was made for, the parts of the plan are numbered from 1 without a gap, and the errors
  -- that S3 answers satisfy `P`.
  pub assemble_parts-Ends :
      (arrival : List PartSpec)
      → IsTagging
      → Perm arrival plan.parts
      → Contents.IsNumbered 1 plan.parts
      → All IsRealisable arrival
      → Ends P
          (λ ps. completed_bytes objects ps ≡ parts_bytes header body directory plan.parts)
          (assemble_parts get send bucket files_prefix plan arrival)
  unfolding assemble_parts
  assemble_parts-Ends arrival tagging perm numbered real =
      let pieces = map-IsNumbered plan.parts 1 numbered in
      let apart =
        IsDistinct-perm piece_of perm (IsNumbered-IsDistinct (map piece_of plan.parts) 1 pieces) in
      Ends->>= P _ _ _ _ (realise_parts-Ends tagging arrival real) (λ ps e. inl (
        sort_parts ps,
        sym (joined-view objects (sort_parts ps))
            ∙ ap joined (
                sort_parts-view objects ps
                ∙ ap sort e
                ∙ sort-map_perm piece_of perm apart
                ∙ sort-IsNumbered (map piece_of plan.parts) 1 pieces)
            ∙ joined_pieces plan.parts,
        refl,
      ))
