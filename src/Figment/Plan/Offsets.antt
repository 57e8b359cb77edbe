-- ===== src/Figment/Plan/Offsets.antt =====
-- The offsets of a plan: where each entry stands in the archive that the parts upload.
use demo_s3_archiving.Prelude.{ℕ, ◌+◌, ◌≡◌, refl, sym, ap, ◌∙◌, subst, arith}
use demo_s3_archiving.Prelude.{
  List, [], ◌∷◌, ◌++◌, append_assoc, length, length-append, take, drop, All,
}
use demo_s3_archiving.Bytes.{Byte}
use demo_s3_archiving.Figment.ZipFormat.{local_header_len, entry_total_len}
use demo_s3_archiving.Figment.Plan.{
  FileId, SourceFile, Entry, SizeOf, SinglePlan, offsets_from, compute_offsets, entries_of,
  build_plan, plan_single_mpu, single_mpu,
}
use demo_s3_archiving.Figment.Plan.Contents.{order_bytes, parts_bytes}
use demo_s3_archiving.Figment.Plan.Whole.{planned, plan_single_mpu-whole}
use demo_s3_archiving.Figment.Plan.Floor.{table}

pub drop-append : (xs ys : List Byte) → drop (length xs) (xs ++ ys) ≡ ys
drop-append [] ys = refl
drop-append (x ∷ xs) ys = drop-append xs ys

pub take-append : (xs ys : List Byte) → take (length xs) (xs ++ ys) ≡ xs
take-append [] ys = refl
take-append (x ∷ xs) ys = ap (λ t. x ∷ t) (take-append xs ys)

module _ (header body : FileId → List Byte) (directory : List Byte) where
  -- The header and the body of an entry stand in the archive at the entry's offset.
  abbrev pub IsPlaced : List Byte → FileId × Entry → Type 0
  IsPlaced archive (id, e) =
      take (entry_total_len e.name e.size) (drop e.local_header_offset archive)
      ≡ header id ++ body id

  -- Each header and body is as long as the planner takes it to be.
  abbrev pub IsMeasured : SizeOf → FileId → Type 0
  IsMeasured size_of id =
      (length (header id) ≡ local_header_len (size_of id).0) × (length (body id) ≡ (size_of id).1)

  entries_of-IsPlaced :
      (size_of : SizeOf) (big_ids streamed : List FileId)
      → ((id : FileId) → IsMeasured size_of id)
      → (front : List Byte) (order : List FileId) (acc : ℕ) → length front ≡ acc
      → All
          (IsPlaced (front ++ (order_bytes header body directory order ++ directory)))
          (entries_of size_of big_ids streamed order (offsets_from size_of acc order))
  unfolding entries_of offsets_from entry_total_len
  entries_of-IsPlaced size_of big_ids streamed known front [] acc e = tt
  entries_of-IsPlaced size_of big_ids streamed known front (id ∷ order) acc e =
      let entry = header id ++ body id in
      let rest = order_bytes header body directory order ++ directory in
      let n = local_header_len (size_of id).0 + (size_of id).1 in
      let long : length entry ≡ n = omega (arith, length-append (header id) (body id), known id) in
      let whole : front ++ ((entry ++ order_bytes header body directory order) ++ directory)
          ≡ front ++ (entry ++ rest) =
        ap (λ t. front ++ t)
          (append_assoc entry (order_bytes header body directory order) directory) in
      (
        ap (λ t. take n (drop acc t)) whole
            ∙ ap (λ k. take n (drop k (front ++ (entry ++ rest)))) (sym e)
            ∙ ap (take n) (drop-append front (entry ++ rest))
            ∙ ap (λ k. take k (entry ++ rest)) (sym long)
            ∙ take-append entry rest,
        subst
            (λ t.
              All (IsPlaced t)
                (entries_of size_of big_ids streamed order (offsets_from size_of (acc + n) order)))
            (append_assoc front entry rest ∙ sym whole)
            (entries_of-IsPlaced size_of big_ids streamed known (front ++ entry) order (acc + n)
              (omega (arith, length-append front entry, e, long))),
      )

  -- Where the planner does not fall back, each entry's header and body stand in the archive that the
  -- parts upload at the entry's `local_header_offset`, if the
  -- headers and bodies are as long as the planner's table of names and sizes says.
  pub plan_single_mpu-IsPlaced :
      (files : List SourceFile) (plan : SinglePlan)
      → ((id : FileId) → IsMeasured (table files) id)
      → plan_single_mpu files ≡ single_mpu plan
      → All (IsPlaced (parts_bytes header body directory plan.parts)) plan.entries
  unfolding build_plan compute_offsets
  plan_single_mpu-IsPlaced files plan known e =
      let bytes = (plan_single_mpu-whole header body directory files plan e).0 in
      let same = planned files plan e in
      subst (λ t. All (IsPlaced t) plan.entries) (sym bytes)
        (subst
          (λ (p : SinglePlan).
            All (IsPlaced (order_bytes header body directory p.order ++ directory)) p.entries)
          same (entries_of-IsPlaced (table files) _ _ known [] _ 0 refl))
