-- ===== src/FigmentChain/PlanChain/Offsets.antt =====
-- The entries of a plan of the chain: where each stands in the stitched archive.
use demo_s3_archiving.Prelude.{ℕ, ◌+◌, ◌≡◌, refl, sym, ap, ◌∙◌, subst, arith}
use demo_s3_archiving.Prelude.{
  List, [], ◌∷◌, ◌++◌, append_assoc, map, length, length-append, take, drop, All,
}
use demo_s3_archiving.Bytes.{Byte}
use demo_s3_archiving.Figment.ZipFormat.{local_header_len, entry_total_len}
use demo_s3_archiving.Figment.Plan.{FileId, SourceFile, SizeOf, compute_offsets}
use demo_s3_archiving.Figment.Plan.Contents.{order_bytes}
use demo_s3_archiving.Figment.Plan.Offsets.{drop-append, take-append}
use demo_s3_archiving.FigmentChain.PlanChain.{Entry, ChainPlan, ok, plan_segment_chain}
use demo_s3_archiving.FigmentChain.PlanChain.Contents.{stitched}
use demo_s3_archiving.FigmentChain.PlanChain.Table.{listed, entries_of-listed}
use demo_s3_archiving.FigmentChain.PlanChain.Whole.{table, chained, planned}
use demo_s3_archiving.FigmentChain.PlanChain.Tiles.{plan_segment_chain-whole}

pub listed-ids :
    (size_of : SizeOf) (order : List FileId) (acc : ℕ)
    → map (λ p. p.0) (listed size_of acc order) ≡ order
listed-ids size_of [] acc = refl
listed-ids size_of (id ∷ order) acc = ap (λ t. id ∷ t) (listed-ids size_of order _)

module _ (header body : FileId → List Byte) where
  -- The header and the body of an entry stand in the archive at the entry's offset.
  abbrev pub IsPlaced : List Byte → FileId × Entry → Type 0
  IsPlaced archive (id, e) =
      take (entry_total_len e.name e.size) (drop e.local_header_offset archive)
      ≡ header id ++ body id

  -- The header and the body are as long as the table says.
  abbrev pub IsMeasured : SizeOf → FileId → Type 0
  IsMeasured size_of id =
      (length (header id) ≡ local_header_len (size_of id).0) × (length (body id) ≡ (size_of id).1)

  placed_lem :
      (front rest : List Byte) (id n acc : ℕ)
      → length front ≡ acc
      → length (header id ++ body id) ≡ n
      → take n (drop acc (front ++ ((header id ++ body id) ++ rest))) ≡ header id ++ body id
  placed_lem front rest id n acc e long =
      let entry = header id ++ body id in
      ap (λ k. take n (drop k (front ++ (entry ++ rest)))) (sym e)
      ∙ ap (take n) (drop-append front (entry ++ rest))
      ∙ ap (λ k. take k (entry ++ rest)) (sym long)
      ∙ take-append entry rest

  listed-IsPlaced :
      (size_of : SizeOf)
      → ((id : FileId) → IsMeasured size_of id)
      → (order : List FileId) (front : List Byte) (acc : ℕ) → length front ≡ acc
      → All (IsPlaced (front ++ order_bytes header body [] order)) (listed size_of acc order)
  unfolding entry_total_len
  listed-IsPlaced size_of known [] front acc e = tt
  listed-IsPlaced size_of known (id ∷ order) front acc e =
      let entry = header id ++ body id in
      let n = local_header_len (size_of id).0 + (size_of id).1 in
      let long : length entry ≡ n = omega (arith, length-append (header id) (body id), known id) in
      let rest = order_bytes header body [] order in
      (
        placed_lem front rest id n acc e long,
        subst (λ t. All (IsPlaced t) (listed size_of (acc + n) order))
            (append_assoc front entry rest)
            (listed-IsPlaced size_of known order (front ++ entry) (acc + n)
              (omega (arith, length-append front entry, e, long))),
      )

  -- Where there is a plan, it has an entry for each id of its order, in the order, and the header and
  -- the body of each entry stand in the stitched objects of the segments at the entry's
  -- `local_header_offset`, if the headers and bodies are as long as the planner's table of names and
  -- sizes says.
  pub plan_segment_chain-IsPlaced :
      (files : List SourceFile) (plan : ChainPlan)
      → ((id : FileId) → IsMeasured (table files) id)
      → plan_segment_chain files ≡ ok plan
      → All (IsPlaced (stitched header body plan.segments)) plan.entries
        × (map (λ p. p.0) plan.entries ≡ plan.order)
  unfolding compute_offsets
  plan_segment_chain-IsPlaced files plan known e =
      let bytes = (plan_segment_chain-whole header body files plan e).0 in
      let (r, big, found, same) = planned files plan e in
      let order = (chained files).order in
      let read = entries_of-listed (table files) order [] 0 r found in
      let goal : All (IsPlaced (order_bytes header body [] order)) r.0 =
        subst (λ q. All (IsPlaced (order_bytes header body [] order)) q.0) (sym read)
          (listed-IsPlaced (table files) known order [] 0 refl) in
      subst (λ t. All (IsPlaced t) plan.entries × (map (λ p. p.0) plan.entries ≡ plan.order))
        (sym bytes)
        (subst
          (λ (p : ChainPlan).
            All (IsPlaced (order_bytes header body [] p.order)) p.entries
            × (map (λ q. q.0) p.entries ≡ p.order))
          same (goal, ap (λ q. map (λ p. p.0) q.0) read ∙ listed-ids (table files) order 0))
