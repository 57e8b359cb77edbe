-- ===== src/FigmentChain/Tests/Plan.antt =====
-- The theorems of the planner of the chain at concrete inputs.
use demo_s3_archiving.Prelude.{ℕ, zero, suc, ◌≡◌, ◌⊎◌, refl, ap, Perm}
use demo_s3_archiving.Prelude.{List, [], ◌∷◌, map, length, All}
use demo_s3_archiving.Bytes.{Byte}
use demo_s3_archiving.Figment.ZipFormat.{local_header_len}
use demo_s3_archiving.Figment.Plan.{FileId, SourceFile, ids}
use demo_s3_archiving.Figment.Plan
use demo_s3_archiving.Figment.Plan.Contents.{order_bytes}
use demo_s3_archiving.FigmentChain.PlanChain.{
  ChainPlan, Outcome, ok, err, no_bigs, panic, build_chain, plan_segment_chain, id_first, push_at,
  spread, make_buckets, add_segment, add_segments, entries_of, new_bucket,
}
use demo_s3_archiving.FigmentChain.PlanChain.Contents.{stitched}
use demo_s3_archiving.FigmentChain.PlanChain.Table.{IsDistinct}
use demo_s3_archiving.FigmentChain.PlanChain.Whole.{table}
use demo_s3_archiving.FigmentChain.PlanChain.Tiles.{
  IsSmall, IsTiled, plan_segment_chain-outcome, plan_segment_chain-whole,
  plan_segment_chain-IsTiled,
}
use demo_s3_archiving.FigmentChain.PlanChain.Offsets.{
  IsPlaced, IsMeasured, plan_segment_chain-IsPlaced,
}
use demo_s3_archiving.FigmentChain.PlanChain.Parts.{IsBuilt, plan_segment_chain-IsBuilt}

fill : ℕ → List Byte
fill zero = []
fill (suc n) = 0 ∷ fill n

length-fill : (n : ℕ) → length (fill n) ≡ n
unfolding fill
length-fill zero = refl
length-fill (suc n) = ap suc (length-fill n)

-- Two big files and two small ones.
abbrev pub files : List SourceFile
files =
    record { id = 0; key = (b'p' ∷ b'/' ∷ b'a' ∷ []); name = (b'a' ∷ []); size = 11000000 }
    ∷ record { id = 1; key = (b'p' ∷ b'/' ∷ b's' ∷ []); name = (b's' ∷ []); size = 1000 }
    ∷ record { id = 2; key = (b'p' ∷ b'/' ∷ b'b' ∷ []); name = (b'b' ∷ []); size = 12000000 }
    ∷ record { id = 3; key = (b'p' ∷ b'/' ∷ b't' ∷ []); name = (b't' ∷ []); size = 0 }
    ∷ []

-- The plan of an outcome, or else one of nothing.
abbrev pub plan_of : Outcome → ChainPlan
plan_of (ok plan) = plan
plan_of (err e) = record {
  order = [];
  entries = [];
  segments = [];
  cd_offset = 0;
  cd_size = 0;
  stats = record {
    entries = 0;
    segments = 0;
    bigs = 0;
    smalls = 0;
    links = 0;
    max_chain_depth = 0;
  };
}
plan_of panic = record {
  order = [];
  entries = [];
  segments = [];
  cd_offset = 0;
  cd_size = 0;
  stats = record {
    entries = 0;
    segments = 0;
    bigs = 0;
    smalls = 0;
    links = 0;
    max_chain_depth = 0;
  };
}

abbrev pub plan : ChainPlan
plan = plan_of (plan_segment_chain files)

pub files-planned : plan_segment_chain files ≡ ok plan
unfolding plan_segment_chain build_chain Plan.partition entries_of add_segments make_buckets spread
    Plan.sort_by Plan.insert_by id_first push_at Plan.big_first add_segment Plan.compute_offsets
    Plan.offsets_from Plan.contains new_bucket
files-planned = refl

order_test : plan.order ≡ 2 ∷ 1 ∷ 0 ∷ 3 ∷ []
unfolding plan_segment_chain build_chain Plan.partition entries_of add_segments make_buckets spread
    Plan.sort_by Plan.insert_by id_first push_at Plan.big_first add_segment Plan.compute_offsets
    Plan.offsets_from Plan.contains new_bucket
order_test = refl

abbrev header : FileId → List Byte
header id = fill (local_header_len (table files id).0)

abbrev body : FileId → List Byte
body id = fill (table files id).1

measured : (id : FileId) → IsMeasured header body (table files) id
measured id = (length-fill (local_header_len (table files id).0), length-fill (table files id).1)

plan_segment_chain-outcome_example :
    (All IsSmall files × (plan_segment_chain files ≡ err (no_bigs (length files))))
    ⊎ (¬ All IsSmall files × ¬ IsDistinct files × (plan_segment_chain files ≡ panic))
    ⊎ (¬ All IsSmall files
        × IsDistinct files
        × ((p : ChainPlan) × (plan_segment_chain files ≡ ok p)))
plan_segment_chain-outcome_example = plan_segment_chain-outcome files

plan_segment_chain-whole_example :
    (stitched header body plan.segments ≡ order_bytes header body [] plan.order)
    × Perm plan.order (ids files)
plan_segment_chain-whole_example = plan_segment_chain-whole header body files plan files-planned

plan_segment_chain-IsTiled_example : IsTiled files plan
plan_segment_chain-IsTiled_example = plan_segment_chain-IsTiled files plan files-planned

plan_segment_chain-IsPlaced_example :
    All (IsPlaced header body (stitched header body plan.segments)) plan.entries
    × (map (λ p. p.0) plan.entries ≡ plan.order)
plan_segment_chain-IsPlaced_example =
    plan_segment_chain-IsPlaced header body files plan measured files-planned

plan_segment_chain-IsBuilt_example : All (IsBuilt header body) plan.segments
plan_segment_chain-IsBuilt_example =
    plan_segment_chain-IsBuilt header body files plan measured files-planned
