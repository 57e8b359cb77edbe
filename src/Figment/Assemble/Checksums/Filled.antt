-- ===== src/Figment/Assemble/Checksums/Filled.antt =====
-- The checksums of a plan are all filled in, in whatever order the HEADs are answered.
use demo_s3_archiving.Prelude.{ℕ, ◌≡◌, refl, sym, ap, subst, ◌∙◌, arith, inl, inr, ◌⊎◌}
use demo_s3_archiving.Prelude.{
  false, Bool-cases, ◌==◌, Option, some, List, [], ◌∷◌, map, All, All-map,
}
use mathlib.Core.List.{Permᴰ}
use mathlib.Core.List.Permᴰ
use demo_s3_archiving.Bytes.{Text}
use demo_s3_archiving.Figment.Plan.{FileId, Entry, SinglePlan}
use demo_s3_archiving.Figment.Crc.{decode_s3_crc32}
use demo_s3_archiving.Figment.Assemble.{AssembleError, Result, ok, err, entry_at, object_key}
use demo_s3_archiving.Figment.Assemble.Stream.{Ends, Ends->>=, Ends-map, with_retry-Ends}
use demo_s3_archiving.Figment.Assemble.Checksums.{
  Job, jobs_of, filled_entry, fill_entry, head_job, crc_from, fill_entries, fill_crcs,
}

ok-keeps : {f e : Entry} (crc : ℕ) → ok f ≡ ok e → ok (filled_entry f crc) ≡ ok (filled_entry e crc)
ok-keeps {f} {e} crc h =
    ap (λ (r : Result Entry). ok (filled_entry (elim r [ ok v ↦ v | err x ↦ f ]) crc)) h

fill_entry-own :
    (id : FileId) (crc : ℕ) (entries : List (FileId × Entry)) (e : Entry)
    → entry_at entries id ≡ ok e
    → entry_at (fill_entry id crc entries) id ≡ ok (filled_entry e crc)
unfolding entry_at fill_entry
fill_entry-own id crc [] e h = absurd (cc h)
fill_entry-own id crc ((other, f) ∷ entries) e h = elim (Bool-cases (other == id)) [
  | inl t ↦
      let h' : ok f ≡ ok e = rw t at h in rw (fill_entry, t) (rw (entry_at, t) (ok-keeps crc h'))
  | inr t ↦ rw (fill_entry, t) (rw (entry_at, t) (fill_entry-own id crc entries e (rw t at h)))
]

fill_entry-other :
    (id other : FileId) (crc : ℕ) (entries : List (FileId × Entry))
    → (id == other) ≡ false
    → entry_at (fill_entry id crc entries) other ≡ entry_at entries other
unfolding entry_at fill_entry
fill_entry-other id other crc [] h = refl
fill_entry-other id other crc ((x, f) ∷ entries) h = elim (Bool-cases (x == id)) [
  | inl t ↦
      let same : x ≡ id = ground (arith, t) in
      let apart : (x == other) ≡ false = rw same h in rw (fill_entry, t) (rw (entry_at, apart) refl)
  | inr t ↦ elim (Bool-cases (x == other)) [
    | inl u ↦ rw (fill_entry, t) (rw (entry_at, u) refl)
    | inr u ↦ rw (fill_entry, t) (rw (entry_at, u) (fill_entry-other id other crc entries h))
  ]
]

All-perm_d : {A : Type 0} (P : A → Type 0) {xs ys : List A} → Permᴰ xs ys → All P ys → All P xs
All-perm_d P Permᴰ.nil h = tt
All-perm_d P (Permᴰ.cons e p) (a, h) = (subst P (sym e) a, All-perm_d P p h)
All-perm_d P (Permᴰ.swap e e') (a, (b, h)) = (subst P (sym e) b, (subst P (sym e') a, h))
All-perm_d P (Permᴰ.trans p q) h = All-perm_d P p (All-perm_d P q h)

module _ {A B : Type 0} (P : B → Type 0) (f : A → B) where
  All-map_to : (xs : List A) → All (λ x. P (f x)) xs → All P (map f xs)
  All-map_to [] h = tt
  All-map_to (x ∷ xs) (p, h) = (p, All-map_to xs h)

  All-map_from : (xs : List A) → All P (map f xs) → All (λ x. P (f x)) xs
  All-map_from [] h = tt
  All-map_from (x ∷ xs) (p, h) = (p, All-map_from xs h)

-- `original` are the entries before, and `sum` are the checksums that S3 has stored.
module _ (P : AssembleError → Type 0) (head : ℕ → Text → Result (Option Text))
    (shown_id : FileId → Text) (files_prefix : Text) (original : FileId → Entry)
    (sum : FileId → ℕ) where
  abbrev pub IsFilled : List (FileId × Entry) → FileId → Type 0
  IsFilled entries id = entry_at entries id ≡ ok (record (original id) { crc = some (sum id) })

  abbrev IsKnown : List (FileId × Entry) → FileId → Type 0
  IsKnown entries id = (entry_at entries id ≡ ok (original id)) ⊎ IsFilled entries id

  -- The answers to the HEAD of an object are its checksum, or an error of which `P` holds.
  abbrev pub IsHeaded : Job → Type 0
  IsHeaded job =
      (attempt : ℕ)
      → Ends P
          (λ crc_b64.
            (b64 : Text) × (crc_b64 ≡ some b64) × (decode_s3_crc32 b64 ≡ some (sum job.0)))
          (head attempt job.1)

  known-IsFilled :
      (id : FileId) (entries : List (FileId × Entry))
      → IsKnown entries id
      → IsFilled (fill_entry id (sum id) entries) id
  unfolding filled_entry
  known-IsFilled id entries (inl h) = fill_entry-own id (sum id) entries (original id) h
  known-IsFilled id entries (inr h) =
      fill_entry-own id (sum id) entries (record (original id) { crc = some (sum id) }) h

  fill_entry-IsFilled :
      (id other : FileId) (entries : List (FileId × Entry))
      → IsFilled entries other
      → IsFilled (fill_entry id (sum id) entries) other
  fill_entry-IsFilled id other entries h = elim (Bool-cases (id == other)) [
    | inl t ↦
        let same : id ≡ other = ground (arith, t) in rw same (known-IsFilled other entries (inr h))
    | inr t ↦ fill_entry-other id other (sum id) entries t ∙ h
  ]

  fill_entry-IsKnown :
      (id other : FileId) (entries : List (FileId × Entry))
      → IsKnown entries other
      → IsKnown (fill_entry id (sum id) entries) other
  fill_entry-IsKnown id other entries (inr h) = inr (fill_entry-IsFilled id other entries h)
  fill_entry-IsKnown id other entries (inl h) = elim (Bool-cases (id == other)) [
    | inl t ↦
        let same : id ≡ other = ground (arith, t) in
        inr (rw same (known-IsFilled other entries (inl h)))
    | inr t ↦ inl (fill_entry-other id other (sum id) entries t ∙ h)
  ]

  head_job-Ends :
      (job : Job)
      → IsHeaded job
      → Ends P
          (λ r. (b64 : Text) × (r ≡ (job.0, some b64)) × (decode_s3_crc32 b64 ≡ some (sum job.0)))
          (head_job head shown_id job)
  unfolding head_job
  head_job-Ends job h = with_retry-Ends P _ _ (λ attempt.
      Ends->>= P _ _ _ _ (h attempt)
        (λ v (b64, e, d). inl ((job.0, v), (b64, ap (λ t. (job.0, t)) e, d), refl)))

  fill_entries-Ends :
      (jobs : List Job) (entries : List (FileId × Entry))
      → All (λ j. IsKnown entries j.0 × IsHeaded j) jobs
      → Ends P
          (λ filled.
            All (λ j. IsFilled filled j.0) jobs
            × ((id : FileId) → IsFilled entries id → IsFilled filled id))
          (fill_entries head shown_id (map (head_job head shown_id) jobs) entries)
  unfolding fill_entries crc_from
  fill_entries-Ends [] entries h = inl (entries, (tt, λ id k. k), refl)
  fill_entries-Ends (j ∷ jobs) entries ((known, headed), h) =
      Ends->>= P _ _ _ _ (head_job-Ends j headed) (λ r (b64, e, d).
        rw (e, crc_from, d)
          (Ends-map P _ _ _
            (λ filled (all, kept). (
              (kept j.0 (known-IsFilled j.0 entries known), all),
              λ id k. kept id (fill_entry-IsFilled j.0 id entries k),
            ))
            (fill_entries-Ends jobs (fill_entry j.0 (sum j.0) entries)
              (All-map jobs (λ i (k, g). (fill_entry-IsKnown j.0 i.0 entries k, g)) h))))

  abbrev pub job_of : FileId → Job
  job_of id = (id, object_key files_prefix (original id).name)

  jobs_of-ok :
      (entries : List (FileId × Entry)) (order : List FileId)
      → All (λ id. entry_at entries id ≡ ok (original id)) order
      → jobs_of files_prefix entries order ≡ ok (map job_of order)
  unfolding jobs_of
  jobs_of-ok entries [] h = refl
  jobs_of-ok entries (id ∷ order) (e, h) = rw (jobs_of, e, jobs_of-ok entries order h) refl

  -- In whatever order the HEADs are answered, every entry of the plan gets the checksum that S3 has
  -- stored for its object and keeps all else, and the order and the parts of the plan stay as they
  -- are, or the call ends with an error of which `P` holds: where S3 answers no error, it succeeds.
  -- Every id of the order has an entry, and every object has a checksum that can be decoded.
  pub fill_crcs-Ends :
      (plan : SinglePlan) (arrive : List Job → List Job)
      → ((jobs : List Job) → Permᴰ (arrive jobs) jobs)
      → All (λ id. entry_at plan.entries id ≡ ok (original id)) plan.order
      → All (λ id. IsHeaded (job_of id)) plan.order
      → Ends P
          (λ filled.
            All (IsFilled filled.entries) plan.order
            × (filled.order ≡ plan.order)
            × (filled.parts ≡ plan.parts))
          (fill_crcs head shown_id files_prefix arrive plan)
  unfolding fill_crcs
  fill_crcs-Ends plan arrive perm found headed =
      let jobs = map job_of plan.order in
      let both = All-perm_d _ (perm jobs) (
        All-map_to (λ j. IsKnown plan.entries j.0 × IsHeaded j) job_of plan.order
          (All-zip plan.order found headed)) in
      rw (jobs_of-ok plan.entries plan.order found) (
        Ends->>= P _ _ _ _ (fill_entries-Ends (arrive jobs) plan.entries both)
          (λ entries (all, kept). inl (
            _,
            (
              All-map_from (λ j. IsFilled entries j.0) job_of plan.order
                  (All-perm_d _ (Permᴰ.symm (perm jobs)) all),
              refl,
              refl,
            ),
            refl,
          )))
    where
      All-zip :
          (order : List FileId)
          → All (λ id. entry_at plan.entries id ≡ ok (original id)) order
          → All (λ id. IsHeaded (job_of id)) order
          → All (λ id. IsKnown plan.entries id × IsHeaded (job_of id)) order
      All-zip [] h k = tt
      All-zip (id ∷ order) (a, h) (b, k) = ((inl a, b), All-zip order h k)
