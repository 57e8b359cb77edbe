-- ===== src/Figment/Assemble/Stream.antt =====
-- What the parts of a plan upload, if S3 answers.
use demo_s3_archiving.Prelude.{ℕ, zero, suc, ◌≤◌, ◌<◌, ◌≡◌, ◌⊎◌, refl, sym, ap₂, inl, inr}
use demo_s3_archiving.Prelude.{Bool-cases}
use demo_s3_archiving.Prelude.{Option, some, List, [], ◌∷◌, ◌++◌, length, take, All}
use demo_s3_archiving.Bytes.{Byte, Text}
use demo_s3_archiving.Figment.ZipFormat.{local_header}
use demo_s3_archiving.Figment.Plan.{
  FileId, Entry, Segment, streamed_file, copied_file_header, streamed_big_prefix, central_directory,
  SinglePlan,
}
use demo_s3_archiving.Figment.Plan.Contents.{segment_bytes, segments_bytes}
use demo_s3_archiving.Figment.Assemble.{
  AssembleError, Result, ok, err, ◌>>=◌, is_retryable, retry_from, with_retry, entry_at, entry_meta,
  crc_of, object_key, build_central_directory, get_object_bytes, get_object_range_bytes,
  segment_part, build_stream_part_bytes,
}

-- A fallible result: a value of which `Q` holds, or an error of which `P` holds. With `P` for no
-- error at all, it is a value.
module _ (P : AssembleError → Type 0) where
  abbrev pub Ends : {A : Type 0} → (A → Type 0) → Result A → Type 0
  Ends {A} Q r = ((v : A) × Q v × (r ≡ ok v)) ⊎ ((e : AssembleError) × P e × (r ≡ err e))

  pub Ends->>= :
      {A B : Type 0} (Q : A → Type 0) (R : B → Type 0) (r : Result A) (f : A → Result B)
      → Ends Q r
      → ((v : A) → Q v → Ends R (f v))
      → Ends R (r >>= f)
  Ends->>= Q R r f (inl (v, q, e)) h = rw e (h v q)
  Ends->>= Q R r f (inr (x, p, e)) h = inr (x, p, rw e refl)

  pub Ends-map :
      {A : Type 0} (Q R : A → Type 0) (r : Result A) → ((v : A) → Q v → R v) → Ends Q r → Ends R r
  Ends-map Q R r f (inl (v, q, e)) = inl (v, f v q, e)
  Ends-map Q R r f (inr h) = inr h

  retry_from-Ends :
      {A : Type 0} (Q : A → Type 0) (op : ℕ → Result A)
      → ((n : ℕ) → Ends Q (op n))
      → (left attempt : ℕ) → Ends Q (retry_from left attempt op)
  unfolding retry_from
  retry_from-Ends Q op h zero attempt = h attempt
  retry_from-Ends Q op h (suc left) attempt = elim (h attempt) [
    | inl (v, q, e) ↦ inl (v, q, rw (retry_from, e) refl)
    | inr (x, p, e) ↦ elim (Bool-cases (is_retryable x)) [
      | inl b ↦ rw (retry_from, e, b) (retry_from-Ends Q op h left (suc attempt))
      | inr b ↦ inr (x, p, rw (retry_from, e, b) refl)
    ]
  ]

  pub with_retry-Ends :
      {A : Type 0} (Q : A → Type 0) (op : ℕ → Result A)
      → ((n : ℕ) → Ends Q (op n))
      → Ends Q (with_retry op)
  unfolding with_retry
  with_retry-Ends Q op h = retry_from-Ends Q op h 4 0

  module _ (files_prefix : Text) (plan : SinglePlan) (header body : FileId → List Byte)
      (directory : List Byte) where
    module _ (get : Text → Option (ℕ × ℕ) → Result (List (Result (List Byte)))) where
      -- An id of the plan with its checksum, whose object S3 returns in answer to a GET, whole or
      -- from its start, or else an error of which `P` holds.
      pub record IsServed (id : FileId) : Type 0 where
        pub entry : Entry
        pub crc : ℕ
        pub found : entry_at plan.entries id ≡ ok entry
        pub filled : entry.crc ≡ some crc
        pub headed :
            header id
            ≡ local_header (record {
              name = entry.name;
              size = entry.size;
              crc = crc;
              local_header_offset = entry.local_header_offset;
            })
        pub whole :
            Ends (λ bs. bs ≡ body id) (get_object_bytes get (object_key files_prefix entry.name))
        pub prefix :
            (len : ℕ)
            → 0 < len
            → len ≤ length (body id)
            → Ends
                (λ bs. bs ≡ take len (body id))
                (get_object_range_bytes get (object_key files_prefix entry.name) 0 len)

      abbrev pub IsServable : Segment → Type 0
      IsServable (streamed_file id) = IsServed id
      IsServable (copied_file_header id) = IsServed id
      IsServable (streamed_big_prefix id len) = IsServed id × (0 < len) × (len ≤ length (body id))
      IsServable central_directory = build_central_directory plan ≡ ok directory

      segment_part-Ends :
          (seg : Segment)
          → IsServable seg
          → Ends
              (λ bs. bs ≡ segment_bytes header body directory seg)
              (segment_part get files_prefix plan seg)
      unfolding segment_part crc_of entry_meta
      segment_part-Ends (streamed_file id) i = rw i.found (
          Ends->>= _ _ _ _ i.whole
            (λ bs e. rw i.filled (inl (_, ap₂ (λ t u. t ++ u) (sym i.headed) e, refl))))
      segment_part-Ends (copied_file_header id) i =
          rw (i.found, i.filled) (inl (_, sym i.headed, refl))
      segment_part-Ends (streamed_big_prefix id len) (i, pos, fits) =
          rw i.found (i.prefix len pos fits)
      segment_part-Ends central_directory e = inl (directory, refl, e)

      -- The bytes of a stream part are those of its segments, one after the other, or it is an error
      -- that S3 has answered.
      pub build_stream_part_bytes-Ends :
          (segs : List Segment)
          → All IsServable segs
          → Ends
              (λ bs. bs ≡ segments_bytes header body directory segs)
              (build_stream_part_bytes get files_prefix plan segs)
      unfolding build_stream_part_bytes
      build_stream_part_bytes-Ends [] h = inl ([], refl, refl)
      build_stream_part_bytes-Ends (seg ∷ segs) (p, h) =
          Ends->>= _ _ _ _ (segment_part-Ends seg p) (λ front e.
            Ends->>= _ _ _ _ (build_stream_part_bytes-Ends segs h)
              (λ rest k. inl (front ++ rest, ap₂ (λ t u. t ++ u) e k, refl)))
