-- ===== src/FigmentChain/Assemble/Faults.antt =====
-- What a task that builds the object of a segment can fail with: only what S3 answers.
pub mod Planned
use demo_s3_archiving.Prelude.{ℕ, suc, ◌+◌, ◌-◌, ◌≡◌, refl, sym, ◌∙◌, subst, inl, inr}
use demo_s3_archiving.Prelude.{Option, none, some, List, [], ◌∷◌, ◌++◌, All}
use demo_s3_archiving.Bytes.{Byte, Text}
use demo_s3_archiving.Figment.ZipFormat.{EntryMeta, local_header}
use demo_s3_archiving.Figment.Plan.{FileId}
use demo_s3_archiving.FigmentChain.RateLimit.{high}
use demo_s3_archiving.FigmentChain.PlanChain.{
  Entry, Piece, header_of, body_of, Link, bootstrap, anchor_only, anchor_then_append,
  forward_then_append, Segment, ChainPlan,
}
use demo_s3_archiving.FigmentChain.Assemble.{
  ChainError, s3, no_upload_id, no_etag, bad_crc, byte_stream, panicked, Result, ok, err, Machine,
}
use demo_s3_archiving.FigmentChain.Assemble.Service.{
  Answer, done, failed, Client, read_chunks, required, tagged, create_mpu, upload_part,
  upload_part_copy, complete_mpu, get_object_range_bytes,
}
use demo_s3_archiving.FigmentChain.Assemble.Build.{
  CrcStore, Task, ◌>>=◌, lift, call, entry_at, meta_of, link_ids, piece_id, segment_crc_ids,
  build_piece_part, link_parts, build_one_link, build_links, link_key, build_segment_object,
}
use demo_s3_archiving.FigmentChain.Assemble.Retry.{Result-cases}
use demo_s3_archiving.FigmentChain.Assemble.Attempts.{with_retry_governed-last}
use demo_s3_archiving.FigmentChain.Assemble.Segments.{segment_crc_ids-All, link_ids-All}

-- The errors that come of an answer of S3: not a panic, and not a missing CRC.
abbrev pub IsFault : ChainError → Type 0
IsFault (s3 t) = Unit
IsFault no_upload_id = Unit
IsFault (no_etag what) = Unit
IsFault (bad_crc name) = ⊥
IsFault (byte_stream t) = Unit
IsFault panicked = ⊥

-- A value, or an error that comes of an answer of S3.
abbrev pub Comes : {A : Type 0} → Result A → Type 0
Comes (ok a) = Unit
Comes (err e) = IsFault e

required-Comes :
    {A : Type 0} (e : ChainError) (a : Answer (Option A)) → IsFault e → Comes (required e a)
unfolding required
required-Comes e (failed t) h = tt
required-Comes e (done none) h = h
required-Comes e (done (some a)) h = tt

tagged-Comes : (n : ℕ) (r : Result Text) → Comes r → Comes (tagged n r)
unfolding tagged
tagged-Comes n (ok t) h = tt
tagged-Comes n (err e) h = h

read_chunks-Comes : (chunks : List (Answer (List Byte))) → Comes (read_chunks chunks)
unfolding read_chunks
read_chunks-Comes [] = tt
read_chunks-Comes (failed t ∷ chunks) = tt
read_chunks-Comes (done bytes ∷ chunks) = elim (Result-cases (read_chunks chunks)) [
  | inl (v, e) ↦ rw (read_chunks, e) tt
  | inr (x, e) ↦ rw (read_chunks, e) (subst Comes e (read_chunks-Comes chunks))
]

-- There is a first link, and it does not copy the object of a link before.
abbrev pub IsStarting : List Link → Type 0
IsStarting [] = ⊥
IsStarting (bootstrap anchor k ∷ links) = Unit
IsStarting (anchor_only anchor ∷ links) = Unit
IsStarting (anchor_then_append anchor piece ∷ links) = Unit
IsStarting (forward_then_append piece ∷ links) = ⊥

first_alone : (link : Link) (links : List Link) → IsStarting (link ∷ links) → IsStarting (link ∷ [])
first_alone (bootstrap anchor k) links h = tt
first_alone (anchor_only anchor) links h = tt
first_alone (anchor_then_append anchor piece) links h = tt
first_alone (forward_then_append piece) links h = h

module _ (client : Client) where
  -- A task that fails only with what S3 answers, wherever it starts.
  abbrev pub IsSafe : {A : Type 0} → Task client A → Type 0
  IsSafe {A} m = (s : Machine client.World) → Comes (m s).0

  >>=-IsSafe :
      {A B : Type 0} (m : Task client A) (f : A → Task client B)
      → IsSafe m
      → ((a : A) → IsSafe (f a))
      → IsSafe (◌>>=◌ client m f)
  unfolding ◌>>=◌
  >>=-IsSafe m f p q s = elim (Result-cases (m s).0) [
    | inl (a, e) ↦ rw (◌>>=◌, e) (q a (m s).1)
    | inr (x, e) ↦ rw (◌>>=◌, e) (subst Comes e (p s))
  ]

  lift->>=-IsSafe :
      {A B : Type 0} (r : Result A) (a : A) (f : A → Task client B)
      → r ≡ ok a
      → IsSafe (f a)
      → IsSafe (◌>>=◌ client (lift client r) f)
  unfolding ◌>>=◌ lift
  lift->>=-IsSafe r a f e p s = rw e (p s)

  lift-IsSafe : {A : Type 0} (a : A) → IsSafe (lift client (ok a))
  unfolding lift
  lift-IsSafe a s = tt

  call-IsSafe :
      {A : Type 0} (op : client.World → Result A × client.World)
      → ((w : client.World) → Comes (op w).0)
      → IsSafe (call client op)
  unfolding call
  call-IsSafe op p s =
      let (w, u, result, world) = with_retry_governed-last op high (λ w. Unit) (λ w u. tt) s tt in
      subst Comes (sym result) (p w)

  create-IsSafe : (key : Text) → IsSafe (call client (create_mpu client key))
  unfolding create_mpu
  create-IsSafe key = call-IsSafe _ (λ w. required-Comes no_upload_id _ tt)

  upload-IsSafe :
      (key uid : Text) (n : ℕ) (bytes : List Byte)
      → IsSafe (call client (upload_part client key uid n bytes))
  unfolding upload_part
  upload-IsSafe key uid n bytes =
      call-IsSafe _ (λ w. tagged-Comes n _ (required-Comes (no_etag _) _ tt))

  copy-IsSafe :
      (key uid : Text) (n : ℕ) (source : Text) (range : Option (ℕ × ℕ))
      → IsSafe (call client (upload_part_copy client key uid n source range))
  unfolding upload_part_copy
  copy-IsSafe key uid n source range =
      call-IsSafe _ (λ w. tagged-Comes n _ (required-Comes (no_etag _) _ tt))

  get-IsSafe :
      (key : Text) (start len : ℕ)
      → IsSafe (call client (get_object_range_bytes client key start len))
  unfolding get_object_range_bytes
  get-IsSafe key start len =
      call-IsSafe _ (λ w. answered (client.get_object key (start, start + len - 1) w).0)
    where
      answered :
          (a : Answer (List (Answer (List Byte))))
          → Comes (elim a [ done chunks ↦ read_chunks chunks | failed t ↦ err (s3 t) ])
      answered (done chunks) = read_chunks-Comes chunks
      answered (failed t) = tt

  complete-IsSafe :
      (key uid : Text) (ps : _) → IsSafe (call client (complete_mpu client key uid ps))
  unfolding complete_mpu
  complete-IsSafe key uid ps = call-IsSafe _ (λ w. answered _)
    where
      answered :
          (a : Answer (Unit {0}))
          → Comes {A = Unit {0}} (elim a [ done u ↦ ok u | failed t ↦ err (s3 t) ])
      answered (done u) = tt
      answered (failed t) = tt

  module _ (bucket files_prefix : Text) (plan : ChainPlan) (crcs : CrcStore) where
    -- An id of the plan whose CRC has arrived.
    abbrev pub IsReady : FileId → Type 0
    IsReady id =
        (e : Entry) × (m : EntryMeta) × (entry_at plan.entries id ≡ ok e) × (meta_of e crcs ≡ ok m)

    piece-IsSafe :
        (piece : Piece) (key uid : Text) (n : ℕ)
        → IsReady (piece_id piece)
        → IsSafe (build_piece_part client bucket files_prefix plan crcs piece key uid n)
    unfolding build_piece_part piece_id
    piece-IsSafe (header_of id) key uid n (e, m, found, arrived) =
        lift->>=-IsSafe _ e _ found
          (lift->>=-IsSafe _ m _ arrived (upload-IsSafe key uid n (local_header m)))
    piece-IsSafe (body_of id) key uid n (e, m, found, arrived) =
        lift->>=-IsSafe _ e _ found (copy-IsSafe key uid n _ none)

    parts-IsSafe :
        (link : Link) (prev key uid : Text)
        → All IsReady (link_ids (link ∷ []))
        → IsSafe (link_parts client bucket files_prefix plan crcs link (some prev) key uid)
    unfolding link_parts link_ids
    parts-IsSafe (bootstrap anchor k) prev key uid ((e, m, found, arrived), none_left) =
        lift->>=-IsSafe _ e _ found (
          lift->>=-IsSafe _ m _ arrived (
            >>=-IsSafe _ _ (get-IsSafe _ 0 k) (λ prefix.
              >>=-IsSafe _ _ (upload-IsSafe key uid 1 (local_header m ++ prefix)) (λ p1.
                >>=-IsSafe _ _ (copy-IsSafe key uid 2 _ (some (k, e.size - 1)))
                  (λ p2. lift-IsSafe (p1 ∷ p2 ∷ []))))))
    parts-IsSafe (anchor_only anchor) prev key uid ((e, m, found, arrived), none_left) =
        lift->>=-IsSafe _ e _ found
          (>>=-IsSafe _ _ (copy-IsSafe key uid 1 _ none) (λ p. lift-IsSafe (p ∷ [])))
    parts-IsSafe (anchor_then_append anchor piece) prev key uid
          ((e, m, found, arrived), (ready, none_left)) =
        lift->>=-IsSafe _ e _ found (
          >>=-IsSafe _ _ (copy-IsSafe key uid 1 _ none) (λ p1.
            >>=-IsSafe _ _ (piece-IsSafe piece key uid 2 ready) (λ p2. lift-IsSafe (p1 ∷ p2 ∷ []))))
    parts-IsSafe (forward_then_append piece) prev key uid (ready, none_left) =
        >>=-IsSafe _ _ (copy-IsSafe key uid 1 _ none) (λ p1.
          >>=-IsSafe _ _ (piece-IsSafe piece key uid 2 ready) (λ p2. lift-IsSafe (p1 ∷ p2 ∷ [])))

    first-IsSafe :
        (link : Link) (key uid : Text)
        → IsStarting (link ∷ [])
        → All IsReady (link_ids (link ∷ []))
        → IsSafe (link_parts client bucket files_prefix plan crcs link none key uid)
    unfolding link_parts
    first-IsSafe (bootstrap anchor k) key uid starting ready =
        parts-IsSafe (bootstrap anchor k) [] key uid ready
    first-IsSafe (anchor_only anchor) key uid starting ready =
        parts-IsSafe (anchor_only anchor) [] key uid ready
    first-IsSafe (anchor_then_append anchor piece) key uid starting ready =
        parts-IsSafe (anchor_then_append anchor piece) [] key uid ready
    first-IsSafe (forward_then_append piece) key uid starting ready = absurd starting

    one_link-IsSafe :
        (link : Link) (o : Option Text) (key : Text)
        → ((uid : Text) → IsSafe (link_parts client bucket files_prefix plan crcs link o key uid))
        → IsSafe (build_one_link client bucket files_prefix plan crcs link o key)
    unfolding build_one_link
    one_link-IsSafe link o key parts =
        >>=-IsSafe _ _ (create-IsSafe key)
          (λ uid. >>=-IsSafe _ _ (parts uid) (λ ps. complete-IsSafe key uid ps))

    links-IsSafe :
        (links : List Link) (link : Link) (li : ℕ) (prev seg_key : Text)
        → All IsReady (link_ids (link ∷ links))
        → IsSafe
            (build_links client bucket files_prefix plan crcs li (some prev) (link ∷ links) seg_key)
    unfolding build_links
    links-IsSafe [] link li prev seg_key ready =
        one_link-IsSafe link (some prev) seg_key (λ uid. parts-IsSafe link prev seg_key uid ready)
    links-IsSafe (next ∷ links) link li prev seg_key ready =
        let (own, rest) = link_ids-All IsReady link (next ∷ links) ready in
        >>=-IsSafe _ _
          (one_link-IsSafe link (some prev) (link_key seg_key li)
            (λ uid. parts-IsSafe link prev (link_key seg_key li) uid own))
          (λ u. links-IsSafe links next (suc li) (link_key seg_key li) seg_key rest)

    first_links-IsSafe :
        (links : List Link) (seg_key : Text)
        → IsStarting links
        → All IsReady (link_ids links)
        → IsSafe (build_links client bucket files_prefix plan crcs 0 none links seg_key)
    unfolding build_links
    first_links-IsSafe [] seg_key starting ready = absurd starting
    first_links-IsSafe (link ∷ []) seg_key starting ready =
        one_link-IsSafe link none seg_key (λ uid. first-IsSafe link seg_key uid starting ready)
    first_links-IsSafe (link ∷ next ∷ links) seg_key starting ready =
        let (own, rest) = link_ids-All IsReady link (next ∷ links) ready in
        >>=-IsSafe _ _
          (one_link-IsSafe link none (link_key seg_key 0) (λ uid.
            first-IsSafe link (link_key seg_key 0) uid (first_alone link (next ∷ links) starting)
              own))
          (λ u. links-IsSafe links next 1 (link_key seg_key 0) seg_key rest)

    -- Whatever S3 answers: where the CRCs of the ids that the task of a segment waits for have
    -- arrived, and the first link does not copy the object of a link before, the task that builds the
    -- segment's object fails only with what S3 answers.
    pub build_segment_object-IsSafe :
        (seg : Segment) (seg_key : Text)
        → IsStarting seg.links
        → All IsReady (segment_crc_ids seg)
        → IsSafe (build_segment_object client bucket files_prefix plan crcs seg seg_key)
    unfolding build_segment_object
    build_segment_object-IsSafe seg seg_key starting ready =
        first_links-IsSafe seg.links seg_key starting (segment_crc_ids-All IsReady seg ready)
