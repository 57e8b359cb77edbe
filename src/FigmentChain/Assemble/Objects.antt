-- ===== src/FigmentChain/Assemble/Objects.antt =====
-- What the calls of a task do to the objects and the parts of the bucket, up to one link.
use demo_s3_archiving.Prelude.{ℕ, suc, ◌+◌, ◌-◌, ◌<◌, ◌≡◌, ◌≢◌, refl, sym, ap, ◌∙◌, subst, arith}
use demo_s3_archiving.Prelude.{Option, none, some, List, [], ◌∷◌, ◌++◌, append-nil}
use demo_s3_archiving.Prelude.{length, take, drop, take_all, length-drop}
use demo_s3_archiving.Bytes.{Byte, Text, codes}
use demo_s3_archiving.Figment.ZipFormat.{EntryMeta, local_header}
use demo_s3_archiving.Figment.Plan.{FileId}
use demo_s3_archiving.FigmentChain.RateLimit.{high}
use demo_s3_archiving.FigmentChain.PlanChain.{Entry, Piece, header_of, body_of, ChainPlan}
use demo_s3_archiving.FigmentChain.PlanChain.Contents.{piece_bytes}
use demo_s3_archiving.FigmentChain.Assemble.{ChainError, no_etag, Result, ok, Machine}
use demo_s3_archiving.FigmentChain.Assemble.Service.{
  Answer, done, failed, Client, CompletedPart, required, tagged, insert_part, sort_parts,
  upload_part, upload_part_copy,
}
use demo_s3_archiving.FigmentChain.Assemble.Build.{
  CrcStore, call, entry_at, meta_of, source_key, copy_source, piece_id, build_piece_part,
}
use demo_s3_archiving.FigmentChain.Assemble.Interface.{IsService, slice, joined}
use demo_s3_archiving.FigmentChain.Assemble.Attempts.{with_retry_governed-last, lift->>=}

tagged-ok :
    (n : ℕ) (e : ChainError) (r : Answer (Option Text)) (p : CompletedPart)
    → tagged n (required e r) ≡ ok p
    → (tag : Text) × (r ≡ done (some tag)) × (p.part_number ≡ n)
unfolding tagged required
tagged-ok n e (failed t) p h = absurd (cc h)
tagged-ok n e (done none) p h = absurd (cc h)
tagged-ok n e (done (some tag)) p h =
    let same : record { part_number = n; e_tag = tag } ≡ p = cc h in
    (tag, refl, ap (λ (q : CompletedPart). q.part_number) (sym same))

-- Two parts are completed in the order of their numbers.
pub join_two :
    (stored : ℕ → Option (List Byte)) (p q : CompletedPart) (a b : List Byte)
    → p.part_number ≡ 1
    → q.part_number ≡ 2
    → stored 1 ≡ some a
    → stored 2 ≡ some b
    → joined stored (sort_parts (p ∷ q ∷ [])) ≡ some (a ++ b)
unfolding sort_parts insert_part
join_two stored p q a b hp hq ha hb =
    rw (hp, hq, joined, ha, hb) (ap (λ t. some (a ++ t)) (append-nil b))

pub slice_front : (k : ℕ) (bs : List Byte) → 0 < k → slice 0 (0 + k - 1) bs ≡ take k bs
slice_front k bs h = let e : suc (0 + k - 1) - 0 ≡ k = omega (arith, h) in ap (λ n. take n bs) e

slice_back : (k n : ℕ) (bs : List Byte) → length bs ≡ n → k < n → slice k (n - 1) bs ≡ drop k bs
slice_back k n bs e h =
    take_all (suc (n - 1) - k) (drop k bs) (omega (arith, e, h, length-drop k bs))

-- What the header of an entry with its CRC is made of.
abbrev pub meta_with : Entry → ℕ → EntryMeta
meta_with e crc = record {
  name = e.name;
  size = e.size;
  crc = crc;
  local_header_offset = e.local_header_offset;
}

module _ (client : Client) (bucket : Text) (service : IsService client bucket) where
  -- The objects are the same in both states.
  abbrev pub Same : client.World → client.World → Type 0
  Same w w' = (k : Text) → service.objects w' k ≡ service.objects w k

  -- A call that stores a part, if it succeeds where the objects are those of `w`.
  pub record IsPart (w : client.World) (uid : Text) (n : ℕ) (bytes : List Byte)
      (op : client.World → Result CompletedPart × client.World) : Type 0 where
    pub keeps : (v : client.World) → Same v (op v).1
    pub others :
        (v : client.World) (m : ℕ) → n ≢ m → service.parts (op v).1 uid m ≡ service.parts v uid m
    pub stores :
        (v : client.World) (p : CompletedPart)
        → Same w v
        → (op v).0 ≡ ok p
        → (service.parts (op v).1 uid n ≡ some bytes) × (p.part_number ≡ n)

  -- What a task that stores a part has done.
  pub record IsStored (s s' : Machine client.World) (uid : Text) (n : ℕ) (bytes : List Byte)
      (p : CompletedPart) : Type 0 where
    pub same : Same s.world s'.world
    pub kept : (m : ℕ) → n ≢ m → service.parts s'.world uid m ≡ service.parts s.world uid m
    pub stored : service.parts s'.world uid n ≡ some bytes
    pub numbered : p.part_number ≡ n

  pub call-IsStored :
      (op : client.World → Result CompletedPart × client.World) (s s' : Machine client.World)
      (uid : Text) (n : ℕ) (bytes : List Byte) (p : CompletedPart)
      → IsPart s.world uid n bytes op
      → call client op s ≡ (ok p, s')
      → IsStored s s' uid n bytes p
  unfolding call
  call-IsStored op s s' uid n bytes p i h =
      let P : client.World → Type 0 = λ v.
        Same s.world v × ((m : ℕ) → n ≢ m → service.parts v uid m ≡ service.parts s.world uid m) in
      let (v, (same, kept), result, world) =
        with_retry_governed-last op high P
          (λ v (a, b). (λ k. i.keeps v k ∙ a k, λ m e. i.others v m e ∙ b m e)) s
          (λ k. refl, λ m e. refl) in
      let end : s'.world ≡ (op v).1 =
        ap (λ (r : Result CompletedPart × Machine client.World). r.1.world) (sym h) ∙ world in
      let (stored, numbered) =
        i.stores v p same
          (sym result ∙ ap (λ (r : Result CompletedPart × Machine client.World). r.0) h) in
      record {
        same = λ k. ap (λ w. service.objects w k) end ∙ i.keeps v k ∙ same k;
        kept = λ m e. ap (λ w. service.parts w uid m) end ∙ i.others v m e ∙ kept m e;
        stored = ap (λ w. service.parts w uid n) end ∙ stored;
        numbered = numbered;
      }

  pub upload_part-IsPart :
      (w : client.World) (key uid : Text) (n : ℕ) (bytes : List Byte)
      → IsPart w uid n bytes (upload_part client key uid n bytes)
  unfolding upload_part
  upload_part-IsPart w key uid n bytes = record {
    keeps = λ v k. service.upload_keeps key uid n bytes v k;
    others = λ v m e. service.upload_others key uid n bytes v m e;
    stores = λ v p same h.
        let (tag, e, number) = tagged-ok n (no_etag (codes "upload_part")) _ p h in
        (service.upload_stores key uid n bytes v tag e, number);
  }

  pub copy-IsPart :
      (w : client.World) (key uid : Text) (n : ℕ) (source : Text) (bytes : List Byte)
      → service.objects w source ≡ some bytes
      → IsPart w uid n bytes (upload_part_copy client key uid n (bucket ++ b'/' ∷ source) none)
  unfolding upload_part_copy
  copy-IsPart w key uid n source bytes there = record {
    keeps = λ v k. service.copy_keeps key uid n _ none v k;
    others = λ v m e. service.copy_others key uid n _ none v m e;
    stores = λ v p same h.
        let (tag, e, number) = tagged-ok n (no_etag (codes "upload_part_copy")) _ p h in
        (service.copy_stores key uid n source v bytes tag (same source ∙ there) e, number);
  }

  pub copy_range-IsPart :
      (w : client.World) (key uid : Text) (n : ℕ) (source : Text) (k size : ℕ) (bytes : List Byte)
      → service.objects w source ≡ some bytes
      → length bytes ≡ size
      → k < size
      → IsPart w uid n
          (drop k bytes)
          (upload_part_copy client key uid n (bucket ++ b'/' ∷ source) (some (k, size - 1)))
  unfolding upload_part_copy
  copy_range-IsPart w key uid n source k size bytes there long inside = record {
    keeps = λ v l. service.copy_keeps key uid n _ (some (k, size - 1)) v l;
    others = λ v m e. service.copy_others key uid n _ (some (k, size - 1)) v m e;
    stores = λ v p same h.
        let (tag, e, number) = tagged-ok n (no_etag (codes "upload_part_copy")) _ p h in
        (
          service.copy_range_stores key uid n source k (size - 1) v bytes tag (same source ∙ there)
                (omega (arith, inside)) (omega (arith, inside, long)) e
              ∙ ap some (slice_back k size bytes long inside),
          number,
        );
  }

  module _ (files_prefix : Text) (plan : ChainPlan) (crcs : CrcStore) where
    pub meta_of-arrived :
        (e : Entry) (crc : ℕ) → crcs e.id ≡ some crc → meta_of e crcs ≡ ok (meta_with e crc)
    unfolding meta_of
    meta_of-arrived e crc h = rw (meta_of, h) refl

    module _ (header body : FileId → List Byte) where
      -- An id of the plan whose CRC has arrived and whose object is in the bucket.
      pub record IsKnown (w : client.World) (id : FileId) : Type 0 where
        pub entry : Entry
        pub crc : ℕ
        pub found : entry_at plan.entries id ≡ ok entry
        pub arrived : crcs entry.id ≡ some crc
        pub headed : header id ≡ local_header (meta_with entry crc)
        pub sized : length (body id) ≡ entry.size
        pub there : service.objects w (source_key files_prefix entry.name) ≡ some (body id)

      pub build_piece_part-IsStored :
          (piece : Piece) (key uid : Text) (n : ℕ) (s s' : Machine client.World) (p : CompletedPart)
          → IsKnown s.world (piece_id piece)
          → build_piece_part client bucket files_prefix plan crcs piece key uid n s ≡ (ok p, s')
          → IsStored s s' uid n (piece_bytes header body piece) p
      unfolding build_piece_part piece_id copy_source source_key
      build_piece_part-IsStored (header_of id) key uid n s s' p i h =
          let k1 = lift->>= client _ _ s s' i.entry p i.found h in
          let k2 =
            lift->>= client _ _ s s' (meta_with i.entry i.crc) p
              (meta_of-arrived i.entry i.crc i.arrived) k1 in
          subst (λ t. IsStored s s' uid n t p) (sym i.headed)
            (call-IsStored _ s s' uid n (local_header (meta_with i.entry i.crc)) p
              (upload_part-IsPart s.world key uid n (local_header (meta_with i.entry i.crc))) k2)
      build_piece_part-IsStored (body_of id) key uid n s s' p i h =
          let k1 = lift->>= client _ _ s s' i.entry p i.found h in
          call-IsStored _ s s' uid n (body id) p
            (copy-IsPart s.world key uid n (source_key files_prefix i.entry.name) (body id) i.there)
            k1
