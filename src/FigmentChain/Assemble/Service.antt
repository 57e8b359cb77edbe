-- ===== src/FigmentChain/Assemble/Service.antt =====
-- The client of S3, which assemble_chain.rs is given, and the functions of that file that call it.
-- All calls are in the one bucket of the run.
use demo_s3_archiving.Prelude.{ℕ, ◌+◌, ◌-◌, Option, none, some}
use demo_s3_archiving.Prelude.{leb, List, [], ◌∷◌, ◌++◌, if◌then◌else◌}
use demo_s3_archiving.Bytes.{Byte, Text, codes}
use demo_s3_archiving.FigmentChain.Assemble.{
  ChainError, s3, no_upload_id, no_etag, byte_stream, Result, ok, err,
}

-- What the client answers: a value, or an error of the SDK as the text that it is shown as.
pub data Answer (A : Type 0) : Type 0 where
  done : A → Answer A
  failed : Text → Answer A

-- `CompletedPart`: its number and its tag.
pub record CompletedPart : Type 0 where
  pub part_number : ℕ
  pub e_tag : Text

-- The operations of the client that are used. A range is its first and its last byte, and a body
-- comes in chunks.
pub record Client : Type 1 where
  pub World : Type 0
  pub create_multipart_upload : Text → World → Answer (Option Text) × World
  pub upload_part : Text → Text → ℕ → List Byte → World → Answer (Option Text) × World
  pub upload_part_copy :
      Text → Text → ℕ → Text → Option (ℕ × ℕ) → World → Answer (Option Text) × World
  pub complete_multipart_upload :
      Text → Text → List CompletedPart → World → Answer (Unit {0}) × World
  pub get_object : Text → ℕ × ℕ → World → Answer (List (Answer (List Byte))) × World
  pub head_object : Text → World → Answer (Option Text) × World

-- `.send().await?` and `ok_or`
unfoldable pub required : {A : Type 0} → ChainError → Answer (Option A) → Result A
required e (failed t) = err (s3 t)
required e (done none) = err e
required e (done (some a)) = ok a

-- The loop over the chunks of a body.
unfoldable pub read_chunks : List (Answer (List Byte)) → Result (List Byte)
read_chunks [] = ok []
read_chunks (failed t ∷ chunks) = err (byte_stream t)
read_chunks (done bytes ∷ chunks) = elim (read_chunks chunks) [
  | ok rest ↦ ok (bytes ++ rest)
  | err e ↦ err e
]

unfoldable pub tagged : ℕ → Result Text → Result CompletedPart
tagged n (ok e_tag) = ok (record { part_number = n; e_tag = e_tag })
tagged n (err e) = err e

-- The order of the parts: `parts.sort_by_key(|p| p.part_number())`, which is stable.
unfoldable pub insert_part : CompletedPart → List CompletedPart → List CompletedPart
insert_part p [] = p ∷ []
insert_part p (q ∷ parts) =
    if leb p.part_number q.part_number then p ∷ q ∷ parts else q ∷ insert_part p parts

unfoldable pub sort_parts : List CompletedPart → List CompletedPart
unfolding insert_part
sort_parts [] = []
sort_parts (p ∷ parts) = insert_part p (sort_parts parts)

module _ (client : Client) where
  unfoldable pub create_mpu : Text → client.World → Result Text × client.World
  unfolding required
  create_mpu key w =
      let (r, w') = client.create_multipart_upload key w in (required no_upload_id r, w')

  unfoldable pub upload_part :
      Text → Text → ℕ → List Byte → client.World → Result CompletedPart × client.World
  unfolding required tagged
  upload_part key upload_id part_number bytes w =
      let (r, w') = client.upload_part key upload_id part_number bytes w in
      (tagged part_number (required (no_etag (codes "upload_part")) r), w')

  unfoldable pub upload_part_copy :
      Text → Text → ℕ → Text → Option (ℕ × ℕ) → client.World → Result CompletedPart × client.World
  unfolding required tagged
  upload_part_copy key upload_id part_number copy_source range w =
      let (r, w') = client.upload_part_copy key upload_id part_number copy_source range w in
      (tagged part_number (required (no_etag (codes "upload_part_copy")) r), w')

  unfoldable pub complete_mpu :
      Text → Text → List CompletedPart → client.World → Result (Unit {0}) × client.World
  unfolding sort_parts
  complete_mpu key upload_id parts w =
      let (r, w') = client.complete_multipart_upload key upload_id (sort_parts parts) w in
      (elim r [ done u ↦ ok u | failed t ↦ err (s3 t) ], w')

  unfoldable pub get_object_range_bytes :
      Text → ℕ → ℕ → client.World → Result (List Byte) × client.World
  unfolding read_chunks
  get_object_range_bytes key start len w =
      let (r, w') = client.get_object key (start, start + len - 1) w in
      (elim r [ done chunks ↦ read_chunks chunks | failed t ↦ err (s3 t) ], w')
