-- ===== src/FigmentChain/Assemble/Interface.antt =====
-- What assemble_chain.rs relies on of S3: the documented behaviour of multipart uploads, as laws on
-- two views of the bucket.
use demo_s3_archiving.Prelude.{ℕ, suc, ◌-◌, ◌≤◌, ◌<◌, ◌≡◌, ◌≢◌, Option, none, some}
use demo_s3_archiving.Prelude.{List, [], ◌∷◌, ◌++◌, length, take, drop}
use demo_s3_archiving.Bytes.{Byte, Text}
use demo_s3_archiving.FigmentChain.Assemble.{ok}
use demo_s3_archiving.FigmentChain.Assemble.Service.{
  Answer, Client, CompletedPart, done, read_chunks,
}

-- The bytes from `start` to `last`, both included.
abbrev pub slice : ℕ → ℕ → List Byte → List Byte
slice start last bytes = take (suc last - start) (drop start bytes)

-- The parts of an upload in the order in which they are listed, if all of them are there.
abbrev pub joined : (ℕ → Option (List Byte)) → List CompletedPart → Option (List Byte)
joined stored [] = some []
joined stored (p ∷ parts) = elim (stored p.part_number) [
  | none ↦ none
  | some bytes ↦ elim (joined stored parts) [ none ↦ none | some rest ↦ some (bytes ++ rest) ]
]

-- `objects` are the objects of the bucket by their keys, and `parts` what was uploaded last as each
-- part of an upload, by the upload's id.
pub record IsService (client : Client) (bucket : Text) : Type 0 where
  pub objects : client.World → Text → Option (List Byte)
  pub parts : client.World → Text → ℕ → Option (List Byte)
  -- Only the completion of an upload changes an object, and only that of its key.
  pub create_keeps :
      (key : Text) (w : client.World) (k : Text)
      → objects (client.create_multipart_upload key w).1 k ≡ objects w k
  pub upload_keeps :
      (key uid : Text) (n : ℕ) (bytes : List Byte) (w : client.World) (k : Text)
      → objects (client.upload_part key uid n bytes w).1 k ≡ objects w k
  pub copy_keeps :
      (key uid : Text) (n : ℕ) (source : Text) (range : Option (ℕ × ℕ)) (w : client.World)
      (k : Text)
      → objects (client.upload_part_copy key uid n source range w).1 k ≡ objects w k
  pub get_keeps :
      (key : Text) (range : ℕ × ℕ) (w : client.World) (k : Text)
      → objects (client.get_object key range w).1 k ≡ objects w k
  pub complete_keeps :
      (key uid : Text) (ps : List CompletedPart) (w : client.World) (k : Text)
      → key ≢ k
      → objects (client.complete_multipart_upload key uid ps w).1 k ≡ objects w k
  -- A part that is uploaded replaces only the part of its number.
  pub upload_others :
      (key uid : Text) (n : ℕ) (bytes : List Byte) (w : client.World) (m : ℕ)
      → n ≢ m
      → parts (client.upload_part key uid n bytes w).1 uid m ≡ parts w uid m
  pub copy_others :
      (key uid : Text) (n : ℕ) (source : Text) (range : Option (ℕ × ℕ)) (w : client.World) (m : ℕ)
      → n ≢ m
      → parts (client.upload_part_copy key uid n source range w).1 uid m ≡ parts w uid m
  pub get_parts :
      (key : Text) (range : ℕ × ℕ) (w : client.World) (uid : Text) (m : ℕ)
      → parts (client.get_object key range w).1 uid m ≡ parts w uid m
  pub complete_parts :
      (key uid : Text) (ps : List CompletedPart) (w : client.World) (m : ℕ)
      → parts (client.complete_multipart_upload key uid ps w).1 uid m ≡ parts w uid m
  -- What a call that succeeds has done.
  pub upload_stores :
      (key uid : Text) (n : ℕ) (bytes : List Byte) (w : client.World) (tag : Text)
      → (client.upload_part key uid n bytes w).0 ≡ done (some tag)
      → parts (client.upload_part key uid n bytes w).1 uid n ≡ some bytes
  pub copy_stores :
      (key uid : Text) (n : ℕ) (source : Text) (w : client.World) (bytes : List Byte) (tag : Text)
      → objects w source ≡ some bytes
      → (client.upload_part_copy key uid n (bucket ++ b'/' ∷ source) none w).0 ≡ done (some tag)
      → parts (client.upload_part_copy key uid n (bucket ++ b'/' ∷ source) none w).1 uid n
        ≡ some bytes
  pub copy_range_stores :
      (key uid : Text) (n : ℕ) (source : Text) (start last : ℕ) (w : client.World)
      (bytes : List Byte) (tag : Text)
      → objects w source ≡ some bytes
      → start ≤ last
      → last < length bytes
      → (client.upload_part_copy key uid n (bucket ++ b'/' ∷ source) (some (start, last)) w).0
        ≡ done (some tag)
      → parts
          (client.upload_part_copy key uid n (bucket ++ b'/' ∷ source) (some (start, last)) w).1
          uid
          n
        ≡ some (slice start last bytes)
  pub get_reads :
      (key : Text) (start last : ℕ) (w : client.World) (bytes body : List Byte)
      (chunks : List (Answer (List Byte)))
      → objects w key ≡ some bytes
      → start ≤ last
      → last < length bytes
      → (client.get_object key (start, last) w).0 ≡ done chunks
      → read_chunks chunks ≡ ok body
      → body ≡ slice start last bytes
  pub complete_joins :
      (key uid : Text) (ps : List CompletedPart) (w : client.World)
      → (client.complete_multipart_upload key uid ps w).0 ≡ done tt
      → objects (client.complete_multipart_upload key uid ps w).1 key ≡ joined (parts w uid) ps
