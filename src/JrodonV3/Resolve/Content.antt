-- ===== src/JrodonV3/Resolve/Content.antt =====
-- An entry writes what the plan takes it to write.
use demo_s3_archiving.Prelude.{ℕ, suc, ◌-◌, ◌<◌, ◌≤◌, ◌≡◌, refl, sym, ap, ◌∙◌, arith}
use demo_s3_archiving.Prelude.{List, [], ◌∷◌, ◌++◌, Option, none, some, take}
use demo_s3_archiving.Bytes.{Byte, Text}
use demo_s3_archiving.Bytes.Sink.{Sink, Dump, write, ◌⨾◌, write-seq, write-nil, Wrote, Wrote-intro}
use demo_s3_archiving.JrodonV3.ZipFormat.Field.{Crc32}
use demo_s3_archiving.JrodonV3.ZipFormat.Loc.{set_crc}
use demo_s3_archiving.JrodonV3.ZipFormat.Loc.RoundTrip.{written, dump-eq-write}
use demo_s3_archiving.JrodonV3.ZipFormat.Cdfh.{from_loc}
use demo_s3_archiving.JrodonV3.PartJob.{
  S3ObjectOperation, get, partial_get, head, EntryFromS3, entry_from_s3, elem_size,
}
use demo_s3_archiving.JrodonV3.Jobs.Stream.{header_with, Storage, downloaded, elem_bytes}
use demo_s3_archiving.JrodonV3.Jobs.Elements.{IsExact}
use demo_s3_archiving.JrodonV3.Resolve.{
  ByteStream, Response, write_chunks, parse_checksum, resolve, write_body, resolve_and_write,
}

-- The bytes of a stream of which no chunk fails.
abbrev pub IsContent : ByteStream → List Byte → Type 0
IsContent [] bytes = bytes ≡ []
IsContent (none ∷ stream) bytes = ⊥
IsContent (some chunk ∷ stream) bytes =
    (rest : List Byte) × (bytes ≡ chunk ++ rest) × IsContent stream rest

write_chunks_lem :
    (stream : ByteStream) (bytes : List Byte)
    → IsContent stream bytes
    → write_chunks stream ≡ some (write bytes)
unfolding write_chunks
write_chunks_lem [] bytes e = ap some (write-nil ∙ ap write (sym e))
write_chunks_lem (none ∷ stream) bytes e = absurd e
write_chunks_lem (some chunk ∷ stream) bytes (rest, e, h) =
    rw (write_chunks_lem stream rest h) (ap some (write-seq chunk rest ∙ ap write (sym e)))

module _ (decode_slice : Text → Option Crc32)
    (get_object : Text → Text → Option (ℕ × ℕ) → Option Response)
    (head_object : Text → Text → Option Response) (s3 : Storage) where
  -- What S3 answers: a whole object comes with its checksum, a range without one, and the head of an
  -- object has the checksum of the whole object. The bytes come in chunks of any size.
  pub record IsServed (bucket key : Text) : Type 0 where
    pub whole : Response
    pub whole_get : get_object bucket key none ≡ some whole
    pub whole_crc :
        parse_checksum decode_slice get_object head_object whole.checksum_crc32
        ≡ some (s3.checksum (bucket ++ b'/' ∷ key))
    pub whole_body : IsContent whole.body (s3.object (bucket ++ b'/' ∷ key))
    pub range : ℕ → Response
    pub range_get : (last : ℕ) → get_object bucket key (some (0, last)) ≡ some (range last)
    pub range_body :
        (last : ℕ)
        → IsContent (range last).body (take (suc last) (s3.object (bucket ++ b'/' ∷ key)))
    pub about : Response
    pub about_get : head_object bucket key ≡ some about
    pub about_crc :
        parse_checksum decode_slice get_object head_object about.checksum_crc32
        ≡ some (s3.checksum (bucket ++ b'/' ∷ key))

  -- A range that is asked for is not empty.
  abbrev pub IsAsked : S3ObjectOperation → Type 0
  IsAsked get = Unit
  IsAsked (partial_get size) = 0 < size
  IsAsked head = Unit

  abbrev pub crc_of : EntryFromS3 → Crc32
  crc_of e = s3.checksum (e.bucket_name ++ b'/' ∷ e.key)

  found :
      (op : S3ObjectOperation) (bucket key : Text)
      → IsServed bucket key
      → IsAsked op
      → (body : Option ByteStream) × (resolve decode_slice get_object head_object op bucket key
          ≡ some (s3.checksum (bucket ++ b'/' ∷ key), body))
        × (write_body decode_slice get_object head_object body
            ≡ some (write (downloaded op (s3.object (bucket ++ b'/' ∷ key)))))
  unfolding resolve write_body
  found get bucket key i a = (
    some i.whole.body,
    rw i.whole_get (rw i.whole_crc refl),
    write_chunks_lem i.whole.body _ i.whole_body,
  )
  found (partial_get size) bucket key i a =
      let same : suc (size - 1) ≡ size = omega arith in
      (
        some (i.range (size - 1)).body,
        rw i.about_get (rw i.about_crc (rw (i.range_get (size - 1)) refl)),
        write_chunks_lem (i.range (size - 1)).body _ (i.range_body (size - 1))
            ∙ ap (λ n. some (write (take n (s3.object (bucket ++ b'/' ∷ key))))) same,
      )
  found head bucket key i a = (none, rw i.about_get (rw i.about_crc refl), ap some write-nil)

  resolve_and_write_lem :
      (e : EntryFromS3)
      → IsServed e.bucket_name e.key
      → IsAsked e.operation
      → resolve_and_write decode_slice get_object head_object e
        ≡ some (
          write (elem_bytes s3 (entry_from_s3 e)),
          record { loc = header_with e.loc.offset e.loc.name e.loc.file_size (crc_of e) },
        )
  unfolding resolve_and_write set_crc from_loc
  resolve_and_write_lem e i a =
      let (body, r, w) = found e.operation e.bucket_name e.key i a in
      let loc = header_with e.loc.offset e.loc.name e.loc.file_size (crc_of e) in
      simp (r, w)
        (ap (λ d. some (d, record { loc = loc }))
          (ap (λ d. d ⨾ write (downloaded e.operation (s3.object (e.bucket_name ++ b'/' ∷ e.key))))
              (dump-eq-write loc)
            ∙ write-seq (written loc) _))

  -- Where S3 serves the object of an entry and a range that is asked for is not empty, an entry that
  -- has as many bytes as its element says is written without an error. Into a slice with room for
  -- them exactly these bytes are written, the local header with the checksum of the object and the
  -- part of the object that is downloaded, and the directory header of the entry is sent.
  pub resolve_and_write-Wrote :
      (e : EntryFromS3) (s : Sink)
      → IsServed e.bucket_name e.key
      → IsAsked e.operation
      → IsExact s3 (entry_from_s3 e)
      → elem_size (entry_from_s3 e) ≤ s.room
      → (d : Dump) × (resolve_and_write decode_slice get_object head_object e
          ≡ some
              (d, record { loc = header_with e.loc.offset e.loc.name e.loc.file_size (crc_of e) }))
        × Wrote s (elem_size (entry_from_s3 e)) (d s) (λ bs. bs ≡ elem_bytes s3 (entry_from_s3 e))
  resolve_and_write-Wrote e s i a exact fits =
      let bytes = elem_bytes s3 (entry_from_s3 e) in
      (
        write bytes,
        resolve_and_write_lem e i a,
        Wrote-intro (write bytes) bytes _ s refl (sym exact) fits refl,
      )
