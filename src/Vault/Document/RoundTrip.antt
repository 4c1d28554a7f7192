-- ===== src/Vault/Document/RoundTrip.antt =====
-- Decoding what was encoded.
use heyl.Prelude.{ℕ, ◌<◌, ◌≡◌, refl, Option, none, some, ◌∷◌, arith, eqb, Bool-cases, inl, inr}
use heyl.Prelude.Results.{ok, ok_or, ◌>>=◌ as bind}
use heyl.Json.{Json, member_str, member_u64, member_object, get-insert}
use heyl.Vault.Document.{
  Bytes, IsLawful, compression, not_a_document, Format, snappy, heymerge, Codec, Document, envelope,
  frame, encode, unframe, read_envelope, decode,
}

module _ (J : Json) where
  envelope_type : (d : Document J) → member_str J (envelope J d) "type" ≡ some d.document_type
  unfolding envelope
  envelope_type d = simp (get-insert J, J.as_str-string)

  envelope_version :
      (d : Document J)
      → d.version < 18446744073709551616
      → member_u64 J (envelope J d) "version" ≡ some d.version
  unfolding envelope
  envelope_version d h = simp (get-insert J, J.as_u64-number d.version h)

  envelope_content : (d : Document J) → member_object J (envelope J d) "content" ≡ some d.content
  unfolding envelope
  envelope_content d = simp (get-insert J, J.as_object-object)

module _ (J : Json) (C : Codec J) where
  read_envelope-envelope :
      (d : Document J) (p : Bytes)
      → d.version < 18446744073709551616
      → C.from_slice p ≡ some (J.object (envelope J d))
      → read_envelope J C d.format p ≡ ok d
  unfolding read_envelope
  read_envelope-envelope d p h e =
      rw (e, J.as_object-object, envelope_type J d, envelope_version J d h, envelope_content J d)

  written :
      (d : Document J) (o : Option Bytes) (blob : Bytes)
      → bind (ok_or (not_a_document "document does not serialize as JSON") o) (frame J C d.format)
        ≡ ok blob
      → (p : Bytes) × (o ≡ some p) × (frame J C d.format p ≡ ok blob)
  written d none blob h = cc
  written d (some p) blob h = (p, refl, h)

  encode_written :
      (d : Document J) (blob : Bytes)
      → encode J C d ≡ ok blob
      → (p : Bytes) × (C.to_vec (J.object (envelope J d)) ≡ some p)
        × (frame J C d.format p ≡ ok blob)
  unfolding encode
  encode_written d blob h = elim (Bool-cases (eqb d.version 2)) [
    | inl e ↦ written d (C.to_vec (J.object (envelope J d))) blob (rw e at h)
    | inr e ↦ absurd (ground arith)
  ]

  -- Only a document at the heymerge version is encoded.
  encode-version : (d : Document J) (blob : Bytes) → encode J C d ≡ ok blob → d.version ≡ 2
  unfolding encode
  encode-version d blob h = ground arith

  unframe-frame_snappy :
      (p : Bytes) (o : Option Bytes) (blob : Bytes)
      → ((c : Bytes) → o ≡ some c → C.decompress c ≡ some p)
      → bind (ok_or compression o) (λ packed. ok (0x01 ∷ packed)) ≡ ok blob
      → (first : ℕ) × (rest : Bytes) × (blob ≡ first ∷ rest)
        × (unframe J C first rest ≡ ok (snappy, p))
  unfolding unframe
  unframe-frame_snappy p none blob inflate h = cc
  unframe-frame_snappy p (some c) blob inflate h = (0x01, c, cc, rw (inflate c refl))

  unframe-frame :
      IsLawful J C
      → (f : Format) (m : J.Map) (p blob : Bytes) → C.to_vec (J.object m) ≡ some p
      → frame J C f p ≡ ok blob
      → (first : ℕ) × (rest : Bytes) × (blob ≡ first ∷ rest) × (unframe J C first rest ≡ ok (f, p))
  unfolding frame unframe
  unframe-frame l snappy m p blob w h =
      unframe-frame_snappy p (C.compress p) blob (l.decompress-compress p) h
  unframe-frame l heymerge m p blob w h =
      let (rest, e) = l.to_vec-object m p w in (0x7b, rest, cc, rw e)

  -- A document that was encoded is decoded to itself, framing included, where `serde_json` reads back
  -- the payload that it wrote.
  pub decode-encode :
      (d : Document J) (blob : Bytes)
      → IsLawful J C
      → ((p : Bytes)
          → C.to_vec (J.object (envelope J d)) ≡ some p
          → C.from_slice p ≡ some (J.object (envelope J d)))
      → encode J C d ≡ ok blob
      → decode J C blob ≡ ok d
  unfolding decode
  decode-encode d blob l reads_back h =
      let (p, w, f) = encode_written d blob h in
      let (first, rest, b, u) = unframe-frame l d.format (envelope J d) p blob w f in
      rw (b, u)
        (read_envelope-envelope d p (rw (encode-version d blob h) (omega arith)) (reads_back p w))
