-- ===== src/Vault/Document/Framing.antt =====
-- What the first byte of a blob says, and which documents are refused.
use heyl.Prelude.{ℕ, ◌≡◌, ◌≢◌, refl, [], ◌∷◌, arith}
use heyl.Prelude.Results.{ok, err, >>=-eq-ok}
use heyl.Json.{Json}
use heyl.Vault.Document.{
  Bytes, empty, unknown_format, legacy_automerge, Format, snappy, heymerge, Codec, Document,
  unframe, read_envelope, decode,
}

-- The byte that marks a format.
abbrev pub marker : Format → ℕ
marker snappy = 0x01
marker heymerge = 0x7b

module _ (J : Json) (C : Codec J) where
  unframe-format :
      (first : ℕ) (rest : Bytes) (framed : Format × Bytes)
      → unframe J C first rest ≡ ok framed
      → first ≡ marker framed.0
  unfolding unframe
  unframe-format first rest framed h = ground arith

  read_envelope-format :
      (f : Format) (p : Bytes) (d : Document J) → read_envelope J C f p ≡ ok d → d.format ≡ f
  unfolding read_envelope
  read_envelope-format f p d h = ground arith

  -- A decoded blob begins with the marker of the document's format.
  decode-marker :
      (blob : Bytes) (d : Document J)
      → decode J C blob ≡ ok d
      → (rest : Bytes) × (blob ≡ marker d.format ∷ rest)
  unfolding decode
  decode-marker [] d h = cc
  decode-marker (first ∷ rest) d h =
      let (framed, u, r) =
        >>=-eq-ok (unframe J C first rest) (λ fp. read_envelope J C fp.0 fp.1) h in
      let e = read_envelope-format framed.0 framed.1 d r in
      (rest, rw (e, unframe-format first rest framed u))

  -- The first byte alone decides the refusals: an empty blob, `[` for a legacy automerge document, and
  -- any byte but 0x01 and `{` for an unknown format that is named.
  decode_refuses :
      (first : ℕ) (rest : Bytes)
      → (decode J C [] ≡ err empty)
        × (decode J C (0x5b ∷ rest) ≡ err legacy_automerge)
        × (first ≢ 0x01
            → first ≢ 0x7b
            → first ≢ 0x5b
            → decode J C (first ∷ rest) ≡ err (unknown_format first))
  unfolding decode
  decode_refuses first rest = (refl, refl, λ a b c. ground arith)
