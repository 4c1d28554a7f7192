-- ===== src/Vault/Document.antt =====
-- crates/heyl-vault/src/serialize.rs and error.rs: the framing of a decrypted commit blob.
pub mod RoundTrip
pub mod Framing
use heyl.Prelude.{some, ◌≡◌, ℕ, String, Bool, Option, List, [], ◌∷◌, eqb, length, if◌then◌else◌}
use heyl.Prelude.Results.{Result, ok, err, ok_or, ◌>>=◌}
use heyl.Json.{Json, member_str, member_u64, member_object}

abbrev pub Bytes : Type 0
Bytes = List ℕ

pub data VaultError : Type 0 where
  empty : VaultError
  unknown_format : ℕ → VaultError
  legacy_automerge : VaultError
  decompression : VaultError
  compression : VaultError
  not_writable_version : ℕ → ℕ → VaultError
  not_a_document : String → VaultError

abbrev pub descriptor_version_heymerge : ℕ
descriptor_version_heymerge = 2

pub data Format : Type 0 where
  snappy : Format
  heymerge : Format

-- How the format prints in a report.
unfoldable pub name : Format → String
name snappy = "snappy"
name heymerge = "json"

-- `serde_json::{to_vec, from_slice}` and the raw block coder of `snap`.
pub record Codec (J : Json) : Type 0 where
  pub to_vec : J.Value → Option Bytes
  pub from_slice : Bytes → Option J.Value
  pub compress : Bytes → Option Bytes
  pub decompress : Bytes → Option Bytes

-- What is documented of the two crates: a packed block unpacks to what was packed, and the text of an
-- object opens with a brace.
pub record IsLawful (J : Json) (C : Codec J) : Type 0 where
  pub decompress-compress : (q c : Bytes) → C.compress q ≡ some c → C.decompress c ≡ some q
  pub to_vec-object :
      (m : J.Map) (p : Bytes) → C.to_vec (J.object m) ≡ some p → (rest : Bytes) × (p ≡ 0x7b ∷ rest)

pub record Document (J : Json) : Type 0 where
  pub format : Format
  pub document_type : String
  pub version : ℕ
  pub content : J.Map

module _ (J : Json) where
  unfoldable pub empty_document : Document J
  empty_document = record {
    format = snappy;
    document_type = "";
    version = descriptor_version_heymerge;
    content = J.new;
  }

  unfoldable pub is_writable_version : Document J → Bool
  is_writable_version d = eqb d.version descriptor_version_heymerge

  unfoldable pub content_keys : Document J → ℕ
  content_keys d = length (J.entries d.content)

  -- The object `{type, version, content}` that a blob holds.
  unfoldable pub envelope : Document J → J.Map
  envelope d =
      let typed = J.insert J.new "type" (J.string d.document_type) in
      let versioned = J.insert typed "version" (J.number d.version) in
      J.insert versioned "content" (J.object d.content)

  module _ (C : Codec J) where
    frame : Format → Bytes → Result VaultError Bytes
    frame snappy payload = do packed ← ok_or compression (C.compress payload); ok (0x01 ∷ packed)
    frame heymerge payload = ok payload

    unfoldable pub encode : Document J → Result VaultError Bytes
    unfolding frame is_writable_version envelope
    encode d =
        if is_writable_version d
        then (do
          payload ←
              ok_or (not_a_document "document does not serialize as JSON")
                (C.to_vec (J.object (envelope d)))
          frame d.format payload)
        else err (not_writable_version d.version descriptor_version_heymerge)

    -- The framing and the payload that the first byte selects.
    unframe : ℕ → Bytes → Result VaultError (Format × Bytes)
    unframe first rest =
        if eqb first 0x01
        then (do payload ← ok_or decompression (C.decompress rest); ok (snappy, payload))
        else if eqb first 0x7b
        then ok (heymerge, first ∷ rest)
        else if eqb first 0x5b
        then err legacy_automerge
        else err (unknown_format first)

    -- The envelope of a payload.
    read_envelope : Format → Bytes → Result VaultError (Document J)
    read_envelope format payload = do
      value ← ok_or (not_a_document "payload is not JSON") (C.from_slice payload)
      object ← ok_or (not_a_document "payload is not a JSON object") (J.as_object value)
      document_type ← ok_or (not_a_document "no `type`") (member_str J object "type")
      version ← ok_or (not_a_document "no `version`") (member_u64 J object "version")
      content ←
          ok_or (not_a_document "`content` is not an object") (member_object J object "content")
      ok (record {
        format = format;
        document_type = document_type;
        version = version;
        content = content;
      })

    unfoldable pub decode : Bytes → Result VaultError (Document J)
    unfolding unframe read_envelope
    decode [] = err empty
    decode (first ∷ rest) = do framed ← unframe first rest; read_envelope framed.0 framed.1
