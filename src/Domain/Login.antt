-- ===== src/Domain/Login.antt =====
-- crates/heyl-domain/src/login.rs, and the challenge and the tokens of sync.rs: answering a login.
use heyl.Prelude.{ℕ, String, Option, none, some, List, [], ◌∷◌}
use heyl.Prelude.Results.{Result, ok, ok_or, map_err, ◌>>=◌}
use heyl.Base64.{Base64}
use heyl.Domain.Ids.{Uuids, SessionId}
use heyl.Domain.Time.{Jiff}
use heyl.Domain.Error.{DomainError, malformed_challenge, crypto}
use heyl.Domain.Keys.{Crypto}
use heyl.Domain.Authenticator.{Authenticator}
use heyl.Domain.Sync.{SyncSnapshot}

pub record Challenge (U : Uuids) : Type 0 where
  pub user_id : String
  pub challenge : String
  pub authenticators : List (Authenticator U)

pub record Tokens (U : Uuids) (T : Jiff) : Type 0 where
  pub access_token : String
  pub expires_at : Option T.Instant
  pub session_id : SessionId U
  pub sync : SyncSnapshot U T

-- How the text of a challenge maps onto the bytes that are signed.
pub data ChallengeEncoding : Type 0 where
  utf8 standard url_safe : ChallengeEncoding

abbrev pub candidates : List ChallengeEncoding
candidates = utf8 ∷ standard ∷ url_safe ∷ []

unfoldable pub encoding_name : ChallengeEncoding → String
encoding_name utf8 = "utf8"
encoding_name standard = "base64"
encoding_name url_safe = "base64url"

-- `first.or_else(|_| second)`.
unfoldable pub or_else : Option (List ℕ) → Option (List ℕ) → Option (List ℕ)
or_else none second = second
or_else (some bytes) second = some bytes

module _ (U : Uuids) (b64 : Base64) (as_bytes : String → List ℕ) where
  unfoldable pub bytes_to_sign : ChallengeEncoding → String → Result (DomainError U) (List ℕ)
  unfolding encoding_name or_else
  bytes_to_sign utf8 challenge = ok (as_bytes challenge)
  bytes_to_sign standard challenge =
      ok_or (malformed_challenge (encoding_name standard))
        (or_else (b64.standard_decode challenge) (b64.standard_no_pad_decode challenge))
  bytes_to_sign url_safe challenge =
      ok_or (malformed_challenge (encoding_name url_safe))
        (or_else (b64.url_safe_decode challenge) (b64.url_safe_no_pad_decode challenge))

module _ (U : Uuids) (K : Crypto) where
  -- Derived without the second seed, which the server reveals only after the login.
  unfoldable pub login_signing_key : K.Seed → Result (DomainError U) K.SigningKey
  login_signing_key seed =
      map_err crypto
        (K.derive_signing (K.expose_secret seed) none "salt-authenticator-login-signing-key-")

module _ (U : Uuids) (K : Crypto) (b64 : Base64) (as_bytes : String → List ℕ) where
  unfoldable pub sign_challenge :
      K.Seed → String → ChallengeEncoding → Result (DomainError U) (List ℕ)
  unfolding login_signing_key bytes_to_sign
  sign_challenge seed challenge encoding = do
    key ← login_signing_key U K seed
    bytes ← bytes_to_sign U b64 as_bytes encoding challenge
    ok (K.sign_unprefixed key bytes)
