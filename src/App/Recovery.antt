-- ===== src/App/Recovery.antt =====
-- crates/heyl-app/src/recovery.rs: the recovery of an account with its recovery code.
pub mod Stores
pub mod Verified
use heyl.Prelude.{
  ℕ, String, Bool, true, false, not, ◌||◌, ◌&&◌, ◌+◌, leb, eqb, Option, none, some, List, [], ◌∷◌,
  map, keep, ◌==◌, if◌then◌else◌,
}
use heyl.Prelude.Trim.{trim}
use heyl.Prelude.Codes.{codes}
use heyl.Prelude.Results.{Result, ok, err, ok_or, map_err}
use heyl.Json.{Json}
use heyl.Domain.Ids.{Uuids, AuthenticatorId, SessionId, show, id_eq}
use heyl.Domain.Time.{Jiff}
use heyl.Domain.Kinds.{AuthenticatorType, backup_code, SessionType, debug_authenticator}
use heyl.Domain.Keys.{Crypto, session_encryption_key}
use heyl.Domain.Authenticator.{
  Authenticator, AuthenticatorSecret, recovery, dummy_seed, opaque_secret, RecoverySecret,
}
use heyl.Domain.Login.{Challenge, Tokens, ChallengeEncoding, sign_challenge}
use heyl.Crypto.Recovery.{derive_recovery_seed, checksum_matches}
use heyl.App.Error.{
  AppError, no_recovery_authenticator, not_confirmed, wrong_recovery_code, domain, crypto_failure,
}
use heyl.App.Slots.{access_token, session_private_key, default_slot}
use heyl.App.Ports.{Ports, random_seed}
use heyl.App.Action.{◌>>=◌, when, pure, Action, World, call, ask, look, note, outside, write_item}
use heyl.App.Session.{self_grant}
use heyl.App.Session.Create.{create_tokens, encode_key, unlocked_until}
use Prim.Native.String.{◌++◌}

-- An authenticator that a recovery is expected to remove.
pub record Disconnectable (U : Uuids) : Type 0 where
  pub id : AuthenticatorId U
  pub kind : AuthenticatorType

pub record RecoveryOutcome (U : Uuids) (T : Jiff) : Type 0 where
  pub user_id : String
  pub disconnected : List (Disconnectable U)
  pub session_id : SessionId U
  pub unlocked_until : Option T.Instant

pub data Confirmation : Type 0 where
  granted : Confirmation
  ask_first : String → Confirmation

pub data CodeSource : Type 0 where
  given : String → CodeSource
  ask_for : String → CodeSource

unfoldable pub is_backup_code : AuthenticatorType → Bool
is_backup_code backup_code = true
is_backup_code _ = false

unfoldable pub recovery_secret : AuthenticatorType → AuthenticatorSecret → Option RecoverySecret
unfolding is_backup_code
recovery_secret kind (recovery secret) = if is_backup_code kind then some secret else none
recovery_secret kind (dummy_seed seed) = none
recovery_secret kind opaque_secret = none

module _ {U : Uuids} where
  -- Everything but the authenticator in use.
  unfoldable pub disconnectable :
      List (Authenticator U) → AuthenticatorId U → List (Disconnectable U)
  disconnectable authenticators in_use =
      map (λ (a : Authenticator U). record { id = a.id; kind = a.authenticator_type })
        (keep (λ (a : Authenticator U). not (id_eq U a.id in_use)) authenticators)

  -- The account's recovery code, with its parsed secret.
  unfoldable pub recovery_authenticator :
      List (Authenticator U) → Option (Authenticator U × RecoverySecret)
  unfolding recovery_secret
  recovery_authenticator [] = none
  recovery_authenticator (a ∷ rest) = elim (recovery_secret a.authenticator_type a.secret) [
    | some secret ↦ some (a, secret)
    | none ↦ recovery_authenticator rest
  ]

-- `to_ascii_lowercase` of one character.
unfoldable pub ascii_lower : ℕ → ℕ
ascii_lower c = if leb b'A' c && leb c b'Z' then c + 32 else c

same_codes : List ℕ → List ℕ → Bool
same_codes [] [] = true
same_codes [] (d ∷ ds) = false
same_codes (c ∷ cs) [] = false
same_codes (c ∷ cs) (d ∷ ds) = eqb c d && same_codes cs ds

-- `y` and `yes`, in either case.
unfoldable pub is_yes : String → Bool
unfolding ascii_lower same_codes
is_yes answer =
    let said = map ascii_lower (codes (trim answer)) in
    same_codes said (codes "y") || same_codes said (codes "yes")

module _ {U : Uuids} {T : Jiff} {K : Crypto} {J : Json} (P : Ports U T K J) where
  unfoldable pub note_each : List (Disconnectable U) → Action P (Unit {0})
  unfolding note debug_authenticator
  note_each [] = pure (ok tt)
  note_each (d ∷ rest) = do
    _ ← note P ("  " ++ debug_authenticator d.kind ++ "  " ++ show U d.id)
    note_each rest

  -- What is about to be lost, and the question.
  unfoldable pub ask_to_confirm : String → List (Disconnectable U) → Action P (Unit {0})
  unfolding note note_each ask is_yes
  ask_to_confirm prompt disconnected = do
    _ ← note P "This will disconnect from your heylogin account:"
    _ ← note_each disconnected
    _ ← note P (
        "Pairing a phone again afterwards regenerates every profile, "
        ++ "so anything recorded from this account before that point stops opening.")
    answer ← ask P (P.terminal.prompt_line prompt)
    when (is_yes answer) (pure (ok tt)) (pure (err not_confirmed))

  unfoldable pub confirm_loss : Confirmation → List (Disconnectable U) → Action P (Unit {0})
  unfolding ask_to_confirm
  confirm_loss granted disconnected w = (w, ok tt)
  confirm_loss (ask_first prompt) disconnected w =
      when (P.terminal.is_interactive w.1) (ask_to_confirm prompt disconnected)
        (pure (err not_confirmed)) w

  -- Nothing at stake, nothing asked.
  unfoldable pub confirm : Confirmation → List (Disconnectable U) → Action P (Unit {0})
  unfolding confirm_loss
  confirm confirmation [] = pure (ok tt)
  confirm confirmation (d ∷ rest) = confirm_loss confirmation (d ∷ rest)

  -- The code, never from the command line.
  unfoldable pub read_code : CodeSource → Action P String
  unfolding ask
  read_code (given code) w = (w, ok code)
  read_code (ask_for prompt) w =
      when (P.terminal.is_interactive w.1) (ask P (P.terminal.prompt_hidden prompt))
        (ask P P.terminal.read_line) w

  -- Argon2id, then the offline checksum.
  unfoldable pub derive_and_verify : String → RecoverySecret → Action P K.Seed
  unfolding derive_recovery_seed checksum_matches
  derive_and_verify code secret = do
    derived ←
        pure (
          map_err crypto_failure (derive_recovery_seed K P.as_bytes code secret.salt secret.params))
    when (checksum_matches K derived secret.checksum) (pure (ok (K.seed_from_bytes derived)))
        (pure (err wrong_recovery_code))

  -- What `run` does before anything is committed: the code, checked.
  unfoldable pub recover_seed :
      Challenge U
      → Confirmation
      → CodeSource
      → Action P (K.Seed × AuthenticatorId U × List (Disconnectable U))
  unfolding recovery_authenticator disconnectable confirm read_code derive_and_verify
  recover_seed challenge confirmation code = do
    found ← pure (ok_or no_recovery_authenticator (recovery_authenticator challenge.authenticators))
    let disconnected = disconnectable challenge.authenticators found.0.id
    _ ← confirm confirmation disconnected
    code ← read_code code
    seed ← derive_and_verify code found.1
    pure (ok (seed, found.0.id, disconnected))

  -- The login with the seed, and what it leaves in the keychain: the key first, then the token.
  unfoldable pub sign_in :
      K.Seed → AuthenticatorId U → String → ChallengeEncoding → SessionType → Action P (Tokens U T)
  unfolding sign_challenge outside self_grant create_tokens write_item encode_key
  sign_in seed id challenge encoding session_type = do
    signature ←
        pure (map_err domain (sign_challenge U K P.base64 P.as_bytes seed challenge encoding))
    bytes ← outside P (random_seed P)
    session_key ← pure (map_err domain (session_encryption_key U K bytes))
    grant ← self_grant P session_key seed
    tokens ← create_tokens P (P.api.create_tokens id challenge signature session_type (some grant))
    _ ← write_item P (default_slot session_private_key) (encode_key P session_key)
    _ ← write_item P (default_slot access_token) tokens.access_token
    pure (ok tokens)

  unfoldable pub run :
      String
      → Confirmation
      → CodeSource
      → ChallengeEncoding
      → SessionType
      → Action P (RecoveryOutcome U T)
  unfolding call recover_seed sign_in unlocked_until
  run email confirmation code encoding session_type = do
    challenge ← call P (P.api.create_challenge email)
    recovered ← recover_seed challenge confirmation code
    tokens ← sign_in recovered.0 recovered.1 challenge.challenge encoding session_type
    pure (
        ok (record {
          user_id = challenge.user_id;
          disconnected = recovered.2;
          session_id = tokens.session_id;
          unlocked_until = unlocked_until tokens.sync tokens.session_id;
        }))
