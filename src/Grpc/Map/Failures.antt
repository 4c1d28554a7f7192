-- ===== src/Grpc/Map/Failures.antt =====
-- crates/heyl-grpc/src/map.rs: the one class of error that the steps of a reading have.
pub mod Outcome
use heyl.Prelude.{
  ◌≡◌, refl, String, Bool, true, false, Option, none, some, List, [], ◌∷◌, arith, if◌then◌else◌,
  ◌==◌, Option-cases, inl, inr,
}
use heyl.Prelude.Results.{Result, ok, err, map_err, ok_or, ◌>>=◌}
use heyl.Base64.{Base64}
use heyl.Domain.Ids.{Uuids, ProfileId, IdKind, TypedId, parse, id_eq}
use heyl.Domain.Time.{Jiff}
use heyl.Domain.Authenticator.SecretInfo.{Readers, parse_secret}
use heyl.Domain.Kinds.{VaultType, AuthenticatorType}
use heyl.Crypto.Boxes.{try_from_slice}
use heyl.App.Error.{ApiError, malformed_response}
use heyl.App.Error.Display.{show_domain}
use heyl.Grpc.Wire.{
  Discriminants, WireProfile, WireVault, WireUnlock, WireSession, WireProfileLock, WireVaultLock,
  SyncUpdate, WireChallengeAuthenticator, CreateChallengeResponse, WireAuthenticator,
  CreateTokensResponse, ListCommitsResponse, WireCommit,
}
use heyl.Grpc.Map.{
  required_id, optional_id, stated_profile, profile_authenticator_lock, vault_profile_lock,
  vault_type, authenticator_type, is_empty,
}
use heyl.Grpc.Map.Answers.{commit}
use heyl.Grpc.Map.Snapshot.{
  collect, collect_some, or_dropped, transpose, unlock, session, vault, profile, sync_update,
}
use heyl.Grpc.Map.Answers.{challenge_authenticator, challenge, authenticator, tokens, vault_commits}

-- A result that, if it fails, fails as a malformed response.
abbrev pub IsRead : {A : Type 0} → Result ApiError A → Type 0
IsRead (ok a) = Unit
IsRead (err (malformed_response what)) = Unit
IsRead (err _) = ⊥

pub >>=-IsRead :
    {A B : Type 0} (step : Result ApiError A) (next : A → Result ApiError B)
    → IsRead step
    → ((a : A) → IsRead (next a))
    → IsRead (step >>= next)
>>=-IsRead (ok a) next h k = k a
>>=-IsRead (err (malformed_response what)) next h k = tt
>>=-IsRead (err _) next h k = elim h [ ]

pub map_err-IsRead :
    {E A : Type 0} (what : E → String) (r : Result E A)
    → IsRead (map_err (λ e. malformed_response (what e)) r)
map_err-IsRead what (ok a) = tt
map_err-IsRead what (err e) = tt

pub or_dropped-IsRead :
    {K A : Type 0} (o : Option K) (f : K → Result ApiError (Option A))
    → ((k : K) → IsRead (f k))
    → IsRead (or_dropped o f)
or_dropped-IsRead none f h = tt
or_dropped-IsRead (some k) f h = h k

pub ok_or-IsRead :
    {A : Type 0} (what : String) (o : Option A) → IsRead (ok_or (malformed_response what) o)
ok_or-IsRead what none = tt
ok_or-IsRead what (some a) = tt

module _ {A B : Type 0} (f : A → Result ApiError B) (h : (a : A) → IsRead (f a)) where
  pub collect-IsRead : (xs : List A) → IsRead (collect f xs)
  unfolding collect
  collect-IsRead [] = tt
  collect-IsRead (x ∷ xs) =
      >>=-IsRead (f x) _ (h x) (λ b. >>=-IsRead (collect f xs) _ (collect-IsRead xs) (λ rest. tt))

  pub transpose-IsRead : (o : Option A) → IsRead (transpose f o)
  unfolding transpose
  transpose-IsRead none = tt
  transpose-IsRead (some a) = >>=-IsRead (f a) _ (h a) (λ b. tt)

pub collect_some-IsRead :
    {A B : Type 0} (f : A → Result ApiError (Option B))
    → ((a : A) → IsRead (f a))
    → (xs : List A) → IsRead (collect_some f xs)
unfolding collect_some
collect_some-IsRead f h [] = tt
collect_some-IsRead f h (x ∷ xs) =
    >>=-IsRead (f x) _ (h x)
      (λ o. >>=-IsRead (collect_some f xs) _ (collect_some-IsRead f h xs) (λ rest. tt))

module _ (U : Uuids) (debug : String → String) where
  pub required_id-IsRead :
      (k : IdKind) (value what : String) → IsRead (required_id U debug {k = k} value what)
  unfolding required_id
  required_id-IsRead k value what = map_err-IsRead _ (parse U {k = k} value)

  pub optional_id-IsRead :
      (k : IdKind) (value what : String) → IsRead (optional_id U debug {k = k} value what)
  unfolding optional_id
  optional_id-IsRead k value what =
      elim (value == "")
        as (λ b.
          IsRead (
            if b
            then ok none
            else (do id ← required_id U debug {k = k} value what; ok (some id)))) [
              | true ↦ tt
              | false ↦
                  >>=-IsRead (required_id U debug value what) _ (required_id-IsRead k value what)
                    (λ id. tt)
            ]

  pub stated_profile-IsRead :
      (owner : ProfileId U) (o : Option (ProfileId U)) → IsRead (stated_profile U debug owner o)
  unfolding stated_profile
  stated_profile-IsRead owner none = tt
  stated_profile-IsRead owner (some stated) = ground arith

  pub lock-IsRead :
      (w : WireProfileLock) (owner : ProfileId U) (generation : String)
      → IsRead (profile_authenticator_lock U debug w owner generation)
  unfolding profile_authenticator_lock
  lock-IsRead w owner generation =
      >>=-IsRead (optional_id U debug w.profile_id _) _ (optional_id-IsRead _ _ _) (λ stated.
        >>=-IsRead (stated_profile U debug owner stated) _ (stated_profile-IsRead owner stated)
          (λ id.
            >>=-IsRead (required_id U debug w.authenticator_id _) _ (required_id-IsRead _ _ _)
              (λ auth. tt)))

  pub vault_lock-IsRead : (w : WireVaultLock) → IsRead (vault_profile_lock U debug w)
  unfolding vault_profile_lock
  vault_lock-IsRead w =
      >>=-IsRead (required_id U debug w.locking_profile_id _) _ (required_id-IsRead _ _ _)
        (λ id. tt)

  pub profile-IsRead : (w : WireProfile) → IsRead (profile U debug w)
  unfolding profile
  profile-IsRead w = >>=-IsRead (required_id U debug w.id _) _ (required_id-IsRead _ _ _) (λ id.
      >>=-IsRead (collect _ w.authenticator_locks) _
        (collect-IsRead _ (λ l. lock-IsRead l id w.key_generation_id) w.authenticator_locks)
        (λ locks. tt))

  pub unlock-IsRead : (w : WireUnlock) → IsRead (unlock U debug w)
  unfolding unlock
  unlock-IsRead w =
      >>=-IsRead (required_id U debug w.authenticator_id _) _ (required_id-IsRead _ _ _) (λ id. tt)

  pub commit-IsRead : (w : WireCommit) → IsRead (commit U debug w)
  unfolding commit
  commit-IsRead w = >>=-IsRead (required_id U debug w.id _) _ (required_id-IsRead _ _ _) (λ id. tt)

  pub session-IsRead : (T : Jiff) (w : WireSession) → IsRead (session U debug T w)
  unfolding session
  session-IsRead T w =
      >>=-IsRead (required_id U debug w.id _) _ (required_id-IsRead _ _ _) (λ id. tt)
