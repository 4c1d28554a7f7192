-- ===== src/Grpc/Map/Failures/Outcome.antt =====
-- crates/heyl-grpc/src/map.rs: the one class of error that a whole answer has.
use heyl.Prelude.{String, none, some, if◌then◌else◌}
use heyl.Prelude.Results.{map_err, ok_or}
use heyl.Base64.{Base64}
use heyl.Domain.Ids.{Uuids}
use heyl.Domain.Time.{Jiff}
use heyl.Domain.Authenticator.SecretInfo.{Readers, parse_secret}
use heyl.Crypto.Boxes.{try_from_slice}
use heyl.Grpc.Wire.{
  Discriminants, WireVault, SyncUpdate, WireChallengeAuthenticator, CreateChallengeResponse,
  WireAuthenticator, CreateTokensResponse, ListCommitsResponse,
}
use heyl.Grpc.Map.{
  required_id, optional_id, vault_profile_lock, vault_type, authenticator_type, is_empty,
}
use heyl.Grpc.Map.Snapshot.{
  collect, collect_some, transpose, unlock, session, vault, profile, sync_update,
}
use heyl.Grpc.Map.Answers.{
  challenge_authenticator, challenge, authenticator, tokens, vault_commits, commit,
}
use heyl.Grpc.Map.Failures.{
  IsRead, >>=-IsRead, map_err-IsRead, or_dropped-IsRead, ok_or-IsRead, collect-IsRead,
  transpose-IsRead, collect_some-IsRead, required_id-IsRead, optional_id-IsRead, vault_lock-IsRead,
  profile-IsRead, unlock-IsRead, commit-IsRead, session-IsRead,
}

module _ (U : Uuids) (debug : String → String) (D : Discriminants) where
  vault-IsRead : (w : WireVault) → IsRead (vault U debug D w)
  unfolding vault
  vault-IsRead w = or_dropped-IsRead (vault_type D w.vault_type) _ (λ kind.
      (>>=-IsRead (required_id U debug w.id _) _ (required_id-IsRead U debug _ _ _) (λ id.
        >>=-IsRead (optional_id U debug w.commit_id _) _ (optional_id-IsRead U debug _ _ _)
          (λ commit.
            >>=-IsRead (collect _ w.profiles) _
              (collect-IsRead _ (λ p. required_id-IsRead U debug _ p _) w.profiles)
              (λ ids.
                >>=-IsRead (optional_id U debug w.associated_vault_id _) _
                  (optional_id-IsRead U debug _ _ _) (λ associated. tt))))))

  sync_update-IsRead : (T : Jiff) (u : SyncUpdate) → IsRead (sync_update U debug D T u)
  unfolding sync_update
  sync_update-IsRead T u =
      >>=-IsRead (transpose (unlock U debug) u.session_unlock) _
        (transpose-IsRead _ (unlock-IsRead U debug) u.session_unlock)
        (λ granted.
          >>=-IsRead (collect (session U debug T) u.sessions) _
            (collect-IsRead _ (session-IsRead U debug T) u.sessions)
            (λ sessions.
              >>=-IsRead (collect_some (vault U debug D) u.vaults) _
                (collect_some-IsRead _ vault-IsRead u.vaults)
                (λ vaults.
                  >>=-IsRead (collect (profile U debug) u.profiles) _
                    (collect-IsRead _ (profile-IsRead U debug) u.profiles) (λ profiles. tt))))

  tokens-IsRead : (T : Jiff) (r : CreateTokensResponse) → IsRead (tokens U debug D T r)
  unfolding tokens
  tokens-IsRead T r =
      >>=-IsRead (ok_or _ r.access_token) _ (ok_or-IsRead _ r.access_token) (λ token.
        >>=-IsRead (required_id U debug r.session_id _) _ (required_id-IsRead U debug _ _ _) (λ id.
          >>=-IsRead (transpose (sync_update U debug D T) r.sync_update) _
            (transpose-IsRead _ (sync_update-IsRead T) r.sync_update) (λ sync. tt)))

  module _ (b64 : Base64) (R : Readers) where
    challenge_authenticator-IsRead :
        (a : WireChallengeAuthenticator) → IsRead (challenge_authenticator U debug D b64 R a)
    unfolding challenge_authenticator
    challenge_authenticator-IsRead a =
        or_dropped-IsRead (authenticator_type D a.authenticator_type) _ (λ kind.
          (>>=-IsRead (required_id U debug a.id _) _ (required_id-IsRead U debug _ _ _) (λ id.
            >>=-IsRead (map_err _ (parse_secret U b64 R kind a.secret_info)) _
              (map_err-IsRead _ (parse_secret U b64 R kind a.secret_info)) (λ secret. tt))))

    challenge-IsRead : (r : CreateChallengeResponse) → IsRead (challenge U debug D b64 R r)
    unfolding challenge
    challenge-IsRead r =
        >>=-IsRead (collect_some _ r.authenticators) _
          (collect_some-IsRead _ challenge_authenticator-IsRead r.authenticators) (λ found. tt)

    authenticator-IsRead : (a : WireAuthenticator) → IsRead (authenticator U debug D b64 R a)
    unfolding authenticator
    authenticator-IsRead a = >>=-IsRead (ok_or _ a.data_of) _ (ok_or-IsRead _ a.data_of) (λ d.
        or_dropped-IsRead (authenticator_type D d.authenticator_type) _ (λ kind.
          (>>=-IsRead (required_id U debug a.id _) _ (required_id-IsRead U debug _ _ _) (λ id.
            >>=-IsRead (map_err _ (parse_secret U b64 R kind d.secret_info)) _
              (map_err-IsRead _ (parse_secret U b64 R kind d.secret_info))
              (λ secret.
                >>=-IsRead
                  (map_err _ (
                    transpose (try_from_slice 32)
                      (if is_empty d.secret_salt then none else some d.secret_salt)))
                  _
                  (map_err-IsRead _ (
                    transpose (try_from_slice 32)
                      (if is_empty d.secret_salt then none else some d.secret_salt)))
                  (λ salt. tt))))))

module _ (U : Uuids) (debug : String → String) (D : Discriminants) (T : Jiff) (b64 : Base64)
    (R : Readers) where
  -- Whatever an answer of the backend holds, reading it gives a value or a malformed response, and no
  -- other error: a `SyncUpdate`, tokens, a challenge, an authenticator, and the commits of a vault.
  pub readings-IsRead :
      (u : SyncUpdate) (t : CreateTokensResponse) (c : CreateChallengeResponse)
      (a : WireAuthenticator) (l : ListCommitsResponse)
      → IsRead (sync_update U debug D T u)
        × IsRead (tokens U debug D T t)
        × IsRead (challenge U debug D b64 R c)
        × IsRead (authenticator U debug D b64 R a)
        × IsRead (vault_commits U debug l)
  unfolding vault_commits
  readings-IsRead u t c a l = (
    sync_update-IsRead U debug D T u,
    tokens-IsRead U debug D T t,
    challenge-IsRead U debug D b64 R c,
    authenticator-IsRead U debug D b64 R a,
    >>=-IsRead (collect (commit U debug) l.newer_commits) _
        (collect-IsRead _ (commit-IsRead U debug) l.newer_commits)
        (λ commits.
          >>=-IsRead (transpose (vault_profile_lock U debug) l.profile_lock) _
            (transpose-IsRead _ (vault_lock-IsRead U debug) l.profile_lock) (λ lock. tt)),
  )
