-- ===== src/Grpc/Adapter/Calls.antt =====
-- crates/heyl-grpc/src/domain.rs: what each call of the port sends.
use heyl.Prelude.{ℕ, suc, ◌≤◌, ◌≡◌, ◌∙◌, refl, ap, String, Option, List, ◌∷◌}
use heyl.Base64.{Base64}
use heyl.Domain.Ids.{Uuids, AuthenticatorId}
use heyl.Domain.Kinds.{
  SessionType, unspecified, self_unlocking_primary, self_unlocking_secondary, with_backup_os,
  with_backup_code, connected,
}
use heyl.Domain.Time.{Jiff}
use heyl.Domain.Authenticator.SecretInfo.{Readers}
use heyl.App.Ports.{SessionUnlockGrant}
use heyl.Grpc.Request.{ClientContext, request, as_client_type, client_type_recovery}
use heyl.Grpc.Wire.{Discriminants}
use heyl.Grpc.Rpc.{HeyloginApi, Encoding}
use heyl.Grpc.Adapter.{
  State, answered, tokens_context, is_backup_code, pause, create_challenge, create_tokens,
  refresh_token, sync, list_authenticators, create_long_poll_channel_challenge, update_session,
  request_session_unlock, delete_session_unlock, delete_session, create_commit, list_commits,
  ask_challenge, ask_sync, ask_authenticators, ask_commits,
}
use heyl.Grpc.Adapter.Sent.{
  Logs, Write, mint, renew, poll, update, ask_unlock, drop_unlock, delete, commit, Read,
  challenge_of, snapshot, authenticators, commits_of, repeated, IsSent, read-IsSent,
}

-- The identity that a call made once presents: the context's, but for the tokens of a recovery.
unfoldable pub presented : {U : Uuids} {T : Jiff} → Write U T → ClientContext → ClientContext
presented (mint id challenge response with_backup_code grant) context = record context {
  client_type = client_type_recovery;
}
presented _ context = context

tokens_context-presented :
    {U : Uuids} {T : Jiff} (id : AuthenticatorId U) (challenge : String) (response : List ℕ)
    (kind : SessionType) (grant : Option (SessionUnlockGrant T)) (c : ClientContext)
    → tokens_context kind c ≡ presented (mint id challenge response kind grant) c
unfolding tokens_context is_backup_code as_client_type presented
tokens_context-presented id challenge response unspecified grant c = refl
tokens_context-presented id challenge response self_unlocking_primary grant c = refl
tokens_context-presented id challenge response self_unlocking_secondary grant c = refl
tokens_context-presented id challenge response with_backup_os grant c = refl
tokens_context-presented id challenge response with_backup_code grant c = refl
tokens_context-presented id challenge response connected grant c = refl

module _ {V : Type 0} (U : Uuids) (debug : String → String) (D : Discriminants) (T : Jiff)
    (b64 : Base64) (R : Readers) (E : Encoding) (api : HeyloginApi V)
    (sleep_millis : ℕ → V → V) where
  -- The state that a call leaves behind.
  unfoldable pub write : Write U T → State V → State V
  unfolding create_tokens refresh_token create_long_poll_channel_challenge update_session
      request_session_unlock delete_session_unlock delete_session create_commit
  write (mint id text response kind grant) w =
      (create_tokens U debug D T b64 R E api sleep_millis id text response kind grant w).0
  write renew w = (refresh_token U debug D T b64 R E api sleep_millis w).0
  write (poll hash) w =
      (create_long_poll_channel_challenge U debug D T b64 R E api sleep_millis hash w).0
  write (update session change) w =
      (update_session U debug D T b64 R E api sleep_millis session change w).0
  write (ask_unlock source) w =
      (request_session_unlock U debug D T b64 R E api sleep_millis source w).0
  write (drop_unlock session) w =
      (delete_session_unlock U debug D T b64 R E api sleep_millis session w).0
  write (delete session) w = (delete_session U debug D T b64 R E api sleep_millis session w).0
  write (commit vault latest blob time) w =
      (create_commit U debug D T b64 R E api sleep_millis vault latest blob time w).0

  unfoldable pub read : Read U → State V → State V
  unfolding create_challenge sync list_authenticators list_commits
  read (challenge_of email) w = (create_challenge U debug D T b64 R E api sleep_millis email w).0
  read snapshot w = (sync U debug D T b64 R E api sleep_millis w).0
  read authenticators w = (list_authenticators U debug D T b64 R E api sleep_millis w).0
  read (commits_of vault) w = (list_commits U debug D T b64 R E api sleep_millis vault w).0

  module _ (log : V → List ClientContext) (L : Logs api sleep_millis log) where
    -- A call that changes something at the backend sends one request, whatever the answer is, and leaves
    -- the context alone. The request carries the identity and the token of the context; only one that
    -- mints the tokens of a recovery presents the other client type.
    pub write-once :
        (c : Write U T) (w : State V)
        → ((write c w).context ≡ w.context)
          × (log (write c w).outside ≡ presented c w.context ∷ log w.outside)
    unfolding write presented answered request create_tokens refresh_token
        create_long_poll_channel_challenge update_session request_session_unlock
        delete_session_unlock delete_session create_commit
    write-once (mint id text response kind grant) w = (
      refl,
      L.mints _ _
          ∙ ap (λ c. c ∷ log w.outside)
              (tokens_context-presented id text response kind grant w.context),
    )
    write-once renew w = (refl, L.renews _ _)
    write-once (poll hash) w = (refl, L.polls _ _)
    write-once (update session change) w = (refl, L.updates _ _)
    write-once (ask_unlock source) w = (refl, L.asks _ _)
    write-once (drop_unlock session) w = (refl, L.locks _ _)
    write-once (delete session) w = (refl, L.deletes _ _)
    write-once (commit vault latest blob time) w = (refl, L.commits _ _)

    -- A read sends one request and at most three more, all with the identity and the token of the
    -- context, which it leaves alone.
    pub read-bounded :
        (c : Read U) (w : State V) → (n : ℕ) × (n ≤ 3) × IsSent log w.context (suc n) w (read c w)
    unfolding read repeated request answered pause create_challenge ask_challenge sync ask_sync
        list_authenticators ask_authenticators list_commits ask_commits
    read-bounded (challenge_of email) w =
        let sleep = pause U debug D T b64 R E api sleep_millis in
        let ask = ask_challenge U debug D T b64 R E api sleep_millis email in
        read-IsSent log sleep ask (λ w. (refl, L.challenges _ _)) (λ n w. (refl, L.waits n _)) w
    read-bounded snapshot w =
        let sleep = pause U debug D T b64 R E api sleep_millis in
        let ask = ask_sync U debug D T b64 R E api sleep_millis in
        read-IsSent log sleep ask (λ w. (refl, L.syncs _ _)) (λ n w. (refl, L.waits n _)) w
    read-bounded authenticators w =
        let sleep = pause U debug D T b64 R E api sleep_millis in
        let ask = ask_authenticators U debug D T b64 R E api sleep_millis in
        read-IsSent log sleep ask (λ w. (refl, L.lists _ _)) (λ n w. (refl, L.waits n _)) w
    read-bounded (commits_of vault) w =
        let sleep = pause U debug D T b64 R E api sleep_millis in
        let ask = ask_commits U debug D T b64 R E api sleep_millis vault in
        read-IsSent log sleep ask (λ w. (refl, L.reads _ _)) (λ n w. (refl, L.waits n _)) w
