-- ===== src/Grpc/Adapter/Sent.antt =====
-- crates/heyl-grpc/src/domain.rs: which requests a call of the port sends, and with what identity.
use heyl.Prelude.{
  ℕ, zero, suc, ◌≤◌, ◌≡◌, ◌∙◌, refl, ap, arith, String, Option, none, some, List, ◌∷◌, Bool-cases,
  ltb, inl, inr,
}
use heyl.Prelude.Results.{Result-cases}
use heyl.Domain.Ids.{Uuids, AuthenticatorId, SessionId, VaultId, CommitId}
use heyl.Domain.Time.{Jiff}
use heyl.Domain.Kinds.{SessionType}
use heyl.App.Error.{ApiError}
use heyl.App.Ports.{Call, SessionUnlockGrant, SessionUpdate}
use heyl.Grpc.Request.{ClientContext, Request}
use heyl.Grpc.Rpc.{
  HeyloginApi, CreateChallengeRequest, CreateTokensRequest, LongPollRequest, UpdateSessionRequest,
  RequestUnlockRequest, DeleteUnlockRequest, DeleteSessionRequest, CreateCommitRequest,
  ListCommitsRequest,
}
use heyl.Grpc.Retry.{
  is_transport_failure, attempts_from, retrying_read, pause_before_next, read_retries, backoff,
}
use heyl.Grpc.Adapter.{State}

-- The identity and the token that a request carries.
abbrev pub headers : {M : Type 0} → Request M → ClientContext
headers r = record {
  client_id = r.client_id;
  client_type = r.client_type;
  client_version = r.client_version;
  user_agent = r.user_agent;
  access_token = r.access_token;
}

-- A raw API whose state keeps a log of the requests it was sent; waiting sends none.
pub record Logs {V : Type 0} (api : HeyloginApi V) (sleep_millis : ℕ → V → V)
    (log : V → List ClientContext) : Type 0 where
  pub challenges :
      (r : Request CreateChallengeRequest) (v : V)
      → log (api.credential_create_challenge r v).0 ≡ headers r ∷ log v
  pub mints :
      (r : Request CreateTokensRequest) (v : V)
      → log (api.credential_create_tokens r v).0 ≡ headers r ∷ log v
  pub renews :
      (r : Request (Unit {0})) (v : V)
      → log (api.credential_refresh_token r v).0 ≡ headers r ∷ log v
  pub syncs : (r : Request (Unit {0})) (v : V) → log (api.sync_sync r v).0 ≡ headers r ∷ log v
  pub lists :
      (r : Request (Unit {0})) (v : V) → log (api.authenticator_list r v).0 ≡ headers r ∷ log v
  pub polls :
      (r : Request LongPollRequest) (v : V)
      → log (api.credential_create_long_poll_channel_challenge r v).0 ≡ headers r ∷ log v
  pub updates :
      (r : Request UpdateSessionRequest) (v : V)
      → log (api.session_update r v).0 ≡ headers r ∷ log v
  pub asks :
      (r : Request RequestUnlockRequest) (v : V)
      → log (api.session_request_session_unlock r v).0 ≡ headers r ∷ log v
  pub locks :
      (r : Request DeleteUnlockRequest) (v : V)
      → log (api.session_delete_session_unlock r v).0 ≡ headers r ∷ log v
  pub deletes :
      (r : Request DeleteSessionRequest) (v : V)
      → log (api.session_delete_session r v).0 ≡ headers r ∷ log v
  pub commits :
      (r : Request CreateCommitRequest) (v : V)
      → log (api.vault_create_commit r v).0 ≡ headers r ∷ log v
  pub reads :
      (r : Request ListCommitsRequest) (v : V)
      → log (api.vault_list_commits r v).0 ≡ headers r ∷ log v
  pub waits : (n : ℕ) (v : V) → log (sleep_millis n v) ≡ log v

-- The calls of the port that are made once, and those that are tried again.
pub data Write (U : Uuids) (T : Jiff) : Type 0 where
  mint :
      AuthenticatorId U
      → (challenge : String) (response : List ℕ) → SessionType
      → Option (SessionUnlockGrant T)
      → Write U T
  renew : Write U T
  poll : (public_key_hash : String) → Write U T
  update : SessionId U → SessionUpdate → Write U T
  ask_unlock : (source : String) → Write U T
  drop_unlock : SessionId U → Write U T
  delete : SessionId U → Write U T
  commit : VaultId U → CommitId U → (blob : List ℕ) → T.Instant → Write U T

pub data Read (U : Uuids) : Type 0 where
  challenge_of : (email : String) → Read U
  snapshot : Read U
  authenticators : Read U
  commits_of : VaultId U → Read U

unfoldable pub repeated : ℕ → ClientContext → List ClientContext → List ClientContext
repeated zero c l = l
repeated (suc n) c l = c ∷ repeated n c l

repeated-cons :
    (n : ℕ) (c : ClientContext) (l : List ClientContext) → repeated n c (c ∷ l) ≡ c ∷ repeated n c l
unfolding repeated
repeated-cons zero c l = refl
repeated-cons (suc n) c l = ap (λ l. c ∷ l) (repeated-cons n c l)

module _ {V : Type 0} (log : V → List ClientContext) where
  -- From one state to another the context stays, and one request with it is sent, or `n` are.
  abbrev pub IsSent : ClientContext → ℕ → State V → State V → Type 0
  IsSent c n w after =
      (after.context ≡ w.context) × (log after.outside ≡ repeated n c (log w.outside))

  chain-IsSent :
      (w first after : State V) (n : ℕ)
      → IsSent w.context 1 w first
      → IsSent first.context n first after
      → IsSent w.context (suc n) w after
  unfolding repeated
  chain-IsSent w first after n a b = (
    b.0 ∙ a.0,
    b.1
        ∙ ap (λ c. repeated n c (log first.outside)) a.0
        ∙ ap (repeated n w.context) a.1
        ∙ repeated-cons n w.context (log w.outside),
  )

  module _ {A : Type 0} (sleep : ℕ → State V → State V) (call : Call (State V) A)
      (sends : (w : State V) → IsSent w.context 1 w (call w).0)
      (rests : (n : ℕ) (w : State V) → IsSent w.context 0 w (sleep n w)) where
    pause-IsSent :
        (attempt : ℕ) (w : State V) → IsSent w.context 0 w (pause_before_next sleep call attempt w)
    unfolding pause_before_next repeated
    pause-IsSent attempt w = elim (Bool-cases (ltb attempt read_retries)) [
      | inl t ↦ rw (pause_before_next, t) (rests (backoff attempt) w)
      | inr t ↦ rw (pause_before_next, t) (refl, refl)
    ]

    failed-IsSent :
        (attempt : ℕ) (w : State V)
        → IsSent w.context 1 w (pause_before_next sleep call attempt (call w).0)
    unfolding repeated
    failed-IsSent attempt w =
        let paused = pause-IsSent attempt (call w).0 in
        (paused.0 ∙ (sends w).0, paused.1 ∙ (sends w).1)

    attempts_from-IsSent :
        (left attempt : ℕ) (last : Option ApiError) (w : State V)
        → (n : ℕ) × (n ≤ left)
          × IsSent w.context (suc n) w (attempts_from sleep call (suc left) attempt last w).0
    unfolding attempts_from repeated
    attempts_from-IsSent zero attempt last w = elim (Result-cases (call w).1) [
      | inl found ↦ rw (attempts_from, found.1) (0, omega arith, sends w)
      | inr failed ↦ elim (Bool-cases (is_transport_failure failed.0)) [
        | inl t ↦ rw (attempts_from, failed.1, t) (0, omega arith, failed-IsSent attempt w)
        | inr t ↦ rw (attempts_from, failed.1, t) (0, omega arith, sends w)
      ]
    ]
    attempts_from-IsSent (suc left) attempt last w = elim (Result-cases (call w).1) [
      | inl found ↦ rw (attempts_from, found.1) (0, omega arith, sends w)
      | inr failed ↦ elim (Bool-cases (is_transport_failure failed.0)) [
        | inl t ↦
            let (n, few, sent) =
              attempts_from-IsSent left (suc attempt) (some failed.0)
                (pause_before_next sleep call attempt (call w).0) in
            rw (attempts_from, failed.1, t)
              (suc n, omega arith, chain-IsSent w _ _ (suc n) (failed-IsSent attempt w) sent)
        | inr t ↦ rw (attempts_from, failed.1, t) (0, omega arith, sends w)
      ]
    ]

    pub read-IsSent :
        (w : State V)
        → (n : ℕ) × (n ≤ 3) × IsSent w.context (suc n) w (retrying_read sleep call w).0
    unfolding retrying_read
    read-IsSent w = attempts_from-IsSent 3 0 none w
