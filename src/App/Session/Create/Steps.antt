-- ===== src/App/Session/Create/Steps.antt =====
-- crates/heyl-app/src/session/lifecycle.rs: the steps of `create` that leave the keychain alone, and the one
-- that writes the index.
use heyl.Prelude.{String, Bool, Option, List}
use heyl.Prelude.Results.{ok}
use heyl.Json.{Json}
use heyl.Domain.Ids.{Uuids, SessionId}
use heyl.Domain.Time.{Jiff}
use heyl.Domain.Session.{SessionPolicy}
use heyl.Domain.Keys.{Crypto}
use heyl.App.Slots.{slot_index, default_slot, Slot}
use heyl.App.Unlock.{Unlocked}
use heyl.App.MetaVault.{MetaVault, open_meta, meta_secret, commit}
use heyl.App.Ports.{Ports, LongPollChallenge, QrStyle}
use heyl.App.Action.{World, when, pure, call, write_item, note, outside, look, attempt}
use heyl.App.Action.Leaves.{Leaves, settle, when_some-Leaves, when_ok-Leaves, when-Leaves}
use heyl.App.Session.{index_add, write_index, write_policy, self_grant, show_pairing}
use heyl.App.Session.Create.{
  pair, grant_if, register, paired_session, publish, unlocked_at_creation,
}

module _ {U : Uuids} {T : Jiff} {K : Crypto} {J : Json} (P : Ports U T K J)
    (Q : P.store.State → Type 0) where
  open_meta-Leaves :
      (session : Unlocked U T K) (w : World P) → Q w.0 → Leaves (λ u. Q u.0) (open_meta P session w)
  unfolding open_meta call meta_secret
  open_meta-Leaves session w p = settle _ _ _ p (λ summary. settle _ _ _ p (λ commits.
      let secret : Leaves (λ u. Q u.0)
          (meta_secret P session summary.id commits (w.0, (P.api.list_commits summary.id w.1).0)) =
        settle _ _ _ p (λ lock. settle _ _ _ p (λ found.
          settle _ _ _ p (λ profile_lock. settle _ _ _ p (λ low. record { holds = p })))) in
      let now = secret.holds in
      settle _ _ _ now (λ opened. settle _ _ _ now (λ latest.
        settle _ _ _ now (λ documents. settle _ _ _ now (λ document. record { holds = now }))))))

  commit-Leaves :
      (meta : MetaVault U K J) (w : World P) → Q w.0 → Leaves (λ u. Q u.0) (commit P meta w)
  unfolding commit call outside look
  commit-Leaves meta w p =
      settle _ _ _ p
        (λ blob. settle _ _ _ p (λ drawn. settle _ _ _ p (λ now. record { holds = p })))

  show_pairing-Leaves :
      (url : String) (style : QrStyle) (w : World P)
      → Q w.0
      → Leaves (λ u. Q u.0) (show_pairing P url style w)
  unfolding show_pairing note outside
  show_pairing-Leaves url style w p = settle _ _ _ p (λ _. settle _ _ _ p (λ drawn.
      let drawn_or_noted : Leaves (λ (u : World P). Q u.0)
          (when drawn (pure (ok tt)) (note P "(no terminal to draw on)") (
            w.0,
            (P.terminal.render_qr url style
                (P.terminal.note "scan this with the heylogin app:" w.1)).0,
          )) =
        when-Leaves _ _ _ _ (record { holds = p }) (record { holds = p }) in
      settle _ _ _ drawn_or_noted.holds (λ _. record { holds = drawn_or_noted.holds })))

  pub pair-Leaves :
      (style : QrStyle) (announce : String → P.Outside → P.Outside) (w : World P)
      → Q w.0
      → Leaves (λ u. Q u.0) (pair P style announce w)
  unfolding pair call outside note
  pair-Leaves style announce w p = settle _ _ _ p (λ bytes. settle _ _ _ p (λ key.
      let shown = (show_pairing-Leaves _ style _ p).holds in
      settle _ _ _ shown (λ _. settle _ _ _ shown (λ _. settle _ _ _ shown (λ _.
        settle _ _ _ shown (λ challenge.
          settle _ _ _ shown
            (λ plaintext. settle _ _ _ shown (λ seed. record { holds = shown }))))))))

  pub self_grant-Leaves :
      (session_key : K.EncryptionPrivateKey) (seed : K.Seed) (w : World P)
      → Q w.0
      → Leaves (λ u. Q u.0) (self_grant P session_key seed w)
  unfolding self_grant outside look
  self_grant-Leaves session_key seed w p =
      settle _ _ _ p (λ _. settle _ _ _ p (λ _. settle _ _ _ p (λ _. record { holds = p })))

  pub grant_if-Leaves :
      (wanted : Bool) (session_key : K.EncryptionPrivateKey) (seed : K.Seed) (w : World P)
      → Q w.0
      → Leaves (λ u. Q u.0) (grant_if P wanted session_key seed w)
  unfolding grant_if
  grant_if-Leaves wanted session_key seed w p =
      let granted = (self_grant-Leaves session_key seed w p).holds in
      when-Leaves _ _ _ _ (settle _ _ _ granted (λ _. record { holds = granted }))
        (record { holds = p })

  paired_session-Leaves :
      (seed : K.Seed) (challenge : LongPollChallenge U) (w : World P)
      → Q w.0
      → Leaves (λ u. Q u.0) (paired_session P seed challenge w)
  unfolding paired_session call
  paired_session-Leaves seed challenge w p =
      settle _ _ _ p (λ _.
        settle _ _ _ p (λ _. settle _ _ _ p (λ _. settle _ _ _ p (λ _. record { holds = p }))))

  publish-Leaves :
      (session : Unlocked U T K) (meta : MetaVault U K J) (session_key : K.EncryptionPrivateKey)
      (id : SessionId U) (display : String) (w : World P)
      → Q w.0
      → Leaves (λ u. Q u.0) (publish P session meta session_key id display w)
  unfolding publish look
  publish-Leaves session meta session_key id display w p = settle _ _ _ p (λ now.
      settle _ _ _ p (λ _.
        let done = (commit-Leaves _ _ p).holds in settle _ _ _ done (λ _. record { holds = done })))

  pub register-Leaves :
      (slot : Slot) (display : Option String) (seed : K.Seed) (session_key : K.EncryptionPrivateKey)
      (challenge : LongPollChallenge U) (id : SessionId U) (w : World P)
      → Q w.0
      → Leaves (λ u. Q u.0) (register P slot display seed session_key challenge id w)
  unfolding register
  register-Leaves slot display seed session_key challenge id w p =
      let paired = (paired_session-Leaves seed challenge w p).holds in
      settle _ _ _ paired (λ session.
        let opened = (open_meta-Leaves session _ paired).holds in
        settle _ _ _ opened (λ meta.
          when_some-Leaves _ _ _ _
            (λ name.
              let done = (publish-Leaves session meta session_key id name _ opened).holds in
              settle _ _ _ done (λ _. record { holds = done }))
            (record { holds = opened })))

  pub write_policy-Leaves :
      (id : SessionId U) (policy : SessionPolicy) (existing : String) (w : World P)
      → Q w.0
      → Leaves (λ u. Q u.0) (write_policy P id policy existing w)
  unfolding write_policy call
  write_policy-Leaves id policy existing w p = settle _ _ _ p (λ _. record { holds = p })

  pub unlocked_at_creation-Leaves :
      (id : SessionId U) (w : World P) → Q w.0 → Leaves (λ u. Q u.0) (unlocked_at_creation P id w)
  unfolding unlocked_at_creation call attempt
  unlocked_at_creation-Leaves id w p =
      settle _ _ _ p
        (λ answer. when_ok-Leaves _ _ _ _ (λ _. record { holds = p }) (λ _. record { holds = p }))

  pub write_index-Leaves :
      (names : List String) (w : World P)
      → Q w.0
      → ((json : String) → Q (P.store.set w.0 (default_slot slot_index) json).0)
      → Leaves (λ u. Q u.0) (write_index P names w)
  unfolding write_index write_item
  write_index-Leaves names w p q = settle _ _ _ p (λ json. record { holds = q json })

  pub index_add-Leaves :
      (slot : Slot) (w : World P)
      → Q w.0
      → ((json : String) → Q (P.store.set w.0 (default_slot slot_index) json).0)
      → Leaves (λ u. Q u.0) (index_add P slot w)
  unfolding index_add
  index_add-Leaves slot w p q =
      when-Leaves _ _ _ _ (record { holds = p }) (write_index-Leaves _ w p q)
