-- ===== src/App/Unlock/Tokens.antt =====
-- crates/heyl-app/src/unlock.rs: what an unlock does to the keychain.
use heyl.Prelude.{◌≡◌, ◌≢◌, refl, ap, String, true, some, Bool-cases, inl, inr}
use heyl.Prelude.Results.{ok, map_err}
use heyl.Json.{Json}
use heyl.Domain.Ids.{Uuids}
use heyl.Domain.Time.{Jiff}
use heyl.Domain.Keys.{Crypto}
use heyl.Domain.Sync.{SyncSnapshot}
use heyl.App.Error.{api, port}
use heyl.App.Slots.{
  StoredSecret, access_token, session_private_key, SecretKey, default_slot, in_slot, Slot, slot_key,
  IsKeychain,
}
use heyl.App.Ports.{Ports}
use heyl.App.Action.{World, call, read_item, write_item, use_token}
use heyl.App.Action.Leaves.{Leaves, settle, proceed}
use heyl.App.Unlock.{decode_key, refresh_if_needed, open_grant, run_in, run_for}

own_key-differs : {n : String} → in_slot n access_token ≢ default_slot access_token
own_key-differs e = cc

module _ {U : Uuids} {T : Jiff} {K : Crypto} {J : Json} (P : Ports U T K J) where
  -- A grant is opened without a change of the keychain.
  open_grant-Leaves :
      (Q : P.store.State → Type 0) (session_key : K.EncryptionPrivateKey) (sync : SyncSnapshot U T)
      (w : World P)
      → Q w.0
      → Leaves (λ u. Q u.0) (open_grant P session_key sync w)
  unfolding open_grant call
  open_grant-Leaves Q session_key sync w p = settle _ _ _ p (λ grant. settle _ _ _ p (λ plaintext.
      settle _ _ _ p (λ seed. settle _ _ _ p (λ authenticators.
        settle _ _ _ p (λ salt. settle _ _ _ p (λ keys. record { holds = p }))))))

  -- The refresh writes one item.
  refresh_if_needed-Leaves :
      (Q : P.store.State → Type 0) (sync : SyncSnapshot U T) (w : World P)
      → Q w.0
      → ((token : String) → Q (P.store.set w.0 (default_slot access_token) token).0)
      → Leaves (λ u. Q u.0) (refresh_if_needed P sync w)
  unfolding refresh_if_needed call write_item use_token
  refresh_if_needed-Leaves Q sync w p q = elim (Bool-cases sync.token_refresh_needed) [
    | inl e ↦ rw e (
        settle _ _ _ p (λ token.
          settle _ _ _ (q token) (λ _. settle _ _ _ (q token) (λ _. record { holds = q token }))))
    | inr e ↦ rw e (record { holds = p })
  ]

  run_in-Leaves :
      (Q : P.store.State → Type 0) (token_key private_key : StoredSecret → SecretKey) (w : World P)
      → Q w.0
      → ((token : String) → Q (P.store.set w.0 (default_slot access_token) token).0)
      → Leaves (λ u. Q u.0) (run_in P token_key private_key w)
  unfolding run_in call read_item use_token
  run_in-Leaves Q token_key private_key w p q = settle _ _ _ p (λ token. settle _ _ _ p (λ encoded.
      settle _ _ _ p (λ session_key. settle _ _ _ p (λ _. settle _ _ _ p (λ sync.
        let refreshed = (refresh_if_needed-Leaves Q sync _ p q).holds in
        settle _ _ _ refreshed (λ sync. open_grant-Leaves Q session_key sync _ refreshed))))))

  -- A run changes no item of the keychain but the default slot's access token, whatever slot it is for
  -- and however it ends, of a keychain that writes one item at a time.
  pub run_in_other :
      (keychain : IsKeychain P.store) (token_key private_key : StoredSecret → SecretKey)
      (key : SecretKey) (w : World P)
      → key ≢ default_slot access_token
      → P.store.get (run_in P token_key private_key w).0.0 key ≡ P.store.get w.0 key
  run_in_other keychain token_key private_key key w other =
      (run_in-Leaves (λ s. P.store.get s key ≡ P.store.get w.0 key) token_key private_key w refl
        (λ token. keychain.get-set_other w.0 (default_slot access_token) key token other)).holds

  -- A refresh that is due and served stores the token that it got.
  due-Leaves :
      (Q : P.store.State → Type 0) (sync : SyncSnapshot U T) (w : World P) (refreshed : String)
      → sync.token_refresh_needed ≡ true
      → (P.api.refresh_token w.1).1 ≡ ok refreshed
      → Q (P.store.set w.0 (default_slot access_token) refreshed).0
      → Leaves (λ u. Q u.0) (refresh_if_needed P sync w)
  unfolding refresh_if_needed call write_item use_token
  due-Leaves Q sync w refreshed due h p = rw due (
      proceed _ _ _ (ap (map_err api) h)
        (settle _ _ _ p (λ _. settle _ _ _ p (λ _. record { holds = p }))))

  -- A run for a named slot whose token is due, with the refresh served and stored, leaves the new token
  -- under the default slot's name, and the token under the slot's own name is the old one.
  pub run_for-refresh :
      (keychain : IsKeychain P.store) (n : String) (w : World P) (token encoded refreshed : String)
      (session_key : K.EncryptionPrivateKey) (sync : SyncSnapshot U T)
      → P.store.get w.0 (in_slot n access_token) ≡ ok token
      → P.store.get w.0 (in_slot n session_private_key) ≡ ok encoded
      → decode_key P encoded ≡ ok session_key
      → (P.api.sync (P.api.set_access_token (some token) w.1)).1 ≡ ok sync
      → sync.token_refresh_needed ≡ true
      → (P.api.refresh_token (P.api.sync (P.api.set_access_token (some token) w.1)).0).1
        ≡ ok refreshed
      → (P.store.set w.0 (default_slot access_token) refreshed).1 ≡ ok tt
      → (P.store.get (run_for P (record { name = some n }) w).0.0 (default_slot access_token)
          ≡ ok refreshed)
        × (P.store.get (run_for P (record { name = some n }) w).0.0 (in_slot n access_token)
            ≡ ok token)
  unfolding run_for run_in read_item call use_token slot_key
  run_for-refresh keychain n w token encoded refreshed session_key sync stored private decoded
        synced due served written =
      let default_key = default_slot access_token in
      let own_key = in_slot n access_token in
      let Q : P.store.State → Type 0 = λ s. P.store.get s default_key ≡ ok refreshed in
      let p = keychain.get-set w.0 default_key refreshed written in
      let slot : Slot = record { name = some n } in
      let renewed =
        (due-Leaves Q sync (w.0, (P.api.sync (P.api.set_access_token (some token) w.1)).0) refreshed
          due served p).holds in
      let outcome : Leaves (λ u. Q u.0) (run_for P slot w) =
        proceed _ _ _ (ap (map_err port) stored) (
          proceed _ _ _ (ap (map_err port) private) (
            proceed _ _ _ (ap (map_err port) decoded) (
              proceed _ _ _ refl (
                proceed _ _ _ (ap (map_err api) synced) (
                  settle _ _ _ renewed
                    (λ sync. open_grant-Leaves Q session_key sync _ renewed)))))) in
      let other =
        run_in_other keychain (λ _. slot_key slot access_token)
          (λ _. slot_key slot session_private_key) own_key w own_key-differs in
      (outcome.holds, rw (other, stored) refl)
