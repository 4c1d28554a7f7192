-- ===== src/App/Recovery/Stores.antt =====
-- crates/heyl-app/src/recovery.rs: what a recovery stores, and when.
use heyl.Prelude.{◌≡◌, ◌≢◌, refl, ◌∙◌, String, List, [], ◌∷◌}
use heyl.Json.{Json}
use heyl.Domain.Ids.{Uuids, AuthenticatorId}
use heyl.Domain.Time.{Jiff}
use heyl.Domain.Kinds.{SessionType}
use heyl.Domain.Keys.{Crypto}
use heyl.Domain.Authenticator.{Authenticator, RecoverySecret}
use heyl.Domain.Login.{Challenge, ChallengeEncoding}
use heyl.App.Slots.{access_token, session_private_key, SecretKey, default_slot, IsKeychain}
use heyl.App.Ports.{Ports}
use heyl.App.Action.{World, call, ask, note, outside, write_item}
use heyl.App.Action.Leaves.{Leaves, settle, when-Leaves}
use heyl.App.Session.Create.{create_tokens}
use heyl.App.Session.Create.Steps.{self_grant-Leaves}
use heyl.App.Recovery.{
  Disconnectable, Confirmation, granted, ask_first, CodeSource, given, ask_for, ask_to_confirm,
  confirm_loss, confirm, read_code, derive_and_verify, recover_seed, sign_in, run, note_each,
}

module _ {U : Uuids} {T : Jiff} {K : Crypto} {J : Json} (P : Ports U T K J)
    (Q : P.store.State → Type 0) where
  note_each-Leaves :
      (ds : List (Disconnectable U)) (w : World P) → Q w.0 → Leaves (λ u. Q u.0) (note_each P ds w)
  unfolding note_each note
  note_each-Leaves [] w p = record { holds = p }
  note_each-Leaves (d ∷ rest) w p = settle _ _ _ p (λ _. note_each-Leaves rest _ p)

  ask_to_confirm-Leaves :
      (prompt : String) (ds : List (Disconnectable U)) (w : World P)
      → Q w.0
      → Leaves (λ u. Q u.0) (ask_to_confirm P prompt ds w)
  unfolding ask_to_confirm note ask
  ask_to_confirm-Leaves prompt ds w p = settle _ _ _ p (λ _.
      let noted = (note_each-Leaves ds _ p).holds in
      settle _ _ _ noted (λ _. settle _ _ _ noted (λ _.
        settle _ _ _ noted
          (λ answer. when-Leaves _ _ _ _ (record { holds = noted }) (record { holds = noted })))))

  confirm-Leaves :
      (confirmation : Confirmation) (ds : List (Disconnectable U)) (w : World P)
      → Q w.0
      → Leaves (λ u. Q u.0) (confirm P confirmation ds w)
  unfolding confirm confirm_loss
  confirm-Leaves confirmation [] w p = record { holds = p }
  confirm-Leaves granted (d ∷ ds) w p = record { holds = p }
  confirm-Leaves (ask_first prompt) (d ∷ ds) w p =
      when-Leaves _ _ _ _ (ask_to_confirm-Leaves prompt (d ∷ ds) w p) (record { holds = p })

  read_code-Leaves :
      (code : CodeSource) (w : World P) → Q w.0 → Leaves (λ u. Q u.0) (read_code P code w)
  unfolding read_code ask
  read_code-Leaves (given code) w p = record { holds = p }
  read_code-Leaves (ask_for prompt) w p =
      when-Leaves _ _ _ _ (record { holds = p }) (record { holds = p })

  derive_and_verify-Leaves :
      (code : String) (secret : RecoverySecret) (w : World P)
      → Q w.0
      → Leaves (λ u. Q u.0) (derive_and_verify P code secret w)
  unfolding derive_and_verify
  derive_and_verify-Leaves code secret w p =
      settle _ _ _ p (λ derived. when-Leaves _ _ _ _ (record { holds = p }) (record { holds = p }))

  recover_seed-Leaves :
      (challenge : Challenge U) (confirmation : Confirmation) (code : CodeSource) (w : World P)
      → Q w.0
      → Leaves (λ u. Q u.0) (recover_seed P challenge confirmation code w)
  unfolding recover_seed
  recover_seed-Leaves challenge confirmation code w p = settle _ _ _ p (λ found.
      let confirmed = (confirm-Leaves confirmation _ _ p).holds in
      settle _ _ _ confirmed (λ _.
        let read = (read_code-Leaves code _ confirmed).holds in
        settle _ _ _ read (λ code.
          let derived = (derive_and_verify-Leaves code found.1 _ read).holds in
          settle _ _ _ derived (λ seed. record { holds = derived }))))

  -- A login writes the key and the token of the default slot.
  sign_in-Leaves :
      (seed : K.Seed) (id : AuthenticatorId U) (challenge : String) (encoding : ChallengeEncoding)
      (session_type : SessionType) (w : World P)
      → Q w.0
      → ((s : P.store.State) (v : String)
          → Q s
          → Q (P.store.set s (default_slot session_private_key) v).0)
      → ((s : P.store.State) (v : String) → Q s → Q (P.store.set s (default_slot access_token) v).0)
      → Leaves (λ u. Q u.0) (sign_in P seed id challenge encoding session_type w)
  unfolding sign_in outside create_tokens write_item
  sign_in-Leaves seed id challenge encoding session_type w p key token =
      settle _ _ _ p (λ signature. settle _ _ _ p (λ bytes. settle _ _ _ p (λ session_key.
        let sealed = (self_grant-Leaves P Q session_key seed _ p).holds in
        settle _ _ _ sealed (λ grant. settle _ _ _ sealed (λ tokens.
          let keyed = key _ _ sealed in
          settle _ _ _ keyed (λ _.
            let stored = token _ _ keyed in
            settle _ _ _ stored (λ _. record { holds = stored })))))))

module _ {U : Uuids} {T : Jiff} {K : Crypto} {J : Json} (P : Ports U T K J) where
  -- However a recovery ends, an item of the keychain that is neither the key nor the token of the
  -- default slot is as it was: the default slot's session id among them.
  pub run_other :
      (keychain : IsKeychain P.store) (email : String) (confirmation : Confirmation)
      (code : CodeSource) (encoding : ChallengeEncoding) (session_type : SessionType)
      (j : SecretKey) (w : World P)
      → j ≢ default_slot session_private_key
      → j ≢ default_slot access_token
      → P.store.get (run P email confirmation code encoding session_type w).0.0 j
        ≡ P.store.get w.0 j
  unfolding run call
  run_other keychain email confirmation code encoding session_type j w not_key not_token =
      let Q : P.store.State → Type 0 = λ s. P.store.get s j ≡ P.store.get w.0 j in
      let outcome : Leaves (λ u. Q u.0) (run P email confirmation code encoding session_type w) =
        settle _ _ _ refl (λ challenge.
          let recovered = (recover_seed-Leaves P Q challenge confirmation code _ refl).holds in
          settle _ _ _ recovered (λ recovered_seed.
            let signed =
              (sign_in-Leaves P Q recovered_seed.0 recovered_seed.1 challenge.challenge encoding
                session_type _ recovered (λ s v p. keychain.get-set_other s _ j v not_key ∙ p)
                (λ s v p. keychain.get-set_other s _ j v not_token ∙ p)).holds in
            settle _ _ _ signed (λ tokens. record { holds = signed }))) in
      outcome.holds
