-- ===== src/App/Session/Create/Complete.antt =====
-- crates/heyl-app/src/session/lifecycle.rs: a slot has no token without its key and its id.
use heyl.Prelude.{◌≡◌, ◌≢◌, refl, sym, ap, ◌∙◌, String, Bool, false, Option, ◌⊎◌, inl, inr}
use heyl.Prelude.Results.{Result, ok, err, map_err-eq-ok}
use heyl.Json.{Json}
use heyl.Domain.Ids.{Uuids, SessionId, show}
use heyl.Domain.Time.{Jiff}
use heyl.Domain.Session.{SessionPolicy}
use heyl.Domain.Keys.{Crypto}
use heyl.App.Error.{PortError, port}
use heyl.App.Slots.{
  StoredSecret, access_token, session_private_key, session_id, slot_index, SecretKey, default_slot,
  Slot, slot_key, SecretStore, IsKeychain,
}
use heyl.App.Slots.Names.{slot_key-parts}
use heyl.App.Ports.{Ports, QrStyle}
use heyl.App.Action.{World, write_item, use_token, outside}
use heyl.App.Action.Leaves.{Leaves, settle, settle_with, when_some-Leaves, when_case-Leaves}
use heyl.App.Session.{respond, exists, is_ok}
use heyl.App.Session.Create.{
  create, create_session, create_tokens, store, store_credentials, encode_key,
}
use heyl.App.Session.Create.Steps.{
  pair-Leaves, grant_if-Leaves, register-Leaves, write_policy-Leaves, unlocked_at_creation-Leaves,
  index_add-Leaves,
}

is_ok-eq-false : {E A : Type 0} (r : Result E A) → is_ok r ≡ false → (e : E) × (r ≡ err e)
unfolding is_ok
is_ok-eq-false (ok a) h = cc
is_ok-eq-false (err e) h = (e, refl)

-- Two items of a slot are two.
pub slot_key_apart : (slot : Slot) (i j : StoredSecret) → i ≢ j → slot_key slot i ≢ slot_key slot j
slot_key_apart slot i j d e =
    d (sym (slot_key-parts slot.name i).1 ∙ ap (λ k. k.secret) e ∙ (slot_key-parts slot.name j).1)

-- No item of a slot's own is the index.
pub slot_key_own :
    (slot : Slot) (i : StoredSecret) → i ≢ slot_index → slot_key slot i ≢ default_slot slot_index
slot_key_own slot i d e = d (sym (slot_key-parts slot.name i).1 ∙ ap (λ k. k.secret) e)

module _ (S : SecretStore) where
  abbrev pub Holds : S.State → SecretKey → Type 0
  Holds s key = (value : String) × (S.get s key ≡ ok value)

  -- There is no token, or there are the key and the id too.
  abbrev pub IsComplete : Slot → S.State → Type 0
  IsComplete slot s =
      ((e : PortError) × (S.get s (slot_key slot access_token) ≡ err e))
      ⊎ (Holds s (slot_key slot session_private_key) × Holds s (slot_key slot session_id))

module _ (S : SecretStore) (keychain : IsKeychain S) where
  -- A write elsewhere.
  set-IsComplete :
      (slot : Slot) (s : S.State) (json : String)
      → IsComplete S slot s
      → IsComplete S slot (S.set s (default_slot slot_index) json).0
  set-IsComplete slot s json (inl absent) = inl (
    absent.0,
    keychain.get-set_other s _ _ json (slot_key_own slot access_token (λ e. cc)) ∙ absent.1,
  )
  set-IsComplete slot s json (inr held) = inr (
    (
      held.0.0,
      keychain.get-set_other s _ _ json (slot_key_own slot session_private_key (λ e. cc))
          ∙ held.0.1,
    ),
    (
      held.1.0,
      keychain.get-set_other s _ _ json (slot_key_own slot session_id (λ e. cc)) ∙ held.1.1,
    ),
  )

module _ {U : Uuids} {T : Jiff} {K : Crypto} {J : Json} (P : Ports U T K J)
    (keychain : IsKeychain P.store) where
  store_credentials-IsComplete :
      (slot : Slot) (session_key : K.EncryptionPrivateKey) (id : SessionId U) (token : String)
      (w : World P) (absent : PortError)
      → P.store.get w.0 (slot_key slot access_token) ≡ err absent
      → Leaves
          (λ (u : World P). IsComplete P.store slot u.0)
          (store_credentials P slot session_key id token w)
  unfolding store_credentials store write_item
  store_credentials-IsComplete slot session_key id token w absent p =
      let token_item = slot_key slot access_token in
      let key_item = slot_key slot session_private_key in
      let id_item = slot_key slot session_id in
      let text = encode_key P session_key in
      let one = (P.store.set w.0 key_item text).0 in
      let two = (P.store.set one id_item (show U id)).0 in
      let absent_one : P.store.get one token_item ≡ err absent =
        keychain.get-set_other w.0 key_item token_item text
          (slot_key_apart slot access_token session_private_key (λ e. cc))
        ∙ p in
      let absent_two : P.store.get two token_item ≡ err absent =
        keychain.get-set_other one id_item token_item (show U id)
          (slot_key_apart slot access_token session_id (λ e. cc))
        ∙ absent_one in
      settle_with _ _ _ (inl (absent, absent_one)) (λ _ e1.
        let key_one = keychain.get-set w.0 key_item text (map_err-eq-ok port _ e1) in
        let key_two =
          keychain.get-set_other one id_item key_item (show U id)
            (slot_key_apart slot session_private_key session_id (λ e. cc))
          ∙ key_one in
        settle_with _ _ _ (inl (absent, absent_two)) (λ _ e2.
          let id_two = keychain.get-set one id_item (show U id) (map_err-eq-ok port _ e2) in
          record {
            holds = inr (
              (
                text,
                keychain.get-set_other two token_item key_item token
                      (slot_key_apart slot session_private_key access_token (λ e. cc))
                    ∙ key_two,
              ),
              (
                show U id,
                keychain.get-set_other two token_item id_item token
                      (slot_key_apart slot session_id access_token (λ e. cc))
                    ∙ id_two,
              ),
            );
          }))

  create_session-IsComplete :
      (slot : Slot) (display : Option String) (policy : SessionPolicy) (unlock_now : Bool)
      (style : QrStyle) (announce : String → P.Outside → P.Outside) (w : World P)
      (absent : PortError)
      → P.store.get w.0 (slot_key slot access_token) ≡ err absent
      → Leaves
          (λ (u : World P). IsComplete P.store slot u.0)
          (create_session P slot display policy unlock_now style announce w)
  unfolding create_session outside respond create_tokens use_token
  create_session-IsComplete slot display policy unlock_now style announce w absent p =
      let Absent : P.store.State → Type 0 =
        λ s. P.store.get s (slot_key slot access_token) ≡ err absent in
      let Q : P.store.State → Type 0 = IsComplete P.store slot in
      let paired = (pair-Leaves P Absent style announce w p).holds in
      settle _ _ _ (inl (absent, paired)) (λ found. settle _ _ _ (inl (absent, paired)) (λ bytes.
        settle _ _ _ (inl (absent, paired)) (λ session_key.
          settle _ _ _ (inl (absent, paired)) (λ response.
            let granted = (grant_if-Leaves P Absent _ session_key found.0 _ paired).holds in
            settle _ _ _ (inl (absent, granted)) (λ grant.
              settle _ _ _ (inl (absent, granted)) (λ tokens.
                let stored =
                  (store_credentials-IsComplete slot session_key tokens.session_id
                    tokens.access_token _ absent granted).holds in
                settle _ _ _ stored (λ _. settle _ _ _ stored (λ _.
                  let registered =
                    (register-Leaves P Q slot display found.0 session_key found.1 tokens.session_id
                      _ stored).holds in
                  settle _ _ _ registered (λ name.
                    when_some-Leaves _ _ _ _
                      (λ display.
                        let written =
                          (write_policy-Leaves P Q tokens.session_id policy "" _
                            registered).holds in
                        settle _ _ _ written (λ _.
                          let added =
                            (index_add-Leaves P Q slot _ written (λ json.
                              set-IsComplete P.store keychain slot _ json written)).holds in
                          settle _ _ _ added (λ _.
                            let looked =
                              (unlocked_at_creation-Leaves P Q tokens.session_id _ added).holds in
                            settle _ _ _ looked (λ until. record { holds = looked }))))
                      (record { holds = registered }))))))))))

  -- However `create` ends, a slot that has a token has its key and its id too, where that was so before:
  -- a failed write, a refused registration and a lost connection included.
  pub create-IsComplete :
      (slot : Slot) (display : Option String) (policy : SessionPolicy) (unlock_now : Bool)
      (style : QrStyle) (announce : String → P.Outside → P.Outside) (w : World P)
      → IsComplete P.store slot w.0
      → IsComplete P.store slot (create P slot display policy unlock_now style announce w).0.0
  unfolding create exists
  create-IsComplete slot display policy unlock_now style announce w before =
      let outcome : Leaves (λ (u : World P). IsComplete P.store slot u.0)
          (create P slot display policy unlock_now style announce w) =
        when_case-Leaves _ _ _ _ (λ _. record { holds = before })
          (λ free.
            let absent = is_ok-eq-false (P.store.get w.0 (slot_key slot access_token)) free in
            create_session-IsComplete slot display policy unlock_now style announce w absent.0
              absent.1) in
      outcome.holds
