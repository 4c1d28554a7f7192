-- ===== src/App/Session/Keychain.antt =====
-- crates/heyl-app/src/session: what the use cases do to the keychain.
use heyl.Prelude.{◌≡◌, refl, ℕ, zero, suc, String, Option, some, List, [], ◌∷◌}
use heyl.Json.{Json}
use heyl.Domain.Ids.{Uuids, SessionId}
use heyl.Domain.Time.{Jiff}
use heyl.Domain.Keys.{Crypto}
use heyl.App.Slots.{Slot, new_slot}
use heyl.App.Settings.{Setting}
use heyl.App.Ports.{Ports}
use heyl.App.Action.{World, call, read_item, use_token, note, attempt}
use heyl.App.Action.Leaves.{Leaves, settle, when_some-Leaves, when_ok-Leaves, when-Leaves}
use heyl.App.Session.{adopt}
use heyl.App.Session.Wait.{hint, pause, poll_for_unlock, unlock_and_wait, relock, finish, lock}
use heyl.App.Session.Settings.{get, status, list}

module _ {U : Uuids} {T : Jiff} {K : Crypto} {J : Json} (P : Ports U T K J)
    (Q : P.store.State → Type 0) where
  adopt-Leaves : (slot : Slot) (w : World P) → Q w.0 → Leaves (λ u. Q u.0) (adopt P slot w)
  unfolding adopt read_item use_token
  adopt-Leaves slot w p = settle _ _ _ p (λ token. settle _ _ _ p (λ id. settle _ _ _ p (λ encoded.
      settle _ _ _ p
        (λ key. settle _ _ _ p (λ _. settle _ _ _ p (λ session. record { holds = p }))))))

  hint-Leaves : (waited : ℕ) (w : World P) → Q w.0 → Leaves (λ u. Q u.0) (hint P waited w)
  unfolding hint note
  hint-Leaves waited w p = when-Leaves _ _ _ _ (record { holds = p }) (record { holds = p })

  poll-Leaves :
      (fuel : ℕ) (id : SessionId U) (timeout_secs : Option ℕ) (waited : ℕ) (w : World P)
      → Q w.0
      → Leaves (λ u. Q u.0) (poll_for_unlock P fuel id timeout_secs waited w)
  unfolding poll_for_unlock call pause
  poll-Leaves zero id timeout_secs waited w p = record { holds = p }
  poll-Leaves (suc fuel) id timeout_secs waited w p = settle _ _ _ p (λ sync.
      when_some-Leaves _ _ _ _ (λ until. record { holds = p })
        (when-Leaves _ _ _ _ (record { holds = p })
          (let hinted = (hint-Leaves waited _ p).holds in
            settle _ _ _ hinted
              (λ _. settle _ _ _ hinted (λ _. poll-Leaves fuel id timeout_secs _ _ hinted)))))

  unlock_and_wait-Leaves :
      (fuel : ℕ) (slot : Slot) (timeout_secs : Option ℕ) (w : World P)
      → Q w.0
      → Leaves (λ u. Q u.0) (unlock_and_wait P fuel slot timeout_secs w)
  unfolding unlock_and_wait call note
  unlock_and_wait-Leaves fuel slot timeout_secs w p =
      let adopted = (adopt-Leaves slot w p).holds in
      settle _ _ _ adopted (λ _. settle _ _ _ adopted (λ sync.
        when_some-Leaves _ _ _ _ (λ until. record { holds = adopted })
          (settle _ _ _ adopted
            (λ _. settle _ _ _ adopted (λ _. poll-Leaves fuel _ timeout_secs _ _ adopted)))))

  relock-Leaves :
      (slot : Slot) (id : SessionId U) (w : World P)
      → Q w.0
      → Leaves (λ u. Q u.0) (relock P slot id w)
  unfolding relock call note attempt
  relock-Leaves slot id w p =
      settle _ _ _ p
        (λ answer. when_ok-Leaves _ _ _ _ (λ _. record { holds = p }) (λ _. record { holds = p }))

  finish-Leaves : (slot : Slot) (w : World P) → Q w.0 → Leaves (λ u. Q u.0) (finish P slot w)
  unfolding finish call attempt
  finish-Leaves slot w p =
      let adopted = (adopt-Leaves slot w p).holds in
      settle _ _ _ adopted (λ answer.
        when_ok-Leaves _ _ _ _
          (λ found. settle _ _ _ adopted (λ answer.
            when_ok-Leaves _ _ _ _
              (λ sync.
                when_some-Leaves _ _ _ _
                  (λ s.
                    when-Leaves _ _ _ _ (relock-Leaves slot _ _ adopted)
                      (record { holds = adopted }))
                  (record { holds = adopted }))
              (λ _. record { holds = adopted })))
          (λ _. record { holds = adopted }))

  lock-Leaves : (slot : Slot) (w : World P) → Q w.0 → Leaves (λ u. Q u.0) (lock P slot w)
  unfolding lock call
  lock-Leaves slot w p =
      let adopted = (adopt-Leaves slot w p).holds in
      settle _ _ _ adopted (λ _. record { holds = adopted })

  get-Leaves :
      (slot : Slot) (setting : Option Setting) (w : World P)
      → Q w.0
      → Leaves (λ u. Q u.0) (get P slot setting w)
  unfolding get call
  get-Leaves slot setting w p =
      let adopted = (adopt-Leaves slot w p).holds in
      settle _ _ _ adopted
        (λ _. settle _ _ _ adopted (λ _. settle _ _ _ adopted (λ _. record { holds = adopted })))

  status-Leaves : (name : String) (w : World P) → Q w.0 → Leaves (λ u. Q u.0) (status P name w)
  unfolding status call attempt
  status-Leaves name w p =
      let adopted = (adopt-Leaves (new_slot (some name)) w p).holds in
      settle _ _ _ adopted (λ answer.
        when_ok-Leaves _ _ _ _
          (λ found. settle _ _ _ adopted (λ answer. record { holds = adopted }))
          (λ _. record { holds = adopted }))

  list-Leaves : (names : List String) (w : World P) → Q w.0 → Leaves (λ u. Q u.0) (list P names w)
  unfolding list
  list-Leaves [] w p = record { holds = p }
  list-Leaves (name ∷ names) w p =
      let one = (status-Leaves name w p).holds in
      settle _ _ _ one (λ found.
        let rest = (list-Leaves names _ one).holds in
        settle _ _ _ rest (λ rest_of. record { holds = rest }))

module _ {U : Uuids} {T : Jiff} {K : Crypto} {J : Json} (P : Ports U T K J) where
  -- Waiting for an unlock, ending a command, locking, and reading settings or the list of the slots
  -- leave the keychain as it was, however they end.
  lookups-keep_keychain :
      (fuel : ℕ) (slot : Slot) (timeout_secs : Option ℕ) (setting : Option Setting)
      (names : List String) (w : World P)
      → ((unlock_and_wait P fuel slot timeout_secs w).0.0 ≡ w.0)
        × ((finish P slot w).0.0 ≡ w.0)
        × ((lock P slot w).0.0 ≡ w.0)
        × ((get P slot setting w).0.0 ≡ w.0)
        × ((list P names w).0.0 ≡ w.0)
  lookups-keep_keychain fuel slot timeout_secs setting names w =
      let Same : P.store.State → Type 0 = λ s. s ≡ w.0 in
      (
        (unlock_and_wait-Leaves P Same fuel slot timeout_secs w refl).holds,
        (finish-Leaves P Same slot w refl).holds,
        (lock-Leaves P Same slot w refl).holds,
        (get-Leaves P Same slot setting w refl).holds,
        (list-Leaves P Same names w refl).holds,
      )
