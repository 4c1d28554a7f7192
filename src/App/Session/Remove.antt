-- ===== src/App/Session/Remove.antt =====
-- crates/heyl-app/src/session/lifecycle.rs: retiring a session.
pub mod Forgets
pub mod Force
use heyl.Prelude.{String, Bool, false, Option, none, some, if◌then◌else◌}
use heyl.Prelude.Results.{ok, err, map_err}
use heyl.Json.{Json}
use heyl.Domain.Ids.{Uuids, SessionId}
use heyl.Domain.Time.{Jiff}
use heyl.Domain.Keys.{Crypto}
use heyl.Domain.Sync.{session}
use heyl.Vault.Document.{VaultError}
use heyl.Vault.Meta.{tombstone_session}
use heyl.App.Error.{vault_content}
use heyl.App.Error.Display.{show_error}
use heyl.App.Slots.{Slot}
use heyl.App.Ports.{Ports}
use heyl.App.Action.{◌>>=◌, when_some, when_ok, when, pure, attempt, Action, call, note, look}
use heyl.App.Unlock.{run_for}
use heyl.App.MetaVault.{open_meta, commit, is_some}
use heyl.App.Session.{Adopted, adopt, forget, index_remove}
use Prim.Native.String.{◌++◌}

pub record Removed : Type 0 where
  pub tombstoned : Bool
  pub deleted : Bool

module _ {U : Uuids} {T : Jiff} {K : Crypto} {J : Json} (P : Ports U T K J) where
  unfoldable pub tombstone : Slot → SessionId U → Action P (Unit {0})
  unfolding run_for open_meta look commit
  tombstone slot id = do
    session ← run_for P slot
    meta ← open_meta P session
    now ← look P P.clock.now
    let edited = tombstone_session J U T meta.document id now
    _ ← pure (map_err (λ (e : VaultError). vault_content meta.id e) edited.1)
    _ ← commit P (record meta { document = edited.0 })
    pure (ok tt)

  -- With `force` a failure is noted and passed over.
  unfoldable pub tolerate : {A : Type 0} → Bool → String → Action P A → Action P (Option A)
  unfolding attempt note
  tolerate force what m = do
    answer ← attempt m
    when_ok answer (λ a. pure (ok (some a)))
        (λ e.
          when force (do _ ← note P (what ++ show_error P.debug e); pure (ok none)) (pure (err e)))

  -- What reaches the backend: the tombstone, and the deletion of the session.
  unfoldable pub retire : Slot → Bool → Option (Adopted U K) → Action P Removed
  unfolding tolerate tombstone call is_some
  retire slot force adopted =
      when_some adopted
        (λ adopted. do
          marked ←
              tolerate force "could not tombstone the device entry: " (tombstone slot adopted.id)
          gone ←
              tolerate force "could not delete the session: "
                (call P (P.api.delete_session adopted.id))
          pure (ok (record { tombstoned = is_some marked; deleted = is_some gone })))
        (pure (ok (record { tombstoned = false; deleted = false })))

  unfoldable pub remove : Slot → (force : Bool) → Action P Removed
  unfolding tolerate adopt retire forget index_remove
  remove slot force = do
    adopted ← tolerate force "could not read the slot's credentials: " (adopt P slot)
    removed ← retire slot force adopted
    _ ← forget P slot
    _ ← index_remove P slot
    pure (ok removed)
