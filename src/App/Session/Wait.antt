-- ===== src/App/Session/Wait.antt =====
-- crates/heyl-app/src/session/lifecycle.rs: waiting for an unlock, and locking again. The wait may last for
-- ever: it takes fuel, and `none` is a wait that is still going on.
pub mod Bounds
use heyl.Prelude.{
  ℕ, zero, suc, ◌+◌, ◌*◌, Bool, false, Option, none, some, ltb, leb, eqb, if◌then◌else◌,
}
use heyl.Prelude.Results.{ok, err}
use heyl.Json.{Json}
use heyl.Domain.Ids.{Uuids, SessionId}
use heyl.Domain.Time.{Jiff}
use heyl.Domain.Session.{SessionPolicy, from_wire}
use heyl.Domain.Keys.{Crypto}
use heyl.Domain.Sync.{Session, session}
use heyl.App.Error.{unlock_required}
use heyl.App.Error.Display.{show_error}
use heyl.App.Slots.{Slot, slot_name}
use heyl.App.Ports.{Ports}
use heyl.App.Action.{◌>>=◌, when_some, when_ok, when, pure, attempt, Action, call, note, outside}
use heyl.App.Session.{adopt}
use Prim.Native.String.{◌++◌}
use heyl.App.Session.Create.{unlocked_until}

-- `saturating_mul` and `saturating_add` on `u64`.
unfoldable pub saturate : ℕ → ℕ
saturate n = if ltb n 18446744073709551616 then n else 18446744073709551615

-- Whether the wait has used up its limit.
unfoldable pub timed_out : Option ℕ → ℕ → Bool
unfolding saturate
timed_out none waited = false
timed_out (some limit) waited = leb (saturate (limit * 1000)) waited

module _ {U : Uuids} {T : Jiff} {K : Crypto} {J : Json} (P : Ports U T K J) where
  -- After 45 seconds a person would have noticed the notification.
  unfoldable pub hint : ℕ → Action P (Unit {0})
  unfolding note
  hint waited =
      when (eqb waited 45000)
        (note P (
          "still waiting — if no prompt appeared, this device may have been removed "
          ++ "from your phone; `heyl session create` re-registers it"))
        (pure (ok tt))

  unfoldable pub pause : Action P (Unit {0})
  unfolding outside
  pause = outside P (λ w. (P.clock.sleep_millis 1000 w, tt))

  unfoldable pub poll_for_unlock :
      (fuel : ℕ) → SessionId U → Option ℕ → (waited : ℕ) → Action P (Option T.Instant)
  unfolding call unlocked_until timed_out hint pause saturate
  poll_for_unlock zero id timeout_secs waited = pure (ok none)
  poll_for_unlock (suc fuel) id timeout_secs waited = do
    sync ← call P P.api.sync
    when_some (unlocked_until sync id) (λ until. pure (ok (some until)))
        (when (timed_out timeout_secs waited) (pure (err unlock_required)) (do
          _ ← hint waited
          _ ← pause
          poll_for_unlock fuel id timeout_secs (saturate (waited + 1000))))

  unfoldable pub unlock_and_wait : (fuel : ℕ) → Slot → Option ℕ → Action P (Option T.Instant)
  unfolding adopt call unlocked_until note poll_for_unlock
  unlock_and_wait fuel slot timeout_secs = do
    adopted ← adopt P slot
    sync ← call P P.api.sync
    when_some (unlocked_until sync adopted.id) (λ until. pure (ok (some until)))
        (do
          _ ← call P (P.api.request_session_unlock ("heyl session unlock " ++ slot_name slot))
          _ ← note P ("approve on your phone (" ++ slot_name slot ++ ")…")
          poll_for_unlock fuel adopted.id timeout_secs 0)

  -- What a strict slot does at the end of a command.
  unfoldable pub relock : Slot → SessionId U → Action P (Unit {0})
  unfolding attempt call note
  relock slot id = do
    answer ← attempt (call P (P.api.delete_session_unlock id))
    when_ok answer (λ done. pure (ok tt))
        (λ e.
          note P ("warning: could not re-lock " ++ slot_name slot ++ ": " ++ show_error P.debug e))

  unfoldable pub policy_of : Session U T → SessionPolicy
  policy_of s = from_wire J P.text P.settings_from_seq s.unlock_time_limit_minutes s.client_settings

  -- Each early return is a success.
  unfoldable pub finish : Slot → Action P (Unit {0})
  unfolding attempt adopt call policy_of relock
  finish slot = do
    adopted ← attempt (adopt P slot)
    when_ok adopted
        (λ adopted. do
          answer ← attempt (call P P.api.sync)
          when_ok answer
              (λ sync.
                when_some (session sync adopted.id)
                  (λ s. when (policy_of s).strict (relock slot adopted.id) (pure (ok tt)))
                  (pure (ok tt)))
              (λ e. pure (ok tt)))
        (λ e. pure (ok tt))

  unfoldable pub lock : Slot → Action P (Unit {0})
  unfolding adopt call
  lock slot = do adopted ← adopt P slot; call P (P.api.delete_session_unlock adopted.id)
