-- ===== src/App/Unlock/Ensure.antt =====
-- crates/heyl-app/src/unlock.rs: an unlock that asks the phone where the session is locked. `none` is a
-- wait that is still going on.
use heyl.Prelude.{ℕ, Option, none, some}
use heyl.Prelude.Results.{Result, ok, err}
use heyl.Json.{Json}
use heyl.Domain.Ids.{Uuids}
use heyl.Domain.Time.{Jiff}
use heyl.Domain.Keys.{Crypto}
use heyl.App.Error.{AppError, unlock_required}
use heyl.App.Slots.{Slot}
use heyl.App.Ports.{Ports}
use heyl.App.Action.{◌>>=◌, pure, attempt, Action}
use heyl.App.Session.Wait.{unlock_and_wait}
use heyl.App.Unlock.{Unlocked, run_for}

module _ {U : Uuids} {T : Jiff} {K : Crypto} {J : Json} (P : Ports U T K J) where
  retry : Slot → Option T.Instant → Action P (Option (Unlocked U T K))
  unfolding run_for
  retry slot none = pure (ok none)
  retry slot (some until) = do unlocked ← run_for P slot; pure (ok (some unlocked))

  -- Only a locked session is waited for.
  after_run :
      (fuel : ℕ)
      → Slot
      → Option ℕ
      → Result (AppError U) (Unlocked U T K)
      → Action P (Option (Unlocked U T K))
  unfolding unlock_and_wait retry
  after_run fuel slot timeout_secs (ok unlocked) = pure (ok (some unlocked))
  after_run fuel slot timeout_secs (err unlock_required) = do
    until ← unlock_and_wait P fuel slot timeout_secs
    retry slot until
  after_run fuel slot timeout_secs (err other) = pure (err other)

  unfoldable pub ensure : (fuel : ℕ) → Slot → Option ℕ → Action P (Option (Unlocked U T K))
  unfolding attempt run_for after_run
  ensure fuel slot timeout_secs = do
    outcome ← attempt (run_for P slot)
    after_run fuel slot timeout_secs outcome
