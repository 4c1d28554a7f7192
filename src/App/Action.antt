-- ===== src/App/Action.antt =====
-- The use cases of crates/heyl-app as actions: an action passes the keychain and the outside on, and
-- ends with a value or an error.
pub mod Leaves
pub mod Yields
use heyl.Prelude.{String, Bool, true, false, Option, none, some}
use heyl.Prelude.Results.{Result, ok, err, map_err}
use heyl.Json.{Json}
use heyl.Domain.Ids.{Uuids}
use heyl.Domain.Time.{Jiff}
use heyl.Domain.Keys.{Crypto}
use heyl.App.Error.{AppError, ApiError, PortError, api, port}
use heyl.App.Slots.{SecretKey}
use heyl.App.Ports.{Ports, Call}

-- `?` after an awaited call.
infixl 5 ◌>>=◌
unfoldable pub ◌>>=◌ :
    {W E A C : Type 0} → (W → W × Result E A) → (A → W → W × Result E C) → W → W × Result E C
(m >>= f) w = elim (m w).1 [ ok a ↦ f a (m w).0 | err e ↦ ((m w).0, err e) ]

-- A step without a call.
abbrev pub pure : {W E A : Type 0} → Result E A → W → W × Result E A
pure r w = (w, r)

-- The outcome of a step as a value, for `match`, `if let` and `.ok()`.
unfoldable pub attempt : {W E A : Type 0} → (W → W × Result E A) → W → W × Result E (Result E A)
attempt m w = ((m w).0, ok (m w).1)

-- `match` on an option, on a result and on a test, as actions.
module _ {W E C : Type 0} where
  unfoldable pub when_some :
      {A : Type 0} → Option A → (A → W → W × Result E C) → (W → W × Result E C) → W → W × Result E C
  when_some (some a) f g w = f a w
  when_some none f g w = g w

  unfoldable pub when_ok :
      {F A : Type 0}
      → Result F A
      → (A → W → W × Result E C)
      → (F → W → W × Result E C)
      → W
      → W × Result E C
  when_ok (ok a) f g w = f a w
  when_ok (err e) f g w = g e w

  unfoldable pub when : Bool → (W → W × Result E C) → (W → W × Result E C) → W → W × Result E C
  when true f g w = f w
  when false f g w = g w

module _ {U : Uuids} {T : Jiff} {K : Crypto} {J : Json} (P : Ports U T K J) where
  abbrev pub World : Type 0
  World = P.store.State × P.Outside

  abbrev pub Action : Type 0 → Type 0
  Action A = World → World × Result (AppError U) A

  unfoldable pub read_item : SecretKey → Action String
  read_item key w = (w, map_err port (P.store.get w.0 key))

  unfoldable pub write_item : SecretKey → String → Action (Unit {0})
  write_item key value w =
      let done = P.store.set w.0 key value in ((done.0, w.1), map_err port done.1)

  unfoldable pub delete_item : SecretKey → Action (Unit {0})
  delete_item key w = let done = P.store.delete w.0 key in ((done.0, w.1), map_err port done.1)

  unfoldable pub use_token : String → Action (Unit {0})
  use_token token w = ((w.0, P.api.set_access_token (some token) w.1), ok tt)

  -- A call of the backend.
  unfoldable pub call : {A : Type 0} → Call P.Outside A → Action A
  call f w = let done = f w.1 in ((w.0, done.0), map_err api done.1)

  -- A call of the terminal that may fail.
  unfoldable pub ask : {A : Type 0} → (P.Outside → P.Outside × Result PortError A) → Action A
  ask f w = let done = f w.1 in ((w.0, done.0), map_err port done.1)

  -- A step of the outside that cannot fail, such as a random draw.
  unfoldable pub outside : {A : Type 0} → (P.Outside → P.Outside × A) → Action A
  outside f w = let done = f w.1 in ((w.0, done.0), ok done.1)

  -- A look at the outside, such as the clock's.
  unfoldable pub look : {A : Type 0} → (P.Outside → A) → Action A
  look f w = (w, ok (f w.1))

  unfoldable pub note : String → Action (Unit {0})
  note message w = ((w.0, P.terminal.note message w.1), ok tt)
