-- ===== src/App/Session/Wait/Bounds.antt =====
-- crates/heyl-app/src/session/lifecycle.rs: a wait with a limit ends.
use heyl.Prelude.{◌≡◌, ◌≢◌, ℕ, zero, suc, ◌+◌, ◌*◌, ◌≤◌, ◌<◌, false, Option, none, some, arith}
use heyl.Prelude.Results.{Result, ok}
use heyl.Json.{Json}
use heyl.Domain.Ids.{Uuids, SessionId}
use heyl.Domain.Time.{Jiff}
use heyl.Domain.Keys.{Crypto}
use heyl.App.Error.{AppError}
use heyl.App.Slots.{Slot}
use heyl.App.Ports.{Ports}
use heyl.App.Action.{World}
use heyl.App.Action.Yields.{Yields, follow, when_some-Yields, when-Yields}
use heyl.App.Session.Wait.{saturate, timed_out, poll_for_unlock, unlock_and_wait}

-- The wait is over.
abbrev Ended : {U : Uuids} {A : Type 0} → Result (AppError U) (Option A) → Type 0
Ended r = r ≢ ok none

saturate-le : (n : ℕ) → saturate n ≤ 18446744073709551615
unfolding saturate
saturate-le n = ground arith

-- Time goes on by a second, up to the largest number.
saturate_second :
    (limit waited rounds : ℕ)
    → limit ≤ 18446744073709551615
    → limit ≤ waited + 1000 * suc rounds
    → limit ≤ saturate (waited + 1000) + 1000 * rounds
unfolding saturate
saturate_second limit waited rounds small h = ground arith

saturate_rounds : (limit fuel : ℕ) → limit < suc fuel → saturate (limit * 1000) ≤ 0 + 1000 * fuel
unfolding saturate
saturate_rounds limit fuel h = ground arith

not_yet :
    (limit waited : ℕ) → timed_out (some limit) waited ≡ false → waited < saturate (limit * 1000)
unfolding timed_out
not_yet limit waited h = ground arith

module _ {U : Uuids} {T : Jiff} {K : Crypto} {J : Json} (P : Ports U T K J) where
  poll_ends :
      (fuel : ℕ) (id : SessionId U) (limit waited : ℕ) (w : World P)
      → saturate (limit * 1000) ≤ waited + 1000 * fuel
      → Yields Ended (poll_for_unlock P (suc fuel) id (some limit) waited w)
  unfolding poll_for_unlock
  poll_ends zero id limit waited w h =
      follow _ _ w (λ e _. cc)
        (λ sync _.
          when_some-Yields _ _ _ _ (λ until _. record { holds = cc })
            (λ _.
              when-Yields _ _ _ _ (λ _. record { holds = cc })
                (λ early. absurd (omega (arith, not_yet limit waited early)))))
  poll_ends (suc fuel) id limit waited w h =
      follow _ _ w (λ e _. cc)
        (λ sync _.
          when_some-Yields _ _ _ _ (λ until _. record { holds = cc })
            (λ _.
              when-Yields _ _ _ _ (λ _. record { holds = cc })
                (λ _.
                  follow _ _ _ (λ e _. cc)
                    (λ _ _.
                      follow _ _ _ (λ e _. cc)
                        (λ _ _.
                          poll_ends fuel id limit (saturate (waited + 1000)) _
                            (saturate_second _ waited fuel (saturate-le (limit * 1000)) h))))))

  unlock_and_wait-Yields :
      (fuel : ℕ) (slot : Slot) (limit : ℕ) (w : World P)
      → limit < suc fuel
      → Yields Ended (unlock_and_wait P (suc fuel) slot (some limit) w)
  unfolding unlock_and_wait
  unlock_and_wait-Yields fuel slot limit w h =
      follow _ _ w (λ e _. cc)
        (λ adopted _.
          follow _ _ _ (λ e _. cc)
            (λ sync _.
              when_some-Yields _ _ _ _ (λ until _. record { holds = cc })
                (λ _.
                  follow _ _ _ (λ e _. cc)
                    (λ _ _.
                      follow _ _ _ (λ e _. cc)
                        (λ _ _.
                          poll_ends fuel adopted.id limit 0 _ (saturate_rounds limit fuel h))))))

  -- With a limit of seconds and more rounds than the limit, the wait for the phone is over: the session
  -- is unlocked, or the wait has failed.
  pub unlock_and_wait_ends :
      (fuel : ℕ) (slot : Slot) (limit : ℕ) (w : World P)
      → limit < fuel
      → (unlock_and_wait P fuel slot (some limit) w).1 ≢ ok none
  unlock_and_wait_ends zero slot limit w h = elim h [ ]
  unlock_and_wait_ends (suc fuel) slot limit w h =
      (unlock_and_wait-Yields fuel slot limit w h).holds
