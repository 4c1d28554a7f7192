-- ===== src/Grpc/Retry/Answers.antt =====
-- crates/heyl-grpc/src/domain.rs: a read ends with an answer that one of its calls gave.
use heyl.Prelude.{
  ℕ, zero, suc, ◌≡◌, refl, ◌⊎◌, inl, inr, false, Bool-cases, arith, Option, none, some,
}
use heyl.Prelude.Results.{Result, ok, err, Result-cases}
use heyl.App.Error.{ApiError}
use heyl.App.Ports.{Call}
use heyl.Grpc.Retry.{is_transport_failure, or_no_cause, attempts_from, retrying_read}

module _ {W A : Type 0} (sleep_millis : ℕ → W → W) (call : Call W A) where
  -- A call gave this result, in some state.
  abbrev pub IsAnswer : Result ApiError A → Type 0
  IsAnswer r = (u : W) × ((call u).1 ≡ r)

  IsRecorded : Option ApiError → Type 0
  IsRecorded none = ⊥
  IsRecorded (some e) = IsAnswer (err e)

  last-IsAnswer : (last : Option ApiError) → IsRecorded last → IsAnswer (err (or_no_cause last))
  unfolding IsRecorded or_no_cause
  last-IsAnswer none h = elim h [ ]
  last-IsAnswer (some e) h = h

  -- A call is still to come, or the last failure was a call's.
  attempts_from-IsAnswer :
      (left attempt : ℕ) (last : Option ApiError) (w : W)
      → IsRecorded last ⊎ ((n : ℕ) × (left ≡ suc n))
      → IsAnswer (attempts_from sleep_millis call left attempt last w).1
  unfolding attempts_from IsRecorded
  attempts_from-IsAnswer zero attempt last w (inl h) = last-IsAnswer last h
  attempts_from-IsAnswer zero attempt last w (inr h) = absurd (omega (arith, h.1))
  attempts_from-IsAnswer (suc left) attempt last w h = elim (Result-cases (call w).1) [
    | inl found ↦ rw (attempts_from, found.1) (w, found.1)
    | inr failed ↦ elim (Bool-cases (is_transport_failure failed.0)) [
      | inl t ↦
          rw (attempts_from, failed.1, t)
            (attempts_from-IsAnswer left (suc attempt) (some failed.0) _ (inl (w, failed.1)))
      | inr t ↦ rw (attempts_from, failed.1, t) (w, failed.1)
    ]
  ]

  -- A read ends with what one of its calls answered, never with a failure of its own. A call that does
  -- not fail in the transport is the only one.
  pub retrying_read-IsAnswer :
      (w : W)
      → IsAnswer (retrying_read sleep_millis call w).1
        × ((value : A)
            → (call w).1 ≡ ok value
            → retrying_read sleep_millis call w ≡ ((call w).0, ok value))
        × ((e : ApiError)
            → (call w).1 ≡ err e
            → is_transport_failure e ≡ false
            → retrying_read sleep_millis call w ≡ ((call w).0, err e))
  unfolding retrying_read attempts_from IsRecorded
  retrying_read-IsAnswer w = (
    attempts_from-IsAnswer 4 0 none w (inr (3, refl)),
    λ value e. rw (attempts_from, e) refl,
    λ failure e t. rw (attempts_from, e, t) refl,
  )
