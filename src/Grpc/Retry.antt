-- ===== src/Grpc/Retry.antt =====
-- crates/heyl-grpc/src/domain.rs: reads that are tried again where the transport fails.
pub mod Answers
use heyl.Prelude.{ℕ, zero, suc, ◌*◌, ◌^◌, String, Bool, Option, none, some, ltb, if◌then◌else◌}
use heyl.Prelude.Results.{Result, ok, err}
use heyl.App.Error.{
  ApiError, transport, unauthenticated, permission_denied, bad_request, client_outdated, backend,
  unimplemented, malformed_response,
}
use heyl.App.Ports.{Call}

abbrev pub read_retries : ℕ
read_retries = 3

unfoldable pub backoff : ℕ → ℕ
backoff attempt = 150 * 2 ^ attempt

unfoldable pub or_no_cause : Option ApiError → ApiError
or_no_cause none = transport "read failed with no recorded cause"
or_no_cause (some e) = e

-- Whether a failure is the transport's.
unfoldable pub is_transport_failure : ApiError → Bool
is_transport_failure (transport reason) = Bool.true
is_transport_failure _ = Bool.false

module _ {W A : Type 0} (sleep_millis : ℕ → W → W) (call : Call W A) where
  unfoldable pub pause_before_next : ℕ → W → W
  unfolding backoff
  pause_before_next attempt w =
      if ltb attempt read_retries then sleep_millis (backoff attempt) w else w

  -- `for attempt in 0..=READ_RETRIES`, with the attempts that are left and the last failure.
  unfoldable pub attempts_from : (left attempt : ℕ) → (last : Option ApiError) → Call W A
  unfolding or_no_cause is_transport_failure pause_before_next
  attempts_from zero attempt last w = (w, err (or_no_cause last))
  attempts_from (suc left) attempt last w = elim (call w).1 [
    | ok value ↦ ((call w).0, ok value)
    | err e ↦ elim (is_transport_failure e) [
      | Bool.true ↦ attempts_from left (suc attempt) (some e) (pause_before_next attempt (call w).0)
      | Bool.false ↦ ((call w).0, err e)
    ]
  ]

  unfoldable pub retrying_read : Call W A
  unfolding attempts_from
  retrying_read = attempts_from (suc read_retries) 0 none
