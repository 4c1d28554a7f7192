-- ===== src/Grpc/Status/Classes.antt =====
-- crates/heyl-grpc/src/status.rs: which errors mean that the session has to log in again.
use heyl.Prelude.{
  ℕ, ◌≡◌, refl, String, Bool, true, false, not, ◌&&◌, ◌||◌, Option, if◌then◌else◌, eqb,
}
use heyl.Prelude.Int.{ℤ, pos}
use heyl.App.Error.{ApiError, unauthenticated, permission_denied, bad_request, backend, transport}
use heyl.Grpc.Status.{
  Messages, Status, is_code, domain_code, missing_credentials, rejected_credentials,
  bad_request_code, code_unknown, code_unauthenticated, code_permission_denied,
  is_truncated_response, status_detail, classify, to_api_error, chosen_message, detail_text,
}

unfoldable pub is_unauthenticated : ApiError → Bool
is_unauthenticated (unauthenticated code) = true
is_unauthenticated _ = false

unfoldable pub is_denied : ApiError → Bool
is_denied (permission_denied code) = true
is_denied _ = false

unfoldable pub is_transport : ApiError → Bool
is_transport (transport reason) = true
is_transport _ = false

-- What `to_api_error` chooses between, by its four tests.
chosen :
    (truncated missing rejected malformed : Bool) (answer : Option ℤ)
    (reason message detail : String) (code : ℕ)
    → ApiError
chosen truncated missing rejected malformed answer reason message detail code =
    if truncated
    then transport reason
    else if missing
    then unauthenticated answer
    else if rejected
    then permission_denied answer
    else if malformed
    then bad_request answer message
    else backend (pos code) answer message detail

-- The three tests of an error, by the same.
abbrev Classes : ApiError → (truncated missing rejected : Bool) → Type 0
Classes e truncated missing rejected =
    (is_transport e ≡ truncated)
    × (is_unauthenticated e ≡ not truncated && missing)
    × (is_denied e ≡ not truncated && not missing && rejected)

chosen-Classes :
    (truncated missing rejected malformed : Bool) (answer : Option ℤ)
    (reason message detail : String) (code : ℕ)
    → Classes
        (chosen truncated missing rejected malformed answer reason message detail code)
        truncated
        missing
        rejected
unfolding chosen is_transport is_unauthenticated is_denied
chosen-Classes true missing rejected malformed answer reason message detail code =
    (refl, refl, refl)
chosen-Classes false true rejected malformed answer reason message detail code = (refl, refl, refl)
chosen-Classes false false true malformed answer reason message detail code = (refl, refl, refl)
chosen-Classes false false false true answer reason message detail code = (refl, refl, refl)
chosen-Classes false false false false answer reason message detail code = (refl, refl, refl)

-- An answer is a failure of the transport just where it lost its trailers. One that came through asks
-- for a login just where its status or the domain error says that credentials are missing, and else it
-- is a refusal just where one of them says that they were rejected.
pub to_api_error-classes :
    (M : Messages) (status : Status)
    → (is_transport (to_api_error M status)
        ≡ eqb status.code code_unknown && is_truncated_response status.message)
      × (is_unauthenticated (to_api_error M status)
          ≡ not (eqb status.code code_unknown && is_truncated_response status.message)
            && (is_code missing_credentials (domain_code (status_detail M status))
                || eqb status.code code_unauthenticated))
      × (is_denied (to_api_error M status)
          ≡ not (eqb status.code code_unknown && is_truncated_response status.message)
            && not (
                is_code missing_credentials (domain_code (status_detail M status))
                || eqb status.code code_unauthenticated)
            && (is_code rejected_credentials (domain_code (status_detail M status))
                || eqb status.code code_permission_denied))
unfolding to_api_error classify chosen
to_api_error-classes M status =
    let answer = domain_code (status_detail M status) in
    chosen-Classes (eqb status.code code_unknown && is_truncated_response status.message)
      (is_code missing_credentials answer || eqb status.code code_unauthenticated)
      (is_code rejected_credentials answer || eqb status.code code_permission_denied)
      (is_code bad_request_code answer) answer status.message
      (chosen_message (status_detail M status) status.message)
      (detail_text (status_detail M status)) status.code
