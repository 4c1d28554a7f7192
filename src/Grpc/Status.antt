-- ===== src/Grpc/Status.antt =====
-- crates/heyl-grpc/src/status.rs: the backend's errors. The decoding of protobuf messages is a parameter.
pub mod Classes
use heyl.Prelude.{
  ℕ, String, Bool, true, false, not, ◌&&◌, ◌||◌, Option, none, some, List, [], ◌∷◌, if◌then◌else◌,
  eqb, ◌==◌,
}
use heyl.Prelude
use heyl.Prelude.Codes.{codes, has_infix, ends_with}
use heyl.Prelude.Int.{ℤ, pos, negsuc}
use heyl.Base64.{Base64}
use heyl.App.Error.{ApiError, unauthenticated, permission_denied, bad_request, backend, transport}

abbrev pub missing_credentials : ℕ
missing_credentials = 30100

abbrev pub rejected_credentials : ℕ
rejected_credentials = 30420

abbrev pub bad_request_code : ℕ
bad_request_code = 10400

pub record DomainErrorDetail : Type 0 where
  pub code : ℤ
  pub user_title : String
  pub user_detail : String

-- `google.protobuf.Any`.
pub record Any : Type 0 where
  pub type_url : String
  pub value : List ℕ

-- `prost`: the details of a `google.rpc.Status`, and the error that one of them wraps.
pub record Messages : Type 0 where
  pub decode_status : List ℕ → Option (List Any)
  pub decode_error : List ℕ → Option DomainErrorDetail

-- `tonic::Status`: the code by its number, and the details that `tonic` has read and left.
pub record Status : Type 0 where
  pub code : ℕ
  pub message : String
  pub details : List ℕ
  pub metadata_details : Option (List ℕ)

abbrev pub code_unknown : ℕ
code_unknown = 2

abbrev pub code_permission_denied : ℕ
code_permission_denied = 7

abbrev pub code_unauthenticated : ℕ
code_unauthenticated = 16

-- `or_else`.
unfoldable pub or_detail :
    Option DomainErrorDetail → Option DomainErrorDetail → Option DomainErrorDetail
or_detail none other = other
or_detail (some d) other = some d

module _ (M : Messages) where
  -- `find_map`: a detail that is no domain error, or does not decode, is passed over.
  unfoldable pub find_detail : List Any → Option DomainErrorDetail
  unfolding or_detail ends_with
  find_detail [] = none
  find_detail (any ∷ rest) =
      let later = find_detail rest in
      if ends_with (codes "domain.DomainError") (codes any.type_url)
      then or_detail (M.decode_error any.value) later
      else later

  unfoldable pub decode_details : List ℕ → Option DomainErrorDetail
  unfolding find_detail
  decode_details bytes = Prelude.◌>>=◌ (M.decode_status bytes) find_detail

  -- The alphabet without padding first, then the padded one.
  unfoldable pub decode_details_base64 : Base64 → String → Option DomainErrorDetail
  unfolding decode_details
  decode_details_base64 B raw = elim (B.standard_no_pad_decode raw) [
    | some bytes ↦ decode_details bytes
    | none ↦ Prelude.◌>>=◌ (B.standard_decode raw) decode_details
  ]

unfoldable pub is_truncated_response : String → Bool
unfolding has_infix
is_truncated_response message =
    has_infix (codes "missing grpc-status") (codes message)
    || has_infix (codes "stream was terminated without a final status") (codes message)

unfoldable pub domain_code : Option DomainErrorDetail → Option ℤ
domain_code none = none
domain_code (some d) = some d.code

unfoldable pub is_code : ℕ → Option ℤ → Bool
is_code n none = false
is_code n (some (pos m)) = eqb m n
is_code n (some (negsuc m)) = false

-- The backend's title for people, where there is one.
unfoldable pub chosen_message : Option DomainErrorDetail → String → String
chosen_message none message = message
chosen_message (some d) message = if d.user_title == "" then message else d.user_title

unfoldable pub detail_text : Option DomainErrorDetail → String
detail_text none = ""
detail_text (some d) = d.user_detail

module _ (M : Messages) where
  unfoldable pub status_detail : Status → Option DomainErrorDetail
  unfolding or_detail decode_details
  status_detail status =
      or_detail (decode_details M status.details)
        (Prelude.◌>>=◌ status.metadata_details (decode_details M))

  unfoldable pub classify : Status → Option DomainErrorDetail → ApiError
  unfolding is_code domain_code chosen_message detail_text
  classify status detail =
      let answer = domain_code detail in
      if is_code missing_credentials answer || eqb status.code code_unauthenticated
      then unauthenticated answer
      else if is_code rejected_credentials answer || eqb status.code code_permission_denied
      then permission_denied answer
      else if is_code bad_request_code answer
      then bad_request answer (chosen_message detail status.message)
      else backend (pos status.code) answer (chosen_message detail status.message)
          (detail_text detail)

  -- A response without its trailers is a failure of the transport.
  unfoldable pub to_api_error : Status → ApiError
  unfolding status_detail is_truncated_response classify
  to_api_error status =
      if eqb status.code code_unknown && is_truncated_response status.message
      then transport status.message
      else classify status (status_detail status)
