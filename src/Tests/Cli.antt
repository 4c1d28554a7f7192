-- ===== src/Tests/Cli.antt =====
-- Runs of what the commands print, of the session commands, and of the reading of the backend's errors.
use heyl.Prelude.{
  ℕ, suc, ◌≡◌, refl, true, false, not, ◌&&◌, ◌||◌, none, some, List, [], ◌∷◌, if◌then◌else◌, eqb,
}
use heyl.Prelude.Int.{pos}
use heyl.Prelude.Codes.{starts_with, has_infix}
use heyl.Prelude.Results.{Result, ok, err}
use heyl.Json.Sample.{sample}
use heyl.Domain.Session.{SessionPolicy}
use heyl.App.Error.{ApiError, transport, unknown_setting, bad_setting_value}
use heyl.App.Settings.{strict, parse_setting, parse_timeout, split_unit, name}
use heyl.Prelude.Decimal.{parse_u64}
use heyl.Prelude.Trim.{trim, strip_suffix}
use heyl.App.Slots.{Slot}
use heyl.App.Ports.{hidden}
use heyl.App.Get.Fields.{LoginView}
use heyl.Cli.Output.{prose, Rendering, Printed}
use heyl.App.Session.Create.{Created}
use heyl.App.Session.Settings.{SlotStatus}
use heyl.App.Doctor.{Check, pass}
use heyl.App.Session.Remove.{Removed}
use heyl.App.Recovery.{RecoveryOutcome}
use heyl.Cli.Commands.{
  session_command, pair_session, get_settings, set_setting, of_named, of_selected,
}
use heyl.Cli.Commands.Refusals.{session-refuses}
use heyl.Grpc.Status.{
  Messages, Status, is_code, domain_code, missing_credentials, rejected_credentials, code_unknown,
  code_unauthenticated, code_permission_denied, is_truncated_response, status_detail, to_api_error,
}
use heyl.Grpc.Status.Classes.{is_transport, is_unauthenticated, is_denied, to_api_error-classes}
use heyl.Grpc.Retry.{is_transport_failure, retrying_read}
use heyl.Grpc.Retry.Answers.{IsAnswer, retrying_read-IsAnswer}
use heyl.Tests.Samples.{ash, tags, noon}
use heyl.Tests.Host.{host}

abbrev printer : Rendering sample
printer = record { to_string = λ v. ok "{}"; to_string_pretty = λ v. ok "{ }" }

abbrev ci : Slot
ci = record { name = some "ci" }

abbrev daily : SessionPolicy
daily = record { timeout_minutes = 480; strict = true; auto_extend = false }

abbrev paired : Created tags noon
paired = record { id = record { uuid = ash }; display = "CI"; unlocked_until = none }

abbrev recovered : RecoveryOutcome tags noon
recovered = record {
  user_id = "user";
  disconnected = [];
  session_id = record { uuid = ash };
  unlocked_until = none;
}

abbrev gone : SlotStatus noon
gone = record {
  slot = "ci";
  known = false;
  unlocked_until = none;
  unlock_requested = false;
  policy = some daily;
}

abbrev passed : Check
passed = record { name = "link 1"; outcome = pass; detail = none }

abbrev removed : Removed
removed = record { tombstoned = false; deleted = true }

abbrev bank : LoginView
bank = record {
  id = "1";
  name = none;
  title = some "bank";
  username = none;
  password = some "secret";
  websites = [];
  note = none;
  labels = "home" ∷ [];
  custom = [];
  created = none;
  edited = none;
  change_time = none;
  is_deleted = false;
  is_archived = true;
}

refused_key : parse_setting tags "colour" ≡ err (unknown_setting "colour")
unfolding parse_setting
refused_key = refl

refused_timeout :
    parse_timeout tags "soon"
    ≡ err (bad_setting_value "timeout" "soon" "a duration like 90s, 30m or 8h")
unfolding parse_timeout split_unit parse_u64 trim strip_suffix name
refused_timeout = refl

abbrev quiet : List Printed → host.Outside → host.Outside
quiet lines w = w

session-refuses_example :
    (session_command host printer quiet 3
        (pair_session (some "ci") none (some "soon") false false true)
        ci
        none
        hidden
        prose
        ((λ k. none), none)
      ≡ (
        ((λ k. none), none),
        err (bad_setting_value "timeout" "soon" "a duration like 90s, 30m or 8h"),
      ))
    × (session_command host printer quiet 3
          (get_settings (some "ci") (some "colour"))
          ci
          none
          hidden
          prose
          ((λ k. none), none)
        ≡ (((λ k. none), none), err (unknown_setting "colour")))
    × (session_command host printer quiet 3
          (set_setting (of_named "ci" "colour" "blue"))
          ci
          none
          hidden
          prose
          ((λ k. none), none)
        ≡ (((λ k. none), none), err (unknown_setting "colour")))
    × (session_command host printer quiet 3
          (set_setting (of_selected "colour" "blue"))
          ci
          none
          hidden
          prose
          ((λ k. none), none)
        ≡ (((λ k. none), none), err (unknown_setting "colour")))
session-refuses_example =
    session-refuses host printer quiet 3 ci (some "ci") none "soon" "colour" false false true "ci"
      "blue" none hidden prose (bad_setting_value "timeout" "soon" "a duration like 90s, 30m or 8h")
      (unknown_setting "colour") ((λ k. none), none) refused_timeout refused_key

-- Every message is the error that credentials are missing.
abbrev messages : Messages
messages = record {
  decode_status = λ bytes.
      some (record { type_url = "type.googleapis.com/domain.DomainError"; value = bytes } ∷ []);
  decode_error =
      λ bytes. some (record { code = pos 30100; user_title = "Log in"; user_detail = "" });
}

abbrev cut : Status
cut = record {
  code = 2;
  message = "protocol error: missing grpc-status";
  details = [];
  metadata_details = none;
}

to_api_error-classes_example :
    (is_transport (to_api_error messages cut)
      ≡ eqb 2 code_unknown && is_truncated_response cut.message)
    × (is_unauthenticated (to_api_error messages cut)
        ≡ not (eqb 2 code_unknown && is_truncated_response cut.message)
          && (is_code missing_credentials (domain_code (status_detail messages cut))
              || eqb 2 code_unauthenticated))
    × (is_denied (to_api_error messages cut)
        ≡ not (eqb 2 code_unknown && is_truncated_response cut.message)
          && not (
              is_code missing_credentials (domain_code (status_detail messages cut))
              || eqb 2 code_unauthenticated)
          && (is_code rejected_credentials (domain_code (status_detail messages cut))
              || eqb 2 code_permission_denied))
to_api_error-classes_example = to_api_error-classes messages cut

cut_short : to_api_error messages cut ≡ transport "protocol error: missing grpc-status"
unfolding to_api_error is_truncated_response has_infix starts_with
cut_short = refl

-- The first call loses its answer.
abbrev flaky : ℕ → ℕ × Result ApiError ℕ
flaky w = (suc w, if eqb w 0 then err (transport "lost") else ok w)

retrying_read-IsAnswer_example :
    IsAnswer (λ n w. w) flaky (retrying_read (λ n w. w) flaky 0).1
    × ((value : ℕ) → (flaky 0).1 ≡ ok value → retrying_read (λ n w. w) flaky 0 ≡ (1, ok value))
    × ((e : ApiError)
        → (flaky 0).1 ≡ err e
        → is_transport_failure e ≡ false
        → retrying_read (λ n w. w) flaky 0 ≡ (1, err e))
retrying_read-IsAnswer_example = retrying_read-IsAnswer (λ n w. w) flaky 0

read_again : (retrying_read (λ n w. w) flaky 0).1 ≡ ok 1
unfolding retrying_read is_transport_failure
read_again = refl
