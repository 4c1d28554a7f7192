-- ===== src/Cli/Output/Reports.antt =====
-- crates/heyl-cli/src/output.rs: what `recovery` and `doctor` print.
use heyl.Prelude.{
  String, Bool, Option, none, some, List, [], ◌∷◌, ◌++◌, map, any, ltb, if◌then◌else◌, ◌&&◌,
}
use heyl.Prelude.Codes.{codes, starts_with}
use heyl.Prelude.Decimal.{print}
use heyl.Json.{Json}
use heyl.Domain.Ids.{Uuids, show}
use heyl.Domain.Time.{Jiff, display}
use heyl.Domain.Kinds.{debug_authenticator}
use heyl.App.Recovery.{RecoveryOutcome, Disconnectable}
use heyl.App.Doctor.{Outcome, pass, fail, skip, Check, Report, is_outcome, label, tally}
use heyl.Cli.Output.{
  Format, Printed, out_line, err_line, Rendering, is_json, emit, json_object, when_document,
  or_null, map_some, pad,
}
use Prim.Native.String.{◌++◌ as ◌+++◌}

module _ (J : Json) (R : Rendering J) (U : Uuids) (T : Jiff) where
  unfoldable pub disconnected_document : Disconnectable U → J.Value
  unfolding json_object debug_authenticator
  disconnected_document d =
      json_object J
        (("id", J.string (show U d.id)) ∷ ("kind", J.string (debug_authenticator d.kind)) ∷ [])

  unfoldable pub recovery_json : RecoveryOutcome U T → Format → List Printed
  unfolding emit json_object when_document disconnected_document
  recovery_json outcome format = emit J R format (
      json_object J (
        ("userId", J.string outcome.user_id)
        ∷ ("sessionId", J.string (show U outcome.session_id))
        ∷ ("unlockedUntil", when_document J R U T (λ s. s) outcome.unlocked_until)
        ∷ ("disconnected", J.array (map disconnected_document outcome.disconnected))
        ∷ []))

  window_line : Option T.Instant → String
  unfolding display
  window_line (some until) =
      "Unlocked until " +++ display T until +++ " (the backend's value, not ours)."
  window_line none =
      "The backend reported no unlock window; `heyl doctor` will say whether the grant took."

  disconnected_lines : List (Disconnectable U) → List String
  unfolding debug_authenticator
  disconnected_lines [] = []
  disconnected_lines (d ∷ ds) =
      "\nDisconnected from the account:"
        ∷ map (λ d. "  " +++ debug_authenticator d.kind +++ "  " +++ show U d.id) (d ∷ ds)
      ++ "\nPair a phone again to restore push access. That regenerates every profile and re-locks every vault,\nso this session's keys stop working once you do."
        ∷ []

  unfoldable pub recovery_human : RecoveryOutcome U T → List Printed
  unfolding window_line disconnected_lines
  recovery_human outcome = map err_line (
      ("Recovered access to " +++ outcome.user_id +++ ".")
      ∷ ("Session " +++ show U outcome.session_id +++ " is registered.")
      ∷ window_line outcome.unlocked_until
      ∷ disconnected_lines outcome.disconnected)

  unfoldable pub recovery : RecoveryOutcome U T → Format → List Printed
  unfolding is_json recovery_json recovery_human
  recovery outcome format =
      if is_json format then recovery_json outcome format else recovery_human outcome

detail_suffix : Option String → String
detail_suffix none = ""
detail_suffix (some detail) = "  — " +++ detail

unfoldable pub check_line : Check → String
unfolding label pad detail_suffix
check_line c = pad 4 (label c.outcome) +++ "  " +++ c.name +++ detail_suffix c.detail

unfoldable pub is_key_failure : Check → Bool
unfolding is_outcome starts_with
is_key_failure c = is_outcome c.outcome fail && starts_with (codes "link ") (codes c.name)

explanation : Report → String
unfolding is_key_failure
explanation report =
    if any is_key_failure report
    then "\nA failed *link* means the derived key disagrees with the one heylogin\npublishes: the context salt for that link is wrong. See DESIGN.md §6."
    else "\nNo derivation link failed — every key we derived matches the one heylogin\npublishes. The failures above are fetch or decode problems, which say nothing\nabout the key hierarchy."

unfoldable pub doctor_human : Report → List Printed
unfolding check_line tally explanation
doctor_human report =
    let counts = tally report in
    map (λ c. out_line (check_line c)) report
    ++ out_line ""
      ∷ out_line (
          print counts.0
          +++ " passed, "
          +++ print counts.1
          +++ " failed, "
          +++ print counts.2
          +++ " skipped")
      ∷ (if ltb 0 counts.1 then err_line (explanation report) ∷ [] else [])

unfoldable pub outcome_name : Outcome → String
outcome_name pass = "pass"
outcome_name fail = "fail"
outcome_name skip = "skip"

module _ (J : Json) (R : Rendering J) where
  unfoldable pub check_document : Check → J.Value
  unfolding json_object outcome_name or_null map_some
  check_document c = json_object J (
      ("name", J.string c.name)
      ∷ ("outcome", J.string (outcome_name c.outcome))
      ∷ ("detail", or_null J (map_some J.string c.detail))
      ∷ [])

  unfoldable pub doctor_json : Report → Format → List Printed
  unfolding emit json_object check_document tally
  doctor_json report format =
      let counts = tally report in
      emit J R format (
        json_object J (
          ("checks", J.array (map check_document report))
          ∷ (
            "summary",
            json_object J (
                ("passed", J.number counts.0)
                ∷ ("failed", J.number counts.1)
                ∷ ("skipped", J.number counts.2)
                ∷ []),
          )
          ∷ []))

  unfoldable pub doctor : Report → Format → List Printed
  unfolding is_json doctor_json doctor_human
  doctor report format = if is_json format then doctor_json report format else doctor_human report
