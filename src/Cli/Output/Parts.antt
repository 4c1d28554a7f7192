-- ===== src/Cli/Output/Parts.antt =====
-- crates/heyl-cli/src/output.rs: the parts of the documents hold what they have to.
use heyl.Prelude.{◌≡◌, refl, ap, String, Option, [], ◌∷◌}
use heyl.Json.{Json}
use heyl.Domain.Ids.{Uuids, show}
use heyl.Domain.Kinds.{debug_authenticator}
use heyl.Domain.Time.{Jiff, display}
use heyl.Domain.Session.{SessionPolicy}
use heyl.App.Settings.{
  Setting, display_name, timeout, strict, auto_extend, SettingValue, minutes, toggle, locked,
}
use heyl.App.Slots.{Slot, slot_name}
use heyl.App.Session.Create.{Created}
use heyl.App.Session.Settings.{SlotStatus}
use heyl.App.Recovery.{Disconnectable}
use heyl.App.Doctor.{Outcome, pass, fail, skip, Check}
use heyl.Cli.Output.{
  Rendering, json_object, or_null, map_some, policy_document, value_document, when_document,
  setting_key, status_document,
}
use heyl.Cli.Output.Reports.{disconnected_document, check_document, outcome_name}
use heyl.Cli.Output.Shapes.{Text, Members, or_null-OrNull, json_object-Members}
use heyl.Cli.Output.Contents.{
  policy_shapes, Policy, key_of, ValueOf, outcome_text, check_shapes, Until, created_shapes,
  status_shapes, disconnected_shapes,
}

module _ (J : Json) where
  pub policy_document-Policy : (policy : SessionPolicy) → Policy J policy (policy_document J policy)
  unfolding policy_document
  policy_document-Policy policy =
      json_object-Members J (policy_shapes J policy)
        (("timeoutMinutes", J.number policy.timeout_minutes)
          ∷ ("strict", J.boolean policy.strict)
          ∷ ("autoExtend", J.boolean policy.auto_extend)
          ∷ [])
        (refl, refl, (refl, refl, (refl, refl, tt)))

  pub value_document-ValueOf : (value : SettingValue) → ValueOf J value (value_document J value)
  unfolding value_document
  value_document-ValueOf (minutes m) = refl
  value_document-ValueOf (toggle b) = refl
  value_document-ValueOf locked = refl

  pub setting_key_lem : (setting : Setting) → setting_key setting ≡ key_of setting
  unfolding setting_key
  setting_key_lem display_name = refl
  setting_key_lem timeout = refl
  setting_key_lem strict = refl
  setting_key_lem auto_extend = refl

  outcome_name_lem : (outcome : Outcome) → outcome_name outcome ≡ outcome_text outcome
  unfolding outcome_name
  outcome_name_lem pass = refl
  outcome_name_lem fail = refl
  outcome_name_lem skip = refl

  pub check_document-Members :
      (R : Rendering J) (c : Check) → Members J (check_shapes J c) (check_document J R c)
  unfolding check_document
  check_document-Members R c =
      json_object-Members J (check_shapes J c)
        (("name", J.string c.name)
          ∷ ("outcome", J.string (outcome_name c.outcome))
          ∷ ("detail", or_null J (map_some J.string c.detail))
          ∷ [])
        (
          refl,
          refl,
          (
            refl,
            ap J.string (outcome_name_lem c.outcome),
            (refl, or_null-OrNull J (Text J) J.string (λ s. refl) c.detail, tt),
          ),
        )

module _ (J : Json) (R : Rendering J) (U : Uuids) (T : Jiff) (debug : String → String) where
  pub when_document-Until :
      (words : String → String) (until : Option T.Instant)
      → Until J U T until (when_document J R U T words until)
  unfolding when_document
  when_document-Until words until =
      or_null-OrNull J (λ t. Text J (display T t)) (λ t. J.string (display T t)) (λ t. refl) until

  pub created-Members :
      (slot : Slot) (created : Created U T) (policy : SessionPolicy)
      → Members J (created_shapes J U T slot created policy) (
          json_object J (
            ("slot", J.string (slot_name slot))
            ∷ ("sessionId", J.string (show U created.id))
            ∷ ("display", J.string created.display)
            ∷ ("policy", policy_document J policy)
            ∷ ("unlockedUntil", when_document J R U T debug created.unlocked_until)
            ∷ []))
  created-Members slot created policy =
      json_object-Members J (created_shapes J U T slot created policy)
        (("slot", J.string (slot_name slot))
          ∷ ("sessionId", J.string (show U created.id))
          ∷ ("display", J.string created.display)
          ∷ ("policy", policy_document J policy)
          ∷ ("unlockedUntil", when_document J R U T debug created.unlocked_until)
          ∷ [])
        (
          refl,
          refl,
          (
            refl,
            refl,
            (
              refl,
              refl,
              (
                refl,
                policy_document-Policy J policy,
                (refl, when_document-Until debug created.unlocked_until, tt),
              ),
            ),
          ),
        )

  pub status_document-Members :
      (status : SlotStatus T)
      → Members J (status_shapes J U T status) (status_document J R U T debug status)
  unfolding status_document
  status_document-Members status =
      json_object-Members J (status_shapes J U T status)
        (("slot", J.string status.slot)
          ∷ ("known", J.boolean status.known)
          ∷ ("unlockedUntil", when_document J R U T debug status.unlocked_until)
          ∷ ("unlockRequested", J.boolean status.unlock_requested)
          ∷ ("policy", or_null J (map_some (policy_document J) status.policy))
          ∷ [])
        (
          refl,
          refl,
          (
            refl,
            refl,
            (
              refl,
              when_document-Until debug status.unlocked_until,
              (
                refl,
                refl,
                (
                  refl,
                  or_null-OrNull J (Policy J) (policy_document J) (policy_document-Policy J)
                      status.policy,
                  tt,
                ),
              ),
            ),
          ),
        )

  pub disconnected_document-Members :
      (d : Disconnectable U)
      → Members J (disconnected_shapes J U T d) (disconnected_document J R U T d)
  unfolding disconnected_document
  disconnected_document-Members d =
      json_object-Members J (disconnected_shapes J U T d)
        (("id", J.string (show U d.id)) ∷ ("kind", J.string (debug_authenticator d.kind)) ∷ [])
        (refl, refl, (refl, refl, tt))
