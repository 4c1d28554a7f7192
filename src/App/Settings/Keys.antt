-- ===== src/App/Settings/Keys.antt =====
-- The keys of the settings, and what a change of one leaves of the others.
use heyl.Prelude.{ℕ, ◌≡◌, ◌≢◌, refl, String, Bool, some, arith, eq_iff, ◌↔◌}
use heyl.Prelude.Results.{Result, ok, err, >>=-eq-ok}
use heyl.Domain.Ids.{Uuids}
use heyl.Domain.Session.{SessionPolicy}
use heyl.App.Error.{AppError, unknown_setting}
use heyl.App.Settings.{
  Setting, display_name, timeout, strict, auto_extend, name, parse_setting, parse_bool,
  parse_timeout, apply_setting, setting_value,
}

abbrev with_timeout : SessionPolicy → ℕ → SessionPolicy
with_timeout policy v = record policy { timeout_minutes = v }

timeout_apart :
    (policy : SessionPolicy) (v : ℕ) (other : Setting)
    → other ≢ timeout
    → setting_value (with_timeout policy v) other ≡ setting_value policy other
unfolding setting_value
timeout_apart policy v display_name d = refl
timeout_apart policy v timeout d = elim (d refl) [ ]
timeout_apart policy v strict d = refl
timeout_apart policy v auto_extend d = refl

abbrev with_strict : SessionPolicy → Bool → SessionPolicy
with_strict policy v = record policy { strict = v }

strict_apart :
    (policy : SessionPolicy) (v : Bool) (other : Setting)
    → other ≢ strict
    → setting_value (with_strict policy v) other ≡ setting_value policy other
unfolding setting_value
strict_apart policy v display_name d = refl
strict_apart policy v timeout d = refl
strict_apart policy v strict d = elim (d refl) [ ]
strict_apart policy v auto_extend d = refl

abbrev with_auto_extend : SessionPolicy → Bool → SessionPolicy
with_auto_extend policy v = record policy { auto_extend = v }

auto_extend_apart :
    (policy : SessionPolicy) (v : Bool) (other : Setting)
    → other ≢ auto_extend
    → setting_value (with_auto_extend policy v) other ≡ setting_value policy other
unfolding setting_value
auto_extend_apart policy v display_name d = refl
auto_extend_apart policy v timeout d = refl
auto_extend_apart policy v strict d = refl
auto_extend_apart policy v auto_extend d = elim (d refl) [ ]

module _ (U : Uuids) where
  -- A key is read as a setting exactly when it is that setting's name, and any other is refused as an
  -- unknown setting.
  parse_setting-name :
      (key : String)
      → ((s : Setting) → (parse_setting U key ≡ ok s) ↔ (key ≡ name s))
        × (((s : Setting) → key ≢ name s) → parse_setting U key ≡ err (unknown_setting key))
  unfolding parse_setting name
  parse_setting-name key = (λ s. (read s, λ e. rw e (printed s)), refused)
    where
      read : (s : Setting) → parse_setting U key ≡ ok s → key ≡ name s
      read display_name h = ground (arith, eq_iff key "display-name")
      read timeout h = ground (arith, eq_iff key "timeout")
      read strict h = ground (arith, eq_iff key "strict")
      read auto_extend h = ground (arith, eq_iff key "auto-extend")

      printed : (s : Setting) → parse_setting U (name s) ≡ ok s
      printed display_name = refl
      printed timeout = refl
      printed strict = refl
      printed auto_extend = refl

      refused : ((s : Setting) → key ≢ name s) → parse_setting U key ≡ err (unknown_setting key)
      refused h = ground (
        arith,
        h display_name,
        h timeout,
        h strict,
        h auto_extend,
        eq_iff key "display-name",
        eq_iff key "timeout",
        eq_iff key "strict",
        eq_iff key "auto-extend",
      )

  unwrap : {a b : Result (AppError U) SessionPolicy} → some a ≡ some b → a ≡ b
  unwrap e = cc

  ok_inj : {a b : SessionPolicy} → ◌≡◌ {A = Result (AppError U) SessionPolicy} (ok a) (ok b) → a ≡ b
  ok_inj e = cc

  -- A change of one setting reports the other settings as before.
  apply_setting_others :
      (key other : Setting) (value : String) (policy changed : SessionPolicy)
      → apply_setting U key value policy ≡ some (ok changed)
      → other ≢ key
      → setting_value changed other ≡ setting_value policy other
  unfolding apply_setting setting_value
  apply_setting_others display_name other value policy changed h d = ground arith
  apply_setting_others timeout other value policy changed h d =
      let (m, _, e) =
        >>=-eq-ok (parse_timeout U value) (λ m. ok (with_timeout policy m)) (unwrap h) in
      rw (← ok_inj e) (timeout_apart policy m other d)
  apply_setting_others strict other value policy changed h d =
      let (b, _, e) = >>=-eq-ok (parse_bool U value) (λ b. ok (with_strict policy b)) (unwrap h) in
      rw (← ok_inj e) (strict_apart policy b other d)
  apply_setting_others auto_extend other value policy changed h d =
      let (b, _, e) =
        >>=-eq-ok (parse_bool U value) (λ b. ok (with_auto_extend policy b)) (unwrap h) in
      rw (← ok_inj e) (auto_extend_apart policy b other d)
