-- ===== src/App/Doctor/Vaults/Walk.antt =====
-- crates/heyl-app/src/doctor.rs: what a report holds.
use heyl.Prelude.{
  ◌≡◌, ◌⊎◌, refl, sym, ap, ◌∙◌, String, Bool-cases, inl, inr, List, [], ◌∷◌, ◌++◌, map,
  append_assoc, append-nil, All, In,
}
use heyl.Prelude.Results.{Result, ok, err}
use heyl.Json.{Json}
use heyl.Domain.Ids.{Uuids, ProfileId, show}
use heyl.Domain.Time.{Jiff}
use heyl.Domain.Kinds.{is_supported}
use heyl.Domain.Keys.{Crypto}
use heyl.Domain.Sync.{VaultSummary, Profile}
use heyl.App.Error.{AppError, no_unlockable_profile}
use heyl.App.Doctor.Links.{check_authenticator_keys}
use heyl.App.Doctor.Unlockable.{CanUnlock, check_profiles-cases}
use Prim.Native.String.{◌++◌ as ◌+++◌}
use heyl.App.Error.Display.{show_error}
use heyl.App.Action.Leaves.{>>=-ok, >>=-err}
use heyl.App.Ports.{Ports}
use heyl.App.Unlock.{Unlocked}
use heyl.App.Action.{World, ◌>>=◌, when, when_ok, attempt, pure}
use heyl.App.Doctor.{pass, fail, Check, Report, with_detail, push}
use heyl.App.Doctor.Vaults.{open_vault, vault_name, check_vault, check_vaults, run_with}

-- What the checks of a report are called.
unfoldable pub names : Report → List String
names report = map (λ c. c.name) report

names-push : (report : Report) (c : Check) → names (push report c) ≡ names report ++ c.name ∷ []
unfolding names push
names-push [] c = refl
names-push (x ∷ report) c = ap (λ l. x.name ∷ l) (names-push report c)

module _ {U : Uuids} {T : Jiff} {K : Crypto} {J : Json} (P : Ports U T K J) where
  -- The action ends with a report that has these names.
  abbrev Lists : List String → World P × Result (AppError U) Report → Type 0
  Lists ns outcome = (report : Report) × (outcome.1 ≡ ok report) × (names report ≡ ns)

  opened-Lists :
      (report : Report) (v : VaultSummary U) (r : Result (AppError U) String) (w : World P)
      → Lists (names report ++ vault_name P v ∷ []) (
          when_ok r
            (λ detail. pure (ok (push report (with_detail (vault_name P v) pass detail))))
            (λ e.
              pure (ok (push report (with_detail (vault_name P v) fail (show_error P.debug e)))))
            w)
  unfolding when_ok with_detail
  opened-Lists report v (ok detail) w = (_, refl, names-push report _)
  opened-Lists report v (err e) w = (_, refl, names-push report _)

  check_vault-Lists :
      (report : Report) (session : Unlocked U T K) (v : VaultSummary U)
      (unlockable : List (ProfileId U)) (w : World P)
      → Lists (names report ++ vault_name P v ∷ []) (check_vault P report session v unlockable w)
  unfolding check_vault when with_detail attempt ◌>>=◌
  check_vault-Lists report session v unlockable w = elim (Bool-cases (is_supported v.vault_type)) [
    | inl e ↦ rw (e, when) (opened-Lists report v (open_vault P session v unlockable w).1 _)
    | inr e ↦ rw (e, when) (_, refl, names-push report _)
  ]

  check_vaults-Lists :
      (report : Report) (session : Unlocked U T K) (vs : List (VaultSummary U))
      (unlockable : List (ProfileId U)) (w : World P)
      → Lists
          (names report ++ map (vault_name P) vs)
          (check_vaults P report session vs unlockable w)
  unfolding check_vaults
  check_vaults-Lists report session [] unlockable w =
      (report, refl, sym (append-nil (names report)))
  check_vaults-Lists report session (v ∷ vs) unlockable w =
      let one = check_vault-Lists report session v unlockable w in
      let rest =
        check_vaults-Lists one.0 session vs unlockable
          (check_vault P report session v unlockable w).0 in
      let all : names rest.0 ≡ names report ++ vault_name P v ∷ map (vault_name P) vs =
        rest.2
        ∙ ap (λ l. l ++ map (vault_name P) vs) one.2
        ∙ append_assoc (names report) (vault_name P v ∷ []) (map (vault_name P) vs) in
      (rest.0, ap (λ o. o.1) (>>=-ok _ _ w one.1) ∙ rest.1, all)

  -- With the session unlocked, the walk fails just where none of the account's profiles can be unlocked:
  -- where none has a lock for the session's authenticator with which both its seeds unwrap. Where one of
  -- them can be, it ends with a report, whatever else fails on the way, and the report closes with one
  -- check for each vault of the account, in the account's order.
  pub run_with-vaults :
      (session : Unlocked U T K) (w : World P)
      → (All (λ p. ¬ CanUnlock session p) session.sync.profiles
          × ((run_with P session w).1 ≡ err (no_unlockable_profile session.authenticator_id)))
        ⊎ ((p : Profile U) × In p session.sync.profiles
            × CanUnlock session p
            × ((report : Report) × ((run_with P session w).1 ≡ ok report)
                × (earlier : List String) × (names report
                    ≡ earlier ++ map (vault_name P) session.sync.vaults)))
  unfolding run_with
  run_with-vaults session w =
      elim (check_profiles-cases
        (check_authenticator_keys
          (push [] (
            with_detail "session · unlock grant" pass
              ("seed recovered from authenticator " +++ show U session.authenticator_id)))
          session)
        session) [
          | inl (cannot, e) ↦ inl (cannot, ap (λ o. o.1) (>>=-err _ _ w e))
          | inr (p, among, can, (walked, e)) ↦
              let rest = check_vaults-Lists walked.0 session session.sync.vaults walked.1 w in
              inr (
                p,
                among,
                can,
                (rest.0, ap (λ o. o.1) (>>=-ok _ _ w e) ∙ rest.1, names walked.0, rest.2),
              )
        ]
