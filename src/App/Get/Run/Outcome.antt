-- ===== src/App/Get/Run/Outcome.antt =====
-- What a run of `get` looks at, and where the login that it returns comes from.
use heyl.Prelude.{
  ◌≤◌, ◌≡◌, subst, refl, ap, sym, ◌∙◌, String, Bool, true, false, List, [], ◌∷◌, ◌++◌, arith, inl,
  inr, In, In-keep, In-map, In-append, In-append_left, In-append_right, length, not, Bool-cases,
}
use heyl.Prelude.Results.{Result, ok, ok_or, >>=-eq-ok, ok_or-eq-ok, Result-cases, ok_inj}
use heyl.Json.{Json}
use heyl.Domain.Ids.{Uuids}
use heyl.Domain.Time.{Jiff}
use heyl.Domain.Sync.{SyncSnapshot, VaultSummary}
use heyl.Vault.Login.{Login, liveness, logins}
use heyl.App.Error.{AppError, no_such_login}
use heyl.App.Get.Query.{Query, LoginSelector}
use heyl.App.Get.Fields.{Opener}
use heyl.App.Get.Search.{Candidate, Opened, login_matches, rank, resolve_scope}
use heyl.App.Get.Search.Ranking.{rank_sound}
use heyl.App.Get.Run.{Located, matching, gather, select, is_any, run}

module _ (J : Json) (U : Uuids) (T : Jiff) (O : Opener) (lower : String → String)
    (open_vault : VaultSummary U → Result (AppError U) (Opened J O)) where
  -- A login that matches, read out of a vault of the scope that opened.
  abbrev pub IsFound : LoginSelector U → List (VaultSummary U) → Login U → Type 0
  IsFound selector scope login =
      (v : VaultSummary U) × (opened : Opened J O) × In v scope
      × (open_vault v ≡ ok opened)
      × In login (logins J U opened.document)
      × (login_matches U lower login selector ≡ true)

  matching_sound :
      (selector : LoginSelector U) (v : VaultSummary U) (opened : Opened J O) (c : Candidate U O)
      → In c (matching J U T O lower open_vault selector v opened)
      → In c.login (logins J U opened.document) × (login_matches U lower c.login selector ≡ true)
  unfolding matching
  matching_sound selector v opened c m =
      let (login, n, e) = In-map _ _ c m in
      let kept =
        In-keep (λ l. login_matches U lower l selector) (logins J U opened.document) login n in
      rw e kept

  widen :
      (selector : LoginSelector U) (v : VaultSummary U) (rest : List (VaultSummary U))
      (login : Login U)
      → IsFound selector rest login
      → IsFound selector (v ∷ rest) login
  widen selector v rest login (w, opened, i, o, m, t) = (w, opened, inr i, o, m, t)

  gather_sound :
      (named : Bool) (selector : LoginSelector U) (scope : List (VaultSummary U))
      (found : List (Candidate U O)) (c : Candidate U O)
      → gather J U T O lower open_vault named selector scope ≡ ok found
      → In c found
      → IsFound selector scope c.login
  unfolding gather
  gather_sound named selector [] found c h m = elim (subst (In c) (sym (ok_inj h)) m) [ ]
  gather_sound named selector (v ∷ rest) found c h m = elim (Result-cases (open_vault v)) [
    | inr (e, o) ↦ elim (Bool-cases named) [
      | inl n ↦ let absurd = (rw (gather, o, n) at h) in ground arith
      | inr n ↦
          widen selector v rest c.login
            (gather_sound named selector rest found c (rw (gather, o, n) at h) m)
    ]
    | inl (opened, o) ↦
        let (more, g, k) =
          >>=-eq-ok (gather J U T O lower open_vault named selector rest) _ (rw (gather, o) at h) in
        elim (In-append (matching J U T O lower open_vault selector v opened) more c
          (subst (In c) (sym (ok_inj k)) m)) [
            | inl here ↦
                let (i, t) = matching_sound selector v opened c here in
                (v, opened, inl refl, o, i, t)
            | inr later ↦
                widen selector v rest c.login (gather_sound named selector rest more c g later)
          ]
  ]

  same :
      (selector : LoginSelector U) (v w : VaultSummary U) (a b : Opened J O)
      → w ≡ v
      → open_vault v ≡ ok a
      → open_vault w ≡ ok b
      → matching J U T O lower open_vault selector w b
        ≡ matching J U T O lower open_vault selector v a
  same selector v w a b e p q = rw (e, ok_inj (sym p ∙ ap open_vault (sym e) ∙ q))

  -- Without a named vault, vaults that do not open are passed over: the search itself never fails.
  gather_unnamed :
      (selector : LoginSelector U) (scope : List (VaultSummary U))
      → (found : List (Candidate U O)) × (gather J U T O lower open_vault false selector scope
          ≡ ok found)
        × ((v : VaultSummary U) (opened : Opened J O) (c : Candidate U O)
            → In v scope
            → open_vault v ≡ ok opened
            → In c (matching J U T O lower open_vault selector v opened)
            → In c found)
  unfolding gather
  gather_unnamed selector [] = ([], refl, λ v opened c i o m. elim i [ ])
  gather_unnamed selector (v ∷ rest) =
      let (more, g, all) = gather_unnamed selector rest in
      elim (Result-cases (open_vault v)) [
        | inl (opened, o) ↦ (
          matching J U T O lower open_vault selector v opened ++ more,
          rw (gather, o, g),
          λ w x c i p m. elim i [
            | inl e ↦ In-append_left c _ more (subst (In c) (same selector v w opened x e o p) m)
            | inr i ↦ In-append_right c _ more (all w x c i p m)
          ],
        )
        | inr (e, o) ↦ (
          more,
          rw (gather, o, g),
          λ w x c i p m. elim i [
            | inl e ↦ let clash = (rw e at p) in ground arith
            | inr i ↦ all w x c i p m
          ],
        )
      ]

  counted : (found : List (Candidate U O)) (c : Candidate U O) → In c found → 1 ≤ length found
  counted [] c m = elim m [ ]
  counted (d ∷ found) c m = omega arith

  -- What a run returns is read from a login that matches, in a vault of the scope that opened; and it is
  -- counted.
  pub run_origin :
      (sync : SyncSnapshot U T) (query : Query U) (located : Located)
      → run J U T O lower open_vault sync query ≡ ok located
      → (scope : List (VaultSummary U)) × (login : Login U) × (key : O.Key) × (resolve_scope J U T O
            lower open_vault sync query.vault
          ≡ ok scope)
        × IsFound query.login scope login
        × (select J U T O lower open_vault login query.field key ≡ ok located.selection)
        × (located.liveness ≡ liveness login)
        × (1 ≤ located.match_count)
  unfolding run
  run_origin sync query located h =
      let (scope, s, h) = >>=-eq-ok (resolve_scope J U T O lower open_vault sync query.vault) _ h in
      let (found, g, h) =
        >>=-eq-ok
          (gather J U T O lower open_vault (not (is_any J U T O lower open_vault query.vault))
            query.login scope)
          _ h in
      let (chosen, r, h) = >>=-eq-ok (ok_or no_such_login (rank found)) _ h in
      let (selection, t, h) =
        >>=-eq-ok (select J U T O lower open_vault chosen.login query.field chosen.protected) _ h in
      let member = rank_sound found chosen (ok_or-eq-ok no_such_login (rank found) chosen r) in
      (
        scope,
        chosen.login,
        chosen.protected,
        s,
        gather_sound _ query.login scope found chosen g member,
        t ∙ ap (λ l. ok l.selection) (ok_inj h),
        ap (λ l. l.liveness) (sym (ok_inj h)),
        subst (λ l. 1 ≤ l.match_count) (ok_inj h) (counted found chosen member),
      )
