-- ===== src/App/Get/Query/Flags.antt =====
-- What the flags of `get` mean, and how a bad combination fails.
use heyl.Prelude.{◌≡◌, refl, String, Option, none, some, arith, ◌⊎◌, inl, inr}
use heyl.Prelude.Results.{
  Result, ok, err, ◌>>=◌, >>=-eq-ok, >>=-eq-err, map_err-eq-err, map_err-eq-ok,
}
use heyl.Domain.Ids.{Uuids, LoginId, IdKind, TypedId, parse}
use heyl.App.Error.{AppError, exit_code, invalid, malformed_selector}
use heyl.App.Get.Query.{
  Query, vault_id, LoginSelector, login_name, login_id, field_id, flag_id, vault_selector,
  login_selector, field_selector, from_flags,
}

module _ (U : Uuids) where
  flag_invalid :
      {k : IdKind} {A : Type 0} (what s : String) (wrap : TypedId U k → A) (e : AppError U)
      → (flag_id U {k = k} what s >>= λ found. ok (wrap found)) ≡ err e
      → exit_code e ≡ invalid
  unfolding flag_id exit_code
  flag_invalid {k} what s wrap e h =
      elim (>>=-eq-err (flag_id U {k = k} what s) (λ found. ok (wrap found)) h) [
        | inl f ↦
            let (x, p) = map_err-eq-err (λ _. malformed_selector what) (parse U {k = k} s) f in rw p
        | inr (v, p, q) ↦ ground arith
      ]

  vault_selector_invalid :
      (a b : Option String) (e : AppError U) → vault_selector U a b ≡ err e → exit_code e ≡ invalid
  unfolding vault_selector exit_code
  vault_selector_invalid (some a) (some b) e h = ground arith
  vault_selector_invalid (some a) none e h = ground arith
  vault_selector_invalid none (some b) e h = flag_invalid "--vault-id" b vault_id e h
  vault_selector_invalid none none e h = ground arith

  login_selector_invalid :
      (a b : Option String) (e : AppError U) → login_selector U a b ≡ err e → exit_code e ≡ invalid
  unfolding login_selector exit_code
  login_selector_invalid (some a) (some b) e h = ground arith
  login_selector_invalid (some a) none e h = ground arith
  login_selector_invalid none (some b) e h = flag_invalid "--login-id" b login_id e h
  login_selector_invalid none none e h = ground arith

  field_selector_invalid :
      (a b : Option String) (e : AppError U) → field_selector U a b ≡ err e → exit_code e ≡ invalid
  unfolding field_selector exit_code
  field_selector_invalid (some a) (some b) e h = ground arith
  field_selector_invalid (some a) none e h = ground arith
  field_selector_invalid none (some b) e h = flag_invalid "--field-id" b field_id e h
  field_selector_invalid none none e h = ground arith

  login_selector-ok :
      (title id : Option String) (login : LoginSelector U)
      → login_selector U title id ≡ ok login
      → ((t : String) × (title ≡ some t) × (id ≡ none) × (login ≡ login_name t))
        ⊎ ((s : String) × (found : LoginId U) × (title ≡ none)
            × (id ≡ some s)
            × (parse U s ≡ ok found)
            × (login ≡ login_id found))
  unfolding login_selector flag_id
  login_selector-ok (some t) (some s) login h = ground arith
  login_selector-ok (some t) none login h = inl (t, refl, refl, ground arith)
  login_selector-ok none (some s) login h =
      let (found, p, q) = >>=-eq-ok (flag_id U "--login-id" s) (λ found. ok (login_id found)) h in
      inr (
        s,
        found,
        refl,
        refl,
        map_err-eq-ok (λ _. malformed_selector "--login-id") (parse U s) p,
        ground arith,
      )
  login_selector-ok none none login h = ground arith

  ok_inj : {a b : Query U} → ◌≡◌ {A = Result (AppError U) (Query U)} (ok a) (ok b) → a ≡ b
  ok_inj h = cc

  -- Flags that make no query are an invalid value, whatever is wrong with them.
  from_flags_invalid :
      (v_name v_id l_title l_id f_name f_id : Option String) (e : AppError U)
      → from_flags U v_name v_id l_title l_id f_name f_id ≡ err e
      → exit_code e ≡ invalid
  unfolding from_flags
  from_flags_invalid v_name v_id l_title l_id f_name f_id e h =
      elim (>>=-eq-err (vault_selector U v_name v_id) _ h) [
        | inl f ↦ vault_selector_invalid v_name v_id e f
        | inr (_, _, k) ↦ elim (>>=-eq-err (login_selector U l_title l_id) _ k) [
          | inl f ↦ login_selector_invalid l_title l_id e f
          | inr (_, _, m) ↦ elim (>>=-eq-err (field_selector U f_name f_id) _ m) [
            | inl f ↦ field_selector_invalid f_name f_id e f
            | inr (_, _, n) ↦ ground arith
          ]
        ]
      ]

  -- A query has exactly one login flag behind it: the title as it was typed, or an identifier that
  -- parses.
  from_flags_login :
      (v_name v_id l_title l_id f_name f_id : Option String) (query : Query U)
      → from_flags U v_name v_id l_title l_id f_name f_id ≡ ok query
      → ((t : String) × (l_title ≡ some t) × (l_id ≡ none) × (query.login ≡ login_name t))
        ⊎ ((s : String) × (found : LoginId U) × (l_title ≡ none)
            × (l_id ≡ some s)
            × (parse U s ≡ ok found)
            × (query.login ≡ login_id found))
  unfolding from_flags
  from_flags_login v_name v_id l_title l_id f_name f_id query h =
      let (vault, _, k) = >>=-eq-ok (vault_selector U v_name v_id) _ h in
      let (login, chosen, m) = >>=-eq-ok (login_selector U l_title l_id) _ k in
      let (field, _, n) = >>=-eq-ok (field_selector U f_name f_id) _ m in
      rw (← ok_inj n) (login_selector-ok l_title l_id login chosen)
