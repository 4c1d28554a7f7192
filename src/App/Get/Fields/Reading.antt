-- ===== src/App/Get/Fields/Reading.antt =====
-- A field by its name, and the whole login: what they print of the same login.
use heyl.Prelude.{
  ◌≡◌, ◌≢◌, refl, ap, sym, ◌∙◌, String, Option, none, some, List, [], ◌∷◌, arith, eq_iff, subst,
}
use heyl.Prelude.Results.{ok_inj, Result, ok, err, ◌>>=◌, >>=-eq-ok}
use heyl.Domain.Ids.{Uuids}
use heyl.Vault.Login.{or_blank, Login, CustomField, Protected}
use heyl.App.Error.{AppError}
use heyl.App.Get.Fields.{
  Opener, LoginView, join, non_empty, open_value, open_password, resolve, builtin, or_custom,
  field_by_name, view, view_password, resolve_all,
}

or_blank-non_empty : (s : String) → or_blank (non_empty s) ≡ s
unfolding non_empty
or_blank-non_empty s = ground (arith, eq_iff s "")

module _ (U : Uuids) (O : Opener) where
  -- A name that picks a built-in field reads the same whatever the custom fields are.
  field_by_name-builtin :
      (login : Login U) (custom : List (CustomField U)) (name : String) (key : O.Key)
      → builtin U O login name key ≢ ok none
      → field_by_name U O (record login { custom_fields = custom }) name key
        ≡ field_by_name U O login name key
  unfolding field_by_name builtin or_custom
  field_by_name-builtin login custom name key h = by_builtin (builtin U O login name key) h
    where
      by_builtin :
          (r : Result (AppError U) (Option String))
          → r ≢ ok none
          → (r >>= or_custom U O (record login { custom_fields = custom }) name key)
            ≡ (r >>= or_custom U O login name key)
      by_builtin (err e) h = refl
      by_builtin (ok none) h = elim (h refl) [ ]
      by_builtin (ok (some v)) h = refl

  password_agrees :
      (key : O.Key) (stored : Option Protected) (shown : Option String)
      → view_password U O key stored ≡ ok shown
      → open_password U O key stored ≡ ok (or_blank shown)
  unfolding view_password open_password
  password_agrees key none shown h = ground arith
  password_agrees key (some p) shown h =
      let (v, e, f) = >>=-eq-ok (open_value U O key p) (λ v. ok (non_empty v)) h in
      e ∙ ap ok (sym (or_blank-non_empty v) ∙ ap or_blank (ok_inj f))

  -- The custom fields in order, each under its name and with its value opened.
  abbrev pub AreOpened : O.Key → List (CustomField U) → List (String × String) → Type 0
  AreOpened key [] [] = Unit
  AreOpened key (field ∷ fields) (p ∷ custom) =
      (p.0 ≡ field.name) × (resolve U O field.value key ≡ ok p.1) × AreOpened key fields custom
  AreOpened key _ _ = ⊥

  resolve_all-AreOpened :
      (key : O.Key) (fields : List (CustomField U)) (custom : List (String × String))
      → resolve_all U O fields key ≡ ok custom
      → AreOpened key fields custom
  unfolding resolve_all
  resolve_all-AreOpened key [] custom h = subst (AreOpened key []) (ok_inj h) tt
  resolve_all-AreOpened key (field ∷ fields) custom h =
      let (v, e, f) = >>=-eq-ok (resolve U O field.value key) _ h in
      let (rest, g, k) = >>=-eq-ok (resolve_all U O fields key) _ f in
      subst (AreOpened key (field ∷ fields)) (ok_inj k)
        (refl, e, resolve_all-AreOpened key fields rest g)

  -- The whole login shows what the names of the ten built-in fields read one by one, the opened password
  -- included, and the custom fields in the stored order, each under its name and with its value opened.
  pub view-field_by_name :
      (login : Login U) (key : O.Key) (shown : LoginView)
      → view U O login key ≡ ok shown
      → (field_by_name U O login "id" key ≡ ok shown.id)
        × (field_by_name U O login "name" key ≡ ok (or_blank shown.name))
        × (field_by_name U O login "title" key ≡ ok (or_blank shown.title))
        × (field_by_name U O login "username" key ≡ ok (or_blank shown.username))
        × (field_by_name U O login "note" key ≡ ok (or_blank shown.note))
        × (field_by_name U O login "password" key ≡ ok (or_blank shown.password))
        × (field_by_name U O login "website" key ≡ ok (join shown.websites))
        × (field_by_name U O login "labels" key ≡ ok (join shown.labels))
        × (field_by_name U O login "created" key ≡ ok (or_blank shown.created))
        × (field_by_name U O login "edited" key ≡ ok (or_blank shown.edited))
        × AreOpened key login.custom_fields shown.custom
  unfolding view field_by_name builtin or_custom
  view-field_by_name login key shown h =
      let (password, p, f) = >>=-eq-ok (view_password U O key login.password) _ h in
      let (custom, c, g) = >>=-eq-ok (resolve_all U O login.custom_fields key) _ f in
      rw (← ok_inj g) (
        refl,
        refl,
        ap ok (sym (or_blank-non_empty login.title)),
        ap ok (sym (or_blank-non_empty login.username)),
        ap ok (sym (or_blank-non_empty login.note)),
        rw (password_agrees key login.password password p),
        refl,
        refl,
        refl,
        refl,
        resolve_all-AreOpened key login.custom_fields custom c,
      )
