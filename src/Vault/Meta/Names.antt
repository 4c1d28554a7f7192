-- ===== src/Vault/Meta/Names.antt =====
-- Naming a new device: the loop ends, and the name that it ends with is free.
use heyl.Prelude.{
  ℕ, zero, suc, ◌+◌, ◌%◌, ◌≤◌, ◌<◌, ◌≡◌, ◌≢◌, subst, refl, sym, ap, ◌∙◌, String, true, false,
  Option, none, some, List, [], ◌∷◌, arith, In, any, length, ◌==◌, eq_iff, if◌then◌else◌, inl, inr,
  Option-cases,
}
use heyl.Prelude.Decimal.{print, print_inj}
use heyl.Prelude.Trim.{strip_suffix, strip_suffix-append}
use heyl.Json.{Json}
use heyl.Domain.Ids.{Uuids, SessionId}
use heyl.Domain.Time.{Jiff}
use heyl.Domain.Session.{SessionMetadata}
use heyl.Vault.Document.{Document}
use heyl.Vault.Meta.{numbered, disambiguate_from, disambiguate, taken_names}
use native.Mathlib.Numerals.{unary_clauses}
use text.Mathlib.TextLemmas.{append_inj}

-- A list without one occurrence of a text.
drop_one : String → List String → List String
drop_one x [] = []
drop_one x (y ∷ ys) = let rest = drop_one x ys in if y == x then ys else y ∷ rest

length-drop_one :
    (x : String) (ys : List String) → In x ys → length ys ≡ suc (length (drop_one x ys))
unfolding drop_one
length-drop_one x [] m = elim m [ ]
length-drop_one x (y ∷ ys) m = ground (arith, eq_iff y x, length-drop_one x ys)

drop_one-In : (x z : String) (ys : List String) → z ≢ x → In z ys → In z (drop_one x ys)
unfolding drop_one
drop_one-In x z [] d m = elim m [ ]
drop_one-In x z (y ∷ ys) d m = ground (arith, eq_iff y x, drop_one-In x z ys d)

module _ (name : ℕ → String) where
  -- Different numbers up to a bound, all with names in a list, are no more than the list is long.
  pigeonhole :
      (bound : ℕ)
      → ((i j : ℕ) → i < bound → j < bound → name i ≡ name j → i ≡ j)
      → (n : ℕ) (ys : List String) → n ≤ bound
      → ((i : ℕ) → i < n → In (name i) ys)
      → n ≤ length ys
  pigeonhole bound inj zero ys l h = omega arith
  pigeonhole bound inj (suc n) ys l h = omega (
    arith,
    length-drop_one (name n) ys (h n (omega arith)),
    pigeonhole bound inj n (drop_one (name n) ys) (omega arith) (λ i i<n.
        drop_one-In (name n) (name i) ys (λ e. omega (arith, inj i n (omega arith) (omega arith) e))
          (h i (omega arith))),
  )

any_sound : (x : String) (l : List String) → any (λ used. used == x) l ≡ true → In x l
any_sound x [] h = cc
any_sound x (y ∷ l) h = ground (arith, eq_iff y x, any_sound x l)

any_of_In : (x : String) (l : List String) → In x l → any (λ used. used == x) l ≡ true
any_of_In x [] m = elim m [ ]
any_of_In x (y ∷ l) m = ground (arith, eq_iff y x, any_of_In x l)

numbered_inj : (d : String) (i j : ℕ) → numbered d i ≡ numbered d j → i ≡ j
unfolding numbered
numbered_inj d i j e =
    let tails = (append_inj {s₁ = d} {s₂ = d} e refl).1 in
    let bodies = (append_inj {s₁ = " ("} {s₂ = " ("} tails refl).1 in
    print_inj i j (
      some_inj (
        sym (strip_suffix-append b')' (print i) ")")
        ∙ ap (strip_suffix b')') bodies
        ∙ strip_suffix-append b')' (print j) ")"))
  where
    some_inj : {a b : String} → some a ≡ some b → a ≡ b
    some_inj h = cc

wraps_not : (n : ℕ) → suc n < 4294967296 → (n + 1) % 4294967296 ≡ suc n
wraps_not n l = omega arith

module _ (d : String) (taken : List String) where
  candidate_taken :
      (fuel counter : ℕ) (candidate : String)
      → disambiguate_from d taken fuel counter candidate ≡ none
      → In candidate taken
  unfolding disambiguate_from
  candidate_taken zero counter candidate h = ground (arith, any_sound candidate taken)
  candidate_taken (suc fuel) counter candidate h = ground (arith, any_sound candidate taken)

  -- Where the fuel runs out, every candidate was taken.
  taken_of_none :
      (fuel counter : ℕ) (candidate : String)
      → counter + fuel < 4294967296
      → disambiguate_from d taken fuel counter candidate ≡ none
      → (i : ℕ) → i < fuel
      → In (numbered d (suc (counter + i))) taken
  unfolding disambiguate_from
  taken_of_none zero counter candidate l h i i<fuel = ground arith
  taken_of_none (suc fuel) counter candidate l h i i<fuel =
      let next =
        disambiguate_from d taken fuel ((counter + 1) % 4294967296)
          (numbered d ((counter + 1) % 4294967296)) in
      let stuck : next ≡ none = ground arith in
      let stuck = rw (wraps_not counter (omega arith)) at stuck in
      by_index i i<fuel stuck
        (taken_of_none fuel (suc counter) (numbered d (suc counter)) (omega arith) stuck)
    where
      by_index :
          (i : ℕ)
          → i < suc fuel
          → disambiguate_from d taken fuel (suc counter) (numbered d (suc counter)) ≡ none
          → ((i : ℕ) → i < fuel → In (numbered d (suc (suc counter + i))) taken)
          → In (numbered d (suc (counter + i))) taken
      by_index zero i<fuel h later = simp unary_clauses (candidate_taken fuel (suc counter) _ h)
      by_index (suc i) i<fuel h later =
          subst (λ n. In (numbered d (suc n)) taken) (omega arith) (later i (omega arith))

  fresh_of_some :
      (fuel counter : ℕ) (candidate name : String)
      → disambiguate_from d taken fuel counter candidate ≡ some name
      → any (λ used. used == name) taken ≡ false
  unfolding disambiguate_from
  fresh_of_some zero counter candidate name h = ground arith
  fresh_of_some (suc fuel) counter candidate name h = ground (
    arith,
    fresh_of_some fuel ((counter + 1) % 4294967296) (numbered d ((counter + 1) % 4294967296)) name,
  )

  loop_ends : length taken < 4294967294 → disambiguate_from d taken (suc (length taken)) 1 d ≢ none
  loop_ends l h = omega (
    arith,
    pigeonhole (λ i. numbered d (suc (1 + i))) 4294967296
        (λ i j _ _ e. omega (arith, numbered_inj d _ _ e)) (suc (length taken)) taken (omega arith)
        (taken_of_none (suc (length taken)) 1 d (omega arith) h),
  )

  first_free :
      (name : String)
      → disambiguate_from d taken (suc (length taken)) 1 d ≡ some name
      → ¬ In d taken
      → name ≡ d
  unfolding disambiguate_from
  first_free name h f = ground (arith, any_sound d taken)

  loop_fresh :
      length taken < 4294967294
      → (name : String) × (disambiguate_from d taken (suc (length taken)) 1 d ≡ some name)
        × ¬ In name taken
        × (¬ In d taken → name ≡ d)
  loop_fresh l = elim (Option-cases (disambiguate_from d taken (suc (length taken)) 1 d)) [
    | inl e ↦ elim (loop_ends l e) [ ]
    | inr (name, e) ↦ (
      name,
      e,
      λ m. ground (arith, fresh_of_some _ _ _ name e, any_of_In name taken m),
      first_free name e,
    )
  ]

module _ (J : Json) (U : Uuids) (T : Jiff) (from_seq : J.Value → Option (SessionMetadata U T)) where
  -- With fewer than 2^32 - 2 names taken, the loop ends with a name that no live device has, and with
  -- the description itself where that is free.
  pub disambiguate_fresh :
      (description : String) (document : Document J) (live : List (SessionId U))
      → length (taken_names J U T from_seq document live) < 4294967294
      → (name : String) × (disambiguate J U T from_seq description document live ≡ some name)
        × ¬ In name (taken_names J U T from_seq document live)
        × (¬ In description (taken_names J U T from_seq document live) → name ≡ description)
  unfolding disambiguate
  disambiguate_fresh description document live l =
      loop_fresh description (taken_names J U T from_seq document live) l
