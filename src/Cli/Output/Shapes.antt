-- ===== src/Cli/Output/Shapes.antt =====
-- crates/heyl-cli/src/output.rs: what a JSON document holds, described apart from the code that builds it.
use heyl.Prelude.{
  ◌≡◌, ◌∙◌, refl, ap, ℕ, String, Bool, Option, none, some, List, [], ◌∷◌, map, upsert, Bool-cases,
  inl, inr, ◌==◌,
}
use heyl.Json.{Json}
use heyl.Cli.Output.{json_object, insert_all, map_some, or_null}

-- `l` with each of the entries written, the first one first.
abbrev pub written {ℓ} : {V : Type ℓ} → List (String × V) → List (String × V) → List (String × V)
written l [] = l
written l ((k, v) ∷ entries) = written (upsert k v l) entries

module _ (J : Json) where
  -- What a value has to be.
  abbrev pub Shape : Type 1
  Shape = J.Value → Type 0

  abbrev pub Text : String → Shape
  Text s v = v ≡ J.string s

  abbrev pub Count : ℕ → Shape
  Count n v = v ≡ J.number n

  abbrev pub Flag : Bool → Shape
  Flag b v = v ≡ J.boolean b

  abbrev pub Null : Shape
  Null v = v ≡ J.null

  abbrev pub OrNull : {A : Type 0} → (A → Shape) → Option A → Shape
  OrNull Fits none = Null
  OrNull Fits (some a) = Fits a

  -- The entries are these members, in this order, and no others.
  abbrev pub Entries : List (String × Shape) → List (String × J.Value) → Type 0
  Entries [] [] = Unit
  Entries ((k, Fits) ∷ shapes) ((j, v) ∷ entries) = (j ≡ k) × Fits v × Entries shapes entries
  Entries _ _ = ⊥

  -- An object with these members, in this order, and no others.
  abbrev pub Members : List (String × Shape) → Shape
  Members shapes v = (m : J.Map) × (v ≡ J.object m) × Entries shapes (J.entries m)

  abbrev pub Each : List Shape → List J.Value → Type 0
  Each [] [] = Unit
  Each (Fits ∷ shapes) (v ∷ values) = Fits v × Each shapes values
  Each _ _ = ⊥

  -- An array of these items, in this order.
  abbrev pub Items : List Shape → Shape
  Items shapes v = (values : List J.Value) × (v ≡ J.array values) × Each shapes values

  pub map-Each :
      {A : Type 0} (shape : A → Shape) (document : A → J.Value)
      → ((a : A) → shape a (document a))
      → (l : List A) → Each (map shape l) (map document l)
  map-Each shape document fits [] = tt
  map-Each shape document fits (a ∷ l) = (fits a, map-Each shape document fits l)

  pub map-Entries :
      {A : Type 0} (key : A → String) (shape : A → Shape) (document : A → J.Value)
      → ((a : A) → shape a (document a))
      → (l : List A) → Entries (map (λ a. (key a, shape a)) l) (map (λ a. (key a, document a)) l)
  map-Entries key shape document fits [] = tt
  map-Entries key shape document fits (a ∷ l) =
      (refl, fits a, map-Entries key shape document fits l)

  pub or_null-OrNull :
      {A : Type 0} (shape : A → Shape) (document : A → J.Value)
      → ((a : A) → shape a (document a))
      → (o : Option A) → OrNull shape o (or_null J (map_some document o))
  unfolding or_null map_some
  or_null-OrNull shape document fits none = refl
  or_null-OrNull shape document fits (some a) = fits a

  upsert-Entries :
      (k : String) (Fits : Shape) (v : J.Value) (shapes : List (String × Shape))
      (entries : List (String × J.Value))
      → Fits v
      → Entries shapes entries
      → Entries (upsert k Fits shapes) (upsert k v entries)
  upsert-Entries k Fits v [] [] fits h = (refl, fits, tt)
  upsert-Entries k Fits v [] (_ ∷ entries) fits h = elim h [ ]
  upsert-Entries k Fits v ((i, Other) ∷ shapes) [] fits h = elim h [ ]
  upsert-Entries k Fits v ((i, Other) ∷ shapes) ((j, w) ∷ entries) fits (same, other, rest) =
      elim (Bool-cases (i == k)) [
        | inl e ↦ rw (same, e) (refl, fits, rest)
        | inr e ↦ rw (same, e) (refl, other, upsert-Entries k Fits v shapes entries fits rest)
      ]

  written-Entries :
      (shapes more : List (String × Shape)) (entries rest : List (String × J.Value))
      → Entries shapes entries
      → Entries more rest
      → Entries (written shapes more) (written entries rest)
  written-Entries shapes [] entries [] h g = h
  written-Entries shapes [] entries (_ ∷ rest) h g = elim g [ ]
  written-Entries shapes ((k, Fits) ∷ more) entries [] h g = elim g [ ]
  written-Entries shapes ((k, Fits) ∷ more) entries ((j, v) ∷ rest) h (same, fits, g) = rw same (
      written-Entries (upsert k Fits shapes) more (upsert k v entries) rest
        (upsert-Entries k Fits v shapes entries fits h) g)

  entries-insert_all :
      (m : J.Map) (entries : List (String × J.Value))
      → J.entries (insert_all J m entries) ≡ written (J.entries m) entries
  unfolding insert_all
  entries-insert_all m [] = refl
  entries-insert_all m ((k, v) ∷ entries) =
      entries-insert_all (J.insert m k v) entries
      ∙ ap (λ l. written l entries) (J.entries-insert m k v)

  -- The object of a list of entries: where a key stands twice its last value counts.
  pub json_object-Members :
      (shapes : List (String × Shape)) (entries : List (String × J.Value))
      → Entries shapes entries
      → Members (written [] shapes) (json_object J entries)
  unfolding json_object
  json_object-Members shapes entries h = (
    insert_all J J.new entries,
    refl,
    rw (entries-insert_all J.new entries, J.entries-new)
        (written-Entries [] shapes [] entries tt h),
  )
