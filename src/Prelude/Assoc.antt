-- ===== src/Prelude/Assoc.antt =====
-- Association lists with texts for keys, in insertion order.
use Prim.Native.String.{String}
use mathlib.Core.Path.{◌≡◌, refl, sym, ap, ◌∙◌}
use mathlib.Core.Logic.{inl, inr}
use mathlib.Core.Option.{Option, none, some}
use mathlib.Core.List.{List, [], ◌∷◌}
use native.Mathlib.Omega.{arith}
use text.Mathlib.Text.{◌==◌}
use text.Mathlib.TextEquality.{eq_iff}
use text.Mathlib.TextPositions.{eq_refl}
use heyl.Prelude.Tests.{if◌then◌else◌}
use heyl.Prelude.Lists.{In}

module _ {ℓ} {V : Type ℓ} where
  abbrev pub lookup : String → List (String × V) → Option V
  lookup k [] = none
  lookup k ((j, v) ∷ l) = if j == k then some v else lookup k l

  -- Writes at a key: in place where the key is there, at the end where it is not.
  abbrev pub upsert : String → V → List (String × V) → List (String × V)
  upsert k v [] = (k, v) ∷ []
  upsert k v ((j, w) ∷ l) = if j == k then (j, v) ∷ l else (j, w) ∷ upsert k v l

  -- No key stands twice.
  abbrev pub HasUniqueKeys : List (String × V) → Type ℓ
  HasUniqueKeys [] = Unit
  HasUniqueKeys ((k, v) ∷ l) = (lookup k l ≡ none) × HasUniqueKeys l

  pub lookup-upsert :
      (k j : String) (v : V) (l : List (String × V))
      → lookup j (upsert k v l) ≡ (if k == j then some v else lookup j l)
  lookup-upsert k j v [] = refl
  lookup-upsert k j v ((i, w) ∷ l) =
      ground (arith, eq_iff k j, eq_iff i k, eq_iff i j, lookup-upsert k j v l)

  pub upsert-HasUniqueKeys :
      (k : String) (v : V) (l : List (String × V)) → HasUniqueKeys l → HasUniqueKeys (upsert k v l)
  upsert-HasUniqueKeys k v [] u = (refl, tt)
  upsert-HasUniqueKeys k v ((j, w) ∷ l) u =
      ground (arith, upsert-HasUniqueKeys k v l, lookup-upsert k j v l, eq_iff j k, eq_iff k j)

module _ {ℓ} {V : Type ℓ} where
  -- Every entry but those of a key.
  abbrev pub without : String → List (String × V) → List (String × V)
  without gone [] = []
  without gone ((key, v) ∷ rest) =
      let others = without gone rest in if key == gone then others else (key, v) ∷ others

  -- The first entry of each key.
  abbrev pub dedup : List (String × V) → List (String × V)
  dedup [] = []
  dedup ((k, v) ∷ l) = (k, v) ∷ without k (dedup l)

  pub lookup-without :
      (gone key : String) (entries : List (String × V))
      → lookup key (without gone entries) ≡ (if gone == key then none else lookup key entries)
  lookup-without gone key [] = ground arith
  lookup-without gone key ((other, v) ∷ entries) =
      ground (
        arith,
        lookup-without gone key entries,
        eq_iff other gone,
        eq_iff other key,
        eq_iff gone key,
      )

  pub without-HasUniqueKeys :
      (k : String) (l : List (String × V)) → HasUniqueKeys l → HasUniqueKeys (without k l)
  without-HasUniqueKeys k [] u = tt
  without-HasUniqueKeys k ((j, v) ∷ l) u =
      ground (arith, without-HasUniqueKeys k l, lookup-without k j l, eq_iff k j)

  pub dedup-HasUniqueKeys : (l : List (String × V)) → HasUniqueKeys (dedup l)
  dedup-HasUniqueKeys [] = tt
  dedup-HasUniqueKeys ((k, v) ∷ l) = (
    lookup-without k k (dedup l) ∙ rw eq_refl,
    without-HasUniqueKeys k (dedup l) (dedup-HasUniqueKeys l),
  )

  without_absent : (k : String) (l : List (String × V)) → lookup k l ≡ none → without k l ≡ l
  without_absent k [] h = refl
  without_absent k ((j, v) ∷ l) h = ground (arith, without_absent k l)

  pub dedup_unique : (l : List (String × V)) → HasUniqueKeys l → dedup l ≡ l
  dedup_unique [] u = refl
  dedup_unique ((k, v) ∷ l) u = rw (dedup_unique l u.1, without_absent k l u.0)

-- An entry of a list with unique keys is what `lookup` finds.
pub lookup-eq-some_of_In :
    {V : Type 0} (k : String) (v : V) (l : List (String × V))
    → HasUniqueKeys l
    → In (k, v) l
    → lookup k l ≡ some v
lookup-eq-some_of_In k v [] u m = elim m [ ]
lookup-eq-some_of_In k v ((j, w) ∷ l) u (inl e) =
    rw ((eq_iff j k).1 (sym (ap (λ (x : String × _). x.0) e)))
      (ap some (sym (ap (λ (x : String × _). x.1) e)))
lookup-eq-some_of_In k v ((j, w) ∷ l) u (inr m) =
    ground (arith, lookup-eq-some_of_In k v l u.1 m, eq_iff j k)

-- What `lookup` finds is an entry of the list.
pub lookup_sound :
    {V : Type 0} (k : String) (v : V) (l : List (String × V)) → lookup k l ≡ some v → In (k, v) l
lookup_sound k v [] h = cc
lookup_sound k v ((j, w) ∷ l) h = ground (arith, lookup_sound k v l, eq_iff j k)
