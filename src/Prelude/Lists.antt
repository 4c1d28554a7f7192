-- ===== src/Prelude/Lists.antt =====
-- Lists measured by native numbers, and predicates on lists by recursion.
use Prim.Native.Nat.{ℕ, suc, ◌+◌}
use mathlib.Core.Path.{◌≡◌, refl, ap, sym, ◌∙◌}
use mathlib.Core.Logic.{◌⊎◌, inl, inr}
use mathlib.Core.Bool.{Bool, true, false}
use mathlib.Core.Option.{Option, none, some}
use mathlib.Core.List.{List, [], ◌∷◌, ◌++◌, map, filter_map}
use native.Mathlib.Omega.{arith}
use heyl.Prelude.Tests.{if◌then◌else◌, Option-cases}

module _ {ℓ} {A : Type ℓ} where
  abbrev pub length : List A → ℕ
  length [] = 0
  length (x ∷ xs) = suc (length xs)

  abbrev pub get_last? : List A → Option A
  get_last? [] = none
  get_last? (x ∷ []) = some x
  get_last? (x ∷ y ∷ xs) = get_last? (y ∷ xs)

  -- `iter().find(p)`: the first element that passes the test.
  abbrev pub find : (A → Bool) → List A → Option A
  find p [] = none
  find p (x ∷ xs) = if p x then some x else find p xs

  -- `iter().any(p)`.
  abbrev pub any : (A → Bool) → List A → Bool
  any p [] = false
  any p (x ∷ xs) = if p x then true else any p xs

  -- `iter().filter(p)`, by a Boolean test.
  abbrev pub keep : (A → Bool) → List A → List A
  keep p [] = []
  keep p (x ∷ xs) = let rest = keep p xs in if p x then x ∷ rest else rest

  abbrev pub All {κ} : (A → Type κ) → List A → Type κ
  All Q [] = Unit
  All Q (a ∷ rest) = Q a × All Q rest

  All-append {κ} :
      (Q : A → Type κ) (front back : List A) → All Q front → All Q back → All Q (front ++ back)
  All-append Q [] back f b = b
  All-append Q (a ∷ front) back f b = (f.0, All-append Q front back f.1 b)

  pub All-imp {κ μ} :
      {P : A → Type κ} {Q : A → Type μ}
      → ((a : A) → P a → Q a)
      → (xs : List A) → All P xs
      → All Q xs
  All-imp f [] h = tt
  All-imp f (x ∷ xs) h = (f x h.0, All-imp f xs h.1)

  pub length-append : (xs ys : List A) → length (xs ++ ys) ≡ length xs + length ys
  length-append [] ys = omega arith
  length-append (x ∷ xs) ys = omega (arith, length-append xs ys)

  -- Where `find` returns nothing, no element passes the test.
  find-eq-none : (p : A → Bool) (xs : List A) → find p xs ≡ none → All (λ a. p a ≡ false) xs
  find-eq-none p [] h = tt
  find-eq-none p (x ∷ xs) h = ground (arith, find-eq-none p xs)

  keep-All : (p : A → Bool) (xs : List A) → All (λ a. p a ≡ true) (keep p xs)
  keep-All p [] = tt
  keep-All p (x ∷ xs) = ground (arith, keep-All p xs)

module _ {A : Type 0} where
  abbrev pub In : A → List A → Type 0
  In a [] = ⊥
  In a (x ∷ xs) = (a ≡ x) ⊎ In a xs

  pub All-at {κ} : (P : A → Type κ) (xs : List A) → All P xs → (a : A) → In a xs → P a
  All-at P [] h a m = elim m [ ]
  All-at P (x ∷ xs) h a (inl e) = rw e h.0
  All-at P (x ∷ xs) h a (inr m) = All-at P xs h.1 a m

  pub In-append_left : (a : A) (xs ys : List A) → In a xs → In a (xs ++ ys)
  In-append_left a [] ys m = elim m [ ]
  In-append_left a (x ∷ xs) ys (inl e) = inl e
  In-append_left a (x ∷ xs) ys (inr m) = inr (In-append_left a xs ys m)

  pub In-append_right : (a : A) (xs ys : List A) → In a ys → In a (xs ++ ys)
  In-append_right a [] ys m = m
  In-append_right a (x ∷ xs) ys m = inr (In-append_right a xs ys m)

  -- What `find` returns is in the list and passes the test.
  pub find_sound :
      (p : A → Bool) (xs : List A) (a : A) → find p xs ≡ some a → In a xs × (p a ≡ true)
  find_sound p [] a h = ground arith
  find_sound p (x ∷ xs) a h = ground (arith, find_sound p xs a)

  pub In-keep : (p : A → Bool) (xs : List A) (a : A) → In a (keep p xs) → In a xs × (p a ≡ true)
  In-keep p [] a m = elim m [ ]
  In-keep p (x ∷ xs) a m = ground (arith, In-keep p xs a)

module _ {A B : Type 0} (f : A → Option B) where
  -- What `filter_map` keeps comes from an element of the list.
  pub In-filter_map :
      (l : List A) (b : B) → In b (filter_map f l) → (a : A) × In a l × (f a ≡ some b)
  unfolding filter_map
  In-filter_map [] b m = elim m [ ]
  In-filter_map (x ∷ l) b m = elim (Option-cases (f x)) [
    | inl e ↦ let found = In-filter_map l b (rw e at m) in (found.0, inr found.1, found.2)
    | inr (c, e) ↦ elim (rw e at m) [
      | inl h ↦ (x, inl refl, e ∙ ap some (sym h))
      | inr t ↦ let found = In-filter_map l b t in (found.0, inr found.1, found.2)
    ]
  ]

  -- Every element that passes is kept.
  pub filter_map-In : (l : List A) (a : A) (b : B) → In a l → f a ≡ some b → In b (filter_map f l)
  unfolding filter_map
  filter_map-In [] a b m e = elim m [ ]
  filter_map-In (x ∷ l) a b (inl h) e = rw (← h, e) (inl refl)
  filter_map-In (x ∷ l) a b (inr m) e = elim (Option-cases (f x)) [
    | inl n ↦ rw n (filter_map-In l a b m e)
    | inr (c, n) ↦ rw n (inr (filter_map-In l a b m e))
  ]

-- An element of a mapped list is the image of one.
pub In-map :
    {A B : Type 0} (f : A → B) (l : List A) (b : B) → In b (map f l) → (a : A) × In a l × (b ≡ f a)
In-map f [] b m = elim m [ ]
In-map f (x ∷ l) b (inl e) = (x, inl refl, e)
In-map f (x ∷ l) b (inr m) = let found = In-map f l b m in (found.0, inr found.1, found.2)

pub In-append : {A : Type 0} (xs ys : List A) (a : A) → In a (xs ++ ys) → In a xs ⊎ In a ys
In-append [] ys a m = inr m
In-append (x ∷ xs) ys a (inl e) = inl (inl e)
In-append (x ∷ xs) ys a (inr m) = elim (In-append xs ys a m) [ inl i ↦ inl (inr i) | inr i ↦ inr i ]
