-- ===== src/Prelude/Order.antt =====
-- Comparators of Rust's `sort_by`: orders, their lexicographic chains, and the first of a stable sort.
use Prim.Native.Nat.{Ordering, compare as compare_ℕ}
use Prim.Native.Nat.Ordering.{lt, eq, gt}
use Prim.Native.String.{compare}
use mathlib.Core.Path.{◌≡◌, subst, refl, sym}
use mathlib.Core.Logic.{inl, inr, ◌⊎◌}
use mathlib.Core.Bool.{Bool, true, false}
use mathlib.Core.Option.{Option, none, some}
use mathlib.Core.List.{List, [], ◌∷◌}
use native.Mathlib.Omega.{arith}
use heyl.Prelude.Text.{flip, flip-compare, TextLe-trans}
use heyl.Prelude.Lists.{In, All, All-imp}

abbrev pub is_gt : Ordering → Bool
is_gt gt = true
is_gt _ = false

-- `Ordering::then`.
abbrev pub or_then : Ordering → Ordering → Ordering
or_then eq next = next
or_then lt next = lt
or_then gt next = gt

-- A comparator that orders: it turns round when its arguments do, and its "not greater" is transitive.
pub record IsOrder {A : Type 0} (cmp : A → A → Ordering) : Type 0 where
  turns : (a b : A) → cmp b a ≡ flip (cmp a b)
  chains : (a b c : A) → is_gt (cmp a b) ≡ false → is_gt (cmp b c) ≡ false → is_gt (cmp a c) ≡ false

pub compare_ℕ-IsOrder : IsOrder compare_ℕ
compare_ℕ-IsOrder = record { turns = λ a b. ground arith; chains = λ a b c h k. ground arith }

pub compare-IsOrder : IsOrder compare
compare-IsOrder = record {
  turns = flip-compare;
  chains = λ a b c h k.
      ground (arith, flip-compare a b, flip-compare b c, flip-compare a c, TextLe-trans a b c);
}

pub reversed-IsOrder : {A : Type 0} (f : A → A → Ordering) → IsOrder f → IsOrder (λ a b. f b a)
reversed-IsOrder f o = record {
  turns = λ a b. o.turns b a;
  chains = λ a b c h k. o.chains c b a k h;
}

module _ {A : Type 0} (f g : A → A → Ordering) where
  pub or_then-IsOrder : IsOrder f → IsOrder g → IsOrder (λ a b. or_then (f a b) (g a b))
  or_then-IsOrder o p = record {
    turns = λ a b. rw (o.turns a b, p.turns a b) (flip-or_then (f a b) (g a b));
    chains = λ a b c h k. ground (
      arith,
      o.turns a b,
      o.turns b c,
      o.turns a c,
      o.chains a b c,
      o.chains b c a,
      o.chains c a b,
      p.chains a b c,
    );
  }
    where
      flip-or_then : (x y : Ordering) → or_then (flip x) (flip y) ≡ flip (or_then x y)
      flip-or_then lt y = refl
      flip-or_then eq y = refl
      flip-or_then gt y = refl

pub on-IsOrder :
    {A B : Type 0} (key : A → B) (cmp : B → B → Ordering)
    → IsOrder cmp
    → IsOrder (λ a b. cmp (key a) (key b))
on-IsOrder key cmp o = record {
  turns = λ a b. o.turns (key a) (key b);
  chains = λ a b c. o.chains (key a) (key b) (key c);
}

abbrev pub first_of {ℓ} : {A : Type ℓ} → List A → Option A
first_of [] = none
first_of (x ∷ l) = some x

module _ {A : Type 0} (cmp : A → A → Ordering) where
  -- Puts an element before the first one that it is not greater than.
  abbrev pub insert_by : A → List A → List A
  insert_by x [] = x ∷ []
  insert_by x (y ∷ l) = let rest = insert_by x l in elim (cmp x y) [ gt ↦ y ∷ rest | _ ↦ x ∷ y ∷ l ]

  -- `slice::sort_by`, which keeps the order of equal elements.
  abbrev pub sort_by : List A → List A
  sort_by [] = []
  sort_by (x ∷ l) = insert_by x (sort_by l)

  pub first_of-sort_by-some : (x : A) (l : List A) → (a : A) × (first_of (sort_by (x ∷ l)) ≡ some a)
  first_of-sort_by-some x l = inserted (sort_by l)
    where
      inserted : (s : List A) → (a : A) × (first_of (insert_by x s) ≡ some a)
      inserted [] = (x, refl)
      inserted (y ∷ s) = by_order (cmp x y)
        where
          by_order :
              (o : Ordering)
              → (a : A) × (first_of (elim o [ gt ↦ y ∷ insert_by x s | _ ↦ x ∷ y ∷ s ]) ≡ some a)
          by_order lt = (x, refl)
          by_order eq = (x, refl)
          by_order gt = (y, refl)

  -- The first element after an insertion: the one put in, or the first that was there.
  first_of-insert_by :
      (x : A) (s : List A) (a : A)
      → first_of (insert_by x s) ≡ some a
      → ((a ≡ x) × ((y : A) → first_of s ≡ some y → is_gt (cmp x y) ≡ false))
        ⊎ ((first_of s ≡ some a) × (is_gt (cmp x a) ≡ true))
  first_of-insert_by x [] a h = ground arith
  first_of-insert_by x (y ∷ s) a h = ground arith

  at_most-All :
      IsOrder cmp
      → (x y : A) (l : List A) → is_gt (cmp x y) ≡ false
      → All (λ b. is_gt (cmp y b) ≡ false) l
      → All (λ b. is_gt (cmp x b) ≡ false) l
  at_most-All o x y l h = All-imp (λ b k. o.chains x y b h k) l

  turned : IsOrder cmp → (x y : A) → is_gt (cmp x y) ≡ true → is_gt (cmp y x) ≡ false
  turned o x y h = ground (arith, o.turns x y)

  same : IsOrder cmp → (x : A) → is_gt (cmp x x) ≡ false
  same o x = ground (arith, o.turns x x)

  -- The first element of the sorted list is one of the list, and is greater than none of it.
  pub first_of-sort_by :
      IsOrder cmp
      → (l : List A) (a : A) → first_of (sort_by l) ≡ some a
      → In a l × All (λ b. is_gt (cmp a b) ≡ false) l
  first_of-sort_by o [] a h = ground arith
  first_of-sort_by o (x ∷ []) a h = ground (arith, same o x)
  first_of-sort_by o (x ∷ z ∷ l) a h = elim (first_of-insert_by x (sort_by (z ∷ l)) a h) [
    | inl (e, below) ↦
        let (y, f) = first_of-sort_by-some z l in
        let rest = first_of-sort_by o (z ∷ l) y f in
        (
          inl e,
          subst (λ b. All (λ c. is_gt (cmp b c) ≡ false) (x ∷ z ∷ l)) (sym e)
              (same o x, at_most-All o x y (z ∷ l) (below y f) rest.1),
        )
    | inr (f, above) ↦
        let rest = first_of-sort_by o (z ∷ l) a f in (inr rest.0, (turned o x a above, rest.1))
  ]

  insert_by_sound : (x : A) (s : List A) (a : A) → In a (insert_by x s) → (a ≡ x) ⊎ In a s
  insert_by_sound x [] a m = ground arith
  insert_by_sound x (y ∷ s) a m = ground (arith, insert_by_sound x s a)

  -- Sorting adds nothing.
  pub sort_by_sound : (l : List A) (a : A) → In a (sort_by l) → In a l
  sort_by_sound [] a m = m
  sort_by_sound (x ∷ l) a m = elim (insert_by_sound x (sort_by l) a m) [
    | inl e ↦ inl e
    | inr n ↦ inr (sort_by_sound l a n)
  ]
