-- ===== src/App/Session/Index/Unique.antt =====
-- crates/heyl-app/src/session/mod.rs: no slot stands twice in the index, and a slot that was added and
-- removed leaves it as it was.
use heyl.Prelude.{
  ◌≡◌, refl, String, Bool, true, false, not, List, [], ◌∷◌, ◌++◌, keep, ◌==◌, if◌then◌else◌,
  Bool-cases, inl, inr, eq_iff, eq_refl, arith,
}
use heyl.Prelude.Results.{ok}
use heyl.Json.{Json}
use heyl.Domain.Ids.{Uuids}
use heyl.Domain.Time.{Jiff}
use heyl.Domain.Keys.{Crypto}
use heyl.App.Slots.{Slot, slot_name, IsKeychain}
use heyl.App.Ports.{Ports}
use heyl.App.Action.{World}
use heyl.App.Session.{contains, slots, index_add, index_remove}
use heyl.App.Session.Index.{ReadsTexts, slots-index_add, slots-index_remove}

abbrev pub IsUnique : List String → Type 0
IsUnique [] = Unit
IsUnique (n ∷ ns) = (contains ns n ≡ false) × IsUnique ns

contains-append :
    (ns : List String) (n m : String)
    → contains (ns ++ m ∷ []) n ≡ (if contains ns n then true else m == n)
unfolding contains
contains-append [] n m = ground arith
contains-append (x ∷ ns) n m = ground (arith, contains-append ns n m)

append-IsUnique :
    (ns : List String) (n : String) → IsUnique ns → contains ns n ≡ false → IsUnique (ns ++ n ∷ [])
unfolding contains
append-IsUnique [] n u c = (refl, tt)
append-IsUnique (x ∷ ns) n u c =
    let rest : contains ns n ≡ false = ground arith in
    let differ : n == x ≡ false = ground (arith, eq_iff x n, eq_iff n x) in
    (rw (contains-append ns x n, u.0, differ) refl, append-IsUnique ns n u.1 rest)

contains-keep :
    (p : String → Bool) (ns : List String) (n : String)
    → contains ns n ≡ false
    → contains (keep p ns) n ≡ false
unfolding contains
contains-keep p [] n c = refl
contains-keep p (x ∷ ns) n c = ground (arith, contains-keep p ns n)

keep-IsUnique : (p : String → Bool) (ns : List String) → IsUnique ns → IsUnique (keep p ns)
keep-IsUnique p [] u = tt
keep-IsUnique p (x ∷ ns) u = elim (Bool-cases (p x)) [
  | inl e ↦ rw e (contains-keep p ns x u.0, keep-IsUnique p ns u.1)
  | inr e ↦ rw e (keep-IsUnique p ns u.1)
]

keep_others :
    (ns : List String) (n : String) → contains ns n ≡ false → keep (λ m. not (m == n)) ns ≡ ns
unfolding contains
keep_others [] n c = refl
keep_others (x ∷ ns) n c = elim (Bool-cases (x == n)) [
  | inl e ↦ ground arith
  | inr e ↦ let rest : contains ns n ≡ false = ground arith in rw (e, keep_others ns n rest) refl
]

keep_append :
    (ns : List String) (n : String)
    → contains ns n ≡ false
    → keep (λ m. not (m == n)) (ns ++ n ∷ []) ≡ ns
unfolding contains
keep_append [] n c = rw (eq_refl n) refl
keep_append (x ∷ ns) n c = elim (Bool-cases (x == n)) [
  | inl e ↦ ground arith
  | inr e ↦ let rest : contains ns n ≡ false = ground arith in rw (e, keep_append ns n rest) refl
]

module _ {U : Uuids} {T : Jiff} {K : Crypto} {J : Json} (P : Ports U T K J)
    (reads : ReadsTexts J P.text) (keychain : IsKeychain P.store) where
  -- An index without doubles has none after a slot was added.
  pub index_add-IsUnique :
      (slot : Slot) (w : World P)
      → IsUnique (slots P w)
      → (index_add P slot w).1 ≡ ok tt
      → IsUnique (slots P (index_add P slot w).0)
  index_add-IsUnique slot w u h = elim (Bool-cases (contains (slots P w) (slot_name slot))) [
    | inl e ↦ rw (slots-index_add P reads keychain slot w h, e) u
    | inr e ↦
        rw (slots-index_add P reads keychain slot w h, e)
          (append-IsUnique (slots P w) (slot_name slot) u e)
  ]

  -- A slot that was not in the index, added and then removed, leaves the index as it was.
  index_add-index_remove :
      (slot : Slot) (w : World P)
      → contains (slots P w) (slot_name slot) ≡ false
      → (index_add P slot w).1 ≡ ok tt
      → (index_remove P slot (index_add P slot w).0).1 ≡ ok tt
      → slots P (index_remove P slot (index_add P slot w).0).0 ≡ slots P w
  index_add-index_remove slot w fresh added removed =
      rw (slots-index_remove P reads keychain slot (index_add P slot w).0 removed) (
        rw (slots-index_add P reads keychain slot w added, fresh)
          (keep_append (slots P w) (slot_name slot) fresh))
