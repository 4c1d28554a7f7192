-- ===== src/Vault/Merge/Newest.antt =====
-- No element is lost by a fold, none is made up, and the one that stays is the newest.
use heyl.Prelude.{
  ◌≡◌, refl, ◌∙◌, sym, String, Option, none, some, List, [], ◌∷◌, arith, ◌⊎◌, inl, inr, In, TextLe,
  TextLe-refl, TextLe-total, TextLe-trans, text_gt, Bool-cases, All, All-at,
}
use heyl.Prelude.Results.{ok}
use heyl.Json.{Json}
use heyl.Vault.Document.{Document}
use heyl.Vault.Merge.{update_time, fold}
use heyl.Vault.Merge.Elements.{later, element_at, last_write, AllObjects, fold-last_write}

module _ (J : Json) where
  -- `x` is no newer than what is there.
  abbrev AtMost : Option J.Value → J.Value → Type 0
  AtMost none f = Unit
  AtMost (some x) f = TextLe (update_time J x) (update_time J f)

  later-AtMost :
      (a e : Option J.Value) (f : J.Value) → AtMost (later J a e) f → AtMost a f × AtMost e f
  unfolding later
  later-AtMost none none f h = (tt, tt)
  later-AtMost (some c) none f h = (h, tt)
  later-AtMost none (some e) f h = (tt, h)
  later-AtMost (some c) (some e) f h =
      elim (Bool-cases (text_gt (update_time J c) (update_time J e))) [
        | inl newer ↦
            let p : TextLe (update_time J c) (update_time J f) = rw newer at h in
            (p, TextLe-trans _ _ _ (TextLe-total (update_time J c) (update_time J e) newer) p)
        | inr older ↦
            let p : TextLe (update_time J e) (update_time J f) = rw older at h in
            (TextLe-trans _ _ _ older p, p)
      ]

  later_origin :
      (a e : Option J.Value) (f : J.Value) → later J a e ≡ some f → (a ≡ some f) ⊎ (e ≡ some f)
  unfolding later
  later_origin none none f h = cc
  later_origin (some c) none f h = inl h
  later_origin none (some e) f h = inr h
  later_origin (some c) (some e) f h = ground arith

  module _ (name id : String) where
    -- What is there before the commits, and every commit's element, is no newer than the last write.
    last_write_bounds :
        (a : Option J.Value) (cs : List (Document J)) (f : J.Value)
        → last_write J name id a cs ≡ some f
        → AtMost a f × All (λ c. AtMost (element_at J c.content name id) f) cs
    last_write_bounds a [] f h = (rw h (TextLe-refl (update_time J f)), tt)
    last_write_bounds a (c ∷ cs) f h =
        let e = element_at J c.content name id in
        let (both, rest) = last_write_bounds (later J a e) cs f h in
        let (p, q) = later-AtMost a e f both in (p, (q, rest))

    last_write_origin :
        (a : Option J.Value) (cs : List (Document J)) (f : J.Value)
        → last_write J name id a cs ≡ some f
        → (a ≡ some f) ⊎ ((c : Document J) × In c cs × (element_at J c.content name id ≡ some f))
    last_write_origin a [] f h = inl h
    last_write_origin a (c ∷ cs) f h =
        let e = element_at J c.content name id in
        elim (last_write_origin (later J a e) cs f h) [
          | inl at_start ↦ elim (later_origin a e f at_start) [
            | inl old ↦ inl old
            | inr new ↦ inr (c, inl refl, new)
          ]
          | inr w ↦ inr (w.0, inr w.1, w.2)
        ]

    later-some : (a : Option J.Value) (e : J.Value) → (g : J.Value) × (later J a (some e) ≡ some g)
    unfolding later
    later-some none e = (e, refl)
    later-some (some c) e = elim (Bool-cases (text_gt (update_time J c) (update_time J e))) [
      | inl newer ↦ (c, rw newer)
      | inr older ↦ (e, rw older)
    ]

    later-some_left :
        (c : J.Value) (e : Option J.Value) → (g : J.Value) × (later J (some c) e ≡ some g)
    unfolding later
    later-some_left c none = (c, refl)
    later-some_left c (some e) = later-some (some c) e

    last_write-some :
        (a : J.Value) (cs : List (Document J))
        → (f : J.Value) × (last_write J name id (some a) cs ≡ some f)
    last_write-some a [] = (a, refl)
    last_write-some a (c ∷ cs) =
        let (g, p) = later-some_left a (element_at J c.content name id) in
        rw p (last_write-some g cs)

    last_write-some_of_In :
        (a : Option J.Value) (cs : List (Document J)) (c : Document J) (e : J.Value)
        → In c cs
        → element_at J c.content name id ≡ some e
        → (f : J.Value) × (last_write J name id a cs ≡ some f)
    last_write-some_of_In a [] c e m h = elim m [ ]
    last_write-some_of_In a (d ∷ cs) c e (inl p) h =
        let (g, q) = later-some a e in rw (← p, h, q) (last_write-some g cs)
    last_write-some_of_In a (d ∷ cs) c e (inr m) h =
        last_write-some_of_In (later J a (element_at J d.content name id)) cs c e m h

  -- An element of any commit is still there after the fold, in a version at least as new.
  pub fold-keeps :
      (commits : List (Document J)) (folded c : Document J) (name id : String) (e : J.Value)
      → AllObjects J commits
      → fold J commits ≡ ok folded
      → In c commits
      → element_at J c.content name id ≡ some e
      → (f : J.Value) × (element_at J folded.content name id ≡ some f)
        × TextLe (update_time J e) (update_time J f)
  fold-keeps commits folded c name id e os h m p =
      let (f, w) = last_write-some_of_In name id none commits c e m p in
      let bounds = (last_write_bounds name id none commits f w).1 in
      let bound =
        All-at (λ (d : Document J). AtMost (element_at J d.content name id) f) commits bounds c m in
      (f, fold-last_write J commits folded name id os h ∙ w, rw p at bound)

  -- An element of the folded document stands in one of the commits.
  fold_origin :
      (commits : List (Document J)) (folded : Document J) (name id : String) (f : J.Value)
      → AllObjects J commits
      → fold J commits ≡ ok folded
      → element_at J folded.content name id ≡ some f
      → (c : Document J) × In c commits × (element_at J c.content name id ≡ some f)
  fold_origin commits folded name id f os h p =
      elim (last_write_origin name id none commits f
        (sym (fold-last_write J commits folded name id os h) ∙ p)) [ inl bad ↦ cc | inr w ↦ w ]
