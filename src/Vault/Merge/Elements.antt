-- ===== src/Vault/Merge/Elements.antt =====
-- The merge, element by element: folding is a register of last writes at every list name and id.
use heyl.Prelude.{
  ◌≡◌, refl, ◌∙◌, sym, ap, String, Option, none, some, List, [], ◌∷◌, arith, lookup, HasUniqueKeys,
  ◌==◌, eq_iff, if◌then◌else◌, ◌>>=◌, text_gt, Option-cases, inl, inr,
}
use heyl.Prelude.Results.{ok}
use heyl.Json.{Json, get-insert, get-new}
use heyl.Vault.Document.{Document}
use heyl.Vault.Merge.{
  update_time, merge_element, merge_elements, merge_list, merge_name, merge_names, merge_content,
  fold_content, fold,
}

module _ (J : Json) where
  -- The later of two writes to one element: the second, unless the first is strictly newer.
  unfoldable pub later : Option J.Value → Option J.Value → Option J.Value
  later a none = a
  later none (some e) = some e
  later (some c) (some e) = if text_gt (update_time J c) (update_time J e) then some c else some e

  -- The element at a list name and an id.
  unfoldable pub element_at : J.Map → String → String → Option J.Value
  element_at content name id = J.get content name >>= J.as_object >>= (λ m. J.get m id)

  -- Every list of the content is an object.
  abbrev pub HasObjects : J.Map → Type 0
  HasObjects content =
      (name : String) (list : J.Value)
      → J.get content name ≡ some list
      → (m : J.Map) × (J.as_object list ≡ some m)

  get-merge_element :
      (acc : J.Map) (id j : String) (e : J.Value)
      → J.get (merge_element J acc id e) j
        ≡ (if id == j then later (J.get acc id) (some e) else J.get acc j)
  unfolding merge_element later
  get-merge_element acc id j e = ground (arith, get-insert J acc id j e, eq_iff id j)

  pub later-none : (e : Option J.Value) → later none e ≡ e
  unfolding later
  later-none none = refl
  later-none (some e) = refl

  get-merge_elements :
      (acc : J.Map) (es : List (String × J.Value)) (j : String)
      → HasUniqueKeys es
      → J.get (merge_elements J acc es) j ≡ later (J.get acc j) (lookup j es)
  unfolding merge_elements
  get-merge_elements acc [] j u = unfold later in refl
  get-merge_elements acc ((id, e) ∷ es) j u =
      get-merge_elements (merge_element J acc id e) es j u.1
      ∙ rw (get-merge_element acc id j e) (unfold later in ground (arith, eq_iff id j))

  merge_list-object :
      (acc next : J.Value) (a n : J.Map)
      → J.as_object acc ≡ some a
      → J.as_object next ≡ some n
      → J.as_object (merge_list J acc next) ≡ some (merge_elements J a (J.entries n))
  unfolding merge_list
  merge_list-object acc next a n p q = rw (p, q) (J.as_object-object _)

  -- The value at a list name after a merge of that name.
  merged : Option J.Value → Option J.Value → Option J.Value
  merged a none = a
  merged none (some list) = some list
  merged (some existing) (some list) = some (merge_list J existing list)

  get-merge_name :
      (acc : J.Map) (name j : String) (list : J.Value)
      → J.get (merge_name J acc name list) j
        ≡ (if name == j then merged (J.get acc name) (some list) else J.get acc j)
  unfolding merge_name merged
  get-merge_name acc name j list = elim (Option-cases (J.get acc name)) [
    | inl e ↦ rw (e, merge_name) (get-insert J acc name j list)
    | inr v ↦ rw (v.1, merge_name) (get-insert J acc name j (merge_list J v.0 list))
  ]

  get-merge_names :
      (acc : J.Map) (lists : List (String × J.Value)) (j : String)
      → HasUniqueKeys lists
      → J.get (merge_names J acc lists) j ≡ merged (J.get acc j) (lookup j lists)
  unfolding merge_names
  get-merge_names acc [] j u = unfold merged in refl
  get-merge_names acc ((name, list) ∷ lists) j u =
      get-merge_names (merge_name J acc name list) lists j u.1
      ∙ rw (get-merge_name acc name j list) (unfold merged in ground (arith, eq_iff name j))

  get-merge_content :
      (acc next : J.Map) (name : String)
      → J.get (merge_content J acc next) name ≡ merged (J.get acc name) (J.get next name)
  unfolding merge_content
  get-merge_content acc next name =
      get-merge_names acc (J.entries next) name (J.entries-HasUniqueKeys next)
      ∙ ap (merged (J.get acc name)) (sym (J.get-entries next name))

  -- The element at an id of a list that may be missing.
  in_list : Option J.Value → String → Option J.Value
  in_list list id = list >>= J.as_object >>= (λ m. J.get m id)

  in_list-merged :
      (a n : Option J.Value) (id : String)
      → ((v : J.Value) → a ≡ some v → (m : J.Map) × (J.as_object v ≡ some m))
      → ((v : J.Value) → n ≡ some v → (m : J.Map) × (J.as_object v ≡ some m))
      → in_list (merged a n) id ≡ later (in_list a id) (in_list n id)
  unfolding merged in_list
  in_list-merged none none id oa on = unfold later in refl
  in_list-merged (some v) none id oa on = unfold later in refl
  in_list-merged none (some w) id oa on = sym (later-none _)
  in_list-merged (some v) (some w) id oa on =
      let (a, p) = oa v refl in
      let (n, q) = on w refl in
      rw (merge_list-object v w a n p q, p, q)
        (get-merge_elements a (J.entries n) id (J.entries-HasUniqueKeys n)
          ∙ ap (later (J.get a id)) (sym (J.get-entries n id)))

  -- Merging content is merging the two registers at every list name and id.
  element_at-merge_content :
      (acc next : J.Map) (name id : String)
      → HasObjects acc
      → HasObjects next
      → element_at (merge_content J acc next) name id
        ≡ later (element_at acc name id) (element_at next name id)
  unfolding element_at in_list
  element_at-merge_content acc next name id oa on =
      rw (get-merge_content acc next name)
        (in_list-merged (J.get acc name) (J.get next name) id (oa name) (on name))

  merged-HasObjects :
      (a n : Option J.Value)
      → ((v : J.Value) → a ≡ some v → (m : J.Map) × (J.as_object v ≡ some m))
      → ((v : J.Value) → n ≡ some v → (m : J.Map) × (J.as_object v ≡ some m))
      → (v : J.Value) → merged a n ≡ some v
      → (m : J.Map) × (J.as_object v ≡ some m)
  unfolding merged
  merged-HasObjects none none oa on v h = cc
  merged-HasObjects (some w) none oa on v h = oa v h
  merged-HasObjects none (some w) oa on v h = on v h
  merged-HasObjects (some w) (some x) oa on v h =
      let (a, p) = oa w refl in
      let (n, q) = on x refl in
      (merge_elements J a (J.entries n), cc (merge_list-object w x a n p q))

  pub merge_content-HasObjects :
      (acc next : J.Map) → HasObjects acc → HasObjects next → HasObjects (merge_content J acc next)
  merge_content-HasObjects acc next oa on name v h =
      merged-HasObjects (J.get acc name) (J.get next name) (oa name) (on name) v
        (sym (get-merge_content acc next name) ∙ h)

  -- The register after a list of commits.
  abbrev pub last_write : String → String → Option J.Value → List (Document J) → Option J.Value
  last_write name id a [] = a
  last_write name id a (c ∷ cs) = last_write name id (later a (element_at c.content name id)) cs

  abbrev pub AllObjects : List (Document J) → Type 0
  AllObjects [] = Unit
  AllObjects (c ∷ cs) = HasObjects c.content × AllObjects cs

  element_at-fold_content :
      (acc : J.Map) (cs : List (Document J)) (name id : String)
      → HasObjects acc
      → AllObjects cs
      → element_at (fold_content J acc cs) name id ≡ last_write name id (element_at acc name id) cs
  unfolding fold_content
  element_at-fold_content acc [] name id oa os = refl
  element_at-fold_content acc (c ∷ cs) name id oa os =
      element_at-fold_content (merge_content J acc c.content) cs name id
        (merge_content-HasObjects acc c.content oa os.0) os.1
      ∙ ap (λ a. last_write name id a cs) (element_at-merge_content acc c.content name id oa os.0)

  pub new-HasObjects : HasObjects J.new
  new-HasObjects name v h = cc (get-new J name)

  element_at-new : (name id : String) → element_at J.new name id ≡ none
  unfolding element_at
  element_at-new name id = rw (get-new J name)

  pub fold-content :
      (commits : List (Document J)) (folded : Document J)
      → fold J commits ≡ ok folded
      → folded.content ≡ fold_content J J.new commits
  unfolding fold
  fold-content commits folded h = ground arith

  -- The folded element at a list name and an id is the last write to it in commit order, where a
  -- write yields only to a strictly newer earlier one.
  pub fold-last_write :
      (commits : List (Document J)) (folded : Document J) (name id : String)
      → AllObjects commits
      → fold J commits ≡ ok folded
      → element_at folded.content name id ≡ last_write name id none commits
  unfolding fold
  fold-last_write commits folded name id os h = rw (fold-content commits folded h) (
      element_at-fold_content J.new commits name id new-HasObjects os
      ∙ ap (λ a. last_write name id a commits) (element_at-new name id))
