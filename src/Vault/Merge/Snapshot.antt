-- ===== src/Vault/Merge/Snapshot.antt =====
-- The folded state stands for the commits it was folded from: a client may commit it, or go on from
-- it, and every element reads the same.
use heyl.Prelude.{
  ◌≡◌, refl, ◌∙◌, sym, ap, String, Option, none, some, List, [], ◌∷◌, ◌++◌, get_last?,
}
use text.Mathlib.TextPositions.{compare_refl}
use heyl.Prelude.Results.{ok, err}
use heyl.Json.{Json}
use heyl.Vault.Document.{Document, empty}
use heyl.Vault.Merge.{update_time, merge_content, fold, fold_content}
use heyl.Vault.Merge.Elements.{
  later, later-none, element_at, last_write, HasObjects, AllObjects, merge_content-HasObjects,
  fold-content, new-HasObjects, fold-last_write,
}

module _ (J : Json) where
  fold_content-HasObjects :
      (acc : J.Map) (cs : List (Document J))
      → HasObjects J acc
      → AllObjects J cs
      → HasObjects J (fold_content J acc cs)
  unfolding fold_content
  fold_content-HasObjects acc [] oa os = oa
  fold_content-HasObjects acc (c ∷ cs) oa os =
      fold_content-HasObjects (merge_content J acc c.content) cs
        (merge_content-HasObjects J acc c.content oa os.0) os.1

  fold-HasObjects :
      (commits : List (Document J)) (folded : Document J)
      → AllObjects J commits
      → fold J commits ≡ ok folded
      → HasObjects J folded.content
  fold-HasObjects commits folded os h name v p =
      fold_content-HasObjects J.new commits (new-HasObjects J) os name v
        (rw (← fold-content J commits folded h) p)

  AllObjects-append :
      (cs ds : List (Document J)) → AllObjects J cs → AllObjects J ds → AllObjects J (cs ++ ds)
  AllObjects-append [] ds p q = q
  AllObjects-append (c ∷ cs) ds p q = (p.0, AllObjects-append cs ds p.1 q)

  last_write-append :
      (name id : String) (a : Option J.Value) (cs ds : List (Document J))
      → last_write J name id a (cs ++ ds) ≡ last_write J name id (last_write J name id a cs) ds
  last_write-append name id a [] ds = refl
  last_write-append name id a (c ∷ cs) ds =
      last_write-append name id (later J a (element_at J c.content name id)) cs ds

  later_self : (a : Option J.Value) → later J a a ≡ a
  unfolding later
  later_self none = refl
  later_self (some e) = rw (compare_refl (update_time J e))

  -- Committing the folded state on top of the commits changes no element.
  pub fold-snapshot :
      (commits : List (Document J)) (folded again : Document J) (name id : String)
      → AllObjects J commits
      → fold J commits ≡ ok folded
      → fold J (commits ++ folded ∷ []) ≡ ok again
      → element_at J again.content name id ≡ element_at J folded.content name id
  fold-snapshot commits folded again name id os h k =
      let p = fold-last_write J commits folded name id os h in
      fold-last_write J (commits ++ folded ∷ []) again name id
        (AllObjects-append commits (folded ∷ []) os (fold-HasObjects commits folded os h, tt)) k
      ∙ last_write-append name id none commits (folded ∷ [])
      ∙ rw (← p) (later_self _)

  -- Folding more commits on the folded state gives, at every element, the fold of all the commits.
  fold-append :
      (commits more : List (Document J)) (folded from all : Document J) (name id : String)
      → AllObjects J commits
      → AllObjects J more
      → fold J commits ≡ ok folded
      → fold J (folded ∷ more) ≡ ok from
      → fold J (commits ++ more) ≡ ok all
      → element_at J from.content name id ≡ element_at J all.content name id
  fold-append commits more folded from all name id os om h k l =
      let p = fold-last_write J commits folded name id os h in
      fold-last_write J (folded ∷ more) from name id (fold-HasObjects commits folded os h, om) k
      ∙ ap (λ a. last_write J name id a more) (later-none J _ ∙ p)
      ∙ sym (last_write-append name id none commits more)
      ∙ sym
          (fold-last_write J (commits ++ more) all name id (AllObjects-append commits more os om) l)

  get_last?-append : (cs : List (Document J)) (c : Document J) → get_last? (cs ++ c ∷ []) ≡ some c
  get_last?-append [] c = refl
  get_last?-append (b ∷ []) c = refl
  get_last?-append (b ∷ d ∷ cs) c = get_last?-append (d ∷ cs) c

  -- No commits is an error; any others fold, and the framing, the type and the version are the newest
  -- commit's.
  fold_header :
      (cs : List (Document J)) (newest : Document J)
      → (fold J [] ≡ err empty)
        × ((folded : Document J) × (fold J (cs ++ newest ∷ []) ≡ ok folded)
            × (folded.format ≡ newest.format)
            × (folded.document_type ≡ newest.document_type)
            × (folded.version ≡ newest.version))
  unfolding fold
  fold_header cs newest = (
    refl,
    (
      record newest { content = fold_content J J.new (cs ++ newest ∷ []) },
      rw (get_last?-append cs newest),
      refl,
      refl,
      refl,
    ),
  )
