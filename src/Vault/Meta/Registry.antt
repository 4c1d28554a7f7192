-- ===== src/Vault/Meta/Registry.antt =====
-- The operations on the device list: which entry they touch, what they leave in it, and how they fail.
use heyl.Prelude.{
  eq_refl, ◌≡◌, refl, sym, ap, ◌∙◌, String, true, false, Option, none, some, ◌>>=◌, ◌&&◌, arith,
  ◌==◌, eq_iff, if◌then◌else◌, ◌⊎◌, inl, inr, Bool-cases, Option-cases,
}
use heyl.Prelude.Results.{ok, err}
use heyl.Json.{Json, get-insert, get-new}
use heyl.Domain.Ids.{Uuids, SessionId, show}
use heyl.Domain.Time.{Jiff}
use heyl.Vault.Document.{VaultError, Document, not_a_document}
use heyl.Vault.Merge.Elements.{element_at}
use heyl.Vault.Meta.{sessions_entry, sessions_mut, put_sessions, edit_entry}

module _ (J : Json) where
  -- What stands at a name and an id, once an object was written at `sessions`.
  element_at-insert :
      (content map : J.Map) (name k : String)
      → element_at J (J.insert content "sessions" (J.object map)) name k
        ≡ (if "sessions" == name then J.get map k else element_at J content name k)
  unfolding element_at
  element_at-insert content map name k = elim (Bool-cases ("sessions" == name)) [
    | inl e ↦ rw (get-insert J content "sessions" name (J.object map), e, J.as_object-object map)
    | inr e ↦ rw (get-insert J content "sessions" name (J.object map), e)
  ]

  element_at-sessions :
      (content : J.Map) (k : String)
      → element_at J content "sessions" k
        ≡ (J.get content "sessions" >>= J.as_object >>= λ map. J.get map k)
  unfolding element_at
  element_at-sessions content k = refl

  -- Making the list where there is none shows at no id.
  pub element_at-sessions_entry :
      (content : J.Map) (name k : String)
      → element_at J (sessions_entry J content) name k ≡ element_at J content name k
  unfolding sessions_entry
  element_at-sessions_entry content name k = elim (Option-cases (J.get content "sessions")) [
    | inl e ↦
        rw (sessions_entry, e, element_at-insert content J.new name k)
          (elim (Bool-cases ("sessions" == name)) [
            | inl n ↦ rw n (
                rw (get-new J k)
                  (rw (← (eq_iff "sessions" name).0 n, element_at-sessions content k, e)))
            | inr n ↦ rw n
          ])
    | inr (v, e) ↦ rw (sessions_entry, e)
  ]

  -- The list as an operation finds it, once it is made.
  abbrev pub found : Document J → Option J.Map
  found document = J.get (sessions_entry J document.content) "sessions" >>= J.as_object

  pub element_at-put_sessions :
      (document : Document J) (map : J.Map) (key name k : String) (v : J.Value)
      → (J.get document.content "sessions" >>= J.as_object) ≡ some map
      → element_at J (put_sessions J document (J.insert map key v)).content name k ≡ (
          if ("sessions" == name) && (key == k)
          then some v
          else element_at J document.content name k)
  unfolding put_sessions
  element_at-put_sessions document map key name k v m =
      rw (element_at-insert document.content (J.insert map key v) name k, get-insert J map key k v)
        (elim (Bool-cases ("sessions" == name)) [
          | inl n ↦
              rw (n, ← (eq_iff "sessions" name).0 n, element_at-sessions document.content k, m)
          | inr n ↦ rw n
        ])

-- A write at one place is not seen at another.
pub elsewhere :
    {A : Type 0} (name key k : String) (new old : A)
    → ¬ ((name ≡ "sessions") × (k ≡ key))
    → (if ("sessions" == name) && (key == k) then new else old) ≡ old
elsewhere name key k new old other = elim (Bool-cases (("sessions" == name) && (key == k))) [
  | inl e ↦ elim (other (both (Bool-cases ("sessions" == name)) (Bool-cases (key == k)) e)) [ ]
  | inr e ↦ rw e
]
  where
    both :
        ("sessions" == name ≡ true) ⊎ ("sessions" == name ≡ false)
        → (key == k ≡ true) ⊎ (key == k ≡ false)
        → ("sessions" == name) && (key == k) ≡ true
        → (name ≡ "sessions") × (k ≡ key)
    both (inl a) (inl b) e = (sym ((eq_iff "sessions" name).0 a), sym ((eq_iff key k).0 b))
    both (inl a) (inr b) e = ground arith
    both (inr a) b e = ground arith

module _ (J : Json) (U : Uuids) (T : Jiff) (document : Document J) (id : SessionId U) where
  -- The document with the list made.
  abbrev pub opened : Document J
  opened = record document { content = sessions_entry J document.content }

  -- The entry under our id, as the list holds it.
  abbrev pub entry_of : Document J → Option J.Map
  entry_of d = element_at J d.content "sessions" (show U id) >>= J.as_object

  entry_of-opened : entry_of opened ≡ entry_of document
  entry_of-opened = rw (element_at-sessions_entry J document.content "sessions" (show U id))

  entry_of-found :
      (map : J.Map)
      → found J document ≡ some map
      → (J.get map (show U id) >>= J.as_object) ≡ entry_of document
  entry_of-found map m =
      rw (
        ← entry_of-opened,
        element_at-sessions J (sessions_entry J document.content) (show U id),
        m,
      )

  found-entry_of :
      (entry : J.Map)
      → entry_of document ≡ some entry
      → (map : J.Map) × (found J document ≡ some map)
  found-entry_of entry e = elim (Option-cases (found J document)) [
    | inl n ↦ elim (absurd n) [ ]
    | inr m ↦ m
  ]
    where
      absurd : found J document ≡ none → ⊥
      absurd n =
          let no_entry : entry_of opened ≡ none =
            rw (element_at-sessions J (sessions_entry J document.content) (show U id), n) in
          ground (arith, entry_of-opened)

  module _ (missing : String) (edit : J.Map → J.Map) where
    -- An edit either writes the edited entry, or fails and leaves the list made and no more.
    edit_entry-cases :
        ((entry : J.Map) × (map : J.Map) × (found J document ≡ some map)
          × (entry_of document ≡ some entry)
          × (edit_entry J U T missing edit document id
              ≡ (put_sessions J opened (J.insert map (show U id) (J.object (edit entry))), ok tt)))
        ⊎ ((e : VaultError) × (entry_of document ≡ none)
            × (edit_entry J U T missing edit document id ≡ (opened, err e)))
    unfolding edit_entry sessions_mut
    edit_entry-cases = elim (Option-cases (found J document)) [
      | inl n ↦ inr (
        not_a_document "`content.sessions` is not an object",
        rw (
          ← entry_of-opened,
          element_at-sessions J (sessions_entry J document.content) (show U id),
          n,
        ),
        rw (edit_entry, sessions_mut, n),
      )
      | inr (map, m) ↦ elim (Option-cases (J.get map (show U id) >>= J.as_object)) [
        | inl n ↦ inr (
          not_a_document missing,
          sym (entry_of-found map m) ∙ n,
          rw (edit_entry, sessions_mut, m, n),
        )
        | inr (entry, e) ↦
            inl (entry, map, m, sym (entry_of-found map m) ∙ e, rw (edit_entry, sessions_mut, m, e))
      ]
    ]

    pub edit_entry_others :
        (name k : String)
        → ¬ ((name ≡ "sessions") × (k ≡ show U id))
        → element_at J (edit_entry J U T missing edit document id).0.content name k
          ≡ element_at J document.content name k
    edit_entry_others name k other = elim edit_entry-cases [
      | inl (entry, map, m, e, r) ↦
          rw
            (
              r,
              element_at-put_sessions J opened map (show U id) name k (J.object (edit entry)) m,
              element_at-sessions_entry J document.content name k,
            )
            (elsewhere name (show U id) k _ _ other)
      | inr (e, n, r) ↦ rw (r, element_at-sessions_entry J document.content name k)
    ]

    pub edit_entry_ok :
        (entry : J.Map)
        → entry_of document ≡ some entry
        → ((edit_entry J U T missing edit document id).1 ≡ ok tt)
          × (entry_of (edit_entry J U T missing edit document id).0 ≡ some (edit entry))
    edit_entry_ok entry e = elim edit_entry-cases [
      | inl (found_entry, map, m, f, r) ↦ (
        rw r,
        rw
            (
              r,
              element_at-put_sessions J opened map (show U id) "sessions" (show U id)
                  (J.object (edit found_entry)) m,
              eq_refl (show U id),
            )
            (J.as_object-object (edit found_entry) ∙ ap (λ o. some (edit o)) (same f)),
      )
      | inr (x, n, r) ↦ ground arith
    ]
      where
        same : {found_entry : J.Map} → entry_of document ≡ some found_entry → found_entry ≡ entry
        same f = cc

    pub edit_entry_missing :
        entry_of document ≡ none
        → (e : VaultError) × ((edit_entry J U T missing edit document id).1 ≡ err e)
    edit_entry_missing n = elim edit_entry-cases [
      | inl (found_entry, map, m, f, r) ↦ ground arith
      | inr (x, _, r) ↦ (x, rw r)
    ]
