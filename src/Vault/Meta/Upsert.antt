-- ===== src/Vault/Meta/Upsert.antt =====
-- An entry that was written is read back.
use heyl.Prelude.{
  ◌≡◌, ◌≢◌, sym, ap, ◌∙◌, String, Option, none, some, List, [], ◌∷◌, ◌>>=◌, arith, ◌==◌, eq_iff,
  inl, inr, Bool-cases, Option-cases, filter_map, find, upsert,
}
use heyl.Prelude.Results.{to_option}
use heyl.Json.{Json, get-insert}
use heyl.Domain.Ids.{id_eq_sound, parse-show, Uuids, SessionId, show, parse, id_eq}
use heyl.Domain.Time.{Jiff}
use heyl.Domain.Session.{SessionMetadata, metadata_map}
use heyl.Vault.Document.{Document}
use heyl.Vault.Meta.{
  sessions_entry, sessions_mut, put_sessions, session_of_entry, metadata_of_value, sessions,
  session, upsert_session,
}
use heyl.Vault.Meta.Registry.{found, opened}

some_inj : {A : Type 0} {a b : A} → some a ≡ some b → a ≡ b
some_inj h = cc

first_of_pair :
    {A B : Type 0} (o : Option A) (m : Option B) (x : A) (y : B)
    → (do a ← o; b ← m; let p : A × B = (a, b) in some p) ≡ some (x, y)
    → o ≡ some x
first_of_pair none m x y h = cc
first_of_pair (some a) none x y h = cc
first_of_pair {A} {B} (some a) (some b) x y h = ap (λ p. p >>= λ (q : A × B). some q.0) h

module _ (J : Json) (U : Uuids) (T : Jiff) (from_seq : J.Value → Option (SessionMetadata U T)) where
  -- `find_map` of a session id over the entries of the list.
  abbrev of_entries : List (String × J.Value) → SessionId U → Option (SessionMetadata U T)
  of_entries l id =
      find (λ found. id_eq U found.0 id) (filter_map (session_of_entry J U T from_seq) l)
      >>= λ found. some found.1

  -- An entry that parses has the id that its key spells.
  session_of_entry-id :
      (k : String) (v : J.Value) (id : SessionId U) (entry : SessionMetadata U T)
      → session_of_entry J U T from_seq (k, v) ≡ some (id, entry)
      → to_option (parse U k) ≡ some id
  unfolding session_of_entry
  session_of_entry-id k v id entry h =
      first_of_pair (to_option (parse U k)) (metadata_of_value J U T from_seq v) id entry h

  -- An entry whose key spells another id is passed over.
  of_entries-skip :
      (k : String) (v : J.Value) (l : List (String × J.Value)) (id : SessionId U)
      → to_option (parse U k) ≢ some id
      → of_entries ((k, v) ∷ l) id ≡ of_entries l id
  unfolding filter_map
  of_entries-skip k v l id d = elim (Option-cases (session_of_entry J U T from_seq (k, v))) [
    | inl e ↦ rw e
    | inr ((other, entry), e) ↦ elim (Bool-cases (id_eq U other id)) [
      | inl t ↦
          elim (d (session_of_entry-id k v other entry e ∙ ap some (id_eq_sound U other id t))) [ ]
      | inr f ↦ rw (e, f)
    ]
  ]

  skipped :
      (k : String) {id other : SessionId U}
      → to_option (parse U k) ≡ some id
      → other ≢ id
      → to_option (parse U k) ≢ some other
  skipped k p d q = d (some_inj (sym q ∙ p))

  -- Nothing is read of another id from a write at the key of an id.
  of_entries-upsert_other :
      (k : String) (v : J.Value) (l : List (String × J.Value)) (id other : SessionId U)
      → to_option (parse U k) ≡ some id
      → other ≢ id
      → of_entries (upsert k v l) other ≡ of_entries l other
  unfolding filter_map
  of_entries-upsert_other k v [] id other p d = of_entries-skip k v [] other (skipped _ p d)
  of_entries-upsert_other k v ((j, w) ∷ l) id other p d = elim (Bool-cases (j == k)) [
    | inl e ↦ rw e (
        of_entries-skip j v l other (rw ((eq_iff j k).0 e) (skipped _ p d))
        ∙ sym (of_entries-skip j w l other (rw ((eq_iff j k).0 e) (skipped _ p d))))
    | inr e ↦ rw e (elim (Option-cases (session_of_entry J U T from_seq (j, w))) [
      | inl n ↦ rw n (of_entries-upsert_other k v l id other p d)
      | inr (x, n) ↦ elim (Bool-cases (id_eq U x.0 other)) [
        | inl t ↦ rw (n, t)
        | inr t ↦ rw (n, t) (of_entries-upsert_other k v l id other p d)
      ]
    ])
  ]

  -- No key of the list but the printed id spells the id.
  abbrev pub HasCanonicalKey : Document J → SessionId U → Type 0
  HasCanonicalKey document id =
      (map : J.Map)
      → found J document ≡ some map
      → (k : String) (v : J.Value) → J.get map k ≡ some v
      → to_option (parse U k) ≡ some id
      → k ≡ show U id

  found_new :
      (document : Document J)
      → J.get document.content "sessions" ≡ none
      → found J document ≡ some J.new
  unfolding sessions_entry
  found_new document e = rw (
    sessions_entry,
    e,
    get-insert J document.content "sessions" "sessions" (J.object J.new),
    J.as_object-object J.new,
  )

  found_old :
      (document : Document J) (v : J.Value)
      → J.get document.content "sessions" ≡ some v
      → found J document ≡ J.as_object v
  unfolding sessions_entry
  found_old document v e = rw (sessions_entry, e, e)

  session-found :
      (document : Document J) (map : J.Map) (id : SessionId U)
      → found J document ≡ some map
      → session J U T from_seq document id ≡ of_entries (J.entries map) id
  unfolding session sessions filter_map
  session-found document map id m = elim (Option-cases (J.get document.content "sessions")) [
    | inl e ↦
        rw (session, sessions, e) (rw (some_inj (sym m ∙ found_new document e), J.entries-new))
    | inr (v, e) ↦ rw (session, sessions, e, sym (found_old document v e) ∙ m)
  ]

  session-put_sessions :
      (document : Document J) (map : J.Map) (id : SessionId U)
      → session J U T from_seq (put_sessions J document map) id ≡ of_entries (J.entries map) id
  unfolding session sessions put_sessions
  session-put_sessions document map id =
      rw
        (get-insert J document.content "sessions" "sessions" (J.object map), J.as_object-object map)

  upserted :
      (document : Document J) (id other : SessionId U) (entry : SessionMetadata U T) (map : J.Map)
      → found J document ≡ some map
      → session J U T from_seq (upsert_session J U T document id entry).0 other
        ≡ of_entries
            (upsert (show U id) (J.object (metadata_map J U T entry)) (J.entries map))
            other
  unfolding upsert_session sessions_mut
  upserted document id other entry map m = rw (
    upsert_session,
    sessions_mut,
    m,
    session-put_sessions (opened J U T document id)
        (J.insert map (show U id) (J.object (metadata_map J U T entry))) other,
    J.entries-insert map (show U id) (J.object (metadata_map J U T entry)),
  )

  -- A write under one id changes what no other id reads.
  session-upsert_session_other :
      (document : Document J) (id other : SessionId U) (entry : SessionMetadata U T)
      → other ≢ id
      → session J U T from_seq (upsert_session J U T document id entry).0 other
        ≡ session J U T from_seq document other
  unfolding upsert_session sessions_mut sessions_entry
  session-upsert_session_other document id other entry d = elim (Option-cases (found J document)) [
    | inl n ↦
        rw (upsert_session, sessions_mut, n)
          (elim (Option-cases (J.get document.content "sessions")) [
            | inl e ↦ ground (arith, found_new document e)
            | inr (v, e) ↦ rw (sessions_entry, e)
          ])
    | inr (map, m) ↦
        upserted document id other entry map m
        ∙ of_entries-upsert_other (show U id) _ (J.entries map) id other (parse-show U id) d
        ∙ sym (session-found document map other m)
  ]
