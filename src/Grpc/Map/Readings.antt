-- ===== src/Grpc/Map/Readings.antt =====
-- crates/heyl-grpc/src/map.rs: whose the locks are that a reading of `SyncUpdate` gives.
use heyl.Prelude.{
  ◌≡◌, ◌∙◌, refl, sym, subst, String, Option, none, some, List, [], ◌∷◌, if◌then◌else◌, Bool-cases,
  inl, inr, ◌==◌,
}
use heyl.Prelude.Results.{Result, ok, >>=-eq-ok, map_err-eq-ok, ok_inj}
use heyl.Domain.Ids.{Uuids, ProfileId, IdKind, TypedId, parse, id_eq, id_eq_sound}
use heyl.Domain.Time.{Jiff}
use heyl.Domain.Sync.{Profile, ProfileAuthenticatorLock, SyncSnapshot}
use heyl.Grpc.Wire.{Discriminants, WireProfile, WireProfileLock, SyncUpdate}
use heyl.Grpc.Map.{required_id, optional_id, stated_profile, profile_authenticator_lock}
use heyl.Grpc.Map.Snapshot.{
  collect, collect_some, transpose, unlock, session, vault, profile, sync_update,
}

module _ {A B : Type 0} where
  -- Two lists of one length, related place by place.
  abbrev pub Pairwise : (A → B → Type 0) → List A → List B → Type 0
  Pairwise R [] [] = Unit
  Pairwise R (a ∷ xs) (b ∷ ys) = R a b × Pairwise R xs ys
  Pairwise R _ _ = ⊥

  pub collect-Pairwise :
      {E : Type 0} {R : A → B → Type 0} (f : A → Result E B)
      → ((a : A) (b : B) → f a ≡ ok b → R a b)
      → (xs : List A) (ys : List B) → collect f xs ≡ ok ys
      → Pairwise R xs ys
  unfolding collect
  collect-Pairwise {R = R} f h [] ys e = subst (Pairwise R []) (ok_inj e) tt
  collect-Pairwise {R = R} f h (a ∷ xs) ys e =
      let (b, first, after) = >>=-eq-ok (f a) _ e in
      let (rest, others, same) = >>=-eq-ok (collect f xs) _ after in
      subst (Pairwise R (a ∷ xs)) (ok_inj same) (h a b first, collect-Pairwise f h xs rest others)

module _ (U : Uuids) where
  -- A lock of the wire, and the owner's own lock that is read from it.
  abbrev pub IsOwnLock :
      (owner : ProfileId U) (generation : String)
      → WireProfileLock
      → ProfileAuthenticatorLock U
      → Type 0
  IsOwnLock owner generation w l =
      (l.profile_id ≡ owner)
      × (parse U w.authenticator_id ≡ ok l.authenticator_id)
      × (l.profile_key_generation_id
          ≡ (if w.profile_key_generation_id == "" then generation else w.profile_key_generation_id))

  -- A profile of the wire, and the one that is read from it with its locks.
  abbrev pub IsReading : WireProfile → Profile U → Type 0
  IsReading w p =
      (parse U w.id ≡ ok p.id)
      × (p.key_generation_id ≡ w.key_generation_id)
      × Pairwise (IsOwnLock p.id w.key_generation_id) w.authenticator_locks p.authenticator_locks

module _ (U : Uuids) (debug : String → String) where
  required_id-parse :
      {k : IdKind} (value what : String) (id : TypedId U k)
      → required_id U debug value what ≡ ok id
      → parse U value ≡ ok id
  unfolding required_id
  required_id-parse value what id e = map_err-eq-ok _ (parse U value) e

  stated_profile-owner :
      (owner : ProfileId U) (stated : Option (ProfileId U)) (id : ProfileId U)
      → stated_profile U debug owner stated ≡ ok id
      → id ≡ owner
  unfolding stated_profile
  stated_profile-owner owner none id e = sym (ok_inj e)
  stated_profile-owner owner (some stated) id e = elim (Bool-cases (id_eq U stated owner)) [
    | inl same ↦ sym (ok_inj (rw same at e)) ∙ id_eq_sound U stated owner same
    | inr differs ↦ (let h = rw differs at e in cc)
  ]

  lock-IsOwnLock :
      (owner : ProfileId U) (generation : String) (w : WireProfileLock)
      (l : ProfileAuthenticatorLock U)
      → profile_authenticator_lock U debug w owner generation ≡ ok l
      → IsOwnLock U owner generation w l
  unfolding profile_authenticator_lock
  lock-IsOwnLock owner generation w l e =
      let (stated, s, after) = >>=-eq-ok (optional_id U debug w.profile_id _) _ e in
      let (id, owned, after2) = >>=-eq-ok (stated_profile U debug owner stated) _ after in
      let (auth, a, same) = >>=-eq-ok (required_id U debug w.authenticator_id _) _ after2 in
      subst (IsOwnLock U owner generation w) (ok_inj same)
        (stated_profile-owner owner stated id owned, required_id-parse _ _ auth a, refl)

  profile-IsReading : (w : WireProfile) (p : Profile U) → profile U debug w ≡ ok p → IsReading U w p
  unfolding profile
  profile-IsReading w p e =
      let (id, i, after) = >>=-eq-ok (required_id U debug w.id _) _ e in
      let (locks, l, same) =
        >>=-eq-ok
          (collect (λ l. profile_authenticator_lock U debug l id w.key_generation_id)
            w.authenticator_locks)
          _ after in
      subst (IsReading U w) (ok_inj same) (
        required_id-parse _ _ id i,
        refl,
        collect-Pairwise _ (lock-IsOwnLock id w.key_generation_id) w.authenticator_locks locks l,
      )

module _ (U : Uuids) (debug : String → String) (D : Discriminants) (T : Jiff) where
  -- Where a `SyncUpdate` is read, its profiles are read one for one and in order: each has the parsed
  -- identifier and the generation of the wire's, and its locks are read one for one, each the profile's
  -- own, with the generation it states or, where it states none, the profile's.
  pub sync_update-profiles :
      (u : SyncUpdate) (s : SyncSnapshot U T)
      → sync_update U debug D T u ≡ ok s
      → Pairwise (IsReading U) u.profiles s.profiles
  unfolding sync_update
  sync_update-profiles u s e =
      let (_, _, e1) = >>=-eq-ok (transpose (unlock U debug) u.session_unlock) _ e in
      let (_, _, e2) = >>=-eq-ok (collect (session U debug T) u.sessions) _ e1 in
      let (_, _, e3) = >>=-eq-ok (collect_some (vault U debug D) u.vaults) _ e2 in
      let (ps, read, same) = >>=-eq-ok (collect (profile U debug) u.profiles) _ e3 in
      subst (λ (s : SyncSnapshot U T). Pairwise (IsReading U) u.profiles s.profiles) (ok_inj same)
        (collect-Pairwise (profile U debug) (profile-IsReading U debug) u.profiles ps read)
