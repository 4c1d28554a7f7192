-- ===== src/App/Recovery/Verified.antt =====
-- crates/heyl-app/src/recovery.rs and crates/heyl-crypto/src/recovery.rs: which seed a recovery goes on
-- with.
use heyl.Prelude.{ℕ, ◌≤◌, ◌≡◌, refl, String, Bool, true, false, List, if◌then◌else◌, arith}
use heyl.Prelude.Results.{Result, ok, err, map_err-eq-ok, >>=-eq-ok}
use heyl.Json.{Json}
use heyl.Domain.Ids.{Uuids}
use heyl.Domain.Time.{Jiff}
use heyl.Domain.Keys.{Crypto, RecoveryParams}
use heyl.Domain.Authenticator.{RecoverySecret}
use heyl.Crypto.Recovery.{
  validate, normalize_code, is_canonical, derive_recovery_seed, checksum_matches,
}
use heyl.Crypto.Recovery.Checksum.{checksum_matches_lem}
use heyl.App.Error.{crypto_failure}
use heyl.App.Ports.{Ports}
use heyl.App.Action.{World, when}
use heyl.App.Action.Leaves.{>>=-returns}
use heyl.App.Recovery.{derive_and_verify}

-- Costs that this client accepts.
abbrev pub IsBounded : RecoveryParams → Type 0
IsBounded params =
    (params.memory_cost_kib ≤ 4194304)
    × ((1 ≤ params.iterations) × (params.iterations ≤ 64))
    × ((1 ≤ params.parallelism) × (params.parallelism ≤ 64))

validate-IsBounded : (params : RecoveryParams) → validate params ≡ ok tt → IsBounded params
unfolding validate
validate-IsBounded params h =
    (ground arith, (ground arith, ground arith), (ground arith, ground arith))

guarded :
    {E A : Type 0} {a : A} (b : Bool) (r : Result E A) (e : E)
    → (if b then r else err e) ≡ ok a
    → (b ≡ true) × (r ≡ ok a)
guarded true r e h = (refl, h)
guarded false r e h = cc

-- A seed is derived only within the bounds on the costs, and only from a code in the canonical form.
derive_recovery_seed-ok :
    (K : Crypto) (as_bytes : String → List ℕ) (code : String) (salt : List ℕ)
    (params : RecoveryParams) (derived : List ℕ)
    → derive_recovery_seed K as_bytes code salt params ≡ ok derived
    → IsBounded params
      × (is_canonical (normalize_code code) ≡ true)
      × (K.argon2id (as_bytes (normalize_code code)) salt params ≡ ok derived)
unfolding derive_recovery_seed
derive_recovery_seed-ok K as_bytes code salt params derived h =
    let bounded = >>=-eq-ok (validate params) _ h in
    let coded =
      guarded (is_canonical (normalize_code code))
        (K.argon2id (as_bytes (normalize_code code)) salt params) _ bounded.2 in
    (validate-IsBounded params bounded.1, coded.0, coded.1)

when-ok :
    {W E A : Type 0} {c : A} (b : Bool) (a : A) (e : E) (w : W)
    → (when b (λ w. (w, ok a)) (λ w. (w, err e)) w).1 ≡ ok c
    → (b ≡ true) × (a ≡ c)
unfolding when
when-ok true a e w h = (refl, cc)
when-ok false a e w h = cc

module _ {U : Uuids} {T : Jiff} {K : Crypto} {J : Json} (P : Ports U T K J) where
  -- The seed that a code gives comes from Argon2id, run on a code in the canonical form and within the
  -- bounds on the costs, and its hash is the checksum that the server published.
  pub derive_and_verify-ok :
      (code : String) (secret : RecoverySecret) (seed : K.Seed) (w : World P)
      → (derive_and_verify P code secret w).1 ≡ ok seed
      → (derived : List ℕ) × (seed ≡ K.seed_from_bytes derived)
        × (K.hash_data derived ≡ secret.checksum)
        × (K.argon2id (P.as_bytes (normalize_code code)) secret.salt secret.params ≡ ok derived)
        × (is_canonical (normalize_code code) ≡ true)
        × IsBounded secret.params
  unfolding derive_and_verify
  derive_and_verify-ok code secret seed w h =
      let derived = >>=-returns _ _ w h in
      let checked =
        when-ok (checksum_matches K derived.0 secret.checksum) (K.seed_from_bytes derived.0) _ _
          derived.2 in
      let from =
        derive_recovery_seed-ok K P.as_bytes code secret.salt secret.params derived.0
          (map_err-eq-ok crypto_failure _ derived.1) in
      (
        derived.0,
        cc,
        (checksum_matches_lem K derived.0 secret.checksum).0 checked.0,
        from.2,
        from.1,
        from.0,
      )
