-- ===== src/App/Get/Search/Ranking.antt =====
-- Which login `get` chooses among those that match, and which vaults it looks in.
use heyl.Prelude.{
  compare, ◌≤◌, ◌≡◌, some, List, ◌∷◌, arith, In, All, All-imp, flip-compare, TextLe, is_gt, IsOrder,
  compare_ℕ-IsOrder, compare-IsOrder, reversed-IsOrder, or_then-IsOrder, on-IsOrder, false,
  first_of-sort_by, first_of-sort_by-some,
}
use heyl.Domain.Ids.{Uuids, show}
use heyl.Vault.Login.{liveness, recency}
use heyl.App.Get.Fields.{Opener}
use heyl.App.Get.Search.{Candidate, bucket_rank, compare_candidates, rank}
use Prim.Native.String.{compare as compare_text}

module _ {U : Uuids} {O : Opener} where
  compare_candidates-IsOrder : IsOrder (compare_candidates {U = U} {O = O})
  unfolding compare_candidates
  compare_candidates-IsOrder =
      or_then-IsOrder _ _
        (or_then-IsOrder _ _
          (or_then-IsOrder _ _
            (on-IsOrder (λ (c : Candidate U O). bucket_rank (liveness c.login)) compare
              compare_ℕ-IsOrder)
            (on-IsOrder (λ (c : Candidate U O). c.tier) compare compare_ℕ-IsOrder))
          (reversed-IsOrder _
            (on-IsOrder (λ (c : Candidate U O). recency c.login) compare_text compare-IsOrder)))
        (on-IsOrder (λ (c : Candidate U O). show U c.login.id) compare_text compare-IsOrder)

  -- The order in plain terms: no worse a liveness; at the same liveness no later a tier; and at the same
  -- tier no older a change.
  abbrev pub IsPreferred : Candidate U O → Candidate U O → Type 0
  IsPreferred c d =
      (bucket_rank (liveness c.login) ≤ bucket_rank (liveness d.login))
      × (bucket_rank (liveness c.login) ≡ bucket_rank (liveness d.login)
          → (c.tier ≤ d.tier) × (c.tier ≡ d.tier → TextLe (recency d.login) (recency c.login)))

  preferred : (c d : Candidate U O) → is_gt (compare_candidates c d) ≡ false → IsPreferred c d
  unfolding compare_candidates
  preferred c d h = (
    ground arith,
    λ e. (ground arith, λ f. ground (arith, flip-compare (recency d.login) (recency c.login))),
  )

  -- The chosen login is one of those that match.
  pub rank_sound :
      (candidates : List (Candidate U O)) (c : Candidate U O)
      → rank candidates ≡ some c
      → In c candidates
  unfolding rank
  rank_sound candidates c e =
      (first_of-sort_by compare_candidates compare_candidates-IsOrder candidates c e).0

  -- Where any login matches, one of them is chosen, and it is preferred to every one that matches.
  pub rank-IsPreferred :
      (first : Candidate U O) (others : List (Candidate U O))
      → (c : Candidate U O) × (rank (first ∷ others) ≡ some c)
        × In c (first ∷ others)
        × All (IsPreferred c) (first ∷ others)
  unfolding rank
  rank-IsPreferred first others =
      let (c, e) = first_of-sort_by-some compare_candidates first others in
      let (m, below) =
        first_of-sort_by compare_candidates compare_candidates-IsOrder (first ∷ others) c e in
      (c, e, m, All-imp (λ d. preferred c d) (first ∷ others) below)
