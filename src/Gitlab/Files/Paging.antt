-- ===== src/Gitlab/Files/Paging.antt =====
-- The loop over the pages of a repository's files ends.
use lieutenant_operator.Prelude.{
  ℕ, zero, suc, String, ◌≡◌, ◌≢◌, refl, ◌+◌, ◌<◌, ◌≤◌, ◌⊎◌, inl, inr, List, arith, ◌++◌, Bool-cases,
}
use lieutenant_operator.Errors.{Outcome, ok, err, is_not_found}
use lieutenant_operator.Gitlab.{Api}
use lieutenant_operator.Gitlab.Files.{spent, list_pages}

-- The pages of a repository are numbered upwards, and there is a last one.
abbrev pub HasPages : {W : Type 0} → Api W → ℕ → ℕ → W → Type 0
HasPages api id last w =
    (page next : ℕ) (trees : List String)
    → api.list_tree id page w ≡ ok (trees, next)
    → (next ≡ 0) ⊎ ((page < next) × (next ≤ last))

module _ {W : Type 0} (api : Api W) (id last : ℕ) (w : W) (pages : HasPages api id last w) where
  step :
      (fuel page : ℕ) (paths : List String) (o : Outcome (List String × ℕ))
      → ((n : ℕ) (trees : List String)
          → page < suc n
          → suc n ≤ last
          → list_pages api fuel id (suc n) (paths ++ trees) w ≢ spent)
      → api.list_tree id page w ≡ o
      → list_pages api (suc fuel) id page paths w ≢ spent
  unfolding list_pages
  step fuel page paths (err e) rest h = elim (Bool-cases (is_not_found e)) [
    | inl y ↦ rw (list_pages, h, y) (λ c. cc)
    | inr n ↦ rw (list_pages, h, n) (λ c. cc)
  ]
  step fuel page paths (ok (trees, zero)) rest h = rw (list_pages, h) (λ c. cc)
  step fuel page paths (ok (trees, suc n)) rest h = elim (pages page (suc n) trees h) [
    | inl z ↦ omega arith
    | inr (up, most) ↦ rw (list_pages, h) (rest n trees up most)
  ]

  -- Where the pages are numbered upwards and there is a last one, the loop from a page that is not after
  -- the last ends with fuel for the pages that are left, so that the code gets every page or an error.
  pub list_pages_ends :
      (fuel page : ℕ) (paths : List String)
      → page ≤ last
      → last < page + fuel
      → list_pages api fuel id page paths w ≢ spent
  unfolding list_pages
  list_pages_ends zero page paths p enough = omega arith
  list_pages_ends (suc fuel) page paths p enough =
      step fuel page paths (api.list_tree id page w)
        (λ n trees up most. list_pages_ends fuel (suc n) (paths ++ trees) most (omega arith)) refl
