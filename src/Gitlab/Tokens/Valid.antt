-- ===== src/Gitlab/Tokens/Valid.antt =====
-- Which of the project's access tokens is kept.
use lieutenant_operator.Prelude.{
  ℕ, String, ◌≡◌, sym, subst, true, Option, none, some, List, [], ◌∷◌, arith, All, ltb, Ascending,
  sort_by-Ascending, All-sort_by, All-unsorted, Bool-cases, Option-cases, inl, inr, ◌≤◌,
}
use lieutenant_operator.Gitlab.{AccessToken}
use lieutenant_operator.Gitlab.Tokens.{
  valid_until, valid_tokens, latest_first, has_uid, with_uid, kept_token,
}

-- What holds of every token of the list holds of the one that is kept.
module _ (P : ℕ × AccessToken → Type 0) where
  pub All-with_uid :
      (uid : String) (vs : List (ℕ × AccessToken)) (v : ℕ × AccessToken)
      → with_uid uid vs ≡ some v
      → All P vs
      → P v × (has_uid uid v ≡ true)
  unfolding with_uid
  All-with_uid uid [] v h a = cc
  All-with_uid uid (w ∷ ws) v h a = elim (Bool-cases (has_uid uid w)) [
    | inl y ↦
        let e : w ≡ v = ground (arith) in (subst P e a.0, subst (λ x. has_uid uid x ≡ true) e y)
    | inr n ↦ All-with_uid uid ws v (ground (arith)) a.1
  ]

-- Every token of the valid ones satisfies the test.
abbrev Passes : ℕ → ℕ × AccessToken → Type 0
Passes now v = valid_until now (some v.1) ≡ some v

valid_until_same :
    (now : ℕ) (t : AccessToken) (v : ℕ × AccessToken) → valid_until now (some t) ≡ some v → v.1 ≡ t
unfolding valid_until
valid_until_same now t v h = ground (arith)

valid_until_pass :
    (now : ℕ) (o : Option AccessToken) (v : ℕ × AccessToken)
    → valid_until now o ≡ some v
    → Passes now v
unfolding valid_until
valid_until_pass now none v h = cc
valid_until_pass now (some t) v h =
    subst (λ u. valid_until now (some u) ≡ some v) (sym (valid_until_same now t v h)) h

valid_tokens_pass :
    (now : ℕ) (at : List (Option AccessToken)) → All (Passes now) (valid_tokens now at)
unfolding valid_tokens
valid_tokens_pass now [] = tt
valid_tokens_pass now (t ∷ ts) = elim (Option-cases (valid_until now t)) [
  | inl n ↦ rw (valid_tokens, n) (valid_tokens_pass now ts)
  | inr (v, e) ↦ rw (valid_tokens, e) (valid_until_pass now t v e, valid_tokens_pass now ts)
]

-- The order by expiry.
abbrev Later : ℕ × AccessToken → ℕ × AccessToken → Type 0
Later v w = w.0 ≤ v.0

latest_first-Ascending : (vs : List (ℕ × AccessToken)) → Ascending Later (latest_first vs)
unfolding latest_first
latest_first-Ascending vs =
    sort_by-Ascending (λ (w v : ℕ × AccessToken). ltb v.0 w.0) Later (λ a b c h k. omega arith)
      (λ w v h. ground (arith)) (λ w v h. ground (arith)) vs

kept_token-Passes :
    (uid : Option String) (now : ℕ) (vs : List (ℕ × AccessToken)) (v : ℕ × AccessToken)
    → kept_token uid vs ≡ some v
    → All (Passes now) vs
    → Passes now v
unfolding kept_token
kept_token-Passes none now [] v h a = cc
kept_token-Passes none now (w ∷ ws) v h a =
    let e : w ≡ v = ground (arith) in subst (Passes now) e a.0
kept_token-Passes (some uid) now vs v h a = (All-with_uid (Passes now) uid vs v h a).0

-- A token that is kept is valid: it is active, not revoked, and expires at the time that is told, which
-- is not more than ten days ago. This does not depend on how it was asked for.
pub valid_until-kept_token :
    (uid : Option String) (now : ℕ) (at : List (Option AccessToken)) (v : ℕ × AccessToken)
    → kept_token uid (latest_first (valid_tokens now at)) ≡ some v
    → valid_until now (some v.1) ≡ some v
unfolding latest_first
valid_until-kept_token uid now at v h =
    kept_token-Passes uid now (latest_first (valid_tokens now at)) v h (
      All-sort_by (λ (w v : ℕ × AccessToken). ltb v.0 w.0) (Passes now) (valid_tokens now at)
        (valid_tokens_pass now at))

kept_first :
    (vs : List (ℕ × AccessToken)) (v : ℕ × AccessToken)
    → Ascending Later vs
    → kept_token none vs ≡ some v
    → All (λ w. w.0 ≤ v.0) vs
unfolding kept_token
kept_first [] v l h = tt
kept_first (w ∷ ws) v l h =
    let e : w ≡ v = ground (arith) in
    let same : w.0 ≤ w.0 = omega arith in subst (λ x. All (λ w. w.0 ≤ x.0) (w ∷ ws)) e (same, l.0)

-- Asked for no token in particular, the one that is kept expires no earlier than any valid one.
pub kept_token_greatest :
    (now : ℕ) (at : List (Option AccessToken)) (v : ℕ × AccessToken)
    → kept_token none (latest_first (valid_tokens now at)) ≡ some v
    → All (λ w. w.0 ≤ v.0) (valid_tokens now at)
unfolding latest_first
kept_token_greatest now at v h =
    All-unsorted (λ (a b : ℕ × AccessToken). ltb b.0 a.0) (λ w. w.0 ≤ v.0) (valid_tokens now at)
      (kept_first (latest_first (valid_tokens now at)) v
        (latest_first-Ascending (valid_tokens now at)) h)
