-- ===== src/Gitlab/Tokens/Known.antt =====
-- A token that is known by its UID is found again.
use lieutenant_operator.Prelude.{
  ℕ, String, ◌≡◌, ◌⊎◌, refl, sym, ◌∙◌, subst, true, false, Option, none, some, List, [], ◌∷◌, All,
  ltb, eq_iff, eq_refl, Bool-cases, Option-cases, inl, inr, format_int, format_int-injective,
  All-unsorted,
}
use lieutenant_operator.Errors.{ok}
use lieutenant_operator.Exec.{Exec, pure, continue_at}
use lieutenant_operator.Gitlab.{Project, AccessToken, Api, Session}
use lieutenant_operator.Gitlab.Tokens.{
  valid_until, valid_tokens, latest_first, has_uid, with_uid, kept_token, fresh, known,
  create_token, ProjectAccessToken, ensure_project_access_token,
}
use lieutenant_operator.Gitlab.Tokens.Valid.{All-with_uid, valid_until-kept_token}

without_uid :
    (uid : String) (vs : List (ℕ × AccessToken))
    → with_uid uid vs ≡ none
    → All (λ v. has_uid uid v ≡ false) vs
unfolding with_uid
without_uid uid [] h = tt
without_uid uid (v ∷ vs) h = elim (Bool-cases (has_uid uid v)) [
  | inl y ↦ let never : some v ≡ none = rw y at h in absurd (cc)
  | inr n ↦ (n, without_uid uid vs (rw n at h))
]

-- The token is one of the list.
abbrev pub IsListed : AccessToken → List (Option AccessToken) → Type 0
IsListed t [] = ⊥
IsListed t (x ∷ xs) = (x ≡ some t) ⊎ IsListed t xs

-- What holds of every valid token holds of a token that is listed and valid.
valid_tokens-All :
    (P : ℕ × AccessToken → Type 0) (now : ℕ) (at : List (Option AccessToken)) (t : AccessToken)
    (v : ℕ × AccessToken)
    → IsListed t at
    → valid_until now (some t) ≡ some v
    → All P (valid_tokens now at)
    → P v
unfolding valid_tokens
valid_tokens-All P now [] t v m h a = absurd m
valid_tokens-All P now (x ∷ xs) t v (inl e) h a =
    let b : All P (v ∷ valid_tokens now xs) =
      rw (valid_tokens, subst (λ y. valid_until now y ≡ some v) (sym e) h) at a in
    b.0
valid_tokens-All P now (x ∷ xs) t v (inr m) h a = elim (Option-cases (valid_until now x)) [
  | inl n ↦ valid_tokens-All P now xs t v m h (rw (valid_tokens, n) at a)
  | inr (u, e) ↦
      let b : All P (u ∷ valid_tokens now xs) = rw (valid_tokens, e) at a in
      valid_tokens-All P now xs t v m h b.1
]

-- A token that is listed and valid is found by its UID.
found_by_uid :
    (now : ℕ) (at : List (Option AccessToken)) (t : AccessToken) (v : ℕ × AccessToken)
    → IsListed t at
    → valid_until now (some t) ≡ some v
    → (u : ℕ × AccessToken) × (kept_token
          (some (format_int v.1.id))
          (latest_first (valid_tokens now at))
        ≡ some u)
unfolding kept_token latest_first
found_by_uid now at t v m h =
    let uid = format_int v.1.id in
    elim (Option-cases (with_uid uid (latest_first (valid_tokens now at)))) [
      | inr (u, e) ↦ (u, e)
      | inl n ↦
          let other : has_uid uid v ≡ false =
            valid_tokens-All (λ w. has_uid uid w ≡ false) now at t v m h
              (All-unsorted (λ (w u : ℕ × AccessToken). ltb u.0 w.0) (λ w. has_uid uid w ≡ false)
                (valid_tokens now at) (without_uid uid (latest_first (valid_tokens now at)) n)) in
          let never : true ≡ false = rw (eq_refl uid) at other in absurd (cc)
    ]

has_uid-with_uid :
    (uid : String) (vs : List (ℕ × AccessToken)) (u : ℕ × AccessToken)
    → with_uid uid vs ≡ some u
    → has_uid uid u ≡ true
has_uid-with_uid uid vs u h = (All-with_uid (λ w. Unit {0}) uid vs u h (everything vs)).1
  where
    everything : (ws : List (ℕ × AccessToken)) → All (λ w. Unit {0}) ws
    everything [] = tt
    everything (w ∷ ws) = (tt, everything ws)

-- A run that keeps a token changes nothing.
keeps :
    {W : Type 0} (api : Api W) (name : String) (uid : Option String) (s : Session W) (p : Project)
    (at : List (Option AccessToken)) (u : ℕ × AccessToken)
    → s.git.project ≡ some p
    → api.list_access_tokens p.id s.world ≡ ok at
    → kept_token uid (latest_first (valid_tokens (api.now s.world) at)) ≡ some u
    → ensure_project_access_token api name uid s ≡ (ok (known u), s)
unfolding ensure_project_access_token
keeps {W = W} api name uid s p at u g l e =
    simp (g) (continue_at _ (api.list_access_tokens p.id s.world) at s l ∙ settled _ e)
  where
    settled :
        (o : Option (ℕ × AccessToken))
        → o ≡ some u
        → (elim o as (λ x. Exec (Session W) ProjectAccessToken) [
          | none ↦ create_token api p.id name
          | some v ↦ pure (known v)
        ])
            s
          ≡ (ok (known u), s)
    settled o h = rw h refl

-- A token whose UID was told, and which the server lists, active, not revoked and not long expired, is
-- found again by that UID: `EnsureProjectAccessToken` on a project that was read tells the UID and the
-- expiry of a valid token with the same number and no secret, and makes no other token.
pub ensure_project_access_token_known :
    {W : Type 0} (api : Api W) (name : String) (s : Session W) (p : Project)
    (at : List (Option AccessToken)) (t : AccessToken) (expiry : ℕ)
    → s.git.project ≡ some p
    → api.list_access_tokens p.id s.world ≡ ok at
    → IsListed t at
    → valid_until (api.now s.world) (some t) ≡ some (expiry, t)
    → (u : ℕ × AccessToken) × (u.1.id ≡ t.id)
      × (valid_until (api.now s.world) (some u.1) ≡ some u)
      × (ensure_project_access_token api name (some (fresh t).uid) s ≡ (ok (known u), s))
unfolding ensure_project_access_token kept_token
ensure_project_access_token_known api name s p at t expiry g l m h =
    let now = api.now s.world in
    let (u, e) = found_by_uid now at t (expiry, t) m h in
    (
      u,
      format_int-injective u.1.id t.id (
          (eq_iff (format_int u.1.id) (format_int t.id)).0
            (has_uid-with_uid (format_int t.id) (latest_first (valid_tokens now at)) u e)),
      valid_until-kept_token (some (format_int t.id)) now at u e,
      keeps api name (some (format_int t.id)) s p at u g l e,
    )
