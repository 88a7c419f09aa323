-- ===== src/Gitlab/Tokens.antt =====
-- `EnsureProjectAccessToken` of git/gitlab/gitlab.go.
pub mod Valid
pub mod Known
use lieutenant_operator.Prelude.{
  ℕ, String, Bool, true, false, not, ◌&&◌, Option, none, some, List, [], ◌∷◌, ◌==◌, if◌then◌else◌,
  ltb, ◌+◌, ◌*◌, sort_by, format_int,
}
use lieutenant_operator.Errors.{Outcome, ok, err, annotate}
use lieutenant_operator.Exec.{Exec, pure, lift, annotated, ◌>>=◌, ◌>>◌}
use lieutenant_operator.Gitlab.{AccessToken, Api, Session, reading, writing, project_id}

-- `manager.ProjectAccessToken`
pub record ProjectAccessToken : Type 0 where
  pub uid : String
  pub token : String
  pub expires_at : ℕ

abbrev pub day : ℕ
day = 86400

-- A token that counts, with its date of expiry: one that is up to ten days late does, too. The sum
-- stands for the difference in the code, which is of instants.
unfoldable pub valid_until : ℕ → Option AccessToken → Option (ℕ × AccessToken)
valid_until now none = none
valid_until now (some t) =
    if t.active && not t.revoked
    then elim t.expires_at [
      | none ↦ none
      | some e ↦ if ltb (e + 10 * day) now then none else some (e, t)
    ]
    else none

unfoldable pub valid_tokens : ℕ → List (Option AccessToken) → List (ℕ × AccessToken)
unfolding valid_until
valid_tokens now [] = []
valid_tokens now (t ∷ ts) =
    let rest = valid_tokens now ts in elim (valid_until now t) [ none ↦ rest | some v ↦ v ∷ rest ]

-- The later expiry first. Of tokens that expire together, which `slices.SortFunc` may leave in any
-- order, the earlier one of the list stands first.
unfoldable pub latest_first : List (ℕ × AccessToken) → List (ℕ × AccessToken)
latest_first = sort_by (λ w v. ltb v.0 w.0)

abbrev pub has_uid : String → ℕ × AccessToken → Bool
has_uid uid v = format_int v.1.id == uid

unfoldable pub with_uid : String → List (ℕ × AccessToken) → Option (ℕ × AccessToken)
with_uid uid [] = none
with_uid uid (v ∷ vs) = let rest = with_uid uid vs in if has_uid uid v then some v else rest

-- The token that is kept: the one asked for by its UID, or the one that expires last.
unfoldable pub kept_token : Option String → List (ℕ × AccessToken) → Option (ℕ × AccessToken)
unfolding with_uid
kept_token none [] = none
kept_token none (v ∷ vs) = some v
kept_token (some uid) vs = with_uid uid vs

-- What is told of a token that was there: its secret cannot be read again.
abbrev pub known : ℕ × AccessToken → ProjectAccessToken
known v = record { uid = format_int v.1.id; token = ""; expires_at = v.0 }

abbrev pub fresh : AccessToken → ProjectAccessToken
fresh t = record {
  uid = format_int t.id;
  token = t.token;
  expires_at = elim t.expires_at [ none ↦ 0 | some e ↦ e ];
}

module _ {W : Type 0} (api : Api W) where
  abbrev pub create_token : ℕ → String → Exec (Session W) ProjectAccessToken
  create_token id name = do
    now ← reading (λ w. ok (api.now w))
    t ←
        annotated "error response from gitlab when creating ProjectAccessToken"
          (writing (api.create_access_token id name (now + 30 * day)))
    pure (fresh t)

  unfoldable pub ensure_project_access_token :
      String → Option String → Exec (Session W) ProjectAccessToken
  unfolding valid_tokens latest_first kept_token
  ensure_project_access_token name uid = do
    id ← project_id
    at ← reading (api.list_access_tokens id)
    now ← reading (λ w. ok (api.now w))
    elim (kept_token uid (latest_first (valid_tokens now at))) [
      | some v ↦ pure (known v)
      | none ↦ create_token id name
    ]
