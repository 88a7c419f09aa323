-- ===== src/Gitlab/Examples.antt =====
-- The theorems on GitLab projects at concrete projects.
use lieutenant_operator.Prelude.{
  ℕ, zero, suc, String, ◌≡◌, ◌≢◌, refl, inl, inr, true, false, Option, none, some, List, [], ◌∷◌,
  arith, eq_iff, subst, ◌==◌, Bool-cases, Dict, lookup, contains, format_int,
}
use lieutenant_operator.Errors.{Outcome, ok, err, status, not_found}
use lieutenant_operator.Git.Urls.{has_char}
use lieutenant_operator.Gitlab.{AccessToken, ProjectVariable, Api}
use lieutenant_operator.Gitlab.Files.{changes}
use lieutenant_operator.Gitlab.Files.{commit_template_files}
use lieutenant_operator.Gitlab.{Session}
use lieutenant_operator.Gitlab.Files.Committing.{commit_template_files_ends}
use lieutenant_operator.Gitlab.Files.Paging.{HasPages}
use lieutenant_operator.Gitlab.Files.Changes.{
  changes_of, deletion, creation, IsRootFile, IsCommitted, present_after, as_wanted,
  changes-committed,
}
use lieutenant_operator.Gitlab.Tokens.{valid_until, known, ensure_project_access_token}
use lieutenant_operator.Gitlab.Tokens.Known.{ensure_project_access_token_known}
use lieutenant_operator.Gitlab.Variables.{Variable}
use lieutenant_operator.Gitlab.Variables.Examples.{receiver, offline}

-- A repository with files on two pages.
abbrev tree : ℕ → Outcome (List String × ℕ)
tree zero = err (status not_found)
tree (suc zero) = ok ("README.md" ∷ [], 2)
tree (suc (suc n)) = ok ("old.yml" ∷ [], 0)

abbrev two_pages : Api ℕ
two_pages = record offline {
  list_tree = λ i page w. tree page;
  create_commit = λ i actions w. (none, suc w);
}

two_pages-HasPages : HasPages two_pages 7 2 0
two_pages-HasPages zero next trees h = cc
two_pages-HasPages (suc zero) next trees h =
    let e : 2 ≡ next = ground (arith) in inr (omega arith, omega arith)
two_pages-HasPages (suc (suc n)) next trees h =
    let e : 0 ≡ next = ground (arith) in inl (omega arith)

abbrev template : Dict String
template = ("class.yml", "a: b") ∷ ("old.yml", "{delete}") ∷ []

abbrev session : Session ℕ
session = record { git = record receiver { template_files = template }; world = 0 }

commit_template_files_ends_example : (commit_template_files two_pages 2 session).0 ≢ ok none
commit_template_files_ends_example =
    commit_template_files_ends two_pages 2 2 session (record { id = 7; description = "" }) refl
      two_pages-HasPages (omega arith) (omega arith)

abbrev paths : List String
paths = "README.md" ∷ "old.yml" ∷ []

abbrev paths_after : List String
paths_after = "class.yml" ∷ "README.md" ∷ []

what_changes : changes paths template ≡ creation "class.yml" "a: b" ∷ deletion "old.yml" ∷ []
unfolding changes contains
what_changes = refl

abbrev IsKept : String → Type 0
IsKept name =
    contains name paths_after
    ≡ present_after (contains name paths)
        (changes_of name (creation "class.yml" "a: b" ∷ deletion "old.yml" ∷ []))

paths-IsCommitted : IsCommitted (changes paths template) paths paths_after
unfolding changes_of contains
paths-IsCommitted name r = rw what_changes (elim (Bool-cases ("class.yml" == name)) [
  | inl y ↦ subst IsKept ((eq_iff "class.yml" name).0 y) refl
  | inr n ↦ elim (Bool-cases ("old.yml" == name)) [
    | inl y ↦ subst IsKept ((eq_iff "old.yml" name).0 y) refl
    | inr m ↦ rw (n, m) refl
  ]
])

changes-committed_example :
    ((name : String)
      → IsRootFile name
      → contains name paths_after ≡ as_wanted (contains name paths) (lookup name template))
    × (changes paths_after template ≡ [])
unfolding lookup has_char
changes-committed_example =
    changes-committed paths paths_after template (refl, (refl, tt)) (refl, (refl, tt))
      paths-IsCommitted

abbrev token : ℕ → ℕ → AccessToken
token id e = record { id = id; token = ""; active = true; revoked = false; expires_at = some e }

abbrev tokens : List (Option AccessToken)
tokens = some (token 1 5) ∷ none ∷ some (token 2 1200000) ∷ some (token 3 1300000) ∷ []

-- The server lists the tokens.
abbrev with_tokens : Api ℕ
with_tokens = record two_pages { list_access_tokens = λ i w. ok tokens }

ensure_project_access_token_known_example :
    (u : ℕ × AccessToken) × (u.1.id ≡ 2)
    × (valid_until 1000000 (some u.1) ≡ some u)
    × (ensure_project_access_token with_tokens "token" (some "2") session ≡ (ok (known u), session))
unfolding valid_until format_int
ensure_project_access_token_known_example =
    ensure_project_access_token_known with_tokens "token" session
      (record { id = 7; description = "" }) tokens (token 2 1200000) 1200000 refl refl
      (inr (inr (inl refl))) refl

abbrev remote_variable : ProjectVariable
remote_variable = record {
  key = "TOKEN";
  value = "old";
  description = "";
  protected = false;
  masked = false;
  raw = true;
}

abbrev pub described : Variable
described = record {
  name = "TOKEN";
  value = "new";
  gitlab_options = record {
    description = some "Token of the API";
    protected = some true;
    masked = none;
    raw = some true;
  };
}
