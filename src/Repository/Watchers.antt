-- ===== src/Repository/Watchers.antt =====
-- controllers/gitrepo/watchers: which repositories are reconciled when a secret changes.
use lieutenant_operator.Prelude.{
  String, ◌≡◌, refl, true, not, Option, none, some, List, [], ◌∷◌, arith, ◌==◌, eq_refl, contains,
  if◌then◌else◌, Among, ap, Option-cases, inl, inr,
}
use lieutenant_operator.Errors.{Outcome, ok, err}
use lieutenant_operator.Api.Meta.{NamespacedName}
use lieutenant_operator.Api.GitRepo.{GitRepo, EnvVar, SecretKeySelector}
use lieutenant_operator.Repository.Values.{source_selector}

-- The secret that a variable refers to, if its name is not empty.
abbrev pub referred : EnvVar → Option String
referred e = elim e.value_from [
  | none ↦ none
  | some src ↦ elim src.secret_key_ref [
    | none ↦ none
    | some k ↦ if not (k.name == "") then some k.name else none
  ]
]

unfoldable pub referred_names : List EnvVar → List String
referred_names [] = []
referred_names (e ∷ es) =
    let rest = referred_names es in elim (referred e) [ none ↦ rest | some n ↦ n ∷ rest ]

-- `GitRepoCIVariableValueFromSecretKeyRefNameIndexFunc`
unfoldable pub secret_index : GitRepo → List String
unfolding referred_names
secret_index g = referred_names g.spec.git_repo_template.ci_variables

-- The server's answer is the repositories of the namespace that the index has under the secret's name.
unfoldable pub secret_requests : Outcome (List GitRepo) → List NamespacedName
secret_requests (err e) = []
secret_requests (ok []) = []
secret_requests (ok (g ∷ gs)) =
    record { namespace = g.meta.namespace; name = g.meta.name } ∷ secret_requests (ok gs)

referred-selector :
    (e : EnvVar) (k : SecretKeySelector)
    → source_selector e ≡ ok (some k)
    → referred e ≡ some k.name
referred-selector e k h = ground (arith)

contains-referred_names :
    (e : EnvVar) (es : List EnvVar) (n : String)
    → referred e ≡ some n
    → contains n (referred_names (e ∷ es)) ≡ true
unfolding referred_names
contains-referred_names e es n h =
    rw (referred_names, h) (unfold contains in ground (arith, eq_refl n))

referred_names_keeps :
    (e : EnvVar) (es : List EnvVar) (n : String)
    → contains n (referred_names es) ≡ true
    → contains n (referred_names (e ∷ es)) ≡ true
unfolding referred_names
referred_names_keeps e es n h = elim (Option-cases (referred e)) [
  | inl q ↦ rw (referred_names, q) h
  | inr (m, q) ↦ rw (referred_names, q) (unfold contains in ground (arith))
]

referred-indexed :
    (e : EnvVar) (es : List EnvVar) (n : String)
    → Among e es
    → referred e ≡ some n
    → contains n (referred_names es) ≡ true
referred-indexed e [] n m h = absurd m
referred-indexed e (f ∷ es) n (inl q) h = contains-referred_names f es n (rw q h)
referred-indexed e (f ∷ es) n (inr m) h = referred_names_keeps f es n (referred-indexed e es n m h)

-- What the server answers to a list by the index: every stored object of the namespace that the index
-- function gives the name.
abbrev pub IsListed : List GitRepo → String → String → List GitRepo → Type 0
IsListed stored namespace name listed =
    (g : GitRepo)
    → Among g stored
    → g.meta.namespace ≡ namespace
    → contains name (secret_index g) ≡ true
    → Among g listed

abbrev pub request_for : GitRepo → NamespacedName
request_for g = record { namespace = g.meta.namespace; name = g.meta.name }

request-secret_requests :
    (g : GitRepo) (gs : List GitRepo) → Among g gs → Among (request_for g) (secret_requests (ok gs))
unfolding secret_requests
request-secret_requests g [] m = absurd m
request-secret_requests g (f ∷ gs) (inl q) = inl (ap request_for q)
request-secret_requests g (f ∷ gs) (inr m) = inr (request-secret_requests g gs m)

-- Where the server lists the repositories of a secret's namespace by the index, a change of the secret asks
-- for a reconciliation of every repository there that has a variable whose value is read from the secret.
pub secret_requests-covers :
    (stored listed : List GitRepo) (g : GitRepo) (e : EnvVar) (k : SecretKeySelector)
    → IsListed stored g.meta.namespace k.name listed
    → Among g stored
    → Among e g.spec.git_repo_template.ci_variables
    → source_selector e ≡ ok (some k)
    → Among (request_for g) (secret_requests (ok listed))
unfolding secret_index
secret_requests-covers stored listed g e k lists m v s = request-secret_requests g listed (
    lists g m refl
      (referred-indexed e g.spec.git_repo_template.ci_variables k.name v (referred-selector e k s)))
