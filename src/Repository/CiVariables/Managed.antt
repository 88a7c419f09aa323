-- ===== src/Repository/CiVariables/Managed.antt =====
-- Which variables the server is told of.
use lieutenant_operator.Prelude.{
  String, ◌≡◌, refl, ◌∙◌, ap, ◌||◌, some, List, [], ◌∷◌, ◌++◌, map, arith, eq_iff, contains,
  Option-cases, inl, inr,
}
use lieutenant_operator.Errors.{Error, Multierr, Outcome-cases}
use lieutenant_operator.Api.GitRepo.{EnvVar}
use lieutenant_operator.Kube.{Client}
use lieutenant_operator.CompilePipeline.Status.{contains-sort_strings}
use lieutenant_operator.Repository.{Repo, Tools, Work}
use lieutenant_operator.Repository.CiVariables.{
  distinct, managed_names, ensure_ci_variables, collect, previous,
}

contains-distinct : (n : String) (ns : List String) → contains n (distinct ns) ≡ contains n ns
unfolding distinct contains
contains-distinct n [] = refl
contains-distinct n (m ∷ ns) =
    ground (arith, eq_iff m n, contains-distinct n ns, contains-distinct m ns)

contains-append :
    (n : String) (a b : List String) → contains n (a ++ b) ≡ (contains n a || contains n b)
unfolding contains
contains-append n [] b = refl
contains-append n (m ∷ a) b = ground (arith, contains-append n a b)

names-append :
    (a b : List EnvVar) → map (λ v. v.name) (a ++ b) ≡ map (λ v. v.name) a ++ map (λ v. v.name) b
names-append [] b = refl
names-append (v ∷ a) b = ap (λ l. v.name ∷ l) (names-append a b)

-- A name is managed exactly if a variable of that name is asked for now or was at the last run.
pub contains-managed_names :
    (n : String) (vars prev : List EnvVar)
    → contains n (managed_names vars prev)
      ≡ (contains n (map (λ v. v.name) vars) || contains n (map (λ v. v.name) prev))
unfolding managed_names
contains-managed_names n vars prev =
    contains-sort_strings n (distinct (map (λ v. v.name) (vars ++ prev)))
    ∙ contains-distinct n (map (λ v. v.name) (vars ++ prev))
    ∙ ap (contains n) (names-append vars prev)
    ∙ contains-append n (map (λ v. v.name) vars) (map (λ v. v.name) prev)

combine_some :
    (multierr : Multierr) (e : Error) (es : List Error)
    → (x : Error) × (multierr.combine (e ∷ es) ≡ some x)
combine_some multierr e es = elim (Option-cases (multierr.combine (e ∷ es))) [
  | inl n ↦ cc ((multierr.combine_iff (e ∷ es)).0 n)
  | inr (x, q) ↦ (x, q)
]

module _ {W : Type 0} (cli : Client W) (tools : Tools W) (multierr : Multierr) (repo : Repo W) where
  -- Where the value of a variable cannot be read, the run fails before the server is told of any
  -- variable: neither the object nor the world changes.
  pub ensure_ci_variables_unread :
      (s : Work W) (e : Error) (es : List Error)
      → (collect cli s.instance_.meta.namespace s.instance_.spec.git_repo_template.ci_variables
          s.world).1
        ≡ e ∷ es
      → (ensure_ci_variables cli tools multierr repo s).1 ≡ s
  unfolding ensure_ci_variables
  ensure_ci_variables_unread s e es h =
      elim (Outcome-cases
        (previous cli tools multierr repo s.instance_.status.last_applied_ci_variables)) [
          | inl (prev, p) ↦ let (x, q) = combine_some multierr e es in rw (p, h, q)
          | inr (x, p) ↦ rw p
        ]
