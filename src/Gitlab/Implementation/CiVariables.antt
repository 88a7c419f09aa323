-- ===== src/Gitlab/Implementation/CiVariables.antt =====
-- The CI variables of a repository object on GitLab: `ensureCIVariables` of controllers/gitrepo/steps.go
-- with `EnsureCIVariables` of git/gitlab/gitlab.go.
use lieutenant_operator.Prelude.{
  ℕ, String, ◌≡◌, refl, sym, ap, subst, true, false, ◌==◌, Option, none, some, List, [], ◌∷◌, All,
  contains, Bool-cases, Option-cases, inl, inr,
}
use lieutenant_operator.Errors.{Error, Outcome, ok, err, Multierr, Outcome-cases}
use lieutenant_operator.Api.GitRepo.{EnvVar}
use lieutenant_operator.Kube.{Client}
use lieutenant_operator.EnvVars.Find.{find_var}
use lieutenant_operator.Repository.{Repo, Tools, Work}
use lieutenant_operator.Repository.Steps.Adopting.{succeeded}
use lieutenant_operator.Repository.Values.{value_from_env_var}
use lieutenant_operator.Repository.CiVariables.{
  managed_names, sent_variable, collect, previous, ensure_ci_variables,
}
use lieutenant_operator.Git.Urls.{UrlLibrary}
use lieutenant_operator.Gitlab.{Project, ProjectVariable, Api, Session}
use lieutenant_operator.Gitlab.Variables
use lieutenant_operator.Gitlab.Variables.{Variable}
use lieutenant_operator.Gitlab.Variables.Unmanaged.{View, VariableLaws}
use lieutenant_operator.Gitlab.Variables.Calls.{Matches}
use lieutenant_operator.Gitlab.Variables.Managed.{
  wanted, HasDistinctNames, ensure_ci_variables-Matches,
}
use lieutenant_operator.Gitlab.Implementation.{error_of, repo_of}

-- A name stands once among the variables of the object.
abbrev pub HasDistinctVars : List EnvVar → Type 0
HasDistinctVars [] = Unit
HasDistinctVars (v ∷ vs) = All (λ u. (u.name == v.name) ≡ false) vs × HasDistinctVars vs

module _ {W : Type 0} (cli : Client W) (namespace : String) (w : W) where
  -- What is on the server for a name, by what the object asks for: nothing, or a variable with the value
  -- that the entry has or that its secret gives.
  abbrev pub AsAsked : Option EnvVar → Option ProjectVariable → Type 0
  AsAsked none r = r ≡ none
  AsAsked (some v) r =
      (value : String) × (value_from_env_var cli namespace v w ≡ ok value)
      × (x : ProjectVariable) × (r ≡ some x)
      × (x.value ≡ value)

  abbrev Collected : Option EnvVar → Option Variable → Type 0
  Collected none o = o ≡ none
  Collected (some v) o =
      (value : String) × (value_from_env_var cli namespace v w ≡ ok value)
      × (o ≡ some (sent_variable v value))

  -- Without an error the first variable is sent, and so are the others.
  collect-cons :
      (v : EnvVar) (vs : List EnvVar)
      → (collect cli namespace (v ∷ vs) w).1 ≡ []
      → (value : String) × (value_from_env_var cli namespace v w ≡ ok value)
        × ((collect cli namespace (v ∷ vs) w).0
            ≡ sent_variable v value ∷ (collect cli namespace vs w).0)
        × ((collect cli namespace vs w).1 ≡ [])
  unfolding collect
  collect-cons v vs h = elim (Outcome-cases (value_from_env_var cli namespace v w)) [
    | inl (value, e) ↦ (value, e, rw (collect, e) refl, rw (collect, e) at h)
    | inr (x, e) ↦ let never : (_ ∷ _) ≡ [] = rw (collect, e) at h in absurd (cc)
  ]

  collect-Collected :
      (m : String) (vs : List EnvVar)
      → (collect cli namespace vs w).1 ≡ []
      → Collected (find_var m vs) (wanted m (collect cli namespace vs w).0)
  unfolding find_var wanted collect
  collect-Collected m [] h = refl
  collect-Collected m (v ∷ vs) h =
      let (value, e, sent, rest) = collect-cons v vs h in
      elim (Bool-cases (v.name == m)) [
        | inl y ↦ rw (find_var, y, sent, y) (value, e, refl)
        | inr n ↦ rw (find_var, n, sent, n) (collect-Collected m vs rest)
      ]

  collect-others :
      (n : String) (vs : List EnvVar)
      → (collect cli namespace vs w).1 ≡ []
      → All (λ u. (u.name == n) ≡ false) vs
      → All (λ u. (u.name == n) ≡ false) (collect cli namespace vs w).0
  unfolding collect
  collect-others n [] h a = tt
  collect-others n (v ∷ vs) h a =
      let (value, e, sent, rest) = collect-cons v vs h in
      subst (All (λ u. (u.name == n) ≡ false)) (sym sent) (a.0, collect-others n vs rest a.1)

  collect-HasDistinctNames :
      (vs : List EnvVar)
      → (collect cli namespace vs w).1 ≡ []
      → HasDistinctVars vs
      → HasDistinctNames (collect cli namespace vs w).0
  unfolding collect
  collect-HasDistinctNames [] h d = tt
  collect-HasDistinctNames (v ∷ vs) h d =
      let (value, e, sent, rest) = collect-cons v vs h in
      subst HasDistinctNames (sym sent)
        (collect-others v.name vs rest d.0, collect-HasDistinctNames vs rest d.1)

  Matches-AsAsked :
      (v : Option EnvVar) (o : Option Variable) (r : Option ProjectVariable)
      → Collected v o
      → Matches o r
      → AsAsked v r
  Matches-AsAsked none o r c m = subst (λ x. Matches x r) c m
  Matches-AsAsked (some v) o r (value, e, c) m =
      let (x, there, same) = subst (λ y. Matches y r) c m in (value, e, x, there, same)

-- What a run that succeeded has done: it read the names of the last run, had a value for every variable,
-- and its call of the repository succeeded.
record Succeeded {S : Type 0} (cli : Client S) (tools : Tools S) (multierr : Multierr)
    (repo : Repo S) (s t : Work S) (prev : List EnvVar) : Type 0 where
  collected :
      (collect cli s.instance_.meta.namespace s.instance_.spec.git_repo_template.ci_variables
        s.world).1
      ≡ []
  call :
      repo.ensure_ci_variables
        (managed_names s.instance_.spec.git_repo_template.ci_variables prev)
        (collect cli s.instance_.meta.namespace s.instance_.spec.git_repo_template.ci_variables
          s.world).0
        s.world
      ≡ (none, t.world)

module _ {S : Type 0} (cli : Client S) (tools : Tools S) (multierr : Multierr) (repo : Repo S) where
  run-Succeeded :
      (s t : Work S) (prev : List EnvVar)
      → previous cli tools multierr repo s.instance_.status.last_applied_ci_variables ≡ ok prev
      → ensure_ci_variables cli tools multierr repo s ≡ (ok tt, t)
      → Succeeded cli tools multierr repo s t prev
  unfolding ensure_ci_variables
  run-Succeeded s t prev p h =
      let vars = s.instance_.spec.git_repo_template.ci_variables in
      let errs = (collect cli s.instance_.meta.namespace vars s.world).1 in
      let sent = (collect cli s.instance_.meta.namespace vars s.world).0 in
      let r = repo.ensure_ci_variables (managed_names vars prev) sent s.world in
      let good : succeeded (ensure_ci_variables cli tools multierr repo s).0 ≡ true =
        ap (λ (x : Outcome (Unit {0}) × Work S). succeeded x.0) h in
      elim (Option-cases (multierr.combine errs)) [
        | inr (x, e) ↦ let never : false ≡ true = rw (p, e) at good in absurd (cc)
        | inl n ↦ elim (Option-cases r.0) [
          | inr (x, e) ↦ let never : false ≡ true = rw (p, n, e) at good in absurd (cc)
          | inl e ↦ elim (Outcome-cases (tools.marshal vars)) [
            | inr (x, m) ↦ let never : false ≡ true = rw (p, n, e, m) at good in absurd (cc)
            | inl (json, m) ↦
                let done = rw (p, n, e, m) at h in
                let w : r.1 ≡ t.world = ap (λ (x : Outcome (Unit {0}) × Work S). x.1.world) done in
                record { collected = (multierr.combine_iff errs).0 n; call = λ i. (e i, w i) }
          ]
        ]
      ]

without_error :
    {S : Type 0} (r : Outcome (Unit {0}) × S) (t : S)
    → ◌≡◌ {A = Option Error × S} (error_of r.0, r.1) (none, t)
    → r ≡ (ok tt, t)
without_error (ok u, w) t h = ap (λ x. (ok tt, x.1)) h
without_error (err e, w) t h = absurd (cc)

module _ {W : Type 0} (cli : Client (Session W)) (tools : Tools (Session W)) (api : Api W)
    (view : View W) (library : UrlLibrary) (multierr : Multierr) (fuel : ℕ)
    (format_time : ℕ → String) where
  -- Given what GitLab documents of its calls: where the step for the CI variables of an object, with a
  -- project on GitLab that was read, ends without an error and no two of its variables have one name, every
  -- name that the object asks for, or asked for at the last run, is on GitLab what the object asks for: a
  -- variable with the value of the entry or of its secret, or none.
  pub ensure_ci_variables-AsAsked :
      VariableLaws api view
      → (p : Project) (m : String) (s t : Work (Session W)) (prev : List EnvVar)
      → s.world.git.project ≡ some p
      → HasDistinctVars s.instance_.spec.git_repo_template.ci_variables
      → previous cli tools multierr
          (repo_of api library multierr fuel format_time)
          s.instance_.status.last_applied_ci_variables
        ≡ ok prev
      → contains m (managed_names s.instance_.spec.git_repo_template.ci_variables prev) ≡ true
      → ensure_ci_variables cli tools multierr (repo_of api library multierr fuel format_time) s
        ≡ (ok tt, t)
      → AsAsked cli s.instance_.meta.namespace s.world
          (find_var m s.instance_.spec.git_repo_template.ci_variables)
          (view p.id m t.world.world)
  unfolding repo_of
  ensure_ci_variables-AsAsked laws p m s t prev g d q c h =
      let vars = s.instance_.spec.git_repo_template.ci_variables in
      let ns = s.instance_.meta.namespace in
      let sent = (collect cli ns vars s.world).0 in
      let run =
        run-Succeeded cli tools multierr (repo_of api library multierr fuel format_time) s t prev q
          h in
      let inner : Variables.ensure_ci_variables api multierr (managed_names vars prev) sent s.world
          ≡ (ok tt, t.world) =
        without_error
          (Variables.ensure_ci_variables api multierr (managed_names vars prev) sent s.world)
          t.world run.call in
      Matches-AsAsked cli ns s.world (find_var m vars) (wanted m sent) (view p.id m t.world.world)
        (collect-Collected cli ns s.world m vars run.collected)
        (ensure_ci_variables-Matches api view multierr laws p m (managed_names vars prev) sent
          s.world t.world g (collect-HasDistinctNames cli ns s.world vars run.collected d) c inner)
