-- ===== src/Repository/CiVariables.antt =====
-- `ensureCIVariables` of controllers/gitrepo/steps.go.
pub mod Managed
use lieutenant_operator.Prelude.{
  String, Bool, true, false, Option, none, some, List, [], ◌∷◌, ◌++◌, map, ◌==◌, contains,
  if◌then◌else◌,
}
use lieutenant_operator.Errors.{Error, Outcome, ok, err, wrap, annotate, Multierr}
use lieutenant_operator.Exec.{Exec, pure, lift, annotated, ◌>>=◌, ◌>>◌}
use lieutenant_operator.Api.GitRepo.{GitRepo, EnvVar}
use lieutenant_operator.Kube.{Client}
use lieutenant_operator.CompilePipeline.Names.{sort_strings}
use lieutenant_operator.Gitlab.Variables.{Variable}
use lieutenant_operator.Repository.{
  Repo, Tools, Work, instance_of, change, asking, running, done_or,
}
use lieutenant_operator.Repository.Values.{value_from_env_var}

-- `sets.List` of the names: each once, in order.
unfoldable pub distinct : List String → List String
distinct [] = []
distinct (n ∷ ns) = let rest = distinct ns in if contains n rest then rest else n ∷ rest

unfoldable pub managed_names : List EnvVar → List EnvVar → List String
unfolding distinct
managed_names vars prev = sort_strings (distinct (map (λ v. v.name) (vars ++ prev)))

-- The variable that is sent: every option is given.
abbrev pub sent_variable : EnvVar → String → Variable
sent_variable v value = record {
  name = v.name;
  value = value;
  gitlab_options = record {
    description = some v.gitlab_options.description;
    protected = some v.gitlab_options.protected;
    masked = some v.gitlab_options.masked;
    raw = some v.gitlab_options.raw;
  };
}

abbrev pub set_last_applied : String → GitRepo → GitRepo
set_last_applied json g = record g {
  status = record (g.status) { last_applied_ci_variables = json };
}

module _ {W : Type 0} (cli : Client W) where
  -- The variables with their values, and the errors of those that have none.
  unfoldable pub collect : String → List EnvVar → W → List Variable × List Error
  collect namespace [] w = ([], [])
  collect namespace (v ∷ vs) w =
      let (vars, errs) = collect namespace vs w in
      elim (value_from_env_var cli namespace v w) [
        | ok value ↦ (sent_variable v value ∷ vars, errs)
        | err e ↦ (vars, e ∷ errs)
      ]

  module _ (tools : Tools W) (multierr : Multierr) (repo : Repo W) where
    unfoldable pub previous : String → Outcome (List EnvVar)
    previous json =
        if json == ""
        then ok []
        else annotate "error unmarshalling previous ci variables" (tools.unmarshal json)

    unfoldable pub ensure_ci_variables : Exec (Work W) (Unit {0})
    unfolding previous managed_names collect
    ensure_ci_variables = do
      g ← instance_of
      prev ← lift (previous g.status.last_applied_ci_variables)
      let spec_vars = g.spec.git_repo_template.ci_variables
      (vars, errs) ← asking (λ w. ok (collect g.meta.namespace spec_vars w))
      annotated "error collecting values for env vars" (lift (done_or (multierr.combine errs)))
      annotated "error ensuring ci variables"
          (running (repo.ensure_ci_variables (managed_names spec_vars prev) vars))
      json ← annotated "error marshalling ci variables" (lift (tools.marshal spec_vars))
      change (set_last_applied json)
