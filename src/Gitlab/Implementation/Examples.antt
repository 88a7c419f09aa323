-- ===== src/Gitlab/Implementation/Examples.antt =====
-- The theorems on the GitLab module as a repository, at a server in memory.
use lieutenant_operator.Prelude.{◌≡◌, refl, none, some, [], ◌∷◌, lookup, insert, delete, contains}
use lieutenant_operator.Errors.{ok, err, status, not_found}
use lieutenant_operator.Api.GitRepo.{GitRepo}
use lieutenant_operator.Api.Core.{Secret}
use lieutenant_operator.Kube.{Client}
use lieutenant_operator.Kube.Memory.{Server, empty_server, memory, focused}
use lieutenant_operator.EnvVars.{plain_env_var}
use lieutenant_operator.EnvVars.Find.{find_var}
use lieutenant_operator.CompilePipeline.Names.{sort_strings}
use lieutenant_operator.Repository.{Repo, Tools, Work}
use lieutenant_operator.Repository.Steps.{repo_exists}
use lieutenant_operator.Repository.Values.{value_from_env_var}
use lieutenant_operator.Repository.CiVariables.{
  distinct, managed_names, collect, previous, ensure_ci_variables,
}
use lieutenant_operator.Gitlab.Variables.{
  to_delete, difference, remove_each, by_name, update_each, changed, var_needs_update,
  update_or_create_ci_variable, sent,
}
use lieutenant_operator.Gitlab.Implementation.Existence.{Told, repo_exists_lem}
use lieutenant_operator.Gitlab.Implementation.CiVariables.{AsAsked, ensure_ci_variables-AsAsked}
use lieutenant_operator.Git.Urls.{has_char}
use lieutenant_operator.Git.Manager.{
  put_keys, merged_keys, parse_ssh_endpoint, options_from, new_repo, connected, fetched,
  client_from, client_of, get_git_client,
}
use lieutenant_operator.Git.Manager.Examples.{urls, path_only, repository}
use lieutenant_operator.Gitlab.{Gitlab, Session}
use lieutenant_operator.Gitlab.Variables.Examples.{
  Values, kept, view, session, kept-VariableLaws, variable, receiver, offline, first_error,
}
use lieutenant_operator.Gitlab.Implementation.{full_url, repo_of, implementation}
use lieutenant_operator.Gitlab.Implementation.Addresses.{full_url-without_scheme}
use lieutenant_operator.Gitlab.Implementation.Contract.{IsNamed, get_git_client-IsNamed}

abbrev without_scheme : Gitlab
without_scheme = record receiver {
  url = path_only "git.example.com/syn/acme";
  ssh_host = "ssh.example.com";
}

full_url-without_scheme_example :
    full_url without_scheme
    ≡ record (path_only "/syn/acme.git") { scheme = "ssh"; user = "git"; host = "ssh.example.com" }
unfolding has_char
full_url-without_scheme_example =
    full_url-without_scheme without_scheme "git.example.com" "syn/acme" refl refl refl refl refl

abbrev git_secret : Secret
git_secret = record {
  meta = record (repository.meta) { name = "" };
  type = "";
  contents =
      ("endpoint", "git.example.com") ∷ ("token", "glpat") ∷ ("hostKeys", "ssh-ed25519 AAAA") ∷ [];
}

abbrev with_secret : Session Server
with_secret = record { git = receiver; world = record empty_server { secrets = git_secret ∷ [] } }

abbrev no_tools : {S : Type 0} → Tools S
no_tools = record {
  get_git_client = λ g w. (err (status not_found), w);
  unmarshal = λ s. ok [];
  marshal = λ vars. ok "json";
  new_key = λ rsa w. (err (status not_found), w);
  create_or_update = λ secret f w. f secret w;
  set_controller_reference = λ g secret. ok secret;
}

abbrev cli : Client (Session Server)
cli = focused (λ s. s.world) (λ w s. record s { world = w }) memory

abbrev answer : Repo (Session Server)
answer = repo_of offline urls first_error 3 (λ t. "")

get_git_client-IsNamed_example :
    IsNamed offline urls first_error 3
      (λ t. "")
      (λ t u w. none)
      repository
      with_secret
      (get_git_client urls cli
        (implementation offline urls first_error 3 (λ t. "") (λ t u w. none) ∷ [])
        repository
        with_secret).1
      answer
unfolding get_git_client fetched client_of client_from options_from merged_keys put_keys new_repo
    connected parse_ssh_endpoint implementation lookup
get_git_client-IsNamed_example =
    get_git_client-IsNamed offline urls first_error 3 (λ t. "") (λ t u w. none) cli [] repository
      with_secret _ answer "ssh-ed25519 AAAA" refl

repo_exists_lem_example :
    Told
      (record { instance_ = repository; world = with_secret })
      (err (status not_found))
      (repo_exists cli no_tools first_error answer
        (record { instance_ = repository; world = with_secret }))
repo_exists_lem_example =
    repo_exists_lem cli no_tools offline urls first_error 3 (λ t. "")
      (record { instance_ = repository; world = with_secret })

-- A server that changes nothing, beside the variables of a project.
abbrev beside : Client (Session Values)
beside = focused (λ s. empty_server) (λ w s. s) memory

abbrev with_variable : GitRepo
with_variable = record repository {
  spec = record (repository.spec) {
    git_repo_template = record (repository.spec.git_repo_template) {
      ci_variables = plain_env_var "TOKEN" "new" ∷ [];
    };
  };
}

abbrev asking : Work (Session Values)
asking = record { instance_ = with_variable; world = session }

abbrev kept_repo : Repo (Session Values)
kept_repo = repo_of kept urls first_error 3 (λ t. "")

ensure_ci_variables-AsAsked_example :
    AsAsked beside "" session (some (plain_env_var "TOKEN" "new")) (some (variable "TOKEN" "new"))
unfolding contains lookup find_var managed_names distinct previous ensure_ci_variables collect
    value_from_env_var repo_of to_delete difference remove_each by_name update_each changed
    var_needs_update update_or_create_ci_variable sent insert delete sort_strings
ensure_ci_variables-AsAsked_example =
    ensure_ci_variables-AsAsked beside no_tools kept view urls first_error 3 (λ t. "")
      kept-VariableLaws (record { id = 7; description = "" }) "TOKEN" asking
      (ensure_ci_variables beside no_tools first_error kept_repo asking).1 [] refl (tt, tt) refl
      refl refl
