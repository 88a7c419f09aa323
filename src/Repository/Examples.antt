-- ===== src/Repository/Examples.antt =====
-- The theorems on repositories at a server in memory.
use lieutenant_operator.Prelude.{
  ap, sym, subst, lookup, Among, String, ◌≡◌, refl, ◌⊎◌, inl, inr, Bool-cases, Bool, true, false,
  none, some, List, [], ◌∷◌, ◌==◌, eq_refl, contains,
}
use lieutenant_operator.Errors.{ok}
use lieutenant_operator.Api.GitRepo.{
  GitRepo, GitRepoTemplate, EnvVar, empty_template, created, unmanaged_repo_type,
}
use lieutenant_operator.Api.Object.{Object, git_repo, tenant, get_git_template}
use lieutenant_operator.Kube.Memory.{Server, empty_server, memory}
use lieutenant_operator.Gitlab.Variables.Examples.{first_error}
use lieutenant_operator.EnvVars.{plain_env_var, secret_env_var}
use lieutenant_operator.Pipeline.{continue}
use lieutenant_operator.Pipeline.Examples.{acme, context, start}
use lieutenant_operator.Repository.Creation.{defaulted, repo_for, create_or_update}
use lieutenant_operator.Repository.Creation.Policies.{create_or_update_settled}
use lieutenant_operator.Repository.{Repo, Tools, Work, recovered}
use lieutenant_operator.Repository.Templates.{fetch_git_repo_template}
use lieutenant_operator.Repository.DeployKeys.{
  ensure_generated_deploy_keys, clean_up, without_keys, provide,
}
use lieutenant_operator.Repository.Tokens.{ensure_access_token}
use lieutenant_operator.Repository.CiVariables.{ensure_ci_variables, collect, previous}
use lieutenant_operator.Repository.Steps.{
  refuse, bring_up, manage, with_client, run_managed, run_fetched, run, repo_exists, ensure_created,
}
use lieutenant_operator.Kube.{Resource}
use lieutenant_operator.Kube.Memory.{library}
use lieutenant_operator.Api.Meta.{finalizer_name, delete_protection_annotation}
use lieutenant_operator.Pipeline.Steps.{is_protected, parse_bool}
use lieutenant_operator.Repository.Watchers.{
  referred_names, secret_index, secret_requests, IsListed, secret_requests-covers,
}
use lieutenant_operator.Repository.Reconcile.{Answer, reconcile, reconcile_protected}
use lieutenant_operator.Repository.Steps.Adopting.{succeeded, manage_foreign}
use lieutenant_operator.Repository.Steps.Outcomes.{IsUpAtClient, run-IsUp}

-- A repository that is there, and on which every call succeeds.
abbrev there : Repo Server
there = record {
  type = "gitlab";
  full_url = λ w. "ssh://git@gitlab/syn/c-one.git";
  create = λ w. (none, w);
  update = λ w. (ok false, w);
  read = λ w. (none, w);
  remove = λ w. (none, w);
  commit_template_files = λ w. (none, w);
  ensure_project_access_token =
      λ name uid w. (ok (record { uid = "1"; token = ""; expires_at = "" }), w);
  ensure_ci_variables = λ managed vars w. (none, w);
}

abbrev tools : Tools Server
tools = record {
  get_git_client = λ g w. (ok (there, "host keys"), w);
  unmarshal = λ s. ok [];
  marshal = λ vars. ok "json";
  new_key = λ rsa w. (ok ("ssh-ed25519 AAAA", "private"), w);
  create_or_update = λ secret f w. f secret w;
  set_controller_reference = λ g secret. ok secret;
}

abbrev repo_object : String → List EnvVar → GitRepo
repo_object url vars = record {
  meta = record {
    name = "c-one";
    namespace = "syn";
    labels = [];
    annotations = [];
    finalizers = [];
    owner_references = [];
    deletion_timestamp = none;
    creation_timestamp = 0;
  };
  spec = record {
    git_repo_template = record empty_template { ci_variables = vars };
    tenant_ref = "t-acme";
  };
  status = record {
    phase = none;
    type = "";
    url = url;
    host_keys = "";
    last_applied_ci_variables = "";
    generated_deploy_keys = [];
  };
}

abbrev work : String → List EnvVar → Work Server
work url vars = record { instance_ = repo_object url vars; world = empty_server }

abbrev both : EnvVar
both = record (secret_env_var "TOKEN" "t-acme" "token") { value = "" }

no_clusters :
    (o : Object) (w : Server) → w.clusters ≡ [] → (memory.update_status o w).2.clusters ≡ []
no_clusters o w p = elim (Bool-cases w.busy) [ inl y ↦ rw y p | inr n ↦ rw n p ]

manage_foreign_example :
    succeeded (manage memory tools first_error there false (work "ssh://other" [])).0 ≡ false
manage_foreign_example =
    (manage_foreign memory tools first_error there (λ w. w.clusters ≡ []) no_clusters false
      (work "ssh://other" []) refl refl).1

abbrev up : Work Server
up = record {
  instance_ = record (repo_object "ssh://git@gitlab/syn/c-one.git" []) {
    status = record {
      phase = some created;
      type = "gitlab";
      url = "ssh://git@gitlab/syn/c-one.git";
      host_keys = "host keys";
      last_applied_ci_variables = "json";
      generated_deploy_keys = [];
    };
  };
  world = empty_server;
}

run-IsUp_example :
    (up.instance_.spec.git_repo_template.repo_type ≡ unmanaged_repo_type)
    ⊎ IsUpAtClient memory tools first_error (work "ssh://git@gitlab/syn/c-one.git" []) up
unfolding run run_fetched run_managed with_client fetch_git_repo_template recovered
    ensure_generated_deploy_keys clean_up without_keys provide repo_exists ensure_created manage
    refuse bring_up ensure_access_token ensure_ci_variables collect previous
run-IsUp_example =
    run-IsUp memory tools first_error (work "ssh://git@gitlab/syn/c-one.git" []) up refl

abbrev same_name : GitRepoTemplate → GitRepoTemplate → Bool
same_name a b = a.repo_name == b.repo_name

-- The repository object that the tenant of the examples asks for.
abbrev asked : GitRepo
asked =
    repo_for (tenant acme)
      (defaulted (tenant acme) (context false) (get_git_template (tenant acme)))

abbrev with_repo : Server
with_repo = record empty_server { git_repos = asked ∷ [] }

create_or_update_settled_example :
    create_or_update memory same_name
      (record ((create_or_update memory same_name (start false)).1) { world = with_repo })
    ≡ (continue, record ((create_or_update memory same_name (start false)).1) { world = with_repo })
unfolding repo_for
create_or_update_settled_example =
    create_or_update_settled memory same_name (λ t. eq_refl t.repo_name) (start false) asked
      with_repo refl refl refl

abbrev with_secret : GitRepo
with_secret = repo_object "" (plain_env_var "A" "1" ∷ both ∷ [])

with_secret-IsListed :
    IsListed (repo_object "" [] ∷ with_secret ∷ []) "syn" "t-acme" (with_secret ∷ [])
unfolding secret_index referred_names contains
with_secret-IsListed g (inl q) n c =
    let never : false ≡ true = subst (λ x. contains "t-acme" (secret_index x) ≡ true) (sym q) c in
    absurd (cc)
with_secret-IsListed g (inr (inl q)) n c = inl q
with_secret-IsListed g (inr (inr x)) n c = absurd x

secret_requests-covers_example :
    Among (record { namespace = "syn"; name = "c-one" }) (secret_requests (ok (with_secret ∷ [])))
secret_requests-covers_example =
    secret_requests-covers (repo_object "" [] ∷ with_secret ∷ []) (with_secret ∷ []) with_secret
      both (record { name = "t-acme"; key = "token"; optional = none }) with_secret-IsListed
      (inr (inl refl)) (inr (inl refl)) refl

-- A repository object that is protected, and is being deleted all the same.
abbrev doomed : GitRepo
doomed = record (repo_object "ssh://git@gitlab/syn/c-one.git" []) {
  meta = record ((repo_object "" []).meta) {
    annotations = (delete_protection_annotation, "true") ∷ [];
    finalizers = finalizer_name ∷ [];
    deletion_timestamp = some 7;
  };
}

abbrev with_doomed : Server
with_doomed = record empty_server { git_repos = doomed ∷ [] }

-- The repository on the server, whose removal leaves a trace in the log.
abbrev removable : Repo Server
removable = record there {
  remove = λ w. (none, record w { log = Resource.custom (git_repo doomed) ∷ w.log });
}

abbrev removing : Tools Server
removing = record tools { get_git_client = λ g w. (ok (removable, "host keys"), w) }

reconcile_protected_example :
    (reconcile library memory removing first_error
      (record { default_creation_policy = ""; delete_protection = true })
      (record { namespace = "syn"; name = "c-one" })
      with_doomed).1.log
    ≡ Resource.custom (git_repo doomed) ∷ []
unfolding run run_fetched run_managed with_client fetch_git_repo_template recovered
    ensure_generated_deploy_keys clean_up without_keys provide repo_exists ensure_created manage
    is_protected parse_bool lookup contains
reconcile_protected_example =
    ap (λ (x : Answer × Server). x.1.log)
      (reconcile_protected library memory removing first_error
        (record { default_creation_policy = ""; delete_protection = true })
        (record { namespace = "syn"; name = "c-one" }) doomed with_doomed
        (record {
          instance_ = record doomed { status = record (doomed.status) { host_keys = "host keys" } };
          world = record with_doomed { log = Resource.custom (git_repo doomed) ∷ [] };
        })
        refl refl refl refl)
