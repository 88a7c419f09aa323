-- ===== src/CompilePipeline/Examples.antt =====
-- The theorems on the compile pipeline at a tenant with three clusters.
use lieutenant_operator.Prelude.{ℕ, String, ◌≡◌, refl, true, Option, none, some, List, [], ◌∷◌}
use lieutenant_operator.Errors.{err, panicked}
use lieutenant_operator.Api.Meta.{ObjectMeta, label_name_tenant, pipeline_finalizer_name}
use lieutenant_operator.Api.GitRepo.{empty_template, EnvVar}
use lieutenant_operator.Api.Cluster.{no_compile_meta, Cluster, ClusterSpec}
use lieutenant_operator.Api.Tenant.{Tenant}
use lieutenant_operator.Kube.Memory.{Server, empty_server, memory, library}
use lieutenant_operator.EnvVars.{
  plain_env_var, secret_env_var, env_var_index, update_env_var_value, update_env_var_value_from,
}
use lieutenant_operator.EnvVars.Find.{find_var}
use lieutenant_operator.CompilePipeline.{
  variables, ensure_ci_variables, ensure_cluster_ci_variable, token_var, sorted_cluster_names,
}
use lieutenant_operator.CompilePipeline.Names.{replace_dashes, join}
use lieutenant_operator.CompilePipeline.Reconcile.{reconcile}
use lieutenant_operator.CompilePipeline.Variables.{is_shown, find_var-ensure_cluster_ci_variable}
use lieutenant_operator.CompilePipeline.TenantVariables.{find_var-ensure_ci_variables}
use lieutenant_operator.CompilePipeline.Ordering.{reconcile_panics}

abbrev meta : String → Option ℕ → ObjectMeta
meta name deleted = record {
  name = name;
  namespace = "syn";
  labels = (label_name_tenant, "t-acme") ∷ [];
  annotations = [];
  finalizers = pipeline_finalizer_name ∷ [];
  owner_references = [];
  deletion_timestamp = deleted;
  creation_timestamp = 1;
}

abbrev spec : ClusterSpec
spec = record {
  display_name = "";
  git_repo_url = "";
  git_host_keys = "";
  git_repo_template = some (record empty_template { access_token = "c-token" });
  tenant_ref = "t-acme";
  tenant_git_repo_revision = "";
  global_git_repo_revision = "";
  token_life_time = "";
  facts = [];
  deletion_policy = "";
  creation_policy = "";
  enable_compile_pipeline = true;
}

abbrev pub live : Cluster
live = record {
  meta = meta "c-live-1" none;
  spec = spec;
  status = record { bootstrap_token = none; facts = []; compile_meta = no_compile_meta };
}

abbrev pub dying : Cluster
dying = record {
  meta = meta "c-dying" (some 5);
  spec = spec;
  status = record { bootstrap_token = none; facts = []; compile_meta = no_compile_meta };
}

abbrev pub acme : List EnvVar → Tenant
acme vars = record {
  meta = meta "t-acme" none;
  spec = record {
    display_name = "ACME";
    git_repo_url = "";
    git_repo_revision = "";
    global_git_repo_url = "";
    global_git_repo_revision = "";
    git_repo_template = some (record empty_template { ci_variables = vars });
    deletion_policy = "";
    creation_policy = "";
    cluster_template = none;
    compile_pipeline = some (record { enabled = true; pipeline_files = [] });
  };
  status = record { compile_pipeline = none };
}

abbrev pub own : EnvVar
own = plain_env_var "MINE" "1"

token_name : token_var live ≡ "ACCESS_TOKEN_c_live_1"
unfolding replace_dashes
token_name = refl

-- The tenant of the examples with the token of its live cluster.
abbrev with_token : Tenant
with_token = acme (own ∷ secret_env_var "ACCESS_TOKEN_c_live_1" "c-token" "token" ∷ [])

find_var-ensure_cluster_ci_variable_example :
    find_var "ACCESS_TOKEN_c_live_1" (variables with_token)
    ≡ some (secret_env_var "ACCESS_TOKEN_c_live_1" "c-token" "token")
unfolding find_var replace_dashes ensure_cluster_ci_variable update_env_var_value_from env_var_index
    is_shown
find_var-ensure_cluster_ci_variable_example =
    find_var-ensure_cluster_ci_variable (acme (own ∷ [])) live "ACCESS_TOKEN_c_live_1" (refl, tt)
      (with_token, true) refl

abbrev with_pipeline : Tenant
with_pipeline = acme (
    own
    ∷ plain_env_var "COMMODORE_API_URL" "http://api"
    ∷ plain_env_var "CLUSTERS" "c-dying c-live-1"
    ∷ secret_env_var "COMMODORE_API_TOKEN" "t-acme" "token"
    ∷ [])

find_var-ensure_ci_variables_example :
    find_var "CLUSTERS" (variables with_pipeline)
    ≡ some (plain_env_var "CLUSTERS" "c-dying c-live-1")
unfolding find_var sorted_cluster_names join ensure_ci_variables update_env_var_value_from
    update_env_var_value env_var_index
find_var-ensure_ci_variables_example =
    find_var-ensure_ci_variables "http://api" (acme (own ∷ [])) (live ∷ dying ∷ [])
      (with_pipeline, true) "CLUSTERS" refl

abbrev with_plain_token : Tenant
with_plain_token = acme (plain_env_var "COMMODORE_API_TOKEN" "x" ∷ [])

abbrev holding : Server
holding = record empty_server { tenants = with_plain_token ∷ [] }

reconcile_panics_example :
    reconcile memory library "http://api" (record { namespace = "syn"; name = "t-acme" }) holding
    ≡ (err panicked, holding)
unfolding find_var
reconcile_panics_example =
    reconcile_panics memory library "http://api" (record { namespace = "syn"; name = "t-acme" })
      with_plain_token [] (plain_env_var "COMMODORE_API_TOKEN" "x") holding refl refl refl refl refl
