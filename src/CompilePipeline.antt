-- ===== src/CompilePipeline.antt =====
-- controllers/tenant_compile_pipeline_controller.go: the CI variables of a tenant's repository and
-- the status of its compile pipeline. The calls of the server are in `Reconcile`.
pub mod Names
pub mod Reconcile
pub mod Variables
pub mod TenantVariables
pub mod Status
pub mod Ordering
pub mod Release
pub mod Examples
pub mod WriteExamples
use lieutenant_operator.Prelude.{
  String, Bool, true, false, not, ◌&&◌, ◌||◌, Option, none, some, List, [], ◌∷◌, ◌==◌, ◌<>◌,
  if◌then◌else◌,
}
use lieutenant_operator.Errors.{Error, Outcome, ok, err, wrap, is_not_found, annotate, ◌>>=◌}
use lieutenant_operator.Exec
use lieutenant_operator.Exec.{Exec, pure, lift, annotated}
use lieutenant_operator.Api.Meta.{ObjectMeta, NamespacedName, is_zero, pipeline_finalizer_name}
use lieutenant_operator.Api.GitRepo.{GitRepoTemplate, EnvVar, unmanaged_repo_type}
use lieutenant_operator.Api.Cluster
use lieutenant_operator.Api.Cluster.{Cluster}
use lieutenant_operator.Api.Tenant
use lieutenant_operator.Api.Tenant.{
  Tenant, set_git_template, get_compile_pipeline_spec, get_compile_pipeline_status,
}
use lieutenant_operator.Kube.{Client, Library}
use lieutenant_operator.EnvVars.{update_env_var_value, update_env_var_value_from, remove_env_var}
use Names.{sort_strings, join, replace_dashes, strings_equal}

abbrev pub api_url_var : String
api_url_var = "COMMODORE_API_URL"

abbrev pub api_token_var : String
api_token_var = "COMMODORE_API_TOKEN"

abbrev pub clusters_var : String
clusters_var = "CLUSTERS"

abbrev pub access_token_prefix : String
access_token_prefix = "ACCESS_TOKEN_"

abbrev pub secret_key_token : String
secret_key_token = "token"

-- `filterDeletedClusters`
unfoldable pub filter_deleted_clusters : List Cluster → List Cluster
filter_deleted_clusters [] = []
filter_deleted_clusters (c ∷ clusters) =
    let rest = filter_deleted_clusters clusters in
    if is_zero c.meta.deletion_timestamp then c ∷ rest else rest

-- The loop that collects the clusters with an enabled pipeline.
unfoldable pub enabled_clusters : List Cluster → List Cluster
enabled_clusters [] = []
enabled_clusters (c ∷ clusters) =
    let rest = enabled_clusters clusters in
    if c.spec.enable_compile_pipeline then c ∷ rest else rest

abbrev pub cluster_names : List Cluster → List String
cluster_names [] = []
cluster_names (c ∷ clusters) = c.meta.name ∷ cluster_names clusters

unfoldable pub sorted_cluster_names : List Cluster → List String
unfolding sort_strings
sorted_cluster_names clusters = sort_strings (cluster_names clusters)

-- The status with the clusters that are not being deleted, and whether it is another one.
unfoldable pub ensure_status : Tenant → List Cluster → Tenant × Bool
unfolding sorted_cluster_names filter_deleted_clusters
ensure_status tenant clusters =
    let sc = sorted_cluster_names (filter_deleted_clusters clusters) in
    if strings_equal (get_compile_pipeline_status tenant).clusters sc then (tenant, false) else (
      record tenant { status = record { compile_pipeline = some (record { clusters = sc }) } },
      true,
    )

-- The template's CI variables through the pointer of `GetGitTemplate`, and the tenant with others.
abbrev pub variables : Tenant → List EnvVar
variables t = (Tenant.get_git_template t).ci_variables

abbrev pub with_variables : List EnvVar → Tenant → Tenant
with_variables vars t =
    set_git_template (record (Tenant.get_git_template t) { ci_variables = vars }) t

-- Without a change too, the tenant has a template afterwards.
abbrev pub keep_if_changed : Tenant → List EnvVar × Bool → Tenant × Bool
keep_if_changed t (vars, changed) =
    (if changed then with_variables vars t else Tenant.with_git_template t, changed)

unfoldable pub ensure_ci_variables_absent : Tenant → Tenant × Bool
ensure_ci_variables_absent t =
    let (vars, changed) = remove_env_var api_url_var (variables t) in
    let (vars', ch) = remove_env_var api_token_var vars in
    let (vars'', ch') = remove_env_var clusters_var vars' in
    keep_if_changed t (vars'', ch' || (ch || changed))

unfoldable pub ensure_ci_variables : String → Tenant → List Cluster → Outcome (Tenant × Bool)
unfolding sorted_cluster_names
ensure_ci_variables api_url t clusters =
    let cluster_list = join (sorted_cluster_names clusters) " " in
    do
      (list, ch) ← update_env_var_value api_url_var api_url (variables t)
      (list', ch') ← update_env_var_value clusters_var cluster_list list
      (list'', ch'') ← update_env_var_value_from api_token_var t.meta.name secret_key_token list'
      ok (keep_if_changed t (list'', (ch || ch') || ch''))

-- The name of the variable with a cluster's access token.
abbrev pub token_var : Cluster → String
token_var c = access_token_prefix <> replace_dashes c.meta.name

-- Whether the variable of a cluster is to be removed.
unfoldable pub removes : Tenant → Cluster → Bool
removes t c =
    not (is_zero c.meta.deletion_timestamp)
    || (((Cluster.get_git_template c).access_token == "")
        || (not (get_compile_pipeline_spec t).enabled || not c.spec.enable_compile_pipeline))

unfoldable pub ensure_cluster_ci_variable : Tenant → Cluster → Outcome (Tenant × Bool)
unfolding removes
ensure_cluster_ci_variable t c =
    if removes t c then ok (keep_if_changed t (remove_env_var (token_var c) (variables t))) else do
      r ←
          update_env_var_value_from (token_var c) (Cluster.get_git_template c).access_token
            secret_key_token (variables t)
      ok (keep_if_changed t r)

-- The variable of a cluster, but for one with an unmanaged repository.
unfoldable pub visit_variable : Tenant × Bool → Cluster → Outcome (Tenant × Bool)
visit_variable (t, changed) c =
    if (Cluster.get_git_template c).repo_type == unmanaged_repo_type
    then ok (t, changed)
    else do (t', ch) ← ensure_cluster_ci_variable t c; ok (t', ch || changed)

-- The variables of the pipeline itself.
unfoldable pub tenant_variables : String → Tenant → List Cluster → Outcome (Tenant × Bool)
tenant_variables api_url t clusters =
    if not (get_compile_pipeline_spec t).enabled
    then ok (ensure_ci_variables_absent t)
    else ensure_ci_variables api_url t (filter_deleted_clusters (enabled_clusters clusters))
