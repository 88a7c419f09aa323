-- ===== src/Api/Tenant.antt =====
-- api/v1alpha1/tenant_types.go
use lieutenant_operator.Prelude.{String, Bool, false, Option, some, List, [], Dict, deref}
use lieutenant_operator.Api.Meta.{ObjectMeta}
use lieutenant_operator.Api.GitRepo.{GitRepoTemplate, empty_template}
use lieutenant_operator.Api.Cluster.{ClusterSpec}

pub record CompilePipelineSpec : Type 0 where
  pub enabled : Bool
  pub pipeline_files : Dict String

pub record CompilePipelineStatus : Type 0 where
  pub clusters : List String

pub record TenantSpec : Type 0 where
  pub display_name : String
  pub git_repo_url : String
  pub git_repo_revision : String
  pub global_git_repo_url : String
  pub global_git_repo_revision : String
  pub git_repo_template : Option GitRepoTemplate
  pub deletion_policy : String
  pub creation_policy : String
  pub cluster_template : Option ClusterSpec
  pub compile_pipeline : Option CompilePipelineSpec

pub record TenantStatus : Type 0 where
  pub compile_pipeline : Option CompilePipelineStatus

pub record Tenant : Type 0 where
  pub meta : ObjectMeta
  pub spec : TenantSpec
  pub status : TenantStatus

-- `GetGitTemplate`, the template that the caller gets. Where it is nil, the tenant is given an empty
-- one first: `with_git_template`.
abbrev pub get_git_template : Tenant → GitRepoTemplate
get_git_template t = deref t.spec.git_repo_template empty_template

-- The tenant whose template the caller has changed to `g` through the pointer.
abbrev pub set_git_template : GitRepoTemplate → Tenant → Tenant
set_git_template g t = record t { spec = record (t.spec) { git_repo_template = some g } }

-- The tenant after `GetGitTemplate`.
abbrev pub with_git_template : Tenant → Tenant
with_git_template t = set_git_template (get_git_template t) t

-- `GetCompilePipelineSpec`
abbrev pub get_compile_pipeline_spec : Tenant → CompilePipelineSpec
get_compile_pipeline_spec t =
    deref t.spec.compile_pipeline (record { enabled = false; pipeline_files = [] })

-- `GetCompilePipelineStatus`
abbrev pub get_compile_pipeline_status : Tenant → CompilePipelineStatus
get_compile_pipeline_status t = deref t.status.compile_pipeline (record { clusters = [] })

-- `SetGitRepoURLAndHostKeys`: a tenant keeps no host keys.
abbrev pub set_git_repo_url_and_host_keys : String → String → Tenant → Tenant
set_git_repo_url_and_host_keys url host_keys t = record t {
  spec = record (t.spec) { git_repo_url = url };
}
