-- ===== src/Api/Object.antt =====
-- The interface `Object` of pipeline/pipeline.go: its three implementations are the constructors,
-- and a type assertion `obj.(*T)` is a match. The methods are those of api/v1alpha1.
use lieutenant_operator.Prelude.{String, Dict, none, some, List}
use lieutenant_operator.Api.Meta.{ObjectMeta}
use lieutenant_operator.Api.GitRepo.{GitRepoTemplate, GitRepo, GitRepoSpec, GitRepoStatus}
use lieutenant_operator.Api.Cluster
use lieutenant_operator.Api.Cluster.{Cluster, ClusterSpec, ClusterStatus}
use lieutenant_operator.Api.Tenant
use lieutenant_operator.Api.Tenant.{Tenant, TenantSpec, TenantStatus}

pub data Object : Type 0 where
  cluster : Cluster → Object
  tenant : Tenant → Object
  git_repo : GitRepo → Object

abbrev pub get_meta : Object → ObjectMeta
get_meta (cluster c) = c.meta
get_meta (tenant t) = t.meta
get_meta (git_repo g) = g.meta

-- The object with new metadata: `SetLabels`, `SetAnnotations` and the like change one field of it.
abbrev pub set_meta : ObjectMeta → Object → Object
set_meta m (cluster c) = cluster (record c { meta = m })
set_meta m (tenant t) = tenant (record t { meta = m })
set_meta m (git_repo g) = git_repo (record g { meta = m })

abbrev pub set_labels : Dict String → Object → Object
set_labels l o = set_meta (record (get_meta o) { labels = l }) o

abbrev pub set_annotations : Dict String → Object → Object
set_annotations a o = set_meta (record (get_meta o) { annotations = a }) o

abbrev pub set_finalizers : List String → Object → Object
set_finalizers f o = set_meta (record (get_meta o) { finalizers = f }) o

-- `GetTenantRef().Name`
abbrev pub get_tenant_ref : Object → String
get_tenant_ref (cluster c) = c.spec.tenant_ref
get_tenant_ref (tenant t) = t.meta.name
get_tenant_ref (git_repo g) = g.spec.tenant_ref

abbrev pub get_deletion_policy : Object → String
get_deletion_policy (cluster c) = c.spec.deletion_policy
get_deletion_policy (tenant t) = t.spec.deletion_policy
get_deletion_policy (git_repo g) = g.spec.git_repo_template.deletion_policy

abbrev pub get_creation_policy : Object → String
get_creation_policy (cluster c) = c.spec.creation_policy
get_creation_policy (tenant t) = t.spec.creation_policy
get_creation_policy (git_repo g) = g.spec.git_repo_template.creation_policy

abbrev pub get_display_name : Object → String
get_display_name (cluster c) = c.spec.display_name
get_display_name (tenant t) = t.spec.display_name
get_display_name (git_repo g) = g.spec.git_repo_template.display_name

-- The template that `GetGitTemplate` points at.
abbrev pub get_git_template : Object → GitRepoTemplate
get_git_template (cluster c) = Cluster.get_git_template c
get_git_template (tenant t) = Tenant.get_git_template t
get_git_template (git_repo g) = g.spec.git_repo_template

-- The object after a write through the pointer of `GetGitTemplate`. A cluster without a template
-- hands out a fresh one, and the write is lost.
abbrev pub write_git_template : GitRepoTemplate → Object → Object
write_git_template g (cluster c) = cluster (record c {
  spec = record (c.spec) {
    git_repo_template = elim c.spec.git_repo_template [ none ↦ none | some _ ↦ some g ];
  };
})
write_git_template g (tenant t) = tenant (Tenant.set_git_template g t)
write_git_template g (git_repo r) =
    git_repo (record r { spec = record (r.spec) { git_repo_template = g } })

-- `SetGitRepoURLAndHostKeys`: nothing for a GitRepo.
abbrev pub set_git_repo_url_and_host_keys : String → String → Object → Object
set_git_repo_url_and_host_keys url host_keys (cluster c) =
    cluster (Cluster.set_git_repo_url_and_host_keys url host_keys c)
set_git_repo_url_and_host_keys url host_keys (tenant t) =
    tenant (Tenant.set_git_repo_url_and_host_keys url host_keys t)
set_git_repo_url_and_host_keys url host_keys (git_repo g) = git_repo g

-- `GetSpec` and `GetStatus` return any value; these are the ones that they return.
pub data Spec : Type 0 where
  cluster_spec : ClusterSpec → Spec
  tenant_spec : TenantSpec → Spec
  git_repo_spec : GitRepoSpec → Spec

pub data Status : Type 0 where
  cluster_status : ClusterStatus → Status
  tenant_status : TenantStatus → Status
  git_repo_status : GitRepoStatus → Status

abbrev pub get_spec : Object → Spec
get_spec (cluster c) = cluster_spec c.spec
get_spec (tenant t) = tenant_spec t.spec
get_spec (git_repo g) = git_repo_spec g.spec

abbrev pub get_status : Object → Status
get_status (cluster c) = cluster_status c.status
get_status (tenant t) = tenant_status t.status
get_status (git_repo g) = git_repo_status g.status
