-- ===== src/Repository/Templates.antt =====
-- controllers/gitrepo/template.go: the template of the tenant or the cluster of the same name.
use lieutenant_operator.Prelude.{Option, none, some}
use lieutenant_operator.Exec.{Exec, ◌>>=◌, ◌>>◌}
use lieutenant_operator.Api.Meta.{NamespacedName}
use lieutenant_operator.Api.GitRepo.{GitRepo, GitRepoTemplate}
use lieutenant_operator.Api.Cluster.{Cluster}
use lieutenant_operator.Api.Tenant.{Tenant}
use lieutenant_operator.Kube.{Client}
use lieutenant_operator.Repository.{Work, found, instance_of, change, asking}

abbrev pub with_template : Option GitRepoTemplate → GitRepo → GitRepo
with_template none g = g
with_template (some t) g = record g { spec = record (g.spec) { git_repo_template = t } }

abbrev pub tenant_template : Option Tenant → Option GitRepoTemplate
tenant_template none = none
tenant_template (some t) = t.spec.git_repo_template

abbrev pub cluster_template : Option Cluster → Option GitRepoTemplate
cluster_template none = none
cluster_template (some c) = c.spec.git_repo_template

abbrev pub key_of : GitRepo → NamespacedName
key_of g = record { namespace = g.meta.namespace; name = g.meta.name }

module _ {W : Type 0} (cli : Client W) where
  unfoldable pub fetch_git_repo_template : Exec (Work W) (Unit {0})
  fetch_git_repo_template = do
    g ← instance_of
    tenant ← asking (λ w. found (cli.get_tenant (key_of g) w))
    change (with_template (tenant_template tenant))
    cluster ← asking (λ w. found (cli.get_cluster (key_of g) w))
    change (with_template (cluster_template cluster))
