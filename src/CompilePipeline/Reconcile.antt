-- ===== src/CompilePipeline/Reconcile.antt =====
-- `Reconcile` of controllers/tenant_compile_pipeline_controller.go: the order of its writes.
use lieutenant_operator.Prelude.{String, Bool, not, ◌&&◌, ◌<>◌, List, [], ◌∷◌, if◌then◌else◌}
use lieutenant_operator.Errors.{ok, err, is_not_found, annotate}
use lieutenant_operator.Exec
use lieutenant_operator.Exec.{Exec, pure, lift, annotated}
use lieutenant_operator.Api.Meta.{NamespacedName, is_zero, pipeline_finalizer_name}
use lieutenant_operator.Api.Cluster.{Cluster}
use lieutenant_operator.Api.Tenant.{Tenant, get_compile_pipeline_spec}
use lieutenant_operator.Kube.{Client, Library}
use lieutenant_operator.CompilePipeline.{
  enabled_clusters, ensure_status, visit_variable, tenant_variables,
}

module _ {W : Type 0} (cli : Client W) (lib : Library) where
  -- The finalizer of a cluster that is not being deleted.
  unfoldable pub add_pipeline_finalizer : Cluster → Exec W Cluster
  add_pipeline_finalizer c =
      let (finalizers, changed) = lib.add_finalizer c.meta.finalizers pipeline_finalizer_name in
      if is_zero c.meta.deletion_timestamp && changed
      then annotated ("error adding finalizer to cluster " <> c.meta.name)
          (cli.update_cluster (record c { meta = record (c.meta) { finalizers = finalizers } }))
      else pure c

  unfoldable pub visit_clusters : List Cluster → Tenant × Bool → Exec W (Tenant × Bool)
  unfolding add_pipeline_finalizer visit_variable
  visit_clusters [] s = pure s
  visit_clusters (c ∷ clusters) s =
      Exec.◌>>=◌ (add_pipeline_finalizer c)
        λ c'. Exec.◌>>=◌ (lift (visit_variable s c')) λ s'. visit_clusters clusters s'

  -- The finalizer of a cluster that is being deleted.
  unfoldable pub remove_pipeline_finalizer : Cluster → Exec W (Unit {0})
  remove_pipeline_finalizer c =
      let (finalizers, changed) = lib.remove_finalizer c.meta.finalizers pipeline_finalizer_name in
      if not (is_zero c.meta.deletion_timestamp) && changed
      then Exec.◌>>=◌
          (annotated ("error removing finalizer from cluster " <> c.meta.name)
            (cli.update_cluster (record c { meta = record (c.meta) { finalizers = finalizers } })))
          (λ _. pure tt)
      else pure tt

  unfoldable pub release_clusters : List Cluster → Exec W (Unit {0})
  unfolding remove_pipeline_finalizer
  release_clusters [] = pure tt
  release_clusters (c ∷ clusters) =
      Exec.◌>>=◌ (remove_pipeline_finalizer c) λ _. release_clusters clusters

  write_tenant : Tenant × Bool → Exec W Tenant
  write_tenant (t, changed) =
      if changed then annotated "error updating tenant" (cli.update_tenant t) else pure t

  write_status : Tenant × Bool → Exec W Tenant
  write_status (t, changed) =
      if changed
      then annotated "error updating tenant status" (cli.update_tenant_status t)
      else pure t

  -- What happens from the tenant's write on.
  unfoldable pub finish : List Cluster → Tenant × Bool → Exec W (Unit {0})
  unfolding write_tenant write_status
  finish clusters s = Exec.◌>>=◌ (write_tenant s) λ t.
      let cs =
        if not (get_compile_pipeline_spec t).enabled then [] else enabled_clusters clusters in
      Exec.◌>>=◌ (write_status (ensure_status t cs)) λ _. release_clusters clusters

  unfoldable pub reconcile_tenant : String → Tenant → Exec W (Unit {0})
  unfolding finish
  reconcile_tenant api_url tenant w =
      Exec.◌>>=◌
        (lift (
          annotate "error listing clusters"
            (cli.list_clusters tenant.meta.namespace tenant.meta.name w)))
        (λ clusters.
          Exec.◌>>=◌ (lift (tenant_variables api_url tenant clusters))
            λ s. Exec.◌>>=◌ (visit_clusters clusters s) λ s'. finish clusters s')
        w

  -- `Reconcile`
  unfoldable pub reconcile : String → NamespacedName → Exec W (Unit {0})
  reconcile api_url request w = elim (cli.get_tenant request w) [
    | ok tenant ↦ reconcile_tenant api_url tenant w
    | err e ↦ if is_not_found e then (ok tt, w) else (err e, w)
  ]
