-- ===== src/CompilePipeline/Ordering.antt =====
-- The order of the writes of a run, and the run that panics before them.
use lieutenant_operator.Prelude.{
  String, ◌≡◌, refl, ◌⊎◌, Bool, true, false, ◌&&◌, some, none, List, [], ◌∷◌, arith, Bool-cases,
  inl, inr,
}
use lieutenant_operator.Errors.{Error, ok, err, panicked, Outcome-cases}
use lieutenant_operator.Exec
use lieutenant_operator.Exec.{Exec, pure, lift, annotated, continue_keeps}
use lieutenant_operator.Api.Meta.{NamespacedName, is_zero, pipeline_finalizer_name}
use lieutenant_operator.Api.GitRepo.{EnvVar}
use lieutenant_operator.Api.Cluster.{Cluster}
use lieutenant_operator.Api.Tenant.{Tenant, get_compile_pipeline_spec}
use lieutenant_operator.Kube.{Client, Library}
use lieutenant_operator.EnvVars.{selector}
use lieutenant_operator.EnvVars.Find.{find_var}
use lieutenant_operator.CompilePipeline.{
  visit_variable, tenant_variables, variables, api_token_var, filter_deleted_clusters,
  enabled_clusters,
}
use lieutenant_operator.CompilePipeline.TenantVariables.{ensure_ci_variables_panics}
use lieutenant_operator.CompilePipeline.Reconcile.{
  add_pipeline_finalizer, visit_clusters, finish, reconcile_tenant, reconcile,
}

-- The cluster with and without the finalizer of the pipeline.
abbrev pub with_finalizers : List String → Cluster → Cluster
with_finalizers l c = record c { meta = record (c.meta) { finalizers = l } }

module _ {W : Type 0} (cli : Client W) (lib : Library) where
  panics_at :
      (api_url : String) (tenant : Tenant) (clusters : List Cluster) (w : W)
      → cli.list_clusters tenant.meta.namespace tenant.meta.name w ≡ ok clusters
      → tenant_variables api_url tenant clusters ≡ err panicked
      → reconcile_tenant cli lib api_url tenant w ≡ (err panicked, w)
  unfolding reconcile_tenant
  panics_at api_url tenant clusters w l p = rw (l, p)

  -- A variable of the tenant's own under the name of the API's token, which has no source of its value,
  -- makes a run panic before it has written anything, where the pipeline is enabled and the server has the
  -- tenant and lists its clusters.
  pub reconcile_panics :
      (api_url : String) (request : NamespacedName) (tenant : Tenant) (clusters : List Cluster)
      (e : EnvVar) (w : W)
      → cli.get_tenant request w ≡ ok tenant
      → cli.list_clusters tenant.meta.namespace tenant.meta.name w ≡ ok clusters
      → (get_compile_pipeline_spec tenant).enabled ≡ true
      → find_var api_token_var (variables tenant) ≡ some e
      → e.value_from ≡ none
      → reconcile cli lib api_url request w ≡ (err panicked, w)
  unfolding reconcile tenant_variables
  reconcile_panics api_url request tenant clusters e w g l on f n =
      let shown = filter_deleted_clusters (enabled_clusters clusters) in
      let unsourced : selector e ≡ err panicked = ground (arith) in
      let panics = ensure_ci_variables_panics api_url tenant shown e f unsourced in
      rw (reconcile, g) (panics_at api_url tenant clusters w l (rw (on, panics) refl))

  -- The rest of the first loop, behind a cluster's finalizer.
  abbrev visit_rest : List Cluster → Tenant × Bool → Cluster → Exec W (Tenant × Bool)
  visit_rest clusters s c' =
      Exec.◌>>=◌ (lift (visit_variable s c')) λ s'. visit_clusters cli lib clusters s'

  module _ (P : W → Type 0)
      (keeps : (c : Cluster) (w : W)
        → is_zero c.meta.deletion_timestamp ≡ true
        → P w
        → P (cli.update_cluster c w).1) where
    keeps_add : (c : Cluster) (w : W) → P w → P (add_pipeline_finalizer cli lib c w).1
    unfolding add_pipeline_finalizer
    keeps_add c w p =
        elim (Bool-cases (
          is_zero c.meta.deletion_timestamp
          && (lib.add_finalizer c.meta.finalizers pipeline_finalizer_name).1)) [
            | inl y ↦
                rw (y, add_pipeline_finalizer)
                  (keeps
                    (with_finalizers (lib.add_finalizer c.meta.finalizers pipeline_finalizer_name).0
                      c)
                    w (ground arith) p)
            | inr n ↦ rw (n, add_pipeline_finalizer) p
          ]

    -- Until the tenant is written, a run writes to clusters that are not being deleted alone: what
    -- the writes of such clusters keep holds after the first loop, whether it failed or not.
    pub visit_clusters_keeps :
        (clusters : List Cluster) (s : Tenant × Bool) (w : W)
        → P w
        → P (visit_clusters cli lib clusters s w).1
    unfolding visit_clusters
    visit_clusters_keeps [] s w p = p
    visit_clusters_keeps (c ∷ clusters) s w p =
        let w' = (add_pipeline_finalizer cli lib c w).1 in
        let p' : P w' = keeps_add c w p in
        continue_keeps P (visit_rest clusters s) (add_pipeline_finalizer cli lib c w).0 w' p' (λ c'.
          continue_keeps P (visit_clusters cli lib clusters) (visit_variable s c') w' p'
            (λ s'. visit_clusters_keeps clusters s' w' p'))

    -- The tenant needs no write after the first loop, or its write succeeds, in the world `w'`.
    abbrev pub IsWritten : String → Tenant → W → W → Type 0
    IsWritten api_url tenant w w' =
        (clusters : List Cluster) × (v : Tenant × Bool) × (s : Tenant × Bool) × (cli.list_clusters
            tenant.meta.namespace tenant.meta.name w
          ≡ ok clusters)
        × (tenant_variables api_url tenant clusters ≡ ok v)
        × (visit_clusters cli lib clusters v w ≡ (ok s, w'))
        × ((s.1 ≡ false) ⊎ ((t : Tenant) × ((cli.update_tenant s.0 w').0 ≡ ok t)))

    -- What the writes of clusters that are not being deleted keep, and a write of the tenant that fails,
    -- holds at the end of a run, or it still held when the tenant needed no write or its write succeeded.
    pub reconcile_tenant_ordered :
        ((t : Tenant) (w : W) (e : Error)
          → (cli.update_tenant t w).0 ≡ err e
          → P w
          → P (cli.update_tenant t w).1)
        → (api_url : String) (tenant : Tenant) (w : W) → P w
        → P (reconcile_tenant cli lib api_url tenant w).1
          ⊎ ((w' : W) × P w' × IsWritten api_url tenant w w')
    unfolding reconcile_tenant finish
    reconcile_tenant_ordered fails api_url tenant w p =
        elim (Outcome-cases (cli.list_clusters tenant.meta.namespace tenant.meta.name w)) [
          | inr (e, l) ↦ inl (rw l p)
          | inl (clusters, l) ↦ elim (Outcome-cases (tenant_variables api_url tenant clusters)) [
            | inr (e, q) ↦ inl (rw (l, q) p)
            | inl (v, q) ↦
                let w' = (visit_clusters cli lib clusters v w).1 in
                let p' : P w' = visit_clusters_keeps clusters v w p in
                elim (Outcome-cases (visit_clusters cli lib clusters v w).0) [
                  | inr (e, r) ↦ inl (rw (l, q, r) p')
                  | inl (s, r) ↦ elim (Bool-cases s.1) [
                    | inl changed ↦ elim (Outcome-cases (cli.update_tenant s.0 w').0) [
                      | inl (t, u) ↦
                          inr (w', p', (clusters, v, s, l, q, (λ i. (r i, w')), inr (t, u)))
                      | inr (e, u) ↦ inl (rw (l, q, r, changed, u) (fails s.0 w' e u p'))
                    ]
                    | inr same ↦ inr (w', p', (clusters, v, s, l, q, (λ i. (r i, w')), inl same))
                  ]
                ]
          ]
        ]
