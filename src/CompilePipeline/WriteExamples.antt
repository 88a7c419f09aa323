-- ===== src/CompilePipeline/WriteExamples.antt =====
-- The theorems on the order of the writes of a run at a server in memory.
use lieutenant_operator.Prelude.{
  ◌⊎◌, String, ◌≡◌, refl, inl, inr, Bool-cases, eq_refl, Bool, true, false, not, ◌&&◌, ◌||◌, List,
  [], ◌∷◌, All, ◌==◌, arith, contains,
}
use lieutenant_operator.Errors.{Error, ok, err}
use lieutenant_operator.Api.Meta.{is_zero, pipeline_finalizer_name}
use lieutenant_operator.Api.Cluster.{Cluster}
use lieutenant_operator.Api.Tenant.{Tenant}
use lieutenant_operator.Api.Object
use lieutenant_operator.Kube.{Resource}
use lieutenant_operator.Kube.Memory.{
  Server, empty_server, memory, library, without, library-FinalizerLaws,
}
use lieutenant_operator.EnvVars.{plain_env_var, secret_env_var}
use lieutenant_operator.CompilePipeline.Reconcile.{
  visit_clusters, release_clusters, reconcile_tenant,
}
use lieutenant_operator.CompilePipeline.Ordering.{
  IsWritten, reconcile_tenant_ordered, visit_clusters_keeps,
}
use lieutenant_operator.CompilePipeline.Release.{freed, is_held, release_clusters_complete}
use lieutenant_operator.CompilePipeline.Examples.{acme, own, live, dying}

-- A server whose updates fail while its clusters need none.
abbrev jammed : Server
jammed = record empty_server { clusters = live ∷ dying ∷ []; busy = true }

abbrev after_variables : Tenant
after_variables = acme (
    own
    ∷ plain_env_var "COMMODORE_API_URL" "http://api"
    ∷ plain_env_var "CLUSTERS" "c-live-1"
    ∷ secret_env_var "COMMODORE_API_TOKEN" "t-acme" "token"
    ∷ [])

-- No cluster that is being deleted was written.
abbrev IsLive : Resource → Type 0
IsLive (Resource.custom (Object.cluster c)) = is_zero c.meta.deletion_timestamp ≡ true
IsLive _ = Unit {0}

update_cluster-IsLive :
    (c : Cluster) (w : Server)
    → is_zero c.meta.deletion_timestamp ≡ true
    → All IsLive w.log
    → All IsLive (memory.update_cluster c w).1.log
update_cluster-IsLive c w z p = elim (Bool-cases w.busy) [ inl y ↦ rw y p | inr n ↦ rw n (z, p) ]

abbrev bare : Cluster
bare = record live { meta = record (live.meta) { finalizers = [] } }

visit_clusters_keeps_example :
    All IsLive
      (visit_clusters memory library (bare ∷ dying ∷ []) (after_variables, true) empty_server).1.log
visit_clusters_keeps_example =
    visit_clusters_keeps memory library (λ w. All IsLive w.log) update_cluster-IsLive
      (bare ∷ dying ∷ []) (after_variables, true) empty_server tt

update_tenant-IsLive :
    (t : Tenant) (w : Server) (e : Error)
    → (memory.update_tenant t w).0 ≡ err e
    → All IsLive w.log
    → All IsLive (memory.update_tenant t w).1.log
update_tenant-IsLive t w e h p = elim (Bool-cases w.busy) [ inl y ↦ rw y p | inr n ↦ rw n (tt, p) ]

reconcile_tenant_ordered_example :
    All IsLive (reconcile_tenant memory library "http://api" (acme (own ∷ [])) jammed).1.log
    ⊎ ((w : Server) × All IsLive w.log
        × IsWritten memory library
            (λ w. All IsLive w.log)
            update_cluster-IsLive
            "http://api"
            (acme (own ∷ []))
            jammed
            w)
reconcile_tenant_ordered_example =
    reconcile_tenant_ordered memory library (λ w. All IsLive w.log) update_cluster-IsLive
      update_tenant-IsLive "http://api" (acme (own ∷ [])) jammed tt

-- The cluster was written without the finalizer.
frees : String → Resource → Bool
frees name (Resource.custom (Object.cluster c)) =
    c.meta.name == name && not (contains pipeline_finalizer_name c.meta.finalizers)
frees name (Resource.custom (Object.tenant t)) = false
frees name _ = false

freed_in : String → List Resource → Bool
freed_in name [] = false
freed_in name (r ∷ rs) = frees name r || freed_in name rs

abbrev IsFreed : Cluster → Server → Type 0
IsFreed c w = freed_in c.meta.name w.log ≡ true

update_cluster-frees :
    (c : Cluster) (w : Server) (a : Cluster)
    → (memory.update_cluster (freed memory library c) w).0 ≡ ok a
    → IsFreed c (memory.update_cluster (freed memory library c) w).1
unfolding freed_in frees
update_cluster-frees c w a h = elim (Bool-cases w.busy) [
  | inl y ↦ cc (rw y at h)
  | inr n ↦ rw (
    n,
    eq_refl c.meta.name,
    library-FinalizerLaws.contains-remove pipeline_finalizer_name pipeline_finalizer_name
        c.meta.finalizers,
  )
]

update_cluster-keeps :
    (c d : Cluster) (w : Server) → IsFreed c w → IsFreed c (memory.update_cluster d w).1
unfolding freed_in
update_cluster-keeps c d w h = elim (Bool-cases w.busy) [
  | inl y ↦ rw y h
  | inr n ↦ rw n (ground arith)
]

release_clusters_complete_example :
    All
      (λ c.
        (is_held memory library c ≡ false)
        ⊎ IsFreed c (record empty_server {
          log = Resource.custom (Object.cluster (freed memory library dying)) ∷ [];
        }))
      (live ∷ dying ∷ [])
unfolding release_clusters library without contains
release_clusters_complete_example =
    release_clusters_complete memory library IsFreed update_cluster-frees update_cluster-keeps
      (live ∷ dying ∷ []) empty_server
      (record empty_server {
        log = Resource.custom (Object.cluster (freed memory library dying)) ∷ [];
      })
      refl
