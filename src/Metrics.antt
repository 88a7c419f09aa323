-- ===== src/Metrics.antt =====
-- metrics/: what the collectors send to Prometheus. The library's test of a description is a parameter.
pub mod Labels
pub mod Valid
pub mod Examples
use lieutenant_operator.Prelude.{
  ℕ, String, Bool, ◌&&◌, ◌||◌, Option, none, some, List, [], ◌∷◌, ◌++◌, ◌==◌, Dict, map, sort_by,
  str_ltb, ℤ, pos,
}
use lieutenant_operator.Errors.{Error, Outcome, ok, err, wrap}
use lieutenant_operator.Api.Cluster.{
  Cluster, CompileMeta, CompileMetaVersionInfo, CompileMetaInstanceVersionInfo,
}
use lieutenant_operator.Api.Tenant.{Tenant}
use lieutenant_operator.Kube.{Client}
use lieutenant_operator.Metrics.Labels.{normalize_label_key, number_labels, reserved}

-- A metric is a gauge with a name, labels and their values.
pub data Metric : Type 0 where
  gauge : String → ℤ → List String → List String → Metric
  -- `prometheus.NewInvalidMetric`
  invalid : String → Error → Metric

abbrev pub by_key_and_value : String × String → String × String → Bool
by_key_and_value a b = str_ltb a.0 b.0 || (a.0 == b.0 && str_ltb a.1 b.1)

-- `pairs`
abbrev pub sorted_pairs : Dict String → Dict String
sorted_pairs m = sort_by by_key_and_value m

unfoldable pub pairs : Dict String → List String × List String
pairs m = (map (λ p. p.0) (sorted_pairs m), map (λ p. p.1) (sorted_pairs m))

unfoldable pub fact_labels : Dict String → List String
unfolding number_labels normalize_label_key pairs
fact_labels facts =
    number_labels [] (map (λ k. normalize_label_key k reserved "fact_") (pairs facts).0)

-- What all metrics of a cluster say first.
abbrev pub cluster_labels : Cluster → List String
cluster_labels c = c.meta.name ∷ c.spec.tenant_ref ∷ []

-- `prometheus.NewConstMetric` refuses labels that are not valid or stand twice.
module _ (check : List String → Option Error) where
  -- What is refused is logged alone.
  abbrev pub const_metric : String → List String → List String → List Metric
  const_metric name labels values = elim (check labels) [
    | none ↦ gauge name (pos 1) labels values ∷ []
    | some e ↦ []
  ]

  unfoldable pub cluster_facts : String → Cluster → Dict String → List Metric
  unfolding fact_labels pairs
  cluster_facts name c facts =
      const_metric name ("cluster" ∷ "tenant" ∷ fact_labels facts)
        (cluster_labels c ++ (pairs facts).1)

  abbrev pub cluster_info : Cluster → List Metric
  unfolding cluster_facts
  cluster_info c =
      gauge "syn_lieutenant_cluster_info" (pos 1) ("cluster" ∷ "tenant" ∷ "display_name" ∷ [])
          (cluster_labels c ++ c.spec.display_name ∷ [])
        ∷ cluster_facts "syn_lieutenant_cluster_facts" c c.spec.facts
      ++ cluster_facts "syn_lieutenant_cluster_dynamic_facts" c c.status.facts

  abbrev pub version_labels : List String
  version_labels = "url" ∷ "path" ∷ "version" ∷ "gitSha" ∷ []

  abbrev pub version_metric : String → Cluster → CompileMetaVersionInfo → Metric
  version_metric name c v =
      gauge name (pos 1) ("cluster" ∷ "tenant" ∷ version_labels)
        (cluster_labels c ++ v.url ∷ "" ∷ v.version ∷ v.git_sha ∷ [])

  abbrev pub package_metrics : Cluster → Dict CompileMetaVersionInfo → List Metric
  package_metrics c [] = []
  package_metrics c ((name, v) ∷ vs) =
      gauge "syn_lieutenant_cluster_compile_meta_package" (pos 1)
        ("cluster" ∷ "tenant" ∷ "name" ∷ version_labels)
        (cluster_labels c ++ name ∷ v.url ∷ v.path ∷ v.version ∷ v.git_sha ∷ [])
      ∷ package_metrics c vs

  abbrev pub instance_metrics : Cluster → Dict CompileMetaInstanceVersionInfo → List Metric
  instance_metrics c [] = []
  instance_metrics c ((name, v) ∷ vs) =
      gauge "syn_lieutenant_cluster_compile_meta_instance" (pos 1)
        ("cluster" ∷ "tenant" ∷ "name" ∷ version_labels ++ "component" ∷ [])
        (cluster_labels c
          ++ name ∷ v.info.url ∷ v.info.path ∷ v.info.version ∷ v.info.git_sha ∷ v.component ∷ [])
      ∷ instance_metrics c vs

  unfoldable pub build_info : Cluster → Dict String → List Metric
  unfolding pairs
  build_info c m =
      const_metric "syn_lieutenant_cluster_compile_meta_commodore_build_info"
        ((pairs m).0 ++ "cluster" ∷ "tenant" ∷ []) ((pairs m).1 ++ cluster_labels c)

  unfoldable pub compile_meta_metrics : Cluster → List Metric
  unfolding build_info
  compile_meta_metrics c =
      let m = c.status.compile_meta in
      gauge "syn_lieutenant_cluster_compile_meta_last_compile" m.last_compile
          ("cluster" ∷ "tenant" ∷ []) (cluster_labels c)
        ∷ build_info c m.commodore_build_info
      ++ version_metric "syn_lieutenant_cluster_compile_meta_global" c m.global
        ∷ version_metric "syn_lieutenant_cluster_compile_meta_tenant" c m.tenant
        ∷ package_metrics c m.packages
      ++ instance_metrics c m.instances

  abbrev pub for_each : {A : Type 0} → (A → List Metric) → List A → List Metric
  for_each f [] = []
  for_each f (x ∷ xs) = f x ++ for_each f xs

  module _ {W : Type 0} (cli : Client W) (namespace : String) where
    -- `Collect` of each of the three collectors.
    unfoldable pub collect_cluster_info : W → List Metric
    collect_cluster_info w = elim (cli.list_all_clusters namespace w) [
      | err e ↦ invalid "syn_lieutenant_cluster_info" (wrap "failed to list clusters" e) ∷ []
      | ok clusters ↦ for_each cluster_info clusters
    ]

    unfoldable pub collect_compile_meta : W → List Metric
    unfolding compile_meta_metrics
    collect_compile_meta w = elim (cli.list_all_clusters namespace w) [
      | err e ↦
          map (λ name. invalid name (wrap "failed to list clusters" e))
            ("syn_lieutenant_cluster_compile_meta_last_compile"
              ∷ "syn_lieutenant_cluster_compile_meta_commodore_build_info"
              ∷ "syn_lieutenant_cluster_compile_meta_global"
              ∷ "syn_lieutenant_cluster_compile_meta_tenant"
              ∷ "syn_lieutenant_cluster_compile_meta_package"
              ∷ "syn_lieutenant_cluster_compile_meta_instance" ∷ [])
      | ok clusters ↦ for_each compile_meta_metrics clusters
    ]

    abbrev pub tenant_info : Tenant → List Metric
    tenant_info t =
        gauge "syn_lieutenant_tenant_info" (pos 1) ("tenant" ∷ "display_name" ∷ [])
          (t.meta.name ∷ t.spec.display_name ∷ [])
        ∷ []

    unfoldable pub collect_tenant_info : W → List Metric
    collect_tenant_info w = elim (cli.list_tenants namespace w) [
      | err e ↦ invalid "syn_lieutenant_tenant_info" (wrap "failed to list tenants" e) ∷ []
      | ok tenants ↦ for_each tenant_info tenants
    ]
