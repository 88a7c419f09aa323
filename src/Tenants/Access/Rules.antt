-- ===== src/Tenants/Access/Rules.antt =====
-- What the role of a tenant allows, by the meaning that Kubernetes gives to rules.
use lieutenant_operator.Prelude.{
  String, ◌≡◌, Bool, true, false, ◌&&◌, ◌||◌, List, [], ◌∷◌, ◌==◌, arith, contains,
}
use lieutenant_operator.Api.Cluster.{Cluster}
use lieutenant_operator.Api.Tenant.{Tenant}
use lieutenant_operator.Api.Core.{PolicyRule}
use lieutenant_operator.CompilePipeline.{sorted_cluster_names, cluster_names}
use lieutenant_operator.CompilePipeline.Status.{contains-sort_strings}
use lieutenant_operator.Tenants.Access.{rule, cluster_rules, role_rules}

-- A field of a rule has the word or the wildcard.
unfoldable pub has : String → List String → Bool
has word words = contains "*" words || contains word words

-- A rule without names is for the resources of every name.
abbrev pub names_allow : List String → String → Bool
names_allow [] name = true
names_allow (n ∷ ns) name = contains name (n ∷ ns)

-- The test of Kubernetes' authorizer, without its form `*/subresource` of a rule's resources.
unfoldable pub rule_allows : PolicyRule → String → String → String → String → Bool
unfolding has
rule_allows r group verb resource name =
    has group r.api_groups
    && has verb r.verbs
    && has resource r.resources
    && names_allow r.resource_names name

-- Some rule allows the verb on the resource of the group and the name.
unfoldable pub allows : List PolicyRule → String → String → String → String → Bool
unfolding rule_allows
allows [] group verb resource name = false
allows (r ∷ rs) group verb resource name =
    rule_allows r group verb resource name || allows rs group verb resource name

-- What a tenant may do with its clusters.
abbrev pub may_on_clusters : Bool → String → String → Bool
may_on_clusters among verb resource =
    ("get" == verb && "clusters" == resource && among)
    || ((("get" == verb) || ("update" == verb) || ("patch" == verb))
        && "clusters/status" == resource
        && among)

names_sorted :
    (clusters : List Cluster) (name : String)
    → contains name (sorted_cluster_names clusters) ≡ contains name (cluster_names clusters)
unfolding sorted_cluster_names
names_sorted clusters name = contains-sort_strings name (cluster_names clusters)

either : (a b c : Bool) → (a && b) || (a && c) ≡ (a && (b || c))
either a b c = ground (arith)

module _ (group verb resource name : String) where
  cluster_rules_allow :
      (names : List String)
      → allows (cluster_rules names) group verb resource name
        ≡ ("syn.tools" == group && may_on_clusters (contains name names) verb resource)
  unfolding allows contains has
  cluster_rules_allow [] = ground (arith)
  cluster_rules_allow (n ∷ ns) = ground (arith)

  tenant_rule_allows :
      (n : String)
      → rule_allows (rule ("get" ∷ []) "tenants" (n ∷ [])) group verb resource name
        ≡ ("syn.tools" == group && ("get" == verb && "tenants" == resource && n == name))
  unfolding rule_allows contains has
  tenant_rule_allows n = ground (arith)

  -- The role of a tenant allows, in the API group of the operator, to get the tenant itself, to get its
  -- clusters, and to get, update and patch their status. It allows no other verb, resource, group or
  -- name: where the tenant has no cluster, it gets no rule without names, which would be for the
  -- clusters of everyone.
  pub role_rules_allow :
      (t : Tenant) (clusters : List Cluster)
      → allows (role_rules t clusters) group verb resource name ≡ (
          "syn.tools" == group
          && (("get" == verb && "tenants" == resource && t.meta.name == name)
              || may_on_clusters (contains name (cluster_names clusters)) verb resource))
  unfolding role_rules allows
  role_rules_allow t clusters =
      rw
        (
          tenant_rule_allows t.meta.name,
          cluster_rules_allow (sorted_cluster_names clusters),
          names_sorted clusters name,
        )
        (either ("syn.tools" == group)
          ("get" == verb && "tenants" == resource && t.meta.name == name)
          (may_on_clusters (contains name (cluster_names clusters)) verb resource))
