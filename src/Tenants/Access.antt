-- ===== src/Tenants/Access.antt =====
-- The access of a tenant to its objects: controllers/tenant/service_account.go, role.go, role_binding.go
-- and util.go.
pub mod Rules
use lieutenant_operator.Prelude.{
  String, Bool, Option, none, some, List, [], ◌∷◌, ◌<>◌, if◌then◌else◌,
}
use lieutenant_operator.Errors.{Error, Outcome, ok, err, msg, wrap}
use lieutenant_operator.Exec.{Exec, pure, annotated, ended_new, ◌>>◌}
use lieutenant_operator.Api.Meta.{ObjectMeta}
use lieutenant_operator.Api.Cluster.{Cluster}
use lieutenant_operator.Api.Tenant.{Tenant}
use lieutenant_operator.Api.Core.{Secret, PolicyRule, Role, RoleBinding}
use lieutenant_operator.Api.Object.{tenant}
use lieutenant_operator.CompilePipeline.{sorted_cluster_names}
use lieutenant_operator.Kube.{Client, Resource}
use lieutenant_operator.Pipeline.{State, Result, Function, continue, fail}

-- `controllerutil.CreateOrUpdate` at roles, with the function that changes the role and the name of what
-- was done in the answer, and `controllerutil.SetControllerReference`.
pub record RoleTools (W : Type 0) : Type 0 where
  pub create_or_update : Role → (Role → Outcome Role) → W → String × Option Error × W
  pub set_controller_reference : Tenant → Role → Outcome Role

-- The metadata of a new object with the tenant's name, which the tenant owns: `SetControllerReference`
-- refuses only an owner of another namespace, a second owner, or a kind that the scheme does not know.
abbrev pub owned_meta : Tenant → ObjectMeta
owned_meta t = record {
  name = t.meta.name;
  namespace = t.meta.namespace;
  labels = ("app.kubernetes.io/managed-by", "lieutenant") ∷ [];
  annotations = [];
  finalizers = [];
  owner_references = record { kind = "Tenant"; name = t.meta.name } ∷ [];
  deletion_timestamp = none;
  creation_timestamp = 0;
}

-- `newServiceAccountTokenSecret`
abbrev pub new_token_secret : Tenant → Secret
new_token_secret t = record {
  meta = record (owned_meta t) {
    annotations = ("kubernetes.io/service-account.name", t.meta.name) ∷ [];
  };
  type = "kubernetes.io/service-account-token";
  contents = [];
}

-- `NewRoleBinding`
abbrev pub new_role_binding : Tenant → RoleBinding
new_role_binding t = record {
  meta = owned_meta t;
  role_ref = record { api_group = "rbac.authorization.k8s.io"; kind = "Role"; name = t.meta.name };
  subjects =
      record { kind = "ServiceAccount"; namespace = t.meta.namespace; name = t.meta.name } ∷ [];
}

-- A rule on resources of the operator's own group.
abbrev pub rule : List String → String → List String → PolicyRule
rule verbs resource names = record {
  api_groups = "syn.tools" ∷ [];
  verbs = verbs;
  resources = resource ∷ [];
  resource_names = names;
}

-- The rules on the clusters, if there is a cluster.
abbrev pub cluster_rules : List String → List PolicyRule
cluster_rules [] = []
cluster_rules (n ∷ ns) =
    rule ("get" ∷ []) "clusters" (n ∷ ns)
    ∷ rule ("get" ∷ "update" ∷ "patch" ∷ []) "clusters/status" (n ∷ ns)
    ∷ []

unfoldable pub role_rules : Tenant → List Cluster → List PolicyRule
role_rules t clusters =
    rule ("get" ∷ []) "tenants" (t.meta.name ∷ []) ∷ cluster_rules (sorted_cluster_names clusters)

-- The object that `CreateOrUpdate` is given.
abbrev pub named_role : Tenant → Role
named_role t = record {
  meta = record {
    name = t.meta.name;
    namespace = t.meta.namespace;
    labels = [];
    annotations = [];
    finalizers = [];
    owner_references = [];
    deletion_timestamp = none;
    creation_timestamp = 0;
  };
  rules = [];
}

module _ {W : Type 0} where
  abbrev pub stepped : State W → Outcome (Unit {0}) × W → Result × State W
  stepped s (ok _, w) = (continue, record s { world = w })
  stepped s (err e, w) = (fail e, record s { world = w })

  -- A step that is for tenants alone.
  abbrev pub on_tenant : (Tenant → State W → Result × State W) → Function W
  on_tenant f s = elim s.obj [ tenant t ↦ f t s | _ ↦ (fail (msg "object is not a tenant"), s) ]

  module _ (cli : Client W) where
    create_account : Tenant → Exec W (Unit {0})
    create_account t =
        annotated "create serviceaccount"
          (λ w. ended_new (cli.create (Resource.service_account (owned_meta t)) w))

    create_token : Tenant → Exec W (Unit {0})
    create_token t =
        annotated "create serviceaccount token secret"
          (λ w. ended_new (cli.create (Resource.secret (new_token_secret t)) w))

    unfoldable pub create_service_account : Function W
    unfolding create_account create_token
    create_service_account = on_tenant (λ t s. stepped s (
        (do create_account t; if s.ctx.create_sa_token_secret then create_token t else pure tt)
          s.world))

    unfoldable pub create_role_binding : Function W
    create_role_binding = on_tenant (λ t s. stepped s (
        annotated "create rolebinding"
          (λ w. ended_new (cli.create (Resource.role_binding (new_role_binding t)) w)) s.world))

    module _ (tools : RoleTools W) where
      -- The function that `CreateOrUpdate` is given.
      unfoldable pub mutate_role : Tenant → List Cluster → Role → Outcome Role
      unfolding role_rules
      mutate_role t clusters role =
          tools.set_controller_reference t (record role { rules = role_rules t clusters })

      unfoldable pub reconcile_role : Function W
      unfolding mutate_role
      reconcile_role = on_tenant (λ t s.
          elim (cli.list_clusters_of t.meta.namespace t.meta.name s.world) [
            | err e ↦ (fail (wrap "failed to list clusters" e), s)
            | ok clusters ↦
                let (op, e, w) =
                  tools.create_or_update (named_role t) (mutate_role t clusters) s.world in
                elim e [
                  | none ↦ (continue, record s { world = w })
                  | some x ↦ (
                    fail (wrap ("failed to create or update role (op: " <> op <> ")") x),
                    record s { world = w },
                  )
                ]
          ])
