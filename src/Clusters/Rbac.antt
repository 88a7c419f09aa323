-- ===== src/Clusters/Rbac.antt =====
-- The access of a cluster to its own object: controllers/cluster/rbac.go.
use lieutenant_operator.Prelude.{Bool, not, ◌||◌, none, List, [], ◌∷◌, if◌then◌else◌}
use lieutenant_operator.Errors.{ok, err, is_not_found}
use lieutenant_operator.Exec.{Exec, pure, ended, ended_new, ◌>>◌}
use lieutenant_operator.Api.Meta.{ObjectMeta, NamespacedName}
use lieutenant_operator.Api.Core.{Secret, PolicyRule, Role, RoleRef, Subject, RoleBinding}
use lieutenant_operator.Api.Object.{Object, get_meta}
use lieutenant_operator.Kube.{Client, Resource}
use lieutenant_operator.Pipeline.{Function, continue, fail}

-- `equality.Semantic.DeepEqual` at the types that are compared here.
pub record Equalities : Type 0 where
  pub rules : List PolicyRule → List PolicyRule → Bool
  pub role_ref : RoleRef → RoleRef → Bool
  pub subjects : List Subject → List Subject → Bool

abbrev pub cluster_meta : Object → ObjectMeta
cluster_meta o = record {
  name = (get_meta o).name;
  namespace = (get_meta o).namespace;
  labels = [];
  annotations = [];
  finalizers = [];
  owner_references = record { kind = "Cluster"; name = (get_meta o).name } ∷ [];
  deletion_timestamp = none;
  creation_timestamp = 0;
}

abbrev pub key : ObjectMeta → NamespacedName
key m = record { namespace = m.namespace; name = m.name }

abbrev pub token_secret : ObjectMeta → Secret
token_secret m = record {
  meta = record m { annotations = ("kubernetes.io/service-account.name", m.name) ∷ [] };
  type = "kubernetes.io/service-account-token";
  contents = [];
}

abbrev pub cluster_role : ObjectMeta → Role
cluster_role m = record {
  meta = m;
  rules =
      record {
        api_groups = "syn.tools" ∷ [];
        verbs = "get" ∷ "update" ∷ "patch" ∷ [];
        resources = "clusters" ∷ "clusters/status" ∷ [];
        resource_names = m.name ∷ [];
      }
      ∷ [];
}

abbrev pub cluster_role_binding : ObjectMeta → RoleBinding
cluster_role_binding m = record {
  meta = m;
  role_ref = record { api_group = ""; kind = "Role"; name = m.name };
  subjects = record { kind = "ServiceAccount"; namespace = m.namespace; name = m.name } ∷ [];
}

module _ {W : Type 0} (cli : Client W) (equal : Equalities) where
  create_secret : ObjectMeta → Exec W (Unit {0})
  create_secret m w = ended_new (cli.create (Resource.secret (token_secret m)) w)

  unfoldable pub create_cluster_sa : ObjectMeta → Bool → Exec W (Unit {0})
  unfolding create_secret
  create_cluster_sa m create_token_secret = do
    λ w. ended_new (cli.create (Resource.service_account m) w)
    if create_token_secret then create_secret m else pure tt

  unfoldable pub create_or_update_cluster_role : ObjectMeta → Exec W (Unit {0})
  create_or_update_cluster_role m w = elim (cli.get_role (key m) w) [
    | err e ↦
        if is_not_found e then ended (cli.create (Resource.role (cluster_role m)) w) else (err e, w)
    | ok found ↦
        if not (equal.rules found.rules (cluster_role m).rules)
        then ended (cli.update (Resource.role (record found { rules = (cluster_role m).rules })) w)
        else (ok tt, w)
  ]

  unfoldable pub create_or_update_cluster_role_binding : ObjectMeta → Exec W (Unit {0})
  create_or_update_cluster_role_binding m w =
      let wanted = cluster_role_binding m in
      elim (cli.get_role_binding (key m) w) [
        | err e ↦
            if is_not_found e
            then ended (cli.create (Resource.role_binding wanted) w)
            else (err e, w)
        | ok found ↦
            if not (equal.role_ref found.role_ref wanted.role_ref)
              || not (equal.subjects found.subjects wanted.subjects)
            then ended (
                cli.update
                  (Resource.role_binding
                    (record found { role_ref = wanted.role_ref; subjects = wanted.subjects }))
                  w)
            else (ok tt, w)
      ]

  unfoldable pub create_cluster_rbac : Function W
  unfolding create_cluster_sa create_or_update_cluster_role create_or_update_cluster_role_binding
  create_cluster_rbac s =
      let m = cluster_meta s.obj in
      let (r, w) =
        (do
          create_cluster_sa m s.ctx.create_sa_token_secret
          create_or_update_cluster_role m
          create_or_update_cluster_role_binding m)
          s.world in
      (elim r [ ok _ ↦ continue | err e ↦ fail e ], record s { world = w })
