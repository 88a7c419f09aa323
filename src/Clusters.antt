-- ===== src/Clusters.antt =====
-- controllers/cluster: the steps of a cluster, of which those on Vault stand in Vault/Steps.
pub mod Tokens
pub mod Rbac
pub mod Templates
pub mod Reconcile
pub mod Examples
use lieutenant_operator.Prelude.{String, Bool, true, false, List, [], ◌∷◌}
use lieutenant_operator.Errors.{Outcome, ok, err, wrap}
use lieutenant_operator.Api.Meta.{NamespacedName, OwnerReference, ObjectMeta}
use lieutenant_operator.Api.Object.{Object, get_meta, set_meta, get_tenant_ref}
use lieutenant_operator.Kube.{Client}
use lieutenant_operator.Pipeline.{State, Function, continue, fail}

abbrev pub tenant_key : Object → NamespacedName
tenant_key o = record { namespace = (get_meta o).namespace; name = get_tenant_ref o }

abbrev pub set_owners : List OwnerReference → Object → Object
set_owners l o = set_meta (record (get_meta o) { owner_references = l }) o

module _ {W : Type 0} (cli : Client W) where
  unfoldable pub set_tenant_owner : Function W
  set_tenant_owner s = elim (cli.get_tenant (tenant_key s.obj) s.world) [
    | err e ↦ (fail (wrap "get tenant" e), s)
    | ok t ↦ (
      continue,
      record s { obj = set_owners (record { kind = "Tenant"; name = t.meta.name } ∷ []) s.obj },
    )
  ]
