-- ===== src/Pipeline/Labels.antt =====
-- `AddTenantLabel` and `CheckIfDeleted`.
use lieutenant_operator.Prelude.{
  String, ◌≡◌, refl, false, arith, Dict, lookup, lookup-insert, value_of, ◌==◌, eq_iff,
}
use lieutenant_operator.Api.Meta.{label_name_tenant}
use lieutenant_operator.Api.Object.{Object, cluster, get_meta, set_labels, get_tenant_ref}
use lieutenant_operator.Pipeline.{State}
use lieutenant_operator.Pipeline.Steps.{with_tenant, add_tenant_label}

labels-set_labels : (o : Object) (l : Dict String) → (get_meta (set_labels l o)).labels ≡ l
labels-set_labels (cluster c) l = refl
labels-set_labels _ l = refl

tenant_ref-set_labels :
    (o : Object) (l : Dict String) → get_tenant_ref (set_labels l o) ≡ get_tenant_ref o
tenant_ref-set_labels (cluster c) l = refl
tenant_ref-set_labels _ l = refl

lookup-with_tenant :
    (name k : String) (l : Dict String)
    → (label_name_tenant == k) ≡ false
    → lookup k (with_tenant name l) ≡ lookup k l
unfolding with_tenant
lookup-with_tenant name k l n = ground (arith, lookup-insert label_name_tenant k name l)

value_of-with_tenant :
    (name : String) (l : Dict String) → value_of label_name_tenant (with_tenant name l) ≡ name
unfolding with_tenant
value_of-with_tenant name l = ground (
  arith,
  lookup-insert label_name_tenant label_name_tenant name l,
  eq_iff (value_of label_name_tenant l) name,
)

module _ {W : Type 0} where
  -- After the step the tenant label reads as the tenant's name, every other label `k` is as it was,
  -- and the tenant that the object names is the same.
  pub lookup-add_tenant_label :
      (s : State W) (k : String)
      → (label_name_tenant == k) ≡ false
      → (value_of label_name_tenant (get_meta (add_tenant_label s).1.obj).labels
          ≡ get_tenant_ref s.obj)
        × (lookup k (get_meta (add_tenant_label s).1.obj).labels ≡ lookup k (get_meta s.obj).labels)
        × (get_tenant_ref (add_tenant_label s).1.obj ≡ get_tenant_ref s.obj)
  unfolding add_tenant_label
  lookup-add_tenant_label s k n =
      let name = get_tenant_ref s.obj in
      let l = (get_meta s.obj).labels in
      (
        rw (labels-set_labels s.obj) (value_of-with_tenant name l),
        rw (labels-set_labels s.obj) (lookup-with_tenant name k l n),
        tenant_ref-set_labels s.obj (with_tenant name l),
      )
