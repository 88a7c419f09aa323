-- ===== src/Tenants/Templates.antt =====
-- `ApplyTemplate` of api/v1alpha1/tenant_types.go and controllers/tenant/template.go.
use lieutenant_operator.Prelude.{
  String, true, false, ◌||◌, Option, none, some, insert, if◌then◌else◌,
}
use lieutenant_operator.Errors.{Error, ok, err, wrap, is_not_found, is_not_registered}
use lieutenant_operator.Api.Meta.{ObjectMeta}
use lieutenant_operator.Api.Tenant.{Tenant, TenantSpec}
use lieutenant_operator.Api.Object.{tenant}
use lieutenant_operator.Kube.{Client}
use lieutenant_operator.Pipeline.{Function, continue, fail}
use lieutenant_operator.Tenants.Access.{on_tenant}

abbrev pub annotate_template : String → Tenant → Tenant
annotate_template name t = record t {
  meta = record (t.meta) {
    annotations = insert "lieutenant.syn.tools/tenant-template" name t.meta.annotations;
  };
}

abbrev pub merged : Tenant → String → Option Error × TenantSpec → Option Error × Tenant
merged t name (some e, spec) =
    (some (wrap "failed to merge tenant template into tenant" e), record t { spec = spec })
merged t name (none, spec) = (none, annotate_template name (record t { spec = spec }))

-- The parameter is `mergo.Merge(dst, src)` at tenants' specs, with the destination also where it fails.
module _ (merge : TenantSpec → TenantSpec → Option Error × TenantSpec) where
  unfoldable pub apply_template : Tenant → Option (ObjectMeta × TenantSpec) → Option Error × Tenant
  apply_template t none = (none, t)
  apply_template t (some (meta, spec)) = merged t meta.name (merge t.spec spec)

  unfoldable pub apply_template_from_tenant_template : {W : Type 0} → Client W → Function W
  unfolding apply_template
  apply_template_from_tenant_template cli = on_tenant (λ t s.
      elim (cli.get_tenant_template (record { namespace = t.meta.namespace; name = "default" })
        s.world) [
          | err e ↦
              if is_not_found e || is_not_registered e
              then (continue, s)
              else (record { abort = false; err = some e; requeue = true }, s)
          | ok template ↦
              let (e, t') = apply_template t (some template) in
              (
                elim e [ none ↦ continue | some x ↦ fail (wrap "apply tenant template" x) ],
                record s { obj = tenant t' },
              )
        ])
