-- ===== src/Tenants/Reconcile/Deletion.antt =====
-- What `Common` does with the finalizers of a tenant.
use lieutenant_operator.Prelude.{String, ◌≡◌, refl, true, false, ◌==◌, Option, contains}
use lieutenant_operator.Api.Object.{Object, get_meta, set_finalizers}
use lieutenant_operator.Kube.{Client, Library, FinalizerLaws}
use lieutenant_operator.Pipeline.{State}
use lieutenant_operator.Pipeline.Steps.{common, handle_finalizer, add_deletion_protection}
use lieutenant_operator.Pipeline.Updating.{before_update, common_live}
use lieutenant_operator.Pipeline.Protection.{
  ctx-add_deletion_protection, finalizers-add_deletion_protection, obj-finish,
  get_meta-set_finalizers,
}
use lieutenant_operator.Tenants.Reconcile.{Settings, context_of}

module _ {W : Type 0} (lib : Library) (cli : Client W) where
  -- With no name for a finalizer, the step asks the library to take the empty name away.
  obj-handle_finalizer_unnamed :
      (s : State W)
      → (s.ctx.finalizer_name == "") ≡ true
      → (handle_finalizer lib s).1.obj
        ≡ set_finalizers
            (lib.remove_finalizer (get_meta s.obj).finalizers s.ctx.finalizer_name).0
            s.obj
  unfolding handle_finalizer
  obj-handle_finalizer_unnamed s n = rw n

  module _ (r : Settings) (original : Option Object) (o : Object) (w : W) where
    -- A tenant in `Common`, under its controller's context.
    abbrev pub at_common : State W
    at_common = record {
      obj = o;
      ctx = record (context_of r) { original_object = original };
      world = w;
    }

    -- Given what the finalizer functions document, in the context of its controller a tenant leaves
    -- `Common` with the finalizers that it had and no other, whether it is being deleted or not, and
    -- whatever its protection says.
    pub finalizers-common_tenant :
        FinalizerLaws lib
        → (f : String) → ("" == f) ≡ false
        → contains f (get_meta (common lib cli at_common).1.obj).finalizers
          ≡ contains f (get_meta o).finalizers
    unfolding before_update
    finalizers-common_tenant laws f n =
        let t = (add_deletion_protection at_common).1 in
        let e = ctx-add_deletion_protection at_common in
        rw
          (
            common_live lib cli at_common refl,
            obj-finish lib cli (before_update lib at_common),
            before_update,
          )
          (rw
            (
              obj-handle_finalizer_unnamed t (rw e refl),
              get_meta-set_finalizers t.obj,
              e,
              finalizers-add_deletion_protection at_common,
              laws.contains-remove "" f (get_meta o).finalizers,
              n,
            )
            refl)
