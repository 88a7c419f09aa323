-- ===== src/Tenants/Reconcile/Requeues.antt =====
-- The controller of tenants never asks for another run at once.
use lieutenant_operator.Prelude.{◌≡◌, refl, false, inl, inr}
use lieutenant_operator.Errors.{Outcome-cases}
use lieutenant_operator.Api.Meta.{NamespacedName}
use lieutenant_operator.Api.Object.{tenant}
use lieutenant_operator.Kube.{Client}
use lieutenant_operator.Pipeline.{State, run_pipeline}
use lieutenant_operator.Pipeline.Steps.{deep_copy_original}
use lieutenant_operator.Pipeline.Running.{run_pipeline_result, requeue_needs_abort}
use lieutenant_operator.Pipeline.Updating.{common_never_requeues}
use lieutenant_operator.Repository.Creation.Requeues.{
  requeue-create_or_update, requeue-update_url_and_host_keys,
}
use lieutenant_operator.Tenants.Reconcile.{
  Settings, Parts, context_of, specific_steps, steps, tenant_steps, reconcile,
}

module _ {W : Type 0} (cli : Client W) (parts : Parts W) where
  pipeline_requeues : (s : State W) → (run_pipeline (tenant_steps cli parts) s).0.requeue ≡ false
  unfolding deep_copy_original steps
  pipeline_requeues s = requeue_needs_abort (tenant_steps cli parts) s (
    (λ t a. refl),
    (
      (λ t a. let never = (run_pipeline_result (specific_steps cli parts) t).0 in cc),
      (
        (λ t a. requeue-create_or_update cli parts.template_equal t),
        (
          (λ t a. requeue-update_url_and_host_keys cli parts.template_equal t),
          ((λ t a. common_never_requeues parts.lib cli t), tt),
        ),
      ),
    ),
  )

  -- Whatever the server answers, the controller of tenants asks for no requeue, not even where the
  -- template of the tenants cannot be read, though that step asks for one.
  pub reconcile_requeues_nothing :
      (r : Settings) (request : NamespacedName) (w : W)
      → (reconcile cli parts r request w).0.requeue ≡ false
  unfolding reconcile
  reconcile_requeues_nothing r request w = elim (Outcome-cases (cli.get_tenant request w)) [
    | inl (t, h) ↦
        rw (reconcile, h)
          (pipeline_requeues (record { obj = tenant t; ctx = context_of r; world = w }))
    | inr (e, h) ↦ rw (reconcile, h) refl
  ]
