-- ===== src/Clusters/Reconcile/Requeues.antt =====
-- The controller of clusters never asks for another run at once.
use lieutenant_operator.Prelude.{ℕ, ◌≡◌, refl, false, [], ◌∷◌, ◌++◌, inl, inr}
use lieutenant_operator.Errors.{Outcome-cases}
use lieutenant_operator.Api.Meta.{NamespacedName}
use lieutenant_operator.Api.Object.{cluster}
use lieutenant_operator.Kube.{Client}
use lieutenant_operator.Pipeline.{State, run_pipeline}
use lieutenant_operator.Pipeline.Steps.{deep_copy_original, add_tenant_label}
use lieutenant_operator.Pipeline.Running.{run_pipeline_result, requeue_needs_abort}
use lieutenant_operator.Pipeline.Updating.{common_never_requeues}
use lieutenant_operator.Repository.Creation.Requeues.{
  requeue-create_or_update, requeue-update_url_and_host_keys,
}
use lieutenant_operator.Clusters.Reconcile.{
  Settings, Parts, context_of, early_steps, owner_step, template_step, specific_steps,
  cluster_steps, reconcile,
}

module _ {W : Type 0} (cli : Client W) (parts : Parts W) (fuel : ℕ) where
  pipeline_requeues :
      (s : State W) → (run_pipeline (cluster_steps cli parts fuel) s).0.requeue ≡ false
  unfolding deep_copy_original add_tenant_label specific_steps
  pipeline_requeues s =
      let specific =
        early_steps cli parts fuel
        ++ owner_step cli parts fuel ∷ template_step cli parts fuel ∷ [] in
      requeue_needs_abort (cluster_steps cli parts fuel) s (
        (λ t a. refl),
        (
          (λ t a. let never = (run_pipeline_result specific t).0 in cc),
          (
            (λ t a. requeue-create_or_update cli parts.template_equal t),
            (
              (λ t a. requeue-update_url_and_host_keys cli parts.template_equal t),
              ((λ t a. refl), ((λ t a. common_never_requeues parts.lib cli t), tt)),
            ),
          ),
        ),
      )

  -- Whatever the server answers, the controller of clusters asks for no requeue, not even where the
  -- final write meets a conflict, though that step asks for one.
  pub reconcile_never_requeues :
      (r : Settings) (request : NamespacedName) (w : W)
      → (reconcile cli parts fuel r request w).0.requeue ≡ false
  unfolding reconcile
  reconcile_never_requeues r request w = elim (Outcome-cases (cli.get_cluster request w)) [
    | inl (c, h) ↦
        rw (reconcile, h)
          (pipeline_requeues (record { obj = cluster c; ctx = context_of r; world = w }))
    | inr (e, h) ↦ rw (reconcile, h) refl
  ]
