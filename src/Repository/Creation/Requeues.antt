-- ===== src/Repository/Creation/Requeues.antt =====
-- The steps on the repository object ask for no requeue.
use lieutenant_operator.Prelude.{
  Bool, Option, none, some, ◌≡◌, refl, false, ◌==◌, arith, Bool-cases, inl, inr,
}
use lieutenant_operator.Errors.{Error}
use lieutenant_operator.Api.GitRepo.{GitRepoTemplate}
use lieutenant_operator.Api.Object.{get_tenant_ref}
use lieutenant_operator.Kube.{Client}
use lieutenant_operator.Pipeline.{State}
use lieutenant_operator.Repository.Creation.{ended, create_or_update, update_url_and_host_keys}

module _ {W : Type 0} (cli : Client W) (template_equal : GitRepoTemplate → GitRepoTemplate → Bool)
    (s : State W) where
  ended-requeue : (e : Option Error) → (ended e).requeue ≡ false
  ended-requeue none = refl
  ended-requeue (some e) = refl

  pub requeue-create_or_update : (create_or_update cli template_equal s).0.requeue ≡ false
  unfolding create_or_update
  requeue-create_or_update = elim (Bool-cases (get_tenant_ref s.obj == "")) [
    | inl y ↦ rw y refl
    | inr n ↦ rw n (ended-requeue _)
  ]

  pub requeue-update_url_and_host_keys :
      (update_url_and_host_keys cli template_equal s).0.requeue ≡ false
  unfolding update_url_and_host_keys
  requeue-update_url_and_host_keys = ground (arith)
