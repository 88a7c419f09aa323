-- ===== src/Repository/Steps/Adopting.antt =====
-- A repository of somebody else is left alone.
use lieutenant_operator.Prelude.{◌≡◌, refl, Bool, true, false, Option-cases, inl, inr}
use lieutenant_operator.Errors.{Error, Outcome, ok, err, msg, Multierr, Outcome-cases}
use lieutenant_operator.Api.GitRepo.{failed}
use lieutenant_operator.Api.Object.{Object, git_repo}
use lieutenant_operator.Kube.{Client}
use lieutenant_operator.Repository.{Repo, Tools, Work, set_phase, write_status, handle_repo_error}
use lieutenant_operator.Repository.Steps.{is_foreign, refuse, manage}

abbrev pub succeeded : {A : Type 0} → Outcome A → Bool
succeeded (ok a) = true
succeeded (err e) = false

module _ {W : Type 0} (cli : Client W) (tools : Tools W) (multierr : Multierr) (repo : Repo W)
    (P : W → Type 0) (keeps : (o : Object) (w : W) → P w → P (cli.update_status o w).2) where
  write_status_keeps : (s : Work W) → P s.world → P (write_status cli s).1.world
  unfolding write_status
  write_status_keeps s p =
      elim (Option-cases (cli.update_status (git_repo s.instance_) s.world).0) [
        | inl n ↦ rw (write_status, n) (keeps (git_repo s.instance_) s.world p)
        | inr (x, q) ↦ rw (write_status, q) (keeps (git_repo s.instance_) s.world p)
      ]

  handle_repo_error_keeps :
      (e : Error) (s : Work W)
      → P s.world
      → P (handle_repo_error cli {A = Unit {0}} e s).1.world
        × (succeeded (handle_repo_error cli {A = Unit {0}} e s).0 ≡ false)
  unfolding handle_repo_error
  handle_repo_error_keeps e s p =
      let t = record s { instance_ = set_phase failed s.instance_ } in
      let kept = write_status_keeps t p in
      elim (Outcome-cases (write_status cli t).0) [
        | inl (a, q) ↦ rw (handle_repo_error, q) (kept, refl)
        | inr (x, q) ↦ rw (handle_repo_error, q) (kept, refl)
      ]

  -- A repository whose URL is not the one of the status, and that may not be adopted, is left alone
  -- whatever the functions of `Repo` do: what the status updates of the Kubernetes client keep holds
  -- afterwards. The call succeeds exactly if the object is being deleted.
  pub manage_foreign :
      (deleted : Bool) (s : Work W)
      → is_foreign (repo.full_url s.world) s.instance_ ≡ true
      → P s.world
      → P (manage cli tools multierr repo deleted s).1.world
        × (succeeded (manage cli tools multierr repo deleted s).0 ≡ deleted)
  unfolding manage refuse
  manage_foreign true s f p = rw (manage, f) (p, refl)
  manage_foreign false s f p =
      rw (manage, f)
        (handle_repo_error_keeps (msg "Failed to adopt repository")
          (record s { instance_ = set_phase failed s.instance_ }) p)
