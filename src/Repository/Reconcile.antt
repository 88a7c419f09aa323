-- ===== src/Repository/Reconcile.antt =====
-- `Reconcile` of controllers/gitrepo_controller.go.
use lieutenant_operator.Prelude.{
  ◌<>◌, ◌∙◌, String, ◌≡◌, refl, Bool, true, false, Option, none, some, List, [], ◌∷◌, if◌then◌else◌,
}
use lieutenant_operator.Errors.{Error, ok, err, msg, wrap, is_not_found, Multierr}
use lieutenant_operator.Api.Meta.{NamespacedName, finalizer_name, is_zero}
use lieutenant_operator.Api.GitRepo.{GitRepo}
use lieutenant_operator.Api.Object.{git_repo, get_meta}
use lieutenant_operator.Kube.{Client, Library}
use lieutenant_operator.Pipeline.{Context, Result, State, Step, continue, fail, run_pipeline}
use lieutenant_operator.Pipeline.Steps.{
  deep_copy_original, check_if_deleted, add_tenant_label, common, is_protected,
}
use lieutenant_operator.Pipeline.Protection.{common_protected}
use lieutenant_operator.Repository.{Tools, Work}
use lieutenant_operator.Repository.Steps.{run, steps}

-- The reconciler's settings that are read.
pub record Settings : Type 0 where
  pub default_creation_policy : String
  pub delete_protection : Bool

-- `reconcile.Result` and the error: whether to requeue at once, and whether after the interval.
pub record Answer : Type 0 where
  pub requeue : Bool
  pub requeue_after : Bool
  pub err : Option Error

abbrev pub context_of : Settings → Context
context_of r = record {
  finalizer_name = finalizer_name;
  deleted = false;
  original_object = none;
  create_sa_token_secret = false;
  default_creation_policy = r.default_creation_policy;
  default_deletion_policy = "";
  default_global_git_repo_url = "";
  use_vault = false;
  use_deletion_protection = r.delete_protection;
}

abbrev pub answer : Result → Answer
answer res =
    if res.requeue
    then record { requeue = true; requeue_after = false; err = res.err }
    else record { requeue = false; requeue_after = true; err = res.err }

module _ {W : Type 0} (lib : Library) (cli : Client W) (tools : Tools W) (multierr : Multierr) where
  abbrev copy_step : Step W
  copy_step = record { name = "copy original object"; f = deep_copy_original }

  abbrev check_step : Step W
  check_step = record { name = "deletion check"; f = check_if_deleted }

  abbrev specific_step : Step W
  specific_step = record { name = "git repo specific steps"; f = steps cli tools multierr }

  abbrev label_step : Step W
  label_step = record { name = "add tenant label"; f = add_tenant_label }

  abbrev common_step : Step W
  common_step = record { name = "Common"; f = common lib cli }

  abbrev pub repo_steps : List (Step W)
  repo_steps = copy_step ∷ check_step ∷ specific_step ∷ label_step ∷ common_step ∷ []

  unfoldable pub reconcile : Settings → NamespacedName → W → Answer × W
  reconcile r request w = elim (cli.get_git_repo request w) [
    | err e ↦ (
      record {
        requeue = false;
        requeue_after = false;
        err = if is_not_found e then none else some e;
      },
      w,
    )
    | ok g ↦
        let (res, t) =
          run_pipeline repo_steps (record { obj = git_repo g; ctx = context_of r; world = w }) in
        (answer res, t.world)
  ]

  pass :
      (step : Step W) (rest : List (Step W)) (s t : State W)
      → step.f s ≡ (continue, t)
      → run_pipeline (step ∷ rest) s ≡ run_pipeline rest t
  unfolding run_pipeline
  pass step rest s t h = rw (run_pipeline, h)

  last :
      (step : Step W) (s t : State W) (e : Error)
      → step.f s ≡ (fail e, t)
      → run_pipeline (step ∷ []) s ≡ (fail (wrap ("step " <> step.name <> " failed") e), t)
  unfolding run_pipeline
  last step s t e h = rw (run_pipeline, h)

  check_deleted :
      (s : State W)
      → is_zero (get_meta s.obj).deletion_timestamp ≡ false
      → check_if_deleted s ≡ (continue, record s { ctx = record (s.ctx) { deleted = true } })
  unfolding check_if_deleted
  check_deleted s d = rw (check_if_deleted, d)

  steps_succeed :
      (g : GitRepo) (ctx : Context) (w : W) (t : Work W)
      → run cli tools multierr ctx.deleted (record { instance_ = g; world = w }) ≡ (ok tt, t)
      → steps cli tools multierr (record { obj = git_repo g; ctx = ctx; world = w })
        ≡ (continue, record { obj = git_repo t.instance_; ctx = ctx; world = t.world })
  unfolding steps
  steps_succeed g ctx w t h = rw (steps, h)

  -- The context from the check of the deletion on.
  abbrev deleting : Settings → GitRepo → Context
  deleting r g = record (context_of r) { deleted = true; original_object = some (git_repo g) }

  labelled : Settings → GitRepo → Work W → State W
  labelled r g t =
      (add_tenant_label
        (record { obj = git_repo t.instance_; ctx = deleting r g; world = t.world })).1

  pipeline_protected :
      (r : Settings) (g : GitRepo) (w : W) (t : Work W)
      → is_zero g.meta.deletion_timestamp ≡ false
      → run cli tools multierr true (record { instance_ = g; world = w }) ≡ (ok tt, t)
      → is_protected t.instance_.meta.annotations ≡ true
      → run_pipeline repo_steps (record { obj = git_repo g; ctx = context_of r; world = w }) ≡ (
        fail (
            wrap "step Common failed"
              (wrap "step deletion failed" (msg "finalzier was not removed"))),
        labelled r g t,
      )
  unfolding deep_copy_original add_tenant_label labelled
  pipeline_protected r g w t d s p =
      let start : State W = record { obj = git_repo g; ctx = context_of r; world = w } in
      let copied : State W = record start {
        ctx = record (start.ctx) { original_object = some (git_repo g) };
      } in
      let checked : State W = record start { ctx = deleting r g } in
      let stepped : State W = record {
        obj = git_repo t.instance_;
        ctx = deleting r g;
        world = t.world;
      } in
      pass copy_step (check_step ∷ specific_step ∷ label_step ∷ common_step ∷ []) start copied refl
      ∙ pass check_step (specific_step ∷ label_step ∷ common_step ∷ []) copied checked
          (check_deleted copied d)
      ∙ pass specific_step (label_step ∷ common_step ∷ []) checked stepped
          (steps_succeed g (deleting r g) w t s)
      ∙ pass label_step (common_step ∷ []) stepped (labelled r g t) refl
      ∙ last common_step (labelled r g t) (labelled r g t)
          (wrap "step deletion failed" (msg "finalzier was not removed"))
          (common_protected lib cli (labelled r g t) refl p)

  -- The deletion protection is looked at only after the steps of the repository have run: where they
  -- succeed for an object that is being deleted, what they did to the world stands, though the
  -- object is protected and the reconciliation then fails.
  pub reconcile_protected :
      (r : Settings) (request : NamespacedName) (g : GitRepo) (w : W) (t : Work W)
      → cli.get_git_repo request w ≡ ok g
      → is_zero g.meta.deletion_timestamp ≡ false
      → run cli tools multierr true (record { instance_ = g; world = w }) ≡ (ok tt, t)
      → is_protected t.instance_.meta.annotations ≡ true
      → reconcile r request w ≡ (
        record {
          requeue = false;
          requeue_after = true;
          err = some (
              wrap "step Common failed"
                (wrap "step deletion failed" (msg "finalzier was not removed")));
        },
        t.world,
      )
  unfolding reconcile labelled add_tenant_label
  reconcile_protected r request g w t f d s p = rw (reconcile, f, pipeline_protected r g w t d s p)
