-- ===== src/Clusters/Reconcile.antt =====
-- `SpecificSteps` of controllers/cluster/steps.go, and controllers/cluster_controller.go.
pub mod Requeues
pub mod Orphans
use lieutenant_operator.Prelude.{
  ℕ, String, Bool, true, false, Option, none, some, List, [], ◌∷◌, ◌++◌, map, if◌then◌else◌,
}
use lieutenant_operator.Errors.{Error, Outcome, ok, err, is_not_found}
use lieutenant_operator.Api.Meta.{NamespacedName, ObjectMeta, finalizer_name}
use lieutenant_operator.Api.GitRepo.{GitRepoTemplate}
use lieutenant_operator.Api.Cluster.{Cluster}
use lieutenant_operator.Api.Object.{cluster}
use lieutenant_operator.Kube.{Client, Library}
use lieutenant_operator.Pipeline.{Context, Result, State, Step, Function, run_pipeline}
use lieutenant_operator.Pipeline.Steps.{
  deep_copy_original, check_if_deleted, add_tenant_label, common,
}
use lieutenant_operator.Repository.Creation.{create_or_update, update_url_and_host_keys}
use lieutenant_operator.Vault.{Logical}
use lieutenant_operator.Vault.Steps.{Process, create_or_update_vault, handle_vault_deletion}
use lieutenant_operator.Clusters.{set_tenant_owner}
use lieutenant_operator.Clusters.Tokens.{Clock, set_bootstrap_token}
use lieutenant_operator.Clusters.Rbac.{Equalities, create_cluster_rbac}
use lieutenant_operator.Clusters.Templates.{Templating, apply_cluster_template_from_tenant}

-- The reconciler's settings.
pub record Settings : Type 0 where
  pub create_sa_token_secret : Bool
  pub default_creation_policy : String
  pub default_deletion_policy : String
  pub use_vault : Bool
  pub delete_protection : Bool

abbrev pub context_of : Settings → Context
context_of r = record {
  finalizer_name = finalizer_name;
  deleted = false;
  original_object = none;
  create_sa_token_secret = r.create_sa_token_secret;
  default_creation_policy = r.default_creation_policy;
  default_deletion_policy = r.default_deletion_policy;
  default_global_git_repo_url = "";
  use_vault = r.use_vault;
  use_deletion_protection = r.delete_protection;
}

-- `reconcile.Result` and the error.
pub record Answer : Type 0 where
  pub requeue : Bool
  pub err : Option Error

-- The answer where the object cannot be read: one that is gone needs nothing.
abbrev pub unread : Error → Answer
unread e = record { requeue = false; err = if is_not_found e then none else some e }

abbrev pub answer : Result → Answer
answer r = record { requeue = r.requeue; err = r.err }

abbrev pub request_for : ObjectMeta → NamespacedName
request_for m = record { namespace = m.namespace; name = m.name }

-- What the steps of a cluster use beside the server.
pub record Parts (W : Type 0) : Type 1 where
  pub lib : Library
  pub equal : Equalities
  pub template_equal : GitRepoTemplate → GitRepoTemplate → Bool
  pub clock : Clock W
  pub templating : Templating
  pub vault : Logical W
  pub process : Process W

module _ {W : Type 0} (cli : Client W) (parts : Parts W) (fuel : ℕ) where
  -- The steps before the owner is set.
  abbrev pub early_steps : List (Step W)
  early_steps =
      record { name = "create cluster RBAC"; f = create_cluster_rbac cli parts.equal }
      ∷ record { name = "deletion check"; f = check_if_deleted }
      ∷ record { name = "set bootstrap token"; f = set_bootstrap_token parts.clock }
      ∷ record {
        name = "create or update vault";
        f = create_or_update_vault cli parts.vault parts.process;
      }
      ∷ record {
        name = "delete vault entries";
        f = handle_vault_deletion parts.vault parts.process fuel;
      }
      ∷ []

  abbrev pub owner_step : Step W
  owner_step = record { name = "set tenant owner"; f = set_tenant_owner cli }

  abbrev pub template_step : Step W
  template_step = record {
    name = "apply cluster template from tenant";
    f = apply_cluster_template_from_tenant parts.templating cli;
  }

  unfoldable pub specific_steps : Function W
  specific_steps = run_pipeline (early_steps ++ owner_step ∷ template_step ∷ [])

  abbrev pub later_steps : List (Step W)
  later_steps =
      record { name = "create git repo"; f = create_or_update cli parts.template_equal }
      ∷ record {
        name = "set gitrepo url and hostkeys";
        f = update_url_and_host_keys cli parts.template_equal;
      }
      ∷ record { name = "add tenant label"; f = add_tenant_label }
      ∷ record { name = "Common"; f = common parts.lib cli }
      ∷ []

  abbrev pub cluster_steps : List (Step W)
  cluster_steps =
      record { name = "copy original object"; f = deep_copy_original }
      ∷ record { name = "cluster specific steps"; f = specific_steps }
      ∷ later_steps

  unfoldable pub reconcile : Settings → NamespacedName → W → Answer × W
  unfolding specific_steps
  reconcile r request w = elim (cli.get_cluster request w) [
    | err e ↦ (unread e, w)
    | ok c ↦
        let (res, t) =
          run_pipeline cluster_steps (record { obj = cluster c; ctx = context_of r; world = w }) in
        (answer res, t.world)
  ]

-- `enqueueClustersForTenantMapFunc`: where the list cannot be had, nothing is enqueued.
unfoldable pub enqueue_clusters_for_tenant :
    {W : Type 0} → Client W → ObjectMeta → W → List NamespacedName
enqueue_clusters_for_tenant cli tenant w = elim (cli.list_clusters tenant.namespace tenant.name w) [
  | err e ↦ []
  | ok clusters ↦ map (λ (c : Cluster). request_for c.meta) clusters
]
