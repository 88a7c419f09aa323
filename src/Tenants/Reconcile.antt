-- ===== src/Tenants/Reconcile.antt =====
-- `Steps` of controllers/tenant/steps.go, and controllers/tenant_controller.go.
pub mod Requeues
pub mod Deletion
use lieutenant_operator.Prelude.{String, Bool, false, Option, none, List, [], ◌∷◌, map}
use lieutenant_operator.Errors.{Error, ok, err}
use lieutenant_operator.Api.Meta.{NamespacedName, ObjectMeta}
use lieutenant_operator.Api.GitRepo.{GitRepoTemplate}
use lieutenant_operator.Api.Tenant.{Tenant, TenantSpec}
use lieutenant_operator.Api.Object.{tenant}
use lieutenant_operator.Kube.{Client, Library}
use lieutenant_operator.Pipeline.{Context, State, Step, Function, run_pipeline}
use lieutenant_operator.Pipeline.Steps.{deep_copy_original, common}
use lieutenant_operator.Repository.Creation.{create_or_update, update_url_and_host_keys}
use lieutenant_operator.Clusters.Reconcile.{Answer, unread, answer, request_for}
use lieutenant_operator.Tenants.{
  add_default_class_file, update_tenant_git_repo, set_global_git_repo_url,
}
use lieutenant_operator.Tenants.Access.{
  RoleTools, create_service_account, reconcile_role, create_role_binding,
}
use lieutenant_operator.Tenants.Templates.{apply_template_from_tenant_template}

-- The reconciler's settings.
pub record Settings : Type 0 where
  pub create_sa_token_secret : Bool
  pub default_creation_policy : String
  pub default_deletion_policy : String
  pub default_global_git_repo_url : String
  pub delete_protection : Bool

-- A tenant has no finalizer.
abbrev pub context_of : Settings → Context
context_of r = record {
  finalizer_name = "";
  deleted = false;
  original_object = none;
  create_sa_token_secret = r.create_sa_token_secret;
  default_creation_policy = r.default_creation_policy;
  default_deletion_policy = r.default_deletion_policy;
  default_global_git_repo_url = r.default_global_git_repo_url;
  use_vault = false;
  use_deletion_protection = r.delete_protection;
}

-- What the steps of a tenant use beside the server.
pub record Parts (W : Type 0) : Type 0 where
  pub lib : Library
  pub template_equal : GitRepoTemplate → GitRepoTemplate → Bool
  pub role_tools : RoleTools W
  pub merge : TenantSpec → TenantSpec → Option Error × TenantSpec

module _ {W : Type 0} (cli : Client W) (parts : Parts W) where
  abbrev pub specific_steps : List (Step W)
  specific_steps =
      record {
        name = "apply template from TenantTemplate";
        f = apply_template_from_tenant_template parts.merge cli;
      }
      ∷ record { name = "add default class file"; f = add_default_class_file }
      ∷ record { name = "update tenant git repo"; f = update_tenant_git_repo cli }
      ∷ record { name = "set global git repo url"; f = set_global_git_repo_url }
      ∷ record { name = "create ServiceAccount"; f = create_service_account cli }
      ∷ record { name = "reconcile Role"; f = reconcile_role cli parts.role_tools }
      ∷ record { name = "create RoleBinding"; f = create_role_binding cli }
      ∷ []

  unfoldable pub steps : Function W
  steps = run_pipeline specific_steps

  abbrev pub tenant_steps : List (Step W)
  tenant_steps =
      record { name = "copy original object"; f = deep_copy_original }
      ∷ record { name = "tenant specific steps"; f = steps }
      ∷ record { name = "create git repo"; f = create_or_update cli parts.template_equal }
      ∷ record {
        name = "set gitrepo url and hostkeys";
        f = update_url_and_host_keys cli parts.template_equal;
      }
      ∷ record { name = "common"; f = common parts.lib cli }
      ∷ []

  unfoldable pub reconcile : Settings → NamespacedName → W → Answer × W
  unfolding steps
  reconcile r request w = elim (cli.get_tenant request w) [
    | err e ↦ (unread e, w)
    | ok t ↦
        let (res, s) =
          run_pipeline tenant_steps (record { obj = tenant t; ctx = context_of r; world = w }) in
        (answer res, s.world)
  ]

-- `enqueueAllTenantsMapFunc`: where the list cannot be had, nothing is enqueued.
unfoldable pub enqueue_all_tenants : {W : Type 0} → Client W → ObjectMeta → W → List NamespacedName
enqueue_all_tenants cli template w = elim (cli.list_tenants template.namespace w) [
  | err e ↦ []
  | ok tenants ↦ map (λ (t : Tenant). request_for t.meta) tenants
]
