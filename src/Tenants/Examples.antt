-- ===== src/Tenants/Examples.antt =====
-- The theorems on tenants at concrete tenants.
use lieutenant_operator.Prelude.{
  String, ◌≡◌, refl, true, false, none, some, [], ◌∷◌, Dict, lookup, insert, delete, contains,
}
use lieutenant_operator.Errors.{ok}
use lieutenant_operator.Api.Meta.{NamespacedName, finalizer_name}
use lieutenant_operator.Api.Object.{tenant, get_meta}
use lieutenant_operator.Kube.Memory.{Server, empty_server, memory, library, library-FinalizerLaws}
use lieutenant_operator.Pipeline.Steps.{common}
use lieutenant_operator.Tenants.Access.{role_rules}
use lieutenant_operator.Tenants.Access.Rules.{allows, role_rules_allow}
use lieutenant_operator.Tenants.Reconcile.{Settings, Parts}
use lieutenant_operator.Tenants.Reconcile.Deletion.{at_common, finalizers-common_tenant}
use lieutenant_operator.Api.Tenant.{Tenant}
use lieutenant_operator.Pipeline.Examples.{acme}
use lieutenant_operator.CompilePipeline.Examples.{live}
use lieutenant_operator.Tenants.{tenant_files, put_clusters, put_all, put_left_overs}
use lieutenant_operator.Tenants.Files.{is_cluster_file, lookup-tenant_files}

abbrev piped : Tenant
piped = record acme {
  spec = record (acme.spec) {
    compile_pipeline =
        some (record { enabled = true; pipeline_files = (".gitlab-ci.yml", "include: []") ∷ [] });
  };
}

abbrev old_files : Dict String
old_files = ("common.yml", "a: b") ∷ ("c-gone.yml", "classes: []") ∷ []

files_of_tenant :
    tenant_files piped (live ∷ []) old_files
    ≡ ("c-live-1.yml", "classes:\n- t-acme.common\n")
      ∷ (".gitlab-ci.yml", "include: []")
      ∷ ("common.yml", "")
      ∷ ("c-gone.yml", "{delete}")
      ∷ []
unfolding tenant_files put_clusters put_all put_left_overs insert delete
files_of_tenant = refl

lookup-tenant_files_example :
    lookup "c-gone.yml" (tenant_files piped (live ∷ []) old_files) ≡ some "{delete}"
unfolding lookup is_cluster_file
lookup-tenant_files_example =
    lookup-tenant_files "c-gone.yml" piped (live ∷ []) old_files (refl, tt)

abbrev parts : Parts Server
parts = record {
  lib = library;
  template_equal = λ a b. true;
  role_tools = record {
    create_or_update = λ role f w. ("updated", none, w);
    set_controller_reference = λ t role. ok role;
  };
  merge = λ a b. (none, a);
}

abbrev settings : Settings
settings = record {
  create_sa_token_secret = true;
  default_creation_policy = "";
  default_deletion_policy = "";
  default_global_git_repo_url = "";
  delete_protection = true;
}

role_rules_allow_example :
    allows (role_rules acme (live ∷ [])) "syn.tools" "patch" "clusters/status" "c-live-1" ≡ true
unfolding contains
role_rules_allow_example =
    role_rules_allow "syn.tools" "patch" "clusters/status" "c-live-1" acme (live ∷ [])

abbrev request : NamespacedName
request = record { namespace = "syn"; name = "t-acme" }

abbrev at_server : Server
at_server = record empty_server { tenants = acme ∷ [] }

-- The tenant has the annotation of protection, is being deleted, and has no finalizer.
abbrev unheld : Tenant
unheld = record acme { meta = record (acme.meta) { finalizers = [] } }

finalizers-common_tenant_example :
    contains finalizer_name
      (get_meta
        (common library memory
          (at_common library memory settings none (tenant unheld) empty_server)).1.obj).finalizers
    ≡ false
unfolding contains
finalizers-common_tenant_example =
    finalizers-common_tenant library memory settings none (tenant unheld) empty_server
      library-FinalizerLaws finalizer_name refl
