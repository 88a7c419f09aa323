-- ===== src/Pipeline/Examples.antt =====
-- The theorems of the pipeline at a server in memory.
use lieutenant_operator.Prelude.{
  ◌≡◌, refl, Bool, true, false, none, some, [], ◌∷◌, lookup, contains,
}
use lieutenant_operator.Errors.{msg, wrap}
use lieutenant_operator.Api.Meta.{finalizer_name, delete_protection_annotation}
use lieutenant_operator.Api.Tenant.{Tenant}
use lieutenant_operator.Api.Object.{tenant, get_meta}
use lieutenant_operator.Kube.Memory.{Server, empty_server, memory, library, library-FinalizerLaws}
use lieutenant_operator.Pipeline.{Context, fail, State, Step}
use lieutenant_operator.Pipeline.Steps.{
  parse_bool, is_protected, handle_deletion, check_if_deleted, common,
}
use lieutenant_operator.Pipeline.Protection.{common_protected, finalizer-common_deleted}

abbrev pub acme : Tenant
acme = record {
  meta = record {
    name = "t-acme";
    namespace = "syn";
    labels = ("app", "x") ∷ [];
    annotations = (delete_protection_annotation, "true") ∷ [];
    finalizers = finalizer_name ∷ [];
    owner_references = [];
    deletion_timestamp = some 7;
    creation_timestamp = 1;
  };
  spec = record {
    display_name = "ACME";
    git_repo_url = "";
    git_repo_revision = "";
    global_git_repo_url = "";
    global_git_repo_revision = "";
    git_repo_template = none;
    deletion_policy = "";
    creation_policy = "";
    cluster_template = none;
    compile_pipeline = none;
  };
  status = record { compile_pipeline = none };
}

abbrev pub context : Bool → Context
context deleted = record {
  finalizer_name = finalizer_name;
  deleted = deleted;
  original_object = some (tenant acme);
  create_sa_token_secret = false;
  default_creation_policy = "";
  default_deletion_policy = "";
  default_global_git_repo_url = "";
  use_vault = false;
  use_deletion_protection = true;
}

abbrev pub start : Bool → State Server
start deleted = record { obj = tenant acme; ctx = context deleted; world = empty_server }

abbrev check : Step Server
check = record { name = "deletion check"; f = check_if_deleted }

abbrev deletion : Step Server
deletion = record { name = "deletion"; f = handle_deletion }

-- The tenant was read without its finalizer, so that `Common` writes it.
abbrev contended : State Server
contended = record {
  obj = tenant (record acme { meta = record (acme.meta) { finalizers = [] } });
  ctx = record (context false) {
    original_object = some (tenant (record acme { meta = record (acme.meta) { finalizers = [] } }));
  };
  world = record empty_server { busy = true };
}

common_protected_example :
    common library memory (start true)
    ≡ (fail (wrap "step deletion failed" (msg "finalzier was not removed")), start true)
unfolding is_protected parse_bool lookup contains
common_protected_example = common_protected library memory (start true) refl refl

finalizer-common_deleted_example :
    contains finalizer_name (get_meta (common library memory (start true)).1.obj).finalizers ≡ true
unfolding contains is_protected parse_bool lookup
finalizer-common_deleted_example =
    finalizer-common_deleted library memory library-FinalizerLaws (start true) refl refl
