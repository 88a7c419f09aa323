-- ===== src/Clusters/Examples.antt =====
-- The theorems on clusters at concrete clusters.
use lieutenant_operator.Prelude.{ℕ, ◌≡◌, refl, true, false, none, some, is_some, [], ◌∷◌}
use lieutenant_operator.Errors.{ok, err, status, not_found}
use lieutenant_operator.Api.Meta.{NamespacedName}
use lieutenant_operator.Kube.{Client}
use lieutenant_operator.Kube.Memory.{Server, empty_server, memory, library}
use lieutenant_operator.Vault.{empty, to_fields, object}
use lieutenant_operator.Clusters.{tenant_key}
use lieutenant_operator.Clusters.Reconcile.{Settings, Parts, reconcile}
use lieutenant_operator.Clusters.Reconcile.Requeues.{reconcile_never_requeues}
use lieutenant_operator.Clusters.Reconcile.Orphans.{reconcile_orphaned}
use lieutenant_operator.Api.Cluster.{BootstrapToken}
use lieutenant_operator.Api.Object.{cluster}
use lieutenant_operator.Pipeline.{State}
use lieutenant_operator.Pipeline.Examples.{context}
use lieutenant_operator.CompilePipeline.Examples.{live}
use lieutenant_operator.Clusters.Tokens.{
  Clock, set_token, token_in, after_runs, token_in-after_runs,
}

-- The world is the time.
abbrev ticking : Clock ℕ
ticking = record { now = λ w. w; after = λ d now. ok now; generate_token = λ w. (ok "c2VjcmV0", w) }

abbrev token : BootstrapToken
token = record { token = "c2VjcmV0"; valid_until = 100; token_valid = true }

abbrev start : State ℕ
start = record { obj = cluster (set_token token live); ctx = context false; world = 0 }

token_in-after_runs_example :
    token_in (after_runs ticking (50 ∷ 150 ∷ 60 ∷ []) start).obj
    ≡ some (record token { token_valid = false })
token_in-after_runs_example =
    token_in-after_runs ticking (50 ∷ 150 ∷ 60 ∷ []) start (set_token token live) token refl refl

-- Parts without a Vault, under which no template has anything to render.
abbrev parts : Parts Server
parts = record {
  lib = library;
  equal = record { rules = λ a b. true; role_ref = λ a b. true; subjects = λ a b. true };
  template_equal = λ a b. true;
  clock = record {
    now = λ w. 3;
    after = λ d now. ok now;
    generate_token = λ w. (ok "c2VjcmV0", w);
  };
  templating = record {
    Template = Unit {0};
    parse = λ s. ok tt;
    execute = λ p c t. ok "";
    strings = λ f spec e. (spec, e);
    merge = λ a b. (none, a);
  };
  vault = record {
    read = λ q w. ok none;
    list_keys = λ p w. ok none;
    write = λ q v w. (none, w);
    delete = λ q w. (none, w);
    new_data = λ m. ("options", object empty) ∷ ("data", object (to_fields m)) ∷ [];
  };
  process = record {
    getenv = λ k w. "";
    env_vault_address = "VAULT_ADDR";
    env_vault_token = "VAULT_TOKEN";
    is_missing = λ p w. true;
    new_client_from_config = λ a p r w. (none, w);
    set_token = λ t w. w;
    instance_client = λ w. none;
    set_instance_client = λ b w. w;
  };
}

abbrev settings : Settings
settings = record {
  create_sa_token_secret = false;
  default_creation_policy = "";
  default_deletion_policy = "";
  use_vault = false;
  delete_protection = true;
}

abbrev request : NamespacedName
request = record { namespace = "syn"; name = "c-live-1" }

-- A server that has the cluster and meets a conflict at every write.
abbrev at_server : Server
at_server = record empty_server { clusters = live ∷ []; busy = true }

reconcile_never_requeues_example :
    (reconcile memory parts 4 settings request at_server).0.requeue ≡ false
reconcile_never_requeues_example =
    reconcile_never_requeues memory parts 4 settings request at_server

-- The same server without any tenant.
abbrev no_tenants : Client Server
no_tenants = record memory { get_tenant = λ k w. err (status not_found) }

reconcile_orphaned_example :
    is_some (reconcile no_tenants parts 4 settings request at_server).0.err ≡ true
reconcile_orphaned_example =
    reconcile_orphaned no_tenants parts 4 (tenant_key (cluster live))
      (λ w. (status not_found, refl)) settings request live at_server refl refl
