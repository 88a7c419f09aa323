-- ===== src/Vault/Steps/Examples.antt =====
-- The theorems on the steps of a cluster with Vault, at a store in memory.
use lieutenant_operator.Prelude.{
  ℕ, String, ◌≡◌, refl, true, none, some, List, [], ◌∷◌, lookup, join_path, dir, split, pos, atoi,
  sort_by,
}
use lieutenant_operator.Errors.{ok, wrap}
use lieutenant_operator.Api.Object.{cluster}
use lieutenant_operator.Api.Core.{Secret}
use lieutenant_operator.Kube.Memory.{Server, empty_server, memory}
use lieutenant_operator.Vault.Steps.{
  Process, secret_path, get_service_account_token, handle_vault_deletion,
}
use lieutenant_operator.Vault.Tokens.{Chosen, get_service_account_token_lem}
use lieutenant_operator.Vault.Retaining.{
  unknown_policy, StartsWithSecret, client, told, handle_vault_deletion_unknown,
}
use lieutenant_operator.Pipeline.{State, fail}
use lieutenant_operator.Pipeline.Examples.{context}
use lieutenant_operator.CompilePipeline.Examples.{live}
use lieutenant_operator.Vault.Client.{is_directory, list_secrets}
use lieutenant_operator.Vault.Versions.{parse_versions, get_version_list}
use lieutenant_operator.Vault.Examples.{Store, in_memory, bank, store, versioned}

abbrev account_secret : String → ℕ → String → Secret
account_secret name time token = record {
  meta = record {
    name = name;
    namespace = "syn";
    labels = [];
    annotations = ("kubernetes.io/service-account.name", "c-live-1") ∷ [];
    finalizers = [];
    owner_references = [];
    deletion_timestamp = none;
    creation_timestamp = time;
  };
  type = "kubernetes.io/service-account-token";
  contents = ("token", token) ∷ [];
}

abbrev account_secrets : List Secret
account_secrets =
    account_secret "a" 5 "old" ∷ account_secret "b" 9 "" ∷ account_secret "c" 7 "new" ∷ []

abbrev with_accounts : Server
with_accounts = record empty_server { secrets = account_secrets }

newest_token : get_service_account_token memory "c-live-1" with_accounts ≡ ok "new"
unfolding get_service_account_token sort_by lookup
newest_token = refl

get_service_account_token_lem_example :
    Chosen "c-live-1" account_secrets (get_service_account_token memory "c-live-1" with_accounts)
get_service_account_token_lem_example =
    get_service_account_token_lem "c-live-1" memory with_accounts account_secrets refl

abbrev in_process : Process Store
in_process = record {
  getenv = λ k w. "";
  env_vault_address = "VAULT_ADDR";
  env_vault_token = "VAULT_TOKEN";
  is_missing = λ p w. true;
  new_client_from_config = λ a p r w. (none, w);
  set_token = λ t w. w;
  instance_client = λ w. w.package_client;
  set_instance_client = λ b w. record w { package_client = some b };
}

abbrev retained : State Store
retained = record {
  obj = cluster live;
  ctx = record (context true) { use_vault = true; default_deletion_policy = "Retain" };
  world = record store {
    package_client = some (bank "Archive");
    contents = ("kv/metadata/t-acme/c-live-1/steward", versioned) ∷ [];
  };
}

steward_listed :
    StartsWithSecret in_memory
      (client in_memory in_process retained (bank "Archive"))
      (dir (secret_path (retained.obj)))
      (told in_memory in_process retained (bank "Archive"))
unfolding list_secrets is_directory lookup join_path dir split get_version_list parse_versions atoi
    sort_by
steward_listed = record {
  name = "steward";
  names = [];
  answer = some (some versioned);
  numbers = pos 1 ∷ pos 2 ∷ [];
  lists = refl;
  is_secret = refl;
  reads = refl;
  has_versions = refl;
}

handle_vault_deletion_unknown_example : handle_vault_deletion in_memory in_process 4 retained ≡ (
  fail (wrap "remove secret" unknown_policy),
  record retained { world = told in_memory in_process retained (bank "Archive") },
)
handle_vault_deletion_unknown_example =
    handle_vault_deletion_unknown in_memory in_process retained (bank "Archive") refl (refl, refl)
      steward_listed 3 refl refl
