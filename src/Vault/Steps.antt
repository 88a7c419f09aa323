-- ===== src/Vault/Steps.antt =====
-- vault/reconcile_steps.go, `NewClient` of vault/client.go, and collection/values.go.
pub mod Examples
use lieutenant_operator.Prelude.{
  ℕ, String, Bool, not, ◌&&◌, Option, none, some, List, [], ◌∷◌, ◌==◌, ◌<>◌, value_of, nat_eq, ltb,
  str_ltb, sort_by, if◌then◌else◌, join_path, dir,
}
use lieutenant_operator.Errors.{Error, Outcome, ok, err, msg, out_of_fuel}
use lieutenant_operator.Exec.{Exec, ended, annotated, ◌>>=◌, ◌>>◌}
use lieutenant_operator.Api.Core.{Secret}
use lieutenant_operator.Api.Object.{Object, get_meta, get_tenant_ref}
use lieutenant_operator.Kube.{Client}
use lieutenant_operator.Pipeline.{Context, Function, continue, fail}
use lieutenant_operator.Vault.{Logical, BankVaultClient}
use lieutenant_operator.Vault.Client.{
  Progress, finished, spent, add_secrets, remove_secrets, set_deletion_policy,
}

-- The process that the operator runs in: its environment and files, the making of a client of
-- bank-vaults, and the package's variable `instanceClient`, as a part of the world.
pub record Process (W : Type 0) : Type 0 where
  pub getenv : String → W → String
  -- The names of the environment's variables that Vault's library declares.
  pub env_vault_address : String
  pub env_vault_token : String
  -- `os.Stat` says that the file is not there.
  pub is_missing : String → W → Bool
  -- `vault.NewClientFromConfig` with the address, the path and the role of the login
  pub new_client_from_config : String → String → String → W → Option Error × W
  pub set_token : String → W → W
  pub instance_client : W → Option BankVaultClient
  pub set_instance_client : BankVaultClient → W → W

abbrev pub k8s_token_path : String
k8s_token_path = "/var/run/secrets/kubernetes.io/serviceaccount/token"

module _ {W : Type 0} (process : Process W) where
  unfoldable pub new_bank_vault_client : String → Exec W BankVaultClient
  new_bank_vault_client policy = do
    λ w. ended (
        process.new_client_from_config (process.getenv (process.env_vault_address) w)
          (process.getenv "VAULT_AUTH_PATH" w) "lieutenant-operator" w)
    λ w. (
      ok tt,
      if process.is_missing k8s_token_path w
          then process.set_token (process.getenv (process.env_vault_token) w) w
          else w,
    )
    λ w.
        let engine = process.getenv "VAULT_SECRET_ENGINE_PATH" w in
        (
          ok (record {
            secret_engine = if engine == "" then "kv" else engine;
            deletion_policy = policy;
          }),
          w,
        )

  unfoldable pub keep_client : BankVaultClient → Exec W BankVaultClient
  keep_client b w = (ok b, process.set_instance_client b w)

  -- The client of the package, which is told the policy, or a new one.
  unfoldable pub new_client : String → Exec W BankVaultClient
  unfolding new_bank_vault_client keep_client
  new_client policy w = elim (process.instance_client w) [
    | some b ↦ keep_client (set_deletion_policy policy b) w
    | none ↦ (do b ← new_bank_vault_client policy; keep_client b) w
  ]

  unfoldable pub get_vault_client : Context → Exec W BankVaultClient
  unfolding new_client
  get_vault_client ctx = new_client ctx.default_deletion_policy

-- `SecretSortList.Less`
abbrev pub less : Secret → Secret → Bool
less a b =
    if nat_eq a.meta.creation_timestamp b.meta.creation_timestamp
    then str_ltb a.meta.name b.meta.name
    else ltb a.meta.creation_timestamp b.meta.creation_timestamp

-- `sort.Sort(sort.Reverse(...))`: the newest first. Of secrets with one time and one name, which
-- `sort.Sort` may leave in any order, the earlier one of the list stays in front.
unfoldable pub newest_first : List Secret → List Secret
newest_first = sort_by (λ a b. less b a)

-- A token of the service account, if it is populated.
abbrev pub token_for : String → Secret → Bool
token_for name s =
    s.type == "kubernetes.io/service-account-token"
    && value_of "kubernetes.io/service-account.name" s.meta.annotations == name
    && not (value_of "token" s.contents == "")

unfoldable pub first_token : String → List Secret → Outcome String
first_token name [] = err (msg "no matching secrets found")
first_token name (s ∷ ss) =
    let rest = first_token name ss in
    if token_for name s then ok (value_of "token" s.contents) else rest

-- `path.Join(tenant, name, "steward")`
abbrev pub secret_path : Object → String
secret_path o = join_path (get_tenant_ref o ∷ (get_meta o).name ∷ "steward" ∷ [])

-- Where the fuel is spent, the model has no answer of the code.
abbrev pub progressed : {W : Type 0} → Outcome Progress × W → Outcome (Unit {0}) × W
progressed (ok finished, w) = (ok tt, w)
progressed (ok spent, w) = (err out_of_fuel, w)
progressed (err e, w) = (err e, w)

unfoldable pub get_service_account_token : {W : Type 0} → Client W → String → W → Outcome String
unfolding newest_first first_token
get_service_account_token cli name w = elim (cli.list_secrets w) [
  | err e ↦ err e
  | ok secrets ↦ first_token name (newest_first secrets)
]

module _ {W : Type 0} (cli : Client W) (vault : Logical W) (process : Process W) where
  unfoldable pub store_token : Context → Object → Exec W (Unit {0})
  unfolding get_service_account_token get_vault_client add_secrets
  store_token ctx o = do
    token ← annotated "get SA token" (λ w. (get_service_account_token cli (get_meta o).name w, w))
    b ← annotated "get vault client" (get_vault_client process ctx)
    annotated ("add vault secret '" <> secret_path o <> "'")
        (add_secrets vault b (record { path = secret_path o; value = token } ∷ []))

  unfoldable pub create_or_update_vault : Function W
  unfolding store_token
  create_or_update_vault s =
      if not s.ctx.use_vault
      then (continue, s)
      else (let (r, w) = store_token s.ctx s.obj s.world in
          (elim r [ ok _ ↦ continue | err e ↦ fail e ], record s { world = w }))

module _ {W : Type 0} (vault : Logical W) (process : Process W) where
  -- What is removed is the directory of the token: all secrets of the cluster.
  unfoldable pub remove_tokens : ℕ → Context → Object → Exec W (Unit {0})
  unfolding get_vault_client remove_secrets
  remove_tokens fuel ctx o = do
    b ← annotated "get vault client" (get_vault_client process ctx)
    annotated "remove secret" (λ w.
        progressed
          (remove_secrets vault b fuel (record { path = dir (secret_path o); value = "" } ∷ []) w))

  unfoldable pub handle_vault_deletion : ℕ → Function W
  unfolding remove_tokens
  handle_vault_deletion fuel s =
      if not s.ctx.use_vault
      then (continue, s)
      else if s.ctx.deleted
      then (let (r, w) = remove_tokens fuel s.ctx s.obj s.world in
          (elim r [ ok _ ↦ continue | err e ↦ fail e ], record s { world = w }))
      else (continue, s)
