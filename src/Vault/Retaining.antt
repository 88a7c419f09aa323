-- ===== src/Vault/Retaining.antt =====
-- A deletion policy that is neither of the two that the client knows.
use lieutenant_operator.Prelude.{
  ℕ, suc, String, ◌≡◌, refl, true, false, Option, some, List, [], ◌∷◌, ◌==◌, Dict, ℤ, dir,
}
use lieutenant_operator.Errors.{Error, ok, err, msg, wrap}
use lieutenant_operator.Api.GitRepo.{archive_policy, delete_policy}
use lieutenant_operator.Pipeline.{State, fail}
use lieutenant_operator.Vault.{Value, Logical, BankVaultClient}
use lieutenant_operator.Vault.Client.{
  is_directory, metadata_path, versions_in, list_secrets, remove_by_policy, remove_one,
  remove_entry, remove_each, remove_secret, remove_secrets, set_deletion_policy,
}
use lieutenant_operator.Vault.Steps.{
  Process, keep_client, secret_path, new_client, get_vault_client, remove_tokens,
  handle_vault_deletion,
}

abbrev pub unknown_policy : Error
unknown_policy = msg "unknown DeletionPolicy, skipping"

-- A listing whose first name is a secret that can be read.
pub record StartsWithSecret {W : Type 0} (vault : Logical W) (b : BankVaultClient) (path : String)
    (w : W) : Type 0 where
  pub name : String
  pub names : List String
  pub answer : Option (Option (Dict Value))
  pub numbers : List ℤ
  pub lists : list_secrets vault b path w ≡ (ok (name ∷ names), w)
  pub is_secret : is_directory name ≡ false
  pub reads : vault.read (metadata_path vault b path name) w ≡ ok answer
  pub has_versions : versions_in vault b answer ≡ ok numbers

abbrev pub IsUnknown : String → Type 0
IsUnknown policy = ((policy == archive_policy) ≡ false) × ((policy == delete_policy) ≡ false)

module _ {W : Type 0} (vault : Logical W) (b : BankVaultClient) (path : String) (w : W)
    (u : IsUnknown (b.deletion_policy)) (st : StartsWithSecret vault b path w) where
  refused : remove_one vault b path st.name w ≡ (err unknown_policy, w)
  unfolding remove_one remove_by_policy
  refused = rw (st.reads, st.has_versions, u.0, u.1) refl

  remove_each_refused :
      (fuel : ℕ)
      → remove_each vault b (remove_secret vault b fuel) path (st.name ∷ st.names) w
        ≡ (err unknown_policy, w)
  unfolding remove_each remove_entry
  remove_each_refused fuel = rw (st.is_secret, refused) refl

  remove_secrets_refused :
      (fuel : ℕ) (value : String)
      → remove_secrets vault b (suc fuel) (record { path = path; value = value } ∷ []) w
        ≡ (err unknown_policy, w)
  unfolding remove_secrets remove_secret
  remove_secrets_refused fuel value = rw (st.lists, remove_each_refused fuel) refl

module _ {W : Type 0} (vault : Logical W) (process : Process W) (s : State W)
    (b : BankVaultClient) where
  -- The client of the package under the operator's default policy, and the world that has it.
  abbrev pub client : BankVaultClient
  client = set_deletion_policy (s.ctx.default_deletion_policy) b

  abbrev pub told : W
  told = process.set_instance_client client s.world

  module _ (there : process.instance_client s.world ≡ some b)
      (u : IsUnknown (s.ctx.default_deletion_policy))
      (st : StartsWithSecret vault client (dir (secret_path s.obj)) told) where
    new_client_there : get_vault_client process s.ctx s.world ≡ (ok client, told)
    unfolding get_vault_client new_client keep_client
    new_client_there = rw (get_vault_client, new_client, there)

    -- Where the operator's default deletion policy is neither Archive nor Delete, as it is under Retain,
    -- and the first thing that is listed for a cluster is a secret that can be read, the step that
    -- removes a deleted cluster from Vault fails, and has done nothing but tell the client the policy.
    pub handle_vault_deletion_unknown :
        (fuel : ℕ)
        → s.ctx.use_vault ≡ true
        → s.ctx.deleted ≡ true
        → handle_vault_deletion vault process (suc fuel) s
          ≡ (fail (wrap "remove secret" unknown_policy), record s { world = told })
    unfolding handle_vault_deletion remove_tokens
    handle_vault_deletion_unknown fuel v d =
        rw (v, d, new_client_there)
          (rw (remove_secrets_refused vault client (dir (secret_path s.obj)) told u st fuel "")
            refl)
