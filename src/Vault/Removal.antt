-- ===== src/Vault/Removal.antt =====
-- What a removal does to Vault, by the deletion policy, and that it ends.
use lieutenant_operator.Prelude.{
  ℕ, zero, suc, String, ◌≡◌, List, [], ◌∷◌, ◌==◌, ℤ, join_path, Bool-cases, inl, inr, eq_iff,
}
use lieutenant_operator.Exec.{Exec, pure, lift, continue_keeps, ended_keeps}
use lieutenant_operator.Api.GitRepo.{archive_policy, delete_policy}
use lieutenant_operator.Vault.{VaultSecret, versions, Logical, BankVaultClient}
use lieutenant_operator.Vault.Client.{
  Progress, unless_spent, listed, finished, spent, is_directory, metadata_path, delete_path,
  versions_in, list_secrets, remove_by_policy, remove_one, remove_entry, remove_each, remove_secret,
  remove_secrets,
}

unless_spent_keeps {ℓ} :
    {W : Type 0} (P : W → Type ℓ) (next : Exec W Progress) (w : W)
    → P w
    → P (next w).1
    → (p : Progress) → P (unless_spent next p w).1
unless_spent_keeps P next w p q spent = p
unless_spent_keeps P next w p q finished = q

module _ {ℓ} {W : Type 0} (vault : Logical W) (b : BankVaultClient) (P : W → Type ℓ) where
  -- Under the first policy the calls are writes of versions to paths of the kind `delete`, under the
  -- second they are deletions of paths of the kind `metadata`; these keep the predicate.
  pub record CallsKeep : Type ℓ where
    pub archived :
        b.deletion_policy ≡ archive_policy
        → (dir name : String) (vs : List ℤ) (w : W) → P w
        → P (vault.write (delete_path vault b dir name) (versions vs) w).1
    pub deleted :
        b.deletion_policy ≡ delete_policy
        → (dir name : String) (w : W) → P w
        → P (vault.delete (metadata_path vault b dir name) w).1

  module _ (calls : CallsKeep) where
    remove_by_policy_keeps :
        (dir name : String) (vs : List ℤ) (w : W)
        → P w
        → P (remove_by_policy vault b dir name vs w).1
    unfolding remove_by_policy
    remove_by_policy_keeps dir name vs w p =
        elim (Bool-cases (b.deletion_policy == archive_policy)) [
          | inl a ↦ rw a (
              ended_keeps P (vault.write (delete_path vault b dir name) (versions vs) w)
                (calls.archived ((eq_iff b.deletion_policy archive_policy).0 a) dir name vs w p))
          | inr na ↦ elim (Bool-cases (b.deletion_policy == delete_policy)) [
            | inl d ↦
                rw (na, d)
                  (ended_keeps P (vault.delete (metadata_path vault b dir name) w)
                    (calls.deleted ((eq_iff b.deletion_policy delete_policy).0 d) dir name w p))
            | inr nd ↦ rw (na, nd) p
          ]
        ]

    remove_one_keeps : (dir name : String) (w : W) → P w → P (remove_one vault b dir name w).1
    unfolding remove_one
    remove_one_keeps dir name w p =
        continue_keeps P _ (vault.read (metadata_path vault b dir name) w) w p (λ s.
          continue_keeps P _ (versions_in vault b s) w p
            (λ vs. remove_by_policy_keeps dir name vs w p))

    module _ (remove_dir : String → Exec W Progress)
        (keeps : (dir : String) (w : W) → P w → P (remove_dir dir w).1) (dir : String) where
      pub remove_entry_keeps :
          (k : String) (w : W) → P w → P (remove_entry vault b remove_dir dir k w).1
      unfolding remove_entry
      remove_entry_keeps k w p = elim (Bool-cases (is_directory k)) [
        | inl y ↦ rw y (keeps (join_path (dir ∷ k ∷ [])) w p)
        | inr n ↦ rw n (
            let r = remove_one vault b dir k w in
            continue_keeps P (λ _. pure finished) r.0 r.1 (remove_one_keeps dir k w p)
              (λ _. remove_one_keeps dir k w p))
      ]

      pub remove_each_keeps :
          (names : List String) (w : W) → P w → P (remove_each vault b remove_dir dir names w).1
      unfolding remove_each
      remove_each_keeps [] w p = p
      remove_each_keeps (k ∷ ks) w p =
          let r = remove_entry vault b remove_dir dir k w in
          let q = remove_entry_keeps k w p in
          continue_keeps P _ r.0 r.1 q (
            unless_spent_keeps P (remove_each vault b remove_dir dir ks) r.1 q
              (remove_each_keeps ks r.1 q))

    pub list_secrets_keeps : (path : String) (w : W) → P w → P (list_secrets vault b path w).1
    unfolding list_secrets
    list_secrets_keeps path w p =
        let m = vault.list_keys (join_path (b.secret_engine ∷ "metadata" ∷ path ∷ [])) w in
        continue_keeps P (λ m. lift (listed vault b m)) m w p (λ _. p)

    pub remove_secret_keeps :
        (fuel : ℕ) (path : String) (w : W) → P w → P (remove_secret vault b fuel path w).1
    unfolding remove_secret
    remove_secret_keeps zero path w p = p
    remove_secret_keeps (suc fuel) path w p =
        let r = list_secrets vault b path w in
        let q = list_secrets_keeps path w p in
        continue_keeps P _ r.0 r.1 q (λ names.
          remove_each_keeps (remove_secret vault b fuel) (remove_secret_keeps fuel) path names r.1
            q)

    -- The removal changes Vault by the calls of its deletion policy alone: under Archive by writes of
    -- versions to paths of the kind `delete`, under Delete by deletions of paths of the kind `metadata`,
    -- under any other policy not at all. What these calls keep holds afterwards, whether the removal
    -- succeeds, fails or runs out of fuel.
    pub remove_secrets_keeps :
        (fuel : ℕ) (secrets : List VaultSecret) (w : W)
        → P w
        → P (remove_secrets vault b fuel secrets w).1
    unfolding remove_secrets
    remove_secrets_keeps fuel [] w p = p
    remove_secrets_keeps fuel (s ∷ ss) w p =
        let r = remove_secret vault b fuel s.path w in
        let q = remove_secret_keeps fuel s.path w p in
        continue_keeps P _ r.0 r.1 q (
          unless_spent_keeps P (remove_secrets vault b fuel ss) r.1 q
            (remove_secrets_keeps fuel ss r.1 q))
