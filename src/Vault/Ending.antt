-- ===== src/Vault/Ending.antt =====
-- The removal of secrets ends, with fuel for the depth of the directories.
use lieutenant_operator.Prelude.{
  ℕ, zero, suc, String, ◌≡◌, ◌≢◌, refl, ◌<◌, true, List, [], ◌∷◌, arith, join_path, Bool-cases, inl,
  inr, contains, eq_refl, All,
}
use lieutenant_operator.Errors.{Outcome, ok, err}
use lieutenant_operator.Exec.{Exec, continue, pure}
use lieutenant_operator.Vault.{VaultSecret, Logical, BankVaultClient}
use lieutenant_operator.Vault.Client.{
  Progress, finished, spent, unless_spent, is_directory, list_secrets, remove_one, remove_entry,
  remove_each, remove_secret, remove_secrets,
}
use lieutenant_operator.Vault.Removal.{
  CallsKeep, list_secrets_keeps, remove_entry_keeps, remove_secret_keeps,
}

-- The directories of Vault are nested no deeper than some measure of their paths, at every time that
-- the calls of the removal can lead to.
pub record HasDepth {W : Type 0} (vault : Logical W) (b : BankVaultClient) (depth : String → ℕ)
    (Inv : W → Type 0) : Type 0 where
  pub kept : CallsKeep vault b Inv
  pub deeper :
      (path k : String) (names : List String) (w w' : W)
      → Inv w
      → list_secrets vault b path w ≡ (ok names, w')
      → contains k names ≡ true
      → is_directory k ≡ true
      → depth (join_path (path ∷ k ∷ [])) < depth path

abbrev pub Ends : {W : Type 0} → Outcome Progress × W → Type 0
Ends r = r.0 ≢ ok spent

continue-Ends :
    {W : Type 0} (next : Exec W Progress) (r : Outcome Progress) (w : W)
    → r ≢ ok spent
    → Ends (next w)
    → Ends (continue (unless_spent next) r w)
continue-Ends next (ok spent) w h n = h
continue-Ends next (ok finished) w h n = n
continue-Ends next (err e) w h n = cc

finished-Ends :
    {W : Type 0} (r : Outcome (Unit {0})) (w : W) → Ends (continue (λ _. pure finished) r w)
finished-Ends (ok u) w h = cc
finished-Ends (err e) w h = cc

module _ {W : Type 0} (vault : Logical W) (b : BankVaultClient) (depth : String → ℕ)
    (Inv : W → Type 0) (deep : HasDepth vault b depth Inv) where
  module _ (remove_dir : String → Exec W Progress)
      (keeps : (dir : String) (w : W) → Inv w → Inv (remove_dir dir w).1) (dir : String) where
    abbrev DirEnds : List String → Type 0
    DirEnds names =
        (k : String) (w : W)
        → contains k names ≡ true
        → is_directory k ≡ true
        → Inv w
        → Ends (remove_dir (join_path (dir ∷ k ∷ [])) w)

    remove_each-Ends :
        (names : List String) (w : W)
        → DirEnds names
        → Inv w
        → Ends (remove_each vault b remove_dir dir names w)
    unfolding remove_each remove_entry contains
    remove_each-Ends [] w ends i = λ h. cc
    remove_each-Ends (k ∷ ks) w ends i =
        let r = remove_entry vault b remove_dir dir k w in
        continue-Ends (remove_each vault b remove_dir dir ks) r.0 r.1
          (elim (Bool-cases (is_directory k)) [
            | inl y ↦ rw y (ends k w (rw (eq_refl k)) y i)
            | inr n ↦
                rw n (finished-Ends (remove_one vault b dir k w).0 (remove_one vault b dir k w).1)
          ])
          (remove_each-Ends ks r.1 (λ j v c d q. ends j v (ground (arith)) d q)
            (remove_entry_keeps vault b Inv deep.kept remove_dir keeps dir k w i))

  module _ (fuel : ℕ)
      (ih : (path : String) (w : W)
        → depth path < fuel
        → Inv w
        → Ends (remove_secret vault b fuel path w))
      (path : String) (w : W) (m : depth path < suc fuel) (i : Inv w) where
    listing-Ends :
        (r : Outcome (List String)) (w' : W)
        → list_secrets vault b path w ≡ (r, w')
        → Inv w'
        → Ends (continue (remove_each vault b (remove_secret vault b fuel) path) r w')
    listing-Ends (err e) w' l j = λ h. cc
    listing-Ends (ok names) w' l j =
        remove_each-Ends (remove_secret vault b fuel)
          (remove_secret_keeps vault b Inv deep.kept fuel) path names w'
          (λ k v c d q.
            let lower = deep.deeper path k names w w' i l c d in
            ih (join_path (path ∷ k ∷ [])) v (omega arith) q)
          j

  remove_secret-Ends :
      (fuel : ℕ) (path : String) (w : W)
      → depth path < fuel
      → Inv w
      → Ends (remove_secret vault b fuel path w)
  unfolding remove_secret
  remove_secret-Ends zero path w m i = absurd (omega arith)
  remove_secret-Ends (suc fuel) path w m i =
      let r = list_secrets vault b path w in
      listing-Ends fuel (remove_secret-Ends fuel) path w m i r.0 r.1 refl
        (list_secrets_keeps vault b Inv deep.kept path w i)

  abbrev Below : ℕ → List VaultSecret → Type 0
  Below fuel = All (λ s. depth s.path < fuel)

  -- Where the directories are nested no deeper than some measure of their paths, the removal of secrets
  -- whose paths measure less than the fuel ends, with success or with an error, and not for want of fuel.
  pub remove_secrets_ends :
      (fuel : ℕ) (secrets : List VaultSecret) (w : W)
      → Below fuel secrets
      → Inv w
      → (remove_secrets vault b fuel secrets w).0 ≢ ok spent
  unfolding remove_secrets
  remove_secrets_ends fuel [] w d i = λ h. cc
  remove_secrets_ends fuel (s ∷ ss) w d i =
      let r = remove_secret vault b fuel s.path w in
      continue-Ends (remove_secrets vault b fuel ss) r.0 r.1
        (remove_secret-Ends fuel s.path w d.0 i)
        (remove_secrets_ends fuel ss r.1 d.1
          (remove_secret_keeps vault b Inv deep.kept fuel s.path w i))
