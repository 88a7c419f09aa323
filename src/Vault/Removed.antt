-- ===== src/Vault/Removed.antt =====
-- A removal that succeeds has removed every secret of the directory.
use lieutenant_operator.Prelude.{
  ℕ, zero, suc, String, ◌≡◌, refl, sym, ap, subst, ◌∙◌, true, false, List, [], ◌∷◌, ◌==◌, arith, ℤ,
  Bool-cases, inl, inr, contains, eq_iff,
}
use lieutenant_operator.Errors.{Outcome, ok}
use lieutenant_operator.Exec.{Exec, continue, continue_ok, pure}
use lieutenant_operator.Vault.{Logical, BankVaultClient}
use lieutenant_operator.Vault.Client.{
  Progress, finished, spent, unless_spent, is_directory, list_secrets, metadata_path, versions_in,
  remove_by_policy, remove_one, remove_entry, remove_each, remove_secret,
}
use lieutenant_operator.Vault.Removal.{CallsKeep, remove_each_keeps, remove_secret_keeps}

unless_spent-finished :
    {W : Type 0} (next : Exec W Progress) (p : Progress) (w w' : W)
    → unless_spent next p w ≡ (ok finished, w')
    → (p ≡ finished) × (next w ≡ (ok finished, w'))
unless_spent-finished next finished w w' h = (refl, h)
unless_spent-finished next spent w w' h = cc

module _ {W : Type 0} (vault : Logical W) (b : BankVaultClient) (P : W → Type 0)
    (kept : CallsKeep vault b P) (dir name : String)
    (achieved : (vs : List ℤ) (w w' : W)
      → remove_by_policy vault b dir name vs w ≡ (ok tt, w')
      → P w') where
  remove_one_achieves : (w w' : W) → remove_one vault b dir name w ≡ (ok tt, w') → P w'
  unfolding remove_one
  remove_one_achieves w w' h =
      let (s, _, g) = continue_ok _ (vault.read (metadata_path vault b dir name) w) w w' tt h in
      let (vs, _, f) =
        continue_ok (λ vs. remove_by_policy vault b dir name vs) (versions_in vault b s) w w' tt
          g in
      achieved vs w w' f

  module _ (plain : is_directory name ≡ false) (fuel : ℕ) where
    remove_entry_achieves :
        (w w' : W)
        → remove_entry vault b (remove_secret vault b fuel) dir name w ≡ (ok finished, w')
        → P w'
    unfolding remove_entry
    remove_entry_achieves w w' h =
        let r = remove_one vault b dir name w in
        let (u, e, g) =
          continue_ok (λ _. pure finished) r.0 r.1 w' finished (rw (remove_entry, plain) at h) in
        remove_one_achieves w w' (λ i. (e i, (g i).1))

    remove_each_achieves :
        (names : List String) (w w' : W)
        → contains name names ≡ true
        → remove_each vault b (remove_secret vault b fuel) dir names w ≡ (ok finished, w')
        → P w'
    unfolding remove_each contains
    remove_each_achieves [] w w' c h = cc
    remove_each_achieves (k ∷ ks) w w' c h =
        let r = remove_entry vault b (remove_secret vault b fuel) dir k w in
        let next = remove_each vault b (remove_secret vault b fuel) dir ks in
        let (p, e, g) = continue_ok (unless_spent next) r.0 r.1 w' finished h in
        let (q, f) = unless_spent-finished next p r.1 w' g in
        elim (Bool-cases (k == name)) [
          | inl y ↦
              let this =
                subst
                  (λ j.
                    remove_entry vault b (remove_secret vault b fuel) dir j w ≡ (ok finished, r.1))
                  ((eq_iff k name).0 y) (λ i. ((e ∙ ap ok q) i, r.1)) in
              subst P (ap (λ (x : Outcome Progress × W). x.1) f) (
                remove_each_keeps vault b P kept (remove_secret vault b fuel)
                  (remove_secret_keeps vault b P kept fuel) dir ks r.1
                  (remove_entry_achieves w r.1 this))
          | inr n ↦ remove_each_achieves ks r.1 w' (ground (arith)) f
        ]

  -- Where the removal of a directory succeeds, what the removal of a secret by the policy achieves has
  -- been achieved for every secret that was listed there, and holds at the end if the calls of the
  -- policy keep it.
  pub remove_secret_achieves :
      (fuel : ℕ) (names : List String) (w w' v : W)
      → list_secrets vault b dir w ≡ (ok names, v)
      → contains name names ≡ true
      → is_directory name ≡ false
      → remove_secret vault b fuel dir w ≡ (ok finished, w')
      → P w'
  unfolding remove_secret
  remove_secret_achieves zero names w w' v l c plain h = cc
  remove_secret_achieves (suc fuel) names w w' v l c plain h =
      remove_each_achieves plain fuel names v w' c (
        sym (
          ap
            (λ (x : Outcome (List String) × W).
              continue (remove_each vault b (remove_secret vault b fuel) dir) x.0 x.1)
            l)
        ∙ h)
