-- ===== src/Vault/Adding.antt =====
-- What is read from Vault after a secret was added.
use lieutenant_operator.Prelude.{
  String, ◌≡◌, refl, sym, subst, ap, ◌∙◌, true, false, Option, none, some, [], ◌∷◌, ◌==◌, Dict,
  lookup, lookup-insert, Bool-cases, inl, inr, eq_refl,
}
use lieutenant_operator.Errors.{Outcome, ok}
use lieutenant_operator.Exec.{continue, ended-eq_ok}
use lieutenant_operator.Vault.{
  Value, text, object, to_fields, fields_of, fields, Logical, BankVaultClient,
}
use lieutenant_operator.Vault.Client.{
  map_in, stored, is_token, holds, or_empty, with_token, reapplied, query_path, reapply, apply,
  add_secret,
}

-- What version 2 of Vault's key-value engine and bank-vaults document: an answer has the data that were
-- written last, and `NewData` puts its map under `data`.
pub record KvLaws {W : Type 0} (vault : Logical W) : Type 0 where
  pub read-written :
      (query : String) (m : Dict Value) (w w' : W)
      → vault.write query (fields m) w ≡ (none, w')
      → (m' : Dict Value) × (vault.read query w' ≡ ok (some (some m')))
        × (lookup "data" m' ≡ lookup "data" m)
  pub new_data_lem :
      (m : Dict Value) → lookup "data" (vault.new_data m) ≡ some (object (to_fields m))

fields_of-to_fields : (m : Dict Value) → fields_of (to_fields m) ≡ m
fields_of-to_fields [] = refl
fields_of-to_fields ((k, v) ∷ m) = ap (◌∷◌ (k, v)) (fields_of-to_fields m)

-- The map that stands under `data`.
stored_lem :
    (m d : Dict Value) → lookup "data" m ≡ some (object (to_fields d)) → stored (some m) ≡ some d
stored_lem m d h = ap map_in h ∙ ap some (fields_of-to_fields d)

-- The map that was there before, empty where there was none.
abbrev pub entries : Option (Option (Dict Value)) → Dict Value
entries none = []
entries (some m) = or_empty (stored m)

module _ {W : Type 0} (vault : Logical W) (b : BankVaultClient) (path token : String) where
  -- At the secret's path stands a map with the token and otherwise the entries of before.
  pub record IsStored (before : Dict Value) (w : W) : Type 0 where
    pub answer : Option (Dict Value)
    pub reads : vault.read (query_path vault b path) w ≡ ok (some answer)
    pub has_token : holds token (stored answer) ≡ true
    pub others :
        (k : String)
        → ("token" == k) ≡ false
        → lookup k (or_empty (stored answer)) ≡ lookup k before

  with_token-holds : (m : Dict Value) → holds token (some (with_token token m)) ≡ true
  with_token-holds m =
      ap (is_token token) (lookup-insert "token" "token" (text token) m) ∙ eq_refl token

  module _ (laws : KvLaws vault) where
    written :
        (m before : Dict Value) (w w' : W)
        → lookup "data" m ≡ some (object (to_fields (with_token token before)))
        → vault.write (query_path vault b path) (fields m) w ≡ (none, w')
        → IsStored before w'
    written m before w w' d h =
        let (m', r, same) = laws.read-written (query_path vault b path) m w w' h in
        let s = stored_lem m' (with_token token before) (same ∙ d) in
        record {
          answer = some m';
          reads = r;
          has_token = rw s (with_token-holds before);
          others = λ k n. rw (s, lookup-insert "token" k (text token) before, n);
        }

    reapply_stores :
        (m : Option (Dict Value)) (w w' : W)
        → reapply vault b (query_path vault b path) token m w ≡ (ok tt, w')
        → IsStored (or_empty (stored m)) w'
    unfolding reapply
    reapply_stores none w w' h = cc
    reapply_stores (some m) w w' h =
        written (reapplied token m) (or_empty (stored (some m))) w w'
          (lookup-insert "data" "data"
            (object (to_fields (with_token token (or_empty (stored (some m)))))) m)
          (ended-eq_ok (vault.write (query_path vault b path) (fields (reapplied token m)) w) w' h)

    apply_stores :
        (s : Option (Option (Dict Value))) (w w' : W)
        → vault.read (query_path vault b path) w ≡ ok s
        → apply vault b (query_path vault b path) token s w ≡ (ok tt, w')
        → IsStored (entries s) w'
    unfolding apply
    apply_stores none w w' r h =
        written (vault.new_data (with_token token [])) [] w w'
          (laws.new_data_lem (with_token token []))
          (ended-eq_ok
            (vault.write (query_path vault b path) (fields (vault.new_data (with_token token [])))
              w)
            w' h)
    apply_stores (some m) w w' r h = elim (Bool-cases (holds token (stored m))) [
      | inl y ↦
          subst (IsStored (or_empty (stored m)))
            (ap (λ (x : Outcome (Unit {0}) × W). x.1) (rw y at h))
            (record { answer = m; reads = r; has_token = y; others = λ k n. refl })
      | inr n ↦ reapply_stores m w w' (rw n at h)
    ]

    stored_settles :
        (before : Dict Value) (w : W)
        → IsStored before w
        → add_secret vault b path token w ≡ (ok tt, w)
    unfolding add_secret apply
    stored_settles before w st =
        ap (λ x. continue (apply vault b (query_path vault b path) token) x w) st.reads
        ∙ rw (st.has_token)

    -- Where Vault and bank-vaults do what they document, after a token was added with success to a path
    -- that could be read, the path has a map with the token and otherwise with the entries of before;
    -- adding the token again changes nothing.
    pub add_secret_stores :
        (s : Option (Option (Dict Value))) (w w' : W)
        → vault.read (query_path vault b path) w ≡ ok s
        → add_secret vault b path token w ≡ (ok tt, w')
        → IsStored (entries s) w' × (add_secret vault b path token w' ≡ (ok tt, w'))
    unfolding add_secret
    add_secret_stores s w w' r h =
        let st =
          apply_stores s w w' r
            (sym (ap (λ x. continue (apply vault b (query_path vault b path) token) x w) r) ∙ h) in
        (st, stored_settles (entries s) w' st)
