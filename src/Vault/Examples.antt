-- ===== src/Vault/Examples.antt =====
-- The theorems on Vault at a store in memory, in which every directory lists the same names.
use mathlib.Core.List.{Perm}
use lieutenant_operator.Prelude.{
  String, ◌≡◌, ◌≢◌, refl, ap, sym, subst, ◌∙◌, true, Option, none, some, List, [], ◌∷◌, Dict, arith,
  lookup, insert, lookup-insert, eq_refl, eq_iff, contains, join_path, split, ℤ, pos, Ascending,
  atoi, format_int,
}
use lieutenant_operator.Errors.{Error, Outcome, ok, ok-injective}
use lieutenant_operator.Vault.{
  Value, nil, Items, items_of, text, list, object, end, item, empty, field, to_fields, VaultSecret,
  Payload, fields, versions, Logical, BankVaultClient,
}
use lieutenant_operator.Vault.Client.{
  texts, spent, is_directory, list_secrets, add_secret, remove_secrets, remove_secret,
  remove_by_policy,
}
use lieutenant_operator.Vault.Versions.{get_version_list}
use lieutenant_operator.Vault.Versions.Sorted.{◌≤ℤ◌, get_version_list_sorts}
use lieutenant_operator.Vault.Adding.{KvLaws, IsStored, add_secret_stores}
use lieutenant_operator.Vault.Removal.{CallsKeep, remove_secrets_keeps}
use lieutenant_operator.Vault.Ending.{HasDepth, remove_secrets_ends}
use lieutenant_operator.Vault.Removed.{remove_secret_achieves}

pub record Store : Type 0 where
  pub contents : Dict (Dict Value)
  pub names : List String
  -- The paths that were destroyed, and those whose versions were deleted.
  pub destroyed : List String
  pub deleted : List String
  pub package_client : Option BankVaultClient

abbrev items : List String → Items
items [] = end
items (n ∷ ns) = item (text n) (items ns)

abbrev pub store_write : String → Payload → Store → Store
store_write q (fields m) w = record w { contents = insert q m w.contents }
store_write q (versions vs) w = record w { deleted = q ∷ w.deleted }

abbrev answered : Option (Dict Value) → Option (Option (Dict Value))
answered none = none
answered (some m) = some (some m)

abbrev pub in_memory : Logical Store
in_memory = record {
  read = λ q w. ok (answered (lookup q w.contents));
  list_keys = λ p w. ok (some (some (("keys", list (items w.names)) ∷ [])));
  write = λ q v w. (none, store_write q v w);
  delete = λ q w. (none, record w { destroyed = q ∷ w.destroyed });
  new_data = λ m. ("options", object empty) ∷ ("data", object (to_fields m)) ∷ [];
}

abbrev pub bank : String → BankVaultClient
bank policy = record { secret_engine = "kv"; deletion_policy = policy }

abbrev pub versioned : Dict Value
versioned = ("versions", object (field "2" nil (field "1" nil empty))) ∷ []

abbrev pub store : Store
store = record {
  contents =
      (
        "kv/data/t/c/steward",
        ("data", object (field "token" (text "old") (field "note" (text "x") empty))) ∷ [],
      )
      ∷ ("kv/metadata/t/c/steward", versioned)
      ∷ [];
  names = "steward" ∷ [];
  destroyed = [];
  deleted = [];
  package_client = some (bank "Delete");
}

lookup-insert_self :
    (q : String) (m : Dict Value) (c : Dict (Dict Value)) → lookup q (insert q m c) ≡ some m
lookup-insert_self q m c = simp (lookup-insert, eq_refl)

in_memory-KvLaws : KvLaws in_memory
unfolding lookup
in_memory-KvLaws = record {
  read-written = λ q m w w' h. (
    m,
    subst (λ (x : Store). in_memory.read q x ≡ ok (some (some m)))
        (ap (λ (x : Option Error × Store). x.1) h)
        (ap (λ x. ok (answered x)) (lookup-insert_self q m w.contents)),
    refl,
  );
  new_data_lem = λ m. refl;
}

abbrev added : Store
added = (add_secret in_memory (bank "Delete") "t/c/steward" "new" store).1

abbrev note : Dict Value
note = ("token", text "old") ∷ ("note", text "x") ∷ []

add_secret_stores_example :
    IsStored in_memory (bank "Delete") "t/c/steward" "new" note added
    × (add_secret in_memory (bank "Delete") "t/c/steward" "new" added ≡ (ok tt, added))
unfolding add_secret lookup insert join_path split
add_secret_stores_example =
    add_secret_stores in_memory (bank "Delete") "t/c/steward" "new" in_memory-KvLaws
      (some (lookup "kv/data/t/c/steward" (store.contents))) store added refl refl

abbrev steward_secrets : List VaultSecret
steward_secrets = record { path = "t/c"; value = "" } ∷ []

-- Nothing is destroyed.
abbrev IsWhole : Store → Type 0
IsWhole w = w.destroyed ≡ []

archive-CallsKeep : CallsKeep in_memory (bank "Archive") IsWhole
archive-CallsKeep = record {
  archived = λ e dir name vs w p. p;
  deleted = λ e. ground (arith, eq_iff "Archive" "Delete");
}

remove_secrets_keeps_example :
    (remove_secrets in_memory (bank "Archive") 3 steward_secrets store).1.destroyed ≡ []
remove_secrets_keeps_example =
    remove_secrets_keeps in_memory (bank "Archive") IsWhole archive-CallsKeep 3 steward_secrets
      store refl

texts-items : (ns : List String) → texts (items_of (items ns)) ≡ ok ns
texts-items [] = refl
texts-items (n ∷ ns) = rw (texts-items ns)

-- Every directory lists the steward alone.
abbrev IsFlat : Store → Type 0
IsFlat w = w.names ≡ "steward" ∷ []

listed_names :
    (path : String) (names : List String) (w w' : Store)
    → list_secrets in_memory (bank "Delete") path w ≡ (ok names, w')
    → w.names ≡ names
unfolding list_secrets lookup
listed_names path names w w' h =
    ok-injective (sym (texts-items w.names) ∙ ap (λ (x : Outcome (List String) × Store). x.0) h)

steward_alone : (k : String) → contains k ("steward" ∷ []) ≡ true → is_directory k ≡ true → ⊥
unfolding contains is_directory
steward_alone k c d =
    let e = (eq_iff "steward" k).0 (ground (arith)) in
    let f : is_directory "steward" ≡ true = subst (λ x. is_directory x ≡ true) (sym e) d in cc

IsFlat-HasDepth : HasDepth in_memory (bank "Delete") (λ p. 0) IsFlat
IsFlat-HasDepth = record {
  kept = record { archived = λ e dir name vs w p. p; deleted = λ e dir name w p. p };
  deeper = λ path k names w w' i l c d. absurd (
      steward_alone k
        (subst (λ ns. contains k ns ≡ true) (sym (listed_names path names w w' l) ∙ i) c) d);
}

remove_secrets_ends_example :
    (remove_secrets in_memory (bank "Delete") 1 steward_secrets store).0 ≢ ok spent
remove_secrets_ends_example =
    remove_secrets_ends in_memory (bank "Delete") (λ p. 0) IsFlat IsFlat-HasDepth 1 steward_secrets
      store (omega arith, tt) refl

-- The steward's secret is destroyed.
abbrev IsGone : Store → Type 0
IsGone w = contains "kv/metadata/t/c/steward" w.destroyed ≡ true

IsGone-CallsKeep : CallsKeep in_memory (bank "Delete") IsGone
unfolding contains
IsGone-CallsKeep = record {
  archived = λ e. ground (arith, eq_iff "Delete" "Archive");
  deleted = λ e dir name w p. ground (arith);
}

destroyed_steward :
    (vs : List ℤ) (w w' : Store)
    → remove_by_policy in_memory (bank "Delete") "t/c" "steward" vs w ≡ (ok tt, w')
    → IsGone w'
unfolding remove_by_policy contains join_path split
destroyed_steward vs w w' h = subst IsGone (ap (λ (x : Outcome (Unit {0}) × Store). x.1) h) refl

remove_secret_achieves_example :
    contains "kv/metadata/t/c/steward"
      (remove_secret in_memory (bank "Delete") 2 "t/c" store).1.destroyed
    ≡ true
unfolding list_secrets remove_secret contains is_directory lookup insert join_path split
    get_version_list atoi
remove_secret_achieves_example =
    remove_secret_achieves in_memory (bank "Delete") IsGone IsGone-CallsKeep "t/c" "steward"
      destroyed_steward 2 ("steward" ∷ []) store
      (remove_secret in_memory (bank "Delete") 2 "t/c" store).1 store refl refl refl refl

get_version_list_sorts_example :
    (vs : List ℤ) × (get_version_list versioned ≡ ok vs)
    × Ascending ◌≤ℤ◌ vs
    × Perm vs (pos 2 ∷ pos 1 ∷ [])
unfolding lookup format_int
get_version_list_sorts_example =
    get_version_list_sorts versioned (field "2" nil (field "1" nil empty)) (2 ∷ 1 ∷ []) refl refl
      (omega arith, (omega arith, tt))
