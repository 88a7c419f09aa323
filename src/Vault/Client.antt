-- ===== src/Vault/Client.antt =====
-- vault/client.go: what the client writes to Vault and removes from it. Without a secret at a path that
-- was listed, the code reads a nil pointer.
use Prim.Native.Char.{code}
use lieutenant_operator.Prelude.{
  ℕ, zero, suc, String, Bool, false, Option, none, some, List, [], ◌∷◌, ◌==◌, Dict, lookup, insert,
  if◌then◌else◌, nat_eq, join_path, ℤ,
}
use lieutenant_operator.Errors.{Outcome, ok, err, msg, panicked}
use lieutenant_operator.Errors
use lieutenant_operator.Exec.{Exec, pure, lift, ended, ◌>>=◌, ◌>>◌}
use lieutenant_operator.Api.GitRepo.{archive_policy, delete_policy}
use lieutenant_operator.Vault.{
  Value, text, object, to_fields, as_text, as_list, as_map, is_text, VaultSecret, Payload, fields,
  versions, Logical, BankVaultClient,
}
use lieutenant_operator.Vault.Versions.{get_version_list}

-- `m[k]` of a map that may be nil.
abbrev pub entry : String → Option (Dict Value) → Option Value
entry k none = none
entry k (some m) = lookup k m

-- `strings.HasSuffix(path, "/")`
unfoldable pub is_directory : String → Bool
is_directory String.[] = false
is_directory (String.◌∷◌ c s) =
    let rest = is_directory s in if s == "" then nat_eq (code c) b'/' else rest

abbrev pub map_in : Option Value → Option (Dict Value)
map_in none = none
map_in (some v) = as_map v

-- What is under `data` in an answer, if that is a map.
abbrev pub stored : Option (Dict Value) → Option (Dict Value)
stored m = map_in (entry "data" m)

abbrev pub is_token : String → Option Value → Bool
is_token token none = false
is_token token (some v) = is_text token v

-- The token that is stored is the one that is wanted.
abbrev pub holds : String → Option (Dict Value) → Bool
holds token none = false
holds token (some m) = is_token token (lookup "token" m)

abbrev pub or_empty : Option (Dict Value) → Dict Value
or_empty none = []
or_empty (some m) = m

-- The map with the token.
abbrev pub with_token : String → Dict Value → Dict Value
with_token token m = insert "token" (text token) m

-- The answer's data with the token in them.
abbrev pub reapplied : String → Dict Value → Dict Value
reapplied token m =
    insert "data" (object (to_fields (with_token token (or_empty (stored (some m)))))) m

abbrev pub texts : List Value → Outcome (List String)
texts [] = ok []
texts (v ∷ vs) = elim (as_text v) [
  | none ↦ err (msg "list of secrets can't be decoded")
  | some s ↦ Errors.◌>>=◌ (texts vs) (λ ss. ok (s ∷ ss))
]

-- Whether a removal came to its end, or ran out of fuel.
pub data Progress : Type 0 where
  finished spent : Progress

-- The call goes on where nothing was spent.
abbrev pub unless_spent : {W : Type 0} → Exec W Progress → Progress → Exec W Progress
unless_spent next spent = pure spent
unless_spent next finished = next

module _ {W : Type 0} (vault : Logical W) (b : BankVaultClient) where
  abbrev pub reading : {A : Type 0} → (W → Outcome A) → Exec W A
  reading f w = (f w, w)

  abbrev pub writing : String → Payload → Exec W (Unit {0})
  writing p v w = ended (vault.write p v w)

  unfoldable pub reapply : String → String → Option (Dict Value) → Exec W (Unit {0})
  reapply query token none = lift (err panicked)
  reapply query token (some m) = writing query (fields (reapplied token m))

  abbrev pub query_path : String → String
  query_path path = join_path (b.secret_engine ∷ "data" ∷ path ∷ [])

  unfoldable pub apply : String → String → Option (Option (Dict Value)) → Exec W (Unit {0})
  unfolding reapply
  apply query token none = writing query (fields (vault.new_data (with_token token [])))
  apply query token (some m) = if holds token (stored m) then pure tt else reapply query token m

  unfoldable pub add_secret : String → String → Exec W (Unit {0})
  unfolding apply
  add_secret path token = do
    secret ← reading (vault.read (query_path path))
    apply (query_path path) token secret

  unfoldable pub add_secrets : List VaultSecret → Exec W (Unit {0})
  unfolding add_secret
  add_secrets [] = pure tt
  add_secrets (s ∷ ss) = do add_secret s.path s.value; add_secrets ss

  -- The names in a listing.
  unfoldable pub listed : Option (Option (Dict Value)) → Outcome (List String)
  listed none = err panicked
  listed (some m) = elim (entry "keys" m) [
    | none ↦ err (msg "list of secrets can't be decoded")
    | some v ↦ elim (as_list v) [
      | none ↦ err (msg "list of secrets can't be decoded")
      | some vs ↦ texts vs
    ]
  ]

  unfoldable pub list_secrets : String → Exec W (List String)
  unfolding listed
  list_secrets path = do
    m ← reading (vault.list_keys (join_path (b.secret_engine ∷ "metadata" ∷ path ∷ [])))
    lift (listed m)

  abbrev pub metadata_path : String → String → String
  metadata_path dir name = join_path (b.secret_engine ∷ "metadata" ∷ dir ∷ name ∷ [])

  abbrev pub delete_path : String → String → String
  delete_path dir name = join_path (b.secret_engine ∷ "delete" ∷ dir ∷ name ∷ [])

  -- What the deletion policy asks for: a soft deletion of the versions, or the end of the secret.
  unfoldable pub remove_by_policy : String → String → List ℤ → Exec W (Unit {0})
  remove_by_policy dir name vs =
      if b.deletion_policy == archive_policy
      then writing (delete_path dir name) (versions vs)
      else if b.deletion_policy == delete_policy
      then (λ w. ended (vault.delete (metadata_path dir name) w))
      else lift (err (msg "unknown DeletionPolicy, skipping"))

  abbrev pub versions_in : Option (Option (Dict Value)) → Outcome (List ℤ)
  versions_in none = err panicked
  versions_in (some none) = ok []
  versions_in (some (some m)) = get_version_list m

  unfoldable pub remove_one : String → String → Exec W (Unit {0})
  unfolding remove_by_policy
  remove_one dir name = do
    s ← reading (vault.read (metadata_path dir name))
    vs ← lift (versions_in s)
    remove_by_policy dir name vs

  -- One round of the loop over a listing. The removal of a directory is given.
  unfoldable pub remove_entry : (String → Exec W Progress) → String → String → Exec W Progress
  unfolding remove_one
  remove_entry remove_dir dir k =
      if is_directory k
      then remove_dir (join_path (dir ∷ k ∷ []))
      else (do remove_one dir k; pure finished)

  unfoldable pub remove_each : (String → Exec W Progress) → String → List String → Exec W Progress
  unfolding remove_entry
  remove_each remove_dir dir [] = pure finished
  remove_each remove_dir dir (k ∷ ks) = do
    p ← remove_entry remove_dir dir k
    unless_spent (remove_each remove_dir dir ks) p

  -- The fuel is for the depth of the directories.
  unfoldable pub remove_secret : ℕ → String → Exec W Progress
  unfolding list_secrets remove_each
  remove_secret zero path = pure spent
  remove_secret (suc fuel) path = do
    names ← list_secrets path
    remove_each (remove_secret fuel) path names

  unfoldable pub remove_secrets : ℕ → List VaultSecret → Exec W Progress
  unfolding remove_secret
  remove_secrets fuel [] = pure finished
  remove_secrets fuel (s ∷ ss) = do
    p ← remove_secret fuel s.path
    unless_spent (remove_secrets fuel ss) p

-- `SetDeletionPolicy`
abbrev pub set_deletion_policy : String → BankVaultClient → BankVaultClient
set_deletion_policy policy b = record b { deletion_policy = policy }
