-- ===== src/Git/Helpers/Sync.antt =====
-- The two uses of `CompareKeys` together, as in `updateDeployKeys`: what is left of the remote keys
-- after the deletions, with the new keys put in.
use lieutenant_operator.Prelude.{
  String, Bool, not, ◌&&◌, ◌==◌, bool_eq, trim_space, Option, none, some, Dict, if◌then◌else◌,
  is_some,
}
use lieutenant_operator.Api.GitRepo.{DeployKey}
use lieutenant_operator.Git.Helpers.{compare_keys}
use lieutenant_operator.Git.Helpers.Laws.{HasDistinctKeys, differing, delete_all, insert_all}

-- Whether two keys are the same up to space around them.
abbrev pub same_key : DeployKey → DeployKey → Bool
same_key a b =
    a.type == b.type
    && (trim_space a.key == trim_space b.key && bool_eq a.write_access b.write_access)

-- A key without a type and without write access, which is empty up to space.
abbrev pub is_blank : DeployKey → Bool
is_blank a = a.type == "" && (trim_space a.key == "" && not a.write_access)

-- What is wanted under a key, by the local and the remote entry.
abbrev pub reconciled : Option DeployKey → Option DeployKey → Option DeployKey
reconciled none none = none
reconciled none (some u) = if is_blank u then some u else none
reconciled (some v) none = if is_blank v then none else some v
reconciled (some v) (some u) = if same_key u v then some u else some v

module _ (local remote : Dict DeployKey) where
  -- The remote keys after a run in which every call succeeds.
  unfoldable pub synced : Dict DeployKey
  synced = insert_all (compare_keys local remote) (delete_all (compare_keys remote local) remote)

  module _ (dl : HasDistinctKeys local) (dr : HasDistinctKeys remote) (k : String) where
    -- The entry under `k` after the run.
    abbrev merged : Option DeployKey → Option DeployKey → Option DeployKey
    merged l r = elim (differing k remote l) [
      | some v ↦ some v
      | none ↦ if is_some (differing k local r) then none else r
    ]
