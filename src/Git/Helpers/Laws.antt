-- ===== src/Git/Helpers/Laws.antt =====
-- What `CompareKeys` finds, and that deleting and creating by it makes the two sets agree.
use lieutenant_operator.Prelude.{
  String, ◌≡◌, refl, Bool, Option, none, some, [], ◌∷◌, arith, eq_iff, Dict, lookup, insert, delete,
  lookup-insert, lookup-delete, if◌then◌else◌, Bool-cases, inl, inr, is_some,
}
use lieutenant_operator.Api.GitRepo.{DeployKey}
use lieutenant_operator.Git.Helpers.{trim_key, key_eq, key_at, compare_keys}

-- No key stands twice in the set.
abbrev pub HasDistinctKeys : Dict DeployKey → Type 0
HasDistinctKeys [] = Unit
HasDistinctKeys ((k, v) ∷ m) = (lookup k m ≡ none) × HasDistinctKeys m

-- Whether the set has this value under the key, up to space around it. A missing key counts as the
-- zero key.
unfoldable pub agrees : String → DeployKey → Dict DeployKey → Bool
agrees k v b = key_eq (trim_key (key_at k b)) (trim_key v)

-- The entry that the second set lacks or has otherwise.
abbrev pub differing : String → Dict DeployKey → Option DeployKey → Option DeployKey
differing k b none = none
differing k b (some v) = if agrees k v b then none else some v

pub compare_keys-cons :
    (k : String) (v : DeployKey) (a b : Dict DeployKey)
    → compare_keys ((k, v) ∷ a) b
      ≡ (if agrees k v b then compare_keys a b else (k, v) ∷ compare_keys a b)
unfolding compare_keys agrees
compare_keys-cons k v a b = elim (Bool-cases (key_eq (trim_key (key_at k b)) (trim_key v))) [
  | inl y ↦ rw y
  | inr n ↦ rw n
]

-- For a first set in which no key stands twice, the result holds exactly the entries of it that differ
-- from what the second has under that key, where a missing key reads as the zero key.
pub lookup-compare_keys :
    (k : String) (a b : Dict DeployKey)
    → HasDistinctKeys a
    → lookup k (compare_keys a b) ≡ differing k b (lookup k a)
unfolding lookup
lookup-compare_keys k [] b d = unfold compare_keys in refl
lookup-compare_keys k ((j, v) ∷ a) b d =
    ground (arith, compare_keys-cons j v a b, eq_iff j k, lookup-compare_keys k a b d.1)

-- Deleting from a set every key of another.
pub delete_all : Dict DeployKey → Dict DeployKey → Dict DeployKey
delete_all [] m = m
delete_all ((k, v) ∷ keys) m = delete k (delete_all keys m)

-- Setting in a set every key of another.
pub insert_all : Dict DeployKey → Dict DeployKey → Dict DeployKey
insert_all [] m = m
insert_all ((k, v) ∷ keys) m = insert k v (insert_all keys m)

pub lookup-delete_all :
    (k : String) (keys m : Dict DeployKey)
    → lookup k (delete_all keys m) ≡ (if is_some (lookup k keys) then none else lookup k m)
unfolding lookup delete_all
lookup-delete_all k [] m = refl
lookup-delete_all k ((j, v) ∷ keys) m =
    ground (arith, lookup-delete j k (delete_all keys m), lookup-delete_all k keys m)

pub lookup-insert_all :
    (k : String) (keys m : Dict DeployKey)
    → HasDistinctKeys keys
    → lookup k (insert_all keys m) ≡ (elim (lookup k keys) [ none ↦ lookup k m | some v ↦ some v ])
unfolding lookup insert_all
lookup-insert_all k [] m d = refl
lookup-insert_all k ((j, v) ∷ keys) m d =
    ground (arith, lookup-insert j k v (insert_all keys m), lookup-insert_all k keys m d.1)
