-- ===== src/Git/Helpers.antt =====
-- git/helpers/helpers.go: the keys of one set that another lacks or holds with another value.
pub mod Laws
pub mod Sync
pub mod Examples
use lieutenant_operator.Prelude.{
  String, Bool, false, not, ◌&&◌, Option, none, some, List, [], ◌∷◌, ◌==◌, Dict, lookup, bool_eq,
  trim_space, if◌then◌else◌,
}
use lieutenant_operator.Api.GitRepo.{DeployKey}

-- `DeployKey{}`
abbrev pub zero_key : DeployKey
zero_key = record { type = ""; key = ""; write_access = false }

unfoldable pub trim_key : DeployKey → DeployKey
trim_key k = record k { key = trim_space k.key }

-- `reflect.DeepEqual` at deploy keys
abbrev pub key_eq : DeployKey → DeployKey → Bool
key_eq a b = a.type == b.type && (a.key == b.key && bool_eq a.write_access b.write_access)

-- `keys[k]`, the zero key where it is missing.
abbrev pub key_at : String → Dict DeployKey → DeployKey
key_at k keys = elim (lookup k keys) [ none ↦ zero_key | some v ↦ v ]

unfoldable pub compare_keys : Dict DeployKey → Dict DeployKey → Dict DeployKey
unfolding trim_key
compare_keys [] key_set_b = []
compare_keys ((k, v) ∷ key_set_a) key_set_b =
    let rest = compare_keys key_set_a key_set_b in
    if not (key_eq (trim_key (key_at k key_set_b)) (trim_key v)) then (k, v) ∷ rest else rest
