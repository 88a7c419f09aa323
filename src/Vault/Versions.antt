-- ===== src/Vault/Versions.antt =====
-- `getVersionList` of vault/client.go.
pub mod Sorted
use lieutenant_operator.Prelude.{none, some, List, [], ◌∷◌, Dict, lookup, ℤ, atoi, int_ltb, sort_by}
use lieutenant_operator.Errors.{Outcome, ok, err, msg, ◌>>=◌}
use lieutenant_operator.Vault.{Value, as_map}

-- The keys as numbers, in the order of the walk, unless one is none.
unfoldable pub parse_versions : Dict Value → Outcome (List ℤ)
parse_versions [] = ok []
parse_versions ((k, x) ∷ m) =
    let rest = parse_versions m in
    elim (atoi k) [ none ↦ err (msg "invalid syntax") | some v ↦ rest >>= λ vs. ok (v ∷ vs) ]

-- `sort.Ints`: equal numbers cannot be told apart, so any sorting gives this list.
abbrev pub sort_versions : List ℤ → List ℤ
sort_versions = sort_by int_ltb

unfoldable pub get_version_list : Dict Value → Outcome (List ℤ)
unfolding parse_versions
get_version_list contents = elim (lookup "versions" contents) [
  | none ↦ ok []
  | some versions ↦ elim (as_map versions) [
    | none ↦ err (msg "can't parse versions from secret")
    | some m ↦ parse_versions m >>= λ vs. ok (sort_versions vs)
  ]
]
