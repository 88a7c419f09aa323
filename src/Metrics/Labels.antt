-- ===== src/Metrics/Labels.antt =====
-- The labels of metrics/cluster_info_collector.go: `normalizeLabelKey`, and the numbers on labels that
-- stand twice.
use Prim.Native.Char.{Char, code}
use lieutenant_operator.Prelude.{
  ℕ, String, Bool, true, false, not, ◌&&◌, ◌||◌, none, some, List, [], ◌∷◌, ◌+◌, ◌==◌, ◌<>◌, nat_eq,
  ltb, contains, Dict, lookup, insert, format_int, if◌then◌else◌,
}

-- `[a-zA-Z_]` and `[a-zA-Z0-9_]`
unfoldable pub is_start : Char → Bool
is_start ch = let c = code ch in (ltb 64 c && ltb c 91) || (ltb 96 c && ltb c 123) || nat_eq c 95

unfoldable pub is_inner : Char → Bool
unfolding is_start
is_inner ch = is_start ch || (ltb 47 (code ch) && ltb (code ch) 58)

unfoldable pub replace_inner : String → String
unfolding is_inner
replace_inner String.[] = ""
replace_inner (String.◌∷◌ c s) = String.◌∷◌ (if is_inner c then c else "_") (replace_inner s)

-- `validKeyCharacters.ReplaceAllLiteralString(key, "_")`: the first character may be no digit.
unfoldable pub replace_invalid : String → String
unfolding replace_inner is_start
replace_invalid String.[] = ""
replace_invalid (String.◌∷◌ c s) = String.◌∷◌ (if is_start c then c else "_") (replace_inner s)

unfoldable pub has_underscore : String → Bool
has_underscore String.[] = false
has_underscore (String.◌∷◌ c s) = nat_eq (code c) 95

abbrev pub unprotected : List String → String → String
unprotected protected key = if contains key protected then "orig_" <> key else key

unfoldable pub normalize_label_key : String → List String → String → String
unfolding replace_invalid has_underscore
normalize_label_key key protected prefix =
    if key == ""
    then "_empty"
    else (let k = replace_invalid key in
        unprotected protected (if has_underscore k then prefix <> k else k))

-- The labels of facts: those that were seen before get a number.
unfoldable pub number_labels : Dict ℕ → List String → List String
number_labels seen [] = []
number_labels seen (k ∷ ks) = elim (lookup k seen) [
  | none ↦ k ∷ number_labels (insert k 1 seen) ks
  | some n ↦ (k <> "_" <> format_int n) ∷ number_labels (insert k (n + 1) seen) ks
]

abbrev pub reserved : List String
reserved = "cluster" ∷ "tenant" ∷ []

-- A label of Prometheus' data model, `[a-zA-Z_][a-zA-Z0-9_]*`.
unfoldable pub all_inner : String → Bool
unfolding is_inner
all_inner String.[] = true
all_inner (String.◌∷◌ c s) = is_inner c && all_inner s

unfoldable pub is_label : String → Bool
unfolding is_start all_inner
is_label String.[] = false
is_label (String.◌∷◌ c s) = is_start c && all_inner s

-- The labels that begin with two underscores are Prometheus' own.
unfoldable pub is_internal : String → Bool
unfolding has_underscore
is_internal String.[] = false
is_internal (String.◌∷◌ c s) = nat_eq (code c) 95 && has_underscore s

-- A label that the library accepts for a metric.
abbrev pub is_accepted : String → Bool
is_accepted s = is_label s && not (is_internal s)
