-- ===== src/Vault/Versions/Sorted.antt =====
-- The versions of a secret that are sent back to Vault.
use lieutenant_operator.Prelude.{
  true, false, ℕ, String, ◌≡◌, refl, ap, ◌∙◌, ◌≤◌, ◌<◌, some, List, [], ◌∷◌, map, arith, Dict,
  lookup, All, Perm, ℤ, pos, negsuc, atoi, int_ltb, int_limit, format_int, atoi-format_int,
  sort_by-perm, Ascending, sort_by-Ascending,
}
use lieutenant_operator.Errors.{ok}
use lieutenant_operator.Vault.{Value, Fields, object, fields_of}
use lieutenant_operator.Vault.Versions.{parse_versions, sort_versions, get_version_list}

infix 50 ◌≤ℤ◌
abbrev pub ◌≤ℤ◌ : ℤ → ℤ → Type 0
pos a ≤ℤ pos b = a ≤ b
pos a ≤ℤ negsuc b = ⊥
negsuc a ≤ℤ pos b = Unit
negsuc a ≤ℤ negsuc b = b ≤ a

le_trans : (a b c : ℤ) → a ≤ℤ b → b ≤ℤ c → a ≤ℤ c
le_trans (pos a) (pos b) (pos c) p q = omega arith
le_trans (pos a) (pos b) (negsuc c) p q = q
le_trans (pos a) (negsuc b) c p q = absurd p
le_trans (negsuc a) b (pos c) p q = tt
le_trans (negsuc a) (pos b) (negsuc c) p q = absurd q
le_trans (negsuc a) (negsuc b) (negsuc c) p q = omega arith

int_ltb→le : (a b : ℤ) → int_ltb a b ≡ true → a ≤ℤ b
int_ltb→le (pos a) (pos b) h = ground (arith)
int_ltb→le (pos a) (negsuc b) h = cc
int_ltb→le (negsuc a) (pos b) h = tt
int_ltb→le (negsuc a) (negsuc b) h = ground (arith)

not-int_ltb→le : (a b : ℤ) → int_ltb a b ≡ false → b ≤ℤ a
not-int_ltb→le (pos a) (pos b) h = ground (arith)
not-int_ltb→le (pos a) (negsuc b) h = tt
not-int_ltb→le (negsuc a) (pos b) h = cc
not-int_ltb→le (negsuc a) (negsuc b) h = ground (arith)

abbrev pub keys_of : Dict Value → List String
keys_of [] = []
keys_of ((k, x) ∷ m) = k ∷ keys_of m

abbrev pub AreMachineInts : List ℕ → Type 0
AreMachineInts ns = All (λ n. n < int_limit) ns

-- Keys that are the texts of numbers are read as these numbers.
parse_versions-format_int :
    (m : Dict Value) (ns : List ℕ)
    → keys_of m ≡ map format_int ns
    → AreMachineInts ns
    → parse_versions m ≡ ok (map pos ns)
unfolding parse_versions
parse_versions-format_int [] [] h a = refl
parse_versions-format_int [] (n ∷ ns) h a = cc
parse_versions-format_int ((k, x) ∷ m) [] h a = cc
parse_versions-format_int ((k, x) ∷ m) (n ∷ ns) h a =
    let first : k ≡ format_int n = cc in
    let others : keys_of m ≡ map format_int ns = cc in
    let read : atoi k ≡ some (pos n) = ap atoi first ∙ atoi-format_int n a.0 in
    rw (parse_versions, read, parse_versions-format_int m ns others a.1) refl

-- For a secret whose versions are a map with the texts of numbers as keys, below the limit of a machine's
-- integer, the list has exactly these numbers, each as often as it is a key, and is sorted.
pub get_version_list_sorts :
    (contents : Dict Value) (versions : Fields) (ns : List ℕ)
    → lookup "versions" contents ≡ some (object versions)
    → keys_of (fields_of versions) ≡ map format_int ns
    → AreMachineInts ns
    → (vs : List ℤ) × (get_version_list contents ≡ ok vs) × Ascending ◌≤ℤ◌ vs × Perm vs (map pos ns)
unfolding get_version_list
get_version_list_sorts contents versions ns l k a = (
  sort_versions (map pos ns),
  rw (get_version_list, l, parse_versions-format_int (fields_of versions) ns k a),
  sort_by-Ascending int_ltb ◌≤ℤ◌ le_trans int_ltb→le not-int_ltb→le (map pos ns),
  sort_by-perm int_ltb (map pos ns),
)
