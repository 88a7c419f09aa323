-- ===== src/EnvVars/Find.antt =====
-- The list of CI variables seen as a map from names: the first entry of a name counts.
use lieutenant_operator.Prelude.{
  ℕ, suc, String, ◌≡◌, refl, false, Option, none, some, List, [], ◌∷◌, ◌++◌, arith, ◌==◌, eq_iff,
  get_elem?, set, erase_idx, if◌then◌else◌, ap, Bool-cases, inl, inr,
}
use mathlib.Core.Option
use lieutenant_operator.Api.GitRepo.{EnvVar}
use lieutenant_operator.EnvVars.{env_var_index}

-- The entry that a name stands for.
unfoldable pub find_var : String → List EnvVar → Option EnvVar
find_var name [] = none
find_var name (e ∷ list) = if e.name == name then some e else find_var name list

-- The names in the list.
abbrev pub names : List EnvVar → List String
names [] = []
names (e ∷ list) = e.name ∷ names list

-- No name stands twice.
abbrev pub HasDistinctNames : List EnvVar → Type 0
HasDistinctNames [] = Unit {0}
HasDistinctNames (e ∷ list) = (find_var e.name list ≡ none) × HasDistinctNames list

-- The three functions by recursion on the list.
pub replace_first : String → (EnvVar → EnvVar) → List EnvVar → List EnvVar
replace_first name f [] = []
replace_first name f (e ∷ list) =
    if e.name == name then f e ∷ list else e ∷ replace_first name f list

pub drop_first : String → List EnvVar → List EnvVar
drop_first name [] = []
drop_first name (e ∷ list) = if e.name == name then list else e ∷ drop_first name list

-- What the result of the search says of the list.
abbrev pub IndexCases : String → List EnvVar → Option ℕ → Type 0
IndexCases name list none = find_var name list ≡ none
IndexCases name list (some i) =
    (e : EnvVar) × (find_var name list ≡ some e)
    × (get_elem? list i ≡ some e)
    × ((v : EnvVar) → set list i v ≡ replace_first name (λ _. v) list)
    × (erase_idx list i ≡ drop_first name list)

IndexCases-cons :
    (name : String) (e : EnvVar) (list : List EnvVar) (o : Option ℕ)
    → (e.name == name) ≡ false
    → IndexCases name list o
    → IndexCases name (e ∷ list) (Option.map suc o)
unfolding find_var replace_first drop_first
IndexCases-cons name e list none n h = rw n h
IndexCases-cons name e list (some i) n (v, f, g, s, d) =
    (v, rw n f, g, (λ w. rw n (ap (λ l. e ∷ l) (s w))), rw n (ap (λ l. e ∷ l) d))

pub index_cases :
    (name : String) (list : List EnvVar) → IndexCases name list (env_var_index name list)
unfolding env_var_index find_var replace_first drop_first
index_cases name [] = refl
index_cases name (e ∷ list) = elim (Bool-cases (e.name == name)) [
  | inl y ↦ rw (y, env_var_index) (e, rw y, refl, (λ v. rw y), rw y)
  | inr n ↦
      rw (n, env_var_index)
        (IndexCases-cons name e list (env_var_index name list) n (index_cases name list))
]

pub find_var-replace_first :
    (k n : String) (v e : EnvVar) (list : List EnvVar)
    → v.name ≡ k
    → find_var k list ≡ some e
    → find_var n (replace_first k (λ _. v) list) ≡ (if k == n then some v else find_var n list)
unfolding find_var replace_first
find_var-replace_first k n v e [] p f = cc
find_var-replace_first k n v e (x ∷ list) p f = ground (
  arith,
  eq_iff x.name k,
  eq_iff x.name n,
  eq_iff v.name n,
  eq_iff k n,
  find_var-replace_first k n v e list p,
)

pub find_var-snoc :
    (n : String) (v : EnvVar) (list : List EnvVar)
    → find_var v.name list ≡ none
    → find_var n (list ++ v ∷ []) ≡ (if v.name == n then some v else find_var n list)
unfolding find_var
find_var-snoc n v [] f = refl
find_var-snoc n v (x ∷ list) f =
    ground (arith, eq_iff x.name v.name, eq_iff x.name n, eq_iff v.name n, find_var-snoc n v list)

pub find_var-drop_first :
    (k n : String) (list : List EnvVar)
    → HasDistinctNames list
    → find_var n (drop_first k list) ≡ (if k == n then none else find_var n list)
unfolding find_var drop_first
find_var-drop_first k n [] d = ground arith
find_var-drop_first k n (x ∷ list) d =
    ground (arith, eq_iff x.name k, eq_iff x.name n, eq_iff k n, find_var-drop_first k n list d.1)

pub drop_first_absent :
    (k : String) (list : List EnvVar) → find_var k list ≡ none → drop_first k list ≡ list
unfolding find_var drop_first
drop_first_absent k [] h = refl
drop_first_absent k (x ∷ list) h = ground (arith, drop_first_absent k list)

pub name-find_var :
    (k : String) (e : EnvVar) (list : List EnvVar) → find_var k list ≡ some e → e.name ≡ k
unfolding find_var
name-find_var k e [] h = cc
name-find_var k e (x ∷ list) h = ground (arith, eq_iff x.name k, name-find_var k e list)

pub HasDistinctNames-drop_first :
    (k : String) (list : List EnvVar) → HasDistinctNames list → HasDistinctNames (drop_first k list)
unfolding drop_first
HasDistinctNames-drop_first k [] d = tt
HasDistinctNames-drop_first k (x ∷ list) d =
    ground (arith, HasDistinctNames-drop_first k list d.1, find_var-drop_first k x.name list d.1)
