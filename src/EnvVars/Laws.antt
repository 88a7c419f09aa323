-- ===== src/EnvVars/Laws.antt =====
-- What `updateEnvVarValue` does to the entry of each name.
use lieutenant_operator.Prelude.{
  ℕ, String, ◌≡◌, refl, subst, ◌⊎◌, ◌≢◌, Bool, true, false, Option, none, some, List, [], ◌∷◌, ◌++◌,
  arith, ◌==◌, eq_iff, set, if◌then◌else◌, ap, sym, Bool-cases, inl, inr,
}
use lieutenant_operator.Errors.{ok}
use lieutenant_operator.Api.GitRepo.{EnvVar}
use lieutenant_operator.EnvVars.{env_var_index, plain_env_var, set_value, update_env_var_value}
use lieutenant_operator.EnvVars.Find.{
  find_var, replace_first, IndexCases, index_cases, find_var-replace_first, find_var-snoc,
  name-find_var,
}

-- The entry of a name after its value is set.
abbrev pub revalued : String → String → Option EnvVar → EnvVar
revalued name value none = plain_env_var name value
revalued name value (some e) = record e { value = value }

-- The list `r` is `list` with the entry `v` at the name, and the flag tells whether the entry was
-- another one before.
abbrev pub IsUpdate : String → EnvVar → List EnvVar → List EnvVar × Bool → Type 0
IsUpdate name v list r =
    ((n : String) → find_var n r.0 ≡ (if name == n then some v else find_var n list))
    × (((r.1 ≡ false) × (r.0 ≡ list)) ⊎ ((r.1 ≡ true) × (find_var name list ≢ some v)))

pub unflagged :
    {b : Bool} {r list : List EnvVar} {N : Type 0}
    → ((b ≡ false) × (r ≡ list)) ⊎ ((b ≡ true) × N)
    → b ≡ false
    → r ≡ list
unflagged (inl (_, e)) h = e
unflagged (inr (t, _)) h = cc

pub IsUpdate-snoc :
    (v : EnvVar) (list : List EnvVar)
    → find_var v.name list ≡ none
    → IsUpdate v.name v list (list ++ v ∷ [], true)
IsUpdate-snoc v list f = ((λ n. find_var-snoc n v list f), inr (refl, λ h. cc))

pub IsUpdate-keep :
    (name : String) (e : EnvVar) (list : List EnvVar)
    → find_var name list ≡ some e
    → IsUpdate name e list (list, false)
IsUpdate-keep name e list f = ((λ n. ground (arith, eq_iff name n)), inl (refl, refl))

pub IsUpdate-replace :
    (name : String) (v e : EnvVar) (list : List EnvVar)
    → find_var name list ≡ some e
    → v.name ≡ name
    → e ≢ v
    → IsUpdate name v list (replace_first name (λ _. v) list, true)
IsUpdate-replace name v e list f p d =
    ((λ n. find_var-replace_first name n v e list p f), inr (refl, λ h. d (cc)))

set_value-IsUpdate :
    (name value : String) (list : List EnvVar) (i : ℕ) (e : EnvVar)
    → find_var name list ≡ some e
    → ((v : EnvVar) → set list i v ≡ replace_first name (λ _. v) list)
    → IsUpdate name (record e { value = value }) list (set_value value list i e)
unfolding set_value
set_value-IsUpdate name value list i e f s = elim (Bool-cases (e.value == value)) [
  | inl y ↦ rw (y, set_value) (rw (← (eq_iff e.value value).0 y) (IsUpdate-keep name e list f))
  | inr n ↦
      rw (n, set_value, s (record e { value = value }))
        (IsUpdate-replace name (record e { value = value }) e list f (name-find_var name e list f)
          (λ p. ground (arith, eq_iff e.value value, ap (λ (x : EnvVar). x.value) p)))
]

-- Setting a value never panics. Afterwards the name has the value, as a new raw variable or in the
-- entry that was there, every other name has the entry that it had, and the flag tells whether that
-- changed anything.
pub find_var-update_env_var_value :
    (name value : String) (list : List EnvVar)
    → (r : List EnvVar × Bool) × (update_env_var_value name value list ≡ ok r)
      × IsUpdate name (revalued name value (find_var name list)) list r
unfolding update_env_var_value
find_var-update_env_var_value name value list =
    go (env_var_index name list) refl (index_cases name list)
  where
    go :
        (o : Option ℕ)
        → env_var_index name list ≡ o
        → IndexCases name list o
        → (r : List EnvVar × Bool) × (update_env_var_value name value list ≡ ok r)
          × IsUpdate name (revalued name value (find_var name list)) list r
    go none p f = (
      (list ++ plain_env_var name value ∷ [], true),
      rw (p, update_env_var_value),
      subst
          (λ o.
            IsUpdate name (revalued name value o) list
              (list ++ plain_env_var name value ∷ [], true))
          (sym f) (IsUpdate-snoc (plain_env_var name value) list f),
    )
    go (some i) p (e, f, g, s, _) = (
      set_value value list i e,
      rw (p, g, update_env_var_value),
      subst (λ o. IsUpdate name (revalued name value o) list (set_value value list i e)) (sym f)
          (set_value-IsUpdate name value list i e f s),
    )
