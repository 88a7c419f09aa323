-- ===== src/EnvVars/Removal.antt =====
-- What removing a CI variable does to the entry of each name.
use lieutenant_operator.Prelude.{
  ℕ, String, ◌≡◌, refl, false, Option, none, some, List, arith, ◌==◌, eq_iff, if◌then◌else◌,
  is_some,
}
use lieutenant_operator.Api.GitRepo.{EnvVar}
use lieutenant_operator.EnvVars.{env_var_index, remove_env_var}
use lieutenant_operator.EnvVars.Find.{
  find_var, HasDistinctNames, IndexCases, index_cases, find_var-drop_first,
  HasDistinctNames-drop_first,
}

-- Removing a name from a list of distinct names leaves no entry of that name and every other one.
-- The flag tells whether there was one.
pub find_var-remove_env_var :
    (name : String) (list : List EnvVar)
    → HasDistinctNames list
    → ((n : String)
        → find_var n (remove_env_var name list).0 ≡ (if name == n then none else find_var n list))
      × ((remove_env_var name list).1 ≡ is_some (find_var name list))
unfolding remove_env_var
find_var-remove_env_var name list d = go (env_var_index name list) refl (index_cases name list)
  where
    go :
        (o : Option ℕ)
        → env_var_index name list ≡ o
        → IndexCases name list o
        → ((n : String)
            → find_var n (remove_env_var name list).0
              ≡ (if name == n then none else find_var n list))
          × ((remove_env_var name list).1 ≡ is_some (find_var name list))
    go none p f = rw (p, remove_env_var) ((λ n. ground (arith, eq_iff name n)), rw f)
    go (some i) p (e, f, g, s, x) =
        rw (p, remove_env_var) ((λ n. rw x (find_var-drop_first name n list d)), rw f)

-- A removal without the flag has left the list as it was.
pub remove_env_var_unchanged :
    (name : String) (list : List EnvVar)
    → (remove_env_var name list).1 ≡ false
    → (remove_env_var name list).0 ≡ list
unfolding remove_env_var
remove_env_var_unchanged name list h = ground arith

pub remove_env_var-HasDistinctNames :
    (name : String) (list : List EnvVar)
    → HasDistinctNames list
    → HasDistinctNames (remove_env_var name list).0
unfolding remove_env_var
remove_env_var-HasDistinctNames name list d =
    go (env_var_index name list) refl (index_cases name list)
  where
    go :
        (o : Option ℕ)
        → env_var_index name list ≡ o
        → IndexCases name list o
        → HasDistinctNames (remove_env_var name list).0
    go none p f = rw (p, remove_env_var) d
    go (some i) p (e, f, g, s, x) =
        rw (p, remove_env_var) (rw x (HasDistinctNames-drop_first name list d))
