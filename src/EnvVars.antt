-- ===== src/EnvVars.antt =====
-- controllers/util.go: the list of CI variables. `slices.IndexFunc` gives -1 for no index, here
-- `none`. The functions write into the slice that they are given; their callers keep the slice that
-- is returned whenever they report a change, so the two never differ.
pub mod Find
pub mod Laws
pub mod SourceLaws
pub mod Removal
pub mod Examples
use lieutenant_operator.Prelude.{
  ℕ, zero, suc, String, Bool, true, false, not, ◌&&◌, ◌||◌, Option, none, some, List, [], ◌∷◌, ◌++◌,
  ◌==◌, get_elem?, set, erase_idx, if◌then◌else◌,
}
use lieutenant_operator.Errors.{Outcome, ok, err, panicked}
use lieutenant_operator.Api.GitRepo.{EnvVar, EnvVarSource, SecretKeySelector}
use mathlib.Core.Option

unfoldable pub env_var_index : String → List EnvVar → Option ℕ
env_var_index name [] = none
env_var_index name (e ∷ list) =
    let rest = Option.map suc (env_var_index name list) in
    if e.name == name then some zero else rest

-- The variable that `updateEnvVarValue` appends.
abbrev pub plain_env_var : String → String → EnvVar
plain_env_var name value = record {
  name = name;
  value = value;
  value_from = none;
  gitlab_options = record { description = ""; protected = false; masked = false; raw = true };
}

-- The source that refers to a key of a secret.
abbrev pub source_of : String → String → EnvVarSource
source_of secret key = record {
  secret_key_ref = some (record { name = secret; key = key; optional = none });
}

-- The variable that `updateEnvVarValueFrom` appends.
abbrev pub secret_env_var : String → String → String → EnvVar
secret_env_var name secret key = record {
  name = name;
  value = "";
  value_from = some (source_of secret key);
  gitlab_options = record { description = ""; protected = false; masked = true; raw = true };
}

-- `envVars[i]`, and a panic out of range.
abbrev pub at : List EnvVar → ℕ → Outcome EnvVar
at list i = elim (get_elem? list i) [ none ↦ err panicked | some e ↦ ok e ]

set_value : String → List EnvVar → ℕ → EnvVar → List EnvVar × Bool
set_value value list i e =
    if e.value == value then (list, false) else (set list i (record e { value = value }), true)

unfoldable pub update_env_var_value : String → String → List EnvVar → Outcome (List EnvVar × Bool)
unfolding set_value
update_env_var_value name value list = elim (env_var_index name list) [
  | none ↦ ok (list ++ plain_env_var name value ∷ [], true)
  | some i ↦ elim (at list i) [ err e ↦ err e | ok e ↦ ok (set_value value list i e) ]
]

-- `e.ValueFrom.SecretKeyRef`: both pointers may be nil.
abbrev pub selector : EnvVar → Outcome SecretKeySelector
selector e = elim e.value_from [
  | none ↦ err panicked
  | some s ↦ elim s.secret_key_ref [ none ↦ err panicked | some k ↦ ok k ]
]

set_source : String → String → List EnvVar → ℕ → EnvVar → SecretKeySelector → List EnvVar × Bool
set_source secret key list i e k =
    if not (k.name == secret) || not (k.key == key)
    then (set list i (record e { value_from = some (source_of secret key) }), true)
    else (list, false)

unfoldable pub update_env_var_value_from :
    String → String → String → List EnvVar → Outcome (List EnvVar × Bool)
unfolding set_source
update_env_var_value_from name secret key list = elim (env_var_index name list) [
  | none ↦ ok (list ++ secret_env_var name secret key ∷ [], true)
  | some i ↦ elim (at list i) [
    | err e ↦ err e
    | ok e ↦ elim (selector e) [ err x ↦ err x | ok k ↦ ok (set_source secret key list i e k) ]
  ]
]

unfoldable pub remove_env_var : String → List EnvVar → List EnvVar × Bool
remove_env_var name list = elim (env_var_index name list) [
  | some i ↦ (erase_idx list i, true)
  | none ↦ (list, false)
]
