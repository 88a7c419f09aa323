-- ===== src/EnvVars/Examples.antt =====
-- The theorems on CI variables at concrete lists.
use lieutenant_operator.Prelude.{◌≡◌, refl, true, List, [], ◌∷◌}
use lieutenant_operator.Errors.{ok}
use lieutenant_operator.Api.GitRepo.{EnvVar}
use lieutenant_operator.EnvVars.{plain_env_var, secret_env_var, env_var_index, update_env_var_value}

abbrev plain : EnvVar
plain = plain_env_var "API" "http://old"

abbrev token : EnvVar
token = secret_env_var "TOKEN" "t-acme" "token"

abbrev vars : List EnvVar
vars = plain ∷ token ∷ []

update_replaces :
    update_env_var_value "API" "http://new" vars
    ≡ ok (plain_env_var "API" "http://new" ∷ token ∷ [], true)
unfolding update_env_var_value env_var_index
update_replaces = refl
