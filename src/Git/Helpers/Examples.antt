-- ===== src/Git/Helpers/Examples.antt =====
-- The theorems on sets of keys at concrete sets.
use lieutenant_operator.Prelude.{String, ◌≡◌, refl, false, [], ◌∷◌, Dict, lookup, trim_space}
use lieutenant_operator.Api.GitRepo.{DeployKey}
use lieutenant_operator.Git.Helpers.{compare_keys, trim_key}

abbrev rsa : String → DeployKey
rsa k = record { type = "ssh-rsa"; key = k; write_access = false }

abbrev local : Dict DeployKey
local = ("flux", rsa "AAA ") ∷ ("argo", rsa "BBB") ∷ []

abbrev remote : Dict DeployKey
remote = ("old", rsa "CCC") ∷ ("flux", rsa "AAA") ∷ []

compares : compare_keys local remote ≡ ("argo", rsa "BBB") ∷ []
unfolding compare_keys trim_key lookup trim_space
compares = refl
