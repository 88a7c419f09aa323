-- ===== src/Repository/Values/Sources.antt =====
-- What can be read of a variable whose value or source was set by controllers/util.go.
use lieutenant_operator.Prelude.{String, ◌≡◌, true, false, some, arith, ◌==◌, ◌<>◌, is_some}
use lieutenant_operator.Errors.{err, msg}
use lieutenant_operator.Api.GitRepo.{EnvVar}
use lieutenant_operator.Kube.{Client}
use lieutenant_operator.EnvVars.Laws.{revalued}
use lieutenant_operator.Repository.Values.{value_from_env_var}

module _ {W : Type 0} (cli : Client W) (namespace : String) (w : W) where
  -- A value that is set over an entry with a source cannot be read afterwards: the entry has both.
  pub value_from_env_var-revalued :
      (name value : String) (e : EnvVar)
      → is_some e.value_from ≡ true
      → (value == "") ≡ false
      → value_from_env_var cli namespace (revalued name value (some e)) w
        ≡ err (msg ("envVar " <> e.name <> " has both value and valueFrom"))
  unfolding value_from_env_var
  value_from_env_var-revalued name value e h n = ground arith
