-- ===== src/Repository/Values.antt =====
-- `valueFromEnvVar` of controllers/gitrepo/steps.go.
pub mod Sources
use lieutenant_operator.Prelude.{
  String, Bool, true, false, not, ◌&&◌, ◌||◌, Option, none, some, deref, ◌==◌, ◌<>◌, lookup,
  if◌then◌else◌,
}
use lieutenant_operator.Errors.{Outcome, ok, err, msg, wrap, is_not_found}
use lieutenant_operator.Api.Meta.{NamespacedName}
use lieutenant_operator.Api.GitRepo.{EnvVar, EnvVarSource, SecretKeySelector}
use lieutenant_operator.Api.Core.{Secret}
use lieutenant_operator.Kube.{Client}

-- The value under the selector's key of what the server answered.
unfoldable pub value_in : SecretKeySelector → Outcome Secret → Outcome String
value_in k (err e) =
    if is_not_found e && deref k.optional false
    then ok ""
    else err (wrap ("error getting secret " <> k.name) e)
value_in k (ok secret) = elim (lookup k.key secret.contents) [
  | some v ↦ ok v
  | none ↦
      if deref k.optional false
      then ok ""
      else err (msg ("secret " <> k.name <> " does not contain key " <> k.key))
]

abbrev pub source_selector : EnvVar → Outcome (Option SecretKeySelector)
source_selector e =
    if not (e.value == "")
    then (elim e.value_from [
      | none ↦ ok none
      | some _ ↦ err (msg ("envVar " <> e.name <> " has both value and valueFrom"))
    ])
    else elim e.value_from [
      | none ↦ ok none
      | some src ↦ elim src.secret_key_ref [
        | none ↦ err (msg ("envVar " <> e.name <> " has no secretKeyRef"))
        | some k ↦
            if k.name == "" || k.key == ""
            then err (msg ("envVar " <> e.name <> " has incomplete secretKeyRef"))
            else ok (some k)
      ]
    ]

module _ {W : Type 0} (cli : Client W) where
  unfoldable pub value_from_env_var : String → EnvVar → W → Outcome String
  unfolding value_in
  value_from_env_var namespace e w = elim (source_selector e) [
    | err x ↦ err x
    | ok o ↦ elim o [
      | none ↦ ok e.value
      | some k ↦ value_in k (cli.get_secret (record { namespace = namespace; name = k.name }) w)
    ]
  ]
