-- ===== src/Gitlab/Keys.antt =====
-- The deploy keys of git/gitlab/gitlab.go.
use lieutenant_operator.Prelude.{
  ℕ, zero, suc, Bool, true, false, none, some, List, [], ◌∷◌, ◌<>◌, Dict, lookup, insert, split,
  is_some, if◌then◌else◌,
}
use lieutenant_operator.Errors.{Outcome, ok, err, msg, panicked}
use lieutenant_operator.Exec.{Exec, pure, lift, ◌>>=◌, ◌>>◌}
use lieutenant_operator.Api.GitRepo.{DeployKey}
use lieutenant_operator.Git.Helpers.{compare_keys}
use lieutenant_operator.Gitlab.{ProjectDeployKey, Api, Session, reading, doing, project_id, this}

-- The two words of a key; with no space in it the code runs out of range.
unfoldable pub parse_key : ProjectDeployKey → Outcome DeployKey
parse_key k = elim (split k.key " ") [
  | [] ↦ err panicked
  | type ∷ rest ↦ elim rest [
    | [] ↦ err panicked
    | key ∷ _ ↦ ok (record { type = type; key = key; write_access = k.can_push })
  ]
]

-- The map of the remote keys; of two with one title the later counts.
unfoldable pub collect_keys : List ProjectDeployKey → Dict DeployKey → Outcome (Dict DeployKey)
unfolding parse_key
collect_keys [] m = ok m
collect_keys (k ∷ ks) m = elim (parse_key k) [
  | err e ↦ err e
  | ok v ↦ collect_keys ks (insert k.title v m)
]

module _ {W : Type 0} (api : Api W) where
  unfoldable pub get_deploy_keys : Exec (Session W) (Dict DeployKey)
  unfolding collect_keys
  get_deploy_keys = do
    id ← project_id
    remote ← reading (api.list_deploy_keys id)
    lift (collect_keys remote [])

  -- A failed deletion is logged, and the loop goes on.
  delete_each : ℕ → Dict DeployKey → List ProjectDeployKey → W → W
  delete_each id keys [] w = w
  delete_each id keys (k ∷ ks) w =
      if is_some (lookup k.title keys)
      then delete_each id keys ks (api.delete_deploy_key id k.id w).1
      else delete_each id keys ks w

  unfoldable pub remove_deploy_keys : Dict DeployKey → Exec (Session W) (Unit {0})
  unfolding delete_each
  remove_deploy_keys keys = do
    id ← project_id
    existing ← reading (api.list_deploy_keys id)
    doing (λ w. (none, delete_each id keys existing w))

  -- The loop of `setDeployKeys`, with the number of failures.
  add_each : ℕ → Dict DeployKey → ℕ → W → ℕ × W
  add_each id [] errors w = (errors, w)
  add_each id ((k, v) ∷ keys) errors w =
      let (e, w') = api.add_deploy_key id k (v.type <> " " <> v.key) v.write_access w in
      add_each id keys (elim e [ none ↦ errors | some _ ↦ suc errors ]) w'

  unfoldable pub set_deploy_keys : Dict DeployKey → Exec (Session W) (Unit {0})
  unfolding add_each
  set_deploy_keys keys = do
    id ← project_id
    doing (λ w.
        let (errors, w') = add_each id keys 0 w in
        (elim errors [ zero ↦ none | suc _ ↦ some (msg "keys failed to be added") ], w'))

  -- The two calls are made only for a set that is not empty.
  remove_if : Dict DeployKey → Exec (Session W) (Unit {0})
  unfolding remove_deploy_keys
  remove_if [] = pure tt
  remove_if (k ∷ ks) = remove_deploy_keys (k ∷ ks)

  set_if : Dict DeployKey → Exec (Session W) Bool
  unfolding set_deploy_keys
  set_if [] = pure false
  set_if (k ∷ ks) = do set_deploy_keys (k ∷ ks); pure true

  unfoldable pub update_deploy_keys : Exec (Session W) Bool
  unfolding get_deploy_keys remove_if set_if
  update_deploy_keys = do
    remote ← get_deploy_keys
    g ← this
    remove_if (compare_keys remote g.deploy_keys)
    set_if (compare_keys g.deploy_keys remote)
