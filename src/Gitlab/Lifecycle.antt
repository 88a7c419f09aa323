-- ===== src/Gitlab/Lifecycle.antt =====
-- The project itself: git/gitlab/gitlab.go without keys, files, tokens and variables.
use lieutenant_operator.Prelude.{
  String, Bool, true, false, ◌||◌, none, some, ◌==◌, ◌<>◌, if◌then◌else◌,
}
use lieutenant_operator.Errors.{Error, Outcome, ok, err, repo_not_found, is_not_found}
use lieutenant_operator.Exec.{Exec, pure, ◌>>=◌, ◌>>◌}
use lieutenant_operator.Api.GitRepo.{archive_policy, delete_policy}
use lieutenant_operator.Gitlab.{
  Project, Api, Session, reading, writing, doing, project_id, set_project, this,
}
use lieutenant_operator.Gitlab.Keys.{set_deploy_keys, update_deploy_keys}

-- A project that is not there is an error of its own.
abbrev pub missing : Outcome Project → Outcome Project
missing (ok p) = ok p
missing (err e) = if is_not_found e then err repo_not_found else err e

module _ {W : Type 0} (api : Api W) where
  -- `Read`, `getProject`
  unfoldable pub read : Exec (Session W) (Unit {0})
  read = do
    g ← this
    p ← reading (λ w. missing (api.get_project (g.path <> "/" <> g.repo_name) w))
    set_project p

  unfoldable pub create : Exec (Session W) (Unit {0})
  create = do
    g ← this
    ns ← reading (api.get_namespace g.path)
    p ← writing (api.create_project g.repo_name g.display_name ns)
    set_project p
    set_deploy_keys api g.deploy_keys

  -- The description of a project that has been read.
  description : Exec (Session W) Project
  description s = (elim s.git.project [ none ↦ err Error.panicked | some p ↦ ok p ], s)

  unfoldable pub update_display_name : Exec (Session W) Bool
  unfolding read description
  update_display_name = do
    read
    g ← this
    p ← description
    if p.description == g.display_name
        then pure false
        else do p' ← writing (api.edit_project p.id g.display_name); set_project p'; pure true

  unfoldable pub update : Exec (Session W) Bool
  unfolding update_display_name
  update = do keys ← update_deploy_keys api; name ← update_display_name; pure (keys || name)

  archive : Exec (Session W) (Unit {0})
  unfolding read
  archive = do read; id ← project_id; doing (api.archive_project id)

  -- `delete`
  destroy : Exec (Session W) (Unit {0})
  unfolding read
  destroy = do read; id ← project_id; doing (api.delete_project id)

  by_policy : String → Exec (Session W) (Unit {0})
  unfolding archive destroy
  by_policy policy =
      if policy == delete_policy
      then destroy
      else if policy == archive_policy
      then archive
      else pure tt

  -- The project by the deletion policy: any other policy retains it. The log line reads the name of
  -- the project, which panics where it was not read.
  unfoldable pub remove : Exec (Session W) (Unit {0})
  unfolding by_policy read
  remove = do project_id; g ← this; by_policy g.deletion_policy
