-- ===== src/Repository/Steps.antt =====
-- `Steps` of controllers/gitrepo/steps.go.
pub mod Adopting
pub mod Outcomes
use lieutenant_operator.Prelude.{
  String, Bool, true, false, not, ◌&&◌, Option, none, some, ◌==◌, if◌then◌else◌,
}
use lieutenant_operator.Errors.{Error, Outcome, ok, err, msg, wrap, is_repo_not_found, Multierr}
use lieutenant_operator.Exec.{Exec, pure, lift, annotated, ◌>>=◌, ◌>>◌}
use lieutenant_operator.Api.GitRepo.{
  GitRepo, unmanaged_repo_type, adopt_policy, creating, created, failed,
}
use lieutenant_operator.Api.Object.{Object, git_repo}
use lieutenant_operator.Kube.{Client}
use lieutenant_operator.Pipeline.{Result, State, Function, continue, fail}
use lieutenant_operator.Repository.{
  Repo, Tools, Work, instance_of, change, asking, calling, running, attempt, set_phase,
  write_status, handle_repo_error, recovered,
}
use lieutenant_operator.Repository.Templates.{fetch_git_repo_template}
use lieutenant_operator.Repository.DeployKeys.{ensure_generated_deploy_keys}
use lieutenant_operator.Repository.Tokens.{ensure_access_token}
use lieutenant_operator.Repository.CiVariables.{ensure_ci_variables}

abbrev pub set_url : String → GitRepo → GitRepo
set_url url g = record g { status = record (g.status) { url = url } }

abbrev pub set_host_keys : String → GitRepo → GitRepo
set_host_keys keys g = record g { status = record (g.status) { host_keys = keys } }

abbrev pub set_type : String → GitRepo → GitRepo
set_type t g = record g { status = record (g.status) { type = t } }

-- Whether the URL on the server is not the one of the status, so that somebody else may own the
-- repository, and it is not to be adopted.
abbrev pub is_foreign : String → GitRepo → Bool
is_foreign url g =
    not (g.status.url == url) && not (g.spec.git_repo_template.creation_policy == adopt_policy)

abbrev pub id_error : Error → Error
id_error e = e

module _ {W : Type 0} (cli : Client W) (tools : Tools W) (multierr : Multierr) where
  module _ (repo : Repo W) where
    abbrev pub url_of : Exec (Work W) String
    url_of = asking (λ w. ok (repo.full_url w))

    unfoldable pub repo_exists : Exec (Work W) Bool
    repo_exists = do
      r ← attempt (running repo.read)
      elim r [ ok _ ↦ pure true | err e ↦ if is_repo_not_found e then pure false else lift (err e) ]

    abbrev pub reverted : Exec (Work W) (Unit {0}) → Exec (Work W) (Unit {0})
    reverted m = do
      r ← attempt m
      elim r [ ok _ ↦ pure tt | err e ↦ do change (set_url ""); lift (err e) ]

    unfoldable pub ensure_created : Bool → Exec (Work W) (Unit {0})
    unfolding write_status recovered
    ensure_created exists = if exists then pure tt else do
      url ← url_of
      change (λ g. set_phase creating (set_url url g))
      annotated "could not set status while creating repository" (write_status cli)
      recovered cli id_error (reverted (running repo.create))

    -- A repository that may not be adopted: an error, but for an object that is deleted.
    unfoldable pub refuse : Bool → Exec (Work W) (Unit {0})
    unfolding handle_repo_error
    refuse deleted =
        if deleted
        then pure tt
        else do change (set_phase failed); handle_repo_error cli (msg "Failed to adopt repository")

    unfoldable pub bring_up : Exec (Work W) (Unit {0})
    unfolding recovered ensure_access_token ensure_ci_variables
    bring_up = do
      recovered cli (wrap "ensure access token") (ensure_access_token tools repo)
      recovered cli (wrap "ensure ci variables") (ensure_ci_variables cli tools multierr repo)
      recovered cli id_error (running repo.commit_template_files)
      recovered cli (wrap "update repo") (calling repo.update)
      url ← url_of
      change (λ g. set_type repo.type (set_url url (set_phase created g)))

    -- What is done with a repository that exists.
    unfoldable pub manage : Bool → Exec (Work W) (Unit {0})
    unfolding refuse bring_up
    manage deleted = do
      g ← instance_of
      url ← url_of
      if is_foreign url g
          then refuse deleted
          else if deleted
          then annotated "remove repo" (running repo.remove)
          else bring_up

  -- The steps from the client for the repository on.
  unfoldable pub with_client : Bool → Repo W × String → Exec (Work W) (Unit {0})
  unfolding repo_exists ensure_created manage
  with_client deleted (repo, host_keys) = do
    change (set_host_keys host_keys)
    exists ← annotated "failed to check if repo exists" (repo_exists repo)
    ensure_created repo exists
    manage repo deleted

  unfoldable pub run_managed : Bool → Exec (Work W) (Unit {0})
  unfolding recovered ensure_generated_deploy_keys with_client
  run_managed deleted = do
    recovered cli (wrap "ensure generated deploy keys")
        (ensure_generated_deploy_keys cli tools multierr)
    g ← instance_of
    client ← annotated "get Git client" (calling (tools.get_git_client g))
    with_client deleted client

  unfoldable pub run_fetched : Bool → Exec (Work W) (Unit {0})
  unfolding run_managed
  run_fetched deleted s =
      if s.instance_.spec.git_repo_template.repo_type == unmanaged_repo_type
      then pure tt s
      else run_managed deleted s

  unfoldable pub run : Bool → Exec (Work W) (Unit {0})
  unfolding fetch_git_repo_template run_fetched
  run deleted = do
    annotated "fetch Git repo template" (fetch_git_repo_template cli)
    run_fetched deleted

  abbrev pub result_of : Outcome (Unit {0}) → Result
  result_of (ok _) = continue
  result_of (err e) = fail e

  unfoldable pub steps : Function W
  unfolding run
  steps s = elim s.obj [
    | git_repo g ↦
        let (r, t) = run s.ctx.deleted (record { instance_ = g; world = s.world }) in
        (result_of r, record s { obj = git_repo t.instance_; world = t.world })
    | _ ↦ (fail (msg "object is not of kind GitRepository"), s)
  ]
