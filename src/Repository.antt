-- ===== src/Repository.antt =====
-- controllers/gitrepo: what is done with one repository object. The repository on its server is the
-- interface `Repo` of git/manager/manager.go; what the code takes from other libraries is `Tools`.
pub mod Templates
pub mod Values
pub mod DeployKeys
pub mod Tokens
pub mod CiVariables
pub mod Steps
pub mod Creation
pub mod Watchers
pub mod Reconcile
pub mod Examples
use lieutenant_operator.Prelude.{
  ℕ, String, Bool, true, false, not, Option, none, some, List, Dict, if◌then◌else◌,
}
use lieutenant_operator.Errors.{
  Error, Outcome, ok, err, msg, wrap, status, repo_not_found, panicked, out_of_fuel, is_not_found,
  annotate,
}
use lieutenant_operator.Exec.{Exec}
use lieutenant_operator.Api.GitRepo.{GitRepo, EnvVar, failed}
use lieutenant_operator.Api.Core.{Secret}
use lieutenant_operator.Api.Object.{Object, git_repo}
use lieutenant_operator.Kube.{Client}
use lieutenant_operator.Gitlab.Variables.{Variable}

-- `manager.ProjectAccessToken`, with its expiry as it is printed.
pub record IssuedToken : Type 0 where
  pub uid : String
  pub token : String
  pub expires_at : String

pub record Repo (W : Type 0) : Type 0 where
  pub type : String
  pub full_url : W → String
  pub create : W → Option Error × W
  pub update : W → Outcome Bool × W
  pub read : W → Option Error × W
  pub remove : W → Option Error × W
  pub commit_template_files : W → Option Error × W
  -- The name and the UID of the token that is known.
  pub ensure_project_access_token : String → String → W → Outcome IssuedToken × W
  pub ensure_ci_variables : List String → List Variable → W → Option Error × W

pub record Tools (W : Type 0) : Type 0 where
  -- `manager.GetGitClient`, which the steps are given as a function.
  pub get_git_client : GitRepo → W → Outcome (Repo W × String) × W
  -- encoding/json at lists of variables
  pub unmarshal : String → Outcome (List EnvVar)
  pub marshal : List EnvVar → Outcome String
  -- `keygen.New`, whether an RSA key is asked for: the public and the private key.
  pub new_key : Bool → W → Outcome (String × String) × W
  -- `controllerutil.CreateOrUpdate` at secrets, with the function that changes the secret.
  pub create_or_update : Secret → (Secret → W → Outcome Secret × W) → W → Outcome Secret × W
  -- `controllerutil.SetControllerReference`
  pub set_controller_reference : GitRepo → Secret → Outcome Secret

-- The repository object, which the code changes through its pointer, and the world.
pub record Work (W : Type 0) : Type 0 where
  pub instance_ : GitRepo
  pub world : W

-- A nil pointer or an index out of range somewhere in the chain: no handler of errors runs.
abbrev pub is_panic : Error → Bool
is_panic (msg s) = false
is_panic (wrap s e) = is_panic e
is_panic (status r) = false
is_panic repo_not_found = false
is_panic panicked = true
is_panic out_of_fuel = false

-- What was found, if anything.
abbrev pub found : {A : Type 0} → Outcome A → Outcome (Option A)
found (ok a) = ok (some a)
found (err e) = if is_not_found e then ok none else err e

abbrev pub done_or : Option Error → Outcome (Unit {0})
done_or none = ok tt
done_or (some e) = err e

-- The outcome of the call as a value.
abbrev pub attempt : {S A : Type 0} → Exec S A → Exec S (Outcome A)
attempt m s = let (r, s') = m s in (ok r, s')

module _ {W : Type 0} where
  abbrev pub instance_of : Exec (Work W) GitRepo
  instance_of s = (ok s.instance_, s)

  abbrev pub change : (GitRepo → GitRepo) → Exec (Work W) (Unit {0})
  change f s = (ok tt, record s { instance_ = f s.instance_ })

  abbrev pub asking : {A : Type 0} → (W → Outcome A) → Exec (Work W) A
  asking f s = (f s.world, s)

  abbrev pub calling : {A : Type 0} → (W → Outcome A × W) → Exec (Work W) A
  calling f s = let (r, w) = f s.world in (r, record s { world = w })

  abbrev pub running : (W → Option Error × W) → Exec (Work W) (Unit {0})
  running f s = let (e, w) = f s.world in (done_or e, record s { world = w })

-- The object after its status was written: the server's answer is decoded into it.
abbrev pub decoded : Object → GitRepo → GitRepo
decoded (git_repo g) old = g
decoded _ old = old

abbrev pub set_phase : String → GitRepo → GitRepo
set_phase p g = record g { status = record (g.status) { phase = some p } }

module _ {W : Type 0} (cli : Client W) where
  -- `client.Status().Update(ctx, instance)`
  unfoldable pub write_status : Exec (Work W) (Unit {0})
  write_status s =
      let (e, o, w) = cli.update_status (git_repo s.instance_) s.world in
      elim e [
        | none ↦ (ok tt, record { instance_ = decoded o s.instance_; world = w })
        | some x ↦ (err x, record s { world = w })
      ]

  -- `handleRepoError`: the error, or one that tells that it could not be noted.
  unfoldable pub handle_repo_error : {A : Type 0} → Error → Exec (Work W) A
  unfolding write_status
  handle_repo_error e s =
      let (r, t) = write_status (record s { instance_ = set_phase failed s.instance_ }) in
      elim r [
        | ok _ ↦ (err e, t)
        | err x ↦ (err (msg "could not set status while handling error"), t)
      ]

  -- An error of the call is handled; a panic is not.
  recovered_with : {A : Type 0} → (Error → Error) → Outcome A → Exec (Work W) A
  unfolding handle_repo_error
  recovered_with f (ok a) s = (ok a, s)
  recovered_with f (err e) s = if is_panic e then (err e, s) else handle_repo_error (f e) s

  unfoldable pub recovered : {A : Type 0} → (Error → Error) → Exec (Work W) A → Exec (Work W) A
  unfolding recovered_with
  recovered f m s = let (r, t) = m s in recovered_with f r t
