-- ===== src/Gitlab/Implementation.antt =====
-- The GitLab module as an implementation of git/manager/manager.go: `Connect`, `FullURL`, `IsType`, `Type`
-- and `New` of git/gitlab/gitlab.go, and the receiver as a `Repo`. The state of the one repository that a
-- reconciliation uses is in the session.
pub mod Addresses
pub mod Contract
pub mod Existence
pub mod CiVariables
pub mod Examples
use Prim.Native.Char.{Char, code}
use lieutenant_operator.Prelude.{
  ℕ, String, Bool, true, Option, none, some, List, [], ◌∷◌, ◌==◌, ◌<>◌, nat_eq, if◌then◌else◌,
}
use lieutenant_operator.Errors.{Error, Outcome, ok, err, out_of_fuel, Multierr}
use lieutenant_operator.Exec.{Exec}
use lieutenant_operator.Git.Urls.{Url, UrlLibrary, after_first}
use lieutenant_operator.Git.Manager.{RepoOptions, Unconnected, Implementation}
use lieutenant_operator.Repository.{Repo, IssuedToken}
use lieutenant_operator.Gitlab.{Gitlab, Api, Session}
use lieutenant_operator.Gitlab.Lifecycle.{read, create, update, remove}
use lieutenant_operator.Gitlab.Files.{commit_template_files}
use lieutenant_operator.Gitlab.Tokens.{ProjectAccessToken, ensure_project_access_token}
use lieutenant_operator.Gitlab.Variables.{ensure_ci_variables}

-- `strings.TrimPrefix(s, "/")`
unfoldable pub strip_slash : String → String
strip_slash String.[] = ""
strip_slash (String.◌∷◌ c s) = if nat_eq (code c) b'/' then s else String.◌∷◌ c s

-- A path that begins with a host, without it.
unfoldable pub without_host : String → String
unfolding strip_slash
without_host path = elim (after_first "/" (strip_slash path)) [
  | none ↦ path
  | some rest ↦ "/" <> rest
]

-- The URL with the SSH host, if there is one.
abbrev pub with_ssh_host : String → Url → Url
unfolding without_host
with_ssh_host ssh_host u =
    if ssh_host == ""
    then u
    else record u { host = ssh_host; path = if u.host == "" then without_host u.path else u.path }

unfoldable pub full_url : Gitlab → Url
unfolding without_host
full_url g =
    let u = with_ssh_host g.ssh_host (record (g.url) { scheme = "ssh"; user = "git" }) in
    record u { path = u.path <> ".git" }

-- `New`
abbrev pub new_receiver : RepoOptions → Gitlab
new_receiver opts = record {
  token = opts.token;
  url = opts.url;
  ssh_host = opts.ssh_host;
  project = none;
  deploy_keys = opts.deploy_keys;
  path = opts.path;
  repo_name = opts.repo_name;
  display_name = opts.display_name;
  template_files = opts.template_files;
  deletion_policy = opts.deletion_policy;
}

-- The error of a call, if there is one.
abbrev pub error_of {ℓ} : {A : Type ℓ} → Outcome A → Option Error
error_of (ok a) = none
error_of (err e) = some e

-- Where the fuel is spent, the model has no answer of the code.
abbrev pub committed : Outcome (Option (Unit {0})) → Option Error
committed (ok none) = some out_of_fuel
committed (ok (some u)) = none
committed (err e) = some e

module _ {W : Type 0} (api : Api W) (library : UrlLibrary) (multierr : Multierr) (fuel : ℕ) where
  -- The parameter prints a time, as the steps do with the expiry of a token.
  module _ (format_time : ℕ → String) where
    abbrev pub issued : Outcome ProjectAccessToken → Outcome IssuedToken
    issued (ok t) =
        ok (record { uid = t.uid; token = t.token; expires_at = format_time t.expires_at })
    issued (err e) = err e

    unfoldable pub repo_of : Repo (Session W)
    unfolding full_url read create update remove commit_template_files ensure_project_access_token
        ensure_ci_variables
    repo_of = record {
      type = "gitlab";
      full_url = λ s. library.to_text (full_url s.git);
      create = λ s. let (r, t) = create api s in (error_of r, t);
      update = update api;
      read = λ s. let (r, t) = read api s in (error_of r, t);
      remove = λ s. let (r, t) = remove api s in (error_of r, t);
      commit_template_files =
          λ s. let (r, t) = commit_template_files api fuel s in (committed r, t);
      ensure_project_access_token = λ name uid s.
          let (r, t) = ensure_project_access_token api name (some uid) s in (issued r, t);
      ensure_ci_variables = λ managed vars s.
          let (r, t) = ensure_ci_variables api multierr managed vars s in (error_of r, t);
    }

    -- The parameter makes the client of the library: it takes the token and the base of the URLs.
    module _ (new_client : String → String → W → Option Error) where
      abbrev pub connect : Session W → Option Error × Session W
      connect s = (new_client s.git.token (s.git.url.scheme <> "://" <> s.git.url.host) s.world, s)

      -- Every URL is one of GitLab.
      abbrev pub implementation : Implementation (Session W)
      unfolding repo_of
      implementation = record {
        is_type = λ u. (true, none);
        new = λ opts s. (
          ok (record { repo = repo_of; connect = connect }),
          record s { git = new_receiver opts },
        );
      }
