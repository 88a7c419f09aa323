-- ===== src/Git/Manager.antt =====
-- git/manager/manager.go: the choice of the implementation for a repository, and its options.
pub mod Endpoints
pub mod Examples
use lieutenant_operator.Prelude.{
  String, Bool, true, false, not, Option, none, some, List, [], ◌∷◌, ◌==◌, ◌<>◌, Dict, lookup,
  insert, value_of, is_some, trim_space, if◌then◌else◌,
}
use lieutenant_operator.Errors.{Error, Outcome, ok, err, msg, wrap, ◌>>=◌}
use lieutenant_operator.Exec
use lieutenant_operator.Exec.{Exec, pure, lift}
use lieutenant_operator.Api.Meta.{NamespacedName}
use lieutenant_operator.Api.GitRepo.{GitRepo, DeployKey, DeployKeyStatus}
use lieutenant_operator.Api.Core.{Secret}
use lieutenant_operator.Kube.{Client}
use lieutenant_operator.Repository.{Repo}
use lieutenant_operator.Git.Urls.{Url, UrlLibrary, before_first, after_last}

pub record RepoOptions : Type 0 where
  pub token : String
  pub deploy_keys : Dict DeployKey
  pub url : Url
  pub ssh_host : String
  pub path : String
  pub repo_name : String
  pub display_name : String
  pub template_files : Dict String
  pub deletion_policy : String

-- A repository with the method `Connect`, which `Repo` leaves out.
pub record Unconnected (W : Type 0) : Type 0 where
  pub repo : Repo W
  pub connect : W → Option Error × W

-- What is registered: a new repository has a state of its own, which is in the world.
pub record Implementation (W : Type 0) : Type 0 where
  pub is_type : Url → Bool × Option Error
  pub new : RepoOptions → W → Outcome (Unconnected W) × W

module _ {W : Type 0} (library : UrlLibrary) where
  -- The first implementation that takes the URL.
  unfoldable pub new_repo : List (Implementation W) → RepoOptions → W → Outcome (Unconnected W) × W
  new_repo [] opts w = (
    err (msg ("no git implementation found for given url: " <> library.to_text opts.url <> " ")),
    w,
  )
  new_repo (i ∷ is) opts w =
      let rest = new_repo is opts w in
      let (exists, e) = i.is_type opts.url in
      if exists then i.new opts w else (elim e [ none ↦ rest | some x ↦ (err x, w) ])

-- The host of an endpoint that is not parsed into one: without a user before it or a path behind it.
unfoldable pub bare_host : String → Outcome String
bare_host path =
    let host = trim_space path in
    let bare = before_first "/" (after_last "@" host) in
    if host == ""
    then err (msg "ssh endpoint has no host")
    else if bare == ""
    then err (msg "ssh endpoint has no host")
    else ok bare

abbrev pub host_of : Url → Outcome String
host_of u = if not (u.host == "") then ok u.host else bare_host u.path

unfoldable pub parse_ssh_endpoint : UrlLibrary → String → Outcome String
unfolding bare_host
parse_ssh_endpoint library raw =
    let trimmed = trim_space raw in
    if trimmed == "" then ok "" else (library.parse trimmed >>= host_of)

-- The keys over those that are there.
unfoldable pub put_keys : Dict DeployKey → Dict DeployKey → Dict DeployKey
put_keys [] m = m
put_keys ((k, v) ∷ rest) m = put_keys rest (insert k v m)

abbrev pub generated : Dict DeployKeyStatus → Dict DeployKey
generated [] = []
generated ((k, s) ∷ rest) = (k, s.deploy_key) ∷ generated rest

-- The generated keys, with those of the spec over them.
unfoldable pub merged_keys : GitRepo → Dict DeployKey
unfolding put_keys
merged_keys g =
    put_keys g.spec.git_repo_template.deploy_keys
      (put_keys (generated g.status.generated_deploy_keys) [])

abbrev pub secret_key : GitRepo → NamespacedName
secret_key g =
    let r = g.spec.git_repo_template.api_secret_ref in
    record {
      name = r.name;
      namespace = if r.namespace == "" then g.meta.namespace else r.namespace;
    }

module _ (library : UrlLibrary) where
  -- The SSH host of a secret, empty where it names none.
  abbrev pub ssh_host_in : Secret → Outcome String
  ssh_host_in s = elim (lookup "sshEndpoint" s.contents) [
    | none ↦ ok ""
    | some raw ↦ elim (parse_ssh_endpoint library raw) [
      | ok h ↦ ok h
      | err e ↦ err (wrap ("invalid ssh endpoint in secret " <> s.meta.name) e)
    ]
  ]

  abbrev pub url_in : GitRepo → Secret → Outcome Url
  url_in g s = library.parse (
      value_of "endpoint" s.contents
      <> "/"
      <> g.spec.git_repo_template.path
      <> "/"
      <> g.spec.git_repo_template.repo_name)

  abbrev pub options : GitRepo → Secret → Url → String → RepoOptions
  options g s url ssh_host = record {
    token = value_of "token" s.contents;
    deploy_keys = merged_keys g;
    url = url;
    ssh_host = ssh_host;
    path = g.spec.git_repo_template.path;
    repo_name = g.spec.git_repo_template.repo_name;
    display_name = g.spec.git_repo_template.display_name;
    template_files = g.spec.git_repo_template.template_files;
    deletion_policy = g.spec.git_repo_template.deletion_policy;
  }

  unfoldable pub options_from : GitRepo → Secret → Outcome RepoOptions
  unfolding parse_ssh_endpoint merged_keys
  options_from g s =
      if not (is_some (lookup "endpoint" s.contents))
      then err (msg ("secret " <> s.meta.name <> " does not contain endpoint data"))
      else if not (is_some (lookup "token" s.contents))
      then err (msg ("secret " <> s.meta.name <> " does not contain token"))
      else (url_in g s >>= λ url. ssh_host_in s >>= λ ssh_host. ok (options g s url ssh_host))

  module _ {W : Type 0} (cli : Client W) (implementations : List (Implementation W)) where
    unfoldable pub connected : String → Unconnected W → Exec W (Repo W × String)
    connected host_keys u w =
        let (e, w') = u.connect w in (elim e [ none ↦ ok (u.repo, host_keys) | some x ↦ err x ], w')

    unfoldable pub fetched : GitRepo → W → Outcome Secret
    fetched g w = elim (cli.get_secret (secret_key g) w) [
      | ok s ↦ ok s
      | err e ↦ err (msg "error getting git secret")
    ]

    unfoldable pub client_from : Secret → RepoOptions → Exec W (Repo W × String)
    unfolding new_repo connected
    client_from s opts =
        Exec.◌>>=◌ (new_repo library implementations opts)
          (connected (value_of "hostKeys" s.contents))

    unfoldable pub client_of : GitRepo → Secret → Exec W (Repo W × String)
    unfolding options_from client_from
    client_of g s = Exec.◌>>=◌ (lift (options_from g s)) (client_from s)

    unfoldable pub get_git_client : GitRepo → Exec W (Repo W × String)
    unfolding client_of fetched
    get_git_client g = Exec.◌>>=◌ (λ w. (fetched g w, w)) (client_of g)
