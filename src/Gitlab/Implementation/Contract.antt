-- ===== src/Gitlab/Implementation/Contract.antt =====
-- The repository that `GetGitClient` gives is the project that the object names.
use lieutenant_operator.Prelude.{
  ℕ, String, ◌≡◌, refl, sym, ap, subst, value_of, Option, none, some, List, ◌∷◌, ◌<>◌, lookup,
  is_some, Bool-cases, inl, inr, if◌then◌else◌,
}
use lieutenant_operator.Errors.{
  Error, Outcome, ok, err, is_not_found, repo_not_found, Multierr, Outcome-cases, ok-injective,
}
use lieutenant_operator.Exec.{continue_ok}
use lieutenant_operator.Api.GitRepo.{GitRepo}
use lieutenant_operator.Api.Core.{Secret}
use lieutenant_operator.Kube.{Client}
use lieutenant_operator.Repository.{Repo}
use lieutenant_operator.Git.Urls.{Url, UrlLibrary}
use lieutenant_operator.Git.Manager.{
  RepoOptions, Implementation, url_in, ssh_host_in, options, merged_keys, new_repo, fetched,
  connected, client_of, client_from, options_from, get_git_client,
}
use lieutenant_operator.Gitlab.{Project, Api, Session}
use lieutenant_operator.Gitlab.Lifecycle.{read}
use lieutenant_operator.Gitlab.Implementation.{new_receiver, repo_of, implementation}

-- Options that were made have what the object and the secret say.
options_from-eq_ok :
    (library : UrlLibrary) (g : GitRepo) (s : Secret) (opts : RepoOptions)
    → options_from library g s ≡ ok opts
    → (url : Url) × (ssh_host : String) × (opts ≡ options library g s url ssh_host)
unfolding options_from
options_from-eq_ok library g s opts h = elim (Bool-cases (is_some (lookup "endpoint" s.contents))) [
  | inr n ↦ let never : err _ ≡ ok opts = rw n at h in absurd (cc)
  | inl y ↦ elim (Bool-cases (is_some (lookup "token" s.contents))) [
    | inr n ↦ let never : err _ ≡ ok opts = rw (y, n) at h in absurd (cc)
    | inl z ↦ elim (Outcome-cases (url_in library g s)) [
      | inr (e, w) ↦ let never : err e ≡ ok opts = rw (y, z, w) at h in absurd (cc)
      | inl (url, w) ↦ elim (Outcome-cases (ssh_host_in library s)) [
        | inr (e, v) ↦ let never : err e ≡ ok opts = rw (y, z, w, v) at h in absurd (cc)
        | inl (ssh_host, v) ↦
            let same : ok (options library g s url ssh_host) ≡ ok opts = rw (y, z, w, v) at h in
            (url, ssh_host, ok-injective (sym same))
      ]
    ]
  ]
]

-- What `Read` must tell of the server's answer: a project that is missing is an error of its own.
abbrev pub read_answer : Outcome Project → Option Error
read_answer (ok p) = none
read_answer (err e) = some (if is_not_found e then repo_not_found else e)

module _ {W : Type 0} (api : Api W) (library : UrlLibrary) (multierr : Multierr) (fuel : ℕ)
    (format_time : ℕ → String) (new_client : String → String → W → Option Error) where
  abbrev gitlab_repo : Repo (Session W)
  gitlab_repo = repo_of api library multierr fuel format_time

  read-gitlab_repo :
      (s : Session W)
      → (gitlab_repo.read s).0
        ≡ read_answer (api.get_project (s.git.path <> "/" <> s.git.repo_name) s.world)
  unfolding repo_of read
  read-gitlab_repo s =
      let name = s.git.path <> "/" <> s.git.repo_name in
      elim (Outcome-cases (api.get_project name s.world)) [
        | inl (p, h) ↦ rw h refl
        | inr (e, h) ↦ elim (Bool-cases (is_not_found e)) [
          | inl y ↦ rw (h, y) refl
          | inr n ↦ rw (h, n) refl
        ]
      ]

  -- The repository and the session are for the project that the object names.
  pub record IsNamed (g : GitRepo) (s s' : Session W) (repo : Repo (Session W)) : Type 0 where
    pub path : s'.git.path ≡ g.spec.git_repo_template.path
    pub repo_name : s'.git.repo_name ≡ g.spec.git_repo_template.repo_name
    pub deploy_keys : s'.git.deploy_keys ≡ merged_keys g
    pub template_files : s'.git.template_files ≡ g.spec.git_repo_template.template_files
    pub deletion_policy : s'.git.deletion_policy ≡ g.spec.git_repo_template.deletion_policy
    pub project : s'.git.project ≡ none
    pub world : s'.world ≡ s.world
    pub type : repo.type ≡ "gitlab"
    pub read :
        (repo.read s').0
        ≡ read_answer (
            api.get_project
              (g.spec.git_repo_template.path <> "/" <> g.spec.git_repo_template.repo_name)
              s.world)

  connected_repo :
      (e : Option Error) (r repo : Repo (Session W)) (hk keys : String) (s s' : Session W)
      → ◌≡◌ {A = Outcome (Repo (Session W) × String) × Session W}
          (elim e [ none ↦ ok (r, hk) | some x ↦ err x ], s)
          (ok (repo, keys), s')
      → (r ≡ repo) × (s ≡ s')
  connected_repo none r repo hk keys s s' h =
      (ap (λ x. x.0) (ok-injective (ap (λ x. x.0) h)), ap (λ x. x.1) h)
  connected_repo (some x) r repo hk keys s s' h = absurd (cc)

  named :
      (g : GitRepo) (secret : Secret) (url : Url) (ssh_host : String) (s : Session W)
      → IsNamed g s
          (record s { git = new_receiver (options library g secret url ssh_host) })
          gitlab_repo
  unfolding repo_of
  named g secret url ssh_host s = record {
    path = refl;
    repo_name = refl;
    deploy_keys = refl;
    template_files = refl;
    deletion_policy = refl;
    project = refl;
    world = refl;
    type = refl;
    read =
        read-gitlab_repo (record s { git = new_receiver (options library g secret url ssh_host) });
  }

  -- With GitLab as the first implementation, the repository that `GetGitClient` answers with is for the
  -- project that the object names: its keys, files and policy are those of the object, the server has not
  -- been changed, and reading it tells that it is not found exactly where the server says so of that
  -- project, as the interface demands.
  pub get_git_client-IsNamed :
      (cli : Client (Session W)) (others : List (Implementation (Session W))) (g : GitRepo)
      (s s' : Session W) (repo : Repo (Session W)) (keys : String)
      → get_git_client library cli
          (implementation api library multierr fuel format_time new_client ∷ others)
          g
          s
        ≡ (ok (repo, keys), s')
      → IsNamed g s s' repo
  unfolding get_git_client client_of client_from connected new_repo implementation
  get_git_client-IsNamed cli others g s s' repo keys h =
      let all = implementation api library multierr fuel format_time new_client ∷ others in
      let (secret, f, h2) =
        continue_ok (client_of library cli all g) (fetched library cli all g s) s s' (repo, keys)
          h in
      let (opts, o, h3) =
        continue_ok (client_from library cli all secret) (options_from library g secret) s s'
          (repo, keys) h2 in
      let (url, ssh_host, same) = options_from-eq_ok library g secret opts o in
      let (r, t) =
        connected_repo (new_client opts.token (opts.url.scheme <> "://" <> opts.url.host) s.world)
          gitlab_repo repo (value_of "hostKeys" secret.contents) keys
          (record s { git = new_receiver opts }) s' h3 in
      subst (λ x. IsNamed g s s' x) r
        (subst (λ x. IsNamed g s x gitlab_repo) t
          (subst (λ x. IsNamed g s (record s { git = new_receiver x }) gitlab_repo) (sym same)
            (named g secret url ssh_host s)))
