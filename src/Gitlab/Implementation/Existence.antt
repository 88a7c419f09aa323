-- ===== src/Gitlab/Implementation/Existence.antt =====
-- What `repoExists` of controllers/gitrepo/steps.go tells of a project on GitLab.
use lieutenant_operator.Prelude.{
  ℕ, String, Bool, ◌≡◌, refl, true, false, ◌||◌, some, ◌<>◌, Bool-cases, inl, inr, if◌then◌else◌,
}
use lieutenant_operator.Errors.{
  Outcome, ok, err, is_not_found, is_repo_not_found, Multierr, Outcome-cases,
}
use lieutenant_operator.Kube.{Client}
use lieutenant_operator.Repository.{Tools, Work}
use lieutenant_operator.Repository.Steps.{repo_exists}
use lieutenant_operator.Git.Urls.{UrlLibrary}
use lieutenant_operator.Gitlab.{Project, Api, Session}
use lieutenant_operator.Gitlab.Lifecycle.{read}
use lieutenant_operator.Gitlab.Implementation.{repo_of}

-- The state of a reconciliation after the project was read.
abbrev pub having : {W : Type 0} → Project → Work (Session W) → Work (Session W)
having p w = record w {
  world = record (w.world) { git = record (w.world.git) { project = some p } };
}

-- The answer to the server's answer.
abbrev pub Told :
    {W : Type 0} → Work (Session W) → Outcome Project → Outcome Bool × Work (Session W) → Type 0
Told w (ok p) r = r ≡ (ok true, having p w)
Told w (err e) r = r ≡ (if is_not_found e || is_repo_not_found e then ok false else err e, w)

module _ {W : Type 0} (cli : Client (Session W)) (tools : Tools (Session W)) (api : Api W)
    (library : UrlLibrary) (multierr : Multierr) (fuel : ℕ) (format_time : ℕ → String) where
  -- Asked of a project on GitLab, `repoExists` says yes where the server has it, and it is known from
  -- then on; no where the server says that it is not found; and otherwise gives the server's error. The
  -- server is not changed.
  pub repo_exists_lem :
      (w : Work (Session W))
      → Told w
          (api.get_project (w.world.git.path <> "/" <> w.world.git.repo_name) w.world.world)
          (repo_exists cli tools multierr (repo_of api library multierr fuel format_time) w)
  unfolding repo_exists repo_of read
  repo_exists_lem w =
      elim (Outcome-cases
        (api.get_project (w.world.git.path <> "/" <> w.world.git.repo_name) w.world.world)) [
          | inl (p, h) ↦ rw h refl
          | inr (e, h) ↦ elim (Bool-cases (is_not_found e)) [
            | inl y ↦ rw (h, y) refl
            | inr n ↦ elim (Bool-cases (is_repo_not_found e)) [
              | inl y ↦ rw (h, n, y) refl
              | inr m ↦ rw (h, n, m) refl
            ]
          ]
        ]
