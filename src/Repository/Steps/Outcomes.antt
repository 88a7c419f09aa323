-- ===== src/Repository/Steps/Outcomes.antt =====
-- What the status says after the steps succeeded.
use lieutenant_operator.Prelude.{
  String, ◌≡◌, refl, sym, ◌∙◌, ap, subst, true, false, some, ◌==◌, Bool-cases, eq_iff, ◌⊎◌, inl,
  inr,
}
use lieutenant_operator.Errors.{Outcome, ok, err, wrap, annotate, Multierr}
use lieutenant_operator.Exec.{Exec, annotated, continue_ok, continue_at, ◌>>◌, ◌>>=◌}
use lieutenant_operator.Api.GitRepo.{GitRepo, created, unmanaged_repo_type}
use lieutenant_operator.Kube.{Client}
use lieutenant_operator.Repository.{
  Repo, Tools, Work, set_phase, recovered, instance_of, running, calling, change,
}
use lieutenant_operator.Repository.Templates.{fetch_git_repo_template}
use lieutenant_operator.Repository.DeployKeys.{ensure_generated_deploy_keys}
use lieutenant_operator.Repository.Tokens.{ensure_access_token}
use lieutenant_operator.Repository.CiVariables.{ensure_ci_variables}
use lieutenant_operator.Repository.Steps.{
  is_foreign, id_error, set_url, set_type, set_host_keys, repo_exists, ensure_created, url_of,
  bring_up, manage, with_client, run_managed, run_fetched, run,
}
use lieutenant_operator.Repository.Steps.Adopting.{succeeded, manage_foreign}

-- The object says that the repository is there, with the URL and the type that the server has.
abbrev pub IsUp : {W : Type 0} → Repo W → Work W → Type 0
IsUp repo t =
    (t.instance_.status.phase ≡ some created)
    × (t.instance_.status.url ≡ repo.full_url t.world)
    × (t.instance_.status.type ≡ repo.type)

annotate_ok : {A : Type 0} (s : String) (r : Outcome A) (a : A) → annotate s r ≡ ok a → r ≡ ok a
annotate_ok s (ok b) a h = h
annotate_ok s (err e) a h = cc

module _ {W : Type 0} where
  after_first :
      {A B : Type 0} (m : Exec (Work W) A) (k : Exec (Work W) B) (s t : Work W) (b : B)
      → (m >> k) s ≡ (ok b, t)
      → (u : Work W) × (k u ≡ (ok b, t))
  after_first m k s t b h =
      let (a, q, f) = continue_ok (λ _. k) (m s).0 (m s).1 t b h in ((m s).1, f)

module _ {W : Type 0} (cli : Client W) (tools : Tools W) (multierr : Multierr) (repo : Repo W) where
  noted : Exec (Work W) (Unit {0})
  noted = do
    url ← url_of cli tools multierr repo
    change (λ g. set_type repo.type (set_url url (set_phase created g)))

  noted-IsUp : (s t : Work W) → noted s ≡ (ok tt, t) → IsUp repo t
  unfolding noted
  noted-IsUp s t h =
      subst (IsUp repo) (ap (λ (x : Outcome (Unit {0}) × Work W). x.1) h) (refl, refl, refl)

  bring_up-IsUp : (s t : Work W) → bring_up cli tools multierr repo s ≡ (ok tt, t) → IsUp repo t
  unfolding bring_up noted
  bring_up-IsUp s t h =
      let update = recovered cli (wrap "update repo") (calling repo.update) in
      let commit = recovered cli id_error (running repo.commit_template_files) in
      let variables =
        recovered cli (wrap "ensure ci variables") (ensure_ci_variables cli tools multierr repo) in
      let token = recovered cli (wrap "ensure access token") (ensure_access_token tools repo) in
      let (a, p) = after_first token (variables >> (commit >> (update >> noted))) s t tt h in
      let (b, q) = after_first variables (commit >> (update >> noted)) a t tt p in
      let (c, r) = after_first commit (update >> noted) b t tt q in
      let (d, u) = after_first update noted c t tt r in noted-IsUp d t u

  -- Where the steps succeed for a repository that exists and whose object is not being deleted, the
  -- object says so afterwards.
  manage-IsUp : (s t : Work W) → manage cli tools multierr repo false s ≡ (ok tt, t) → IsUp repo t
  unfolding manage
  manage-IsUp s t h = elim (Bool-cases (is_foreign (repo.full_url s.world) s.instance_)) [
    | inl f ↦
        let (_, q) =
          manage_foreign cli tools multierr repo (λ _. Unit) (λ _ _ _. tt) false s f tt in
        cc (ap (λ (x : Outcome (Unit {0}) × Work W). succeeded x.0) h, q)
    | inr f ↦ bring_up-IsUp s t (sym (rw (manage, f)) ∙ h)
  ]

module _ {W : Type 0} (cli : Client W) (tools : Tools W) (multierr : Multierr) where
  with_client-IsUp :
      (client : Repo W × String) (s t : Work W)
      → with_client cli tools multierr false client s ≡ (ok tt, t)
      → IsUp client.0 t
  unfolding with_client
  with_client-IsUp (repo, host_keys) s t h =
      let u = record s { instance_ = set_host_keys host_keys s.instance_ } in
      let found =
        annotated "failed to check if repo exists" (repo_exists cli tools multierr repo) in
      let managing = manage cli tools multierr repo false in
      let (exists, _, f) =
        continue_ok (λ b. ensure_created cli tools multierr repo b >> managing) (found u).0
          (found u).1 t tt h in
      let (v, g) =
        after_first (ensure_created cli tools multierr repo exists) managing (found u).1 t tt f in
      manage-IsUp cli tools multierr repo v t g

  -- What a run does before it asks for the client of the repository.
  abbrev pub prepared : Exec (Work W) (Unit {0})
  prepared =
      annotated "fetch Git repo template" (fetch_git_repo_template cli)
      >> recovered cli (wrap "ensure generated deploy keys")
          (ensure_generated_deploy_keys cli tools multierr)

  -- The client that `GetGitClient` gives for the object and the server after this preparation has the
  -- repository that the object speaks of.
  abbrev pub IsUpAtClient : Work W → Work W → Type 0
  IsUpAtClient s t =
      (v : Work W) × (client : Repo W × String) × (w : W) × (prepared s ≡ (ok tt, v))
      × (tools.get_git_client v.instance_ v.world ≡ (ok client, w))
      × IsUp client.0 t

  abbrev with_keys : Exec (Work W) (Unit {0})
  with_keys =
      recovered cli (wrap "ensure generated deploy keys")
        (ensure_generated_deploy_keys cli tools multierr)

  run_managed-IsUp :
      (s t : Work W)
      → run_managed cli tools multierr false s ≡ (ok tt, t)
      → (v : Work W) × (client : Repo W × String) × (w : W) × (with_keys s ≡ (ok tt, v))
        × (tools.get_git_client v.instance_ v.world ≡ (ok client, w))
        × IsUp client.0 t
  unfolding run_managed
  run_managed-IsUp s t h =
      let client : GitRepo → Exec (Work W) (Repo W × String) =
        λ g. annotated "get Git client" (calling (tools.get_git_client g)) in
      let rest = with_client cli tools multierr false in
      let (a, q, f) =
        continue_ok (λ _. instance_of >>= λ g. client g >>= rest) (with_keys s).0 (with_keys s).1 t
          tt h in
      let v = (with_keys s).1 in
      let r = client v.instance_ v in
      let answer = tools.get_git_client v.instance_ v.world in
      let (c, k, g) = continue_ok rest r.0 r.1 t tt f in
      (
        v,
        c,
        answer.1,
        (λ i. (q i, v)),
        (λ i. (annotate_ok "get Git client" answer.0 c k i, answer.1)),
        with_client-IsUp c r.1 t g,
      )

  skipped :
      (u : Work W)
      → (u.instance_.spec.git_repo_template.repo_type == unmanaged_repo_type) ≡ true
      → run_fetched cli tools multierr false u ≡ (ok tt, u)
  unfolding run_fetched
  skipped u y = rw y

  managed :
      (u : Work W)
      → (u.instance_.spec.git_repo_template.repo_type == unmanaged_repo_type) ≡ false
      → run_fetched cli tools multierr false u ≡ run_managed cli tools multierr false u
  unfolding run_fetched
  managed u n = rw n

  fetched_unmanaged :
      (u t : Work W)
      → (u.instance_.spec.git_repo_template.repo_type == unmanaged_repo_type) ≡ true
      → run_fetched cli tools multierr false u ≡ (ok tt, t)
      → t.instance_.spec.git_repo_template.repo_type ≡ unmanaged_repo_type
  fetched_unmanaged u t y f =
      let same : u ≡ t = ap (λ (x : Outcome (Unit {0}) × Work W). x.1) (sym (skipped u y) ∙ f) in
      subst (λ x. x.instance_.spec.git_repo_template.repo_type ≡ unmanaged_repo_type) same
        ((eq_iff u.instance_.spec.git_repo_template.repo_type unmanaged_repo_type).0 y)

  -- Where the steps succeed for an object that is not being deleted, its repository is unmanaged, or
  -- `GetGitClient` gave a client for the object as it was after its template was fetched and its deploy
  -- keys were made, and the object says afterwards that the repository is created, with the URL and the
  -- type that the repository of this client has.
  pub run-IsUp :
      (s t : Work W)
      → run cli tools multierr false s ≡ (ok tt, t)
      → (t.instance_.spec.git_repo_template.repo_type ≡ unmanaged_repo_type) ⊎ IsUpAtClient s t
  unfolding run
  run-IsUp s t h =
      let fetch = annotated "fetch Git repo template" (fetch_git_repo_template cli) in
      let u = (fetch s).1 in
      let (a, q, f) =
        continue_ok (λ _. run_fetched cli tools multierr false) (fetch s).0 u t tt h in
      elim (Bool-cases (u.instance_.spec.git_repo_template.repo_type == unmanaged_repo_type)) [
        | inl y ↦ inl (fetched_unmanaged u t y f)
        | inr n ↦
            let (v, c, w, p, g, up) = run_managed-IsUp u t (sym (managed u n) ∙ f) in
            inr (v, c, w, continue_at (λ _. with_keys) (fetch s).0 a u q ∙ p, g, up)
      ]
