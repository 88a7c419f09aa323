-- ===== src/CompilePipeline/Variables.antt =====
-- The variables that a tenant's repository has after a run.
use lieutenant_operator.Prelude.{
  String, ◌≡◌, refl, sym, subst, ◌∙◌, ap, inl, inr, Bool, true, false, not, ◌&&◌, arith, Option,
  none, some, List, ◌==◌, if◌then◌else◌, Bool-cases,
}
use lieutenant_operator.Errors.{ok, err, panicked, ok-injective}
use lieutenant_operator.Api.GitRepo.{EnvVar}
use lieutenant_operator.Api.Cluster
use lieutenant_operator.Api.Cluster.{Cluster}
use lieutenant_operator.Api.Meta.{is_zero}
use lieutenant_operator.Api.Tenant.{Tenant, get_compile_pipeline_spec}
use lieutenant_operator.EnvVars.{update_env_var_value_from, remove_env_var}
use lieutenant_operator.EnvVars.Find.{find_var, HasDistinctNames}
use lieutenant_operator.EnvVars.Laws.{unflagged}
use lieutenant_operator.EnvVars.SourceLaws.{resourced, find_var-update_env_var_value_from}
use lieutenant_operator.EnvVars.Removal.{find_var-remove_env_var, remove_env_var_unchanged}
use lieutenant_operator.CompilePipeline.{
  secret_key_token, variables, keep_if_changed, token_var, removes, ensure_cluster_ci_variable,
}

pub variables-keep_if_changed :
    (t : Tenant) (list : List EnvVar) (changed : Bool)
    → (changed ≡ false → list ≡ variables t)
    → variables (keep_if_changed t (list, changed)).0 ≡ list
variables-keep_if_changed t list true h = refl
variables-keep_if_changed t list false h = sym (h refl)

-- A live cluster with an access token whose pipeline is enabled, as its tenant's is.
unfoldable pub is_shown : Tenant → Cluster → Bool
is_shown t c =
    is_zero c.meta.deletion_timestamp
    && (not ((Cluster.get_git_template c).access_token == "")
        && ((get_compile_pipeline_spec t).enabled && c.spec.enable_compile_pipeline))

shown-removes : (t : Tenant) (c : Cluster) → removes t c ≡ not (is_shown t c)
unfolding removes is_shown
shown-removes t c = ground arith

module _ (t : Tenant) (c : Cluster) (n : String) where
  -- The entry that a run leaves at the name `n`, as far as the cluster is concerned.
  abbrev pub expected : Option EnvVar
  expected =
      if token_var c == n
      then (if not (is_shown t c)
          then none
          else some (
              resourced (token_var c) (Cluster.get_git_template c).access_token secret_key_token
                (find_var (token_var c) (variables t))))
      else find_var n (variables t)

  ensure_removed :
      removes t c ≡ true
      → ensure_cluster_ci_variable t c
        ≡ ok (keep_if_changed t (remove_env_var (token_var c) (variables t)))
  unfolding ensure_cluster_ci_variable
  ensure_removed m = rw m

  ensure_updated :
      (q : List EnvVar × Bool)
      → removes t c ≡ false
      → update_env_var_value_from
          (token_var c)
          (Cluster.get_git_template c).access_token
          secret_key_token
          (variables t)
        ≡ ok q
      → ensure_cluster_ci_variable t c ≡ ok (keep_if_changed t q)
  unfolding ensure_cluster_ci_variable
  ensure_updated q m e = rw (m, e)

  ensure_panics :
      removes t c ≡ false
      → update_env_var_value_from
          (token_var c)
          (Cluster.get_git_template c).access_token
          secret_key_token
          (variables t)
        ≡ err panicked
      → ensure_cluster_ci_variable t c ≡ err panicked
  unfolding ensure_cluster_ci_variable
  ensure_panics m e = rw (m, e)

  expected-removed :
      removes t c ≡ true → expected ≡ (if token_var c == n then none else find_var n (variables t))
  expected-removed m = rw (sym (shown-removes t c) ∙ m)

  expected-updated :
      removes t c ≡ false
      → expected ≡ (
          if token_var c == n
          then some (
              resourced
                (token_var c)
                (Cluster.get_git_template c).access_token
                secret_key_token
                (find_var (token_var c) (variables t)))
          else find_var n (variables t))
  expected-updated m = rw (sym (shown-removes t c) ∙ m)

  expected_after :
      (q : List EnvVar × Bool)
      → (q.1 ≡ false → q.0 ≡ variables t)
      → find_var n q.0 ≡ expected
      → (r : Tenant × Bool) → ensure_cluster_ci_variable t c ≡ ok (keep_if_changed t q)
      → ensure_cluster_ci_variable t c ≡ ok r
      → find_var n (variables r.0) ≡ expected
  expected_after (list, changed) keep same r e h =
      subst (λ (x : Tenant × Bool). find_var n (variables x.0) ≡ expected)
        (ok-injective (sym e ∙ h))
        (ap (find_var n) (variables-keep_if_changed t list changed keep) ∙ same)

  -- For a tenant whose variables have distinct names, and where the run does not panic, a cluster's
  -- variable refers to its access token if the cluster is live, has a token, and both it and its tenant
  -- have the pipeline enabled; otherwise it is gone.
  -- Every other variable is as it was.
  pub find_var-ensure_cluster_ci_variable :
      HasDistinctNames (variables t)
      → (r : Tenant × Bool) → ensure_cluster_ci_variable t c ≡ ok r
      → find_var n (variables r.0) ≡ expected
  find_var-ensure_cluster_ci_variable d r h = elim (Bool-cases (removes t c)) [
    | inl m ↦
        expected_after (remove_env_var (token_var c) (variables t))
          (remove_env_var_unchanged (token_var c) (variables t))
          ((find_var-remove_env_var (token_var c) (variables t) d).0 n ∙ sym (expected-removed m)) r
          (ensure_removed m) h
    | inr m ↦
        elim (find_var-update_env_var_value_from (token_var c)
          (Cluster.get_git_template c).access_token secret_key_token (variables t)) [
            | inl (q, e, u) ↦
                expected_after q (unflagged u.1) (u.0 n ∙ sym (expected-updated m)) r
                  (ensure_updated q m e) h
            | inr (e, _, _, p) ↦ cc (ensure_panics m p, h)
          ]
  ]
