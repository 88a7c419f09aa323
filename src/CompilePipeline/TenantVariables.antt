-- ===== src/CompilePipeline/TenantVariables.antt =====
-- The three variables of the pipeline itself, which a run sets or removes.
use lieutenant_operator.Prelude.{
  String, ◌≡◌, sym, subst, ◌∙◌, ap, inl, inr, Bool, false, ◌||◌, Option, none, some, List, arith,
  ◌==◌, if◌then◌else◌,
}
use lieutenant_operator.Errors.{ok, err, panicked, ok-injective}
use lieutenant_operator.Api.GitRepo.{EnvVar}
use lieutenant_operator.Api.Cluster.{Cluster}
use lieutenant_operator.Api.Tenant.{Tenant}
use lieutenant_operator.EnvVars.{
  selector, update_env_var_value, update_env_var_value_from, remove_env_var,
}
use lieutenant_operator.EnvVars.Find.{find_var, HasDistinctNames}
use lieutenant_operator.EnvVars.Laws.{revalued, IsUpdate, unflagged, find_var-update_env_var_value}
use lieutenant_operator.EnvVars.SourceLaws.{
  resourced, find_var-update_env_var_value_from, update_env_var_value_from_panics,
}
use lieutenant_operator.EnvVars.Removal.{
  find_var-remove_env_var, remove_env_var_unchanged, remove_env_var-HasDistinctNames,
}
use lieutenant_operator.CompilePipeline.{
  api_url_var, api_token_var, clusters_var, secret_key_token, sorted_cluster_names, variables,
  keep_if_changed, ensure_ci_variables_absent, ensure_ci_variables,
}
use lieutenant_operator.CompilePipeline.Names.{join}
use lieutenant_operator.CompilePipeline.Variables.{variables-keep_if_changed}

module _ (api_url : String) (t : Tenant) (clusters : List Cluster) where
  -- The entry that a run leaves at the name `n`.
  abbrev pub wanted : String → Option EnvVar
  wanted n =
      if api_token_var == n
      then some (
          resourced api_token_var t.meta.name secret_key_token
            (find_var api_token_var (variables t)))
      else if clusters_var == n
      then some (
          revalued clusters_var (join (sorted_cluster_names clusters) " ")
            (find_var clusters_var (variables t)))
      else if api_url_var == n
      then some (revalued api_url_var api_url (find_var api_url_var (variables t)))
      else find_var n (variables t)

  module _ (a b c : List EnvVar × Bool) where
    chain :
        IsUpdate api_url_var
          (revalued api_url_var api_url (find_var api_url_var (variables t)))
          (variables t)
          a
        → IsUpdate clusters_var
            (revalued clusters_var
              (join (sorted_cluster_names clusters) " ")
              (find_var clusters_var a.0))
            a.0
            b
        → IsUpdate api_token_var
            (resourced api_token_var t.meta.name secret_key_token (find_var api_token_var b.0))
            b.0
            c
        → (n : String) → find_var n c.0 ≡ wanted n
    chain u v w n =
        w.0 n ∙ rw (v.0 api_token_var ∙ u.0 api_token_var, v.0 n, u.0 clusters_var, u.0 n)

  unchanged :
      (a b c : List EnvVar × Bool)
      → (a.1 ≡ false → a.0 ≡ variables t)
      → (b.1 ≡ false → b.0 ≡ a.0)
      → (c.1 ≡ false → c.0 ≡ b.0)
      → (a.1 || b.1) || c.1 ≡ false
      → c.0 ≡ variables t
  unchanged a b c u v w h = w (ground arith) ∙ v (ground arith) ∙ u (ground arith)

  ensure_set :
      (a b c : List EnvVar × Bool)
      → update_env_var_value api_url_var api_url (variables t) ≡ ok a
      → update_env_var_value clusters_var (join (sorted_cluster_names clusters) " ") a.0 ≡ ok b
      → update_env_var_value_from api_token_var t.meta.name secret_key_token b.0 ≡ ok c
      → ensure_ci_variables api_url t clusters ≡ ok (keep_if_changed t (c.0, (a.1 || b.1) || c.1))
  unfolding ensure_ci_variables
  ensure_set a b c p q s = rw (p, q, s)

  ensure_fails :
      (a b : List EnvVar × Bool)
      → update_env_var_value api_url_var api_url (variables t) ≡ ok a
      → update_env_var_value clusters_var (join (sorted_cluster_names clusters) " ") a.0 ≡ ok b
      → update_env_var_value_from api_token_var t.meta.name secret_key_token b.0 ≡ err panicked
      → ensure_ci_variables api_url t clusters ≡ err panicked
  unfolding ensure_ci_variables
  ensure_fails a b p q s = rw (p, q, s)

  -- Where the run does not panic, the API's URL, the names of the clusters in order and the tenant's
  -- token are set, and every other variable is as it was.
  pub find_var-ensure_ci_variables :
      (r : Tenant × Bool) (n : String)
      → ensure_ci_variables api_url t clusters ≡ ok r
      → find_var n (variables r.0) ≡ wanted n
  find_var-ensure_ci_variables r n h =
      let (a, p, u) = find_var-update_env_var_value api_url_var api_url (variables t) in
      let (b, q, v) =
        find_var-update_env_var_value clusters_var (join (sorted_cluster_names clusters) " ") a.0 in
      elim (find_var-update_env_var_value_from api_token_var t.meta.name secret_key_token b.0) [
        | inl (c, s, w) ↦
            subst (λ (x : Tenant × Bool). find_var n (variables x.0) ≡ wanted n)
              (ok-injective (sym (ensure_set a b c p q s) ∙ h))
              (ap (find_var n) (
                  variables-keep_if_changed t c.0 ((a.1 || b.1) || c.1)
                    (unchanged a b c (unflagged u.1) (unflagged v.1) (unflagged w.1)))
                ∙ chain a b c u v w n)
        | inr (e, _, _, s) ↦ cc (ensure_fails a b p q s, h)
      ]

  -- The panic of `update_env_var_value_from`, whatever was updated before it.
  pub ensure_ci_variables_panics :
      (e : EnvVar)
      → find_var api_token_var (variables t) ≡ some e
      → selector e ≡ err panicked
      → ensure_ci_variables api_url t clusters ≡ err panicked
  ensure_ci_variables_panics e f q =
      let (a, p, u) = find_var-update_env_var_value api_url_var api_url (variables t) in
      let (b, r, v) =
        find_var-update_env_var_value clusters_var (join (sorted_cluster_names clusters) " ") a.0 in
      ensure_fails a b p r (
        update_env_var_value_from_panics api_token_var t.meta.name secret_key_token b.0 e
          (v.0 api_token_var ∙ u.0 api_token_var ∙ f) q)

module _ (t : Tenant) where
  abbrev without_url : List EnvVar × Bool
  without_url = remove_env_var api_url_var (variables t)

  abbrev without_token : List EnvVar × Bool
  without_token = remove_env_var api_token_var without_url.0

  abbrev without_clusters : List EnvVar × Bool
  without_clusters = remove_env_var clusters_var without_token.0

  absent_unchanged :
      without_clusters.1 || (without_token.1 || without_url.1) ≡ false
      → without_clusters.0 ≡ variables t
  absent_unchanged h =
      remove_env_var_unchanged clusters_var without_token.0 (ground arith)
      ∙ remove_env_var_unchanged api_token_var without_url.0 (ground arith)
      ∙ remove_env_var_unchanged api_url_var (variables t) (ground arith)

  -- The run of a tenant with a disabled pipeline removes the three variables from a list of distinct
  -- names, and keeps the others.
  pub find_var-ensure_ci_variables_absent :
      (n : String)
      → HasDistinctNames (variables t)
      → find_var n (variables (ensure_ci_variables_absent t).0) ≡ (
          if clusters_var == n
          then none
          else if api_token_var == n
          then none
          else if api_url_var == n
          then none
          else find_var n (variables t))
  unfolding ensure_ci_variables_absent
  find_var-ensure_ci_variables_absent n d =
      let d' = remove_env_var-HasDistinctNames api_url_var (variables t) d in
      let d'' = remove_env_var-HasDistinctNames api_token_var without_url.0 d' in
      ap (find_var n) (
        variables-keep_if_changed t without_clusters.0
          (without_clusters.1 || (without_token.1 || without_url.1)) absent_unchanged)
      ∙ rw (
        (find_var-remove_env_var clusters_var without_token.0 d'').0 n,
        (find_var-remove_env_var api_token_var without_url.0 d').0 n,
        (find_var-remove_env_var api_url_var (variables t) d).0 n,
      )
