-- ===== src/Clusters/Reconcile/Orphans.antt =====
-- A cluster whose tenant cannot be had.
use lieutenant_operator.Prelude.{
  ℕ, ◌≡◌, refl, true, false, [], ◌∷◌, is_some, Bool-cases, inl, inr, arith,
}
use lieutenant_operator.Errors.{Error, Outcome, ok, err}
use lieutenant_operator.Api.Meta.{NamespacedName}
use lieutenant_operator.Api.Cluster.{Cluster, BootstrapToken}
use lieutenant_operator.Api.Object.{Object, cluster, tenant, git_repo}
use lieutenant_operator.Kube.{Client}
use lieutenant_operator.Pipeline.{Context, Result, Function, continue, fail, State}
use lieutenant_operator.Pipeline.Steps.{deep_copy_original, check_if_deleted}
use lieutenant_operator.Pipeline.Running.{run_pipeline_blocked}
use lieutenant_operator.Vault.Steps.{create_or_update_vault, handle_vault_deletion}
use lieutenant_operator.Clusters.{tenant_key, set_tenant_owner}
use lieutenant_operator.Clusters.Rbac.{create_cluster_rbac}
use lieutenant_operator.Clusters.Tokens.{token_of, noted, set_bootstrap_token}
use lieutenant_operator.Clusters.Reconcile.{
  Settings, Parts, context_of, early_steps, owner_step, template_step, specific_steps, later_steps,
  reconcile,
}

-- The object's tenant has this key.
abbrev Keyed : {W : Type 0} → NamespacedName → State W → Type 0
Keyed key s = tenant_key s.obj ≡ key

-- A step that goes on or fails, and leaves the object's tenant what it was.
abbrev Keeps : {W : Type 0} → NamespacedName → Function W → Type 0
Keeps {W = W} key f = (t : State W) → Keyed key t → ((f t).0.abort ≡ false) × Keyed key (f t).1

abort-ended :
    (r : Outcome (Unit {0}))
    → (let x : Result = elim r [ ok _ ↦ continue | err e ↦ fail e ] in x).abort ≡ false
abort-ended (ok u) = refl
abort-ended (err e) = refl

module _ {W : Type 0} (cli : Client W) (parts : Parts W) (fuel : ℕ) (key : NamespacedName) where
  rbac-Keeps : Keeps key (create_cluster_rbac cli parts.equal)
  unfolding create_cluster_rbac
  rbac-Keeps t k = (abort-ended _, k)

  check-Keeps : Keeps {W = W} key check_if_deleted
  unfolding check_if_deleted
  check-Keeps t k = ground (arith)

  noted_keeps :
      (t : State W) (c : Cluster) (r : Outcome BootstrapToken × W)
      → tenant_key (cluster c) ≡ key
      → Keyed key t
      → ((noted parts.clock t c r).0.abort ≡ false) × Keyed key (noted parts.clock t c r).1
  unfolding noted
  noted_keeps t c (ok b, w) k j = (refl, k)
  noted_keeps t c (err e, w) k j = (refl, j)

  token_keeps_at :
      (o : Object) (ctx : Context) (w : W)
      → tenant_key o ≡ key
      → ((set_bootstrap_token parts.clock (record { obj = o; ctx = ctx; world = w })).0.abort
          ≡ false)
        × Keyed key (set_bootstrap_token parts.clock (record { obj = o; ctx = ctx; world = w })).1
  unfolding set_bootstrap_token
  token_keeps_at (cluster c) ctx w k =
      noted_keeps (record { obj = cluster c; ctx = ctx; world = w }) c (token_of parts.clock c w) k
        k
  token_keeps_at (tenant x) ctx w k = (refl, k)
  token_keeps_at (git_repo g) ctx w k = (refl, k)

  create_vault-Keeps : Keeps key (create_or_update_vault cli parts.vault parts.process)
  unfolding create_or_update_vault
  create_vault-Keeps t k = elim (Bool-cases (t.ctx.use_vault)) [
    | inl y ↦ rw y (abort-ended _, k)
    | inr n ↦ rw n (refl, k)
  ]

  delete_vault-Keeps : Keeps key (handle_vault_deletion parts.vault parts.process fuel)
  unfolding handle_vault_deletion
  delete_vault-Keeps t k = elim (Bool-cases (t.ctx.use_vault)) [
    | inl y ↦ elim (Bool-cases (t.ctx.deleted)) [
      | inl d ↦ rw (y, d) (abort-ended _, k)
      | inr n ↦ rw (y, n) (refl, k)
    ]
    | inr n ↦ rw n (refl, k)
  ]

  module _ (gone : (w : W) → (e : Error) × (cli.get_tenant key w ≡ err e)) where
    owner_fails : (t : State W) → Keyed key t → is_some (set_tenant_owner cli t).0.err ≡ true
    unfolding set_tenant_owner
    owner_fails t k = let (e, h) = gone t.world in rw (set_tenant_owner, k, h) refl

    specific_steps_fail :
        (s : State W) → Keyed key s → is_some (specific_steps cli parts fuel s).0.err ≡ true
    unfolding specific_steps
    specific_steps_fail s k =
        run_pipeline_blocked (Keyed key) (early_steps cli parts fuel) (owner_step cli parts fuel)
          (template_step cli parts fuel ∷ []) s
          (
            rbac-Keeps,
            (
              check-Keeps,
              (
                (λ t j. token_keeps_at t.obj t.ctx t.world j),
                (create_vault-Keeps, (delete_vault-Keeps, tt)),
              ),
            ),
          )
          owner_fails k

    -- A run over a cluster that the server has, and whose tenant cannot be had, now or later in the
    -- run, ends with an error, whether the cluster is being deleted or not.
    pub reconcile_orphaned :
        (r : Settings) (request : NamespacedName) (c : Cluster) (w : W)
        → cli.get_cluster request w ≡ ok c
        → tenant_key (cluster c) ≡ key
        → is_some (reconcile cli parts fuel r request w).0.err ≡ true
    unfolding reconcile deep_copy_original
    reconcile_orphaned r request c w h k =
        rw (reconcile, h)
          (run_pipeline_blocked (Keyed key)
            (record { name = "copy original object"; f = deep_copy_original } ∷ [])
            (record { name = "cluster specific steps"; f = specific_steps cli parts fuel })
            (later_steps cli parts fuel) (record { obj = cluster c; ctx = context_of r; world = w })
            ((λ t j. (refl, j)), tt) specific_steps_fail k)
