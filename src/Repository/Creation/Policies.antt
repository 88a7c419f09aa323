-- ===== src/Repository/Creation/Policies.antt =====
-- The defaults of a repository's template, and that a second run has nothing to write.
use lieutenant_operator.Prelude.{
  deref, String, ◌≡◌, refl, ◌∙◌, ap, Bool, true, false, Option, none, some, arith, ◌==◌,
  if◌then◌else◌, Option-cases, inl, inr,
}
use lieutenant_operator.Errors.{ok}
use lieutenant_operator.Api.GitRepo.{
  GitRepo, GitRepoTemplate, empty_template, auto_repo_type, default_repo_type,
}
use lieutenant_operator.Api.Cluster.{Cluster}
use lieutenant_operator.Api.Object.{
  Object, cluster, tenant, git_repo, get_tenant_ref, get_display_name, get_deletion_policy,
  get_creation_policy, write_git_template, get_git_template,
}
use lieutenant_operator.Kube.{Client}
use lieutenant_operator.Pipeline.{Context, State, continue}
use lieutenant_operator.Repository.Creation.{
  first_set, defaulted, key_of, repo_for, align, create_or_update,
}

first_set_again : (a b c : String) → first_set (first_set a b c) b c ≡ first_set a b c
first_set_again a b c = ground (arith)

shown_again :
    (a b : String)
    → (if (if a == "" then b else a) == "" then b else (if a == "" then b else a))
      ≡ (if a == "" then b else a)
shown_again a b = ground (arith)

typed_again :
    (a : String)
    → (if (if a == default_repo_type then auto_repo_type else a) == default_repo_type
        then auto_repo_type
        else (if a == default_repo_type then auto_repo_type else a))
      ≡ (if a == default_repo_type then auto_repo_type else a)
typed_again a = ground (arith)

-- Defaults that were applied once change nothing when they are applied again.
defaulted_idem :
    (o : Object) (ctx : Context) (t : GitRepoTemplate)
    → defaulted o ctx (defaulted o ctx t) ≡ defaulted o ctx t
unfolding defaulted
defaulted_idem o ctx t = rw (
  shown_again t.display_name (get_display_name o),
  first_set_again t.deletion_policy (get_deletion_policy o) ctx.default_deletion_policy,
  first_set_again t.creation_policy (get_creation_policy o) ctx.default_creation_policy,
  typed_again t.repo_type,
)

-- The object after the step.
abbrev aligned : Context → Object → Object
aligned ctx o = write_git_template (defaulted o ctx (get_git_template o)) o

kept :
    (o : Option GitRepoTemplate) (d t : GitRepoTemplate)
    → o ≡ some t
    → deref (elim o [ none ↦ none | some _ ↦ some d ]) empty_template ≡ d
kept none d t e = cc
kept (some u) d t e = refl

-- The template of a cluster after the step, which keeps a template only where it had one.
aligned_with_template :
    (ctx : Context) (c : Cluster) (t : GitRepoTemplate)
    → c.spec.git_repo_template ≡ some t
    → get_git_template (aligned ctx (cluster c))
      ≡ defaulted (cluster c) ctx (get_git_template (cluster c))
aligned_with_template ctx c t e =
    kept c.spec.git_repo_template (defaulted (cluster c) ctx (get_git_template (cluster c))) t e

aligned_without_template :
    (ctx : Context) (c : Cluster)
    → c.spec.git_repo_template ≡ none
    → get_git_template (aligned ctx (cluster c)) ≡ get_git_template (cluster c)
aligned_without_template ctx c n = rw n

cluster_again :
    (ctx : Context) (c : Cluster)
    → defaulted (cluster c) ctx (get_git_template (aligned ctx (cluster c)))
      ≡ defaulted (cluster c) ctx (get_git_template (cluster c))
cluster_again ctx c = elim (Option-cases c.spec.git_repo_template) [
  | inl n ↦ ap (defaulted (cluster c) ctx) (aligned_without_template ctx c n)
  | inr (t, e) ↦
      ap (defaulted (cluster c) ctx) (aligned_with_template ctx c t e)
      ∙ defaulted_idem (cluster c) ctx (get_git_template (cluster c))
]

defaulted-aligned :
    (ctx : Context) (o : Object)
    → defaulted (aligned ctx o) ctx (get_git_template (aligned ctx o))
      ≡ defaulted o ctx (get_git_template o)
unfolding defaulted
defaulted-aligned ctx (cluster c) = cluster_again ctx c
defaulted-aligned ctx (tenant t) = defaulted_idem (tenant t) ctx (get_git_template (tenant t))
defaulted-aligned ctx (git_repo g) = ground (arith)

tenant_ref-aligned :
    (ctx : Context) (o : Object) → get_tenant_ref (aligned ctx o) ≡ get_tenant_ref o
tenant_ref-aligned ctx (cluster c) = refl
tenant_ref-aligned ctx (tenant t) = refl
tenant_ref-aligned ctx (git_repo g) = refl

key_of-aligned : (ctx : Context) (o : Object) → key_of (aligned ctx o) ≡ key_of o
key_of-aligned ctx (cluster c) = refl
key_of-aligned ctx (tenant t) = refl
key_of-aligned ctx (git_repo g) = refl

write_again :
    (a : GitRepoTemplate) (o : Object)
    → write_git_template a (write_git_template a o) ≡ write_git_template a o
write_again a (cluster c) = elim (Option-cases c.spec.git_repo_template) [
  | inl n ↦ rw n
  | inr (t, e) ↦ rw e
]
write_again a (tenant t) = refl
write_again a (git_repo g) = refl

module _ {W : Type 0} (cli : Client W)
    (template_equal : GitRepoTemplate → GitRepoTemplate → Bool) where
  -- After the step the object asks for the repository that it asked for: where the server has that
  -- repository, another run of the step passes and writes nothing, neither to the object nor to the
  -- server.
  pub create_or_update_settled :
      ((t : GitRepoTemplate) → template_equal t t ≡ true)
      → (s : State W) (old : GitRepo) (w : W) → (get_tenant_ref s.obj == "") ≡ false
      → cli.get_git_repo (key_of s.obj) w ≡ ok old
      → old.spec.git_repo_template ≡ defaulted s.obj s.ctx (get_git_template s.obj)
      → create_or_update cli template_equal
          (record ((create_or_update cli template_equal s).1) { world = w })
        ≡ (continue, record ((create_or_update cli template_equal s).1) { world = w })
  unfolding create_or_update repo_for align
  create_or_update_settled same s old w n g e = rw (
    n,
    tenant_ref-aligned s.ctx s.obj,
    n,
    key_of-aligned s.ctx s.obj,
    g,
    defaulted-aligned s.ctx s.obj,
    e,
    same (defaulted s.obj s.ctx (get_git_template s.obj)),
    write_again (defaulted s.obj s.ctx (get_git_template s.obj)) s.obj,
  )
