-- ===== src/Repository/Creation.antt =====
-- controllers/gitrepo/utils.go: the repository object of a cluster or a tenant, and what comes back.
pub mod Policies
pub mod Requeues
use lieutenant_operator.Prelude.{
  String, Bool, true, false, not, Option, none, some, List, [], ◌∷◌, ◌==◌, if◌then◌else◌,
}
use lieutenant_operator.Errors.{Error, Outcome, ok, err, msg, wrap, is_not_found}
use lieutenant_operator.Api.Meta.{ObjectMeta, NamespacedName}
use lieutenant_operator.Api.GitRepo.{
  GitRepo, GitRepoTemplate, GitRepoSpec, auto_repo_type, default_repo_type, unmanaged_repo_type,
}
use lieutenant_operator.Api.Object.{
  Object, cluster, tenant, git_repo, get_meta, get_tenant_ref, get_display_name,
  get_deletion_policy, get_creation_policy, get_git_template, write_git_template,
  set_git_repo_url_and_host_keys,
}
use lieutenant_operator.Kube.{Client, Resource}
use lieutenant_operator.Pipeline.{Context, Result, State, Function, continue, fail}

-- The first of the three that is not empty, or the last.
abbrev pub first_set : String → String → String → String
first_set a b c = if not (a == "") then a else if b == "" then c else b

-- The template with what is not set in it taken from the object and the operator's defaults.
unfoldable pub defaulted : Object → Context → GitRepoTemplate → GitRepoTemplate
defaulted o ctx t = record t {
  display_name = if t.display_name == "" then get_display_name o else t.display_name;
  deletion_policy = first_set t.deletion_policy (get_deletion_policy o) ctx.default_deletion_policy;
  creation_policy = first_set t.creation_policy (get_creation_policy o) ctx.default_creation_policy;
  repo_type = if t.repo_type == default_repo_type then auto_repo_type else t.repo_type;
}

-- `GroupVersionKind().Kind`
abbrev pub kind_of : Object → String
kind_of (cluster c) = "Cluster"
kind_of (tenant t) = "Tenant"
kind_of (git_repo g) = "GitRepo"

abbrev pub key_of : Object → NamespacedName
key_of o = record { namespace = (get_meta o).namespace; name = (get_meta o).name }

-- The object that is compared and created.
unfoldable pub repo_for : Object → GitRepoTemplate → GitRepo
repo_for o template = record {
  meta = record {
    name = (get_meta o).name;
    namespace = (get_meta o).namespace;
    labels = [];
    annotations = [];
    finalizers = [];
    owner_references = record { kind = kind_of o; name = (get_meta o).name } ∷ [];
    deletion_timestamp = none;
    creation_timestamp = 0;
  };
  spec = record { git_repo_template = template; tenant_ref = get_tenant_ref o };
  status = record {
    phase = none;
    type = "";
    url = "";
    host_keys = "";
    last_applied_ci_variables = "";
    generated_deploy_keys = [];
  };
}

abbrev pub ended : Option Error → Result
ended none = continue
ended (some e) = fail e

-- The second parameter is `equality.Semantic.DeepEqual` at templates.
module _ {W : Type 0} (cli : Client W)
    (template_equal : GitRepoTemplate → GitRepoTemplate → Bool) where
  abbrev pub set_template : GitRepoTemplate → GitRepo → GitRepo
  set_template t g = record g { spec = record (g.spec) { git_repo_template = t } }

  -- What happens to the object on the server, found or not.
  unfoldable pub align : GitRepo → Outcome GitRepo → W → Option Error × W
  align repo (err e) w =
      if is_not_found e then cli.create (Resource.custom (git_repo repo)) w else (some e, w)
  align repo (ok old) w =
      if not (template_equal old.spec.git_repo_template repo.spec.git_repo_template)
      then cli.update (Resource.custom (git_repo (set_template repo.spec.git_repo_template old))) w
      else (none, w)

  unfoldable pub create_or_update : Function W
  unfolding defaulted repo_for align
  create_or_update s =
      let template = get_git_template s.obj in
      if get_tenant_ref s.obj == ""
      then (
        record { abort = true; err = some (msg "the tenant name is empty"); requeue = false },
        record s {
          obj =
              write_git_template
                (record template {
                  display_name =
                      if template.display_name == ""
                      then get_display_name s.obj
                      else template.display_name;
                })
                s.obj;
        },
      )
      else (let t = defaulted s.obj s.ctx template in
          let repo = repo_for s.obj t in
          let (e, w) = align repo (cli.get_git_repo (key_of s.obj) s.world) s.world in
          (ended e, record s { obj = write_git_template t s.obj; world = w }))

  unfoldable pub update_url_and_host_keys : Function W
  update_url_and_host_keys s = elim (cli.get_git_repo (key_of s.obj) s.world) [
    | err e ↦
        if is_not_found e
        then (continue, s)
        else (record { abort = true; err = some (wrap "get gitrepo" e); requeue = false }, s)
    | ok g ↦
        if not (g.spec.git_repo_template.repo_type == unmanaged_repo_type)
        then (
          continue,
          record s { obj = set_git_repo_url_and_host_keys g.status.url g.status.host_keys s.obj },
        )
        else (continue, s)
  ]
