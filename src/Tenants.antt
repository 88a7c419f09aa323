-- ===== src/Tenants.antt =====
-- controllers/tenant: the steps of a tenant that write to the tenant itself.
pub mod Files
pub mod Access
pub mod Templates
pub mod Reconcile
pub mod Examples
use lieutenant_operator.Prelude.{
  String, Bool, true, false, not, ◌&&◌, ◌||◌, Option, none, some, List, [], ◌∷◌, ◌==◌, ◌<>◌, Dict,
  lookup, insert, delete, is_some, if◌then◌else◌,
}
use lieutenant_operator.Errors.{Outcome, ok, err, msg, wrap}
use lieutenant_operator.Api.GitRepo.{GitRepoTemplate, empty_template}
use lieutenant_operator.Api.Cluster.{Cluster}
use lieutenant_operator.Api.Tenant.{Tenant, TenantSpec, get_compile_pipeline_spec, set_git_template}
use lieutenant_operator.Api.Tenant
use lieutenant_operator.Api.Object.{Object, tenant, get_git_template, write_git_template}
use lieutenant_operator.Kube.{Client}
use lieutenant_operator.Gitlab.Files.{deletion_magic_string}
use lieutenant_operator.Pipeline.{Result, State, Function, continue, fail}

abbrev pub common_class_name : String
common_class_name = "common"

abbrev pub common_class_file : String
common_class_file = "common.yml"

-- `fmt.Sprintf(ClusterClassContent, tenant, CommonClassName)`
abbrev pub cluster_class_content : String → String
cluster_class_content tenant_name =
    "classes:\n- " <> tenant_name <> "." <> common_class_name <> "\n"

abbrev pub cluster_file : Cluster → String
cluster_file c = c.meta.name <> ".yml"

-- The template's files, and those of before that are not among them.
abbrev pub Files : Type 0
Files = Dict String × Dict String

abbrev pub put_file : String → String → Files → Files
put_file name content (files, old) = (insert name content files, delete name old)

unfoldable pub put_clusters : String → List Cluster → Files → Files
put_clusters content [] f = f
put_clusters content (c ∷ cs) f = put_clusters content cs (put_file (cluster_file c) content f)

unfoldable pub put_all : Dict String → Files → Files
put_all [] f = f
put_all ((name, content) ∷ rest) f = put_all rest (put_file name content f)

-- What becomes of a file that nothing asks for any more.
abbrev pub left_over : String → String
left_over name = if name == common_class_file then "" else deletion_magic_string

unfoldable pub put_left_overs : Dict String → Dict String → Dict String
put_left_overs [] files = files
put_left_overs ((name, content) ∷ old) files =
    put_left_overs old (insert name (left_over name) files)

unfoldable pub tenant_files : Tenant → List Cluster → Dict String → Dict String
unfolding put_clusters put_all put_left_overs
tenant_files t clusters old =
    let (files, rest) = put_clusters (cluster_class_content t.meta.name) clusters ([], old) in
    let (files', rest') =
      if (get_compile_pipeline_spec t).enabled
      then put_all (get_compile_pipeline_spec t).pipeline_files (files, rest)
      else (files, rest) in
    put_left_overs rest' files'

abbrev pub set_files : Dict String → Tenant → Tenant
set_files files t =
    set_git_template (record (Tenant.get_git_template t) { template_files = files }) t

module _ {W : Type 0} (cli : Client W) where
  -- Where the list of clusters cannot be had, the files are gone from the object, which is not written.
  unfoldable pub update_tenant_git_repo : Function W
  unfolding tenant_files
  update_tenant_git_repo s = elim s.obj [
    | tenant t ↦ elim (cli.list_clusters t.meta.namespace t.meta.name s.world) [
      | err e ↦ (fail (wrap "list clusters" e), record s { obj = tenant (set_files [] t) })
      | ok clusters ↦ (
        continue,
        record s {
          obj =
              tenant
                (set_files (tenant_files t clusters (Tenant.get_git_template t).template_files) t);
        },
      )
    ]
    | _ ↦ (fail (msg "object is not a tenant"), s)
  ]

module _ {W : Type 0} where
  unfoldable pub add_default_class_file : Function W
  add_default_class_file s =
      let template = get_git_template s.obj in
      if is_some (lookup common_class_file template.template_files)
      then (continue, record s { obj = write_git_template template s.obj })
      else (
        continue,
        record s {
          obj =
              write_git_template
                (record template {
                  template_files = insert common_class_file "" template.template_files;
                })
                s.obj;
        },
      )

  unfoldable pub set_global_git_repo_url : Function W
  set_global_git_repo_url s = elim s.obj [
    | tenant t ↦
        if t.spec.global_git_repo_url == "" && not (s.ctx.default_global_git_repo_url == "")
        then (
          continue,
          record s {
            obj = tenant (record t {
              spec = record (t.spec) { global_git_repo_url = s.ctx.default_global_git_repo_url };
            });
          },
        )
        else (continue, s)
    | _ ↦ (fail (msg "object is not a tenant"), s)
  ]
