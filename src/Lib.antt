-- ===== src/Lib.antt =====
-- lieutenant-operator: the Kubernetes operator that keeps the Git repositories, accounts and CI
-- pipelines of clusters and tenants.
--
-- The program's parts. Controllers (controllers/) read one object, run steps over it and write it back.
-- The steps run in the pipeline (pipeline/), whose `Common` handles deletion, finalizers, labels and the
-- final write. A cluster's steps also keep its token in Vault (vault/). A repository object (GitRepo) is
-- carried out on GitLab (git/gitlab/, git/manager/). The compile pipeline controller writes CI variables
-- into a tenant's repository template, which the repository's controller later sends to GitLab.
--
-- Files.
-- - Prelude: numbers, strings, options, and maps as association lists, which the other files share;
--   with path.Join and path.Dir (Paths), int and strconv (Integers, Decimals), and sorting (Sorting).
-- - Errors, Exec: Go's error results as values (`Outcome`) and calls that change a world (`Exec`).
--   A nil pointer or an index out of range is the error `panicked`.
-- - Api: the custom resources of api/v1alpha1; the interface `Object` of pipeline/pipeline.go is the sum
--   of the three kinds that implement it.
-- - Kube: the Kubernetes client and the functions of its library, as records over any world `W`, with
--   the laws of the finalizer functions that theorems rely on. Kube/Memory fills them for examples.
-- - Pipeline: `RunPipeline` as `run_pipeline`, over a state of the object, the context and the world.
--   Pipeline/Steps has the steps and `common`; Running, Updating, Protection and Labels have theorems.
-- - EnvVars: controllers/util.go, with Find, Laws, SourceLaws and Removal on the entry of each name.
-- - CompilePipeline: controllers/tenant_compile_pipeline_controller.go. The variables are pure functions
--   of a tenant; CompilePipeline/Reconcile has the order of the writes.
-- - Git/Helpers: git/helpers/helpers.go, `CompareKeys` as `compare_keys`.
-- - Gitlab: git/gitlab/gitlab.go. The client library is the parameter `Api`; a method works on a
--   `Session`, the receiver with the server. Lifecycle is the project itself, Keys the deploy keys,
--   Files the template files, Tokens the access tokens, and Variables the CI variables, with what
--   GitLab documents of them in Unmanaged. Implementation makes a `Repo` of it, with
--   Contract, Existence and CiVariables on what the other parts get from it.
-- - Repository: controllers/gitrepo. Steps has `Steps` as `steps`, over the interface `Repo` of
--   git/manager/manager.go; Templates, DeployKeys, Tokens, CiVariables and Values have its parts, and
--   Creation what the controllers of clusters and tenants do with the repository object.
--   Reconcile and Watchers are controllers/gitrepo_controller.go and its index of secrets.
-- - Git/Manager: git/manager/manager.go, `NewRepo`, `GetGitClient` and `parseSSHEndpoint` over the
--   parameter `UrlLibrary` of Git/Urls. Endpoints has the theorems.
-- - Vault: vault/client.go and vault/reconcile_steps.go over the parameter `Logical`, Vault's library.
--   Client adds and removes secrets, Versions is `getVersionList`, Steps the two steps of a cluster with
--   the client of the package, which is a part of the world. Adding, Removal, Ending, Removed, Tokens
--   and Retaining have theorems.
-- - Tenants: the steps of controllers/tenant on files and URLs; Access has the role, its binding and the
--   account, Templates the template, and Reconcile the sequence and controllers/tenant_controller.go.
-- - Clusters: the steps of controllers/cluster; Tokens, Rbac and Templates are its files
--   bootstrap_token.go, rbac.go and template.go, and Reconcile has the sequence of the steps and
--   controllers/cluster_controller.go.
-- - Metrics: metrics/, the collectors as functions of the server to lists of metrics; Labels has the labels
--   of facts and Valid what is proved of them.
-- - The modules whose names end in Examples apply the theorems at concrete input.
--
-- Bounds and fuel. Go's maps are lists in the order of some walk over the map. Loops over slices and maps
-- are structural. The loop over the pages of a repository runs on fuel, and
-- Gitlab/Files/Paging and Committing show that fuel for the last page's number is enough. The removal of
-- secrets from Vault runs on fuel for the depth of the directories, which Vault/Ending shows to be
-- enough; where it is spent the step has the error `out_of_fuel`, which the code does not have. Version
-- numbers are integers of 64 bits, out of whose range `atoi` has no answer. Times are seconds, in natural
-- numbers; where the code subtracts ten days from now, the model adds them on the other side.
--
-- Not modelled: logging, the help texts of metrics, the main program, the registration of controllers,
-- and generated code.
pub mod Prelude
pub mod Errors
pub mod Exec
pub mod Api
pub mod Kube
pub mod Pipeline
pub mod EnvVars
pub mod CompilePipeline
pub mod Git
pub mod Gitlab
pub mod Repository
pub mod Tenants
pub mod Vault
pub mod Metrics
pub mod Clusters
