-- ===== src/Api/Cluster.antt =====
-- api/v1alpha1/cluster_types.go
use lieutenant_operator.Prelude.{ℕ, String, Bool, Option, [], Dict, deref, ℤ, negsuc}
use lieutenant_operator.Api.Meta.{ObjectMeta}
use lieutenant_operator.Api.GitRepo.{GitRepoTemplate, empty_template}

pub record ClusterSpec : Type 0 where
  pub display_name : String
  pub git_repo_url : String
  pub git_host_keys : String
  pub git_repo_template : Option GitRepoTemplate
  pub tenant_ref : String
  pub tenant_git_repo_revision : String
  pub global_git_repo_revision : String
  pub token_life_time : String
  pub facts : Dict String
  pub deletion_policy : String
  pub creation_policy : String
  pub enable_compile_pipeline : Bool

pub record BootstrapToken : Type 0 where
  pub token : String
  pub valid_until : ℕ
  pub token_valid : Bool

pub record CompileMetaVersionInfo : Type 0 where
  pub url : String
  pub git_sha : String
  pub version : String
  pub path : String

pub record CompileMetaInstanceVersionInfo : Type 0 where
  pub info : CompileMetaVersionInfo
  pub component : String

-- The last compilation, in seconds since 1970, of which the zero time is before.
pub record CompileMeta : Type 0 where
  pub last_compile : ℤ
  pub commodore_build_info : Dict String
  pub global : CompileMetaVersionInfo
  pub tenant : CompileMetaVersionInfo
  pub packages : Dict CompileMetaVersionInfo
  pub instances : Dict CompileMetaInstanceVersionInfo

abbrev pub no_version_info : CompileMetaVersionInfo
no_version_info = record { url = ""; git_sha = ""; version = ""; path = "" }

-- The zero value, with the zero of `metav1.Time`.
abbrev pub no_compile_meta : CompileMeta
no_compile_meta = record {
  last_compile = negsuc 62135596799;
  commodore_build_info = [];
  global = no_version_info;
  tenant = no_version_info;
  packages = [];
  instances = [];
}

pub record ClusterStatus : Type 0 where
  pub bootstrap_token : Option BootstrapToken
  pub facts : Dict String
  pub compile_meta : CompileMeta

pub record Cluster : Type 0 where
  pub meta : ObjectMeta
  pub spec : ClusterSpec
  pub status : ClusterStatus

-- `GetGitTemplate`: where the template is nil the caller gets a fresh one, which is not stored.
abbrev pub get_git_template : Cluster → GitRepoTemplate
get_git_template c = deref c.spec.git_repo_template empty_template

-- `SetGitRepoURLAndHostKeys`
abbrev pub set_git_repo_url_and_host_keys : String → String → Cluster → Cluster
set_git_repo_url_and_host_keys url host_keys c = record c {
  spec = record (c.spec) { git_repo_url = url; git_host_keys = host_keys };
}
