-- ===== src/Api/GitRepo.antt =====
-- api/v1alpha1/gitrepo_types.go
use lieutenant_operator.Prelude.{String, Bool, Option, List, [], Dict}
use lieutenant_operator.Api.Meta.{ObjectMeta}

abbrev pub auto_repo_type : String
auto_repo_type = "auto"

abbrev pub unmanaged_repo_type : String
unmanaged_repo_type = "unmanaged"

abbrev pub default_repo_type : String
default_repo_type = ""

abbrev pub archive_policy : String
archive_policy = "Archive"

abbrev pub delete_policy : String
delete_policy = "Delete"

abbrev pub adopt_policy : String
adopt_policy = "Adopt"

abbrev pub created : String
created = "created"

abbrev pub creating : String
creating = "creating"

abbrev pub failed : String
failed = "failed"

pub record SecretKeySelector : Type 0 where
  pub name : String
  pub key : String
  pub optional : Option Bool

-- The selector that `ValueFrom` points at may be nil.
pub record EnvVarSource : Type 0 where
  pub secret_key_ref : Option SecretKeySelector

pub record EnvVarGitlabOptions : Type 0 where
  pub description : String
  pub protected : Bool
  pub masked : Bool
  pub raw : Bool

pub record EnvVar : Type 0 where
  pub name : String
  pub value : String
  pub value_from : Option EnvVarSource
  pub gitlab_options : EnvVarGitlabOptions

pub record DeployKey : Type 0 where
  pub type : String
  pub key : String
  pub write_access : Bool

pub record DeployKeyTemplate : Type 0 where
  pub type : String
  pub write_access : Bool

pub record DeployKeyStatus : Type 0 where
  pub deploy_key : DeployKey
  pub secret_ref : String

pub record SecretReference : Type 0 where
  pub name : String
  pub namespace : String

pub record GitRepoTemplate : Type 0 where
  pub api_secret_ref : SecretReference
  pub deploy_keys : Dict DeployKey
  pub generated_deploy_keys : Dict DeployKeyTemplate
  pub path : String
  pub repo_name : String
  pub repo_type : String
  pub display_name : String
  pub template_files : Dict String
  pub deletion_policy : String
  pub creation_policy : String
  pub access_token : String
  pub ci_variables : List EnvVar

-- `GitRepoTemplate{}`
abbrev pub empty_template : GitRepoTemplate
empty_template = record {
  api_secret_ref = record { name = ""; namespace = "" };
  deploy_keys = [];
  generated_deploy_keys = [];
  path = "";
  repo_name = "";
  repo_type = default_repo_type;
  display_name = "";
  template_files = [];
  deletion_policy = "";
  creation_policy = "";
  access_token = "";
  ci_variables = [];
}

pub record GitRepoSpec : Type 0 where
  pub git_repo_template : GitRepoTemplate
  pub tenant_ref : String

pub record GitRepoStatus : Type 0 where
  pub phase : Option String
  pub type : String
  pub url : String
  pub host_keys : String
  pub last_applied_ci_variables : String
  pub generated_deploy_keys : Dict DeployKeyStatus

pub record GitRepo : Type 0 where
  pub meta : ObjectMeta
  pub spec : GitRepoSpec
  pub status : GitRepoStatus
