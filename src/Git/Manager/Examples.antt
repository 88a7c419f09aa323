-- ===== src/Git/Manager/Examples.antt =====
-- The theorems on the Git manager at a secret and a repository.
use lieutenant_operator.Prelude.{String, ◌≡◌, refl, false, none, [], ◌∷◌, trim_space}
use lieutenant_operator.Errors.{ok}
use lieutenant_operator.Api.GitRepo.{GitRepo, DeployKey, DeployKeyStatus, empty_template}
use lieutenant_operator.Git.Urls.{Url, UrlLibrary, before_first, after_last, has_char}
use lieutenant_operator.Git.Manager.{bare_host, parse_ssh_endpoint}
use lieutenant_operator.Git.Manager.Endpoints.{HostOf, parse_ssh_endpoint_lem}

abbrev pub path_only : String → Url
path_only p = record {
  scheme = "";
  user = "";
  host = "";
  path = p;
  raw_path = "";
  query = "";
  fragment = "";
}

-- A text without a scheme is a path.
abbrev pub urls : UrlLibrary
urls = record { parse = λ s. ok (path_only s); to_text = λ u. u.path }

parses : parse_ssh_endpoint urls " git@ssh.example.com/group " ≡ ok "ssh.example.com"
unfolding parse_ssh_endpoint bare_host before_first after_last has_char trim_space
parses = refl

parse_ssh_endpoint_lem_example :
    (u : Url) × (urls.parse "git@ssh.example.com/group" ≡ ok u) × HostOf u "ssh.example.com"
unfolding trim_space
parse_ssh_endpoint_lem_example =
    parse_ssh_endpoint_lem urls " git@ssh.example.com/group " "ssh.example.com" refl parses

abbrev pub rsa : String → DeployKey
rsa k = record { type = "ssh-rsa"; key = k; write_access = false }

abbrev pub note : String → DeployKeyStatus
note k = record { deploy_key = rsa k; secret_ref = "s" }

abbrev pub repository : GitRepo
repository = record {
  meta = record {
    name = "c-one";
    namespace = "syn";
    labels = [];
    annotations = [];
    finalizers = [];
    owner_references = [];
    deletion_timestamp = none;
    creation_timestamp = 0;
  };
  spec = record {
    git_repo_template = record empty_template { deploy_keys = ("flux", rsa "AAA") ∷ [] };
    tenant_ref = "t-acme";
  };
  status = record {
    phase = none;
    type = "";
    url = "";
    host_keys = "";
    last_applied_ci_variables = "";
    generated_deploy_keys = ("flux", note "BBB") ∷ ("argo", note "CCC") ∷ [];
  };
}
