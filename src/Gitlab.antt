-- ===== src/Gitlab.antt =====
-- git/gitlab/gitlab.go: one project on a GitLab server. The client library is the parameter `Api`; a
-- method works on the receiver and the server together, a `Session`.
pub mod Keys
pub mod Lifecycle
pub mod Files
pub mod Tokens
pub mod Variables
pub mod Implementation
pub mod Examples
use lieutenant_operator.Prelude.{
  ℕ, String, ◌≡◌, Bool, true, false, not, ◌&&◌, ◌||◌, Option, none, some, List, [], ◌∷◌, ◌==◌, ◌<>◌,
  Dict, lookup, if◌then◌else◌,
}
use lieutenant_operator.Errors.{
  Error, Outcome, ok, err, msg, panicked, repo_not_found, is_not_found,
}
use lieutenant_operator.Exec
use lieutenant_operator.Exec.{Exec, pure, lift}
use lieutenant_operator.Git.Urls.{Url}
use lieutenant_operator.Api.GitRepo.{DeployKey, archive_policy, delete_policy}

-- The parts of GitLab's answers that the code reads.
pub record Project : Type 0 where
  pub id : ℕ
  pub description : String

pub record ProjectDeployKey : Type 0 where
  pub id : ℕ
  pub title : String
  pub key : String
  pub can_push : Bool

-- `gitlab.CommitActionOptions`
pub record CommitAction : Type 0 where
  pub deletes : Bool
  pub file_path : String
  pub content : String

-- A day of an expiry date, and an instant, are both in seconds.
pub record AccessToken : Type 0 where
  pub id : ℕ
  pub token : String
  pub active : Bool
  pub revoked : Bool
  pub expires_at : Option ℕ

pub record ProjectVariable : Type 0 where
  pub key : String
  pub value : String
  pub description : String
  pub protected : Bool
  pub masked : Bool
  pub raw : Bool

-- What `UpdateVariable` and `CreateVariable` are given. A pointer that is nil leaves the field alone.
pub record VariableOptions : Type 0 where
  pub value : String
  pub description : Option String
  pub protected : Option Bool
  pub masked : Option Bool
  pub raw : Option Bool

-- gitlab.com/gitlab-org/api/client-go over a world `W`. The first number is the project's id.
pub record Api (W : Type 0) : Type 0 where
  pub get_project : String → W → Outcome Project
  pub get_namespace : String → W → Outcome ℕ
  -- The repository's name (as path and name), its description and the namespace's id.
  pub create_project : String → String → ℕ → W → Outcome Project × W
  pub edit_project : ℕ → String → W → Outcome Project × W
  pub archive_project : ℕ → W → Option Error × W
  pub delete_project : ℕ → W → Option Error × W
  pub list_deploy_keys : ℕ → W → Outcome (List ProjectDeployKey)
  -- Title, key and whether it may push.
  pub add_deploy_key : ℕ → String → String → Bool → W → Option Error × W
  pub delete_deploy_key : ℕ → ℕ → W → Option Error × W
  -- The paths of one page, and the number of the next, 0 on the last page.
  pub list_tree : ℕ → ℕ → W → Outcome (List String × ℕ)
  pub create_commit : ℕ → List CommitAction → W → Option Error × W
  pub list_access_tokens : ℕ → W → Outcome (List (Option AccessToken))
  -- Name and expiry.
  pub create_access_token : ℕ → String → ℕ → W → Outcome AccessToken × W
  pub list_variables : ℕ → W → Outcome (List (Option ProjectVariable))
  pub remove_variable : ℕ → String → W → Option Error × W
  pub update_variable : ℕ → String → VariableOptions → W → Option Error × W
  pub create_variable : ℕ → String → VariableOptions → W → Option Error × W
  -- The time of `g.ops.Now()`.
  pub now : W → ℕ

-- The receiver, with those of its options that the methods read.
pub record Gitlab : Type 0 where
  pub token : String
  pub url : Url
  pub ssh_host : String
  pub project : Option Project
  pub deploy_keys : Dict DeployKey
  pub path : String
  pub repo_name : String
  pub display_name : String
  pub template_files : Dict String
  pub deletion_policy : String

pub record Session (W : Type 0) : Type 0 where
  pub git : Gitlab
  pub world : W

abbrev pub unit_of : Option Error → Outcome (Unit {0})
unit_of none = ok tt
unit_of (some e) = err e

module _ {W : Type 0} where
  -- A call that reads, and two forms of call that write.
  abbrev pub reading : {A : Type 0} → (W → Outcome A) → Exec (Session W) A
  reading f s = (f s.world, s)

  abbrev pub writing : {A : Type 0} → (W → Outcome A × W) → Exec (Session W) A
  writing f s = let (r, w) = f s.world in (r, record s { world = w })

  abbrev pub doing : (W → Option Error × W) → Exec (Session W) (Unit {0})
  doing f s = let (e, w) = f s.world in (unit_of e, record s { world = w })

  -- `g.project.ID`, which panics before the project is read or created.
  abbrev pub project_id : Exec (Session W) ℕ
  project_id s = (elim s.git.project [ none ↦ err panicked | some p ↦ ok p.id ], s)

  abbrev pub set_project : Project → Exec (Session W) (Unit {0})
  set_project p s = (ok tt, record s { git = record (s.git) { project = some p } })

  -- The receiver itself.
  abbrev pub this : Exec (Session W) Gitlab
  this s = (ok s.git, s)
