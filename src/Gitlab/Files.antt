-- ===== src/Gitlab/Files.antt =====
-- The template files of git/gitlab/gitlab.go and the types of git/manager/manager.go they use. A map is
-- a list here, in the order in which Go happens to walk it.
pub mod Paging
pub mod Committing
pub mod Changes
use lieutenant_operator.Prelude.{
  ℕ, zero, suc, String, Bool, true, false, not, ◌&&◌, Option, none, some, List, [], ◌∷◌, ◌++◌, map,
  ◌==◌, Dict, contains, if◌then◌else◌,
}
use lieutenant_operator.Errors.{Error, Outcome, ok, err, msg, is_not_found}
use lieutenant_operator.Exec.{Exec, pure, lift, ◌>>=◌, ◌>>◌}
use lieutenant_operator.Gitlab.{CommitAction, Api, Session, doing, project_id, this}

-- `manager.DeletionMagicString`
abbrev pub deletion_magic_string : String
deletion_magic_string = "{delete}"

-- `manager.CommitFile`
pub record CommitFile : Type 0 where
  pub file_name : String
  pub content : String
  pub delete : Bool

-- What asking for every page comes to. The last case is the model's: its fuel is spent.
pub data Pages : Type 0 where
  absent : Pages
  listed : List String → Pages
  failed : Error → Pages
  spent : Pages

-- The files to write where the repository has none.
unfoldable pub pending : Dict String → List CommitFile
pending [] = []
pending ((name, content) ∷ files) =
    let rest = pending files in
    if content == deletion_magic_string
    then rest
    else record { file_name = name; content = content; delete = false } ∷ rest

-- What a template's file asks for, by whether the repository has it.
abbrev pub wanted : Bool → String → String → Option CommitFile
wanted there name content =
    if there && content == deletion_magic_string
    then some (record { file_name = name; content = content; delete = true })
    else if not there && not (content == deletion_magic_string)
    then some (record { file_name = name; content = content; delete = false })
    else none

unfoldable pub changes : List String → Dict String → List CommitFile
changes compare_map [] = []
changes compare_map ((name, content) ∷ files) =
    let rest = changes compare_map files in
    elim (wanted (contains name compare_map) name content) [ none ↦ rest | some f ↦ f ∷ rest ]

abbrev pub commit_action : CommitFile → CommitAction
commit_action f = record { deletes = f.delete; file_path = f.file_name; content = f.content }

module _ {W : Type 0} (api : Api W) where
  -- The loop over the pages. A project that is not found has no files.
  unfoldable pub list_pages : ℕ → ℕ → ℕ → List String → W → Pages
  list_pages zero id page paths w = spent
  list_pages (suc fuel) id page paths w = elim (api.list_tree id page w) [
    | err e ↦ if is_not_found e then absent else failed e
    | ok (trees, next) ↦ elim next [
      | zero ↦ listed (paths ++ trees)
      | suc n ↦ list_pages fuel id (suc n) (paths ++ trees) w
    ]
  ]

  abbrev pub compared : Dict String → Pages → Outcome (Option (List CommitFile))
  compared files absent = ok (some (pending files))
  compared files (listed paths) = ok (some (changes paths files))
  compared files (failed e) = err (msg "cannot list files in repository")
  compared files spent = ok none

  -- No list where the fuel is spent.
  unfoldable pub compare_files : ℕ → Exec (Session W) (Option (List CommitFile))
  unfolding list_pages pending changes
  compare_files fuel = do
    g ← this
    id ← project_id
    λ s. (compared g.template_files (list_pages fuel id 1 [] s.world), s)

  abbrev pub commit : List CommitFile → Exec (Session W) (Option (Unit {0}))
  commit [] = pure (some tt)
  commit (f ∷ fs) = do
    id ← project_id
    doing (api.create_commit id (map commit_action (f ∷ fs)))
    pure (some tt)

  unfoldable pub commit_some : Option (List CommitFile) → Exec (Session W) (Option (Unit {0}))
  commit_some none = pure none
  commit_some (some fs) = commit fs

  unfoldable pub commit_for : ℕ → Dict String → Exec (Session W) (Option (Unit {0}))
  unfolding compare_files commit_some
  commit_for fuel [] = pure (some tt)
  commit_for fuel (f ∷ fs) = do files ← compare_files fuel; commit_some files

  unfoldable pub commit_template_files : ℕ → Exec (Session W) (Option (Unit {0}))
  unfolding commit_for
  commit_template_files fuel = do g ← this; commit_for fuel g.template_files
