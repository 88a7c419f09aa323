-- ===== src/Gitlab/Files/Committing.antt =====
-- Enough fuel for the pages is enough for the commit.
use lieutenant_operator.Prelude.{
  ℕ, String, ◌≡◌, ◌≢◌, refl, ◌+◌, ◌<◌, ◌≤◌, none, some, List, [], ◌∷◌, Dict, Option-cases, inl, inr,
  map,
}
use lieutenant_operator.Errors.{ok}
use lieutenant_operator.Gitlab.{Api, Project, Session}
use lieutenant_operator.Gitlab.Files.{
  CommitFile, Pages, absent, listed, failed, spent, list_pages, pending, changes, compared,
  compare_files, commit, commit_some, commit_for, commit_template_files, commit_action,
}
use lieutenant_operator.Gitlab.Files.Paging.{HasPages, list_pages_ends}

module _ {W : Type 0} (api : Api W) where
  commit_ends :
      (s : Session W) (p : Project) (fs : List CommitFile)
      → s.git.project ≡ some p
      → (commit api fs s).0 ≢ ok none
  commit_ends s p [] q = λ h. cc
  commit_ends s p (f ∷ fs) q =
      elim (Option-cases (api.create_commit p.id (map commit_action (f ∷ fs)) s.world).0) [
        | inl n ↦ rw (commit, q, n) (λ h. cc)
        | inr (x, e) ↦ rw (commit, q, e) (λ h. cc)
      ]

  module _ (last fuel : ℕ) (s : Session W) (p : Project) (q : s.git.project ≡ some p) where
    compare_files_lem :
        compare_files api fuel s
        ≡ (compared api s.git.template_files (list_pages api fuel p.id 1 [] s.world), s)
    unfolding compare_files
    compare_files_lem = rw (compare_files, q)

    listed_ends :
        (files : Dict String) (f : String × String) (pages : Pages)
        → list_pages api fuel p.id 1 [] s.world ≡ pages
        → pages ≢ spent
        → (commit_for api fuel (f ∷ files) s).0 ≢ ok none
    unfolding commit_for commit_some
    listed_ends files f absent e n =
        rw (commit_for, compare_files_lem, e) (commit_ends s p (pending s.git.template_files) q)
    listed_ends files f (listed paths) e n =
        rw (commit_for, compare_files_lem, e)
          (commit_ends s p (changes paths s.git.template_files) q)
    listed_ends files f (failed x) e n = rw (commit_for, compare_files_lem, e) (λ h. cc)
    listed_ends files f spent e n = λ h. n refl

    committed_ends :
        (files : Dict String)
        → list_pages api fuel p.id 1 [] s.world ≢ spent
        → (commit_for api fuel files s).0 ≢ ok none
    unfolding commit_for
    committed_ends [] n = λ h. cc
    committed_ends (f ∷ files) n =
        listed_ends files f (list_pages api fuel p.id 1 [] s.world) refl n

    -- For a project that was read, with fuel for the pages of its repository, committing the files ends
    -- with a commit, with nothing to commit or with an error, and never for want of fuel.
    pub commit_template_files_ends :
        HasPages api p.id last s.world
        → 1 ≤ last
        → last < 1 + fuel
        → (commit_template_files api fuel s).0 ≢ ok none
    unfolding commit_template_files
    commit_template_files_ends pages some_page enough =
        committed_ends s.git.template_files
          (list_pages_ends api p.id last s.world pages fuel 1 [] some_page enough)
