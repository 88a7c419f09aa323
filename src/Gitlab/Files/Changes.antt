-- ===== src/Gitlab/Files/Changes.antt =====
-- What the comparison of `compareFiles` decides of each file, and what committing the changes comes to.
use lieutenant_operator.Prelude.{
  String, ◌≡◌, refl, sym, ap, ◌∙◌, Bool, true, false, not, Option, none, some, List, [], ◌∷◌, arith,
  ◌==◌, eq_iff, eq_refl, Dict, lookup, contains, if◌then◌else◌, Option-cases, Bool-cases, inl, inr,
  All,
}
use lieutenant_operator.Git.Urls.{has_char}
use lieutenant_operator.Gitlab.Files.{CommitFile, changes, wanted}

-- No name stands twice in the template.
abbrev pub HasDistinctNames : Dict String → Type 0
HasDistinctNames [] = Unit
HasDistinctNames ((k, v) ∷ m) = (lookup k m ≡ none) × HasDistinctNames m

-- All the changes of the file of this name.
unfoldable pub changes_of : String → List CommitFile → List CommitFile
changes_of name [] = []
changes_of name (f ∷ fs) =
    let rest = changes_of name fs in if f.file_name == name then f ∷ rest else rest

abbrev pub deletion : String → CommitFile
deletion name = record { file_name = name; content = "{delete}"; delete = true }

abbrev pub creation : String → String → CommitFile
creation name content = record { file_name = name; content = content; delete = false }

some-injective : {A : Type 0} {a b : A} → some a ≡ some b → a ≡ b
some-injective h = cc

-- What is to be done for a file, by whether the repository has it and by its content in the template.
abbrev pub asked : Bool → String → Option String → List CommitFile
asked there name none = []
asked true name (some content) = if content == "{delete}" then deletion name ∷ [] else []
asked false name (some content) = if content == "{delete}" then [] else creation name content ∷ []

-- A change that was decided on is for the file, and is the one asked for.
decided :
    (there : Bool) (name content : String) (f : CommitFile)
    → wanted there name content ≡ some f
    → (f.file_name ≡ name) × (asked there name (some content) ≡ f ∷ [])
decided true name content f h = elim (Bool-cases (content == "{delete}")) [
  | inl y ↦
      let same : content ≡ "{delete}" = (eq_iff content "{delete}").0 y in
      let e : record { file_name = name; content = content; delete = true } ≡ f =
        some-injective (rw y at h) in
      (ap (λ (x : CommitFile). x.file_name) (sym e), rw (y, sym e, same) refl)
  | inr n ↦ let never : none ≡ some f = rw n at h in absurd (cc)
]
decided false name content f h = elim (Bool-cases (content == "{delete}")) [
  | inl y ↦ let never : none ≡ some f = rw y at h in absurd (cc)
  | inr n ↦
      let e : record { file_name = name; content = content; delete = false } ≡ f =
        some-injective (rw n at h) in
      (ap (λ (x : CommitFile). x.file_name) (sym e), rw (n, sym e) refl)
]

undecided :
    (there : Bool) (name content : String)
    → wanted there name content ≡ none
    → asked there name (some content) ≡ []
undecided true name content h = ground (arith)
undecided false name content h = ground (arith)

pub changes_of-changes :
    (name : String) (paths : List String) (files : Dict String)
    → HasDistinctNames files
    → changes_of name (changes paths files) ≡ asked (contains name paths) name (lookup name files)
unfolding changes_of changes lookup
changes_of-changes name paths [] d = refl
changes_of-changes name paths ((n, content) ∷ files) d =
    let ih = changes_of-changes name paths files d.1 in
    elim (Option-cases (wanted (contains n paths) n content)) [
      | inl w ↦
          let none_asked = undecided (contains n paths) n content w in
          rw (changes, w) (ground (arith, eq_iff n name, ih, none_asked, d.0))
      | inr (f, w) ↦
          let (same, one_asked) = decided (contains n paths) n content f w in
          rw (changes, w)
            (ground (arith, eq_iff n name, eq_iff f.file_name name, ih, same, one_asked, d.0))
    ]

-- The file lies at the root of the repository.
abbrev pub IsRootFile : String → Type 0
IsRootFile name = has_char "/" name ≡ false

-- What a list of changes makes of a file that was there or not.
abbrev pub present_after : Bool → List CommitFile → Bool
present_after there [] = there
present_after there (f ∷ fs) = not f.delete

-- What GitLab does with a commit: a file at the root of the repository is listed afterwards if its action
-- creates it, and no longer if its action deletes it; the others are as they were. Listing without
-- recursion tells nothing of the files in directories.
abbrev pub IsCommitted : List CommitFile → List String → List String → Type 0
IsCommitted fs before after =
    (name : String)
    → IsRootFile name
    → contains name after ≡ present_after (contains name before) (changes_of name fs)

-- Whether the template wants the file there; what it does not name stays as it is.
abbrev pub as_wanted : Bool → Option String → Bool
as_wanted there none = there
as_wanted there (some content) = not (content == "{delete}")

present-asked :
    (there : Bool) (name : String) (o : Option String)
    → present_after there (asked there name o) ≡ as_wanted there o
present-asked there name none = refl
present-asked true name (some content) = ground (arith)
present-asked false name (some content) = ground (arith)

abbrev pub AreRootFiles : Dict String → Type 0
AreRootFiles files = All (λ (e : String × String). IsRootFile e.0) files

-- A template whose files are all as it wants them asks for nothing.
settled :
    (after : List String) (files : Dict String)
    → AreRootFiles files
    → HasDistinctNames files
    → ((name content : String)
        → IsRootFile name
        → lookup name files ≡ some content
        → contains name after ≡ not (content == "{delete}"))
    → changes after files ≡ []
unfolding changes lookup
settled after [] r d h = refl
settled after ((n, content) ∷ files) r d h =
    let there : contains n after ≡ not (content == "{delete}") = h n content r.0 (rw (eq_refl n)) in
    let unwanted : wanted (contains n after) n content ≡ none = rw there (ground (arith)) in
    rw (changes, unwanted)
      (settled after files r.1 d.1 (λ name c q l. h name c q (ground (arith, eq_iff n name))))

-- For a template of files at the root of the repository, in which no name stands twice, and a commit of
-- the changes after which the listed files at the root are those that its actions leave: each file at the
-- root is there afterwards exactly if the template has it with a content other than `{delete}`, or if it
-- was there and the template does not name it; and there is nothing more to change.
pub changes-committed :
    (before after : List String) (files : Dict String)
    → HasDistinctNames files
    → AreRootFiles files
    → IsCommitted (changes before files) before after
    → ((name : String)
        → IsRootFile name
        → contains name after ≡ as_wanted (contains name before) (lookup name files))
      × (changes after files ≡ [])
changes-committed before after files d r committed =
    let reached : (name : String)
        → IsRootFile name
        → contains name after ≡ as_wanted (contains name before) (lookup name files) =
      λ name q.
        committed name q
        ∙ ap (present_after (contains name before)) (changes_of-changes name before files d)
        ∙ present-asked (contains name before) name (lookup name files) in
    (reached, settled after files r d (λ name content q l. reached name q ∙ rw l refl))
