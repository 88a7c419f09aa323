-- ===== src/Gitlab/Variables/Examples.antt =====
-- The theorems on CI variables at a server that keeps the values of one project in memory.
use lieutenant_operator.Prelude.{
  ℕ, String, ◌≡◌, ◌↔◌, refl, subst, true, false, Option, none, some, List, [], ◌∷◌, ◌==◌, All,
  eq_refl, Dict, lookup, insert, delete, lookup-insert, lookup-delete, contains,
}
use lieutenant_operator.Errors.{Error, ok, err, status, not_found, Multierr, ok-injective}
use lieutenant_operator.CompilePipeline.Names.{sort_strings}
use lieutenant_operator.Gitlab.{Gitlab, ProjectVariable, VariableOptions, Api, Session}
use lieutenant_operator.Gitlab.Variables.{
  Variable, ensure_ci_variables, to_delete, difference, remove_each, by_name, update_each, changed,
  var_needs_update, update_or_create_ci_variable, sent,
}
use lieutenant_operator.Gitlab.Variables.Unmanaged.{
  View, IsShown, VariableLaws, view-ensure_ci_variables_unmanaged,
}
use lieutenant_operator.Gitlab.Variables.Calls.{Matches}
use lieutenant_operator.Gitlab.Variables.Managed.{wanted, ensure_ci_variables-Matches}

abbrev pub Values : Type 0
Values = Dict String

abbrev pub variable : String → String → ProjectVariable
variable k x = record {
  key = k;
  value = x;
  description = "";
  protected = false;
  masked = false;
  raw = true;
}

abbrev pub shown : String → Option String → Option ProjectVariable
shown k none = none
shown k (some x) = some (variable k x)

abbrev pub view : View Values
view id m w = shown m (lookup m w)

abbrev pub listing : Values → Values → List (Option ProjectVariable)
listing w [] = []
listing w ((k, x) ∷ rest) = shown k (lookup k w) ∷ listing w rest

abbrev pub set : String → VariableOptions → Option String → Values → Option Error × Values
set n o none w = (some (status not_found), w)
set n o (some x) w = (none, insert n o.value w)

-- A server that has nothing and makes nothing.
abbrev pub offline : {W : Type 0} → Api W
offline = record {
  get_project = λ p w. err (status not_found);
  get_namespace = λ p w. err (status not_found);
  create_project = λ n d p w. (err (status not_found), w);
  edit_project = λ i d w. (err (status not_found), w);
  archive_project = λ i w. (none, w);
  delete_project = λ i w. (none, w);
  list_deploy_keys = λ i w. ok [];
  add_deploy_key = λ i t k c w. (none, w);
  delete_deploy_key = λ i k w. (none, w);
  list_tree = λ i page w. ok ([], 0);
  create_commit = λ i actions w. (none, w);
  list_access_tokens = λ i w. ok [];
  create_access_token = λ i n e w. (err (status not_found), w);
  list_variables = λ i w. ok [];
  remove_variable = λ i n w. (none, w);
  update_variable = λ i n o w. (none, w);
  create_variable = λ i n o w. (none, w);
  now = λ w. 1000000;
}

abbrev pub kept : Api Values
kept = record offline {
  list_variables = λ i w. ok (listing w w);
  remove_variable = λ i n w. (none, delete n w);
  update_variable = λ i n o w. set n o (lookup n w) w;
  create_variable = λ i n o w. (none, insert n o.value w);
}

shown-IsShown :
    (id : ℕ) (k : String) (w : Values) (x : Option String)
    → lookup k w ≡ x
    → IsShown view id w (shown k x)
shown-IsShown id k w none h = tt
shown-IsShown id k w (some x) h = rw h refl

listing-IsShown : (id : ℕ) (w vs : Values) → All (IsShown view id w) (listing w vs)
listing-IsShown id w [] = tt
listing-IsShown id w ((k, x) ∷ vs) =
    (shown-IsShown id k w (lookup k w) refl, listing-IsShown id w vs)

view-insert :
    (id : ℕ) (n m x : String) (w : Values)
    → (n == m) ≡ false
    → view id m (insert n x w) ≡ view id m w
view-insert id n m x w d = rw (lookup-insert n m x w, d) refl

view-insert_same :
    (id : ℕ) (n x : String) (w : Values) → view id n (insert n x w) ≡ some (variable n x)
view-insert_same id n x w = rw (lookup-insert n n x w, eq_refl n) refl

view-set :
    (id : ℕ) (n m : String) (o : VariableOptions) (y : Option String) (w : Values)
    → (n == m) ≡ false
    → view id m (set n o y w).1 ≡ view id m w
view-set id n m o none w d = refl
view-set id n m o (some y) w d = view-insert id n m o.value w d

view-set_same :
    (id : ℕ) (n : String) (o : VariableOptions) (y : Option String) (w : Values)
    → (set n o y w).0 ≡ none
    → (v : ProjectVariable) × (view id n (set n o y w).1 ≡ some v) × (v.value ≡ o.value)
view-set_same id n o none w h = absurd (cc)
view-set_same id n o (some y) w h = (variable n o.value, view-insert_same id n o.value w, refl)

pub kept-VariableLaws : VariableLaws kept view
kept-VariableLaws = record {
  listed-IsShown =
      λ id w vs h. subst (All (IsShown view id w)) (ok-injective h) (listing-IsShown id w w);
  removed-other = λ id n m w d. rw (lookup-delete n m w, d) refl;
  removed-gone = λ id n w h. rw (lookup-delete n n w, eq_refl n) refl;
  removed-missing = λ id n w e h f. absurd (cc);
  updated-other = λ id n m o w d. view-set id n m o (lookup n w) w d;
  updated-set = λ id n o w h. view-set_same id n o (lookup n w) w h;
  created-other = λ id n m o w d. view-insert id n m o.value w d;
  created-set = λ id n o w h. (variable n o.value, view-insert_same id n o.value w, refl);
}

abbrev combine : List Error → Option Error
combine [] = none
combine (e ∷ es) = some e

pub combine_iff : (es : List Error) → (combine es ≡ none) ↔ (es ≡ [])
combine_iff [] = ((λ h. refl), (λ h. refl))
combine_iff (e ∷ es) = ((λ h. cc), (λ h. cc))

abbrev pub first_error : Multierr
first_error = record { combine = combine; combine_iff = combine_iff }

-- A receiver for the project, which was read.
abbrev pub receiver : Gitlab
receiver = record {
  token = "glpat";
  url = record {
    scheme = "https";
    user = "";
    host = "gitlab";
    path = "/syn/acme";
    raw_path = "";
    query = "";
    fragment = "";
  };
  ssh_host = "";
  project = some (record { id = 7; description = "" });
  deploy_keys = [];
  path = "syn";
  repo_name = "acme";
  display_name = "";
  template_files = [];
  deletion_policy = "";
}

abbrev pub session : Session Values
session = record { git = receiver; world = ("TOKEN", "old") ∷ ("GONE", "x") ∷ ("OWN", "y") ∷ [] }

abbrev token : Variable
token = record {
  name = "TOKEN";
  value = "new";
  gitlab_options = record { description = none; protected = none; masked = none; raw = none };
}

abbrev managed : List String
managed = "TOKEN" ∷ "GONE" ∷ []

abbrev after : Session Values
after = record session { world = ("TOKEN", "new") ∷ ("OWN", "y") ∷ [] }

ends : ensure_ci_variables kept first_error managed (token ∷ []) session ≡ (ok tt, after)
unfolding ensure_ci_variables to_delete difference remove_each by_name update_each changed
    var_needs_update update_or_create_ci_variable sent contains lookup insert delete sort_strings
ends = refl

ensure_ci_variables-Matches_example : Matches (some token) (some (variable "TOKEN" "new"))
unfolding contains lookup wanted
ensure_ci_variables-Matches_example =
    ensure_ci_variables-Matches kept view first_error kept-VariableLaws
      (record { id = 7; description = "" }) "TOKEN" managed (token ∷ []) session after refl (tt, tt)
      refl ends

view-ensure_ci_variables_unmanaged_example :
    view 7 "OWN" (ensure_ci_variables kept first_error managed (token ∷ []) session).1.world
    ≡ some (variable "OWN" "y")
unfolding contains lookup
view-ensure_ci_variables_unmanaged_example =
    view-ensure_ci_variables_unmanaged kept view first_error kept-VariableLaws
      (record { id = 7; description = "" }) "OWN" managed (token ∷ []) session refl refl
