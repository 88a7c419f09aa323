-- ===== src/Gitlab/Variables.antt =====
-- `EnsureCIVariables` of git/gitlab/gitlab.go and the types of git/manager/manager.go it takes.
pub mod Settling
pub mod Unmanaged
pub mod Calls
pub mod Managed
pub mod Examples
use lieutenant_operator.Prelude.{
  ℕ, String, Bool, true, false, not, ◌&&◌, ◌||◌, Option, none, some, List, [], ◌∷◌, ◌++◌, ◌==◌,
  Dict, lookup, insert, contains, is_some, bool_eq, if◌then◌else◌, ◌<>◌,
}
use lieutenant_operator.Errors.{Error, Outcome, ok, err, wrap, is_not_found, Multierr}
use lieutenant_operator.Exec.{Exec, pure, lift, ◌>>=◌, ◌>>◌}
use lieutenant_operator.CompilePipeline.Names.{sort_strings}
use lieutenant_operator.Gitlab.{
  ProjectVariable, VariableOptions, Api, Session, reading, doing, project_id, unit_of,
}

-- `manager.EnvVar` and `manager.EnvVarGitlabOptions`
pub record Options : Type 0 where
  pub description : Option String
  pub protected : Option Bool
  pub masked : Option Bool
  pub raw : Option Bool

pub record Variable : Type 0 where
  pub name : String
  pub value : String
  pub gitlab_options : Options

-- An option that is set to another value.
abbrev pub differs : Option Bool → Bool → Bool
differs none b = false
differs (some a) b = not (bool_eq b a)

abbrev pub text_differs : Option String → String → Bool
text_differs none s = false
text_differs (some t) s = not (s == t)

unfoldable pub var_needs_update : ProjectVariable → Variable → Bool
var_needs_update remote v =
    not (remote.value == v.value)
    || text_differs v.gitlab_options.description remote.description
    || differs v.gitlab_options.protected remote.protected
    || differs v.gitlab_options.masked remote.masked
    || differs v.gitlab_options.raw remote.raw

-- The options of both calls. There is no description among them.
unfoldable pub sent : Variable → VariableOptions
sent v = record {
  value = v.value;
  description = none;
  protected = v.gitlab_options.protected;
  masked = v.gitlab_options.masked;
  raw = v.gitlab_options.raw;
}

-- The map of the remote variables; of two with one key the later counts.
unfoldable pub by_name : List (Option ProjectVariable) → Dict ProjectVariable → Dict ProjectVariable
by_name [] m = m
by_name (none ∷ vs) m = by_name vs m
by_name (some v ∷ vs) m = by_name vs (insert v.key v m)

-- `managed.Difference(current)` in order, each once.
abbrev pub is_current : List Variable → String → Bool
is_current [] n = false
is_current (v ∷ vs) n = v.name == n || is_current vs n

unfoldable pub difference : List String → List Variable → List String
difference [] current = []
difference (n ∷ ns) current =
    let rest = difference ns current in
    if is_current current n || contains n ns then rest else n ∷ rest

unfoldable pub to_delete : List String → List Variable → List String
unfolding difference
to_delete managed variables = sort_strings (difference managed variables)

-- Whether a variable is sent to the server.
unfoldable pub changed : List String → Dict ProjectVariable → Variable → Bool
unfolding var_needs_update
changed managed remote v =
    contains v.name managed
    && (elim (lookup v.name remote) [ none ↦ true | some r ↦ var_needs_update r v ])

module _ {W : Type 0} (api : Api W) where
  unfoldable pub remove_each : ℕ → List String → W → List Error × W
  remove_each id [] w = ([], w)
  remove_each id (n ∷ ns) w =
      let (e, w') = api.remove_variable id n w in
      let (es, w'') = remove_each id ns w' in
      (
        elim e [
          | none ↦ es
          | some x ↦ if is_not_found x then es else wrap ("error removing variable " <> n) x ∷ es
        ],
        w'',
      )

  abbrev pub created_with : String → Option Error × W → Option Error × W
  created_with name (none, w) = (none, w)
  created_with name (some e, w) = (some (wrap ("error creating variable " <> name) e), w)

  abbrev pub updated_or : ℕ → Variable → Option Error × W → Option Error × W
  unfolding sent
  updated_or id v (none, w) = (none, w)
  updated_or id v (some e, w) =
      if is_not_found e
      then created_with v.name (api.create_variable id v.name (sent v) w)
      else (some (wrap ("error updating variable " <> v.name) e), w)

  unfoldable pub update_or_create_ci_variable : ℕ → Variable → W → Option Error × W
  unfolding sent
  update_or_create_ci_variable id v w = updated_or id v (api.update_variable id v.name (sent v) w)

  unfoldable pub update_each :
      ℕ → List String → Dict ProjectVariable → List Variable → W → List Error × W
  unfolding changed update_or_create_ci_variable
  update_each id managed remote [] w = ([], w)
  update_each id managed remote (v ∷ vs) w =
      let (e, w') =
        if changed managed remote v then update_or_create_ci_variable id v w else (none, w) in
      let (es, w'') = update_each id managed remote vs w' in
      (elim e [ none ↦ es | some x ↦ x ∷ es ], w'')

  module _ (multierr : Multierr) where
    unfoldable pub ensure_ci_variables : List String → List Variable → Exec (Session W) (Unit {0})
    unfolding to_delete remove_each by_name update_each
    ensure_ci_variables managed variables = do
      id ← project_id
      removing ← λ s.
          let (es, w) = remove_each id (to_delete managed variables) s.world in
          (ok es, record s { world = w })
      remote ← reading (api.list_variables id)
      updating ← λ s.
          let (es, w) = update_each id managed (by_name remote []) variables s.world in
          (ok es, record s { world = w })
      lift (unit_of (multierr.combine (removing ++ updating)))
