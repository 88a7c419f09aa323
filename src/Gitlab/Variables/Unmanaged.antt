-- ===== src/Gitlab/Variables/Unmanaged.antt =====
-- What the server's documentation says of variables, and the variables that the operator leaves alone.
use lieutenant_operator.Prelude.{
  ℕ, String, ◌≡◌, refl, ◌∙◌, true, false, not, ◌&&◌, Option, none, some, List, [], ◌∷◌, ◌==◌,
  contains, All, arith, eq_iff, Bool-cases, inl, inr, Dict,
}
use lieutenant_operator.Errors.{Error, ok, is_not_found, Multierr}
use lieutenant_operator.CompilePipeline.Status.{contains-sort_strings}
use lieutenant_operator.Exec.{continue_keeps}
use lieutenant_operator.Gitlab.{Project, ProjectVariable, VariableOptions, Api, Session}
use lieutenant_operator.Gitlab.Variables.{
  Variable, sent, is_current, difference, to_delete, changed, remove_each, created_with, updated_or,
  update_or_create_ci_variable, update_each, ensure_ci_variables, by_name,
}

-- What a variable of a project is on the server.
abbrev pub View : Type 0 → Type 0
View W = ℕ → String → W → Option ProjectVariable

abbrev pub IsShown : {W : Type 0} → View W → ℕ → W → Option ProjectVariable → Type 0
IsShown view id w none = Unit
IsShown view id w (some v) = view id v.key w ≡ some v

-- What GitLab documents: a call is about the variable of its name and no other, also where it fails; a
-- removal that succeeds, or that finds nothing, leaves no variable; the other two set the value.
pub record VariableLaws {W : Type 0} (api : Api W) (view : View W) : Type 0 where
  pub listed-IsShown :
      (id : ℕ) (w : W) (vs : List (Option ProjectVariable))
      → api.list_variables id w ≡ ok vs
      → All (IsShown view id w) vs
  pub removed-other :
      (id : ℕ) (n m : String) (w : W)
      → (n == m) ≡ false
      → view id m (api.remove_variable id n w).1 ≡ view id m w
  pub removed-gone :
      (id : ℕ) (n : String) (w : W)
      → (api.remove_variable id n w).0 ≡ none
      → view id n (api.remove_variable id n w).1 ≡ none
  pub removed-missing :
      (id : ℕ) (n : String) (w : W) (e : Error)
      → (api.remove_variable id n w).0 ≡ some e
      → is_not_found e ≡ true
      → view id n (api.remove_variable id n w).1 ≡ none
  pub updated-other :
      (id : ℕ) (n m : String) (o : VariableOptions) (w : W)
      → (n == m) ≡ false
      → view id m (api.update_variable id n o w).1 ≡ view id m w
  pub updated-set :
      (id : ℕ) (n : String) (o : VariableOptions) (w : W)
      → (api.update_variable id n o w).0 ≡ none
      → (v : ProjectVariable) × (view id n (api.update_variable id n o w).1 ≡ some v)
        × (v.value ≡ o.value)
  pub created-other :
      (id : ℕ) (n m : String) (o : VariableOptions) (w : W)
      → (n == m) ≡ false
      → view id m (api.create_variable id n o w).1 ≡ view id m w
  pub created-set :
      (id : ℕ) (n : String) (o : VariableOptions) (w : W)
      → (api.create_variable id n o w).0 ≡ none
      → (v : ProjectVariable) × (view id n (api.create_variable id n o w).1 ≡ some v)
        × (v.value ≡ o.value)

-- What is taken away is managed and not among the variables.
pub contains-to_delete :
    (managed : List String) (current : List Variable) (m : String)
    → contains m (to_delete managed current) ≡ (contains m managed && not (is_current current m))
unfolding to_delete difference contains
contains-to_delete managed current m =
    contains-sort_strings m (difference managed current) ∙ contains-difference managed
  where
    contains-difference :
        (ns : List String)
        → contains m (difference ns current) ≡ (contains m ns && not (is_current current m))
    contains-difference [] = refl
    contains-difference (n ∷ ns) = ground (arith, contains-difference ns, eq_iff n m)

module _ {W : Type 0} (api : Api W) (view : View W) (laws : VariableLaws api view) (id : ℕ)
    (m : String) where
  -- A name that is not among those that are removed.
  pub remove_each_keeps :
      (ns : List String) (w : W)
      → contains m ns ≡ false
      → view id m (remove_each api id ns w).1 ≡ view id m w
  unfolding contains remove_each
  remove_each_keeps [] w h = refl
  remove_each_keeps (n ∷ ns) w h =
      remove_each_keeps ns (api.remove_variable id n w).1 (ground (arith))
      ∙ laws.removed-other id n m w (ground (arith))

  pub updated_or_keeps :
      (v : Variable) (w : W) (r : Option Error × W)
      → (v.name == m) ≡ false
      → view id m r.1 ≡ view id m w
      → view id m (updated_or api id v r).1 ≡ view id m w
  unfolding sent
  updated_or_keeps v w (none, w') d k = k
  updated_or_keeps v w (some e, w') d k = elim (Bool-cases (is_not_found e)) [
    | inl y ↦ rw y (
        created_keeps (api.create_variable id v.name (sent v) w')
          (laws.created-other id v.name m (sent v) w' d ∙ k))
    | inr n ↦ rw n k
  ]
    where
      created_keeps :
          (r : Option Error × W)
          → view id m r.1 ≡ view id m w
          → view id m (created_with api v.name r).1 ≡ view id m w
      created_keeps (none, x) p = p
      created_keeps (some y, x) p = p

  pub update_or_create_keeps :
      (v : Variable) (w : W)
      → (v.name == m) ≡ false
      → view id m (update_or_create_ci_variable api id v w).1 ≡ view id m w
  unfolding update_or_create_ci_variable
  update_or_create_keeps v w d =
      updated_or_keeps v w (api.update_variable id v.name (sent v) w) d
        (laws.updated-other id v.name m (sent v) w d)

  -- No variable that is sent has the name.
  pub update_each_keeps :
      (managed : List String) (remote : Dict ProjectVariable) (vs : List Variable) (w : W)
      → All (λ v. (changed managed remote v && (v.name == m)) ≡ false) vs
      → view id m (update_each api id managed remote vs w).1 ≡ view id m w
  unfolding update_each
  update_each_keeps managed remote [] w a = refl
  update_each_keeps managed remote (v ∷ vs) w a = elim (Bool-cases (changed managed remote v)) [
    | inl y ↦ rw y (
        update_each_keeps managed remote vs (update_or_create_ci_variable api id v w).1 a.1
        ∙ update_or_create_keeps v w (ground (arith)))
    | inr n ↦ rw n (update_each_keeps managed remote vs w a.1)
  ]

unmanaged_unchanged :
    (managed : List String) (remote : Dict ProjectVariable) (m : String) (vs : List Variable)
    → contains m managed ≡ false
    → All (λ v. (changed managed remote v && (v.name == m)) ≡ false) vs
unfolding changed
unmanaged_unchanged managed remote m [] h = tt
unmanaged_unchanged managed remote m (v ∷ vs) h = (
  elim (Bool-cases (v.name == m)) [
    | inl y ↦ let e : v.name ≡ m = (eq_iff v.name m).0 y in rw (e, h) refl
    | inr n ↦ rw n (ground (arith))
  ],
  unmanaged_unchanged managed remote m vs h,
)

module _ {W : Type 0} (api : Api W) (view : View W) (multierr : Multierr) where
  -- Given what GitLab documents of its calls, a variable that the operator does not manage is after
  -- `EnsureCIVariables` on a project that was read what it was before, whether it is among the variables
  -- that are wanted or not, and whether the calls succeed or fail.
  pub view-ensure_ci_variables_unmanaged :
      VariableLaws api view
      → (p : Project) (m : String) (managed : List String) (variables : List Variable)
        (s : Session W)
      → s.git.project ≡ some p
      → contains m managed ≡ false
      → view p.id m (ensure_ci_variables api multierr managed variables s).1.world
        ≡ view p.id m s.world
  unfolding ensure_ci_variables
  view-ensure_ci_variables_unmanaged laws p m managed variables s g h =
      let w = (remove_each api p.id (to_delete managed variables) s.world).1 in
      let kept : view p.id m w ≡ view p.id m s.world =
        remove_each_keeps api view laws p.id m (to_delete managed variables) s.world
          (rw (contains-to_delete managed variables m, h) refl) in
      simp (g) (
        continue_keeps (λ (t : Session W). view p.id m t.world ≡ view p.id m s.world) _
          (api.list_variables p.id w) (record s { world = w }) kept
          (λ remote.
            update_each_keeps api view laws p.id m managed (by_name remote []) variables w
              (unmanaged_unchanged managed (by_name remote []) m variables h)
            ∙ kept))
