-- ===== src/Gitlab/Variables/Managed.antt =====
-- The variables that the operator manages, after a run that succeeds.
use lieutenant_operator.Prelude.{
  ℕ, String, ◌≡◌, refl, sym, ap, subst, ◌∙◌, true, false, ◌&&◌, Option, none, some, List, [], ◌∷◌,
  ◌++◌, ◌==◌, contains, All, arith, eq_iff, Bool-cases, Option-cases, inl, inr, if◌then◌else◌, Dict,
  lookup, insert, lookup-insert,
}
use lieutenant_operator.Errors.{Error, ok, err, Multierr}
use lieutenant_operator.Exec.{continue_ok}
use lieutenant_operator.Gitlab.{Project, ProjectVariable, Api, Session, unit_of}
use lieutenant_operator.Gitlab.Variables.{
  Variable, by_name, is_current, to_delete, changed, var_needs_update, remove_each,
  update_or_create_ci_variable, update_each, ensure_ci_variables,
}
use lieutenant_operator.Gitlab.Variables.Calls.{Matches, remove_each_gone, update_or_create_sets}
use lieutenant_operator.Gitlab.Variables.Unmanaged.{
  View, IsShown, VariableLaws, contains-to_delete, update_or_create_keeps, update_each_keeps,
}

-- The variable of the name among those that are wanted.
unfoldable pub wanted : String → List Variable → Option Variable
wanted m [] = none
wanted m (v ∷ vs) = let rest = wanted m vs in if v.name == m then some v else rest

-- A name stands once among the variables.
abbrev pub HasDistinctNames : List Variable → Type 0
HasDistinctNames [] = Unit
HasDistinctNames (v ∷ vs) = All (λ u. (u.name == v.name) ≡ false) vs × HasDistinctNames vs

module _ {W : Type 0} (api : Api W) (view : View W) (laws : VariableLaws api view) (id : ℕ) where
  -- What the list says of a variable holds on the server.
  abbrev Sound : Dict ProjectVariable → String → W → Type 0
  Sound remote m w = (r : ProjectVariable) → lookup m remote ≡ some r → view id m w ≡ some r

  empty-Sound : (m : String) (w : W) → Sound [] m w
  unfolding lookup
  empty-Sound m w r h = cc

  by_name-Sound :
      (m : String) (w : W) (vs : List (Option ProjectVariable)) (d : Dict ProjectVariable)
      → All (IsShown view id w) vs
      → Sound d m w
      → Sound (by_name vs d) m w
  unfolding by_name
  by_name-Sound m w [] d a k = k
  by_name-Sound m w (none ∷ vs) d a k = by_name-Sound m w vs d a.1 k
  by_name-Sound m w (some v ∷ vs) d a k = by_name-Sound m w vs (insert v.key v d) a.1 (λ r h.
      elim (Bool-cases (v.key == m)) [
        | inl y ↦
            let e : some v ≡ some r = rw (lookup-insert v.key m v d, y) at h in
            subst (λ x. view id x w ≡ some r) ((eq_iff v.key m).0 y) (a.0 ∙ e)
        | inr n ↦ k r (rw (lookup-insert v.key m v d, n) at h)
      ])

  -- A variable that need not be sent is there with its value.
  unchanged-Matches :
      (managed : List String) (remote : Dict ProjectVariable) (v : Variable) (w : W)
      → contains v.name managed ≡ true
      → Sound remote v.name w
      → changed managed remote v ≡ false
      → Matches (some v) (view id v.name w)
  unfolding changed var_needs_update
  unchanged-Matches managed remote v w c k h = elim (Option-cases (lookup v.name remote)) [
    | inl n ↦ let never : true ≡ false = rw (c, n) at h in absurd (cc)
    | inr (r, y) ↦
        let f : var_needs_update r v ≡ false = rw (c, y) at h in
        (r, k r y, (eq_iff r.value v.value).0 (ground (arith)))
  ]

  no_error :
      (o : Option Error) (es : List Error)
      → (elim o [ none ↦ es | some x ↦ x ∷ es ]) ≡ []
      → (o ≡ none) × (es ≡ [])
  no_error none es h = (refl, h)
  no_error (some x) es h = absurd (cc)

  -- One round of the loop over the variables.
  abbrev round : List String → Dict ProjectVariable → Variable → W → Option Error × W
  round managed remote v w =
      if changed managed remote v then update_or_create_ci_variable api id v w else (none, w)

  round-Matches :
      (managed : List String) (remote : Dict ProjectVariable) (v : Variable) (w : W)
      → contains v.name managed ≡ true
      → Sound remote v.name w
      → (round managed remote v w).0 ≡ none
      → Matches (some v) (view id v.name (round managed remote v w).1)
  round-Matches managed remote v w c k h = elim (Bool-cases (changed managed remote v)) [
    | inl y ↦ rw y (update_or_create_sets api view laws id v w (rw y at h))
    | inr n ↦ rw n (unchanged-Matches managed remote v w c k n)
  ]

  round_keeps :
      (managed : List String) (remote : Dict ProjectVariable) (v : Variable) (m : String) (w : W)
      → (v.name == m) ≡ false
      → view id m (round managed remote v w).1 ≡ view id m w
  round_keeps managed remote v m w d = elim (Bool-cases (changed managed remote v)) [
    | inl y ↦ rw y (update_or_create_keeps api view laws id m v w d)
    | inr n ↦ rw n refl
  ]

  -- A name that is wanted matches; one that is not stays as it was.
  abbrev After : Option Variable → Option ProjectVariable → Option ProjectVariable → Type 0
  After none before after = after ≡ before
  After (some v) before after = Matches (some v) after

  others :
      (managed : List String) (remote : Dict ProjectVariable) (m : String) (vs : List Variable)
      → All (λ u. (u.name == m) ≡ false) vs
      → All (λ u. (changed managed remote u && (u.name == m)) ≡ false) vs
  others managed remote m [] a = tt
  others managed remote m (u ∷ vs) a = (rw a.0 (ground (arith)), others managed remote m vs a.1)

  update_each-After :
      (managed : List String) (remote : Dict ProjectVariable) (m : String) (vs : List Variable)
      (w : W)
      → contains m managed ≡ true
      → HasDistinctNames vs
      → Sound remote m w
      → (update_each api id managed remote vs w).0 ≡ []
      → After (wanted m vs) (view id m w) (view id m (update_each api id managed remote vs w).1)
  unfolding update_each wanted
  update_each-After managed remote m [] w c d k h = refl
  update_each-After managed remote m (v ∷ vs) w c d k h =
      let x = round managed remote v w in
      let (o, rest) = no_error x.0 (update_each api id managed remote vs x.1).0 h in
      elim (Bool-cases (v.name == m)) [
        | inl y ↦
            let e : v.name ≡ m = (eq_iff v.name m).0 y in
            let now =
              round-Matches managed remote v w (subst (λ n. contains n managed ≡ true) (sym e) c)
                (subst (λ n. Sound remote n w) (sym e) k) o in
            let kept = update_each_keeps api view laws id m managed remote vs x.1 (
              others managed remote m vs
                (subst (λ n. All (λ u. (u.name == n) ≡ false) vs) e d.0)) in
            rw y (now.0, kept ∙ subst (λ n. view id n x.1 ≡ some now.0) e now.1, now.2)
        | inr n ↦
            let same = round_keeps managed remote v m w n in
            let later =
              update_each-After managed remote m vs x.1 c d.1 (λ r f. same ∙ k r f) rest in
            rw n (
              subst
                (λ b.
                  After (wanted m vs) b (view id m (update_each api id managed remote vs x.1).1))
                same later)
      ]

  Matches-After :
      (o : Option Variable) (before after : Option ProjectVariable)
      → After o before after
      → (o ≡ none → before ≡ none)
      → Matches o after
  Matches-After none before after a k = a ∙ k refl
  Matches-After (some v) before after a k = a

-- A name that no variable has is not current.
not_current : (m : String) (vs : List Variable) → wanted m vs ≡ none → is_current vs m ≡ false
unfolding wanted
not_current m [] h = refl
not_current m (v ∷ vs) h = elim (Bool-cases (v.name == m)) [
  | inl y ↦ let never : some v ≡ none = rw y at h in absurd (cc)
  | inr n ↦ rw n (not_current m vs (rw n at h))
]

append_empty : {A : Type 0} (xs ys : List A) → xs ++ ys ≡ [] → (xs ≡ []) × (ys ≡ [])
append_empty [] ys h = (refl, h)
append_empty (x ∷ xs) ys h = absurd (cc)

no_errors :
    (multierr : Multierr) (es : List Error) → unit_of (multierr.combine es) ≡ ok tt → es ≡ []
no_errors multierr es h = elim (Option-cases (multierr.combine es)) [
  | inl n ↦ (multierr.combine_iff es).0 n
  | inr (e, y) ↦ let never : err e ≡ ok tt = rw y at h in absurd (cc)
]

module _ {W : Type 0} (api : Api W) (view : View W) (multierr : Multierr) where
  -- Given what GitLab documents of its calls: where `EnsureCIVariables` on a project that was read ends
  -- without an error and no two of the variables have one name, a variable that the operator manages is
  -- on the server with the value that is wanted, and one that is not wanted any more is gone.
  pub ensure_ci_variables-Matches :
      VariableLaws api view
      → (p : Project) (m : String) (managed : List String) (variables : List Variable)
        (s s' : Session W)
      → s.git.project ≡ some p
      → HasDistinctNames variables
      → contains m managed ≡ true
      → ensure_ci_variables api multierr managed variables s ≡ (ok tt, s')
      → Matches (wanted m variables) (view p.id m s'.world)
  unfolding ensure_ci_variables
  ensure_ci_variables-Matches laws p m managed variables s s' g d c h =
      let names = to_delete managed variables in
      let w = (remove_each api p.id names s.world).1 in
      let (listing, l, e) =
        continue_ok _ (api.list_variables p.id w) (record s { world = w }) s' tt (simp (g) at h) in
      let remote = by_name listing [] in
      let all : _ ++ (update_each api p.id managed remote variables w).0 ≡ [] =
        no_errors multierr _ (ap (λ x. x.0) e) in
      let (removing, updating) = append_empty (remove_each api p.id names s.world).0 _ all in
      let gone : wanted m variables ≡ none → view p.id m w ≡ none = λ n.
        remove_each_gone api view laws p.id m names s.world removing
          (rw (contains-to_delete managed variables m, c, not_current m variables n) refl) in
      let sound =
        by_name-Sound api view laws p.id m w listing [] (laws.listed-IsShown p.id w listing l)
          (empty-Sound api view laws p.id m w) in
      subst (λ (x : Session W). Matches (wanted m variables) (view p.id m x.world))
        (ap (λ x. x.1) e)
        (Matches-After api view laws p.id (wanted m variables) (view p.id m w) _
          (update_each-After api view laws p.id managed remote m variables w c d sound updating)
          gone)
