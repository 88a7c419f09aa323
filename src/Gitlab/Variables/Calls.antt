-- ===== src/Gitlab/Variables/Calls.antt =====
-- What the calls of the server do to the variables that the operator manages, where they succeed.
use lieutenant_operator.Prelude.{
  ℕ, String, ◌≡◌, refl, subst, ◌∙◌, true, Option, none, some, List, [], ◌∷◌, contains, arith,
  eq_iff, Bool-cases, Option-cases, inl, inr,
}
use lieutenant_operator.Errors.{Error, is_not_found}
use lieutenant_operator.Gitlab.{ProjectVariable, Api}
use lieutenant_operator.Gitlab.Variables.{
  Variable, sent, remove_each, created_with, updated_or, update_or_create_ci_variable,
}
use lieutenant_operator.Gitlab.Variables.Unmanaged.{View, VariableLaws, remove_each_keeps}

-- What the server has of a variable that is managed: nothing where none is wanted, and otherwise a
-- variable with the value that is wanted.
abbrev pub Matches : Option Variable → Option ProjectVariable → Type 0
Matches none r = r ≡ none
Matches (some v) r = (x : ProjectVariable) × (r ≡ some x) × (x.value ≡ v.value)

module _ {W : Type 0} (api : Api W) (view : View W) (laws : VariableLaws api view) (id : ℕ) where
  -- What is gone after the first removal is gone after the others.
  gone_after :
      (m n : String) (ns : List String) (w : W)
      → view id n w ≡ none
      → (contains m ns ≡ true → view id m (remove_each api id ns w).1 ≡ none)
      → contains m (n ∷ ns) ≡ true
      → view id m (remove_each api id ns w).1 ≡ none
  unfolding contains
  gone_after m n ns w g k c = elim (Bool-cases (contains m ns)) [
    | inl y ↦ k y
    | inr f ↦
        let e : n ≡ m = (eq_iff n m).0 (ground (arith)) in
        remove_each_keeps api view laws id m ns w f ∙ subst (λ x. view id x w ≡ none) e g
  ]

  -- Removals without an error.
  pub remove_each_gone :
      (m : String) (ns : List String) (w : W)
      → (remove_each api id ns w).0 ≡ []
      → contains m ns ≡ true
      → view id m (remove_each api id ns w).1 ≡ none
  unfolding contains remove_each
  remove_each_gone m [] w h c = cc
  remove_each_gone m (n ∷ ns) w h c =
      let r = api.remove_variable id n w in
      elim (Option-cases r.0) [
        | inl y ↦
            let rest : (remove_each api id ns r.1).0 ≡ [] = rw y at h in
            gone_after m n ns r.1 (laws.removed-gone id n w y) (remove_each_gone m ns r.1 rest) c
        | inr (e, y) ↦ elim (Bool-cases (is_not_found e)) [
          | inl f ↦
              let rest : (remove_each api id ns r.1).0 ≡ [] = rw (y, f) at h in
              gone_after m n ns r.1 (laws.removed-missing id n w e y f)
                (remove_each_gone m ns r.1 rest) c
          | inr f ↦ let never : (_ ∷ _) ≡ [] = rw (y, f) at h in absurd (cc)
        ]
      ]

  created_sets :
      (v : Variable) (r : Option Error × W)
      → (r.0 ≡ none → Matches (some v) (view id v.name r.1))
      → (created_with api v.name r).0 ≡ none
      → Matches (some v) (view id v.name (created_with api v.name r).1)
  created_sets v (none, w) k h = k refl
  created_sets v (some e, w) k h = absurd (cc)

  updated_or_sets :
      (v : Variable) (r : Option Error × W)
      → (r.0 ≡ none → Matches (some v) (view id v.name r.1))
      → (updated_or api id v r).0 ≡ none
      → Matches (some v) (view id v.name (updated_or api id v r).1)
  unfolding sent
  updated_or_sets v (none, w) k h = k refl
  updated_or_sets v (some e, w) k h = elim (Bool-cases (is_not_found e)) [
    | inl y ↦ rw y (
        created_sets v (api.create_variable id v.name (sent v) w)
          (laws.created-set id v.name (sent v) w) (rw y at h))
    | inr n ↦ let never : some _ ≡ none = rw n at h in absurd (cc)
  ]

  pub update_or_create_sets :
      (v : Variable) (w : W)
      → (update_or_create_ci_variable api id v w).0 ≡ none
      → Matches (some v) (view id v.name (update_or_create_ci_variable api id v w).1)
  unfolding update_or_create_ci_variable sent
  update_or_create_sets v w h =
      updated_or_sets v (api.update_variable id v.name (sent v) w)
        (laws.updated-set id v.name (sent v) w) h
