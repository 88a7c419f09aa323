-- ===== src/Prelude/Sorting.antt =====
-- Sorting by insertion, for any test of which of two elements stands first.
use mathlib.Core.Path.{◌≡◌}
use mathlib.Core.Logic.{inl, inr}
use mathlib.Core.Bool.{Bool, true, false}
use mathlib.Core.List.{List, [], ◌∷◌, Perm}
use mathlib.Core.List.Perm
use lieutenant_operator.Prelude.Tests.{if◌then◌else◌, All, Bool-cases}

-- Every element is related to those behind it.
abbrev pub Ascending : {A : Type 0} → (A → A → Type 0) → List A → Type 0
Ascending R [] = Unit
Ascending R (v ∷ vs) = All (R v) vs × Ascending R vs

module _ {A : Type 0} (first : A → A → Bool) where
  -- The element behind those that stand first.
  unfoldable pub place : A → List A → List A
  place v [] = v ∷ []
  place v (w ∷ ws) = let rest = place v ws in if first w v then w ∷ rest else v ∷ w ∷ ws

  unfoldable pub sort_by : List A → List A
  unfolding place
  sort_by [] = []
  sort_by (v ∷ vs) = place v (sort_by vs)

  place-perm : (v : A) (ws : List A) → Perm (place v ws) (v ∷ ws)
  unfolding place
  place-perm v [] = Perm.refl (v ∷ [])
  place-perm v (w ∷ ws) = elim (Bool-cases (first w v)) [
    | inl y ↦ rw (place, y) (Perm.trans (Perm.cons w (place-perm v ws)) (Perm.swap v w ws))
    | inr n ↦ rw (place, n) (Perm.refl (v ∷ w ∷ ws))
  ]

  pub sort_by-perm : (vs : List A) → Perm (sort_by vs) vs
  unfolding sort_by
  sort_by-perm [] = Perm.refl []
  sort_by-perm (v ∷ vs) = Perm.trans (place-perm v (sort_by vs)) (Perm.cons v (sort_by-perm vs))

  module _ (P : A → Type 0) where
    All-place : (v : A) (ws : List A) → P v → All P ws → All P (place v ws)
    unfolding place
    All-place v [] p a = (p, tt)
    All-place v (w ∷ ws) p a = elim (Bool-cases (first w v)) [
      | inl y ↦ rw (place, y) (a.0, All-place v ws p a.1)
      | inr n ↦ rw (place, n) (p, a)
    ]

    pub All-sort_by : (vs : List A) → All P vs → All P (sort_by vs)
    unfolding sort_by
    All-sort_by [] a = tt
    All-sort_by (v ∷ vs) a = All-place v (sort_by vs) a.0 (All-sort_by vs a.1)

    All-place_inv : (v : A) (ws : List A) → All P (place v ws) → P v × All P ws
    unfolding place
    All-place_inv v [] a = a
    All-place_inv v (w ∷ ws) a = elim (Bool-cases (first w v)) [
      | inl y ↦
          let b : All P (w ∷ place v ws) = rw (place, y) at a in
          let rest = All-place_inv v ws b.1 in (rest.0, (b.0, rest.1))
      | inr n ↦ let b : All P (v ∷ w ∷ ws) = rw (place, n) at a in b
    ]

    -- What holds of the sorted elements holds of the elements.
    pub All-unsorted : (vs : List A) → All P (sort_by vs) → All P vs
    unfolding sort_by
    All-unsorted [] a = tt
    All-unsorted (v ∷ vs) a = let b = All-place_inv v (sort_by vs) a in (b.0, All-unsorted vs b.1)

  -- Where the test decides a total order, the result is sorted by it.
  module _ (R : A → A → Type 0) (trans : (a b c : A) → R a b → R b c → R a c)
      (if_first : (w v : A) → first w v ≡ true → R w v)
      (if_not : (w v : A) → first w v ≡ false → R v w) where
    All-below : (a b : A) (vs : List A) → R a b → All (R b) vs → All (R a) vs
    All-below a b [] r l = tt
    All-below a b (v ∷ vs) r l = (trans a b v r l.0, All-below a b vs r l.1)

    place-Ascending : (v : A) (ws : List A) → Ascending R ws → Ascending R (place v ws)
    unfolding place
    place-Ascending v [] l = (tt, tt)
    place-Ascending v (w ∷ ws) l = elim (Bool-cases (first w v)) [
      | inl y ↦ rw (place, y) (All-place (R w) v ws (if_first w v y) l.0, place-Ascending v ws l.1)
      | inr n ↦ let above = if_not w v n in rw (place, n) ((above, All-below v w ws above l.0), l)
    ]

    pub sort_by-Ascending : (vs : List A) → Ascending R (sort_by vs)
    unfolding sort_by
    sort_by-Ascending [] = tt
    sort_by-Ascending (v ∷ vs) = place-Ascending v (sort_by vs) (sort_by-Ascending vs)
