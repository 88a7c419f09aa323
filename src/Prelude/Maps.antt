-- ===== src/Prelude/Maps.antt =====
-- Go maps with string keys as association lists, in the order of one iteration. A key stands
-- once in a map that was built by `insert` and `delete`.
use Prim.Native.String.{String}
use mathlib.Core.Path.{◌≡◌, refl}
use mathlib.Core.Option.{Option, none, some}
use mathlib.Core.List.{List, [], ◌∷◌}
use native.Mathlib.Omega.{arith}
use text.Mathlib.Text.{◌==◌}
use text.Mathlib.TextEquality.{eq_iff}
use lieutenant_operator.Prelude.Tests.{if◌then◌else◌}

abbrev pub Dict {ℓ} : Type ℓ → Type ℓ
Dict V = List (String × V)

module _ {ℓ} {V : Type ℓ} where
  -- `delete(m, key)`
  unfoldable pub delete : String → Dict V → Dict V
  delete key [] = []
  delete key ((k, v) ∷ rest) =
      let kept = delete key rest in if k == key then kept else (k, v) ∷ kept

  -- `v, ok := m[key]`
  unfoldable pub lookup : String → Dict V → Option V
  lookup key [] = none
  lookup key ((k, v) ∷ rest) = let later = lookup key rest in if k == key then some v else later

  pub lookup-delete :
      (key k : String) (m : Dict V)
      → lookup k (delete key m) ≡ (if key == k then none else lookup k m)
  unfolding lookup delete
  lookup-delete key k [] = ground arith
  lookup-delete key k ((i, v) ∷ rest) =
      ground (arith, lookup-delete key k rest, eq_iff i key, eq_iff i k, eq_iff key k)

  -- `m[key] = v`
  unfoldable pub insert : String → V → Dict V → Dict V
  insert key v [] = (key, v) ∷ []
  insert key v ((k, old) ∷ rest) =
      let later = insert key v rest in if k == key then (key, v) ∷ rest else (k, old) ∷ later

  pub lookup-insert :
      (key k : String) (v : V) (m : Dict V)
      → lookup k (insert key v m) ≡ (if key == k then some v else lookup k m)
  unfolding lookup insert
  lookup-insert key k v [] = refl
  lookup-insert key k v ((i, old) ∷ rest) =
      ground (arith, lookup-insert key k v rest, eq_iff i key, eq_iff i k, eq_iff key k)

-- `m[k]`, with the zero value where the key is missing.
abbrev pub value_of : String → Dict String → String
value_of k m = elim (lookup k m) [ none ↦ "" | some v ↦ v ]
