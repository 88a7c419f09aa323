-- ===== src/Exec.antt =====
-- Sequences of calls of a server, which stop at the first error.
use lieutenant_operator.Prelude.{String, ◌≡◌, refl, Option, none, some, if◌then◌else◌}
use lieutenant_operator.Errors.{Error, Outcome, ok, err, annotate, is_already_exists}

-- Calls that may fail and change the world, also where they fail.
abbrev pub Exec {ℓ} : Type ℓ → Type ℓ → Type ℓ
Exec W A = W → Outcome A × W

abbrev pub pure {ℓ} : {W A : Type ℓ} → A → Exec W A
pure a w = (ok a, w)

abbrev pub lift {ℓ} : {W A : Type ℓ} → Outcome A → Exec W A
lift r w = (r, w)

abbrev pub continue {ℓ} : {W A B : Type ℓ} → (A → Exec W B) → Outcome A → W → Outcome B × W
continue f (ok a) w = f a w
continue f (err e) w = (err e, w)

infixl 5 ◌>>=◌ ◌>>◌
abbrev pub ◌>>=◌ {ℓ} : {W A B : Type ℓ} → Exec W A → (A → Exec W B) → Exec W B
◌>>=◌ m f w = let (r, w') = m w in continue f r w'

abbrev pub ◌>>◌ {ℓ} : {W A B : Type ℓ} → Exec W A → Exec W B → Exec W B
m >> k = m >>= λ _. k

-- The call with its error wrapped.
abbrev pub annotated {ℓ} : {W A : Type ℓ} → String → Exec W A → Exec W A
annotated s m w = let (r, w') = m w in (annotate s r, w')

-- The answer of a call that returns an error alone.
abbrev pub ended : {W : Type 0} → Option Error × W → Outcome (Unit {0}) × W
ended (none, w) = (ok tt, w)
ended (some e, w) = (err e, w)

-- An object that is there already is no error.
abbrev pub ended_new : {W : Type 0} → Option Error × W → Outcome (Unit {0}) × W
ended_new (none, w) = (ok tt, w)
ended_new (some e, w) = if is_already_exists e then (ok tt, w) else (err e, w)

pub ended_keeps {ℓ} : {W : Type 0} (P : W → Type ℓ) (r : Option Error × W) → P r.1 → P (ended r).1
ended_keeps P (none, w) p = p
ended_keeps P (some e, w) p = p

pub ended-eq_ok : {W : Type 0} (r : Option Error × W) (w : W) → ended r ≡ (ok tt, w) → r ≡ (none, w)
ended-eq_ok (none, w) w' h = cc
ended-eq_ok (some e, w) w' h = cc

-- What holds of the world after a call, and after whatever follows it, holds at the end.
pub continue_keeps {ℓ κ} :
    {W A B : Type ℓ} (P : W → Type κ) (f : A → Exec W B) (r : Outcome A) (w : W)
    → P w
    → ((a : A) → P (f a w).1)
    → P (continue f r w).1
continue_keeps P f (ok a) w p k = k a
continue_keeps P f (err e) w p k = p

-- A sequence that succeeds has succeeded in its first call.
pub continue_ok {ℓ} :
    {W A B : Type ℓ} (f : A → Exec W B) (r : Outcome A) (w w' : W) (b : B)
    → continue f r w ≡ (ok b, w')
    → (a : A) × (r ≡ ok a) × (f a w ≡ (ok b, w'))
continue_ok f (ok a) w w' b h = (a, refl, h)
continue_ok f (err e) w w' b h = cc

pub continue_at {ℓ} :
    {W A B : Type ℓ} (f : A → Exec W B) (r : Outcome A) (a : A) (w : W)
    → r ≡ ok a
    → continue f r w ≡ f a w
continue_at f r a w h = rw h refl
