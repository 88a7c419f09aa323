-- ===== src/Errors.antt =====
-- Go errors as values: those of `fmt.Errorf` and `errors.New`, those that wrap another (`%w`), and
-- the answers of the Kubernetes and GitLab APIs that the code tells apart.
use lieutenant_operator.Prelude.{
  ◌⊎◌, inl, inr, refl, String, ◌≡◌, ◌↔◌, Bool, true, false, Option, none, some, List, [],
}

pub data Reason : Type 0 where
  not_found already_exists conflict not_registered other : Reason

pub data Error : Type 0 where
  msg : String → Error
  wrap : String → Error → Error
  status : Reason → Error
  repo_not_found : Error
  -- A nil pointer or an index out of range, which ends the reconciliation.
  panicked : Error
  -- No error of the code: a loop of the model ran out of fuel.
  out_of_fuel : Error

-- The reason of a status error anywhere in the chain of wrapped errors.
abbrev pub reason_of : Error → Option Reason
reason_of (msg s) = none
reason_of (wrap s e) = reason_of e
reason_of (status r) = some r
reason_of repo_not_found = none
reason_of panicked = none
reason_of out_of_fuel = none

-- `errors.IsNotFound` of the Kubernetes API, and `errors.Is(err, gitlab.ErrNotFound)`
abbrev pub is_not_found : Error → Bool
is_not_found e = elim (reason_of e) [
  | none ↦ false
  | some r ↦ elim r [ not_found ↦ true | _ ↦ false ]
]

-- `errors.IsAlreadyExists`
abbrev pub is_already_exists : Error → Bool
is_already_exists e = elim (reason_of e) [
  | none ↦ false
  | some r ↦ elim r [ already_exists ↦ true | _ ↦ false ]
]

-- `runtime.IsNotRegisteredError`, which looks at the error itself alone.
abbrev pub is_not_registered : Error → Bool
is_not_registered (status not_registered) = true
is_not_registered _ = false

-- `errors.IsConflict`
abbrev pub is_conflict : Error → Bool
is_conflict e = elim (reason_of e) [
  | none ↦ false
  | some r ↦ elim r [ conflict ↦ true | _ ↦ false ]
]

-- `errors.Is(err, manager.ErrRepoNotFound)`
abbrev pub is_repo_not_found : Error → Bool
is_repo_not_found (msg s) = false
is_repo_not_found (wrap s e) = is_repo_not_found e
is_repo_not_found (status r) = false
is_repo_not_found repo_not_found = true
is_repo_not_found panicked = false
is_repo_not_found out_of_fuel = false

-- `(value, error)`, where the code reads the value only if the error is nil.
pub data Outcome {ℓ} (A : Type ℓ) : Type ℓ where
  ok : A → Outcome A
  err : Error → Outcome A

pub Outcome-cases :
    {A : Type 0} (r : Outcome A) → ((a : A) × (r ≡ ok a)) ⊎ ((e : Error) × (r ≡ err e))
Outcome-cases (ok a) = inl (a, refl)
Outcome-cases (err e) = inr (e, refl)

pub ok-injective {ℓ} : {A : Type ℓ} {a b : A} → ok a ≡ ok b → a ≡ b
ok-injective h = cc

infixl 5 ◌>>=◌
abbrev pub ◌>>=◌ {ℓ κ} : {A : Type ℓ} {B : Type κ} → Outcome A → (A → Outcome B) → Outcome B
ok a >>= f = f a
err e >>= f = err e

-- `fmt.Errorf("s: %w", err)` where there is an error
abbrev pub annotate {ℓ} : {A : Type ℓ} → String → Outcome A → Outcome A
annotate s (ok a) = ok a
annotate s (err e) = err (wrap s e)

-- go.uber.org/multierr, which the code calls to report several errors as one.
pub record Multierr : Type 0 where
  pub combine : List Error → Option Error
  pub combine_iff : (es : List Error) → (combine es ≡ none) ↔ (es ≡ [])
