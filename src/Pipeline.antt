-- ===== src/Pipeline.antt =====
-- pipeline/pipeline.go: the context, the results and the runner. The steps are in `Steps`.
pub mod Steps
pub mod Running
pub mod Protection
pub mod Updating
pub mod Labels
pub mod Examples
use lieutenant_operator.Prelude.{
  String, Bool, false, ◌||◌, Option, none, some, List, [], ◌∷◌, ◌<>◌, is_some, if◌then◌else◌,
}
use lieutenant_operator.Errors.{Error, wrap}
use lieutenant_operator.Api.Object.{Object}

-- The client, the logger and the reconciler are left to the functions' parameters.
pub record Context : Type 0 where
  pub finalizer_name : String
  pub deleted : Bool
  pub original_object : Option Object
  pub create_sa_token_secret : Bool
  pub default_creation_policy : String
  pub default_deletion_policy : String
  pub default_global_git_repo_url : String
  pub use_vault : Bool
  pub use_deletion_protection : Bool

pub record Result : Type 0 where
  pub abort : Bool
  pub err : Option Error
  pub requeue : Bool

-- `Result{}`
abbrev pub continue : Result
continue = record { abort = false; err = none; requeue = false }

-- `Result{Err: e}`
abbrev pub fail : Error → Result
fail e = record { abort = false; err = some e; requeue = false }

-- What a step may change: the object and the context, which it has pointers to, and the world.
pub record State (W : Type 0) : Type 0 where
  pub obj : Object
  pub ctx : Context
  pub world : W

abbrev pub Function : Type 0 → Type 0
Function W = State W → Result × State W

pub record Step (W : Type 0) : Type 0 where
  pub name : String
  pub f : Function W

-- `r.Abort || r.Err != nil`
abbrev pub stops : Result → Bool
stops r = r.abort || is_some r.err

-- The result of a pipeline that a step's result has stopped.
abbrev pub stopped : String → Result → Result
stopped name r = elim r.err [
  | none ↦ record { abort = false; err = none; requeue = r.requeue }
  | some e ↦ fail (wrap ("step " <> name <> " failed") e)
]

module _ {W : Type 0} where
  unfoldable pub run_pipeline : List (Step W) → Function W
  run_pipeline [] s = (continue, s)
  run_pipeline (step ∷ steps) s =
      let (r, t) = step.f s in
      let rest = run_pipeline steps t in if stops r then (stopped step.name r, t) else rest
