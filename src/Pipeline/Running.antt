-- ===== src/Pipeline/Running.antt =====
-- What `RunPipeline` promises of any steps.
use lieutenant_operator.Prelude.{
  ◌&&◌, ◌≡◌, refl, true, false, List, [], ◌∷◌, ◌++◌, All, arith, is_some,
}
use lieutenant_operator.Pipeline.{continue, State, Step, stops, stopped, run_pipeline}

module _ {W : Type 0} where
  -- The steps run from the first state to the second, and none of them stops.
  pub data Passes : List (Step W) → State W → State W → Type 0 where
    done : {s : State W} → Passes [] s s
    next :
        {steps : List (Step W)} {u : State W} (step : Step W) (s : State W)
        → stops (step.f s).0 ≡ false
        → Passes steps (step.f s).1 u
        → Passes (step ∷ steps) s u

  -- The first step that stops decides the result, and the steps behind it do not run: whatever
  -- they are, the state is the one that it left.
  pub run_pipeline_stop :
      {before : List (Step W)} {s u : State W} (step : Step W) (after : List (Step W))
      → Passes before s u
      → stops (step.f u).0 ≡ true
      → run_pipeline (before ++ step ∷ after) s ≡ (stopped step.name (step.f u).0, (step.f u).1)
  unfolding run_pipeline
  run_pipeline_stop step after done h = ground arith
  run_pipeline_stop step after (next first s p rest) h =
      ground (arith, run_pipeline_stop step after rest h)

  -- Where no step stops, the result is empty and the state is that of all of them in turn.
  pub run_pipeline_pass :
      {steps : List (Step W)} {s u : State W}
      → Passes steps s u
      → run_pipeline steps s ≡ (continue, u)
  unfolding run_pipeline
  run_pipeline_pass done = refl
  run_pipeline_pass (next step s p rest) = ground (arith, run_pipeline_pass rest)

  -- A pipeline never asks its caller to abort, and never asks for a requeue beside an error.
  pub run_pipeline_result :
      (steps : List (Step W)) (s : State W)
      → ((run_pipeline steps s).0.abort ≡ false)
        × ((is_some (run_pipeline steps s).0.err && (run_pipeline steps s).0.requeue) ≡ false)
  unfolding run_pipeline
  run_pipeline_result [] s = ground arith
  run_pipeline_result (step ∷ steps) s = ground (arith, run_pipeline_result steps (step.f s).1)

  -- Where every step that aborts asks for no requeue, the pipeline asks for none, whatever the
  -- steps that do not abort ask for.
  pub requeue_needs_abort :
      (steps : List (Step W)) (s : State W)
      → All (λ step. (t : State W) → (step.f t).0.abort ≡ true → (step.f t).0.requeue ≡ false) steps
      → (run_pipeline steps s).0.requeue ≡ false
  unfolding run_pipeline
  requeue_needs_abort [] s h = refl
  requeue_needs_abort (step ∷ steps) s h =
      ground (arith, h.0 s, requeue_needs_abort steps (step.f s).1 h.1)

  -- Where the steps before keep a property of the state and never abort, and a step fails under the
  -- property, the pipeline fails, at that step or before it.
  pub run_pipeline_blocked {ℓ} :
      (P : State W → Type ℓ) (before : List (Step W)) (step : Step W) (after : List (Step W))
      (s : State W)
      → All (λ b. (t : State W) → P t → ((b.f t).0.abort ≡ false) × P (b.f t).1) before
      → ((t : State W) → P t → is_some (step.f t).0.err ≡ true)
      → P s
      → is_some (run_pipeline (before ++ step ∷ after) s).0.err ≡ true
  unfolding run_pipeline
  run_pipeline_blocked P [] step after s keep fails p = ground (arith, fails s p)
  run_pipeline_blocked P (b ∷ before) step after s keep fails p =
      let q = keep.0 s p in
      let rest = run_pipeline_blocked P before step after (b.f s).1 keep.1 fails q.1 in
      ground (arith)
