-- ===== src/Orchestrator/Engine/Run/Outcome.antt =====
-- What `RunTask` leaves of a task.
use primitive_box.Prelude.{
  ◌≡◌, ◌≢◌, ◌↔◌, ◌⊎◌, refl, true, Option, none, some, List, [], ◌∷◌, inl, inr, arith,
}
use primitive_box.Errors.{GoError}
use primitive_box.Orchestrator.{StepResult, Step, StepStatus, Task, TaskStatus}
use primitive_box.Orchestrator.Engine.{Engine}
use primitive_box.Orchestrator.Engine.Loop.{
  StepEnd, finished, refused, exhausted, execute_step_with_recovery,
}
use primitive_box.Orchestrator.Engine.Loop.Outcome.{EndsWell, execute_step_with_recovery-EndsWell}
use primitive_box.Orchestrator.Engine.Run.{
  StepsEnd, run_steps, run_task, pass_step, step_ended, final_status,
}
use primitive_box.Orchestrator.Tracker.{StateTracker, get_task, get_task-track_task}
use text.Mathlib.TextPositions.{eq_refl}

-- A step that passed, with the result of a successful call.
abbrev pub Passed : Step → Type 0
Passed s =
    (s.status ≡ StepStatus.passed) × ((r : StepResult) × (s.result ≡ some r) × (r.success ≡ true))

-- The steps after a run, against those before it: passed up to the first that did not, which is
-- failed or rolled back, and behind it nothing was touched.
abbrev pub RanTo : Option GoError → List Step → List Step → Type 0
RanTo none [] [] = Unit {0}
RanTo (some err) [] [] = ⊥
RanTo err [] (t ∷ after) = ⊥
RanTo err (s ∷ before) [] = ⊥
RanTo none (s ∷ before) (t ∷ after) = Passed t × RanTo none before after
RanTo (some err) (s ∷ before) (t ∷ after) =
    (Passed t × RanTo (some err) before after)
    ⊎ (((t.status ≡ StepStatus.failed) ⊎ (t.status ≡ StepStatus.rolled_back)) × (after ≡ before))

RanTo-Passed :
    (err : Option GoError) (s t : Step) (before after : List Step)
    → Passed t
    → RanTo err before after
    → RanTo err (s ∷ before) (t ∷ after)
RanTo-Passed none s t before after p h = (p, h)
RanTo-Passed (some err) s t before after p h = inl (p, h)

-- If `RanTo` holds of the rest of the loop, it holds of the loop with this step in front.
step_ended-RanTo :
    {W : Type 0} (step : Step) (rest : List Step) (later : StepsEnd W) (out : StepEnd × Step × W)
    → EndsWell (out.0, out.1)
    → RanTo later.error rest later.steps
    → RanTo (step_ended rest later out).error (step ∷ rest) (step_ended rest later out).steps
step_ended-RanTo step rest later (finished r, s, w) well h =
    RanTo-Passed later.error step (pass_step s (some r)) rest later.steps (refl, (r, refl, well)) h
step_ended-RanTo step rest later (refused err, s, w) well h = inr (well, refl)
step_ended-RanTo step rest later (exhausted last, s, w) well h = absurd well

module _ {W : Type 0} (e : Engine W) where
  run_steps-RanTo :
      (task : Task) (steps : List Step) (w : W)
      → RanTo (run_steps e task steps w).error steps (run_steps e task steps w).steps
  unfolding run_steps
  run_steps-RanTo task [] w = tt
  run_steps-RanTo task (step ∷ rest) w =
      let out = execute_step_with_recovery e task step w in
      step_ended-RanTo step rest (run_steps e task rest out.2) out
        (execute_step_with_recovery-EndsWell e task step w) (run_steps-RanTo task rest out.2)

  -- A task is completed exactly if no error is returned, and is paused otherwise. The steps have
  -- passed with successful results, all of them where the task completed; else up to the first that
  -- did not, which is failed or rolled back, and behind which nothing was touched. The tracker then
  -- gives this task under its id.
  pub run_task-RanTo :
      (tracker : StateTracker) (task : Task) (w : W)
      → let out = run_task e tracker task w in
        RanTo out.2 task.steps out.1.steps
        × ((out.1.status ≡ TaskStatus.completed) ↔ (out.2 ≡ none))
        × ((out.1.status ≡ TaskStatus.paused) ↔ (out.2 ≢ none))
        × (get_task out.0 task.id ≡ some out.1)
  unfolding run_task
  run_task-RanTo tracker task w =
      let started = record task { status = TaskStatus.executing } in
      let out = run_steps e started task.steps w in
      let ended = record task { status = final_status e out.error; steps = out.steps } in
      (
        run_steps-RanTo started task.steps w,
        ground arith,
        ground arith,
        rw get_task-track_task (rw eq_refl refl),
      )
