-- ===== src/Orchestrator/Engine/Run.antt =====
-- `RunTask` and `CreateTask` of engine.go. `RunTask` works on the task that the tracker points to,
-- so the task that it returns is also the one that the tracker then gives.
pub mod Outcome
use primitive_box.Prelude.{ℕ, ◌+◌, String, ◌<>◌, Option, none, some, List, [], ◌∷◌}
use primitive_box.Errors.{GoError, wrap}
use primitive_box.Json.{RawMessage}
use primitive_box.Orchestrator.{StepResult, Step, StepStatus, Task, TaskStatus}
use primitive_box.Orchestrator.Engine.{Engine}
use primitive_box.Orchestrator.Tracker.{StateTracker, track_task}
use primitive_box.Orchestrator.Engine.Loop.{
  StepEnd, finished, refused, exhausted, exhausted_error, execute_step_with_recovery, new_step,
}

-- How the loop over the steps ends.
pub record StepsEnd (W : Type 0) : Type 0 where
  pub steps : List Step
  pub error : Option GoError
  pub world : W

abbrev pub pass_step : Step → Option StepResult → Step
pass_step step result = record step { result = result; status = StepStatus.passed }

-- The end of one step of the loop, where `later` is the rest of it. The number in the message is
-- not rendered.
abbrev pub step_ended : {W : Type 0} → List Step → StepsEnd W → StepEnd × Step × W → StepsEnd W
step_ended rest later (finished r, step, w) = record later {
  steps = pass_step step (some r) ∷ later.steps;
}
step_ended rest later (refused err, step, w) = record {
  steps = step ∷ rest;
  error = some (wrap "task paused at step: " err);
  world = w;
}
step_ended rest later (exhausted last, step, w) = record {
  steps = step ∷ rest;
  error = some (wrap "task paused at step: " (exhausted_error step));
  world = w;
}

module _ {W : Type 0} (e : Engine W) where
  unfoldable pub run_steps : Task → List Step → W → StepsEnd W
  run_steps task [] w = record { steps = []; error = none; world = w }
  run_steps task (step ∷ rest) w =
      let out = execute_step_with_recovery e task step w in
      let later = run_steps task rest out.2 in step_ended rest later out

  abbrev final_status : Option GoError → TaskStatus
  final_status none = TaskStatus.completed
  final_status (some err) = TaskStatus.paused

  unfoldable pub run_task : StateTracker → Task → W → StateTracker × Task × Option GoError × W
  unfolding run_steps
  run_task tracker task w =
      let started = record task { status = TaskStatus.executing } in
      let out = run_steps started task.steps w in
      let ended = record task { status = final_status out.error; steps = out.steps } in
      (track_task tracker ended, ended, out.error, out.world)

-- `fresh` gives the random parts of the ids.
create_steps : (ℕ → String) → ℕ → List (String × RawMessage) → List Step
create_steps fresh i [] = []
create_steps fresh i ((primitive, params) ∷ rest) =
    new_step ("step-" <> fresh i) primitive params ∷ create_steps fresh (i + 1) rest

unfoldable pub create_task : (ℕ → String) → String → String → List (String × RawMessage) → Task
unfolding create_steps
create_task fresh description sandbox_id steps = record {
  id = "task-" <> fresh 0;
  description = description;
  sandbox_id = sandbox_id;
  status = TaskStatus.planning;
  steps = create_steps fresh 1 steps;
  retry_count = 0;
  max_retries = 3;
}
