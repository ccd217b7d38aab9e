-- ===== src/Orchestrator/Engine/Loop.antt =====
-- The loop of `executeStepWithRecovery` in engine.go, over attempts 0 to `max_retries`, and its
-- entry point `ExecuteStepViaCVR`.
pub mod Outcome
pub mod Sound
pub mod Pause
use primitive_box.Prelude.{
  ℕ, zero, suc, ◌+◌, String, ◌<>◌, false, Option, none, some, [], ◌∷◌, ltb, if◌then◌else◌,
}
use primitive_box.Errors.{GoError, message}
use primitive_box.Json.{RawMessage, absent}
use primitive_box.Orchestrator.{StepResult, Step, StepStatus, Task, TaskStatus}
use primitive_box.Orchestrator.Engine.{Engine}
use primitive_box.Orchestrator.Engine.Attempt.{Round, done, stop, again, attempt_step}

pub data StepEnd : Type 0 where
  finished : StepResult → StepEnd
  refused : GoError → StepEnd
  exhausted : Option GoError → StepEnd

-- The return below the loop; the numbers and the last error in its message are not rendered.
abbrev pub exhausted_error : Step → GoError
exhausted_error step = message ("step " <> (step.primitive <> " failed after all attempts"))

abbrev pub error_of : Step → StepEnd → Option GoError
error_of step (finished r) = none
error_of step (refused e) = some e
error_of step (exhausted last) = some (exhausted_error step)

abbrev pub result_of : StepEnd → Option StepResult
result_of (finished r) = some r
result_of _ = none

unfoldable pub retry_limit : Task → ℕ
retry_limit task = if ltb 0 task.max_retries then task.max_retries else 3

-- The entry point's ephemeral task: one retry after the first attempt.
abbrev pub ephemeral_task : String → String → Step → Task
ephemeral_task task_id sandbox_id step = record {
  id = task_id;
  description = "";
  sandbox_id = sandbox_id;
  status = TaskStatus.executing;
  steps = step ∷ [];
  retry_count = 0;
  max_retries = 1;
}

abbrev pub new_step : String → String → RawMessage → Step
new_step id primitive input = record {
  id = id;
  primitive = primitive;
  input = input;
  output = absent;
  result = none;
  checkpoint_id = "";
  status = StepStatus.pending;
  error = "";
  escalated = false;
}

-- The end of a round, where `next` is the rest of the loop.
abbrev pub after_round :
    {W : Type 0} → (GoError → Step → W → StepEnd × Step × W) → Round × Step × W → StepEnd × Step × W
after_round next (done r, step, w) = (finished r, step, w)
after_round next (stop err, step, w) = (refused err, step, w)
after_round next (again err, step, w) = next err step w

module _ {W : Type 0} (e : Engine W) where
  -- `left` is the number of attempts that the loop condition still allows.
  unfoldable pub attempt_loop : Task → ℕ → ℕ → Option GoError → Step → W → StepEnd × Step × W
  attempt_loop task zero attempt last step w = (exhausted last, step, w)
  attempt_loop task (suc left) attempt last step w =
      after_round (λ err step' w'. attempt_loop task left (attempt + 1) (some err) step' w')
        (attempt_step e task step attempt (retry_limit task) w)

  unfoldable pub execute_step_with_recovery : Task → Step → W → StepEnd × Step × W
  execute_step_with_recovery task step w = attempt_loop task (retry_limit task + 1) 0 none step w

  unfoldable pub execute_step_via_cvr :
      String → String → String → String → RawMessage → W → Option StepResult × Option GoError × W
  unfolding execute_step_with_recovery
  execute_step_via_cvr task_id sandbox_id step_id primitive input w =
      let step = new_step step_id primitive input in
      let out = execute_step_with_recovery (ephemeral_task task_id sandbox_id step) step w in
      (result_of out.0, error_of step out.0, out.2)
