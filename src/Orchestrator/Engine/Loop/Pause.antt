-- ===== src/Orchestrator/Engine/Loop/Pause.antt =====
-- What the goal coordinator may rely on in the results of `ExecuteStepViaCVR`.
use primitive_box.Prelude.{ℕ, zero, suc, ◌+◌, String, ◌≡◌, true, false, Option, none, some}
use primitive_box.Errors.{GoError, error_is, goal_paused}
use primitive_box.Json.{RawMessage}
use primitive_box.Orchestrator.{Step, StepResult, Task}
use primitive_box.Orchestrator.Engine.{Engine}
use primitive_box.Orchestrator.Engine.Attempt.{Round, done, stop, again, attempt_step}
use primitive_box.Orchestrator.Engine.Attempt.Pause.{NoPause, attempt_step-NoPause}
use primitive_box.Orchestrator.Engine.Loop.{
  StepEnd, finished, refused, exhausted, error_of, result_of, after_round, retry_limit,
  attempt_loop, execute_step_with_recovery, execute_step_via_cvr, ephemeral_task, new_step,
}
use primitive_box.Orchestrator.Engine.Loop.Outcome.{EndsWell, execute_step_with_recovery-EndsWell}

abbrev pub EndsUnpaused : StepEnd → Type 0
EndsUnpaused (refused err) = error_is goal_paused err ≡ false
EndsUnpaused _ = Unit {0}

-- A result and no error, or an error that is no pause and no result; a result is a success.
abbrev pub Answered : Option StepResult → Option GoError → Type 0
Answered (some r) none = r.success ≡ true
Answered none (some err) = error_is goal_paused err ≡ false
Answered _ _ = ⊥

answered :
    (task_step step : Step) (out : StepEnd)
    → EndsWell (out, step)
    → EndsUnpaused out
    → Answered (result_of out) (error_of task_step out)
answered task_step step (finished r) well quiet = well
answered task_step step (refused err) well quiet = quiet
answered task_step step (exhausted last) well quiet = absurd well

module _ {W : Type 0} (e : Engine W) where
  module _ (task : Task) where
    after_round-EndsUnpaused :
        (next : GoError → Step → W → StepEnd × Step × W) (round : Round × Step × W)
        → NoPause round.0
        → ((err : GoError) (s : Step) (w : W) → EndsUnpaused (next err s w).0)
        → EndsUnpaused (after_round next round).0
    after_round-EndsUnpaused next (done r, s, w) h rest = tt
    after_round-EndsUnpaused next (stop err, s, w) h rest = h
    after_round-EndsUnpaused next (again err, s, w) h rest = rest err s w

    attempt_loop-EndsUnpaused :
        (left attempt : ℕ) (last : Option GoError) (step : Step) (w : W)
        → EndsUnpaused (attempt_loop e task left attempt last step w).0
    unfolding attempt_loop
    attempt_loop-EndsUnpaused zero attempt last step w = tt
    attempt_loop-EndsUnpaused (suc left) attempt last step w =
        after_round-EndsUnpaused _ (attempt_step e task step attempt (retry_limit task) w)
          (attempt_step-NoPause e task step attempt (retry_limit task) w)
          (λ err s w'. attempt_loop-EndsUnpaused left (attempt + 1) (some err) s w')

  -- `ExecuteStepViaCVR` returns either a result of a successful call and no error, or an error and
  -- no result; the error is never the sentinel of a goal's pause.
  pub execute_step_via_cvr-Answered :
      (task_id sandbox_id step_id primitive : String) (input : RawMessage) (w : W)
      → let out = execute_step_via_cvr e task_id sandbox_id step_id primitive input w in
        Answered out.0 out.1
  unfolding execute_step_via_cvr execute_step_with_recovery
  execute_step_via_cvr-Answered task_id sandbox_id step_id primitive input w =
      let step = new_step step_id primitive input in
      let task = ephemeral_task task_id sandbox_id step in
      let out = execute_step_with_recovery e task step w in
      answered step out.1 out.0 (execute_step_with_recovery-EndsWell e task step w)
        (attempt_loop-EndsUnpaused task (retry_limit task + 1) 0 none step w)
