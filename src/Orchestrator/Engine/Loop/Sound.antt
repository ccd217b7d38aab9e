-- ===== src/Orchestrator/Engine/Loop/Sound.antt =====
-- The result of `executeStepWithRecovery`, against what was executed.
use primitive_box.Prelude.{
  ℕ, zero, suc, ◌+◌, ◌≤◌, ◌≡◌, refl, sym, ◌∙◌, ap, true, Option, none, some, arith,
}
use primitive_box.Errors.{GoError}
use primitive_box.Cvr.Coordinator.Outcome.{Succeeded, execute-passed}
use primitive_box.Orchestrator.{StepResult, Step, Task}
use primitive_box.Orchestrator.Adapter.{fresh}
use primitive_box.Cvr.Tree.{new_default_decision_tree}
use primitive_box.Orchestrator.Engine.{Engine}
use primitive_box.Orchestrator.Engine.Attempt.{
  cvr_decision_tree, Round, done, stop, again, started, run_cvr, attempt_step, step_coordinator,
  step_request,
}
use primitive_box.Orchestrator.Engine.Attempt.Sound.{
  SameStep, SameStep-trans, result_in, attempt_step-SameStep, attempt_step-done, run_cvr-SameStep,
}
use primitive_box.Orchestrator.Engine.Loop.{
  StepEnd, finished, after_round, retry_limit, attempt_loop, execute_step_with_recovery,
}

module _ {W : Type 0} (e : Engine W) (task : Task) where
  -- Some attempt within the limit ran the step's primitive through the coordinator, which passed
  -- it: the executor returned no error and success, and the verification in force accepted. The
  -- result is the one that the executor gave.
  pub record Delivered (step : Step) (out : StepResult) : Type 0 where
    pub attempt : ℕ
    pub world : W
    pub within : attempt ≤ retry_limit task
    pub passed : (run_cvr e task step attempt world).0.passed ≡ true
    pub succeeded :
        Succeeded (step_coordinator e task) (step_request e task step attempt world) (fresh world)
    pub delivered : result_in (run_cvr e task step attempt world).2 ≡ some out

  run_cvr-Succeeded :
      (step : Step) (attempt : ℕ) (w : W)
      → (run_cvr e task step attempt w).0.passed ≡ true
      → Succeeded (step_coordinator e task) (step_request e task step attempt w) (fresh w)
  unfolding run_cvr
  run_cvr-Succeeded step attempt w h =
      (execute-passed (step_coordinator e task) (step_request e task step attempt w) (fresh w) h).1

  module _ (default : cvr_decision_tree e.cvr_tree ≡ new_default_decision_tree) (step : Step) where
    attempt_step-Delivered :
        (s : Step) (attempt : ℕ) (w : W) {out : StepResult}
        → SameStep step s
        → attempt ≤ retry_limit task
        → (attempt_step e task s attempt (retry_limit task) w).0 ≡ done out
        → Delivered step out
    attempt_step-Delivered s attempt w same within h =
        let (ok, result) = attempt_step-done e task s attempt (retry_limit task) w default h in
        let eq = run_cvr-SameStep e task step (started s) attempt w same in
        let here : (run_cvr e task step attempt w).0.passed ≡ true =
          sym (ap (λ x. x.0.passed) eq) ∙ ok in
        record {
          attempt = attempt;
          world = w;
          within = within;
          passed = here;
          succeeded = run_cvr-Succeeded step attempt w here;
          delivered = sym (ap (λ x. result_in x.2) eq) ∙ result;
        }

    after_round-Delivered :
        (next : GoError → Step → W → StepEnd × Step × W) (round : Round × Step × W)
        {out : StepResult}
        → (round.0 ≡ done out → Delivered step out)
        → ((err : GoError) → (next err round.1 round.2).0 ≡ finished out → Delivered step out)
        → (after_round next round).0 ≡ finished out
        → Delivered step out
    after_round-Delivered next (done r, s, w) now later h = now (cc)
    after_round-Delivered next (stop err, s, w) now later h = absurd (ground arith)
    after_round-Delivered next (again err, s, w) now later h = later err h

    attempt_loop-Delivered :
        (left attempt : ℕ) (last : Option GoError) (s : Step) (w : W) {out : StepResult}
        → SameStep step s
        → left + attempt ≡ retry_limit task + 1
        → (attempt_loop e task left attempt last s w).0 ≡ finished out
        → Delivered step out
    unfolding attempt_loop
    attempt_loop-Delivered zero attempt last s w same sum h = absurd (ground arith)
    attempt_loop-Delivered (suc left) attempt last s w same sum h =
        let round = attempt_step e task s attempt (retry_limit task) w in
        after_round-Delivered (λ err s' w'. attempt_loop e task left (attempt + 1) (some err) s' w')
          round (attempt_step-Delivered s attempt w same (omega arith))
          (λ err.
            attempt_loop-Delivered left (attempt + 1) (some err) round.1 round.2
              (SameStep-trans step s round.1 same
                (attempt_step-SameStep e task s attempt (retry_limit task) w))
              (omega arith))
          h

    -- Where the decision tree in force is the default one, a step is reported as done only if some
    -- attempt within the retry limit executed its primitive with success and had it accepted by the
    -- verification in force; the result reported is that of the executor.
    pub execute_step_with_recovery-Delivered :
        (w : W) {out : StepResult}
        → (execute_step_with_recovery e task step w).0 ≡ finished out
        → Delivered step out
    unfolding execute_step_with_recovery
    execute_step_with_recovery-Delivered w h =
        attempt_loop-Delivered (retry_limit task + 1) 0 none step w (refl, refl, refl) (omega arith)
          h
