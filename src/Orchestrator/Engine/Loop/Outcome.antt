-- ===== src/Orchestrator/Engine/Loop/Outcome.antt =====
-- How the retry loop of a step ends.
use native.Mathlib.Numerals.{add-one}
use primitive_box.Prelude.{ℕ, zero, suc, ◌+◌, ◌≡◌, ◌⊎◌, refl, ap, true, Option, none, some, arith}
use primitive_box.Errors.{GoError}
use primitive_box.Orchestrator.{Step, StepStatus, Task}
use primitive_box.Orchestrator.Engine.{Engine}
use primitive_box.Orchestrator.Engine.Attempt.{Round, done, stop, again, attempt_step}
use primitive_box.Orchestrator.Engine.Attempt.Laws.{Halted, attempt_step-again, attempt_step-Halted}
use primitive_box.Orchestrator.Engine.Loop.{
  StepEnd, finished, refused, exhausted, after_round, retry_limit, attempt_loop,
  execute_step_with_recovery,
}

-- What holds of an end of the loop and the step as it is left.
abbrev pub EndsWell : StepEnd × Step → Type 0
EndsWell (finished r, step) = r.success ≡ true
EndsWell (refused err, step) =
    (step.status ≡ StepStatus.failed) ⊎ (step.status ≡ StepStatus.rolled_back)
EndsWell (exhausted last, step) = ⊥

module _ {W : Type 0} (e : Engine W) (task : Task) where
  after_round-EndsWell :
      (next : GoError → Step → W → StepEnd × Step × W) (round : Round × Step × W)
      → Halted (round.0, round.1)
      → ((err : GoError) (s : Step) (w : W)
          → round ≡ (again err, s, w)
          → EndsWell ((next err s w).0, (next err s w).1))
      → EndsWell ((after_round next round).0, (after_round next round).1)
  after_round-EndsWell next (done r, s, w) h rest = h
  after_round-EndsWell next (stop err, s, w) h rest = h
  after_round-EndsWell next (again err, s, w) h rest = rest err s w refl

  attempt_loop-EndsWell :
      (left attempt : ℕ) (last : Option GoError) (step : Step) (w : W)
      → suc left + attempt ≡ retry_limit task + 1
      → let out = attempt_loop e task (suc left) attempt last step w in EndsWell (out.0, out.1)
  unfolding attempt_loop
  attempt_loop-EndsWell zero attempt last step w sum =
      after_round-EndsWell _ (attempt_step e task step attempt (retry_limit task) w)
        (attempt_step-Halted e task step attempt (retry_limit task) w)
        (λ err s w' same. absurd (
          attempt_step-again e task step attempt (retry_limit task) w err (omega arith)
            (ap (λ x. x.0) same)))
  attempt_loop-EndsWell (suc left) attempt last step w sum =
      after_round-EndsWell
        (λ err s w'. attempt_loop e task (suc left) (attempt + 1) (some err) s w')
        (attempt_step e task step attempt (retry_limit task) w)
        (attempt_step-Halted e task step attempt (retry_limit task) w)
        (λ err s w' same. attempt_loop-EndsWell left (attempt + 1) (some err) s w' (omega arith))

  -- The retry loop always ends inside: with a successful result, or with an error that leaves the
  -- step failed or rolled back. The return below the loop is never reached.
  pub execute_step_with_recovery-EndsWell :
      (step : Step) (w : W)
      → let out = execute_step_with_recovery e task step w in EndsWell (out.0, out.1)
  unfolding execute_step_with_recovery
  execute_step_with_recovery-EndsWell step w =
      rw add-one (attempt_loop-EndsWell (retry_limit task) 0 none step w (omega arith))
