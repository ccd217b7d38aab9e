-- ===== src/Orchestrator/Engine/Attempt/Pause.antt =====
-- The errors of one round of `executeStepWithRecovery`, against the sentinel of a goal's pause.
use primitive_box.Prelude.{
  ℕ, ◌≡◌, refl, true, false, ◌&&◌, Option, none, some, inl, inr, Bool-cases, arith,
}
use primitive_box.Errors.{
  GoError, sentinel, message, layer_a, wrap, error_is, depth_exceeded, goal_paused,
}
use primitive_box.Cvr.{CvrResult}
use primitive_box.Orchestrator.{Step, StepResult, Task, RecoveryAction, AppPrimitiveManifest}
use primitive_box.Orchestrator.Adapter.{AdapterState}
use primitive_box.Orchestrator.Engine.{Engine}
use primitive_box.Orchestrator.Engine.Attempt.{
  Round, stop, finish, settle, judge_round, after_cvr, attempt_step, started, run_cvr,
}

depth_is_no_pause :
    (err : GoError) → error_is depth_exceeded err ≡ true → error_is goal_paused err ≡ false
unfolding error_is
depth_is_no_pause (sentinel s) h = ground arith
depth_is_no_pause (message m) h = ground arith
depth_is_no_pause (layer_a e) h = depth_is_no_pause e h
depth_is_no_pause (wrap s e) h = depth_is_no_pause e h

-- An error that the round stops with is no pause.
abbrev pub NoPause : Round → Type 0
NoPause (stop err) = error_is goal_paused err ≡ false
NoPause _ = Unit {0}

finish-NoPause :
    (action : RecoveryAction) (err : GoError) (step : Step) → NoPause (finish action err step).0
unfolding finish error_is
finish-NoPause RecoveryAction.retry err step = tt
finish-NoPause RecoveryAction.pause err step = refl
finish-NoPause RecoveryAction.fail err step = refl
finish-NoPause RecoveryAction.continue err step = tt

module _ {W : Type 0} (e : Engine W) (task : Task) (step : Step) (attempt max_retries : ℕ) where
  judge_round-NoPause :
      (step : Step) (manifest : Option AppPrimitiveManifest) (r : CvrResult) (err : Option GoError)
      (result : Option StepResult) (w : W)
      → NoPause (judge_round e task step attempt max_retries manifest r err result w).0
  unfolding judge_round settle
  judge_round-NoPause step manifest r (some err) result w =
      elim (Bool-cases (error_is depth_exceeded err)) [
        | inl deep ↦ rw deep (depth_is_no_pause err deep)
        | inr other ↦ rw other (finish-NoPause _ _ _)
      ]
  judge_round-NoPause step manifest r none none w = finish-NoPause _ _ _
  judge_round-NoPause step manifest r none (some result) w =
      elim (Bool-cases (r.passed && result.success)) [
        | inl good ↦ rw good tt
        | inr bad ↦ rw bad (finish-NoPause _ _ _)
      ]

  after_cvr-NoPause :
      (step : Step) (w : W) (called : CvrResult × Option GoError × AdapterState W)
      → NoPause (after_cvr e task step attempt max_retries w called).0
  unfolding after_cvr
  after_cvr-NoPause step w (r, err, a) = judge_round-NoPause _ _ r err _ _

  -- A round of the engine never stops with the sentinel of a goal's pause.
  pub attempt_step-NoPause : (w : W) → NoPause (attempt_step e task step attempt max_retries w).0
  unfolding attempt_step
  attempt_step-NoPause w =
      after_cvr-NoPause (started step) w (run_cvr e task (started step) attempt w)
