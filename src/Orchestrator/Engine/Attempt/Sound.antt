-- ===== src/Orchestrator/Engine/Attempt/Sound.antt =====
-- The result of one round of `executeStepWithRecovery`, against its CVR run.
use primitive_box.Prelude.{
  ℕ, ◌≡◌, ◌≢◌, refl, ◌∙◌, true, ◌&&◌, Option, none, some, inl, inr, Bool-cases, arith,
}
use primitive_box.Errors.{GoError, error_is, depth_exceeded}
use primitive_box.Cvr.{CvrResult}
use primitive_box.Cvr
use primitive_box.Cvr.Tree.{new_default_decision_tree}
use primitive_box.Cvr.Coordinator.{new_cvr_coordinator}
use primitive_box.Cvr.Coordinator.Outcome.{execute-Decides}
use primitive_box.Orchestrator.{
  StepResult, Step, Task, RecoveryAction, continue, AppPrimitiveManifest,
}
use primitive_box.Orchestrator.Recovery.{decide}
use primitive_box.Orchestrator.Adapter.{AdapterState, fresh}
use primitive_box.Orchestrator.Engine.{Engine}
use primitive_box.Orchestrator.Engine.Intent.{lookup_app_manifest}
use primitive_box.Orchestrator.Engine.Attempt.{
  done, finish, recover, rolled_back, settle, judge_round, after_cvr, attempt_step, step_error,
  action_of, last_error, started, run_cvr, step_coordinator, step_request, cvr_decision_tree,
  or_else, persist_trace_record, trace_record,
}

-- What a step keeps from round to round.
abbrev pub SameStep : Step → Step → Type 0
SameStep s t = (s.id ≡ t.id) × (s.primitive ≡ t.primitive) × (s.input ≡ t.input)

pub SameStep-trans : (s t u : Step) → SameStep s t → SameStep t u → SameStep s u
SameStep-trans s t u a b = (a.0 ∙ b.0, a.1 ∙ b.1, a.2 ∙ b.2)

finish-SameStep :
    (a : RecoveryAction) (err : GoError) (step : Step) → SameStep step (finish a err step).1
unfolding finish
finish-SameStep a err step = ground arith

finish-done :
    (a : RecoveryAction) (err : GoError) (step : Step) {r : StepResult}
    → (finish a err step).0 ≡ done r
    → a ≡ continue
unfolding finish
finish-done a err step h = ground arith

abbrev pub result_in : {W : Type 0} → AdapterState W → Option StepResult
result_in a = or_else a.main_result a.last_result

module _ {W : Type 0} (e : Engine W) (task : Task) where
  recover-SameStep :
      (action : Cvr.RecoveryAction) (step : Step) (attempt max_retries : ℕ)
      (result : Option StepResult) (r : CvrResult) (manifest : Option AppPrimitiveManifest)
      (err : GoError) (w : W)
      → SameStep step (recover e task action step attempt max_retries result r manifest err w).2
  unfolding recover rolled_back
  recover-SameStep action step attempt max_retries result r manifest err w = ground arith

  recover-continue :
      (action : Cvr.RecoveryAction) (step : Step) (attempt max_retries : ℕ)
      (result : Option StepResult) (r : CvrResult) (manifest : Option AppPrimitiveManifest)
      (err : GoError) (w : W)
      → (recover e task action step attempt max_retries result r manifest err w).0 ≡ continue
      → action ≡ Cvr.RecoveryAction.skip
  unfolding recover rolled_back decide
  recover-continue action step attempt max_retries result r manifest err w h = ground arith

  action_of-skip :
      (manifest : Option AppPrimitiveManifest) (r : CvrResult)
      → action_of manifest r ≡ Cvr.RecoveryAction.skip
      → r.applied_action ≡ Cvr.RecoveryAction.skip
  action_of-skip manifest r h = ground arith

  module _ (step : Step) (attempt max_retries : ℕ) (manifest : Option AppPrimitiveManifest)
      (r : CvrResult) (w : W) where
    abbrev chosen : Option GoError → Option StepResult → RecoveryAction × GoError × Step × W
    chosen err result =
        recover e task (action_of manifest r) step attempt max_retries result r manifest
          (last_error err (step_error result) r.strategy_result.message) w

    settle-SameStep :
        (err : Option GoError) (result : Option StepResult)
        → SameStep step (settle e task step attempt max_retries manifest r err result w).1
    unfolding settle
    settle-SameStep err result =
        let (action, last, step', w') = chosen err result in
        ground (
          arith,
          finish-SameStep action last step',
          recover-SameStep (action_of manifest r) step attempt max_retries result r manifest
              (last_error err (step_error result) r.strategy_result.message) w,
        )

    settle-done :
        (err : Option GoError) (result : Option StepResult) {out : StepResult}
        → (settle e task step attempt max_retries manifest r err result w).0 ≡ done out
        → r.applied_action ≡ Cvr.RecoveryAction.skip
    unfolding settle
    settle-done err result h =
        let (action, last, step', w') = chosen err result in
        action_of-skip manifest r (
          recover-continue (action_of manifest r) step attempt max_retries result r manifest
            (last_error err (step_error result) r.strategy_result.message) w
            (finish-done action last step' h))

    judge_round-SameStep :
        (err : Option GoError) (result : Option StepResult)
        → SameStep step (judge_round e task step attempt max_retries manifest r err result w).1
    unfolding judge_round
    judge_round-SameStep (some err) result = elim (Bool-cases (error_is depth_exceeded err)) [
      | inl deep ↦ rw deep (refl, refl, refl)
      | inr other ↦ rw other (settle-SameStep (some err) result)
    ]
    judge_round-SameStep none none = settle-SameStep none none
    judge_round-SameStep none (some result) = elim (Bool-cases (r.passed && result.success)) [
      | inl good ↦ rw good (refl, refl, refl)
      | inr bad ↦ rw bad (settle-SameStep none (some result))
    ]

    judge_round-done :
        (err : Option GoError) (result : Option StepResult) {out : StepResult}
        → r.applied_action ≢ Cvr.RecoveryAction.skip
        → (judge_round e task step attempt max_retries manifest r err result w).0 ≡ done out
        → (r.passed ≡ true) × (result ≡ some out)
    unfolding judge_round
    judge_round-done (some err) result no_skip h = elim (Bool-cases (error_is depth_exceeded err)) [
      | inl deep ↦ absurd (ground arith)
      | inr other ↦ absurd (no_skip (settle-done (some err) result (rw other at h)))
    ]
    judge_round-done none none no_skip h = absurd (no_skip (settle-done none none h))
    judge_round-done none (some result) no_skip h = elim (Bool-cases (r.passed && result.success)) [
      | inl good ↦ ground arith
      | inr bad ↦ absurd (no_skip (settle-done none (some result) (rw bad at h)))
    ]

  module _ (step : Step) (attempt max_retries : ℕ) (w : W) where
    after_cvr-SameStep :
        (called : CvrResult × Option GoError × AdapterState W)
        → SameStep step (after_cvr e task step attempt max_retries w called).1
    unfolding after_cvr
    after_cvr-SameStep (r, err, a) =
        judge_round-SameStep (record step { checkpoint_id = r.checkpoint_id }) attempt max_retries
          (lookup_app_manifest e step.primitive w) r
          (persist_trace_record e.trace_store
            (trace_record e task step attempt w r err (result_in a)) a.world)
          err (result_in a)

    after_cvr-done :
        (called : CvrResult × Option GoError × AdapterState W) {out : StepResult}
        → called.0.applied_action ≢ Cvr.RecoveryAction.skip
        → (after_cvr e task step attempt max_retries w called).0 ≡ done out
        → (called.0.passed ≡ true) × (result_in called.2 ≡ some out)
    unfolding after_cvr
    after_cvr-done (r, err, a) no_skip h =
        judge_round-done (record step { checkpoint_id = r.checkpoint_id }) attempt max_retries
          (lookup_app_manifest e step.primitive w) r
          (persist_trace_record e.trace_store
            (trace_record e task step attempt w r err (result_in a)) a.world)
          err (result_in a) no_skip h

  step_coordinator-tree :
      cvr_decision_tree e.cvr_tree ≡ new_default_decision_tree
      → (step_coordinator e task).tree ≡ new_default_decision_tree
  unfolding step_coordinator cvr_decision_tree new_cvr_coordinator new_default_decision_tree
  step_coordinator-tree h = ground arith

  run_cvr-no_skip :
      (step : Step) (attempt : ℕ) (w : W)
      → cvr_decision_tree e.cvr_tree ≡ new_default_decision_tree
      → (run_cvr e task step attempt w).0.applied_action ≢ Cvr.RecoveryAction.skip
  unfolding run_cvr
  run_cvr-no_skip step attempt w h =
      (execute-Decides (step_coordinator e task) (step_request e task step attempt w)
        (step_coordinator-tree h) (fresh w)).2

  pub attempt_step-SameStep :
      (step : Step) (attempt max_retries : ℕ) (w : W)
      → SameStep step (attempt_step e task step attempt max_retries w).1
  unfolding attempt_step
  attempt_step-SameStep step attempt max_retries w =
      after_cvr-SameStep (started step) attempt max_retries w
        (run_cvr e task (started step) attempt w)

  -- With the default tree, a round that returns a result had its CVR run pass, and the result is
  -- the one that the executor gave.
  pub attempt_step-done :
      (step : Step) (attempt max_retries : ℕ) (w : W) {out : StepResult}
      → cvr_decision_tree e.cvr_tree ≡ new_default_decision_tree
      → (attempt_step e task step attempt max_retries w).0 ≡ done out
      → ((run_cvr e task (started step) attempt w).0.passed ≡ true)
        × (result_in (run_cvr e task (started step) attempt w).2 ≡ some out)
  unfolding attempt_step
  attempt_step-done step attempt max_retries w default h =
      after_cvr-done (started step) attempt max_retries w (run_cvr e task (started step) attempt w)
        (run_cvr-no_skip (started step) attempt w default) h

  step_request-SameStep :
      (s t : Step) (attempt : ℕ) (w : W)
      → SameStep s t
      → step_request e task t attempt w ≡ step_request e task s attempt w
  unfolding step_request
  step_request-SameStep s t attempt w h = cc

  pub run_cvr-SameStep :
      (s t : Step) (attempt : ℕ) (w : W)
      → SameStep s t
      → run_cvr e task t attempt w ≡ run_cvr e task s attempt w
  unfolding run_cvr
  run_cvr-SameStep s t attempt w h = rw (step_request-SameStep s t attempt w h)
