-- ===== src/Orchestrator/Engine/Attempt.antt =====
-- One round of the loop of `executeStepWithRecovery` in engine.go.
pub mod Laws
pub mod Sound
pub mod Pause
use primitive_box.Prelude.{
  ℕ, ◌+◌, String, ◌<>◌, Bool, true, false, ◌&&◌, Option, none, some, leb, ◌=ₛ◌, if◌then◌else◌,
}
use primitive_box.Errors.{GoError, message, error_is, depth_exceeded}
use primitive_box.Errors
use primitive_box.Cvr.{
  PrimitiveIntent, CheckpointManifest, ManifestStore, VerifyStrategy, CvrResult, CvrRequest, raw,
}
use primitive_box.Cvr
use primitive_box.Cvr.Tree.{DecisionTree, new_default_decision_tree}
use primitive_box.Cvr.Coordinator.{CvrCoordinator, new_cvr_coordinator, execute}
use primitive_box.Orchestrator.{
  FailureKind, unknown, StepError, StepResult, Step, StepStatus, Task, RecoveryAction, retry, pause,
  fail, continue, TraceRecord, TraceStore, AppPrimitiveManifest,
}
use primitive_box.Orchestrator.Recovery.{decide}
use primitive_box.Orchestrator.Adapter.{AdapterState, fresh, cvr_executor_adapter, lift_store}
use primitive_box.Orchestrator.Engine.{Engine}
use primitive_box.Orchestrator.Engine.Intent.{
  infer_primitive_intent, lookup_app_manifest, resolve_verify_strategy,
}
use primitive_box.Orchestrator.Engine.Rollback.{
  should_prefer_declared_rollback, execute_declared_rollback,
}

-- `strings.ToLower(kind.String())`
unfoldable pub failure_kind_text : FailureKind → String
failure_kind_text FailureKind.environment = "environment"
failure_kind_text FailureKind.test_fail = "test_failure"
failure_kind_text FailureKind.syntax = "syntax_error"
failure_kind_text FailureKind.timeout = "timeout"
failure_kind_text FailureKind.duplicate = "duplicate_retry"
failure_kind_text unknown = "unknown"

abbrev pub step_error : Option StepResult → Option StepError
step_error none = none
step_error (some r) = r.error

abbrev pub kind_or_unknown : Option StepError → FailureKind
kind_or_unknown none = unknown
kind_or_unknown (some e) = e.kind

-- The failure kind of the trace record.
unfoldable pub trace_failure_kind : Option StepError → Option GoError → String
unfolding failure_kind_text
trace_failure_kind (some e) err = failure_kind_text e.kind
trace_failure_kind none none = ""
trace_failure_kind none (some err) = "exec_error"

-- `lastErr`, after its four assignments.
unfoldable pub last_error : Option GoError → Option StepError → String → GoError
last_error (some e) step_err msg = e
last_error none (some s) msg = message s.message
last_error none none msg = if msg =ₛ "" then message "cvr execution failed" else message msg

abbrev pub or_else : Option StepResult → Option StepResult → Option StepResult
or_else (some r) last = some r
or_else none last = last

abbrev pub succeeded : Option StepResult → Bool
succeeded none = false
succeeded (some r) = r.success

abbrev pub is_depth : Option GoError → Bool
is_depth none = false
is_depth (some e) = error_is depth_exceeded e

abbrev pub strategy_name :
    {S : Type 0} → Option (VerifyStrategy S) → Option (VerifyStrategy S) → Bool → String
strategy_name (some v) default disabled = v.name
strategy_name none none disabled = ""
strategy_name none (some v) disabled = if disabled then "" else v.name

-- How a round ends: with a result, with an error, or with another round after this error.
pub data Round : Type 0 where
  done : StepResult → Round
  stop : GoError → Round
  again : GoError → Round

abbrev is_rolled_back : StepStatus → Bool
is_rolled_back StepStatus.rolled_back = true
is_rolled_back _ = false

-- The second `switch`, on the action that was chosen.
unfoldable pub finish : RecoveryAction → GoError → Step → Round × Step
finish retry err step = (again err, step)
finish pause err step = (
  stop (message ("step " <> (step.primitive <> (" paused: " <> Errors.text err)))),
  if is_rolled_back step.status then step else record step { status = StepStatus.failed },
)
finish fail err step = (
  stop (message ("terminal failure for " <> (step.primitive <> (": " <> Errors.text err)))),
  record step { status = StepStatus.failed },
)
finish continue err step = (
  done (record { success = true; output = primitive_box.Json.RawMessage.absent; error = none }),
  record step { status = StepStatus.skipped },
)

unfoldable pub cvr_decision_tree : DecisionTree → DecisionTree
cvr_decision_tree none = new_default_decision_tree
cvr_decision_tree (some nodes) = some nodes

module _ {W : Type 0} where
  noop_manifest_store : ManifestStore W
  noop_manifest_store = record { save_manifest = λ m w. (none, w) }

  unfoldable pub checkpoint_manifest_store : Option (ManifestStore W) → ManifestStore W
  unfolding noop_manifest_store
  checkpoint_manifest_store none = noop_manifest_store
  checkpoint_manifest_store (some store) = store

  unfoldable pub persist_trace_record : Option (TraceStore W) → TraceRecord → W → W
  persist_trace_record none r w = w
  persist_trace_record (some store) r w = store.record_trace_step r w

-- The recovery action: the CVR result's, unless a declared rollback is preferred.
abbrev pub action_of : Option AppPrimitiveManifest → CvrResult → Cvr.RecoveryAction
action_of manifest cvr_result =
    if should_prefer_declared_rollback manifest cvr_result
    then Cvr.RecoveryAction.rollback
    else cvr_result.applied_action

abbrev pub started : Step → Step
started step = record step { status = StepStatus.running }

module _ {W : Type 0} (e : Engine W) (task : Task) where
  unfoldable pub step_coordinator : CvrCoordinator (AdapterState W)
  unfolding checkpoint_manifest_store cvr_decision_tree
  step_coordinator =
      new_cvr_coordinator (some (lift_store (checkpoint_manifest_store e.manifest_store)))
        e.cvr_strategy (cvr_decision_tree e.cvr_tree)

  unfoldable pub step_request : Step → ℕ → W → CvrRequest (AdapterState W)
  step_request step attempt w =
      let intent = infer_primitive_intent e step.primitive w in
      let resolved = resolve_verify_strategy e step.primitive step.input w in
      record {
        primitive_id = step.primitive;
        sandbox_id = task.sandbox_id;
        intent = intent;
        params = raw step.input;
        exec = some (cvr_executor_adapter e.executor intent step.primitive);
        trace_id = task.id <> (":" <> step.id);
        step_id = step.id;
        attempt = attempt;
        cvr_depth = 0;
        verify_strategy = resolved.0;
        disable_verify_strategy = resolved.1;
      }

  unfoldable pub trace_record :
      Step → ℕ → W → CvrResult → Option GoError → Option StepResult → TraceRecord
  trace_record step attempt w cvr_result err result =
      let intent = infer_primitive_intent e step.primitive w in
      let resolved = resolve_verify_strategy e step.primitive step.input w in
      record {
        task_id = task.id;
        trace_id = task.id <> (":" <> step.id);
        session_id = task.id;
        attempt_id = attempt + 1;
        sandbox_id = task.sandbox_id;
        step_id = step.id;
        primitive = step.primitive;
        checkpoint_id = cvr_result.checkpoint_id;
        intent_snapshot = intent;
        layer_a_outcome = cvr_result.layer_a_outcome;
        strategy_name = strategy_name resolved.0 e.cvr_strategy resolved.1;
        strategy_outcome = cvr_result.strategy_result.outcome;
        recovery_path = cvr_result.applied_action;
        affected_scopes = intent.affected_scopes;
        cvr_depth_exceeded = is_depth err;
        verify_result = cvr_result.strategy_result.outcome;
        failure_kind = trace_failure_kind (step_error result) err;
      }

  rolled_back : Option GoError × W → GoError → Step → RecoveryAction × GoError × Step × W
  rolled_back (some recovery_err, w) err step = (fail, recovery_err, step, w)
  rolled_back (none, w) err step = (pause, err, record step { status = StepStatus.rolled_back }, w)

  -- The first `switch`, on the recovery action of the CVR result.
  unfoldable pub recover :
      Cvr.RecoveryAction
      → Step
      → ℕ
      → ℕ
      → Option StepResult
      → CvrResult
      → Option AppPrimitiveManifest
      → GoError
      → W
      → RecoveryAction × GoError × Step × W
  unfolding rolled_back
  recover Cvr.RecoveryAction.retry step attempt max_retries result cvr_result manifest err w = (
    if leb max_retries attempt
        then decide (kind_or_unknown (step_error result)) attempt max_retries
        else retry,
    err,
    step,
    w,
  )
  recover Cvr.RecoveryAction.rollback step attempt max_retries result cvr_result manifest err w =
      rolled_back
        (execute_declared_rollback e step.primitive step.input result cvr_result manifest w) err
        step
  recover Cvr.RecoveryAction.escalate step attempt max_retries result cvr_result manifest err w =
      (pause, err, record step { escalated = true }, w)
  recover Cvr.RecoveryAction.rewrite step attempt max_retries result cvr_result manifest err w =
      (pause, err, record step { escalated = true }, w)
  recover Cvr.RecoveryAction.abort step attempt max_retries result cvr_result manifest err w =
      (fail, err, step, w)
  recover Cvr.RecoveryAction.skip step attempt max_retries result cvr_result manifest err w =
      (continue, err, step, w)
  recover Cvr.RecoveryAction.unset step attempt max_retries result cvr_result manifest err w =
      (decide (kind_or_unknown (step_error result)) attempt max_retries, err, step, w)

  finished : RecoveryAction × GoError × Step × W → Round × Step × W
  unfolding finish
  finished (action, err, step, w) = let (round, step') = finish action err step in (round, step', w)

  -- What follows the trace record.
  unfoldable pub settle :
      Step
      → ℕ
      → ℕ
      → Option AppPrimitiveManifest
      → CvrResult
      → Option GoError
      → Option StepResult
      → W
      → Round × Step × W
  unfolding finished last_error
  settle step attempt max_retries manifest cvr_result err result w =
      let last = last_error err (step_error result) cvr_result.strategy_result.message in
      finished (
        recover (action_of manifest cvr_result) step attempt max_retries result cvr_result manifest
          last w)

  unfoldable pub judge_round :
      Step
      → ℕ
      → ℕ
      → Option AppPrimitiveManifest
      → CvrResult
      → Option GoError
      → Option StepResult
      → W
      → Round × Step × W
  unfolding settle
  judge_round step attempt max_retries manifest cvr_result (some err) result w =
      if error_is depth_exceeded err
      then (stop err, record step { status = StepStatus.failed }, w)
      else settle step attempt max_retries manifest cvr_result (some err) result w
  judge_round step attempt max_retries manifest cvr_result none none w =
      settle step attempt max_retries manifest cvr_result none none w
  judge_round step attempt max_retries manifest cvr_result none (some result) w =
      if cvr_result.passed && result.success
      then (done result, step, w)
      else settle step attempt max_retries manifest cvr_result none (some result) w

  after_cvr : Step → ℕ → ℕ → W → CvrResult × Option GoError × AdapterState W → Round × Step × W
  unfolding judge_round
  after_cvr step attempt max_retries w (cvr_result, err, a) =
      let result = or_else a.main_result a.last_result in
      let traced =
        persist_trace_record e.trace_store (trace_record step attempt w cvr_result err result)
          a.world in
      judge_round (record step { checkpoint_id = cvr_result.checkpoint_id }) attempt max_retries
        (lookup_app_manifest e step.primitive w) cvr_result err result traced

  -- The coordinator's run for a step, with a new adapter.
  unfoldable pub run_cvr : Step → ℕ → W → CvrResult × Option GoError × AdapterState W
  run_cvr step attempt w = execute step_coordinator (step_request step attempt w) (fresh w)

  unfoldable pub attempt_step : Step → ℕ → ℕ → W → Round × Step × W
  unfolding after_cvr
  attempt_step step attempt max_retries w =
      after_cvr (started step) attempt max_retries w (run_cvr (started step) attempt w)
