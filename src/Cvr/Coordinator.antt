-- ===== src/Cvr/Coordinator.antt =====
-- internal/cvr/coordinator.go: checkpoint (Layer A), execution, verification (Layer B) and the
-- recovery decision, over the state `S` of the executor, the store and the strategy.
pub mod Gate
pub mod Outcome
use primitive_box.Prelude.{
  ℕ, String, ◌<>◌, Bool, true, false, ◌&&◌, ◌||◌, not, Option, none, some, is_some, leb, ◌=ₛ◌,
  if◌then◌else◌,
}
use primitive_box.Errors.{
  GoError, sentinel, message, wrap, Sentinel, deadline_exceeded, depth_exceeded, error_is,
}
use primitive_box.Errors
use primitive_box.Json.{Json, RawMessage, Fields, field, end, is_empty, member, as_string}
use primitive_box.Cvr.{
  PrimitiveIntent, CheckpointReason, CheckpointTrigger, CheckpointManifest, zero_manifest,
  StrategyResult, VerifyOutcome, RecoverHint, ExecuteResult, Params, payload, StrategyExecutor,
  ManifestStore, VerifyStrategy, RecoveryAction, FailureKind, LayerAOutcome, CvrResult, CvrRequest,
  zero_result, is_mutation, is_high, is_passed, max_cvr_depth,
}
use primitive_box.Cvr.Tree.{DecisionTree, RecoveryCtx, decide, new_default_decision_tree}

unfoldable pub should_checkpoint : PrimitiveIntent → Bool
should_checkpoint intent =
    if not (is_mutation intent.category)
    then false
    else if not intent.reversible
    then true
    else is_high intent.risk_level

unfoldable pub checkpoint_reason_for_intent : PrimitiveIntent → CheckpointReason
checkpoint_reason_for_intent intent =
    if is_mutation intent.category then CheckpointReason.pre_edit else CheckpointReason.pre_exec

abbrev plain : VerifyOutcome → String → RecoverHint → StrategyResult
plain o m h = record { outcome = o; message = m; details = RawMessage.absent; recover_hint = h }

unfoldable pub strategy_result_from_execution : ExecuteResult → Option GoError → StrategyResult
strategy_result_from_execution r (some e) =
    if error_is deadline_exceeded e
    then plain VerifyOutcome.timeout (Errors.text e) RecoverHint.retry
    else plain VerifyOutcome.error (Errors.text e) RecoverHint.retry
strategy_result_from_execution r none =
    if r.success
    then plain VerifyOutcome.passed "execution passed" RecoverHint.skip
    else plain VerifyOutcome.failed
        (if r.err_msg =ₛ "" then "execution reported failure" else r.err_msg) RecoverHint.retry

-- The part of `failureKindFromExecution` below its `switch`.
failure_kind_of_error : Option GoError → ExecuteResult → FailureKind
failure_kind_of_error (some e) r =
    if error_is deadline_exceeded e then FailureKind.timeout else FailureKind.exec_error
failure_kind_of_error none r =
    if not r.success then FailureKind.exec_error else FailureKind.verify_fail

unfoldable pub failure_kind_from_execution :
    Option GoError → ExecuteResult → VerifyOutcome → FailureKind
unfolding failure_kind_of_error
failure_kind_from_execution e r VerifyOutcome.timeout = FailureKind.timeout
failure_kind_from_execution e r VerifyOutcome.failed = FailureKind.verify_fail
failure_kind_from_execution e r _ = failure_kind_of_error e r

pub data Extracted : Type 0 where
  found : String → Extracted
  missing : GoError → Extracted

decode_checkpoint_id : Option Json → Extracted
decode_checkpoint_id none = missing (message "checkpoint result missing checkpoint_id")
decode_checkpoint_id (some raw) = elim (as_string raw) [
  | none ↦
      missing (wrap "decode checkpoint_id: " (message "json: cannot unmarshal value into string"))
  | some id ↦
      if id =ₛ "" then missing (message "checkpoint result has empty checkpoint_id") else found id
]

unfoldable pub extract_checkpoint_id : ExecuteResult → Extracted
unfolding decode_checkpoint_id member
extract_checkpoint_id result =
    if is_empty result.fields
    then missing (message "checkpoint result missing data")
    else decode_checkpoint_id (member "checkpoint_id" result.fields)

pub record CvrCoordinator (S : Type 0) : Type 0 where
  pub store : Option (ManifestStore S)
  pub strategy : Option (VerifyStrategy S)
  pub tree : DecisionTree

-- The result as Layer A leaves it.
abbrev pub failed_result : CvrResult
failed_result = record zero_result { layer_a_outcome = LayerAOutcome.failed }

abbrev pub created_result : CheckpointManifest → CvrResult
created_result m = record zero_result {
  checkpoint_id = m.checkpoint_id;
  layer_a_outcome = LayerAOutcome.checkpoint_created;
}

abbrev pub skipped_result : CvrResult
skipped_result = record zero_result { layer_a_outcome = LayerAOutcome.skipped }

-- How Layer A ends.
pub data LayerA : Type 0 where
  failed : GoError → LayerA
  created : CheckpointManifest → LayerA
  skipped : LayerA

module _ {S : Type 0} where
  unfoldable pub new_cvr_coordinator :
      Option (ManifestStore S) → Option (VerifyStrategy S) → DecisionTree → CvrCoordinator S
  new_cvr_coordinator store strategy tree = record {
    store = store;
    strategy = strategy;
    tree = if is_some tree then tree else new_default_decision_tree;
  }

  -- The manifest that `Execute` builds for a checkpoint.
  unfoldable pub manifest_for : CvrRequest S → String → CheckpointManifest
  manifest_for req checkpoint_id = record zero_manifest {
    id = checkpoint_id;
    checkpoint_id = checkpoint_id;
    sandbox_id = req.sandbox_id;
    primitive_id = req.primitive_id;
    intent = req.intent;
    trigger = CheckpointTrigger.intent_policy;
    trigger_primitive = req.primitive_id;
    trigger_reason = checkpoint_reason_for_intent req.intent;
    trace_id = req.trace_id;
    step_id = req.step_id;
    attempt = req.attempt;
  }

  saved : CheckpointManifest → Option GoError × S → LayerA × S
  saved m (some e, s) = (failed e, s)
  saved m (none, s) = (created m, s)

  save_checkpoint : ManifestStore S → CvrRequest S → Extracted → S → LayerA × S
  unfolding saved
  save_checkpoint store req (missing e) s = (failed e, s)
  save_checkpoint store req (found id) s =
      saved (manifest_for req id) (store.save_manifest (manifest_for req id) s)

  checkpointed : ManifestStore S → CvrRequest S → ExecuteResult × Option GoError × S → LayerA × S
  unfolding save_checkpoint extract_checkpoint_id
  checkpointed store req (r, some e, s) = (failed e, s)
  checkpointed store req (r, none, s) = save_checkpoint store req (extract_checkpoint_id r) s

  abbrev checkpoint_label : CvrRequest S → Params
  checkpoint_label req =
      payload (Json.object (field "label" (Json.text (req.primitive_id <> "-" <> req.step_id)) end))

  insert_checkpoint : Option (ManifestStore S) → CvrRequest S → StrategyExecutor S → S → LayerA × S
  unfolding checkpointed
  insert_checkpoint none req exec s = (failed (message "checkpoint manifest store is nil"), s)
  insert_checkpoint (some store) req exec s =
      checkpointed store req (exec.execute "state.checkpoint" (checkpoint_label req) s)

  unfoldable pub layer_a : CvrCoordinator S → CvrRequest S → StrategyExecutor S → S → LayerA × S
  unfolding insert_checkpoint should_checkpoint
  layer_a c req exec s =
      if should_checkpoint req.intent then insert_checkpoint c.store req exec s else (skipped, s)

  -- The strategy that is in force: the request's own one before the coordinator's.
  unfoldable pub active_strategy : CvrCoordinator S → CvrRequest S → Option (VerifyStrategy S)
  active_strategy c req =
      if is_some req.verify_strategy
      then req.verify_strategy
      else if req.disable_verify_strategy
      then none
      else c.strategy

  absorb_error : StrategyResult × Option GoError × S → StrategyResult × S
  absorb_error (r, none, s) = (r, s)
  absorb_error (r, some e, s) = (plain VerifyOutcome.error (Errors.text e) RecoverHint.retry, s)

  -- Layer B: the strategy runs only on a primitive that succeeded.
  unfoldable pub layer_b :
      Option (VerifyStrategy S)
      → StrategyExecutor S
      → CheckpointManifest
      → ExecuteResult × Option GoError × S
      → StrategyResult × S
  unfolding absorb_error strategy_result_from_execution
  layer_b none exec m (r, e, s) = (strategy_result_from_execution r e, s)
  layer_b (some v) exec m (r, e, s) =
      if not (is_some e) && r.success
      then absorb_error (v.run exec r (some m) s)
      else (strategy_result_from_execution r e, s)

  unfoldable pub conclude :
      CvrCoordinator S
      → CvrRequest S
      → CvrResult
      → ExecuteResult
      → Option GoError
      → StrategyResult
      → CvrResult
  unfolding failure_kind_from_execution
  conclude c req result r e strategy_result = record result {
    strategy_result = strategy_result;
    passed = is_passed strategy_result.outcome;
    applied_action =
        if is_passed strategy_result.outcome
        then result.applied_action
        else decide c.tree (record {
          failure_kind = failure_kind_from_execution e r strategy_result.outcome;
          attempt = req.attempt;
          intent = req.intent;
          strategy_result = strategy_result;
          max_retries = 3;
        });
  }

  -- Everything below Layer A.
  unfoldable pub run_primitive :
      CvrCoordinator S
      → CvrRequest S
      → StrategyExecutor S
      → CvrResult
      → CheckpointManifest
      → S
      → CvrResult × Option GoError × S
  unfolding layer_b conclude active_strategy
  run_primitive c req exec result manifest s =
      let executed = exec.execute req.primitive_id req.params s in
      let verified = layer_b (active_strategy c req) exec manifest executed in
      (conclude c req result executed.0 executed.1 verified.0, executed.1, verified.1)

  unfoldable pub after_layer_a :
      CvrCoordinator S
      → CvrRequest S
      → StrategyExecutor S
      → LayerA × S
      → CvrResult × Option GoError × S
  unfolding run_primitive
  after_layer_a c req exec (failed e, s) = (failed_result, some (GoError.layer_a e), s)
  after_layer_a c req exec (created m, s) = run_primitive c req exec (created_result m) m s
  after_layer_a c req exec (skipped, s) = run_primitive c req exec skipped_result zero_manifest s

  with_executor :
      CvrCoordinator S
      → CvrRequest S
      → Option (StrategyExecutor S)
      → S
      → CvrResult × Option GoError × S
  unfolding after_layer_a
  with_executor c req none s = (zero_result, some (message "cvr coordinator requires executor"), s)
  with_executor c req (some exec) s = after_layer_a c req exec (layer_a c req exec s)

  unfoldable pub execute : CvrCoordinator S → CvrRequest S → S → CvrResult × Option GoError × S
  unfolding with_executor
  execute c req s =
      if leb max_cvr_depth req.cvr_depth
      then (zero_result, some (sentinel depth_exceeded), s)
      else with_executor c req req.exec s
