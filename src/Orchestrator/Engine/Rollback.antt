-- ===== src/Orchestrator/Engine/Rollback.antt =====
-- `executeDeclaredRollback` of engine.go and what it calls.
pub mod Laws
use primitive_box.Prelude.{
  String, ◌<>◌, Bool, true, false, ◌||◌, ◌&&◌, not, Option, none, some, is_some, ◌=ₛ◌,
  if◌then◌else◌,
}
use primitive_box.Errors.{GoError, message, wrap}
use primitive_box.Json.{Json, null, RawMessage, absent, malformed, value, Fields, field, end}
use primitive_box.Cvr.{CvrResult, StrategyResult, VerifyOutcome, RecoverHint, is_mutation, is_high}
use primitive_box.Orchestrator.{AppPrimitiveManifest, AppPrimitiveRollback, StepResult}
use primitive_box.Orchestrator.Engine.{Engine}

unfoldable pub should_fail_closed_without_rollback : AppPrimitiveManifest → Bool
should_fail_closed_without_rollback manifest =
    if is_some manifest.rollback
    then false
    else if not (is_mutation manifest.intent.category)
    then false
    else not manifest.intent.reversible || is_high manifest.intent.risk_level

abbrev went_wrong : VerifyOutcome → Bool
went_wrong VerifyOutcome.failed = true
went_wrong VerifyOutcome.error = true
went_wrong VerifyOutcome.timeout = true
went_wrong _ = false

unfoldable pub should_prefer_declared_rollback : Option AppPrimitiveManifest → CvrResult → Bool
should_prefer_declared_rollback none result = false
should_prefer_declared_rollback (some manifest) result =
    if not (is_some manifest.rollback)
    then false
    else if not (is_mutation manifest.intent.category)
    then false
    else went_wrong result.strategy_result.outcome

unfoldable pub outcome_text : VerifyOutcome → String
outcome_text VerifyOutcome.unset = ""
outcome_text VerifyOutcome.passed = "passed"
outcome_text VerifyOutcome.failed = "failed"
outcome_text VerifyOutcome.skipped = "skipped"
outcome_text VerifyOutcome.timeout = "timeout"
outcome_text VerifyOutcome.error = "error"

unfoldable pub hint_text : RecoverHint → String
hint_text RecoverHint.unset = ""
hint_text RecoverHint.rollback = "rollback"
hint_text RecoverHint.retry = "retry"
hint_text RecoverHint.escalate = "escalate"
hint_text RecoverHint.abort = "abort"
hint_text RecoverHint.rewrite = "rewrite"
hint_text RecoverHint.skip = "skip"

-- The decoded parameters of the step: `none` is a decoding error, and the nil map is null.
decode_original : RawMessage → Option Json
decode_original absent = some null
decode_original (malformed s) = none
decode_original (value null) = some null
decode_original (value (Json.object fields)) = some (Json.object fields)
decode_original (value j) = none

-- The decoded data of the result, with `null` and no data the nil value.
decode_result : RawMessage → Option Json
decode_result absent = some null
decode_result (malformed s) = none
decode_result (value j) = some j

abbrev output_of : Option StepResult → RawMessage
output_of none = absent
output_of (some r) = r.output

verify_field : StrategyResult → Fields
unfolding outcome_text hint_text
verify_field r = elim r.outcome [
  | VerifyOutcome.unset ↦ end
  | _ ↦
      field "verify"
        (Json.object (
          field "message" (Json.text r.message) (
            field "outcome" (Json.text (outcome_text r.outcome))
              (field "recover_hint" (Json.text (hint_text r.recover_hint)) end))))
        end
]

result_field : Json → Fields → Fields
result_field null rest = rest
result_field j rest = field "result" j rest

rollback_payload : String → Json → Json → CvrResult → Json
unfolding result_field verify_field
rollback_payload primitive_id original result_data result = Json.object (
    field "checkpoint_id" (Json.text result.checkpoint_id) (
      field "execution_error" (Json.text result.strategy_result.message) (
        field "params" original (
          field "primitive" (Json.text primitive_id)
            (result_field result_data (verify_field result.strategy_result))))))

-- The members stand in the order of their names, as `json.Marshal` writes a map.
unfoldable pub build_app_rollback_params :
    String → RawMessage → Option StepResult → CvrResult → Option Json
unfolding decode_original decode_result rollback_payload
build_app_rollback_params primitive_id params exec_result result = elim (decode_original params) [
  | none ↦ none
  | some original ↦ elim (decode_result (output_of exec_result)) [
    | none ↦ none
    | some result_data ↦ some (rollback_payload primitive_id original result_data result)
  ]
]

module _ {W : Type 0} (e : Engine W) where
  wrapped : String → Option StepResult × Option GoError × W → Option GoError × W
  wrapped text (r, none, w) = (none, w)
  wrapped text (r, some err, w) = (some (wrap text err), w)

  unfoldable pub execute_workspace_restore : String → String → W → Option GoError × W
  unfolding wrapped
  execute_workspace_restore checkpoint_id primitive w =
      if checkpoint_id =ₛ ""
      then (
        some (message ("rollback requested but no checkpoint_id available for " <> primitive)),
        w,
      )
      else wrapped ("rollback failed for checkpoint " <> (checkpoint_id <> ": ")) (
          e.executor.execute none "state.restore"
            (value (Json.object (field "checkpoint_id" (Json.text checkpoint_id) end))) w)

  call_rollback : String → String → Option Json → W → Option GoError × W
  unfolding wrapped
  call_rollback primitive method none w = (
    some (wrap ("rollback payload for " <> (primitive <> ": ")) (message "invalid JSON document")),
    w,
  )
  call_rollback primitive method (some params) w =
      wrapped ("app rollback failed for " <> (primitive <> (" via " <> (method <> ": "))))
        (e.executor.execute none method (value params) w)

  unfoldable pub execute_app_rollback :
      String
      → RawMessage
      → Option StepResult
      → CvrResult
      → AppPrimitiveRollback
      → W
      → Option GoError × W
  unfolding execute_workspace_restore call_rollback build_app_rollback_params
  execute_app_rollback primitive params exec_result result rollback w =
      if not (rollback.strategy =ₛ "primitive")
      then (none, w)
      else if rollback.primitive =ₛ ""
      then (
        some (
            message
              ("rollback declaration for " <> (primitive <> " resolved to an empty primitive"))),
        w,
      )
      else if rollback.primitive =ₛ "state.restore"
      then execute_workspace_restore result.checkpoint_id primitive w
      else call_rollback primitive rollback.primitive
          (build_app_rollback_params primitive params exec_result result) w

  -- The part below the app's own rollback: the workspace is restored too.
  restore_after : Bool → String → CvrResult → W → Option GoError × W
  unfolding execute_workspace_restore
  restore_after declared primitive result w =
      if result.checkpoint_id =ₛ ""
      then if declared then (none, w) else (
        some (message ("rollback requested but no checkpoint_id available for " <> primitive)),
        w,
      )
      else execute_workspace_restore result.checkpoint_id primitive w

  after_app_rollback :
      String → CvrResult → AppPrimitiveRollback → Option GoError × W → Option GoError × W
  unfolding restore_after
  after_app_rollback primitive result rollback (some err, w) = (some err, w)
  after_app_rollback primitive result rollback (none, w) =
      if rollback.strategy =ₛ "primitive" && rollback.primitive =ₛ "state.restore"
      then (none, w)
      else restore_after true primitive result w

  declared_rollback :
      String
      → RawMessage
      → Option StepResult
      → CvrResult
      → Option AppPrimitiveRollback
      → W
      → Option GoError × W
  unfolding after_app_rollback execute_app_rollback
  declared_rollback primitive params exec_result result none w =
      restore_after false primitive result w
  declared_rollback primitive params exec_result result (some rollback) w =
      after_app_rollback primitive result rollback
        (execute_app_rollback primitive params exec_result result rollback w)

  fail_closed_error : String → GoError
  fail_closed_error primitive = message (
      "app rollback required for "
      <> (primitive
          <> ": primitive mutates app-owned state and has no rollback declaration; state.restore alone does not recover app state"))

  unfoldable pub execute_declared_rollback :
      String
      → RawMessage
      → Option StepResult
      → CvrResult
      → Option AppPrimitiveManifest
      → W
      → Option GoError × W
  unfolding declared_rollback fail_closed_error should_fail_closed_without_rollback
  execute_declared_rollback primitive params exec_result result none w =
      declared_rollback primitive params exec_result result none w
  execute_declared_rollback primitive params exec_result result (some manifest) w =
      if should_fail_closed_without_rollback manifest
      then (some (fail_closed_error primitive), w)
      else declared_rollback primitive params exec_result result manifest.rollback w
