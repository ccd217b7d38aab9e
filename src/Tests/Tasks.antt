-- ===== src/Tests/Tasks.antt =====
-- The engine, its tracker, replay and rollbacks at concrete tasks.
use primitive_box.Prelude.{
  String, ◌≡◌, ◌≢◌, ◌↔◌, refl, true, false, Option, none, some, List, [], ◌∷◌, ◌=ₛ◌, if◌then◌else◌,
}
use primitive_box.Errors.{GoError, message}
use primitive_box.Json.{Json, absent, value, field, end}
use primitive_box.Cvr.{
  PrimitiveIntent, mutation, low, ExecuteResult, CvrResult, zero_result, VerifyOutcome,
  zero_strategy_result,
}
use primitive_box.Orchestrator.{
  StepResult, Step, Task, TaskStatus, PrimitiveExecutor, AppPrimitiveManifest, AppPrimitiveRollback,
  AppPrimitiveVerify,
}
use primitive_box.Orchestrator.Tracker.{get_task}
use primitive_box.Cvr.TestSuite.{unwrap_execute_data}
use primitive_box.Orchestrator.AppVerify.{
  app_judged, app_judged-passed, explicit, verify_payload_passed,
}
use primitive_box.Cvr.Tree.{new_default_decision_tree}
use primitive_box.Orchestrator.Engine.{Engine}
use primitive_box.Orchestrator.Engine.Intent.{
  infer_primitive_intent, resolve_verify_strategy, system_intent, lookup_app_manifest,
}
use primitive_box.Orchestrator.Adapter.{cvr_executor_adapter}
use primitive_box.Orchestrator.Engine.Attempt.{
  cvr_decision_tree, attempt_step, run_cvr, step_request, step_coordinator,
}
use primitive_box.Orchestrator.Engine.Loop.{
  finished, new_step, attempt_loop, retry_limit, execute_step_with_recovery, execute_step_via_cvr,
}
use primitive_box.Orchestrator.Engine.Loop.Outcome.{EndsWell, execute_step_with_recovery-EndsWell}
use primitive_box.Orchestrator.Engine.Loop.Pause.{Answered, execute_step_via_cvr-Answered}
use primitive_box.Orchestrator.Engine.Loop.Sound.{Delivered, execute_step_with_recovery-Delivered}
use primitive_box.Orchestrator.Engine.Run.{run_task}
use primitive_box.Orchestrator.Engine.Run.Outcome.{RanTo, run_task-RanTo}
use primitive_box.Cvr.Coordinator.{execute, layer_a, new_cvr_coordinator}

abbrev Calls : Type 0
Calls = List String

abbrev fine : StepResult
fine = record {
  success = true;
  output = value (Json.object (field "checkpoint_id" (Json.text "cp-1") end));
  error = none;
}

-- An executor on which every call of the method "broken" fails.
abbrev executor : PrimitiveExecutor Calls
executor = record {
  execute = λ intent method params calls. (
    some fine,
    (if method =ₛ "broken" then some (message "no such tool") else none),
    method ∷ calls,
  );
}

abbrev engine : Engine Calls
engine = record {
  executor = executor;
  trace_store = none;
  manifest_store = none;
  cvr_strategy = none;
  cvr_tree = new_default_decision_tree;
  app_registry = none;
  deadline_passed = λ calls. false;
}

abbrev read_step : Step
read_step = new_step "s1" "fs.read" absent

abbrev broken_step : Step
broken_step = new_step "s2" "broken" absent

abbrev task : Task
task = record {
  id = "t1";
  description = "";
  sandbox_id = "sb";
  status = TaskStatus.planning;
  steps = read_step ∷ broken_step ∷ read_step ∷ [];
  retry_count = 0;
  max_retries = 1;
}

reads : (execute_step_with_recovery engine task read_step []).0 ≡ finished fine
unfolding execute_step_with_recovery attempt_loop attempt_step retry_limit execute layer_a run_cvr
    new_default_decision_tree step_request infer_primitive_intent cvr_executor_adapter
    resolve_verify_strategy step_coordinator new_cvr_coordinator
reads = refl

default_tree : cvr_decision_tree engine.cvr_tree ≡ new_default_decision_tree
unfolding cvr_decision_tree new_default_decision_tree
default_tree = refl

execute_step_with_recovery-Delivered_example : Delivered engine task read_step fine
execute_step_with_recovery-Delivered_example =
    execute_step_with_recovery-Delivered engine task default_tree read_step [] reads

execute_step_with_recovery-EndsWell_example : EndsWell (
  (execute_step_with_recovery engine task broken_step []).0,
  (execute_step_with_recovery engine task broken_step []).1,
)
execute_step_with_recovery-EndsWell_example =
    execute_step_with_recovery-EndsWell engine task broken_step []

execute_step_via_cvr-Answered_example :
    Answered
      (execute_step_via_cvr engine "g" "" "s2" "broken" absent []).0
      (execute_step_via_cvr engine "g" "" "s2" "broken" absent []).1
execute_step_via_cvr-Answered_example =
    execute_step_via_cvr-Answered engine "g" "" "s2" "broken" absent []

run_task-RanTo_example :
    let out = run_task engine [] task [] in
    RanTo out.2 task.steps out.1.steps
    × ((out.1.status ≡ TaskStatus.completed) ↔ (out.2 ≡ none))
    × ((out.1.status ≡ TaskStatus.paused) ↔ (out.2 ≢ none))
    × (get_task out.0 task.id ≡ some out.1)
run_task-RanTo_example = run_task-RanTo engine [] task []

abbrev order_intent : PrimitiveIntent
order_intent = record {
  category = mutation;
  reversible = false;
  risk_level = low;
  affected_scopes = [];
}

abbrev order : Option AppPrimitiveRollback → AppPrimitiveManifest
order rollback = record {
  app_id = "shop";
  name = "shop.order";
  verify = none;
  rollback = rollback;
  intent = order_intent;
}

abbrev cancel : AppPrimitiveRollback
cancel = record { strategy = "primitive"; primitive = "shop.cancel" }

abbrev rejected : CvrResult
rejected = record zero_result {
  strategy_result = record zero_strategy_result { outcome = VerifyOutcome.failed };
}

abbrev count_check : AppPrimitiveVerify
count_check = record { strategy = "primitive"; primitive = "shop.count"; command = "" }

abbrev negative_answer : ExecuteResult
negative_answer = record {
  fields = field "passed" (Json.boolean false) end;
  success = true;
  err_msg = "";
}

abbrev count_call : ExecuteResult × Option GoError × Calls
count_call = (negative_answer, none, "shop.count" ∷ [])

app_judged-passed_example :
    let out = app_judged (λ calls. false) count_check none count_call in
    (out.1 ≡ none)
    × ((out.0.outcome ≡ VerifyOutcome.passed) ↔ (
        (count_call.1 ≡ none)
        × (count_call.0.success ≡ true)
        × (verify_payload_passed (unwrap_execute_data count_call.0.fields) ≢ explicit false)))
app_judged-passed_example = app_judged-passed (λ calls. false) count_check none count_call

unlisted : system_intent "broken" ≡ none
unfolding system_intent
unlisted = refl

unregistered : lookup_app_manifest engine "broken" [] ≡ none
unfolding lookup_app_manifest
unregistered = refl
