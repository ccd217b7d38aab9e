-- ===== src/Tests/Checkpoints.antt =====
-- The CVR coordinator and its trees at concrete requests.
use primitive_box.Prelude.{
  ℕ, String, ◌≡◌, ◌≢◌, ◌⊎◌, ◌↔◌, ◌≤◌, ◌<◌, refl, true, false, none, some, List, [], ◌∷◌, ◌=ₛ◌, All,
  arith,
}
use primitive_box.Errors.{GoError, Sentinel, sentinel, message}
use primitive_box.Errors
use primitive_box.Json.{Json, field, end, member}
use primitive_box.Cvr.{
  PrimitiveIntent, mutation, high, retry, rollback, escalate, abort, FailureKind, payload,
  ExecuteResult, StrategyExecutor, ManifestStore, VerifyStrategy, CvrRequest, LayerAOutcome,
  VerifyOutcome, zero_strategy_result,
}
use primitive_box.Cvr.Tree.{RecoveryCtx, decide, new_default_decision_tree}
use primitive_box.Cvr.Tree.Laws.{default_decisions}
use primitive_box.Cvr.TestSuite.{
  TestSuiteStrategy, run_suite, suite_params, unwrap_execute_data, raw_bool, raw_int, below_int,
}
use primitive_box.Cvr.TestSuite.Laws.{run_suite-passed}
use primitive_box.Cvr.Coordinator.{CvrCoordinator, should_checkpoint, execute, layer_a}
use primitive_box.Cvr.Coordinator.Gate.{layer_a_failure_stops, Gated, execute-Gated}
use primitive_box.Cvr.Coordinator.Outcome.{Succeeded, execute-passed, Decides, execute-Decides}

abbrev Calls : Type 0
Calls = List String

abbrev good : ExecuteResult
good = record {
  fields = field "checkpoint_id" (Json.text "cp-1") end;
  success = true;
  err_msg = "";
}

-- An executor that succeeds, and one that cannot make checkpoints.
abbrev working : StrategyExecutor Calls
working = record { execute = λ method params calls. (good, none, method ∷ calls) }

abbrev no_checkpoints : StrategyExecutor Calls
no_checkpoints = record {
  execute = λ method params calls. (
    good,
    elim (method =ₛ "state.checkpoint") [ true ↦ some (message "disk full") | false ↦ none ],
    method ∷ calls,
  );
}

abbrev manifests : ManifestStore Calls
manifests = record { save_manifest = λ m calls. (none, "save" ∷ calls) }

abbrev accepting : VerifyStrategy Calls
accepting = record {
  name = "accepting";
  description = "";
  run = λ exec r m calls.
      (record zero_strategy_result { outcome = VerifyOutcome.passed }, none, "verify" ∷ calls);
}

abbrev rejecting : VerifyStrategy Calls
rejecting = record {
  name = "rejecting";
  description = "";
  run = λ exec r m calls.
      (record zero_strategy_result { outcome = VerifyOutcome.failed }, none, "verify" ∷ calls);
}

abbrev risky : PrimitiveIntent
risky = record { category = mutation; reversible = false; risk_level = high; affected_scopes = [] }

abbrev request : StrategyExecutor Calls → ℕ → CvrRequest Calls
request exec depth = record {
  primitive_id = "fs.write";
  sandbox_id = "sb";
  intent = risky;
  params = payload Json.null;
  exec = some exec;
  trace_id = "t";
  step_id = "s";
  attempt = 1;
  cvr_depth = depth;
  verify_strategy = none;
  disable_verify_strategy = false;
}

abbrev coordinator : VerifyStrategy Calls → CvrCoordinator Calls
coordinator strategy = record {
  store = some manifests;
  strategy = some strategy;
  tree = new_default_decision_tree;
}

-- The order of the calls of a run that passes.
passing_calls :
    (execute (coordinator accepting) (request working 0) []).2
    ≡ "verify" ∷ "fs.write" ∷ "save" ∷ "state.checkpoint" ∷ []
unfolding execute layer_a
passing_calls = refl

passing : (execute (coordinator accepting) (request working 0) []).0.passed ≡ true
unfolding execute layer_a
passing = refl

rolls_back : (execute (coordinator rejecting) (request working 0) []).0.applied_action ≡ rollback
unfolding execute decide new_default_decision_tree layer_a
rolls_back = refl

gated : should_checkpoint risky ≡ true
unfolding should_checkpoint
gated = refl

not_failed :
    (execute (coordinator accepting) (request working 0) []).0.layer_a_outcome
    ≢ LayerAOutcome.failed
unfolding execute layer_a
not_failed = λ e. ground arith

layer_a_broke :
    (execute (coordinator accepting) (request no_checkpoints 0) []).0.layer_a_outcome
    ≡ LayerAOutcome.failed
unfolding execute layer_a
layer_a_broke = refl

execute-Gated_example :
    Gated
      (coordinator accepting)
      (request working 0)
      working
      []
      (execute (coordinator accepting) (request working 0) [])
execute-Gated_example =
    execute-Gated (coordinator accepting) (request working 0) working [] refl (omega arith) gated
      not_failed

execute-passed_example :
    ((execute (coordinator accepting) (request working 0) []).1 ≡ none)
    × Succeeded (coordinator accepting) (request working 0) []
execute-passed_example = execute-passed (coordinator accepting) (request working 0) [] passing

-- The primitive and the verification are not among the calls.
abbrev Unrun : Calls → Type 0
Unrun calls = All (λ m. ((m =ₛ "fs.write") ≡ false) × ((m =ₛ "verify") ≡ false)) calls

layer_a_failure_stops_example :
    Unrun (execute (coordinator accepting) (request no_checkpoints 0) []).2
    × ((e : GoError) × ((execute (coordinator accepting) (request no_checkpoints 0) []).1
          ≡ some (Errors.layer_a e)))
layer_a_failure_stops_example =
    layer_a_failure_stops (coordinator accepting) (request no_checkpoints 0) no_checkpoints Unrun
      (λ s h. ((refl, refl), h)) [] refl (λ m s h. ((refl, refl), h)) layer_a_broke tt

execute-Decides_example :
    Decides
      (coordinator rejecting)
      (request working 0)
      (execute (coordinator rejecting) (request working 0) []).0
execute-Decides_example = execute-Decides (coordinator rejecting) (request working 0) refl []

abbrev repeated : RecoveryCtx
repeated = record {
  failure_kind = FailureKind.duplicate;
  attempt = 1;
  intent = risky;
  strategy_result = zero_strategy_result;
  max_retries = 3;
}

default_decisions_example :
    let action = decide new_default_decision_tree repeated in
    let rolls_back =
      (repeated.intent.reversible ≡ false)
      × (repeated.strategy_result.outcome ≡ VerifyOutcome.failed) in
    ((action ≡ rollback) ↔ rolls_back)
    × ((action ≡ escalate) ↔ (¬ rolls_back × (3 ≤ 1)))
    × ((action ≡ abort)
        ↔ (¬ rolls_back × (1 < 3) × (repeated.failure_kind ≡ FailureKind.duplicate)))
    × ((action ≡ retry)
        ↔ (¬ rolls_back × (1 < 3) × (repeated.failure_kind ≢ FailureKind.duplicate)))
default_decisions_example = default_decisions repeated

abbrev suite : TestSuiteStrategy
suite = record { min_tests = 2; command = "go test"; filter = ""; timeout_sec = 0 }

run_suite-passed_example :
    let called = working.execute "verify.test" (payload (suite_params suite)) [] in
    let fields = unwrap_execute_data called.0.fields in
    let out = run_suite suite working good none [] in
    (out.1 ≡ called.1)
    × ((out.0.outcome ≡ VerifyOutcome.passed) ↔ (
        (called.1 ≡ none)
        × (raw_bool (member "passed" fields) ≡ true)
        × ((suite.min_tests ≡ 0)
            ⊎ (below_int (raw_int (member "total" fields)) suite.min_tests ≡ false))))
run_suite-passed_example = run_suite-passed suite working good none []
