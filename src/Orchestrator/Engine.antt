-- ===== src/Orchestrator/Engine.antt =====
-- internal/orchestrator/engine.go: the task engine, over the state `W` of the world.
pub mod Intent
pub mod Rollback
pub mod Attempt
pub mod Loop
pub mod Run
use primitive_box.Prelude.{String, Bool, Option, none, some}
use primitive_box.Errors.{GoError}
use primitive_box.Json.{RawMessage}
use primitive_box.Cvr.{ManifestStore, VerifyStrategy}
use primitive_box.Cvr.Tree.{DecisionTree, new_default_decision_tree}
use primitive_box.Orchestrator.{StepResult, PrimitiveExecutor, TraceStore, AppPrimitiveRegistry}
use primitive_box.Orchestrator.Adapter.{AdapterState}

-- `deadline_passed` is the test `ctx.Err() == context.DeadlineExceeded`. The retry policy has no
-- state, and the state tracker is Orchestrator/Tracker.
pub record Engine (W : Type 0) : Type 0 where
  pub executor : PrimitiveExecutor W
  pub trace_store : Option (TraceStore W)
  pub manifest_store : Option (ManifestStore W)
  pub cvr_strategy : Option (VerifyStrategy (AdapterState W))
  pub cvr_tree : DecisionTree
  pub app_registry : Option (AppPrimitiveRegistry W)
  pub deadline_passed : W → Bool

module _ {W : Type 0} where
  -- `NewEngineWithStores`, with the test of the context's deadline.
  unfoldable pub new_engine_with_stores :
      PrimitiveExecutor W → Option (TraceStore W) → Option (ManifestStore W) → (W → Bool) → Engine W
  new_engine_with_stores executor trace_store manifest_store deadline_passed = record {
    executor = executor;
    trace_store = trace_store;
    manifest_store = manifest_store;
    cvr_strategy = none;
    cvr_tree = new_default_decision_tree;
    app_registry = none;
    deadline_passed = deadline_passed;
  }

  unfoldable pub new_engine : PrimitiveExecutor W → (W → Bool) → Engine W
  unfolding new_engine_with_stores
  new_engine executor deadline_passed = new_engine_with_stores executor none none deadline_passed

  unfoldable pub set_app_registry : AppPrimitiveRegistry W → Engine W → Engine W
  set_app_registry registry e = record e { app_registry = some registry }

  unfoldable pub executor_execute :
      Engine W → String → RawMessage → W → Option StepResult × Option GoError × W
  executor_execute e method params w = e.executor.execute none method params w
