-- ===== src/Orchestrator/Adapter.antt =====
-- `cvrExecutorAdapter` of internal/orchestrator/engine.go: the engine's executor as the CVR
-- coordinator sees it. The adapter remembers the result of the last call, and that of the root
-- method.
use primitive_box.Prelude.{String, not, Option, none, some, is_some, ◌=ₛ◌, if◌then◌else◌}
use primitive_box.Errors.{GoError}
use primitive_box.Json.{RawMessage, value, Fields, end, as_map}
use primitive_box.Cvr.{
  PrimitiveIntent, ExecuteResult, Params, raw, payload, StrategyExecutor, ManifestStore,
}
use primitive_box.Orchestrator.{StepResult, StepError, PrimitiveExecutor}

pub record AdapterState (W : Type 0) : Type 0 where
  pub world : W
  pub main_result : Option StepResult
  pub last_result : Option StepResult

abbrev pub fresh : {W : Type 0} → W → AdapterState W
fresh w = record { world = w; main_result = none; last_result = none }

unfoldable pub raw_params : Params → RawMessage
raw_params (raw r) = r
raw_params (payload j) = value j

-- The map that the data of a result decodes to; what is no object leaves the map nil.
unfoldable pub decode_fields : RawMessage → Fields
decode_fields (value j) = elim (as_map j) [ none ↦ end | some fields ↦ fields ]
decode_fields _ = end

abbrev pub error_message : Option StepError → String
error_message none = ""
error_message (some e) = e.message

unfoldable pub to_execute_result : Option StepResult → Option GoError → ExecuteResult
unfolding decode_fields
to_execute_result none err = record { fields = end; success = not (is_some err); err_msg = "" }
to_execute_result (some r) err = record {
  fields = decode_fields r.output;
  success = r.success;
  err_msg = error_message r.error;
}

module _ {W : Type 0} where
  remember : String → String → Option StepResult → W → AdapterState W → AdapterState W
  remember method root result w a = record {
    world = w;
    main_result = if method =ₛ root then result else a.main_result;
    last_result = result;
  }

  unfoldable pub adapter_execute :
      PrimitiveExecutor W
      → PrimitiveIntent
      → String
      → String
      → Params
      → AdapterState W
      → ExecuteResult × Option GoError × AdapterState W
  unfolding remember to_execute_result raw_params
  adapter_execute executor intent root method params a =
      let called = executor.execute (some intent) method (raw_params params) a.world in
      (to_execute_result called.0 called.1, called.1, remember method root called.0 called.2 a)

  unfoldable pub cvr_executor_adapter :
      PrimitiveExecutor W → PrimitiveIntent → String → StrategyExecutor (AdapterState W)
  unfolding adapter_execute
  cvr_executor_adapter executor intent root = record {
    execute = adapter_execute executor intent root;
  }

  -- A store over the world, used from the adapter's state.
  unfoldable pub lift_store : ManifestStore W → ManifestStore (AdapterState W)
  lift_store store = record {
    save_manifest =
        λ m a. let saved = store.save_manifest m a.world in (saved.0, record a { world = saved.1 });
  }
