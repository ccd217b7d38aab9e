-- ===== src/Orchestrator.antt =====
-- The types of internal/orchestrator (executor.go, recovery.go) and the interfaces that the engine
-- calls, over the state `W` of the world behind them. Times and durations are not modelled.
pub mod Recovery
pub mod Tracker
pub mod Replay
pub mod AppVerify
pub mod Adapter
pub mod Engine
use primitive_box.Prelude.{ℕ, String, Bool, Option, List}
use primitive_box.Errors.{GoError}
use primitive_box.Json.{RawMessage}
use primitive_box.Cvr.{PrimitiveIntent, LayerAOutcome, VerifyOutcome}
use primitive_box.Cvr

pub data FailureKind : Type 0 where
  environment test_fail syntax timeout duplicate unknown : FailureKind

pub record StepError : Type 0 where
  pub kind : FailureKind
  pub code : String
  pub message : String
  pub summary : String

pub record StepResult : Type 0 where
  pub success : Bool
  pub output : RawMessage
  pub error : Option StepError

pub data StepStatus : Type 0 where
  pending running passed failed skipped rolled_back : StepStatus

-- `other` is a goal's status, which `Replay` of internal/goal casts to a task's.
pub data TaskStatus : Type 0 where
  planning executing verifying recovering completed failed paused : TaskStatus
  other : String → TaskStatus

pub record Step : Type 0 where
  pub id : String
  pub primitive : String
  pub input : RawMessage
  pub output : RawMessage
  pub result : Option StepResult
  pub checkpoint_id : String
  pub status : StepStatus
  pub error : String
  pub escalated : Bool

pub record Task : Type 0 where
  pub id : String
  pub description : String
  pub sandbox_id : String
  pub status : TaskStatus
  pub steps : List Step
  pub retry_count : ℕ
  pub max_retries : ℕ

pub data RecoveryAction : Type 0 where
  retry pause fail continue : RecoveryAction

-- runtrace.StepRecord
pub record TraceRecord : Type 0 where
  pub task_id : String
  pub trace_id : String
  pub session_id : String
  pub attempt_id : ℕ
  pub sandbox_id : String
  pub step_id : String
  pub primitive : String
  pub checkpoint_id : String
  pub intent_snapshot : PrimitiveIntent
  pub layer_a_outcome : LayerAOutcome
  pub strategy_name : String
  pub strategy_outcome : VerifyOutcome
  pub recovery_path : Cvr.RecoveryAction
  pub affected_scopes : List String
  pub cvr_depth_exceeded : Bool
  pub verify_result : VerifyOutcome
  pub failure_kind : String

-- The parts of primitive.AppPrimitiveManifest that the engine reads.
pub record AppPrimitiveVerify : Type 0 where
  pub strategy : String
  pub primitive : String
  pub command : String

pub record AppPrimitiveRollback : Type 0 where
  pub strategy : String
  pub primitive : String

pub record AppPrimitiveManifest : Type 0 where
  pub app_id : String
  pub name : String
  pub verify : Option AppPrimitiveVerify
  pub rollback : Option AppPrimitiveRollback
  pub intent : PrimitiveIntent

-- The interfaces. The intent is the value that the context carries to the executor.
pub record PrimitiveExecutor (W : Type 0) : Type 0 where
  pub execute :
      Option PrimitiveIntent → String → RawMessage → W → Option StepResult × Option GoError × W

pub record TraceStore (W : Type 0) : Type 0 where
  pub record_trace_step : TraceRecord → W → W

pub record AppPrimitiveRegistry (W : Type 0) : Type 0 where
  pub get : String → W → Option AppPrimitiveManifest × Option GoError
