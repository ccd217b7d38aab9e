-- ===== src/Cvr.antt =====
-- internal/cvr/manifest.go and the types of coordinator.go and recovery_tree.go. Go's string types
-- are data types of their named constants, with `other` or `unset` where code outside the package
-- may supply another value. Clock readings (`CreatedAt`, `DurationMs`, ...) are not modelled.
pub mod Tree
pub mod Coordinator
pub mod TestSuite
use primitive_box.Prelude.{ℕ, String, Bool, false, Option, List, []}
use primitive_box.Errors.{GoError}
use primitive_box.Json.{Json, RawMessage, Fields}

abbrev pub max_cvr_depth : ℕ
max_cvr_depth = 5

pub data IntentCategory : Type 0 where
  mutation query verification rollback : IntentCategory
  other : String → IntentCategory

pub data RiskLevel : Type 0 where
  low medium high : RiskLevel
  other : String → RiskLevel

pub record PrimitiveIntent : Type 0 where
  pub category : IntentCategory
  pub reversible : Bool
  pub risk_level : RiskLevel
  pub affected_scopes : List String

pub data CheckpointTrigger : Type 0 where
  unset manual intent_policy strategy_forced : CheckpointTrigger

pub data CheckpointReason : Type 0 where
  unset pre_edit pre_refactor pre_exec pre_restore manual task_boundary : CheckpointReason

pub record CallFrame : Type 0 where
  pub primitive_id : String
  pub depth : ℕ

pub record EffectEntry : Type 0 where
  pub kind : String
  pub target : String
  pub affected_symbols : List String
  pub reversible_by : String

pub record AppStateSnapshot : Type 0 where
  pub app_id : String
  pub state_key : String
  pub state_json : RawMessage

pub record CheckpointManifest : Type 0 where
  pub id : String
  pub checkpoint_id : String
  pub sandbox_id : String
  pub primitive_id : String
  pub intent : PrimitiveIntent
  pub trigger : CheckpointTrigger
  pub state_ref : String
  pub commit_hash : String
  pub label : String
  pub trigger_primitive : String
  pub trigger_reason : CheckpointReason
  pub task_id : String
  pub trace_id : String
  pub step_id : String
  pub attempt : ℕ
  pub call_stack : List CallFrame
  pub effect_log : List EffectEntry
  pub app_states : List AppStateSnapshot
  pub workspace_root : String
  pub files_modified_since_prev : List String
  pub prev_checkpoint_id : String
  pub corrupted : Bool
  pub corrupt_reason : String

-- The zero value of the struct, which `var manifest CheckpointManifest` starts from.
abbrev pub zero_manifest : CheckpointManifest
zero_manifest = record {
  id = "";
  checkpoint_id = "";
  sandbox_id = "";
  primitive_id = "";
  intent = record {
    category = IntentCategory.other "";
    reversible = false;
    risk_level = RiskLevel.other "";
    affected_scopes = [];
  };
  trigger = CheckpointTrigger.unset;
  state_ref = "";
  commit_hash = "";
  label = "";
  trigger_primitive = "";
  trigger_reason = CheckpointReason.unset;
  task_id = "";
  trace_id = "";
  step_id = "";
  attempt = 0;
  call_stack = [];
  effect_log = [];
  app_states = [];
  workspace_root = "";
  files_modified_since_prev = [];
  prev_checkpoint_id = "";
  corrupted = false;
  corrupt_reason = "";
}

pub data VerifyOutcome : Type 0 where
  unset passed failed skipped timeout error : VerifyOutcome

pub data RecoverHint : Type 0 where
  unset rollback retry escalate abort rewrite skip : RecoverHint

pub record StrategyResult : Type 0 where
  pub outcome : VerifyOutcome
  pub message : String
  pub details : RawMessage
  pub recover_hint : RecoverHint

pub record ExecuteResult : Type 0 where
  pub fields : Fields
  pub success : Bool
  pub err_msg : String

-- What a caller hands to `Execute` as `params any`: raw bytes, or a value to be marshalled.
pub data Params : Type 0 where
  raw : RawMessage → Params
  payload : Json → Params

-- The interfaces, over the state `S` that their implementations keep.
pub record StrategyExecutor (S : Type 0) : Type 0 where
  pub execute : String → Params → S → ExecuteResult × Option GoError × S

pub record ManifestStore (S : Type 0) : Type 0 where
  pub save_manifest : CheckpointManifest → S → Option GoError × S

pub record VerifyStrategy (S : Type 0) : Type 0 where
  pub name : String
  pub description : String
  pub run :
      StrategyExecutor S
      → ExecuteResult
      → Option CheckpointManifest
      → S
      → StrategyResult × Option GoError × S

pub data RecoveryAction : Type 0 where
  unset retry rollback rewrite skip escalate abort : RecoveryAction

pub data FailureKind : Type 0 where
  exec_error verify_fail duplicate timeout : FailureKind

pub data LayerAOutcome : Type 0 where
  unset failed checkpoint_created skipped : LayerAOutcome

pub record CvrResult : Type 0 where
  pub checkpoint_id : String
  pub passed : Bool
  pub strategy_result : StrategyResult
  pub applied_action : RecoveryAction
  pub trace_ref : String
  pub layer_a_outcome : LayerAOutcome

pub record CvrRequest (S : Type 0) : Type 0 where
  pub primitive_id : String
  pub sandbox_id : String
  pub intent : PrimitiveIntent
  pub params : Params
  pub exec : Option (StrategyExecutor S)
  pub trace_id : String
  pub step_id : String
  pub attempt : ℕ
  pub cvr_depth : ℕ
  pub verify_strategy : Option (VerifyStrategy S)
  pub disable_verify_strategy : Bool

abbrev pub zero_strategy_result : StrategyResult
zero_strategy_result = record {
  outcome = VerifyOutcome.unset;
  message = "";
  details = RawMessage.absent;
  recover_hint = RecoverHint.unset;
}

abbrev pub zero_result : CvrResult
zero_result = record {
  checkpoint_id = "";
  passed = false;
  strategy_result = zero_strategy_result;
  applied_action = RecoveryAction.unset;
  trace_ref = "";
  layer_a_outcome = LayerAOutcome.unset;
}

abbrev pub is_mutation : IntentCategory → Bool
is_mutation mutation = Bool.true
is_mutation _ = false

abbrev pub is_high : RiskLevel → Bool
is_high high = Bool.true
is_high _ = false

abbrev pub is_passed : VerifyOutcome → Bool
is_passed passed = Bool.true
is_passed _ = false

abbrev pub is_failed : VerifyOutcome → Bool
is_failed failed = Bool.true
is_failed _ = false
