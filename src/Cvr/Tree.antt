-- ===== src/Cvr/Tree.antt =====
-- internal/cvr/recovery_tree.go: the decision tree that picks a recovery action.
pub mod Laws
use primitive_box.Prelude.{
  ℕ, Bool, true, false, ◌&&◌, not, Option, none, some, List, [], ◌∷◌, leb, if◌then◌else◌,
}
use primitive_box.Cvr.{
  PrimitiveIntent, StrategyResult, RecoveryAction, retry, rollback, escalate, abort, FailureKind,
  is_failed,
}

pub record RecoveryCtx : Type 0 where
  pub failure_kind : FailureKind
  pub attempt : ℕ
  pub intent : PrimitiveIntent
  pub strategy_result : StrategyResult
  pub max_retries : ℕ

-- The interface: `Match` and `Action`.
pub record DecisionNode : Type 0 where
  pub matches : RecoveryCtx → Bool
  pub action : RecoveryAction

-- A nil `*DecisionTree` is `none`.
abbrev pub DecisionTree : Type 0
DecisionTree = Option (List DecisionNode)

-- The loop of `Decide`.
unfoldable pub decide_nodes : List DecisionNode → RecoveryCtx → RecoveryAction
decide_nodes [] ctx = abort
decide_nodes (n ∷ nodes) ctx = if n.matches ctx then n.action else decide_nodes nodes ctx

unfoldable pub decide : DecisionTree → RecoveryCtx → RecoveryAction
unfolding decide_nodes
decide none ctx = abort
decide (some nodes) ctx = decide_nodes nodes ctx

abbrev pub is_duplicate : FailureKind → Bool
is_duplicate FailureKind.duplicate = true
is_duplicate _ = false

abbrev pub is_timeout : FailureKind → Bool
is_timeout FailureKind.timeout = true
is_timeout _ = false

abbrev pub irreversible_mutation_node : DecisionNode
irreversible_mutation_node = record {
  matches = λ ctx. not ctx.intent.reversible && is_failed ctx.strategy_result.outcome;
  action = rollback;
}

abbrev pub max_attempts_node : DecisionNode
max_attempts_node = record { matches = λ ctx. leb ctx.max_retries ctx.attempt; action = escalate }

abbrev pub duplicate_node : DecisionNode
duplicate_node = record { matches = λ ctx. is_duplicate ctx.failure_kind; action = abort }

abbrev pub timeout_node : DecisionNode
timeout_node = record { matches = λ ctx. is_timeout ctx.failure_kind; action = retry }

abbrev pub default_retry_node : DecisionNode
default_retry_node = record { matches = λ ctx. true; action = retry }

unfoldable pub new_default_decision_tree : DecisionTree
new_default_decision_tree = some (
    irreversible_mutation_node ∷ max_attempts_node ∷ duplicate_node ∷ timeout_node
    ∷ default_retry_node ∷ [])
