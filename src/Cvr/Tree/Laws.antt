-- ===== src/Cvr/Tree/Laws.antt =====
-- What the decision trees decide.
use primitive_box.Prelude.{
  ◌≡◌, ◌≢◌, ◌↔◌, ◌≤◌, ◌<◌, true, false, some, List, [], ◌∷◌, ◌++◌, All, arith,
}
use primitive_box.Cvr.{RecoveryAction, retry, rollback, escalate, abort, failed, FailureKind}
use primitive_box.Cvr.Tree.{
  RecoveryCtx, DecisionNode, decide, decide_nodes, new_default_decision_tree,
}

module _ (ctx : RecoveryCtx) where
  decide_nodes-append :
      (before after : List DecisionNode) (node : DecisionNode)
      → All (λ n. n.matches ctx ≡ false) before
      → node.matches ctx ≡ true
      → decide_nodes (before ++ node ∷ after) ctx ≡ node.action
  unfolding decide_nodes
  decide_nodes-append [] after node none_before here = ground arith
  decide_nodes-append (n ∷ before) after node none_before here =
      ground (arith, decide_nodes-append before after node none_before.1 here)

  -- Whatever the tree, the action is that of the first node that matches.
  pub decide_first_match :
      (before after : List DecisionNode) (node : DecisionNode)
      → All (λ n. n.matches ctx ≡ false) before
      → node.matches ctx ≡ true
      → decide (some (before ++ node ∷ after)) ctx ≡ node.action
  unfolding decide
  decide_first_match = decide_nodes-append

  -- The default tree rolls back exactly where an irreversible primitive failed its verification;
  -- otherwise it escalates exactly at the retry limit, and below that limit it aborts exactly on
  -- duplicates and retries all else.
  pub default_decisions :
      let action = decide new_default_decision_tree ctx in
      let rolls_back = (ctx.intent.reversible ≡ false) × (ctx.strategy_result.outcome ≡ failed) in
      ((action ≡ rollback) ↔ rolls_back)
      × ((action ≡ escalate) ↔ (¬ rolls_back × (ctx.max_retries ≤ ctx.attempt)))
      × ((action ≡ abort) ↔ (
          ¬ rolls_back
          × (ctx.attempt < ctx.max_retries)
          × (ctx.failure_kind ≡ FailureKind.duplicate)))
      × ((action ≡ retry) ↔ (
          ¬ rolls_back
          × (ctx.attempt < ctx.max_retries)
          × (ctx.failure_kind ≢ FailureKind.duplicate)))
  unfolding decide new_default_decision_tree
  default_decisions = ground arith

  -- The default tree always names an action.
  pub default_decides : decide new_default_decision_tree ctx ≢ RecoveryAction.unset
  unfolding decide new_default_decision_tree
  default_decides = ground arith

  -- The default tree never skips a primitive.
  pub default_never_skips : decide new_default_decision_tree ctx ≢ RecoveryAction.skip
  unfolding decide new_default_decision_tree
  default_never_skips = ground arith
