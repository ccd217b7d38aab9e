-- ===== src/Cvr/Coordinator/Outcome.antt =====
-- What the result of `Execute` says of what was run.
use primitive_box.Prelude.{
  ◌≡◌, ◌≢◌, ◌↔◌, ◌⊎◌, ◌<◌, ◌≤◌, refl, true, false, Option, none, some, arith, leb, Bool-cases, inl,
  inr,
}
use primitive_box.Errors.{GoError, Sentinel, sentinel}
use primitive_box.Cvr.{
  ExecuteResult, StrategyExecutor, StrategyResult, CvrRequest, CvrResult, RecoveryAction, retry,
  LayerAOutcome, VerifyOutcome, CheckpointManifest, VerifyStrategy, zero_manifest, zero_result,
  max_cvr_depth,
}
use primitive_box.Cvr.Tree.{new_default_decision_tree, RecoveryCtx}
use primitive_box.Cvr.Tree.Laws.{default_decides, default_decisions, default_never_skips}
use primitive_box.Cvr.Coordinator.{
  CvrCoordinator, LayerA, failed, created, skipped, execute, layer_a, layer_b, active_strategy,
  created_result, skipped_result, conclude, run_primitive, after_layer_a, with_executor,
  failure_kind_from_execution,
}

module _ {S : Type 0} where
  -- The request's primitive, run where Layer A ended, succeeded, and the strategy in force accepted
  -- it.
  pub record Succeeded (c : CvrCoordinator S) (req : CvrRequest S) (s : S) : Type 0 where
    pub exec : StrategyExecutor S
    pub given : req.exec ≡ some exec
    pub manifest : CheckpointManifest
    pub before : S
    pub from : (layer_a c req exec s).1 ≡ before
    pub no_error : (exec.execute req.primitive_id req.params before).1 ≡ none
    pub success : (exec.execute req.primitive_id req.params before).0.success ≡ true
    pub verified :
        (v : VerifyStrategy S)
        → active_strategy c req ≡ some v
        → let executed = exec.execute req.primitive_id req.params before in
          ((v.run exec executed.0 (some manifest) executed.2).0.outcome ≡ VerifyOutcome.passed)
          × ((v.run exec executed.0 (some manifest) executed.2).1 ≡ none)

  layer_b-passed :
      (v : Option (VerifyStrategy S)) (exec : StrategyExecutor S) (m : CheckpointManifest)
      (out : ExecuteResult × Option GoError × S)
      → (layer_b v exec m out).0.outcome ≡ VerifyOutcome.passed
      → (out.1 ≡ none) × (out.0.success ≡ true)
  unfolding layer_b
  layer_b-passed none exec m (r, none, s) h = ground arith
  layer_b-passed none exec m (r, some e, s) h = ground arith
  layer_b-passed (some v) exec m (r, none, s) h = ground arith
  layer_b-passed (some v) exec m (r, some e, s) h = ground arith

  layer_b-verified :
      (v : VerifyStrategy S) (exec : StrategyExecutor S) (m : CheckpointManifest)
      (out : ExecuteResult × Option GoError × S)
      → (layer_b (some v) exec m out).0.outcome ≡ VerifyOutcome.passed
      → ((v.run exec out.0 (some m) out.2).0.outcome ≡ VerifyOutcome.passed)
        × ((v.run exec out.0 (some m) out.2).1 ≡ none)
  unfolding layer_b
  layer_b-verified v exec m (r, none, s) h = ground arith
  layer_b-verified v exec m (r, some e, s) h = ground arith

  module _ (c : CvrCoordinator S) (req : CvrRequest S) where
    passed-conclude :
        (result : CvrResult) (r : ExecuteResult) (e : Option GoError)
        (v : Option (VerifyStrategy S)) (exec : StrategyExecutor S) (m : CheckpointManifest)
        (out : ExecuteResult × Option GoError × S)
        → (conclude c req result r e (layer_b v exec m out).0).passed ≡ true
        → (layer_b v exec m out).0.outcome ≡ VerifyOutcome.passed
    unfolding conclude
    passed-conclude result r e v exec m out h = ground arith

    module _ (exec : StrategyExecutor S) (given : req.exec ≡ some exec) where
      run_primitive-passed :
          (result : CvrResult) (m : CheckpointManifest) (s s' : S)
          → (layer_a c req exec s).1 ≡ s'
          → (run_primitive c req exec result m s').0.passed ≡ true
          → ((run_primitive c req exec result m s').1 ≡ none) × Succeeded c req s
      unfolding run_primitive
      run_primitive-passed result m s s' ended h =
          let executed = exec.execute req.primitive_id req.params s' in
          let accepted : (layer_b (active_strategy c req) exec m executed).0.outcome
              ≡ VerifyOutcome.passed =
            passed-conclude result executed.0 executed.1 (active_strategy c req) exec m executed
              h in
          let (quiet, fine) = layer_b-passed (active_strategy c req) exec m executed accepted in
          (
            quiet,
            record {
              exec = exec;
              given = given;
              manifest = m;
              before = s';
              from = ended;
              no_error = quiet;
              success = fine;
              verified = λ v e. layer_b-verified v exec m executed (rw e at accepted);
            },
          )

      after_layer_a-passed :
          (s : S) (a : LayerA × S)
          → (layer_a c req exec s).1 ≡ a.1
          → (after_layer_a c req exec a).0.passed ≡ true
          → ((after_layer_a c req exec a).1 ≡ none) × Succeeded c req s
      unfolding after_layer_a
      after_layer_a-passed s (failed e, s') ended h = absurd (ground arith)
      after_layer_a-passed s (created m, s') ended h =
          run_primitive-passed (created_result m) m s s' ended h
      after_layer_a-passed s (skipped, s') ended h =
          run_primitive-passed skipped_result zero_manifest s s' ended h

    with_executor-passed :
        (x : Option (StrategyExecutor S)) (s : S)
        → req.exec ≡ x
        → (with_executor c req x s).0.passed ≡ true
        → ((with_executor c req x s).1 ≡ none) × Succeeded c req s
    unfolding with_executor
    with_executor-passed none s e h = absurd (ground arith)
    with_executor-passed (some exec) s e h =
        after_layer_a-passed exec e s (layer_a c req exec s) refl h

    -- `Passed` is sound: it comes with a nil error, and the primitive, run by the request's
    -- executor in the state that Layer A left, succeeded and was accepted by the verification
    -- strategy in force, if any.
    pub execute-passed :
        (s : S)
        → (execute c req s).0.passed ≡ true
        → ((execute c req s).1 ≡ none) × Succeeded c req s
    unfolding execute
    execute-passed s h = elim (Bool-cases (leb max_cvr_depth req.cvr_depth)) [
      | inl deep ↦ absurd (ground arith)
      | inr fine ↦ rw fine (with_executor-passed req.exec s refl (rw fine at h))
    ]

    -- Past the depth limit nothing runs: the state is untouched and the depth error is returned.
    pub execute-depth_exceeded :
        (s : S)
        → max_cvr_depth ≤ req.cvr_depth
        → execute c req s ≡ (zero_result, some (sentinel Sentinel.depth_exceeded), s)
    unfolding execute
    execute-depth_exceeded s h = ground arith

    -- The primitive was reached: Layer A was not needed, or it made its checkpoint.
    abbrev pub Reached : CvrResult → Type 0
    Reached r =
        (r.layer_a_outcome ≡ LayerAOutcome.checkpoint_created)
        ⊎ (r.layer_a_outcome ≡ LayerAOutcome.skipped)

    conclude-decides :
        (result : CvrResult) (r : ExecuteResult) (e : Option GoError) (o : StrategyResult)
        → c.tree ≡ new_default_decision_tree
        → result.applied_action ≡ RecoveryAction.unset
        → let final = conclude c req result r e o in
          ((final.applied_action ≡ RecoveryAction.unset) ↔ (final.passed ≡ true))
          × ((final.applied_action ≢ retry) ⊎ (req.attempt < 3))
          × (final.applied_action ≢ RecoveryAction.skip)
    unfolding conclude
    conclude-decides result r e o t u = ground (
      arith,
      default_decides (ctx_of r e o),
      default_decisions (ctx_of r e o),
      default_never_skips (ctx_of r e o),
    )
      where
        ctx_of : ExecuteResult → Option GoError → StrategyResult → RecoveryCtx
        ctx_of r e o = record {
          failure_kind = failure_kind_from_execution e r o.outcome;
          attempt = req.attempt;
          intent = req.intent;
          strategy_result = o;
          max_retries = 3;
        }

    -- What the action of a result says, with the default tree in force.
    abbrev pub Decides : CvrResult → Type 0
    Decides r =
        ((Reached r × ((r.applied_action ≡ RecoveryAction.unset) ↔ (r.passed ≡ true)))
          ⊎ (¬ Reached r × (r.applied_action ≡ RecoveryAction.unset) × (r.passed ≡ false)))
        × ((r.applied_action ≢ retry) ⊎ (req.attempt < 3))
        × (r.applied_action ≢ RecoveryAction.skip)

    module _ (default : c.tree ≡ new_default_decision_tree) where
      run_primitive-Decides :
          (exec : StrategyExecutor S) (result : CvrResult) (m : CheckpointManifest) (s : S)
          → Reached result
          → result.applied_action ≡ RecoveryAction.unset
          → Decides (run_primitive c req exec result m s).0
      unfolding run_primitive conclude
      run_primitive-Decides exec result m s reached fresh =
          let executed = exec.execute req.primitive_id req.params s in
          let verified = layer_b (active_strategy c req) exec m executed in
          let (exact, bounded, no_skip) =
            conclude-decides result executed.0 executed.1 verified.0 default fresh in
          (inl (reached, exact), bounded, no_skip)

      after_layer_a-Decides :
          (exec : StrategyExecutor S) (a : LayerA × S) → Decides (after_layer_a c req exec a).0
      unfolding after_layer_a
      after_layer_a-Decides exec (failed e, s) = ground arith
      after_layer_a-Decides exec (created m, s) =
          run_primitive-Decides exec (created_result m) m s (inl refl) refl
      after_layer_a-Decides exec (skipped, s) =
          run_primitive-Decides exec skipped_result zero_manifest s (inr refl) refl

      with_executor-Decides :
          (x : Option (StrategyExecutor S)) (s : S) → Decides (with_executor c req x s).0
      unfolding with_executor
      with_executor-Decides none s = ground arith
      with_executor-Decides (some exec) s = after_layer_a-Decides exec (layer_a c req exec s)

      -- With the default tree: once the primitive was reached, an action is set exactly where the
      -- result did not pass; where Layer A failed or the call was refused, nothing passed and no
      -- action is set; a retry is asked for only below attempt 3, and a skip never.
      pub execute-Decides : (s : S) → Decides (execute c req s).0
      unfolding execute
      execute-Decides s = elim (Bool-cases (leb max_cvr_depth req.cvr_depth)) [
        | inl deep ↦ rw deep (ground arith)
        | inr fine ↦ rw fine (with_executor-Decides req.exec s)
      ]
