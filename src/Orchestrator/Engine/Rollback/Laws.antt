-- ===== src/Orchestrator/Engine/Rollback/Laws.antt =====
-- `executeDeclaredRollback` and its two guards.
use primitive_box.Prelude.{
  String, ◌≡◌, ◌≢◌, ◌↔◌, ◌⊎◌, refl, true, false, Option, none, some, is_some, eq_iff, arith,
}
use primitive_box.Json.{RawMessage}
use primitive_box.Cvr.{CvrResult, VerifyOutcome, mutation, high}
use primitive_box.Orchestrator.{AppPrimitiveManifest, StepResult}
use primitive_box.Orchestrator.Engine.{Engine}
use primitive_box.Orchestrator.Engine.Rollback.{
  should_fail_closed_without_rollback, should_prefer_declared_rollback, execute_declared_rollback,
}

-- An app primitive is refused a rollback exactly if it declares none and mutates state
-- irreversibly or at high risk.
pub should_fail_closed_iff :
    (manifest : AppPrimitiveManifest)
    → (should_fail_closed_without_rollback manifest ≡ true) ↔ (
        (manifest.rollback ≡ none)
        × (manifest.intent.category ≡ mutation)
        × ((manifest.intent.reversible ≡ false) ⊎ (manifest.intent.risk_level ≡ high)))
unfolding should_fail_closed_without_rollback
should_fail_closed_iff manifest = ground arith

-- A declared rollback takes the place of the chosen action exactly if the app primitive mutates,
-- declares one, and its verification failed, broke or timed out.
pub should_prefer_declared_iff :
    (manifest : AppPrimitiveManifest) (result : CvrResult)
    → (should_prefer_declared_rollback (some manifest) result ≡ true) ↔ (
        (manifest.rollback ≢ none)
        × (manifest.intent.category ≡ mutation)
        × ((result.strategy_result.outcome ≡ VerifyOutcome.failed)
            ⊎ (result.strategy_result.outcome ≡ VerifyOutcome.error)
            ⊎ (result.strategy_result.outcome ≡ VerifyOutcome.timeout)))
unfolding should_prefer_declared_rollback
should_prefer_declared_iff manifest result = ground arith

abbrev pub Undeclared : Option AppPrimitiveManifest → Type 0
Undeclared none = Unit {0}
Undeclared (some m) = m.rollback ≡ none

module _ {W : Type 0} (e : Engine W) (primitive : String) (params : RawMessage)
    (exec_result : Option StepResult) (result : CvrResult) where
  -- For an app primitive that mutates state irreversibly or at high risk and declares no rollback,
  -- the rollback fails before it calls anything: the workspace alone is never restored.
  pub execute_declared_rollback_fails_closed :
      (manifest : AppPrimitiveManifest) (w : W)
      → manifest.rollback ≡ none
      → manifest.intent.category ≡ mutation
      → (manifest.intent.reversible ≡ false) ⊎ (manifest.intent.risk_level ≡ high)
      → let out =
          execute_declared_rollback e primitive params exec_result result (some manifest) w in
        (is_some out.0 ≡ true) × (out.1 ≡ w)
  unfolding execute_declared_rollback
  execute_declared_rollback_fails_closed manifest w r c h =
      rw ((should_fail_closed_iff manifest).1 (r, c, h)) (refl, refl)

  -- With no declared rollback and no checkpoint, the rollback fails and calls nothing.
  pub execute_declared_rollback_needs_checkpoint :
      (manifest : Option AppPrimitiveManifest) (w : W)
      → result.checkpoint_id ≡ ""
      → Undeclared manifest
      → let out = execute_declared_rollback e primitive params exec_result result manifest w in
        (is_some out.0 ≡ true) × (out.1 ≡ w)
  unfolding execute_declared_rollback
  execute_declared_rollback_needs_checkpoint none w empty u =
      ground (arith, eq_iff result.checkpoint_id "")
  execute_declared_rollback_needs_checkpoint (some m) w empty u =
      ground (arith, eq_iff result.checkpoint_id "")
