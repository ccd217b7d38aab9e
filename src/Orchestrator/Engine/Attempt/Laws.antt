-- ===== src/Orchestrator/Engine/Attempt/Laws.antt =====
-- How one round of the loop can end.
use primitive_box.Prelude.{
  ℕ, ◌≤◌, ◌≡◌, ◌≢◌, ◌⊎◌, refl, true, ◌&&◌, Option, none, some, inl, inr, Bool-cases, arith,
}
use primitive_box.Errors.{GoError, error_is, depth_exceeded}
use primitive_box.Cvr.{CvrResult}
use primitive_box.Cvr
use primitive_box.Orchestrator.{
  StepResult, Step, StepStatus, Task, RecoveryAction, retry, pause, fail, continue,
  AppPrimitiveManifest, FailureKind,
}
use primitive_box.Orchestrator.Recovery.{decide}
use primitive_box.Orchestrator.Adapter.{AdapterState}
use primitive_box.Orchestrator.Engine.{Engine}
use primitive_box.Orchestrator.Engine.Attempt.{
  Round, done, stop, again, finish, recover, rolled_back, settle, judge_round, after_cvr,
  attempt_step, kind_or_unknown, step_error, action_of, last_error, started, run_cvr,
}

-- A round that stops leaves its step failed or rolled back.
abbrev pub Halted : Round × Step → Type 0
Halted (done r, step) = r.success ≡ true
Halted (stop err, step) = (step.status ≡ StepStatus.failed) ⊎ (step.status ≡ StepStatus.rolled_back)
Halted (again err, step) = Unit {0}

finish-Halted : (a : RecoveryAction) (err : GoError) (step : Step) → Halted (finish a err step)
unfolding finish
finish-Halted retry err step = tt
finish-Halted pause err step = ground arith
finish-Halted fail err step = inl refl
finish-Halted continue err step = refl

decide_at_limit :
    (k : FailureKind) (attempt max_retries : ℕ)
    → max_retries ≤ attempt
    → decide k attempt max_retries ≡ pause
unfolding decide
decide_at_limit k attempt max_retries h = ground arith

finish-again :
    (a : RecoveryAction) (err : GoError) (step : Step)
    → a ≢ retry
    → (err' : GoError) → (finish a err step).0 ≢ again err'
unfolding finish
finish-again a err step other err' = ground arith

module _ {W : Type 0} (e : Engine W) (task : Task) where
  recover-ne-retry :
      (action : Cvr.RecoveryAction) (step : Step) (attempt max_retries : ℕ)
      (result : Option StepResult) (r : CvrResult) (manifest : Option AppPrimitiveManifest)
      (err : GoError) (w : W)
      → max_retries ≤ attempt
      → (recover e task action step attempt max_retries result r manifest err w).0 ≢ retry
  unfolding recover rolled_back
  recover-ne-retry action step attempt max_retries result r manifest err w limit =
      ground
        (arith, decide_at_limit (kind_or_unknown (step_error result)) attempt max_retries limit)

  settle-again :
      (step : Step) (attempt max_retries : ℕ) (manifest : Option AppPrimitiveManifest)
      (r : CvrResult) (err : Option GoError) (result : Option StepResult) (w : W) (err' : GoError)
      → max_retries ≤ attempt
      → (settle e task step attempt max_retries manifest r err result w).0 ≢ again err'
  unfolding settle
  settle-again step attempt max_retries manifest r err result w err' limit =
      finish-again _ _ _
        (recover-ne-retry (action_of manifest r) step attempt max_retries result r manifest
          (last_error err (step_error result) r.strategy_result.message) w limit)
        err'

  judge_round-again :
      (step : Step) (attempt max_retries : ℕ) (manifest : Option AppPrimitiveManifest)
      (r : CvrResult) (err : Option GoError) (result : Option StepResult) (w : W) (err' : GoError)
      → max_retries ≤ attempt
      → (judge_round e task step attempt max_retries manifest r err result w).0 ≢ again err'
  unfolding judge_round
  judge_round-again step attempt max_retries manifest r (some err) result w err' limit =
      ground
        (arith, settle-again step attempt max_retries manifest r (some err) result w err' limit)
  judge_round-again step attempt max_retries manifest r none none w err' limit =
      settle-again step attempt max_retries manifest r none none w err' limit
  judge_round-again step attempt max_retries manifest r none (some result) w err' limit =
      ground
        (arith, settle-again step attempt max_retries manifest r none (some result) w err' limit)

  after_cvr-again :
      (step : Step) (attempt max_retries : ℕ) (w : W)
      (out : CvrResult × Option GoError × AdapterState W) (err' : GoError)
      → max_retries ≤ attempt
      → (after_cvr e task step attempt max_retries w out).0 ≢ again err'
  unfolding after_cvr
  after_cvr-again step attempt max_retries w (r, err, a) err' limit =
      judge_round-again _ attempt max_retries _ r err _ _ err' limit

  -- The round of the last attempt asks for no other round.
  pub attempt_step-again :
      (step : Step) (attempt max_retries : ℕ) (w : W) (err' : GoError)
      → max_retries ≤ attempt
      → (attempt_step e task step attempt max_retries w).0 ≢ again err'
  unfolding attempt_step
  attempt_step-again step attempt max_retries w err' limit =
      after_cvr-again (started step) attempt max_retries w (run_cvr e task (started step) attempt w)
        err' limit

  settle-Halted :
      (step : Step) (attempt max_retries : ℕ) (manifest : Option AppPrimitiveManifest)
      (r : CvrResult) (err : Option GoError) (result : Option StepResult) (w : W)
      → let out = settle e task step attempt max_retries manifest r err result w in
        Halted (out.0, out.1)
  unfolding settle
  settle-Halted step attempt max_retries manifest r err result w =
      let chosen =
        recover e task (action_of manifest r) step attempt max_retries result r manifest
          (last_error err (step_error result) r.strategy_result.message) w in
      finish-Halted chosen.0 chosen.1 chosen.2

  judge_round-Halted :
      (step : Step) (attempt max_retries : ℕ) (manifest : Option AppPrimitiveManifest)
      (r : CvrResult) (err : Option GoError) (result : Option StepResult) (w : W)
      → let out = judge_round e task step attempt max_retries manifest r err result w in
        Halted (out.0, out.1)
  unfolding judge_round
  judge_round-Halted step attempt max_retries manifest r (some err) result w =
      elim (Bool-cases (error_is depth_exceeded err)) [
        | inl deep ↦ rw deep (inl refl)
        | inr other ↦
            rw other (settle-Halted step attempt max_retries manifest r (some err) result w)
      ]
  judge_round-Halted step attempt max_retries manifest r none none w =
      settle-Halted step attempt max_retries manifest r none none w
  judge_round-Halted step attempt max_retries manifest r none (some result) w =
      elim (Bool-cases (r.passed && result.success)) [
        | inl good ↦ rw good (ground arith)
        | inr bad ↦ rw bad (settle-Halted step attempt max_retries manifest r none (some result) w)
      ]

  after_cvr-Halted :
      (step : Step) (attempt max_retries : ℕ) (w : W)
      (called : CvrResult × Option GoError × AdapterState W)
      → let out = after_cvr e task step attempt max_retries w called in Halted (out.0, out.1)
  unfolding after_cvr
  after_cvr-Halted step attempt max_retries w (r, err, a) =
      judge_round-Halted _ attempt max_retries _ r err _ _

  -- A round that ends with a result ends with a success; one that ends with an error leaves the
  -- step failed or rolled back.
  pub attempt_step-Halted :
      (step : Step) (attempt max_retries : ℕ) (w : W)
      → let out = attempt_step e task step attempt max_retries w in Halted (out.0, out.1)
  unfolding attempt_step
  attempt_step-Halted step attempt max_retries w =
      after_cvr-Halted (started step) attempt max_retries w
        (run_cvr e task (started step) attempt w)
