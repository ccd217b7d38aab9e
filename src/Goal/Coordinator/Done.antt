-- ===== src/Goal/Coordinator/Done.antt =====
-- What `executeSteps` leaves of the step rows.
use primitive_box.Prelude.{
  String, ◌≡◌, ◌≢◌, ◌⊎◌, refl, sym, ap, ◌∙◌, subst, Option, none, some, List, [], ◌∷◌, All, arith,
  inl, inr, Bool-cases,
}
use primitive_box.Errors.{GoError}
use primitive_box.Json.{absent}
use primitive_box.Control.{GoalStep, GoalStepStatus, GoalDb, Statement, update_step}
use primitive_box.Control.Store.{update_goal_step_status}
use primitive_box.Control.Store.Steps.{
  find_step, set_step, Kept, Kept-trans, set_passed-HasPassed, set_passed-Kept,
  update_goal_step_status-steps,
}
use primitive_box.Orchestrator.{StepResult}
use primitive_box.Orchestrator.Engine.Loop.{execute_step_via_cvr}
use primitive_box.Goal.{GoalState, GoalCoordinator}
use primitive_box.Goal.Coordinator.{
  StepsEnd, completed, stopped, panicked, StepIds, Standing, standing, finished_before,
  failed_before, to_run, step_returned, run_step, after_step, step_turn, execute_steps,
}

-- The step of this id is one that the loop passes over: it passed, was skipped, or was rolled back.
abbrev pub IsDone : String → List GoalStep → Type 0
IsDone id rows =
    (row : GoalStep) × (find_step id rows ≡ some row) × (standing row.status ≡ finished_before)

-- What was listed for a step against its row: the row is there, and done if the listed step is.
abbrev Known : List GoalStep → GoalStep → Type 0
Known rows step =
    (row : GoalStep) × (find_step step.id rows ≡ some row)
    × ((standing row.status ≡ finished_before) ⊎ (standing step.status ≢ finished_before))

Kept-IsDone :
    (id : String) (before after : List GoalStep)
    → Kept before after
    → IsDone id before
    → IsDone id after
Kept-IsDone id before after kept (row, at, done) =
    let (row', at', same) = kept id row at in (row', at', ground (arith, same, done))

Kept-Known :
    (before after : List GoalStep) (step : GoalStep)
    → Kept before after
    → Known before step
    → Known after step
Kept-Known before after step kept (row, at, known) =
    let (row', at', same) = kept step.id row at in (row', at', ground (arith, same, known))

Kept-All-Known :
    (before after : List GoalStep) (steps : List GoalStep)
    → Kept before after
    → All (Known before) steps
    → All (Known after) steps
Kept-All-Known before after [] kept h = tt
Kept-All-Known before after (s ∷ steps) kept h =
    (Kept-Known before after s kept h.0, Kept-All-Known before after steps kept h.1)

module _ {W : Type 0} (c : GoalCoordinator W)
    (quiet : (g : GoalDb) (s : Statement) → c.store.fault g s ≡ none) (goal_id : String) where
  -- What a part of the loop that completed has done for a step.
  abbrev Did : GoalStep → List GoalStep → GoalState W → Type 0
  Did step before s = IsDone step.id s.db.steps × Kept before s.db.steps

  step_returned-completed :
      (step : GoalStep) (g : GoalDb) (out : Option StepResult × Option GoError × W)
      → (step_returned c step g out).0 ≡ completed
      → (r : StepResult) × ((step_returned c step g out).1.db.steps
          ≡ set_step step.id GoalStepStatus.passed r.output g.steps)
  unfolding step_returned
  step_returned-completed step g (none, some err, w) h = absurd (ground arith)
  step_returned-completed step g (some r, some err, w) h = absurd (ground arith)
  step_returned-completed step g (none, none, w) h = absurd (ground arith)
  step_returned-completed step g (some r, none, w) h = elim (Bool-cases r.success) [
    | inl good ↦ (
      r,
      rw good (
          update_goal_step_status-steps c.store step.id GoalStepStatus.passed r.output g
            (quiet g (update_step step.id GoalStepStatus.passed))),
    )
    | inr bad ↦ absurd (ground arith)
  ]

  run_step-Did :
      (step : GoalStep) (s : GoalState W) (row : GoalStep)
      → find_step step.id s.db.steps ≡ some row
      → (run_step c goal_id step s).0 ≡ completed
      → Did step s.db.steps (run_step c goal_id step s).1
  unfolding run_step
  run_step-Did step s row at h =
      let running = update_goal_step_status c.store step.id GoalStepStatus.running absent s.db in
      let first =
        update_goal_step_status-steps c.store step.id GoalStepStatus.running absent s.db
          (quiet s.db (update_step step.id GoalStepStatus.running)) in
      let (r, second) =
        step_returned-completed step running.1
          (execute_step_via_cvr c.engine goal_id "" step.id step.primitive step.input s.world) h in
      let same = second ∙ ap (set_step step.id GoalStepStatus.passed r.output) first in
      let (row', at', passed) = set_passed-HasPassed step.id absent r.output s.db.steps row at in
      subst (λ rows. IsDone step.id rows × Kept s.db.steps rows) (sym same)
        ((row', at', ap standing passed), set_passed-Kept step.id absent r.output s.db.steps)

  step_turn-finished_before :
      (approved : StepIds) (step : GoalStep) (s : GoalState W)
      → standing step.status ≡ finished_before
      → step_turn c goal_id approved step s ≡ (completed, s)
  unfolding step_turn
  step_turn-finished_before approved step s e = ground arith

  step_turn-run_step :
      (approved : StepIds) (step : GoalStep) (s : GoalState W)
      → standing step.status ≡ to_run
      → (step_turn c goal_id approved step s).0 ≡ completed
      → step_turn c goal_id approved step s ≡ run_step c goal_id step s
  unfolding step_turn
  step_turn-run_step approved step s e h = ground arith

  step_turn-failed_before :
      (approved : StepIds) (step : GoalStep) (s : GoalState W)
      → standing step.status ≡ failed_before
      → (step_turn c goal_id approved step s).0 ≢ completed
  unfolding step_turn
  step_turn-failed_before approved step s e = ground arith

  step_turn-Did :
      (approved : StepIds) (step : GoalStep) (s : GoalState W) (st : Standing)
      → standing step.status ≡ st
      → Known s.db.steps step
      → (step_turn c goal_id approved step s).0 ≡ completed
      → Did step s.db.steps (step_turn c goal_id approved step s).1
  step_turn-Did approved step s finished_before is_st (row, at, known) h =
      subst (λ out. Did step s.db.steps out.1)
        (sym (step_turn-finished_before approved step s is_st))
        ((row, at, ground (arith, known)), (λ j r a. (r, a, inl refl)))
  step_turn-Did approved step s failed_before is_st known h =
      absurd (step_turn-failed_before approved step s is_st h)
  step_turn-Did approved step s to_run is_st (row, at, known) h =
      let same = step_turn-run_step approved step s is_st h in
      subst (λ out. Did step s.db.steps out.1) (sym same)
        (run_step-Did step s row at (ap (λ x. x.0) (sym same) ∙ h))

  after_step-completed :
      (next : GoalState W → StepsEnd × GoalState W) (out : StepsEnd × GoalState W)
      → (after_step c next out).0 ≡ completed
      → (out.0 ≡ completed) × (after_step c next out ≡ next out.1)
  unfolding after_step
  after_step-completed next (completed, s) h = (refl, refl)
  after_step-completed next (stopped err, s) h = absurd (ground arith)
  after_step-completed next (panicked, s) h = absurd (ground arith)

  execute_steps-Known :
      (approved : StepIds) (steps : List GoalStep) (s : GoalState W)
      → All (Known s.db.steps) steps
      → (execute_steps c goal_id approved steps s).0 ≡ completed
      → let final = (execute_steps c goal_id approved steps s).1.db.steps in
        All (λ t. IsDone t.id final) steps × Kept s.db.steps final
  unfolding execute_steps
  execute_steps-Known approved [] s known h = (tt, (λ j r a. (r, a, inl refl)))
  execute_steps-Known approved (step ∷ rest) s known h =
      let turn = step_turn c goal_id approved step s in
      let (turned, same) =
        after_step-completed (λ s'. execute_steps c goal_id approved rest s') turn h in
      let (done, kept) = step_turn-Did approved step s (standing step.status) refl known.0 turned in
      let (later, kept') =
        execute_steps-Known approved rest turn.1
          (Kept-All-Known s.db.steps turn.1.db.steps rest kept known.1)
          (ap (λ x. x.0) (sym same) ∙ h) in
      let final = (execute_steps c goal_id approved rest turn.1).1.db.steps in
      subst (λ x. All (λ t. IsDone t.id x.1.db.steps) (step ∷ rest) × Kept s.db.steps x.1.db.steps)
        (sym same)
        (
          (Kept-IsDone step.id turn.1.db.steps final kept' done, later),
          Kept-trans s.db.steps turn.1.db.steps final kept kept',
        )

  listed-Known :
      (rows steps : List GoalStep)
      → All (λ t. find_step t.id rows ≡ some t) steps
      → All (Known rows) steps
  listed-Known rows [] h = tt
  listed-Known rows (t ∷ steps) h =
      ((t, h.0, known (standing t.status) refl), listed-Known rows steps h.1)
    where
      known :
          (st : Standing)
          → standing t.status ≡ st
          → (standing t.status ≡ finished_before) ⊎ (standing t.status ≢ finished_before)
      known finished_before e = inl e
      known failed_before e = inr (λ f. ground arith)
      known to_run e = inr (λ f. ground arith)

  -- Over a database that answers every statement without an error: where the loop over steps that
  -- are listed as they are stored completes, the row of each of them is passed, skipped or rolled
  -- back, and every row is as it was or passed.
  pub execute_steps-IsDone :
      (approved : StepIds) (steps : List GoalStep) (s : GoalState W)
      → All (λ t. find_step t.id s.db.steps ≡ some t) steps
      → (execute_steps c goal_id approved steps s).0 ≡ completed
      → let final = (execute_steps c goal_id approved steps s).1.db.steps in
        All (λ t. IsDone t.id final) steps × Kept s.db.steps final
  execute_steps-IsDone approved steps s listed h =
      execute_steps-Known approved steps s (listed-Known s.db.steps steps listed) h
