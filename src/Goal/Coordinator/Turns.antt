-- ===== src/Goal/Coordinator/Turns.antt =====
-- How the loop over the steps of a goal may end.
use primitive_box.Prelude.{
  String, ◌≡◌, ◌⊎◌, ◌∙◌, subst, true, false, Option, none, some, List, [], ◌∷◌, arith, inr, ◌<>◌,
}
use primitive_box.Errors.{GoError, wrap, error_is, goal_paused}
use primitive_box.Json.{RawMessage, absent}
use primitive_box.Control.{GoalStep, GoalStatus, GoalStepStatus, GoalDb, Statement}
use primitive_box.Control.Store.{update_goal_step_status}
use primitive_box.Control.Store.Reviews.{create_goal_review}
use primitive_box.Control.Store.Goals.{
  Present, Stands, update_goal_step_status-goals, create_goal_review-goals,
  update_goal_status-Stands,
}
use primitive_box.Orchestrator.{StepResult}
use primitive_box.Orchestrator.Engine.Loop.Pause.{Answered, execute_step_via_cvr-Answered}
use primitive_box.Goal.{GoalState, GoalCoordinator}
use primitive_box.Goal.Coordinator.{
  StepsEnd, completed, stopped, panicked, StepIds, step_label, review_for, pause_for_review,
  fail_step, step_returned, run_step, after_step, step_turn, execute_steps,
}

module _ {W : Type 0} (goal_id : String) where
  -- Where the loop over the steps may end: never at a nil result, and at a pause only with the goal
  -- paused.
  abbrev pub Turned : StepsEnd × GoalState W → Type 0
  Turned (completed, s) = Present goal_id s.db.goals
  Turned (stopped err, s) =
      ((error_is goal_paused err ≡ true) × Stands goal_id GoalStatus.paused s.db.goals)
      ⊎ ((error_is goal_paused err ≡ false) × Present goal_id s.db.goals)
  Turned (panicked, s) = ⊥

module _ {W : Type 0} (c : GoalCoordinator W)
    (quiet : (g : GoalDb) (s : Statement) → c.store.fault g s ≡ none) (goal_id : String) where
  fail_step-Turned :
      (step : GoalStep) (output : RawMessage) (err : GoError) (g : GoalDb) (w : W)
      → error_is goal_paused err ≡ false
      → Present goal_id g.goals
      → Turned goal_id (fail_step c step output err g w)
  unfolding fail_step
  fail_step-Turned step output err g w no_pause p = inr (
    no_pause,
    subst (Present goal_id)
        (update_goal_step_status-goals c.store step.id GoalStepStatus.failed output g) p,
  )

  step_returned-Turned :
      (step : GoalStep) (g : GoalDb) (out : Option StepResult × Option GoError × W)
      → Answered out.0 out.1
      → Present goal_id g.goals
      → Turned goal_id (step_returned c step g out)
  unfolding step_returned error_is
  step_returned-Turned step g (none, some err, w) a p =
      fail_step-Turned step absent (wrap (step_label step <> ": ") err) g w a p
  step_returned-Turned step g (some r, some err, w) a p = absurd a
  step_returned-Turned step g (none, none, w) a p = absurd a
  step_returned-Turned step g (some r, none, w) a p = rw a (
      subst (Present goal_id)
        (update_goal_step_status-goals c.store step.id GoalStepStatus.passed r.output g) p)

  run_step-Turned :
      (step : GoalStep) (s : GoalState W)
      → Present goal_id s.db.goals
      → Turned goal_id (run_step c goal_id step s)
  unfolding run_step
  run_step-Turned step s p =
      step_returned-Turned step _ _
        (execute_step_via_cvr-Answered c.engine goal_id "" step.id step.primitive step.input
          s.world)
        (subst (Present goal_id)
          (update_goal_step_status-goals c.store step.id GoalStepStatus.running absent s.db) p)

  pause_for_review-Stands :
      (step : GoalStep) (s : GoalState W)
      → Present goal_id s.db.goals
      → Stands goal_id GoalStatus.paused (pause_for_review c goal_id step s).db.goals
  unfolding pause_for_review
  pause_for_review-Stands step s p =
      let review = review_for (c.fresh_review_id s) goal_id step in
      let reviewed = (create_goal_review c.store review s.db).1 in
      let awaiting =
        (update_goal_step_status c.store step.id GoalStepStatus.awaiting_review absent
          reviewed).1 in
      (update_goal_status-Stands c.store quiet goal_id GoalStatus.paused awaiting (
        subst (Present goal_id)
          (create_goal_review-goals c.store review s.db
            ∙ update_goal_step_status-goals c.store step.id GoalStepStatus.awaiting_review absent
                reviewed)
          p)).1

  step_turn-Turned :
      (approved : StepIds) (step : GoalStep) (s : GoalState W)
      → Present goal_id s.db.goals
      → Turned goal_id (step_turn c goal_id approved step s)
  unfolding step_turn error_is
  step_turn-Turned approved step s p =
      ground (arith, run_step-Turned step s p, pause_for_review-Stands step s p, p)

  after_step-Turned :
      (next : GoalState W → StepsEnd × GoalState W) (out : StepsEnd × GoalState W)
      → Turned goal_id out
      → ((s : GoalState W) → Present goal_id s.db.goals → Turned goal_id (next s))
      → Turned goal_id (after_step c next out)
  unfolding after_step
  after_step-Turned next (completed, s) h rest = rest s h
  after_step-Turned next (stopped err, s) h rest = h
  after_step-Turned next (panicked, s) h rest = h

  pub execute_steps-Turned :
      (approved : StepIds) (steps : List GoalStep) (s : GoalState W)
      → Present goal_id s.db.goals
      → Turned goal_id (execute_steps c goal_id approved steps s)
  unfolding execute_steps
  execute_steps-Turned approved [] s p = p
  execute_steps-Turned approved (step ∷ rest) s p =
      after_step-Turned _ (step_turn c goal_id approved step s) (step_turn-Turned approved step s p)
        (λ s' p'. execute_steps-Turned approved rest s' p')
