-- ===== src/Goal/Coordinator.antt =====
-- internal/goal/coordinator.go: the execution and the resumption of a goal.
pub mod Gate
pub mod Turns
pub mod Progress
pub mod Done
use primitive_box.Prelude.{
  String, ◌<>◌, Bool, true, false, not, ◌&&◌, ◌||◌, Option, none, some, List, [], ◌∷◌, ◌=ₛ◌,
  if◌then◌else◌,
}
use primitive_box.Errors.{GoError, Sentinel, sentinel, message, wrap, error_is, goal_paused}
use primitive_box.Json.{RawMessage, absent}
use primitive_box.Orchestrator.{StepResult}
use primitive_box.Orchestrator.Engine.Loop.{execute_step_via_cvr}
use primitive_box.Control.{
  Goal, GoalStep, GoalReview, GoalStatus, GoalStepStatus, GoalReviewStatus, GoalDb, BusEvent,
  goal_status_text,
}
use primitive_box.Control.Store.{
  get_goal, list_goal_steps, update_goal_status, update_goal_step_status, publish_goal_event,
}
use primitive_box.Control.Store.Reviews.{list_goal_reviews, create_goal_review}
use primitive_box.Control.Store.Verifications.{list_goal_verifications}
use primitive_box.Goal.{GoalState, GoalCoordinator}
use primitive_box.Goal.Verification.{RunEnd, ran, broke, run}

-- How a part of a run ends; `panicked` is the dereference of a nil result.
pub data StepsEnd : Type 0 where
  completed : StepsEnd
  stopped : GoError → StepsEnd
  panicked : StepsEnd

abbrev pub StepIds : Type 0
StepIds = List String

unfoldable pub is_approved_step : StepIds → String → Bool
is_approved_step [] id = false
is_approved_step (a ∷ rest) id = a =ₛ id || is_approved_step rest id

abbrev pub needs_review : StepIds → GoalStep → Bool
needs_review approved step = step.risk_level =ₛ "high" && not (is_approved_step approved step.id)

pub data Standing : Type 0 where
  finished_before : Standing
  failed_before : Standing
  to_run : Standing

-- The `switch` on the status of a step.
abbrev pub standing : GoalStepStatus → Standing
standing GoalStepStatus.passed = finished_before
standing GoalStepStatus.skipped = finished_before
standing GoalStepStatus.rolled_back = finished_before
standing GoalStepStatus.failed = failed_before
standing _ = to_run

abbrev pub review_for : String → String → GoalStep → GoalReview
review_for id goal_id step = record {
  id = id;
  goal_id = goal_id;
  step_id = step.id;
  status = GoalReviewStatus.pending;
  primitive = step.primitive;
  risk_level = step.risk_level;
  reversible = step.reversible;
  side_effect = "";
  decision_reason = "";
}

abbrev pub data_of : Option StepResult → RawMessage
data_of none = absent
data_of (some r) = r.output

abbrev pub step_label : GoalStep → String
step_label step = "step " <> (step.id <> (" (" <> (step.primitive <> ")")))

module _ {W : Type 0} (c : GoalCoordinator W) where
  -- The review gate: the errors of its three writes are only logged.
  unfoldable pub pause_for_review : String → GoalStep → GoalState W → GoalState W
  pause_for_review goal_id step s =
      let reviewed =
        create_goal_review c.store (review_for (c.fresh_review_id s) goal_id step) s.db in
      let awaiting =
        update_goal_step_status c.store step.id GoalStepStatus.awaiting_review absent reviewed.1 in
      let paused = update_goal_status c.store goal_id GoalStatus.paused awaiting.1 in
      record s { db = paused.1 }

  fail_step : GoalStep → RawMessage → GoError → GoalDb → W → StepsEnd × GoalState W
  fail_step step output err g w =
      let failed = update_goal_step_status c.store step.id GoalStepStatus.failed output g in
      (stopped err, record { db = failed.1; world = w })

  -- What follows the engine's return.
  unfoldable pub step_returned :
      GoalStep → GoalDb → Option StepResult × Option GoError × W → StepsEnd × GoalState W
  unfolding fail_step
  step_returned step g (result, some err, w) =
      fail_step step (data_of result) (wrap (step_label step <> ": ") err) g w
  step_returned step g (none, none, w) = (panicked, record { db = g; world = w })
  step_returned step g (some r, none, w) =
      if not r.success
      then fail_step step r.output (message (step_label step <> " failed")) g w
      else let passed = update_goal_step_status c.store step.id GoalStepStatus.passed r.output g in
        (completed, record { db = passed.1; world = w })

  unfoldable pub run_step : String → GoalStep → GoalState W → StepsEnd × GoalState W
  unfolding step_returned
  run_step goal_id step s =
      let running = update_goal_step_status c.store step.id GoalStepStatus.running absent s.db in
      step_returned step running.1
        (execute_step_via_cvr c.engine goal_id "" step.id step.primitive step.input s.world)

  unfoldable pub after_step :
      (GoalState W → StepsEnd × GoalState W) → StepsEnd × GoalState W → StepsEnd × GoalState W
  after_step next (completed, s) = next s
  after_step next (stopped err, s) = (stopped err, s)
  after_step next (panicked, s) = (panicked, s)

  -- One round of the loop; `completed` goes on with the next step.
  unfoldable pub step_turn : String → StepIds → GoalStep → GoalState W → StepsEnd × GoalState W
  step_turn goal_id approved step s = elim (standing step.status) [
    | finished_before ↦ (completed, s)
    | failed_before ↦ (stopped (message (step_label step <> " already failed")), s)
    | to_run ↦
        if needs_review approved step
        then (stopped (sentinel goal_paused), pause_for_review goal_id step s)
        else run_step goal_id step s
  ]

  unfoldable pub execute_steps :
      String → StepIds → List GoalStep → GoalState W → StepsEnd × GoalState W
  execute_steps goal_id approved [] s = (completed, s)
  execute_steps goal_id approved (step ∷ rest) s =
      after_step (λ s'. execute_steps goal_id approved rest s') (step_turn goal_id approved step s)

  set_status : String → GoalStatus → String → GoalState W → StepsEnd × GoalState W
  set_status goal_id status text s =
      let updated = update_goal_status c.store goal_id status s.db in
      elim (updated.0) [
        | some err ↦ (stopped (wrap text err), record s { db = updated.1 })
        | none ↦ (completed, record s { db = updated.1 })
      ]

  -- A status change whose error is dropped.
  mark_failed : String → GoalState W → GoalState W
  mark_failed goal_id s = record s {
    db = (update_goal_status c.store goal_id GoalStatus.failed s.db).1;
  }

  verdict : String → RunEnd × GoalState W → StepsEnd × GoalState W
  unfolding mark_failed set_status after_step
  verdict goal_id (broke err, s) = (stopped err, mark_failed goal_id s)
  verdict goal_id (ran r, s) =
      if r.failed
      then after_step
          (λ s'. (stopped (message ("goal " <> (goal_id <> " verification failed"))), s'))
          (set_status goal_id GoalStatus.failed "set goal failed after verification: " s)
      else set_status goal_id GoalStatus.completed "set goal completed: " s

  unfoldable pub finalize_after_execution : String → GoalState W → StepsEnd × GoalState W
  unfolding verdict
  finalize_after_execution goal_id s =
      let verifications = list_goal_verifications c.store goal_id s.db in
      elim (verifications.0) [
        | some err ↦ (stopped (wrap "list verifications: " err), s)
        | none ↦ elim (verifications.1) [
          | [] ↦ set_status goal_id GoalStatus.completed "set goal completed: " s
          | v ∷ rest ↦
              after_step (λ s'. verdict goal_id (run c goal_id s'))
                (set_status goal_id GoalStatus.verifying "set goal verifying: " s)
        ]
      ]

  -- The end of `Execute` and `Resume`: a pause is no error for the caller.
  unfoldable pub settle : String → StepsEnd × GoalState W → StepsEnd × GoalState W
  unfolding mark_failed finalize_after_execution
  settle goal_id (panicked, s) = (panicked, s)
  settle goal_id (stopped err, s) =
      if error_is goal_paused err then (completed, s) else (stopped err, mark_failed goal_id s)
  settle goal_id (completed, s) = finalize_after_execution goal_id s

  unfoldable pub run_listed : String → StepIds → GoalState W → StepsEnd × GoalState W
  unfolding settle execute_steps
  run_listed goal_id approved s =
      let steps = list_goal_steps c.store goal_id s.db in
      elim (steps.0) [
        | some err ↦ (stopped (wrap ("list steps for goal " <> (goal_id <> ": ")) err), s)
        | none ↦ settle goal_id (execute_steps goal_id approved steps.1 s)
      ]

  start_goal : String → GoalStatus → GoalState W → StepsEnd × GoalState W
  unfolding run_listed set_status after_step
  start_goal goal_id GoalStatus.executing s =
      (stopped (message ("goal " <> (goal_id <> " is already executing"))), s)
  start_goal goal_id GoalStatus.completed s =
      (stopped (message ("goal " <> (goal_id <> " is already completed"))), s)
  start_goal goal_id _ s =
      after_step (run_listed goal_id [])
        (set_status goal_id GoalStatus.executing "set goal executing: " s)

  execute_found : String → Option GoError × Option Goal → GoalState W → StepsEnd × GoalState W
  unfolding start_goal
  execute_found goal_id (some err, x) s = (stopped (wrap ("get goal " <> (goal_id <> ": ")) err), s)
  execute_found goal_id (none, none) s =
      (stopped (message ("goal " <> (goal_id <> " not found"))), s)
  execute_found goal_id (none, some g) s = start_goal goal_id g.status s

  unfoldable pub execute : String → GoalState W → StepsEnd × GoalState W
  unfolding execute_found
  execute goal_id s = execute_found goal_id (get_goal c.store goal_id s.db) s

  -- The loop over the reviews: `none` for a pending one, or the approved steps.
  unfoldable pub approved_steps : List GoalReview → Option StepIds
  approved_steps [] = some []
  approved_steps (r ∷ rest) =
      let later = approved_steps rest in
      elim (r.status) [
        | GoalReviewStatus.pending ↦ none
        | GoalReviewStatus.approved ↦ elim later [ none ↦ none | some ids ↦ some (r.step_id ∷ ids) ]
        | GoalReviewStatus.rejected ↦ later
      ]

  resume_approved : String → StepIds → GoalState W → StepsEnd × GoalState W
  unfolding run_listed set_status after_step
  resume_approved goal_id approved s =
      after_step
        (λ s'.
          run_listed goal_id approved
            (record s' { db = publish_goal_event "goal.resumed" goal_id s'.db }))
        (set_status goal_id GoalStatus.executing "set goal executing: " s)

  resume_paused : String → GoalState W → StepsEnd × GoalState W
  unfolding resume_approved
  resume_paused goal_id s =
      let reviews = list_goal_reviews c.store goal_id s.db in
      elim (reviews.0) [
        | some err ↦ (stopped (wrap ("list reviews for goal " <> (goal_id <> ": ")) err), s)
        | none ↦ elim (approved_steps reviews.1) [
          | none ↦ (stopped (message ("goal " <> (goal_id <> " has a pending review"))), s)
          | some approved ↦ resume_approved goal_id approved s
        ]
      ]

  resume_status : String → GoalStatus → GoalState W → StepsEnd × GoalState W
  unfolding resume_paused goal_status_text
  resume_status goal_id GoalStatus.paused s = resume_paused goal_id s
  resume_status goal_id status s = (
    stopped (
        message (
          "goal "
          <> (goal_id <> (" is not paused (status: " <> (goal_status_text status <> ")"))))),
    s,
  )

  resume_found : String → Option GoError × Option Goal → GoalState W → StepsEnd × GoalState W
  unfolding resume_status
  resume_found goal_id (some err, x) s = (stopped (wrap ("get goal " <> (goal_id <> ": ")) err), s)
  resume_found goal_id (none, none) s =
      (stopped (message ("goal " <> (goal_id <> " not found"))), s)
  resume_found goal_id (none, some g) s = resume_status goal_id g.status s

  unfoldable pub resume : String → GoalState W → StepsEnd × GoalState W
  unfolding resume_found
  resume goal_id s = resume_found goal_id (get_goal c.store goal_id s.db) s
