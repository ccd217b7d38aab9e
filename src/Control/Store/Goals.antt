-- ===== src/Control/Store/Goals.antt =====
-- The goal rows: what writes them, and what leaves them alone.
use primitive_box.Prelude.{String, ◌≡◌, refl, none, some, List, ◌=ₛ◌, arith}
use primitive_box.Json.{RawMessage}
use primitive_box.Control.{
  Goal, GoalReview, GoalStatus, GoalStepStatus, GoalVerificationStatus, GoalDb, Database, Statement,
  update_goal, select_goal, select_steps, select_verifications,
}
use primitive_box.Control.Store.{
  find_by, update_goal_status, update_goal_step_status, publish_goal_event, list_goal_steps,
  get_goal,
}
use primitive_box.Control.Store.Reviews.{create_goal_review}
use primitive_box.Control.Store.Verifications.{update_goal_verification, list_goal_verifications}
use primitive_box.Control.Store.Laws.{update_goal_status_found}

-- The goal of an id is there, with any status or with this one.
abbrev pub Present : String → List Goal → Type 0
Present id goals = (goal : Goal) × (find_by (λ (x : Goal). x.id =ₛ id) goals ≡ some goal)

abbrev pub Stands : String → GoalStatus → List Goal → Type 0
Stands id status goals =
    (goal : Goal) × (find_by (λ (x : Goal). x.id =ₛ id) goals ≡ some goal) × (goal.status ≡ status)

module _ (db : Database) where
  pub update_goal_step_status-goals :
      (id : String) (status : GoalStepStatus) (output : RawMessage) (g : GoalDb)
      → g.goals ≡ (update_goal_step_status db id status output g).1.goals
  unfolding update_goal_step_status publish_goal_event
  update_goal_step_status-goals id status output g = ground arith

  pub create_goal_review-goals :
      (r : GoalReview) (g : GoalDb) → g.goals ≡ (create_goal_review db r g).1.goals
  unfolding create_goal_review publish_goal_event
  create_goal_review-goals r g = ground arith

  pub update_goal_verification-goals :
      (id : String) (status : GoalVerificationStatus) (verdict : String) (evidence : RawMessage)
      (g : GoalDb)
      → g.goals ≡ (update_goal_verification db id status verdict evidence g).1.goals
  unfolding update_goal_verification publish_goal_event
  update_goal_verification-goals id status verdict evidence g = ground arith

  update_goal_status_ok :
      (id : String) (status : GoalStatus) (g : GoalDb)
      → db.fault g (update_goal id status) ≡ none
      → (update_goal_status db id status g).0 ≡ none
  unfolding update_goal_status
  update_goal_status_ok id status g ok = ground arith

  pub update_goal_status-Stands :
      ((g : GoalDb) (s : Statement) → db.fault g s ≡ none)
      → (id : String) (status : GoalStatus) (g : GoalDb) → Present id g.goals
      → ((update_goal_status db id status g).0 ≡ none)
        × Stands id status (update_goal_status db id status g).1.goals
  update_goal_status-Stands quiet id status g (goal, there) =
      let ok = update_goal_status_ok id status g (quiet g (update_goal id status)) in
      (
        ok,
        (
          record goal { status = status },
          (update_goal_status_found db id status g ok there).0,
          refl,
        ),
      )

  pub list_goal_verifications_ok :
      (id : String) (g : GoalDb)
      → db.fault g (select_verifications id) ≡ none
      → (list_goal_verifications db id g).0 ≡ none
  unfolding list_goal_verifications
  list_goal_verifications_ok id g ok = ground arith

  pub list_goal_steps_ok :
      (id : String) (g : GoalDb)
      → db.fault g (select_steps id) ≡ none
      → (list_goal_steps db id g).0 ≡ none
  unfolding list_goal_steps
  list_goal_steps_ok id g ok = ground arith

  pub get_goal_found :
      (id : String) (g : GoalDb) {goal : Goal}
      → db.fault g (select_goal id) ≡ none
      → find_by (λ (x : Goal). x.id =ₛ id) g.goals ≡ some goal
      → get_goal db id g ≡ (none, some goal)
  unfolding get_goal
  get_goal_found id g ok there = ground arith
