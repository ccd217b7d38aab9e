-- ===== src/Tests/Goals.antt =====
-- The goal store and the goal coordinator at a concrete goal.
use primitive_box.Prelude.{
  ◌⊎◌, All, ℕ, String, ◌≡◌, ◌≢◌, refl, true, false, none, some, List, [], ◌∷◌, ◌++◌, ◌=ₛ◌, arith,
  inl,
}
use primitive_box.Errors.{message}
use primitive_box.Json.{Json, absent, value, field, end}
use primitive_box.Orchestrator.{StepResult, StepStatus}
use primitive_box.Cvr.Tree.{new_default_decision_tree}
use primitive_box.Orchestrator.Engine.{Engine}
use primitive_box.Control.{
  Goal, GoalStep, GoalReview, GoalStatus, GoalStepStatus, GoalReviewStatus, GoalVerificationStatus,
  GoalDb, Database, insert_step,
}
use primitive_box.Control.Store.{
  find_by, get_goal, list_goal_steps, create_goal_full, update_goal_status,
}
use primitive_box.Control.Store.Reviews.{
  create_goal_review, get_goal_review, decide_goal_review, list_goal_reviews,
}
use primitive_box.Control.Store.Laws.{create_goal_full_atomic, IsCreated}
use primitive_box.Goal.{GoalState, GoalCoordinator}
use primitive_box.Goal.Coordinator.{
  completed, is_approved_step, execute_steps, approved_steps, execute, resume,
}
use primitive_box.Goal.Coordinator.Gate.{
  execute_steps-gated, AllowsExactly, approved_steps-AllowsExactly, resume_pending,
}
use primitive_box.Goal.Coordinator.Progress.{Settled, execute-Settled, resume-Settled}
use primitive_box.Goal.Coordinator.Done.{IsDone, execute_steps-IsDone}
use primitive_box.Control.Store.Decisions.{
  ReviewCall, create_review, decide_review, find_review, after_calls, decided_review_final,
}
use primitive_box.Control.Store.Pending.{OnePending, reviews-OnePending}
use primitive_box.Control.Store.Steps.{find_step, Kept}

abbrev Calls : Type 0
Calls = List String

abbrev fine : StepResult
fine = record {
  success = true;
  output = value (Json.object (field "checkpoint_id" (Json.text "cp-1") end));
  error = none;
}

abbrev engine : Engine Calls
engine = record {
  executor = record { execute = λ intent method params calls. (some fine, none, method ∷ calls) };
  trace_store = none;
  manifest_store = none;
  cvr_strategy = none;
  cvr_tree = new_default_decision_tree;
  app_registry = none;
  deadline_passed = λ calls. false;
}

abbrev database : Database
database = record { fault = λ g s. none }

-- A database that cannot insert a step.
abbrev full_disk : Database
full_disk = record {
  fault = λ g s. elim s [ insert_step id ↦ some (message "disk full") | _ ↦ none ];
}

abbrev coordinator : GoalCoordinator Calls
coordinator = record {
  store = database;
  engine = engine;
  fresh_review_id = λ s. "r1";
  check = λ goal v steps by_id calls. (
    record { status = GoalVerificationStatus.passed; verdict = ""; evidence = absent },
    "check" ∷ calls,
  );
}

abbrev goal : GoalStatus → Goal
goal status = record {
  id = "g1";
  description = "ship";
  status = status;
  packages = [];
  sandbox_ids = [];
}

abbrev step : String → String → String → ℕ → GoalStep
step id primitive risk_level seq = record {
  id = id;
  goal_id = "g1";
  primitive = primitive;
  input = absent;
  output = absent;
  status = GoalStepStatus.pending;
  checkpoint_id = "";
  risk_level = risk_level;
  reversible = true;
  seq = seq;
}

abbrev look : GoalStep
look = step "s1" "fs.read" "low" 1

abbrev deploy : GoalStep
deploy = step "s2" "deploy" "high" 2

abbrev review : GoalReviewStatus → GoalReview
review status = record {
  id = "r1";
  goal_id = "g1";
  step_id = "s2";
  status = status;
  primitive = "deploy";
  risk_level = "high";
  reversible = true;
  side_effect = "";
  decision_reason = "";
}

abbrev tables : GoalStatus → List GoalReview → GoalDb
tables status reviews = record {
  goals = goal status ∷ [];
  steps = deploy ∷ look ∷ [];
  reviews = reviews;
  verifications = [];
  events = [];
}

abbrev start : GoalState Calls
start = record { db = tables GoalStatus.created []; world = [] }

abbrev waiting : GoalState Calls
waiting = record {
  db = tables GoalStatus.paused (review GoalReviewStatus.pending ∷ []);
  world = [];
}

there :
    find_by (λ (x : Goal). x.id =ₛ "g1") (tables GoalStatus.created []).goals
    ≡ some (goal GoalStatus.created)
unfolding find_by
there = refl

execute-Settled_example : Settled "g1" (execute coordinator "g1" start)
execute-Settled_example =
    execute-Settled coordinator (λ g s. refl) "g1" start (goal GoalStatus.created) there
      (λ e. ground arith) (λ e. ground arith)

execute_steps-gated_example :
    let out = execute_steps coordinator "g1" [] ((look ∷ []) ++ deploy ∷ look ∷ []) start in
    (out.1.world ≡ (execute_steps coordinator "g1" [] (look ∷ []) start).1.world)
    × (out.0 ≢ completed)
unfolding is_approved_step
execute_steps-gated_example =
    execute_steps-gated coordinator "g1" [] (look ∷ []) (look ∷ []) deploy start refl refl

approved_steps-AllowsExactly_example :
    AllowsExactly
      (review GoalReviewStatus.approved ∷ [])
      (approved_steps coordinator (review GoalReviewStatus.approved ∷ []))
approved_steps-AllowsExactly_example =
    approved_steps-AllowsExactly coordinator (review GoalReviewStatus.approved ∷ [])

listed : list_goal_reviews database "g1" waiting.db ≡ (none, review GoalReviewStatus.pending ∷ [])
unfolding list_goal_reviews
listed = refl

resume_pending_example :
    ((resume coordinator "g1" waiting).1 ≡ waiting)
    × ((resume coordinator "g1" waiting).0 ≢ completed)
resume_pending_example =
    resume_pending coordinator "g1" waiting (review GoalReviewStatus.pending ∷ []) listed (inl refl)

refused_insert :
    (create_goal_full full_disk
      (record (goal GoalStatus.created) { id = "g2" })
      (step "s3" "fs.read" "" 0 ∷ [])
      start.db).0
    ≢ none
unfolding create_goal_full
refused_insert = λ e. ground arith

create_goal_full_atomic_example :
    let new = record (goal GoalStatus.created) { id = "g2" } in
    let out = create_goal_full full_disk new (step "s3" "fs.read" "" 0 ∷ []) start.db in
    ((out.0 ≡ none) × IsCreated full_disk new (step "s3" "fs.read" "" 0 ∷ []) start.db out.1)
    ⊎ ((out.0 ≢ none) × (out.1 ≡ start.db))
create_goal_full_atomic_example =
    create_goal_full_atomic full_disk (record (goal GoalStatus.created) { id = "g2" })
      (step "s3" "fs.read" "" 0 ∷ []) start.db

found_review :
    (status : GoalReviewStatus)
    → get_goal_review database "r1" (tables GoalStatus.paused (review status ∷ []))
      ≡ (none, some (review status))
unfolding get_goal_review
found_review status = refl

decided : (decide_goal_review database "r1" GoalReviewStatus.approved "fine" waiting.db).0 ≡ none
unfolding decide_goal_review
decided = refl

-- The other decision on a review, and a new review, behind its approval.
abbrev later_calls : List ReviewCall
later_calls =
    decide_review "r1" GoalReviewStatus.rejected "no"
    ∷ create_review (record (review GoalReviewStatus.pending) { id = "r2" })
    ∷ []

review_there :
    find_review "r1" (review GoalReviewStatus.approved ∷ [])
    ≡ some (review GoalReviewStatus.approved)
unfolding find_by
review_there = refl

decided_review_final_example :
    let after =
      after_calls database later_calls
        (tables GoalStatus.paused (review GoalReviewStatus.approved ∷ [])) in
    (find_review "r1" after.reviews ≡ some (review GoalReviewStatus.approved))
    × ((decide_goal_review database "r1" GoalReviewStatus.rejected "no" after).0 ≢ none)
    × ((decide_goal_review database "r1" GoalReviewStatus.rejected "no" after).1 ≡ after)
decided_review_final_example =
    decided_review_final database later_calls "r1" "no" GoalReviewStatus.rejected
      (review GoalReviewStatus.approved)
      (tables GoalStatus.paused (review GoalReviewStatus.approved ∷ [])) review_there
      (λ e. ground arith) (λ e. ground arith)

updated : (update_goal_status database "g1" GoalStatus.failed start.db).0 ≡ none
unfolding update_goal_status
updated = refl

abbrev approved : GoalState Calls
approved = record {
  db = tables GoalStatus.paused (review GoalReviewStatus.approved ∷ []);
  world = [];
}

approved_listed :
    list_goal_reviews database "g1" approved.db ≡ (none, review GoalReviewStatus.approved ∷ [])
unfolding list_goal_reviews
approved_listed = refl

allowed : approved_steps coordinator (review GoalReviewStatus.approved ∷ []) ≡ some ("s2" ∷ [])
unfolding approved_steps
allowed = refl

paused_there :
    find_by (λ (x : Goal). x.id =ₛ "g1") approved.db.goals ≡ some (goal GoalStatus.paused)
unfolding find_by
paused_there = refl

resume-Settled_example : Settled "g1" (resume coordinator "g1" approved)
resume-Settled_example =
    resume-Settled coordinator (λ g s. refl) "g1" approved (goal GoalStatus.paused)
      (review GoalReviewStatus.approved ∷ []) ("s2" ∷ []) paused_there refl approved_listed allowed

look_there : find_step "s1" start.db.steps ≡ some look
unfolding find_by
look_there = refl

looked : (execute_steps coordinator "g1" [] (look ∷ []) start).0 ≡ completed
unfolding execute_steps primitive_box.Goal.Coordinator.after_step
    primitive_box.Goal.Coordinator.step_turn primitive_box.Goal.Coordinator.run_step
    primitive_box.Orchestrator.Engine.Loop.execute_step_via_cvr
    primitive_box.Orchestrator.Engine.Loop.attempt_loop
    primitive_box.Orchestrator.Engine.Loop.retry_limit
    primitive_box.Orchestrator.Engine.Attempt.attempt_step
    primitive_box.Orchestrator.Engine.Attempt.run_cvr primitive_box.Cvr.Coordinator.execute
    primitive_box.Orchestrator.Engine.Attempt.step_request primitive_box.Cvr.Coordinator.layer_a
    primitive_box.Orchestrator.Engine.Intent.infer_primitive_intent
    primitive_box.Orchestrator.Adapter.cvr_executor_adapter
    primitive_box.Orchestrator.Engine.Intent.resolve_verify_strategy
    primitive_box.Orchestrator.Engine.Attempt.step_coordinator
    primitive_box.Cvr.Coordinator.new_cvr_coordinator new_default_decision_tree
looked = refl

execute_steps-IsDone_example :
    let final = (execute_steps coordinator "g1" [] (look ∷ []) start).1.db.steps in
    All (λ t. IsDone t.id final) (look ∷ []) × Kept start.db.steps final
execute_steps-IsDone_example =
    execute_steps-IsDone coordinator (λ g s. refl) "g1" [] (look ∷ []) start (look_there, tt) looked

paused_goal : get_goal database "g1" approved.db ≡ (none, some (goal GoalStatus.paused))
unfolding get_goal
paused_goal = refl

steps_listed : list_goal_steps database "g1" approved.db ≡ (none, look ∷ deploy ∷ [])
unfolding list_goal_steps
steps_listed = refl

reviews-OnePending_example :
    OnePending (create_goal_review database (review GoalReviewStatus.pending) waiting.db).1.reviews
    × OnePending
        (decide_goal_review database "r1" GoalReviewStatus.rejected "no" waiting.db).1.reviews
reviews-OnePending_example =
    reviews-OnePending database (review GoalReviewStatus.pending) "r1" "no"
      GoalReviewStatus.rejected waiting.db (tt, tt)
