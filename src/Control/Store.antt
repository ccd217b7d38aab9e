-- ===== src/Control/Store.antt =====
-- The operations of `SQLiteGoalStore` in internal/control/goal_store.go on goals and steps. An
-- operation returns its error and the database; the write comes first, and the event is published
-- only behind a write that succeeded.
pub mod Reviews
pub mod Verifications
pub mod Laws
pub mod Goals
pub mod Steps
pub mod Pending
pub mod Decisions
use primitive_box.Prelude.{
  ℕ, ◌+◌, String, ◌<>◌, Bool, true, false, not, ◌&&◌, ◌||◌, Option, none, some, List, [], ◌∷◌, ◌++◌,
  map, leb, ◌==◌, ◌=ₛ◌, if◌then◌else◌,
}
use primitive_box.Errors.{GoError, message, wrap, sentinel, review_conflict}
use primitive_box.Json.{Json, RawMessage, absent, value, end}
use primitive_box.Control.{
  Goal, GoalStep, GoalReview, GoalVerification, GoalStatus, GoalStepStatus, GoalReviewStatus,
  GoalVerificationStatus, GoalDb, BusEvent, Statement, Database, is_pending_review,
  same_review_status, insert_goal, select_goal, update_goal, insert_step, select_steps, update_step,
  insert_review, select_review, select_reviews, update_review, insert_verification,
  select_verification, select_verifications, update_verification, begin_tx, commit,
}

unfoldable pub publish_goal_event : String → String → GoalDb → GoalDb
publish_goal_event kind id g = record g {
  events = (record { kind = kind; message = id }) ∷ g.events;
}

-- A write with its error message, or the database after it.
abbrev pub written : Option GoError → String → GoalDb → GoalDb → Option GoError × GoalDb
written (some err) text before after = (some (wrap text err), before)
written none text before after = (none, after)

-- A unique index refuses a row that it has already.
abbrev pub unique : Bool → Option GoError → Option GoError
unique true fault = some (message "UNIQUE constraint failed")
unique false fault = fault

module _ {ℓ} {A : Type ℓ} where
  unfoldable pub find_by : (A → Bool) → List A → Option A
  find_by p [] = none
  find_by p (x ∷ xs) = if p x then some x else find_by p xs

  unfoldable pub keep_by : (A → Bool) → List A → List A
  keep_by p [] = []
  keep_by p (x ∷ xs) = let rest = keep_by p xs in if p x then x ∷ rest else rest

  unfoldable pub exists_by : (A → Bool) → List A → Bool
  exists_by p [] = false
  exists_by p (x ∷ xs) = p x || exists_by p xs

  unfoldable pub update_by : (A → Bool) → (A → A) → List A → List A
  update_by p f xs = map (λ x. if p x then f x else x) xs

-- `ORDER BY seq ASC`, rows of the same number in the order of insertion.
insert_by_seq : GoalStep → List GoalStep → List GoalStep
insert_by_seq s [] = s ∷ []
insert_by_seq s (t ∷ rest) = if leb s.seq t.seq then s ∷ t ∷ rest else t ∷ insert_by_seq s rest

unfoldable pub order_by_seq : List GoalStep → List GoalStep
unfolding insert_by_seq
order_by_seq [] = []
order_by_seq (s ∷ rest) = insert_by_seq s (order_by_seq rest)

abbrev pub or_object : RawMessage → RawMessage
or_object absent = value (Json.object end)
or_object raw = raw

abbrev or_low : String → String
or_low risk_level = if risk_level =ₛ "" then "low" else risk_level

-- The row that a step is stored as: `output_json` is not among the columns of the INSERT.
abbrev pub step_row : GoalStep → GoalStep
step_row step = record step {
  input = or_object step.input;
  output = absent;
  risk_level = or_low step.risk_level;
}

module _ (db : Database) where
  unfoldable pub create_goal : Goal → GoalDb → Option GoError × GoalDb
  unfolding publish_goal_event exists_by
  create_goal goal g =
      written
        (unique (exists_by (λ (x : Goal). x.id =ₛ goal.id) g.goals)
          (db.fault g (insert_goal goal.id)))
        "insert goal: " g
        (publish_goal_event "goal.created" goal.id (record g { goals = g.goals ++ goal ∷ [] }))

  -- The loop of `CreateGoalFull` inside the transaction, from index `i`, which the error message is
  -- not given here.
  insert_steps : ℕ → List GoalStep → GoalDb → Option GoError × GoalDb
  unfolding exists_by
  insert_steps i [] g = (none, g)
  insert_steps i (step ∷ rest) g =
      let numbered = record step { seq = if step.seq == 0 then i + 1 else step.seq } in
      let later =
        insert_steps (i + 1) rest (record g { steps = g.steps ++ step_row numbered ∷ [] }) in
      elim (unique (exists_by (λ (x : GoalStep). x.id =ₛ step.id) g.steps)
        (db.fault g (insert_step step.id))) [
          | some err ↦ (some (wrap "insert goal step: " err), g)
          | none ↦ later
        ]

  -- The commit, or the deferred rollback to `before`.
  committed : Goal → GoalDb → Option GoError × GoalDb → Option GoError × GoalDb
  unfolding publish_goal_event
  committed goal before (some err, g) = (some err, before)
  committed goal before (none, g) =
      written (db.fault g (commit goal.id)) "commit: " before
        (publish_goal_event "goal.created" goal.id g)

  unfoldable pub create_goal_full : Goal → List GoalStep → GoalDb → Option GoError × GoalDb
  unfolding insert_steps committed exists_by
  create_goal_full goal steps g =
      let inserted = insert_steps 0 steps (record g { goals = g.goals ++ goal ∷ [] }) in
      elim (db.fault g (begin_tx goal.id)) [
        | some err ↦ (some (wrap "begin tx: " err), g)
        | none ↦
            elim (unique (exists_by (λ (x : Goal). x.id =ₛ goal.id) g.goals)
              (db.fault g (insert_goal goal.id))) [
                | some err ↦ (some (wrap "insert goal: " err), g)
                | none ↦ committed goal g inserted
              ]
      ]

  -- The error, or the row if there is one.
  unfoldable pub get_goal : String → GoalDb → Option GoError × Option Goal
  unfolding find_by
  get_goal id g = elim (db.fault g (select_goal id)) [
    | some err ↦ (some err, none)
    | none ↦ (none, find_by (λ (x : Goal). x.id =ₛ id) g.goals)
  ]

  unfoldable pub update_goal_status : String → GoalStatus → GoalDb → Option GoError × GoalDb
  unfolding publish_goal_event update_by
  update_goal_status id status g =
      written (db.fault g (update_goal id status)) "update goal status: " g (
        publish_goal_event "goal.status_changed" id (record g {
          goals =
              update_by (λ (x : Goal). x.id =ₛ id) (λ (x : Goal). record x { status = status })
                g.goals;
        }))

  unfoldable pub append_goal_step : GoalStep → GoalDb → Option GoError × GoalDb
  unfolding publish_goal_event exists_by
  append_goal_step step g =
      written
        (unique (exists_by (λ (x : GoalStep). x.id =ₛ step.id) g.steps)
          (db.fault g (insert_step step.id)))
        "insert goal step: " g
        (publish_goal_event "goal.step_appended" step.goal_id
          (record g { steps = g.steps ++ step_row step ∷ [] }))

  -- A nil output is written as NULL, over what stood there.
  unfoldable pub update_goal_step_status :
      String → GoalStepStatus → RawMessage → GoalDb → Option GoError × GoalDb
  unfolding publish_goal_event update_by
  update_goal_step_status id status output g =
      written (db.fault g (update_step id status)) "update goal step status: " g (
        publish_goal_event "goal.step_updated" id (record g {
          steps =
              update_by (λ (x : GoalStep). x.id =ₛ id)
                (λ (x : GoalStep). record x { status = status; output = output }) g.steps;
        }))

  unfoldable pub list_goal_steps : String → GoalDb → Option GoError × List GoalStep
  unfolding keep_by order_by_seq
  list_goal_steps goal_id g = elim (db.fault g (select_steps goal_id)) [
    | some err ↦ (some (wrap "list goal steps: " err), [])
    | none ↦ (none, order_by_seq (keep_by (λ (x : GoalStep). x.goal_id =ₛ goal_id) g.steps))
  ]
