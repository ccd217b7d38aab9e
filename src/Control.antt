-- ===== src/Control.antt =====
-- The types of internal/control/goal_store.go. Timestamps are not modelled; rows keep the order in
-- which they were inserted, which is that of their creation times.
pub mod Store
use primitive_box.Prelude.{ℕ, String, Bool, true, false, Option, List}
use primitive_box.Errors.{GoError}
use primitive_box.Json.{RawMessage}

pub data GoalStatus : Type 0 where
  created executing verifying completed failed paused : GoalStatus

unfoldable pub goal_status_text : GoalStatus → String
goal_status_text created = "created"
goal_status_text executing = "executing"
goal_status_text verifying = "verifying"
goal_status_text completed = "completed"
goal_status_text failed = "failed"
goal_status_text paused = "paused"

pub data GoalStepStatus : Type 0 where
  pending running passed failed skipped awaiting_review rolled_back : GoalStepStatus

pub data GoalVerificationStatus : Type 0 where
  pending running passed failed : GoalVerificationStatus

pub data GoalReviewStatus : Type 0 where
  pending approved rejected : GoalReviewStatus

pub record Goal : Type 0 where
  pub id : String
  pub description : String
  pub status : GoalStatus
  pub packages : List String
  pub sandbox_ids : List String

pub record GoalStep : Type 0 where
  pub id : String
  pub goal_id : String
  pub primitive : String
  pub input : RawMessage
  pub output : RawMessage
  pub status : GoalStepStatus
  pub checkpoint_id : String
  pub risk_level : String
  pub reversible : Bool
  pub seq : ℕ

pub record GoalReview : Type 0 where
  pub id : String
  pub goal_id : String
  pub step_id : String
  pub status : GoalReviewStatus
  pub primitive : String
  pub risk_level : String
  pub reversible : Bool
  pub side_effect : String
  pub decision_reason : String

pub record GoalVerification : Type 0 where
  pub id : String
  pub goal_id : String
  pub step_id : String
  pub status : GoalVerificationStatus
  pub verdict : String
  pub evidence : RawMessage
  pub check_type : String
  pub check_params : RawMessage

-- An event on the bus: its type, and the id that it carries as its message.
pub record BusEvent : Type 0 where
  pub kind : String
  pub message : String

-- The tables, and the events published so far, the newest first.
pub record GoalDb : Type 0 where
  pub goals : List Goal
  pub steps : List GoalStep
  pub reviews : List GoalReview
  pub verifications : List GoalVerification
  pub events : List BusEvent

-- The SQL statements, each with its main arguments.
pub data Statement : Type 0 where
  insert_goal select_goal : String → Statement
  update_goal : String → GoalStatus → Statement
  insert_step select_steps : String → Statement
  update_step : String → GoalStepStatus → Statement
  insert_review select_review select_reviews : String → Statement
  update_review : String → GoalReviewStatus → Statement
  insert_verification select_verification select_verifications : String → Statement
  update_verification : String → GoalVerificationStatus → Statement
  begin_tx commit : String → Statement

-- The database driver: the error, if any, that it answers a statement with in a state.
pub record Database : Type 0 where
  pub fault : GoalDb → Statement → Option GoError

abbrev pub is_pending_review : GoalReviewStatus → Bool
is_pending_review GoalReviewStatus.pending = true
is_pending_review _ = false

abbrev pub same_review_status : GoalReviewStatus → GoalReviewStatus → Bool
same_review_status GoalReviewStatus.pending GoalReviewStatus.pending = true
same_review_status GoalReviewStatus.approved GoalReviewStatus.approved = true
same_review_status GoalReviewStatus.rejected GoalReviewStatus.rejected = true
same_review_status _ _ = false
