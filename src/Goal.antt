-- ===== src/Goal.antt =====
-- internal/goal: the goal coordinator's state and its parts. No other writer touches the goal
-- tables while a coordinator runs.
pub mod Verification
pub mod Coordinator
pub mod Replay
use primitive_box.Prelude.{String, Option}
use primitive_box.Errors.{GoError}
use primitive_box.Json.{RawMessage}
use primitive_box.Control.{
  Goal, GoalStep, GoalVerification, GoalVerificationStatus, GoalDb, Database,
}
use primitive_box.Orchestrator.Engine.{Engine}

-- The goal tables, and the state of the world that the engine's executor acts on.
pub record GoalState (W : Type 0) : Type 0 where
  pub db : GoalDb
  pub world : W

-- What a check of a verification concludes.
pub record CheckResult : Type 0 where
  pub status : GoalVerificationStatus
  pub verdict : String
  pub evidence : RawMessage

-- `fresh_review_id` is the random id of a new review; `check` is `executeVerification`, which
-- calls primitives and HTTP endpoints, or compares JSON of the rows that were loaded.
pub record GoalCoordinator (W : Type 0) : Type 0 where
  pub store : Database
  pub engine : Engine W
  pub fresh_review_id : GoalState W → String
  pub check :
      Goal
      → GoalVerification
      → (String → Option GoalStep)
      → (String → Option GoalVerification)
      → W
      → CheckResult × W
