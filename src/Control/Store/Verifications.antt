-- ===== src/Control/Store/Verifications.antt =====
-- The operations of `SQLiteGoalStore` on the verifications of goals.
use primitive_box.Prelude.{String, ◌<>◌, Option, none, some, List, [], ◌∷◌, ◌++◌, ◌=ₛ◌}
use primitive_box.Errors.{GoError, message, wrap}
use primitive_box.Json.{RawMessage}
use primitive_box.Control.{
  GoalVerification, GoalVerificationStatus, GoalDb, Database, insert_verification,
  select_verification, select_verifications, update_verification,
}
use primitive_box.Control.Store.{
  publish_goal_event, written, unique, find_by, keep_by, exists_by, update_by, or_object,
}

module _ (db : Database) where
  unfoldable pub append_goal_verification : GoalVerification → GoalDb → Option GoError × GoalDb
  unfolding publish_goal_event exists_by
  append_goal_verification v g =
      written
        (unique (exists_by (λ (x : GoalVerification). x.id =ₛ v.id) g.verifications)
          (db.fault g (insert_verification v.id)))
        "insert goal verification: " g
        (publish_goal_event "goal.verification_appended" v.goal_id (record g {
          verifications =
              g.verifications
              ++ (record v {
                evidence = or_object v.evidence;
                check_params = or_object v.check_params;
              })
                ∷ [];
        }))

  unfoldable pub list_goal_verifications : String → GoalDb → Option GoError × List GoalVerification
  unfolding keep_by
  list_goal_verifications goal_id g = elim (db.fault g (select_verifications goal_id)) [
    | some err ↦ (some (wrap "list goal verifications: " err), [])
    | none ↦ (none, keep_by (λ (x : GoalVerification). x.goal_id =ₛ goal_id) g.verifications)
  ]

  verification_event : GoalVerificationStatus → String
  verification_event GoalVerificationStatus.running = "goal.verification_started"
  verification_event GoalVerificationStatus.passed = "goal.verification_passed"
  verification_event GoalVerificationStatus.failed = "goal.verification_failed"
  verification_event GoalVerificationStatus.pending = "goal.verification_updated"

  -- The row is read back after the write, and its goal is named by the event.
  reload_verification : String → GoalVerificationStatus → GoalDb → Option GoError × GoalDb
  unfolding publish_goal_event find_by verification_event
  reload_verification id status g = elim (db.fault g (select_verification id)) [
    | some err ↦ (some (wrap ("load goal verification " <> (id <> ": ")) err), g)
    | none ↦ elim (find_by (λ (x : GoalVerification). x.id =ₛ id) g.verifications) [
      | none ↦ (some (message ("goal verification " <> (id <> " not found"))), g)
      | some v ↦ (none, publish_goal_event (verification_event status) v.goal_id g)
    ]
  ]

  unfoldable pub update_goal_verification :
      String → GoalVerificationStatus → String → RawMessage → GoalDb → Option GoError × GoalDb
  unfolding reload_verification update_by
  update_goal_verification id status verdict evidence g =
      elim (db.fault g (update_verification id status)) [
        | some err ↦ (some (wrap "update goal verification: " err), g)
        | none ↦ reload_verification id status (record g {
          verifications =
              update_by (λ (x : GoalVerification). x.id =ₛ id)
                (λ (x : GoalVerification). record x {
                  status = status;
                  verdict = verdict;
                  evidence = or_object evidence;
                })
                g.verifications;
        })
      ]
