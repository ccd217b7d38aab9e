-- ===== src/Control/Store/Reviews.antt =====
-- The operations of `SQLiteGoalStore` on the reviews of goals.
use primitive_box.Prelude.{
  String, ◌<>◌, not, ◌&&◌, ◌||◌, Option, none, some, List, [], ◌∷◌, ◌++◌, ◌=ₛ◌, if◌then◌else◌,
}
use primitive_box.Errors.{GoError, message, wrap, sentinel, review_conflict}
use primitive_box.Control.{
  GoalReview, GoalReviewStatus, GoalDb, Database, is_pending_review, same_review_status,
  insert_review, select_review, select_reviews, update_review,
}
use primitive_box.Control.Store.{
  publish_goal_event, written, unique, find_by, keep_by, exists_by, update_by,
}

module _ (db : Database) where
  -- At most one pending review of a step, by the partial unique index.
  unfoldable pub create_goal_review : GoalReview → GoalDb → Option GoError × GoalDb
  unfolding publish_goal_event exists_by
  create_goal_review r g =
      let taken =
        exists_by
          (λ (x : GoalReview).
            x.id =ₛ r.id
            || (is_pending_review r.status && is_pending_review x.status && x.step_id =ₛ r.step_id))
          g.reviews in
      written (unique taken (db.fault g (insert_review r.id))) "insert goal review: " g (
        publish_goal_event "goal.review_requested" r.goal_id
          (record g { reviews = g.reviews ++ r ∷ [] }))

  unfoldable pub get_goal_review : String → GoalDb → Option GoError × Option GoalReview
  unfolding find_by
  get_goal_review id g = elim (db.fault g (select_review id)) [
    | some err ↦ (some err, none)
    | none ↦ (none, find_by (λ (x : GoalReview). x.id =ₛ id) g.reviews)
  ]

  decided_event : GoalReviewStatus → String
  decided_event GoalReviewStatus.rejected = "goal.review_rejected"
  decided_event _ = "goal.review_approved"

  decide_found : String → GoalReviewStatus → String → GoalReview → GoalDb → Option GoError × GoalDb
  unfolding publish_goal_event update_by decided_event
  decide_found id status reason existing g =
      if same_review_status existing.status status
      then (none, g)
      else if not (is_pending_review existing.status)
      then (some (sentinel review_conflict), g)
      else written (db.fault g (update_review id status)) "update goal review: " g (
          publish_goal_event (decided_event status) existing.goal_id (record g {
            reviews =
                update_by (λ (x : GoalReview). x.id =ₛ id)
                  (λ (x : GoalReview). record x { status = status; decision_reason = reason })
                  g.reviews;
          }))

  decide_loaded :
      String
      → GoalReviewStatus
      → String
      → Option GoError × Option GoalReview
      → GoalDb
      → Option GoError × GoalDb
  unfolding decide_found
  decide_loaded id status reason (some err, r) g = (some err, g)
  decide_loaded id status reason (none, none) g =
      (some (message ("review " <> (id <> " not found"))), g)
  decide_loaded id status reason (none, some existing) g = decide_found id status reason existing g

  unfoldable pub decide_goal_review :
      String → GoalReviewStatus → String → GoalDb → Option GoError × GoalDb
  unfolding decide_loaded get_goal_review
  decide_goal_review id status reason g = decide_loaded id status reason (get_goal_review id g) g

  unfoldable pub list_goal_reviews : String → GoalDb → Option GoError × List GoalReview
  unfolding keep_by
  list_goal_reviews goal_id g = elim (db.fault g (select_reviews goal_id)) [
    | some err ↦ (some (wrap "list goal reviews: " err), [])
    | none ↦ (none, keep_by (λ (x : GoalReview). x.goal_id =ₛ goal_id) g.reviews)
  ]
