-- ===== src/Control/Store/Pending.antt =====
-- Pending reviews of a step, under the operations on reviews.
use primitive_box.Prelude.{
  String, ◌≡◌, Bool, true, false, ◌&&◌, ◌||◌, List, [], ◌∷◌, ◌++◌, map, All, ◌=ₛ◌, eq_iff,
  if◌then◌else◌, arith, inl, inr, Bool-cases,
}
use primitive_box.Control.{GoalReview, GoalReviewStatus, GoalDb, Database, is_pending_review}
use primitive_box.Control.Store.{publish_goal_event, exists_by, update_by}
use primitive_box.Control.Store.Reviews.{create_goal_review, decide_goal_review, get_goal_review}

-- Two reviews that are pending for one step.
abbrev pub Clash : GoalReview → GoalReview → Type 0
Clash r x =
    (is_pending_review r.status ≡ true)
    × (is_pending_review x.status ≡ true)
    × (x.step_id ≡ r.step_id)

-- No two rows clash.
abbrev pub OnePending : List GoalReview → Type 0
OnePending [] = Unit {0}
OnePending (r ∷ rest) = All (λ x. ¬ Clash r x) rest × OnePending rest

All-append :
    {A : Type 0} (P : A → Type 0) (xs : List A) (y : A) → All P xs → P y → All P (xs ++ y ∷ [])
All-append P [] y h p = (p, tt)
All-append P (x ∷ xs) y h p = (h.0, All-append P xs y h.1 p)

OnePending-append :
    (rows : List GoalReview) (r : GoalReview)
    → OnePending rows
    → All (λ x. ¬ Clash x r) rows
    → OnePending (rows ++ r ∷ [])
OnePending-append [] r h free = (tt, tt)
OnePending-append (x ∷ rows) r h free =
    (All-append (λ y. ¬ Clash x y) rows r h.0 free.0, OnePending-append rows r h.1 free.1)

abbrev taken_by : GoalReview → GoalReview → Bool
taken_by r x =
    x.id =ₛ r.id
    || (is_pending_review r.status && is_pending_review x.status && x.step_id =ₛ r.step_id)

exists_by-free :
    (r : GoalReview) (rows : List GoalReview)
    → exists_by (taken_by r) rows ≡ false
    → All (λ x. ¬ Clash x r) rows
unfolding exists_by
exists_by-free r [] h = tt
exists_by-free r (x ∷ rows) h = (
  (λ clash. ground (arith, h, clash, eq_iff x.step_id r.step_id)),
  exists_by-free r rows (ground (arith, h)),
)

-- A decision, on a row: it is no longer pending, or it is as it was.
abbrev decided : String → GoalReviewStatus → String → GoalReview → GoalReview
decided id status reason x =
    if x.id =ₛ id then record x { status = status; decision_reason = reason } else x

decided-All :
    (id reason : String) (status : GoalReviewStatus) (r : GoalReview) (rows : List GoalReview)
    → is_pending_review status ≡ false
    → All (λ x. ¬ Clash r x) rows
    → All (λ x. ¬ Clash (decided id status reason r) x) (map (decided id status reason) rows)
decided-All id reason status r [] done h = tt
decided-All id reason status r (x ∷ rows) done h =
    ((λ clash. h.0 (ground (arith, done, clash))), decided-All id reason status r rows done h.1)

decided-OnePending :
    (id reason : String) (status : GoalReviewStatus) (rows : List GoalReview)
    → is_pending_review status ≡ false
    → OnePending rows
    → OnePending (map (decided id status reason) rows)
decided-OnePending id reason status [] done h = tt
decided-OnePending id reason status (r ∷ rows) done h = (
  decided-All id reason status r rows done h.0,
  decided-OnePending id reason status rows done h.1,
)

module _ (db : Database) where
  create_goal_review-OnePending :
      (r : GoalReview) (g : GoalDb)
      → OnePending g.reviews
      → OnePending (create_goal_review db r g).1.reviews
  unfolding create_goal_review publish_goal_event
  create_goal_review-OnePending r g h = elim (Bool-cases (exists_by (taken_by r) g.reviews)) [
    | inl clash ↦ rw clash h
    | inr free ↦
        ground (arith, h, free, OnePending-append g.reviews r h (exists_by-free r g.reviews free))
  ]

  decide_goal_review-OnePending :
      (id reason : String) (status : GoalReviewStatus) (g : GoalDb)
      → OnePending g.reviews
      → OnePending (decide_goal_review db id status reason g).1.reviews
  unfolding decide_goal_review publish_goal_event get_goal_review update_by
  decide_goal_review-OnePending id reason status g h =
      ground (arith, h, decided-OnePending id reason status g.reviews)

  -- Whatever the database answers, at most one review of a step is pending, if it was so before:
  -- after a review is created, and after one is decided.
  pub reviews-OnePending :
      (r : GoalReview) (id reason : String) (status : GoalReviewStatus) (g : GoalDb)
      → OnePending g.reviews
      → OnePending (create_goal_review db r g).1.reviews
        × OnePending (decide_goal_review db id status reason g).1.reviews
  reviews-OnePending r id reason status g h =
      (create_goal_review-OnePending r g h, decide_goal_review-OnePending id reason status g h)
