-- ===== src/Control/Store/Decisions.antt =====
-- Reviews under calls of `SQLiteGoalStore` that create and decide them.
use primitive_box.Prelude.{
  String, ◌≡◌, ◌≢◌, refl, ap, subst, ◌∙◌, Bool, false, Option, none, some, List, [], ◌∷◌, ◌++◌,
  ◌=ₛ◌, eq_iff, arith, inl, inr, ◌⊎◌, Bool-cases, Option-cases,
}
use primitive_box.Errors.{GoError}
use primitive_box.Control.{GoalReview, GoalReviewStatus, GoalDb, Database, select_review}
use primitive_box.Control.Store.{publish_goal_event, find_by}
use primitive_box.Control.Store.Reviews.{create_goal_review, decide_goal_review, get_goal_review}
use primitive_box.Control.Store.Laws.{decide_goal_review_same, decide_goal_review_final}
use primitive_box.Control.Store.Steps.{find_by-update_by_other}

-- A call, with its arguments.
pub data ReviewCall : Type 0 where
  create_review : GoalReview → ReviewCall
  decide_review : String → GoalReviewStatus → String → ReviewCall

abbrev pub find_review : String → List GoalReview → Option GoalReview
find_review id rows = find_by (λ (x : GoalReview). x.id =ₛ id) rows

find_by-append :
    {A : Type 0} (p : A → Bool) (xs ys : List A) (x : A)
    → find_by p xs ≡ some x
    → find_by p (xs ++ ys) ≡ some x
unfolding find_by
find_by-append p [] ys x at = cc
find_by-append p (y ∷ xs) ys x at = elim (Bool-cases (p y)) [
  | inl hit ↦ rw hit (rw hit at at)
  | inr miss ↦ rw miss (find_by-append p xs ys x (rw miss at at))
]

same_or_other : (a b : GoalReviewStatus) → (a ≡ b) ⊎ (a ≢ b)
same_or_other GoalReviewStatus.pending GoalReviewStatus.pending = inl refl
same_or_other GoalReviewStatus.pending GoalReviewStatus.approved = inr (λ e. cc)
same_or_other GoalReviewStatus.pending GoalReviewStatus.rejected = inr (λ e. cc)
same_or_other GoalReviewStatus.approved GoalReviewStatus.pending = inr (λ e. cc)
same_or_other GoalReviewStatus.approved GoalReviewStatus.approved = inl refl
same_or_other GoalReviewStatus.approved GoalReviewStatus.rejected = inr (λ e. cc)
same_or_other GoalReviewStatus.rejected GoalReviewStatus.pending = inr (λ e. cc)
same_or_other GoalReviewStatus.rejected GoalReviewStatus.approved = inr (λ e. cc)
same_or_other GoalReviewStatus.rejected GoalReviewStatus.rejected = inl refl

error_not_none : {o : Option GoError} {e : GoError} → o ≡ some e → o ≡ none → ⊥
error_not_none h k = cc

module _ (db : Database) where
  -- The database behind calls made one after the other, whatever each of them returns.
  unfoldable pub after_calls : List ReviewCall → GoalDb → GoalDb
  unfolding create_goal_review decide_goal_review
  after_calls [] g = g
  after_calls (create_review r ∷ rest) g = after_calls rest (create_goal_review db r g).1
  after_calls (decide_review id status reason ∷ rest) g =
      after_calls rest (decide_goal_review db id status reason g).1

  create-find_review :
      (new : GoalReview) (id : String) (r : GoalReview) (g : GoalDb)
      → find_review id g.reviews ≡ some r
      → find_review id (create_goal_review db new g).1.reviews ≡ some r
  unfolding create_goal_review publish_goal_event
  create-find_review new id r g at =
      ground (arith, at, find_by-append (λ (x : GoalReview). x.id =ₛ id) g.reviews (new ∷ []) r at)

  read_cases :
      (id : String) (r : GoalReview) (g : GoalDb)
      → find_review id g.reviews ≡ some r
      → (get_goal_review db id g ≡ (none, some r))
        ⊎ ((e : GoError) × (get_goal_review db id g ≡ (some e, none)))
  unfolding get_goal_review
  read_cases id r g at = elim (Option-cases (db.fault g (select_review id))) [
    | inl fine ↦ inl (rw (get_goal_review, fine, at) refl)
    | inr (e, failed) ↦ inr (e, rw (get_goal_review, failed) refl)
  ]

  decide-unread :
      (id reason : String) (status : GoalReviewStatus) (e : GoError) (g : GoalDb)
      → get_goal_review db id g ≡ (some e, none)
      → decide_goal_review db id status reason g ≡ (some e, g)
  unfolding decide_goal_review
  decide-unread id reason status e g h = rw h refl

  decided_row :
      (id reason : String) (status : GoalReviewStatus) (r : GoalReview) (g : GoalDb)
      → find_review id g.reviews ≡ some r
      → r.status ≢ GoalReviewStatus.pending
      → (decide_goal_review db id status reason g).1 ≡ g
  decided_row id reason status r g at done = elim (read_cases id r g at) [
    | inr (e, unread) ↦ ap (λ x. x.1) (decide-unread id reason status e g unread)
    | inl read ↦ elim (same_or_other r.status status) [
      | inl same ↦
          subst (λ st. (decide_goal_review db id st reason g).1 ≡ g) same
            (ap (λ x. x.1) (decide_goal_review_same db id reason g read))
      | inr other ↦ ap (λ x. x.1) (decide_goal_review_final db id reason status g read done other)
    ]
  ]

  other_row :
      (j id reason : String) (status : GoalReviewStatus) (g : GoalDb)
      → (j =ₛ id) ≡ false
      → find_review id (decide_goal_review db j status reason g).1.reviews
        ≡ find_review id g.reviews
  unfolding decide_goal_review publish_goal_event get_goal_review
  other_row j id reason status g other = ground (
    arith,
    other,
    find_by-update_by_other (λ (x : GoalReview). x.id)
        (λ (x : GoalReview). record x { status = status; decision_reason = reason }) j id g.reviews
        (λ x. refl) other,
  )

  decide-find_review :
      (j id reason : String) (status : GoalReviewStatus) (r : GoalReview) (g : GoalDb)
      → find_review id g.reviews ≡ some r
      → r.status ≢ GoalReviewStatus.pending
      → find_review id (decide_goal_review db j status reason g).1.reviews ≡ some r
  decide-find_review j id reason status r g at done = elim (Bool-cases (j =ₛ id)) [
    | inl same ↦
        let e = (eq_iff j id).0 same in
        let here = ap (λ i. find_review i g.reviews) e ∙ at in
        ap (λ (x : GoalDb). find_review id x.reviews) (decided_row j reason status r g here done)
        ∙ at
    | inr other ↦ other_row j id reason status g other ∙ at
  ]

  calls-find_review :
      (calls : List ReviewCall) (id : String) (r : GoalReview) (g : GoalDb)
      → find_review id g.reviews ≡ some r
      → r.status ≢ GoalReviewStatus.pending
      → find_review id (after_calls calls g).reviews ≡ some r
  unfolding after_calls
  calls-find_review [] id r g at done = at
  calls-find_review (create_review new ∷ rest) id r g at done =
      calls-find_review rest id r _ (create-find_review new id r g at) done
  calls-find_review (decide_review j status reason ∷ rest) id r g at done =
      calls-find_review rest id r _ (decide-find_review j id reason status r g at done) done

  refused :
      (id reason : String) (status : GoalReviewStatus) (r : GoalReview) (g : GoalDb)
      → find_review id g.reviews ≡ some r
      → r.status ≢ GoalReviewStatus.pending
      → r.status ≢ status
      → (decide_goal_review db id status reason g).0 ≢ none
  refused id reason status r g at done other none_back = elim (read_cases id r g at) [
    | inl read ↦
        error_not_none
          (ap (λ x. x.0) (decide_goal_review_final db id reason status g read done other)) none_back
    | inr (e, unread) ↦
        error_not_none (ap (λ x. x.0) (decide-unread id reason status e g unread)) none_back
  ]

  -- A review that was decided stays as it is, whatever reviews are created and decided afterwards,
  -- this one included, and whatever the database answers; and any other decision on it then returns
  -- an error and changes nothing.
  pub decided_review_final :
      (calls : List ReviewCall) (id reason : String) (status : GoalReviewStatus) (r : GoalReview)
      (g : GoalDb)
      → find_review id g.reviews ≡ some r
      → r.status ≢ GoalReviewStatus.pending
      → r.status ≢ status
      → let after = after_calls calls g in
        (find_review id after.reviews ≡ some r)
        × ((decide_goal_review db id status reason after).0 ≢ none)
        × ((decide_goal_review db id status reason after).1 ≡ after)
  decided_review_final calls id reason status r g at done other =
      let still = calls-find_review calls id r g at done in
      let after = after_calls calls g in
      (
        still,
        refused id reason status r after still done other,
        decided_row id reason status r after still done,
      )
