-- ===== src/Control/Store/Laws.antt =====
-- Laws of the goal store: goals, their creation with steps, and decisions on reviews.
use primitive_box.Prelude.{
  ℕ, ◌+◌, String, ◌≡◌, ◌≢◌, ◌⊎◌, refl, sym, ap, ◌∙◌, Option, none, some, List, [], ◌∷◌, ◌++◌, ◌==◌,
  ◌=ₛ◌, arith, Bool-cases, Option-cases, append-nil, append_assoc, if◌then◌else◌, inl, inr,
}
use primitive_box.Errors.{GoError, sentinel, review_conflict}
use primitive_box.Json.{absent}
use primitive_box.Control.{
  Goal, GoalStep, GoalReview, GoalStatus, GoalReviewStatus, GoalDb, Database, insert_goal,
  insert_step, begin_tx, commit,
}
use primitive_box.Control.Store.{
  find_by, update_by, exists_by, unique, or_object, publish_goal_event, create_goal_full, committed,
  insert_steps, update_goal_status,
}
use primitive_box.Control.Store.Reviews.{decide_goal_review, get_goal_review}

-- The row of a step: an object as input, no output, low risk by default, and its place as its number
-- where it has none.
abbrev pub stored_step : ℕ → GoalStep → GoalStep
stored_step i step = record step {
  input = or_object step.input;
  output = absent;
  risk_level = if step.risk_level =ₛ "" then "low" else step.risk_level;
  seq = if step.seq == 0 then i + 1 else step.seq;
}

abbrev pub step_rows : ℕ → List GoalStep → List GoalStep
step_rows i [] = []
step_rows i (step ∷ rest) = stored_step i step ∷ step_rows (i + 1) rest

some_not_none : {A : Type 0} {a : A} → some a ≡ none → ⊥
some_not_none e = cc

abbrev pub map_found : {A : Type 0} → (A → A) → Option A → Option A
map_found f none = none
map_found f (some x) = some (f x)

-- An update that keeps the ids is found again under its id.
pub find_by-update_by :
    {A : Type 0} (key : A → String) (f : A → A) (id : String) (xs : List A)
    → ((x : A) → key (f x) ≡ key x)
    → find_by (λ x. key x =ₛ id) (update_by (λ x. key x =ₛ id) f xs)
      ≡ map_found f (find_by (λ x. key x =ₛ id) xs)
unfolding find_by update_by
find_by-update_by key f id [] keeps = refl
find_by-update_by key f id (x ∷ xs) keeps = elim (Bool-cases (key x =ₛ id)) [
  | inl hit ↦ simp (hit, keeps)
  | inr miss ↦ simp miss (find_by-update_by key f id xs keeps)
]

module _ (db : Database) where
  -- After a status update that succeeded, the goal is found with that status, if it was there, and
  -- the steps, the reviews and the verifications are as they were.
  pub update_goal_status_found :
      (id : String) (status : GoalStatus) (g : GoalDb) {goal : Goal}
      → (update_goal_status db id status g).0 ≡ none
      → find_by (λ (x : Goal). x.id =ₛ id) g.goals ≡ some goal
      → let after = (update_goal_status db id status g).1 in
        (find_by (λ (x : Goal). x.id =ₛ id) after.goals ≡ some (record goal { status = status }))
        × (after.steps ≡ g.steps)
        × (after.reviews ≡ g.reviews)
        × (after.verifications ≡ g.verifications)
  unfolding update_goal_status publish_goal_event
  update_goal_status_found id status g {goal} ok there =
      let found =
        find_by-update_by (λ (x : Goal). x.id) (λ (x : Goal). record x { status = status }) id
          g.goals (λ x. refl) in
      ground (arith, found)

  -- A decision on a review that has the same status already changes nothing and is no error.
  pub decide_goal_review_same :
      (id reason : String) (g : GoalDb) {r : GoalReview}
      → get_goal_review db id g ≡ (none, some r)
      → decide_goal_review db id r.status reason g ≡ (none, g)
  unfolding decide_goal_review
  decide_goal_review_same id reason g {r} h = rw h (ground arith)

  -- A decision on a pending review that succeeded is what the review then holds.
  pub decide_goal_review_decides :
      (id reason : String) (status : GoalReviewStatus) (g : GoalDb) {r : GoalReview}
      → get_goal_review db id g ≡ (none, some r)
      → r.status ≡ GoalReviewStatus.pending
      → status ≢ GoalReviewStatus.pending
      → (decide_goal_review db id status reason g).0 ≡ none
      → find_by
          (λ (x : GoalReview). x.id =ₛ id)
          (decide_goal_review db id status reason g).1.reviews
        ≡ some (record r { status = status; decision_reason = reason })
  unfolding decide_goal_review publish_goal_event get_goal_review
  decide_goal_review_decides id reason status g {r} h pending other ok =
      let found =
        find_by-update_by (λ (x : GoalReview). x.id)
          (λ (x : GoalReview). record x { status = status; decision_reason = reason }) id g.reviews
          (λ x. refl) in
      ground (arith, found)

  -- A decision that was made is final: the opposite one is refused as a conflict, and changes
  -- nothing.
  pub decide_goal_review_final :
      (id reason : String) (status : GoalReviewStatus) (g : GoalDb) {r : GoalReview}
      → get_goal_review db id g ≡ (none, some r)
      → r.status ≢ GoalReviewStatus.pending
      → r.status ≢ status
      → decide_goal_review db id status reason g ≡ (some (sentinel review_conflict), g)
  unfolding decide_goal_review
  decide_goal_review_final id reason status g {r} h decided other = rw h (ground arith)

  committed_error :
      (goal : Goal) (before : GoalDb) (out : Option GoError × GoalDb)
      → (committed db goal before out).0 ≢ none
      → (committed db goal before out).1 ≡ before
  unfolding committed
  committed_error goal before (some err, g) h = refl
  committed_error goal before (none, g) h = ground arith

  insert_steps-inserted :
      (i : ℕ) (steps : List GoalStep) (g : GoalDb)
      → (insert_steps db i steps g).0 ≡ none
      → (insert_steps db i steps g).1 ≡ record g { steps = g.steps ++ step_rows i steps }
  unfolding insert_steps
  insert_steps-inserted i [] g h =
      ap {A = List GoalStep} {B = GoalDb} (λ rows. record g { steps = rows })
        (sym (append-nil g.steps))
  insert_steps-inserted i (step ∷ rest) g h =
      let here = exists_by (λ (x : GoalStep). x.id =ₛ step.id) g.steps in
      elim (Option-cases (unique here (db.fault g (insert_step step.id)))) [
        | inl stored ↦
            let next = record g { steps = g.steps ++ stored_step i step ∷ [] } in
            rw (insert_steps, stored)
              (insert_steps-inserted (i + 1) rest next (rw (insert_steps, stored) at h)
                ∙ ap {A = List GoalStep} {B = GoalDb} (λ rows. record g { steps = rows })
                    (append_assoc g.steps (stored_step i step ∷ []) (step_rows (i + 1) rest)))
        | inr (e, refused) ↦ absurd (some_not_none (rw (insert_steps, refused) at h))
      ]

  -- The goal with all of its steps, and the event that announces it.
  abbrev pub IsCreated : Goal → List GoalStep → GoalDb → GoalDb → Type 0
  IsCreated goal steps before after =
      (after.goals ≡ before.goals ++ goal ∷ [])
      × (after.steps ≡ before.steps ++ step_rows 0 steps)
      × (after.reviews ≡ before.reviews)
      × (after.verifications ≡ before.verifications)
      × (after.events ≡ record { kind = "goal.created"; message = goal.id } ∷ before.events)

  committed-IsCreated :
      (goal : Goal) (steps : List GoalStep) (before : GoalDb) (out : Option GoError × GoalDb)
      → (out.0 ≡ none
          → out.1 ≡ record before {
            goals = before.goals ++ goal ∷ [];
            steps = before.steps ++ step_rows 0 steps;
          })
      → (committed db goal before out).0 ≡ none
      → IsCreated goal steps before (committed db goal before out).1
  unfolding committed publish_goal_event
  committed-IsCreated goal steps before (some err, g) inserted h = absurd (some_not_none h)
  committed-IsCreated goal steps before (none, g) inserted h =
      elim (Option-cases (db.fault g (commit goal.id))) [
        | inl fine ↦
            let same = inserted refl in
            rw fine (
              ap (λ (x : GoalDb). x.goals) same,
              ap (λ (x : GoalDb). x.steps) same,
              ap (λ (x : GoalDb). x.reviews) same,
              ap (λ (x : GoalDb). x.verifications) same,
              ap (λ (x : GoalDb). record { kind = "goal.created"; message = goal.id } ∷ x.events)
                  same,
            )
        | inr (e, failed) ↦ absurd (some_not_none (rw failed at h))
      ]

  -- A goal is created with all of its steps or not at all. Without an error, the goal's row and the
  -- rows of its steps, each in its place and with a number, are behind those that were there, the
  -- rest is as it was, and the goal is announced; after an error the database is as it was, and
  -- nothing was announced.
  pub create_goal_full_atomic :
      (goal : Goal) (steps : List GoalStep) (g : GoalDb)
      → (((create_goal_full db goal steps g).0 ≡ none)
          × IsCreated goal steps g (create_goal_full db goal steps g).1)
        ⊎ (((create_goal_full db goal steps g).0 ≢ none)
            × ((create_goal_full db goal steps g).1 ≡ g))
  unfolding create_goal_full
  create_goal_full_atomic goal steps g =
      let start = record g { goals = g.goals ++ goal ∷ [] } in
      let inserted = insert_steps db 0 steps start in
      let there = exists_by (λ (x : Goal). x.id =ₛ goal.id) g.goals in
      elim (Option-cases (db.fault g (begin_tx goal.id))) [
        | inr (e, failed) ↦ rw (create_goal_full, failed) (inr ((λ x. some_not_none x), refl))
        | inl begun ↦ elim (Option-cases (unique there (db.fault g (insert_goal goal.id)))) [
          | inr (e, refused) ↦
              rw (create_goal_full, begun, refused) (inr ((λ x. some_not_none x), refl))
          | inl stored ↦
              rw (create_goal_full, begun, stored)
                (elim (Option-cases (committed db goal g inserted).0) [
                  | inl fine ↦ inl (
                    fine,
                    committed-IsCreated goal steps g inserted (insert_steps-inserted 0 steps start)
                        fine,
                  )
                  | inr (e, failed) ↦ inr (
                    (λ x. some_not_none (sym failed ∙ x)),
                    committed_error goal g inserted (λ x. some_not_none (sym failed ∙ x)),
                  )
                ])
        ]
      ]
