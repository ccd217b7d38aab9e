-- ===== src/Goal/Coordinator/Gate.antt =====
-- The review gate in `executeSteps` and `Resume`.
use mathlib.Core.Path.{fun_ext}
use primitive_box.Prelude.{
  String, ◌≡◌, ◌≢◌, ◌⊎◌, ◌↔◌, refl, sym, subst, true, Option, none, some, List, [], ◌∷◌, ◌++◌,
  eq_iff, arith, inl, inr, Option-cases,
}
use primitive_box.Errors.{sentinel, goal_paused}
use primitive_box.Control.{GoalStep, GoalReview, GoalReviewStatus}
use primitive_box.Control.Store.Reviews.{list_goal_reviews}
use primitive_box.Goal.{GoalState, GoalCoordinator}
use primitive_box.Goal.Coordinator.{
  StepsEnd, completed, stopped, panicked, StepIds, is_approved_step, needs_review, standing, to_run,
  pause_for_review, step_turn, after_step, execute_steps, approved_steps, resume, resume_found,
  resume_status, resume_paused,
}

module _ {W : Type 0} (c : GoalCoordinator W) where
  abbrev pub Ended : Type 0
  Ended = StepsEnd × GoalState W

  after_step_assoc :
      (f g : GoalState W → Ended) (x : Ended)
      → after_step c g (after_step c f x) ≡ after_step c (λ s. after_step c g (f s)) x
  unfolding after_step
  after_step_assoc f g (completed, s) = refl
  after_step_assoc f g (stopped err, s) = refl
  after_step_assoc f g (panicked, s) = refl

  after_step-gate :
      (gate : GoalState W → Ended) (x : Ended)
      → ((s : GoalState W) → (gate s).1.world ≡ s.world)
      → ((s : GoalState W) → (gate s).0 ≢ completed)
      → ((after_step c gate x).1.world ≡ x.1.world) × ((after_step c gate x).0 ≢ completed)
  unfolding after_step
  after_step-gate gate (completed, s) still stops = (still s, stops s)
  after_step-gate gate (stopped err, s) still stops = (refl, (λ e. cc))
  after_step-gate gate (panicked, s) still stops = (refl, (λ e. cc))

  module _ (goal_id : String) (approved : StepIds) where
    execute_steps-append :
        (before rest : List GoalStep) (s : GoalState W)
        → execute_steps c goal_id approved (before ++ rest) s
          ≡ after_step c
              (λ s'. execute_steps c goal_id approved rest s')
              (execute_steps c goal_id approved before s)
    unfolding execute_steps after_step
    execute_steps-append [] rest s = refl
    execute_steps-append (step ∷ before) rest s =
        rw (fun_ext (execute_steps-append before rest))
          (sym (after_step_assoc _ _ (step_turn c goal_id approved step s)))

    pause_for_review-world :
        (step : GoalStep) (s : GoalState W) → (pause_for_review c goal_id step s).world ≡ s.world
    unfolding pause_for_review
    pause_for_review-world step s = refl

    gate_turn :
        (step : GoalStep) (s : GoalState W)
        → standing step.status ≡ to_run
        → needs_review approved step ≡ true
        → step_turn c goal_id approved step s
          ≡ (stopped (sentinel goal_paused), pause_for_review c goal_id step s)
    unfolding step_turn
    gate_turn step s turn gated = ground arith

    gate_stops :
        (step : GoalStep) (rest : List GoalStep) (s : GoalState W)
        → standing step.status ≡ to_run
        → needs_review approved step ≡ true
        → ((execute_steps c goal_id approved (step ∷ rest) s).1.world ≡ s.world)
          × ((execute_steps c goal_id approved (step ∷ rest) s).0 ≢ completed)
    unfolding execute_steps after_step
    gate_stops step rest s turn gated =
        rw (gate_turn step s turn gated) (pause_for_review-world step s, (λ e. cc))

    -- A step of high risk that was not approved, and is still to run, stops the loop: whatever
    -- stands behind it in the list, the executor's world is left as the steps before it leave it,
    -- and the goal is not completed.
    pub execute_steps-gated :
        (before rest : List GoalStep) (step : GoalStep) (s : GoalState W)
        → standing step.status ≡ to_run
        → needs_review approved step ≡ true
        → let out = execute_steps c goal_id approved (before ++ step ∷ rest) s in
          (out.1.world ≡ (execute_steps c goal_id approved before s).1.world) × (out.0 ≢ completed)
    execute_steps-gated before rest step s turn gated =
        rw (execute_steps-append before (step ∷ rest) s) (
          after_step-gate (λ s'. execute_steps c goal_id approved (step ∷ rest) s')
            (execute_steps c goal_id approved before s)
            (λ s'. (gate_stops step rest s' turn gated).0)
            (λ s'. (gate_stops step rest s' turn gated).1))

-- Some review in the list is pending, or approves the step.
abbrev pub HasPending : List GoalReview → Type 0
HasPending [] = ⊥
HasPending (r ∷ rest) = (r.status ≡ GoalReviewStatus.pending) ⊎ HasPending rest

abbrev pub HasApproval : String → List GoalReview → Type 0
HasApproval id [] = ⊥
HasApproval id (r ∷ rest) =
    ((r.status ≡ GoalReviewStatus.approved) × (r.step_id ≡ id)) ⊎ HasApproval id rest

abbrev pub AllowsExactly : List GoalReview → Option StepIds → Type 0
AllowsExactly reviews none = HasPending reviews
AllowsExactly reviews (some ids) =
    ¬ HasPending reviews
    × ((id : String) → (is_approved_step ids id ≡ true) ↔ HasApproval id reviews)

module _ {W : Type 0} (c : GoalCoordinator W) where
  add_review :
      (r : GoalReview) (rest : List GoalReview) (later : Option StepIds) (status : GoalReviewStatus)
      → r.status ≡ status
      → AllowsExactly rest later
      → AllowsExactly (r ∷ rest) (elim status [
        | GoalReviewStatus.pending ↦ none
        | GoalReviewStatus.approved ↦ elim later [ none ↦ none | some ids ↦ some (r.step_id ∷ ids) ]
        | GoalReviewStatus.rejected ↦ later
      ])
  unfolding is_approved_step
  add_review r rest later GoalReviewStatus.pending same h = inl same
  add_review r rest none GoalReviewStatus.approved same h = inr h
  add_review r rest (some ids) GoalReviewStatus.approved same h =
      ((λ p. ground arith), (λ id. ground (arith, eq_iff r.step_id id, h.1 id)))
  add_review r rest none GoalReviewStatus.rejected same h = inr h
  add_review r rest (some ids) GoalReviewStatus.rejected same h =
      ((λ p. ground arith), (λ id. ground (arith, h.1 id)))

  -- The loop over the reviews refuses exactly where one is pending; otherwise a step is approved
  -- exactly if one of its reviews was.
  pub approved_steps-AllowsExactly :
      (reviews : List GoalReview) → AllowsExactly reviews (approved_steps c reviews)
  unfolding approved_steps is_approved_step
  approved_steps-AllowsExactly [] = ((λ p. p), (λ id. ground arith))
  approved_steps-AllowsExactly (r ∷ rest) =
      add_review r rest (approved_steps c rest) r.status refl (approved_steps-AllowsExactly rest)

  approved_steps-pending :
      (reviews : List GoalReview) → HasPending reviews → approved_steps c reviews ≡ none
  approved_steps-pending reviews h = elim (Option-cases (approved_steps c reviews)) [
    | inl nothing ↦ nothing
    | inr (ids, e) ↦
        absurd ((subst (AllowsExactly reviews) e (approved_steps-AllowsExactly reviews)).0 h)
  ]

  -- While a review of the goal is pending, `Resume` changes nothing, neither the tables nor the
  -- executor's world, and returns an error.
  pub resume_pending :
      (goal_id : String) (s : GoalState W) (reviews : List GoalReview)
      → list_goal_reviews c.store goal_id s.db ≡ (none, reviews)
      → HasPending reviews
      → ((resume c goal_id s).1 ≡ s) × ((resume c goal_id s).0 ≢ completed)
  unfolding resume resume_found resume_status resume_paused
  resume_pending goal_id s reviews listed pending =
      ground (arith, listed, approved_steps-pending reviews pending)
