-- ===== src/Goal/Verification/Laws.antt =====
-- What a run of a goal's verifications writes.
use primitive_box.Prelude.{
  ℕ, String, ◌≡◌, refl, ◌∙◌, Bool-cases, Option, none, some, List, [], ◌∷◌, inl, inr,
}
use primitive_box.Errors.{GoError}
use primitive_box.Control.{Goal, GoalStep, GoalVerification, GoalVerificationStatus, GoalDb}
use primitive_box.Control.Store.{get_goal, list_goal_steps}
use primitive_box.Control.Store.Verifications.{list_goal_verifications, update_goal_verification}
use primitive_box.Control.Store.Goals.{update_goal_verification-goals}
use primitive_box.Goal.{GoalState, GoalCoordinator, CheckResult}
use primitive_box.Goal.Verification.{
  RunEnd, is_passed, is_failed, noted, judged, persisted, checked, marked, run_verifications,
  run_loaded, run_with_steps, run_with_goal, run,
}

module _ {W : Type 0} (c : GoalCoordinator W) where
  -- The rest of the loop leaves the goal rows as they are.
  abbrev KeepsGoals : (GoalState W → RunEnd × GoalState W) → Type 0
  KeepsGoals next = (s : GoalState W) → s.db.goals ≡ (next s).1.db.goals

  persisted-goals :
      (count : ℕ) (next : GoalState W → RunEnd × GoalState W) (id : String) (r : CheckResult)
      (w : W) (out : Option GoError × GoalDb)
      → KeepsGoals next
      → out.1.goals ≡ (persisted c count next id r w out).1.db.goals
  unfolding persisted
  persisted-goals count next id r w (some err, g) keeps = refl
  persisted-goals count next id r w (none, g) keeps = elim (Bool-cases (is_failed r.status)) [
    | inl bad ↦ rw bad refl
    | inr good ↦ rw good (keeps (record { db = g; world = w }))
  ]

  marked-goals :
      (count : ℕ) (next : GoalState W → RunEnd × GoalState W) (v : GoalVerification)
      (run : GoalDb → CheckResult × W) (w : W) (out : Option GoError × GoalDb)
      → KeepsGoals next
      → out.1.goals ≡ (marked c count next v run w out).1.db.goals
  unfolding marked checked
  marked-goals count next v run w (some err, g) keeps = refl
  marked-goals count next v run w (none, g) keeps =
      let (r, w') = run g in
      let after = update_goal_verification c.store v.id r.status r.verdict r.evidence g in
      update_goal_verification-goals c.store v.id r.status r.verdict r.evidence g
      ∙ persisted-goals count next v.id r w' after keeps

  run_verifications-goals :
      (count : ℕ) (goal : Goal) (steps : String → Option GoalStep) (vs : List GoalVerification)
      (by_id : String → Option GoalVerification) (s : GoalState W)
      → s.db.goals ≡ (run_verifications c count goal steps vs by_id s).1.db.goals
  unfolding run_verifications
  run_verifications-goals count goal steps [] by_id s = refl
  run_verifications-goals count goal steps (v ∷ rest) by_id s =
      elim (Bool-cases (is_passed v.status)) [
        | inl skip ↦ rw skip (run_verifications-goals count goal steps rest by_id s)
        | inr fresh ↦
            let outcome = c.check goal v steps by_id s.world in
            let after =
              update_goal_verification c.store v.id GoalVerificationStatus.running "" v.evidence
                s.db in
            rw fresh (
              update_goal_verification-goals c.store v.id GoalVerificationStatus.running ""
                v.evidence s.db
              ∙ marked-goals count
                  (λ (s' : GoalState W).
                    run_verifications c count goal steps rest (noted by_id (judged v outcome.0)) s')
                  v (λ g. outcome) s.world after
                  (λ s'.
                    run_verifications-goals count goal steps rest (noted by_id (judged v outcome.0))
                      s'))
      ]

  run_loaded-goals :
      (goal : Goal) (steps : List GoalStep) (l : Option GoError × List GoalVerification)
      (s : GoalState W)
      → s.db.goals ≡ (run_loaded c goal steps l s).1.db.goals
  unfolding run_loaded
  run_loaded-goals goal steps (some err, l) s = refl
  run_loaded-goals goal steps (none, l) s = run_verifications-goals _ goal _ l _ s

  run_with_steps-goals :
      (goal_id : String) (goal : Goal) (l : Option GoError × List GoalStep) (s : GoalState W)
      → s.db.goals ≡ (run_with_steps c goal_id goal l s).1.db.goals
  unfolding run_with_steps
  run_with_steps-goals goal_id goal (some err, l) s = refl
  run_with_steps-goals goal_id goal (none, l) s =
      run_loaded-goals goal l (list_goal_verifications c.store goal_id s.db) s

  run_with_goal-goals :
      (goal_id : String) (x : Option GoError × Option Goal) (s : GoalState W)
      → s.db.goals ≡ (run_with_goal c goal_id x s).1.db.goals
  unfolding run_with_goal
  run_with_goal-goals goal_id (some err, x) s = refl
  run_with_goal-goals goal_id (none, none) s = refl
  run_with_goal-goals goal_id (none, some goal) s =
      run_with_steps-goals goal_id goal (list_goal_steps c.store goal_id s.db) s

  -- The verifications of a goal are run without a write to the goal rows.
  pub run-goals : (goal_id : String) (s : GoalState W) → s.db.goals ≡ (run c goal_id s).1.db.goals
  unfolding run
  run-goals goal_id s = run_with_goal-goals goal_id (get_goal c.store goal_id s.db) s
