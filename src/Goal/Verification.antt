-- ===== src/Goal/Verification.antt =====
-- `VerificationRunner.Run` of internal/goal/verification_runner.go: the verifications of a goal are
-- run in order, up to the first that fails.

pub mod Laws
use primitive_box.Prelude.{
  ℕ, String, ◌<>◌, Bool, true, false, Option, none, some, List, [], ◌∷◌, length, ◌=ₛ◌,
  if◌then◌else◌,
}
use primitive_box.Errors.{GoError, message, wrap}
use primitive_box.Control.{Goal, GoalStep, GoalVerification, GoalVerificationStatus, GoalDb}
use primitive_box.Control.Store.{get_goal, list_goal_steps}
use primitive_box.Control.Store.Verifications.{list_goal_verifications, update_goal_verification}
use primitive_box.Goal.{GoalState, GoalCoordinator, CheckResult}

pub record VerificationRunResult : Type 0 where
  pub count : ℕ
  pub failed : Bool

pub data RunEnd : Type 0 where
  ran : VerificationRunResult → RunEnd
  broke : GoError → RunEnd

abbrev pub is_passed : GoalVerificationStatus → Bool
is_passed GoalVerificationStatus.passed = true
is_passed _ = false

abbrev pub is_failed : GoalVerificationStatus → Bool
is_failed GoalVerificationStatus.failed = true
is_failed _ = false

-- `stepByID`, in which a later step of the same id replaces an earlier one.
unfoldable pub step_by_id : List GoalStep → String → Option GoalStep
step_by_id [] id = none
step_by_id (s ∷ rest) id = elim (step_by_id rest id) [
  | some t ↦ some t
  | none ↦ if s.id =ₛ id then some s else none
]

unfoldable pub verification_by_id : List GoalVerification → String → Option GoalVerification
verification_by_id [] id = none
verification_by_id (v ∷ rest) id = elim (verification_by_id rest id) [
  | some u ↦ some u
  | none ↦ if v.id =ₛ id then some v else none
]

-- The map with the verification that was just run.
abbrev pub noted :
    (String → Option GoalVerification) → GoalVerification → String → Option GoalVerification
noted by_id v id = if v.id =ₛ id then some v else by_id id

abbrev pub judged : GoalVerification → CheckResult → GoalVerification
judged v r = record v { status = r.status; verdict = r.verdict; evidence = r.evidence }

module _ {W : Type 0} (c : GoalCoordinator W) where
  -- The second update, and what follows it.
  persisted :
      ℕ
      → (GoalState W → RunEnd × GoalState W)
      → String
      → CheckResult
      → W
      → Option GoError × GoalDb
      → RunEnd × GoalState W
  persisted count next id r w (some err, g) =
      (broke (wrap ("persist verification " <> (id <> ": ")) err), record { db = g; world = w })
  persisted count next id r w (none, g) =
      let rest = next (record { db = g; world = w }) in
      if is_failed r.status
      then (ran (record { count = count; failed = true }), record { db = g; world = w })
      else rest

  checked :
      ℕ
      → (GoalState W → RunEnd × GoalState W)
      → GoalVerification
      → GoalDb
      → CheckResult × W
      → RunEnd × GoalState W
  unfolding persisted
  checked count next v g (r, w) =
      persisted count next v.id r w
        (update_goal_verification c.store v.id r.status r.verdict r.evidence g)

  marked :
      ℕ
      → (GoalState W → RunEnd × GoalState W)
      → GoalVerification
      → (GoalDb → CheckResult × W)
      → W
      → Option GoError × GoalDb
      → RunEnd × GoalState W
  unfolding checked
  marked count next v run w (some err, g) = (
    broke (wrap ("mark verification " <> (v.id <> " running: ")) err),
    record { db = g; world = w },
  )
  marked count next v run w (none, g) = checked count next v g (run g)

  -- The loop.
  unfoldable pub run_verifications :
      ℕ
      → Goal
      → (String → Option GoalStep)
      → List GoalVerification
      → (String → Option GoalVerification)
      → GoalState W
      → RunEnd × GoalState W
  unfolding marked
  run_verifications count goal steps [] by_id s =
      (ran (record { count = count; failed = false }), s)
  run_verifications count goal steps (v ∷ rest) by_id s =
      let outcome = c.check goal v steps by_id s.world in
      let later = λ (s' : GoalState W).
        run_verifications count goal steps rest (noted by_id (judged v outcome.0)) s' in
      let skipped = run_verifications count goal steps rest by_id s in
      if is_passed v.status
      then skipped
      else marked count later v (λ g. outcome) s.world
          (update_goal_verification c.store v.id GoalVerificationStatus.running "" v.evidence s.db)

  run_loaded :
      Goal
      → List GoalStep
      → Option GoError × List GoalVerification
      → GoalState W
      → RunEnd × GoalState W
  unfolding run_verifications step_by_id verification_by_id
  run_loaded goal steps (some err, l) s = (broke (wrap "list verifications: " err), s)
  run_loaded goal steps (none, verifications) s =
      run_verifications (length verifications) goal (step_by_id steps) verifications
        (verification_by_id verifications) s

  run_with_steps :
      String → Goal → Option GoError × List GoalStep → GoalState W → RunEnd × GoalState W
  unfolding run_loaded
  run_with_steps goal_id goal (some err, l) s = (broke (wrap "list steps: " err), s)
  run_with_steps goal_id goal (none, steps) s =
      run_loaded goal steps (list_goal_verifications c.store goal_id s.db) s

  run_with_goal : String → Option GoError × Option Goal → GoalState W → RunEnd × GoalState W
  unfolding run_with_steps
  run_with_goal goal_id (some err, x) s = (broke (wrap ("get goal " <> (goal_id <> ": ")) err), s)
  run_with_goal goal_id (none, none) s = (broke (message ("goal " <> (goal_id <> " not found"))), s)
  run_with_goal goal_id (none, some goal) s =
      run_with_steps goal_id goal (list_goal_steps c.store goal_id s.db) s

  unfoldable pub run : String → GoalState W → RunEnd × GoalState W
  unfolding run_with_goal
  run goal_id s = run_with_goal goal_id (get_goal c.store goal_id s.db) s
