-- ===== src/Goal/Coordinator/Progress.antt =====
-- Where a run of a goal ends, over a database that answers every statement without an error.
use primitive_box.Prelude.{
  String, ◌≡◌, ◌≢◌, ◌⊎◌, refl, sym, subst, Option, none, some, List, [], ◌∷◌, ◌=ₛ◌, arith, inl, inr,
  Bool-cases, ◌<>◌,
}
use primitive_box.Errors.{GoError, message, wrap}
use primitive_box.Control.{
  Goal, GoalStep, GoalReview, GoalVerification, GoalStatus, GoalDb, Statement, select_verifications,
  select_steps, select_goal,
}
use primitive_box.Control.Store.{
  find_by, get_goal, update_goal_status, list_goal_steps, publish_goal_event,
}
use primitive_box.Control.Store.Reviews.{list_goal_reviews}
use primitive_box.Control.Store.Verifications.{list_goal_verifications}
use primitive_box.Control.Store.Goals.{
  Present, Stands, update_goal_status-Stands, list_goal_verifications_ok, list_goal_steps_ok,
  get_goal_found,
}
use primitive_box.Goal.{GoalState, GoalCoordinator}
use primitive_box.Goal.Verification.Laws.{run-goals}
use primitive_box.Goal.Verification.{RunEnd, ran, broke, run}
use primitive_box.Goal.Coordinator.{
  StepsEnd, completed, stopped, panicked, StepIds, after_step, execute_steps, set_status,
  mark_failed, verdict, finalize_after_execution, settle, run_listed, start_goal, execute_found,
  execute, approved_steps, resume, resume_found, resume_status, resume_paused, resume_approved,
}
use primitive_box.Goal.Coordinator.Turns.{Turned, execute_steps-Turned}

module _ {W : Type 0} (goal_id : String) where
  -- Where a run of the goal may end: completed or paused without an error, or failed with one.
  abbrev pub Settled : StepsEnd × GoalState W → Type 0
  Settled (completed, s) =
      Stands goal_id GoalStatus.completed s.db.goals ⊎ Stands goal_id GoalStatus.paused s.db.goals
  Settled (stopped err, s) = Stands goal_id GoalStatus.failed s.db.goals
  Settled (panicked, s) = ⊥

module _ {W : Type 0} (c : GoalCoordinator W)
    (quiet : (g : GoalDb) (s : Statement) → c.store.fault g s ≡ none) (goal_id : String) where
  set_status_ok :
      (status : GoalStatus) (text : String) (s : GoalState W)
      → Present goal_id s.db.goals
      → set_status c goal_id status text s
        ≡ (completed, record s { db = (update_goal_status c.store goal_id status s.db).1 })
  unfolding set_status
  set_status_ok status text s p =
      rw ((update_goal_status-Stands c.store quiet goal_id status s.db p).0, set_status) refl

  -- A change of the goal's status in the run, and what follows it.
  set_status-then :
      (status : GoalStatus) (text : String) (s : GoalState W)
      (next : GoalState W → StepsEnd × GoalState W) (P : StepsEnd × GoalState W → Type 0)
      → Present goal_id s.db.goals
      → ((s' : GoalState W) → Stands goal_id status s'.db.goals → P (next s'))
      → P (after_step c next (set_status c goal_id status text s))
  unfolding after_step
  set_status-then status text s next P p rest =
      subst (λ x. P (after_step c next x)) (sym (set_status_ok status text s p))
        (rest (record s { db = (update_goal_status c.store goal_id status s.db).1 })
          (update_goal_status-Stands c.store quiet goal_id status s.db p).1)

  set_completed-Settled :
      (text : String) (s : GoalState W)
      → Present goal_id s.db.goals
      → Settled goal_id (set_status c goal_id GoalStatus.completed text s)
  set_completed-Settled text s p =
      subst (Settled goal_id) (sym (set_status_ok GoalStatus.completed text s p))
        (inl (update_goal_status-Stands c.store quiet goal_id GoalStatus.completed s.db p).1)

  mark_failed-Stands :
      (s : GoalState W)
      → Present goal_id s.db.goals
      → Stands goal_id GoalStatus.failed (mark_failed c goal_id s).db.goals
  unfolding mark_failed
  mark_failed-Stands s p =
      (update_goal_status-Stands c.store quiet goal_id GoalStatus.failed s.db p).1

  verdict-Settled :
      (out : RunEnd × GoalState W)
      → Present goal_id out.1.db.goals
      → Settled goal_id (verdict c goal_id out)
  unfolding verdict
  verdict-Settled (broke err, s) p = mark_failed-Stands s p
  verdict-Settled (ran r, s) p = elim (Bool-cases r.failed) [
    | inl bad ↦ rw bad (
        set_status-then GoalStatus.failed "set goal failed after verification: " s
          (λ s'. (stopped (message ("goal " <> (goal_id <> " verification failed"))), s'))
          (Settled goal_id) p (λ s' there. there))
    | inr good ↦ rw good (set_completed-Settled "set goal completed: " s p)
  ]

  finalize_listed :
      (vs : List GoalVerification) (s : GoalState W)
      → Present goal_id s.db.goals
      → Settled {W = W} goal_id (elim vs [
        | [] ↦ set_status c goal_id GoalStatus.completed "set goal completed: " s
        | v ∷ rest ↦
            after_step c
              (λ s'. verdict c goal_id (run c goal_id s'))
              (set_status c goal_id GoalStatus.verifying "set goal verifying: " s)
      ])
  finalize_listed [] s p = set_completed-Settled "set goal completed: " s p
  finalize_listed (v ∷ rest) s p =
      set_status-then GoalStatus.verifying "set goal verifying: " s
        (λ s'. verdict c goal_id (run c goal_id s')) (Settled goal_id) p
        (λ s' there.
          verdict-Settled (run c goal_id s')
            (subst (Present goal_id) (run-goals c goal_id s') (there.0, there.1)))

  finalize_listing :
      (l : Option GoError × List GoalVerification) (s : GoalState W)
      → l.0 ≡ none
      → Present goal_id s.db.goals
      → Settled {W = W} goal_id (elim (l.0) [
        | some err ↦ (stopped (wrap "list verifications: " err), s)
        | none ↦ elim (l.1) [
          | [] ↦ set_status c goal_id GoalStatus.completed "set goal completed: " s
          | v ∷ rest ↦
              after_step c
                (λ s'. verdict c goal_id (run c goal_id s'))
                (set_status c goal_id GoalStatus.verifying "set goal verifying: " s)
        ]
      ])
  finalize_listing (none, vs) s ok p = finalize_listed vs s p
  finalize_listing (some err, vs) s ok p = absurd (ground arith)

  finalize_after_execution-Settled :
      (s : GoalState W)
      → Present goal_id s.db.goals
      → Settled goal_id (finalize_after_execution c goal_id s)
  unfolding finalize_after_execution
  finalize_after_execution-Settled s p =
      finalize_listing (list_goal_verifications c.store goal_id s.db) s
        (list_goal_verifications_ok c.store goal_id s.db
          (quiet s.db (select_verifications goal_id)))
        p

  settle-Settled :
      (out : StepsEnd × GoalState W) → Turned goal_id out → Settled goal_id (settle c goal_id out)
  unfolding settle
  settle-Settled (completed, s) p = finalize_after_execution-Settled s p
  settle-Settled (stopped err, s) (inl (is_pause, there)) = rw is_pause (inr there)
  settle-Settled (stopped err, s) (inr (no_pause, p)) = rw no_pause (mark_failed-Stands s p)
  settle-Settled (panicked, s) h = absurd h

  run_listing :
      (l : Option GoError × List GoalStep) (approved : StepIds) (s : GoalState W)
      → l.0 ≡ none
      → Present goal_id s.db.goals
      → Settled {W = W} goal_id (elim (l.0) [
        | some err ↦ (stopped (wrap ("list steps for goal " <> (goal_id <> ": ")) err), s)
        | none ↦ settle c goal_id (execute_steps c goal_id approved l.1 s)
      ])
  run_listing (none, steps) approved s ok p =
      settle-Settled (execute_steps c goal_id approved steps s)
        (execute_steps-Turned c quiet goal_id approved steps s p)
  run_listing (some err, steps) approved s ok p = absurd (ground arith)

  run_listed-Settled :
      (approved : StepIds) (s : GoalState W)
      → Present goal_id s.db.goals
      → Settled goal_id (run_listed c goal_id approved s)
  unfolding run_listed
  run_listed-Settled approved s p =
      run_listing (list_goal_steps c.store goal_id s.db) approved s
        (list_goal_steps_ok c.store goal_id s.db (quiet s.db (select_steps goal_id))) p

  started :
      (s : GoalState W)
      → Present goal_id s.db.goals
      → Settled {W = W} goal_id (
          after_step c
            (run_listed c goal_id [])
            (set_status c goal_id GoalStatus.executing "set goal executing: " s))
  started s p =
      set_status-then GoalStatus.executing "set goal executing: " s (run_listed c goal_id [])
        (Settled goal_id) p (λ s' there. run_listed-Settled [] s' (there.0, there.1))

  start_goal-Settled :
      (status : GoalStatus) (s : GoalState W)
      → Present goal_id s.db.goals
      → status ≢ GoalStatus.executing
      → status ≢ GoalStatus.completed
      → Settled goal_id (start_goal c goal_id status s)
  unfolding start_goal
  start_goal-Settled GoalStatus.executing s p no_exec no_done = absurd (no_exec refl)
  start_goal-Settled GoalStatus.completed s p no_exec no_done = absurd (no_done refl)
  start_goal-Settled GoalStatus.created s p no_exec no_done = started s p
  start_goal-Settled GoalStatus.verifying s p no_exec no_done = started s p
  start_goal-Settled GoalStatus.failed s p no_exec no_done = started s p
  start_goal-Settled GoalStatus.paused s p no_exec no_done = started s p

  execute_found-Settled :
      (x : Option GoError × Option Goal) (goal : Goal) (s : GoalState W)
      → x ≡ (none, some goal)
      → Present goal_id s.db.goals
      → goal.status ≢ GoalStatus.executing
      → goal.status ≢ GoalStatus.completed
      → Settled goal_id (execute_found c goal_id x s)
  unfolding execute_found
  execute_found-Settled (none, some g) goal s same p no_exec no_done =
      start_goal-Settled g.status s p (λ e. no_exec (cc)) (λ e. no_done (cc))
  execute_found-Settled (none, none) goal s same p no_exec no_done = absurd (ground arith)
  execute_found-Settled (some err, x) goal s same p no_exec no_done = absurd (ground arith)

  -- Over a database that answers every statement without an error, `Execute` of a goal that is
  -- there, and is neither executing nor completed, returns, and leaves the goal completed or paused
  -- if it returns no error, and failed if it returns one: it is never left executing or verifying.
  -- The dereference of a nil result in the loop is never reached.
  pub execute-Settled :
      (s : GoalState W) (goal : Goal)
      → find_by (λ (x : Goal). x.id =ₛ goal_id) s.db.goals ≡ some goal
      → goal.status ≢ GoalStatus.executing
      → goal.status ≢ GoalStatus.completed
      → Settled goal_id (execute c goal_id s)
  unfolding execute
  execute-Settled s goal there no_exec no_done =
      execute_found-Settled (get_goal c.store goal_id s.db) goal s
        (get_goal_found c.store goal_id s.db (quiet s.db (select_goal goal_id)) there) (goal, there)
        no_exec no_done

  resumed :
      (approved : StepIds) (s : GoalState W)
      → Present goal_id s.db.goals
      → Settled goal_id (resume_approved c goal_id approved s)
  unfolding resume_approved publish_goal_event
  resumed approved s p =
      set_status-then GoalStatus.executing "set goal executing: " s
        (λ s'.
          run_listed c goal_id approved
            (record s' { db = publish_goal_event "goal.resumed" goal_id s'.db }))
        (Settled goal_id) p
        (λ s' there.
          run_listed-Settled approved
            (record s' { db = publish_goal_event "goal.resumed" goal_id s'.db }) (there.0, there.1))

  resume_paused-Settled :
      (reviews : Option GoError × List GoalReview) (approved : StepIds) (s : GoalState W)
      → list_goal_reviews c.store goal_id s.db ≡ reviews
      → reviews.0 ≡ none
      → approved_steps c reviews.1 ≡ some approved
      → Present goal_id s.db.goals
      → Settled goal_id (resume_paused c goal_id s)
  unfolding resume_paused
  resume_paused-Settled (none, reviews) approved s listed ok allowed p =
      ground (arith, listed, allowed, resumed approved s p)
  resume_paused-Settled (some err, reviews) approved s listed ok allowed p = absurd (ground arith)

  -- Over a database that answers every statement without an error, `Resume` of a paused goal with
  -- no pending review returns, and leaves the goal completed or paused if it returns no error, and
  -- failed if it returns one.
  pub resume-Settled :
      (s : GoalState W) (goal : Goal) (reviews : List GoalReview) (approved : StepIds)
      → find_by (λ (x : Goal). x.id =ₛ goal_id) s.db.goals ≡ some goal
      → goal.status ≡ GoalStatus.paused
      → list_goal_reviews c.store goal_id s.db ≡ (none, reviews)
      → approved_steps c reviews ≡ some approved
      → Settled goal_id (resume c goal_id s)
  unfolding resume resume_found resume_status
  resume-Settled s goal reviews approved there paused listed allowed =
      rw (get_goal_found c.store goal_id s.db (quiet s.db (select_goal goal_id)) there, paused)
        (resume_paused-Settled (none, reviews) approved s listed refl allowed (goal, there))
