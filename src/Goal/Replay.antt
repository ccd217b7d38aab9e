-- ===== src/Goal/Replay.antt =====
-- `Replay` of internal/goal/coordinator.go: the trace of a goal from its stored steps.
use primitive_box.Prelude.{
  ℕ, zero, suc, ◌+◌, ◌-◌, ◌<◌, String, ◌<>◌, ◌≡◌, ◌⊎◌, refl, ap, ◌∙◌, Bool, true, false, ◌&&◌,
  Option, none, some, List, [], ◌∷◌, map, length, get_elem?, ltb, leb, if◌then◌else◌, arith,
}
use primitive_box.Errors.{GoError, message, wrap}
use primitive_box.Json.{RawMessage, absent}
use primitive_box.Control.{
  Goal, GoalStep, GoalStatus, GoalStepStatus, GoalDb, Database, goal_status_text,
}
use primitive_box.Control.Store.{get_goal, list_goal_steps}
use primitive_box.Orchestrator.{Task, TaskStatus, Step, StepStatus, StepResult}
use primitive_box.Orchestrator.Replay.{ReplayMode, ReplayEntry, replay, replay-get_elem?}

pub record GoalReplayEntry : Type 0 where
  pub seq : ℕ
  pub step_id : String
  pub primitive : String
  pub input : RawMessage
  pub output : RawMessage
  pub status : StepStatus
  pub checkpoint_id : String
  pub skipped : Bool

pub record GoalReplayResult : Type 0 where
  pub goal_id : String
  pub mode : ReplayMode
  pub entries : List GoalReplayEntry

pub data ReplayEnd : Type 0 where
  replayed : GoalReplayResult → ReplayEnd
  failed : GoError → ReplayEnd

unfoldable pub orchestrator_step_status_to_goal : StepStatus → GoalStepStatus
orchestrator_step_status_to_goal StepStatus.passed = GoalStepStatus.passed
orchestrator_step_status_to_goal StepStatus.failed = GoalStepStatus.failed
orchestrator_step_status_to_goal StepStatus.skipped = GoalStepStatus.skipped
orchestrator_step_status_to_goal StepStatus.rolled_back = GoalStepStatus.rolled_back
orchestrator_step_status_to_goal StepStatus.running = GoalStepStatus.running
orchestrator_step_status_to_goal StepStatus.pending = GoalStepStatus.pending

unfoldable pub goal_step_status_to_orchestrator : GoalStepStatus → StepStatus
goal_step_status_to_orchestrator GoalStepStatus.passed = StepStatus.passed
goal_step_status_to_orchestrator GoalStepStatus.failed = StepStatus.failed
goal_step_status_to_orchestrator GoalStepStatus.skipped = StepStatus.skipped
goal_step_status_to_orchestrator GoalStepStatus.rolled_back = StepStatus.rolled_back
goal_step_status_to_orchestrator GoalStepStatus.running = StepStatus.running
goal_step_status_to_orchestrator _ = StepStatus.pending

-- A step's status survives the way to the store and back, and a stored status the way to the engine
-- and back, but for a step that awaits its review, which comes back as pending.
pub status_round_trip :
    (s : StepStatus) (g : GoalStepStatus)
    → (goal_step_status_to_orchestrator (orchestrator_step_status_to_goal s) ≡ s)
      × ((orchestrator_step_status_to_goal (goal_step_status_to_orchestrator g) ≡ g)
          ⊎ ((g ≡ GoalStepStatus.awaiting_review)
              × (orchestrator_step_status_to_goal (goal_step_status_to_orchestrator g)
                  ≡ GoalStepStatus.pending)))
unfolding goal_step_status_to_orchestrator orchestrator_step_status_to_goal
status_round_trip s g = ground arith

-- The status's text, which the cast keeps: a task's own texts are in upper case.
unfoldable pub task_status : GoalStatus → TaskStatus
unfolding goal_status_text
task_status status = TaskStatus.other (goal_status_text status)

abbrev has_passed : GoalStepStatus → Bool
has_passed GoalStepStatus.passed = true
has_passed _ = false

abbrev stored_result : RawMessage → GoalStepStatus → Option StepResult
stored_result absent status = none
stored_result output status =
    some (record { success = has_passed status; output = output; error = none })

unfoldable pub task_step : GoalStep → Step
unfolding goal_step_status_to_orchestrator
task_step s = record {
  id = s.id;
  primitive = s.primitive;
  input = s.input;
  output = absent;
  result = stored_result s.output s.status;
  checkpoint_id = s.checkpoint_id;
  status = goal_step_status_to_orchestrator s.status;
  error = "";
  escalated = false;
}

unfoldable pub task_of : Goal → List GoalStep → Task
unfolding task_step
task_of g steps = record {
  id = g.id;
  description = g.description;
  sandbox_id = "";
  status = task_status g.status;
  steps = map task_step steps;
  retry_count = 0;
  max_retries = 0;
}

abbrev id_at : Option GoalStep → String
id_at none = ""
id_at (some s) = s.id

unfoldable pub goal_entry : List GoalStep → ReplayEntry → GoalReplayEntry
goal_entry steps e = record {
  seq = e.step_index;
  step_id =
      if ltb 0 e.step_index && leb e.step_index (length steps)
      then id_at (get_elem? steps (e.step_index - 1))
      else "";
  primitive = e.primitive;
  input = e.input;
  output = e.output;
  status = e.status;
  checkpoint_id = e.checkpoint_id;
  skipped = e.skipped;
}

unfoldable pub replay_result : String → ReplayMode → Goal → List GoalStep → GoalReplayResult
unfolding goal_entry
replay_result goal_id mode g steps = record {
  goal_id = goal_id;
  mode = mode;
  entries = map (goal_entry steps) (replay (some (task_of g steps)) mode);
}

replay_listed : String → ReplayMode → Goal → Option GoError × List GoalStep → ReplayEnd
unfolding replay_result
replay_listed goal_id mode g (some err, l) =
    failed (wrap ("list steps for goal " <> (goal_id <> ": ")) err)
replay_listed goal_id mode g (none, steps) = replayed (replay_result goal_id mode g steps)

replay_found : Database → String → ReplayMode → Option GoError × Option Goal → GoalDb → ReplayEnd
unfolding replay_listed
replay_found db goal_id mode (some err, x) g = failed (wrap ("get goal " <> (goal_id <> ": ")) err)
replay_found db goal_id mode (none, none) g =
    failed (message ("goal " <> (goal_id <> " not found")))
replay_found db goal_id mode (none, some goal) g =
    replay_listed goal_id mode goal (list_goal_steps db goal_id g)

unfoldable pub replay_goal : Database → String → ReplayMode → GoalDb → ReplayEnd
unfolding replay_found
replay_goal db goal_id mode g = replay_found db goal_id mode (get_goal db goal_id g) g

get_elem?-map :
    {A B : Type 0} (f : A → B) (xs : List A) (k : ℕ) {x : A}
    → get_elem? xs k ≡ some x
    → get_elem? (map f xs) k ≡ some (f x)
get_elem?-map f [] k at = absurd (ground arith)
get_elem?-map f (y ∷ ys) zero at = ground (arith, at)
get_elem?-map f (y ∷ ys) (suc k) at = get_elem?-map f ys k at

get_elem?-bound :
    {A : Type 0} (xs : List A) (k : ℕ) {x : A} → get_elem? xs k ≡ some x → k < length xs
get_elem?-bound [] k at = absurd (ground arith)
get_elem?-bound (y ∷ ys) zero at = omega arith
get_elem?-bound (y ∷ ys) (suc k) at = omega (arith, get_elem?-bound ys k at)

length-map : {A B : Type 0} (f : A → B) (xs : List A) → length (map f xs) ≡ length xs
length-map f [] = refl
length-map f (x ∷ xs) = ap suc (length-map f xs)

entry_step_id :
    (steps : List GoalStep) (e : ReplayEntry) (k : ℕ) (s : GoalStep)
    → get_elem? steps k ≡ some s
    → e.step_index ≡ k + 1
    → (goal_entry steps e).step_id ≡ s.id
unfolding goal_entry
entry_step_id steps e k s at index =
    let back : k + 1 - 1 ≡ k = omega arith in
    rw (index, back, at) (ground (arith, get_elem?-bound steps k at))

-- The replay of a goal, of which the goal and the steps could be read, has an entry for each step in
-- their order: the one at position k has number k + 1, and the id, the primitive, the checkpoint and
-- the engine's status of step k.
pub replay_goal-get_elem? :
    (db : Database) (goal_id : String) (mode : ReplayMode) (g : GoalDb) (goal : Goal)
    (steps : List GoalStep) (k : ℕ) (s : GoalStep)
    → get_goal db goal_id g ≡ (none, some goal)
    → list_goal_steps db goal_id g ≡ (none, steps)
    → get_elem? steps k ≡ some s
    → (r : GoalReplayResult) × (replay_goal db goal_id mode g ≡ replayed r)
      × (length r.entries ≡ length steps)
      × ((e : GoalReplayEntry) × (get_elem? r.entries k ≡ some e)
          × (e.seq ≡ k + 1)
          × (e.step_id ≡ s.id)
          × (e.primitive ≡ s.primitive)
          × (e.checkpoint_id ≡ s.checkpoint_id)
          × (e.status ≡ goal_step_status_to_orchestrator s.status))
unfolding replay_goal task_of task_step
replay_goal-get_elem? db goal_id mode g goal steps k s found listed at =
    let (len, (e, here, index, prim, status, checkpoint, skip)) =
      replay-get_elem? (task_of goal steps) mode k (task_step s)
        (get_elem?-map task_step steps k at) in
    let entry = goal_entry steps e in
    (
      replay_result goal_id mode goal steps,
      rw (found, listed) refl,
      length-map (goal_entry steps) (replay (some (task_of goal steps)) mode)
          ∙ (len ∙ length-map task_step steps),
      (
        goal_entry steps e,
        get_elem?-map (goal_entry steps) (replay (some (task_of goal steps)) mode) k here,
        index,
        entry_step_id steps e k s at index,
        prim,
        checkpoint,
        status,
      ),
    )
