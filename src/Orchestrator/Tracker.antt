-- ===== src/Orchestrator/Tracker.antt =====
-- internal/orchestrator/state.go: the map of tracked tasks. The order in which `ListTasks` returns
-- them is that of Go's map iteration, which is not modelled.
use primitive_box.Prelude.{
  String, ◌≡◌, refl, Option, none, some, List, [], ◌∷◌, map, ◌=ₛ◌, eq_iff, if◌then◌else◌, arith,
}
use primitive_box.Orchestrator.{Task, Step, StepStatus}

abbrev pub StateTracker : Type 0
StateTracker = List (String × Task)

pub record StepRecord : Type 0 where
  pub step_id : String
  pub primitive : String
  pub status : StepStatus
  pub checkpoint_id : String
  pub error : String

insert_task : String → Task → StateTracker → StateTracker
insert_task id task [] = (id, task) ∷ []
insert_task id task ((j, t) ∷ rest) =
    if j =ₛ id then (id, task) ∷ rest else (j, t) ∷ insert_task id task rest

unfoldable pub track_task : StateTracker → Task → StateTracker
unfolding insert_task
track_task st task = insert_task task.id task st

unfoldable pub get_task : StateTracker → String → Option Task
get_task [] id = none
get_task ((j, t) ∷ rest) id = if j =ₛ id then some t else get_task rest id

unfoldable pub list_tasks : StateTracker → List Task
list_tasks st = map (λ entry. entry.1) st

unfoldable pub step_record : Step → StepRecord
step_record step = record {
  step_id = step.id;
  primitive = step.primitive;
  status = step.status;
  checkpoint_id = step.checkpoint_id;
  error = step.error;
}

-- A missing task has the nil history.
unfoldable pub get_task_history : StateTracker → String → List StepRecord
unfolding get_task step_record
get_task_history st id = elim (get_task st id) [
  | none ↦ []
  | some task ↦ map step_record task.steps
]

insert_task-get :
    (st : StateTracker) (id j : String) (task : Task)
    → get_task (insert_task id task st) j ≡ (if id =ₛ j then some task else get_task st j)
unfolding insert_task get_task
insert_task-get [] id j task = refl
insert_task-get ((i, t) ∷ rest) id j task =
    ground (arith, eq_iff id j, eq_iff i id, eq_iff i j, insert_task-get rest id j task)

-- After a task is tracked, its id gives that task, and every other id what it gave before.
pub get_task-track_task :
    (st : StateTracker) (task : Task) (j : String)
    → get_task (track_task st task) j ≡ (if task.id =ₛ j then some task else get_task st j)
unfolding track_task
get_task-track_task st task j = insert_task-get st task.id j task
