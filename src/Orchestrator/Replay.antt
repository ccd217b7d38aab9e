-- ===== src/Orchestrator/Replay.antt =====
-- internal/orchestrator/replay.go: the replay trace of a task. What `PrintReplay` prints is not
-- modelled.
use primitive_box.Prelude.{
  ℕ, zero, suc, ◌+◌, String, ◌≡◌, ◌↔◌, refl, ap, Bool, true, false, ◌&&◌, Option, none, some, List,
  [], ◌∷◌, length, get_elem?, arith,
}
use native.Mathlib.Nat.{add-zero, zero-add}
use primitive_box.Json.{RawMessage, absent, malformed, value, null}
use primitive_box.Orchestrator.{Task, Step, StepStatus, passed, StepResult}

pub data ReplayMode : Type 0 where
  step_by_step skip_passed full : ReplayMode

pub record ReplayEntry : Type 0 where
  pub step_index : ℕ
  pub primitive : String
  pub input : RawMessage
  pub output : RawMessage
  pub status : StepStatus
  pub checkpoint_id : String
  pub error : String
  pub skipped : Bool

-- `json.Marshal` of a RawMessage: nil is `null`, and bytes that are no JSON are an error, upon
-- which the code leaves the output nil.
unfoldable pub marshal_raw : RawMessage → RawMessage
marshal_raw absent = value null
marshal_raw (malformed s) = absent
marshal_raw (value j) = value j

unfoldable pub output_of : Option StepResult → RawMessage
unfolding marshal_raw
output_of none = absent
output_of (some r) = marshal_raw r.output

abbrev pub is_skip_passed : ReplayMode → Bool
is_skip_passed skip_passed = true
is_skip_passed _ = false

abbrev pub is_passed : StepStatus → Bool
is_passed passed = true
is_passed _ = false

unfoldable pub entry_of : ReplayMode → ℕ → Step → ReplayEntry
unfolding output_of
entry_of mode i step = record {
  step_index = i + 1;
  primitive = step.primitive;
  input = step.input;
  output = output_of step.result;
  status = step.status;
  checkpoint_id = step.checkpoint_id;
  error = step.error;
  skipped = is_skip_passed mode && is_passed step.status;
}

-- The loop, from index `i`.
replay_from : ReplayMode → ℕ → List Step → List ReplayEntry
unfolding entry_of
replay_from mode i [] = []
replay_from mode i (step ∷ steps) = entry_of mode i step ∷ replay_from mode (i + 1) steps

-- A nil task has the nil trace.
unfoldable pub replay : Option Task → ReplayMode → List ReplayEntry
unfolding replay_from
replay none mode = []
replay (some task) mode = replay_from mode 0 task.steps

replay_from-length :
    (mode : ReplayMode) (i : ℕ) (steps : List Step)
    → length (replay_from mode i steps) ≡ length steps
unfolding replay_from
replay_from-length mode i [] = refl
replay_from-length mode i (s ∷ steps) = ap suc (replay_from-length mode (i + 1) steps)

abbrev map_entry : ReplayMode → ℕ → Option Step → Option ReplayEntry
map_entry mode i none = none
map_entry mode i (some s) = some (entry_of mode i s)

replay_from-get_elem? :
    (mode : ReplayMode) (i k : ℕ) (steps : List Step)
    → get_elem? (replay_from mode i steps) k ≡ map_entry mode (i + k) (get_elem? steps k)
unfolding replay_from
replay_from-get_elem? mode i k [] = refl
replay_from-get_elem? mode i zero (s ∷ steps) = rw add-zero
replay_from-get_elem? mode i (suc k) (s ∷ steps) =
    let same : i + suc k ≡ i + 1 + k = omega arith in
    rw same (replay_from-get_elem? mode (i + 1) k steps)

-- A replay has one entry for each step, in order: where step k is s, the entry at position k
-- carries the index k + 1 and the primitive, status and checkpoint of s, and it is skipped exactly
-- if the mode skips what passed and s passed.
pub replay-get_elem? :
    (task : Task) (mode : ReplayMode) (k : ℕ) (s : Step)
    → get_elem? task.steps k ≡ some s
    → (length (replay (some task) mode) ≡ length task.steps)
      × ((e : ReplayEntry) × (get_elem? (replay (some task) mode) k ≡ some e)
          × (e.step_index ≡ k + 1)
          × (e.primitive ≡ s.primitive)
          × (e.status ≡ s.status)
          × (e.checkpoint_id ≡ s.checkpoint_id)
          × ((e.skipped ≡ true) ↔ ((mode ≡ ReplayMode.skip_passed) × (s.status ≡ passed))))
unfolding replay entry_of
replay-get_elem? task mode k s at =
    let here : get_elem? (replay_from mode 0 task.steps) k ≡ some (entry_of mode k s) =
      rw (replay_from-get_elem? mode 0 k task.steps, at) (rw zero-add) in
    (
      replay_from-length mode 0 task.steps,
      (entry_of mode k s, here, refl, refl, refl, refl, ground arith),
    )
