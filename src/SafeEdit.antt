-- ===== src/SafeEdit.antt =====
-- macro.safe_edit of internal/primitive/macro.go, which makes a checkpoint, writes a file, runs the
-- tests and restores the checkpoint if they fail. Test output is bytes.
pub mod Laws
use primitive_box.Prelude.{
  ℕ, String, ◌<>◌, Bool, true, false, not, ◌&&◌, Option, none, some, List, [], ◌∷◌, ◌++◌, length,
  take, leb, ◌=ₛ◌, if◌then◌else◌, codes,
}
use primitive_box.Errors.{GoError, message, wrap, text}
use primitive_box.Apps.{Result, ok, err}
use primitive_box.Apps.Schema.{or_else, refuse_if}

pub record EditParams : Type 0 where
  pub path : String
  pub content : String
  pub mode : String
  pub search : String
  pub replace : String
  pub test_command : String
  pub checkpoint_label : String

-- What fs.write is given beside a path and a mode.
pub data Edit : Type 0 where
  search_replace : String → String → Edit
  overwrite : String → Edit

pub record Written : Type 0 where
  pub diff : String
  pub data_diff : Option String

pub record VerifyTestResult : Type 0 where
  pub passed : Bool
  pub output : List ℕ

-- `diff` and `error` are the keys that not every answer has.
pub record Report : Type 0 where
  pub passed : Bool
  pub rolled_back : Bool
  pub checkpoint_id : String
  pub test_output : List ℕ
  pub diff : Option String
  pub error : Option String

-- The four primitives over the state `W` of the workspace, where data of another type than the one
-- expected are nil, and the bytes of a string.
pub record EditSteps (W : Type 0) : Type 0 where
  pub checkpoint : String → W → Result (Option String) × W
  pub write : String → String → Edit → W → Result Written × W
  pub verify : String → W → Result (Option VerifyTestResult) × W
  pub restore : String → W → Option GoError × W
  pub bytes : String → List ℕ

unfoldable pub truncate : List ℕ → ℕ → List ℕ
truncate s max_len = if leb (length s) max_len then s else take max_len s ++ (46 ∷ 46 ∷ 46 ∷ [])

abbrev pub label_of : EditParams → String
label_of p = if p.checkpoint_label =ₛ "" then "macro.safe_edit" else p.checkpoint_label

abbrev pub edit_of : EditParams → Edit
edit_of p =
    if p.mode =ₛ "search_replace" then search_replace p.search p.replace else overwrite p.content

abbrev pub or_no_id : Option String → String
or_no_id none = ""
or_no_id (some id) = id

abbrev pub diff_of : Written → String
diff_of r = if r.diff =ₛ "" then or_no_id r.data_diff else r.diff

abbrev pub passed_of : Result (Option VerifyTestResult) → Bool
passed_of (err e) = false
passed_of (ok none) = false
passed_of (ok (some d)) = d.passed

abbrev edit_fault : EditParams → Option GoError
edit_fault p =
    or_else (refuse_if (p.path =ₛ "") (message "path is required"))
      (refuse_if (p.test_command =ₛ "") (message "test_command is required"))

module _ {W : Type 0} (steps : EditSteps W) where
  abbrev output_of : Result (Option VerifyTestResult) → List ℕ
  output_of (err e) = steps.bytes (text e)
  output_of (ok none) = []
  output_of (ok (some d)) = d.output

  abbrev pub was_restored : Option GoError × W → Bool × W
  was_restored (none, w) = (true, w)
  was_restored (some e, w) = (false, w)

  abbrev pub restored : Bool → String → W → Bool × W
  restored false id w = (false, w)
  restored true id w = was_restored (steps.restore id w)

  unfoldable pub judged : String → String → Result (Option VerifyTestResult) × W → Report × W
  unfolding truncate
  judged id diff (r, w) =
      let behind = restored (not (passed_of r) && not (id =ₛ "")) id w in
      (
        record {
          passed = passed_of r;
          rolled_back = behind.0;
          checkpoint_id = id;
          test_output = truncate (output_of r) 4000;
          diff = some diff;
          error = none;
        },
        behind.1,
      )

  abbrev pub unwritten : String → GoError → Report
  unwritten id e = record {
    passed = false;
    rolled_back = false;
    checkpoint_id = id;
    test_output = [];
    diff = none;
    error = some (text e);
  }

  unfoldable pub written : EditParams → String → Result Written × W → Result Report × W
  unfolding judged
  written p id (err e, w) = (ok (unwritten id e), w)
  written p id (ok r, w) =
      let end = judged id (diff_of r) (steps.verify p.test_command w) in (ok end.0, end.1)

  unfoldable pub checkpointed : EditParams → Result (Option String) × W → Result Report × W
  unfolding written
  checkpointed p (err e, w) = (err (wrap "checkpoint failed: " e), w)
  checkpointed p (ok id, w) = written p (or_no_id id) (steps.write p.path p.mode (edit_of p) w)

  unfoldable pub checked_edit : Option GoError → EditParams → W → Result Report × W
  unfolding checkpointed
  checked_edit (some e) p w = (err e, w)
  checked_edit none p w = checkpointed p (steps.checkpoint (label_of p) w)

  -- The parameters are what their JSON decodes to.
  unfoldable pub safe_edit : Result EditParams → W → Result Report × W
  unfolding checked_edit
  safe_edit (err e) w = (err (message ("invalid params: " <> text e)), w)
  safe_edit (ok p) w = checked_edit (edit_fault p) p w
