-- ===== src/Tests/Edits.antt =====
-- An edit whose tests fail, over a workspace that notes what is done to it.
use primitive_box.Prelude.{String, ◌≡◌, refl, true, false, none, some, List, [], ◌∷◌, codes}
use primitive_box.Errors.{message}
use primitive_box.Apps.{ok, err}
use primitive_box.SafeEdit.{EditParams, Report, EditSteps, safe_edit}
use primitive_box.SafeEdit.Laws.{IsAnswered, safe_edit-IsAnswered}

abbrev workspace : EditSteps (List String)
workspace = record {
  checkpoint = λ label w. (ok (some "c1"), label ∷ w);
  write = λ path mode edit w. (ok (record { diff = "+x"; data_diff = none }), path ∷ w);
  verify = λ command w. (ok (some (record { passed = false; output = 70 ∷ [] })), command ∷ w);
  restore = λ id w. (none, id ∷ w);
  bytes = codes;
}

abbrev params : EditParams
params = record {
  path = "a.go";
  content = "x";
  mode = "";
  search = "";
  replace = "";
  test_command = "go test";
  checkpoint_label = "";
}

abbrev undone : Report
undone = record {
  passed = false;
  rolled_back = true;
  checkpoint_id = "c1";
  test_output = 70 ∷ [];
  diff = some "+x";
  error = none;
}

abbrev after : List String
after = "c1" ∷ "go test" ∷ "a.go" ∷ "macro.safe_edit" ∷ []

is_undone : safe_edit workspace (ok params) [] ≡ (ok undone, after)
unfolding safe_edit
is_undone = refl

no_path :
    (safe_edit workspace (ok (record params { path = "" })) []).0 ≡ err (message "path is required")
unfolding safe_edit
no_path = refl

safe_edit-IsAnswered_example : IsAnswered workspace params [] undone after
safe_edit-IsAnswered_example = safe_edit-IsAnswered workspace params [] undone after is_undone
