-- ===== src/Cvr/TestSuite.antt =====
-- internal/cvr/strategy_test_suite.go: verification by running a test suite.
pub mod Laws
use Prim.Native.Nat.{ℕ, zero, suc, ◌^◌}
use primitive_box.Prelude.{
  String, Bool, true, false, ◌&&◌, not, Option, none, some, List, [], ◌∷◌, ltb, leb, if◌then◌else◌,
}
use primitive_box.Errors.{GoError}
use primitive_box.Json.{
  Json, number, negative, null, Items, nil, cons, value, Fields, field, end, is_empty, member,
  as_bool, as_string, as_map,
}
use primitive_box.Cvr.{
  CheckpointManifest, StrategyResult, VerifyOutcome, RecoverHint, ExecuteResult, payload,
  StrategyExecutor, VerifyStrategy, zero_strategy_result,
}

-- `min_tests` and `timeout_sec` are ints of which only the positive values count.
pub record TestSuiteStrategy : Type 0 where
  pub min_tests : ℕ
  pub command : String
  pub filter : String
  pub timeout_sec : ℕ

abbrev nested_map : Option Json → Fields → Fields
nested_map none data_fields = data_fields
nested_map (some nested) data_fields = elim (as_map nested) [
  | none ↦ data_fields
  | some unwrapped ↦ unwrapped
]

-- `unwrapExecuteData`, and `unwrapVerifyPayload` of internal/orchestrator, which is the same code.
unfoldable pub unwrap_execute_data : Fields → Fields
unfolding member
unwrap_execute_data fields =
    if is_empty fields then end else nested_map (member "result" fields) fields

unfoldable pub raw_bool : Option Json → Bool
raw_bool none = false
raw_bool (some j) = elim (as_bool j) [ none ↦ false | some b ↦ b ]

-- An int: n, or -(n + 1).
pub data ℤ : Type 0 where
  pos : ℕ → ℤ
  negsuc : ℕ → ℤ

minus : ℕ → ℤ
minus zero = pos 0
minus (suc n) = negsuc n

-- What does not fit an int64 is an error that `rawInt` ignores, and the value stays 0.
unfoldable pub raw_int : Option Json → ℤ
unfolding minus
raw_int (some (number n)) = if ltb n (2 ^ 63) then pos n else pos 0
raw_int (some (negative n)) = if leb n (2 ^ 63) then minus n else pos 0
raw_int _ = pos 0

-- `value < m`
abbrev pub below_int : ℤ → ℕ → Bool
below_int (pos n) m = ltb n m
below_int (negsuc n) m = true

-- The error of an element that is no string is ignored, and the element stays empty.
lenient_items : Items → List String
lenient_items nil = []
lenient_items (cons j rest) = elim (as_string j) [
  | none ↦ "" ∷ lenient_items rest
  | some s ↦ s ∷ lenient_items rest
]

-- `none` is the nil slice.
unfoldable pub raw_string_slice : Option Json → Option (List String)
unfolding lenient_items
raw_string_slice (some (Json.array items)) = some (lenient_items items)
raw_string_slice _ = none

string_items : List String → Items
string_items [] = nil
string_items (s ∷ l) = cons (Json.text s) (string_items l)

-- A nil slice is marshalled as null.
string_array : Option (List String) → Json
unfolding string_items
string_array none = null
string_array (some l) = Json.array (string_items l)

abbrev reversible : Option CheckpointManifest → Bool
reversible none = false
reversible (some m) = m.intent.reversible

-- The judgement that `Run` makes of the data of `verify.test`.
unfoldable pub judge : TestSuiteStrategy → Option CheckpointManifest → Fields → StrategyResult
unfolding raw_bool raw_int raw_string_slice string_array member
judge s manifest fields =
    if ltb 0 s.min_tests && below_int (raw_int (member "total" fields)) s.min_tests
    then record zero_strategy_result {
      outcome = VerifyOutcome.failed;
      message = "test suite too small";
      recover_hint = RecoverHint.escalate;
    }
    else if not (raw_bool (member "passed" fields))
    then record zero_strategy_result {
      outcome = VerifyOutcome.failed;
      message = "test suite failed";
      details = value (
          Json.object
            (field "failures" (string_array (raw_string_slice (member "failures" fields))) end));
      recover_hint = if reversible manifest then RecoverHint.rollback else RecoverHint.escalate;
    }
    else record zero_strategy_result {
      outcome = VerifyOutcome.passed;
      message = "test suite passed";
    }

unfoldable pub suite_params : TestSuiteStrategy → Json
suite_params s = Json.object (
    field "command" (Json.text s.command) (
      field "filter" (Json.text s.filter)
        (field "timeout_s" (number (if leb s.timeout_sec 0 then 60 else s.timeout_sec)) end)))

module _ {S : Type 0} where
  judged :
      TestSuiteStrategy
      → Option CheckpointManifest
      → ExecuteResult × Option GoError × S
      → StrategyResult × Option GoError × S
  unfolding judge unwrap_execute_data
  judged t manifest (r, some e, s) = (zero_strategy_result, some e, s)
  judged t manifest (r, none, s) = (judge t manifest (unwrap_execute_data r.fields), none, s)

  unfoldable pub run_suite :
      TestSuiteStrategy
      → StrategyExecutor S
      → ExecuteResult
      → Option CheckpointManifest
      → S
      → StrategyResult × Option GoError × S
  unfolding judged suite_params
  run_suite t exec result manifest s =
      judged t manifest (exec.execute "verify.test" (payload (suite_params t)) s)

  unfoldable pub test_suite_strategy : TestSuiteStrategy → VerifyStrategy S
  unfolding run_suite
  test_suite_strategy t = record {
    name = "test_suite";
    description = "run test suite and verify all pass";
    run = run_suite t;
  }
