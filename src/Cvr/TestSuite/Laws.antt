-- ===== src/Cvr/TestSuite/Laws.antt =====
-- What the test suite strategy accepts.
use primitive_box.Prelude.{◌≡◌, ◌⊎◌, ◌↔◌, refl, arith, true, false, Option, none, some}
use primitive_box.Errors.{GoError}
use primitive_box.Json.{Fields, member}
use primitive_box.Cvr.{CheckpointManifest, VerifyOutcome, ExecuteResult, payload, StrategyExecutor}
use primitive_box.Cvr.TestSuite.{
  TestSuiteStrategy, unwrap_execute_data, raw_bool, raw_int, below_int, judge, judged, run_suite,
  suite_params,
}

judge-passed :
    (t : TestSuiteStrategy) (manifest : Option CheckpointManifest) (fields : Fields)
    → ((judge t manifest fields).outcome ≡ VerifyOutcome.passed) ↔ (
        (raw_bool (member "passed" fields) ≡ true)
        × ((t.min_tests ≡ 0) ⊎ (below_int (raw_int (member "total" fields)) t.min_tests ≡ false)))
unfolding judge
judge-passed t manifest fields = ground arith

module _ {S : Type 0} where
  judged-passed :
      (t : TestSuiteStrategy) (manifest : Option CheckpointManifest)
      (called : ExecuteResult × Option GoError × S)
      → let fields = unwrap_execute_data called.0.fields in
        let out = judged t manifest called in
        (out.1 ≡ called.1)
        × ((out.0.outcome ≡ VerifyOutcome.passed) ↔ (
            (called.1 ≡ none)
            × (raw_bool (member "passed" fields) ≡ true)
            × ((t.min_tests ≡ 0)
                ⊎ (below_int (raw_int (member "total" fields)) t.min_tests ≡ false))))
  unfolding judged
  judged-passed t manifest (r, some e, s) = ground arith
  judged-passed t manifest (r, none, s) =
      let (onto, back) = judge-passed t manifest (unwrap_execute_data r.fields) in
      (refl, ((λ h. (refl, (onto h).0, (onto h).1)), (λ h. back (h.1, h.2))))

  -- The test suite strategy passes exactly if the call of verify.test returned no error, and its
  -- data say that the suite passed and, where a least number of tests is set, name at least that
  -- many; an error of the call is returned.
  pub run_suite-passed :
      (t : TestSuiteStrategy) (exec : StrategyExecutor S) (result : ExecuteResult)
      (manifest : Option CheckpointManifest) (s : S)
      → let called = exec.execute "verify.test" (payload (suite_params t)) s in
        let fields = unwrap_execute_data called.0.fields in
        let out = run_suite t exec result manifest s in
        (out.1 ≡ called.1)
        × ((out.0.outcome ≡ VerifyOutcome.passed) ↔ (
            (called.1 ≡ none)
            × (raw_bool (member "passed" fields) ≡ true)
            × ((t.min_tests ≡ 0)
                ⊎ (below_int (raw_int (member "total" fields)) t.min_tests ≡ false))))
  unfolding run_suite
  run_suite-passed t exec result manifest s =
      judged-passed t manifest (exec.execute "verify.test" (payload (suite_params t)) s)
