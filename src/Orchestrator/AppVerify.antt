-- ===== src/Orchestrator/AppVerify.antt =====
-- internal/orchestrator/app_verify.go: verification that an app primitive's manifest declares.
use primitive_box.Prelude.{
  String, ◌<>◌, ◌≡◌, ◌≢◌, ◌↔◌, refl, Bool, Bool-cases, inl, inr, true, false, ◌||◌, not, Option,
  none, some, List, [], ◌∷◌, ◌=ₛ◌, if◌then◌else◌, arith,
}
use primitive_box.Errors.{GoError, sentinel, Sentinel, deadline_exceeded}
use primitive_box.Errors
use primitive_box.Json.{
  Json, RawMessage, value, Fields, field, end, member, as_bool, as_string, as_strings,
}
use primitive_box.Cvr.{
  CheckpointManifest, StrategyResult, VerifyOutcome, RecoverHint, ExecuteResult, raw, payload,
  StrategyExecutor, VerifyStrategy, zero_strategy_result,
}
use primitive_box.Cvr.TestSuite.{unwrap_execute_data}
use primitive_box.Orchestrator.{AppPrimitiveVerify}

pub data Verdict : Type 0 where
  explicit : Bool → Verdict
  silent : Verdict

first_bool : List String → Fields → Verdict
unfolding member
first_bool [] fields = silent
first_bool (key ∷ keys) fields =
    let rest = first_bool keys fields in
    elim (member key fields) [
      | none ↦ rest
      | some j ↦ elim (as_bool j) [ none ↦ rest | some b ↦ explicit b ]
    ]

unfoldable pub verify_payload_passed : Fields → Verdict
unfolding first_bool
verify_payload_passed fields = first_bool ("passed" ∷ "ok" ∷ "consistent" ∷ []) fields

first_message : List String → Fields → Option String
unfolding member
first_message [] fields = none
first_message (key ∷ keys) fields =
    let rest = first_message keys fields in
    elim (member key fields) [
      | none ↦ rest
      | some j ↦ elim (as_string j) [ none ↦ rest | some s ↦ if s =ₛ "" then rest else some s ]
    ]

first_problem : Option Json → Option String
first_problem none = none
first_problem (some j) = elim (as_strings j) [
  | none ↦ none
  | some l ↦ elim l [ [] ↦ none | s ∷ rest ↦ some s ]
]

unfoldable pub verify_payload_message : Fields → String → String
unfolding first_message first_problem member
verify_payload_message fields fallback = elim (first_message ("summary" ∷ "message" ∷ []) fields) [
  | some m ↦ m
  | none ↦ elim (first_problem (member "problems" fields)) [ some p ↦ p | none ↦ fallback ]
]

-- `err == context.DeadlineExceeded` compares the error itself, not what it wraps.
abbrev pub is_deadline : GoError → Bool
is_deadline (sentinel deadline_exceeded) = true
is_deadline _ = false

abbrev pub hint_for : Option CheckpointManifest → RecoverHint
hint_for none = RecoverHint.escalate
hint_for (some m) = if m.intent.reversible then RecoverHint.rollback else RecoverHint.escalate

-- `explicit` and `passed` after the test of `verifyResult.Success`.
unfoldable pub verdict_of : ExecuteResult → Fields → Verdict
verdict_of r fields = if not r.success then explicit false else verify_payload_passed fields

failure_details : AppPrimitiveVerify → RawMessage
failure_details verify = value (
    Json.object (
      field "verify_method" (Json.text verify.primitive)
        (field "verify_strategy" (Json.text verify.strategy) end)))

unfoldable pub conclude_verdict :
    AppPrimitiveVerify → Option CheckpointManifest → Fields → Verdict → StrategyResult
unfolding failure_details
conclude_verdict verify manifest fields silent = record zero_strategy_result {
  outcome = VerifyOutcome.passed;
  message = "app verification passed";
}
conclude_verdict verify manifest fields (explicit true) = record zero_strategy_result {
  outcome = VerifyOutcome.passed;
  message = verify_payload_message fields "app verification passed";
}
conclude_verdict verify manifest fields (explicit false) = record {
  outcome = VerifyOutcome.failed;
  message = verify_payload_message fields "app verification failed";
  details = failure_details verify;
  recover_hint = hint_for manifest;
}

conclude_verdict-passed :
    (verify : AppPrimitiveVerify) (manifest : Option CheckpointManifest) (fields : Fields)
    (v : Verdict)
    → ((conclude_verdict verify manifest fields v).outcome ≡ VerifyOutcome.passed)
      ↔ (v ≢ explicit false)
unfolding conclude_verdict
conclude_verdict-passed verify manifest fields silent = ground arith
conclude_verdict-passed verify manifest fields (explicit true) = ground arith
conclude_verdict-passed verify manifest fields (explicit false) = ground arith

abbrev Accepts : ExecuteResult → Fields → Verdict → Type 0
Accepts r fields v = (if not r.success then explicit false else v) ≢ explicit false

Accepts-iff :
    (r : ExecuteResult) (fields : Fields) (v : Verdict)
    → Accepts r fields v ↔ ((r.success ≡ true) × (v ≢ explicit false))
Accepts-iff r fields v = elim (Bool-cases r.success) [
  | inl good ↦ rw good (ground arith)
  | inr bad ↦ rw bad (ground arith)
]

module _ {S : Type 0} (deadline_passed : S → Bool) where
  verify_error : Option CheckpointManifest → GoError → S → StrategyResult
  verify_error manifest e s =
      if is_deadline e || deadline_passed s
      then record zero_strategy_result {
        outcome = VerifyOutcome.timeout;
        message = Errors.text e;
        recover_hint = RecoverHint.retry;
      }
      else record zero_strategy_result {
        outcome = VerifyOutcome.failed;
        message = Errors.text e;
        recover_hint = hint_for manifest;
      }

  unfoldable pub app_judged :
      AppPrimitiveVerify
      → Option CheckpointManifest
      → ExecuteResult × Option GoError × S
      → StrategyResult × Option GoError × S
  unfolding verify_error conclude_verdict verdict_of unwrap_execute_data
  app_judged verify manifest (r, some e, s) = (verify_error manifest e s, none, s)
  app_judged verify manifest (r, none, s) =
      let fields = unwrap_execute_data r.fields in
      (conclude_verdict verify manifest fields (verdict_of r fields), none, s)

  command_params : String → Json
  command_params command = Json.object (field "command" (Json.text command) end)

  -- `Run`
  unfoldable pub run_declared :
      AppPrimitiveVerify
      → RawMessage
      → StrategyExecutor S
      → ExecuteResult
      → Option CheckpointManifest
      → S
      → StrategyResult × Option GoError × S
  unfolding app_judged command_params
  run_declared verify params exec result manifest s =
      if verify.strategy =ₛ "primitive"
      then app_judged verify manifest (exec.execute verify.primitive (raw params) s)
      else if verify.strategy =ₛ "command"
      then app_judged verify manifest
          (exec.execute "verify.command" (payload (command_params verify.command)) s)
      else (
        record zero_strategy_result {
          outcome = VerifyOutcome.error;
          message = "unsupported app verify strategy: " <> verify.strategy;
          recover_hint = RecoverHint.retry;
        },
        none,
        s,
      )

  unfoldable pub new_app_declared_verify_strategy :
      String → AppPrimitiveVerify → RawMessage → VerifyStrategy S
  unfolding run_declared
  new_app_declared_verify_strategy method verify params = record {
    name = "app_declared:" <> verify.strategy;
    description = "run app-declared " <> (verify.strategy <> (" verification for " <> method));
    run = run_declared verify params;
  }

  -- A declared verification judges the call of the verifying primitive or command without an error
  -- of its own, and it passes exactly if that call returned no error and reported success, and its
  -- data carry no negative verdict.
  pub app_judged-passed :
      (verify : AppPrimitiveVerify) (manifest : Option CheckpointManifest)
      (out : ExecuteResult × Option GoError × S)
      → ((app_judged verify manifest out).1 ≡ none)
        × (((app_judged verify manifest out).0.outcome ≡ VerifyOutcome.passed) ↔ (
            (out.1 ≡ none)
            × (out.0.success ≡ true)
            × (verify_payload_passed (unwrap_execute_data out.0.fields) ≢ explicit false)))
  unfolding app_judged verify_error verdict_of
  app_judged-passed verify manifest (r, none, s) =
      let fields = unwrap_execute_data r.fields in
      let (onto, back) = conclude_verdict-passed verify manifest fields (verdict_of r fields) in
      let (split, join) = Accepts-iff r fields (verify_payload_passed fields) in
      (refl, ((λ h. (refl, (split (onto h)).0, (split (onto h)).1)), (λ h. back (join (h.1, h.2)))))
  app_judged-passed verify manifest (r, some e, s) = ground arith
