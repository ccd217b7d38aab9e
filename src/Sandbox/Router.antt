-- ===== src/Sandbox/Router.antt =====
-- Router of internal/sandbox/router.go, and the executor of internal/goal/executor_adapter.go that
-- calls it. The built-in primitives and the sockets of the apps act on a world `W`; a call of a
-- socket is refused, breaks off, or is answered. Request numbers and time limits are left out.
pub mod Laws
use primitive_box.Prelude.{
  ℕ, String, ◌<>◌, Bool, true, false, not, ◌&&◌, Option, none, some, List, [], ◌∷◌, ◌=ₛ◌,
  if◌then◌else◌,
}
use primitive_box.Errors.{GoError, message, text}
use primitive_box.Json.{
  Json, boolean, object, field, end, member, RawMessage, absent, malformed, value,
}
use primitive_box.Apps.{AppPrimitiveManifest, is_unavailable, Result, ok, err, ◌>>=◌}
use primitive_box.Orchestrator.{StepResult, StepError}
use primitive_box.Orchestrator.FailureKind.{environment}

-- primitive.Result
pub record PrimitiveResult : Type 0 where
  pub value : Json
  pub diff : String
  pub warning : String

-- What comes of a request to a socket: no connection, an error on the way or in the decoding, an
-- error that the app gives, or its result.
pub data Reply : Type 0 where
  refused : String → Reply
  broken : GoError → Reply
  error_reply : String → Reply
  result_reply : RawMessage → Reply

-- What the router calls: the built-in primitives, the registry of the apps over its state, if one
-- was set, and the sockets.
pub record AppRegistry (S : Type 0) : Type 0 where
  pub get : String → S → Option AppPrimitiveManifest × Option GoError
  pub mark_unavailable : String → S → S

pub record Routing (S W : Type 0) : Type 0 where
  pub builtin : String → Option (RawMessage → W → Result PrimitiveResult × W)
  pub registry : Option (AppRegistry S)
  pub dial : String → String → RawMessage → W → Reply × W

abbrev pub or_object : RawMessage → RawMessage
or_object absent = value (object end)
or_object raw = raw

abbrev pub primitive_not_found : GoError
primitive_not_found = message "primitive not found"

abbrev pub app_primitive_unavailable_error : AppPrimitiveManifest → GoError
app_primitive_unavailable_error m = message ("adapter " <> m.app_id <> " is unavailable")

abbrev pub of_value : Json → PrimitiveResult
of_value j = record { value = j; diff = ""; warning = "" }

abbrev pub zero_result : PrimitiveResult
zero_result = of_value Json.null

-- A missing or null result is nil.
abbrev pub result_value : RawMessage → Result PrimitiveResult
result_value absent = ok zero_result
result_value (value j) = ok (of_value j)
result_value (malformed bytes) = err (message "invalid character in result")

abbrev pub passed_field : Option Json → Bool
passed_field (some (boolean b)) = b
passed_field _ = true

-- Only an explicit `false` is a failure.
unfoldable pub app_result_passed : Json → Bool
unfolding member
app_result_passed (object fs) = passed_field (member "passed" fs)
app_result_passed _ = true

unfoldable pub build_rollback_params : String → RawMessage → Json → Json → RawMessage
build_rollback_params method (malformed bytes) result verify = malformed bytes
build_rollback_params method absent result verify = value (
    object (
      field "primitive" (Json.text method)
        (field "params" (object end) (field "result" result (field "verify" verify end)))))
build_rollback_params method (value params) result verify = value (
    object (
      field "primitive" (Json.text method)
        (field "params" params (field "result" result (field "verify" verify end)))))

abbrev pub value_of : Result PrimitiveResult → Json
value_of (ok r) = r.value
value_of (err e) = Json.null

-- A verifying call that returned and did not say that it failed.
abbrev pub is_passed : Result PrimitiveResult → Bool
is_passed (ok r) = app_result_passed r.value
is_passed (err e) = false

abbrev pub verify_failure : AppPrimitiveManifest → Result PrimitiveResult → GoError
verify_failure m (err e) = message ("app_primitive_verify_error: " <> text e)
verify_failure m (ok r) =
    if m.rollback_endpoint =ₛ ""
    then message "app_primitive_verify_failed: state.restore alone does not recover app state"
    else message "app_primitive_verify_failed: verify failed"

abbrev pub mark : {S : Type 0} → Option (AppRegistry S) → String → S → S
mark none app s = s
mark (some reg) app s = reg.mark_unavailable app s

module _ {S W : Type 0} (r : Routing S W) where
  -- A refused connection marks the app as unavailable.
  unfoldable pub replied : AppPrimitiveManifest → Reply × W → S → Result PrimitiveResult × S × W
  replied m (refused cause, w) s =
      (err (app_primitive_unavailable_error m), mark r.registry m.app_id s, w)
  replied m (broken e, w) s = (err e, s, w)
  replied m (error_reply text, w) s = (err (message ("app_primitive_error: " <> text)), s, w)
  replied m (result_reply raw, w) s = (result_value raw, s, w)

  unfoldable pub call_app_socket :
      AppPrimitiveManifest → String → RawMessage → S → W → Result PrimitiveResult × S × W
  unfolding replied
  call_app_socket m method params s w =
      replied m (r.dial m.socket_path method (or_object params) w) s

  -- The rollback is asked for; its answer is not heeded.
  rolled_back : AppPrimitiveManifest → RawMessage → S → W → S × W
  unfolding call_app_socket
  rolled_back m params s w =
      let (answer, s', w') = call_app_socket m m.rollback_endpoint params s w in
      if m.rollback_endpoint =ₛ "" then (s, w) else (s', w')

  -- The verdict over a result, after the verifying call.
  unfoldable pub verified :
      AppPrimitiveManifest
      → String
      → RawMessage
      → PrimitiveResult
      → Result PrimitiveResult × S × W
      → Result PrimitiveResult × S × W
  unfolding rolled_back build_rollback_params
  verified m method params result (verdict, s, w) =
      let (s', w') =
        rolled_back m (build_rollback_params method params result.value (value_of verdict)) s w in
      if is_passed verdict then (ok result, s, w) else (err (verify_failure m verdict), s', w')

  unfoldable pub called :
      AppPrimitiveManifest
      → String
      → RawMessage
      → Result PrimitiveResult × S × W
      → Result PrimitiveResult × S × W
  unfolding verified call_app_socket
  called m method params (err e, s, w) = (err e, s, w)
  called m method params (ok result, s, w) =
      let checked =
        verified m method params result (call_app_socket m m.verify_endpoint params s w) in
      if m.verify_endpoint =ₛ "" then (ok result, s, w) else checked

  unfoldable pub route_app_primitive :
      AppPrimitiveManifest → String → RawMessage → S → W → Result PrimitiveResult × S × W
  unfolding called
  route_app_primitive m method params s w =
      called m method params (call_app_socket m method params s w)

  unfoldable pub route_found :
      Option AppPrimitiveManifest × Option GoError
      → String
      → RawMessage
      → S
      → W
      → Result PrimitiveResult × S × W
  unfolding route_app_primitive
  route_found (m, some e) method params s w = (err e, s, w)
  route_found (none, none) method params s w = (err primitive_not_found, s, w)
  route_found (some m, none) method params s w =
      let answered = route_app_primitive m method params s w in
      if is_unavailable m.availability
      then (err (app_primitive_unavailable_error m), s, w)
      else answered

  unfoldable pub route_registered :
      Option (AppRegistry S) → String → RawMessage → S → W → Result PrimitiveResult × S × W
  unfolding route_found
  route_registered none method params s w = (err primitive_not_found, s, w)
  route_registered (some reg) method params s w = route_found (reg.get method s) method params s w

  -- A built-in primitive comes first.
  abbrev pub built_in_or :
      Option (RawMessage → W → Result PrimitiveResult × W)
      → RawMessage
      → S
      → W
      → Result PrimitiveResult × S × W
      → Result PrimitiveResult × S × W
  built_in_or (some run) params s w app = let (result, w') = run params w in (result, s, w')
  built_in_or none params s w app = app

  unfoldable pub route : String → RawMessage → S → W → Result PrimitiveResult × S × W
  unfolding route_registered
  route method params s w =
      built_in_or (r.builtin method) params s w (route_registered r.registry method params s w)

-- RouterExecutorAdapter.Execute; `to_summary` is truncate(message, 200), which counts bytes.
unfoldable pub routed_step :
    (String → String) → Result PrimitiveResult → StepResult × Option GoError
routed_step to_summary (ok result) =
    (record { success = true; output = value result.value; error = none }, none)
routed_step to_summary (err e) = (
  record {
    success = false;
    output = absent;
    error = some (record {
      kind = environment;
      code = "ROUTE_ERROR";
      message = text e;
      summary = to_summary (text e);
    });
  },
  some e,
)

module _ {S W : Type 0} (r : Routing S W) (to_summary : String → String) where
  unfoldable pub execute : String → RawMessage → S → W → StepResult × Option GoError × S × W
  unfolding routed_step route
  execute method params s w =
      let (result, s', w') = route r method params s w in
      let (step, e) = routed_step to_summary result in (step, e, s', w')
