-- ===== src/Tests/Routes.antt =====
-- The router over the registry in memory, with one app that answers and one that is gone.
use primitive_box.Prelude.{String, ◌≡◌, refl, true, none, some, List, [], ◌∷◌, ◌=ₛ◌, if◌then◌else◌}
use primitive_box.Json.{boolean, object, field, end, RawMessage, absent, value}
use primitive_box.Cvr.IntentCategory.{mutation}
use primitive_box.Cvr.RiskLevel.{low}
use primitive_box.Apps.{AppPrimitiveManifest, active, ok, err}
use primitive_box.Apps.Contract.Rows.{lookup}
use primitive_box.Apps.Memory.{get_in_memory}
use primitive_box.Sandbox.Router.{
  refused, result_reply, Routing, of_value, app_primitive_unavailable_error, call_app_socket,
  app_result_passed, route,
}
use primitive_box.Sandbox.Router.Laws.{memory_registry, IsFound, route-IsFound, refused-unavailable}

abbrev manifest : String → String → String → AppPrimitiveManifest
manifest app name socket = record {
  app_id = app;
  name = name;
  description = "";
  input_schema = value (object end);
  output_schema = value (object end);
  ui_layout_hint = "";
  socket_path = socket;
  availability = active;
  verify_endpoint = "kv.check";
  verify = some (record { strategy = "primitive"; primitive = "kv.check"; command = "" });
  rollback_endpoint = "";
  rollback = none;
  intent = record {
    category = mutation;
    reversible = true;
    risk_level = low;
    affected_scopes = [];
  };
}

abbrev kv_set : AppPrimitiveManifest
kv_set = manifest "kv" "kv.set" "/tmp/kv.sock"

abbrev gone_set : AppPrimitiveManifest
gone_set = manifest "gone" "gone.set" "/tmp/gone.sock"

abbrev gone_get : AppPrimitiveManifest
gone_get = manifest "gone" "gone.get" "/tmp/gone.sock"

abbrev rows : List AppPrimitiveManifest
rows = kv_set ∷ gone_set ∷ gone_get ∷ []

abbrev answer : RawMessage
answer = value (object (field "passed" (boolean true) end))

-- The world is the list of the methods that reached an app.
abbrev routing : Routing (List AppPrimitiveManifest) (List String)
routing = record {
  builtin = λ name. none;
  registry = some memory_registry;
  dial = λ path method params w.
      if path =ₛ "/tmp/kv.sock" then (result_reply answer, method ∷ w) else (refused "gone", w);
}

served :
    route routing "kv.set" absent rows []
    ≡ (ok (of_value (object (field "passed" (boolean true) end))), rows, "kv.check" ∷ "kv.set" ∷ [])
unfolding route app_result_passed lookup get_in_memory
served = refl

route-IsFound_example :
    IsFound routing "kv.set" absent (of_value (object (field "passed" (boolean true) end))) rows []
route-IsFound_example =
    route-IsFound routing "kv.set" absent (of_value (object (field "passed" (boolean true) end)))
      rows rows [] ("kv.check" ∷ "kv.set" ∷ []) refl served

gone_there : lookup "gone.get" rows ≡ some gone_get
unfolding lookup
gone_there = refl

refused-unavailable_example :
    let lost = call_app_socket routing gone_set "gone.set" absent rows [] in
    route routing "gone.get" absent lost.1 lost.2
    ≡ (err (app_primitive_unavailable_error gone_get), lost.1, lost.2)
refused-unavailable_example =
    refused-unavailable routing gone_set gone_get "gone.set" "gone.get" "gone" absent absent rows []
      [] refl refl gone_there refl refl
