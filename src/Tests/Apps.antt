-- ===== src/Tests/Apps.antt =====
-- Two apps and their primitives in both registries.
use primitive_box.Prelude.{
  String, ◌≡◌, refl, true, none, some, List, [], ◌∷◌, subst, trim_right, trim_left, is_space,
  kept_before, to_lower, quote,
}
use primitive_box.Errors.{message}
use primitive_box.Json.{absent, value, object, end}
use primitive_box.Cvr.IntentCategory.{mutation}
use primitive_box.Cvr.RiskLevel.{low}
use primitive_box.Apps.{AppPrimitiveManifest, active, unset, ok, err}
use primitive_box.Apps.Schema.{Decoder}
use primitive_box.Apps.Normalize.{
  normalize_app_primitive_manifest, normalize_ui_layout_hint, normalize_app_primitive_availability,
}
use primitive_box.Apps.Normalize.Laws.{
  Normalizes, normalize_app_primitive_manifest-IsNormal, IsNormal-normalize,
}
use primitive_box.Apps.Contract.{Operation, register, unregister, mark_unavailable}
use primitive_box.Apps.Contract.Rows.{lookup, Distinct}
use primitive_box.Apps.Contract.Laws.{Kept, OwnerAfter}
use primitive_box.Apps.Memory.{memory_step}
use primitive_box.Apps.Sqlite.{AppDb, AppDatabase, adapter_registered, sqlite_step}
use primitive_box.Apps.Sqlite.Views.{view}
use primitive_box.Apps.Sqlite.Refine.{Refines, sqlite_step-Refines}
use primitive_box.Apps.Sqlite.Owners.{
  Reachable, start, stepped, Reachable-Kept, sqlite_step-OwnerAfter,
}
use primitive_box.Apps.Sqlite.Agree.{AllTame, run_sqlite, run_memory, registries_agree}

abbrev decoder : Decoder
decoder = record { decode = λ s. none; syntax_error = message }

abbrev answering : AppDatabase
answering = record { fault = λ s st. none }

abbrev failing : AppDatabase
failing = record { fault = λ s st. some (message "disk full") }

abbrev manifest : String → String → AppPrimitiveManifest
manifest app name = record {
  app_id = app;
  name = name;
  description = "";
  input_schema = absent;
  output_schema = absent;
  ui_layout_hint = "";
  socket_path = "/tmp/app.sock";
  availability = unset;
  verify_endpoint = " kv.check ";
  verify = none;
  rollback_endpoint = "";
  rollback = none;
  intent = record {
    category = mutation;
    reversible = true;
    risk_level = low;
    affected_scopes = [];
  };
}

abbrev normal : String → String → AppPrimitiveManifest
normal app name = record (manifest app name) {
  input_schema = value (object end);
  output_schema = value (object end);
  availability = active;
  verify_endpoint = "kv.check";
  verify = some (record { strategy = "primitive"; primitive = "kv.check"; command = "" });
}

normalized :
    normalize_app_primitive_manifest decoder (manifest "kv" "kv.set") ≡ ok (normal "kv" "kv.set")
unfolding normalize_app_primitive_manifest trim_right trim_left is_space kept_before to_lower
normalized = refl

normalize_app_primitive_manifest-IsNormal_example :
    Normalizes (manifest "kv" "kv.set") (normal "kv" "kv.set")
normalize_app_primitive_manifest-IsNormal_example =
    normalize_app_primitive_manifest-IsNormal decoder (manifest "kv" "kv.set")
      (normal "kv" "kv.set") normalized

IsNormal-normalize_example :
    normalize_app_primitive_manifest decoder (normal "kv" "kv.set")
    ≡ ok (record (normal "kv" "kv.set") {
      ui_layout_hint = normalize_ui_layout_hint "";
      availability = normalize_app_primitive_availability active;
    })
IsNormal-normalize_example =
    IsNormal-normalize decoder (normal "kv" "kv.set")
      normalize_app_primitive_manifest-IsNormal_example.0

reserved :
    normalize_app_primitive_manifest decoder (manifest "kv" "fs.read")
    ≡ err (
        message
          "app_primitive_reserved_namespace: \"fs.read\" uses reserved system namespace \"fs.\"")
unfolding normalize_app_primitive_manifest trim_right trim_left is_space kept_before to_lower quote
reserved = refl

abbrev empty_db : AppDb
empty_db = record { rows = []; events = [] }

abbrev held : AppDb
held = record {
  rows = normal "kv" "kv.set" ∷ [];
  events = adapter_registered (normal "kv" "kv.set") ∷ [];
}

held_after :
    sqlite_step answering decoder (register (manifest "kv" "kv.set")) empty_db ≡ (none, held)
unfolding sqlite_step trim_right trim_left is_space kept_before to_lower
held_after = refl

sqlite_step-Refines_example :
    Refines failing decoder
      (mark_unavailable "kv")
      held
      (sqlite_step failing decoder (mark_unavailable "kv") held)
sqlite_step-Refines_example =
    sqlite_step-Refines failing decoder (mark_unavailable "kv") held (tt, tt)

held_reached : Reachable answering decoder held
held_reached =
    subst (λ r. Reachable answering decoder r.1) held_after
      (stepped (start []) (register (manifest "kv" "kv.set")))

held_there : lookup "kv.set" held.rows ≡ some (normal "kv" "kv.set")
unfolding lookup
held_there = refl

Reachable-Kept_example : Distinct held.rows × Kept "kv.set" (normal "kv" "kv.set")
Reachable-Kept_example =
    Reachable-Kept answering decoder held held_reached "kv.set" (normal "kv" "kv.set") held_there

sqlite_step-OwnerAfter_example :
    OwnerAfter (register (manifest "other" "kv.set")) "kv.set" (normal "kv" "kv.set") (
      lookup "kv.set"
        (sqlite_step answering decoder (register (manifest "other" "kv.set")) held).1.rows)
sqlite_step-OwnerAfter_example =
    sqlite_step-OwnerAfter answering decoder held held_reached
      (register (manifest "other" "kv.set")) "kv.set" (normal "kv" "kv.set") held_there

-- Two registrations, a loss of the app, and a registration that brings it back.
abbrev calls : List Operation
calls =
    register (manifest "kv" "kv.set")
    ∷ register (manifest "kv" "kv.get")
    ∷ mark_unavailable "kv"
    ∷ register (manifest "kv" "kv.get")
    ∷ unregister "kv" "kv.none"
    ∷ []

calls_tame : AllTame decoder calls []
unfolding memory_step lookup normalize_app_primitive_availability trim_right trim_left is_space
    kept_before to_lower
calls_tame = (refl, (refl, (tt, (refl, (refl, tt)))))

registries_agree_example :
    ((run_sqlite answering decoder calls empty_db).0 ≡ (run_memory decoder calls []).0)
    × (view (run_sqlite answering decoder calls empty_db).1.rows
        ≡ view (run_memory decoder calls []).1)
registries_agree_example =
    registries_agree answering decoder (λ s st. refl) calls empty_db [] tt refl calls_tame

-- In memory any app may take a name away, and a name may be registered as unavailable.
memory_unregister_foreign : memory_step decoder (unregister "other" "kv.set") held.rows ≡ (none, [])
unfolding memory_step
memory_unregister_foreign = refl
