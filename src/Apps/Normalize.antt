-- ===== src/Apps/Normalize.antt =====
-- NormalizeAppPrimitiveManifest of internal/primitive/app_manifest.go and what it calls. Cloning a
-- manifest is the identity on values.
pub mod Declarations
pub mod Laws
use primitive_box.Prelude.{
  String, ◌<>◌, Bool, true, false, not, ◌||◌, Option, none, some, List, [], ◌∷◌, ◌=ₛ◌,
  if◌then◌else◌, starts_with, trim_space, to_lower, quote,
}
use primitive_box.Errors.{GoError, message, wrap}
use primitive_box.Orchestrator.{AppPrimitiveVerify, AppPrimitiveRollback}
use primitive_box.Apps.{
  AppPrimitiveAvailability, active, unavailable, reactivating, unset, other, AppPrimitiveManifest,
  Result, ok, err, ◌>>=◌, within, checked,
}
use primitive_box.Apps.Schema.{Decoder, normalize_app_manifest_schema}

abbrev pub reserved_system_primitive_namespaces : List String
reserved_system_primitive_namespaces =
    "fs." ∷ "state." ∷ "shell." ∷ "verify." ∷ "macro." ∷ "code." ∷ "test." ∷ []

unfoldable pub validate_name_in : List String → String → Option GoError
validate_name_in [] name = none
validate_name_in (prefix ∷ rest) name =
    let later = validate_name_in rest name in
    if starts_with name prefix
    then some (
        message (
          "app_primitive_reserved_namespace: "
          <> quote name
          <> " uses reserved system namespace "
          <> quote prefix))
    else later

unfoldable pub validate_app_primitive_name : String → Option GoError
unfolding validate_name_in
validate_app_primitive_name name = validate_name_in reserved_system_primitive_namespaces name

unfoldable pub normalize_ui_layout_hint : String → String
normalize_ui_layout_hint hint = to_lower (trim_space hint)

unfoldable pub normalize_app_primitive_availability :
    AppPrimitiveAvailability → AppPrimitiveAvailability
normalize_app_primitive_availability unset = active
normalize_app_primitive_availability (other s) = active
normalize_app_primitive_availability a = a

-- A legacy endpoint beside a declaration: it stands for the primitive strategy.
unfoldable pub verify_with_legacy : String → AppPrimitiveVerify → Result AppPrimitiveVerify
verify_with_legacy legacy v =
    if legacy =ₛ ""
    then ok v
    else if (v.strategy =ₛ "") || (v.strategy =ₛ "primitive")
    then if v.primitive =ₛ ""
      then ok (record v { strategy = "primitive"; primitive = legacy })
      else if v.primitive =ₛ legacy
      then ok (record v { strategy = "primitive" })
      else err (
          message (
            "verify_endpoint "
            <> quote legacy
            <> " conflicts with verify.primitive "
            <> quote v.primitive))
    else err
        (message ("verify_endpoint cannot be combined with verify.strategy=" <> quote v.strategy))

-- The fields that a strategy needs and excludes.
unfoldable pub verify_fault : AppPrimitiveVerify → Option GoError
verify_fault v =
    if v.strategy =ₛ ""
    then some (message "verify.strategy is required when verify is provided")
    else if v.strategy =ₛ "primitive"
    then if v.primitive =ₛ ""
      then some (message "verify.strategy \"primitive\" requires verify.primitive")
      else if v.command =ₛ ""
      then none
      else some (message "verify.strategy \"primitive\" cannot include verify.command")
    else if v.strategy =ₛ "command"
    then if v.command =ₛ ""
      then some (message "verify.strategy \"command\" requires verify.command")
      else if v.primitive =ₛ ""
      then none
      else some (message "verify.strategy \"command\" cannot include verify.primitive")
    else if v.strategy =ₛ "none"
    then if not (v.primitive =ₛ "") || not (v.command =ₛ "")
      then some
          (message "verify.strategy \"none\" cannot include verify.primitive or verify.command")
      else none
    else some (message ("unsupported verify.strategy " <> quote v.strategy))

abbrev pub trimmed_verify : AppPrimitiveVerify → AppPrimitiveVerify
trimmed_verify v = record {
  strategy = trim_space v.strategy;
  primitive = trim_space v.primitive;
  command = trim_space v.command;
}

abbrev pub verify_checked : AppPrimitiveVerify → Result (Option AppPrimitiveVerify)
verify_checked v = checked (verify_fault v) (some v)

unfoldable pub normalize_app_primitive_verify :
    String → Option AppPrimitiveVerify → Result (Option AppPrimitiveVerify)
unfolding verify_with_legacy verify_fault
normalize_app_primitive_verify legacy none =
    let endpoint = trim_space legacy in
    if endpoint =ₛ ""
    then ok none
    else ok (some (record { strategy = "primitive"; primitive = endpoint; command = "" }))
normalize_app_primitive_verify legacy (some verify) =
    verify_with_legacy (trim_space legacy) (trimmed_verify verify) >>= verify_checked

unfoldable pub rollback_with_legacy : String → AppPrimitiveRollback → Result AppPrimitiveRollback
rollback_with_legacy legacy r =
    if legacy =ₛ ""
    then ok r
    else if (r.strategy =ₛ "") || (r.strategy =ₛ "primitive")
    then if r.primitive =ₛ ""
      then ok (record { strategy = "primitive"; primitive = legacy })
      else if r.primitive =ₛ legacy
      then ok (record r { strategy = "primitive" })
      else err (
          message (
            "rollback_endpoint "
            <> quote legacy
            <> " conflicts with rollback.primitive "
            <> quote r.primitive))
    else err (
        message
          ("rollback_endpoint cannot be combined with rollback.strategy=" <> quote r.strategy))

unfoldable pub rollback_fault : AppPrimitiveRollback → Option GoError
rollback_fault r =
    if r.strategy =ₛ ""
    then some (message "rollback.strategy is required when rollback is provided")
    else if r.strategy =ₛ "primitive"
    then if r.primitive =ₛ ""
      then some (message "rollback.strategy \"primitive\" requires rollback.primitive")
      else none
    else if r.strategy =ₛ "none"
    then if r.primitive =ₛ ""
      then none
      else some (message "rollback.strategy \"none\" cannot include rollback.primitive")
    else some (message ("unsupported rollback.strategy " <> quote r.strategy))

abbrev pub trimmed_rollback : AppPrimitiveRollback → AppPrimitiveRollback
trimmed_rollback r = record { strategy = trim_space r.strategy; primitive = trim_space r.primitive }

abbrev pub rollback_checked : AppPrimitiveRollback → Result (Option AppPrimitiveRollback)
rollback_checked r = checked (rollback_fault r) (some r)

unfoldable pub normalize_app_primitive_rollback :
    String → Option AppPrimitiveRollback → Result (Option AppPrimitiveRollback)
unfolding rollback_with_legacy rollback_fault
normalize_app_primitive_rollback legacy none =
    let endpoint = trim_space legacy in
    if endpoint =ₛ ""
    then ok none
    else ok (some (record { strategy = "primitive"; primitive = endpoint }))
normalize_app_primitive_rollback legacy (some rollback) =
    rollback_with_legacy (trim_space legacy) (trimmed_rollback rollback) >>= rollback_checked

-- The legacy endpoint again, as the declaration names it.
unfoldable pub verify_endpoint_of : Option AppPrimitiveVerify → String → String
verify_endpoint_of none endpoint = endpoint
verify_endpoint_of (some v) endpoint = if v.strategy =ₛ "primitive" then v.primitive else endpoint

unfoldable pub rollback_endpoint_of : Option AppPrimitiveRollback → String → String
rollback_endpoint_of none endpoint = endpoint
rollback_endpoint_of (some r) endpoint = if r.strategy =ₛ "primitive" then r.primitive else endpoint

module _ (d : Decoder) where
  unfoldable pub normalize_app_primitive_manifest :
      AppPrimitiveManifest → Result AppPrimitiveManifest
  unfolding validate_app_primitive_name normalize_app_manifest_schema normalize_app_primitive_verify
      normalize_app_primitive_rollback verify_endpoint_of rollback_endpoint_of
      normalize_ui_layout_hint normalize_app_primitive_availability
  normalize_app_primitive_manifest m = do
    let verify_endpoint = trim_space m.verify_endpoint
    let rollback_endpoint = trim_space m.rollback_endpoint
    name ← checked (validate_app_primitive_name m.name) m.name
    input ← within (wrap "invalid input_schema: ") (normalize_app_manifest_schema d m.input_schema)
    output ←
        within (wrap "invalid output_schema: ") (normalize_app_manifest_schema d m.output_schema)
    verify ←
        within (wrap "invalid verify declaration: ")
          (normalize_app_primitive_verify verify_endpoint m.verify)
    rollback ←
        within (wrap "invalid rollback declaration: ")
          (normalize_app_primitive_rollback rollback_endpoint m.rollback)
    ok (record m {
      name = name;
      input_schema = input;
      output_schema = output;
      ui_layout_hint = normalize_ui_layout_hint m.ui_layout_hint;
      availability = normalize_app_primitive_availability m.availability;
      verify_endpoint = verify_endpoint_of verify verify_endpoint;
      verify = verify;
      rollback_endpoint = rollback_endpoint_of rollback rollback_endpoint;
      rollback = rollback;
    })
