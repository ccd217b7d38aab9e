-- ===== src/Apps/Schema.antt =====
-- NormalizeAppManifestSchema and validateManifestSchemaObject of internal/primitive/app_manifest.go.
-- `parse` is json.Unmarshal on a text, with the error that it gives.
use primitive_box.Prelude.{
  String, ◌≡◌, refl, Bool, false, Option, none, some, ◌=ₛ◌, if◌then◌else◌, trim_space, Bool-cases,
  inl, inr, subst, true,
}
use primitive_box.Errors.{GoError, message}
use primitive_box.Json.{
  Json, text, object, array, Items, nil, cons, Fields, end, RawMessage, absent, malformed, value,
  member,
}
use primitive_box.Apps.{Result, ok, err, ok_inj, err_not_ok, checked, checked-eq-ok}

-- `json.Unmarshal` of the texts that a manifest carries, and its error on bytes that are no JSON.
pub record Decoder : Type 0 where
  pub decode : String → Option Json
  pub syntax_error : String → GoError

required_names : Items → Option GoError
required_names nil = none
required_names (cons (text s) rest) =
    let later = required_names rest in
    if s =ₛ "" then some (message "\"required\" must be an array of strings") else later
required_names (cons _ rest) = some (message "\"required\" must be an array of strings")

check_type : Option Json → Option GoError
check_type none = none
check_type (some (text s)) =
    if s =ₛ ""
    then some (message "\"type\" must be a non-empty string when present")
    else if s =ₛ "object"
    then none
    else some (message "top-level \"type\" must be \"object\"")
check_type (some _) = some (message "\"type\" must be a non-empty string when present")

check_properties : Option Json → Option GoError
check_properties none = none
check_properties (some (object fs)) = none
check_properties (some _) = some (message "\"properties\" must be an object")

check_required : Option Json → Option GoError
unfolding required_names
check_required none = none
check_required (some (array items)) = required_names items
check_required (some _) = some (message "\"required\" must be an array of strings")

-- A check that fails on a condition.
abbrev pub refuse_if : Bool → GoError → Option GoError
refuse_if true e = some e
refuse_if false e = none

-- The first of two checks that fails.
abbrev pub or_else : Option GoError → Option GoError → Option GoError
or_else (some e) later = some e
or_else none later = later

unfoldable pub validate_manifest_schema_object : Fields → Option GoError
unfolding check_type check_properties check_required member
validate_manifest_schema_object schema = or_else (check_type (member "type" schema)) (
    or_else (check_properties (member "properties" schema))
      (check_required (member "required" schema)))

-- The decoded document, which has to be an object, encoded again.
unfoldable pub schema_of : Json → Result RawMessage
unfolding validate_manifest_schema_object
schema_of (object fs) = checked (validate_manifest_schema_object fs) (value (object fs))
schema_of _ = err (message "must be a JSON object")

-- A text that was decoded, or not.
schema_decoded : Option Json → Result RawMessage
unfolding schema_of
schema_decoded none = err (message "must be valid JSON")
schema_decoded (some j) = schema_of j

module _ (d : Decoder) where
  -- A text that was trimmed: the empty one stands for the empty object.
  unfoldable pub schema_text : String → Result RawMessage
  unfolding schema_decoded
  schema_text s = if s =ₛ "" then ok (value (object end)) else schema_decoded (d.decode s)

  begins_quoted : String → Bool
  begins_quoted String.[] = false
  begins_quoted (String.◌∷◌ c s) = String.◌∷◌ c "" =ₛ "\""

  unfoldable pub normalize_app_manifest_schema : RawMessage → Result RawMessage
  unfolding schema_text begins_quoted trim_space
  normalize_app_manifest_schema absent = ok (value (object end))
  normalize_app_manifest_schema (malformed bytes) =
      let trimmed = trim_space bytes in
      if trimmed =ₛ ""
      then ok (value (object end))
      else if begins_quoted trimmed
      then err (d.syntax_error trimmed)
      else err (message "must be valid JSON")
  normalize_app_manifest_schema (value Json.null) = ok (value (object end))
  normalize_app_manifest_schema (value (text encoded)) = schema_text (trim_space encoded)
  normalize_app_manifest_schema (value j) = schema_of j

-- What a schema is after it was normalised: an object that passes the checks.
abbrev pub IsSchema : RawMessage → Type 0
IsSchema (value (object fs)) = validate_manifest_schema_object fs ≡ none
IsSchema _ = ⊥

schema_of-IsSchema : (j : Json) (raw : RawMessage) → schema_of j ≡ ok raw → IsSchema raw
unfolding schema_of
schema_of-IsSchema (object fs) raw h =
    let passed = checked-eq-ok (validate_manifest_schema_object fs) (value (object fs)) h in
    subst IsSchema passed.1 passed.0
schema_of-IsSchema _ raw h = absurd (err_not_ok h)

decoded-IsSchema : (o : Option Json) (raw : RawMessage) → schema_decoded o ≡ ok raw → IsSchema raw
unfolding schema_decoded
decoded-IsSchema none raw h = absurd (err_not_ok h)
decoded-IsSchema (some j) raw h = schema_of-IsSchema j raw h

empty_object : IsSchema (value (object end))
unfolding validate_manifest_schema_object
empty_object = refl

module _ (d : Decoder) where
  schema_text-IsSchema : (s : String) (raw : RawMessage) → schema_text d s ≡ ok raw → IsSchema raw
  unfolding schema_text
  schema_text-IsSchema s raw h = elim (Bool-cases (s =ₛ "")) [
    | inl empty ↦ subst IsSchema (ok_inj (rw empty at h)) empty_object
    | inr full ↦ decoded-IsSchema (d.decode s) raw (rw full at h)
  ]

  -- What comes out of the normalisation is a JSON object that passes the checks.
  pub normalize_app_manifest_schema-IsSchema :
      (given raw : RawMessage) → normalize_app_manifest_schema d given ≡ ok raw → IsSchema raw
  unfolding normalize_app_manifest_schema
  normalize_app_manifest_schema-IsSchema absent raw h = subst IsSchema (ok_inj h) empty_object
  normalize_app_manifest_schema-IsSchema (malformed bytes) raw h =
      elim (Bool-cases (trim_space bytes =ₛ "")) [
        | inl empty ↦ subst IsSchema (ok_inj (rw empty at h)) empty_object
        | inr full ↦ elim (Bool-cases (begins_quoted d (trim_space bytes))) [
          | inl quoted ↦ absurd (err_not_ok (rw quoted at (rw full at h)))
          | inr plain ↦ absurd (err_not_ok (rw plain at (rw full at h)))
        ]
      ]
  normalize_app_manifest_schema-IsSchema (value Json.null) raw h =
      subst IsSchema (ok_inj h) empty_object
  normalize_app_manifest_schema-IsSchema (value (text encoded)) raw h =
      schema_text-IsSchema (trim_space encoded) raw h
  normalize_app_manifest_schema-IsSchema (value j) raw h = schema_of-IsSchema j raw h

  -- A schema that was normalised is left as it is.
  pub IsSchema-normalize :
      (raw : RawMessage) → IsSchema raw → normalize_app_manifest_schema d raw ≡ ok raw
  unfolding normalize_app_manifest_schema
  IsSchema-normalize (value (object fs)) h = rw (h, schema_of) refl
  IsSchema-normalize _ h = absurd h
