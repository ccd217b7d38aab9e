-- ===== src/Apps/Normalize/Laws.antt =====
-- What the normalisation of an app's manifest accepts and gives.
use primitive_box.Prelude.{
  String, ◌≡◌, refl, sym, subst, false, Option, none, some, List, [], ◌∷◌, starts_with, trim_space,
  trim_space_idem, All, Bool-cases, inl, inr,
}
use primitive_box.Errors.{GoError, wrap}
use primitive_box.Json.{RawMessage}
use primitive_box.Orchestrator.{AppPrimitiveVerify, AppPrimitiveRollback}
use primitive_box.Apps.{
  AppPrimitiveManifest, Result, ok, err, ok_inj, err_not_ok, ◌>>=◌, within, within-eq-ok, checked,
  checked-eq-ok,
}
use primitive_box.Apps.Schema.{
  Decoder, normalize_app_manifest_schema, IsSchema, normalize_app_manifest_schema-IsSchema,
  IsSchema-normalize,
}
use primitive_box.Apps.Normalize.{
  reserved_system_primitive_namespaces, validate_name_in, validate_app_primitive_name,
  normalize_app_primitive_verify, normalize_app_primitive_rollback, verify_endpoint_of,
  rollback_endpoint_of, normalize_app_primitive_manifest, normalize_ui_layout_hint,
  normalize_app_primitive_availability,
}
use primitive_box.Apps.Normalize.Declarations.{
  Declares, DeclaresRollback, Declares-normalize, DeclaresRollback-normalize,
  normalize_app_primitive_verify-Declares, normalize_app_primitive_rollback-DeclaresRollback,
  verify_endpoint_same, rollback_endpoint_same,
}

-- The name has none of the reserved prefixes.
abbrev pub IsUnreserved : String → Type 0
IsUnreserved name =
    All (λ prefix. starts_with name prefix ≡ false) reserved_system_primitive_namespaces

some_not_none : {e : GoError} → some e ≡ none → ⊥
some_not_none e = cc

validate_name_in-Unreserved :
    (l : List String) (name : String)
    → validate_name_in l name ≡ none
    → All (λ prefix. starts_with name prefix ≡ false) l
unfolding validate_name_in
validate_name_in-Unreserved [] name h = tt
validate_name_in-Unreserved (prefix ∷ rest) name h = elim (Bool-cases (starts_with name prefix)) [
  | inl hit ↦ absurd (some_not_none (rw hit at h))
  | inr miss ↦ (miss, validate_name_in-Unreserved rest name (rw miss at h))
]

Unreserved-validate_name_in :
    (l : List String) (name : String)
    → All (λ prefix. starts_with name prefix ≡ false) l
    → validate_name_in l name ≡ none
unfolding validate_name_in
Unreserved-validate_name_in [] name h = refl
Unreserved-validate_name_in (prefix ∷ rest) name h =
    rw h.0 (Unreserved-validate_name_in rest name h.1)

-- What a manifest is after it was normalised, but for the spelling of its hint and its availability.
pub record IsNormal (m : AppPrimitiveManifest) : Type 0 where
  pub unreserved : IsUnreserved m.name
  pub input : IsSchema m.input_schema
  pub output : IsSchema m.output_schema
  pub verify : Declares m.verify_endpoint m.verify
  pub rollback : DeclaresRollback m.rollback_endpoint m.rollback

-- The manifest that a successful normalisation assembles from its parts.
abbrev assembled :
    AppPrimitiveManifest
    → String
    → RawMessage
    → RawMessage
    → Option AppPrimitiveVerify
    → Option AppPrimitiveRollback
    → AppPrimitiveManifest
assembled m name input output verify rollback = record m {
  name = name;
  input_schema = input;
  output_schema = output;
  ui_layout_hint = normalize_ui_layout_hint m.ui_layout_hint;
  availability = normalize_app_primitive_availability m.availability;
  verify_endpoint = verify_endpoint_of verify (trim_space m.verify_endpoint);
  verify = verify;
  rollback_endpoint = rollback_endpoint_of rollback (trim_space m.rollback_endpoint);
  rollback = rollback;
}

-- The parts of a chain of five that succeeded.
chain_parts :
    (m : AppPrimitiveManifest) (r1 : Result String) (r2 r3 : Result RawMessage)
    (r4 : Result (Option AppPrimitiveVerify)) (r5 : Result (Option AppPrimitiveRollback))
    (n : AppPrimitiveManifest)
    → (r1 >>= λ a. r2 >>= λ b. r3 >>= λ c. r4 >>= λ v. r5 >>= λ w. ok (assembled m a b c v w))
      ≡ ok n
    → (a : String) × (b : RawMessage) × (c : RawMessage) × (v : Option AppPrimitiveVerify)
      × (w : Option AppPrimitiveRollback) × (r1 ≡ ok a)
      × (r2 ≡ ok b)
      × (r3 ≡ ok c)
      × (r4 ≡ ok v)
      × (r5 ≡ ok w)
      × (assembled m a b c v w ≡ n)
chain_parts m (ok a) (ok b) (ok c) (ok v) (ok w) n h =
    (a, b, c, v, w, refl, refl, refl, refl, refl, ok_inj h)
chain_parts m (err e) r2 r3 r4 r5 n h = absurd (err_not_ok h)
chain_parts m (ok a) (err e) r3 r4 r5 n h = absurd (err_not_ok h)
chain_parts m (ok a) (ok b) (err e) r4 r5 n h = absurd (err_not_ok h)
chain_parts m (ok a) (ok b) (ok c) (err e) r5 n h = absurd (err_not_ok h)
chain_parts m (ok a) (ok b) (ok c) (ok v) (err e) n h = absurd (err_not_ok h)

-- A normal manifest that is the given one but for what the normalisation spells anew.
abbrev pub Normalizes : AppPrimitiveManifest → AppPrimitiveManifest → Type 0
Normalizes m n =
    IsNormal n
    × (n.app_id ≡ m.app_id)
    × (n.name ≡ m.name)
    × (n.socket_path ≡ m.socket_path)
    × (n.intent ≡ m.intent)
    × (n.availability ≡ normalize_app_primitive_availability m.availability)

-- A manifest that is accepted keeps its app, its name, its socket and its intent, and an
-- availability that has a name, another becoming active; its name lies in
-- no reserved namespace, its schemas are objects that pass the checks, and its declarations are
-- complete for their strategies and name their endpoints.
pub normalize_app_primitive_manifest-IsNormal :
    (d : Decoder) (m n : AppPrimitiveManifest)
    → normalize_app_primitive_manifest d m ≡ ok n
    → Normalizes m n
unfolding normalize_app_primitive_manifest
normalize_app_primitive_manifest-IsNormal d m n h =
    let p =
      chain_parts m (checked (validate_app_primitive_name m.name) m.name)
        (within (wrap "invalid input_schema: ") (normalize_app_manifest_schema d m.input_schema))
        (within (wrap "invalid output_schema: ") (normalize_app_manifest_schema d m.output_schema))
        (within (wrap "invalid verify declaration: ")
          (normalize_app_primitive_verify (trim_space m.verify_endpoint) m.verify))
        (within (wrap "invalid rollback declaration: ")
          (normalize_app_primitive_rollback (trim_space m.rollback_endpoint) m.rollback))
        n h in
    let named = checked-eq-ok (validate_app_primitive_name m.name) m.name p.5 in
    subst (Normalizes m) p.10 (
      record {
        unreserved =
            subst IsUnreserved named.1
              (validate_name_in-Unreserved reserved_system_primitive_namespaces m.name named.0);
        input =
            normalize_app_manifest_schema-IsSchema d m.input_schema p.1
              (within-eq-ok (wrap "invalid input_schema: ") _ p.6);
        output =
            normalize_app_manifest_schema-IsSchema d m.output_schema p.2
              (within-eq-ok (wrap "invalid output_schema: ") _ p.7);
        verify =
            normalize_app_primitive_verify-Declares (trim_space m.verify_endpoint) m.verify p.3
              (trim_space_idem m.verify_endpoint)
              (within-eq-ok (wrap "invalid verify declaration: ") _ p.8);
        rollback =
            normalize_app_primitive_rollback-DeclaresRollback (trim_space m.rollback_endpoint)
              m.rollback p.4 (trim_space_idem m.rollback_endpoint)
              (within-eq-ok (wrap "invalid rollback declaration: ") _ p.9);
      },
      refl,
      sym named.1,
      refl,
      refl,
      refl,
    )

-- A normal manifest is accepted and left as it is, but for the spelling of its hint and an
-- availability that has no name.
pub IsNormal-normalize :
    (d : Decoder) (m : AppPrimitiveManifest)
    → IsNormal m
    → normalize_app_primitive_manifest d m
      ≡ ok (record m {
        ui_layout_hint = normalize_ui_layout_hint m.ui_layout_hint;
        availability = normalize_app_primitive_availability m.availability;
      })
unfolding normalize_app_primitive_manifest
IsNormal-normalize d m h =
    let ve = verify_endpoint_same m.verify_endpoint m.verify h.verify in
    let re = rollback_endpoint_same m.rollback_endpoint m.rollback h.rollback in
    rw
      (
        ve.0,
        re.0,
        Unreserved-validate_name_in reserved_system_primitive_namespaces m.name h.unreserved,
        IsSchema-normalize d m.input_schema h.input,
        IsSchema-normalize d m.output_schema h.output,
        Declares-normalize m.verify_endpoint m.verify h.verify,
        DeclaresRollback-normalize m.rollback_endpoint m.rollback h.rollback,
        ve.1,
        re.1,
      )
      refl
