-- ===== src/Apps.antt =====
-- The types of internal/primitive/app_manifest.go and the errors of its functions as values. An
-- availability that is none of the named constants is `other`, the empty one is `unset`.
pub mod Normalize
pub mod Schema
pub mod Memory
pub mod Sqlite
pub mod Contract
use primitive_box.Prelude.{
  String, Option, none, some, List, Bool, true, false, ◌≡◌, refl, ◌⊎◌, inl, inr,
}
use primitive_box.Errors.{GoError}
use primitive_box.Json.{RawMessage}
use primitive_box.Cvr.{PrimitiveIntent}
use primitive_box.Orchestrator.{AppPrimitiveVerify, AppPrimitiveRollback}

pub data AppPrimitiveAvailability : Type 0 where
  active unavailable reactivating unset : AppPrimitiveAvailability
  other : String → AppPrimitiveAvailability

pub record AppPrimitiveManifest : Type 0 where
  pub app_id : String
  pub name : String
  pub description : String
  pub input_schema : RawMessage
  pub output_schema : RawMessage
  pub ui_layout_hint : String
  pub socket_path : String
  pub availability : AppPrimitiveAvailability
  pub verify_endpoint : String
  pub verify : Option AppPrimitiveVerify
  pub rollback_endpoint : String
  pub rollback : Option AppPrimitiveRollback
  pub intent : PrimitiveIntent

-- What a function gives that returns a value with an error.
pub data Result {ℓ} (V : Type ℓ) : Type ℓ where
  err : GoError → Result V
  ok : V → Result V

infixl 5 ◌>>=◌
-- `if err != nil { return err }` between two calls.
abbrev pub ◌>>=◌ {ℓ κ} : {V : Type ℓ} {U : Type κ} → Result V → (V → Result U) → Result U
err failure >>= next = err failure
ok v >>= next = next v

-- `fmt.Errorf("s%w", err)` around an error.
abbrev pub within {ℓ} : {A : Type ℓ} → (GoError → GoError) → Result A → Result A
within f (ok a) = ok a
within f (err e) = err (f e)

-- The value between two calls that both succeeded.
pub >>=-eq-ok {ℓ κ} :
    {V : Type ℓ} {U : Type κ} (first : Result V) (next : V → Result U) {u : U}
    (h : (first >>= next) ≡ ok u)
    → (v : V) × (first ≡ ok v) × (next v ≡ ok u)
>>=-eq-ok (err failure) next h = cc
>>=-eq-ok (ok v) next h = (v, refl, h)

pub within-eq-ok {ℓ} :
    {A : Type ℓ} (f : GoError → GoError) (m : Result A) {a : A} → within f m ≡ ok a → m ≡ ok a
within-eq-ok f (ok a) h = h
within-eq-ok f (err e) h = cc

abbrev pub is_unavailable : AppPrimitiveAvailability → Bool
is_unavailable unavailable = true
is_unavailable _ = false

pub ok_inj {ℓ} : {A : Type ℓ} {a b : A} → ok a ≡ ok b → a ≡ b
ok_inj e = cc

pub err_not_ok {ℓ} : {A : Type ℓ} {e : GoError} {a : A} → err e ≡ ok a → ⊥
err_not_ok e = cc

-- A value behind a check that gives an error, or none.
abbrev pub checked {ℓ} : {A : Type ℓ} → Option GoError → A → Result A
checked (some e) a = err e
checked none a = ok a

pub checked-eq-ok {ℓ} :
    {A : Type ℓ} (o : Option GoError) (a : A) {b : A} → checked o a ≡ ok b → (o ≡ none) × (a ≡ b)
checked-eq-ok (some e) a h = cc
checked-eq-ok none a h = (refl, ok_inj h)

-- A check alone.
abbrev pub refused_by : Option GoError → Result (Unit {0})
refused_by o = checked o tt

pub refused_by-eq-ok {ℓ} :
    {A : Type ℓ} (o : Option GoError) (r : Result A) {a : A}
    → (refused_by o >>= λ _. r) ≡ ok a
    → (o ≡ none) × (r ≡ ok a)
refused_by-eq-ok (some e) r h = absurd (err_not_ok h)
refused_by-eq-ok none r h = (refl, h)

pub Result-cases {ℓ} :
    {A : Type ℓ} (r : Result A) → ((a : A) × (r ≡ ok a)) ⊎ ((e : GoError) × (r ≡ err e))
Result-cases (ok a) = inl (a, refl)
Result-cases (err e) = inr (e, refl)
