-- ===== src/Sandbox/Router/Laws.antt =====
-- Which calls of app primitives succeed, and what a lost app leads to.
use primitive_box.Prelude.{
  String, ◌≡◌, refl, sym, ap, subst, ◌∙◌, true, false, Option, none, some, map_some, List, ◌=ₛ◌,
  eq_iff, Bool-cases, inl, inr, ◌⊎◌, arith,
}
use primitive_box.Errors.{GoError}
use primitive_box.Json.{Json, boolean, object, Fields, member, RawMessage}
use primitive_box.Apps.{
  AppPrimitiveManifest, unavailable, is_unavailable, Result, ok, err, ok_inj, err_not_ok,
}
use primitive_box.Apps.Contract.{deactivated}
use primitive_box.Apps.Contract.Rows.{lookup, lookup-map}
use primitive_box.Apps.Memory.{get_in_memory, mark_unavailable_in_memory}
use primitive_box.Sandbox.Router.{
  PrimitiveResult, refused, AppRegistry, Routing, mark, or_object, app_primitive_unavailable_error,
  is_passed, app_result_passed, replied, call_app_socket, verified, called, route_app_primitive,
  route_found, route_registered, built_in_or, route,
}

some_not_none : {A : Type 0} {a : A} → some a ≡ none → ⊥
some_not_none e = cc

-- The value says that the check failed: it is an object whose `passed` is false.
abbrev pub ReportsFailure : Json → Type 0
ReportsFailure j = (fs : Fields) × (j ≡ object fs) × (member "passed" fs ≡ some (boolean false))

-- The verifying call returned, and did not report a failure.
abbrev pub HasPassed : Result PrimitiveResult → Type 0
HasPassed verdict = (v : PrimitiveResult) × (verdict ≡ ok v) × (¬ ReportsFailure v.value)

failure-not_passed : (j : Json) → ReportsFailure j → app_result_passed j ≡ false
unfolding app_result_passed
failure-not_passed j (fs, same, at) = rw (same, app_result_passed, at) refl

false_not_true : false ≡ true → ⊥
false_not_true e = cc

is_passed-HasPassed :
    (verdict : Result PrimitiveResult) → is_passed verdict ≡ true → HasPassed verdict
is_passed-HasPassed (err e) h = absurd (false_not_true h)
is_passed-HasPassed (ok v) h =
    (v, refl, λ f. false_not_true (sym (failure-not_passed v.value f) ∙ h))

module _ {S W : Type 0} (r : Routing S W) where
  -- The answer of the app's primitive, and the verifying call behind it, where one is declared.
  abbrev pub IsServed :
      AppPrimitiveManifest → String → RawMessage → PrimitiveResult → S → W → Type 0
  IsServed m method params result s w =
      let answer = call_app_socket r m method params s w in
      (is_unavailable m.availability ≡ false)
      × (answer.0 ≡ ok result)
      × ((m.verify_endpoint ≡ "")
          ⊎ HasPassed (call_app_socket r m m.verify_endpoint params answer.1 answer.2).0)

  verified-ok :
      (m : AppPrimitiveManifest) (method : String) (params : RawMessage)
      (result result' : PrimitiveResult) (v : Result PrimitiveResult × S × W) (s' : S) (w' : W)
      → verified r m method params result v ≡ (ok result', s', w')
      → (result ≡ result') × HasPassed v.0
  unfolding verified
  verified-ok m method params result result' (verdict, s, w) s' w' h =
      elim (Bool-cases (is_passed verdict)) [
        | inl passed ↦ (ok_inj (ap (λ x. x.0) (rw passed at h)), is_passed-HasPassed verdict passed)
        | inr not_passed ↦ absurd (err_not_ok (ap (λ x. x.0) (rw not_passed at h)))
      ]

  called-ok :
      (m : AppPrimitiveManifest) (method : String) (params : RawMessage) (result : PrimitiveResult)
      (a : Result PrimitiveResult × S × W) (s' : S) (w' : W)
      → called r m method params a ≡ (ok result, s', w')
      → (a.0 ≡ ok result)
        × ((m.verify_endpoint ≡ "")
            ⊎ HasPassed (call_app_socket r m m.verify_endpoint params a.1 a.2).0)
  unfolding called
  called-ok m method params result (err e, s, w) s' w' h = absurd (err_not_ok (ap (λ x. x.0) h))
  called-ok m method params result (ok given, s, w) s' w' h =
      elim (Bool-cases (m.verify_endpoint =ₛ "")) [
        | inl unset ↦ (ap (λ x. x.0) (rw unset at h), inl ((eq_iff m.verify_endpoint "").0 unset))
        | inr set ↦
            let v =
              verified-ok m method params given result
                (call_app_socket r m m.verify_endpoint params s w) s' w' (rw set at h) in
            (ap ok v.0, inr v.1)
      ]

  found-ok :
      (o : Option AppPrimitiveManifest × Option GoError) (method : String) (params : RawMessage)
      (result : PrimitiveResult) (s s' : S) (w w' : W)
      → route_found r o method params s w ≡ (ok result, s', w')
      → (m : AppPrimitiveManifest) × (o ≡ (some m, none)) × IsServed m method params result s w
  unfolding route_found route_app_primitive
  found-ok (m, some e) method params result s s' w w' h = absurd (err_not_ok (ap (λ x. x.0) h))
  found-ok (none, none) method params result s s' w w' h = absurd (err_not_ok (ap (λ x. x.0) h))
  found-ok (some m, none) method params result s s' w w' h =
      elim (Bool-cases (is_unavailable m.availability)) [
        | inl lost ↦ absurd (err_not_ok (ap (λ x. x.0) (rw lost at h)))
        | inr there ↦
            let c =
              called-ok m method params result (call_app_socket r m method params s w) s' w'
                (rw there at h) in
            (m, refl, (there, c.0, c.1))
      ]

  -- The state in which an app's primitive of the name is found.
  abbrev pub IsFound : String → RawMessage → PrimitiveResult → S → W → Type 0
  IsFound method params result s w =
      (reg : AppRegistry S) × (m : AppPrimitiveManifest) × (r.registry ≡ some reg)
      × (reg.get method s ≡ (some m, none))
      × IsServed m method params result s w

  registered-ok :
      (o : Option (AppRegistry S)) (method : String) (params : RawMessage)
      (result : PrimitiveResult) (s s' : S) (w w' : W)
      → r.registry ≡ o
      → route_registered r o method params s w ≡ (ok result, s', w')
      → IsFound method params result s w
  unfolding route_registered
  registered-ok none method params result s s' w w' unset h = absurd (err_not_ok (ap (λ x. x.0) h))
  registered-ok (some reg) method params result s s' w w' set h =
      let f = found-ok (reg.get method s) method params result s s' w w' h in
      (reg, f.0, set, f.1, f.2)

  -- A call of a name without a built-in primitive succeeds only where the registry has the name for
  -- an app that is not marked as unavailable, the app answered with the result that is returned,
  -- and the verifying call, if the manifest names one, returned and did not report a failure.
  pub route-IsFound :
      (method : String) (params : RawMessage) (result : PrimitiveResult) (s s' : S) (w w' : W)
      → r.builtin method ≡ none
      → route r method params s w ≡ (ok result, s', w')
      → IsFound method params result s w
  unfolding route
  route-IsFound method params result s s' w w' none_built h =
      registered-ok r.registry method params result s s' w w' refl (
        subst
          (λ o.
            built_in_or r o params s w (route_registered r r.registry method params s w)
            ≡ (ok result, s', w'))
          none_built h)

-- The registry in memory as the router uses it.
abbrev pub memory_registry : AppRegistry (List AppPrimitiveManifest)
memory_registry = record {
  get = λ name rows. (get_in_memory name rows, none);
  mark_unavailable = mark_unavailable_in_memory;
}

module _ {W : Type 0} (r : Routing (List AppPrimitiveManifest) W) where
  deactivated_unavailable :
      (app : String) (m : AppPrimitiveManifest)
      → m.app_id ≡ app
      → deactivated app m ≡ record m { availability = unavailable }
  deactivated_unavailable app m own = rw ((eq_iff m.app_id app).1 own) refl

  marked_unavailable :
      (app name : String) (m : AppPrimitiveManifest) (rows : List AppPrimitiveManifest)
      → m.app_id ≡ app
      → lookup name rows ≡ some m
      → get_in_memory name (mark_unavailable_in_memory app rows)
        ≡ some (record m { availability = unavailable })
  unfolding get_in_memory mark_unavailable_in_memory
  marked_unavailable app name m rows own at =
      lookup-map (deactivated app) (λ x. ground arith) name rows
      ∙ ap (map_some (deactivated app)) at
      ∙ ap some (deactivated_unavailable app m own)

  refused_reply :
      (m : AppPrimitiveManifest) (cause : String) (rows : List AppPrimitiveManifest) (w : W)
      → r.registry ≡ some memory_registry
      → replied r m (refused cause, w) rows
        ≡ (err (app_primitive_unavailable_error m), mark_unavailable_in_memory m.app_id rows, w)
  unfolding replied
  refused_reply m cause rows w set =
      ap (λ reg. (err (app_primitive_unavailable_error m), mark reg m.app_id rows, w)) set

  refused_found :
      (n : AppPrimitiveManifest) (name : String) (params : RawMessage)
      (rows : List AppPrimitiveManifest) (w : W)
      → route_found r (some (record n { availability = unavailable }), none) name params rows w
        ≡ (err (app_primitive_unavailable_error n), rows, w)
  unfolding route_found
  refused_found n name params rows w = refl

  refused_call :
      (m : AppPrimitiveManifest) (method cause : String) (params : RawMessage)
      (rows : List AppPrimitiveManifest) (w w1 : W)
      → r.registry ≡ some memory_registry
      → r.dial m.socket_path method (or_object params) w ≡ (refused cause, w1)
      → call_app_socket r m method params rows w
        ≡ (err (app_primitive_unavailable_error m), mark_unavailable_in_memory m.app_id rows, w1)
  unfolding call_app_socket
  refused_call m method cause params rows w w1 set lost =
      ap (λ x. replied r m x rows) lost ∙ refused_reply m cause rows w1 set

  refused_route :
      (n : AppPrimitiveManifest) (name : String) (params : RawMessage)
      (rows : List AppPrimitiveManifest) (w : W)
      → r.registry ≡ some memory_registry
      → r.builtin name ≡ none
      → get_in_memory name rows ≡ some (record n { availability = unavailable })
      → route r name params rows w ≡ (err (app_primitive_unavailable_error n), rows, w)
  unfolding route route_registered
  refused_route n name params rows w set none_built at =
      ap (λ o. built_in_or r o params rows w (route_registered r r.registry name params rows w))
        none_built
      ∙ ap (λ reg. route_registered r reg name params rows w) set
      ∙ ap (λ o. route_found r (o, none) name params rows w) at
      ∙ refused_found n name params rows w

  -- After a connection to an app was refused, a call of any of its primitives is refused without
  -- another attempt to connect: the apps' world and the registry stay as they are.
  pub refused-unavailable :
      (m n : AppPrimitiveManifest) (method name cause : String) (params params' : RawMessage)
      (rows : List AppPrimitiveManifest) (w w1 : W)
      → r.registry ≡ some memory_registry
      → r.dial m.socket_path method (or_object params) w ≡ (refused cause, w1)
      → lookup name rows ≡ some n
      → n.app_id ≡ m.app_id
      → r.builtin name ≡ none
      → let lost = call_app_socket r m method params rows w in
        route r name params' lost.1 lost.2
        ≡ (err (app_primitive_unavailable_error n), lost.1, lost.2)
  refused-unavailable m n method name cause params params' rows w w1 set lost at own none_built =
      subst
        (λ x. route r name params' x.1 x.2 ≡ (err (app_primitive_unavailable_error n), x.1, x.2))
        (sym (refused_call m method cause params rows w w1 set lost))
        (refused_route n name params' (mark_unavailable_in_memory m.app_id rows) w1 set none_built
          (marked_unavailable m.app_id name n rows own at))
