-- ===== src/Apps/Normalize/Declarations.antt =====
-- The verification and rollback declarations that the normalisation accepts and gives.
use primitive_box.Prelude.{
  String, ◌≡◌, ◌≢◌, refl, subst, Option, none, some, eq_iff, trim_space, trim_space_idem,
  trim_space_words, ◌⊎◌, arith,
}
use primitive_box.Orchestrator.{AppPrimitiveVerify, AppPrimitiveRollback}
use primitive_box.Apps.{ok, >>=-eq-ok, checked-eq-ok}
use primitive_box.Apps.Normalize.{
  trimmed_verify, verify_checked, trimmed_rollback, rollback_checked, verify_with_legacy,
  verify_fault, normalize_app_primitive_verify, rollback_with_legacy, rollback_fault,
  normalize_app_primitive_rollback, verify_endpoint_of, rollback_endpoint_of,
}

-- A declaration with what its strategy needs, and nothing else, beside the endpoint that it names.
abbrev pub Declares : String → Option AppPrimitiveVerify → Type 0
Declares endpoint none = endpoint ≡ ""
Declares endpoint (some v) =
    ((v.strategy ≡ "primitive")
      × (v.primitive ≢ "")
      × (v.command ≡ "")
      × (trim_space v.primitive ≡ v.primitive)
      × (endpoint ≡ v.primitive))
    ⊎ (((v.strategy ≡ "command")
          × (v.command ≢ "")
          × (v.primitive ≡ "")
          × (trim_space v.command ≡ v.command)
          × (endpoint ≡ ""))
        ⊎ ((v.strategy ≡ "none") × (v.primitive ≡ "") × (v.command ≡ "") × (endpoint ≡ "")))

-- A verification that passes the check.
abbrev Complete : AppPrimitiveVerify → Type 0
Complete v =
    ((v.strategy ≡ "primitive") × (v.primitive ≢ "") × (v.command ≡ ""))
    ⊎ (((v.strategy ≡ "command") × (v.command ≢ "") × (v.primitive ≡ ""))
        ⊎ ((v.strategy ≡ "none") × (v.primitive ≡ "") × (v.command ≡ "")))

verify_fault-Complete : (v : AppPrimitiveVerify) → verify_fault v ≡ none → Complete v
unfolding verify_fault
verify_fault-Complete v h = ground (
  arith,
  eq_iff v.strategy "",
  eq_iff v.strategy "primitive",
  eq_iff v.strategy "command",
  eq_iff v.strategy "none",
  eq_iff v.primitive "",
  eq_iff v.command "",
)

-- With a legacy endpoint the outcome is the primitive strategy on that endpoint.
verify_with_legacy-cases :
    (legacy : String) (v w : AppPrimitiveVerify)
    → verify_with_legacy legacy v ≡ ok w
    → ((legacy ≡ "") × (v ≡ w))
      ⊎ ((legacy ≢ "")
          × (w.strategy ≡ "primitive")
          × (w.primitive ≡ legacy)
          × (w.command ≡ v.command))
unfolding verify_with_legacy
verify_with_legacy-cases legacy v w h = ground (
  arith,
  h,
  eq_iff legacy "",
  eq_iff v.strategy "",
  eq_iff v.strategy "primitive",
  eq_iff v.primitive "",
  eq_iff v.primitive legacy,
)

Complete-Declares :
    (legacy : String) (v w : AppPrimitiveVerify)
    → trim_space legacy ≡ legacy
    → trim_space v.primitive ≡ v.primitive
    → trim_space v.command ≡ v.command
    → verify_with_legacy legacy v ≡ ok w
    → Complete w
    → Declares (verify_endpoint_of (some w) legacy) (some w)
unfolding verify_endpoint_of
Complete-Declares legacy v w tl tp tc h c =
    let primitive = eq_iff w.strategy "primitive" in
    ground (arith, verify_with_legacy-cases legacy v w h, c, tl, tp, tc, primitive)

-- A verification declaration that is accepted is complete for its strategy and names its endpoint.
pub normalize_app_primitive_verify-Declares :
    (legacy : String) (o w : Option AppPrimitiveVerify)
    → trim_space legacy ≡ legacy
    → normalize_app_primitive_verify legacy o ≡ ok w
    → Declares (verify_endpoint_of w legacy) w
unfolding normalize_app_primitive_verify verify_endpoint_of
normalize_app_primitive_verify-Declares legacy none w tl h =
    ground (arith, h, tl, eq_iff legacy "", eq_iff (trim_space legacy) "")
normalize_app_primitive_verify-Declares legacy (some v) w tl h =
    let step =
      >>=-eq-ok (verify_with_legacy (trim_space legacy) (trimmed_verify v)) verify_checked h in
    let passed = checked-eq-ok (verify_fault step.0) (some step.0) step.2 in
    subst (λ (o : Option AppPrimitiveVerify). Declares (verify_endpoint_of o legacy) o) passed.1
      (Complete-Declares legacy (trimmed_verify v) step.0 tl (trim_space_idem v.primitive)
        (trim_space_idem v.command)
        (subst (λ l. verify_with_legacy l (trimmed_verify v) ≡ ok step.0) tl step.1)
        (verify_fault-Complete step.0 passed.0))

Declares-trimmed :
    (endpoint : String) (v : AppPrimitiveVerify)
    → Declares endpoint (some v)
    → (trim_space v.strategy ≡ v.strategy)
      × (trim_space v.primitive ≡ v.primitive)
      × (trim_space v.command ≡ v.command)
      × (trim_space endpoint ≡ endpoint)
Declares-trimmed endpoint v h = ground (arith, h, trim_space_words)

words_differ :
    (◌≢◌ {A = String} "primitive" "")
    × (◌≢◌ {A = String} "command" "")
    × (◌≢◌ {A = String} "none" "")
    × (◌≢◌ {A = String} "command" "primitive")
    × (◌≢◌ {A = String} "none" "primitive")
    × (◌≢◌ {A = String} "none" "command")
words_differ = (
  ground (arith, eq_iff "primitive" ""),
  ground (arith, eq_iff "command" ""),
  ground (arith, eq_iff "none" ""),
  ground (arith, eq_iff "command" "primitive"),
  ground (arith, eq_iff "none" "primitive"),
  ground (arith, eq_iff "none" "command"),
)

Declares-accepted :
    (endpoint : String) (v : AppPrimitiveVerify)
    → Declares endpoint (some v)
    → (verify_with_legacy endpoint v ≡ ok v) × (verify_fault v ≡ none)
unfolding verify_with_legacy verify_fault
Declares-accepted endpoint v h = ground (
  arith,
  h,
  words_differ,
  eq_iff endpoint "",
  eq_iff v.strategy "",
  eq_iff v.strategy "primitive",
  eq_iff v.strategy "command",
  eq_iff v.strategy "none",
  eq_iff v.primitive "",
  eq_iff v.primitive endpoint,
  eq_iff v.command "",
)

-- A declaration of that form is accepted as it is.
pub Declares-normalize :
    (endpoint : String) (o : Option AppPrimitiveVerify)
    → Declares endpoint o
    → normalize_app_primitive_verify endpoint o ≡ ok o
unfolding normalize_app_primitive_verify
Declares-normalize endpoint none h =
    ground (arith, h, trim_space_words, eq_iff (trim_space endpoint) "")
Declares-normalize endpoint (some v) h =
    let t = Declares-trimmed endpoint v h in
    let a = Declares-accepted endpoint v h in rw (t.0, t.1, t.2, t.3, a.0, a.1) refl

-- The same for the rollback declarations.
abbrev pub DeclaresRollback : String → Option AppPrimitiveRollback → Type 0
DeclaresRollback endpoint none = endpoint ≡ ""
DeclaresRollback endpoint (some r) =
    ((r.strategy ≡ "primitive")
      × (r.primitive ≢ "")
      × (trim_space r.primitive ≡ r.primitive)
      × (endpoint ≡ r.primitive))
    ⊎ ((r.strategy ≡ "none") × (r.primitive ≡ "") × (endpoint ≡ ""))

rollback_fault-Complete :
    (r : AppPrimitiveRollback)
    → rollback_fault r ≡ none
    → ((r.strategy ≡ "primitive") × (r.primitive ≢ ""))
      ⊎ ((r.strategy ≡ "none") × (r.primitive ≡ ""))
unfolding rollback_fault
rollback_fault-Complete r h = ground (
  arith,
  eq_iff r.strategy "",
  eq_iff r.strategy "primitive",
  eq_iff r.strategy "none",
  eq_iff r.primitive "",
)

rollback_with_legacy-cases :
    (legacy : String) (r w : AppPrimitiveRollback)
    → rollback_with_legacy legacy r ≡ ok w
    → ((legacy ≡ "") × (r ≡ w))
      ⊎ ((legacy ≢ "") × (w.strategy ≡ "primitive") × (w.primitive ≡ legacy))
unfolding rollback_with_legacy
rollback_with_legacy-cases legacy r w h = ground (
  arith,
  h,
  eq_iff legacy "",
  eq_iff r.strategy "",
  eq_iff r.strategy "primitive",
  eq_iff r.primitive "",
  eq_iff r.primitive legacy,
)

Complete-DeclaresRollback :
    (legacy : String) (r w : AppPrimitiveRollback)
    → trim_space legacy ≡ legacy
    → trim_space r.primitive ≡ r.primitive
    → rollback_with_legacy legacy r ≡ ok w
    → rollback_fault w ≡ none
    → DeclaresRollback (rollback_endpoint_of (some w) legacy) (some w)
unfolding rollback_endpoint_of
Complete-DeclaresRollback legacy r w tl tp h c =
    let primitive = eq_iff w.strategy "primitive" in
    ground (
      arith,
      rollback_with_legacy-cases legacy r w h,
      rollback_fault-Complete w c,
      tl,
      tp,
      primitive,
    )

pub normalize_app_primitive_rollback-DeclaresRollback :
    (legacy : String) (o w : Option AppPrimitiveRollback)
    → trim_space legacy ≡ legacy
    → normalize_app_primitive_rollback legacy o ≡ ok w
    → DeclaresRollback (rollback_endpoint_of w legacy) w
unfolding normalize_app_primitive_rollback rollback_endpoint_of
normalize_app_primitive_rollback-DeclaresRollback legacy none w tl h =
    ground (arith, h, tl, eq_iff legacy "", eq_iff (trim_space legacy) "")
normalize_app_primitive_rollback-DeclaresRollback legacy (some r) w tl h =
    let step =
      >>=-eq-ok (rollback_with_legacy (trim_space legacy) (trimmed_rollback r)) rollback_checked
        h in
    let passed = checked-eq-ok (rollback_fault step.0) (some step.0) step.2 in
    subst (λ (o : Option AppPrimitiveRollback). DeclaresRollback (rollback_endpoint_of o legacy) o)
      passed.1
      (Complete-DeclaresRollback legacy (trimmed_rollback r) step.0 tl (trim_space_idem r.primitive)
        (subst (λ l. rollback_with_legacy l (trimmed_rollback r) ≡ ok step.0) tl step.1) passed.0)

DeclaresRollback-trimmed :
    (endpoint : String) (r : AppPrimitiveRollback)
    → DeclaresRollback endpoint (some r)
    → (trim_space r.strategy ≡ r.strategy)
      × (trim_space r.primitive ≡ r.primitive)
      × (trim_space endpoint ≡ endpoint)
DeclaresRollback-trimmed endpoint r h = ground (arith, h, trim_space_words)

DeclaresRollback-accepted :
    (endpoint : String) (r : AppPrimitiveRollback)
    → DeclaresRollback endpoint (some r)
    → (rollback_with_legacy endpoint r ≡ ok r) × (rollback_fault r ≡ none)
unfolding rollback_with_legacy rollback_fault
DeclaresRollback-accepted endpoint r h = ground (
  arith,
  h,
  words_differ,
  eq_iff endpoint "",
  eq_iff r.strategy "",
  eq_iff r.strategy "primitive",
  eq_iff r.strategy "none",
  eq_iff r.primitive "",
  eq_iff r.primitive endpoint,
)

pub DeclaresRollback-normalize :
    (endpoint : String) (o : Option AppPrimitiveRollback)
    → DeclaresRollback endpoint o
    → normalize_app_primitive_rollback endpoint o ≡ ok o
unfolding normalize_app_primitive_rollback
DeclaresRollback-normalize endpoint none h =
    ground (arith, h, trim_space_words, eq_iff (trim_space endpoint) "")
DeclaresRollback-normalize endpoint (some r) h =
    let t = DeclaresRollback-trimmed endpoint r h in
    let a = DeclaresRollback-accepted endpoint r h in rw (t.0, t.1, t.2, a.0, a.1) refl

pub verify_endpoint_same :
    (endpoint : String) (o : Option AppPrimitiveVerify)
    → Declares endpoint o
    → (trim_space endpoint ≡ endpoint) × (verify_endpoint_of o endpoint ≡ endpoint)
unfolding verify_endpoint_of
verify_endpoint_same endpoint none h = ground (arith, h, trim_space_words)
verify_endpoint_same endpoint (some v) h =
    ground (arith, h, trim_space_words, eq_iff v.strategy "primitive")

pub rollback_endpoint_same :
    (endpoint : String) (o : Option AppPrimitiveRollback)
    → DeclaresRollback endpoint o
    → (trim_space endpoint ≡ endpoint) × (rollback_endpoint_of o endpoint ≡ endpoint)
unfolding rollback_endpoint_of
rollback_endpoint_same endpoint none h = ground (arith, h, trim_space_words)
rollback_endpoint_same endpoint (some r) h =
    ground (arith, h, trim_space_words, eq_iff r.strategy "primitive")
