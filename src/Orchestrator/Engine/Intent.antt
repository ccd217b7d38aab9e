-- ===== src/Orchestrator/Engine/Intent.antt =====
-- `inferPrimitiveIntent`, `lookupAppManifest` and `resolveVerifyStrategy` of engine.go.
use primitive_box.Prelude.{
  String, ◌≡◌, refl, sym, subst, Bool, true, false, ◌||◌, Option, none, some, List, [], ◌∷◌,
  starts_with, ◌=ₛ◌, if◌then◌else◌,
}
use primitive_box.Cvr.Coordinator.{should_checkpoint}
use primitive_box.Errors.{GoError}
use primitive_box.Json.{RawMessage}
use primitive_box.Cvr.{
  PrimitiveIntent, IntentCategory, mutation, query, verification, rollback, RiskLevel, low, medium,
  high, VerifyStrategy,
}
use primitive_box.Orchestrator.{AppPrimitiveManifest, AppPrimitiveVerify, AppPrimitiveRegistry}
use primitive_box.Orchestrator.Adapter.{AdapterState}
use primitive_box.Orchestrator.AppVerify.{new_app_declared_verify_strategy}
use primitive_box.Orchestrator.Engine.{Engine}

abbrev pub plain_intent : IntentCategory → Bool → RiskLevel → PrimitiveIntent
plain_intent c reversible risk = record {
  category = c;
  reversible = reversible;
  risk_level = risk;
  affected_scopes = [];
}

abbrev pub conservative_intent : PrimitiveIntent
conservative_intent = plain_intent mutation false high

unfoldable pub has_prefix : List String → String → Bool
has_prefix [] id = false
has_prefix (p ∷ ps) id = starts_with id p || has_prefix ps id

abbrev pub query_prefixes : List String
query_prefixes =
    "fs.read" ∷ "fs.list" ∷ "fs.diff" ∷ "code.search" ∷ "code.symbols" ∷ "db.query" ∷ "browser.goto"
    ∷ "browser.read" ∷ []

abbrev pub verification_prefixes : List String
verification_prefixes = "verify." ∷ "test." ∷ "repo.run_tests" ∷ []

abbrev pub mutation_prefixes : List String
mutation_prefixes = "fs.write" ∷ "macro.safe_edit" ∷ "repo.patch" ∷ "db.execute" ∷ "shell.exec" ∷ []

-- The `switch`: `none` falls through to the registry.
unfoldable pub system_intent : String → Option PrimitiveIntent
unfolding has_prefix
system_intent id =
    if has_prefix query_prefixes id
    then some (plain_intent query true low)
    else if has_prefix verification_prefixes id
    then some (plain_intent verification true medium)
    else if id =ₛ "state.restore"
    then some (plain_intent rollback true high)
    else if has_prefix mutation_prefixes id
    then some (plain_intent mutation false high)
    else none

-- The manifest of a successful lookup.
abbrev pub without_error :
    Option AppPrimitiveManifest × Option GoError → Option AppPrimitiveManifest
without_error (m, none) = m
without_error (m, some e) = none

abbrev pub registry_get :
    {W : Type 0} → Option (AppPrimitiveRegistry W) → String → W → Option AppPrimitiveManifest
registry_get none id w = none
registry_get (some registry) id w = without_error (registry.get id w)

abbrev pub intent_or : Option AppPrimitiveManifest → PrimitiveIntent
intent_or none = conservative_intent
intent_or (some manifest) = manifest.intent

abbrev intent_from : Option PrimitiveIntent → Option AppPrimitiveManifest → PrimitiveIntent
intent_from (some intent) manifest = intent
intent_from none manifest = intent_or manifest

module _ {W : Type 0} (e : Engine W) where
  unfoldable pub lookup_app_manifest : String → W → Option AppPrimitiveManifest
  lookup_app_manifest id w = registry_get e.app_registry id w

  unfoldable pub infer_primitive_intent : String → W → PrimitiveIntent
  unfolding system_intent lookup_app_manifest
  infer_primitive_intent id w = intent_from (system_intent id) (lookup_app_manifest id w)

  strategy_of :
      String
      → RawMessage
      → Option AppPrimitiveVerify
      → Option (VerifyStrategy (AdapterState W)) × Bool
  strategy_of id params none = (none, false)
  strategy_of id params (some verify) =
      if verify.strategy =ₛ "none"
      then (none, true)
      else if verify.strategy =ₛ "primitive" || verify.strategy =ₛ "command"
      then (
        some (
            new_app_declared_verify_strategy (λ (a : AdapterState W). e.deadline_passed a.world) id
              verify params),
        true,
      )
      else (none, false)

  abbrev declared_verify : Option AppPrimitiveManifest → Option AppPrimitiveVerify
  declared_verify none = none
  declared_verify (some manifest) = manifest.verify

  -- The strategy, and whether the default one is disabled.
  unfoldable pub resolve_verify_strategy :
      String → RawMessage → W → Option (VerifyStrategy (AdapterState W)) × Bool
  unfolding strategy_of lookup_app_manifest
  resolve_verify_strategy id params w =
      strategy_of id params (declared_verify (lookup_app_manifest id w))

  -- The checkpoint rule meets every primitive of which nothing is known: if its name is in none of
  -- the lists and no registry entry is found, or the lookup failed, a checkpoint is required.
  pub infer_primitive_intent-unknown :
      (id : String) (w : W)
      → system_intent id ≡ none
      → lookup_app_manifest id w ≡ none
      → should_checkpoint (infer_primitive_intent id w) ≡ true
  unfolding infer_primitive_intent should_checkpoint
  infer_primitive_intent-unknown id w unlisted missing =
      subst (λ o. should_checkpoint (intent_from o (lookup_app_manifest id w)) ≡ true)
        (sym unlisted) (subst (λ m. should_checkpoint (intent_or m) ≡ true) (sym missing) refl)
