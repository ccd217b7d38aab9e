-- ===== src/Cvr/Coordinator/Gate.antt =====
-- Layer A of `CVRCoordinator.Execute`, the checkpoint gate.
use primitive_box.Prelude.{
  String, ◌≡◌, ◌≢◌, ◌↔◌, ◌⊎◌, ◌<◌, refl, sym, ap, true, false, Option, none, some, arith, leb,
  Bool-cases, inl, inr,
}
use primitive_box.Errors.{GoError}
use primitive_box.Errors
use primitive_box.Cvr.{
  PrimitiveIntent, mutation, high, ExecuteResult, StrategyExecutor, ManifestStore, CvrRequest,
  LayerAOutcome, CvrResult, CheckpointManifest, max_cvr_depth,
}
use primitive_box.Cvr.Coordinator.{
  CvrCoordinator, Extracted, found, missing, LayerA, failed, created, skipped, created_result,
  should_checkpoint, manifest_for, saved, save_checkpoint, checkpointed, checkpoint_label,
  insert_checkpoint, layer_a, run_primitive, after_layer_a, with_executor, execute,
  extract_checkpoint_id, conclude,
}

-- A checkpoint is required exactly for mutations that are irreversible or of high risk.
pub should_checkpoint_iff :
    (intent : PrimitiveIntent)
    → (should_checkpoint intent ≡ true)
      ↔ ((intent.category ≡ mutation) × ((intent.reversible ≡ false) ⊎ (intent.risk_level ≡ high)))
unfolding should_checkpoint
should_checkpoint_iff intent = ground arith

module _ {S : Type 0} where
  -- The store, if there is one, keeps `P` whatever manifest it is given.
  abbrev pub StoreKeeps : (S → Type 0) → Option (ManifestStore S) → Type 0
  StoreKeeps P none = Unit {0}
  StoreKeeps P (some store) = (m : CheckpointManifest) (s : S) → P s → P (store.save_manifest m s).1

  -- How Layer A ran, where it ended with a checkpoint: the executor made it without an error, and
  -- the store saved the manifest for it.
  pub record Checkpointed (c : CvrCoordinator S) (req : CvrRequest S) (exec : StrategyExecutor S)
      (s : S) (m : CheckpointManifest) (s' : S) : Type 0 where
    pub store : ManifestStore S
    pub id : String
    pub after_checkpoint : S
    pub has_store : c.store ≡ some store
    pub made : (exec.execute "state.checkpoint" (checkpoint_label req) s).1 ≡ none
    pub then_state : (exec.execute "state.checkpoint" (checkpoint_label req) s).2 ≡ after_checkpoint
    pub extracted :
        extract_checkpoint_id (exec.execute "state.checkpoint" (checkpoint_label req) s).0
        ≡ found id
    pub manifest : m ≡ manifest_for req id
    pub stored : store.save_manifest m after_checkpoint ≡ (none, s')

  module _ (c : CvrCoordinator S) (req : CvrRequest S) (exec : StrategyExecutor S) where
    with_executor-some :
        (x : Option (StrategyExecutor S)) (s : S)
        → x ≡ some exec
        → with_executor c req x s ≡ after_layer_a c req exec (layer_a c req exec s)
    unfolding with_executor
    with_executor-some none s e = absurd (ground arith)
    with_executor-some (some exec') s e = cc

    reaches :
        req.exec ≡ some exec
        → leb max_cvr_depth req.cvr_depth ≡ false
        → (s : S) → execute c req s ≡ after_layer_a c req exec (layer_a c req exec s)
    unfolding execute
    reaches given fine s = rw fine (with_executor-some req.exec s given)

    deep_unset :
        (s : S)
        → leb max_cvr_depth req.cvr_depth ≡ true
        → (execute c req s).0.layer_a_outcome ≢ LayerAOutcome.failed
    unfolding execute
    deep_unset s deep = ground arith

    module _ (P : S → Type 0)
        (checkpoint_keeps : (s : S)
          → P s
          → P (exec.execute "state.checkpoint" (checkpoint_label req) s).2) where
      saved-keeps : (m : CheckpointManifest) (r : Option GoError × S) → P r.1 → P (saved m r).1
      unfolding saved
      saved-keeps m (some e, s) h = h
      saved-keeps m (none, s) h = h

      save_checkpoint-keeps :
          (store : ManifestStore S) (x : Extracted) (s : S)
          → StoreKeeps P (some store)
          → P s
          → P (save_checkpoint store req x s).1
      unfolding save_checkpoint
      save_checkpoint-keeps store (missing e) s keep h = h
      save_checkpoint-keeps store (found id) s keep h =
          saved-keeps (manifest_for req id) _ (keep (manifest_for req id) s h)

      checkpointed-keeps :
          (store : ManifestStore S) (r : ExecuteResult × Option GoError × S)
          → StoreKeeps P (some store)
          → P r.2
          → P (checkpointed store req r).1
      unfolding checkpointed
      checkpointed-keeps store (r, some e, s) keep h = h
      checkpointed-keeps store (r, none, s) keep h =
          save_checkpoint-keeps store (extract_checkpoint_id r) s keep h

      insert_checkpoint-keeps :
          (store : Option (ManifestStore S)) (s : S)
          → StoreKeeps P store
          → P s
          → P (insert_checkpoint store req exec s).1
      unfolding insert_checkpoint
      insert_checkpoint-keeps none s keep h = h
      insert_checkpoint-keeps (some store) s keep h =
          checkpointed-keeps store (exec.execute "state.checkpoint" (checkpoint_label req) s) keep
            (checkpoint_keeps s h)

      layer_a-keeps : (s : S) → StoreKeeps P c.store → P s → P (layer_a c req exec s).1
      unfolding layer_a
      layer_a-keeps s keep h = elim (Bool-cases (should_checkpoint req.intent)) [
        | inl yes_gate ↦ rw yes_gate (insert_checkpoint-keeps c.store s keep h)
        | inr no_gate ↦ rw no_gate h
      ]

      after_layer_a-failed :
          (a : LayerA × S)
          → (after_layer_a c req exec a).0.layer_a_outcome ≡ LayerAOutcome.failed
          → P a.1
          → P (after_layer_a c req exec a).2
            × ((e : GoError) × ((after_layer_a c req exec a).1 ≡ some (Errors.layer_a e)))
      unfolding after_layer_a run_primitive conclude
      after_layer_a-failed (failed e, s) o h = (h, (e, refl))
      after_layer_a-failed (created m, s) o h = absurd (ground arith)
      after_layer_a-failed (skipped, s) o h = absurd (ground arith)

      -- A failed Layer A ends the run with a `LayerAErr`, and neither the primitive nor a
      -- verification is run: whatever state.checkpoint and the store keep still holds.
      pub layer_a_failure_stops :
          (s : S)
          → req.exec ≡ some exec
          → StoreKeeps P c.store
          → (execute c req s).0.layer_a_outcome ≡ LayerAOutcome.failed
          → P s
          → P (execute c req s).2
            × ((e : GoError) × ((execute c req s).1 ≡ some (Errors.layer_a e)))
      layer_a_failure_stops s given keep o h = elim (Bool-cases (leb max_cvr_depth req.cvr_depth)) [
        | inl deep ↦ absurd (deep_unset s deep o)
        | inr fine ↦ rw (reaches given fine s) (
            after_layer_a-failed (layer_a c req exec s) (rw (reaches given fine s) at o)
              (layer_a-keeps s keep h))
      ]

    saved-created :
        (m : CheckpointManifest) (r : Option GoError × S) {m' : CheckpointManifest} {s' : S}
        → saved m r ≡ (created m', s')
        → (m ≡ m') × (r ≡ (none, s'))
    unfolding saved
    saved-created m (some e, s) h = ground arith
    saved-created m (none, s) h = ground arith

    save_checkpoint-created :
        (store : ManifestStore S) (x : Extracted) (s : S) {m : CheckpointManifest} {s' : S}
        → save_checkpoint store req x s ≡ (created m, s')
        → (id : String) × (x ≡ found id)
          × (m ≡ manifest_for req id)
          × (store.save_manifest m s ≡ (none, s'))
    unfolding save_checkpoint
    save_checkpoint-created store (missing e) s h = absurd (ground arith)
    save_checkpoint-created store (found id) s h =
        let (same, ok) = saved-created (manifest_for req id) _ h in
        (id, refl, sym same, rw (sym same) ok)

    checkpointed-created :
        (store : ManifestStore S) (r : ExecuteResult × Option GoError × S) {m : CheckpointManifest}
        {s' : S}
        → checkpointed store req r ≡ (created m, s')
        → (r.1 ≡ none)
          × ((id : String) × (extract_checkpoint_id r.0 ≡ found id)
              × (m ≡ manifest_for req id)
              × (store.save_manifest m r.2 ≡ (none, s')))
    unfolding checkpointed
    checkpointed-created store (r, some e, s) h = absurd (ground arith)
    checkpointed-created store (r, none, s) h =
        (refl, save_checkpoint-created store (extract_checkpoint_id r) s h)

    insert_checkpoint-created :
        (store : Option (ManifestStore S)) (s : S) {m : CheckpointManifest} {s' : S}
        → c.store ≡ store
        → insert_checkpoint store req exec s ≡ (created m, s')
        → Checkpointed c req exec s m s'
    unfolding insert_checkpoint
    insert_checkpoint-created none s e h = absurd (ground arith)
    insert_checkpoint-created (some store) s e h =
        let called = exec.execute "state.checkpoint" (checkpoint_label req) s in
        let (quiet, (id, x, m, ok)) = checkpointed-created store called h in
        record {
          store = store;
          id = id;
          after_checkpoint = called.2;
          has_store = e;
          made = quiet;
          then_state = refl;
          extracted = x;
          manifest = m;
          stored = ok;
        }

    insert_checkpoint-ne-skipped :
        (store : Option (ManifestStore S)) (s : S)
        → (insert_checkpoint store req exec s).0 ≢ skipped
    unfolding insert_checkpoint checkpointed save_checkpoint saved
    insert_checkpoint-ne-skipped none s = ground arith
    insert_checkpoint-ne-skipped (some store) s = ground arith

    -- The run went on from a checkpoint that was made and whose manifest was saved.
    abbrev pub Gated : S → CvrResult × Option GoError × S → Type 0
    Gated s final =
        (m : CheckpointManifest) × (s' : S) × Checkpointed c req exec s m s'
        × (final ≡ run_primitive c req exec (created_result m) m s')

    after_layer_a-Gated :
        (s : S) (a : LayerA × S)
        → should_checkpoint req.intent ≡ true
        → layer_a c req exec s ≡ a
        → (after_layer_a c req exec a).0.layer_a_outcome ≢ LayerAOutcome.failed
        → Gated s (after_layer_a c req exec a)
    unfolding layer_a after_layer_a
    after_layer_a-Gated s (failed e, s') gate same ok = absurd (ok refl)
    after_layer_a-Gated s (created m, s') gate same ok =
        (m, s', insert_checkpoint-created c.store s refl (rw gate at same), refl)
    after_layer_a-Gated s (skipped, s') gate same ok =
        absurd (insert_checkpoint-ne-skipped c.store s (ap (λ a. a.0) (rw gate at same)))

    -- A mutation that needs a checkpoint runs only from a state in which the checkpoint was made
    -- without an error, its id was read, and the manifest with that id was saved; the result then
    -- names that checkpoint. Otherwise Layer A is reported as failed.
    pub execute-Gated :
        (s : S)
        → req.exec ≡ some exec
        → req.cvr_depth < max_cvr_depth
        → should_checkpoint req.intent ≡ true
        → (execute c req s).0.layer_a_outcome ≢ LayerAOutcome.failed
        → Gated s (execute c req s)
    execute-Gated s given shallow gate ok =
        let same = reaches given (ground arith) s in
        rw same (after_layer_a-Gated s (layer_a c req exec s) gate refl (λ bad. ok (rw same bad)))
