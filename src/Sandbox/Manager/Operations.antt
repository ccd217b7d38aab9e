-- ===== src/Sandbox/Manager/Operations.antt =====
-- The other operations of Manager in internal/sandbox/manager.go: Stop, Destroy, List, Inspect,
-- Exec, CreatePlaceholder, Touch and ReapExpired.
use primitive_box.Prelude.{ℕ, suc, String, Option, none, some, List, [], ◌∷◌}
use primitive_box.Errors.{GoError, wrap}
use primitive_box.Sandbox.{ℤ, stopped, Sandbox, ExecCommand, ExecResult, Outcome, gave, failed}
use primitive_box.Sandbox.Config.{touch_lifecycle}
use primitive_box.Sandbox.Store.{delete, list, list_expired}
use primitive_box.Sandbox.Manager.{
  State, Environment, publish, upsert_sandbox, get_sandbox, refresh_sandbox_status, not_found,
  announced,
}

module _ {W : Type 0} (env : Environment W) where
  unfoldable pub stop_found :
      ℕ → String → Sandbox → Option GoError × W → State W → Option GoError × State W
  unfolding upsert_sandbox announced
  stop_found now id sb (some e, w) s =
      (some (wrap "failed to stop sandbox: " e), record s { runtime = w })
  stop_found now id sb (none, w) s = announced env "sandbox.stopped" id (
      upsert_sandbox env now
        (record sb { status = stopped; health_status = "stopped"; updated_at = now })
        (record s { runtime = w }))

  unfoldable pub stop : ℕ → String → State W → Option GoError × State W
  unfolding get_sandbox stop_found not_found
  stop now id s =
      let halted = env.driver.stop id s.runtime in
      elim (get_sandbox env id s) [
        | none ↦ (some (not_found env id), s)
        | some sb ↦ stop_found now id sb halted s
      ]

  unfoldable pub destroy_deleted :
      String → Option GoError × List Sandbox → State W → Option GoError × State W
  unfolding publish
  destroy_deleted id (some e, rows) s =
      (some (wrap "failed to delete sandbox metadata: " e), record s { rows = rows })
  destroy_deleted id (none, rows) s =
      (none, publish env "sandbox.destroyed" "manager" id (record s { rows = rows }))

  unfoldable pub destroy_driven : String → Option GoError × W → State W → Option GoError × State W
  unfolding destroy_deleted delete
  destroy_driven id (some e, w) s =
      (some (wrap "failed to destroy sandbox: " e), record s { runtime = w })
  destroy_driven id (none, w) s =
      destroy_deleted id (delete env.faults id s.rows) (record s { runtime = w })

  unfoldable pub destroy : String → State W → Option GoError × State W
  unfolding destroy_driven
  destroy id s = destroy_driven id (env.driver.destroy id s.runtime) s

  -- A sandbox that could not be refreshed is given as it is recorded; an error of the write is
  -- not heeded.
  unfoldable pub refreshed_or : ℕ → Sandbox → Outcome Sandbox × W → State W → Sandbox × State W
  unfolding upsert_sandbox
  refreshed_or now sb (failed e, w) s = (sb, record s { runtime = w })
  refreshed_or now sb (gave found, w) s =
      (found, (upsert_sandbox env now found (record s { runtime = w })).1)

  unfoldable pub refresh_all : ℕ → List Sandbox → State W → List Sandbox × State W
  unfolding refreshed_or refresh_sandbox_status
  refresh_all now [] s = ([], s)
  refresh_all now (sb ∷ rest) s =
      let (found, s1) = refreshed_or now sb (refresh_sandbox_status env now sb s.runtime) s in
      let (later, s2) = refresh_all now rest s1 in (found ∷ later, s2)

  list_listed : ℕ → Outcome (List Sandbox) → State W → Outcome (List Sandbox) × State W
  unfolding refresh_all
  list_listed now (failed e) s = (failed e, s)
  list_listed now (gave rows) s = let (out, s') = refresh_all now rows s in (gave out, s')

  unfoldable pub list_sandboxes : ℕ → State W → Outcome (List Sandbox) × State W
  unfolding list_listed list
  list_sandboxes now s = list_listed now (list env.faults s.rows) s

  unfoldable pub inspect : ℕ → String → State W → Outcome Sandbox × State W
  unfolding get_sandbox refreshed_or refresh_sandbox_status not_found
  inspect now id s = elim (get_sandbox env id s) [
    | none ↦ (failed (not_found env id), s)
    | some sb ↦
        let (found, s') = refreshed_or now sb (refresh_sandbox_status env now sb s.runtime) s in
        (gave found, s')
  ]

  unfoldable pub create_placeholder : ℕ → Sandbox → State W → Option GoError × State W
  unfolding upsert_sandbox
  create_placeholder now sb s = upsert_sandbox env now sb s

  unfoldable pub touch_found : ℕ → String → Option Sandbox → State W → Option GoError × State W
  unfolding upsert_sandbox touch_lifecycle not_found
  touch_found now id none s = (some (not_found env id), s)
  touch_found now id (some sb) s = upsert_sandbox env now (touch_lifecycle now sb) s

  unfoldable pub touch : ℕ → String → State W → Option GoError × State W
  unfolding get_sandbox touch_found
  touch now id s = touch_found now id (get_sandbox env id s) s

  exec_ran : ℕ → String → Outcome ExecResult × W → State W → Outcome ExecResult × State W
  unfolding touch
  exec_ran now id (failed e, w) s = (failed e, record s { runtime = w })
  exec_ran now id (gave result, w) s = (gave result, (touch now id (record s { runtime = w })).1)

  unfoldable pub exec : ℕ → String → ExecCommand → State W → Outcome ExecResult × State W
  unfolding exec_ran
  exec now id cmd s = exec_ran now id (env.driver.exec id cmd s.runtime) s

  -- One sandbox of the reaper's list: the error that ends the loop, or the state to go on from.
  unfoldable pub reaped_one : String → Option GoError × State W → Option GoError × State W
  unfolding publish
  reaped_one id (some e, s) = (some e, s)
  reaped_one id (none, s) = (none, publish env "sandbox.reaped" "reaper" id s)

  -- An error ends the loop, with the number so far.
  abbrev pub ended_by :
      Option GoError → ℕ → State W → ℕ × Option GoError × State W → ℕ × Option GoError × State W
  ended_by (some err) n s later = (n, some err, s)
  ended_by none n s later = later

  -- The loop over the expired sandboxes, with the number that it has destroyed.
  unfoldable pub reap : List Sandbox → ℕ → State W → ℕ × Option GoError × State W
  unfolding reaped_one destroy
  reap [] n s = (n, none, s)
  reap (sb ∷ rest) n s =
      let (e, s1) = reaped_one sb.id (destroy sb.id s) in
      let later = reap rest (suc n) s1 in ended_by e n s1 later

  unfoldable pub reap_listed : Outcome (List Sandbox) → State W → ℕ × Option GoError × State W
  unfolding reap
  reap_listed (failed e) s = (0, some e, s)
  reap_listed (gave expired) s = reap expired 0 s

  unfoldable pub reap_expired : ℕ → ℤ → State W → ℕ × Option GoError × State W
  unfolding reap_listed list_expired
  reap_expired now limit s = reap_listed (list_expired env.faults now limit s.rows) s
