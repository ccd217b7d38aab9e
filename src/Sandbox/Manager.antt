-- ===== src/Sandbox/Manager.antt =====
-- The operations of Manager in internal/sandbox/manager.go over a store, a driver and the events
-- that are published, last one first. `now` is the clock during an operation, `healthy` the answer of
-- a sandbox's health endpoint. Snapshots are never made by this code, and importing a legacy
-- registry is left to the store.
pub mod Operations
pub mod Reaper
pub mod Expiry
use primitive_box.Prelude.{
  ℕ, ◌+◌, String, ◌<>◌, Bool, true, false, not, ◌&&◌, Option, none, some, List, [], ◌∷◌, ◌=ₛ◌,
  if◌then◌else◌,
}
use primitive_box.Errors.{GoError, message, wrap}
use primitive_box.Sandbox.{
  ℤ, SandboxConfig, SandboxStatus, running, stopped, destroyed, RuntimeCapability, Sandbox,
  ExecCommand, ExecResult, Outcome, gave, failed, RuntimeDriver,
}
use primitive_box.Sandbox.Config.{
  or_text, or_count, apply_sandbox_defaults, merge_sandbox_state, compute_expiry, touch_lifecycle,
}
use primitive_box.Sandbox.Store.{StoreFaults, upsert, get, list, delete, list_expired}

-- `sandbox.created` and the like, with the sandbox's id.
pub record SandboxEvent : Type 0 where
  pub kind : String
  pub source : String
  pub sandbox_id : String

-- What the manager works on: the store's rows, the runtime and the events.
pub record State (W : Type 0) : Type 0 where
  pub rows : List Sandbox
  pub runtime : W
  pub events : List SandboxEvent

pub record Environment (W : Type 0) : Type 0 where
  pub driver : RuntimeDriver W
  pub faults : StoreFaults
  pub healthy : Sandbox → W → Bool
  pub absolute : String → Option String
  pub install : String → W → W

module _ {W : Type 0} (env : Environment W) where
  unfoldable pub publish : String → String → String → State W → State W
  publish kind source id s = record s {
    events = (record { kind = kind; source = source; sandbox_id = id }) ∷ s.events;
  }

  abbrev pub or_driver_capabilities :
      Option (List RuntimeCapability) → W → Option (List RuntimeCapability)
  or_driver_capabilities (some cs) w = some cs
  or_driver_capabilities none w = env.driver.get_capabilities w

  abbrev pub completed : ℕ → Sandbox → W → Sandbox
  completed now sb w = record sb {
    driver = or_text sb.driver sb.config.driver;
    capabilities = or_driver_capabilities sb.capabilities w;
    updated_at = or_count sb.updated_at now;
  }

  unfoldable pub upsert_sandbox : ℕ → Sandbox → State W → Option GoError × State W
  unfolding upsert
  upsert_sandbox now sb s =
      let (e, rows) = upsert env.faults (completed now sb s.runtime) s.rows in
      (e, record s { rows = rows })

  -- `Get`: an error of the store reads as a sandbox that is not there.
  abbrev pub found_of : Outcome (Option Sandbox) → Option Sandbox
  found_of (gave o) = o
  found_of (failed e) = none

  unfoldable pub get_sandbox : String → State W → Option Sandbox
  unfolding get
  get_sandbox id s = found_of (get env.faults id s.rows)

  unfoldable pub health_of : Bool → SandboxStatus → String
  health_of true running = "healthy"
  health_of false running = "starting"
  health_of _ stopped = "stopped"
  health_of _ destroyed = "destroyed"
  health_of _ _ = "error"

  with_health : Sandbox → W → Sandbox
  unfolding health_of
  with_health sb w = record sb {
    health_status = health_of (not (sb.rpc_endpoint =ₛ "") && env.healthy sb w) sb.status;
  }

  -- The status that the runtime gives, where it could not be inspected.
  with_status : Sandbox → Outcome SandboxStatus × W → Outcome Sandbox × W
  unfolding with_health
  with_status sb (gave status, w) = (gave (with_health (record sb { status = status }) w), w)
  with_status sb (failed e, w) = (failed e, w)

  -- The sandbox as the runtime reports it, or with the status that the runtime gives.
  unfoldable pub refreshed_by : Sandbox → Outcome (Option Sandbox) × W → Outcome Sandbox × W
  unfolding with_health with_status merge_sandbox_state
  refreshed_by sb (gave found, w) = (gave (with_health (merge_sandbox_state sb found) w), w)
  refreshed_by sb (failed e, w) = with_status sb (env.driver.get_status sb.id w)

  unfoldable pub refresh_sandbox_status : ℕ → Sandbox → W → Outcome Sandbox × W
  unfolding refreshed_by
  refresh_sandbox_status now sb w =
      refreshed_by (record (completed now sb w) { updated_at = now }) (env.driver.inspect sb.id w)

  -- What is recorded of a sandbox that the driver has created.
  unfoldable pub created_sandbox : ℕ → SandboxConfig → Sandbox → W → Sandbox
  unfolding compute_expiry
  created_sandbox now config sb w =
      let created = or_count sb.created_at now in
      record sb {
        config = config;
        driver = or_text sb.driver config.driver;
        namespace = config.namespace;
        capabilities = or_driver_capabilities sb.capabilities w;
        created_at = created;
        updated_at = now;
        last_accessed_at = now;
        expires_at = compute_expiry now created now config.lifecycle;
      }

  install_all : List String → W → W
  install_all [] w = w
  install_all (name ∷ rest) w = install_all rest (env.install name w)

  unfoldable pub create_recorded : Sandbox → Option GoError × State W → Outcome Sandbox × State W
  unfolding publish install_all
  create_recorded sb (some e, s) = (failed e, s)
  create_recorded sb (none, s) =
      let s' = publish "sandbox.created" "manager" sb.id s in
      (gave sb, record s' { runtime = install_all sb.config.packages s'.runtime })

  unfoldable pub create_started :
      ℕ → SandboxConfig → Outcome Sandbox × W → State W → Outcome Sandbox × State W
  unfolding created_sandbox upsert_sandbox create_recorded
  create_started now config (failed e, w) s =
      (failed (wrap "failed to create sandbox: " e), record s { runtime = w })
  create_started now config (gave sb, w) s =
      let sandbox = completed now (created_sandbox now config sb w) w in
      create_recorded sandbox (upsert_sandbox now sandbox (record s { runtime = w }))

  unfoldable pub create : ℕ → SandboxConfig → State W → Outcome Sandbox × State W
  unfolding create_started apply_sandbox_defaults
  create now given s =
      let config = apply_sandbox_defaults env.absolute given in
      create_started now config (env.driver.create config s.runtime) s

  unfoldable pub not_found : String → GoError
  not_found id = message ("sandbox not found: " <> id)

  -- An event behind a write that succeeded.
  unfoldable pub announced : String → String → Option GoError × State W → Option GoError × State W
  unfolding publish
  announced kind id (some e, s) = (some e, s)
  announced kind id (none, s) = (none, publish kind "manager" id s)

  -- The health endpoint is asked once more.
  started_health : Sandbox → W → Sandbox
  unfolding with_health
  started_health sb w = elim sb.status [ running ↦ with_health sb w | _ ↦ sb ]

  start_refreshed : ℕ → String → Outcome Sandbox × W → State W → Option GoError × State W
  unfolding upsert_sandbox announced touch_lifecycle started_health
  start_refreshed now id (failed e, w) s = (some e, record s { runtime = w })
  start_refreshed now id (gave sb, w) s =
      announced "sandbox.started" id
        (upsert_sandbox now (touch_lifecycle now (started_health sb w)) (record s { runtime = w }))

  start_found : ℕ → String → Sandbox → Option GoError × W → State W → Option GoError × State W
  unfolding start_refreshed refresh_sandbox_status
  start_found now id sb (some e, w) s =
      (some (wrap "failed to start sandbox: " e), record s { runtime = w })
  start_found now id sb (none, w) s = start_refreshed now id (refresh_sandbox_status now sb w) s

  unfoldable pub start : ℕ → String → State W → Option GoError × State W
  unfolding get_sandbox start_found not_found
  start now id s =
      let started = env.driver.start id s.runtime in
      elim (get_sandbox id s) [
        | none ↦ (some (not_found id), s)
        | some sb ↦ start_found now id sb started s
      ]
