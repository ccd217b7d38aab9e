-- ===== src/Tests/Sandboxes.antt =====
-- The sandbox manager over a store in memory and a runtime that does what it is asked.
use primitive_box.Prelude.{
  inl, inr, ◌^◌, String, ◌≡◌, refl, true, false, none, some, List, [], ◌∷◌, All, length, ◌≢◌, ap,
  eq_iff, arith,
}
use primitive_box.Errors.{message}
use primitive_box.Sandbox.{
  ℤ, pos, negsuc, NetworkMode, SandboxConfig, running, Sandbox, gave, failed, RuntimeDriver,
}
use primitive_box.Sandbox.Config.{deadline, compute_expiry, apply_sandbox_defaults}
use primitive_box.Sandbox.Config.Laws.{Fits, IsNetworkOf, apply_sandbox_defaults-network}
use primitive_box.Sandbox.Store.{reliable, find_row, list_expired}
use primitive_box.Sandbox.Drivers.{router_driver}
use primitive_box.Sandbox.Drivers.Laws.{IsMadeBy, ServedBy, router_driver-ServedBy}
use primitive_box.Sandbox.Manager.{State, Environment, create}
use primitive_box.Sandbox.Manager.Operations.{touch, reap_expired}
use primitive_box.Sandbox.Manager.Reaper.{reap_expired-spares}
use primitive_box.Sandbox.Manager.Reaper.Gone.{DestroyedAll, reap_expired-gone}
use primitive_box.Sandbox.Manager.Expiry.{IsTouched, touch-IsTouched, IsRecorded, create-IsRecorded}

abbrev config : SandboxConfig
config = record {
  driver = "";
  image = "python:3.11-slim";
  mount_source = "";
  mount_target = "";
  cpu_limit = none;
  memory_limit = pos 0;
  disk_limit = pos 0;
  network_enabled = false;
  allowed_hosts = [];
  network_policy = record {
    mode = NetworkMode.unset;
    allow_hosts = [];
    allow_cidrs = [];
    allow_ports = [];
  };
  namespace = "";
  lifecycle = record { ttl_seconds = pos 3600; idle_ttl_seconds = pos 600 };
  user = "";
  env = [];
  labels = [];
  packages = [];
}

abbrev box : String → ℤ → Sandbox
box id expires_at = record {
  id = id;
  container_id = "";
  driver = "docker";
  namespace = "default";
  config = config;
  status = running;
  health_status = "";
  rpc_endpoint = "";
  rpc_port = 0;
  created_at = 1000;
  updated_at = 1000;
  last_accessed_at = 1000;
  expires_at = expires_at;
  labels = [];
  capabilities = some [];
  metadata = [];
}

-- The runtime notes what it was asked to do.
abbrev driver : RuntimeDriver (List String)
driver = record {
  create = λ c w. (gave (box "sb-1" (pos 0)), "create" ∷ w);
  start = λ id w. (none, "start" ∷ w);
  stop = λ id w. (none, "stop" ∷ w);
  destroy = λ id w. (none, "destroy" ∷ w);
  exec = λ id cmd w. (failed (message "no shell"), w);
  inspect = λ id w. (gave none, w);
  get_status = λ id w. (gave running, w);
  get_capabilities = λ w. some [];
  name = "docker";
}

abbrev environment : Environment (List String)
environment = record {
  driver = driver;
  faults = reliable;
  healthy = λ sb w. true;
  absolute = λ path. none;
  install = λ name w. w;
}

abbrev before : State (List String)
before = record {
  rows = box "old" (pos 1500) ∷ box "new" (pos 9000) ∷ [];
  runtime = [];
  events = [];
}

earliest_is_idle : compute_expiry 2500 1000 2000 config.lifecycle ≡ pos 2600
unfolding compute_expiry
earliest_is_idle = refl

-- Lifetimes that do not fit a duration wrap around: to the past, and to the creation.
long_is_over : deadline 1700000000 (some 9223372037) ≡ some (negsuc 7523372036)
long_is_over = refl

longest_is_over : deadline 1700000000 (some (2 ^ 55)) ≡ some (pos 1700000000)
longest_is_over = refl

apply_sandbox_defaults-network_example :
    IsNetworkOf config (apply_sandbox_defaults (λ path. none) config).network_policy
apply_sandbox_defaults-network_example = apply_sandbox_defaults-network (λ path. none) config

old_not_new : ◌≢◌ {A = String} "new" "old"
old_not_new = ground (arith, eq_iff "new" "old")

new_there : find_row "new" before.rows ≡ some (box "new" (pos 9000))
unfolding find_row
new_there = refl

abbrev reaped : State (List String)
reaped = (reap_expired environment 2000 (pos 32) before).2

reap_expired-spares_example : find_row "new" reaped.rows ≡ some (box "new" (pos 9000))
reap_expired-spares_example =
    reap_expired-spares environment 2000 (pos 32) before "new" (box "new" (pos 9000))
      ((old_not_new, tt), (tt, tt)) new_there (inr (inl (9000, refl, ground arith)))

one_reaped : reap_expired environment 2000 (pos 32) before ≡ (1, none, reaped)
unfolding reap_expired
one_reaped = refl

reap_expired-gone_example :
    (l : List Sandbox) × (list_expired reliable 2000 (pos 32) before.rows ≡ gave l)
    × (1 ≡ length l)
    × All (λ (sb : Sandbox). find_row sb.id reaped.rows ≡ none) l
    × DestroyedAll environment l before.runtime reaped.runtime
reap_expired-gone_example = reap_expired-gone environment 2000 (pos 32) before reaped 1 one_reaped

touched : (touch environment 2000 "new" before).0 ≡ none
unfolding touch
touched = refl

short : Fits config.lifecycle
short = (ground arith, ground arith)

touch-IsTouched_example :
    (t : Sandbox) × (find_row "new" (touch environment 2000 "new" before).1.rows ≡ some t)
    × IsTouched environment 2000 (box "new" (pos 9000)) t
touch-IsTouched_example =
    touch-IsTouched environment 2000 "new" before (touch environment 2000 "new" before).1
      (box "new" (pos 9000)) new_there short
      (ap (λ e. (e, (touch environment 2000 "new" before).1)) touched)

abbrev made : Sandbox
made = record (box "sb-1" (pos 2600)) {
  config = apply_sandbox_defaults (λ path. none) config;
  updated_at = 2000;
  last_accessed_at = 2000;
}

created_now :
    create environment 2000 config before ≡ (gave made, (create environment 2000 config before).1)
unfolding create
created_now = refl

create-IsRecorded_example :
    IsRecorded environment 2000 config made (create environment 2000 config before).1.rows
create-IsRecorded_example =
    create-IsRecorded environment 2000 config before (create environment 2000 config before).1 made
      short created_now

abbrev routed : RuntimeDriver (List String)
routed = router_driver (some (λ id w. some "docker")) (driver ∷ [])

routed_create : routed.create config [] ≡ (gave (box "sb-1" (pos 0)), "create" ∷ [])
unfolding router_driver
routed_create = refl

router_driver-ServedBy_example :
    (d : RuntimeDriver (List String)) × IsMadeBy
      (λ id w. some "docker")
      (driver ∷ [])
      d
      config
      (box "sb-1" (pos 0))
      []
      ("create" ∷ [])
    × ServedBy routed d "sb-1" ("create" ∷ [])
router_driver-ServedBy_example =
    router_driver-ServedBy (λ id w. some "docker") (driver ∷ []) config (box "sb-1" (pos 0)) []
      ("create" ∷ []) ("create" ∷ []) routed_create refl
