-- ===== src/Sandbox/Config.antt =====
-- applySandboxDefaults, mergeSandboxState and computeExpiry of internal/sandbox/manager.go. Cloning
-- is the identity on values. A duration is an int64 of nanoseconds, and wraps around like one.
pub mod Laws
use primitive_box.Prelude.{
  ℕ, zero, suc, ◌+◌, ◌-◌, ◌*◌, ◌/◌, ◌%◌, ◌^◌, String, Bool, true, false, not, ◌&&◌, ◌||◌, Option,
  none, some, List, [], ◌∷◌, leb, ltb, ◌==◌, ◌=ₛ◌, if◌then◌else◌,
}
use primitive_box.Sandbox.{
  ℤ, pos, negsuc, lt_int, NetworkMode, NetworkPolicy, LifecyclePolicy, SandboxConfig, SandboxStatus,
  Sandbox, RuntimeCapability,
}

-- The number, if it is positive.
abbrev pub positive : ℤ → Option ℕ
positive (pos zero) = none
positive (pos (suc n)) = some (suc n)
positive (negsuc n) = none

abbrev pub or_text : String → String → String
or_text s default = if s =ₛ "" then default else s

abbrev pub or_number : ℤ → ℤ → ℤ
or_number (pos zero) default = default
or_number n default = n

abbrev pub or_limit : Option String → String → Option String
or_limit none default = some default
or_limit (some limit) default = some limit

abbrev pub is_empty {ℓ} : {A : Type ℓ} → List A → Bool
is_empty [] = true
is_empty (x ∷ xs) = false

abbrev pub or_list {ℓ} : {A : Type ℓ} → List A → List A → List A
or_list [] default = default
or_list (x ∷ xs) default = x ∷ xs

-- `m[key] = value`
unfoldable pub put_entry : String → String → List (String × String) → List (String × String)
put_entry key v [] = (key, v) ∷ []
put_entry key v ((k, w) ∷ rest) =
    let later = put_entry key v rest in if k =ₛ key then (key, v) ∷ rest else (k, w) ∷ later

-- The mode of a policy that names none.
unfoldable pub default_mode : Bool → NetworkPolicy → NetworkMode
default_mode enabled p =
    if not enabled && is_empty p.allow_hosts && is_empty p.allow_cidrs
    then NetworkMode.none
    else if not (is_empty p.allow_hosts)
        || not (is_empty p.allow_cidrs)
        || not (is_empty p.allow_ports)
    then NetworkMode.policy
    else NetworkMode.full

abbrev pub or_mode : NetworkMode → NetworkMode → NetworkMode
or_mode NetworkMode.unset default = default
or_mode mode default = mode

-- `filepath.Abs`, where it gives a path.
module _ (absolute : String → Option String) where
  unfoldable pub absolute_source : String → String
  absolute_source source =
      if source =ₛ "" then source else elim (absolute source) [ none ↦ source | some path ↦ path ]

  unfoldable pub apply_sandbox_defaults : SandboxConfig → SandboxConfig
  unfolding absolute_source default_mode put_entry
  apply_sandbox_defaults c =
      let hosts = or_list c.network_policy.allow_hosts c.allowed_hosts in
      let allowed = record (c.network_policy) { allow_hosts = hosts } in
      record c {
        driver = or_text c.driver "docker";
        mount_target = or_text c.mount_target "/workspace";
        user = or_text c.user "1000:1000";
        cpu_limit = or_limit c.cpu_limit "1.0";
        memory_limit = or_number c.memory_limit (pos 512);
        namespace = or_text c.namespace "default";
        mount_source = absolute_source c.mount_source;
        network_policy = record allowed {
          mode = or_mode c.network_policy.mode (default_mode c.network_enabled allowed);
        };
        labels = put_entry "managed-by" "primitivebox" c.labels;
      }

abbrev pub or_count : ℕ → ℕ → ℕ
or_count n default = if n == 0 then default else n

abbrev pub or_status : SandboxStatus → SandboxStatus → SandboxStatus
or_status SandboxStatus.unset default = default
or_status s default = s

abbrev pub or_capabilities :
    Option (List RuntimeCapability)
    → Option (List RuntimeCapability)
    → Option (List RuntimeCapability)
or_capabilities (some (c ∷ cs)) default = some (c ∷ cs)
or_capabilities _ default = default

-- What the runtime reports goes over what was recorded, where it reports anything.
unfoldable pub merge_found : Sandbox → Sandbox → Sandbox
merge_found dst src = record dst {
  container_id = or_text src.container_id dst.container_id;
  driver = or_text src.driver dst.driver;
  namespace = or_text src.namespace dst.namespace;
  config =
      if not (src.config.image =ₛ "") || not (src.config.mount_source =ₛ "")
      then src.config
      else dst.config;
  status = or_status src.status dst.status;
  rpc_endpoint = or_text src.rpc_endpoint dst.rpc_endpoint;
  rpc_port = or_count src.rpc_port dst.rpc_port;
  created_at = or_count src.created_at dst.created_at;
  updated_at = or_count src.updated_at dst.updated_at;
  last_accessed_at = or_count src.last_accessed_at dst.last_accessed_at;
  expires_at = or_number src.expires_at dst.expires_at;
  labels = or_list src.labels dst.labels;
  capabilities = or_capabilities src.capabilities dst.capabilities;
  metadata = or_list src.metadata dst.metadata;
}

unfoldable pub merge_sandbox_state : Sandbox → Option Sandbox → Sandbox
unfolding merge_found
merge_sandbox_state dst none = dst
merge_sandbox_state dst (some src) = merge_found dst src

-- The earlier of two deadlines that may be missing.
abbrev pub earlier : Option ℤ → Option ℤ → ℤ
earlier none none = pos 0
earlier (some a) none = a
earlier none (some b) = b
earlier (some a) (some b) = if lt_int b a then b else a

-- `time.Duration(seconds) * time.Second`, as the 64 bits of an int64.
abbrev pub nanoseconds : ℕ → ℕ
nanoseconds seconds = seconds * 1000000000 % 2 ^ 64

abbrev pub seconds_before : ℕ → ℕ → ℤ
seconds_before base n = if leb n base then pos (base - n) else negsuc (n - base - 1)

-- The second of `time.Unix(base, 0).Add(d)`, where bits from 2 ^ 63 on stand for a negative `d`.
abbrev pub add_duration : ℕ → ℕ → ℤ
add_duration base d =
    if ltb d (2 ^ 63)
    then pos (base + d / 1000000000)
    else seconds_before base ((2 ^ 64 - d + 999999999) / 1000000000)

abbrev pub deadline : ℕ → Option ℕ → Option ℤ
deadline base none = none
deadline base (some seconds) = some (add_duration base (nanoseconds seconds))

unfoldable pub compute_expiry : ℕ → ℕ → ℕ → LifecyclePolicy → ℤ
compute_expiry now created_at last_accessed_at policy =
    earlier (deadline created_at (positive policy.ttl_seconds))
      (deadline (or_count last_accessed_at now) (positive policy.idle_ttl_seconds))

unfoldable pub touch_lifecycle : ℕ → Sandbox → Sandbox
unfolding compute_expiry
touch_lifecycle now sb = record sb {
  last_accessed_at = now;
  updated_at = now;
  expires_at = compute_expiry now sb.created_at now sb.config.lifecycle;
}
