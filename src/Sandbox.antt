-- ===== src/Sandbox.antt =====
-- The types of internal/sandbox/runtime.go. Times are seconds since 1970, 0 where none is set; maps
-- are lists of their entries; a nil slice of capabilities is `none`. The processor limit is kept as
-- the text of its number, `none` for 0.
pub mod Config
pub mod Store
pub mod Manager
pub mod Router
pub mod Drivers
use primitive_box.Prelude.{ℕ, String, Bool, true, false, ltb, Option, List}
use primitive_box.Errors.{GoError}

-- int64
pub data ℤ : Type 0 where
  pos : ℕ → ℤ
  negsuc : ℕ → ℤ

abbrev pub lt_int : ℤ → ℤ → Bool
lt_int (pos a) (pos b) = ltb a b
lt_int (pos a) (negsuc b) = false
lt_int (negsuc a) (pos b) = true
lt_int (negsuc a) (negsuc b) = ltb b a

pub data NetworkMode : Type 0 where
  unset none full policy : NetworkMode
  other : String → NetworkMode

pub record NetworkPolicy : Type 0 where
  pub mode : NetworkMode
  pub allow_hosts : List String
  pub allow_cidrs : List String
  pub allow_ports : List ℤ

pub record LifecyclePolicy : Type 0 where
  pub ttl_seconds : ℤ
  pub idle_ttl_seconds : ℤ

pub record SandboxConfig : Type 0 where
  pub driver : String
  pub image : String
  pub mount_source : String
  pub mount_target : String
  pub cpu_limit : Option String
  pub memory_limit : ℤ
  pub disk_limit : ℤ
  pub network_enabled : Bool
  pub allowed_hosts : List String
  pub network_policy : NetworkPolicy
  pub namespace : String
  pub lifecycle : LifecyclePolicy
  pub user : String
  pub env : List (String × String)
  pub labels : List (String × String)
  pub packages : List String

pub data SandboxStatus : Type 0 where
  unset creating running stopped error destroyed : SandboxStatus
  other : String → SandboxStatus

pub record RuntimeCapability : Type 0 where
  pub name : String
  pub supported : Bool
  pub notes : String

pub record Sandbox : Type 0 where
  pub id : String
  pub container_id : String
  pub driver : String
  pub namespace : String
  pub config : SandboxConfig
  pub status : SandboxStatus
  pub health_status : String
  pub rpc_endpoint : String
  pub rpc_port : ℕ
  pub created_at : ℕ
  pub updated_at : ℕ
  pub last_accessed_at : ℕ
  pub expires_at : ℤ
  pub labels : List (String × String)
  pub capabilities : Option (List RuntimeCapability)
  pub metadata : List (String × String)

pub record ExecCommand : Type 0 where
  pub command : String
  pub args : List String
  pub env : List (String × String)
  pub working_dir : String
  pub timeout_s : ℤ
  pub user : String

pub record ExecResult : Type 0 where
  pub exit_code : ℤ
  pub stdout : String
  pub stderr : String
  pub timed_out : Bool

-- A result or an error, with the state of the runtime behind it.
pub data Outcome (A : Type 0) : Type 0 where
  gave : A → Outcome A
  failed : GoError → Outcome A

-- RuntimeDriver over the state `W` of the container runtime, and the hydrator of packages.
pub record RuntimeDriver (W : Type 0) : Type 0 where
  pub create : SandboxConfig → W → Outcome Sandbox × W
  pub start : String → W → Option GoError × W
  pub stop : String → W → Option GoError × W
  pub destroy : String → W → Option GoError × W
  pub exec : String → ExecCommand → W → Outcome ExecResult × W
  pub inspect : String → W → Outcome (Option Sandbox) × W
  pub get_status : String → W → Outcome SandboxStatus × W
  pub get_capabilities : W → Option (List RuntimeCapability)
  pub name : String
