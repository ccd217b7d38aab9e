-- ===== src/Tests/Packages.antt =====
-- A package that is described, installed and removed, on a host that does what it is asked and notes
-- the programs that it starts and kills.
use primitive_box.Prelude.{String, ◌≡◌, refl, none, some, List, [], ◌∷◌, true, ◌↔◌}
use primitive_box.Apps.{ok}
use primitive_box.Packages.{Boxfile, PackageManifest, InstalledPackage}
use primitive_box.Packages.Descriptor.{validate_boxfile, boxfile_to_manifest}
use primitive_box.Packages.Descriptor.Laws.{IsValid, validate_boxfile-IsValid_iff}
use primitive_box.Packages.Installer.{Host, Settings, State, install_from_manifest}
use primitive_box.Packages.Registry.{install}
use primitive_box.Packages.Installer.Laws.{IsSettled, install_from_manifest-IsSettled}

abbrev described : Boxfile
described = record {
  name = "kv";
  version = "1.0";
  description = "";
  adapter = record {
    kind = "mcp";
    binary_path = "";
    socket_path = "kv.sock";
    args = [];
    mcp_command = "serve";
  };
  primitives =
      record {
        name = "kv.set";
        description = "";
        intent = record { category = ""; side_effect = ""; risk_level = ""; reversible = true };
      }
      ∷ [];
  healthcheck = none;
  bootstrap = some (record { src = "seed"; dst = "data/seed" } ∷ []);
}

abbrev kv : PackageManifest
kv = record {
  name = "kv";
  version = "1.0";
  description = "";
  adapter = record {
    kind = "mcp";
    binary_path = "{pb_dir}/pb-mcp-bridge";
    socket_path = "{workspace}/kv.sock";
    args = "--cmd" ∷ "serve" ∷ [];
  };
  primitives = described.primitives;
  healthcheck = none;
}

abbrev host : Host (List String)
host = record {
  stat = λ path w. none;
  make_dir_of = λ path w. (none, w);
  start = λ path args w. (ok 7, path ∷ w);
  terminate = λ pid w. "terminate" ∷ w;
  kill = λ pid w. "kill" ∷ w;
  listings = none;
  cancelled = λ w. none;
  check_health = λ hc w. none;
  mark_unavailable = λ name w. w;
}

abbrev settings : Settings (List String)
settings = record {
  host = host;
  fault = λ statement rows. none;
  gateway_url = "";
  workspace = "/ws";
  pb_dir = "/pb";
}

abbrev empty : State (List String)
empty = record { rows = []; processes = []; world = []; events = [] }

abbrev kv_row : InstalledPackage
kv_row = record {
  name = "kv";
  version = "1.0";
  socket_path = "/ws/kv.sock";
  binary_path = "/pb/pb-mcp-bridge";
  args = "--socket" ∷ "/ws/kv.sock" ∷ "--cmd" ∷ "serve" ∷ [];
  status = "active";
}

abbrev running : State (List String)
running = record {
  rows = kv_row ∷ [];
  processes = ("kv", 7) ∷ [];
  world = "/pb/pb-mcp-bridge" ∷ [];
  events = ("package.installed", "kv") ∷ [];
}

abbrev gone : State (List String)
gone = record {
  rows = [];
  processes = [];
  world = "kill" ∷ "terminate" ∷ "/pb/pb-mcp-bridge" ∷ [];
  events = ("package.removed", "kv") ∷ ("package.installed", "kv") ∷ [];
}

described_is_valid : validate_boxfile described ≡ none
unfolding validate_boxfile
described_is_valid = refl

described_is_kv : boxfile_to_manifest (λ base path. ok path) (λ s. none) described "/home" ≡ ok kv
unfolding boxfile_to_manifest
described_is_kv = refl

kv_is_installed : install_from_manifest settings kv [] empty ≡ (none, running)
unfolding install_from_manifest
kv_is_installed = refl

validate_boxfile-IsValid_iff_example : (validate_boxfile described ≡ none) ↔ IsValid described
validate_boxfile-IsValid_iff_example = validate_boxfile-IsValid_iff described

install_from_manifest-IsSettled_example :
    IsSettled settings kv [] empty (install_from_manifest settings kv [] empty)
install_from_manifest-IsSettled_example = install_from_manifest-IsSettled settings kv [] empty

bridge_is_installed : (install settings "mcp-bridge" [] empty).1.processes ≡ ("mcp-bridge", 7) ∷ []
unfolding install
bridge_is_installed = refl
