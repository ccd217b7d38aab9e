-- ===== src/Packages/Registry.antt =====
-- LocalRegistry of internal/pkgmgr/registry.go with the packages that come with the program, and
-- Install of internal/pkgmgr/installer.go.
use primitive_box.Prelude.{
  String, ◌<>◌, Bool, true, false, Option, none, some, List, [], ◌∷◌, ◌=ₛ◌, if◌then◌else◌, quote,
}
use primitive_box.Errors.{GoError, message, wrap}
use primitive_box.Json.{Fields}
use primitive_box.Apps.{Result, ok, err}
use primitive_box.Packages.{PrimitiveSpec, PackageManifest}
use primitive_box.Packages.Descriptor.{five_seconds}
use primitive_box.Packages.Installer.{Settings, State, install_from_manifest}

abbrev spec : String → String → String → String → Bool → PrimitiveSpec
spec name category side_effect risk_level reversible = record {
  name = name;
  description = "";
  intent = record {
    category = category;
    side_effect = side_effect;
    risk_level = risk_level;
    reversible = reversible;
  };
}

abbrev pub os_package : PackageManifest
os_package = record {
  name = "os";
  version = "0.1.0";
  description = "OS adapter: process.*, service.*, pkg.* primitives";
  adapter = record {
    kind = "binary";
    binary_path = "{pb_dir}/pb-os-adapter";
    socket_path = "{workspace}/.pb/sockets/os-adapter.sock";
    args = [];
  };
  primitives =
      spec "process.list" "query" "read" "low" true
      ∷ spec "process.spawn" "mutation" "exec" "medium" false
      ∷ spec "process.terminate" "mutation" "exec" "medium" false
      ∷ spec "process.kill" "mutation" "exec" "high" false
      ∷ spec "service.status" "query" "read" "low" true
      ∷ spec "service.start" "mutation" "exec" "medium" true
      ∷ spec "service.stop" "mutation" "exec" "medium" true
      ∷ spec "pkg.list" "query" "read" "low" true
      ∷ spec "pkg.install" "mutation" "exec" "high" false
      ∷ spec "pkg.remove" "mutation" "exec" "high" false
      ∷ spec "pkg.verify" "verification" "read" "low" true
      ∷ [];
  healthcheck =
      some (record { primitive = "process.list"; params = Fields.end; timeout = five_seconds });
}

abbrev pub mcp_bridge_package : PackageManifest
mcp_bridge_package = record {
  name = "mcp-bridge";
  version = "0.1.0";
  description = "MCP bridge: mirrors any MCP stdio server as PrimitiveBox primitives";
  adapter = record {
    kind = "binary";
    binary_path = "{pb_dir}/pb-mcp-bridge";
    socket_path = "{workspace}/.pb/sockets/mcp-bridge.sock";
    args = [];
  };
  primitives = [];
  healthcheck = none;
}

abbrev pub builtin_packages : List PackageManifest
builtin_packages = os_package ∷ mcp_bridge_package ∷ []

unfoldable pub lookup_in : List PackageManifest → String → Result PackageManifest
lookup_in [] name = err (message "package not found")
lookup_in (p ∷ rest) name =
    let later = lookup_in rest name in if p.name =ₛ name then ok p else later

unfoldable pub lookup : String → Result PackageManifest
unfolding lookup_in
lookup name = lookup_in builtin_packages name

module _ {W : Type 0} (env : Settings W) where
  unfoldable pub install_resolved :
      String → Result PackageManifest → List String → State W → Option GoError × State W
  unfolding install_from_manifest
  install_resolved name (err e) extra s =
      (some (wrap ("resolve package " <> quote name <> ": ") e), s)
  install_resolved name (ok pkg) extra s = install_from_manifest env pkg extra s

  unfoldable pub install : String → List String → State W → Option GoError × State W
  unfolding install_resolved lookup
  install name extra s = install_resolved name (lookup name) extra s
