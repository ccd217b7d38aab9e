-- ===== src/Packages.antt =====
-- The types of internal/pkgmgr: boxfile.go, manifest.go and store.go. A Boxfile is what its YAML
-- decodes to. Times of installation are left out.
pub mod Descriptor
pub mod Installer
pub mod Registry
use primitive_box.Prelude.{String, Bool, Option, List}
use primitive_box.Json.{Fields}
use primitive_box.Sandbox.{ℤ}

pub record BoxfileAdapter : Type 0 where
  pub kind : String
  pub binary_path : String
  pub socket_path : String
  pub args : List String
  pub mcp_command : String

-- BoxfileIntent, and PrimitiveIntent of the manifest.
pub record PackageIntent : Type 0 where
  pub category : String
  pub side_effect : String
  pub risk_level : String
  pub reversible : Bool

-- BoxfilePrimitive, and PrimitiveSpec of the manifest.
pub record PrimitiveSpec : Type 0 where
  pub name : String
  pub description : String
  pub intent : PackageIntent

pub record BoxfileHealthcheck : Type 0 where
  pub primitive : String
  pub params : Fields
  pub timeout : String

pub record BoxfileBootstrapFile : Type 0 where
  pub src : String
  pub dst : String

pub record Boxfile : Type 0 where
  pub name : String
  pub version : String
  pub description : String
  pub adapter : BoxfileAdapter
  pub primitives : List PrimitiveSpec
  pub healthcheck : Option BoxfileHealthcheck
  pub bootstrap : Option (List BoxfileBootstrapFile)

pub record AdapterConfig : Type 0 where
  pub kind : String
  pub binary_path : String
  pub socket_path : String
  pub args : List String

-- The timeout is in nanoseconds.
pub record HealthcheckSpec : Type 0 where
  pub primitive : String
  pub params : Fields
  pub timeout : ℤ

pub record PackageManifest : Type 0 where
  pub name : String
  pub version : String
  pub description : String
  pub adapter : AdapterConfig
  pub primitives : List PrimitiveSpec
  pub healthcheck : Option HealthcheckSpec

pub record InstalledPackage : Type 0 where
  pub name : String
  pub version : String
  pub socket_path : String
  pub binary_path : String
  pub args : List String
  pub status : String
