-- ===== src/Packages/Descriptor.antt =====
-- ValidateBoxfile and BoxfileToManifest of internal/pkgmgr/boxfile.go. The places in a list that a
-- few messages name are not rendered; paths are those of Unix.
pub mod Names
pub mod Laws
use primitive_box.Prelude.{
  ℕ, zero, suc, String, ◌<>◌, Bool, true, false, not, ◌&&◌, ◌||◌, Option, none, some, List, [], ◌∷◌,
  ◌++◌, map, leb, ◌==◌, ◌=ₛ◌, if◌then◌else◌, starts_with, codes, length, quote,
}
use primitive_box.Errors.{GoError, message, wrap}
use primitive_box.Apps.{Result, ok, err, ◌>>=◌}
use primitive_box.Apps.Normalize.{reserved_system_primitive_namespaces}
use primitive_box.Apps.Schema.{or_else, refuse_if}
use primitive_box.Sandbox.{ℤ, pos}
use primitive_box.Packages.{
  BoxfileAdapter, PrimitiveSpec, BoxfileHealthcheck, BoxfileBootstrapFile, Boxfile, AdapterConfig,
  HealthcheckSpec, PackageManifest,
}

abbrev pub invalid : String → GoError
invalid what = message ("invalid Boxfile: " <> what)

-- `reservedPrefixes` are the same prefixes as in the registry of app primitives.
abbrev pub reserved_prefixes : List String
reserved_prefixes = reserved_system_primitive_namespaces

abbrev pub is_lower : ℕ → Bool
is_lower c = leb 97 c && leb c 122

abbrev pub is_slug_code : ℕ → Bool
is_slug_code c = is_lower c || (leb 48 c && leb c 57) || (c == 45)

unfoldable pub all_codes : (ℕ → Bool) → List ℕ → Bool
all_codes p [] = true
all_codes p (c ∷ cs) = p c && all_codes p cs

-- `^[a-z][a-z0-9-]{0,62}$`
unfoldable pub is_slug : List ℕ → Bool
unfolding all_codes
is_slug [] = false
is_slug (c ∷ cs) = is_lower c && all_codes is_slug_code cs && leb (length cs) 62

-- `strings.Contains(s, "..")`
unfoldable pub has_dots : List ℕ → Bool
has_dots [] = false
has_dots (c ∷ []) = false
has_dots (c ∷ d ∷ rest) = ((c == 46) && (d == 46)) || has_dots (d ∷ rest)

unfoldable pub has_brace : List ℕ → Bool
has_brace [] = false
has_brace (c ∷ rest) = (c == 123) || has_brace rest

-- `filepath.IsAbs`
unfoldable pub is_abs : List ℕ → Bool
is_abs [] = false
is_abs (c ∷ rest) = c == 47

unfoldable pub adapter_fault : BoxfileAdapter → Option GoError
adapter_fault a =
    if a.kind =ₛ "binary"
    then refuse_if (a.binary_path =ₛ "")
        (invalid "adapter.binary_path is required for type 'binary'")
    else if a.kind =ₛ "mcp"
    then refuse_if ((a.binary_path =ₛ "") && (a.mcp_command =ₛ ""))
        (invalid "adapter.binary_path or adapter.mcp_command is required for type 'mcp'")
    else if a.kind =ₛ ""
    then some (invalid "adapter.type is required")
    else some (invalid ("adapter.type must be 'binary' or 'mcp', got " <> quote a.kind))

-- `lead` is what the message says before the name.
unfoldable pub prefix_fault : String → String → List String → Option GoError
prefix_fault lead name [] = none
prefix_fault lead name (prefix ∷ rest) =
    or_else
      (refuse_if (starts_with name prefix) (
        message (
          "package declares primitives in reserved namespace: "
          <> lead
          <> quote name
          <> " starts with reserved prefix "
          <> quote prefix)))
      (prefix_fault lead name rest)

unfoldable pub primitives_fault : List PrimitiveSpec → Option GoError
unfolding prefix_fault
primitives_fault [] = none
primitives_fault (spec ∷ rest) =
    or_else (refuse_if (spec.name =ₛ "") (invalid "primitive name must not be empty"))
      (or_else (prefix_fault "primitive " spec.name reserved_prefixes) (primitives_fault rest))

unfoldable pub file_fault : BoxfileBootstrapFile → Option GoError
unfolding has_dots is_abs
file_fault f = or_else (refuse_if (f.src =ₛ "") (invalid "bootstrap.files.src is required")) (
    or_else (refuse_if (f.dst =ₛ "") (invalid "bootstrap.files.dst is required")) (
      or_else
        (refuse_if (has_dots (codes f.dst))
          (invalid ("bootstrap.files.dst " <> quote f.dst <> " contains path traversal")))
        (refuse_if (is_abs (codes f.dst))
          (invalid ("bootstrap.files.dst " <> quote f.dst <> " must be relative")))))

unfoldable pub files_fault : List BoxfileBootstrapFile → Option GoError
unfolding file_fault
files_fault [] = none
files_fault (f ∷ rest) = or_else (file_fault f) (files_fault rest)

abbrev pub bootstrap_fault : Option (List BoxfileBootstrapFile) → Option GoError
bootstrap_fault none = none
bootstrap_fault (some files) = files_fault files

unfoldable pub validate_boxfile : Boxfile → Option GoError
unfolding is_slug adapter_fault primitives_fault files_fault
validate_boxfile bf = or_else (refuse_if (bf.name =ₛ "") (invalid "name is required")) (
    or_else
      (refuse_if (not (is_slug (codes bf.name)))
        (invalid ("name " <> quote bf.name <> " must match ^[a-z][a-z0-9-]{0,62}$")))
      (or_else (refuse_if (bf.version =ₛ "") (invalid "version is required")) (
        or_else (adapter_fault bf.adapter) (
          or_else
            (refuse_if (bf.adapter.socket_path =ₛ "") (invalid "adapter.socket_path is required"))
            (or_else (primitives_fault bf.primitives) (bootstrap_fault bf.bootstrap))))))

-- A path without template tokens that is not absolute.
abbrev pub is_relative : String → Bool
is_relative path = not (path =ₛ "") && not (has_brace (codes path)) && not (is_abs (codes path))

abbrev pub five_seconds : ℤ
five_seconds = pos 5000000000

-- `resolve base path` is filepath.Abs(filepath.Join(base, path)), `parse_duration` the parser of
-- package time.
module _ (resolve : String → String → Result String) (parse_duration : String → Option ℤ) where
  abbrev pub binary_of : BoxfileAdapter → String
  binary_of a =
      if (a.kind =ₛ "mcp") && (a.binary_path =ₛ "") then "{pb_dir}/pb-mcp-bridge" else a.binary_path

  abbrev pub resolved_binary : String → String → Result String
  resolved_binary base path = if is_relative path then resolve base path else ok path

  abbrev pub socket_of : String → String
  socket_of path = if is_relative path then "{workspace}/" <> path else path

  abbrev pub timeout_of : String → ℤ
  timeout_of s =
      if s =ₛ "" then five_seconds else elim (parse_duration s) [ none ↦ five_seconds | some t ↦ t ]

  abbrev pub healthcheck_of : Option BoxfileHealthcheck → Option HealthcheckSpec
  healthcheck_of none = none
  healthcheck_of (some hc) =
      if hc.primitive =ₛ ""
      then none
      else some
          (record { primitive = hc.primitive; params = hc.params; timeout = timeout_of hc.timeout })

  abbrev pub args_of : BoxfileAdapter → List String
  args_of a =
      if (a.kind =ₛ "mcp") && not (a.mcp_command =ₛ "")
      then "--cmd" ∷ a.mcp_command ∷ a.args
      else a.args

  unfoldable pub boxfile_to_manifest : Boxfile → String → Result PackageManifest
  unfolding has_brace is_abs
  boxfile_to_manifest bf base = do
    path ← resolved_binary base (binary_of bf.adapter)
    ok (record {
      name = bf.name;
      version = bf.version;
      description = bf.description;
      adapter = record {
        kind = bf.adapter.kind;
        binary_path = path;
        socket_path = socket_of bf.adapter.socket_path;
        args = args_of bf.adapter;
      };
      primitives = bf.primitives;
      healthcheck = healthcheck_of bf.healthcheck;
    })
