-- ===== src/Packages/Installer.antt =====
-- Installer of internal/pkgmgr/installer.go over a store of installed packages, the host's files and
-- processes, and the gateway. What the registry of app primitives lists at each tick until the time
-- for registering is over, and whether a health check succeeds, are read off the host.
pub mod Running
pub mod Laws
pub mod Removal
use primitive_box.Prelude.{
  ℕ, zero, suc, ◌-◌, String, ◌<>◌, Bool, true, false, not, ◌&&◌, ◌||◌, Option, none, some, List, [],
  ◌∷◌, ◌++◌, map, leb, ◌==◌, ◌=ₛ◌, if◌then◌else◌, starts_with, codes, quote, get_elem?, length,
}
use primitive_box.Errors.{GoError, message, wrap, text}
use primitive_box.Control.Store.{keep_by}
use primitive_box.Apps.{AppPrimitiveManifest, Result, ok, err, ◌>>=◌, refused_by}
use primitive_box.Apps.Schema.{or_else, refuse_if}
use primitive_box.Packages.{
  PrimitiveSpec, AdapterConfig, HealthcheckSpec, PackageManifest, InstalledPackage,
}
use primitive_box.Packages.Descriptor.{reserved_prefixes, is_abs, all_codes, prefix_fault}
use Prim.Native.String.{count}

-- `strings.ReplaceAll`, where `skip` characters of an occurrence are still to be passed over.
replace_from : String → String → ℕ → String → String
replace_from old new skip String.[] = ""
replace_from old new zero (String.◌∷◌ c s) =
    let later = replace_from old new zero s in
    let behind = replace_from old new (count old - 1) s in
    if starts_with (String.◌∷◌ c s) old then new <> behind else String.◌∷◌ c later
replace_from old new (suc skip) (String.◌∷◌ c s) = replace_from old new skip s

-- What the installer asks of the host, over its state `W`. `listings` is nil without a registry.
pub record Host (W : Type 0) : Type 0 where
  pub stat : String → W → Option GoError
  pub make_dir_of : String → W → Option GoError × W
  pub start : String → List String → W → Result ℕ × W
  pub terminate : ℕ → W → W
  pub kill : ℕ → W → W
  pub listings : Option (W → List (Option (List AppPrimitiveManifest)))
  pub cancelled : W → Option GoError
  pub check_health : HealthcheckSpec → W → Option GoError
  pub mark_unavailable : String → W → W

pub data Statement : Type 0 where
  get_row save_row remove_row set_status_row : String → Statement
  list_rows : Statement

pub record Settings (W : Type 0) : Type 0 where
  pub host : Host W
  pub fault : Statement → List InstalledPackage → Option GoError
  pub gateway_url : String
  pub workspace : String
  pub pb_dir : String

-- The store's rows, the running processes by the names of their packages, and the events.
pub record State (W : Type 0) : Type 0 where
  pub rows : List InstalledPackage
  pub processes : List (String × ℕ)
  pub world : W
  pub events : List (String × String)

unfoldable pub find_package : String → List InstalledPackage → Option InstalledPackage
find_package name [] = none
find_package name (p ∷ rest) =
    let later = find_package name rest in if p.name =ₛ name then some p else later

unfoldable pub put_package : InstalledPackage → List InstalledPackage → List InstalledPackage
put_package p [] = p ∷ []
put_package p (q ∷ rest) =
    let later = put_package p rest in if q.name =ₛ p.name then p ∷ rest else q ∷ later

unfoldable pub process_of : String → List (String × ℕ) → Option ℕ
process_of name [] = none
process_of name ((n, pid) ∷ rest) =
    let later = process_of name rest in if n =ₛ name then some pid else later

unfoldable pub without_process : String → List (String × ℕ) → List (String × ℕ)
without_process name [] = []
without_process name ((n, pid) ∷ rest) =
    let later = without_process name rest in if n =ₛ name then later else (n, pid) ∷ later

-- `^[a-zA-Z0-9/_\-\.]+$`
abbrev is_path_code : ℕ → Bool
is_path_code c =
    (leb 97 c && leb c 122)
    || (leb 65 c && leb c 90)
    || (leb 48 c && leb c 57)
    || (c == 47)
    || (c == 95)
    || (c == 45)
    || (c == 46)

unfoldable pub is_safe_path : List ℕ → Bool
unfolding all_codes
is_safe_path [] = false
is_safe_path (c ∷ cs) = all_codes is_path_code (c ∷ cs)

unfoldable pub path_fault : String → String → Option GoError
unfolding is_abs is_safe_path
path_fault what path =
    or_else
      (refuse_if (not (is_abs (codes path)))
        (message (what <> " binary path " <> quote path <> " is not absolute")))
      (refuse_if (not (is_safe_path (codes path)))
        (message (what <> " binary path " <> quote path <> " contains unsafe characters")))

unfoldable pub namespace_fault : List PrimitiveSpec → Option GoError
unfolding prefix_fault
namespace_fault [] = none
namespace_fault (spec ∷ rest) =
    or_else (prefix_fault "" spec.name reserved_prefixes) (namespace_fault rest)

names_any : List AppPrimitiveManifest → String → Bool
names_any [] name = false
names_any (m ∷ rest) name = (m.name =ₛ name) || names_any rest name

any_registered : List AppPrimitiveManifest → List PrimitiveSpec → Bool
unfolding names_any
any_registered manifests [] = false
any_registered manifests (spec ∷ rest) =
    names_any manifests spec.name || any_registered manifests rest

-- A package that declares no primitives counts as registered at the first listing.
abbrev is_registered : List PrimitiveSpec → List AppPrimitiveManifest → Bool
is_registered [] manifests = true
is_registered (spec ∷ rest) manifests = any_registered manifests (spec ∷ rest)

-- The loop over the ticks; a listing that failed is passed over.
unfoldable pub wait_registered :
    List PrimitiveSpec → List (Option (List AppPrimitiveManifest)) → Option GoError
unfolding any_registered
wait_registered specs [] = some (message "adapter registration timed out")
wait_registered specs (none ∷ later) = wait_registered specs later
wait_registered specs (some manifests ∷ later) =
    let rest = wait_registered specs later in if is_registered specs manifests then none else rest

module _ {W : Type 0} (env : Settings W) where
  unfoldable pub resolve_template : String → String
  unfolding replace_from
  resolve_template s =
      replace_from "{workspace}" env.workspace 0 (replace_from "{pb_dir}" env.pb_dir 0 s)

  unfoldable pub deleted :
      Option GoError → String → List InstalledPackage → Option GoError × List InstalledPackage
  unfolding keep_by
  deleted (some e) name rows = (some e, rows)
  deleted none name rows = (none, keep_by (λ (p : InstalledPackage). not (p.name =ₛ name)) rows)

  unfoldable pub store_remove :
      String → List InstalledPackage → Option GoError × List InstalledPackage
  unfolding deleted
  store_remove name rows = deleted (env.fault (remove_row name) rows) name rows

  -- A failure behind the launch: the process is killed and forgotten, and the record removed.
  unfoldable pub rollback : String → ℕ → GoError → State W → Option GoError × State W
  unfolding without_process store_remove
  rollback name pid cause s = (
    some cause,
    record s {
      rows = (store_remove name s.rows).1;
      processes = without_process name s.processes;
      world = env.host.kill pid s.world;
    },
  )

  abbrev pub waiting_fault : PackageManifest → W → Option GoError
  waiting_fault pkg w = elim env.host.listings [
    | none ↦ env.host.cancelled w
    | some listed ↦ wait_registered pkg.primitives (listed w)
  ]

  abbrev pub health_fault : Option HealthcheckSpec → W → Option GoError
  health_fault none w = none
  health_fault (some hc) w = elim (env.host.check_health hc w) [
    | none ↦ none
    | some e ↦ some (message ("adapter healthcheck failed: " <> text e))
  ]

  abbrev pub save_fault : Option GoError → Option GoError
  save_fault none = none
  save_fault (some e) = some (wrap "persist install: " e)

  -- The first failure behind the launch.
  unfoldable pub launched_fault : PackageManifest → State W → Option GoError
  unfolding wait_registered
  launched_fault pkg s = or_else (waiting_fault pkg s.world) (
      or_else (health_fault pkg.healthcheck s.world)
        (save_fault (env.fault (save_row pkg.name) s.rows)))

  abbrev pub installed : PackageManifest → List String → InstalledPackage
  installed pkg args = record {
    name = pkg.name;
    version = pkg.version;
    socket_path = resolve_template pkg.adapter.socket_path;
    binary_path = resolve_template pkg.adapter.binary_path;
    args = args;
    status = "active";
  }

  abbrev pub conclude :
      Option GoError → PackageManifest → List String → ℕ → State W → Option GoError × State W
  conclude (some cause) pkg args pid s = rollback pkg.name pid cause s
  conclude none pkg args pid s = (
    none,
    record s {
      rows = put_package (installed pkg args) s.rows;
      events = ("package.installed", pkg.name) ∷ s.events;
    },
  )

  abbrev pub launch_args : PackageManifest → List String → List String
  launch_args pkg extra =
      let gateway = if env.gateway_url =ₛ "" then [] else "--rpc-endpoint" ∷ env.gateway_url ∷ [] in
      "--socket"
      ∷ resolve_template pkg.adapter.socket_path
      ∷ (gateway ++ (map resolve_template pkg.adapter.args ++ extra))

  unfoldable pub launched :
      PackageManifest → List String → Result ℕ × W → State W → Option GoError × State W
  unfolding launched_fault rollback put_package without_process resolve_template
  launched pkg args (err e, w) s =
      (some (wrap ("start adapter " <> quote pkg.name <> ": ") e), record s { world = w })
  launched pkg args (ok pid, w) s =
      let running = record s {
        processes = (pkg.name, pid) ∷ without_process pkg.name s.processes;
        world = w;
      } in
      conclude (launched_fault pkg running) pkg args pid running

  unfoldable pub launch :
      PackageManifest → List String → Option GoError × W → State W → Option GoError × State W
  unfolding launched
  launch pkg extra (some e, w) s = (some (wrap "create socket dir: " e), record s { world = w })
  launch pkg extra (none, w) s =
      let args = launch_args pkg extra in
      launched pkg args (env.host.start (resolve_template pkg.adapter.binary_path) args w)
        (record s { world = w })

  abbrev pub is_current : PackageManifest → Option InstalledPackage → Bool
  is_current pkg none = false
  is_current pkg (some p) = p.version =ₛ pkg.version

  unfoldable pub install_checked :
      PackageManifest → List String → Option GoError → State W → Option GoError × State W
  unfolding launch find_package
  install_checked pkg extra (some e) s = (some e, s)
  install_checked pkg extra none s =
      let launched =
        launch pkg extra (env.host.make_dir_of (resolve_template pkg.adapter.socket_path) s.world)
          s in
      if is_current pkg (find_package pkg.name s.rows) then (none, s) else launched

  abbrev pub stat_fault : String → Option GoError → Option GoError
  stat_fault path none = none
  stat_fault path (some e) = some (wrap ("binary not found at " <> quote path <> ": ") e)

  abbrev pub get_fault : String → Option GoError → Option GoError
  get_fault text none = none
  get_fault text (some e) = some (wrap text e)

  unfoldable pub preflight : PackageManifest → State W → Option GoError
  unfolding path_fault namespace_fault resolve_template
  preflight pkg s =
      let path = resolve_template pkg.adapter.binary_path in
      or_else (path_fault "resolved" path) (
        or_else (namespace_fault pkg.primitives) (
          or_else (stat_fault path (env.host.stat path s.world))
            (get_fault "check existing install: " (env.fault (get_row pkg.name) s.rows))))

  unfoldable pub install_from_manifest :
      PackageManifest → List String → State W → Option GoError × State W
  unfolding preflight install_checked
  install_from_manifest pkg extra s = install_checked pkg extra (preflight pkg s) s
