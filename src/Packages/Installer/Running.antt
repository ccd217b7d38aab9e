-- ===== src/Packages/Installer/Running.antt =====
-- Remove, LaunchInstalled and launchFromRecord of internal/pkgmgr/installer.go.
use primitive_box.Prelude.{
  ℕ, String, ◌<>◌, ◌||◌, Option, none, some, List, [], ◌∷◌, ◌=ₛ◌, if◌then◌else◌,
}
use primitive_box.Errors.{GoError, message, wrap}
use Prim.Native.String.{compare}
use Prim.Native.Nat.{Ordering}
use primitive_box.Apps.{AppPrimitiveManifest, Result, ok, err}
use primitive_box.Apps.Schema.{or_else}
use primitive_box.Packages.{InstalledPackage}
use primitive_box.Packages.Installer.{
  get_row, set_status_row, list_rows, Settings, State, find_package, process_of, without_process,
  path_fault, store_remove, stat_fault,
}

insert_by_name : InstalledPackage → List InstalledPackage → List InstalledPackage
insert_by_name p [] = p ∷ []
insert_by_name p (q ∷ rest) =
    let later = insert_by_name p rest in
    elim (compare p.name q.name) [ Ordering.gt ↦ q ∷ later | _ ↦ p ∷ q ∷ rest ]

-- `ORDER BY name ASC`.
unfoldable pub by_name : List InstalledPackage → List InstalledPackage
unfolding insert_by_name
by_name [] = []
by_name (p ∷ rest) = insert_by_name p (by_name rest)

module _ {W : Type 0} (env : Settings W) where
  -- The process is asked to stop, and killed in any case.
  abbrev pub stopped : String → Option ℕ → State W → State W
  stopped name none s = s
  stopped name (some pid) s = record s {
    processes = without_process name s.processes;
    world = env.host.kill pid (env.host.terminate pid s.world);
  }

  -- Without a registry nothing is marked.
  abbrev pub marked :
      String → Option (W → List (Option (List AppPrimitiveManifest))) → State W → State W
  marked name none s = s
  marked name (some listed) s = record s { world = env.host.mark_unavailable name s.world }

  abbrev pub drained : String → State W → State W
  drained name s = marked name env.host.listings s

  unfoldable pub removed :
      String → Option GoError × List InstalledPackage → State W → Option GoError × State W
  removed name (some e, rows) s =
      (some (wrap "remove package record: " e), record s { rows = rows })
  removed name (none, rows) s =
      (none, record s { rows = rows; events = ("package.removed", name) ∷ s.events })

  unfoldable pub remove_found :
      String → Option InstalledPackage → State W → Option GoError × State W
  unfolding removed store_remove process_of without_process
  remove_found name none s = (some (message ("package not installed: " <> name)), s)
  remove_found name (some p) s =
      let s' = stopped name (process_of name s.processes) (drained name s) in
      removed name (store_remove env name s'.rows) s'

  unfoldable pub looked_up : String → Option GoError → State W → Option GoError × State W
  unfolding remove_found find_package
  looked_up name (some e) s = (some (wrap "lookup installed package: " e), s)
  looked_up name none s = remove_found name (find_package name s.rows) s

  unfoldable pub remove : String → State W → Option GoError × State W
  unfolding looked_up
  remove name s = looked_up name (env.fault (get_row name) s.rows) s

  -- `UPDATE … SET status`; its error is only logged.
  unfoldable pub set_status : String → String → List InstalledPackage → List InstalledPackage
  set_status name status [] = []
  set_status name status (p ∷ rest) =
      let later = set_status name status rest in
      if p.name =ₛ name then record p { status = status } ∷ later else p ∷ later

  abbrev pub status_written :
      String → Option GoError → List InstalledPackage → List InstalledPackage
  status_written name none rows = set_status name "active" rows
  status_written name (some e) rows = rows

  abbrev pub stored_args : InstalledPackage → List String
  stored_args p = elim p.args [ [] ↦ "--socket" ∷ p.socket_path ∷ [] | a ∷ args ↦ a ∷ args ]

  relaunched : InstalledPackage → Result ℕ × W → State W → State W
  unfolding set_status without_process
  relaunched p (err e, w) s = record s { world = w }
  relaunched p (ok pid, w) s = record s {
    rows = status_written p.name (env.fault (set_status_row p.name) s.rows) s.rows;
    processes = (p.name, pid) ∷ without_process p.name s.processes;
    world = w;
  }

  relaunch_made : InstalledPackage → Option GoError × W → State W → State W
  unfolding relaunched
  relaunch_made p (some e, w) s = record s { world = w }
  relaunch_made p (none, w) s =
      relaunched p (env.host.start p.binary_path (stored_args p) w) (record s { world = w })

  -- A launch that fails is only logged.
  unfoldable pub launch_from_record : InstalledPackage → State W → State W
  unfolding path_fault relaunch_made
  launch_from_record p s =
      let made = relaunch_made p (env.host.make_dir_of p.socket_path s.world) s in
      elim (or_else (path_fault "stored" p.binary_path)
        (stat_fault env p.binary_path (env.host.stat p.binary_path s.world))) [
          | some e ↦ s
          | none ↦ made
        ]

  abbrev pub launched_if_live : InstalledPackage → State W → State W
  launched_if_live p s =
      if (p.status =ₛ "installed") || (p.status =ₛ "active") then launch_from_record p s else s

  unfoldable pub launch_all : List InstalledPackage → State W → State W
  unfolding launch_from_record
  launch_all [] s = s
  launch_all (p ∷ rest) s = launch_all rest (launched_if_live p s)

  unfoldable pub launch_installed : State W → Option GoError × State W
  unfolding launch_all by_name
  launch_installed s = elim (env.fault list_rows s.rows) [
    | some e ↦ (some (wrap "list installed packages: " e), s)
    | none ↦ (none, launch_all (by_name s.rows) s)
  ]
