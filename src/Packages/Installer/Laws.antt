-- ===== src/Packages/Installer/Laws.antt =====
-- What an installation leaves behind, whether it succeeded or not.
use primitive_box.Prelude.{
  ℕ, String, ◌≡◌, ◌≢◌, refl, sym, subst, ◌∙◌, true, not, Option, none, some, List, [], ◌∷◌, ◌=ₛ◌,
  eq_iff, if◌then◌else◌, Bool-cases, inl, inr, ◌⊎◌, arith,
}
use primitive_box.Errors.{GoError}
use primitive_box.Control.Store.{keep_by}
use primitive_box.Apps.{Result, ok, err}
use primitive_box.Packages.{PackageManifest, InstalledPackage}
use primitive_box.Packages.Installer.{
  Settings, remove_row, State, find_package, put_package, process_of, without_process, deleted,
  store_remove, rollback, launched_fault, installed, conclude, launch_args, launched, launch,
  is_current, install_checked, preflight, install_from_manifest, resolve_template,
}

find_package-put_package :
    (p : InstalledPackage) (rows : List InstalledPackage)
    → find_package p.name (put_package p rows) ≡ some p
unfolding find_package put_package
find_package-put_package p [] = rw ((eq_iff p.name p.name).1 refl) refl
find_package-put_package p (q ∷ rest) =
    ground
      (arith, eq_iff q.name p.name, (eq_iff p.name p.name).1 refl, find_package-put_package p rest)

pub find_package-delete :
    (name : String) (rows : List InstalledPackage)
    → find_package name (keep_by (λ (p : InstalledPackage). not (p.name =ₛ name)) rows) ≡ none
unfolding find_package keep_by
find_package-delete name [] = refl
find_package-delete name (q ∷ rest) = ground (arith, find_package-delete name rest)

pub process_of-without :
    (name : String) (l : List (String × ℕ)) → process_of name (without_process name l) ≡ none
unfolding process_of without_process
process_of-without name [] = refl
process_of-without name ((n, pid) ∷ rest) = ground (arith, process_of-without name rest)

module _ {W : Type 0} (env : Settings W) where
  deleted-cases :
      (o : Option GoError) (name : String) (rows : List InstalledPackage)
      → ((deleted env o name rows).1 ≡ rows)
        ⊎ (find_package name (deleted env o name rows).1 ≡ none)
  unfolding deleted
  deleted-cases none name rows = inr (find_package-delete name rows)
  deleted-cases (some e) name rows = inl refl

  store_remove-cases :
      (name : String) (rows : List InstalledPackage)
      → ((store_remove env name rows).1 ≡ rows)
        ⊎ (find_package name (store_remove env name rows).1 ≡ none)
  unfolding store_remove
  store_remove-cases name rows = deleted-cases (env.fault (remove_row name) rows) name rows

  -- The adapter was started, as the process `pid`, in the directory that was made for its socket.
  abbrev pub IsStarted : PackageManifest → List String → W → ℕ → W → Type 0
  IsStarted pkg extra before pid w =
      (w0 : W) × (env.host.make_dir_of (resolve_template env pkg.adapter.socket_path) before
        ≡ (none, w0))
      × (env.host.start (resolve_template env pkg.adapter.binary_path) (launch_args env pkg extra)
            w0
          ≡ (ok pid, w))

  -- No process was started: nothing was done to the host, or the directory could not be made, or the
  -- start failed.
  abbrev pub IsNotStarted : PackageManifest → List String → W → W → Type 0
  IsNotStarted pkg extra before after =
      (after ≡ before)
      ⊎ (((e : GoError) × (env.host.make_dir_of (resolve_template env pkg.adapter.socket_path)
                before
              ≡ (some e, after)))
          ⊎ ((e : GoError) × (w0 : W) × (env.host.make_dir_of
                  (resolve_template env pkg.adapter.socket_path) before
                ≡ (none, w0))
              × (env.host.start (resolve_template env pkg.adapter.binary_path)
                    (launch_args env pkg extra) w0
                  ≡ (err e, after))))

  -- The package has its record, and the process that was started is kept under its name.
  abbrev pub IsRunning : PackageManifest → ℕ → State W → Type 0
  IsRunning pkg pid s =
      (p : InstalledPackage) × (find_package pkg.name s.rows ≡ some p)
      × (p.version ≡ pkg.version)
      × (p.status ≡ "active")
      × (p.socket_path ≡ resolve_template env pkg.adapter.socket_path)
      × (p.binary_path ≡ resolve_template env pkg.adapter.binary_path)
      × (process_of pkg.name s.processes ≡ some pid)

  -- What is left where the adapter was started: it runs, or it was killed and nothing else was done
  -- to the host.
  abbrev pub IsLaunched : PackageManifest → ℕ → W → State W → Option GoError × State W → Type 0
  IsLaunched pkg pid w before r =
      ((r.0 ≡ none) × (r.1.world ≡ w) × IsRunning pkg pid r.1)
      ⊎ ((r.0 ≢ none)
          × (r.1.world ≡ env.host.kill pid w)
          × (process_of pkg.name r.1.processes ≡ none)
          × ((r.1.rows ≡ before.rows) ⊎ (find_package pkg.name r.1.rows ≡ none)))

  -- The version of the package is recorded.
  abbrev pub IsRecorded : PackageManifest → Option InstalledPackage → Type 0
  IsRecorded pkg o = (p : InstalledPackage) × (o ≡ some p) × (p.version ≡ pkg.version)

  is_current-IsRecorded :
      (pkg : PackageManifest) (o : Option InstalledPackage)
      → is_current env pkg o ≡ true
      → IsRecorded pkg o
  is_current-IsRecorded pkg none h = absurd (ground (arith, h))
  is_current-IsRecorded pkg (some p) h = (p, refl, (eq_iff p.version pkg.version).0 h)

  -- What an installation comes to: nothing was done, as the version is there already; it failed
  -- before a process was started; or a process was started, and it runs or was killed.
  abbrev pub IsSettled : PackageManifest → List String → State W → Option GoError × State W → Type 0
  IsSettled pkg extra before r =
      ((r.0 ≡ none) × (r.1 ≡ before) × IsRecorded pkg (find_package pkg.name before.rows))
      ⊎ (((r.0 ≢ none)
            × (r.1.rows ≡ before.rows)
            × (r.1.processes ≡ before.processes)
            × IsNotStarted pkg extra before.world r.1.world)
          ⊎ ((pid : ℕ) × (w : W) × IsStarted pkg extra before.world pid w
              × IsLaunched pkg pid w before r))

  conclude-IsLaunched :
      (o : Option GoError) (pkg : PackageManifest) (args : List String) (pid : ℕ)
      (before s : State W)
      → s.rows ≡ before.rows
      → process_of pkg.name s.processes ≡ some pid
      → IsLaunched pkg pid s.world before (conclude env o pkg args pid s)
  unfolding rollback
  conclude-IsLaunched none pkg args pid before s rows running = inl (
    refl,
    refl,
    (
      installed env pkg args,
      find_package-put_package (installed env pkg args) s.rows,
      refl,
      refl,
      refl,
      refl,
      running,
    ),
  )
  conclude-IsLaunched (some cause) pkg args pid before s rows running = inr (
    (λ e. cc),
    refl,
    process_of-without pkg.name s.processes,
    elim (store_remove-cases pkg.name s.rows) [
      | inl same ↦ inl (same ∙ rows)
      | inr gone ↦ inr gone
    ],
  )

  launched-IsSettled :
      (pkg : PackageManifest) (extra : List String) (w0 : W) (r : Result ℕ × W) (before : State W)
      → env.host.make_dir_of (resolve_template env pkg.adapter.socket_path) before.world
        ≡ (none, w0)
      → env.host.start (resolve_template env pkg.adapter.binary_path) (launch_args env pkg extra) w0
        ≡ r
      → IsSettled pkg extra before
          (launched env pkg (launch_args env pkg extra) r (record before { world = w0 }))
  unfolding launched process_of
  launched-IsSettled pkg extra w0 (err e, w) before made start =
      inr (inl ((λ x. cc), refl, refl, inr (inr (e, w0, made, start))))
  launched-IsSettled pkg extra w0 (ok pid, w) before made start =
      let running = record before {
        processes = (pkg.name, pid) ∷ without_process pkg.name before.processes;
        world = w;
      } in
      inr (
        inr (
          pid,
          w,
          (w0, made, start),
          conclude-IsLaunched (launched_fault env pkg running) pkg (launch_args env pkg extra) pid
              before running refl (rw ((eq_iff pkg.name pkg.name).1 refl) refl),
        ))

  launch-IsSettled :
      (pkg : PackageManifest) (extra : List String) (r : Option GoError × W) (s : State W)
      → env.host.make_dir_of (resolve_template env pkg.adapter.socket_path) s.world ≡ r
      → IsSettled pkg extra s (launch env pkg extra r s)
  unfolding launch
  launch-IsSettled pkg extra (some e, w) s made =
      inr (inl ((λ x. cc), refl, refl, inr (inl (e, made))))
  launch-IsSettled pkg extra (none, w) s made = launched-IsSettled pkg extra w _ s made refl

  checked-IsSettled :
      (pkg : PackageManifest) (extra : List String) (o : Option GoError) (s : State W)
      → IsSettled pkg extra s (install_checked env pkg extra o s)
  unfolding install_checked
  checked-IsSettled pkg extra (some e) s = inr (inl ((λ x. cc), refl, refl, inl refl))
  checked-IsSettled pkg extra none s =
      let made = env.host.make_dir_of (resolve_template env pkg.adapter.socket_path) s.world in
      elim (Bool-cases (is_current env pkg (find_package pkg.name s.rows))) [
        | inl current ↦
            rw current
              (inl (refl, refl, is_current-IsRecorded pkg (find_package pkg.name s.rows) current))
        | inr other ↦
            subst
              (λ b. IsSettled pkg extra s (if b then (none, s) else launch env pkg extra made s))
              (sym other) (launch-IsSettled pkg extra made s refl)
      ]

  -- An installation either found the version recorded and did nothing; or it failed, leaving the
  -- records and the processes as they were, before a process was started; or it started the adapter.
  -- Then it succeeds and leaves an active record of the version and the process under its name; or
  -- it fails, has killed that process and keeps none under the name, with the records as they were
  -- or none of the package.
  pub install_from_manifest-IsSettled :
      (pkg : PackageManifest) (extra : List String) (s : State W)
      → IsSettled pkg extra s (install_from_manifest env pkg extra s)
  unfolding install_from_manifest
  install_from_manifest-IsSettled pkg extra s = checked-IsSettled pkg extra (preflight env pkg s) s
