-- ===== src/Packages/Installer/Removal.antt =====
-- What a removal leaves behind.
use primitive_box.Prelude.{ℕ, String, ◌≡◌, ◌≢◌, Option, none, some, ◌⊎◌}
use primitive_box.Packages.Installer.{Settings, State, find_package, process_of}

module _ {W : Type 0} (env : Settings W) where
  -- The host behind the mark that the registry of app primitives is asked for, if there is one.
  abbrev pub IsMarked : String → W → W → Type 0
  IsMarked name w w' =
      ((env.host.listings ≡ none) × (w' ≡ w))
      ⊎ ((env.host.listings ≢ none) × (w' ≡ env.host.mark_unavailable name w))

  -- The process under the name, if there is one, was told to end and killed, and nothing else done.
  abbrev pub IsStopped : Option ℕ → W → W → Type 0
  IsStopped o w w' =
      ((o ≡ none) × (w' ≡ w))
      ⊎ ((pid : ℕ) × (o ≡ some pid) × (w' ≡ env.host.kill pid (env.host.terminate pid w)))

  -- A package that was removed, with its process.
  abbrev pub IsRemoved : String → State W → State W → Type 0
  IsRemoved name s s' =
      (find_package name s'.rows ≡ none)
      × (process_of name s'.processes ≡ none)
      × ((w : W) × IsMarked name s.world w × IsStopped (process_of name s.processes) w s'.world)
