-- ===== src/Sandbox/Drivers/Laws.antt =====
-- Which driver serves a sandbox.
use primitive_box.Prelude.{
  String, ◌≡◌, refl, sym, ap, ◌∙◌, Option, none, some, List, [], ◌∷◌, ◌=ₛ◌, eq_iff, Bool-cases, inl,
  inr,
}
use primitive_box.Sandbox.{
  SandboxConfig, Sandbox, ExecCommand, Outcome, gave, failed, RuntimeDriver,
}
use primitive_box.Sandbox.Drivers.{
  put_driver, driver_map, find_driver, driver_name_of, assigned, create_with, resolve_driver,
  router_driver,
}

-- Every driver is kept under its name.
AllNamed : {W : Type 0} → List (String × RuntimeDriver W) → Type 0
AllNamed [] = Unit {0}
AllNamed ((n, d) ∷ rest) = (d.name ≡ n) × AllNamed rest

put_driver-AllNamed :
    {W : Type 0} (d : RuntimeDriver W) (l : List (String × RuntimeDriver W))
    → AllNamed l
    → AllNamed (put_driver d l)
unfolding AllNamed put_driver
put_driver-AllNamed d [] h = (refl, tt)
put_driver-AllNamed d ((n, e) ∷ rest) h = elim (Bool-cases (n =ₛ d.name)) [
  | inl hit ↦ rw hit (sym ((eq_iff n d.name).0 hit), h.1)
  | inr miss ↦ rw miss (h.0, put_driver-AllNamed d rest h.1)
]

driver_map-AllNamed :
    {W : Type 0} (known : List (String × RuntimeDriver W)) (l : List (RuntimeDriver W))
    → AllNamed known
    → AllNamed (driver_map known l)
unfolding driver_map
driver_map-AllNamed known [] h = h
driver_map-AllNamed known (d ∷ rest) h =
    driver_map-AllNamed (put_driver d known) rest (put_driver-AllNamed d known h)

driver_inj : {W : Type 0} {a b : RuntimeDriver W} → some a ≡ some b → a ≡ b
driver_inj e = cc

find_driver-name :
    {W : Type 0} (name : String) (l : List (String × RuntimeDriver W)) (d : RuntimeDriver W)
    → AllNamed l
    → find_driver name l ≡ some d
    → d.name ≡ name
unfolding AllNamed find_driver
find_driver-name name [] d h at = cc
find_driver-name name ((n, e) ∷ rest) d h at = elim (Bool-cases (n =ₛ name)) [
  | inl hit ↦ ap (λ x. x.name) (sym (driver_inj (rw hit at at))) ∙ (h.0 ∙ (eq_iff n name).0 hit)
  | inr miss ↦ find_driver-name name rest d h.1 (rw miss at at)
]

-- The router answers for the sandbox as the driver does.
abbrev pub ServedBy : {W : Type 0} → RuntimeDriver W → RuntimeDriver W → String → W → Type 0
ServedBy r d id w =
    (r.start id w ≡ d.start id w)
    × (r.stop id w ≡ d.stop id w)
    × (r.destroy id w ≡ d.destroy id w)
    × ((cmd : ExecCommand) → r.exec id cmd w ≡ d.exec id cmd w)
    × (r.inspect id w ≡ d.inspect id w)
    × (r.get_status id w ≡ d.get_status id w)

module _ {W : Type 0} (f : String → W → Option String) (given : List (RuntimeDriver W)) where
  -- A driver made the sandbox, and has the name that is recorded in it.
  abbrev pub IsMadeBy : RuntimeDriver W → SandboxConfig → Sandbox → W → W → Type 0
  IsMadeBy d config sb w w' =
      (made : Sandbox) × (d.create config w ≡ (gave made, w'))
      × (sb ≡ record made { driver = d.name })
      × (d.name ≡ driver_name_of config)

  resolve_driver-found :
      (id : String) (w : W) (d : RuntimeDriver W) (name : String)
      → f id w ≡ some name
      → find_driver name (driver_map [] given) ≡ some d
      → resolve_driver (some f) given id w ≡ gave d
  unfolding resolve_driver
  resolve_driver-found id w d name named at = rw (named, at) refl

  found-ServedBy :
      (id : String) (w : W) (d : RuntimeDriver W)
      → resolve_driver (some f) given id w ≡ gave d
      → ServedBy (router_driver (some f) given) d id w
  unfolding router_driver
  found-ServedBy id w d at = rw at (refl, refl, refl, (λ cmd. refl), refl, refl)

  assigned-made :
      (name : String) (r : Outcome Sandbox × W) (sb : Sandbox) (w' : W)
      → assigned name r ≡ (gave sb, w')
      → (made : Sandbox) × (r ≡ (gave made, w')) × (sb ≡ record made { driver = name })
  unfolding assigned
  assigned-made name (gave made, w) sb w' h = (made, cc h, cc h)
  assigned-made name (failed e, w) sb w' h = cc h

  created-ServedBy :
      (o : Option (RuntimeDriver W)) (config : SandboxConfig) (sb : Sandbox) (w w' later : W)
      → find_driver (driver_name_of config) (driver_map [] given) ≡ o
      → create_with (driver_name_of config) o config w ≡ (gave sb, w')
      → f sb.id later ≡ some sb.driver
      → (d : RuntimeDriver W) × IsMadeBy d config sb w w'
        × ServedBy (router_driver (some f) given) d sb.id later
  unfolding create_with AllNamed
  created-ServedBy none config sb w w' later at h named = cc h
  created-ServedBy (some d) config sb w w' later at h named =
      let made = assigned-made (driver_name_of config) (d.create config w) sb w' h in
      let own =
        find_driver-name (driver_name_of config) (driver_map [] given) d
          (driver_map-AllNamed [] given tt) at in
      (
        d,
        (made.0, made.1, made.2 ∙ ap (λ n. record made.0 { driver = n }) (sym own), own),
        found-ServedBy sb.id later d (
            resolve_driver-found sb.id later d (driver_name_of config)
              (named ∙ ap (λ (x : Sandbox). some x.driver) made.2) at),
      )

  -- A sandbox that the router created was made by a driver with the name that is recorded in it, the
  -- one that the configuration asks for or Docker's; and whenever the resolver gives that name for
  -- the sandbox, each operation on it is that driver's.
  pub router_driver-ServedBy :
      (config : SandboxConfig) (sb : Sandbox) (w w' later : W)
      → (router_driver (some f) given).create config w ≡ (gave sb, w')
      → f sb.id later ≡ some sb.driver
      → (d : RuntimeDriver W) × IsMadeBy d config sb w w'
        × ServedBy (router_driver (some f) given) d sb.id later
  unfolding router_driver
  router_driver-ServedBy config sb w w' later h named =
      created-ServedBy (find_driver (driver_name_of config) (driver_map [] given)) config sb w w'
        later refl h named
