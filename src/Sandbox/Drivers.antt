-- ===== src/Sandbox/Drivers.antt =====
-- RouterDriver of internal/sandbox/router.go: a runtime driver that passes what it is asked on to one
-- of several drivers over the same state. The resolver is a function of that state, as the one of
-- cmd/pb reads the store. Go's map of drivers has no order; here it keeps the one of their arrival.
pub mod Laws
use primitive_box.Prelude.{
  String, ◌<>◌, Bool, true, false, Option, none, some, List, [], ◌∷◌, ◌++◌, ◌||◌, ◌=ₛ◌,
  if◌then◌else◌,
}
use primitive_box.Errors.{GoError, message}
use primitive_box.Sandbox.{
  SandboxConfig, SandboxStatus, RuntimeCapability, Sandbox, ExecCommand, ExecResult, Outcome, gave,
  failed, RuntimeDriver,
}

unfoldable pub put_driver :
    {W : Type 0}
    → RuntimeDriver W
    → List (String × RuntimeDriver W)
    → List (String × RuntimeDriver W)
put_driver d [] = (d.name, d) ∷ []
put_driver d ((n, e) ∷ rest) =
    let later = put_driver d rest in if n =ₛ d.name then (n, d) ∷ rest else (n, e) ∷ later

unfoldable pub driver_map :
    {W : Type 0}
    → List (String × RuntimeDriver W)
    → List (RuntimeDriver W)
    → List (String × RuntimeDriver W)
unfolding put_driver
driver_map known [] = known
driver_map known (d ∷ rest) = driver_map (put_driver d known) rest

unfoldable pub find_driver :
    {W : Type 0} → String → List (String × RuntimeDriver W) → Option (RuntimeDriver W)
find_driver name [] = none
find_driver name ((n, d) ∷ rest) =
    let later = find_driver name rest in if n =ₛ name then some d else later

is_seen : String → List RuntimeCapability → Bool
is_seen name [] = false
is_seen name (c ∷ rest) = (c.name =ₛ name) || is_seen name rest

abbrev noted : RuntimeCapability → List RuntimeCapability → List RuntimeCapability
noted c seen = if is_seen c.name seen then seen else seen ++ (c ∷ [])

-- The capabilities that are new, behind those merged so far.
merged : List RuntimeCapability → List RuntimeCapability → List RuntimeCapability
unfolding is_seen
merged seen [] = seen
merged seen (c ∷ rest) = merged (noted c seen) rest

abbrev or_no_capabilities : Option (List RuntimeCapability) → List RuntimeCapability
or_no_capabilities none = []
or_no_capabilities (some l) = l

merge_all :
    {W : Type 0}
    → W
    → List RuntimeCapability
    → List (String × RuntimeDriver W)
    → List RuntimeCapability
unfolding merged
merge_all w seen [] = seen
merge_all w seen ((n, d) ∷ rest) =
    merge_all w (merged seen (or_no_capabilities (d.get_capabilities w))) rest

-- A slice to which nothing was appended is nil.
abbrev slice_of : List RuntimeCapability → Option (List RuntimeCapability)
slice_of [] = none
slice_of (c ∷ rest) = some (c ∷ rest)

abbrev pub driver_name_of : SandboxConfig → String
driver_name_of config = if config.driver =ₛ "" then "docker" else config.driver

unfoldable pub assigned : {W : Type 0} → String → Outcome Sandbox × W → Outcome Sandbox × W
assigned name (gave sb, w) = (gave (record sb { driver = name }), w)
assigned name (failed e, w) = (failed e, w)

unfoldable pub create_with :
    {W : Type 0} → String → Option (RuntimeDriver W) → SandboxConfig → W → Outcome Sandbox × W
unfolding assigned
create_with name none config w = (failed (message ("unknown runtime driver: " <> name)), w)
create_with name (some d) config w = assigned name (d.create config w)

unfoldable pub pass_on :
    {W : Type 0}
    → (RuntimeDriver W → W → Option GoError × W)
    → Outcome (RuntimeDriver W)
    → W
    → Option GoError × W
pass_on call (gave d) w = call d w
pass_on call (failed e) w = (some e, w)

unfoldable pub ask :
    {W : Type 0}
    → {A : Type 0} → (RuntimeDriver W → W → Outcome A × W)
    → Outcome (RuntimeDriver W)
    → W
    → Outcome A × W
ask call (gave d) w = call d w
ask call (failed e) w = (failed e, w)

module _ {W : Type 0} (resolver : Option (String → W → Option String))
    (given : List (RuntimeDriver W)) where
  abbrev pub registered : Option (RuntimeDriver W) → String → Outcome (RuntimeDriver W)
  registered none name = failed (message ("runtime driver unavailable: " <> name))
  registered (some d) name = gave d

  abbrev pub resolved_name : String → Option String → Outcome (RuntimeDriver W)
  resolved_name id none = failed (message ("sandbox not found: " <> id))
  resolved_name id (some name) = registered (find_driver name (driver_map [] given)) name

  unfoldable pub resolve_driver : String → W → Outcome (RuntimeDriver W)
  unfolding find_driver driver_map
  resolve_driver id w = elim resolver [
    | none ↦ failed (message "runtime resolver unavailable")
    | some f ↦ resolved_name id (f id w)
  ]

  unfoldable pub router_driver : RuntimeDriver W
  unfolding resolve_driver create_with pass_on ask merge_all
  router_driver = record {
    create = λ config w.
        create_with (driver_name_of config)
          (find_driver (driver_name_of config) (driver_map [] given)) config w;
    start = λ id w. pass_on (λ d. d.start id) (resolve_driver id w) w;
    stop = λ id w. pass_on (λ d. d.stop id) (resolve_driver id w) w;
    destroy = λ id w. pass_on (λ d. d.destroy id) (resolve_driver id w) w;
    exec = λ id cmd w. ask (λ d. d.exec id cmd) (resolve_driver id w) w;
    inspect = λ id w. ask (λ d. d.inspect id) (resolve_driver id w) w;
    get_status = λ id w. ask (λ d. d.get_status id) (resolve_driver id w) w;
    get_capabilities = λ w. slice_of (merge_all w [] (driver_map [] given));
    name = "router";
  }
