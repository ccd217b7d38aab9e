-- ===== src/Packages/Descriptor/Laws.antt =====
-- Which Boxfiles pass the validation.
use primitive_box.Prelude.{
  String, ◌≡◌, ◌≢◌, refl, ap, subst, Bool, true, false, not, Option, none, some, List, [], ◌∷◌,
  ◌=ₛ◌, eq_iff, starts_with, codes, All, ◌⊎◌, ◌↔◌, arith,
}
use primitive_box.Errors.{GoError}
use primitive_box.Apps.Schema.{or_else, refuse_if}
use primitive_box.Packages.{BoxfileAdapter, PrimitiveSpec, BoxfileBootstrapFile, Boxfile}
use primitive_box.Packages.Descriptor.Names.{
  IsSlug, HasDots, IsRooted, is_slug-IsSlug, no_dots, not-IsRooted,
}
use primitive_box.Packages.Descriptor.{
  reserved_prefixes, is_slug, has_dots, is_abs, adapter_fault, prefix_fault, primitives_fault,
  file_fault, files_fault, bootstrap_fault, validate_boxfile,
}

-- A name that is there, and in none of the reserved namespaces.
abbrev pub IsOpen : PrimitiveSpec → Type 0
IsOpen spec =
    (spec.name ≢ "") × All (λ prefix. starts_with spec.name prefix ≡ false) reserved_prefixes

-- A file whose destination is a relative path without two dots in a row.
abbrev pub IsInside : BoxfileBootstrapFile → Type 0
IsInside f = (f.src ≢ "") × (f.dst ≢ "") × (¬ HasDots (codes f.dst)) × (¬ IsRooted (codes f.dst))

abbrev pub AreInside : Option (List BoxfileBootstrapFile) → Type 0
AreInside none = Unit {0}
AreInside (some files) = All IsInside files

abbrev pub IsLaunchable : BoxfileAdapter → Type 0
IsLaunchable a =
    ((a.kind ≡ "binary") × (a.binary_path ≢ ""))
    ⊎ ((a.kind ≡ "mcp") × ((a.binary_path ≢ "") ⊎ (a.mcp_command ≢ "")))

pub record IsValid (bf : Boxfile) : Type 0 where
  pub slug : IsSlug (codes bf.name)
  pub version : bf.version ≢ ""
  pub adapter : IsLaunchable bf.adapter
  pub socket : bf.adapter.socket_path ≢ ""
  pub primitives : All IsOpen bf.primitives
  pub bootstrap : AreInside bf.bootstrap

or_else-none : (a b : Option GoError) → or_else a b ≡ none → (a ≡ none) × (b ≡ none)
or_else-none none b h = (refl, h)
or_else-none (some e) b h = cc

refuse_if-none : (b : Bool) (e : GoError) → refuse_if b e ≡ none → b ≡ false
refuse_if-none false e h = refl
refuse_if-none true e h = cc

unnegated : (b : Bool) → not b ≡ false → b ≡ true
unnegated true h = refl
unnegated false h = cc

nonempty : (s : String) → (s =ₛ "") ≡ false → s ≢ ""
nonempty s h e = ground (arith, h, eq_iff s "", e)

adapter_fault-IsLaunchable : (a : BoxfileAdapter) → adapter_fault a ≡ none → IsLaunchable a
unfolding adapter_fault
adapter_fault-IsLaunchable a h = ground (
  arith,
  h,
  eq_iff a.kind "binary",
  eq_iff a.kind "mcp",
  eq_iff a.kind "",
  eq_iff a.binary_path "",
  eq_iff a.mcp_command "",
)

prefix_fault-none :
    (lead name : String) (l : List String)
    → prefix_fault lead name l ≡ none
    → All (λ prefix. starts_with name prefix ≡ false) l
unfolding prefix_fault
prefix_fault-none lead name [] h = tt
prefix_fault-none lead name (prefix ∷ rest) h =
    let both =
      or_else-none (refuse_if (starts_with name prefix) _) (prefix_fault lead name rest) h in
    (refuse_if-none (starts_with name prefix) _ both.0, prefix_fault-none lead name rest both.1)

primitives_fault-none : (l : List PrimitiveSpec) → primitives_fault l ≡ none → All IsOpen l
unfolding primitives_fault
primitives_fault-none [] h = tt
primitives_fault-none (spec ∷ rest) h =
    let named = or_else-none (refuse_if (spec.name =ₛ "") _) _ h in
    let both =
      or_else-none (prefix_fault "primitive " spec.name reserved_prefixes) (primitives_fault rest)
        named.1 in
    (
      (
        nonempty spec.name (refuse_if-none (spec.name =ₛ "") _ named.0),
        prefix_fault-none "primitive " spec.name reserved_prefixes both.0,
      ),
      primitives_fault-none rest both.1,
    )

file_fault-IsInside : (f : BoxfileBootstrapFile) → file_fault f ≡ none → IsInside f
unfolding file_fault
file_fault-IsInside f h =
    let src = or_else-none (refuse_if (f.src =ₛ "") _) _ h in
    let dst = or_else-none (refuse_if (f.dst =ₛ "") _) _ src.1 in
    let dots = or_else-none (refuse_if (has_dots (codes f.dst)) _) _ dst.1 in
    (
      nonempty f.src (refuse_if-none (f.src =ₛ "") _ src.0),
      nonempty f.dst (refuse_if-none (f.dst =ₛ "") _ dst.0),
      (no_dots (codes f.dst)).0 (refuse_if-none (has_dots (codes f.dst)) _ dots.0),
      (not-IsRooted (codes f.dst)).0 (refuse_if-none (is_abs (codes f.dst)) _ dots.1),
    )

files_fault-none : (l : List BoxfileBootstrapFile) → files_fault l ≡ none → All IsInside l
unfolding files_fault
files_fault-none [] h = tt
files_fault-none (f ∷ rest) h =
    let both = or_else-none (file_fault f) (files_fault rest) h in
    (file_fault-IsInside f both.0, files_fault-none rest both.1)

bootstrap_fault-AreInside :
    (o : Option (List BoxfileBootstrapFile)) → bootstrap_fault o ≡ none → AreInside o
bootstrap_fault-AreInside none h = tt
bootstrap_fault-AreInside (some files) h = files_fault-none files h

validate_boxfile-IsValid : (bf : Boxfile) → validate_boxfile bf ≡ none → IsValid bf
unfolding validate_boxfile
validate_boxfile-IsValid bf h =
    let named = or_else-none (refuse_if (bf.name =ₛ "") _) _ h in
    let slug = or_else-none (refuse_if (not (is_slug (codes bf.name))) _) _ named.1 in
    let version = or_else-none (refuse_if (bf.version =ₛ "") _) _ slug.1 in
    let adapter = or_else-none (adapter_fault bf.adapter) _ version.1 in
    let socket = or_else-none (refuse_if (bf.adapter.socket_path =ₛ "") _) _ adapter.1 in
    let rest =
      or_else-none (primitives_fault bf.primitives) (bootstrap_fault bf.bootstrap) socket.1 in
    record {
      slug = (is_slug-IsSlug (codes bf.name)).0 (
          unnegated (is_slug (codes bf.name))
            (refuse_if-none (not (is_slug (codes bf.name))) _ slug.0));
      version = nonempty bf.version (refuse_if-none (bf.version =ₛ "") _ version.0);
      adapter = adapter_fault-IsLaunchable bf.adapter adapter.0;
      socket =
          nonempty bf.adapter.socket_path
            (refuse_if-none (bf.adapter.socket_path =ₛ "") _ socket.0);
      primitives = primitives_fault-none bf.primitives rest.0;
      bootstrap = bootstrap_fault-AreInside bf.bootstrap rest.1;
    }

-- The other way round.
both-none : (a b : Option GoError) → a ≡ none → b ≡ none → or_else a b ≡ none
both-none a b ha hb = rw (ha, hb) refl

kept : (b : Bool) (e : GoError) → b ≡ false → refuse_if b e ≡ none
kept b e h = rw h refl

empty_false : (s : String) → s ≢ "" → (s =ₛ "") ≡ false
empty_false s h = ground (arith, h, eq_iff s "")

mcp_not_binary : ◌≢◌ {A = String} "mcp" "binary"
mcp_not_binary = ground (arith, eq_iff "mcp" "binary")

IsLaunchable-adapter_fault : (a : BoxfileAdapter) → IsLaunchable a → adapter_fault a ≡ none
unfolding adapter_fault
IsLaunchable-adapter_fault a h = ground (
  arith,
  h,
  mcp_not_binary,
  eq_iff a.kind "binary",
  eq_iff a.kind "mcp",
  eq_iff a.kind "",
  eq_iff a.binary_path "",
  eq_iff a.mcp_command "",
)

none-prefix_fault :
    (lead name : String) (l : List String)
    → All (λ prefix. starts_with name prefix ≡ false) l
    → prefix_fault lead name l ≡ none
unfolding prefix_fault
none-prefix_fault lead name [] h = refl
none-prefix_fault lead name (prefix ∷ rest) h =
    both-none _ _ (kept (starts_with name prefix) _ h.0) (none-prefix_fault lead name rest h.1)

IsOpen-primitives_fault : (l : List PrimitiveSpec) → All IsOpen l → primitives_fault l ≡ none
unfolding primitives_fault
IsOpen-primitives_fault [] h = refl
IsOpen-primitives_fault (spec ∷ rest) h =
    both-none _ _ (kept (spec.name =ₛ "") _ (empty_false spec.name h.0.0)) (
      both-none _ _ (none-prefix_fault "primitive " spec.name reserved_prefixes h.0.1)
        (IsOpen-primitives_fault rest h.1))

IsInside-file_fault : (f : BoxfileBootstrapFile) → IsInside f → file_fault f ≡ none
unfolding file_fault
IsInside-file_fault f h = both-none _ _ (kept (f.src =ₛ "") _ (empty_false f.src h.0)) (
    both-none _ _ (kept (f.dst =ₛ "") _ (empty_false f.dst h.1)) (
      both-none _ _ (kept (has_dots (codes f.dst)) _ ((no_dots (codes f.dst)).1 h.2))
        (kept (is_abs (codes f.dst)) _ ((not-IsRooted (codes f.dst)).1 h.3))))

IsInside-files_fault : (l : List BoxfileBootstrapFile) → All IsInside l → files_fault l ≡ none
unfolding files_fault
IsInside-files_fault [] h = refl
IsInside-files_fault (f ∷ rest) h =
    both-none _ _ (IsInside-file_fault f h.0) (IsInside-files_fault rest h.1)

AreInside-bootstrap_fault :
    (o : Option (List BoxfileBootstrapFile)) → AreInside o → bootstrap_fault o ≡ none
AreInside-bootstrap_fault none h = refl
AreInside-bootstrap_fault (some files) h = IsInside-files_fault files h

false_not_true : false ≡ true → ⊥
false_not_true e = cc

slug_named : (s : String) → is_slug (codes s) ≡ true → (s =ₛ "") ≡ false
unfolding is_slug
slug_named s h = empty_false s λ e. false_not_true (subst (λ x. is_slug (codes x) ≡ true) e h)

IsValid-validate_boxfile : (bf : Boxfile) → IsValid bf → validate_boxfile bf ≡ none
unfolding validate_boxfile
IsValid-validate_boxfile bf v =
    both-none _ _
      (kept (bf.name =ₛ "") _ (slug_named bf.name ((is_slug-IsSlug (codes bf.name)).1 v.slug)))
      (both-none _ _
        (kept (not (is_slug (codes bf.name))) _
          (ap not ((is_slug-IsSlug (codes bf.name)).1 v.slug)))
        (both-none _ _ (kept (bf.version =ₛ "") _ (empty_false bf.version v.version)) (
          both-none _ _ (IsLaunchable-adapter_fault bf.adapter v.adapter) (
            both-none _ _
              (kept (bf.adapter.socket_path =ₛ "") _ (empty_false bf.adapter.socket_path v.socket))
              (both-none _ _ (IsOpen-primitives_fault bf.primitives v.primitives)
                (AreInside-bootstrap_fault bf.bootstrap v.bootstrap))))))

-- A Boxfile passes the validation exactly if its name is a slug, it has a version, a socket and what
-- the type of its adapter needs, its primitives have names outside the reserved namespaces, and
-- every file of its bootstrap has a source and a relative destination without two dots in a row.
pub validate_boxfile-IsValid_iff : (bf : Boxfile) → (validate_boxfile bf ≡ none) ↔ IsValid bf
validate_boxfile-IsValid_iff bf = (validate_boxfile-IsValid bf, IsValid-validate_boxfile bf)
