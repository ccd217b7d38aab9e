-- ===== src/Apps/Contract/Rows.antt =====
-- Manifests that are kept in a list under their names, and how they are read.
use primitive_box.Prelude.{
  String, ◌≡◌, ◌≢◌, refl, sym, subst, ap, ◌∙◌, Bool, true, false, not, ◌&&◌, Option, none, some,
  map_some, List, [], ◌∷◌, map, ◌=ₛ◌, eq_iff, if◌then◌else◌, All, Bool-cases, inl, inr, arith,
}
use primitive_box.Apps.{AppPrimitiveManifest}
use primitive_box.Control.Store.{keep_by}
use primitive_box.Apps.Contract.{unregistered_by}

unfoldable pub lookup : String → List AppPrimitiveManifest → Option AppPrimitiveManifest
lookup q [] = none
lookup q (m ∷ rest) = let later = lookup q rest in if m.name =ₛ q then some m else later

-- `m[name] = manifest`, and `INSERT … ON CONFLICT(name) DO UPDATE`
unfoldable pub upsert : AppPrimitiveManifest → List AppPrimitiveManifest → List AppPrimitiveManifest
upsert n [] = n ∷ []
upsert n (m ∷ rest) = let later = upsert n rest in if m.name =ₛ n.name then n ∷ rest else m ∷ later

true_not_false : true ≡ false → ⊥
true_not_false e = cc

abbrev pub NotIn : String → List AppPrimitiveManifest → Type 0
NotIn name rows = All (λ (m : AppPrimitiveManifest). m.name ≢ name) rows

abbrev pub Distinct : List AppPrimitiveManifest → Type 0
Distinct [] = Unit {0}
Distinct (m ∷ rest) = NotIn m.name rest × Distinct rest

pub lookup-upsert :
    (n : AppPrimitiveManifest) (q : String) (rows : List AppPrimitiveManifest)
    → lookup q (upsert n rows) ≡ (if n.name =ₛ q then some n else lookup q rows)
unfolding lookup upsert
lookup-upsert n q [] = refl
lookup-upsert n q (m ∷ rest) =
    ground (arith, eq_iff n.name q, eq_iff m.name n.name, eq_iff m.name q, lookup-upsert n q rest)

pub lookup-map :
    (f : AppPrimitiveManifest → AppPrimitiveManifest)
    → ((m : AppPrimitiveManifest) → (f m).name ≡ m.name)
    → (q : String) (rows : List AppPrimitiveManifest)
    → lookup q (map f rows) ≡ map_some f (lookup q rows)
unfolding lookup
lookup-map f same q [] = refl
lookup-map f same q (m ∷ rest) = elim (Bool-cases (m.name =ₛ q)) [
  | inl hit ↦ rw (ap (λ x. x =ₛ q) (same m) ∙ hit, hit) refl
  | inr miss ↦ rw (ap (λ x. x =ₛ q) (same m) ∙ miss, miss) (lookup-map f same q rest)
]

pub lookup-NotIn :
    (q : String) (rows : List AppPrimitiveManifest) → NotIn q rows → lookup q rows ≡ none
unfolding lookup
lookup-NotIn q [] h = refl
lookup-NotIn q (m ∷ rest) h = ground (arith, h.0, eq_iff m.name q, lookup-NotIn q rest h.1)

-- `delete(m, name)`
pub lookup-delete :
    (name q : String) (rows : List AppPrimitiveManifest)
    → lookup q (keep_by (λ (m : AppPrimitiveManifest). not (m.name =ₛ name)) rows)
      ≡ (if name =ₛ q then none else lookup q rows)
unfolding lookup keep_by
lookup-delete name q [] = ground arith
lookup-delete name q (m ∷ rest) =
    ground (arith, eq_iff name q, eq_iff m.name name, eq_iff m.name q, lookup-delete name q rest)

-- `DELETE … WHERE app_id = ? AND name = ?`
pub lookup-delete_owned :
    (app name q : String) (rows : List AppPrimitiveManifest)
    → Distinct rows
    → lookup q
        (keep_by (λ (m : AppPrimitiveManifest). not ((m.app_id =ₛ app) && (m.name =ₛ name))) rows)
      ≡ (if name =ₛ q then unregistered_by app (lookup q rows) else lookup q rows)
unfolding lookup keep_by
lookup-delete_owned app name q [] h = ground arith
lookup-delete_owned app name q (m ∷ rest) h = elim (Bool-cases (m.name =ₛ q)) [
  | inl hit ↦
      let here = (eq_iff m.name q).0 hit in
      ground (
        arith,
        hit,
        here,
        eq_iff m.name name,
        eq_iff name q,
        lookup-delete_owned app name q rest h.1,
        lookup-NotIn q rest (subst (λ x. NotIn x rest) here h.0),
      )
  | inr miss ↦ ground (
    arith,
    miss,
    eq_iff m.name q,
    eq_iff m.name name,
    eq_iff name q,
    lookup-delete_owned app name q rest h.1,
  )
]

map-NotIn :
    (f : AppPrimitiveManifest → AppPrimitiveManifest)
    → ((m : AppPrimitiveManifest) → (f m).name ≡ m.name)
    → (name : String) (rows : List AppPrimitiveManifest) → NotIn name rows
    → NotIn name (map f rows)
map-NotIn f same name [] h = tt
map-NotIn f same name (m ∷ rest) h = ((λ e. h.0 (sym (same m) ∙ e)), map-NotIn f same name rest h.1)

pub map-Distinct :
    (f : AppPrimitiveManifest → AppPrimitiveManifest)
    → ((m : AppPrimitiveManifest) → (f m).name ≡ m.name)
    → (rows : List AppPrimitiveManifest) → Distinct rows
    → Distinct (map f rows)
map-Distinct f same [] h = tt
map-Distinct f same (m ∷ rest) h = (
  subst (λ x. NotIn x (map f rest)) (sym (same m)) (map-NotIn f same m.name rest h.0),
  map-Distinct f same rest h.1,
)

upsert-NotIn :
    (n : AppPrimitiveManifest) (name : String) (rows : List AppPrimitiveManifest)
    → n.name ≢ name
    → NotIn name rows
    → NotIn name (upsert n rows)
unfolding upsert
upsert-NotIn n name [] other h = (other, tt)
upsert-NotIn n name (m ∷ rest) other h = elim (Bool-cases (m.name =ₛ n.name)) [
  | inl hit ↦ rw hit (other, h.1)
  | inr miss ↦ rw miss (h.0, upsert-NotIn n name rest other h.1)
]

pub upsert-Distinct :
    (n : AppPrimitiveManifest) (rows : List AppPrimitiveManifest)
    → Distinct rows
    → Distinct (upsert n rows)
unfolding upsert
upsert-Distinct n [] h = (tt, tt)
upsert-Distinct n (m ∷ rest) h = elim (Bool-cases (m.name =ₛ n.name)) [
  | inl hit ↦ rw hit (subst (λ x. NotIn x rest) ((eq_iff m.name n.name).0 hit) h.0, h.1)
  | inr miss ↦ rw miss (
    upsert-NotIn n m.name rest (λ e. true_not_false (sym ((eq_iff m.name n.name).1 (sym e)) ∙ miss))
        h.0,
    upsert-Distinct n rest h.1,
  )
]

keep_by-NotIn :
    (p : AppPrimitiveManifest → Bool) (name : String) (rows : List AppPrimitiveManifest)
    → NotIn name rows
    → NotIn name (keep_by p rows)
unfolding keep_by
keep_by-NotIn p name [] h = tt
keep_by-NotIn p name (m ∷ rest) h = elim (Bool-cases (p m)) [
  | inl hit ↦ rw hit (h.0, keep_by-NotIn p name rest h.1)
  | inr miss ↦ rw miss (keep_by-NotIn p name rest h.1)
]

pub keep_by-Distinct :
    (p : AppPrimitiveManifest → Bool) (rows : List AppPrimitiveManifest)
    → Distinct rows
    → Distinct (keep_by p rows)
unfolding keep_by
keep_by-Distinct p [] h = tt
keep_by-Distinct p (m ∷ rest) h = elim (Bool-cases (p m)) [
  | inl hit ↦ rw hit (keep_by-NotIn p m.name rest h.0, keep_by-Distinct p rest h.1)
  | inr miss ↦ rw miss (keep_by-Distinct p rest h.1)
]
