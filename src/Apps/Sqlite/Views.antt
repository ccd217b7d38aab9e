-- ===== src/Apps/Sqlite/Views.antt =====
-- How the rows of the SQLite registry read under each name, before and after its statements.
use primitive_box.Prelude.{
  String, ◌≡◌, refl, sym, ap, subst, ◌∙◌, Bool, true, false, ◌&&◌, none, some, map_some, List, [],
  ◌∷◌, map, ◌=ₛ◌, eq_iff, if◌then◌else◌, Bool-cases, inl, inr, arith, fun_ext,
}
use primitive_box.Apps.{
  AppPrimitiveManifest, AppPrimitiveAvailability, active, unavailable, is_unavailable,
}
use primitive_box.Apps.Contract.{View, activated, deactivated, conflict, registered}
use primitive_box.Apps.Contract.Rows.{lookup, upsert, NotIn, Distinct, lookup-upsert, lookup-map}
use primitive_box.Apps.Sqlite.{scan_conflicts, all_unavailable}

-- What the rows hold under each name.
abbrev pub view : List AppPrimitiveManifest → View
view rows q = lookup q rows

scan_conflicts-NotIn :
    (n : AppPrimitiveManifest) (rows : List AppPrimitiveManifest)
    → NotIn n.name rows
    → scan_conflicts n rows ≡ none
unfolding scan_conflicts
scan_conflicts-NotIn n [] h = refl
scan_conflicts-NotIn n (m ∷ rest) h =
    ground (arith, h.0, eq_iff m.name n.name, scan_conflicts-NotIn n rest h.1)

-- The loop finds what the lookup of the name does.
pub scan_conflicts-lookup :
    (n : AppPrimitiveManifest) (rows : List AppPrimitiveManifest)
    → Distinct rows
    → scan_conflicts n rows ≡ conflict n (lookup n.name rows)
unfolding scan_conflicts lookup
scan_conflicts-lookup n [] h = refl
scan_conflicts-lookup n (m ∷ rest) h = elim (Bool-cases (m.name =ₛ n.name)) [
  | inl hit ↦ elim (Bool-cases (m.app_id =ₛ n.app_id)) [
    | inl own ↦
        rw (hit, own)
          (scan_conflicts-NotIn n rest
            (subst (λ x. NotIn x rest) ((eq_iff m.name n.name).0 hit) h.0))
    | inr foreign ↦ rw (hit, foreign) refl
  ]
  | inr miss ↦ rw miss (scan_conflicts-lookup n rest h.1)
]

pub activated-name : (app : String) (m : AppPrimitiveManifest) → (activated app m).name ≡ m.name
activated-name app m = ground arith

pub deactivated-name : (app : String) (m : AppPrimitiveManifest) → (deactivated app m).name ≡ m.name
deactivated-name app m = ground arith

-- The rows that `Register` writes.
pub view-registered :
    (n : AppPrimitiveManifest) (rows : List AppPrimitiveManifest)
    → view (upsert (record n { availability = active }) (map (activated n.app_id) rows))
      ≡ registered n (view rows)
view-registered n rows = fun_ext λ q.
    lookup-upsert (record n { availability = active }) q (map (activated n.app_id) rows)
    ∙ ap (λ o. if n.name =ₛ q then some (record n { availability = active }) else o)
        (lookup-map (activated n.app_id) (activated-name n.app_id) q rows)

pub view-deactivated :
    (app : String) (rows : List AppPrimitiveManifest)
    → view (map (deactivated app) rows) ≡ (λ q. map_some (deactivated app) (view rows q))
view-deactivated app rows = fun_ext λ q. lookup-map (deactivated app) (deactivated-name app) q rows

pub is_unavailable-eq : (a : AppPrimitiveAvailability) → is_unavailable a ≡ true → a ≡ unavailable
is_unavailable-eq unavailable h = refl
is_unavailable-eq _ h = cc

deactivated_same :
    (app : String) (m : AppPrimitiveManifest)
    → is_unavailable m.availability ≡ true
    → deactivated app m ≡ m
deactivated_same app m h = elim (Bool-cases (m.app_id =ₛ app)) [
  | inl own ↦
      rw own (ap (λ a. record m { availability = a }) (sym (is_unavailable-eq m.availability h)))
  | inr foreign ↦ rw foreign refl
]

and_parts : (a b : Bool) → (a && b) ≡ true → (a ≡ true) × (b ≡ true)
and_parts true b h = (refl, h)
and_parts false b h = cc

foreign_same :
    (app : String) (m : AppPrimitiveManifest) → (m.app_id =ₛ app) ≡ false → deactivated app m ≡ m
foreign_same app m h = rw h refl

-- Where all of the app's rows are unavailable already, marking them changes nothing.
pub all_unavailable-same :
    (app : String) (rows : List AppPrimitiveManifest)
    → all_unavailable app rows ≡ true
    → map (deactivated app) rows ≡ rows
unfolding all_unavailable
all_unavailable-same app [] h = refl
all_unavailable-same app (m ∷ rest) h = elim (Bool-cases (m.app_id =ₛ app)) [
  | inl own ↦
      let both =
        and_parts (is_unavailable m.availability) (all_unavailable app rest) (rw own at h) in
      ap (λ x. x ∷ map (deactivated app) rest) (deactivated_same app m both.0)
      ∙ ap (λ l. m ∷ l) (all_unavailable-same app rest both.1)
  | inr foreign ↦
      ap (λ x. x ∷ map (deactivated app) rest) (foreign_same app m foreign)
      ∙ ap (λ l. m ∷ l) (all_unavailable-same app rest (rw foreign at h))
]
