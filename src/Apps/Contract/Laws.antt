-- ===== src/Apps/Contract/Laws.antt =====
-- What the contract of a registry keeps of the manifests and of their owners.
use primitive_box.Prelude.{
  String, ◌≡◌, refl, sym, ap, subst, ◌∙◌, Option, none, some, map_some, ◌=ₛ◌, eq_iff, if◌then◌else◌,
  Bool-cases, inl, inr, ◌⊎◌, arith,
}
use primitive_box.Apps.{
  AppPrimitiveManifest, AppPrimitiveAvailability, active, ok, ok_inj, checked, >>=-eq-ok,
  checked-eq-ok,
}
use primitive_box.Apps.Schema.{Decoder}
use primitive_box.Apps.Normalize.{normalize_app_primitive_manifest}
use primitive_box.Apps.Normalize.Laws.{IsNormal, normalize_app_primitive_manifest-IsNormal}
use primitive_box.Apps.Contract.{
  View, Operation, register, unregister, mark_unavailable, activated, deactivated, conflict,
  registered, unregistered_by, perform,
}

-- A manifest under its own name, normalised.
abbrev pub Kept : String → AppPrimitiveManifest → Type 0
Kept q m = (m.name ≡ q) × IsNormal m

abbrev pub AllKept : View → Type 0
AllKept f = (q : String) (m : AppPrimitiveManifest) → f q ≡ some m → Kept q m

-- The same manifest but for its availability.
abbrev SameBut : AppPrimitiveManifest → AppPrimitiveManifest → Type 0
SameBut m n = (a : AppPrimitiveAvailability) × (n ≡ record m { availability = a })

IsNormal-SameBut :
    (m : AppPrimitiveManifest) (a : AppPrimitiveAvailability)
    → IsNormal m
    → IsNormal (record m { availability = a })
IsNormal-SameBut m a h = record {
  unreserved = h.unreserved;
  input = h.input;
  output = h.output;
  verify = h.verify;
  rollback = h.rollback;
}

some_inj : {A : Type 0} {a b : A} → some a ≡ some b → a ≡ b
some_inj e = cc

pub none_not_some : {A : Type 0} {a : A} → none ≡ some a → ⊥
none_not_some e = cc

-- A change of availabilities keeps what is kept, and the owners.
marked-Kept :
    (f : AppPrimitiveManifest → AppPrimitiveManifest)
    → ((m : AppPrimitiveManifest) → SameBut m (f m))
    → (q : String) (o : Option AppPrimitiveManifest)
    → ((m : AppPrimitiveManifest) → o ≡ some m → Kept q m)
    → (m : AppPrimitiveManifest) → map_some f o ≡ some m
    → Kept q m
marked-Kept f same q none h m e = absurd (none_not_some e)
marked-Kept f same q (some x) h m e =
    let k = h x refl in
    subst (Kept q) (sym (same x).1 ∙ some_inj e) (k.0, IsNormal-SameBut x (same x).0 k.1)

activated-SameBut : (app : String) (m : AppPrimitiveManifest) → SameBut m (activated app m)
activated-SameBut app m = elim (Bool-cases (m.app_id =ₛ app)) [
  | inl own ↦ (active, rw own refl)
  | inr foreign ↦ (m.availability, rw foreign refl)
]

deactivated-SameBut : (app : String) (m : AppPrimitiveManifest) → SameBut m (deactivated app m)
deactivated-SameBut app m = elim (Bool-cases (m.app_id =ₛ app)) [
  | inl own ↦ (AppPrimitiveAvailability.unavailable, rw own refl)
  | inr foreign ↦ (m.availability, rw foreign refl)
]

registered-AllKept :
    (n : AppPrimitiveManifest) (f : View) → IsNormal n → AllKept f → AllKept (registered n f)
registered-AllKept n f normal h q m e = elim (Bool-cases (n.name =ₛ q)) [
  | inl hit ↦
      subst (Kept q) (some_inj (rw hit at e))
        ((eq_iff n.name q).0 hit, IsNormal-SameBut n active normal)
  | inr miss ↦
      marked-Kept (activated n.app_id) (activated-SameBut n.app_id) q (f q) (h q) m (rw miss at e)
]

unregistered_by-some :
    (app : String) (o : Option AppPrimitiveManifest) (m : AppPrimitiveManifest)
    → unregistered_by app o ≡ some m
    → o ≡ some m
unregistered_by-some app none m e = e
unregistered_by-some app (some x) m e = elim (Bool-cases (x.app_id =ₛ app)) [
  | inl own ↦ absurd (none_not_some (rw own at e))
  | inr foreign ↦ rw foreign at e
]

module _ (d : Decoder) where
  -- What is kept under a name stays a normal manifest of that name.
  pub perform-AllKept :
      (op : Operation) (f g : View) → AllKept f → perform d op f ≡ ok g → AllKept g
  unfolding perform
  perform-AllKept (register m) f g h e =
      let p =
        >>=-eq-ok (normalize_app_primitive_manifest d m)
          (λ n. checked (conflict n (f n.name)) (registered n f)) e in
      let c = checked-eq-ok (conflict p.0 (f p.0.name)) (registered p.0 f) p.2 in
      subst AllKept c.1
        (registered-AllKept p.0 f (normalize_app_primitive_manifest-IsNormal d m p.0 p.1).0 h)
  perform-AllKept (unregister app name) f g h e = subst AllKept (ok_inj e) λ q m at.
      elim (Bool-cases (name =ₛ q)) [
        | inl hit ↦ h q m (unregistered_by-some app (f q) m (rw hit at at))
        | inr miss ↦ h q m (rw miss at at)
      ]
  perform-AllKept (mark_unavailable app) f g h e =
      subst AllKept (ok_inj e)
        λ q m at. marked-Kept (deactivated app) (deactivated-SameBut app) q (f q) (h q) m at

-- What an operation leaves under a name that the app of `m` holds: nothing, where that app took it
-- back, or a manifest of that app.
abbrev pub OwnerAfter :
    Operation → String → AppPrimitiveManifest → Option AppPrimitiveManifest → Type 0
OwnerAfter op q m o =
    ((op ≡ unregister m.app_id q) × (o ≡ none))
    ⊎ ((n : AppPrimitiveManifest) × (o ≡ some n) × (n.app_id ≡ m.app_id))

owner_marked :
    (f : AppPrimitiveManifest → AppPrimitiveManifest)
    → ((m : AppPrimitiveManifest) → SameBut m (f m))
    → (op : Operation) (q : String) (m : AppPrimitiveManifest) → OwnerAfter op q m (some (f m))
owner_marked f same op q m = inr (f m, refl, ap (λ (x : AppPrimitiveManifest). x.app_id) (same m).1)

conflict-owner : (n m : AppPrimitiveManifest) → conflict n (some m) ≡ none → n.app_id ≡ m.app_id
unfolding conflict
conflict-owner n m h = ground (arith, h, eq_iff m.app_id n.app_id)

registered-owner :
    (given n : AppPrimitiveManifest) (f : View) (q : String) (m : AppPrimitiveManifest)
    → conflict n (f n.name) ≡ none
    → f q ≡ some m
    → OwnerAfter (register given) q m (registered n f q)
registered-owner given n f q m free at = elim (Bool-cases (n.name =ₛ q)) [
  | inl hit ↦
      let here = (eq_iff n.name q).0 hit in
      inr (
        record n { availability = active },
        rw hit refl,
        conflict-owner n m (subst (λ o. conflict n o ≡ none) (ap f here ∙ at) free),
      )
  | inr miss ↦ rw (miss, at) (owner_marked (activated n.app_id) (activated-SameBut n.app_id) _ q m)
]

unregistered-owner :
    (app name q : String) (m : AppPrimitiveManifest)
    → OwnerAfter
        (unregister app name)
        q
        m
        (if name =ₛ q then unregistered_by app (some m) else some m)
unregistered-owner app name q m = elim (Bool-cases (name =ₛ q)) [
  | inl hit ↦ elim (Bool-cases (m.app_id =ₛ app)) [
    | inl own ↦ inl (cc ((eq_iff name q).0 hit, (eq_iff m.app_id app).0 own), rw (hit, own) refl)
    | inr foreign ↦ inr (m, rw (hit, foreign) refl, refl)
  ]
  | inr miss ↦ inr (m, rw miss refl, refl)
]

-- No app takes a name over from another, and only the owner gives it up.
pub perform-OwnerAfter :
    (d : Decoder) (op : Operation) (f g : View)
    → perform d op f ≡ ok g
    → (q : String) (m : AppPrimitiveManifest) → f q ≡ some m
    → OwnerAfter op q m (g q)
unfolding perform
perform-OwnerAfter d (register given) f g e q m at =
    let p =
      >>=-eq-ok (normalize_app_primitive_manifest d given)
        (λ n. checked (conflict n (f n.name)) (registered n f)) e in
    let c = checked-eq-ok (conflict p.0 (f p.0.name)) (registered p.0 f) p.2 in
    subst (λ (v : View). OwnerAfter (register given) q m (v q)) c.1
      (registered-owner given p.0 f q m c.0 at)
perform-OwnerAfter d (unregister app name) f g e q m at =
    subst (λ (v : View). OwnerAfter (unregister app name) q m (v q)) (ok_inj e)
      (rw at (unregistered-owner app name q m))
perform-OwnerAfter d (mark_unavailable app) f g e q m at =
    subst (λ (v : View). OwnerAfter (mark_unavailable app) q m (v q)) (ok_inj e)
      (rw at (owner_marked (deactivated app) (deactivated-SameBut app) _ q m))
