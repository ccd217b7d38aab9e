-- ===== src/Apps/Contract.antt =====
-- The contract of the interface AppPrimitiveRegistry (internal/primitive/app_manifest.go): what a
-- registry holds under each name, as a function, and what each operation makes of it.
pub mod Rows
pub mod Laws
use primitive_box.Prelude.{
  String, ◌<>◌, Bool, true, false, Option, none, some, map_some, List, [], ◌∷◌, ◌=ₛ◌, if◌then◌else◌,
  quote,
}
use primitive_box.Errors.{GoError, message}
use primitive_box.Apps.{AppPrimitiveManifest, active, unavailable, Result, ok, err, ◌>>=◌, checked}
use primitive_box.Apps.Schema.{Decoder}
use primitive_box.Apps.Normalize.{normalize_app_primitive_manifest}

abbrev pub View : Type 0
View = String → Option AppPrimitiveManifest

pub data Operation : Type 0 where
  register : AppPrimitiveManifest → Operation
  unregister : String → String → Operation
  mark_unavailable : String → Operation

-- The manifests of an app become active, or unavailable; the others stay as they are.
abbrev pub activated : String → AppPrimitiveManifest → AppPrimitiveManifest
activated app m = if m.app_id =ₛ app then record m { availability = active } else m

abbrev pub deactivated : String → AppPrimitiveManifest → AppPrimitiveManifest
deactivated app m = if m.app_id =ₛ app then record m { availability = unavailable } else m

-- A name that another app holds is not taken over.
unfoldable pub conflict : AppPrimitiveManifest → Option AppPrimitiveManifest → Option GoError
conflict n none = none
conflict n (some existing) =
    if existing.app_id =ₛ n.app_id
    then none
    else some (
        message (
          "app_primitive_conflict: "
          <> quote n.name
          <> " is already registered by app "
          <> quote existing.app_id))

abbrev pub registered : AppPrimitiveManifest → View → View
registered n f q =
    if n.name =ₛ q
    then some (record n { availability = active })
    else map_some (activated n.app_id) (f q)

abbrev pub unregistered_by : String → Option AppPrimitiveManifest → Option AppPrimitiveManifest
unregistered_by app none = none
unregistered_by app (some m) = if m.app_id =ₛ app then none else some m

unfoldable pub perform : Decoder → Operation → View → Result View
unfolding normalize_app_primitive_manifest conflict
perform d (register m) f =
    normalize_app_primitive_manifest d m >>= λ n. checked (conflict n (f n.name)) (registered n f)
perform d (unregister app name) f = ok (λ q. if name =ₛ q then unregistered_by app (f q) else f q)
perform d (mark_unavailable app) f = ok (λ q. map_some (deactivated app) (f q))
