-- ===== src/Apps/Memory.antt =====
-- The registry in memory of internal/primitive/app_manifest.go. The map of manifests is kept as a
-- list under their names; the lock and the copies that protect it do not change what it holds.
use primitive_box.Prelude.{
  String, Bool, true, false, not, ◌&&◌, Option, none, some, List, [], ◌∷◌, map, ◌=ₛ◌,
}
use primitive_box.Errors.{GoError}
use primitive_box.Control.Store.{exists_by, keep_by}
use primitive_box.Apps.{AppPrimitiveManifest, active, is_unavailable, Result, ok, err}
use primitive_box.Apps.Schema.{Decoder}
use primitive_box.Apps.Normalize.{normalize_app_primitive_manifest}
use primitive_box.Apps.Contract.{
  Operation, register, unregister, mark_unavailable, activated, deactivated, conflict,
}
use primitive_box.Apps.Contract.Rows.{lookup, upsert}
use Prim.Native.String.{compare}
use Prim.Native.Nat.{Ordering}

-- `NewInMemoryAppRegistry`
abbrev pub new_in_memory_app_registry : List AppPrimitiveManifest
new_in_memory_app_registry = []

-- One of the app's primitives is unavailable.
unfoldable pub reactivating : String → List AppPrimitiveManifest → Bool
unfolding exists_by
reactivating app manifests =
    exists_by (λ (m : AppPrimitiveManifest). (m.app_id =ₛ app) && is_unavailable m.availability)
      manifests

abbrev pub stored : Bool → AppPrimitiveManifest → AppPrimitiveManifest
stored true n = record n { availability = active }
stored false n = n

-- `Register` of a manifest that was normalised.
unfoldable pub register_normalized :
    AppPrimitiveManifest → List AppPrimitiveManifest → Option GoError × List AppPrimitiveManifest
unfolding conflict reactivating lookup upsert
register_normalized n manifests =
    let again = reactivating n.app_id manifests in
    let put = upsert (stored again n) (map (activated n.app_id) manifests) in
    elim (conflict n (lookup n.name manifests)) [
      | some e ↦ (some e, manifests)
      | none ↦ (none, put)
    ]

abbrev pub register_result :
    List AppPrimitiveManifest
    → Result AppPrimitiveManifest
    → Option GoError × List AppPrimitiveManifest
register_result manifests (err e) = (some e, manifests)
register_result manifests (ok n) = register_normalized n manifests

unfoldable pub register_in_memory :
    Decoder
    → AppPrimitiveManifest
    → List AppPrimitiveManifest
    → Option GoError × List AppPrimitiveManifest
unfolding normalize_app_primitive_manifest register_normalized
register_in_memory d m manifests = register_result manifests (normalize_app_primitive_manifest d m)

-- The app's id is not read.
unfoldable pub unregister_in_memory :
    String → String → List AppPrimitiveManifest → List AppPrimitiveManifest
unfolding keep_by
unregister_in_memory app name manifests =
    keep_by (λ (m : AppPrimitiveManifest). not (m.name =ₛ name)) manifests

unfoldable pub get_in_memory : String → List AppPrimitiveManifest → Option AppPrimitiveManifest
unfolding lookup
get_in_memory name manifests = lookup name manifests

insert_by_name : AppPrimitiveManifest → List AppPrimitiveManifest → List AppPrimitiveManifest
insert_by_name m [] = m ∷ []
insert_by_name m (n ∷ rest) =
    let later = insert_by_name m rest in
    elim (compare m.name n.name) [ Ordering.gt ↦ n ∷ later | _ ↦ m ∷ n ∷ rest ]

-- The manifests by their names.
unfoldable pub list_in_memory : List AppPrimitiveManifest → List AppPrimitiveManifest
unfolding insert_by_name
list_in_memory [] = []
list_in_memory (m ∷ rest) = insert_by_name m (list_in_memory rest)

unfoldable pub mark_unavailable_in_memory :
    String → List AppPrimitiveManifest → List AppPrimitiveManifest
mark_unavailable_in_memory app manifests = map (deactivated app) manifests

unfoldable pub memory_step :
    Decoder → Operation → List AppPrimitiveManifest → Option GoError × List AppPrimitiveManifest
unfolding register_in_memory unregister_in_memory mark_unavailable_in_memory
memory_step d (register m) manifests = register_in_memory d m manifests
memory_step d (unregister app name) manifests = (none, unregister_in_memory app name manifests)
memory_step d (mark_unavailable app) manifests = (none, mark_unavailable_in_memory app manifests)
