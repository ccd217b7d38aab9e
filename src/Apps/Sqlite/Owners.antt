-- ===== src/Apps/Sqlite/Owners.antt =====
-- The databases that the operations of the SQLite registry lead to, and the owners of the names.
use primitive_box.Prelude.{String, ◌≡◌, refl, sym, ap, subst, ◌∙◌, Option, some, List, [], inl, inr}
use primitive_box.Errors.{GoError}
use primitive_box.Apps.{AppPrimitiveManifest}
use primitive_box.Apps.Schema.{Decoder}
use primitive_box.Apps.Contract.{Operation}
use primitive_box.Apps.Contract.Rows.{lookup, Distinct}
use primitive_box.Apps.Contract.Laws.{
  none_not_some, Kept, AllKept, OwnerAfter, perform-AllKept, perform-OwnerAfter,
}
use primitive_box.Apps.Sqlite.{AppDb, AdapterEvent, AppDatabase, sqlite_step}
use primitive_box.Apps.Sqlite.Views.{view}
use primitive_box.Apps.Sqlite.Refine.{Refines, sqlite_step-Refines}

module _ (db : AppDatabase) (d : Decoder) where
  -- From an empty table, by operations that may fail.
  pub data Reachable : AppDb → Type 0 where
    start : (events : List AdapterEvent) → Reachable (record { rows = []; events = events })
    stepped :
        {before : AppDb}
        → Reachable before
        → (op : Operation) → Reachable (sqlite_step db d op before).1

  AllKept-after :
      (op : Operation) (before after : AppDb) (e : Option GoError)
      → AllKept (view before.rows)
      → Refines db d op before (e, after)
      → AllKept (view after.rows)
  AllKept-after op before after e h (distinct, inl (failed, same)) =
      subst (λ (x : AppDb). AllKept (view x.rows)) (sym same) h
  AllKept-after op before after e h (distinct, inr (done, performed)) =
      perform-AllKept d op (view before.rows) (view after.rows) h performed

  Reachable-AllKept : (st : AppDb) → Reachable st → Distinct st.rows × AllKept (view st.rows)
  unfolding lookup
  Reachable-AllKept st (start events) = (tt, λ q m at. absurd (none_not_some at))
  Reachable-AllKept st (stepped {before} r op) =
      let h = Reachable-AllKept before r in
      let s = sqlite_step-Refines db d op before h.0 in
      (s.0, AllKept-after op before (sqlite_step db d op before).1 _ h.1 s)

  -- Whatever was called before, and whatever failed of it, a name has one row, and the manifest that
  -- is found under it has that name, which lies in no reserved namespace, schemas that are objects
  -- and pass the checks, and declarations that are complete and name their endpoints.
  pub Reachable-Kept :
      (st : AppDb)
      → Reachable st
      → (q : String) (m : AppPrimitiveManifest) → lookup q st.rows ≡ some m
      → Distinct st.rows × Kept q m
  Reachable-Kept st r q m at = let h = Reachable-AllKept st r in (h.0, h.1 q m at)

  owner_after :
      (op : Operation) (before after : AppDb) (e : Option GoError)
      → Refines db d op before (e, after)
      → (q : String) (m : AppPrimitiveManifest) → lookup q before.rows ≡ some m
      → OwnerAfter op q m (lookup q after.rows)
  owner_after op before after e (distinct, inl (failed, same)) q m at =
      inr (m, ap (λ (x : AppDb). lookup q x.rows) same ∙ at, refl)
  owner_after op before after e (distinct, inr (done, performed)) q m at =
      perform-OwnerAfter d op (view before.rows) (view after.rows) performed q m at

  -- In each database that can be reached, an operation leaves a name with the app that holds it,
  -- unless that app takes it back by this operation.
  pub sqlite_step-OwnerAfter :
      (st : AppDb)
      → Reachable st
      → (op : Operation) (q : String) (m : AppPrimitiveManifest) → lookup q st.rows ≡ some m
      → OwnerAfter op q m (lookup q (sqlite_step db d op st).1.rows)
  sqlite_step-OwnerAfter st r op q m at =
      owner_after op st (sqlite_step db d op st).1 _
        (sqlite_step-Refines db d op st (Reachable-AllKept st r).0) q m at
