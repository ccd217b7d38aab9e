-- ===== src/Apps/Sqlite.antt =====
-- SQLiteAppRegistry of internal/control/app_registry.go over the table app_primitives, whose
-- primary key is the name. The database may answer any statement with an error; a transaction that
-- is not committed leaves the table as it was. Rows hold the manifests that were encoded into them.
pub mod Views
pub mod Refine
pub mod Owners
pub mod Agree
use primitive_box.Prelude.{
  String, Bool, true, false, not, ◌&&◌, ◌||◌, Option, none, some, map_some, List, [], ◌∷◌, map,
  ◌=ₛ◌, if◌then◌else◌,
}
use primitive_box.Errors.{GoError, wrap}
use primitive_box.Control.Store.{exists_by, keep_by}
use primitive_box.Apps.{
  AppPrimitiveManifest, active, unavailable, is_unavailable, Result, ok, err, ◌>>=◌, checked,
  refused_by,
}
use primitive_box.Apps.Schema.{Decoder}
use primitive_box.Apps.Normalize.{normalize_app_primitive_manifest}
use primitive_box.Apps.Contract.{
  Operation, register, unregister, mark_unavailable, activated, deactivated, conflict,
}
use primitive_box.Apps.Contract.Rows.{lookup, upsert}
use primitive_box.Apps.Memory.{reactivating, list_in_memory}

-- What is published to the bus: a manifest that was registered, or again, and the manifests of an
-- app that is not there any more.
pub data AdapterEvent : Type 0 where
  adapter_registered adapter_reactivated : AppPrimitiveManifest → AdapterEvent
  adapter_unavailable : String → List AppPrimitiveManifest → AdapterEvent

pub record AppDb : Type 0 where
  pub rows : List AppPrimitiveManifest
  pub events : List AdapterEvent

pub data Statement : Type 0 where
  begin select_registrations reactivate upsert_row commit : Statement
  begin_availability select_app update_availability commit_availability : Statement
  delete_row select_row select_all : Statement

pub record AppDatabase : Type 0 where
  pub fault : Statement → AppDb → Option GoError

-- The loop over the rows of the app and of the name, up to the first that another app holds.
unfoldable pub scan_conflicts : AppPrimitiveManifest → List AppPrimitiveManifest → Option GoError
unfolding conflict
scan_conflicts n [] = none
scan_conflicts n (m ∷ rest) =
    let later = scan_conflicts n rest in
    if (m.name =ₛ n.name) && not (m.app_id =ₛ n.app_id) then conflict n (some m) else later

unfoldable pub publish_app_event : AdapterEvent → List AdapterEvent → List AdapterEvent
publish_app_event e events = e ∷ events

-- An error of the registry, or the database after the operation.
abbrev pub outcome : AppDb → Result AppDb → Option GoError × AppDb
outcome before (ok after) = (none, after)
outcome before (err e) = (some e, before)

abbrev pub registered_event : Bool → AppPrimitiveManifest → AdapterEvent
registered_event true m = adapter_reactivated m
registered_event false m = adapter_registered m

-- The app's rows are unavailable already, or there are none.
unfoldable pub all_unavailable : String → List AppPrimitiveManifest → Bool
all_unavailable app [] = true
all_unavailable app (m ∷ rest) =
    let later = all_unavailable app rest in
    if m.app_id =ₛ app then is_unavailable m.availability && later else later

module _ (db : AppDatabase) (d : Decoder) where
  -- A statement, with the error that the caller makes of its fault.
  abbrev pub faulted : Statement → String → AppDb → Option GoError
  faulted s text st = map_some (wrap text) (db.fault s st)

  abbrev executed : Statement → String → AppDb → Result (Unit {0})
  executed s text st = refused_by (faulted s text st)

  -- The rows and the event of a registration that is committed.
  unfoldable pub registered_rows : AppPrimitiveManifest → AppDb → AppDb
  unfolding reactivating upsert publish_app_event
  registered_rows n st =
      let row = record n { availability = active } in
      record {
        rows = upsert row (map (activated n.app_id) st.rows);
        events = publish_app_event (registered_event (reactivating n.app_id st.rows) row) st.events;
      }

  -- The transaction of `Register`.
  unfoldable pub register_rows : AppPrimitiveManifest → AppDb → Result AppDb
  unfolding scan_conflicts registered_rows
  register_rows n st = do
    _ ← executed begin "begin app registration tx: " st
    _ ← executed select_registrations "query existing app registrations: " st
    _ ← refused_by (scan_conflicts n st.rows)
    _ ← executed reactivate "reactivate app registrations: " st
    _ ← executed upsert_row "upsert app registration: " st
    _ ← executed commit "commit app registration: " st
    ok (registered_rows n st)

  unfoldable pub register_sqlite : AppPrimitiveManifest → AppDb → Option GoError × AppDb
  unfolding normalize_app_primitive_manifest register_rows
  register_sqlite m st =
      outcome st (normalize_app_primitive_manifest d m >>= λ n. register_rows n st)

  unfoldable pub unregister_rows : String → String → AppDb → Result AppDb
  unfolding keep_by
  unregister_rows app name st = do
    _ ← executed delete_row "delete app registration: " st
    ok (record st {
      rows =
          keep_by (λ (m : AppPrimitiveManifest). not ((m.app_id =ₛ app) && (m.name =ₛ name)))
            st.rows;
    })

  unfoldable pub unregister_sqlite : String → String → AppDb → Option GoError × AppDb
  unfolding unregister_rows
  unregister_sqlite app name st = outcome st (unregister_rows app name st)

  unfoldable pub get_sqlite : String → AppDb → Option GoError × Option AppPrimitiveManifest
  unfolding lookup
  get_sqlite name st = elim (db.fault select_row st) [
    | some e ↦ (some e, none)
    | none ↦ (none, lookup name st.rows)
  ]

  -- `ORDER BY name ASC`
  unfoldable pub list_sqlite : AppDb → Option GoError × List AppPrimitiveManifest
  unfolding list_in_memory
  list_sqlite st = elim (db.fault select_all st) [
    | some e ↦ (some (wrap "list app registrations: " e), [])
    | none ↦ (none, list_in_memory st.rows)
  ]

  -- The rows and the event of `MarkUnavailable`, with the app's manifests by their names.
  unfoldable pub marked_rows : String → AppDb → AppDb
  unfolding keep_by list_in_memory publish_app_event
  marked_rows app st =
      let own = keep_by (λ (m : AppPrimitiveManifest). m.app_id =ₛ app) st.rows in
      record {
        rows = map (deactivated app) st.rows;
        events =
            publish_app_event (adapter_unavailable app (list_in_memory (map (deactivated app) own)))
              st.events;
      }

  unfoldable pub mark_written : String → AppDb → Result AppDb
  unfolding marked_rows
  mark_written app st = do
    _ ← executed update_availability "update app availability: " st
    _ ← executed commit_availability "commit app availability: " st
    ok (marked_rows app st)

  unfoldable pub mark_unavailable_rows : String → AppDb → Result AppDb
  unfolding all_unavailable mark_written
  mark_unavailable_rows app st = do
    _ ← executed begin_availability "begin app availability tx: " st
    _ ← executed select_app "query app registrations for unavailability: " st
    let written = mark_written app st
    if all_unavailable app st.rows then ok st else written

  unfoldable pub mark_unavailable_sqlite : String → AppDb → Option GoError × AppDb
  unfolding mark_unavailable_rows
  mark_unavailable_sqlite app st = outcome st (mark_unavailable_rows app st)

  unfoldable pub sqlite_step : Operation → AppDb → Option GoError × AppDb
  unfolding register_sqlite unregister_sqlite mark_unavailable_sqlite
  sqlite_step (register m) st = register_sqlite m st
  sqlite_step (unregister app name) st = unregister_sqlite app name st
  sqlite_step (mark_unavailable app) st = mark_unavailable_sqlite app st
