-- ===== src/Apps/Sqlite/Agree.antt =====
-- The SQLite registry over a database that answers, and the registry in memory.
use primitive_box.Prelude.{
  String, ◌≡◌, refl, sym, ap, subst, ◌∙◌, Bool, true, false, Option, none, some, map_some, List, [],
  ◌∷◌, map, ◌=ₛ◌, eq_iff, if◌then◌else◌, Bool-cases, inl, inr, fun_ext,
}
use primitive_box.Errors.{GoError}
use primitive_box.Apps.{
  AppPrimitiveManifest, active, Result, ok, err, ◌>>=◌, checked, refused_by, Result-cases,
}
use primitive_box.Apps.Schema.{Decoder}
use primitive_box.Apps.Normalize.{
  normalize_app_primitive_availability, normalize_app_primitive_manifest,
}
use primitive_box.Apps.Normalize.Laws.{normalize_app_primitive_manifest-IsNormal}
use primitive_box.Apps.Contract.{
  View, Operation, register, unregister, mark_unavailable, activated, deactivated, conflict,
  registered, unregistered_by, perform,
}
use primitive_box.Apps.Contract.Rows.{lookup, upsert, Distinct, lookup-delete, lookup-delete_owned}
use primitive_box.Apps.Memory.{
  reactivating, stored, register_normalized, unregister_in_memory, memory_step,
}
use primitive_box.Apps.Sqlite.{
  AppDb, AppDatabase, Statement, begin, select_registrations, reactivate, upsert_row, commit,
  begin_availability, select_app, update_availability, commit_availability, delete_row, outcome,
  all_unavailable, registered_rows, register_rows, unregister_rows, mark_written,
  mark_unavailable_rows, sqlite_step,
}
use primitive_box.Apps.Sqlite.Views.{
  view, scan_conflicts-lookup, view-registered, view-deactivated, all_unavailable-same,
}
use primitive_box.Apps.Sqlite.Refine.{sqlite_step-Refines}

-- The error of an operation of the contract, and what is held after it.
abbrev pub settled : View → Result View → Option GoError × View
settled f (ok g) = (none, g)
settled f (err e) = (some e, f)

-- An operation on which both registries follow the contract: what is registered declares itself
-- active or leaves that out, and a name is taken back by the app that holds it.
abbrev pub IsTame : Operation → View → Type 0
IsTame (register m) f = normalize_app_primitive_availability m.availability ≡ active
IsTame (unregister app name) f = unregistered_by app (f name) ≡ none
IsTame (mark_unavailable app) f = Unit {0}

stored_active :
    (again : Bool) (n : AppPrimitiveManifest)
    → n.availability ≡ active
    → stored again n ≡ record n { availability = active }
stored_active true n h = refl
stored_active false n h = ap (λ a. record n { availability = a }) h

abbrev observed : Option GoError × List AppPrimitiveManifest → Option GoError × View
observed (e, rows) = (e, view rows)

checked_step :
    (c : Option GoError) (rows rows' : List AppPrimitiveManifest) (g : View)
    → view rows' ≡ g
    → observed (elim c [ some e ↦ (some e, rows) | none ↦ (none, rows') ])
      ≡ settled (view rows) (checked c g)
checked_step none rows rows' g h = ap (λ v. (none, v)) h
checked_step (some e) rows rows' g h = refl

memory_register :
    (n : AppPrimitiveManifest) (rows : List AppPrimitiveManifest)
    → n.availability ≡ active
    → observed (register_normalized n rows)
      ≡ settled (view rows) (checked (conflict n (view rows n.name)) (registered n (view rows)))
unfolding register_normalized
memory_register n rows h =
    checked_step (conflict n (lookup n.name rows)) rows _ (registered n (view rows)) (
      ap (λ x. view (upsert x (map (activated n.app_id) rows)))
        (stored_active (reactivating n.app_id rows) n h)
      ∙ view-registered n rows)

memory_deleted :
    (app name : String) (rows : List AppPrimitiveManifest)
    → unregistered_by app (lookup name rows) ≡ none
    → view (unregister_in_memory app name rows)
      ≡ (λ q. if name =ₛ q then unregistered_by app (view rows q) else view rows q)
unfolding unregister_in_memory
memory_deleted app name rows h = fun_ext λ q.
    lookup-delete name q rows ∙ elim (Bool-cases (name =ₛ q)) [
      | inl hit ↦
          rw
            (hit, subst (λ x. unregistered_by app (lookup x rows) ≡ none) ((eq_iff name q).0 hit) h)
            refl
      | inr miss ↦ rw miss refl
    ]

module _ (d : Decoder) where
  memory_step-settled :
      (op : Operation) (rows : List AppPrimitiveManifest)
      → IsTame op (view rows)
      → observed (memory_step d op rows) ≡ settled (view rows) (perform d op (view rows))
  unfolding memory_step perform
  memory_step-settled (register m) rows tame =
      elim (Result-cases (normalize_app_primitive_manifest d m)) [
        | inl (n, good) ↦ rw good (
            memory_register n rows
              ((normalize_app_primitive_manifest-IsNormal d m n good).5 ∙ tame))
        | inr (e, bad) ↦ rw bad refl
      ]
  memory_step-settled (unregister app name) rows tame =
      ap (λ v. (none, v)) (memory_deleted app name rows tame)
  memory_step-settled (mark_unavailable app) rows tame =
      ap (λ v. (none, v)) (view-deactivated app rows)

abbrev observed_db : Option GoError × AppDb → Option GoError × View
observed_db (e, st) = (e, view st.rows)

-- The outcome of a check over the database.
checked_outcome :
    (st after : AppDb) (c : Option GoError) (g : View)
    → view after.rows ≡ g
    → observed_db (outcome st (refused_by c >>= λ _. ok after))
      ≡ settled (view st.rows) (checked c g)
checked_outcome st after none g h = ap (λ v. (none, v)) h
checked_outcome st after (some e) g h = refl

module _ (db : AppDatabase) (d : Decoder) where
  -- The operations one after the other, with the error of each.
  abbrev pub run_sqlite : List Operation → AppDb → List (Option GoError) × AppDb
  run_sqlite [] st = ([], st)
  run_sqlite (op ∷ ops) st =
      let (e, st') = sqlite_step db d op st in let (es, last) = run_sqlite ops st' in (e ∷ es, last)

module _ (d : Decoder) where
  abbrev pub run_memory :
      List Operation → List AppPrimitiveManifest → List (Option GoError) × List AppPrimitiveManifest
  run_memory [] rows = ([], rows)
  run_memory (op ∷ ops) rows =
      let (e, rows') = memory_step d op rows in
      let (es, last) = run_memory ops rows' in (e ∷ es, last)

  abbrev pub AllTame : List Operation → List AppPrimitiveManifest → Type 0
  AllTame [] rows = Unit {0}
  AllTame (op ∷ ops) rows = IsTame op (view rows) × AllTame ops (memory_step d op rows).1

-- A database that answers every statement.
abbrev pub Answers : AppDatabase → Type 0
Answers db = (s : Statement) (st : AppDb) → db.fault s st ≡ none

module _ (db : AppDatabase) (d : Decoder) (answers : Answers db) where
  register_rows-settled :
      (n : AppPrimitiveManifest) (st : AppDb)
      → Distinct st.rows
      → observed_db (outcome st (register_rows db d n st))
        ≡ settled
            (view st.rows)
            (checked (conflict n (view st.rows n.name)) (registered n (view st.rows)))
  unfolding register_rows
  register_rows-settled n st distinct =
      rw
        (
          answers begin st,
          answers select_registrations st,
          answers reactivate st,
          answers upsert_row st,
          answers commit st,
          scan_conflicts-lookup n st.rows distinct,
        )
        (checked_outcome st (registered_rows db d n st) (conflict n (lookup n.name st.rows)) _
          (view-registered n st.rows))

  mark_unavailable-settled :
      (app : String) (st : AppDb)
      → observed_db (outcome st (mark_unavailable_rows db d app st))
        ≡ (none, λ q. map_some (deactivated app) (view st.rows q))
  unfolding mark_unavailable_rows mark_written
  mark_unavailable-settled app st =
      rw
        (
          answers begin_availability st,
          answers select_app st,
          answers update_availability st,
          answers commit_availability st,
        )
        (elim (Bool-cases (all_unavailable app st.rows)) [
          | inl already ↦ rw already (
              ap (λ v. (none, v))
                (ap view (sym (all_unavailable-same app st.rows already))
                  ∙ view-deactivated app st.rows))
          | inr some_left ↦ rw some_left (ap (λ v. (none, v)) (view-deactivated app st.rows))
        ])

  sqlite_step-settled :
      (op : Operation) (st : AppDb)
      → Distinct st.rows
      → observed_db (sqlite_step db d op st) ≡ settled (view st.rows) (perform d op (view st.rows))
  unfolding sqlite_step perform unregister_rows
  sqlite_step-settled (register m) st distinct =
      elim (Result-cases (normalize_app_primitive_manifest d m)) [
        | inl (n, good) ↦ rw good (register_rows-settled n st distinct)
        | inr (e, bad) ↦ rw bad refl
      ]
  sqlite_step-settled (unregister app name) st distinct =
      rw (answers delete_row st)
        (ap (λ v. (none, v)) (fun_ext λ q. lookup-delete_owned app name q st.rows distinct))
  sqlite_step-settled (mark_unavailable app) st distinct = mark_unavailable-settled app st

  step_agrees :
      (op : Operation) (st : AppDb) (rows : List AppPrimitiveManifest)
      → Distinct st.rows
      → view st.rows ≡ view rows
      → IsTame op (view rows)
      → ((sqlite_step db d op st).0 ≡ (memory_step d op rows).0)
        × (view (sqlite_step db d op st).1.rows ≡ view (memory_step d op rows).1)
  step_agrees op st rows distinct same tame =
      let e =
        sqlite_step-settled op st distinct
        ∙ ap (λ f. settled f (perform d op f)) same
        ∙ sym (memory_step-settled d op rows tame) in
      (ap (λ x. x.0) e, ap (λ x. x.1) e)

  -- Over a database that answers every statement, the two registries give the same errors and hold
  -- the same manifests after any operations by which manifests are registered as active and names
  -- are taken back by the apps that hold them.
  pub registries_agree :
      (ops : List Operation) (st : AppDb) (rows : List AppPrimitiveManifest)
      → Distinct st.rows
      → view st.rows ≡ view rows
      → AllTame d ops rows
      → ((run_sqlite db d ops st).0 ≡ (run_memory d ops rows).0)
        × (view (run_sqlite db d ops st).1.rows ≡ view (run_memory d ops rows).1)
  registries_agree [] st rows distinct same tame = (refl, same)
  registries_agree (op ∷ ops) st rows distinct same tame =
      let now = step_agrees op st rows distinct same tame.0 in
      let later =
        registries_agree ops (sqlite_step db d op st).1 (memory_step d op rows).1
          (sqlite_step-Refines db d op st distinct).0 now.1 tame.1 in
      (cc (now.0, later.0), later.1)
