-- ===== src/Apps/Sqlite/Refine.antt =====
-- The SQLite registry and the contract of a registry.
use primitive_box.Prelude.{
  String, ◌≡◌, ◌≢◌, refl, sym, ap, subst, ◌∙◌, Option, none, some, map, Bool-cases, inl, inr, ◌⊎◌,
  fun_ext,
}
use primitive_box.Errors.{GoError}
use primitive_box.Apps.{
  AppPrimitiveManifest, active, Result, ok, err, ok_inj, err_not_ok, ◌>>=◌, refused_by, >>=-eq-ok,
  refused_by-eq-ok,
}
use primitive_box.Apps.Schema.{Decoder}
use primitive_box.Apps.Normalize.{normalize_app_primitive_manifest}
use primitive_box.Apps.Contract.{
  Operation, register, unregister, mark_unavailable, activated, deactivated, conflict, registered,
  perform,
}
use primitive_box.Apps.Contract.Rows.{
  lookup, Distinct, lookup-delete_owned, map-Distinct, upsert-Distinct, keep_by-Distinct,
}
use primitive_box.Apps.Sqlite.{
  AppDb, AppDatabase, begin, select_registrations, reactivate, upsert_row, commit,
  begin_availability, select_app, update_availability, commit_availability, delete_row, faulted,
  scan_conflicts, outcome, all_unavailable, registered_rows, register_rows, unregister_rows,
  mark_written, marked_rows, mark_unavailable_rows, sqlite_step,
}
use primitive_box.Apps.Sqlite.Views.{
  view, scan_conflicts-lookup, activated-name, deactivated-name, view-registered, view-deactivated,
  all_unavailable-same,
}

some_not_none : {e : GoError} → some e ≡ none → ⊥
some_not_none e = cc

-- A sequence of statements that all succeeded, with the check among them.
six_passed :
    {A : Type 0} (o1 o2 o3 o4 o5 o6 : Option GoError) (a b : A)
    → (refused_by o1 >>= λ _. refused_by o2 >>= λ _. refused_by o3 >>= λ _.
        refused_by o4 >>= λ _. refused_by o5 >>= λ _. refused_by o6 >>= λ _. ok a)
      ≡ ok b
    → (o3 ≡ none) × (a ≡ b)
six_passed none none none none none none a b h = (refl, ok_inj h)
six_passed (some e) o2 o3 o4 o5 o6 a b h = absurd (err_not_ok h)
six_passed none (some e) o3 o4 o5 o6 a b h = absurd (err_not_ok h)
six_passed none none (some e) o4 o5 o6 a b h = absurd (err_not_ok h)
six_passed none none none (some e) o5 o6 a b h = absurd (err_not_ok h)
six_passed none none none none (some e) o6 a b h = absurd (err_not_ok h)
six_passed none none none none none (some e) a b h = absurd (err_not_ok h)

two_passed :
    {A : Type 0} (o1 o2 : Option GoError) (r : Result A) (b : A)
    → (refused_by o1 >>= λ _. refused_by o2 >>= λ _. r) ≡ ok b
    → r ≡ ok b
two_passed none none r b h = h
two_passed (some e) o2 r b h = absurd (err_not_ok h)
two_passed none (some e) r b h = absurd (err_not_ok h)

module _ (db : AppDatabase) (d : Decoder) where
  register_rows-Performs :
      (n : AppPrimitiveManifest) (st after : AppDb)
      → Distinct st.rows
      → register_rows db d n st ≡ ok after
      → (conflict n (lookup n.name st.rows) ≡ none)
        × Distinct after.rows
        × (registered n (view st.rows) ≡ view after.rows)
  unfolding register_rows
  register_rows-Performs n st after distinct h =
      let p =
        six_passed (faulted db d begin "begin app registration tx: " st)
          (faulted db d select_registrations "query existing app registrations: " st)
          (scan_conflicts n st.rows) (faulted db d reactivate "reactivate app registrations: " st)
          (faulted db d upsert_row "upsert app registration: " st)
          (faulted db d commit "commit app registration: " st) (registered_rows db d n st) after
          h in
      (
        sym (scan_conflicts-lookup n st.rows distinct) ∙ p.0,
        subst (λ (x : AppDb). Distinct x.rows) p.1
            (upsert-Distinct (record n { availability = active }) (map (activated n.app_id) st.rows)
              (map-Distinct (activated n.app_id) (activated-name n.app_id) st.rows distinct)),
        subst (λ (x : AppDb). registered n (view st.rows) ≡ view x.rows) p.1
            (sym (view-registered n st.rows)),
      )

  -- What an operation that succeeded did.
  abbrev Performs : Operation → AppDb → AppDb → Type 0
  Performs op before after =
      Distinct after.rows × (perform d op (view before.rows) ≡ ok (view after.rows))

  register-Performs :
      (m : AppPrimitiveManifest) (st after : AppDb)
      → Distinct st.rows
      → (normalize_app_primitive_manifest d m >>= λ n. register_rows db d n st) ≡ ok after
      → Performs (register m) st after
  unfolding perform
  register-Performs m st after distinct h =
      let p = >>=-eq-ok (normalize_app_primitive_manifest d m) (λ n. register_rows db d n st) h in
      let r = register_rows-Performs p.0 st after distinct p.2 in (r.1, rw (p.1, r.0) (ap ok r.2))

  unregister-Performs :
      (app name : String) (st after : AppDb)
      → Distinct st.rows
      → unregister_rows db d app name st ≡ ok after
      → Performs (unregister app name) st after
  unfolding unregister_rows perform
  unregister-Performs app name st after distinct h =
      let p = refused_by-eq-ok (faulted db d delete_row "delete app registration: " st) _ h in
      subst (λ x. Performs (unregister app name) st x) (ok_inj p.1)
        (
          keep_by-Distinct _ st.rows distinct,
          ap ok (fun_ext λ q. sym (lookup-delete_owned app name q st.rows distinct)),
        )

  mark_written-Performs :
      (app : String) (st after : AppDb)
      → Distinct st.rows
      → mark_written db d app st ≡ ok after
      → Performs (mark_unavailable app) st after
  unfolding mark_written perform
  mark_written-Performs app st after distinct h =
      let e = ok_inj (
        two_passed (faulted db d update_availability "update app availability: " st)
          (faulted db d commit_availability "commit app availability: " st)
          (ok (marked_rows db d app st)) after h) in
      subst (λ x. Performs (mark_unavailable app) st x) e
        (
          map-Distinct (deactivated app) (deactivated-name app) st.rows distinct,
          ap ok (sym (view-deactivated app st.rows)),
        )

  mark_unavailable-Performs :
      (app : String) (st after : AppDb)
      → Distinct st.rows
      → mark_unavailable_rows db d app st ≡ ok after
      → Performs (mark_unavailable app) st after
  unfolding mark_unavailable_rows perform
  mark_unavailable-Performs app st after distinct h =
      let p =
        two_passed (faulted db d begin_availability "begin app availability tx: " st)
          (faulted db d select_app "query app registrations for unavailability: " st) _ after h in
      elim (Bool-cases (all_unavailable app st.rows)) [
        | inl already ↦
            subst (λ x. Performs (mark_unavailable app) st x) (ok_inj (rw already at p))
              (
                distinct,
                ap ok (
                    sym (view-deactivated app st.rows)
                    ∙ ap view (all_unavailable-same app st.rows already)),
              )
        | inr some_left ↦ mark_written-Performs app st after distinct (rw some_left at p)
      ]

  -- What an operation did: it failed and left the database, or it did what the contract says.
  abbrev pub Refines : Operation → AppDb → Option GoError × AppDb → Type 0
  Refines op before r =
      Distinct r.1.rows
      × (((r.0 ≢ none) × (r.1 ≡ before))
          ⊎ ((r.0 ≡ none) × (perform d op (view before.rows) ≡ ok (view r.1.rows))))

  outcome-Refines :
      (op : Operation) (st : AppDb) (r : Result AppDb)
      → Distinct st.rows
      → ((after : AppDb) → r ≡ ok after → Performs op st after)
      → Refines op st (outcome st r)
  outcome-Refines op st (ok after) distinct h = ((h after refl).0, inr (refl, (h after refl).1))
  outcome-Refines op st (err e) distinct h = (distinct, inl ((λ x. some_not_none x), refl))

  -- Over any database, an operation of the SQLite registry keeps one row for each name, and either
  -- fails and leaves the database as it was, or leaves what the contract of a registry says.
  pub sqlite_step-Refines :
      (op : Operation) (st : AppDb) → Distinct st.rows → Refines op st (sqlite_step db d op st)
  unfolding sqlite_step
  sqlite_step-Refines (register m) st distinct =
      outcome-Refines (register m) st _ distinct (λ after. register-Performs m st after distinct)
  sqlite_step-Refines (unregister app name) st distinct =
      outcome-Refines (unregister app name) st _ distinct
        (λ after. unregister-Performs app name st after distinct)
  sqlite_step-Refines (mark_unavailable app) st distinct =
      outcome-Refines (mark_unavailable app) st _ distinct
        (λ after. mark_unavailable-Performs app st after distinct)
