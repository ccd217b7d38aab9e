-- ===== src/SafeEdit/Laws.antt =====
-- What an edit that was answered has done.
use primitive_box.Prelude.{
  String, ◌≡◌, ◌≢◌, refl, ap, subst, true, false, Option, none, some, ◌=ₛ◌, eq_iff, Bool-cases, inl,
  inr, ◌⊎◌, ◌↔◌,
}
use primitive_box.Errors.{GoError}
use primitive_box.Apps.{Result, ok, err, ok_inj}
use primitive_box.SafeEdit.{
  EditParams, Written, VerifyTestResult, Report, EditSteps, label_of, edit_of, diff_of, or_no_id,
  passed_of, was_restored, judged, written, checkpointed, checked_edit, safe_edit,
}

answer_inj :
    {W : Type 0} {r s : Report} {w x : W}
    → ◌≡◌ {A = Result Report × W} (ok r, w) (ok s, x)
    → ◌≡◌ {A = Report × W} (r, w) (s, x)
answer_inj h = λ i. (ok_inj (ap (λ y. y.0) h) i, (h i).1)

module _ {W : Type 0} (steps : EditSteps W) where
  -- Behind the tests: kept where they passed, restored otherwise, if there is a checkpoint.
  abbrev pub IsConcluded : Result (Option VerifyTestResult) × W → Report → W → Type 0
  IsConcluded v report after =
      (report.passed ≡ passed_of v.0)
      × ((((report.passed ≡ true) ⊎ (report.checkpoint_id ≡ ""))
            × (report.rolled_back ≡ false)
            × (after ≡ v.1))
          ⊎ ((report.passed ≡ false)
              × ((o : Option GoError) × (steps.restore report.checkpoint_id v.1 ≡ (o, after))
                  × ((report.rolled_back ≡ true) ↔ (o ≡ none)))))

  abbrev pub IsWritten : EditParams → Result Written × W → Report → W → Type 0
  IsWritten p r report after =
      ((e : GoError) × (r ≡ (err e, after))
        × (report.passed ≡ false)
        × (report.rolled_back ≡ false)
        × (report.error ≢ none))
      ⊎ ((done : Written) × (w : W) × (r ≡ (ok done, w))
          × IsConcluded (steps.verify p.test_command w) report after)

  -- From the checkpoint on.
  abbrev pub IsAnswered : EditParams → W → Report → W → Type 0
  IsAnswered p before report after =
      (id : Option String) × (w : W) × (steps.checkpoint (label_of p) before ≡ (ok id, w))
      × (report.checkpoint_id ≡ or_no_id id)
      × IsWritten p (steps.write p.path p.mode (edit_of p) w) report after

  was_restored_lem :
      (r : Option GoError × W)
      → (o : Option GoError) × (r ≡ (o, (was_restored steps r).1))
        × (((was_restored steps r).0 ≡ true) ↔ (o ≡ none))
  was_restored_lem (none, w) = (none, refl, ((λ e. refl), λ e. refl))
  was_restored_lem (some e, w) = (some e, refl, ((λ h. cc), λ h. cc))

  judged-IsConcluded :
      (id diff : String) (v : Result (Option VerifyTestResult) × W)
      → IsConcluded v (judged steps id diff v).0 (judged steps id diff v).1
  unfolding judged
  judged-IsConcluded id diff (r, w) = elim (Bool-cases (passed_of r)) [
    | inl passed ↦ (refl, rw passed (inl (inl refl, refl, refl)))
    | inr failed ↦ elim (Bool-cases (id =ₛ "")) [
      | inl empty ↦ (refl, rw (failed, empty) (inl (inr ((eq_iff id "").0 empty), refl, refl)))
      | inr there ↦ (refl, rw (failed, there) (inr (refl, was_restored_lem (steps.restore id w))))
    ]
  ]

  written-IsWritten :
      (p : EditParams) (id : String) (r : Result Written × W) (report : Report) (after : W)
      → written steps p id r ≡ (ok report, after)
      → (report.checkpoint_id ≡ id) × IsWritten p r report after
  unfolding written judged
  written-IsWritten p id (err e, w) report after h =
      subst (λ x. (x.0.checkpoint_id ≡ id) × IsWritten p (err e, w) x.0 x.1) (answer_inj h)
        (refl, inl (e, refl, refl, refl, λ c. cc))
  written-IsWritten p id (ok done, w) report after h =
      subst (λ x. (x.0.checkpoint_id ≡ id) × IsWritten p (ok done, w) x.0 x.1) (answer_inj h)
        (
          refl,
          inr (done, w, refl, judged-IsConcluded id (diff_of done) (steps.verify p.test_command w)),
        )

  checkpointed-IsAnswered :
      (p : EditParams) (c : Result (Option String) × W) (before : W) (report : Report) (after : W)
      → steps.checkpoint (label_of p) before ≡ c
      → checkpointed steps p c ≡ (ok report, after)
      → IsAnswered p before report after
  unfolding checkpointed
  checkpointed-IsAnswered p (err e, w) before report after at h = cc (ap (λ x. x.0) h)
  checkpointed-IsAnswered p (ok id, w) before report after at h =
      let r =
        written-IsWritten p (or_no_id id) (steps.write p.path p.mode (edit_of p) w) report after
          h in
      (id, w, at, r.0, r.1)

  checked-IsAnswered :
      (o : Option GoError) (p : EditParams) (before : W) (report : Report) (after : W)
      → checked_edit steps o p before ≡ (ok report, after)
      → IsAnswered p before report after
  unfolding checked_edit
  checked-IsAnswered none p before report after h =
      checkpointed-IsAnswered p (steps.checkpoint (label_of p) before) before report after refl h
  checked-IsAnswered (some e) p before report after h = cc (ap (λ x. x.0) h)

  -- An edit that is answered without an error was made from a checkpoint. Where the write failed, it
  -- says so; otherwise it passed exactly if the tests did in the state that was written, which is
  -- then kept; where they did not, the checkpoint, if it has an id, was restored, and the answer says
  -- whether that succeeded.
  pub safe_edit-IsAnswered :
      (p : EditParams) (before : W) (report : Report) (after : W)
      → safe_edit steps (ok p) before ≡ (ok report, after)
      → IsAnswered p before report after
  unfolding safe_edit
  safe_edit-IsAnswered p before report after h = checked-IsAnswered _ p before report after h
