-- ===== src/Control/Store/Steps.antt =====
-- The step rows: what an update of a step's status changes.
use primitive_box.Prelude.{
  String, ◌≡◌, ◌⊎◌, refl, ap, subst, ◌∙◌, false, Option, none, some, List, [], ◌∷◌, ◌=ₛ◌, eq_iff,
  arith, inl, inr, Bool-cases,
}
use primitive_box.Json.{RawMessage}
use primitive_box.Control.{GoalStep, GoalStepStatus, GoalDb, Database, update_step}
use primitive_box.Control.Store.{find_by, update_by, update_goal_step_status, publish_goal_event}
use primitive_box.Control.Store.Laws.{find_by-update_by, map_found}

-- An update under one id is not seen under another.
pub find_by-update_by_other :
    {A : Type 0} (key : A → String) (f : A → A) (id j : String) (xs : List A)
    → ((x : A) → key (f x) ≡ key x)
    → (id =ₛ j) ≡ false
    → find_by (λ x. key x =ₛ j) (update_by (λ x. key x =ₛ id) f xs) ≡ find_by (λ x. key x =ₛ j) xs
unfolding find_by update_by
find_by-update_by_other key f id j [] keeps other = refl
find_by-update_by_other key f id j (x ∷ xs) keeps other = elim (Bool-cases (key x =ₛ id)) [
  | inl hit ↦
      ground (arith, keeps x, eq_iff (key x) id, find_by-update_by_other key f id j xs keeps other)
  | inr miss ↦ simp (miss, find_by-update_by_other key f id j xs keeps other)
]

abbrev pub find_step : String → List GoalStep → Option GoalStep
find_step id rows = find_by (λ (x : GoalStep). x.id =ₛ id) rows

abbrev pub set_step : String → GoalStepStatus → RawMessage → List GoalStep → List GoalStep
set_step id status output rows =
    update_by (λ (x : GoalStep). x.id =ₛ id)
      (λ (x : GoalStep). record x { status = status; output = output }) rows

-- A row as it was, or as it was but for having passed with some output.
abbrev pub IsKept : GoalStep → GoalStep → Type 0
IsKept row row' =
    (row' ≡ row)
    ⊎ ((output : RawMessage) × (row'
          ≡ record row { status = GoalStepStatus.passed; output = output }))

-- Every row is still there, kept or passed.
abbrev pub Kept : List GoalStep → List GoalStep → Type 0
Kept before after =
    (j : String) (row : GoalStep)
    → find_step j before ≡ some row
    → (row' : GoalStep) × (find_step j after ≡ some row') × IsKept row row'

IsKept-trans : (row row1 row2 : GoalStep) → IsKept row row1 → IsKept row1 row2 → IsKept row row2
IsKept-trans row row1 row2 (inl e) h = subst (λ x. IsKept x row2) e h
IsKept-trans row row1 row2 (inr (o, e)) (inl f) = inr (o, f ∙ e)
IsKept-trans row row1 row2 (inr (o, e)) (inr (o', f)) = inr (
  o',
  f
      ∙ ap {A = GoalStep} {B = GoalStep}
          (λ x. record x { status = GoalStepStatus.passed; output = o' }) e,
)

pub Kept-trans : (a b c : List GoalStep) → Kept a b → Kept b c → Kept a c
Kept-trans a b c h k j row at =
    let (row1, at1, same1) = h j row at in
    let (row2, at2, same2) = k j row1 at1 in (row2, at2, IsKept-trans row row1 row2 same1 same2)

-- The step of this id passed.
abbrev pub HasPassed : String → List GoalStep → Type 0
HasPassed id rows =
    (row : GoalStep) × (find_step id rows ≡ some row) × (row.status ≡ GoalStepStatus.passed)

set_step-found :
    (id : String) (status : GoalStepStatus) (output : RawMessage) (rows : List GoalStep)
    (row : GoalStep)
    → find_step id rows ≡ some row
    → find_step id (set_step id status output rows)
      ≡ some (record row { status = status; output = output })
set_step-found id status output rows row at =
    find_by-update_by (λ (x : GoalStep). x.id)
      (λ (x : GoalStep). record x { status = status; output = output }) id rows (λ x. refl)
    ∙ ap (map_found (λ (x : GoalStep). record x { status = status; output = output })) at

set_step-other :
    (id j : String) (status : GoalStepStatus) (output : RawMessage) (rows : List GoalStep)
    → (id =ₛ j) ≡ false
    → find_step j (set_step id status output rows) ≡ find_step j rows
set_step-other id j status output rows other =
    find_by-update_by_other (λ (x : GoalStep). x.id)
      (λ (x : GoalStep). record x { status = status; output = output }) id j rows (λ x. refl) other

set_passed-found :
    (id : String) (first second : RawMessage) (rows : List GoalStep) (row : GoalStep)
    → find_step id rows ≡ some row
    → find_step id
        (set_step id GoalStepStatus.passed second (set_step id GoalStepStatus.running first rows))
      ≡ some (record row { status = GoalStepStatus.passed; output = second })
set_passed-found id first second rows row at =
    set_step-found id GoalStepStatus.passed second _ _
      (set_step-found id GoalStepStatus.running first rows row at)

-- A step that is set to running and then to passed.
pub set_passed-HasPassed :
    (id : String) (first second : RawMessage) (rows : List GoalStep) (row : GoalStep)
    → find_step id rows ≡ some row
    → HasPassed id
        (set_step id GoalStepStatus.passed second (set_step id GoalStepStatus.running first rows))
set_passed-HasPassed id first second rows row at = (
  record row { status = GoalStepStatus.passed; output = second },
  set_passed-found id first second rows row at,
  refl,
)

pub set_passed-Kept :
    (id : String) (first second : RawMessage) (rows : List GoalStep)
    → Kept rows
        (set_step id GoalStepStatus.passed second (set_step id GoalStepStatus.running first rows))
set_passed-Kept id first second rows j row at = elim (Bool-cases (id =ₛ j)) [
  | inl same ↦
      let e = (eq_iff id j).0 same in
      (
        record row { status = GoalStepStatus.passed; output = second },
        subst
            (λ i.
              find_step i (
                set_step id GoalStepStatus.passed second
                  (set_step id GoalStepStatus.running first rows))
              ≡ some (record row { status = GoalStepStatus.passed; output = second }))
            e (set_passed-found id first second rows row (ap (λ i. find_step i rows) e ∙ at)),
        inr (second, refl),
      )
  | inr other ↦ (
    row,
    set_step-other id j GoalStepStatus.passed second (set_step id GoalStepStatus.running first rows)
          other
        ∙ (set_step-other id j GoalStepStatus.running first rows other ∙ at),
    inl refl,
  )
]

module _ (db : Database) where
  pub update_goal_step_status-steps :
      (id : String) (status : GoalStepStatus) (output : RawMessage) (g : GoalDb)
      → db.fault g (update_step id status) ≡ none
      → (update_goal_step_status db id status output g).1.steps ≡ set_step id status output g.steps
  unfolding update_goal_step_status publish_goal_event
  update_goal_step_status-steps id status output g ok = ground arith
