-- ===== src/Sandbox/Store/Rows.antt =====
-- How the rows of the sandbox store are found after they were written, deleted or listed.
use primitive_box.Prelude.{
  ℕ, zero, suc, String, ◌≡◌, ◌≢◌, refl, sym, subst, ◌∙◌, Bool, true, false, not, none, some, List,
  [], ◌∷◌, take, ◌=ₛ◌, eq_iff, if◌then◌else◌, All, Bool-cases, inl, inr, arith,
}
use primitive_box.Control.Store.{keep_by}
use primitive_box.Sandbox.{ℤ, pos, negsuc, lt_int, Sandbox}
use primitive_box.Sandbox.Store.{
  find_row, put_row, is_expired, insert_by_expiry, by_expiry, limited,
}

some_inj : {A : Type 0} {a b : A} → some a ≡ some b → a ≡ b
some_inj e = cc

true_not_false : true ≡ false → ⊥
true_not_false e = cc

-- No sandbox of the list has the id.
abbrev pub NotIn : String → List Sandbox → Type 0
NotIn id rows = All (λ (sb : Sandbox). sb.id ≢ id) rows

abbrev pub Distinct : List Sandbox → Type 0
Distinct [] = Unit {0}
Distinct (sb ∷ rest) = NotIn sb.id rest × Distinct rest

pub find_row-put_row :
    (sb : Sandbox) (id : String) (rows : List Sandbox)
    → find_row id (put_row sb rows) ≡ (if sb.id =ₛ id then some sb else find_row id rows)
unfolding find_row put_row
find_row-put_row sb id [] = refl
find_row-put_row sb id (t ∷ rest) =
    ground (arith, eq_iff sb.id id, eq_iff t.id sb.id, eq_iff t.id id, find_row-put_row sb id rest)

pub find_row-delete :
    (gone id : String) (rows : List Sandbox)
    → find_row id (keep_by (λ (sb : Sandbox). not (sb.id =ₛ gone)) rows)
      ≡ (if gone =ₛ id then none else find_row id rows)
unfolding find_row keep_by
find_row-delete gone id [] = ground arith
find_row-delete gone id (t ∷ rest) =
    ground (arith, eq_iff gone id, eq_iff t.id gone, eq_iff t.id id, find_row-delete gone id rest)

-- A sandbox is found under its own id.
pub find_row-id :
    (id : String) (rows : List Sandbox) (sb : Sandbox) → find_row id rows ≡ some sb → sb.id ≡ id
unfolding find_row
find_row-id id [] sb at = absurd (ground arith)
find_row-id id (t ∷ rest) sb at = elim (Bool-cases (t.id =ₛ id)) [
  | inl hit ↦ subst (λ (x : Sandbox). x.id ≡ id) (some_inj (rw hit at at)) ((eq_iff t.id id).0 hit)
  | inr miss ↦ find_row-id id rest sb (rw miss at at)
]

keep_by-NotIn :
    (p : Sandbox → Bool) (id : String) (rows : List Sandbox)
    → NotIn id rows
    → NotIn id (keep_by p rows)
unfolding keep_by
keep_by-NotIn p id [] h = tt
keep_by-NotIn p id (t ∷ rest) h = elim (Bool-cases (p t)) [
  | inl hit ↦ rw hit (h.0, keep_by-NotIn p id rest h.1)
  | inr miss ↦ rw miss (keep_by-NotIn p id rest h.1)
]

insert_by_expiry-NotIn :
    (id : String) (sb : Sandbox) (rows : List Sandbox)
    → sb.id ≢ id
    → NotIn id rows
    → NotIn id (insert_by_expiry sb rows)
unfolding insert_by_expiry
insert_by_expiry-NotIn id sb [] other h = (other, tt)
insert_by_expiry-NotIn id sb (t ∷ rest) other h =
    elim (Bool-cases (lt_int t.expires_at sb.expires_at)) [
      | inl before ↦ rw before (h.0, insert_by_expiry-NotIn id sb rest other h.1)
      | inr behind ↦ rw behind (other, h)
    ]

by_expiry-NotIn : (id : String) (rows : List Sandbox) → NotIn id rows → NotIn id (by_expiry rows)
unfolding by_expiry
by_expiry-NotIn id [] h = tt
by_expiry-NotIn id (sb ∷ rest) h =
    insert_by_expiry-NotIn id sb (by_expiry rest) h.0 (by_expiry-NotIn id rest h.1)

take-NotIn : (n : ℕ) (id : String) (rows : List Sandbox) → NotIn id rows → NotIn id (take n rows)
take-NotIn zero id rows h = tt
take-NotIn (suc n) id [] h = tt
take-NotIn (suc n) id (t ∷ rest) h = (h.0, take-NotIn n id rest h.1)

limited-NotIn :
    (limit : ℤ) (id : String) (rows : List Sandbox) → NotIn id rows → NotIn id (limited limit rows)
limited-NotIn (pos zero) id rows h = h
limited-NotIn (pos (suc n)) id rows h = take-NotIn (suc n) id rows h
limited-NotIn (negsuc n) id rows h = h

-- A sandbox that is not expired is not among those that are kept as expired.
expired-NotIn :
    (now : ℕ) (id : String) (sb : Sandbox) (rows : List Sandbox)
    → Distinct rows
    → find_row id rows ≡ some sb
    → is_expired now sb ≡ false
    → NotIn id (keep_by (is_expired now) rows)
unfolding find_row keep_by
expired-NotIn now id sb [] distinct at alive = tt
expired-NotIn now id sb (t ∷ rest) distinct at alive = elim (Bool-cases (t.id =ₛ id)) [
  | inl hit ↦
      let same = some_inj (rw hit at at) in
      rw (subst (λ x. is_expired now x ≡ false) (sym same) alive) (
        keep_by-NotIn (is_expired now) id rest
          (subst (λ x. NotIn x rest) ((eq_iff t.id id).0 hit) distinct.0))
  | inr miss ↦
      let later = expired-NotIn now id sb rest distinct.1 (rw miss at at) alive in
      elim (Bool-cases (is_expired now t)) [
        | inl old ↦ rw old ((λ e. true_not_false (sym ((eq_iff t.id id).1 e) ∙ miss)), later)
        | inr young ↦ rw young later
      ]
]

pub listed-NotIn :
    (now : ℕ) (limit : ℤ) (id : String) (sb : Sandbox) (rows : List Sandbox)
    → Distinct rows
    → find_row id rows ≡ some sb
    → is_expired now sb ≡ false
    → NotIn id (limited limit (by_expiry (keep_by (is_expired now) rows)))
listed-NotIn now limit id sb rows distinct at alive =
    limited-NotIn limit id _ (by_expiry-NotIn id _ (expired-NotIn now id sb rows distinct at alive))
