-- ===== src/Sandbox/Manager/Reaper/Gone.antt =====
-- What the reaper has destroyed.
use primitive_box.Prelude.{
  ℕ, suc, ◌+◌, String, ◌≡◌, refl, sym, ap, subst, ◌∙◌, not, Option, none, some, List, [], ◌∷◌, ◌=ₛ◌,
  eq_iff, All, length, inl, inr, arith,
}
use primitive_box.Errors.{GoError}
use primitive_box.Control.Store.{keep_by}
use primitive_box.Sandbox.{ℤ, Sandbox, Outcome, gave, failed}
use primitive_box.Sandbox.Store.{written, find_row, delete, list_expired}
use primitive_box.Sandbox.Store.Rows.{find_row-delete}
use primitive_box.Sandbox.Manager.{State, Environment, publish}
use primitive_box.Sandbox.Manager.Operations.{
  destroy_deleted, destroy_driven, destroy, reaped_one, ended_by, reap, reap_listed, reap_expired,
}
use primitive_box.Sandbox.Manager.Reaper.{deleted-rows, reaped_one-rows, go_on}

some_not_none : {e : GoError} → some e ≡ none → ⊥
some_not_none e = cc

module _ {W : Type 0} (env : Environment W) where
  written-none :
      (o : Option GoError) (gone id : String) (rows : List Sandbox)
      → find_row id rows ≡ none
      → find_row id (written o rows (keep_by (λ (sb : Sandbox). not (sb.id =ₛ gone)) rows)).1 ≡ none
  written-none (some e) gone id rows h = h
  written-none none gone id rows h = find_row-delete gone id rows ∙ ground (arith, h)

  driven-none :
      (gone id : String) (r : Option GoError × W) (s : State W)
      → find_row id s.rows ≡ none
      → find_row id (destroy_driven env gone r s).1.rows ≡ none
  unfolding destroy_driven delete
  driven-none gone id (some e, w) s h = h
  driven-none gone id (none, w) s h =
      deleted-rows env gone id (delete env.faults gone s.rows) (record s { runtime = w })
      ∙ written-none _ gone id s.rows h

  deleted-gone :
      (o : Option GoError) (id : String) (rows : List Sandbox) (s : State W)
      → let r = written o rows (keep_by (λ (sb : Sandbox). not (sb.id =ₛ id)) rows) in
        (destroy_deleted env id r s).0 ≡ none → find_row id r.1 ≡ none
  unfolding destroy_deleted
  deleted-gone none id rows s h = find_row-delete id id rows ∙ rw ((eq_iff id id).1 refl) refl
  deleted-gone (some e) id rows s h = cc

  driven-gone :
      (id : String) (r : Option GoError × W) (s : State W)
      → (destroy_driven env id r s).0 ≡ none
      → find_row id (destroy_driven env id r s).1.rows ≡ none
  unfolding destroy_driven delete
  driven-gone id (some e, w) s h = cc
  driven-gone id (none, w) s h =
      deleted-rows env id id (delete env.faults id s.rows) (record s { runtime = w })
      ∙ deleted-gone _ id s.rows (record s { runtime = w }) h

  reaped_one-error : (id : String) (r : Option GoError × State W) → (reaped_one env id r).0 ≡ r.0
  unfolding reaped_one
  reaped_one-error id (some e, s) = refl
  reaped_one-error id (none, s) = refl

  -- The round of one sandbox, where the loop went on.
  went_on :
      (e : Option GoError) (n k : ℕ) (s1 s' : State W) (later : ℕ × Option GoError × State W)
      → ended_by env e n s1 later ≡ (k, none, s')
      → (e ≡ none) × (later ≡ (k, none, s'))
  went_on none n k s1 s' later h = (refl, h)
  went_on (some err) n k s1 s' later h = absurd (some_not_none (ap (λ x. x.1) h))

  reap-none :
      (l : List Sandbox) (n : ℕ) (id : String) (s : State W)
      → find_row id s.rows ≡ none
      → find_row id (reap env l n s).2.rows ≡ none
  unfolding reap destroy
  reap-none [] n id s h = h
  reap-none (sb ∷ rest) n id s h =
      let one = reaped_one env sb.id (destroy env sb.id s) in
      let here =
        ap (find_row id) (reaped_one-rows env sb.id (destroy env sb.id s))
        ∙ driven-none sb.id id (env.driver.destroy sb.id s.runtime) s h in
      elim (go_on env one.0 n one.1 (reap env rest (suc n) one.1)) [
        | inl stopped ↦ ap (λ (x : State W). find_row id x.rows) stopped ∙ here
        | inr went ↦ ap (λ x. find_row id x.2.rows) went ∙ reap-none rest (suc n) id one.1 here
      ]

  -- The driver destroyed these sandboxes, one behind the other, without an error.
  abbrev pub DestroyedAll : List Sandbox → W → W → Type 0
  DestroyedAll [] w w' = w ≡ w'
  DestroyedAll (sb ∷ rest) w w' =
      (w1 : W) × (env.driver.destroy sb.id w ≡ (none, w1)) × DestroyedAll rest w1 w'

  reaped_one-runtime :
      (id : String) (r : Option GoError × State W) → (reaped_one env id r).1.runtime ≡ r.1.runtime
  unfolding reaped_one publish
  reaped_one-runtime id (some e, s) = refl
  reaped_one-runtime id (none, s) = refl

  deleted-runtime :
      (id : String) (r : Option GoError × List Sandbox) (s : State W)
      → (destroy_deleted env id r s).1.runtime ≡ s.runtime
  unfolding destroy_deleted publish
  deleted-runtime id (some e, rows) s = refl
  deleted-runtime id (none, rows) s = refl

  driven-destroyed :
      (id : String) (r : Option GoError × W) (s : State W)
      → (destroy_driven env id r s).0 ≡ none
      → r ≡ (none, (destroy_driven env id r s).1.runtime)
  unfolding destroy_driven
  driven-destroyed id (some e, w) s h = absurd (some_not_none h)
  driven-destroyed id (none, w) s h =
      ap (λ x. (none, x))
        (sym (deleted-runtime id (delete env.faults id s.rows) (record s { runtime = w })))

  -- A destruction that succeeded was one of the driver.
  destroy-destroyed :
      (id : String) (s : State W)
      → (destroy env id s).0 ≡ none
      → env.driver.destroy id s.runtime ≡ (none, (destroy env id s).1.runtime)
  unfolding destroy
  destroy-destroyed id s h = driven-destroyed id (env.driver.destroy id s.runtime) s h

  reap-destroyed :
      (l : List Sandbox) (n k : ℕ) (s s' : State W)
      → reap env l n s ≡ (k, none, s')
      → DestroyedAll l s.runtime s'.runtime
  unfolding reap
  reap-destroyed [] n k s s' h = ap (λ x. x.2.runtime) h
  reap-destroyed (sb ∷ rest) n k s s' h =
      let driven = destroy env sb.id s in
      let one = reaped_one env sb.id driven in
      let went = went_on one.0 n k one.1 s' (reap env rest (suc n) one.1) h in
      (
        driven.1.runtime,
        destroy-destroyed sb.id s (sym (reaped_one-error sb.id driven) ∙ went.0),
        subst (λ w. DestroyedAll rest w s'.runtime) (reaped_one-runtime sb.id driven)
            (reap-destroyed rest (suc n) k one.1 s' went.1),
      )

  abbrev AllGone : List Sandbox → State W → Type 0
  AllGone l s = All (λ (sb : Sandbox). find_row sb.id s.rows ≡ none) l

  reap-gone :
      (l : List Sandbox) (n k : ℕ) (s s' : State W)
      → reap env l n s ≡ (k, none, s')
      → (k ≡ n + length l) × AllGone l s'
  unfolding reap destroy
  reap-gone [] n k s s' h = (omega (arith, ap (λ x. x.0) h), tt)
  reap-gone (sb ∷ rest) n k s s' h =
      let driven = destroy env sb.id s in
      let one = reaped_one env sb.id driven in
      let went = went_on one.0 n k one.1 s' (reap env rest (suc n) one.1) h in
      let later = reap-gone rest (suc n) k one.1 s' went.1 in
      let here =
        ap (find_row sb.id) (reaped_one-rows env sb.id driven)
        ∙ driven-gone sb.id (env.driver.destroy sb.id s.runtime) s
            (sym (reaped_one-error sb.id driven) ∙ went.0) in
      (
        omega (arith, later.0),
        (
          subst (λ x. find_row sb.id x.2.rows ≡ none) went.1
              (reap-none rest (suc n) sb.id one.1 here),
          later.1,
        ),
      )

  listed-gone :
      (o : Outcome (List Sandbox)) (s s' : State W) (k : ℕ)
      → reap_listed env o s ≡ (k, none, s')
      → (l : List Sandbox) × (o ≡ gave l)
        × (k ≡ length l)
        × AllGone l s'
        × DestroyedAll l s.runtime s'.runtime
  unfolding reap_listed
  listed-gone (gave l) s s' k h =
      let r = reap-gone l 0 k s s' h in
      (l, refl, omega (arith, r.0), r.1, reap-destroyed l 0 k s s' h)
  listed-gone (failed e) s s' k h = absurd (some_not_none (ap (λ x. x.1) h))

  -- A run of the reaper that returns no error has had the driver destroy every sandbox that it
  -- listed, one behind the other, each without an error and nothing else done to the runtime; it
  -- keeps no record of them, and returns their number.
  pub reap_expired-gone :
      (now : ℕ) (limit : ℤ) (s s' : State W) (k : ℕ)
      → reap_expired env now limit s ≡ (k, none, s')
      → (l : List Sandbox) × (list_expired env.faults now limit s.rows ≡ gave l)
        × (k ≡ length l)
        × All (λ (sb : Sandbox). find_row sb.id s'.rows ≡ none) l
        × DestroyedAll l s.runtime s'.runtime
  unfolding reap_expired
  reap_expired-gone now limit s s' k h =
      listed-gone (list_expired env.faults now limit s.rows) s s' k h
