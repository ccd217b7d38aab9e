-- ===== src/Sandbox/Manager/Reaper.antt =====
-- What the reaper leaves as it is.
pub mod Gone
use primitive_box.Prelude.{
  ℕ, suc, ◌+◌, String, ◌≡◌, ◌≢◌, ◌<◌, refl, sym, ap, subst, ◌∙◌, true, false, not, Option, none,
  some, List, [], ◌∷◌, ◌=ₛ◌, eq_iff, All, length, Bool-cases, inl, inr, ◌⊎◌, arith,
}
use primitive_box.Errors.{GoError}
use primitive_box.Control.Store.{keep_by}
use primitive_box.Sandbox.{ℤ, pos, destroyed, Sandbox, Outcome, gave, failed}
use primitive_box.Sandbox.Store.{written, reading, find_row, is_expired, delete, list_expired}
use primitive_box.Sandbox.Store.Rows.{NotIn, Distinct, find_row-delete, listed-NotIn}
use primitive_box.Sandbox.Manager.{State, Environment, publish}
use primitive_box.Sandbox.Manager.Operations.{
  destroy_deleted, destroy_driven, destroy, reaped_one, ended_by, reap, reap_listed, reap_expired,
}

module _ {W : Type 0} (env : Environment W) where
  written-find_row :
      (o : Option GoError) (gone id : String) (rows : List Sandbox)
      → gone ≢ id
      → find_row id (written o rows (keep_by (λ (sb : Sandbox). not (sb.id =ₛ gone)) rows)).1
        ≡ find_row id rows
  written-find_row (some e) gone id rows other = refl
  written-find_row none gone id rows other = elim (Bool-cases (gone =ₛ id)) [
    | inl same ↦ absurd (other ((eq_iff gone id).0 same))
    | inr different ↦ find_row-delete gone id rows ∙ rw different refl
  ]

  pub deleted-rows :
      (gone id : String) (r : Option GoError × List Sandbox) (s : State W)
      → find_row id (destroy_deleted env gone r s).1.rows ≡ find_row id r.1
  unfolding destroy_deleted
  deleted-rows gone id (some e, rows) s = refl
  deleted-rows gone id (none, rows) s = refl

  driven-rows :
      (gone id : String) (r : Option GoError × W) (s : State W)
      → gone ≢ id
      → find_row id (destroy_driven env gone r s).1.rows ≡ find_row id s.rows
  unfolding destroy_driven delete
  driven-rows gone id (some e, w) s other = refl
  driven-rows gone id (none, w) s other =
      deleted-rows gone id (delete env.faults gone s.rows) (record s { runtime = w })
      ∙ written-find_row _ gone id s.rows other

  -- Destroying a sandbox leaves what is recorded of another.
  pub destroy-find_row :
      (gone id : String) (s : State W)
      → gone ≢ id
      → find_row id (destroy env gone s).1.rows ≡ find_row id s.rows
  unfolding destroy
  destroy-find_row gone id s other = driven-rows gone id (env.driver.destroy gone s.runtime) s other

  pub reaped_one-rows :
      (id : String) (r : Option GoError × State W) → (reaped_one env id r).1.rows ≡ r.1.rows
  unfolding reaped_one
  reaped_one-rows id (some e, s) = refl
  reaped_one-rows id (none, s) = refl

  pub go_on :
      (e : Option GoError) (n : ℕ) (s1 : State W) (later : ℕ × Option GoError × State W)
      → ((ended_by env e n s1 later).2 ≡ s1) ⊎ (ended_by env e n s1 later ≡ later)
  go_on none n s1 later = inr refl
  go_on (some err) n s1 later = inl refl

  reap-find_row :
      (l : List Sandbox) (n : ℕ) (id : String) (s : State W)
      → NotIn id l
      → find_row id (reap env l n s).2.rows ≡ find_row id s.rows
  unfolding reap
  reap-find_row [] n id s h = refl
  reap-find_row (sb ∷ rest) n id s h =
      let one = reaped_one env sb.id (destroy env sb.id s) in
      let here =
        ap (find_row id) (reaped_one-rows sb.id (destroy env sb.id s))
        ∙ destroy-find_row sb.id id s h.0 in
      elim (go_on one.0 n one.1 (reap env rest (suc n) one.1)) [
        | inl stopped ↦ ap (λ (x : State W). find_row id x.rows) stopped ∙ here
        | inr went ↦
            ap (λ x. find_row id x.2.rows) went ∙ reap-find_row rest (suc n) id one.1 h.1 ∙ here
      ]

  listed-find_row :
      (o : Option GoError) (l : List Sandbox) (id : String) (s : State W)
      → NotIn id l
      → find_row id (reap_listed env (reading o l) s).2.rows ≡ find_row id s.rows
  unfolding reap_listed
  listed-find_row none l id s h = reap-find_row l 0 id s h
  listed-find_row (some e) l id s h = refl

  -- A sandbox without a time of expiry, or with a later one than now, or that is destroyed already.
  abbrev pub IsLive : ℕ → Sandbox → Type 0
  IsLive now sb =
      (sb.expires_at ≡ pos 0)
      ⊎ (((t : ℕ) × (sb.expires_at ≡ pos t) × (now < t)) ⊎ (sb.status ≡ destroyed))

  IsLive-is_expired : (now : ℕ) (sb : Sandbox) → IsLive now sb → is_expired now sb ≡ false
  unfolding is_expired
  IsLive-is_expired now sb (inl never) = rw never refl
  IsLive-is_expired now sb (inr (inl (t, at, later))) = rw at (ground (arith, later))
  IsLive-is_expired now sb (inr (inr gone)) = rw gone (ground arith)

  -- Whatever the driver and the store answer, the reaper leaves a sandbox that is not expired as it
  -- is recorded: one without a time of expiry, or with a later one, or that is destroyed already.
  pub reap_expired-spares :
      (now : ℕ) (limit : ℤ) (s : State W) (id : String) (sb : Sandbox)
      → Distinct s.rows
      → find_row id s.rows ≡ some sb
      → IsLive now sb
      → find_row id (reap_expired env now limit s).2.rows ≡ some sb
  unfolding reap_expired list_expired
  reap_expired-spares now limit s id sb distinct at alive =
      listed-find_row _ _ id s
        (listed-NotIn now limit id sb s.rows distinct at (IsLive-is_expired now sb alive))
      ∙ at
