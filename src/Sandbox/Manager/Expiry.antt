-- ===== src/Sandbox/Manager/Expiry.antt =====
-- What creating and touching a sandbox record of its lifetime.
use primitive_box.Prelude.{
  ℕ, String, ◌≡◌, refl, sym, ap, subst, ◌∙◌, Bool, true, false, Option, none, some, List, ◌=ₛ◌,
  eq_iff, if◌then◌else◌, Bool-cases, Option-cases, inl, inr, arith,
}
use primitive_box.Errors.{GoError}
use primitive_box.Sandbox.{
  pos, LifecyclePolicy, SandboxConfig, RuntimeCapability, Sandbox, Outcome, gave, failed,
}
use primitive_box.Sandbox.Config.{
  or_text, or_count, compute_expiry, touch_lifecycle, apply_sandbox_defaults,
}
use primitive_box.Sandbox.Config.Laws.{Fits, due, IsEarliest, compute_expiry-IsEarliest}
use primitive_box.Sandbox.Store.{
  upsert_statement, get_statement, written, reading, find_row, put_row, upsert, get,
}
use primitive_box.Sandbox.Store.Rows.{find_row-put_row, find_row-id}
use primitive_box.Sandbox.Manager.{
  State, Environment, or_driver_capabilities, completed, found_of, publish, upsert_sandbox,
  get_sandbox, created_sandbox, create_recorded, create_started, create,
}
use primitive_box.Sandbox.Manager.Operations.{touch_found, touch}

-- The sandbox expires when the first of its lifetimes is over, the one from its creation or the one
-- from its last access.
abbrev pub ExpiresAsPolicy : Sandbox → Type 0
ExpiresAsPolicy sb =
    (e : ℕ) × (sb.expires_at ≡ pos e)
    × IsEarliest (due sb.created_at sb.config.lifecycle.ttl_seconds)
        (due sb.last_accessed_at sb.config.lifecycle.idle_ttl_seconds) e

if_same : {A : Type 0} (b : Bool) (a : A) → (if b then a else a) ≡ a
if_same true a = refl
if_same false a = refl

gave_inj : {A : Type 0} {a b : A} → gave a ≡ gave b → a ≡ b
gave_inj e = cc

module _ {W : Type 0} (env : Environment W) where
  written-put :
      (o : Option GoError) (sb : Sandbox) (rows rows' : List Sandbox)
      → written o rows (put_row sb rows) ≡ (none, rows')
      → find_row sb.id rows' ≡ some sb
  written-put none sb rows rows' h =
      subst (λ x. find_row sb.id x.1 ≡ some sb) h
        (find_row-put_row sb sb.id rows ∙ rw ((eq_iff sb.id sb.id).1 refl) refl)
  written-put (some e) sb rows rows' h = cc (ap (λ x. x.0) h)

  -- A write of a sandbox that succeeded is found under its id.
  pub upsert_sandbox-find_row :
      (now : ℕ) (sb : Sandbox) (s s' : State W)
      → upsert_sandbox env now sb s ≡ (none, s')
      → find_row sb.id s'.rows ≡ some (completed env now sb s.runtime)
  unfolding upsert_sandbox upsert
  upsert_sandbox-find_row now sb s s' h =
      written-put (env.faults.fault (upsert_statement sb.id) s.rows)
        (completed env now sb s.runtime) s.rows s'.rows (ap (λ x. (x.0, x.1.rows)) h)

  or_count_same : (n : ℕ) → or_count n n ≡ n
  or_count_same n = ground arith

  -- Counted from now, where a last access at 0 counts as now.
  expiry_from_now :
      (now created : ℕ) (policy : LifecyclePolicy)
      → Fits policy
      → (e : ℕ) × (compute_expiry now created now policy ≡ pos e)
        × IsEarliest (due created policy.ttl_seconds) (due now policy.idle_ttl_seconds) e
  expiry_from_now now created policy fits =
      subst
        (λ base.
          (e : ℕ) × (compute_expiry now created now policy ≡ pos e)
          × IsEarliest (due created policy.ttl_seconds) (due base policy.idle_ttl_seconds) e)
        (or_count_same now) (compute_expiry-IsEarliest now created now policy fits)

  touched-ExpiresAsPolicy :
      (now : ℕ) (sb : Sandbox) → Fits sb.config.lifecycle → ExpiresAsPolicy (touch_lifecycle now sb)
  unfolding touch_lifecycle
  touched-ExpiresAsPolicy now sb fits = expiry_from_now now sb.created_at sb.config.lifecycle fits

  reading-found :
      (o : Option GoError) (r : Option Sandbox) (sb : Sandbox)
      → found_of env (reading o r) ≡ some sb
      → r ≡ some sb
  reading-found none r sb h = h
  reading-found (some e) r sb h = cc

  get_sandbox-found :
      (id : String) (s : State W) (sb : Sandbox)
      → get_sandbox env id s ≡ some sb
      → (find_row id s.rows ≡ some sb) × (sb.id ≡ id)
  unfolding get_sandbox get
  get_sandbox-found id s sb h =
      let at =
        reading-found (env.faults.fault (get_statement id) s.rows) (find_row id s.rows) sb h in
      (at, find_row-id id s.rows sb at)

  -- The sandbox before and after it was touched.
  abbrev pub IsTouched : ℕ → Sandbox → Sandbox → Type 0
  IsTouched now sb t =
      (t.last_accessed_at ≡ now)
      × (t.created_at ≡ sb.created_at)
      × (t.config ≡ sb.config)
      × (t.status ≡ sb.status)
      × ExpiresAsPolicy t

  touched_found :
      (now : ℕ) (id : String) (o : Option Sandbox) (s s' : State W)
      → touch_found env now id o s ≡ (none, s')
      → (sb : Sandbox) × (o ≡ some sb)
        × (upsert_sandbox env now (touch_lifecycle now sb) s ≡ (none, s'))
  unfolding touch_found
  touched_found now id none s s' h = cc (ap (λ x. x.0) h)
  touched_found now id (some sb) s s' h = (sb, refl, h)

  some_inj : {A : Type 0} {a b : A} → some a ≡ some b → a ≡ b
  some_inj e = cc

  touch_lifecycle-IsTouched :
      (now : ℕ) (id : String) (s s' : State W) (sb : Sandbox)
      → Fits sb.config.lifecycle
      → sb.id ≡ id
      → upsert_sandbox env now (touch_lifecycle now sb) s ≡ (none, s')
      → (t : Sandbox) × (find_row id s'.rows ≡ some t) × IsTouched now sb t
  unfolding touch_lifecycle
  touch_lifecycle-IsTouched now id s s' sb fits named put =
      let t = completed env now (touch_lifecycle now sb) s.runtime in
      (
        t,
        subst (λ x. find_row x s'.rows ≡ some t) named
            (upsert_sandbox-find_row now (touch_lifecycle now sb) s s' put),
        (refl, refl, refl, refl, touched-ExpiresAsPolicy now sb fits),
      )

  -- A touch that succeeded, of a sandbox whose lifetimes fit a duration, records it as accessed now
  -- and expiring when the first of them is over, the one from its creation or the one from now; so
  -- no touch moves it beyond the one from its creation.
  pub touch-IsTouched :
      (now : ℕ) (id : String) (s s' : State W) (sb : Sandbox)
      → find_row id s.rows ≡ some sb
      → Fits sb.config.lifecycle
      → touch env now id s ≡ (none, s')
      → (t : Sandbox) × (find_row id s'.rows ≡ some t) × IsTouched now sb t
  unfolding touch
  touch-IsTouched now id s s' sb found fits h =
      let r = touched_found now id (get_sandbox env id s) s s' h in
      let at = get_sandbox-found id s r.0 r.1 in
      let same = some_inj (sym at.0 ∙ found) in
      touch_lifecycle-IsTouched now id s s' sb fits (subst (λ (x : Sandbox). x.id ≡ id) same at.1)
        (subst (λ x. upsert_sandbox env now (touch_lifecycle now x) s ≡ (none, s')) same r.2)

  or_text_idem : (a b : String) → or_text (or_text a b) b ≡ or_text a b
  or_text_idem a b = elim (Bool-cases (a =ₛ "")) [
    | inl empty ↦ rw empty (if_same (b =ₛ "") b)
    | inr full ↦ rw full (rw full refl)
  ]

  or_count_idem : (a b : ℕ) → or_count (or_count a b) b ≡ or_count a b
  or_count_idem a b = ground arith

  or_driver_idem :
      (o : Option (List RuntimeCapability)) (w : W)
      → or_driver_capabilities env (or_driver_capabilities env o w) w
        ≡ or_driver_capabilities env o w
  or_driver_idem (some cs) w = refl
  or_driver_idem none w = elim (Option-cases (env.driver.get_capabilities w)) [
    | inl absent ↦ rw absent absent
    | inr (cs, given) ↦ rw given refl
  ]

  completed_idem :
      (now : ℕ) (sb : Sandbox) (w : W)
      → completed env now (completed env now sb w) w ≡ completed env now sb w
  completed_idem now sb w =
      rw
        (
          or_text_idem sb.driver sb.config.driver,
          or_driver_idem sb.capabilities w,
          or_count_idem sb.updated_at now,
        )
        refl

  -- What is recorded of a sandbox that was created.
  abbrev pub IsRecorded : ℕ → SandboxConfig → Sandbox → List Sandbox → Type 0
  IsRecorded now given sb rows =
      (find_row sb.id rows ≡ some sb)
      × (sb.config ≡ apply_sandbox_defaults env.absolute given)
      × (sb.last_accessed_at ≡ now)
      × ExpiresAsPolicy sb

  created-ExpiresAsPolicy :
      (now : ℕ) (config : SandboxConfig) (sb : Sandbox) (w : W)
      → Fits config.lifecycle
      → ExpiresAsPolicy (created_sandbox env now config sb w)
  unfolding created_sandbox
  created-ExpiresAsPolicy now config sb w fits =
      expiry_from_now now (or_count sb.created_at now) config.lifecycle fits

  recorded-rows :
      (sb found : Sandbox) (e : Option GoError) (s s' : State W)
      → create_recorded env sb (e, s) ≡ (gave found, s')
      → (e ≡ none) × (sb ≡ found) × (s.rows ≡ s'.rows)
  unfolding create_recorded publish
  recorded-rows sb found none s s' h = (refl, gave_inj (ap (λ x. x.0) h), ap (λ x. x.1.rows) h)
  recorded-rows sb found (some e) s s' h = cc (ap (λ x. x.0) h)

  started-IsRecorded :
      (now : ℕ) (given : SandboxConfig) (r : Outcome Sandbox × W) (s s' : State W) (sb : Sandbox)
      → Fits given.lifecycle
      → create_started env now (apply_sandbox_defaults env.absolute given) r s ≡ (gave sb, s')
      → IsRecorded now given sb s'.rows
  unfolding create_started created_sandbox apply_sandbox_defaults
  started-IsRecorded now given (failed e, w) s s' sb fits h = cc (ap (λ x. x.0) h)
  started-IsRecorded now given (gave made, w) s s' sb fits h =
      let config = apply_sandbox_defaults env.absolute given in
      let sandbox = completed env now (created_sandbox env now config made w) w in
      let put = upsert_sandbox env now sandbox (record s { runtime = w }) in
      let r = recorded-rows sandbox sb put.0 put.1 s' h in
      let at =
        upsert_sandbox-find_row now sandbox (record s { runtime = w }) put.1
          (ap (λ x. (x, put.1)) r.0)
        ∙ ap some (completed_idem now (created_sandbox env now config made w) w) in
      subst (λ x. IsRecorded now given x s'.rows) r.1
        (
          subst (λ rows. find_row sandbox.id rows ≡ some sandbox) r.2 at,
          refl,
          refl,
          created-ExpiresAsPolicy now config made w fits,
        )

  -- A sandbox that Create returns, where the lifetimes that are asked for fit a duration, is the one
  -- that the store holds under its id: with the defaults in its configuration, accessed now, and
  -- expiring when the first of its lifetimes is over.
  pub create-IsRecorded :
      (now : ℕ) (given : SandboxConfig) (s s' : State W) (sb : Sandbox)
      → Fits given.lifecycle
      → create env now given s ≡ (gave sb, s')
      → IsRecorded now given sb s'.rows
  unfolding create
  create-IsRecorded now given s s' sb fits h =
      started-IsRecorded now given
        (env.driver.create (apply_sandbox_defaults env.absolute given) s.runtime) s s' sb fits h
