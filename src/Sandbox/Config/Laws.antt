-- ===== src/Sandbox/Config/Laws.antt =====
-- The deadlines of a sandbox and the defaults of its configuration.
use primitive_box.Prelude.{
  ℕ, zero, suc, ◌+◌, ◌≤◌, ltb, Bool-cases, ap, String, ◌≡◌, ◌≢◌, refl, sym, subst, ◌⊎◌, inl, inr,
  Bool, true, false, Option, none, some, List, [], ◌∷◌, arith,
}
use primitive_box.Sandbox.{
  ℤ, pos, negsuc, NetworkMode, NetworkPolicy, LifecyclePolicy, SandboxConfig,
}
use primitive_box.Sandbox.Config.{
  positive, or_list, default_mode, or_mode, apply_sandbox_defaults, or_count, earlier, nanoseconds,
  add_duration, deadline, compute_expiry,
}

-- A time that is past no deadline and is one of them, or 0 where there is none.
abbrev pub IsEarliest : Option ℕ → Option ℕ → ℕ → Type 0
IsEarliest none none e = e ≡ 0
IsEarliest (some a) none e = e ≡ a
IsEarliest none (some b) e = e ≡ b
IsEarliest (some a) (some b) e = (e ≤ a) × (e ≤ b) × ((e ≡ a) ⊎ (e ≡ b))

-- Seconds that fit a duration, some 292 years.
abbrev pub IsShort : ℤ → Type 0
IsShort (pos n) = n ≤ 9223372036
IsShort (negsuc n) = Unit {0}

-- The lifetimes of the policy are short enough.
abbrev pub Fits : LifecyclePolicy → Type 0
Fits policy = IsShort policy.ttl_seconds × IsShort policy.idle_ttl_seconds

-- When a lifetime that starts at `base` is over, if it is one.
abbrev pub due : ℕ → ℤ → Option ℕ
due base (pos zero) = none
due base (pos (suc n)) = some (base + suc n)
due base (negsuc n) = none

abbrev as_int : Option ℕ → Option ℤ
as_int none = none
as_int (some n) = some (pos n)

add_duration-short :
    (base n : ℕ) → n ≤ 9223372036 → add_duration base (nanoseconds n) ≡ pos (base + n)
add_duration-short base n short = ground (arith, short)

deadline-due : (base : ℕ) (n : ℤ) → IsShort n → deadline base (positive n) ≡ as_int (due base n)
deadline-due base (pos zero) short = refl
deadline-due base (pos (suc n)) short = ap some (add_duration-short base (suc n) short)
deadline-due base (negsuc n) short = refl

earlier-IsEarliest :
    (a b : Option ℕ) → (e : ℕ) × (earlier (as_int a) (as_int b) ≡ pos e) × IsEarliest a b e
earlier-IsEarliest none none = (0, refl, refl)
earlier-IsEarliest (some a) none = (a, refl, refl)
earlier-IsEarliest none (some b) = (b, refl, refl)
earlier-IsEarliest (some a) (some b) = elim (Bool-cases (ltb b a)) [
  | inl before ↦ (b, rw before refl, ground (arith, before))
  | inr behind ↦ (a, rw behind refl, ground (arith, behind))
]

-- The time of expiry is the earliest of the ends of the lifetimes that the policy sets, if they fit a
-- duration: the one from the creation and the one from the last access, or from now if there was
-- none.
pub compute_expiry-IsEarliest :
    (now created accessed : ℕ) (policy : LifecyclePolicy)
    → Fits policy
    → (e : ℕ) × (compute_expiry now created accessed policy ≡ pos e)
      × IsEarliest
          (due created policy.ttl_seconds)
          (due (or_count accessed now) policy.idle_ttl_seconds)
          e
unfolding compute_expiry
compute_expiry-IsEarliest now created accessed policy fits =
    rw
      (
        deadline-due created policy.ttl_seconds fits.0,
        deadline-due (or_count accessed now) policy.idle_ttl_seconds fits.1,
      )
      (earlier-IsEarliest (due created policy.ttl_seconds)
        (due (or_count accessed now) policy.idle_ttl_seconds))

-- The network is enabled, or a host or a range is allowed.
abbrev pub IsOpen : Bool → NetworkPolicy → Type 0
IsOpen enabled p = (enabled ≡ true) ⊎ ((p.allow_hosts ≢ []) ⊎ (p.allow_cidrs ≢ []))

-- The mode that is chosen for a policy without one, by conditions that exclude each other.
abbrev pub IsChosen : Bool → NetworkPolicy → NetworkMode → Type 0
IsChosen enabled p mode =
    ((mode ≡ NetworkMode.none) × (enabled ≡ false) × (p.allow_hosts ≡ []) × (p.allow_cidrs ≡ []))
    ⊎ (((mode ≡ NetworkMode.policy)
          × IsOpen enabled p
          × ((p.allow_hosts ≢ []) ⊎ ((p.allow_cidrs ≢ []) ⊎ (p.allow_ports ≢ []))))
        ⊎ ((mode ≡ NetworkMode.full)
            × (enabled ≡ true)
            × (p.allow_hosts ≡ [])
            × (p.allow_cidrs ≡ [])
            × (p.allow_ports ≡ [])))

cons_not_nil : {A : Type 0} {x : A} {xs : List A} → (x ∷ xs) ≡ [] → ⊥
cons_not_nil e = cc

abbrev policy_of : NetworkMode → List String → List String → List ℤ → NetworkPolicy
policy_of mode hosts cidrs ports = record {
  mode = mode;
  allow_hosts = hosts;
  allow_cidrs = cidrs;
  allow_ports = ports;
}

default_mode-IsChosen :
    (enabled : Bool) (mode : NetworkMode) (hosts cidrs : List String) (ports : List ℤ)
    → IsChosen enabled
        (policy_of mode hosts cidrs ports)
        (default_mode enabled (policy_of mode hosts cidrs ports))
unfolding default_mode
default_mode-IsChosen false mode [] [] ports = inl (refl, refl, refl, refl)
default_mode-IsChosen true mode [] [] [] = inr (inr (refl, refl, refl, refl, refl))
default_mode-IsChosen true mode [] [] (x ∷ xs) =
    inr (inl (refl, inl refl, inr (inr λ e. cons_not_nil e)))
default_mode-IsChosen false mode [] (x ∷ xs) ports =
    inr (inl (refl, inr (inr λ e. cons_not_nil e), inr (inl λ e. cons_not_nil e)))
default_mode-IsChosen true mode [] (x ∷ xs) ports =
    inr (inl (refl, inl refl, inr (inl λ e. cons_not_nil e)))
default_mode-IsChosen false mode (x ∷ xs) cidrs ports =
    inr (inl (refl, inr (inl λ e. cons_not_nil e), inl λ e. cons_not_nil e))
default_mode-IsChosen true mode (x ∷ xs) cidrs ports =
    inr (inl (refl, inl refl, inl λ e. cons_not_nil e))

-- Which mode the policy had does not count.
IsChosen-mode :
    (enabled : Bool) (p : NetworkPolicy) (mode : NetworkMode)
    → IsChosen enabled p mode
    → IsChosen enabled (record p { mode = mode }) mode
IsChosen-mode enabled p mode h = h

-- What the defaults make of the network's policy.
abbrev pub IsNetworkOf : SandboxConfig → NetworkPolicy → Type 0
IsNetworkOf c p =
    (p.allow_hosts ≡ or_list c.network_policy.allow_hosts c.allowed_hosts)
    × (p.allow_cidrs ≡ c.network_policy.allow_cidrs)
    × (p.allow_ports ≡ c.network_policy.allow_ports)
    × (((c.network_policy.mode ≢ NetworkMode.unset) × (p.mode ≡ c.network_policy.mode))
        ⊎ ((c.network_policy.mode ≡ NetworkMode.unset) × IsChosen c.network_enabled p p.mode))

or_mode-cases :
    (m default : NetworkMode)
    → ((m ≢ NetworkMode.unset) × (or_mode m default ≡ m))
      ⊎ ((m ≡ NetworkMode.unset) × (or_mode m default ≡ default))
or_mode-cases NetworkMode.unset default = inr (refl, refl)
or_mode-cases NetworkMode.none default = inl ((λ e. cc), refl)
or_mode-cases NetworkMode.full default = inl ((λ e. cc), refl)
or_mode-cases NetworkMode.policy default = inl ((λ e. cc), refl)
or_mode-cases (NetworkMode.other s) default = inl ((λ e. cc), refl)

-- A network mode that is given stays; without one there is no network exactly where it is disabled
-- and no host or range is allowed, whatever ports are; otherwise there is a policy exactly where a
-- host, a range or a port is listed, and the whole network where it is enabled and nothing is.
pub apply_sandbox_defaults-network :
    (absolute : String → Option String) (c : SandboxConfig)
    → IsNetworkOf c (apply_sandbox_defaults absolute c).network_policy
unfolding apply_sandbox_defaults
apply_sandbox_defaults-network absolute c =
    let hosts = or_list c.network_policy.allow_hosts c.allowed_hosts in
    let chosen =
      default_mode-IsChosen c.network_enabled c.network_policy.mode hosts
        c.network_policy.allow_cidrs c.network_policy.allow_ports in
    (
      refl,
      refl,
      refl,
      elim (or_mode-cases c.network_policy.mode
          (default_mode c.network_enabled (record (c.network_policy) { allow_hosts = hosts }))) [
            | inl (given, kept) ↦ inl (given, kept)
            | inr (unset, chose) ↦ inr (
              unset,
              subst
                  (λ mode.
                    IsChosen c.network_enabled
                      (policy_of mode hosts c.network_policy.allow_cidrs
                        c.network_policy.allow_ports)
                      mode)
                  (sym chose)
                  (IsChosen-mode c.network_enabled
                    (policy_of c.network_policy.mode hosts c.network_policy.allow_cidrs
                      c.network_policy.allow_ports)
                    (default_mode c.network_enabled
                      (record (c.network_policy) { allow_hosts = hosts }))
                    chosen),
            )
          ],
    )
