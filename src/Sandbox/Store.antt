-- ===== src/Sandbox/Store.antt =====
-- The sandbox store: internal/sandbox/store.go, kept as a list of the sandboxes under their ids,
-- with the errors that another implementation of the interface Store may give. Sandboxes that
-- expire at the same time are listed in the order of the list.
pub mod Rows
use primitive_box.Prelude.{
  ℕ, zero, suc, String, Bool, true, false, not, ◌&&◌, ◌||◌, Option, none, some, List, [], ◌∷◌, take,
  leb, ltb, ◌==◌, ◌=ₛ◌, if◌then◌else◌, length,
}
use primitive_box.Errors.{GoError}
use primitive_box.Control.Store.{keep_by}
use primitive_box.Sandbox.{ℤ, pos, negsuc, lt_int, SandboxStatus, Sandbox, Outcome, gave, failed}
use Prim.Native.String.{compare}
use Prim.Native.Nat.{Ordering}

pub data Statement : Type 0 where
  upsert_statement get_statement delete_statement : String → Statement
  list_statement expired_statement : Statement

-- The errors of a store; `reliable` is the store in memory.
pub record StoreFaults : Type 0 where
  pub fault : Statement → List Sandbox → Option GoError

abbrev pub reliable : StoreFaults
reliable = record { fault = λ s rows. none }

unfoldable pub find_row : String → List Sandbox → Option Sandbox
find_row id [] = none
find_row id (sb ∷ rest) = let later = find_row id rest in if sb.id =ₛ id then some sb else later

unfoldable pub put_row : Sandbox → List Sandbox → List Sandbox
put_row sb [] = sb ∷ []
put_row sb (t ∷ rest) =
    let later = put_row sb rest in if t.id =ₛ sb.id then sb ∷ rest else t ∷ later

abbrev pub is_destroyed : SandboxStatus → Bool
is_destroyed SandboxStatus.destroyed = true
is_destroyed _ = false

abbrev is_zero : ℤ → Bool
is_zero (pos n) = n == 0
is_zero (negsuc n) = false

-- The sandbox has a time of expiry that is not after `before`, and is not destroyed.
unfoldable pub is_expired : ℕ → Sandbox → Bool
is_expired before sb =
    not (is_zero sb.expires_at || lt_int (pos before) sb.expires_at) && not (is_destroyed sb.status)

insert_by_expiry : Sandbox → List Sandbox → List Sandbox
insert_by_expiry sb [] = sb ∷ []
insert_by_expiry sb (t ∷ rest) =
    let later = insert_by_expiry sb rest in
    if lt_int t.expires_at sb.expires_at then t ∷ later else sb ∷ t ∷ rest

unfoldable pub by_expiry : List Sandbox → List Sandbox
unfolding insert_by_expiry
by_expiry [] = []
by_expiry (sb ∷ rest) = insert_by_expiry sb (by_expiry rest)

insert_by_id : Sandbox → List Sandbox → List Sandbox
insert_by_id sb [] = sb ∷ []
insert_by_id sb (t ∷ rest) =
    let later = insert_by_id sb rest in
    elim (compare sb.id t.id) [ Ordering.gt ↦ t ∷ later | _ ↦ sb ∷ t ∷ rest ]

unfoldable pub by_id : List Sandbox → List Sandbox
unfolding insert_by_id
by_id [] = []
by_id (sb ∷ rest) = insert_by_id sb (by_id rest)

-- The first `limit` of them, all where the limit is not positive.
abbrev pub limited : ℤ → List Sandbox → List Sandbox
limited (pos zero) rows = rows
limited (pos (suc n)) rows = take (suc n) rows
limited (negsuc n) rows = rows

-- A write, unless the store gives an error.
abbrev pub written : Option GoError → List Sandbox → List Sandbox → Option GoError × List Sandbox
written none before after = (none, after)
written (some e) before after = (some e, before)

-- A reading of the store.
abbrev pub reading : {A : Type 0} → Option GoError → A → Outcome A
reading none a = gave a
reading (some e) a = failed e

module _ (s : StoreFaults) where
  unfoldable pub upsert : Sandbox → List Sandbox → Option GoError × List Sandbox
  unfolding put_row
  upsert sb rows = written (s.fault (upsert_statement sb.id) rows) rows (put_row sb rows)

  -- The sandbox, if it is there.
  unfoldable pub get : String → List Sandbox → Outcome (Option Sandbox)
  unfolding find_row
  get id rows = reading (s.fault (get_statement id) rows) (find_row id rows)

  unfoldable pub list : List Sandbox → Outcome (List Sandbox)
  unfolding by_id
  list rows = reading (s.fault list_statement rows) (by_id rows)

  unfoldable pub delete : String → List Sandbox → Option GoError × List Sandbox
  unfolding keep_by
  delete id rows =
      written (s.fault (delete_statement id) rows) rows
        (keep_by (λ (sb : Sandbox). not (sb.id =ₛ id)) rows)

  unfoldable pub list_expired : ℕ → ℤ → List Sandbox → Outcome (List Sandbox)
  unfolding keep_by by_expiry is_expired
  list_expired before limit rows =
      reading (s.fault expired_statement rows)
        (limited limit (by_expiry (keep_by (is_expired before) rows)))
