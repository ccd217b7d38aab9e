-- ===== src/Eventing/Laws.antt =====
-- The subscribers of the event bus under its operations.
use primitive_box.Prelude.{
  ℕ, ◌+◌, ◌≤◌, ◌<◌, String, ◌≡◌, ◌≢◌, refl, sym, ap, ◌∙◌, true, false, ◌=ₛ◌, eq_iff, Option-cases,
  Option, none, some, List, [], ◌∷◌, ◌++◌, All, length, length-append, ◌==◌, if◌then◌else◌, ◌⊎◌,
  arith, inl, inr, Bool-cases,
}
use primitive_box.Errors.{GoError}
use primitive_box.Eventing.{
  Event, EventStore, Channel, Bus, new_bus, deliver, broadcast, append_event, persisted_or, stamped,
  publish, subscribe, remove, cancel, taken, receive_from, receive, find_channel,
}

-- A subscriber that was registered before `next` and whose buffer is not over its capacity.
abbrev pub Fits : ℕ → ℕ × Channel → Type 0
Fits next (i, ch) = (i < next) × (0 < ch.capacity) × (length ch.queue ≤ ch.capacity)

abbrev NotIn : ℕ → List (ℕ × Channel) → Type 0
NotIn id subscribers = All (λ (entry : ℕ × Channel). entry.0 ≢ id) subscribers

abbrev pub Distinct : List (ℕ × Channel) → Type 0
Distinct [] = Unit {0}
Distinct ((i, ch) ∷ rest) = NotIn i rest × Distinct rest

abbrev pub IsValid : Bus → Type 0
IsValid b = All (Fits b.next_id) b.subscribers × Distinct b.subscribers

module _ {S : Type 0} (store : Option (EventStore S)) where
  -- The buses that the operations lead to from a new one, with the store's state.
  pub data Reachable : Bus → S → Type 0 where
    start : (s : S) → Reachable new_bus s
    published :
        {b0 : Bus} {s0 : S}
        → Reachable b0 s0
        → (now : String) (evt : Event)
        → Reachable (publish store now evt b0 s0).0 (publish store now evt b0 s0).1
    subscribed :
        {b0 : Bus} {s0 : S} → Reachable b0 s0 → (buffer : ℕ) → Reachable (subscribe buffer b0).1 s0
    cancelled : {b0 : Bus} {s0 : S} → Reachable b0 s0 → (id : ℕ) → Reachable (cancel id b0) s0
    received : {b0 : Bus} {s0 : S} → Reachable b0 s0 → (id : ℕ) → Reachable (receive id b0) s0

deliver-Fits :
    (next i : ℕ) (evt : Event) (ch : Channel) → Fits next (i, ch) → Fits next (i, deliver evt ch)
unfolding deliver
deliver-Fits next i evt ch h = ground (arith, length-append ch.queue (evt ∷ []))

broadcast-Fits :
    (next : ℕ) (evt : Event) (l : List (ℕ × Channel))
    → All (Fits next) l
    → All (Fits next) (broadcast evt l)
unfolding broadcast
broadcast-Fits next evt [] h = tt
broadcast-Fits next evt ((i, ch) ∷ rest) h =
    (deliver-Fits next i evt ch h.0, broadcast-Fits next evt rest h.1)

broadcast-NotIn :
    (id : ℕ) (evt : Event) (l : List (ℕ × Channel)) → NotIn id l → NotIn id (broadcast evt l)
unfolding broadcast
broadcast-NotIn id evt [] h = tt
broadcast-NotIn id evt ((i, ch) ∷ rest) h = (h.0, broadcast-NotIn id evt rest h.1)

broadcast-Distinct :
    (evt : Event) (l : List (ℕ × Channel)) → Distinct l → Distinct (broadcast evt l)
unfolding broadcast
broadcast-Distinct evt [] h = tt
broadcast-Distinct evt ((i, ch) ∷ rest) h =
    (broadcast-NotIn i evt rest h.0, broadcast-Distinct evt rest h.1)

Fits-later : (next : ℕ) (l : List (ℕ × Channel)) → All (Fits next) l → All (Fits (next + 1)) l
Fits-later next [] h = tt
Fits-later next ((i, ch) ∷ rest) h = (ground (arith, h.0), Fits-later next rest h.1)

Fits-NotIn : (next : ℕ) (l : List (ℕ × Channel)) → All (Fits next) l → NotIn next l
Fits-NotIn next [] h = tt
Fits-NotIn next ((i, ch) ∷ rest) h = ((λ e. omega (arith, e, h.0.0)), Fits-NotIn next rest h.1)

remove-All :
    (P : ℕ × Channel → Type 0) (id : ℕ) (l : List (ℕ × Channel)) → All P l → All P (remove id l)
unfolding remove
remove-All P id [] h = tt
remove-All P id ((i, ch) ∷ rest) h = elim (Bool-cases (i == id)) [
  | inl hit ↦ rw hit (remove-All P id rest h.1)
  | inr miss ↦ rw miss (h.0, remove-All P id rest h.1)
]

remove-Distinct : (id : ℕ) (l : List (ℕ × Channel)) → Distinct l → Distinct (remove id l)
unfolding remove
remove-Distinct id [] h = tt
remove-Distinct id ((i, ch) ∷ rest) h = elim (Bool-cases (i == id)) [
  | inl hit ↦ rw hit (remove-Distinct id rest h.1)
  | inr miss ↦
      rw miss
        (remove-All (λ (entry : ℕ × Channel). entry.0 ≢ i) id rest h.0, remove-Distinct id rest h.1)
]

taken-Fits : (next i : ℕ) (ch : Channel) → Fits next (i, ch) → Fits next (i, taken ch)
taken-Fits next i ch h = ground (arith, h)

receive_from-Fits :
    (next id : ℕ) (l : List (ℕ × Channel)) → All (Fits next) l → All (Fits next) (receive_from id l)
unfolding receive_from
receive_from-Fits next id [] h = tt
receive_from-Fits next id ((i, ch) ∷ rest) h = elim (Bool-cases (i == id)) [
  | inl hit ↦ rw hit (taken-Fits next i ch h.0, receive_from-Fits next id rest h.1)
  | inr miss ↦ rw miss (h.0, receive_from-Fits next id rest h.1)
]

receive_from-NotIn : (j id : ℕ) (l : List (ℕ × Channel)) → NotIn j l → NotIn j (receive_from id l)
unfolding receive_from
receive_from-NotIn j id [] h = tt
receive_from-NotIn j id ((i, ch) ∷ rest) h = (h.0, receive_from-NotIn j id rest h.1)

receive_from-Distinct :
    (id : ℕ) (l : List (ℕ × Channel)) → Distinct l → Distinct (receive_from id l)
unfolding receive_from
receive_from-Distinct id [] h = tt
receive_from-Distinct id ((i, ch) ∷ rest) h =
    (receive_from-NotIn i id rest h.0, receive_from-Distinct id rest h.1)

-- Whatever is published, subscribed, cancelled and received, in any order, each subscriber keeps an
-- id of its own, below the next one, and no buffer exceeds its capacity, which is positive.
pub Reachable-IsValid :
    {S : Type 0} (store : Option (EventStore S)) (b : Bus) (s : S) → Reachable store b s → IsValid b
unfolding publish subscribe cancel receive
Reachable-IsValid store b s (start t) = (tt, tt)
Reachable-IsValid store b s (published {b0} {s0} r now evt) =
    let h = Reachable-IsValid store b0 s0 r in
    (broadcast-Fits _ _ b0.subscribers h.0, broadcast-Distinct _ b0.subscribers h.1)
Reachable-IsValid store b s (subscribed {b0} {s0} r buffer) =
    let h = Reachable-IsValid store b0 s0 r in
    (
      (ground arith, Fits-later b0.next_id b0.subscribers h.0),
      (Fits-NotIn b0.next_id b0.subscribers h.0, h.1),
    )
Reachable-IsValid store b s (cancelled {b0} {s0} r id) =
    let h = Reachable-IsValid store b0 s0 r in
    (remove-All (Fits b0.next_id) id b0.subscribers h.0, remove-Distinct id b0.subscribers h.1)
Reachable-IsValid store b s (received {b0} {s0} r id) =
    let h = Reachable-IsValid store b0 s0 r in
    (
      receive_from-Fits b0.next_id id b0.subscribers h.0,
      receive_from-Distinct id b0.subscribers h.1,
    )

broadcast-find_channel :
    (evt : Event) (id : ℕ) (l : List (ℕ × Channel)) (ch : Channel)
    → find_channel id l ≡ some ch
    → find_channel id (broadcast evt l) ≡ some (deliver evt ch)
unfolding broadcast find_channel
broadcast-find_channel evt id [] ch at = absurd (ground arith)
broadcast-find_channel evt id ((i, c) ∷ rest) ch at = elim (Bool-cases (i == id)) [
  | inl hit ↦ ground (arith, at, hit)
  | inr miss ↦ rw miss (broadcast-find_channel evt id rest ch (rw miss at at))
]

-- What a publication leaves of a channel: the event behind what was there, or, where the buffer was
-- full, nothing new.
abbrev pub Delivered : Event → Channel → Channel → Type 0
Delivered evt before after =
    (after.capacity ≡ before.capacity)
    × (((length before.queue < before.capacity) × (after.queue ≡ before.queue ++ evt ∷ []))
        ⊎ ((before.capacity ≤ length before.queue) × (after.queue ≡ before.queue)))

deliver-Delivered : (evt : Event) (ch : Channel) → Delivered evt ch (deliver evt ch)
unfolding deliver
deliver-Delivered evt ch = ground arith

false_not_true : false ≡ true → ⊥
false_not_true e = cc

error_not_none : {e : GoError} → some e ≡ none → ⊥
error_not_none h = cc

-- The event with a time: its own, or else that of the clock.
abbrev pub IsStamped : String → Event → Event → Type 0
IsStamped now evt out =
    ((evt.timestamp ≡ "") × (out ≡ record evt { timestamp = now }))
    ⊎ ((evt.timestamp ≢ "") × (out ≡ evt))

-- The event that is sent on: what the store gave back for the event with its time, or that event,
-- where there is no store or it gave an error.
abbrev pub IsRecorded : {S : Type 0} → Option (EventStore S) → String → Event → S → Event → Type 0
IsRecorded store now evt s out =
    (timed : Event) × IsStamped now evt timed
    × (((store ≡ none) × (out ≡ timed))
        ⊎ ((st : EventStore _) × (store ≡ some st)
            × ((((st.append timed s).1 ≡ none) × (out ≡ (st.append timed s).0))
                ⊎ (((st.append timed s).1 ≢ none) × (out ≡ timed)))))

stamped-IsStamped : (now : String) (evt : Event) → IsStamped now evt (stamped now evt)
stamped-IsStamped now evt = elim (Bool-cases (evt.timestamp =ₛ "")) [
  | inl unset ↦ rw unset (inl ((eq_iff evt.timestamp "").0 unset, refl))
  | inr set ↦ rw set (inr ((λ e. false_not_true (sym set ∙ (eq_iff evt.timestamp "").1 e)), refl))
]

append_event-IsRecorded :
    {S : Type 0} (store : Option (EventStore S)) (now : String) (evt : Event) (s : S)
    → IsRecorded store now evt s (append_event store (stamped now evt) s).0
unfolding append_event
append_event-IsRecorded none now evt s =
    (stamped now evt, stamped-IsStamped now evt, inl (refl, refl))
append_event-IsRecorded (some st) now evt s =
    let timed = stamped now evt in
    (
      timed,
      stamped-IsStamped now evt,
      inr (
        st,
        refl,
        elim (Option-cases (st.append timed s).1) [
          | inl fine ↦ inl (fine, ap (λ o. persisted_or timed ((st.append timed s).0, o)) fine)
          | inr (e, failed) ↦ inr (
            (λ x. error_not_none (sym failed ∙ x)),
            ap (λ o. persisted_or timed ((st.append timed s).0, o)) failed,
          )
        ],
      ),
    )

-- A publication reaches every subscriber whose buffer has room, once and behind what was there, and
-- leaves a full buffer as it was. The event is the one that was given, with the time of the clock if it
-- had none, or what the store returned for that without an error.
pub publish-Delivered :
    {S : Type 0} (store : Option (EventStore S)) (now : String) (evt : Event) (b : Bus) (s : S)
    (id : ℕ) (ch : Channel)
    → find_channel id b.subscribers ≡ some ch
    → (out : Event) × (after : Channel) × IsRecorded store now evt s out
      × (find_channel id (publish store now evt b s).0.subscribers ≡ some after)
      × Delivered out ch after
unfolding publish
publish-Delivered store now evt b s id ch at =
    let recorded = (append_event store (stamped now evt) s).0 in
    (
      recorded,
      deliver recorded ch,
      append_event-IsRecorded store now evt s,
      broadcast-find_channel recorded id b.subscribers ch at,
      deliver-Delivered recorded ch,
    )

remove-find_channel :
    (id j : ℕ) (l : List (ℕ × Channel))
    → find_channel j (remove id l) ≡ (if id == j then none else find_channel j l)
unfolding remove find_channel
remove-find_channel id j [] = ground arith
remove-find_channel id j ((i, ch) ∷ rest) = ground (arith, remove-find_channel id j rest)

-- After a cancellation the subscriber is gone, and every other one has the channel it had.
pub cancel-find_channel :
    (id j : ℕ) (b : Bus)
    → find_channel j (cancel id b).subscribers
      ≡ (if id == j then none else find_channel j b.subscribers)
unfolding cancel
cancel-find_channel id j b = remove-find_channel id j b.subscribers
