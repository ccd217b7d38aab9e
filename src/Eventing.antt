-- ===== src/Eventing.antt =====
-- internal/eventing/eventing.go: the event bus. The payload of an event is its field Data. A channel
-- is its buffer and its capacity; a publisher never waits, so that an event for a full buffer is
-- dropped. Sinks in contexts are not modelled.
pub mod Laws
use primitive_box.Prelude.{
  ℕ, ◌+◌, String, Bool, true, false, Option, none, some, List, [], ◌∷◌, ◌++◌, length, ltb, ◌==◌,
  ◌=ₛ◌, if◌then◌else◌,
}
use primitive_box.Errors.{GoError}
use primitive_box.Json.{RawMessage}

pub record Event : Type 0 where
  pub id : ℕ
  pub timestamp : String
  pub kind : String
  pub source : String
  pub sandbox_id : String
  pub method : String
  pub stream : String
  pub message : String
  pub payload : RawMessage
  pub sequence : ℕ

-- The interface `Store`, over its state; of its two methods the bus calls this one.
pub record EventStore (S : Type 0) : Type 0 where
  pub append : Event → S → Event × Option GoError × S

pub record Channel : Type 0 where
  pub capacity : ℕ
  pub queue : List Event

-- The map of the subscribers.
pub record Bus : Type 0 where
  pub subscribers : List (ℕ × Channel)
  pub next_id : ℕ

abbrev pub new_bus : Bus
new_bus = record { subscribers = []; next_id = 0 }

-- `select { case ch <- evt: default: }`
unfoldable pub deliver : Event → Channel → Channel
deliver evt ch =
    if ltb (length ch.queue) ch.capacity then record ch { queue = ch.queue ++ evt ∷ [] } else ch

unfoldable pub broadcast : Event → List (ℕ × Channel) → List (ℕ × Channel)
unfolding deliver
broadcast evt [] = []
broadcast evt ((i, ch) ∷ rest) = (i, deliver evt ch) ∷ broadcast evt rest

-- What `Append` returned, or the event itself where it failed.
abbrev pub persisted_or : Event → Event × Option GoError → Event
persisted_or evt (persisted, none) = persisted
persisted_or evt (persisted, some err) = evt

-- `now` is the clock's reading, as a text.
abbrev pub stamped : String → Event → Event
stamped now evt = if evt.timestamp =ₛ "" then record evt { timestamp = now } else evt

module _ {S : Type 0} where
  unfoldable pub append_event : Option (EventStore S) → Event → S → Event × S
  append_event none evt s = (evt, s)
  append_event (some store) evt s =
      let out = store.append evt s in (persisted_or evt (out.0, out.1), out.2)

  unfoldable pub publish : Option (EventStore S) → String → Event → Bus → S → Bus × S
  unfolding append_event broadcast
  publish store now evt b s =
      let recorded = append_event store (stamped now evt) s in
      (record b { subscribers = broadcast recorded.0 b.subscribers }, recorded.1)

-- The id of the new subscriber; of `buffer` only the positive values count.
unfoldable pub subscribe : ℕ → Bus → ℕ × Bus
subscribe buffer b = (
  b.next_id,
  record {
    subscribers =
        (b.next_id, record { capacity = if buffer == 0 then 32 else buffer; queue = [] })
        ∷ b.subscribers;
    next_id = b.next_id + 1;
  },
)

unfoldable pub remove : ℕ → List (ℕ × Channel) → List (ℕ × Channel)
remove id [] = []
remove id ((i, ch) ∷ rest) =
    let others = remove id rest in if i == id then others else (i, ch) ∷ others

-- The `cancel` that `Subscribe` returns for an id; the channel is closed as it leaves the map.
unfoldable pub cancel : ℕ → Bus → Bus
unfolding remove
cancel id b = record b { subscribers = remove id b.subscribers }

-- A subscriber takes the oldest event of its buffer.
abbrev taken : Channel → Channel
taken ch = elim (ch.queue) [ [] ↦ ch | evt ∷ rest ↦ record ch { queue = rest } ]

unfoldable pub receive_from : ℕ → List (ℕ × Channel) → List (ℕ × Channel)
receive_from id [] = []
receive_from id ((i, ch) ∷ rest) = (i, if i == id then taken ch else ch) ∷ receive_from id rest

unfoldable pub receive : ℕ → Bus → Bus
unfolding receive_from
receive id b = record b { subscribers = receive_from id b.subscribers }

unfoldable pub find_channel : ℕ → List (ℕ × Channel) → Option Channel
find_channel id [] = none
find_channel id ((i, ch) ∷ rest) = if i == id then some ch else find_channel id rest
