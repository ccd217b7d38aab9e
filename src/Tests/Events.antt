-- ===== src/Tests/Events.antt =====
-- The event bus with two subscribers, one of them full.
use primitive_box.Prelude.{ℕ, String, ◌≡◌, refl, none, some, [], ◌∷◌}
use primitive_box.Json.{absent}
use primitive_box.Eventing.{
  Event, EventStore, Channel, Bus, new_bus, publish, subscribe, receive, find_channel,
}
use primitive_box.Eventing.Laws.{
  start, published, subscribed, received, IsValid, Reachable-IsValid, Delivered, IsRecorded,
  publish-Delivered,
}

abbrev event : String → Event
event message = record {
  id = 0;
  timestamp = "";
  kind = "goal.created";
  source = "goal";
  sandbox_id = "";
  method = "";
  stream = "";
  message = message;
  payload = absent;
  sequence = 0;
}

-- A store that numbers the events.
abbrev numbering : EventStore ℕ
numbering = record { append = λ evt n. (record evt { id = n }, none, n) }

abbrev full : Channel
full = record { capacity = 1; queue = event "old" ∷ [] }

abbrev empty : Channel
empty = record { capacity = 32; queue = [] }

abbrev bus : Bus
bus = record { subscribers = (1, empty) ∷ (0, full) ∷ []; next_id = 2 }

first_two : find_channel 1 bus.subscribers ≡ some empty
unfolding find_channel
first_two = refl

publish-Delivered_example :
    (out : Event) × (after : Channel) × IsRecorded (some numbering) "now" (event "new") 7 out
    × (find_channel 1 (publish (some numbering) "now" (event "new") bus 7).0.subscribers
        ≡ some after)
    × Delivered out empty after
publish-Delivered_example =
    publish-Delivered (some numbering) "now" (event "new") bus 7 1 empty first_two

abbrev busy : Bus
busy = (publish (some numbering) "now" (event "a") (subscribe 1 new_bus).1 7).0

Reachable-IsValid_example : IsValid (receive 0 busy)
Reachable-IsValid_example =
    Reachable-IsValid (some numbering) (receive 0 busy)
      (publish (some numbering) "now" (event "a") (subscribe 1 new_bus).1 7).1
      (received (published (subscribed (start 7) 1) "now" (event "a")) 0)
