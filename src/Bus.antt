-- ===== src/Bus.antt =====
-- providers/memory.py, `MemoryEventProvider`: events are kept, and handed to the one handler that is
-- subscribed. What an event is does not matter here.
pub mod Delivery
pub mod Consumed
use broker_bridge.Base.{
  String, Bool, true, Option, none, some, List, [], ◌∷◌, ◌++◌, if◌then◌else◌, where_rows,
}
use broker_bridge.World.{Failure, Result, exception, ok, raised}
use broker_bridge.Topics.{has_text}

-- The topics of the subscription, or all of them.
pub data Filter : Type 0 where
  every_topic : Filter
  only : List String → Filter

abbrev pub wants : Filter → String → Bool
wants Filter.every_topic t = true
wants (Filter.only l) t = has_text t l

-- `set(topics) if topics else None`
abbrev pub filter_of : List String → Filter
filter_of [] = Filter.every_topic
filter_of (t ∷ l) = Filter.only (t ∷ l)

abbrev pub bus_closed : Failure
bus_closed = exception "RuntimeError"

module _ (E : Type 0) where
  -- `handled` is what the handler of the present subscription was called with, in order.
  pub record Bus : Type 0 where
    pub published : List (String × E)
    pub handler : Option Filter
    pub handled : List (String × E)
    pub is_closed : Bool

module _ {E : Type 0} where
  -- The events of a list that a subscription wants.
  abbrev pub wanted_by : Option Filter → List (String × E) → List (String × E)
  wanted_by none l = []
  wanted_by (some f) l = where_rows (λ (e : String × E). wants f e.0) l

  unfoldable pub publish : String → E → Bus E → Result (Unit {0}) × Bus E
  publish topic e b = if b.is_closed then (raised bus_closed, b) else (
    ok tt,
    record b {
      published = b.published ++ (topic, e) ∷ [];
      handled = b.handled ++ wanted_by b.handler ((topic, e) ∷ []);
    },
  )

  -- The handler replaces the one that was there, and gets what was published before.
  unfoldable pub subscribe : List String → Bus E → Result (Unit {0}) × Bus E
  subscribe topics b = if b.is_closed then (raised bus_closed, b) else (
    ok tt,
    record b {
      handler = some (filter_of topics);
      handled = wanted_by (some (filter_of topics)) b.published;
    },
  )

  abbrev pub close : Bus E → Bus E
  close b = record b { is_closed = true; handler = none }

  -- Publications one after the other.
  abbrev pub publish_all : List (String × E) → Bus E → Bus E
  publish_all [] b = b
  publish_all ((t, e) ∷ l) b = publish_all l (publish t e b).1
