-- ===== src/Bus/Consumed.antt =====
-- events/consumer.py: the subscription of the consumer, and what reaches it.
use broker_bridge.Base.{
  String, ◌≡◌, refl, ◌∙◌, true, false, some, List, [], ◌∷◌, ◌++◌, map, is_some, where_rows, All,
  where_rows-append,
}
use mathlib.Core.Path.{ap}
use broker_bridge.Topics.{
  default_topic_map, lookup, has_text, resolve_physical_topic, default_topics,
}
use broker_bridge.Topics.Subscribed.{default_topics-has_text}
use broker_bridge.Bus.{wants, filter_of, Bus, wanted_by, subscribe, publish_all}
use broker_bridge.Bus.Delivery.{subscribe_lem}

wants-has_text : (t : String) (l : List String) → has_text t l ≡ true → wants (filter_of l) t ≡ true
wants-has_text t [] h = refl
wants-has_text t (x ∷ l) h = h

module _ {E : Type 0} (prefix : String) (topic_map : List (String × String)) where
  -- The outbox publishes an event under the physical name of its topic.
  abbrev pub named : List (String × E) → List (String × E)
  named = map (λ (e : String × E). (resolve_physical_topic e.0 prefix topic_map, e.1))

  -- The topic of the event is one of the usual ones.
  abbrev pub IsUsual : String × E → Type 0
  IsUsual e = is_some (lookup e.0 default_topic_map) ≡ true

  where_rows-named :
      (l : List (String × E))
      → All IsUsual l
      → where_rows
          (λ (e : String × E). wants (filter_of (default_topics prefix topic_map)) e.0)
          (named l)
        ≡ named l
  where_rows-named [] h = refl
  where_rows-named (e ∷ l) h =
      let topic = resolve_physical_topic e.0 prefix topic_map in
      let usual =
        wants-has_text topic (default_topics prefix topic_map)
          (default_topics-has_text e.0 prefix topic_map h.0) in
      rw (usual, where_rows-named l h.1) refl

  -- After the consumer has subscribed to an open provider, every event of a usual topic that the outbox
  -- publishes reaches it, once and in order, whatever the prefix and the map of topics, behind what it
  -- wants of the events that were published before.
  pub consumed_lem :
      (l : List (String × E)) (b : Bus E)
      → b.is_closed ≡ false
      → All IsUsual l
      → (publish_all (named l) (subscribe (default_topics prefix topic_map) b).1).handled
        ≡ wanted_by (some (filter_of (default_topics prefix topic_map))) b.published ++ named l
  consumed_lem l b up usual =
      let p = λ (e : String × E). wants (filter_of (default_topics prefix topic_map)) e.0 in
      subscribe_lem (default_topics prefix topic_map) (named l) b up
      ∙ (where_rows-append p b.published (named l)
          ∙ ap (λ q. where_rows p b.published ++ q) (where_rows-named l usual))
