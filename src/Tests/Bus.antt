-- ===== src/Tests/Bus.antt =====
-- Runs of the event provider in memory.
use broker_bridge.Base.{ℕ, ◌≡◌, refl, false, none, some, [], ◌∷◌, ◌++◌, whole_numbers}
use broker_bridge.Secrets.{starts_with}
use broker_bridge.Topics.{
  rstrip_dots, after_dot, prefixed, physical_name, resolve_physical_topic, default_topics,
}
use broker_bridge.Bus.{filter_of, Bus, wanted_by, subscribe, publish_all}
use broker_bridge.Bus.Consumed.{named, consumed_lem}

prefixed_orders : resolve_physical_topic "orders" "lab." [] ≡ "lab.orders"
unfolding resolve_physical_topic physical_name prefixed rstrip_dots after_dot starts_with
prefixed_orders = refl

abbrev bus : Bus ℕ
bus = record {
  published = ("brokerbridge.ip", 1) ∷ ("other", 2) ∷ [];
  handler = none;
  handled = [];
  is_closed = false;
}

consumed_lem_example :
    (publish_all
      (named "lab" [] (("orders", 3) ∷ ("config", 4) ∷ []))
      (subscribe (default_topics "lab" []) bus).1).handled
    ≡ wanted_by (some (filter_of (default_topics "lab" []))) bus.published
      ++ named "lab" [] (("orders", 3) ∷ ("config", 4) ∷ [])
consumed_lem_example =
    consumed_lem "lab" [] (("orders", 3) ∷ ("config", 4) ∷ []) bus refl (refl, (refl, tt))
