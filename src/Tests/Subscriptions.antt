-- ===== src/Tests/Subscriptions.antt =====
-- Client 1 is suspended but covered; the subscription of client 2 has run out.
use mathlib.Core.List.{map}
use broker_bridge.Base.{ℕ, ◌≡◌, refl, ◌↔◌, ◌⊎◌, true, false, some, [], ◌∷◌, length, whole_numbers}
use broker_bridge.Models.{Client, SubscriptionStatus, is_suspended}
use broker_bridge.World.{app, subscription_expired, ok, raised, World}
use broker_bridge.Subscriptions.{
  find_client, client_trading_allowed, assert_trading_allowed, teardown_instance, teardown_all,
  expire_one, expire_all, enforce_expiry, get_subscription, expire_now,
}
use broker_bridge.Subscriptions.Trading.{
  MayTrade, client_trading_allowed_iff, assert_trading_allowed_lem,
}
use broker_bridge.Subscriptions.Expiry.{
  suspended, expired, sub_id, sub_client, due, enforce_expiry_lem,
}
use broker_bridge.Tests.Fixtures.{subscription, tables, world}
use broker_bridge.Infra.{call_infra}
use broker_bridge.Events.{enqueue_outbox}

allowed_1 : client_trading_allowed 1 world ≡ true
unfolding client_trading_allowed
allowed_1 = refl

client_trading_allowed_iff_example : (client_trading_allowed 1 world ≡ true) ↔ MayTrade 1 world
client_trading_allowed_iff_example = client_trading_allowed_iff 1 world

assert_trading_allowed_lem_example :
    let (r, w') = assert_trading_allowed 2 world in
    ((client_trading_allowed 2 world ≡ true)
      × (r ≡ ok tt)
      × ((c : Client) → find_client 2 w'.db ≡ some c → is_suspended c.status ≡ false)
      × ((w' ≡ world) ⊎ (w'.durable ≡ w'.db)))
    ⊎ ((client_trading_allowed 2 world ≡ false)
        × (r ≡ raised (app subscription_expired 403))
        × (w' ≡ world))
assert_trading_allowed_lem_example = assert_trading_allowed_lem 2 world

enforced : (enforce_expiry world).0 ≡ ok (1, 1)
unfolding enforce_expiry expire_all expire_one teardown_all teardown_instance enqueue_outbox
    call_infra
enforced = refl

enforce_expiry_lem_example :
    let w' = (enforce_expiry world).1 in
    ((torn : ℕ) × ((enforce_expiry world).0 ≡ ok (length (due world), torn)))
    × (w'.db.subscriptions ≡ expired 1000 (map sub_id (due world)) tables.subscriptions)
    × (w'.db.clients ≡ suspended (map sub_client (due world)) tables.clients)
    × (due w' ≡ [])
    × (tables ≡ tables → w'.durable ≡ w'.db)
enforce_expiry_lem_example = enforce_expiry_lem world

-- A subscription that has expired: its end is moved, and this is not committed.
abbrev ended : World ℕ
ended = record world {
  db = record tables {
    subscriptions = record (subscription 50 1 900) { status = SubscriptionStatus.expired } ∷ [];
  };
  durable = record tables {
    subscriptions = record (subscription 50 1 900) { status = SubscriptionStatus.expired } ∷ [];
  };
}

end_not_committed :
    ((expire_now 50 ended).0
      ≡ ok (record (subscription 50 1 1000) { status = SubscriptionStatus.expired }))
    × ((expire_now 50 ended).1.durable.subscriptions ≡ ended.durable.subscriptions)
unfolding expire_now get_subscription
end_not_committed = (refl, refl)
