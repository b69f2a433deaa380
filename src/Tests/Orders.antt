-- ===== src/Tests/Orders.antt =====
-- Orders and sessions at work: the brokers of client 1 take orders, and the next two calls fail.
use broker_bridge.Base.{
  ℕ, ◌≡◌, refl, ap, ◌≢◌, ◌⊎◌, true, false, ◌&&◌, Option, none, some, [], ◌∷◌, arith, whole_numbers,
}
use broker_bridge.Models.{ClientStatus, BrokerOrderId, Order, HealthStatus, SessionStatus}
use broker_bridge.World.{app, order_not_cancelable, ok, raised, Db, LockKey, World}
use broker_bridge.Locks.{holder, put, remove, acquire, release, acquire_lock, release_lock}
use broker_bridge.Broker.{cancel_order, authenticate}
use broker_bridge.Routing.{RouteCandidate}
use broker_bridge.Subscriptions.{client_trading_allowed, assert_trading_allowed}
use broker_bridge.Sessions.{session_of, ensure_locked, ensure}
use broker_bridge.Sessions.Ensure.{Unknown, Disabled, Contended}
use broker_bridge.Sessions.Lock.{Ended, Succeeded, ensure_lem}
use broker_bridge.Submission.{find_order, get_order, submit_inline}
use broker_bridge.Submission.Outcome.{submit_inline-Ends}
use broker_bridge.Submission.Ends.{Ends}
use broker_bridge.Submission.Trail.{Trail, submit_inline-Trail}
use broker_bridge.Orders.{PlaceRequest, is_cancelable, find_client_order, place, cancel}
use broker_bridge.Orders.Permits.{place-Keeps}
use broker_bridge.Orders.Unique.{IsUnique, place-Unique}
use broker_bridge.Orders.Cancel.{Cancels, Missing, Refused, lets_go, cancel_lem}
use broker_bridge.Tests.Fixtures.{broker, tables, world, settings, order}
use broker_bridge.Orders.Replay.{place_again}
use broker_bridge.Sim.{apply_faults_to_providers}

no_holder : holder (LockKey.session_lock 10) world.locks ≢ some 100
no_holder = unfold holder in ground arith

ensured :
    (ensure settings false 10 world).1.db.sessions
    ≡ session_of settings 10 (record {
      access_token = "mock-access-";
      refresh_token = "mock-refresh-";
      expires_at = 3600001000;
      token_status = SessionStatus.valid;
    })
      ∷ []
unfolding ensure ensure_locked acquire_lock acquire holder put release_lock release remove
    authenticate
ensured = refl

ensure_lem_example :
    (Unknown settings false 10 world
      ⊎ (Disabled settings false 10 world
          ⊎ (Contended settings false 10 world ⊎ Succeeded settings false 10 world)))
    × Ended settings false 10 world (ensure settings false 10 world)
ensure_lem_example = ensure_lem settings false 10 world no_holder

abbrev placed : Option BrokerOrderId → World ℕ
placed b = record world { db = record tables { orders = order 60 b ∷ [] } }

abbrev route : ℕ → RouteCandidate ℕ
route id = record {
  broker = broker id "ewr";
  static_ip_id = none;
  health_score = 90;
  health_status = HealthStatus.healthy;
  rate_pressure = 0;
  route_score = 90;
  reasons = [];
}

submit_inline-Ends_example :
    Ends settings 60 1
      (route 10 ∷ route 11 ∷ [])
      (apply_faults_to_providers (placed none)).1
      (submit_inline settings 60 (route 10 ∷ route 11 ∷ []) (placed none))
submit_inline-Ends_example =
    submit_inline-Ends settings 60 (route 10 ∷ route 11 ∷ []) (placed none) (order 60 none, refl)

submit_inline-Trail_example :
    Trail 60
      (route 10 ∷ route 11 ∷ [])
      []
      (submit_inline settings 60 (route 10 ∷ route 11 ∷ []) (placed none)).1
submit_inline-Trail_example =
    submit_inline-Trail settings 60 (route 10 ∷ route 11 ∷ []) (placed none)

abbrev request : PlaceRequest
request = record {
  client_id = 1;
  client_order_id = "a-1";
  side = "buy";
  symbol = "x";
  quantity = 5;
  order_type = "market";
  time_in_force = "day";
  preferred_broker_id = none;
  region_preference = none;
}

abbrev nothing_else : Db ℕ → Db ℕ
nothing_else db = db

place-Keeps_example :
    ((place settings nothing_else request world).1.permits ≡ 4)
    × ((place settings nothing_else request world).1.inflight ≡ 0)
place-Keeps_example = place-Keeps settings nothing_else request world

no_orders : IsUnique []
no_orders c s = omega arith

place-Unique_example : IsUnique (place settings nothing_else request world).1.db.orders
place-Unique_example =
    place-Unique settings nothing_else request (λ d h. h) world no_orders no_orders

-- Client 1 trades, and the order is on record.
abbrev before : World ℕ
before = record (placed none) {
  db = record tables {
    orders = order 60 none ∷ [];
    clients = record { id = 1; status = ClientStatus.active } ∷ [];
  };
}

known : place settings nothing_else request before ≡ (ok (order 60 none, false), before)
unfolding place assert_trading_allowed client_trading_allowed
known = refl

allowed : assert_trading_allowed 1 before ≡ (ok tt, before)
unfolding assert_trading_allowed client_trading_allowed
allowed = refl

returned : (place settings nothing_else request before).0 ≡ ok (order 60 none, false)
returned = ap (λ x. x.0) known

still_allowed :
    assert_trading_allowed 1 (place settings nothing_else request before).1
    ≡ (ok tt, (place settings nothing_else request before).1)
still_allowed = rw known allowed

place_again_example :
    (o : Order) × (find_client_order request (place settings nothing_else request before).1.db
      ≡ some o)
    × (place settings nothing_else request (place settings nothing_else request before).1
        ≡ (ok (o, false), (place settings nothing_else request before).1))
place_again_example =
    place_again settings nothing_else request before (order 60 none, false) nothing_else returned
      still_allowed

cancelled_60 :
    (cancel 60 (placed (some (BrokerOrderId.foreign "x")))).0
    ≡ raised (app order_not_cancelable 409)
unfolding cancel get_order cancel_order
cancelled_60 = refl

cancel_lem_example :
    Missing 60 (placed (some (BrokerOrderId.mock 7)))
    ⊎ ((o : Order) × (find_order 60 (placed (some (BrokerOrderId.mock 7))).db ≡ some o)
        × ((((is_cancelable o.status && lets_go 60 (placed (some (BrokerOrderId.mock 7))) o) ≡ true)
              × Cancels 60 o
                  (order 60 (some (BrokerOrderId.mock 7)) ∷ [])
                  (cancel 60 (placed (some (BrokerOrderId.mock 7)))))
            ⊎ (((is_cancelable o.status && lets_go 60 (placed (some (BrokerOrderId.mock 7))) o)
                  ≡ false)
                × Refused 60 (placed (some (BrokerOrderId.mock 7))))))
cancel_lem_example = cancel_lem 60 (placed (some (BrokerOrderId.mock 7)))
