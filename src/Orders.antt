-- ===== src/Orders.antt =====
-- orders/service.py: the placement of an order and its cancellation. `meanwhile` is what other
-- processes commit between the first look for an order and its insertion.
pub mod Stable
pub mod Permits
pub mod Cancel
pub mod Unique
pub mod Replay
use broker_bridge.Base.{
  ℕ, ◌+◌, ◌-◌, String, Bool, true, false, not, ◌&&◌, Option, none, some, [], ◌∷◌, ◌++◌, text_eq,
  ltb, ◌==◌, if◌then◌else◌, is_text, upper, lower, first_row, Real,
}
use broker_bridge.Models.{OrderStatus, BrokerOrderId, Order, Scalar}
use broker_bridge.World.{
  Failure, Result, app, queue_full, unsupported_mode, order_not_cancelable, mock_broker_error,
  integrity_error, ok, raised, Db, World, Settings, Action, pure, or_raise, finally, ◌>>=◌, ◌>>◌,
  update_db, raise_if, commit, rollback, fresh_id,
}
use broker_bridge.Config.{get_value, text_or}
use broker_bridge.Broker.{cancel_order}
use broker_bridge.Events.{enqueue_outbox}
use broker_bridge.Routing.{Query, select_or_raise}
use broker_bridge.Subscriptions.{assert_trading_allowed}
use broker_bridge.Submission.{get_order, update_order, submit_inline}

-- The arguments of `place`.
pub record PlaceRequest : Type 0 where
  pub client_id : ℕ
  pub client_order_id : String
  pub side : String
  pub symbol : String
  pub quantity : ℕ
  pub order_type : String
  pub time_in_force : String
  pub preferred_broker_id : Option ℕ
  pub region_preference : Option String

-- The order that has the client's identifier.
abbrev pub is_order_of : ℕ → String → Order → Bool
is_order_of client id o = o.client_id == client && text_eq o.client_order_id id

abbrev pub new_order : ℕ → PlaceRequest → Order
new_order id req = record {
  id = id;
  client_id = req.client_id;
  client_order_id = req.client_order_id;
  side = upper req.side;
  symbol = upper req.symbol;
  quantity = req.quantity;
  order_type = upper req.order_type;
  time_in_force = upper req.time_in_force;
  status = OrderStatus.created;
  broker_account_id = none;
  static_ip_id = none;
  preferred_broker_id = req.preferred_broker_id;
  region_preference = req.region_preference;
  error_code = none;
  broker_order_id = none;
}

abbrev pub query_of : PlaceRequest → Query
query_of req = record {
  client_id = req.client_id;
  preferred_broker_id = req.preferred_broker_id;
  region_preference = req.region_preference;
  consume_rate_limit = false;
}

-- `order.status not in {"SUBMITTED", "SUBMITTING", "CREATED"}`, which the first test implies
abbrev pub is_cancelable : OrderStatus → Bool
is_cancelable OrderStatus.created = true
is_cancelable OrderStatus.submitting = true
is_cancelable OrderStatus.submitted = true
is_cancelable _ = false

-- `order.broker_order_id`, an empty text counting as none
abbrev pub broker_id_of : Order → Option BrokerOrderId
broker_id_of o = elim o.broker_order_id [
  | none ↦ none
  | some (BrokerOrderId.mock n) ↦ some (BrokerOrderId.mock n)
  | some (BrokerOrderId.foreign s) ↦ if is_text s then some (BrokerOrderId.foreign s) else none
]

-- The broker's refusal is reported as a conflict; other failures would pass.
abbrev pub as_conflict : Failure → Failure
as_conflict (mock_broker_error f) = app order_not_cancelable 409
as_conflict e = e

module _ {F : Type 0} where
  abbrev pub find_client_order : PlaceRequest → Db F → Option Order
  find_client_order req db = first_row (is_order_of req.client_id req.client_order_id) db.orders

  -- `reset` of the inflight counter, and `sem.release()`
  abbrev pub leave : World F → World F
  leave w = record w { inflight = w.inflight - 1; permits = w.permits + 1 }

  abbrev pub enter : World F → World F
  enter w = record w { inflight = w.inflight + 1; permits = w.permits - 1 }

module _ {F : Type 0} ⦃r : Real F⦄ (settings : Settings F) where
  -- `_execution_mode`
  abbrev pub execution_mode : Db F → String
  execution_mode db = lower (
      text_or (get_value "orders.execution_mode" (("mode", Scalar.text "inline") ∷ []) db) "mode"
        "inline")

  -- The order is inserted and committed, unless another process was first: then the commit fails, and
  -- the other's order is read. The mark says whether the order is new.
  unfoldable pub insert_order : (Db F → Db F) → PlaceRequest → Action F (Order × Bool)
  insert_order meanwhile req w =
      let w1 : World F = record w { db = meanwhile w.db; durable = meanwhile w.durable } in
      elim (find_client_order req w1.db) [
        | some o ↦
            (do
              rollback
              prior ← λ v. or_raise (find_client_order req v.db) integrity_error v
              pure (prior, false))
              w1
        | none ↦
            (do
              id ← fresh_id
              update_db (λ db. record db { orders = db.orders ++ new_order id req ∷ [] })
              commit
              pure (new_order id req, true))
              w1
      ]

  -- `await self.db.refresh(order)`
  abbrev pub read_back : ℕ → Action F (Order × Bool)
  read_back id = do o ← get_order id; pure (o, true)

  -- A new order is routed and submitted; one that was there is returned as it is.
  unfoldable pub route_order : PlaceRequest → Order × Bool → Action F (Order × Bool)
  route_order req (o, false) = pure (o, false)
  route_order req (o, true) = do
    decision ← select_or_raise settings (query_of req)
    submit_inline settings o.id decision.chain
    read_back o.id

  abbrev pub run_engine : (Db F → Db F) → PlaceRequest → Action F (Order × Bool)
  run_engine meanwhile req = do found ← insert_order meanwhile req; route_order req found

  -- What `place` does with an order that it has not seen.
  unfoldable pub place_new : (Db F → Db F) → PlaceRequest → Action F (Order × Bool)
  place_new meanwhile req w =
      if text_eq (execution_mode w.db) "inline"
      then if ltb 0 w.permits
        then finally (run_engine meanwhile req) leave (enter w)
        else (raised (app queue_full 503), w)
      else (raised (app unsupported_mode 501), w)

  abbrev pub place_unless_known : (Db F → Db F) → PlaceRequest → Action F (Order × Bool)
  place_unless_known meanwhile req w = elim (find_client_order req w.db) [
    | some o ↦ (ok (o, false), w)
    | none ↦ place_new meanwhile req w
  ]

  unfoldable pub place : (Db F → Db F) → PlaceRequest → Action F (Order × Bool)
  place meanwhile req = do assert_trading_allowed req.client_id; place_unless_known meanwhile req

module _ {F : Type 0} where
  abbrev pub mark_cancelled : ℕ → Action F Order
  mark_cancelled id = do
    update_order id (λ o. record o { status = OrderStatus.cancelled })
    enqueue_outbox "order.cancelled" "orders" id
    commit
    get_order id

  abbrev pub after_cancel : ℕ → Result (Unit {0}) × World F → Result Order × World F
  after_cancel id (ok _, w) = mark_cancelled id w
  after_cancel id (raised e, w) = (raised (as_conflict e), w)

  -- An order that never reached a broker is cancelled without one.
  abbrev pub tell_broker : ℕ → Option BrokerOrderId → Action F Order
  tell_broker id none w = mark_cancelled id w
  tell_broker id (some b) w = after_cancel id (cancel_order b w)

  unfoldable pub cancel : ℕ → Action F Order
  cancel id = do
    o ← get_order id
    raise_if (not (is_cancelable o.status)) (app order_not_cancelable 409)
    tell_broker id (broker_id_of o)
