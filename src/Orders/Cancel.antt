-- ===== src/Orders/Cancel.antt =====
-- What a cancellation does, on each of its branches.
use broker_bridge.Base.{
  ℕ, String, ◌≡◌, refl, ◌∙◌, ◌⊎◌, inl, inr, Bool, true, false, ◌&&◌, Option, none, some, List, [],
  ◌∷◌, arith, ◌==◌, Bool-cases, Option-cases, first_row, update_rows,
}
use broker_bridge.Models.{OrderStatus, BrokerOrderId, Order}
use broker_bridge.World.{
  Result, app, not_found, order_not_cancelable, mock_broker_error, ok, raised, World,
}
use broker_bridge.Broker.{set_order, has_order, cancel_order}
use broker_bridge.Submission.{find_order, get_order}
use broker_bridge.Orders.{is_cancelable, broker_id_of, mark_cancelled, tell_broker, cancel}
use broker_bridge.Events.{enqueue_outbox}

find_order-update :
    (id : ℕ) (f : Order → Order) (l : List Order)
    → ((o : Order) → (f o).id ≡ o.id)
    → first_row (λ (o : Order). o.id == id) (update_rows (λ (o : Order). o.id == id) f l)
      ≡ elim (first_row (λ (o : Order). o.id == id) l) [ none ↦ none | some o ↦ some (f o) ]
find_order-update id f [] same = refl
find_order-update id f (o ∷ l) same = ground (arith, same o, find_order-update id f l same)

abbrev to_cancelled : Order → Order
to_cancelled o = record o { status = OrderStatus.cancelled }

-- The order is cancelled, which is committed, and nothing else happened to the orders.
abbrev pub Cancels : {F : Type 0} → ℕ → Order → List Order → Result Order × World F → Type 0
Cancels id o rows (r, w') =
    (r ≡ ok (record o { status = OrderStatus.cancelled }))
    × (w'.durable ≡ w'.db)
    × (w'.db.orders
        ≡ update_rows (λ (x : Order). x.id == id) (λ x. record x { status = OrderStatus.cancelled })
            rows)

mark_cancelled-Cancels :
    {F : Type 0} (id : ℕ) (o : Order) (w : World F)
    → find_order id w.db ≡ some o
    → Cancels id o w.db.orders (mark_cancelled id w)
unfolding enqueue_outbox get_order
mark_cancelled-Cancels id o w found =
    let now = find_order-update id to_cancelled w.db.orders (λ x. refl) in
    (rw (now, found) refl, ground (arith, now, found), ground (arith, now, found))

module _ {F : Type 0} (id : ℕ) (w : World F) where
  -- The order is not there.
  abbrev pub Missing : Type 0
  Missing = (find_order id w.db ≡ none) × (cancel id w ≡ (raised (app not_found 404), w))

  -- Its status, or its broker, forbids the cancellation.
  abbrev pub Refused : Type 0
  Refused = cancel id w ≡ (raised (app order_not_cancelable 409), w)

  -- The broker lets the order go: there is no broker yet, or it minted the identifier, or has it on
  -- its books.
  abbrev pub lets_go : Order → Bool
  lets_go o = elim (broker_id_of o) [
    | none ↦ true
    | some (BrokerOrderId.mock n) ↦ true
    | some (BrokerOrderId.foreign s) ↦ has_order (BrokerOrderId.foreign s) w.broker.orders
  ]

  -- The state in which the broker has taken the cancellation.
  abbrev told : BrokerOrderId → World F
  told b = record w { broker = record w.broker { orders = set_order b false w.broker.orders } }

  cancel_order_mock :
      (n : ℕ) → cancel_order (BrokerOrderId.mock n) w ≡ (ok tt, told (BrokerOrderId.mock n))
  unfolding cancel_order
  cancel_order_mock n = refl

  cancel_order_known :
      (s : String)
      → has_order (BrokerOrderId.foreign s) w.broker.orders ≡ true
      → cancel_order (BrokerOrderId.foreign s) w ≡ (ok tt, told (BrokerOrderId.foreign s))
  unfolding cancel_order
  cancel_order_known s h = rw (h, cancel_order)

  cancel_order_unknown :
      (s : String)
      → has_order (BrokerOrderId.foreign s) w.broker.orders ≡ false
      → cancel_order (BrokerOrderId.foreign s) w ≡ (
        raised (
            mock_broker_error
              (record { code = "ORDER_NOT_FOUND"; status = 404; retryable = false })),
        w,
      )
  unfolding cancel_order
  cancel_order_unknown s h = rw (h, cancel_order)

  by_broker :
      (o : Order)
      → find_order id w.db ≡ some o
      → (b : Option BrokerOrderId) → broker_id_of o ≡ b
      → ((lets_go o ≡ true) × Cancels id o w.db.orders (tell_broker id b w))
        ⊎ ((lets_go o ≡ false) × (tell_broker id b w ≡ (raised (app order_not_cancelable 409), w)))
  by_broker o found none e = inl (ground arith, mark_cancelled-Cancels id o w found)
  by_broker o found (some (BrokerOrderId.mock n)) e = inl (
    ground arith,
    rw (cancel_order_mock n) (mark_cancelled-Cancels id o (told (BrokerOrderId.mock n)) found),
  )
  by_broker o found (some (BrokerOrderId.foreign s)) e =
      elim (Bool-cases (has_order (BrokerOrderId.foreign s) w.broker.orders)) [
        | inl known ↦ inl (
          ground arith,
          rw (cancel_order_known s known)
              (mark_cancelled-Cancels id o (told (BrokerOrderId.foreign s)) found),
        )
        | inr unknown ↦ inr (ground arith, rw (cancel_order_unknown s unknown))
      ]

  cancel_told :
      (o : Order)
      → find_order id w.db ≡ some o
      → is_cancelable o.status ≡ true
      → cancel id w ≡ tell_broker id (broker_id_of o) w
  unfolding cancel get_order
  cancel_told o found good = rw (found, cancel, good)

  -- An unknown order is reported as NOT_FOUND. An order is cancelled, and this is committed, if it is
  -- created, being submitted or submitted and its broker lets it go; the broker does unless the
  -- identifier is neither its own nor on its books. Otherwise ORDER_NOT_CANCELABLE is raised with
  -- status 409 and nothing changes.
  pub cancel_lem :
      Missing
      ⊎ ((o : Order) × (find_order id w.db ≡ some o)
          × ((((is_cancelable o.status && lets_go o) ≡ true)
                × Cancels id o w.db.orders (cancel id w))
              ⊎ (((is_cancelable o.status && lets_go o) ≡ false) × Refused)))
  unfolding cancel get_order
  cancel_lem = elim (Option-cases (find_order id w.db)) [
    | inl missing ↦ inl (missing, ground arith)
    | inr (o, found) ↦ inr (
      o,
      found,
      elim (Bool-cases (is_cancelable o.status)) [
        | inr bad ↦ inr (ground arith, ground arith)
        | inl good ↦ elim (by_broker o found (broker_id_of o) refl) [
          | inl (go, h) ↦ inl (ground arith, rw (cancel_told o found good) h)
          | inr (stay, h) ↦ inr (ground arith, cancel_told o found good ∙ h)
        ]
      ],
    )
  ]
