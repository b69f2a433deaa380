-- ===== src/Submission/Ends.antt =====
-- orders/service.py, `_submit_inline`: what the ends of a submission are, and the two steps that
-- settle an order.
use broker_bridge.Base.{
  ℕ, suc, String, ◌≡◌, refl, ◌⊎◌, inl, true, false, none, some, List, [], ◌∷◌, arith, ◌==◌,
  first_row, update_rows, Real,
}
use broker_bridge.Models.{OrderStatus, BrokerOrderId, Order}
use broker_bridge.World.{
  Failure, Result, app, rate_limited, failover_exhausted, provider, ok, raised, World, Settings,
  Action,
}
use broker_bridge.Events.{enqueue_outbox}
use broker_bridge.Sessions.{ensure}
use broker_bridge.Submission.{find_order, fail_order, settle_success, try_candidate}
use broker_bridge.Routing.{RouteCandidate}
use broker_bridge.RateLimit.{RateSnapshot, limit_of, consume_broker}

pub find_order-updated :
    (id : ℕ) (f : Order → Order) (l : List Order) (o : Order)
    → ((x : Order) → (f x).id ≡ x.id)
    → first_row (λ (x : Order). x.id == id) l ≡ some o
    → first_row (λ (x : Order). x.id == id) (update_rows (λ (x : Order). x.id == id) f l)
      ≡ some (f o)
find_order-updated id f [] o same h = absurd (ground arith)
find_order-updated id f (x ∷ l) o same h = ground (arith, same x, find_order-updated id f l o same)

-- The errors that a submission reports for a failed order.
abbrev pub IsReport : Failure → Type 0
IsReport e =
    (e ≡ app failover_exhausted 502)
    ⊎ ((e ≡ app rate_limited 429) ⊎ ((code : String) × (e ≡ app (provider code) 400)))

module _ {F : Type 0} (order : ℕ) where
  -- The order is in its table.
  abbrev pub Has : World F → Type 0
  Has w = (o : Order) × (find_order order w.db ≡ some o)

  -- The order is submitted, with the identifier that the broker gave it, and this is committed.
  abbrev pub Submitted : World F → Type 0
  Submitted w =
      (o : Order) × (b : BrokerOrderId) × (find_order order w.db ≡ some o)
      × (o.status ≡ OrderStatus.submitted)
      × (o.broker_order_id ≡ some b)
      × (o.error_code ≡ none)
      × (w.durable ≡ w.db)

  -- The order has failed, with a code, and this is committed.
  abbrev pub Failed : World F → Type 0
  Failed w =
      (o : Order) × (code : String) × (find_order order w.db ≡ some o)
      × (o.status ≡ OrderStatus.failed)
      × (o.error_code ≡ some code)
      × (w.durable ≡ w.db)

  pub fail_order-Failed : (code : String) (w : World F) → Has w → Failed (fail_order order code w).1
  fail_order-Failed code w (o, h) = (
    record o { status = OrderStatus.failed; error_code = some code },
    code,
    find_order-updated order (λ x. record x { status = OrderStatus.failed; error_code = some code })
        w.db.orders o (λ x. refl) h,
    refl,
    refl,
    refl,
  )

module _ {F : Type 0} (order : ℕ) where
  -- The ends of an attempt at one broker that goes to no other.
  abbrev pub Settled : Result (Unit {0}) × World F → Type 0
  Settled (ok _, w) = Submitted order w
  Settled (raised e, w) = IsReport e × Failed order w

  pub settle_success-Settled :
      (attempt : ℕ) (b : BrokerOrderId) (w : World F)
      → Has order w
      → Settled (settle_success order attempt b w)
  unfolding settle_success enqueue_outbox
  settle_success-Settled attempt b w (o, h) = (
    record o { status = OrderStatus.submitted; broker_order_id = some b; error_code = none },
    b,
    find_order-updated order
        (λ x. record x {
          status = OrderStatus.submitted;
          broker_order_id = some b;
          error_code = none;
        })
        w.db.orders o (λ x. refl) h,
    refl,
    refl,
    refl,
    refl,
  )

module _ {F : Type 0} ⦃r : Real F⦄ (settings : Settings F) (order : ℕ) where
  -- A submission that goes from a state along a chain, with its attempts numbered from a number on, stops
  -- at a candidate of the chain that the limiter lets through, since `ensure` raises the error there and
  -- leaves this state: that is the head of the chain, or the attempt at the head goes on to the rest,
  -- whatever is done there, with a code and a state from which the submission stops so.
  pub data NoSession : ℕ → List (RouteCandidate F) → World F → Failure → World F → Type 0 where
    here :
        (number : ℕ) (c : RouteCandidate F) (rest : List (RouteCandidate F)) (w v w' : World F)
        (rl : RateSnapshot F) (e : Failure)
        → consume_broker c.broker.id (some (limit_of c.broker)) w ≡ (ok rl, v)
        → rl.allowed ≡ true
        → ensure settings false c.broker.id v ≡ (raised e, w')
        → NoSession number (c ∷ rest) w e w'
    later :
        (number : ℕ) (c : RouteCandidate F) (rest : List (RouteCandidate F)) (w u w' : World F)
        (code : String) (e : Failure)
        → ((next : String → Action F (Unit {0}))
            → try_candidate settings order number c rest next w ≡ next code u)
        → NoSession (suc number) rest u e w'
        → NoSession number (c ∷ rest) w e w'

  -- The ends that a submission from a state along a chain may have.
  abbrev pub Ends : ℕ → List (RouteCandidate F) → World F → Result (Unit {0}) × World F → Type 0
  Ends number chain w (ok _, w') = Submitted order w'
  Ends number chain w (raised e, w') =
      (IsReport e × Failed order w') ⊎ NoSession number chain w e w'

  pub Settled-Ends :
      (number : ℕ) (chain : List (RouteCandidate F)) (w : World F)
      (end : Result (Unit {0}) × World F)
      → Settled order end
      → Ends number chain w end
  Settled-Ends number chain w (ok x, w') h = h
  Settled-Ends number chain w (raised e, w') h = inl h
