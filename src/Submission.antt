-- ===== src/Submission.antt =====
-- orders/service.py, `_submit_inline`: the loop over the failover chain. The payload that a broker is
-- sent, and its digest, are left out: the mock broker reads neither.
pub mod Stable
pub mod Ends
pub mod Attempt
pub mod Outcome
pub mod Trail
use broker_bridge.Base.{
  ℕ, suc, String, false, Option, none, some, List, [], ◌∷◌, ◌++◌, text_eq, ◌==◌, if◌then◌else◌,
  is_text, first_row, update_rows, Real,
}
use broker_bridge.Models.{OrderStatus, BrokerOrderId, Order, AttemptStatus, OrderAttempt}
use broker_bridge.World.{
  Failure, app, not_found, rate_limited, failover_exhausted, provider, mock_broker_error, ok,
  raised, Db, Settings, Action, pure, raise, raise_app, or_raise, ◌>>=◌, ◌>>◌, update_db, commit,
  fresh_id,
}
use broker_bridge.RateLimit.{limit_of, exceed_policy, consume_broker}
use broker_bridge.Sim.{apply_faults_to_providers}
use broker_bridge.Broker.{place_order}
use broker_bridge.Events.{enqueue_outbox}
use broker_bridge.Routing.{RouteCandidate}
use broker_bridge.Sessions.{ensure}

abbrev pub text_or_none : Option String → String → String
text_or_none none default = default
text_or_none (some s) default = if is_text s then s else default

module _ {F : Type 0} where
  abbrev pub find_order : ℕ → Db F → Option Order
  find_order id db = first_row (λ (o : Order). o.id == id) db.orders

  -- `get`
  unfoldable pub get_order : ℕ → Action F Order
  get_order id w = or_raise (find_order id w.db) (app not_found 404) w

  abbrev pub update_order : ℕ → (Order → Order) → Action F (Unit {0})
  update_order id f =
      update_db (λ db. record db { orders = update_rows (λ (o : Order). o.id == id) f db.orders })

  abbrev pub update_attempt : ℕ → (OrderAttempt → OrderAttempt) → Action F (Unit {0})
  update_attempt id f =
      update_db (λ db. record db {
        attempts = update_rows (λ (a : OrderAttempt). a.id == id) f db.attempts;
      })

  -- The order fails with a code, which is committed.
  abbrev pub fail_order : ℕ → String → Action F (Unit {0})
  fail_order id code = do
    update_order id (λ o. record o { status = OrderStatus.failed; error_code = some code })
    commit

  -- A failover to the next candidate, if there is one, is recorded and committed.
  unfoldable pub note_failover :
      ℕ → String → RouteCandidate F → List (RouteCandidate F) → Action F (Unit {0})
  note_failover order reason from [] = pure tt
  note_failover order reason from (next ∷ rest) = do
    id ← fresh_id
    update_db (λ db. record db {
      failovers =
          db.failovers
          ++ record {
            id = id;
            order_id = order;
            from_broker_id = from.broker.id;
            to_broker_id = next.broker.id;
            reason = reason;
          }
            ∷ [];
    })
    commit

  -- The attempt is on record, and the order at its broker, before the broker is called.
  unfoldable pub start_attempt : ℕ → ℕ → RouteCandidate F → Action F ℕ
  start_attempt order number c = do
    id ← fresh_id
    update_db (λ db. record db {
      attempts =
          db.attempts
          ++ record {
            id = id;
            order_id = order;
            attempt_no = number;
            broker_account_id = c.broker.id;
            static_ip_id = c.static_ip_id;
            status = AttemptStatus.submitting;
            broker_order_id = none;
          }
            ∷ [];
    })
    update_order order (λ o. record o {
      status = OrderStatus.submitting;
      broker_account_id = some c.broker.id;
      static_ip_id = c.static_ip_id;
    })
    commit
    pure id

  unfoldable pub settle_success : ℕ → ℕ → BrokerOrderId → Action F (Unit {0})
  settle_success order attempt id = do
    update_attempt attempt
        (λ a. record a { status = AttemptStatus.submitted; broker_order_id = some id })
    update_order order (λ o. record o {
      status = OrderStatus.submitted;
      broker_order_id = some id;
      error_code = none;
    })
    enqueue_outbox "order.submitted" "orders" order
    commit

  abbrev pub settle_failure : ℕ → Action F (Unit {0})
  settle_failure attempt = do
    update_attempt attempt (λ a. record a { status = AttemptStatus.failed })
    commit

  -- What follows a failed attempt, with the code of the failure; `next` goes on to the rest.
  unfoldable pub after_failure :
      ℕ
      → RouteCandidate F
      → List (RouteCandidate F)
      → (String → Action F (Unit {0}))
      → Failure
      → Action F (Unit {0})
  after_failure order c rest next (mock_broker_error fault) =
      if fault.retryable
      then (do note_failover order fault.code c rest; next fault.code)
      else (do fail_order order fault.code; raise (app (provider fault.code) 400))
  after_failure order c rest next _ = do
    note_failover order "BROKER_ERROR" c rest
    next "BROKER_ERROR"

  -- `try: … place_order … except …`
  unfoldable pub call_broker :
      ℕ
      → ℕ
      → RouteCandidate F
      → List (RouteCandidate F)
      → (String → Action F (Unit {0}))
      → Action F (Unit {0})
  call_broker order attempt c rest next w =
      let (answer, w') = place_order w in
      elim answer [
        | ok id ↦ settle_success order attempt id w'
        | raised e ↦ (do settle_failure attempt; after_failure order c rest next e) w'
      ]

module _ {F : Type 0} ⦃r : Real F⦄ (settings : Settings F) where
  -- The limiter refused the candidate.
  unfoldable pub refused_by_limiter :
      ℕ
      → RouteCandidate F
      → List (RouteCandidate F)
      → (String → Action F (Unit {0}))
      → Action F (Unit {0})
  refused_by_limiter order c rest next w =
      if text_eq (exceed_policy w) "REJECT"
      then (do fail_order order "RATE_LIMITED"; raise_app rate_limited 429) w
      else (do note_failover order "RATE_LIMITED" c rest; next "RATE_LIMITED") w

  -- The limiter let the candidate through.
  unfoldable pub attempt_candidate :
      ℕ
      → ℕ
      → RouteCandidate F
      → List (RouteCandidate F)
      → (String → Action F (Unit {0}))
      → Action F (Unit {0})
  attempt_candidate order number c rest next = do
    s ← ensure settings false c.broker.id
    attempt ← start_attempt order number c
    call_broker order attempt c rest next

  unfoldable pub try_candidate :
      ℕ
      → ℕ
      → RouteCandidate F
      → List (RouteCandidate F)
      → (String → Action F (Unit {0}))
      → Action F (Unit {0})
  try_candidate order number c rest next = do
    rl ← consume_broker c.broker.id (some (limit_of c.broker))
    λ w.
        if rl.allowed
        then attempt_candidate order number c rest next w
        else refused_by_limiter order c rest next w

  -- The loop of `_submit_inline`, from attempt `number` on, with the code of the last failure.
  unfoldable pub submit_chain :
      ℕ → ℕ → Option String → List (RouteCandidate F) → Action F (Unit {0})
  submit_chain order number last [] = do
    fail_order order (text_or_none last "FAILOVER_EXHAUSTED")
    raise_app failover_exhausted 502
  submit_chain order number last (c ∷ rest) =
      try_candidate order number c rest (λ code. submit_chain order (suc number) (some code) rest)

  -- `_submit_inline`
  unfoldable pub submit_inline : ℕ → List (RouteCandidate F) → Action F (Unit {0})
  submit_inline order chain = do apply_faults_to_providers; submit_chain order 1 none chain
