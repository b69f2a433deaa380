-- ===== src/Submission/Stable.antt =====
-- What a submission keeps: any property of the permits, the count of orders in flight, and the keys of
-- the orders.
use broker_bridge.Base.{
  ℕ, suc, String, ◌≡◌, refl, inl, inr, Bool, false, Option, none, some, List, [], ◌∷◌, text_eq, ltb,
  ◌==◌, Bool-cases, Option-cases, update_rows, Real,
}
use broker_bridge.World.{
  Failure, Result-cases, app_error, mock_broker_error, infra_error, integrity_error, key_error,
  exception, World, Settings, Action, ◌>>=◌, ◌>>◌, bind_state,
}
use broker_bridge.Broker.{active_fault, place_order}
use broker_bridge.Routing.{RouteCandidate}
use broker_bridge.Sessions.{ensure}
use broker_bridge.Submission.{
  text_or_none, fail_order, note_failover, start_attempt, settle_success, settle_failure,
  after_failure, call_broker, refused_by_limiter, attempt_candidate, try_candidate, submit_chain,
  submit_inline,
}
use broker_bridge.Events.{enqueue_outbox}
use broker_bridge.Sessions.Lock.{ensure-Touched}
use broker_bridge.RateLimit.{consume, limit_of, exceed_policy, limit_or_broker, consume_broker}
use broker_bridge.Sim.{apply_faults_to_providers}
use broker_bridge.Models.{OrderStatus, BrokerOrderId, Order}

-- A change of an order that leaves its keys.
abbrev pub IsRevision : (Order → Order) → Type 0
IsRevision f =
    (o : Order)
    → ((f o).id ≡ o.id)
      × ((f o).client_id ≡ o.client_id)
      × ((f o).client_order_id ≡ o.client_order_id)

-- The permits and the orders in flight are as many in both states.
abbrev pub SameLoad : {F : Type 0} → World F → World F → Type 0
SameLoad w w' = (w'.permits ≡ w.permits) × (w'.inflight ≡ w.inflight)

-- The property reads the permits, the count in flight and the orders only, and a revision of an order
-- keeps it.
pub record IsStable {F : Type 0} (P : World F → Type 0) : Type 0 where
  pub revised :
      (id : ℕ) (f : Order → Order)
      → IsRevision f
      → (w w' : World F) → w'.db.orders ≡ update_rows (λ (o : Order). o.id == id) f w.db.orders
      → SameLoad w w'
      → P w
      → P w'
  pub untouched : (w w' : World F) → w'.db.orders ≡ w.db.orders → SameLoad w w' → P w → P w'

module _ {F : Type 0} (P : World F → Type 0) (st : IsStable P) where
  -- The action keeps the property.
  abbrev pub Keeps : {A : Type 0} → Action F A → Type 0
  Keeps m = (w : World F) → P w → P (m w).1

  fail_order-Keeps : (order : ℕ) (code : String) → Keeps (fail_order order code)
  fail_order-Keeps order code w h =
      st.revised order (λ o. record o { status = OrderStatus.failed; error_code = some code })
        (λ o. (refl, refl, refl)) w _ refl (refl, refl) h

  pub bind-Keeps :
      {A B : Type 0} (m : Action F A) (f : A → Action F B)
      → Keeps m
      → ((a : A) → Keeps (f a))
      → Keeps (m >>= f)
  bind-Keeps m f keeps then w h = bind_state P m f w (keeps w h) (λ a e. then a (m w).1 (keeps w h))

  note_failover-Keeps :
      (order : ℕ) (reason : String) (c : RouteCandidate F) (rest : List (RouteCandidate F))
      → Keeps (note_failover order reason c rest)
  unfolding note_failover
  note_failover-Keeps order reason c [] w h = h
  note_failover-Keeps order reason c (x ∷ rest) w h = st.untouched w _ refl (refl, refl) h

  place_order-Keeps : Keeps (place_order {F = F})
  unfolding place_order
  place_order-Keeps w h = elim (Option-cases (active_fault w.faults w.broker)) [
    | inr (f, found) ↦ rw (found, place_order) h
    | inl none' ↦ elim (Bool-cases (ltb 0 w.broker.fail_remaining)) [
      | inl some' ↦ rw (none', place_order, some') (st.untouched w _ refl (refl, refl) h)
      | inr zero' ↦ rw (none', place_order, zero') (st.untouched w _ refl (refl, refl) h)
    ]
  ]

  ensure-Keeps : (settings : Settings F) (force : Bool) (id : ℕ) → Keeps (ensure settings force id)
  ensure-Keeps settings force id w h =
      let (s, d, n, l, e) = ensure-Touched settings force id w in
      rw e (st.untouched w _ refl (refl, refl) h)

  module _ (order : ℕ) (c : RouteCandidate F) (rest : List (RouteCandidate F))
      (next : String → Action F (Unit {0})) (k : (code : String) → Keeps (next code)) where
    then_next : (reason : String) → Keeps (note_failover order reason c rest >> next reason)
    then_next reason =
        bind-Keeps (note_failover order reason c rest) (λ _. next reason)
          (note_failover-Keeps order reason c rest) (λ _. k reason)

    after_failure-Keeps : (e : Failure) → Keeps (after_failure order c rest next e)
    unfolding after_failure
    after_failure-Keeps (mock_broker_error f) w h = elim (Bool-cases f.retryable) [
      | inl hit ↦ rw hit (then_next f.code w h)
      | inr miss ↦ rw miss (fail_order-Keeps order f.code w h)
    ]
    after_failure-Keeps (app_error e) w h = then_next "BROKER_ERROR" w h
    after_failure-Keeps (infra_error s n) w h = then_next "BROKER_ERROR" w h
    after_failure-Keeps integrity_error w h = then_next "BROKER_ERROR" w h
    after_failure-Keeps key_error w h = then_next "BROKER_ERROR" w h
    after_failure-Keeps (exception s) w h = then_next "BROKER_ERROR" w h

    settle_success-Keeps :
        (attempt : ℕ) (id : BrokerOrderId) → Keeps (settle_success order attempt id)
    unfolding settle_success enqueue_outbox
    settle_success-Keeps attempt id w h =
        st.revised order
          (λ o. record o {
            status = OrderStatus.submitted;
            broker_order_id = some id;
            error_code = none;
          })
          (λ o. (refl, refl, refl)) w _ refl (refl, refl) h

    start_attempt-Keeps : (number : ℕ) → Keeps (start_attempt order number c)
    unfolding start_attempt
    start_attempt-Keeps number w h =
        st.revised order
          (λ o. record o {
            status = OrderStatus.submitting;
            broker_account_id = some c.broker.id;
            static_ip_id = c.static_ip_id;
          })
          (λ o. (refl, refl, refl)) w _ refl (refl, refl) h

    call_broker-Keeps : (attempt : ℕ) → Keeps (call_broker order attempt c rest next)
    unfolding call_broker
    call_broker-Keeps attempt w h = elim (Result-cases (place_order w).0) [
      | inl (id, e) ↦
          rw (e, call_broker)
            (settle_success-Keeps attempt id (place_order w).1 (place_order-Keeps w h))
      | inr (x, e) ↦
          rw (e, call_broker)
            (bind-Keeps (settle_failure attempt) (λ _. after_failure order c rest next x)
              (λ v g. st.untouched v _ refl (refl, refl) g) (λ _. after_failure-Keeps x)
              (place_order w).1 (place_order-Keeps w h))
    ]

    module _ ⦃r : Real F⦄ (settings : Settings F) where
      refused_by_limiter-Keeps : Keeps (refused_by_limiter settings order c rest next)
      unfolding refused_by_limiter
      refused_by_limiter-Keeps w h = elim (Bool-cases (text_eq (exceed_policy w) "REJECT")) [
        | inl hit ↦ rw (hit, refused_by_limiter) (fail_order-Keeps order "RATE_LIMITED" w h)
        | inr miss ↦ rw (miss, refused_by_limiter) (then_next "RATE_LIMITED" w h)
      ]

      attempt_candidate-Keeps :
          (number : ℕ) → Keeps (attempt_candidate settings order number c rest next)
      unfolding attempt_candidate
      attempt_candidate-Keeps number =
          bind-Keeps (ensure settings false c.broker.id)
            (λ _. start_attempt order number c >>= λ a. call_broker order a c rest next)
            (ensure-Keeps settings false c.broker.id)
            (λ _.
              bind-Keeps (start_attempt order number c) (λ a. call_broker order a c rest next)
                (start_attempt-Keeps number) call_broker-Keeps)

      pub try_candidate-Keeps :
          (number : ℕ) → Keeps (try_candidate settings order number c rest next)
      unfolding try_candidate consume_broker limit_or_broker
      try_candidate-Keeps number w h =
          let (rl, hits) = consume c.broker.id (limit_of c.broker) w.now w.hits in
          let v : World F = record w { hits = hits } in
          elim (Bool-cases rl.allowed) [
            | inl hit ↦
                rw (hit, try_candidate)
                  (attempt_candidate-Keeps number v (st.untouched w v refl (refl, refl) h))
            | inr miss ↦
                rw (miss, try_candidate)
                  (refused_by_limiter-Keeps v (st.untouched w v refl (refl, refl) h))
          ]

  module _ ⦃r : Real F⦄ (settings : Settings F) where
    pub submit_chain-Keeps :
        (order number : ℕ) (last : Option String) (chain : List (RouteCandidate F))
        → Keeps (submit_chain settings order number last chain)
    unfolding submit_chain
    submit_chain-Keeps order number last [] w h =
        fail_order-Keeps order (text_or_none last "FAILOVER_EXHAUSTED") w h
    submit_chain-Keeps order number last (c ∷ rest) w h =
        try_candidate-Keeps order c rest
          (λ code. submit_chain settings order (suc number) (some code) rest)
          (λ code v g. submit_chain-Keeps order (suc number) (some code) rest v g) settings number w
          h

    pub submit_inline-Keeps :
        (order : ℕ) (chain : List (RouteCandidate F)) → Keeps (submit_inline settings order chain)
    unfolding submit_inline apply_faults_to_providers
    submit_inline-Keeps order chain w h =
        submit_chain-Keeps order 1 none chain (apply_faults_to_providers w).1
          (st.untouched w _ refl (refl, refl) h)
