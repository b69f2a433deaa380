-- ===== src/Submission/Attempt.antt =====
-- orders/service.py: how the attempt at one broker ends, and when it goes on to the next.
use mathlib.Core.Path.{◌∙◌}
use broker_bridge.Base.{
  ℕ, String, ◌≡◌, refl, ◌⊎◌, inl, inr, some, List, [], ◌∷◌, ltb, Bool-cases, Option-cases,
}
use broker_bridge.Models.{OrderStatus}
use broker_bridge.World.{
  Failure, Result, app, Result-cases, provider, app_error, mock_broker_error, infra_error,
  integrity_error, key_error, exception, raised, World, Action, raise, ◌>>◌,
}
use broker_bridge.Routing.{RouteCandidate}
use broker_bridge.Submission.{
  fail_order, note_failover, start_attempt, settle_success, settle_failure, after_failure,
  call_broker,
}
use broker_bridge.Submission.Ends.{
  find_order-updated, IsReport, Has, fail_order-Failed, Settled, settle_success-Settled,
}
use broker_bridge.Broker.{active_fault, place_order}

module _ {F : Type 0} (order : ℕ) where
  -- An attempt ends, whatever would follow, and the order is settled; or it goes on with a code.
  abbrev pub Goes : ((String → Action F (Unit {0})) → Result (Unit {0}) × World F) → Type 0
  Goes g =
      ((end : Result (Unit {0}) × World F) × ((next : String → Action F (Unit {0})) → g next ≡ end)
        × Settled order end)
      ⊎ ((code : String) × (u : World F) × Has order u
          × ((next : String → Action F (Unit {0})) → g next ≡ next code u))

  pub Goes-≡ :
      (f g : (String → Action F (Unit {0})) → Result (Unit {0}) × World F)
      → ((next : String → Action F (Unit {0})) → f next ≡ g next)
      → Goes g
      → Goes f
  Goes-≡ f g same (inl (end, stops, settled)) = inl (end, λ next. same next ∙ stops next, settled)
  Goes-≡ f g same (inr (code, u, h, goes)) = inr (code, u, h, λ next. same next ∙ goes next)

  place_order-Has : (w : World F) → Has order w → Has order (place_order w).1
  unfolding place_order
  place_order-Has w h = elim (Option-cases (active_fault w.faults w.broker)) [
    | inr (f, found) ↦ rw (found, place_order) h
    | inl none' ↦ elim (Bool-cases (ltb 0 w.broker.fail_remaining)) [
      | inl some' ↦ rw (none', place_order, some') h
      | inr zero' ↦ rw (none', place_order, zero') h
    ]
  ]

  pub start_attempt-Has :
      (c : RouteCandidate F) (number : ℕ) (w : World F)
      → Has order w
      → Has order (start_attempt order number c w).1
  unfolding start_attempt
  start_attempt-Has c number w (o, h) = (
    record o {
      status = OrderStatus.submitting;
      broker_account_id = some c.broker.id;
      static_ip_id = c.static_ip_id;
    },
    find_order-updated order
        (λ x. record x {
          status = OrderStatus.submitting;
          broker_account_id = some c.broker.id;
          static_ip_id = c.static_ip_id;
        })
        w.db.orders o (λ x. refl) h,
  )

  module _ (c : RouteCandidate F) (rest : List (RouteCandidate F)) where
    pub then_next :
        (reason : String) (l : List (RouteCandidate F)) (w : World F)
        → Has order w
        → Goes (λ next. (note_failover order reason c l >> next reason) w)
    unfolding note_failover
    then_next reason [] w h = inr (reason, w, h, λ next. refl)
    then_next reason (x ∷ l) w h =
        inr (reason, (note_failover order reason c (x ∷ l) w).1, h, λ next. refl)

    pub fails :
        (code : String) (e : Failure) (w : World F)
        → Has order w
        → IsReport e
        → Goes (λ next. (fail_order order code >> raise e) w)
    fails code e w h report = inl (
      (raised e, (fail_order order code w).1),
      λ next. refl,
      (report, fail_order-Failed order code w h),
    )

    after_failure-Goes :
        (e : Failure) (w : World F)
        → Has order w
        → Goes (λ next. after_failure order c rest next e w)
    unfolding after_failure
    after_failure-Goes (mock_broker_error f) w h = elim (Bool-cases f.retryable) [
      | inl again ↦ rw again (then_next f.code rest w h)
      | inr final ↦
          rw final (fails f.code (app (provider f.code) 400) w h (inr (inr (f.code, refl))))
    ]
    after_failure-Goes (app_error e) w h = then_next "BROKER_ERROR" rest w h
    after_failure-Goes (infra_error s n) w h = then_next "BROKER_ERROR" rest w h
    after_failure-Goes integrity_error w h = then_next "BROKER_ERROR" rest w h
    after_failure-Goes key_error w h = then_next "BROKER_ERROR" rest w h
    after_failure-Goes (exception s) w h = then_next "BROKER_ERROR" rest w h

    pub call_broker-Goes :
        (attempt : ℕ) (w : World F)
        → Has order w
        → Goes (λ next. call_broker order attempt c rest next w)
    unfolding call_broker
    call_broker-Goes attempt w h = elim (Result-cases (place_order w).0) [
      | inl (id, e) ↦ inl (
        settle_success order attempt id (place_order w).1,
        λ next. rw (e, call_broker) refl,
        settle_success-Settled order attempt id (place_order w).1 (place_order-Has w h),
      )
      | inr (x, e) ↦
          Goes-≡ (λ next. call_broker order attempt c rest next w)
            (λ next. after_failure order c rest next x (settle_failure attempt (place_order w).1).1)
            (λ next. rw (e, call_broker) refl)
            (after_failure-Goes x (settle_failure attempt (place_order w).1).1
              (place_order-Has w h))
    ]
