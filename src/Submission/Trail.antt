-- ===== src/Submission/Trail.antt =====
-- orders/service.py, `_submit_inline`: the failovers that a submission leaves behind.
use broker_bridge.Base.{
  ℕ, suc, String, ◌≡◌, refl, sym, ap, ◌∙◌, inl, inr, false, Option, none, some, List, [], ◌∷◌, ◌++◌,
  append-nil, append_assoc, text_eq, ltb, Bool-cases, Option-cases, Real,
}
use broker_bridge.Models.{FailoverEvent}
use broker_bridge.Events.{enqueue_outbox}
use broker_bridge.World.{
  Failure, Result-cases, app_error, mock_broker_error, infra_error, integrity_error, key_error,
  exception, World, Settings, Action, ◌>>◌,
}
use broker_bridge.Routing.{RouteCandidate}
use broker_bridge.Sessions.{ensure}
use broker_bridge.Submission.{
  note_failover, start_attempt, settle_success, settle_failure, after_failure, call_broker,
  refused_by_limiter, attempt_candidate, try_candidate, submit_chain, submit_inline,
}
use broker_bridge.RateLimit.{consume, limit_of, exceed_policy, limit_or_broker, consume_broker}
use broker_bridge.Sim.{apply_faults_to_providers}
use broker_bridge.Broker.{active_fault, place_order}
use broker_bridge.Sessions.Lock.{ensure-Touched}

-- Each of the failovers goes from a candidate of the chain to the one after it, from the first on.
abbrev pub Linked : {F : Type 0} → ℕ → List (RouteCandidate F) → List FailoverEvent → Type 0
Linked order chain [] = Unit
Linked order [] (e ∷ l) = ⊥
Linked order (c ∷ []) (e ∷ l) = ⊥
Linked order (c ∷ d ∷ rest) (e ∷ l) =
    (e.order_id ≡ order)
    × (e.from_broker_id ≡ c.broker.id)
    × (e.to_broker_id ≡ d.broker.id)
    × Linked order (d ∷ rest) l

Linked-nil :
    {F : Type 0} (order : ℕ) (c : RouteCandidate F) (l : List FailoverEvent)
    → Linked {F = F} order [] l
    → Linked order (c ∷ []) l
Linked-nil order c [] h = tt
Linked-nil order c (e ∷ l) h = h

module _ {F : Type 0} (order : ℕ) where
  -- The failovers are those there were, then linked ones along the chain.
  abbrev pub Trail : List (RouteCandidate F) → List FailoverEvent → World F → Type 0
  Trail chain before w =
      (l : List FailoverEvent) × (w.db.failovers ≡ before ++ l) × Linked order chain l

  Trail-nil : (chain : List (RouteCandidate F)) (w : World F) → Trail chain w.db.failovers w
  Trail-nil chain w = ([], sym (append-nil w.db.failovers), tt)

module _ {F : Type 0} ⦃r : Real F⦄ (settings : Settings F) (order : ℕ) where
  module _ (c : RouteCandidate F) (rest : List (RouteCandidate F))
      (next : String → Action F (Unit {0}))
      (k : (code : String) (w : World F) → Trail order rest w.db.failovers (next code w).1) where
    then_next :
        (reason : String) (w : World F)
        → Trail order
            (c ∷ rest)
            w.db.failovers
            ((note_failover order reason c rest >> next reason) w).1
    unfolding note_failover
    then_next reason w = by_rest rest k
      where
        by_rest :
            (l : List (RouteCandidate F))
            → ((code : String) (v : World F) → Trail order l v.db.failovers (next code v).1)
            → Trail order
                (c ∷ l)
                w.db.failovers
                ((note_failover order reason c l >> next reason) w).1
        by_rest [] t = let (l, e, linked) = t reason w in (l, e, Linked-nil order c l linked)
        by_rest (d ∷ l) t =
            let v = (note_failover order reason c (d ∷ l) w).1 in
            let (m, e, linked) = t reason v in
            let event : FailoverEvent = record {
              id = w.next_id;
              order_id = order;
              from_broker_id = c.broker.id;
              to_broker_id = d.broker.id;
              reason = reason;
            } in
            (event ∷ m, e ∙ append_assoc w.db.failovers (event ∷ []) m, (refl, refl, refl, linked))

    after_failure-Trail :
        (e : Failure) (w : World F)
        → Trail order (c ∷ rest) w.db.failovers (after_failure order c rest next e w).1
    unfolding after_failure
    after_failure-Trail (mock_broker_error f) w = elim (Bool-cases f.retryable) [
      | inl again ↦ rw again (then_next f.code w)
      | inr final ↦ rw final (Trail-nil order (c ∷ rest) w)
    ]
    after_failure-Trail (app_error e) w = then_next "BROKER_ERROR" w
    after_failure-Trail (infra_error s n) w = then_next "BROKER_ERROR" w
    after_failure-Trail integrity_error w = then_next "BROKER_ERROR" w
    after_failure-Trail key_error w = then_next "BROKER_ERROR" w
    after_failure-Trail (exception s) w = then_next "BROKER_ERROR" w

    place_order-failovers : (w : World F) → (place_order w).1.db.failovers ≡ w.db.failovers
    unfolding place_order
    place_order-failovers w = elim (Option-cases (active_fault w.faults w.broker)) [
      | inr (f, found) ↦ rw (found, place_order) refl
      | inl none' ↦ elim (Bool-cases (ltb 0 w.broker.fail_remaining)) [
        | inl some' ↦ rw (none', place_order, some') refl
        | inr zero' ↦ rw (none', place_order, zero') refl
      ]
    ]

    call_broker-Trail :
        (attempt : ℕ) (w : World F)
        → Trail order (c ∷ rest) w.db.failovers (call_broker order attempt c rest next w).1
    unfolding call_broker settle_success enqueue_outbox
    call_broker-Trail attempt w = elim (Result-cases (place_order w).0) [
      | inl (id, e) ↦
          rw (e, call_broker) ([], place_order-failovers w ∙ sym (append-nil w.db.failovers), tt)
      | inr (x, e) ↦
          let (l, same, linked) =
            after_failure-Trail x (settle_failure attempt (place_order w).1).1 in
          rw (e, call_broker) (l, same ∙ ap (λ f. f ++ l) (place_order-failovers w), linked)
    ]

    refused_by_limiter-Trail :
        (w : World F)
        → Trail order (c ∷ rest) w.db.failovers (refused_by_limiter settings order c rest next w).1
    unfolding refused_by_limiter
    refused_by_limiter-Trail w = elim (Bool-cases (text_eq (exceed_policy w) "REJECT")) [
      | inl hit ↦ rw (hit, refused_by_limiter) (Trail-nil order (c ∷ rest) w)
      | inr miss ↦ rw (miss, refused_by_limiter) (then_next "RATE_LIMITED" w)
    ]

    attempt_candidate-Trail :
        (number : ℕ) (w : World F)
        → Trail order
            (c ∷ rest)
            w.db.failovers
            (attempt_candidate settings order number c rest next w).1
    unfolding attempt_candidate start_attempt
    attempt_candidate-Trail number w =
        let (s, d, n, l, touched) = ensure-Touched settings false c.broker.id w in
        elim (Result-cases (ensure settings false c.broker.id w).0) [
          | inr (e, failed) ↦
              rw (failed, attempt_candidate) (rw touched (Trail-nil order (c ∷ rest) w))
          | inl (s', had) ↦
              let v = (ensure settings false c.broker.id w).1 in
              let (m, same, linked) =
                call_broker-Trail v.next_id (start_attempt order number c v).1 in
              rw (had, attempt_candidate)
                (m, same ∙ ap (λ (u : World F). u.db.failovers ++ m) touched, linked)
        ]

    pub try_candidate-Trail :
        (number : ℕ) (w : World F)
        → Trail order
            (c ∷ rest)
            w.db.failovers
            (try_candidate settings order number c rest next w).1
    unfolding try_candidate consume_broker limit_or_broker
    try_candidate-Trail number w =
        let (rl, hits) = consume c.broker.id (limit_of c.broker) w.now w.hits in
        let v : World F = record w { hits = hits } in
        elim (Bool-cases rl.allowed) [
          | inl hit ↦ rw (hit, try_candidate) (attempt_candidate-Trail number v)
          | inr miss ↦ rw (miss, try_candidate) (refused_by_limiter-Trail v)
        ]

  submit_chain-Trail :
      (number : ℕ) (last : Option String) (chain : List (RouteCandidate F)) (w : World F)
      → Trail order chain w.db.failovers (submit_chain settings order number last chain w).1
  unfolding submit_chain
  submit_chain-Trail number last [] w = Trail-nil order [] w
  submit_chain-Trail number last (c ∷ rest) w =
      try_candidate-Trail c rest (λ code. submit_chain settings order (suc number) (some code) rest)
        (λ code v. submit_chain-Trail (suc number) (some code) rest v) number w

  -- Whatever the end of a submission, it has added failovers only, all of its order: they go along
  -- the chain from its first candidate on, each from a candidate to the next.
  pub submit_inline-Trail :
      (chain : List (RouteCandidate F)) (w : World F)
      → Trail order chain w.db.failovers (submit_inline settings order chain w).1
  unfolding submit_inline apply_faults_to_providers
  submit_inline-Trail chain w = submit_chain-Trail 1 none chain (apply_faults_to_providers w).1
