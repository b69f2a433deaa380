-- ===== src/Submission/Outcome.antt =====
-- How a submission ends.
use mathlib.Core.Path.{subst, ap}
use broker_bridge.Base.{
  ℕ, suc, String, ◌≡◌, refl, sym, ◌⊎◌, inl, inr, false, Option, none, some, List, [], ◌∷◌, text_eq,
  Bool-cases, Real,
}
use broker_bridge.World.{
  Failure, Result, app, Result-cases, rate_limited, ok, raised, World, Settings, Action, raise,
  ◌>>◌,
}
use broker_bridge.Routing.{RouteCandidate}
use broker_bridge.Sessions.{ensure}
use broker_bridge.Submission.{
  text_or_none, fail_order, note_failover, start_attempt, call_broker, refused_by_limiter,
  attempt_candidate, try_candidate, submit_chain, submit_inline,
}
use broker_bridge.RateLimit.{consume, limit_of, exceed_policy, limit_or_broker, consume_broker}
use broker_bridge.Submission.Ends.{Has, fail_order-Failed, NoSession, Ends, Settled-Ends}
use broker_bridge.Sim.{apply_faults_to_providers}
use broker_bridge.Sessions.Lock.{ensure-Touched}
use broker_bridge.Submission.Attempt.{
  Goes, Goes-≡, start_attempt-Has, then_next, fails, call_broker-Goes,
}

module _ {F : Type 0} ⦃r : Real F⦄ (settings : Settings F) (order : ℕ) where
  module _ (c : RouteCandidate F) (rest : List (RouteCandidate F)) where
    refused_by_limiter-Goes :
        (w : World F)
        → Has order w
        → Goes order (λ next. refused_by_limiter settings order c rest next w)
    unfolding refused_by_limiter
    refused_by_limiter-Goes w h = elim (Bool-cases (text_eq (exceed_policy w) "REJECT")) [
      | inl hit ↦
          Goes-≡ order (λ next. refused_by_limiter settings order c rest next w)
            (λ next. (fail_order order "RATE_LIMITED" >> raise (app rate_limited 429)) w)
            (λ next. rw (hit, refused_by_limiter) refl)
            (fails order c rest "RATE_LIMITED" (app rate_limited 429) w h (inr (inl refl)))
      | inr miss ↦
          Goes-≡ order (λ next. refused_by_limiter settings order c rest next w)
            (λ next. (note_failover order "RATE_LIMITED" c rest >> next "RATE_LIMITED") w)
            (λ next. rw (miss, refused_by_limiter) refl)
            (then_next order c rest "RATE_LIMITED" rest w h)
    ]

    -- The session of the candidate could not be had.
    abbrev NoneHad :
        World F → ((String → Action F (Unit {0})) → Result (Unit {0}) × World F) → Type 0
    NoneHad v g =
        (e : Failure) × (w' : World F) × (ensure settings false c.broker.id v ≡ (raised e, w'))
        × ((next : String → Action F (Unit {0})) → g next ≡ (raised e, w'))

    attempt_candidate-Goes :
        (number : ℕ) (w : World F)
        → Has order w
        → Goes order (λ next. attempt_candidate settings order number c rest next w)
          ⊎ NoneHad w (λ next. attempt_candidate settings order number c rest next w)
    unfolding start_attempt attempt_candidate
    attempt_candidate-Goes number w h =
        let (s, d, n, l, touched) = ensure-Touched settings false c.broker.id w in
        let v = (ensure settings false c.broker.id w).1 in
        elim (Result-cases (ensure settings false c.broker.id w).0) [
          | inr (e, failed) ↦
              inr (e, v, ap (λ x. (x, v)) failed, λ next. rw (failed, attempt_candidate) refl)
          | inl (s', had) ↦ inl (
              Goes-≡ order (λ next. attempt_candidate settings order number c rest next w)
                (λ next. call_broker order v.next_id c rest next (start_attempt order number c v).1)
                (λ next. rw (had, attempt_candidate) refl)
                (call_broker-Goes order c rest v.next_id (start_attempt order number c v).1
                  (start_attempt-Has order c number v (rw touched h))))
        ]

    module _ (number : ℕ) (w : World F) where
      goes_on :
          (code : String) (u : World F)
          → ((next : String → Action F (Unit {0}))
              → try_candidate settings order number c rest next w ≡ next code u)
          → (end : Result (Unit {0}) × World F) → Ends settings order (suc number) rest u end
          → Ends settings order number (c ∷ rest) w end
      goes_on code u goes (ok x, w') h = h
      goes_on code u goes (raised e, w') (inl failed) = inl failed
      goes_on code u goes (raised e, w') (inr stops) =
          inr (NoSession.later number c rest w u w' code e goes stops)

      Goes-Ends :
          (next : String → Action F (Unit {0}))
          → ((code : String) (u : World F)
              → Has order u
              → Ends settings order (suc number) rest u (next code u))
          → Goes order (λ next. try_candidate settings order number c rest next w)
          → Ends settings order number
              (c ∷ rest)
              w
              (try_candidate settings order number c rest next w)
      Goes-Ends next k (inl (end, stops, settled)) =
          subst (Ends settings order number (c ∷ rest) w) (sym (stops next))
            (Settled-Ends settings order number (c ∷ rest) w end settled)
      Goes-Ends next k (inr (code, u, h, goes)) =
          subst (Ends settings order number (c ∷ rest) w) (sym (goes next))
            (goes_on code u goes (next code u) (k code u h))

      try_candidate-Ends :
          (next : String → Action F (Unit {0}))
          → Has order w
          → ((code : String) (u : World F)
              → Has order u
              → Ends settings order (suc number) rest u (next code u))
          → Ends settings order number
              (c ∷ rest)
              w
              (try_candidate settings order number c rest next w)
      unfolding try_candidate consume_broker limit_or_broker
      try_candidate-Ends next h k =
          let (rl, hits) = consume c.broker.id (limit_of c.broker) w.now w.hits in
          let v : World F = record w { hits = hits } in
          elim (Bool-cases rl.allowed) [
            | inr miss ↦ Goes-Ends next k (
                Goes-≡ order (λ next. try_candidate settings order number c rest next w)
                  (λ next. refused_by_limiter settings order c rest next v)
                  (λ next. rw (miss, try_candidate) refl) (refused_by_limiter-Goes v h))
            | inl hit ↦ elim (attempt_candidate-Goes number v h) [
              | inl goes ↦ Goes-Ends next k (
                  Goes-≡ order (λ next. try_candidate settings order number c rest next w)
                    (λ next. attempt_candidate settings order number c rest next v)
                    (λ next. rw (hit, try_candidate) refl) goes)
              | inr (e, w', none', stops) ↦
                  rw (hit, try_candidate)
                    (subst (Ends settings order number (c ∷ rest) w) (sym (stops next))
                      (inr (NoSession.here number c rest w v w' rl e refl hit none')))
            ]
          ]

  submit_chain-Ends :
      (number : ℕ) (last : Option String) (chain : List (RouteCandidate F)) (w : World F)
      → Has order w
      → Ends settings order number chain w (submit_chain settings order number last chain w)
  unfolding submit_chain
  submit_chain-Ends number last [] w h =
      inl (inl refl, fail_order-Failed order (text_or_none last "FAILOVER_EXHAUSTED") w h)
  submit_chain-Ends number last (c ∷ rest) w h =
      try_candidate-Ends c rest number w
        (λ code. submit_chain settings order (suc number) (some code) rest) h
        (λ code u g. submit_chain-Ends (suc number) (some code) rest u g)

  -- A submission of an order that is in its table, along any chain, has one of these ends: it returns,
  -- and the order is submitted with an identifier of the broker; it raises FAILOVER_EXHAUSTED (502),
  -- RATE_LIMITED (429) or the broker's own code (400), and the order has failed with a code; or it raises
  -- what `ensure` raised for a candidate of the chain, in the state that `ensure` left: the limiter let
  -- this candidate through, and the attempt at each one before it, made in the state that the one before
  -- left, or in that at the start with the faults applied, went on to the next. The first two are
  -- committed.
  pub submit_inline-Ends :
      (chain : List (RouteCandidate F)) (w : World F)
      → Has order w
      → Ends settings order 1 chain
          (apply_faults_to_providers w).1
          (submit_inline settings order chain w)
  unfolding submit_inline apply_faults_to_providers
  submit_inline-Ends chain w h = submit_chain-Ends 1 none chain (apply_faults_to_providers w).1 h
