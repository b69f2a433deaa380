-- ===== src/Replay/Recover.antt =====
-- How the recovery of an order ends.
use broker_bridge.Base.{
  ℕ, ◌≡◌, refl, ◌⊎◌, inl, inr, true, false, ◌&&◌, none, some, arith, ◌==◌, if◌then◌else◌,
  Bool-cases, Option-cases, is_some, any, first_row-holds, first_row-update, Real,
}
use broker_bridge.Models.{OrderStatus, BrokerOrderId, Order, OrderAttempt}
use broker_bridge.World.{
  Failure, Result, Result-cases, ok, raised, World, Settings, pure, ◌>>=◌, ◌>>◌, commit,
}
use broker_bridge.Routing.{RouteDecision, select_or_raise}
use broker_bridge.Submission.{find_order, update_order, submit_inline}
use broker_bridge.Submission.Stable.{IsStable, submit_inline-Keeps}
use broker_bridge.Replay.Newest.{IsAccepted, adopted-IsAccepted, adopted-is_some}
use broker_bridge.Replay.{
  is_settled, is_indoubt, accepted_id, RecoveryKind, kind_of, query_for, refresh_order, adopted,
  adopt_attempt, reopen, submit_again, resubmit, recover_one,
}
use broker_bridge.Submission.Ends.{
  find_order-updated, IsReport, Has, Submitted, Failed, NoSession, Ends,
}
use broker_bridge.Submission.Outcome.{submit_inline-Ends}
use broker_bridge.Sim.{apply_faults_to_providers}
use broker_bridge.Orders.Stable.{select_or_raise-Keeps}

module _ {F : Type 0} ⦃r : Real F⦄ (settings : Settings F) (id : ℕ) where
  -- The order has to be submitted again: it is not settled, and the broker took none of its attempts.
  abbrev pub IsPending : World F → Order → Type 0
  IsPending w o =
      (find_order id w.db ≡ some o) × (is_settled o.status ≡ false) × (adopted id w.db ≡ none)

  -- The route that a pending order gets, from the state in which it is open again.
  abbrev pub Routed : World F → Order → RouteDecision F → World F → Type 0
  Routed w o d v =
      IsPending w o × (select_or_raise settings (query_for o) (reopen o w).1 ≡ (ok d, v))

  -- The ends of a recovery. Skipped: the order is settled and nothing has changed. Recovered: it is
  -- submitted, and it was not settled and an attempt of it was adopted, or its submission along its new
  -- route has returned in this state. Failed: its submission along its new route has raised in this
  -- state, and the order has failed or a candidate of this route got no session. An error: the routing
  -- of the pending order has raised it, in this state.
  abbrev pub Recovers : World F → Result RecoveryKind × World F → Type 0
  Recovers w (ok RecoveryKind.skipped, w') =
      (w' ≡ w) × (o : Order) × (find_order id w.db ≡ some o) × (is_settled o.status ≡ true)
  Recovers w (ok RecoveryKind.recovered, w') =
      Submitted id w'
      × (o : Order) × (((found : OrderAttempt × BrokerOrderId) × (find_order id w.db ≡ some o)
            × (is_settled o.status ≡ false)
            × (adopted id w.db ≡ some found))
          ⊎ ((d : RouteDecision F) × (v : World F) × Routed w o d v
              × (submit_inline settings id d.chain v ≡ (ok tt, w'))))
  Recovers w (ok RecoveryKind.failed, w') =
      (o : Order) × (d : RouteDecision F) × (v : World F) × (e : Failure) × Routed w o d v
      × (submit_inline settings id d.chain v ≡ (raised e, w'))
      × ((IsReport e × Failed id w')
          ⊎ NoSession settings id 1 d.chain (apply_faults_to_providers v).1 e w')
  Recovers w (raised e, w') =
      (o : Order) × IsPending w o
      × (select_or_raise settings (query_for o) (reopen o w).1 ≡ (raised e, w'))

  Has-IsStable : IsStable (Has {F = F} id)
  Has-IsStable = record {
    revised = λ n f same w w' e load (o, h). (
      if o.id == n then f o else o,
      rw e (first_row-update (λ x. x.id) f (λ x. (same x).0) n id w.db.orders o h),
    );
    untouched = λ w w' e load (o, h). (o, rw e h);
  }

  adopt_attempt-Submitted :
      (found : OrderAttempt × BrokerOrderId) (w : World F)
      → Has id w
      → Submitted id (adopt_attempt id found w).1
  adopt_attempt-Submitted (a, b) w (o, h) =
      let adopt : Order → Order = λ x. record x {
        status = OrderStatus.submitted;
        broker_order_id = some b;
        broker_account_id = some a.broker_account_id;
        static_ip_id = a.static_ip_id;
        error_code = none;
      } in
      (adopt o, b, find_order-updated id adopt w.db.orders o (λ x. refl) h, refl, refl, refl, refl)

  restart-Has :
      (o : Order) (w : World F)
      → o.id ≡ id
      → Has id w
      → Has id ((do update_order o.id (λ x. record x { status = OrderStatus.created }); commit) w).1
  restart-Has o w same (x, h) =
      let restart : Order → Order = λ y. record y { status = OrderStatus.created } in
      rw same (restart x, find_order-updated id restart w.db.orders x (λ y. refl) h)

  module _ (w : World F) (o : Order) (same : o.id ≡ id) where
    -- After a submission along the new route, with the end that it had.
    kind_of-Recovers :
        (d : RouteDecision F) (v u : World F) (x : Result (Unit {0}))
        → Routed w o d v
        → submit_inline settings id d.chain v ≡ (x, u)
        → Has id u
        → Ends settings id 1 d.chain (apply_faults_to_providers v).1 (x, u)
        → Recovers w ((do o ← refresh_order id; pure (kind_of x o)) u)
    unfolding refresh_order
    kind_of-Recovers d v u (ok t) routed e h (o', b, found, submitted, given, clear, saved) =
        rw (found, submitted)
          ((o', b, found, submitted, given, clear, saved), o, inr (d, v, routed, e))
    kind_of-Recovers d v u (raised x) routed e (o', found) h = rw found (o, d, v, x, routed, e, h)

    submit_again-Recovers :
        (d : RouteDecision F) (v : World F)
        → Routed w o d v
        → Has id v
        → Recovers w (submit_again settings o d v)
    unfolding submit_again
    submit_again-Recovers d v routed h = rw same (
        kind_of-Recovers d v (submit_inline settings id d.chain v).1
          (submit_inline settings id d.chain v).0 routed refl
          (submit_inline-Keeps (Has id) Has-IsStable settings id d.chain v h)
          (submit_inline-Ends settings id d.chain v h))

    reroute-Recovers :
        (v : World F)
        → (reopen o w).1 ≡ v
        → IsPending w o
        → Has id v
        → Recovers w ((do d ← select_or_raise settings (query_for o); submit_again settings o d) v)
    reroute-Recovers v opened pending h =
        let q = query_for o in
        let u = (select_or_raise settings q v).1 in
        elim (Result-cases (select_or_raise settings q v).0) [
          | inl (d, e) ↦ rw e (
              submit_again-Recovers d u (pending, rw opened (ground (arith, e)))
                (select_or_raise-Keeps settings (Has id) Has-IsStable q v h))
          | inr (x, e) ↦ rw e (o, pending, rw opened (ground (arith, e)))
        ]

    resubmit-Recovers : IsPending w o → Has id w → Recovers w (resubmit settings o w)
    unfolding resubmit
    resubmit-Recovers pending h = elim (Bool-cases (is_indoubt o.status)) [
      | inl hit ↦ rw hit (reroute-Recovers _ (rw hit refl) pending (restart-Has o w same h))
      | inr miss ↦ rw miss (reroute-Recovers w (rw miss refl) pending h)
    ]

  -- The recovery of an order that is in its table returns, and the order is settled and nothing has
  -- changed; or it is submitted with an identifier of the broker, which is committed, since an attempt was
  -- adopted or its submission along the route that it got now returned so; or that submission raised, and
  -- the order has failed, or a candidate of this route got no session in that run. Or it raises what the
  -- routing of the order raised, in the state that this left.
  pub recover_one-Recovers : (w : World F) → Has id w → Recovers w (recover_one settings id w)
  unfolding recover_one refresh_order
  recover_one-Recovers w (o, h) =
      let same : o.id ≡ id =
        ground (arith, first_row-holds (λ (x : Order). x.id == id) w.db.orders o h) in
      elim (Bool-cases (is_settled o.status)) [
        | inl done ↦ rw (h, done) (refl, o, h, done)
        | inr pending ↦ elim (Option-cases (adopted id w.db)) [
          | inr (found, e) ↦
              rw (h, pending, e)
                (adopt_attempt-Submitted found w (o, h), o, inl (found, h, pending, e))
          | inl e ↦ rw (h, pending, e) (resubmit-Recovers w o same (h, pending, e) (o, h))
        ]
      ]

  -- The state after the recovery of an order that the broker took before: the order is submitted, with
  -- what one of its attempts, the newest that the broker took, got from it; nothing is sent to the
  -- broker, no attempt is added or changed, and the new state is committed.
  abbrev pub Adopts : World F → Result RecoveryKind × World F → Type 0
  Adopts w end =
      (end.0 ≡ ok RecoveryKind.recovered)
      × (o : Order) × (a : OrderAttempt) × (b : BrokerOrderId) × IsAccepted id w.db a b
      × (find_order id end.1.db ≡ some o)
      × (o.status ≡ OrderStatus.submitted)
      × (o.broker_order_id ≡ some b)
      × (o.broker_account_id ≡ some a.broker_account_id)
      × (end.1.broker ≡ w.broker)
      × (end.1.db.attempts ≡ w.db.attempts)
      × (end.1.durable ≡ end.1.db)

  -- An order that is not settled, and of which some attempt is on record as submitted with an identifier
  -- of the broker, is not submitted a second time: its recovery adopts the newest such attempt.
  pub recover_one-Adopts :
      (w : World F) (o : Order)
      → find_order id w.db ≡ some o
      → is_settled o.status ≡ false
      → any (λ (a : OrderAttempt). a.order_id == id && is_some (accepted_id a)) w.db.attempts ≡ true
      → Adopts w (recover_one settings id w)
  unfolding recover_one refresh_order
  recover_one-Adopts w o h pending taken =
      let (a, b, e) = adopted-is_some id w.db taken in
      let adopt : Order → Order = λ x. record x {
        status = OrderStatus.submitted;
        broker_order_id = some b;
        broker_account_id = some a.broker_account_id;
        static_ip_id = a.static_ip_id;
        error_code = none;
      } in
      rw (h, pending, e)
        (
          refl,
          adopt o,
          a,
          b,
          adopted-IsAccepted id w.db a b e,
          find_order-updated id adopt w.db.orders o (λ x. refl) h,
          refl,
          refl,
          refl,
          refl,
          refl,
          refl,
        )
