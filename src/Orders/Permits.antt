-- ===== src/Orders/Permits.antt =====
-- A placement gives back what it took, whatever its end.
use broker_bridge.Base.{
  ℕ, ◌+◌, ◌-◌, ◌≡◌, refl, ◌∙◌, inl, inr, arith, text_eq, ltb, Bool-cases, Option-cases, Real,
}
use broker_bridge.World.{Db, World, Settings}
use broker_bridge.Subscriptions.{assert_trading_allowed}
use broker_bridge.Submission.Stable.{IsStable, Keeps, bind-Keeps}
use broker_bridge.Orders.{
  PlaceRequest, find_client_order, enter, execution_mode, insert_order, route_order, place_new,
  place_unless_known, place,
}
use broker_bridge.Orders.Stable.{route_order-Keeps, assert_trading_allowed-Keeps}

-- So many permits are free and so many orders in flight.
abbrev pub Holds : {F : Type 0} → ℕ → ℕ → World F → Type 0
Holds permits inflight w = (w.permits ≡ permits) × (w.inflight ≡ inflight)

Holds-IsStable : {F : Type 0} (permits inflight : ℕ) → IsStable (Holds {F = F} permits inflight)
Holds-IsStable permits inflight = record {
  revised = λ id f keeps w w' e load h. (load.0 ∙ h.0, load.1 ∙ h.1);
  untouched = λ w w' e load h. (load.0 ∙ h.0, load.1 ∙ h.1);
}

module _ {F : Type 0} ⦃r : Real F⦄ (settings : Settings F) (permits inflight : ℕ) where
  insert_order-Keeps :
      (meanwhile : Db F → Db F) (req : PlaceRequest)
      → Keeps
          (Holds permits inflight)
          (Holds-IsStable permits inflight)
          (insert_order settings meanwhile req)
  unfolding insert_order
  insert_order-Keeps meanwhile req w h =
      elim (Option-cases (find_client_order req (meanwhile w.db))) [
        | inl free ↦ rw (free, insert_order) h
        | inr (o, taken) ↦ elim (Option-cases (find_client_order req (meanwhile w.durable))) [
          | inl gone ↦ rw (taken, insert_order, gone) h
          | inr (p, found) ↦ rw (taken, insert_order, found) h
        ]
      ]

module _ {F : Type 0} ⦃r : Real F⦄ (settings : Settings F) (meanwhile : Db F → Db F)
    (req : PlaceRequest) where
  place_new-Keeps :
      (w : World F) → Holds w.permits w.inflight (place_new settings meanwhile req w).1
  unfolding place_new
  place_new-Keeps w = elim (Bool-cases (text_eq (execution_mode settings w.db) "inline")) [
    | inr other ↦ rw (other, place_new) (refl, refl)
    | inl inline ↦ elim (Bool-cases (ltb 0 w.permits)) [
      | inr full ↦ rw (inline, place_new, full) (refl, refl)
      | inl room ↦
          let (p, i) =
            bind-Keeps (Holds (w.permits - 1) (w.inflight + 1))
              (Holds-IsStable (w.permits - 1) (w.inflight + 1))
              (insert_order settings meanwhile req) (route_order settings req)
              (insert_order-Keeps settings (w.permits - 1) (w.inflight + 1) meanwhile req)
              (route_order-Keeps settings (Holds (w.permits - 1) (w.inflight + 1))
                (Holds-IsStable (w.permits - 1) (w.inflight + 1)) req)
              (enter w) (refl, refl) in
          rw (inline, place_new, room) (ground arith, ground arith)
    ]
  ]

  -- Whatever its end, a placement leaves as many free permits and as many orders in flight as there
  -- were, whatever other processes commit meanwhile.
  pub place-Keeps :
      (w : World F)
      → ((place settings meanwhile req w).1.permits ≡ w.permits)
        × ((place settings meanwhile req w).1.inflight ≡ w.inflight)
  unfolding place
  place-Keeps w =
      bind-Keeps (Holds w.permits w.inflight) (Holds-IsStable w.permits w.inflight)
        (assert_trading_allowed req.client_id) (λ _. place_unless_known settings meanwhile req)
        (assert_trading_allowed-Keeps settings (Holds w.permits w.inflight)
          (Holds-IsStable w.permits w.inflight) req.client_id)
        (λ _ v h. unless_known v h) w (refl, refl)
    where
      unless_known :
          Keeps
            (Holds w.permits w.inflight)
            (Holds-IsStable w.permits w.inflight)
            (place_unless_known settings meanwhile req)
      unless_known v h = elim (Option-cases (find_client_order req v.db)) [
        | inr (o, found) ↦ rw (found, place_unless_known) h
        | inl missing ↦
            rw (missing, place_unless_known)
              ((place_new-Keeps v).0 ∙ h.0, (place_new-Keeps v).1 ∙ h.1)
      ]
