-- ===== src/Orders/Replay.antt =====
-- Placing an order again changes nothing.
use broker_bridge.Base.{
  ℕ, String, ◌≡◌, ◌≢◌, inl, inr, Bool, false, some, List, [], ◌∷◌, arith, text_eq, ltb, Bool-cases,
  Option-cases, first_row, Real,
}
use broker_bridge.Models.{Order}
use broker_bridge.World.{
  app, queue_full, unsupported_mode, integrity_error, ok, raised, Db, World, Settings, bind_ok,
}
use broker_bridge.Subscriptions.{assert_trading_allowed}
use broker_bridge.Submission.Stable.{IsStable}
use broker_bridge.Orders.{
  PlaceRequest, is_order_of, new_order, find_client_order, enter, execution_mode, insert_order,
  route_order, run_engine, place_new, place_unless_known, place,
}
use broker_bridge.Orders.Stable.{route_order-Keeps}
use broker_bridge.Orders.Unique.{
  count_orders, count_orders-revised, count_orders-append, count_orders-none, is_order_of-new,
}

-- The order with the client's identifier is there.
abbrev pub IsPresent : {F : Type 0} → PlaceRequest → World F → Type 0
IsPresent req w = count_orders req.client_id req.client_order_id w.db.orders ≢ 0

IsPresent-IsStable : {F : Type 0} (req : PlaceRequest) → IsStable (IsPresent {F = F} req)
IsPresent-IsStable req = record {
  revised = λ id f keeps w w' e load h.
      rw e (rw (count_orders-revised req.client_id req.client_order_id id f w.db.orders keeps) h);
  untouched = λ w w' e load h. rw e h;
}

count_orders-found :
    (client : ℕ) (id : String) (l : List Order) (o : Order)
    → first_row (is_order_of client id) l ≡ some o
    → count_orders client id l ≢ 0
count_orders-found client id [] o h = absurd (ground arith)
count_orders-found client id (x ∷ l) o h = ground (arith, count_orders-found client id l o)

place_known :
    {F : Type 0} ⦃r : Real F⦄ (settings : Settings F) (meanwhile : Db F → Db F) (req : PlaceRequest)
    (w : World F) (o : Order)
    → assert_trading_allowed req.client_id w ≡ (ok tt, w)
    → find_client_order req w.db ≡ some o
    → place settings meanwhile req w ≡ (ok (o, false), w)
unfolding place
place_known settings meanwhile req w o still found = rw (still, place, place_unless_known, found)

module _ {F : Type 0} ⦃r : Real F⦄ (settings : Settings F) (meanwhile : Db F → Db F)
    (req : PlaceRequest) where
  insert_order-IsPresent :
      (w : World F) (x : Order × Bool)
      → (insert_order settings meanwhile req w).0 ≡ ok x
      → IsPresent req (insert_order settings meanwhile req w).1
  unfolding insert_order
  insert_order-IsPresent w x h = elim (Option-cases (find_client_order req (meanwhile w.db))) [
    | inl free ↦
        rw (free, insert_order)
          (ground (
            arith,
            count_orders-append req.client_id req.client_order_id (meanwhile w.db).orders
                (new_order w.next_id req),
            is_order_of-new w.next_id req,
          ))
    | inr (o, taken) ↦ elim (Option-cases (find_client_order req (meanwhile w.durable))) [
      | inl gone ↦
          absurd
            (let no : raised integrity_error ≡ ok x = rw (taken, insert_order, gone) at h in cc)
      | inr (p, found) ↦
          rw (taken, insert_order, found)
            (count_orders-found req.client_id req.client_order_id (meanwhile w.durable).orders p
              found)
    ]
  ]

  place_new-IsPresent :
      (w : World F) (x : Order × Bool)
      → (place_new settings meanwhile req w).0 ≡ ok x
      → IsPresent req (place_new settings meanwhile req w).1
  unfolding place_new
  place_new-IsPresent w x h = elim (Bool-cases (text_eq (execution_mode settings w.db) "inline")) [
    | inr other ↦
        absurd
          (let no : raised (app unsupported_mode 501) ≡ ok x = rw (other, place_new) at h in cc)
    | inl inline ↦ elim (Bool-cases (ltb 0 w.permits)) [
      | inr full ↦
          absurd
            (let no : raised (app queue_full 503) ≡ ok x = rw (inline, place_new, full) at h in cc)
      | inl room ↦
          let done : (run_engine settings meanwhile req (enter w)).0 ≡ ok x =
            rw (inline, place_new, room) at h in
          let (y, e, e', state) =
            bind_ok (insert_order settings meanwhile req) (route_order settings req) (enter w) x
              done in
          rw (inline, place_new, room)
            (rw state (
              route_order-Keeps settings (IsPresent req) (IsPresent-IsStable req) req y
                (insert_order settings meanwhile req (enter w)).1
                (insert_order-IsPresent (enter w) y e)))
    ]
  ]

  unless_known-IsPresent :
      (w : World F) (x : Order × Bool)
      → (place_unless_known settings meanwhile req w).0 ≡ ok x
      → IsPresent req (place_unless_known settings meanwhile req w).1
  unless_known-IsPresent w x h = elim (Option-cases (find_client_order req w.db)) [
    | inr (o, found) ↦
        rw (found, place_unless_known)
          (count_orders-found req.client_id req.client_order_id w.db.orders o found)
    | inl missing ↦
        rw (missing, place_unless_known)
          (place_new-IsPresent w x (rw (missing, place_unless_known) at h))
  ]

  place-IsPresent :
      (w : World F) (x : Order × Bool)
      → (place settings meanwhile req w).0 ≡ ok x
      → IsPresent req (place settings meanwhile req w).1
  unfolding place
  place-IsPresent w x h =
      let (u, e, e', state) =
        bind_ok (assert_trading_allowed req.client_id)
          (λ _. place_unless_known settings meanwhile req) w x h in
      rw state (unless_known-IsPresent (assert_trading_allowed req.client_id w).1 x e')

  -- After a placement that returned an order, a client that may still trade and places with the same
  -- identifier gets the order with that identifier back, marked as not new, and nothing changes,
  -- whatever other processes would commit meanwhile.
  pub place_again :
      (w : World F) (x : Order × Bool) (meanwhile' : Db F → Db F)
      → (place settings meanwhile req w).0 ≡ ok x
      → let w' = (place settings meanwhile req w).1 in
        assert_trading_allowed req.client_id w' ≡ (ok tt, w')
        → (o : Order) × (find_client_order req w'.db ≡ some o)
          × (place settings meanwhile' req w' ≡ (ok (o, false), w'))
  place_again w x meanwhile' h still =
      let w' = (place settings meanwhile req w).1 in
      elim (Option-cases (find_client_order req w'.db)) [
        | inl missing ↦ absurd (
            place-IsPresent w x h
              (count_orders-none req.client_id req.client_order_id w'.db.orders missing))
        | inr (o, found) ↦ (o, found, place_known settings meanwhile' req w' o still found)
      ]
