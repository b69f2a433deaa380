-- ===== src/Orders/Unique.antt =====
-- A client's identifier names one order.
use mathlib.Core.Path.{subst₂}
use broker_bridge.Base.{
  ℕ, ◌+◌, ◌≤◌, String, ◌≡◌, refl, inl, inr, true, none, List, [], ◌∷◌, ◌++◌, arith, text_eq,
  text_eq_refl, text_eq_iff, ltb, ◌==◌, if◌then◌else◌, Bool-cases, Option-cases, first_row,
  update_rows, Real,
}
use broker_bridge.Models.{Order}
use broker_bridge.World.{Db, World, Settings, bind_state}
use broker_bridge.Submission.Stable.{IsRevision, IsStable}
use broker_bridge.Orders.{
  PlaceRequest, is_order_of, new_order, find_client_order, enter, execution_mode, insert_order,
  route_order, place_new, place_unless_known, place,
}
use broker_bridge.Subscriptions.{assert_trading_allowed}
use broker_bridge.Orders.Stable.{route_order-Keeps, assert_trading_allowed-Keeps}
use broker_bridge.Subscriptions.Trading.{assert_trading_allowed_lem}

-- How many orders have the client's identifier.
abbrev pub count_orders : ℕ → String → List Order → ℕ
count_orders client id [] = 0
count_orders client id (o ∷ l) =
    (if is_order_of client id o then 1 else 0) + count_orders client id l

-- No two orders of one client have one identifier.
abbrev pub IsUnique : List Order → Type 0
IsUnique l = (client : ℕ) (id : String) → count_orders client id l ≤ 1

is_order_of-revised :
    (client : ℕ) (id : String) (f : Order → Order) (o : Order)
    → IsRevision f
    → is_order_of client id (f o) ≡ is_order_of client id o
is_order_of-revised client id f o keeps = let (a, b, c) = keeps o in rw (b, c)

pub count_orders-revised :
    (client : ℕ) (id : String) (n : ℕ) (f : Order → Order) (l : List Order)
    → IsRevision f
    → count_orders client id (update_rows (λ (o : Order). o.id == n) f l) ≡ count_orders client id l
count_orders-revised client id n f [] keeps = refl
count_orders-revised client id n f (o ∷ l) keeps =
    ground
      (arith, is_order_of-revised client id f o keeps, count_orders-revised client id n f l keeps)

pub count_orders-append :
    (client : ℕ) (id : String) (l : List Order) (o : Order)
    → count_orders client id (l ++ o ∷ [])
      ≡ count_orders client id l + (if is_order_of client id o then 1 else 0)
count_orders-append client id [] o = omega arith
count_orders-append client id (x ∷ l) o = omega (arith, count_orders-append client id l o)

pub count_orders-none :
    (client : ℕ) (id : String) (l : List Order)
    → first_row (is_order_of client id) l ≡ none
    → count_orders client id l ≡ 0
count_orders-none client id [] h = refl
count_orders-none client id (o ∷ l) h = ground (arith, count_orders-none client id l)

abbrev pub Unique : {F : Type 0} → World F → Type 0
Unique w = IsUnique w.db.orders

Unique-IsStable : {F : Type 0} → IsStable (Unique {F = F})
Unique-IsStable = record {
  revised = λ id f keeps w w' e load h c s.
      rw e (omega (arith, count_orders-revised c s id f w.db.orders keeps, h c s));
  untouched = λ w w' e load h c s. rw e (h c s);
}

pub is_order_of-new :
    (id : ℕ) (req : PlaceRequest)
    → is_order_of req.client_id req.client_order_id (new_order id req) ≡ true
is_order_of-new id req = ground (arith, text_eq_refl req.client_order_id)

is_order_of-same :
    (client : ℕ) (id : String) (o : Order)
    → is_order_of client id o ≡ true
    → (o.client_id ≡ client) × (o.client_order_id ≡ id)
is_order_of-same client id o h =
    let same : text_eq o.client_order_id id ≡ true = ground arith in
    (ground arith, (text_eq_iff o.client_order_id id).0 same)

-- An order with a new key leaves the keys unique.
IsUnique-insert :
    (id : ℕ) (req : PlaceRequest) (l : List Order)
    → first_row (is_order_of req.client_id req.client_order_id) l ≡ none
    → IsUnique l
    → IsUnique (l ++ new_order id req ∷ [])
IsUnique-insert id req l none' once c s = elim (Bool-cases (is_order_of c s (new_order id req))) [
  | inr other ↦ ground (arith, count_orders-append c s l (new_order id req), once c s)
  | inl this ↦
      let (ec, es) = is_order_of-same c s (new_order id req) this in
      let empty : count_orders c s l ≡ 0 =
        subst₂ (λ x y. count_orders x y l ≡ 0) ec es
          (count_orders-none req.client_id req.client_order_id l none') in
      ground (arith, count_orders-append c s l (new_order id req))
]

module _ {F : Type 0} ⦃r : Real F⦄ (settings : Settings F) (meanwhile : Db F → Db F)
    (req : PlaceRequest) where
  insert_order-Unique :
      (w : World F)
      → IsUnique (meanwhile w.db).orders
      → IsUnique (meanwhile w.durable).orders
      → Unique (insert_order settings meanwhile req w).1
  unfolding insert_order
  insert_order-Unique w h g = elim (Option-cases (find_client_order req (meanwhile w.db))) [
    | inl free ↦
        rw (free, insert_order) (IsUnique-insert w.next_id req (meanwhile w.db).orders free h)
    | inr (o, taken) ↦ elim (Option-cases (find_client_order req (meanwhile w.durable))) [
      | inl gone ↦ rw (taken, insert_order, gone) g
      | inr (p, found) ↦ rw (taken, insert_order, found) g
    ]
  ]

  module _ (shared : (d : Db F) → IsUnique d.orders → IsUnique (meanwhile d).orders) where
    place_new-Unique :
        (w : World F)
        → IsUnique w.db.orders
        → IsUnique w.durable.orders
        → Unique (place_new settings meanwhile req w).1
    unfolding place_new
    place_new-Unique w h g = elim (Bool-cases (text_eq (execution_mode settings w.db) "inline")) [
      | inr other ↦ rw (other, place_new) h
      | inl inline ↦ elim (Bool-cases (ltb 0 w.permits)) [
        | inr full ↦ rw (inline, place_new, full) h
        | inl room ↦
            let inserted = insert_order-Unique (enter w) (shared w.db h) (shared w.durable g) in
            rw (inline, place_new, room)
              (bind_state Unique (insert_order settings meanwhile req) (route_order settings req)
                (enter w) inserted
                (λ found e.
                  route_order-Keeps settings Unique Unique-IsStable req found
                    (insert_order settings meanwhile req (enter w)).1 inserted))
      ]
    ]

    -- The check of the client changes no order, in the session's view or in the database.
    assert-Unique :
        (w : World F)
        → IsUnique w.db.orders
        → IsUnique w.durable.orders
        → let v = (assert_trading_allowed req.client_id w).1 in
          IsUnique v.db.orders × IsUnique v.durable.orders
    assert-Unique w h g = elim ((assert_trading_allowed_lem req.client_id w)) [
      | inr (blocked, e, same) ↦ rw same (h, g)
      | inl (allowed, e, c, inl same) ↦ rw same (h, g)
      | inl (allowed, e, c, inr saved) ↦
          let now =
            assert_trading_allowed-Keeps settings Unique Unique-IsStable req.client_id w h in
          (now, rw saved now)
    ]

    -- If no two orders of one client have one identifier, in the session's view and in the database,
    -- and other processes keep it so, then no two have one after a placement, whatever its end.
    pub place-Unique :
        (w : World F)
        → IsUnique w.db.orders
        → IsUnique w.durable.orders
        → IsUnique (place settings meanwhile req w).1.db.orders
    unfolding place
    place-Unique w h g =
        let v = (assert_trading_allowed req.client_id w).1 in
        let (h', g') = assert-Unique w h g in
        bind_state Unique (assert_trading_allowed req.client_id)
          (λ _. place_unless_known settings meanwhile req) w h' (λ _ e. unless_known v h' g')
      where
        unless_known :
            (v : World F)
            → IsUnique v.db.orders
            → IsUnique v.durable.orders
            → Unique (place_unless_known settings meanwhile req v).1
        unless_known v h g = elim (Option-cases (find_client_order req v.db)) [
          | inr (o, found) ↦ rw (found, place_unless_known) h
          | inl missing ↦ rw (missing, place_unless_known) (place_new-Unique v h g)
        ]
