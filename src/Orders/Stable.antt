-- ===== src/Orders/Stable.antt =====
-- What the routing of a new order keeps.
use broker_bridge.Base.{ℕ, refl, inl, inr, Bool, true, false, Bool-cases, Option-cases, Real}
use broker_bridge.Models.{Order, is_suspended}
use broker_bridge.World.{World, Settings, ◌>>◌}
use broker_bridge.Subscriptions.{find_client, client_trading_allowed, assert_trading_allowed}
use broker_bridge.Routing.{Query, need_primary, select, select_or_raise}
use broker_bridge.Routing.Select.{select-frame}
use broker_bridge.Submission.{find_order, get_order, submit_inline}
use broker_bridge.Submission.Stable.{IsStable, Keeps, bind-Keeps, submit_inline-Keeps}
use broker_bridge.Orders.{PlaceRequest, query_of, read_back, route_order}

module _ {F : Type 0} ⦃r : Real F⦄ (settings : Settings F) (P : World F → Type 0)
    (st : IsStable P) where
  pub select_or_raise-Keeps : (q : Query) → Keeps P st (select_or_raise settings q)
  unfolding select_or_raise
  select_or_raise-Keeps q =
      bind-Keeps P st (select settings q) need_primary
        (λ w h.
          let (s, d, hits, e) = select-frame settings q w in
          rw e (st.untouched w _ refl (refl, refl) h))
        (λ d w h. elim (Option-cases d.primary) [
          | inl missing ↦ rw missing h
          | inr (c, found) ↦ rw found h
        ])

  pub route_order-Keeps :
      (req : PlaceRequest) (found : Order × Bool) → Keeps P st (route_order settings req found)
  unfolding route_order
  route_order-Keeps req (o, false) w h = h
  route_order-Keeps req (o, true) w h =
      bind-Keeps P st (select_or_raise settings (query_of req))
        (λ d. submit_inline settings o.id d.chain >> read_back settings o.id)
        (select_or_raise-Keeps (query_of req))
        (λ d.
          bind-Keeps P st (submit_inline settings o.id d.chain) (λ _. read_back settings o.id)
            (submit_inline-Keeps P st settings o.id d.chain) (λ _ v g. read_back-Keeps o.id v g))
        w h
    where
      read_back-Keeps : (id : ℕ) → Keeps P st (read_back settings id)
      read_back-Keeps id v g =
          unfold get_order in
          elim (Option-cases (find_order id v.db)) [
            | inl missing ↦ rw missing g
            | inr (x, found) ↦ rw found g
          ]

  pub assert_trading_allowed-Keeps : (id : ℕ) → Keeps P st (assert_trading_allowed {F = F} id)
  unfolding assert_trading_allowed
  assert_trading_allowed-Keeps id w h = elim (Bool-cases (client_trading_allowed id w)) [
    | inr blocked ↦ rw (blocked, assert_trading_allowed) h
    | inl allowed ↦ elim (Option-cases (find_client id w.db)) [
      | inl missing ↦ rw (allowed, assert_trading_allowed, missing) h
      | inr (c, found) ↦ elim (Bool-cases (is_suspended c.status)) [
        | inl stale ↦
            rw (allowed, assert_trading_allowed, found, stale)
              (st.untouched w _ refl (refl, refl) h)
        | inr fine ↦ rw (allowed, assert_trading_allowed, found, fine) h
      ]
    ]
  ]
