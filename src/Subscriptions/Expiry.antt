-- ===== src/Subscriptions/Expiry.antt =====
-- What `enforce_expiry` leaves behind.
use mathlib.Core.Path.{subst}
use mathlib.Core.List.{map}
use broker_bridge.Base.{
  ℕ, ◌≡◌, refl, sym, inl, inr, false, List, [], ◌∷◌, arith, ◌==◌, length, where_rows, update_rows,
  All, has_key, Listed, where_rows-Listed, update_rows_batch, update_rows_none, where_rows-update,
}
use broker_bridge.Models.{ClientStatus, Client, Instance, TeardownMode, Subscription}
use broker_bridge.World.{Result-cases, ok, Reply, World}
use broker_bridge.Infra.{call_infra}
use broker_bridge.Infra.Frame.{call_infra-frame}
use broker_bridge.Subscriptions.{
  set_client_status, is_due, torn_status, expire, update_instance, teardown_instance, teardown_all,
  live_instances, expire_one, expire_all, close_run, enforce_expiry,
}

module _ {F : Type 0} where
  -- The teardown touches the instances and the provider, nothing else.
  abbrev pub TornDown : World F → World F → Type 0
  TornDown w w' =
      (i : List Instance) × (l : List Reply) × (w'
        ≡ record w { db = record w.db { instances = i }; infra = l })

  teardown_instance-TornDown :
      (mode : TeardownMode) (id : ℕ) (w : World F) → TornDown w (teardown_instance mode id w).1
  unfolding teardown_instance
  teardown_instance-TornDown mode id w =
      let (l, e) = call_infra-frame w in
      elim (Result-cases (call_infra w).0) [
        | inr (x, h) ↦ (w.db.instances, l, ground arith)
        | inl (a, h) ↦
            let off =
              update_rows (λ (i : Instance). i.id == id) (λ i. record i { auto_renew = false })
                w.db.instances in
            let w2 =
              update_instance id (λ (i : Instance). record i { auto_renew = false })
                (call_infra w).1 in
            let (l2, e2) = call_infra-frame w2 in
            elim (Result-cases (call_infra w2).0) [
              | inr (x, h2) ↦ (off, l2, ground arith)
              | inl (b, h2) ↦ (
                update_rows (λ (i : Instance). i.id == id)
                    (λ i. record i { status = torn_status mode }) off,
                l2,
                ground arith,
              )
            ]
      ]

  teardown_all-TornDown :
      (mode : TeardownMode) (l : List Instance) (w : World F) → TornDown w (teardown_all mode l w).1
  unfolding teardown_all
  teardown_all-TornDown mode [] w = (w.db.instances, w.infra, refl)
  teardown_all-TornDown mode (i ∷ l) w =
      let (a, b, e) = teardown_instance-TornDown mode i.id w in
      let (a', b', e') = teardown_all-TornDown mode l (teardown_instance mode i.id w).1 in
      (a', b', ground arith)

  expire_one-tables :
      (s : Subscription) (w : World F)
      → let w' = (expire_one s w).1 in
        (w'.db.subscriptions
          ≡ update_rows (λ (x : Subscription). x.id == s.id) (expire w.now) w.db.subscriptions)
        × (w'.db.clients ≡ set_client_status s.client_id ClientStatus.suspended w.db.clients)
        × (w'.now ≡ w.now)
        × (w'.durable ≡ w.durable)
  unfolding expire_one
  expire_one-tables s w =
      let w1 : World F = record w {
        db = record w.db {
          clients = set_client_status s.client_id ClientStatus.suspended w.db.clients;
        };
      } in
      let (i, l, e) = teardown_all-TornDown s.teardown_mode (live_instances s.client_id w1.db) w1 in
      (ground arith, ground arith, ground arith, ground arith)

abbrev pub suspended : List ℕ → List Client → List Client
suspended ids =
    update_rows (λ (c : Client). has_key ids c.id)
      (λ c. record c { status = ClientStatus.suspended })

abbrev pub expired : ℕ → List ℕ → List Subscription → List Subscription
expired now ids = update_rows (λ (s : Subscription). has_key ids s.id) (expire now)

abbrev pub sub_id : Subscription → ℕ
sub_id s = s.id

abbrev pub sub_client : Subscription → ℕ
sub_client s = s.client_id

module _ {F : Type 0} where
  pub expire_all-tables :
      (l : List Subscription) (w : World F)
      → let w' = (expire_all l w).1 in
        (w'.db.subscriptions ≡ expired w.now (map sub_id l) w.db.subscriptions)
        × (w'.db.clients ≡ suspended (map sub_client l) w.db.clients)
        × (w'.now ≡ w.now)
  unfolding expire_all
  expire_all-tables [] w = (
    sym (update_rows_none sub_id (expire w.now) w.db.subscriptions),
    sym (
        update_rows_none (λ (c : Client). c.id) (λ c. record c { status = ClientStatus.suspended })
          w.db.clients),
    refl,
  )
  expire_all-tables (s ∷ l) w =
      let (a, b, c, d) = expire_one-tables s w in
      let (a', b', c') = expire_all-tables l (expire_one s w).1 in
      let batch =
        update_rows_batch sub_id (expire w.now) (λ x. refl) (λ x. refl) s.id (map sub_id l)
          w.db.subscriptions in
      let suspend_all =
        update_rows_batch (λ (c : Client). c.id) (λ c. record c { status = ClientStatus.suspended })
          (λ x. refl) (λ x. refl) s.client_id (map sub_client l) w.db.clients in
      (cc, cc, cc)

  abbrev pub due : World F → List Subscription
  due w = where_rows (is_due w.now) w.db.subscriptions

  -- The enforcement never raises and reports every subscription that was due. Exactly those are
  -- expired and stamped as torn down, exactly their clients are suspended, and no subscription is
  -- due any more, whatever the infrastructure answered. If the session had nothing uncommitted,
  -- it has nothing uncommitted at the end.
  pub enforce_expiry_lem :
      (w : World F)
      → let w' = (enforce_expiry w).1 in
        ((torn : ℕ) × ((enforce_expiry w).0 ≡ ok (length (due w), torn)))
        × (w'.db.subscriptions ≡ expired w.now (map sub_id (due w)) w.db.subscriptions)
        × (w'.db.clients ≡ suspended (map sub_client (due w)) w.db.clients)
        × (due w' ≡ [])
        × (w.durable ≡ w.db → w'.durable ≡ w'.db)
  unfolding enforce_expiry expire_all
  enforce_expiry_lem w = by_due (due w) refl
    where
      none_left :
          (l : List Subscription)
          → due w ≡ l
          → where_rows (is_due w.now) (expired w.now (map sub_id l) w.db.subscriptions) ≡ []
      none_left l e =
          where_rows-update sub_id (is_due w.now) (expire w.now) l w.db.subscriptions (λ x. refl)
            (subst (λ m. All (Listed sub_id (is_due w.now) m) w.db.subscriptions) e
              (where_rows-Listed sub_id (is_due w.now) w.db.subscriptions))

      settled :
          (l : List Subscription)
          → due w ≡ l
          → (where_rows (is_due (expire_all l w).1.now) (expire_all l w).1.db.subscriptions ≡ [])
      settled l e =
          let (subs, clients, now) = expire_all-tables l w in rw subs (rw now (none_left l e))

      by_due :
          (l : List Subscription)
          → due w ≡ l
          → let (r, w') = close_run l (expire_all l w).0 (expire_all l w).1 in
            ((torn : ℕ) × (r ≡ ok (length l, torn)))
            × (w'.db.subscriptions ≡ expired w.now (map sub_id l) w.db.subscriptions)
            × (w'.db.clients ≡ suspended (map sub_client l) w.db.clients)
            × (due w' ≡ [])
            × (w.durable ≡ w.db → w'.durable ≡ w'.db)
      by_due [] e =
          let (subs, clients, now) = expire_all-tables [] w in
          ((0, refl), subs, clients, settled [] e, λ h. h)
      by_due (s ∷ l) e =
          let (subs, clients, now) = expire_all-tables (s ∷ l) w in
          (((expire_all (s ∷ l) w).0, refl), subs, clients, settled (s ∷ l) e, λ h. refl)
