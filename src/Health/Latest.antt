-- ===== src/Health/Latest.antt =====
-- The latest snapshots: probing touches nothing else, and every enabled broker gets a row.
use broker_bridge.Base.{
  ℕ, ◌≡◌, refl, inl, inr, Bool, true, ◌||◌, some, List, [], ◌∷◌, ◌++◌, arith, ◌==◌, ==_refl,
  Bool-cases, Option-cases, any, All, All-map, Real,
}
use broker_bridge.Models.{BrokerAccount, HealthSnapshot}
use broker_bridge.World.{
  Result-cases, ok, Db, World, Settings, Action, pure, ◌>>=◌, bind_state, bind_ok,
}
use broker_bridge.Health.{
  HealthRow, measure, probe_broker, latest, row_of, latest_for, latest_for_all,
}

module _ {F : Type 0} where
  -- The second state is the first but for the snapshots and what is committed.
  abbrev pub Probed : World F → World F → Type 0
  Probed w w' =
      (s : List (HealthSnapshot F)) × (d : Db F) × (w'
        ≡ record w { db = record w.db { snapshots = s }; durable = d })

  pub Probed-refl : (w : World F) → Probed w w
  Probed-refl w = (w.db.snapshots, w.durable, refl)

  pub Probed-trans : (u v w : World F) → Probed u v → Probed v w → Probed u w
  Probed-trans u v w p q = (q.0, q.1, ground arith)

  abbrev pub has_row : ℕ → List (HealthRow F) → Bool
  has_row id = any (λ (x : HealthRow F). x.broker_account_id == id)

  any-append :
      (p : HealthRow F → Bool) (l m : List (HealthRow F)) → any p (l ++ m) ≡ (any p l || any p m)
  any-append p [] m = refl
  any-append p (x ∷ l) m = ground (arith, any-append p l m)

module _ {F : Type 0} ⦃r : Real F⦄ (settings : Settings F) where
  probe_broker-Probed : (b : ℕ) (w : World F) → Probed w (probe_broker settings b w).1
  unfolding probe_broker
  probe_broker-Probed b w = elim (Result-cases (measure settings b w)) [
    | inl (snap, e) ↦
        rw (e, probe_broker)
          (
            w.db.snapshots ++ snap ∷ [],
            record w.db { snapshots = w.db.snapshots ++ snap ∷ [] },
            refl,
          )
    | inr (err, e) ↦ rw (e, probe_broker) (Probed-refl w)
  ]

  latest_for-Probed : (b : BrokerAccount F) (w : World F) → Probed w (latest_for settings b w).1
  unfolding latest_for
  latest_for-Probed b w = elim (Option-cases (latest b.id w.db.snapshots)) [
    | inr (x, found) ↦ rw (found, latest_for) (Probed-refl w)
    | inl fresh ↦
        rw (fresh, latest_for)
          (elim (Bool-cases b.enabled) [
            | inr off ↦ rw off (Probed-refl w)
            | inl on ↦ rw on (
                bind_state (Probed w) (probe_broker settings b.id) (λ s. pure (row_of s ∷ [])) w
                  (probe_broker-Probed b.id w) (λ s _. probe_broker-Probed b.id w))
          ])
  ]

  -- The loop after its first broker.
  abbrev rest :
      BrokerAccount F → List (BrokerAccount F) → List (HealthRow F) → Action F (List (HealthRow F))
  rest b l rows = do more ← latest_for_all settings l; pure (rows ++ more)

  -- Looking up the latest snapshots changes nothing but the snapshots and what is committed.
  pub latest_for_all-Probed :
      (l : List (BrokerAccount F)) (w : World F) → Probed w (latest_for_all settings l w).1
  unfolding latest_for_all
  latest_for_all-Probed [] w = Probed-refl w
  latest_for_all-Probed (b ∷ l) w =
      bind_state (Probed w) (latest_for settings b) (rest b l) w (latest_for-Probed b w) λ rows _.
        let v = (latest_for settings b w).1 in
        let p =
          Probed-trans w v (latest_for_all settings l v).1 (latest_for-Probed b w)
            (latest_for_all-Probed l v) in
        bind_state (Probed w) (latest_for_all settings l) (λ more. pure (rows ++ more)) v p
          (λ _ _. p)

  latest-id :
      (b : ℕ) (l : List (HealthSnapshot F)) (s : HealthSnapshot F)
      → latest b l ≡ some s
      → (s.broker_account_id == b) ≡ true
  unfolding latest
  latest-id b [] s h = ground arith
  latest-id b (x ∷ l) s h = ground (arith, latest-id b l s)

  measure-id :
      (b : ℕ) (w : World F) (s : HealthSnapshot F)
      → measure settings b w ≡ ok s
      → (s.broker_account_id == b) ≡ true
  unfolding measure
  measure-id b w s h = ground (arith, ==_refl b)

  latest_for-has_row :
      (b : BrokerAccount F) (w : World F) (rows : List (HealthRow F))
      → b.enabled ≡ true
      → (latest_for settings b w).0 ≡ ok rows
      → has_row b.id rows ≡ true
  unfolding latest_for probe_broker
  latest_for-has_row b w rows on h = elim (Option-cases (latest b.id w.db.snapshots)) [
    | inr (x, found) ↦ ground (arith, latest-id b.id w.db.snapshots x)
    | inl fresh ↦ elim (Result-cases (measure settings b.id w)) [
      | inl (s, e) ↦ ground (arith, measure-id b.id w s e)
      | inr (x, e) ↦ ground arith
    ]
  ]

  -- If no probe raises, every enabled broker of the list has a row.
  pub latest_for_all-has_row :
      (l : List (BrokerAccount F)) (w : World F) (rows : List (HealthRow F))
      → (latest_for_all settings l w).0 ≡ ok rows
      → All (λ (b : BrokerAccount F). b.enabled ≡ true → has_row b.id rows ≡ true) l
  unfolding latest_for_all
  latest_for_all-has_row [] w rows h = tt
  latest_for_all-has_row (b ∷ l) w rows h =
      let (first, e, h', _) = bind_ok (latest_for settings b) (rest b l) w rows h in
      let v = (latest_for settings b w).1 in
      let (more, e', h'', _) =
        bind_ok (latest_for_all settings l) (λ more. pure (first ++ more)) v rows h' in
      (
        λ on. ground (
          arith,
          latest_for-has_row b w first on e,
          any-append (λ (x : HealthRow F). x.broker_account_id == b.id) first more,
        ),
        All-map (λ (c : BrokerAccount F). c.enabled ≡ true → has_row c.id more ≡ true)
            (λ (c : BrokerAccount F). c.enabled ≡ true → has_row c.id rows ≡ true)
            (λ c k on. ground (
              arith,
              k on,
              any-append (λ (x : HealthRow F). x.broker_account_id == c.id) first more,
            ))
            l (latest_for_all-has_row l v more e'),
      )
