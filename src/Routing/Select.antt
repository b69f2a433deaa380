-- ===== src/Routing/Select.antt =====
-- `select` and `select_or_raise` as their callers see them.
use mathlib.Core.Path.{subst}
use broker_bridge.Base.{
  ℕ, ◌+◌, ◌≤◌, ◌≡◌, refl, ap, ◌⊎◌, inl, inr, true, ◌&&◌, none, some, List, [], ◌∷◌, arith, ◌==◌,
  All, All-map, All-where_rows, Real, IsOrdered, nat,
}
use broker_bridge.Models.{BrokerAccount, HealthSnapshot}
use broker_bridge.World.{
  app, Result-cases, no_route, ok, raised, Db, Hits, World, Settings, pure, bind_state, bind_ok,
}
use broker_bridge.Health.Latest.{Probed, Probed-refl, latest_for_all-Probed}
use broker_bridge.Routing.{
  RouteCandidate, RouteDecision, Query, Policy, consider_all, first_candidate, decide, own_brokers,
  policy_of, finish, read_policy, select, select_or_raise,
}
use broker_bridge.Config.{get_value, float_or}
use broker_bridge.Health.{active_assignment, default_thresholds, by_priority, latest_for_brokers}
use broker_bridge.Routing.Chain.{IsChain, decide-IsChain, decide-All}
use broker_bridge.Routing.Partition.{
  count_brokers, count_candidates, count_excluded, decide-partition,
}
use broker_bridge.Routing.Eligible.{IsEligible, IsOwn, consider_all-IsEligible, consider_all-frame}

module _ {F : Type 0} ⦃r : Real F⦄ (settings : Settings F) where
  own_brokers-IsOwn : (q : Query) (db : Db F) → All (IsOwn q) (own_brokers q db)
  unfolding own_brokers
  own_brokers-IsOwn q db =
      All-map (λ (b : BrokerAccount F). (b.client_id == q.client_id && b.enabled) ≡ true) (IsOwn q)
        (λ b h. (ground arith, ground arith)) (own_brokers q db)
        (All-where_rows (λ (b : BrokerAccount F). b.client_id == q.client_id && b.enabled)
          db.brokers)

  latest_for_brokers-Probed : (w : World F) → Probed w (latest_for_brokers settings w).1
  unfolding latest_for_brokers
  latest_for_brokers-Probed w = latest_for_all-Probed settings (by_priority w.db.brokers) w

  read_policy-Probed : (w : World F) → Probed w (read_policy settings w).1
  unfolding read_policy
  read_policy-Probed w =
      elim (Result-cases (
        float_or (get_value "routing.health_thresholds" default_thresholds w.db) "degraded_min"
          (nat 50))) [
            | inr (x, e) ↦ rw (e, read_policy) (Probed-refl w)
            | inl (m, e) ↦
                rw (e, read_policy)
                  (bind_state (Probed w) (latest_for_brokers settings)
                    (λ rows. pure (policy_of w m rows)) w (latest_for_brokers-Probed w)
                    (λ _ _. latest_for_brokers-Probed w))
          ]

  -- A successful `select`, taken apart.
  select_ok :
      (q : Query) (w : World F) (d : RouteDecision F)
      → (select settings q w).0 ≡ ok d
      → (p : Policy F) × ((read_policy settings w).0 ≡ ok p)
        × (d ≡ decide q p (consider_all q p (own_brokers q w.db) (read_policy settings w).1).0)
  unfolding select
  select_ok q w d h =
      let (p, e, h', _) = bind_ok (read_policy settings) (finish q (own_brokers q w.db)) w d h in
      (p, e, cc)

  -- The second state is the first but for the snapshots, what is committed, and the limiter's hits.
  abbrev pub Rerouted : World F → World F → Type 0
  Rerouted w w' =
      (s : List (HealthSnapshot F)) × (d : Db F) × (h : Hits) × (w'
        ≡ record w { db = record w.db { snapshots = s }; durable = d; hits = h })

  -- Whatever its end, `select` changes the health snapshots, what is committed of them, and the
  -- limiter's hits; nothing else.
  pub select-frame : (q : Query) (w : World F) → Rerouted w (select settings q w).1
  unfolding select
  select-frame q w =
      let v = (read_policy settings w).1 in
      let (s, d, e) = read_policy-Probed w in
      bind_state (Rerouted w) (read_policy settings) (finish q (own_brokers q w.db)) w
        (s, d, w.hits, e)
        (λ p _.
          let (h, e') = consider_all-frame q p (own_brokers q w.db) v in (s, d, h, ground arith))

  -- The tests do not read the snapshots.
  IsEligible-snapshots :
      (q : Query) (p : Policy F) (db : Db F) (s : List (HealthSnapshot F)) (c : RouteCandidate F)
      → IsEligible q p (record db { snapshots = s }) c
      → IsEligible q p db c
  unfolding active_assignment
  IsEligible-snapshots q p db s c h = record {
    own = h.own;
    enabled = h.enabled;
    addressed = h.addressed;
    region_allowed = h.region_allowed;
    region_of_ip = h.region_of_ip;
    in_health = h.in_health;
    score_suffices = h.score_suffices;
    within_rate = h.within_rate;
  }

  -- Every broker of the chain that `select` returns is an enabled broker of the client that the policy
  -- lets through.
  pub select-IsEligible :
      (q : Query) (w : World F) (d : RouteDecision F)
      → (select settings q w).0 ≡ ok d
      → (p : Policy F) × ((read_policy settings w).0 ≡ ok p) × All (IsEligible q p w.db) d.chain
  select-IsEligible q w d h =
      let (p, e, same) = select_ok q w d h in
      let v = (read_policy settings w).1 in
      let found = (consider_all q p (own_brokers q w.db) v).0 in
      let all = consider_all-IsEligible q p (own_brokers q w.db) v (own_brokers-IsOwn q w.db) in
      let (s, x, probed) = read_policy-Probed w in
      (
        p,
        e,
        rw same (
            decide-All (IsEligible q p w.db) q p found.0 found.1 (
              All-map (IsEligible q p v.db) (IsEligible q p w.db)
                (λ c h.
                  IsEligible-snapshots q p w.db s c
                    (subst (λ db. IsEligible q p db c) (ap (λ (u : World F). u.db) probed) h))
                found.0 all)),
      )

  -- The chain of a decision starts at its primary, which is the preferred broker unless no candidate
  -- is that, and then the one with the best score; the others follow from best to worst.
  pub select-IsChain :
      (q : Query) (w : World F) (d : RouteDecision F)
      → IsOrdered F
      → (select settings q w).0 ≡ ok d
      → IsChain q d.chain d.primary
  select-IsChain q w d ordered h =
      let (p, e, same) = select_ok q w d h in
      let found = (consider_all q p (own_brokers q w.db) (read_policy settings w).1).0 in
      rw same (decide-IsChain q p found.0 found.1 ordered)

  -- If no two enabled brokers of the client have one identifier, each of them stands exactly once in
  -- the chain or among the excluded of a decision, and nothing else does.
  pub select-partition :
      (n : ℕ) (q : Query) (w : World F) (d : RouteDecision F)
      → ((m : ℕ) → count_brokers m (own_brokers q w.db) ≤ 1)
      → (select settings q w).0 ≡ ok d
      → count_candidates n d.chain + count_excluded n d.excluded
        ≡ count_brokers n (own_brokers q w.db)
  select-partition n q w d once h =
      let (p, e, same) = select_ok q w d h in
      rw same (decide-partition n q p (read_policy settings w).1 (own_brokers q w.db) once)

  -- The two ends of a `select_or_raise` whose `select` decides `d`.
  abbrev pub NoRoute : Query → World F → RouteDecision F → Type 0
  NoRoute q w d =
      (d.chain ≡ [])
      × (select_or_raise settings q w ≡ (raised (app no_route 409), (select settings q w).1))

  abbrev pub Routed : Query → World F → RouteDecision F → Type 0
  Routed q w d =
      (c : RouteCandidate F) × (rest : List (RouteCandidate F)) × (d.chain ≡ c ∷ rest)
      × (select_or_raise settings q w ≡ (ok d, (select settings q w).1))

  -- `select_or_raise` returns the decision of `select` if its chain has a candidate; if the chain is
  -- empty it raises `NO_ROUTE` with status 409.
  pub select_or_raise_lem :
      (q : Query) (w : World F) (d : RouteDecision F)
      → IsOrdered F
      → (select settings q w).0 ≡ ok d
      → NoRoute q w d ⊎ Routed q w d
  unfolding select_or_raise
  select_or_raise_lem q w d ordered h = by_chain d.chain refl (select-IsChain q w d ordered h).front
    where
      by_chain :
          (l : List (RouteCandidate F))
          → d.chain ≡ l
          → first_candidate d.chain ≡ d.primary
          → NoRoute q w d ⊎ Routed q w d
      by_chain [] e front = let missing : d.primary ≡ none = ground arith in inl (e, ground arith)
      by_chain (c ∷ rest) e front =
          let found : d.primary ≡ some c = ground arith in inr (c, rest, e, ground arith)
