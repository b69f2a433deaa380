-- ===== src/Routing.antt =====
-- routing/engine.py: which brokers may take an order, and in which order they are tried.
pub mod Chain
pub mod Partition
pub mod Eligible
pub mod Select
use broker_bridge.Base.{
  ℕ, String, Bool, true, false, not, ◌&&◌, ◌||◌, Option, none, some, List, [], ◌∷◌, ◌++◌, text_eq,
  ◌==◌, if◌then◌else◌, is_some, is_text, where_rows, first_row, any, Real, nat, lt, fmax,
}
use broker_bridge.Models.{BrokerAccount, StaticIp, IpAssignment, HealthStatus, Scalar}
use broker_bridge.World.{
  app, no_route, ok, raised, Db, Hits, World, Settings, Action, pure, gets, ◌>>=◌, ◌>>◌,
}
use broker_bridge.Config.{get_value, flag_or, float_or}
use broker_bridge.RateLimit.{RateSnapshot, check, consume, limit_of, exceed_policy}
use broker_bridge.Health.{active_assignment, HealthRow, default_thresholds, latest_for_brokers}

pub record RouteCandidate (F : Type 0) : Type 0 where
  pub broker : BrokerAccount F
  pub static_ip_id : Option ℕ
  pub health_score : F
  pub health_status : HealthStatus
  pub rate_pressure : F
  pub route_score : F
  pub reasons : List String

pub data Reason : Type 0 where
  no_assigned_ip region_mismatch region_ip_mismatch unhealthy rate_limited_out : Reason

pub record Exclusion : Type 0 where
  pub broker_account_id : ℕ
  pub reason : Reason

pub record RouteDecision (F : Type 0) : Type 0 where
  pub primary : Option (RouteCandidate F)
  pub chain : List (RouteCandidate F)
  pub excluded : List Exclusion
  pub require_assigned_ip : Bool

-- The arguments of `select`.
pub record Query : Type 0 where
  pub client_id : ℕ
  pub preferred_broker_id : Option ℕ
  pub region_preference : Option String
  pub consume_rate_limit : Bool

-- What `select` reads before its loop.
pub record Policy (F : Type 0) : Type 0 where
  pub require_ip : Bool
  pub degraded_min : F
  pub exceed : String
  pub rows : List (HealthRow F)

-- `if region_preference`
abbrev pub wanted_region : Query → Option String
wanted_region q = elim q.region_preference [
  | none ↦ none
  | some s ↦ if is_text s then some s else none
]

abbrev pub member : String → List String → Bool
member s = any (λ t. text_eq t s)

abbrev pub is_unhealthy : HealthStatus → Bool
is_unhealthy HealthStatus.unhealthy = true
is_unhealthy _ = false

abbrev pub is_empty : List String → Bool
is_empty [] = true
is_empty (x ∷ l) = false

-- The test of the region, for a region that the caller asks for.
abbrev pub region_problem : String → List String → Option (IpAssignment × StaticIp) → Option Reason
region_problem region allowed assignment =
    if not (is_empty allowed) && not (member region allowed)
    then some Reason.region_mismatch
    else elim assignment [
      | none ↦ none
      | some (a, address) ↦
          if text_eq address.region region then none else some Reason.region_ip_mismatch
    ]

abbrev pub is_preferred : Query → ℕ → Bool
is_preferred q id = elim q.preferred_broker_id [ none ↦ false | some p ↦ id == p ]

pub data Verdict (F : Type 0) : Type 0 where
  candidate_of : RouteCandidate F → Verdict F
  excluded_for : Reason → Verdict F

module _ {F : Type 0} ⦃r : Real F⦄ where
  -- `health_rows.get(str(broker.id))`
  abbrev pub row_for : ℕ → List (HealthRow F) → Option (HealthRow F)
  row_for id = first_row (λ (x : HealthRow F). x.broker_account_id == id)

  abbrev pub score_of : Option (HealthRow F) → F
  score_of none = nat 0
  score_of (some x) = x.score

  abbrev pub status_of : Option (HealthRow F) → HealthStatus
  status_of none = HealthStatus.unhealthy
  status_of (some x) = x.status

  -- The tests of the loop that come before the rate limit, in their order.
  unfoldable pub screen : Query → Policy F → Db F → BrokerAccount F → Option Reason
  screen q p db b =
      let assignment = active_assignment b.id db in
      let health = row_for b.id p.rows in
      if p.require_ip && not (is_some assignment)
      then some Reason.no_assigned_ip
      else let problem : Option Reason = elim (wanted_region q) [
        | none ↦ none
        | some region ↦ region_problem region b.allowed_regions assignment
      ] in
        elim problem [
          | some reason ↦ some reason
          | none ↦
              if is_unhealthy (status_of health) || lt (score_of health) p.degraded_min
              then some Reason.unhealthy
              else none
        ]

  -- `consume` or `check`, as the caller asks
  abbrev pub ask_limiter : Query → BrokerAccount F → World F → RateSnapshot F × Hits
  ask_limiter q b w =
      if q.consume_rate_limit
      then consume b.id (limit_of b) w.now w.hits
      else check b.id (limit_of b) w.now w.hits

  -- A broker that passed the tests, with what the limiter said of it.
  unfoldable pub candidate :
      Query → Policy F → Db F → BrokerAccount F → RateSnapshot F → RouteCandidate F
  candidate q p db b rl =
      let health = row_for b.id p.rows in
      let sticky = is_preferred q b.id in
      let region = is_some (wanted_region q) in
      let pressure = if rl.allowed then rl.pressure else fmax rl.pressure (nat 20) in
      record {
        broker = b;
        static_ip_id = elim (active_assignment b.id db) [
          | none ↦ none
          | some (a, address) ↦ some a.static_ip_id
        ];
        health_score = score_of health;
        health_status = status_of health;
        rate_pressure = pressure;
        route_score =
            r.add
              (r.add
                (r.sub (r.add (score_of health) (r.mul (r.of_int b.priority) (nat 2))) pressure)
                (if sticky then nat 15 else nat 0))
              (if region then nat 10 else nat 0);
        reasons =
            (if region then "region_match" ∷ [] else [])
            ++ ((if rl.allowed then [] else "rate_limited" ∷ [])
                ++ (if sticky then "preferred_sticky" ∷ [] else []));
      }

  -- One round of the loop.
  unfoldable pub consider : Query → Policy F → BrokerAccount F → World F → Verdict F × World F
  consider q p b w = elim (screen q p w.db b) [
    | some reason ↦ (excluded_for reason, w)
    | none ↦
        let (rl, h) = ask_limiter q b w in
        let w' : World F = record w { hits = h } in
        if not rl.allowed && text_eq p.exceed "REJECT"
        then (excluded_for Reason.rate_limited_out, w')
        else (candidate_of (candidate q p w.db b rl), w')
  ]

  abbrev pub add_verdict :
      BrokerAccount F
      → Verdict F
      → List (RouteCandidate F) × List Exclusion
      → List (RouteCandidate F) × List Exclusion
  add_verdict b (candidate_of c) (cs, es) = (c ∷ cs, es)
  add_verdict b (excluded_for reason) (cs, es) =
      (cs, record { broker_account_id = b.id; reason = reason } ∷ es)

  unfoldable pub consider_all :
      Query
      → Policy F
      → List (BrokerAccount F)
      → World F
      → (List (RouteCandidate F) × List Exclusion) × World F
  consider_all q p [] w = (([], []), w)
  consider_all q p (b ∷ l) w =
      let (v, w') = consider q p b w in
      let (found, w'') = consider_all q p l w' in (add_verdict b v found, w'')

  -- `candidates.sort(key=…, reverse=True)`: the best first, equal ones in their old order.
  unfoldable pub insert_by_score :
      RouteCandidate F → List (RouteCandidate F) → List (RouteCandidate F)
  insert_by_score c [] = c ∷ []
  insert_by_score c (x ∷ l) =
      if lt c.route_score x.route_score then x ∷ insert_by_score c l else c ∷ x ∷ l

  unfoldable pub by_score : List (RouteCandidate F) → List (RouteCandidate F)
  unfolding insert_by_score
  by_score [] = []
  by_score (c ∷ l) = insert_by_score c (by_score l)

  abbrev pub first_candidate : List (RouteCandidate F) → Option (RouteCandidate F)
  first_candidate [] = none
  first_candidate (c ∷ l) = some c

  unfoldable pub primary_of : Query → List (RouteCandidate F) → Option (RouteCandidate F)
  primary_of q l = elim (first_row (λ (c : RouteCandidate F). is_preferred q c.broker.id) l) [
    | some c ↦ some c
    | none ↦ first_candidate l
  ]

  -- The failover chain: the primary, then the others in the order of their scores.
  unfoldable pub chain_of : Query → List (RouteCandidate F) → List (RouteCandidate F)
  unfolding primary_of
  chain_of q l = elim (primary_of q l) [
    | none ↦ []
    | some c ↦ c ∷ where_rows (λ (x : RouteCandidate F). not (x.broker.id == c.broker.id)) l
  ]

  unfoldable pub decide :
      Query → Policy F → List (RouteCandidate F) × List Exclusion → RouteDecision F
  unfolding by_score primary_of chain_of
  decide q p (cs, es) = record {
    primary = primary_of q (by_score cs);
    chain = chain_of q (by_score cs);
    excluded = es;
    require_assigned_ip = p.require_ip;
  }

  -- The enabled brokers of the client.
  unfoldable pub own_brokers : Query → Db F → List (BrokerAccount F)
  own_brokers q db =
      where_rows (λ (b : BrokerAccount F). b.client_id == q.client_id && b.enabled) db.brokers

  abbrev pub policy_of : World F → F → List (HealthRow F) → Policy F
  policy_of w degraded_min rows = record {
    require_ip =
        flag_or (get_value "routing.require_assigned_ip" (("enabled", Scalar.flag true) ∷ []) w.db)
          "enabled" true;
    degraded_min = degraded_min;
    exceed = exceed_policy w;
    rows = rows;
  }

  -- The loop, and the decision that it leads to.
  abbrev pub finish : Query → List (BrokerAccount F) → Policy F → Action F (RouteDecision F)
  finish q brokers p w = let (found, w') = consider_all q p brokers w in (ok (decide q p found), w')

  abbrev pub need_primary : RouteDecision F → Action F (RouteDecision F)
  need_primary d w = elim d.primary [ none ↦ (raised (app no_route 409), w) | some c ↦ (ok d, w) ]

  module _ (settings : Settings F) where
    -- What is read before the loop, the health rows last.
    unfoldable pub read_policy : Action F (Policy F)
    read_policy w =
        elim (float_or (get_value "routing.health_thresholds" default_thresholds w.db)
          "degraded_min" (nat 50)) [
            | raised e ↦ (raised e, w)
            | ok degraded_min ↦
                (do rows ← latest_for_brokers settings; pure (policy_of w degraded_min rows)) w
          ]

    unfoldable pub select : Query → Action F (RouteDecision F)
    select q = do brokers ← gets (λ w. own_brokers q w.db); p ← read_policy; finish q brokers p

    unfoldable pub select_or_raise : Query → Action F (RouteDecision F)
    select_or_raise q = do d ← select q; need_primary d
