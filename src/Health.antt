-- ===== src/Health.antt =====
-- health/service.py: the health score of a broker, its status, the probes, and the latest snapshots.
pub mod Status
pub mod Latest
use broker_bridge.Base.{
  ℕ, Bool, true, false, ◌&&◌, Option, none, some, List, [], ◌∷◌, ◌++◌, leb, ◌==◌, if◌then◌else◌,
  or_else, where_rows, first_row, ℤ, Real, nat, le, fmax, fmin, is_zero, pos, negsuc,
}
use broker_bridge.Models.{
  BrokerAccount, StaticIp, IpAssignment, HealthStatus, HealthSnapshot, Scalar, is_active,
}
use broker_bridge.World.{
  Result, exception, ok, raised, Db, World, Settings, Action, pure, ◌>>=◌, ◌>>◌, update_db, commit,
}
use broker_bridge.Config.{Value, get_value, float_or}
use broker_bridge.Broker.{probe}

-- The rows of the join of the active assignments of a broker with their addresses.
abbrev pub find_ip : ℕ → List StaticIp → Option StaticIp
find_ip id = first_row (λ (ip : StaticIp). ip.id == id)

abbrev pub active_for : ℕ → IpAssignment → Bool
active_for broker a = a.broker_account_id == broker && is_active a.status

abbrev pub join_ips : ℕ → List IpAssignment → List StaticIp → List (IpAssignment × StaticIp)
join_ips broker [] ips = []
join_ips broker (a ∷ l) ips =
    (if active_for broker a
      then elim (find_ip a.static_ip_id ips) [ none ↦ [] | some ip ↦ (a, ip) ∷ [] ]
      else [])
    ++ join_ips broker l ips

-- `result.first()`
abbrev pub head? {ℓ} : {A : Type ℓ} → List A → Option A
head? [] = none
head? (x ∷ l) = some x

module _ {F : Type 0} where
  -- `_active_assignment` of routing/engine.py, the query of `_ip_health_for_broker` too
  unfoldable pub active_assignment : ℕ → Db F → Option (IpAssignment × StaticIp)
  active_assignment broker db = head? (join_ips broker db.assignments db.ips)

-- `a <= b` on Python's integers
abbrev pub le_int : ℤ → ℤ → Bool
le_int (pos a) (pos b) = leb a b
le_int (pos a) (negsuc b) = false
le_int (negsuc a) (pos b) = true
le_int (negsuc a) (negsuc b) = leb b a

pub record HealthRow (F : Type 0) : Type 0 where
  pub broker_account_id : ℕ
  pub score : F
  pub status : HealthStatus

module _ {F : Type 0} ⦃r : Real F⦄ where
  abbrev pub clamp : F → F → F → F
  clamp value lo hi = fmax lo (fmin hi value)

  -- `Result`'s bind, for `float(…)`, which may raise
  abbrev pub float_then : {A : Type 0} → Result F → (F → Result A) → Result A
  float_then (ok x) f = f x
  float_then (raised e) f = raised e

  unfoldable pub compute_health_score : F → F → F → Bool → F → Value F → F → Result F
  compute_health_score latency success timeout connectivity ip_health weights budget =
      if is_zero budget
      then raised (exception "ZeroDivisionError")
      else let latency_score =
          clamp (r.mul (nat 100) (r.sub (nat 1) (r.div latency budget))) (nat 0) (nat 100) in
        let connectivity_score = if connectivity then nat 100 else nat 0 in
        float_then (float_or weights "w_lat" (r.div (nat 25) (nat 100))) λ w_lat.
          float_then (float_or weights "w_succ" (r.div (nat 30) (nat 100))) λ w_succ.
            float_then (float_or weights "w_conn" (r.div (nat 15) (nat 100))) λ w_conn.
              float_then (float_or weights "w_to" (r.div (nat 20) (nat 100))) λ w_to.
                float_then (float_or weights "w_ip" (r.div (nat 10) (nat 100))) λ w_ip. ok (
                  r.add
                    (r.add
                      (r.add
                        (r.add (r.mul w_lat latency_score) (r.mul w_succ (r.mul success (nat 100))))
                        (r.mul w_conn connectivity_score))
                      (r.mul w_to (r.sub (nat 100) (r.mul timeout (nat 100)))))
                    (r.mul w_ip ip_health))

  -- `status_from_score`, the two thresholds read
  unfoldable pub status_between : F → F → F → HealthStatus
  status_between score healthy_min degraded_min =
      if le healthy_min score
      then HealthStatus.healthy
      else if le degraded_min score
      then HealthStatus.degraded
      else HealthStatus.unhealthy

  unfoldable pub status_from_score : F → Value F → Result HealthStatus
  unfolding status_between
  status_from_score score thresholds =
      float_then (float_or thresholds "healthy_min" (nat 80)) λ healthy_min.
        float_then (float_or thresholds "degraded_min" (nat 50))
          λ degraded_min. ok (status_between score healthy_min degraded_min)

  abbrev pub default_weights : Value F
  default_weights =
      ("w_lat", Scalar.number (r.div (nat 25) (nat 100)))
      ∷ ("w_succ", Scalar.number (r.div (nat 30) (nat 100)))
      ∷ ("w_conn", Scalar.number (r.div (nat 15) (nat 100)))
      ∷ ("w_to", Scalar.number (r.div (nat 20) (nat 100)))
      ∷ ("w_ip", Scalar.number (r.div (nat 10) (nat 100)))
      ∷ []

  abbrev pub default_thresholds : Value F
  default_thresholds =
      ("healthy_min", Scalar.number (nat 80)) ∷ ("degraded_min", Scalar.number (nat 50)) ∷ []

  -- `_ip_health_for_broker`
  unfoldable pub ip_health_for : ℕ → Db F → F
  unfolding active_assignment
  ip_health_for broker db = elim (active_assignment broker db) [
    | none ↦ nat 50
    | some (a, ip) ↦ elim ip.health_score [ none ↦ nat 100 | some n ↦ nat n ]
  ]

  -- What `probe_broker` measures: the snapshot, or what its arithmetic raises.
  unfoldable pub measure : Settings F → ℕ → World F → Result (HealthSnapshot F)
  unfolding probe ip_health_for
  measure settings broker w =
      let p = probe w.faults w.broker in
      let connected = or_else p.connectivity p.probe_ok in
      let ip_health = ip_health_for broker w.db in
      float_then
        (compute_health_score w.probe_latency p.success_rate p.timeout_rate connected ip_health
          (get_value "routing.weights" default_weights w.db) settings.latency_budget_ms)
        λ score.
          elim (status_from_score score
            (get_value "routing.health_thresholds" default_thresholds w.db)) [
              | raised e ↦ raised e
              | ok status ↦ ok (record {
                broker_account_id = broker;
                latency_ms = r.round w.probe_latency 4;
                success_rate = r.round p.success_rate 6;
                timeout_rate = r.round p.timeout_rate 6;
                connectivity = connected;
                ip_health = r.round ip_health 4;
                score = r.round score 4;
                status = status;
                measured_at = w.now;
              })
            ]

  unfoldable pub probe_broker : Settings F → ℕ → Action F (HealthSnapshot F)
  probe_broker settings broker w = elim (measure settings broker w) [
    | raised e ↦ (raised e, w)
    | ok snap ↦
        (do
          update_db (λ db. record db { snapshots = db.snapshots ++ snap ∷ [] })
          commit
          pure snap)
          w
  ]

  -- The newest snapshot of a broker; of equally old ones the last.
  unfoldable pub latest : ℕ → List (HealthSnapshot F) → Option (HealthSnapshot F)
  latest broker [] = none
  latest broker (s ∷ l) =
      if s.broker_account_id == broker
      then elim (latest broker l) [
        | none ↦ some s
        | some t ↦ if leb s.measured_at t.measured_at then some t else some s
      ]
      else latest broker l

  abbrev pub row_of : HealthSnapshot F → HealthRow F
  row_of s = record { broker_account_id = s.broker_account_id; score = s.score; status = s.status }

  -- One broker of the loop of `latest_for_brokers`: it is probed if it is enabled and has no
  -- snapshot, and has no row if there is none after that.
  unfoldable pub latest_for : Settings F → BrokerAccount F → Action F (List (HealthRow F))
  latest_for settings b w = elim (latest b.id w.db.snapshots) [
    | some s ↦ (ok (row_of s ∷ []), w)
    | none ↦
        if b.enabled
        then (do s ← probe_broker settings b.id; pure (row_of s ∷ [])) w
        else (ok [], w)
  ]

  unfoldable pub latest_for_all :
      Settings F → List (BrokerAccount F) → Action F (List (HealthRow F))
  latest_for_all settings [] = pure []
  latest_for_all settings (b ∷ l) = do
    rows ← latest_for settings b
    more ← latest_for_all settings l
    pure (rows ++ more)

  unfoldable pub insert_by_priority :
      BrokerAccount F → List (BrokerAccount F) → List (BrokerAccount F)
  insert_by_priority b [] = b ∷ []
  insert_by_priority b (x ∷ l) =
      if le_int b.priority x.priority then b ∷ x ∷ l else x ∷ insert_by_priority b l

  unfoldable pub by_priority : List (BrokerAccount F) → List (BrokerAccount F)
  unfolding insert_by_priority
  by_priority [] = []
  by_priority (b ∷ l) = insert_by_priority b (by_priority l)

  unfoldable pub latest_for_brokers : Settings F → Action F (List (HealthRow F))
  latest_for_brokers settings w = latest_for_all settings (by_priority w.db.brokers) w

  -- `probe_all`, over the enabled brokers
  unfoldable pub probe_each :
      Settings F → List (BrokerAccount F) → Action F (List (HealthSnapshot F))
  probe_each settings [] = pure []
  probe_each settings (b ∷ l) = do
    s ← probe_broker settings b.id
    more ← probe_each settings l
    pure (s ∷ more)

  unfoldable pub probe_all : Settings F → Action F (List (HealthSnapshot F))
  unfolding probe_each
  probe_all settings w =
      probe_each settings (where_rows (λ (b : BrokerAccount F). b.enabled) w.db.brokers) w
