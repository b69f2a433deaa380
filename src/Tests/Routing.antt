-- ===== src/Tests/Routing.antt =====
-- A routing decision: broker 11 has the best score, 10 is preferred, 12 has no address.
use mathlib.Core.List.{map}
use broker_bridge.Base.{
  ℕ, ◌+◌, ◌≤◌, ◌≡◌, refl, true, false, none, some, List, [], ◌∷◌, arith, All, whole_numbers,
  whole_numbers-IsOrdered,
}
use broker_bridge.World.{Result, ok, raised}
use broker_bridge.Routing.{
  RouteCandidate, RouteDecision, Query, Policy, screen, candidate, consider, consider_all,
  insert_by_score, by_score, primary_of, chain_of, decide, own_brokers, read_policy, select,
}
use broker_bridge.Tests.Fixtures.{tables, world, settings}
use broker_bridge.Config.{get_value}
use broker_bridge.RateLimit.{pressure_of, check, exceed_policy}
use broker_bridge.Health.{
  active_assignment, latest, latest_for, latest_for_all, insert_by_priority, by_priority,
  latest_for_brokers,
}
use broker_bridge.Routing.Select.{select-IsEligible, select-IsChain, select-partition}
use broker_bridge.Routing.Chain.{IsChain}
use broker_bridge.Routing.Partition.{count_brokers, count_candidates, count_excluded}
use broker_bridge.Routing.Eligible.{IsEligible}

abbrev query : Query
query = record {
  client_id = 1;
  preferred_broker_id = some 10;
  region_preference = some "ewr";
  consume_rate_limit = false;
}

-- The decision of a run, if it makes one.
abbrev chain_ids : Result (RouteDecision ℕ) → List ℕ
chain_ids (ok d) = map (λ (c : RouteCandidate ℕ). c.broker.id) d.chain
chain_ids (raised e) = []

abbrev or_empty : Result (RouteDecision ℕ) → RouteDecision ℕ
or_empty (ok d) = d
or_empty (raised e) = record {
  primary = none;
  chain = [];
  excluded = [];
  require_assigned_ip = true;
}

abbrev decision : RouteDecision ℕ
decision = or_empty (select settings query world).0

run_chain : chain_ids (select settings query world).0 ≡ 10 ∷ 11 ∷ []
unfolding select read_policy own_brokers latest_for_brokers latest_for_all latest_for latest
    by_priority insert_by_priority consider_all consider screen candidate check pressure_of
    exceed_policy get_value active_assignment decide by_score insert_by_score primary_of chain_of
run_chain = refl

decided : (select settings query world).0 ≡ ok decision
unfolding select read_policy own_brokers latest_for_brokers latest_for_all latest_for latest
    by_priority insert_by_priority get_value
decided = refl

select-IsEligible_example :
    (p : Policy ℕ) × ((read_policy settings world).0 ≡ ok p)
    × All (IsEligible query p tables) decision.chain
select-IsEligible_example = select-IsEligible settings query world decision decided

select-IsChain_example : IsChain query decision.chain decision.primary
select-IsChain_example =
    select-IsChain settings query world decision whole_numbers-IsOrdered decided

own_once : (m : ℕ) → count_brokers m (own_brokers query tables) ≤ 1
unfolding own_brokers
own_once m = ground arith

select-partition_example :
    count_candidates 12 decision.chain + count_excluded 12 decision.excluded
    ≡ count_brokers 12 (own_brokers query tables)
select-partition_example = select-partition settings 12 query world decision own_once decided
