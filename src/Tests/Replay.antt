-- ===== src/Tests/Replay.antt =====
-- Runs of the recovery of stuck orders.
use broker_bridge.Base.{ℕ, ◌+◌, ◌≤◌, ◌≡◌, refl, none, some, [], ◌∷◌, whole_numbers}
use broker_bridge.Models.{BrokerOrderId, AttemptStatus, OrderAttempt}
use broker_bridge.World.{World}
use broker_bridge.Replay.{
  count_outcome, refresh_order, adopted, list_stuck, recover_one, recover_all, run,
}
use broker_bridge.Replay.Recover.{Recovers, recover_one-Recovers, Adopts, recover_one-Adopts}
use broker_bridge.Replay.Summary.{IsTally, run-IsTally}
use broker_bridge.Tests.Fixtures.{tables, world, settings, order}

abbrev attempt : ℕ → ℕ → AttemptStatus → OrderAttempt
attempt id number status = record {
  id = id;
  order_id = 60;
  attempt_no = number;
  broker_account_id = 10;
  static_ip_id = some 20;
  status = status;
  broker_order_id = some (BrokerOrderId.mock number);
}

-- The first two attempts were taken by the broker, the last one failed; order 61 has none.
abbrev crashed : World ℕ
crashed = record world {
  db = record tables {
    orders = order 60 none ∷ order 61 none ∷ [];
    attempts =
        attempt 70 1 AttemptStatus.submitted
        ∷ attempt 71 2 AttemptStatus.submitted
        ∷ attempt 72 3 AttemptStatus.failed
        ∷ [];
  };
}

-- The newest attempt that was taken is adopted.
adopted_71 :
    adopted 60 crashed.db ≡ some (attempt 71 2 AttemptStatus.submitted, BrokerOrderId.mock 2)
unfolding adopted
adopted_71 = refl

abbrev adopting : World ℕ
adopting = record crashed { db = record crashed.db { orders = order 60 none ∷ [] } }

run_60 :
    (run settings (λ l. l) 50 adopting).0
    ≡ record { scanned = 1; retried = 1; recovered = 1; skipped = 0; failed = 0 }
unfolding run recover_all count_outcome recover_one refresh_order adopted list_stuck
run_60 = refl

recover_one-Recovers_example : Recovers settings 61 crashed (recover_one settings 61 crashed)
recover_one-Recovers_example = recover_one-Recovers settings 61 crashed (order 61 none, refl)

recover_one-Adopts_example : Adopts settings 60 crashed (recover_one settings 60 crashed)
recover_one-Adopts_example = recover_one-Adopts settings 60 crashed (order 60 none) refl refl refl

run-IsTally_example :
    let s = (run settings (λ l. l) 50 crashed).0 in
    (s.scanned ≡ s.recovered + (s.skipped + s.failed)) × IsTally s × (s.scanned ≤ 50)
run-IsTally_example = run-IsTally settings (λ l. l) 50 crashed
