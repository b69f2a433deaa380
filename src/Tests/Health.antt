-- ===== src/Tests/Health.antt =====
-- Statuses and rows.
use mathlib.Core.List.{map}
use broker_bridge.Base.{ℕ, ◌≡◌, refl, whole_numbers}
use broker_bridge.Health.{latest, row_of, latest_for, latest_for_all}
use broker_bridge.Health.Latest.{Probed, latest_for_all-Probed}
use broker_bridge.Tests.Fixtures.{tables, world, settings}
use broker_bridge.World.{ok}

measured :
    (latest_for_all {F = ℕ} settings tables.brokers world).0 ≡ ok (map row_of tables.snapshots)
unfolding latest_for_all latest_for latest
measured = refl

latest_for_all-Probed_example :
    Probed world (latest_for_all {F = ℕ} settings tables.brokers world).1
latest_for_all-Probed_example = latest_for_all-Probed settings tables.brokers world
