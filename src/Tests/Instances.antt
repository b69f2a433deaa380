-- ===== src/Tests/Instances.antt =====
-- Instance 40 at work: it is suspended, and destroyed; the third call finds it destroyed.
use broker_bridge.Base.{ℕ, ◌≡◌, refl, true, some, [], ◌∷◌, whole_numbers}
use broker_bridge.Models.{InstanceStatus}
use broker_bridge.World.{app, invalid_state, World}
use broker_bridge.Infra.{call_infra}
use broker_bridge.Instances.{get_instance, destroy_instance, suspend_instance, start_instance}
use broker_bridge.Instances.Lifecycle.{
  call, Settled, call-Settled, run, IsDestroyed, run-IsDestroyed, destroy, suspend, start,
}
use broker_bridge.Tests.Fixtures.{world}

abbrev gone : World ℕ
gone = run (suspend 40 ∷ destroy 40 ∷ []) world

gone_40 : IsDestroyed 40 gone
unfolding run call suspend_instance destroy_instance get_instance call_infra
gone_40 = (
  record {
    id = 40;
    client_id = 2;
    provider = "mock";
    external_id = "i-40";
    region = "ewr";
    status = InstanceStatus.destroyed;
    auto_renew = true;
  },
  refl,
  refl,
)

refused_40 : (call (start 40) gone).0 ≡ some (app invalid_state 409)
unfolding run call suspend_instance start_instance destroy_instance get_instance call_infra
refused_40 = refl

call-Settled_example : Settled (suspend 40) world (call (suspend 40) world)
call-Settled_example = call-Settled (suspend 40) world

run-IsDestroyed_example : IsDestroyed 40 (run (start 40 ∷ suspend 40 ∷ []) gone)
run-IsDestroyed_example = run-IsDestroyed (start 40 ∷ suspend 40 ∷ []) gone 40 gone_40
