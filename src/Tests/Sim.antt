-- ===== src/Tests/Sim.antt =====
-- The fault flags at work.
use broker_bridge.Base.{◌≡◌, refl, true, false, [], arith}
use broker_bridge.World.{key_error, raised, Faults}
use broker_bridge.Sim.{active_broker_fault, set_enabled, set_fault, clear_all_faults}
use broker_bridge.Sim.Exclusive.{
  IsValid, InStep, set_enabled_unknown, set_fault-InStep, clear_all_faults-InStep,
}
use broker_bridge.Tests.Fixtures.{world}

abbrev rejecting : Faults
rejecting = record { unavailable = false; reject = true; infra = false; history = [] }

rejecting-IsValid : IsValid rejecting
rejecting-IsValid = record { exclusive = refl; bounded = ground arith }

set_enabled_unknown_example : set_enabled "broker_down" true rejecting ≡ raised key_error
set_enabled_unknown_example = set_enabled_unknown "broker_down" true rejecting refl

world-InStep : InStep world
unfolding active_broker_fault
world-InStep = refl

set_fault-InStep_example : InStep (set_fault "broker_reject" true world).1
set_fault-InStep_example = set_fault-InStep "broker_reject" true world world-InStep

clear_all_faults-InStep_example : InStep (clear_all_faults world).1
clear_all_faults-InStep_example = clear_all_faults-InStep world
