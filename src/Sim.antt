-- ===== src/Sim.antt =====
-- The simulator: the fault flags of sim/flags.py and what sim/service.py pushes to the providers.
pub mod Exclusive
use broker_bridge.Base.{
  ℕ, String, Bool, true, false, Option, none, some, List, [], ◌∷◌, ◌++◌, text_eq, if◌then◌else◌,
  length, take, drop, keep_last,
}
use mathlib.Core.List.{reverse}
use broker_bridge.World.{
  Fault, Result, key_error, ok, raised, MockBroker, FaultId, Faults, Action, modify,
}

abbrev pub fault_of : String → Option FaultId
fault_of s =
    if text_eq s "broker_unavailable"
    then some FaultId.broker_unavailable
    else if text_eq s "broker_reject"
    then some FaultId.broker_reject
    else if text_eq s "infra_probe_fail"
    then some FaultId.infra_probe_fail
    else none

-- `is_enabled`
abbrev pub enabled : FaultId → Faults → Bool
enabled FaultId.broker_unavailable f = f.unavailable
enabled FaultId.broker_reject f = f.reject
enabled FaultId.infra_probe_fail f = f.infra

abbrev pub unavailable_fault : Fault
unavailable_fault = record { code = "BROKER_UNAVAILABLE"; status = 503; retryable = true }

abbrev pub reject_fault : Fault
reject_fault = record { code = "BROKER_REJECT"; status = 400; retryable = false }

unfoldable pub active_broker_fault : Faults → Option Fault
active_broker_fault f =
    if f.unavailable then some unavailable_fault else if f.reject then some reject_fault else none

abbrev pub history_size : ℕ
history_size = 200

-- `record`: the entry is appended, and only the last 200 stay.
abbrev pub record_action : Bool → FaultId → Faults → Faults
record_action on id f = record f { history = keep_last history_size (f.history ++ (on, id) ∷ []) }

-- The flags after `_faults[fault_id]["enabled"] = enabled`, the other broker fault switched off
-- first where a broker fault is switched on.
abbrev pub switch : FaultId → Bool → Faults → Faults
switch FaultId.broker_unavailable on f = record f {
  unavailable = on;
  reject = if on then false else f.reject;
}
switch FaultId.broker_reject on f = record f {
  reject = on;
  unavailable = if on then false else f.unavailable;
}
switch FaultId.infra_probe_fail on f = record f { infra = on }

unfoldable pub set_enabled : String → Bool → Faults → Result Faults
set_enabled name on f = elim (fault_of name) [
  | none ↦ raised key_error
  | some id ↦ ok (record_action on id (switch id on f))
]

abbrev pub note_disabled : FaultId → Faults → List (Bool × FaultId)
note_disabled id f = if enabled id f then (false, id) ∷ [] else []

unfoldable pub clear_all : Faults → Faults
clear_all f = record {
  unavailable = false;
  reject = false;
  infra = false;
  history = keep_last history_size (
      f.history
      ++ (note_disabled FaultId.broker_unavailable f
          ++ (note_disabled FaultId.broker_reject f ++ note_disabled FaultId.infra_probe_fail f)));
}

-- `get_fault_history`: the newest first, a page of them, and how many there are.
unfoldable pub get_fault_history : ℕ → ℕ → Faults → List (Bool × FaultId) × ℕ
get_fault_history limit offset f = (take limit (drop offset (reverse f.history)), length f.history)

-- `apply_faults_to_providers`, on the broker; the infrastructure is another system.
unfoldable pub apply_faults : Faults → MockBroker → MockBroker
apply_faults f b = record b { persistent_fault = active_broker_fault f }

module _ {F : Type 0} where
  unfoldable pub apply_faults_to_providers : Action F (Unit {0})
  unfolding apply_faults
  apply_faults_to_providers = modify (λ w. record w { broker = apply_faults w.faults w.broker })

  -- `set_fault`
  unfoldable pub set_fault : String → Bool → Action F (Unit {0})
  unfolding apply_faults_to_providers set_enabled
  set_fault name on w = elim (set_enabled name on w.faults) [
    | raised e ↦ (raised e, w)
    | ok f ↦ apply_faults_to_providers (record w { faults = f })
  ]

  -- `clear_all_faults`
  unfoldable pub clear_all_faults : Action F (Unit {0})
  unfolding apply_faults_to_providers clear_all
  clear_all_faults w = apply_faults_to_providers (record w { faults = clear_all w.faults })
