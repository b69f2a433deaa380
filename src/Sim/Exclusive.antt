-- ===== src/Sim/Exclusive.antt =====
-- The fault flags exclude one another, the history is bounded, and clearing clears.
use broker_bridge.Base.{
  ◌≤◌, String, ◌≡◌, refl, ◌∙◌, ◌≢◌, Bool, true, false, ◌&&◌, none, some, [], ◌∷◌, ◌++◌, arith,
  length, length-keep_last-le,
}
use broker_bridge.World.{key_error, ok, raised, FaultId, Faults, World}
use broker_bridge.Sim.{
  fault_of, enabled, active_broker_fault, history_size, record_action, switch, set_enabled,
  note_disabled, clear_all, set_fault, clear_all_faults,
}

-- At most one broker fault is on, and the history has at most 200 entries.
pub record IsValid (f : Faults) : Type 0 where
  pub exclusive : (f.unavailable && f.reject) ≡ false
  pub bounded : length f.history ≤ history_size

-- The broker holds the fault that the flags show.
abbrev pub InStep : {F : Type 0} → World F → Type 0
InStep w = w.broker.persistent_fault ≡ active_broker_fault w.faults

-- Switching one fault, the history aside.
switch-exclusive :
    (id : FaultId) (on : Bool) (f : Faults)
    → (f.unavailable && f.reject) ≡ false
    → ((switch id on f).unavailable && (switch id on f).reject) ≡ false
switch-exclusive FaultId.broker_unavailable on f h = ground arith
switch-exclusive FaultId.broker_reject on f h = ground arith
switch-exclusive FaultId.infra_probe_fail on f h = h

enabled-switch : (id : FaultId) (on : Bool) (f : Faults) → enabled id (switch id on f) ≡ on
enabled-switch FaultId.broker_unavailable on f = refl
enabled-switch FaultId.broker_reject on f = refl
enabled-switch FaultId.infra_probe_fail on f = refl

enabled-switch_ne :
    (id j : FaultId) (on : Bool) (f : Faults)
    → id ≢ j
    → enabled j (switch id on f) ≡ true
    → enabled j f ≡ true
enabled-switch_ne FaultId.broker_unavailable FaultId.broker_reject on f ne h = ground arith
enabled-switch_ne FaultId.broker_reject FaultId.broker_unavailable on f ne h = ground arith
enabled-switch_ne FaultId.infra_probe_fail FaultId.broker_reject on f ne h = h
enabled-switch_ne FaultId.infra_probe_fail FaultId.broker_unavailable on f ne h = h
enabled-switch_ne FaultId.broker_unavailable FaultId.infra_probe_fail on f ne h = h
enabled-switch_ne FaultId.broker_reject FaultId.infra_probe_fail on f ne h = h
enabled-switch_ne FaultId.broker_unavailable FaultId.broker_unavailable on f ne h = absurd (ne refl)
enabled-switch_ne FaultId.broker_reject FaultId.broker_reject on f ne h = absurd (ne refl)
enabled-switch_ne FaultId.infra_probe_fail FaultId.infra_probe_fail on f ne h = absurd (ne refl)

-- The history aside, the entry that `record` adds changes nothing that is read.
enabled-record_action :
    (id j : FaultId) (on : Bool) (f : Faults) → enabled j (record_action on id f) ≡ enabled j f
enabled-record_action id FaultId.broker_unavailable on f = refl
enabled-record_action id FaultId.broker_reject on f = refl
enabled-record_action id FaultId.infra_probe_fail on f = refl

-- Switching a fault by its name keeps the flags valid, sets that flag as asked, and switches no
-- other flag on.
pub set_enabled-IsValid :
    (name : String) (on : Bool) (f : Faults) (id : FaultId)
    → IsValid f
    → fault_of name ≡ some id
    → (g : Faults) × (set_enabled name on f ≡ ok g)
      × IsValid g
      × (enabled id g ≡ on)
      × ((j : FaultId) → id ≢ j → enabled j g ≡ true → enabled j f ≡ true)
unfolding set_enabled
set_enabled-IsValid name on f id v known = (
  record_action on id (switch id on f),
  rw (known, set_enabled),
  record {
    exclusive = switch-exclusive id on f v.exclusive;
    bounded = length-keep_last-le history_size ((switch id on f).history ++ (on, id) ∷ []);
  },
  enabled-record_action id id on (switch id on f) ∙ enabled-switch id on f,
  λ j ne h. enabled-switch_ne id j on f ne (rw enabled-record_action at h),
)

-- A name that is no fault raises `KeyError`.
pub set_enabled_unknown :
    (name : String) (on : Bool) (f : Faults)
    → fault_of name ≡ none
    → set_enabled name on f ≡ raised key_error
unfolding set_enabled
set_enabled_unknown name on f h = rw (h, set_enabled)

-- Clearing switches every fault off, keeps the flags valid, and leaves no broker fault active.
pub clear_all-IsValid :
    (f : Faults)
    → IsValid (clear_all f)
      × ((id : FaultId) → enabled id (clear_all f) ≡ false)
      × (active_broker_fault (clear_all f) ≡ none)
unfolding clear_all active_broker_fault
clear_all-IsValid f = (
  record {
    exclusive = refl;
    bounded = length-keep_last-le history_size (
        f.history
        ++ (note_disabled FaultId.broker_unavailable f
            ++ (note_disabled FaultId.broker_reject f
                ++ note_disabled FaultId.infra_probe_fail f)));
  },
  off,
  refl,
)
  where
    off : (id : FaultId) → enabled id (clear_all f) ≡ false
    off FaultId.broker_unavailable = refl
    off FaultId.broker_reject = refl
    off FaultId.infra_probe_fail = refl

-- If the mock broker holds the fault that the flags show, it does so after any call of `set_fault`,
-- also after one that raises.
pub set_fault-InStep :
    {F : Type 0} (name : String) (on : Bool) (w : World F)
    → InStep w
    → InStep (set_fault name on w).1
unfolding set_fault
set_fault-InStep name on w h = ground arith

-- After `clear_all_faults` the mock broker holds the fault that the flags show, whatever it held.
pub clear_all_faults-InStep : {F : Type 0} (w : World F) → InStep (clear_all_faults w).1
unfolding clear_all_faults
clear_all_faults-InStep w = refl
