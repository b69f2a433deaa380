-- ===== src/Broker.antt =====
-- providers/broker/mock.py, the broker that `ProviderManager.get_broker_provider` returns for every
-- provider type: its fault hooks, and the calls that the services make.
use broker_bridge.Base.{
  ℕ, suc, ◌+◌, ◌-◌, String, Bool, true, false, not, ◌||◌, Option, none, some, List, [], ◌∷◌,
  text_eq, ltb, ◌==◌, if◌then◌else◌, is_text, Real, nat,
}
use broker_bridge.World.{Fault, mock_broker_error, ok, raised, MockBroker, Faults, Settings, Action}
use broker_bridge.Sim.{active_broker_fault}
use broker_bridge.Models.{BrokerOrderId, SessionStatus}
use Prim.Native.String.{◌++◌ as join}

-- `_active_fault`: the live flags come before the fault that was pushed.
unfoldable pub active_fault : Faults → MockBroker → Option Fault
unfolding active_broker_fault
active_fault f b = elim (active_broker_fault f) [ some x ↦ some x | none ↦ b.persistent_fault ]

-- The test hooks.
abbrev pub fail_next_n : ℕ → ℕ → String → MockBroker → MockBroker
fail_next_n n status code b = record b {
  fail_remaining = n;
  fail_fault = record { code = code; status = status; retryable = true };
}

abbrev pub clear_faults : MockBroker → MockBroker
clear_faults b = record b { persistent_fault = none; fail_remaining = 0 }

abbrev pub same_order : BrokerOrderId → BrokerOrderId → Bool
same_order (BrokerOrderId.mock a) (BrokerOrderId.mock b) = a == b
same_order (BrokerOrderId.foreign a) (BrokerOrderId.foreign b) = text_eq a b
same_order _ _ = false

-- `self._orders[id] = …`; the mark says that the order is not cancelled.
abbrev pub set_order :
    BrokerOrderId → Bool → List (BrokerOrderId × Bool) → List (BrokerOrderId × Bool)
set_order id on [] = (id, on) ∷ []
set_order id on (e ∷ l) = if same_order e.0 id then (id, on) ∷ l else e ∷ set_order id on l

abbrev pub has_order : BrokerOrderId → List (BrokerOrderId × Bool) → Bool
has_order id [] = false
has_order id (e ∷ l) = same_order e.0 id || has_order id l

pub record Probe (F : Type 0) : Type 0 where
  pub probe_ok : Bool
  pub success_rate : F
  pub timeout_rate : F
  pub connectivity : Option Bool

pub record Tokens : Type 0 where
  pub access_token : String
  pub refresh_token : String
  pub expires_at : ℕ
  pub token_status : SessionStatus

-- One hour, in microseconds.
abbrev pub hour : ℕ
hour = 3600000000

module _ {F : Type 0} where
  unfoldable pub place_order : Action F BrokerOrderId
  unfolding active_fault
  place_order w = elim (active_fault w.faults w.broker) [
    | some fault ↦ (raised (mock_broker_error fault), w)
    | none ↦
        if ltb 0 w.broker.fail_remaining
        then (
          raised (mock_broker_error w.broker.fail_fault),
          record w { broker = record w.broker { fail_remaining = w.broker.fail_remaining - 1 } },
        )
        else (
          ok (BrokerOrderId.mock w.next_id),
          record w {
            next_id = suc w.next_id;
            broker = record w.broker {
              orders = set_order (BrokerOrderId.mock w.next_id) true w.broker.orders;
            };
          },
        )
  ]

  -- An identifier that the mock broker minted is cancelled even if it is not on its books.
  unfoldable pub cancel_order : BrokerOrderId → Action F (Unit {0})
  cancel_order (BrokerOrderId.mock n) w = (
    ok tt,
    record w {
      broker = record w.broker { orders = set_order (BrokerOrderId.mock n) false w.broker.orders };
    },
  )
  cancel_order (BrokerOrderId.foreign s) w =
      if has_order (BrokerOrderId.foreign s) w.broker.orders
      then (
        ok tt,
        record w {
          broker = record w.broker {
            orders = set_order (BrokerOrderId.foreign s) false w.broker.orders;
          };
        },
      )
      else (
        raised (
            mock_broker_error
              (record { code = "ORDER_NOT_FOUND"; status = 404; retryable = false })),
        w,
      )

  unfoldable pub authenticate : Settings F → Action F Tokens
  authenticate settings w = (
    ok (record {
      access_token = join "mock-access-" (settings.hex w.next_id);
      refresh_token = join "mock-refresh-" (settings.hex (suc w.next_id));
      expires_at = w.now + hour;
      token_status = SessionStatus.valid;
    }),
    record w { next_id = suc (suc w.next_id) },
  )

  -- An empty refresh token is replaced by a new one.
  unfoldable pub refresh_session : Settings F → String → Action F Tokens
  refresh_session settings token w = (
    ok (record {
      access_token = join "mock-access-" (settings.hex w.next_id);
      refresh_token =
          if is_text token then token else join "mock-refresh-" (settings.hex (suc w.next_id));
      expires_at = w.now + hour;
      token_status = SessionStatus.valid;
    }),
    record w { next_id = suc (suc w.next_id) },
  )

module _ {F : Type 0} ⦃r : Real F⦄ where
  -- A hard reject keeps the connection: the health goes down, the route stays.
  unfoldable pub probe : Faults → MockBroker → Probe F
  unfolding active_fault
  probe f b = elim (active_fault f b) [
    | none ↦ record {
      probe_ok = true;
      success_rate = nat 1;
      timeout_rate = nat 0;
      connectivity = none;
    }
    | some fault ↦
        if text_eq fault.code "BROKER_REJECT" || not fault.retryable
        then record {
          probe_ok = false;
          success_rate = r.div (nat 25) (nat 100);
          timeout_rate = r.div (nat 15) (nat 100);
          connectivity = some true;
        }
        else record {
          probe_ok = false;
          success_rate = nat 0;
          timeout_rate = nat 1;
          connectivity = some false;
        }
  ]
