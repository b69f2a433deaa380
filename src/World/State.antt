-- ===== src/World/State.antt =====
-- The tables together, the in-process objects, and the settings.
use broker_bridge.Base.{ℕ, String, Bool, Option, List}
use broker_bridge.World.Errors.{Fault}
use broker_bridge.Models.{
  Client, BrokerAccount, StaticIp, IpAssignment, BrokerIpUsageHistory, InstanceStatus, Instance,
  BrokerOrderId, Order, OrderAttempt, FailoverEvent, Subscription, HealthSnapshot, OutboxEvent,
  ConfigurationItem, BrokerSession, ProviderConfig, WhitelistSnapshot, WhitelistFinding,
}

pub record Db (F : Type 0) : Type 0 where
  pub clients : List Client
  pub brokers : List (BrokerAccount F)
  pub ips : List StaticIp
  pub assignments : List IpAssignment
  pub usage : List BrokerIpUsageHistory
  pub instances : List Instance
  pub orders : List Order
  pub attempts : List OrderAttempt
  pub failovers : List FailoverEvent
  pub outbox : List OutboxEvent
  pub subscriptions : List Subscription
  pub snapshots : List (HealthSnapshot F)
  pub sessions : List BrokerSession
  pub config : List (ConfigurationItem F)
  pub whitelists : List WhitelistSnapshot
  pub findings : List WhitelistFinding
  pub providers : List (ProviderConfig F)

-- `MemoryLock._locks`: the token that holds each key. The keys `lock:ip:…`, `lock:broker:…:ip` and
-- `lock:session:…` are told apart by constructors.
pub data LockKey : Type 0 where
  ip_lock broker_ip_lock session_lock : ℕ → LockKey

abbrev pub Locks : Type 0
Locks = List (LockKey × ℕ)

-- `MemoryRateLimit._hits`: the times of the recent calls for each broker.
abbrev pub Hits : Type 0
Hits = List (ℕ × List ℕ)

-- `MockBrokerProvider`
pub record MockBroker : Type 0 where
  pub fail_remaining : ℕ
  pub fail_fault : Fault
  pub persistent_fault : Option Fault
  pub orders : List (BrokerOrderId × Bool)

-- events/bus_buffer.py: an event without an identifier is numbered by the events seen before it.
pub data BusId : Type 0 where
  envelope_id counted_id : ℕ → BusId

pub record BusRow : Type 0 where
  pub id : BusId
  pub event_type : String
  pub topic : String
  pub subject : ℕ
  pub created_at : ℕ
  pub source : String

pub record BusBuffer : Type 0 where
  pub rows : List BusRow
  pub total_seen : ℕ
  pub last_event_at : Option ℕ
  pub by_type : List (String × ℕ)
  pub source : String

pub data FaultId : Type 0 where
  broker_unavailable broker_reject infra_probe_fail : FaultId

-- The `enabled` marks of sim/flags.py, and its history of (action, fault).
pub record Faults : Type 0 where
  pub unavailable : Bool
  pub reject : Bool
  pub infra : Bool
  pub history : List (Bool × FaultId)

-- What a provider answers to `create_ip` and `create_instance`: an address or a machine.
pub record Resource : Type 0 where
  pub external_id : String
  pub ip_address : String
  pub provider : Option String
  pub status : Option InstanceStatus
  pub auto_renew : Option Bool

-- What the infrastructure provider answers to one call: it is another system, so its answers are
-- given in the order in which the calls are made. Past the end of the list every call fails.
pub data Reply : Type 0 where
  accepted : Reply
  resource : Resource → Reply
  mock_error : String → ℕ → Reply
  unreachable : Reply

pub record World (F : Type 0) : Type 0 where
  pub db : Db F
  pub durable : Db F
  pub now : ℕ
  pub next_id : ℕ
  pub locks : Locks
  pub hits : Hits
  pub faults : Faults
  pub broker : MockBroker
  pub infra : List Reply
  pub buffer : BusBuffer
  pub probe_latency : F
  pub inflight : ℕ
  pub permits : ℕ

-- config/settings.py, as far as it is read, and core/crypto.py's two functions, which stand on the
-- `cryptography` package.
pub record Settings (F : Type 0) : Type 0 where
  pub max_inflight_orders : ℕ
  pub latency_budget_ms : F
  pub ip_reuse_cooldown_hours : ℕ
  pub encrypt_secret : String → String
  pub decrypt_secret : String → String
  -- `uuid.hex`
  pub hex : ℕ → String
