-- ===== src/Models.antt =====
-- The tables (app/models/*.py): one record for each mapped class, one data type for each column of
-- status words. Identifiers (UUIDs) are numbers; times are microseconds. Columns that no service
-- reads for a decision (creation stamps, free-form metadata) are left out.
use broker_bridge.Base.{ℕ, String, Bool, true, false, Option, List, ℤ}

pub data ClientStatus : Type 0 where
  active suspended : ClientStatus

pub record Client : Type 0 where
  pub id : ℕ
  pub status : ClientStatus

pub record BrokerAccount (F : Type 0) : Type 0 where
  pub id : ℕ
  pub client_id : ℕ
  pub display_name : String
  pub priority : ℤ
  pub enabled : Bool
  pub allowed_regions : List String
  pub credentials_encrypted : String
  -- of `capabilities`, the entry that a service reads
  pub whitelist_format : Option String
  pub rate_limit_rps : Option F

pub data IpStatus : Type 0 where
  allocated attached detached released quarantined : IpStatus

pub record StaticIp : Type 0 where
  pub id : ℕ
  pub provider : String
  pub external_id : String
  pub ip_address : String
  pub region : String
  pub status : IpStatus
  pub instance_id : Option ℕ
  pub health_score : Option ℕ

pub data AssignmentStatus : Type 0 where
  active draining released : AssignmentStatus

pub record IpAssignment : Type 0 where
  pub id : ℕ
  pub client_id : ℕ
  pub broker_account_id : ℕ
  pub static_ip_id : ℕ
  pub status : AssignmentStatus
  pub released_at : Option ℕ

pub record BrokerIpUsageHistory : Type 0 where
  pub id : ℕ
  pub broker_account_id : ℕ
  pub static_ip_id : ℕ
  pub used_at : ℕ
  pub released_at : Option ℕ
  pub reuse_eligible_at : Option ℕ

pub data InstanceStatus : Type 0 where
  pending running suspended destroyed : InstanceStatus

pub record Instance : Type 0 where
  pub id : ℕ
  pub client_id : ℕ
  pub provider : String
  pub external_id : String
  pub region : String
  pub status : InstanceStatus
  pub auto_renew : Bool

-- The statuses that orders/service.py, replay/service.py and rotation.py name.
pub data OrderStatus : Type 0 where
  created submitting submitted failed cancelled filled rejected expired indoubt : OrderStatus

-- `mock-...` identifiers are minted by the mock broker, any other text is foreign to it.
pub data BrokerOrderId : Type 0 where
  mock : ℕ → BrokerOrderId
  foreign : String → BrokerOrderId

-- The quantity is counted in units of its column's last decimal, 10⁻⁸.
pub record Order : Type 0 where
  pub id : ℕ
  pub client_id : ℕ
  pub client_order_id : String
  pub side : String
  pub symbol : String
  pub quantity : ℕ
  pub order_type : String
  pub time_in_force : String
  pub status : OrderStatus
  pub broker_account_id : Option ℕ
  pub static_ip_id : Option ℕ
  pub preferred_broker_id : Option ℕ
  pub region_preference : Option String
  pub error_code : Option String
  pub broker_order_id : Option BrokerOrderId

pub data AttemptStatus : Type 0 where
  submitting submitted failed : AttemptStatus

pub record OrderAttempt : Type 0 where
  pub id : ℕ
  pub order_id : ℕ
  pub attempt_no : ℕ
  pub broker_account_id : ℕ
  pub static_ip_id : Option ℕ
  pub status : AttemptStatus
  pub broker_order_id : Option BrokerOrderId

pub record FailoverEvent : Type 0 where
  pub id : ℕ
  pub order_id : ℕ
  pub from_broker_id : ℕ
  pub to_broker_id : ℕ
  pub reason : String

pub data SubscriptionStatus : Type 0 where
  active expired : SubscriptionStatus

pub data TeardownMode : Type 0 where
  suspend destroy : TeardownMode

pub record Subscription : Type 0 where
  pub id : ℕ
  pub client_id : ℕ
  pub status : SubscriptionStatus
  pub starts_at : ℕ
  pub ends_at : ℕ
  pub teardown_mode : TeardownMode
  pub teardown_completed_at : Option ℕ

pub data HealthStatus : Type 0 where
  healthy degraded unhealthy : HealthStatus

pub record HealthSnapshot (F : Type 0) : Type 0 where
  pub broker_account_id : ℕ
  pub latency_ms : F
  pub success_rate : F
  pub timeout_rate : F
  pub connectivity : Bool
  pub ip_health : F
  pub score : F
  pub status : HealthStatus
  pub measured_at : ℕ

pub data OutboxStatus : Type 0 where
  pending sent error : OutboxStatus

-- The payload is reduced to the identifier of the row that the event is about.
pub record OutboxEvent : Type 0 where
  pub id : ℕ
  pub event_type : String
  pub topic : String
  pub subject : ℕ
  pub status : OutboxStatus
  pub created_at : ℕ
  pub sent_at : Option ℕ

-- A JSON scalar, as configuration values hold them.
pub data Scalar (F : Type 0) : Type 0 where
  text : String → Scalar F
  number : F → Scalar F
  flag : Bool → Scalar F

pub record ConfigurationItem (F : Type 0) : Type 0 where
  pub key : String
  pub value : List (String × Scalar F)
  pub version : ℕ

pub data SessionStatus : Type 0 where
  missing valid expired : SessionStatus

pub record BrokerSession : Type 0 where
  pub broker_account_id : ℕ
  pub access_token_encrypted : Option String
  pub refresh_token_encrypted : Option String
  pub expires_at : Option ℕ
  pub status : SessionStatus

-- models/provider_config.py: the configurations of the providers, by kind and version.
pub data ProviderKind : Type 0 where
  infrastructure broker_default event cache lock session : ProviderKind

pub data ProviderStatus : Type 0 where
  pending active retired failed_validation : ProviderStatus

pub data ProviderScope : Type 0 where
  global client : ProviderScope

pub record ProviderConfig (F : Type 0) : Type 0 where
  pub id : ℕ
  pub kind : ProviderKind
  pub provider_type : String
  pub scope_type : ProviderScope
  pub client_id : Option ℕ
  pub status : ProviderStatus
  pub version : ℕ
  pub config_encrypted : Option String
  pub config_non_secret : List (String × Scalar F)

-- models/whitelist.py: what a broker's list was, and what was found when it was compared.
pub record WhitelistSnapshot : Type 0 where
  pub broker_account_id : ℕ
  pub raw_format : String
  pub raw_payload : String
  pub normalized : List String
  pub fetched_at : ℕ

pub data FindingType : Type 0 where
  missing unauthorized ok : FindingType

pub record WhitelistFinding : Type 0 where
  pub broker_account_id : ℕ
  pub ip_address : String
  pub finding_type : FindingType
  pub detected_at : ℕ

-- The tests `row.status == "..."` of the services.
abbrev pub is_suspended : ClientStatus → Bool
is_suspended ClientStatus.suspended = true
is_suspended ClientStatus.active = false

abbrev pub is_active : AssignmentStatus → Bool
is_active AssignmentStatus.active = true
is_active _ = false
