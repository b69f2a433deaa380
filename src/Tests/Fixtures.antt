-- ===== src/Tests/Fixtures.antt =====
-- A state that the tests share: client 1 has two brokers with an address each, client 2 none.
use broker_bridge.Base.{ℕ, String, true, false, Option, none, some, [], ◌∷◌, whole_numbers, pos}
use broker_bridge.Models.{
  ClientStatus, BrokerAccount, IpStatus, StaticIp, AssignmentStatus, IpAssignment, InstanceStatus,
  OrderStatus, BrokerOrderId, Order, SubscriptionStatus, TeardownMode, Subscription, HealthStatus,
  HealthSnapshot, OutboxStatus, OutboxEvent,
}
use broker_bridge.Whitelist.{Json, Parsers}
use broker_bridge.World.{Fault, Db, Reply, World, Settings}

abbrev pub broker : ℕ → String → BrokerAccount ℕ
broker id region = record {
  id = id;
  client_id = 1;
  display_name = "";
  priority = pos 1;
  enabled = true;
  allowed_regions = region ∷ [];
  credentials_encrypted = "";
  whitelist_format = none;
  rate_limit_rps = some 3;
}

abbrev pub address : ℕ → StaticIp
address id = record {
  id = id;
  provider = "mock";
  external_id = "";
  ip_address = "";
  region = "ewr";
  status = IpStatus.attached;
  instance_id = none;
  health_score = some 90;
}

abbrev pub assignment : ℕ → ℕ → IpAssignment
assignment b ip = record {
  id = ip;
  client_id = 1;
  broker_account_id = b;
  static_ip_id = ip;
  status = AssignmentStatus.active;
  released_at = none;
}

abbrev pub snapshot : ℕ → ℕ → HealthSnapshot ℕ
snapshot b score = record {
  broker_account_id = b;
  latency_ms = 5;
  success_rate = 1;
  timeout_rate = 0;
  connectivity = true;
  ip_health = 90;
  score = score;
  status = HealthStatus.healthy;
  measured_at = 10;
}

abbrev pub subscription : ℕ → ℕ → ℕ → Subscription
subscription id client ends = record {
  id = id;
  client_id = client;
  status = SubscriptionStatus.active;
  starts_at = 0;
  ends_at = ends;
  teardown_mode = TeardownMode.suspend;
  teardown_completed_at = none;
}

abbrev pub pending : ℕ → ℕ → OutboxEvent
pending id at = record {
  id = id;
  event_type = "order.submitted";
  topic = "orders";
  subject = id;
  status = OutboxStatus.pending;
  created_at = at;
  sent_at = none;
}

abbrev pub tables : Db ℕ
tables = record {
  clients =
      record { id = 1; status = ClientStatus.suspended }
      ∷ record { id = 2; status = ClientStatus.active }
      ∷ [];
  brokers = broker 10 "ewr" ∷ broker 11 "ewr" ∷ broker 12 "lax" ∷ [];
  ips = address 20 ∷ address 21 ∷ [];
  assignments = assignment 10 20 ∷ assignment 11 21 ∷ [];
  usage = [];
  instances =
      record {
        id = 40;
        client_id = 2;
        provider = "mock";
        external_id = "i-40";
        region = "ewr";
        status = InstanceStatus.running;
        auto_renew = true;
      }
      ∷ [];
  orders = [];
  attempts = [];
  failovers = [];
  outbox = pending 30 5 ∷ pending 31 4 ∷ [];
  subscriptions = subscription 50 1 5000000 ∷ subscription 51 2 900 ∷ [];
  snapshots = snapshot 10 85 ∷ snapshot 11 95 ∷ snapshot 12 99 ∷ [];
  sessions = [];
  config = [];
  whitelists = [];
  findings = [];
  providers = [];
}

abbrev pub no_fault : Fault
no_fault = record { code = "UPSTREAM_503"; status = 503; retryable = true }

abbrev pub world : World ℕ
world = record {
  db = tables;
  durable = tables;
  now = 1000;
  next_id = 100;
  locks = [];
  hits = [];
  faults = record { unavailable = false; reject = false; infra = false; history = [] };
  broker = record {
    fail_remaining = 0;
    fail_fault = no_fault;
    persistent_fault = none;
    orders = [];
  };
  infra = Reply.accepted ∷ Reply.accepted ∷ [];
  buffer = record {
    rows = [];
    total_seen = 0;
    last_event_at = none;
    by_type = [];
    source = "empty";
  };
  probe_latency = 5;
  inflight = 0;
  permits = 4;
}

abbrev pub settings : Settings ℕ
settings = record {
  max_inflight_orders = 4;
  latency_budget_ms = 200;
  ip_reuse_cooldown_hours = 24;
  encrypt_secret = λ s. s;
  decrypt_secret = λ s. s;
  hex = λ n. "";
}

-- A parser that knows the mock broker's text.
abbrev pub parsers : Parsers
parsers = record {
  json_loads =
      λ s. some (Json.object (some ("198.51.100.10" ∷ "198.51.100.11" ∷ "203.0.113.5" ∷ [])) none);
  xml_nodes = λ s. some (
      ("whitelist", none)
      ∷ ("{urn:x}IP", some " 198.51.100.10 ")
      ∷ ("ip", some "198.51.100.11")
      ∷ []);
  whitelist_json = λ t. "{}";
}

abbrev pub order : ℕ → Option BrokerOrderId → Order
order id b = record {
  id = id;
  client_id = 1;
  client_order_id = "a-1";
  side = "BUY";
  symbol = "X";
  quantity = 5;
  order_type = "MARKET";
  time_in_force = "DAY";
  status = OrderStatus.created;
  broker_account_id = none;
  static_ip_id = none;
  preferred_broker_id = none;
  region_preference = none;
  error_code = none;
  broker_order_id = b;
}
