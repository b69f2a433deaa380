-- ===== src/Tests/Providers.antt =====
-- Runs of the activation of providers, and of the manager that serves them.
use broker_bridge.Base.{
  ℕ, String, ◌≡◌, refl, Bool, true, false, not, ◌&&◌, none, some, [], ◌∷◌, ◌++◌, ltb, ◌==◌,
  if◌then◌else◌, lower, All, whole_numbers,
}
use broker_bridge.Models.{Scalar, ProviderKind, ProviderConfig}
use broker_bridge.Config.{Value, value_get}
use broker_bridge.World.{ok}
use broker_bridge.Whitelist.{lstrip, rstrip}
use broker_bridge.Providers.{Bootstrap, Outside, active_row, load_secrets}
use broker_bridge.Regions.{Region, normalize_region}
use broker_bridge.Regions.Normal.{IsCode, normalize_region-IsCode}
use broker_bridge.Secrets.{
  starts_with, contains, ends_with, is_secret, is_masked, split_config, shown_config,
}
use broker_bridge.Secrets.Shown.{IsHidden, IsPublic, shown_config_lem}
use broker_bridge.Activation.{Activation, retire_active, new_row, store_config}
use broker_bridge.Activation.Stored.{IsSealed, load_secrets-new_row}
use broker_bridge.Activation.Replaces.{Replaces, store_config-Replaces}
use broker_bridge.Manager.{Manager, get_event_provider}
use broker_bridge.Manager.Accounts.{count_closed}
use broker_bridge.Manager.Current.{wanted}
use broker_bridge.Manager.Reached.{Reached, get_event_provider_lem}
use broker_bridge.Tests.Fixtures.{world}

-- A misspelt region.
newark : normalize_region (some " EUR ") ≡ Region.known "ewr"
unfolding normalize_region lstrip rstrip lower
newark = refl

normalize_region-IsCode_example : IsCode "ewr"
normalize_region-IsCode_example = normalize_region-IsCode (some " EUR ") "ewr" newark

abbrev kafka_config : Value ℕ
kafka_config =
    ("brokers", Scalar.text "localhost:9092")
    ∷ ("password", Scalar.text "hunter2")
    ∷ ("topic_prefix", Scalar.text "lab")
    ∷ []

shown_config_lem_example :
    let (secrets, public) = split_config kafka_config in
    All IsHidden (shown_config (some secrets) public)
    × All IsPublic (shown_config none public)
    × ((k : String) (x : Scalar ℕ)
        → is_secret k ≡ true
        → value_get k kafka_config ≡ some x
        → value_get k (shown_config (some secrets) public) ≡ some (Scalar.text "***"))
    × ((k : String)
        → is_masked k ≡ false
        → value_get k (shown_config (some secrets) public) ≡ value_get k kafka_config)
shown_config_lem_example = shown_config_lem kafka_config

abbrev env : Bootstrap
env = record {
  infra_provider = "mock";
  mock_infra_backend = "database";
  docker_host = "";
  vultr_api_key = "";
  vultr_default_region = "ewr";
  event_provider = "memory";
  redpanda_brokers = "";
  kafka_bootstrap_servers = "";
  kafka_security_protocol = "PLAINTEXT";
  kafka_sasl_mechanism = "";
  kafka_username = "";
  kafka_password = "";
  kafka_ssl = false;
  kafka_topic_prefix = "brokerbridge";
  kafka_consumer_group = "brokerbridge-lab";
}

-- The secrets of `kafka_config` are all that was ever sealed.
abbrev out : Outside ℕ
out = record {
  seal = λ v. "token";
  unseal = λ s. some (("password", Scalar.text "hunter2") ∷ []);
  docker_engine_available = λ h. false;
}

kafka_config-IsSealed : IsSealed out (split_config kafka_config).0
unfolding split_config is_secret contains starts_with ends_with lower
kafka_config-IsSealed = record { opens = refl; token = refl }

abbrev staged : Bool → Activation ℕ
staged on = record {
  provider_type = "kafka";
  client_id = none;
  validate_first = false;
  activate = on;
  config = kafka_config;
}

load_secrets-new_row_example :
    let row = new_row out ProviderKind.event (staged true) kafka_config 7 1 in
    All (λ (e : String × Scalar ℕ). is_secret e.0 ≡ false) row.config_non_secret
    × ((key : String) → value_get key (load_secrets out row) ≡ value_get key kafka_config)
load_secrets-new_row_example =
    load_secrets-new_row out ProviderKind.event (staged true) kafka_config 7 1 kafka_config-IsSealed

store_config-Replaces_example :
    (row : ProviderConfig ℕ) × ((store_config out ProviderKind.event
        (staged true)
        kafka_config
        world).0
      ≡ ok row)
    × Replaces ProviderKind.event
        (staged true)
        []
        (store_config out ProviderKind.event (staged true) kafka_config world).1.db.providers
        row
    × ((store_config out ProviderKind.event (staged true) kafka_config world).1.durable
        ≡ (store_config out ProviderKind.event (staged true) kafka_config world).1.db)
store_config-Replaces_example =
    store_config-Replaces out ProviderKind.event (staged true) kafka_config world

-- A manager that has built nothing, and a table with one row in force.
abbrev fresh : Manager ℕ
fresh = record {
  event = none;
  infrastructure = none;
  lock = none;
  session = none;
  rate_limit = none;
  event_version = none;
  infra_version = none;
  infra_degraded = false;
  stale = [];
  closed = [];
  builds = 0;
}

abbrev row_1 : ProviderConfig ℕ
row_1 = new_row out ProviderKind.event (staged true) kafka_config 7 1

-- A configuration that is only staged takes the one in force out of force.
staged_retires :
    active_row ProviderKind.event (
      retire_active ProviderKind.event (row_1 ∷ [])
      ++ new_row out ProviderKind.event (staged false) kafka_config 8 2 ∷ [])
    ≡ none
unfolding active_row
staged_retires = refl

-- The provider that the environment asks for is built first; after the activation it is closed.
get_event_provider_lem_example :
    let m = (get_event_provider env out [] fresh).1 in
    let end = get_event_provider env out (row_1 ∷ []) m in
    (end.0.adapter ≡ wanted env out (row_1 ∷ []))
    × ((n : ℕ)
        → count_closed n end.1.closed
          ≡ (if ltb n end.1.builds && not (n == end.0.made) then 1 else 0))
get_event_provider_lem_example = get_event_provider_lem env out (
    Reached.activated ProviderKind.event (staged true) kafka_config 7
      (Reached.served_event (Reached.started fresh refl refl refl refl)))
