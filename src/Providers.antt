-- ===== src/Providers.antt =====
-- providers/manager.py: which adapter a configuration stands for. The rows of `provider_configs`, their
-- public and secret parts, and the adapters that are built from them; values that are no scalars (topic
-- maps, lists of brokers) are left out.
use broker_bridge.Base.{
  ℕ, String, Bool, true, false, ◌&&◌, Option, none, some, List, [], ◌∷◌, ◌++◌, text_eq,
  if◌then◌else◌, or_else, is_text, lower, first_row, Real,
}
use broker_bridge.Models.{Scalar, ProviderKind, ProviderStatus, ProviderScope, ProviderConfig}
use broker_bridge.Config.{Value, value_get, as_text, as_flag}
use broker_bridge.Whitelist.{lstrip, rstrip}

-- config/settings.py, as far as the manager reads it.
pub record Bootstrap : Type 0 where
  pub infra_provider : String
  pub mock_infra_backend : String
  pub docker_host : String
  pub vultr_api_key : String
  pub vultr_default_region : String
  pub event_provider : String
  pub redpanda_brokers : String
  pub kafka_bootstrap_servers : String
  pub kafka_security_protocol : String
  pub kafka_sasl_mechanism : String
  pub kafka_username : String
  pub kafka_password : String
  pub kafka_ssl : Bool
  pub kafka_topic_prefix : String
  pub kafka_consumer_group : String

-- What lies outside: secrets under `encrypt_secret` and `json.dumps`, and back, where both ways may
-- fail; and whether the Docker engine answers.
pub record Outside (F : Type 0) : Type 0 where
  pub seal : Value F → String
  pub unseal : String → Option (Value F)
  pub docker_engine_available : Option String → Bool

pub data Backend : Type 0 where
  database docker : Backend

pub data InfraAdapter : Type 0 where
  mock : Backend → Option String → InfraAdapter
  vultr : String → String → InfraAdapter

pub record KafkaConfig (F : Type 0) : Type 0 where
  pub brokers : String
  pub security_protocol : String
  pub sasl_mechanism : Option (Scalar F)
  pub username : Option (Scalar F)
  pub password : Option (Scalar F)
  pub ssl : Bool
  pub topic_prefix : Scalar F
  pub provider_type : String
  pub consumer_group : String

-- The memory provider has no topic prefix where it stands in for missing brokers.
pub data EventAdapter (F : Type 0) : Type 0 where
  memory : String → Option (Scalar F) → EventAdapter F
  kafka : KafkaConfig F → EventAdapter F

abbrev pub is_kind : ProviderKind → ProviderKind → Bool
is_kind ProviderKind.infrastructure ProviderKind.infrastructure = true
is_kind ProviderKind.broker_default ProviderKind.broker_default = true
is_kind ProviderKind.event ProviderKind.event = true
is_kind ProviderKind.cache ProviderKind.cache = true
is_kind ProviderKind.lock ProviderKind.lock = true
is_kind ProviderKind.session ProviderKind.session = true
is_kind _ _ = false

abbrev pub is_active_status : ProviderStatus → Bool
is_active_status ProviderStatus.active = true
is_active_status _ = false

abbrev pub is_global : ProviderScope → Bool
is_global ProviderScope.global = true
is_global ProviderScope.client = false

abbrev pub is_unowned : Option ℕ → Bool
is_unowned none = true
is_unowned (some n) = false

-- `text.strip()`, and `text.strip().lower()`
abbrev pub strip : String → String
strip s = lstrip (rstrip s)

abbrev pub clean : String → String
clean s = lower (strip s)

-- `a or b` on two texts
abbrev pub text_else : String → String → String
text_else a b = if is_text a then a else b

abbrev pub some_text : String → Option String
some_text s = if is_text s then some s else none

module _ {F : Type 0} where
  abbrev pub in_force : ProviderKind → ProviderConfig F → Bool
  in_force kind r =
      (is_kind r.kind kind && is_active_status r.status)
      && (is_unowned r.client_id && is_global r.scope_type)

  -- `_active_row`
  unfoldable pub active_row : ProviderKind → List (ProviderConfig F) → Option (ProviderConfig F)
  active_row kind rows = first_row (in_force kind) rows

  -- `dict(public).update(secrets)`
  abbrev pub merge : Value F → Value F → Value F
  merge public secrets = secrets ++ public

  -- `_load_infra_secrets` and `_load_event_secrets`
  unfoldable pub load_secrets : Outside F → ProviderConfig F → Value F
  load_secrets out row = elim row.config_encrypted [
    | none ↦ row.config_non_secret
    | some s ↦
        if is_text s
        then elim (out.unseal s) [
          | none ↦ row.config_non_secret
          | some secrets ↦ merge row.config_non_secret secrets
        ]
        else row.config_non_secret
  ]

module _ {F : Type 0} ⦃r : Real F⦄ where
  -- `config.get(key) or None`
  abbrev pub truthy : String → Value F → Option (Scalar F)
  truthy key config = elim (value_get key config) [
    | none ↦ none
    | some x ↦ if as_flag x then some x else none
  ]

  -- `str(config.get(key))` of a value that is truthy
  abbrev pub text_if : String → Value F → Option String
  text_if key config = elim (truthy key config) [ none ↦ none | some x ↦ some (as_text x) ]

  abbrev pub text_of : String → Value F → String → String
  text_of key config default = or_else (text_if key config) default

  abbrev pub ssl_of : Value F → Bool
  ssl_of config = elim (value_get "ssl" config) [ none ↦ false | some x ↦ as_flag x ]

  module _ (env : Bootstrap) where
    unfoldable pub resolve_mock_backend : Value F → Backend
    resolve_mock_backend config =
        let name =
          text_else (clean (text_of "mock_backend" config ""))
            (text_else (clean env.mock_infra_backend) "database") in
        if text_eq name "docker" then Backend.docker else Backend.database

    -- The adapter, and whether it stands in for a Docker engine that does not answer.
    unfoldable pub build_mock_infra : Outside F → Backend → InfraAdapter × Bool
    build_mock_infra out Backend.database =
        (InfraAdapter.mock Backend.database (some_text (strip env.docker_host)), false)
    build_mock_infra out Backend.docker =
        let host = some_text (strip env.docker_host) in
        if out.docker_engine_available host
        then (InfraAdapter.mock Backend.docker host, false)
        else (InfraAdapter.mock Backend.database host, true)

    unfoldable pub build_vultr : Value F → InfraAdapter
    build_vultr config = InfraAdapter.vultr (strip (text_of "api_key" config env.vultr_api_key)) (
        strip (
          text_of "default_region" config
            (text_of "region" config (text_else env.vultr_default_region "ewr"))))

    abbrev pub group_of : Value F → String
    group_of config =
        text_of "consumer_group" config (text_else env.kafka_consumer_group "brokerbridge-lab")

    abbrev pub prefix_of : Value F → String → Scalar F
    prefix_of config default = or_else (truthy "topic_prefix" config) (Scalar.text default)

    -- `_build_event_provider`
    unfoldable pub build_event_provider : String → Value F → EventAdapter F
    build_event_provider provider_type config =
        let kind = lower (text_else provider_type "memory") in
        let servers =
          strip
            (text_of "brokers" config (text_of "bootstrap_servers" config env.redpanda_brokers)) in
        if text_eq kind "memory"
        then EventAdapter.memory (group_of config) (some (prefix_of config env.kafka_topic_prefix))
        else if is_text servers
        then EventAdapter.kafka (record {
          brokers = servers;
          security_protocol = text_of "security_protocol" config "PLAINTEXT";
          sasl_mechanism = truthy "sasl_mechanism" config;
          username = truthy "username" config;
          password = truthy "password" config;
          ssl = ssl_of config;
          topic_prefix = prefix_of config (text_else env.kafka_topic_prefix "brokerbridge");
          provider_type = kind;
          consumer_group = group_of config;
        })
        else EventAdapter.memory (group_of config) none

    -- An entry whose value is None is left out.
    abbrev pub entry : String → String → Value F
    entry key s = if is_text s then (key, Scalar.text s) ∷ [] else []

    -- `_env_event_config`
    unfoldable pub env_event_config : String × Value F
    env_event_config =
        let kind = clean (text_else env.event_provider "memory") in
        let config =
          (
            "brokers",
            Scalar.text
                (text_else (strip env.kafka_bootstrap_servers) (strip env.redpanda_brokers)),
          )
          ∷ ("security_protocol", Scalar.text (text_else env.kafka_security_protocol "PLAINTEXT"))
          ∷ ("ssl", Scalar.flag env.kafka_ssl)
          ∷ ("topic_prefix", Scalar.text (text_else env.kafka_topic_prefix "brokerbridge"))
          ∷ (entry "sasl_mechanism" env.kafka_sasl_mechanism
              ++ (entry "username" env.kafka_username
                  ++ (entry "password" env.kafka_password
                      ++ entry "consumer_group" env.kafka_consumer_group))) in
        (if is_text kind then kind else "memory", config)

    -- What the providers of a row, and of the environment, are made from.
    unfoldable pub event_of_row : Outside F → ProviderConfig F → EventAdapter F
    event_of_row out row = build_event_provider row.provider_type (load_secrets out row)

    unfoldable pub event_of_env : EventAdapter F
    unfolding env_event_config
    event_of_env = build_event_provider env_event_config.0 env_event_config.1

    unfoldable pub infra_of_row : Outside F → ProviderConfig F → InfraAdapter × Option Bool
    infra_of_row out row =
        let config = load_secrets out row in
        if text_eq (clean (text_else row.provider_type "mock")) "vultr"
        then (build_vultr config, none)
        else (let (a, degraded) = build_mock_infra out (resolve_mock_backend config) in
            (a, some degraded))

    unfoldable pub infra_of_env : Outside F → InfraAdapter × Option Bool
    infra_of_env out =
        if text_eq (clean (text_else env.infra_provider "mock")) "vultr"
        then (
          build_vultr (
              ("api_key", Scalar.text env.vultr_api_key)
              ∷ ("default_region", Scalar.text env.vultr_default_region)
              ∷ []),
          none,
        )
        else (let (a, degraded) = build_mock_infra out (resolve_mock_backend []) in
            (a, some degraded))
