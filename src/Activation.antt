-- ===== src/Activation.antt =====
-- api/routes/admin_providers.py, `activate_provider`: a configuration is checked, split into its public
-- and its secret part, and stored as a new version. The probes of other systems are a parameter.
pub mod Stored
pub mod Versions
pub mod Replaces
use broker_bridge.Base.{
  ℕ, suc, String, Bool, true, false, not, ◌&&◌, ◌||◌, Option, none, some, List, [], ◌∷◌, ◌++◌,
  text_eq, leb, if◌then◌else◌, is_some, is_text, lower, any, update_rows, Real,
}
use broker_bridge.Models.{Scalar, ProviderKind, ProviderStatus, ProviderScope, ProviderConfig}
use broker_bridge.World.{
  Failure, Result, app, not_found, provider, ok, raised, World, Action, pure, raise, gets, ◌>>=◌,
  ◌>>◌, update_db, raise_if, commit, fresh_id,
}
use broker_bridge.Broker.{probe}
use broker_bridge.Config.{Value, value_get, as_text}
use broker_bridge.Events.{enqueue_outbox}
use broker_bridge.Providers.{
  Bootstrap, Outside, KafkaConfig, is_kind, is_active_status, strip, clean, text_else, some_text,
  truthy, text_if, text_of, ssl_of,
}
use broker_bridge.Secrets.{split_config}
use broker_bridge.Regions.{Region, normalize_region}
use broker_bridge.Manager.{Manager, Selector, invalidate}

-- `config[key] = x`
abbrev pub set_value : {F : Type 0} → String → Scalar F → Value F → Value F
set_value key x [] = (key, x) ∷ []
set_value key x ((k, y) ∷ v) = if text_eq k key then (k, x) ∷ v else (k, y) ∷ set_value key x v

abbrev pub kind_of_text : String → Option ProviderKind
kind_of_text s =
    if text_eq s "infrastructure"
    then some ProviderKind.infrastructure
    else if text_eq s "broker_default"
    then some ProviderKind.broker_default
    else if text_eq s "event"
    then some ProviderKind.event
    else if text_eq s "cache"
    then some ProviderKind.cache
    else if text_eq s "lock"
    then some ProviderKind.lock
    else if text_eq s "session"
    then some ProviderKind.session
    else none

abbrev pub is_event : ProviderKind → Bool
is_event ProviderKind.event = true
is_event _ = false

-- `ProviderActivateRequest`; its `scope` is not read.
pub record Activation (F : Type 0) : Type 0 where
  pub provider_type : String
  pub client_id : Option ℕ
  pub validate_first : Bool
  pub activate : Bool
  pub config : Value F

-- Whether the other systems answer a probe.
pub record Probes (F : Type 0) : Type 0 where
  pub kafka : KafkaConfig F → Bool
  pub docker : Option String → Bool
  pub vultr : String → String → Bool

abbrev pub invalid : Failure
invalid = app (provider "PROVIDER_VALIDATION_FAILED") 422

abbrev pub event_types : List String
event_types = "memory" ∷ "redpanda_local" ∷ "kafka" ∷ "redpanda_cloud" ∷ []

module _ {F : Type 0} ⦃r : Real F⦄ where
  -- `config.get(key)`, if it is not blank
  abbrev pub not_blank : String → Value F → Option String
  not_blank key v = elim (value_get key v) [
    | none ↦ none
    | some x ↦ if is_text (strip (as_text x)) then some (as_text x) else none
  ]

  abbrev pub raw_region : Value F → Option String
  raw_region v = elim (not_blank "default_region" v) [
    | none ↦ not_blank "region" v
    | some s ↦ some s
  ]

  abbrev pub set_region : String → Value F → Value F
  set_region code v =
      let w = set_value "default_region" (Scalar.text code) v in
      if is_some (value_get "region" w) then set_value "region" (Scalar.text code) w else w

  -- `_apply_region_config`
  unfoldable pub apply_region_config : Value F → Result (Value F)
  apply_region_config v = elim (raw_region v) [
    | none ↦ ok v
    | some raw ↦ elim (normalize_region (some raw)) [
      | Region.unset ↦ ok v
      | Region.unknown ↦ raised invalid
      | Region.known code ↦ ok (set_region code v)
    ]
  ]

  module _ (probes : Probes F) where
    -- `_probe_event_config`
    unfoldable pub probe_event_config : String → Value F → Bool
    probe_event_config provider_type v =
        let kind = lower provider_type in
        let servers = strip (text_of "brokers" v (text_of "bootstrap_servers" v "")) in
        if text_eq kind "memory"
        then true
        else (is_text servers
            && probes.kafka (record {
              brokers = servers;
              security_protocol = text_of "security_protocol" v "PLAINTEXT";
              sasl_mechanism = truthy "sasl_mechanism" v;
              username = truthy "username" v;
              password = truthy "password" v;
              ssl = ssl_of v;
              topic_prefix = elim (truthy "topic_prefix" v) [
                | none ↦ Scalar.text "brokerbridge"
                | some x ↦ x
              ];
              provider_type = kind;
              consumer_group = "brokerbridge-lab";
            }))

    -- The configuration with its backend, if the backend answers, which it never does while the simulator
    -- has it fail.
    unfoldable pub validate_mock : Bootstrap → Value F → Action F (Value F)
    validate_mock env v w =
        let name = clean (text_of "mock_backend" v (text_else env.mock_infra_backend "database")) in
        let set = set_value "mock_backend" (Scalar.text name) v in
        if text_eq name "database"
        then (do raise_if w.faults.infra invalid; pure set) w
        else if text_eq name "docker"
        then (do
          raise_if (w.faults.infra || not (probes.docker (some_text env.docker_host))) invalid
          pure set)
            w
        else (raised invalid, w)

    unfoldable pub validate_vultr : Bootstrap → Value F → Action F (Value F)
    validate_vultr env v w =
        let region =
          text_of "default_region" v
            (text_of "region" v (text_else env.vultr_default_region "ewr")) in
        elim (text_if "api_key" v) [
          | none ↦ (raised invalid, w)
          | some key ↦ (do raise_if (not (probes.vultr key region)) invalid; pure v) w
        ]

    -- `if body.validate_first: …`
    unfoldable pub validate : Bootstrap → ProviderKind → String → Value F → Action F (Value F)
    unfolding validate_mock validate_vultr probe_event_config
    validate env ProviderKind.event provider_type v = do
      raise_if (not (any (text_eq provider_type) event_types)) invalid
      raise_if (not (probe_event_config provider_type v)) invalid
      pure v
    validate env ProviderKind.infrastructure provider_type v =
        if text_eq (lower provider_type) "mock"
        then validate_mock env v
        else if text_eq (lower provider_type) "vultr"
        then validate_vultr env v
        else raise invalid
    validate env _ provider_type v = do
      raise_if (not (text_eq provider_type "mock")) invalid
      good ← gets (λ w. (probe {F = F} w.faults w.broker).probe_ok)
      raise_if (not good) invalid
      pure v

module _ {F : Type 0} where
  abbrev pub max_version : ProviderKind → List (ProviderConfig F) → ℕ
  max_version kind [] = 0
  max_version kind (r ∷ l) =
      let rest = max_version kind l in
      if is_kind r.kind kind && leb rest r.version then r.version else rest

  -- `(latest.version + 1) if latest else 1`
  abbrev pub next_version : ProviderKind → List (ProviderConfig F) → ℕ
  next_version kind rows = suc (max_version kind rows)

  -- `update(ProviderConfig) … .values(status=retired)`
  abbrev pub retire_active : ProviderKind → List (ProviderConfig F) → List (ProviderConfig F)
  retire_active kind =
      update_rows (λ (r : ProviderConfig F). is_kind r.kind kind && is_active_status r.status)
        (λ r. record r { status = ProviderStatus.retired })

  abbrev pub seal_config : Outside F → Value F → Option String
  seal_config out [] = none
  seal_config out (e ∷ l) = some (out.seal (e ∷ l))

  abbrev pub new_row : Outside F → ProviderKind → Activation F → Value F → ℕ → ℕ → ProviderConfig F
  new_row out kind body v id version = record {
    id = id;
    kind = kind;
    provider_type = body.provider_type;
    scope_type = ProviderScope.global;
    client_id = body.client_id;
    status = if body.activate then ProviderStatus.active else ProviderStatus.pending;
    version = version;
    config_encrypted = seal_config out (split_config v).0;
    config_non_secret = (split_config v).1;
  }

  -- The end of `activate_provider`, from the split on.
  unfoldable pub store_config :
      Outside F → ProviderKind → Activation F → Value F → Action F (ProviderConfig F)
  unfolding split_config
  store_config out kind body v = do
    id ← fresh_id
    row ← gets (λ w. new_row out kind body v id (next_version kind w.db.providers))
    update_db (λ db. record db { providers = retire_active kind db.providers ++ row ∷ [] })
    if body.activate && is_event kind
        then enqueue_outbox "provider.activated" "config" id
        else pure tt
    commit
    pure row

module _ {F : Type 0} ⦃r : Real F⦄ (probes : Probes F) (env : Bootstrap) (out : Outside F) where
  unfoldable pub activate_config : ProviderKind → Activation F → Action F (ProviderConfig F)
  unfolding validate store_config
  activate_config kind body = do
    v ← (λ w. (apply_region_config body.config, w))
    checked ← if body.validate_first then validate probes env kind body.provider_type v else pure v
    store_config out kind body checked

  -- `activate_provider`: a new row makes the manager build its provider anew.
  unfoldable pub activate_provider :
      String
      → Activation F
      → Manager F × World F
      → Result (ProviderConfig F) × (Manager F × World F)
  unfolding activate_config
  activate_provider kind body (m, w) = elim (kind_of_text kind) [
    | none ↦ (raised (app not_found 404), (m, w))
    | some k ↦
        let (x, w') = activate_config k body w in
        elim x [
          | ok row ↦ (ok row, (invalidate (Selector.one k) m, w'))
          | raised e ↦ (raised e, (m, w'))
        ]
  ]
