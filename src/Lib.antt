-- ===== src/Lib.antt =====
-- BrokerBridge routes the orders of clients through broker accounts that need fixed egress
-- addresses. This library models the services of app/ as functions on an explicit state, and proves
-- what each of them promises.
--
-- The files and what they model:
--   Models         app/models/*.py, a record for each table
--   World          the state of a request (World/State), app/core/errors.py (World/Errors), and the
--                  actions over them (World/Monad)
--   Config         app/config/service.py
--   Locks          app/providers/memory.py MemoryLock, app/core/redis_deps.py
--   RateLimit      app/providers/memory.py MemoryRateLimit, app/rate_limit/service.py
--   Sim            app/sim/flags.py, app/sim/service.py
--   Broker         app/providers/broker/mock.py
--   Events         app/events/outbox.py, app/events/bus_buffer.py, app/events/consumer.py
--   Health         app/health/service.py
--   Infra          the calls of app/providers/base.py InfrastructureProvider
--   Routing        app/routing/engine.py
--   Subscriptions  app/subscriptions/service.py
--   Sessions       app/sessions/service.py
--   Submission     app/orders/service.py, the loop `_submit_inline`
--   Orders         app/orders/service.py, placement and cancellation
--   Addresses      app/ip_manager/service.py, the assignment and attachment of addresses, their
--                  release, and the cooldown after it
--   Instances      app/ip_manager/service.py, the operations on cloud instances
--   Allocation     app/ip_manager/service.py, `allocate_ip`
--   Whitelist      app/whitelist/service.py
--   Draining       app/ip_manager/rotation.py, the wait of `rotate`
--   Rotation       app/ip_manager/rotation.py
--   Replay         app/replay/service.py
--   Providers      app/providers/manager.py, what a row or the environment configures
--   Manager        app/providers/manager.py, the cache of providers and their closing
--   Topics         app/events/envelope.py, the names of topics; app/events/consumer.py, which of them
--                  the consumer subscribes to
--   Bus            app/providers/memory.py MemoryEventProvider
--   Brokers        app/broker/service.py
--   MockInfra      app/providers/infrastructure/mock_database.py, docnet.py
--   Regions        app/providers/infrastructure/regions.py
--   Secrets        app/api/routes/admin_providers.py, the secret entries of a configuration and what
--                  is shown of it
--   Activation     app/api/routes/admin_providers.py, `activate_provider`
--   Base           lists, texts and numbers that all of them share
--   Tests          runs on concrete states
-- A definition has the name of the Python function that it models. The modules below a part hold its
-- proofs.
--
-- How they interact: a placement asks the subscriptions whether the client may trade, inserts the
-- order, has the routing engine make a chain of candidates, and tries these one after the other:
-- each needs the rate limiter's leave and a session of its broker. A service reads and writes the
-- tables, `db`, and commits them to `durable`. The routing engine asks the health service for the
-- latest snapshots, which probes the mock broker where there is none, and asks the rate limiter.
-- The simulator pushes its fault to the mock broker. The expiry of subscriptions calls the
-- infrastructure and puts an event in the outbox, and a drain hands the events to the event
-- provider and to the buffer.
--
-- Choices:
--   - Identifiers are numbers, new ones counted from `next_id`; times are microseconds, and the clock
--     stands still during one operation.
--   - Floats are a type with the operations that the services use (`Real`); a theorem that needs the
--     laws of their order names them (`IsOrdered`), and whole numbers are an instance.
--   - One operation runs to its end before the next one begins. What other processes commit between the
--     first look for an order and its insertion is a function `meanwhile`, which a theorem takes as it
--     comes.
--   - The infrastructure answers from a list, and fails when it is used up; whether the event provider
--     takes an event is a function of its identifier; encryption is a pair of functions. Theorems
--     hold for all of these.
--   - Texts are ASCII where they are put in upper or lower case. Messages of errors are left out.
--   - A service works with one provider of each kind, and the manager that chooses it is a state of its
--     own (`Manager`). How secrets are sealed, and whether Docker, Kafka and Vultr answer a probe, are
--     parameters (`Outside`, `Probes`).
--   - Every loop is structural but the wait of a rotation. It has as many rounds of fuel as there are
--     microseconds to its deadline, which is enough if a sleep takes a microsecond
--     (Draining/Wait). What other processes commit in each sleep, and how long it takes, is a
--     parameter (`Environment`).
--   - The stamp by which stuck orders are listed is not kept; the order of a listing is a parameter
--     (`by_age`).
--   - What the parsers of JSON and XML make of a text is a parameter (`Parsers`).
--
-- Not modelled: the other HTTP routes and schemas, authentication, the adapters of Redis, Kafka, Vultr and
-- Docker, the start-up of the database, and the services not listed above.
pub mod Base
pub mod Models
pub mod World
pub mod Config
pub mod Locks
pub mod RateLimit
pub mod Sim
pub mod Broker
pub mod Events
pub mod Health
pub mod Infra
pub mod Routing
pub mod Subscriptions
pub mod Sessions
pub mod Addresses
pub mod Instances
pub mod Allocation
pub mod Whitelist
pub mod Draining
pub mod Rotation
pub mod Submission
pub mod Orders
pub mod Replay
pub mod Providers
pub mod Manager
pub mod Regions
pub mod Secrets
pub mod Activation
pub mod MockInfra
pub mod Brokers
pub mod Topics
pub mod Bus
pub mod Tests
