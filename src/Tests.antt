-- ===== src/Tests.antt =====
-- Runs of the model on concrete states, one module for each part of the program.
mod Fixtures
mod Locks
mod RateLimit
mod Sim
mod Events
mod Health
mod Routing
mod Subscriptions
mod Orders
mod Addresses
mod Instances
mod Whitelist
mod Rotation
mod Allocation
mod Replay
mod Providers
mod MockInfra
mod Brokers
mod Bus
