-- ===== src/Addresses.antt =====
-- ip_manager/service.py: the assignment of addresses to brokers, and their attachment to instances,
-- each under the locks of what it changes.
pub mod Assign
pub mod OneActive
pub mod Bodies
pub mod Locked
pub mod Calls
pub mod Cooldown
use broker_bridge.Base.{
  ℕ, suc, ◌+◌, ◌-◌, ◌*◌, Bool, true, false, not, ◌&&◌, ◌||◌, Option, none, some, List, [], ◌∷◌,
  ◌++◌, ltb, ◌==◌, is_some, or_else, where_rows, first_row, any, update_rows, ℤ, Real, pos, negsuc,
}
use broker_bridge.Models.{
  BrokerAccount, IpStatus, StaticIp, AssignmentStatus, IpAssignment, BrokerIpUsageHistory,
  InstanceStatus, Instance, is_active,
}
use broker_bridge.World.{
  Result, app, not_found, lock_contention, invalid_state, ip_reuse_policy, assignment_conflict,
  exception, ok, raised, Db, LockKey, Settings, Action, pure, or_raise, finally, ◌>>=◌, ◌>>◌,
  update_db, raise_if, commit, fresh_id,
}
use broker_bridge.Config.{value_get, find_item, as_int}
use broker_bridge.Locks.{acquire_lock, release_lock}
use broker_bridge.Broker.{hour}
use broker_bridge.Events.{enqueue_outbox}
use broker_bridge.Health.{find_ip, active_for}
use broker_bridge.Infra.{call_infra}
use broker_bridge.Sessions.{find_broker}

abbrev pub is_quarantined : IpStatus → Bool
is_quarantined IpStatus.quarantined = true
is_quarantined _ = false

abbrev pub is_attached : IpStatus → Bool
is_attached IpStatus.attached = true
is_attached _ = false

-- A released address counts as allocated once it is assigned again.
abbrev pub reopened : IpStatus → IpStatus
reopened IpStatus.released = IpStatus.allocated
reopened s = s

abbrev pub is_destroyed : InstanceStatus → Bool
is_destroyed InstanceStatus.destroyed = true
is_destroyed _ = false

abbrev pub is_cooling : ℕ → Option ℕ → Bool
is_cooling now none = false
is_cooling now (some t) = ltb now t

-- The test of `_assert_reuse_allowed`, over the history.
abbrev pub reuse_blocked : ℕ → ℕ → ℕ → List BrokerIpUsageHistory → Bool
reuse_blocked broker ip now = any (λ (h : BrokerIpUsageHistory).
    h.broker_account_id == broker && h.static_ip_id == ip && is_cooling now h.reuse_eligible_at)

-- `now + timedelta(hours=…)`; the clock is far from zero.
abbrev pub add_hours : ℕ → ℤ → ℕ
add_hours now (pos n) = now + n * hour
add_hours now (negsuc n) = now - suc n * hour

abbrev pub assigned_to : ℕ → IpAssignment → Bool
assigned_to ip a = a.static_ip_id == ip && is_active a.status

abbrev pub end_assignment : ℕ → IpAssignment → IpAssignment
end_assignment now a = record a { status = AssignmentStatus.released; released_at = some now }

-- The uses of the address, by a broker that is among those given, that have not ended.
abbrev pub is_open_use : ℕ → List IpAssignment → BrokerIpUsageHistory → Bool
is_open_use ip ended h =
    h.static_ip_id == ip
    && not (is_some h.released_at)
    && any (λ (a : IpAssignment). a.broker_account_id == h.broker_account_id) ended

abbrev pub end_use : ℕ → ℕ → BrokerIpUsageHistory → BrokerIpUsageHistory
end_use now eligible h = record h { released_at = some now; reuse_eligible_at = some eligible }

abbrev pub new_use : ℕ → ℕ → ℕ → ℕ → BrokerIpUsageHistory
new_use id ip broker now = record {
  id = id;
  broker_account_id = broker;
  static_ip_id = ip;
  used_at = now;
  released_at = none;
  reuse_eligible_at = none;
}

module _ {F : Type 0} where
  -- `get_ip`
  unfoldable pub get_ip : ℕ → Action F StaticIp
  get_ip id w = or_raise (find_ip id w.db.ips) (app not_found 404) w

  abbrev pub find_instance : ℕ → Db F → Option Instance
  find_instance id db = first_row (λ (i : Instance). i.id == id) db.instances

  abbrev pub update_ip : ℕ → (StaticIp → StaticIp) → Action F (Unit {0})
  update_ip id f =
      update_db (λ db. record db { ips = update_rows (λ (ip : StaticIp). ip.id == id) f db.ips })

  -- `if not await acquire_lock(…): raise …`, then the body with the release in its `finally`
  unfoldable pub with_lock : {A : Type 0} → LockKey → ℕ → Action F A → Action F A
  with_lock key token body = do
    got ← acquire_lock key token
    raise_if (not got) (app lock_contention 409)
    finally body (release_lock key token)

  -- `client_id or broker.client_id`
  abbrev pub new_assignment : ℕ → ℕ → Option ℕ → BrokerAccount F → IpAssignment
  new_assignment id ip client b = record {
    id = id;
    client_id = or_else client b.client_id;
    broker_account_id = b.id;
    static_ip_id = ip;
    status = AssignmentStatus.active;
    released_at = none;
  }

  -- The rows of an assignment that passed the tests.
  unfoldable pub record_assignment : ℕ → Option ℕ → BrokerAccount F → Action F IpAssignment
  record_assignment ip client b = do
    id ← fresh_id
    use_id ← fresh_id
    λ w.
        (do
          update_db (λ db. record db {
            assignments = db.assignments ++ new_assignment id ip client b ∷ [];
            usage = db.usage ++ new_use use_id ip b.id w.now ∷ [];
          })
          update_ip ip (λ a. record a { status = reopened a.status })
          commit
          pure (new_assignment id ip client b))
          w

  unfoldable pub assign_locked : ℕ → ℕ → Option ℕ → Action F IpAssignment
  assign_locked ip_id broker_id client = do
    ip ← get_ip ip_id
    raise_if (is_quarantined ip.status || is_attached ip.status) (app invalid_state 409)
    b ← λ w. or_raise (find_broker broker_id w.db) (app not_found 404) w
    λ w. raise_if (reuse_blocked broker_id ip_id w.now w.db.usage) (app ip_reuse_policy 409) w
    λ w. raise_if (any (active_for broker_id) w.db.assignments) (app assignment_conflict 409) w
    record_assignment ip_id client b

  unfoldable pub assign : ℕ → ℕ → Option ℕ → Action F IpAssignment
  assign ip_id broker_id client = do
    token ← fresh_id
    with_lock (LockKey.broker_ip_lock broker_id) token
        (with_lock (LockKey.ip_lock ip_id) token (assign_locked ip_id broker_id client))

  unfoldable pub attach_locked : ℕ → ℕ → Action F StaticIp
  attach_locked ip_id instance_id = do
    ip ← get_ip ip_id
    i ← λ w. or_raise (find_instance instance_id w.db) (app not_found 404) w
    raise_if (is_destroyed i.status) (app invalid_state 409)
    call_infra
    update_ip ip_id (λ a. record a { instance_id = some instance_id; status = IpStatus.attached })
    commit
    get_ip ip_id

  unfoldable pub attach : ℕ → ℕ → Action F StaticIp
  attach ip_id instance_id = do
    token ← fresh_id
    with_lock (LockKey.ip_lock ip_id) token (attach_locked ip_id instance_id)

  unfoldable pub detach_locked : ℕ → Action F StaticIp
  detach_locked ip_id = do
    ip ← get_ip ip_id
    call_infra
    update_ip ip_id (λ a. record a { instance_id = none; status = IpStatus.detached })
    commit
    get_ip ip_id

  unfoldable pub detach : ℕ → Action F StaticIp
  detach ip_id = do token ← fresh_id; with_lock (LockKey.ip_lock ip_id) token (detach_locked ip_id)

module _ {F : Type 0} ⦃r : Real F⦄ (settings : Settings F) where
  -- `_cooldown_hours`
  unfoldable pub cooldown_hours : Db F → Result ℤ
  cooldown_hours db = elim (find_item "ip.reuse.cooldown_hours" db) [
    | none ↦ ok (pos settings.ip_reuse_cooldown_hours)
    | some item ↦ elim (value_get "hours" item.value) [
      | none ↦ ok (pos settings.ip_reuse_cooldown_hours)
      | some x ↦ elim (as_int x) [ none ↦ raised (exception "ValueError") | some n ↦ ok n ]
    ]
  ]

  -- The assignments of the address end, and its uses by their brokers with the time from which these
  -- may have it again.
  abbrev pub end_all : ℕ → ℕ → ℕ → Db F → Db F
  end_all ip now eligible db = record db {
    assignments = update_rows (assigned_to ip) (end_assignment now) db.assignments;
    usage =
        update_rows (is_open_use ip (where_rows (assigned_to ip) db.assignments))
          (end_use now eligible) db.usage;
  }

  abbrev pub end_assignments : ℕ → ℤ → Action F (Unit {0})
  end_assignments ip hours w = update_db (end_all ip w.now (add_hours w.now hours)) w

  -- What follows once the provider has given the address up.
  unfoldable pub mark_released : ℕ → Action F StaticIp
  mark_released ip_id = do
    update_ip ip_id (λ a. record a { status = IpStatus.released })
    enqueue_outbox "ip.released" "ip" ip_id
    commit
    get_ip ip_id

  abbrev pub delete_ip : ℕ → Action F StaticIp
  delete_ip ip_id = do call_infra; mark_released ip_id

  abbrev pub end_and_delete : ℕ → ℤ → Action F StaticIp
  end_and_delete ip_id hours = do end_assignments ip_id hours; delete_ip ip_id

  unfoldable pub release_locked : ℕ → Action F StaticIp
  release_locked ip_id = do
    ip ← get_ip ip_id
    raise_if (is_attached ip.status) (app invalid_state 409)
    hours ← λ w. (cooldown_hours w.db, w)
    end_and_delete ip_id hours

  unfoldable pub release_ip : ℕ → Action F StaticIp
  release_ip ip_id = do
    token ← fresh_id
    with_lock (LockKey.ip_lock ip_id) token (release_locked ip_id)
