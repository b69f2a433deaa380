-- ===== src/Rotation.antt =====
-- ip_manager/rotation.py: a broker's address is replaced by a new one, after the orders that are in
-- flight on the old one have drained or a deadline has passed.
pub mod Frame
pub mod Marks
pub mod Switch
pub mod OneAddress
use broker_bridge.Base.{
  ℕ, ◌+◌, ◌*◌, String, Bool, true, false, not, ◌&&◌, ◌||◌, Option, none, some, [], ◌∷◌, ◌++◌,
  text_eq, ◌==◌, if◌then◌else◌, is_some, upper, any, update_rows, ℤ, Real, pos, negsuc,
}
use broker_bridge.Models.{IpStatus, StaticIp, AssignmentStatus, IpAssignment, BrokerIpUsageHistory}
use broker_bridge.World.{
  Result, app, not_found, ip_reuse_policy, no_active_assignment, rotation_drain_timeout, exception,
  ok, raised, Db, LockKey, World, Settings, Action, pure, raise, gets, or_raise, ◌>>=◌, ◌>>◌,
  update_db, raise_if, commit, fresh_id,
}
use broker_bridge.Config.{value_get, find_item, as_text, as_int}
use broker_bridge.Infra.{call_infra}
use broker_bridge.Health.{find_ip, active_assignment}
use broker_bridge.Sessions.{find_broker}
use broker_bridge.Draining.{Environment, wait_until}
use broker_bridge.Addresses.{
  is_attached, is_destroyed, reuse_blocked, add_hours, assigned_to, end_use, new_use, find_instance,
  update_ip, with_lock, attach, cooldown_hours,
}
use broker_bridge.Allocation.{allocate_ip}
use broker_bridge.Whitelist.{Parsers, sync}
use broker_bridge.Events.{enqueue_outbox}

pub record RotationResult : Type 0 where
  pub old_ip_id : ℕ
  pub new_ip_id : ℕ
  pub old_assignment_id : ℕ
  pub new_assignment_id : ℕ
  pub force : Bool
  pub drained : Bool
  pub whitelist_ok : Bool

-- One second, in microseconds.
abbrev pub second : ℕ
second = 1000000

-- `max(0, seconds)`, in microseconds
abbrev pub span : ℤ → ℕ
span (pos n) = n * second
span (negsuc n) = 0

-- `int(x)`
abbrev pub int_or_error : Option ℤ → Result ℤ
int_or_error none = raised (exception "ValueError")
int_or_error (some n) = ok n

abbrev pub is_released : IpStatus → Bool
is_released IpStatus.released = true
is_released _ = false

abbrev pub is_ok : {A : Type 0} → Result A → Bool
is_ok (ok a) = true
is_ok (raised e) = false

abbrev pub is_open_use_of : ℕ → ℕ → BrokerIpUsageHistory → Bool
is_open_use_of broker ip h =
    h.broker_account_id == broker && h.static_ip_id == ip && not (is_some h.released_at)

-- The rows of the new assignment and its use.
abbrev pub switched_assignment : ℕ → IpAssignment → ℕ → ℕ → IpAssignment
switched_assignment id a broker new = record {
  id = id;
  client_id = a.client_id;
  broker_account_id = broker;
  static_ip_id = new;
  status = AssignmentStatus.active;
  released_at = none;
}

module _ {F : Type 0} where
  abbrev pub or_stuck : Option Bool × World F → Result Bool × World F
  or_stuck (none, w) = (raised (exception "unreachable"), w)
  or_stuck (some b, w) = (ok b, w)

  abbrev pub update_assignment : ℕ → (IpAssignment → IpAssignment) → Action F (Unit {0})
  update_assignment id f = update_db (λ db. record db {
    assignments = update_rows (λ (a : IpAssignment). a.id == id) f db.assignments;
  })

  -- The `try` of `_cleanup_new_ip`: the provider detaches and deletes the address.
  abbrev pub detach_and_delete : StaticIp → Action F (Unit {0})
  detach_and_delete ip =
      if is_some ip.instance_id
      then (do
        detached ← call_infra
        update_ip ip.id (λ (a : StaticIp). record a { instance_id = none })
        deleted ← call_infra
        pure tt)
      else (do deleted ← call_infra; pure tt)

  -- `_cleanup_new_ip`: whatever the provider says, the address is released.
  unfoldable pub cleanup_new_ip : StaticIp → World F → World F
  unfolding call_infra
  cleanup_new_ip ip w =
      (update_ip ip.id (λ (a : StaticIp). record a { status = IpStatus.released })
        (detach_and_delete ip w).1).1

  -- The `finally` for a new address that was not put to use.
  unfoldable pub final_cleanup : ℕ → World F → World F
  unfolding cleanup_new_ip
  final_cleanup id w =
      if any (assigned_to id) w.db.assignments then w else elim (find_ip id w.db.ips) [
        | none ↦ w
        | some ip ↦ if is_released ip.status then w else (commit (cleanup_new_ip ip w)).1
      ]

  abbrev pub unless_activated :
      StaticIp → Result RotationResult × World F → Result RotationResult × World F
  unless_activated new (ok x, w) = (ok x, w)
  unless_activated new (raised e, w) = (raised e, final_cleanup new.id w)

  -- The old address: it is detached if it is attached, whatever the provider says, and released.
  unfoldable pub retire_ip : ℕ → World F → World F
  unfolding call_infra
  retire_ip id w = elim (find_ip id w.db.ips) [
    | none ↦ w
    | some ip ↦
        if is_attached ip.status
        then (update_ip id
            (λ (a : StaticIp). record a { instance_id = none; status = IpStatus.released })
            (call_infra w).1).1
        else (update_ip id (λ (a : StaticIp). record a { status = IpStatus.released }) w).1
  ]

  -- The new address takes the place of the old one on its instance, if that is still there.
  unfoldable pub attach_new : Option ℕ → StaticIp → Action F StaticIp
  unfolding attach
  attach_new none new w = (ok new, w)
  attach_new (some id) new w = elim (find_instance id w.db) [
    | none ↦ (ok new, w)
    | some i ↦ if is_destroyed i.status then (ok new, w) else attach new.id i.id w
  ]

  -- `try: await wl.sync(broker_id) except Exception: whitelist_ok = False`
  unfoldable pub sync_whitelist : Parsers → ℕ → Action F Bool
  unfolding sync
  sync_whitelist p broker w = let (x, w') = sync p broker none w in (ok (is_ok x), w')

  abbrev pub start_draining : ℕ → Action F (Unit {0})
  start_draining id = do
    update_assignment id (λ a. record a { status = AssignmentStatus.draining })
    commit

  -- The orders did not drain in time.
  unfoldable pub abort : IpAssignment → StaticIp → Action F RotationResult
  unfolding cleanup_new_ip
  abort a new w =
      (do
        update_assignment a.id (λ x. record x { status = AssignmentStatus.active })
        commit
        raise (app rotation_drain_timeout 409))
        (cleanup_new_ip new w)

  -- The old assignment and its use end, with a cooldown of so many hours.
  abbrev pub end_old : ℕ → IpAssignment → ℕ → ℕ → Db F → Db F
  end_old broker a now eligible db = record db {
    assignments =
        update_rows (λ (x : IpAssignment). x.id == a.id)
          (λ x. record x { status = AssignmentStatus.released; released_at = some now })
          db.assignments;
    usage = update_rows (is_open_use_of broker a.static_ip_id) (end_use now eligible) db.usage;
  }

  abbrev pub switch : ℕ → IpAssignment → StaticIp → Bool → Bool → Bool → ℤ → Action F RotationResult
  switch broker a new force drained whitelist_ok hours w =
      (do
        update_db (end_old broker a w.now (add_hours w.now hours))
        λ v. (ok tt, retire_ip a.static_ip_id v)
        id ← fresh_id
        use_id ← fresh_id
        update_db (λ db. record db {
          assignments = db.assignments ++ switched_assignment id a broker new.id ∷ [];
          usage = db.usage ++ new_use use_id new.id broker w.now ∷ [];
        })
        enqueue_outbox "ip.rotated" "ip" new.id
        commit
        pure (record {
          old_ip_id = a.static_ip_id;
          new_ip_id = new.id;
          old_assignment_id = a.id;
          new_assignment_id = id;
          force = force;
          drained = drained;
          whitelist_ok = whitelist_ok;
        }))
        w

module _ {F : Type 0} ⦃r : Real F⦄ where
  -- `_config_int`
  unfoldable pub config_int : String → ℤ → Db F → Result ℤ
  config_int key default db = elim (find_item key db) [
    | none ↦ ok default
    | some item ↦ elim (value_get "seconds" item.value) [
      | some x ↦ int_or_error (as_int x)
      | none ↦ elim (value_get "value" item.value) [
        | some x ↦ int_or_error (as_int x)
        | none ↦ ok default
      ]
    ]
  ]

  -- `_on_timeout_policy`
  unfoldable pub on_timeout_policy : Db F → String
  on_timeout_policy db = elim (find_item "ip.rotation.on_timeout" db) [
    | none ↦ "ABORT"
    | some item ↦ elim (value_get "policy" item.value) [
      | none ↦ "ABORT"
      | some x ↦ upper (as_text x)
    ]
  ]

module _ {F : Type 0} ⦃r : Real F⦄ (settings : Settings F) (p : Parsers) (env : Environment F)
    (force : Bool) where
  -- What follows the wait.
  unfoldable pub conclude :
      ℕ → IpAssignment → StaticIp → Bool → String → Bool → Action F RotationResult
  unfolding abort retire_ip
  conclude broker a new whitelist_ok policy drained =
      if drained || force || text_eq policy "FORCE"
      then (do
        hours ← λ w. (cooldown_hours settings w.db, w)
        switch broker a new force drained whitelist_ok hours)
      else abort a new

  -- The wait for the old address's orders, and what follows.
  unfoldable pub drain_and_conclude : ℕ → IpAssignment → StaticIp → Bool → Action F RotationResult
  drain_and_conclude broker a new whitelist_ok = do
    start_draining a.id
    seconds ← λ w. (config_int "ip.rotation.drain_timeout_seconds" (pos 30) w.db, w)
    policy ← gets (λ w. on_timeout_policy w.db)
    drained ← λ w. or_stuck (wait_until env a.static_ip_id (w.now + span seconds) w)
    conclude broker a new whitelist_ok policy drained

  -- What `rotate` does once it has a new address.
  unfoldable pub rotate_onto : ℕ → IpAssignment × StaticIp → StaticIp → Action F RotationResult
  rotate_onto broker (a, old) new = do
    λ w. raise_if (reuse_blocked broker new.id w.now w.db.usage) (app ip_reuse_policy 409) w
    attached ← attach_new old.instance_id new
    whitelist_ok ← sync_whitelist p broker
    drain_and_conclude broker a attached whitelist_ok

  unfoldable pub rotate_locked : ℕ → Action F RotationResult
  rotate_locked broker = do
    b ← λ w. or_raise (find_broker broker w.db) (app not_found 404) w
    row ← λ w. or_raise (active_assignment broker w.db) (app no_active_assignment 409) w
    new ← allocate_ip row.1.region
    λ w. unless_activated new (rotate_onto broker row new w)

  unfoldable pub rotate : ℕ → Action F RotationResult
  rotate broker = do
    token ← fresh_id
    with_lock (LockKey.broker_ip_lock broker) token (rotate_locked broker)
