-- ===== src/MockInfra.antt =====
-- providers/infrastructure/mock_database.py and docnet.py: the mock provider that keeps its machines and
-- addresses in the process. New identifiers, and the salts of the allocator, come from outside.
pub mod Pool
use Prim.Native.Nat.{◌%◌}
use broker_bridge.Base.{
  ℕ, zero, suc, ◌+◌, String, Bool, true, false, not, ◌||◌, Option, none, some, List, [], ◌∷◌, ◌++◌,
  text_eq, ◌==◌, if◌then◌else◌, is_text, where_rows, first_row, any, update_rows,
}
use broker_bridge.World.{Failure, Result, infra_error, ok, raised}

-- `198.51.100.{host}` and `203.0.113.{host}`
pub data DocAddress : Type 0 where
  net_198 net_203 : ℕ → DocAddress

abbrev pub same_address : DocAddress → DocAddress → Bool
same_address (DocAddress.net_198 a) (DocAddress.net_198 b) = a == b
same_address (DocAddress.net_203 a) (DocAddress.net_203 b) = a == b
same_address _ _ = false

abbrev pub is_used : List DocAddress → DocAddress → Bool
is_used used a = any (same_address a) used

-- The address of one draw: `n` from the counter and its salt.
abbrev pub candidate : ℕ → DocAddress
candidate x =
    let host = (x % 254) + 1 in
    if (x % 2) == 0 then DocAddress.net_203 host else DocAddress.net_198 host

-- The loop of `next_address`, with the tries that are left and the counter.
unfoldable pub draw_address : (ℕ → ℕ) → List DocAddress → ℕ → ℕ → DocAddress × ℕ
draw_address salt used zero n = (DocAddress.net_198 ((n % 254) + 1), n + 1)
draw_address salt used (suc tries) n =
    let rest = draw_address salt used tries (n + 1) in
    let a = candidate (n + salt n) in if is_used used a then rest else (a, n + 1)

-- `DocNetIpAllocator.next_address`
unfoldable pub next_address : (ℕ → ℕ) → List DocAddress → ℕ → DocAddress × ℕ
unfolding draw_address
next_address salt used n = draw_address salt used 64 n

pub data MockIpStatus : Type 0 where
  allocated attached detached released : MockIpStatus

pub data MockStatus : Type 0 where
  running suspended destroyed : MockStatus

-- An entry of `_ips`; what is missing from a dict is `none`.
pub record MockIp : Type 0 where
  pub key : String
  pub address : Option DocAddress
  pub region : Option String
  pub ip_status : MockIpStatus
  pub instance_key : Option String
  pub ip_auto_renew : Option Bool

-- An entry of `_instances`.
pub record MockInstance : Type 0 where
  pub name : String
  pub location : Option String
  pub machine_status : MockStatus
  pub auto_renew : Option Bool

-- `DatabaseMockBackend`
pub record MockBackend : Type 0 where
  pub counter : ℕ
  pub ips : List MockIp
  pub instances : List MockInstance
  pub probe_fail : Bool

abbrev pub used_addresses : List MockIp → List DocAddress
used_addresses [] = []
used_addresses (x ∷ l) = elim x.address [ none ↦ used_addresses l | some a ↦ a ∷ used_addresses l ]

abbrev pub is_ip : String → MockIp → Bool
is_ip k x = text_eq x.key k

abbrev pub is_machine : String → MockInstance → Bool
is_machine k x = text_eq x.name k

-- `key in self._ips` and `key in self._instances`
abbrev pub has_ip : String → MockBackend → Bool
has_ip k b = any (is_ip k) b.ips

abbrev pub has_machine : String → MockBackend → Bool
has_machine k b = any (is_machine k) b.instances

abbrev pub update_ip : String → (MockIp → MockIp) → MockBackend → MockBackend
update_ip k f b = record b { ips = update_rows (is_ip k) f b.ips }

abbrev pub update_machine : String → (MockInstance → MockInstance) → MockBackend → MockBackend
update_machine k f b = record b { instances = update_rows (is_machine k) f b.instances }

abbrev pub unavailable : Failure
unavailable = infra_error "INFRA_UNAVAILABLE" 503

-- `_fault_active`, with the mark of the simulator
abbrev pub fault_active : Bool → MockBackend → Bool
fault_active marked b = b.probe_fail || marked

abbrev pub set_probe_fail : Bool → MockBackend → MockBackend
set_probe_fail on b = record b { probe_fail = on }

abbrev pub probe : Bool → MockBackend → Bool
probe marked b = not (fault_active marked b)

abbrev pub new_ip : String → String → DocAddress → MockIp
new_ip k region a = record {
  key = k;
  address = some a;
  region = some region;
  ip_status = MockIpStatus.allocated;
  instance_key = none;
  ip_auto_renew = some true;
}

-- `create_ip`, with the new identifier and the salts.
unfoldable pub create_ip :
    (ℕ → ℕ) → Bool → String → String → MockBackend → Result MockIp × MockBackend
create_ip salt marked region k b =
    let (a, n) = next_address salt (used_addresses b.ips) b.counter in
    if fault_active marked b
    then (raised unavailable, b)
    else (ok (new_ip k region a), record b { counter = n; ips = b.ips ++ new_ip k region a ∷ [] })

abbrev pub delete_ip : String → MockBackend → MockBackend
delete_ip k = update_ip k (λ x. record x { ip_status = MockIpStatus.released })

-- An address that the process does not know is taken up.
unfoldable pub attach_ip : String → String → MockBackend → MockBackend
attach_ip k machine b =
    if has_ip k b
    then update_ip k
        (λ x. record x { ip_status = MockIpStatus.attached; instance_key = some machine }) b
    else record b {
      ips =
          b.ips
          ++ record {
            key = k;
            address = none;
            region = none;
            ip_status = MockIpStatus.attached;
            instance_key = some machine;
            ip_auto_renew = none;
          }
            ∷ [];
    }

abbrev pub detach_ip : String → MockBackend → MockBackend
detach_ip k = update_ip k (λ x. record x { ip_status = MockIpStatus.detached; instance_key = none })

unfoldable pub create_instance :
    Bool → String → String → MockBackend → Result MockInstance × MockBackend
create_instance marked region k b =
    let x : MockInstance = record {
      name = k;
      location = some region;
      machine_status = MockStatus.running;
      auto_renew = some true;
    } in
    if fault_active marked b
    then (raised unavailable, b)
    else (ok x, record b { instances = b.instances ++ x ∷ [] })

abbrev pub destroy_instance : String → MockBackend → MockBackend
destroy_instance k = update_machine k (λ x. record x { machine_status = MockStatus.destroyed })

-- `suspend_instance` and `start_instance`: a machine that the process does not know is taken up.
unfoldable pub set_status : MockStatus → String → MockBackend → MockBackend
set_status s k b =
    if has_machine k b
    then update_machine k (λ x. record x { machine_status = s }) b
    else record b {
      instances =
          b.instances
          ++ record { name = k; location = none; machine_status = s; auto_renew = none } ∷ [];
    }

abbrev pub suspend_instance : String → MockBackend → MockBackend
suspend_instance = set_status MockStatus.suspended

abbrev pub start_instance : String → MockBackend → MockBackend
start_instance = set_status MockStatus.running

-- The machines are looked at before the addresses.
unfoldable pub set_auto_renew : String → Bool → MockBackend → MockBackend
set_auto_renew k on b =
    if has_machine k b
    then update_machine k (λ x. record x { auto_renew = some on }) b
    else if has_ip k b
    then update_ip k (λ x. record x { ip_auto_renew = some on }) b
    else record b {
      instances =
          b.instances
          ++ record {
            name = k;
            location = none;
            machine_status = MockStatus.running;
            auto_renew = some on;
          }
            ∷ [];
    }

-- `list_ips`: an empty region is none.
unfoldable pub list_ips : Option String → MockBackend → List MockIp
list_ips none b = b.ips
list_ips (some region) b =
    if is_text region
    then where_rows (λ (x : MockIp). elim x.region [ none ↦ false | some s ↦ text_eq s region ])
        b.ips
    else b.ips

abbrev pub get_ip : String → MockBackend → Option MockIp
get_ip k b = first_row (is_ip k) b.ips
