-- ===== src/Tests/Rotation.antt =====
-- Broker 10 gets a new address in place of address 20, and keeps the old one when an order does not
-- drain in time.
use broker_bridge.Base.{
  ℕ, ◌≤◌, ◌≡◌, refl, true, false, none, some, [], ◌∷◌, arith, lower, whole_numbers,
}
use broker_bridge.Models.{OrderStatus, Scalar}
use broker_bridge.World.{app, rotation_drain_timeout, ok, raised, Resource, Reply, World}
use broker_bridge.Draining.{Environment, count_inflight, drain, wait_until}
use broker_bridge.Locks.{holder, put, acquire, acquire_lock, release_lock}
use broker_bridge.Rotation.Switch.{IsRespectful, Ends}
use broker_bridge.Whitelist.{
  text_ltb, sorted_set, normalize_whitelist, compare_ips, fetch_whitelist_raw, sync,
}
use broker_bridge.Events.{enqueue_outbox}
use broker_bridge.Allocation.{insert_ip, insert_or_retry, allocate_in, allocate_ip}
use broker_bridge.Infra.{call_infra, call_resource}
use broker_bridge.Addresses.{with_lock, cooldown_hours}
use broker_bridge.Health.{active_assignment}
use broker_bridge.Rotation.{
  cleanup_new_ip, final_cleanup, retire_ip, attach_new, sync_whitelist, abort, config_int,
  on_timeout_policy, conclude, drain_and_conclude, rotate_onto, rotate_locked, rotate,
}
use broker_bridge.Tests.Fixtures.{tables, world, settings, parsers, order}
use broker_bridge.Rotation.Marks.{count_id}
use broker_bridge.Rotation.OneAddress.{TokensBelow, rotate_lem}
use broker_bridge.Addresses.Locked.{SameHolders}
use broker_bridge.Addresses.OneActive.{count_active}
use broker_bridge.Draining.Wait.{Waited, wait_until_lem}

abbrev fresh_ip : Resource
fresh_ip = record {
  external_id = "ip-9";
  ip_address = "203.0.113.9";
  provider = none;
  status = none;
  auto_renew = none;
}

abbrev before : World ℕ
before = record world { infra = Reply.resource fresh_ip ∷ Reply.accepted ∷ Reply.unreachable ∷ [] }

-- Nothing happens but that time passes.
abbrev quiet : Environment ℕ
quiet = record { poll_interval = 50000; delay = λ k. 0; others = λ k db. db }

abbrev busy : World ℕ
busy = record before {
  db = record tables {
    orders = record (order 60 none) { status = OrderStatus.submitted; static_ip_id = some 20 } ∷ [];
    config =
        record {
          key = "ip.rotation.drain_timeout_seconds";
          value = ("seconds", Scalar.number 1) ∷ [];
          version = 1;
        }
        ∷ [];
  };
}

rotated_10 :
    (rotate settings parsers quiet false 10 before).0
    ≡ ok (record {
      old_ip_id = 20;
      new_ip_id = 101;
      old_assignment_id = 20;
      new_assignment_id = 103;
      force = false;
      drained = true;
      whitelist_ok = true;
    })
unfolding rotate with_lock acquire_lock acquire holder put rotate_locked active_assignment
    allocate_ip allocate_in call_resource insert_or_retry insert_ip rotate_onto attach_new
    sync_whitelist sync normalize_whitelist fetch_whitelist_raw lower compare_ips sorted_set
    text_ltb drain_and_conclude config_int on_timeout_policy wait_until drain count_inflight
    conclude abort cleanup_new_ip retire_ip cooldown_hours enqueue_outbox call_infra final_cleanup
    release_lock
rotated_10 = refl

timed_out_10 :
    (rotate settings parsers quiet false 10 busy).0 ≡ raised (app rotation_drain_timeout 409)
unfolding rotate with_lock acquire_lock acquire holder put rotate_locked active_assignment
    allocate_ip allocate_in call_resource insert_or_retry insert_ip rotate_onto attach_new
    sync_whitelist sync normalize_whitelist fetch_whitelist_raw lower compare_ips sorted_set
    text_ltb drain_and_conclude config_int on_timeout_policy wait_until drain count_inflight
    conclude abort cleanup_new_ip retire_ip cooldown_hours enqueue_outbox call_infra final_cleanup
    release_lock
timed_out_10 = refl

no_token : TokensBelow before
no_token k t h = unfold holder in ground arith

few_10 : count_active 10 tables.assignments ≤ 1
few_10 = omega arith

unique_ids : (id : ℕ) → count_id id tables.assignments ≤ 1
unique_ids id = ground arith

quiet-IsRespectful : IsRespectful 10 quiet
quiet-IsRespectful k db = (omega arith, λ id unique. unique)

rotate_lem_example :
    let (x, w') = rotate settings parsers quiet false 10 before in
    SameHolders [] w'.locks × Ends 10 (x, w')
rotate_lem_example =
    rotate_lem 10 settings parsers quiet false quiet-IsRespectful before no_token refl few_10
      unique_ids

wait_until_lem_example : Waited quiet 20 1001000 0 busy (wait_until quiet 20 1001000 busy)
wait_until_lem_example = wait_until_lem quiet 20 1001000 busy (omega arith)

-- The drain timeout is no number: the old assignment is left draining.
abbrev misread : World ℕ
misread = record before {
  db = record tables {
    config =
        record {
          key = "ip.rotation.drain_timeout_seconds";
          value = ("seconds", Scalar.text "soon") ∷ [];
          version = 1;
        }
        ∷ [];
  };
}

stranded_10 : count_active 10 (rotate settings parsers quiet false 10 misread).1.db.assignments ≡ 0
unfolding rotate with_lock acquire_lock acquire holder put rotate_locked active_assignment
    allocate_ip allocate_in call_resource insert_or_retry insert_ip rotate_onto attach_new
    sync_whitelist sync normalize_whitelist fetch_whitelist_raw lower compare_ips sorted_set
    text_ltb drain_and_conclude config_int on_timeout_policy wait_until drain count_inflight
    conclude abort cleanup_new_ip retire_ip cooldown_hours enqueue_outbox call_infra final_cleanup
    release_lock
stranded_10 = refl
