-- ===== src/Tests/Addresses.antt =====
-- The addresses at work: broker 12 gets address 22; broker 10 gives its address back.
use broker_bridge.Base.{ℕ, ◌≡◌, refl, none, [], ◌∷◌, arith, whole_numbers, pos}
use broker_bridge.Models.{IpStatus, StaticIp, AssignmentStatus}
use broker_bridge.World.{app, assignment_conflict, ok, raised, World}
use broker_bridge.Locks.{holder, put, acquire, acquire_lock}
use broker_bridge.Addresses.{
  new_use, get_ip, with_lock, record_assignment, assign_locked, assign, cooldown_hours,
  mark_released, release_locked,
}
use broker_bridge.Addresses.Calls.{after, after_lem, assigns}
use broker_bridge.Addresses.OneActive.{OneActive}
use broker_bridge.Addresses.Locked.{SameHolders, FreshToken}
use broker_bridge.Tests.Fixtures.{address, tables, world, settings}
use broker_bridge.Infra.{call_infra}
use broker_bridge.Events.{enqueue_outbox}
use broker_bridge.Addresses.Assign.{Rejected}
use broker_bridge.Addresses.Cooldown.{release_locked-cooldown}

abbrev spare : World ℕ
spare = record world {
  db = record tables {
    ips =
        record (address 22) { status = IpStatus.allocated }
        ∷ record (address 20) { status = IpStatus.detached }
        ∷ [];
  };
}

no_token : FreshToken spare
no_token k = unfold holder in ground arith

each_once : OneActive tables.assignments
each_once b = ground arith

assigned_22 :
    (assign 22 12 none spare).0
    ≡ ok (record {
      id = 101;
      client_id = 1;
      broker_account_id = 12;
      static_ip_id = 22;
      status = AssignmentStatus.active;
      released_at = none;
    })
unfolding assign assign_locked record_assignment get_ip with_lock acquire_lock acquire holder put
assigned_22 = refl

refused_22 : (assign 22 10 none spare).0 ≡ raised (app assignment_conflict 409)
unfolding assign assign_locked record_assignment get_ip with_lock acquire_lock acquire holder put
refused_22 = refl

after_lem_example :
    SameHolders [] (after settings (assigns 22 12 none) spare).locks
    × OneActive (after settings (assigns 22 12 none) spare).db.assignments
after_lem_example = after_lem settings (assigns 22 12 none) spare no_token each_once

-- Broker 10 has had address 20 since time 7.
abbrev used_20 : World ℕ
used_20 = record spare { db = record spare.db { usage = new_use 60 20 10 7 ∷ [] } }

abbrev given_up : StaticIp
given_up = record (address 20) { status = IpStatus.released }

released_20 : (release_locked settings 20 used_20).0 ≡ ok given_up
unfolding release_locked cooldown_hours get_ip call_infra mark_released enqueue_outbox
released_20 = refl

a_day : cooldown_hours settings used_20.db ≡ ok (pos 24)
unfolding cooldown_hours
a_day = refl

release_locked-cooldown_example :
    Rejected 20 10 none (record (release_locked settings 20 used_20).1 { now = 5000 })
release_locked-cooldown_example =
    release_locked-cooldown settings 20 used_20 (pos 24) given_up 10 none
      (record (release_locked settings 20 used_20).1 { now = 5000 }) released_20 a_day refl refl
      (ground arith)
