-- ===== src/Addresses/OneActive.antt =====
-- A broker has at most one address, through any operation on the addresses.
use broker_bridge.Base.{
  ℕ, suc, ◌+◌, ◌≤◌, ◌≡◌, refl, ap, inl, inr, false, Option, some, List, [], ◌∷◌, ◌++◌, arith, ◌==◌,
  if◌then◌else◌, Bool-cases, any, update_rows, first_row-holds,
}
use broker_bridge.Models.{BrokerAccount, IpAssignment}
use broker_bridge.World.{Db, LockKey, Locks, World, Action, Preserves}
use broker_bridge.Locks.{acquire, release, acquire_lock, release_lock}
use broker_bridge.Health.{active_for}
use broker_bridge.Sessions.{find_broker}
use broker_bridge.Addresses.{
  assigned_to, end_assignment, with_lock, new_assignment, record_assignment, assign_locked, assign,
}
use broker_bridge.Addresses.Assign.{assign_locked-ends}

-- How many active assignments the broker has.
abbrev pub count_active : ℕ → List IpAssignment → ℕ
count_active broker [] = 0
count_active broker (a ∷ l) = (if active_for broker a then 1 else 0) + count_active broker l

abbrev pub OneActive : List IpAssignment → Type 0
OneActive l = (broker : ℕ) → count_active broker l ≤ 1

count_active-append :
    (broker : ℕ) (l : List IpAssignment) (a : IpAssignment)
    → count_active broker (l ++ a ∷ [])
      ≡ count_active broker l + (if active_for broker a then 1 else 0)
count_active-append broker [] a = omega arith
count_active-append broker (x ∷ l) a = omega (arith, count_active-append broker l a)

count_active-none :
    (broker : ℕ) (l : List IpAssignment)
    → any (active_for broker) l ≡ false
    → count_active broker l ≡ 0
count_active-none broker [] h = refl
count_active-none broker (a ∷ l) h = ground (arith, count_active-none broker l)

pub count_active-end :
    (broker ip now : ℕ) (l : List IpAssignment)
    → count_active broker (update_rows (assigned_to ip) (end_assignment now) l)
      ≤ count_active broker l
count_active-end broker ip now [] = omega arith
count_active-end broker ip now (a ∷ l) = ground (arith, count_active-end broker ip now l)

OneActive-append :
    (l : List IpAssignment) (a : IpAssignment)
    → any (active_for a.broker_account_id) l ≡ false
    → OneActive l
    → OneActive (l ++ a ∷ [])
OneActive-append l a free once broker = elim (Bool-cases (a.broker_account_id == broker)) [
  | inr other ↦ ground (arith, count_active-append broker l a, once broker)
  | inl same ↦
      let e : a.broker_account_id ≡ broker = ground arith in
      ground (
        arith,
        count_active-append broker l a,
        count_active-none a.broker_account_id l free,
        ap (λ n. count_active n l) e,
      )
]

find_broker-id :
    {F : Type 0} (id : ℕ) (db : Db F) (b : BrokerAccount F) → find_broker id db ≡ some b → b.id ≡ id
find_broker-id {F = F} id db b h =
    ground (arith, first_row-holds (λ (x : BrokerAccount F). x.id == id) db.brokers b h)

module _ {F : Type 0} where
  abbrev pub Single : World F → Type 0
  Single w = OneActive w.db.assignments

  -- A property that does not read the locks is kept under a lock.
  pub with_lock-Preserves :
      {A : Type 0} (P : World F → Type 0) (key : LockKey) (token : ℕ) (body : Action F A)
      → ((w : World F) (l : Locks) → P w → P (record w { locks = l }))
      → Preserves P body
      → Preserves P (with_lock key token body)
  unfolding with_lock acquire_lock release_lock
  with_lock-Preserves P key token body blind keeps w h =
      elim (Bool-cases (acquire key token w.locks).0) [
        | inr held ↦ rw (held, with_lock) (blind w (acquire key token w.locks).1 h)
        | inl got ↦
            let v : World F = record w { locks = (acquire key token w.locks).1 } in
            rw (got, with_lock)
              (blind (body v).1 (release key token (body v).1.locks).1
                (keeps v (blind w (acquire key token w.locks).1 h)))
      ]

  pub with_lock-Single :
      {A : Type 0} (key : LockKey) (token : ℕ) (body : Action F A)
      → Preserves Single body
      → Preserves Single (with_lock key token body)
  with_lock-Single key token body = with_lock-Preserves Single key token body (λ w l h. h)

  pub assign_locked-Single :
      (ip_id broker_id : ℕ) (client : Option ℕ) (w : World F)
      → Single w
      → Single (assign_locked ip_id broker_id client w).1
  unfolding record_assignment
  assign_locked-Single ip_id broker_id client w h =
      elim (assign_locked-ends ip_id broker_id client w) [
        | inl (e, same) ↦ rw same h
        | inr (ip, b, found, idle, known, cooled, free, same) ↦ rw same (
            OneActive-append w.db.assignments (new_assignment w.next_id ip_id client b)
              (rw (find_broker-id broker_id w.db b known) free) h)
      ]

  -- If no broker has two active assignments, none has after `assign`, whatever its end.
  pub assign-OneActive :
      (ip_id broker_id : ℕ) (client : Option ℕ) (w : World F)
      → OneActive w.db.assignments
      → OneActive (assign ip_id broker_id client w).1.db.assignments
  unfolding assign
  assign-OneActive ip_id broker_id client w h =
      with_lock-Single (LockKey.broker_ip_lock broker_id) w.next_id
        (with_lock (LockKey.ip_lock ip_id) w.next_id (assign_locked ip_id broker_id client))
        (with_lock-Single (LockKey.ip_lock ip_id) w.next_id (assign_locked ip_id broker_id client)
          (assign_locked-Single ip_id broker_id client))
        (record w { next_id = suc w.next_id }) h
