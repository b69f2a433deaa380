-- ===== src/Addresses/Locked.antt =====
-- The locks of the operations on addresses are given back at every end.
use broker_bridge.Base.{
  ℕ, suc, ◌≡◌, refl, ap, ◌≢◌, inl, inr, true, false, Option, some, arith, ==_iff, Bool-cases,
  Option-cases, Real,
}
use broker_bridge.World.{LockKey, Locks, World, Settings, Action, Preserves}
use broker_bridge.Locks.{holder, acquire, release, acquire_lock, release_lock}
use broker_bridge.Locks.Exclusion.{same_key-eq, same_key_refl, holder-put, holder-remove}
use broker_bridge.Addresses.{
  with_lock, assign_locked, assign, attach_locked, attach, detach_locked, detach, release_locked,
  release_ip,
}
use broker_bridge.Addresses.OneActive.{OneActive, with_lock-Single, assign-OneActive}
use broker_bridge.Addresses.Bodies.{
  Orderly, attach_locked-Orderly, detach_locked-Orderly, assign_locked-Orderly,
  release_locked-Orderly,
}
use broker_bridge.Models.{StaticIp}

-- Every key is held as it was.
abbrev pub SameHolders : Locks → Locks → Type 0
SameHolders l m = (k : LockKey) → holder k m ≡ holder k l

release-SameHolders :
    (key : LockKey) (token : ℕ) (l m : Locks)
    → (acquire key token l).0 ≡ true
    → holder key l ≢ some token
    → SameHolders (acquire key token l).1 m
    → SameHolders l (release key token m).1
unfolding acquire release
release-SameHolders key token l m got fresh same k = elim (Option-cases (holder key l)) [
  | inr (t, held) ↦ absurd (ground (arith, ==_iff t token))
  | inl free ↦ ground (
    arith,
    same key,
    same k,
    holder-put key key token l,
    holder-put k key token l,
    holder-remove k key m,
    same_key_refl key,
    same_key-eq key k,
  )
]

acquire_refused :
    (key : LockKey) (token : ℕ) (l : Locks)
    → (acquire key token l).0 ≡ false
    → (acquire key token l).1 ≡ l
unfolding acquire
acquire_refused key token l h = ground arith

module _ {F A : Type 0} (key : LockKey) (token : ℕ) (body : Action F A) where
  -- If no one holds the key with the token, and the body leaves every key as it finds it while the
  -- lock is held, then so does the body under the lock.
  pub with_lock-SameHolders :
      (w : World F)
      → holder key w.locks ≢ some token
      → ((v : World F)
          → v ≡ record w { locks = (acquire key token w.locks).1 }
          → SameHolders v.locks (body v).1.locks)
      → SameHolders w.locks (with_lock key token body w).1.locks
  unfolding with_lock acquire_lock release_lock
  with_lock-SameHolders w fresh keeps = elim (Bool-cases (acquire key token w.locks).0) [
    | inr held ↦ rw (held, with_lock) (λ k. ap (holder k) (acquire_refused key token w.locks held))
    | inl got ↦
        let v : World F = record w { locks = (acquire key token w.locks).1 } in
        rw (got, with_lock)
          (release-SameHolders key token w.locks (body v).1.locks got fresh (keeps v refl))
  ]

module _ {F : Type 0} (w : World F) where
  -- No lock is held with the token that is made next.
  abbrev pub FreshToken : Type 0
  FreshToken = (k : LockKey) → holder k w.locks ≢ some w.next_id

  -- The state in which the token is made.
  abbrev pub with_token : World F
  with_token = record w { next_id = suc w.next_id }

  -- An operation under the lock of one address.
  one_lock :
      (ip : ℕ) (body : Action F StaticIp)
      → ((l : Locks) → Preserves (Orderly l) body)
      → FreshToken
      → OneActive w.db.assignments
      → let w' = (with_lock (LockKey.ip_lock ip) w.next_id body with_token).1 in
        SameHolders w.locks w'.locks × OneActive w'.db.assignments
  one_lock ip body keeps fresh once = (
    with_lock-SameHolders (LockKey.ip_lock ip) w.next_id body with_token
        (fresh (LockKey.ip_lock ip)) (λ v e k. ap (holder k) (keeps v.locks v (refl, rw e once)).0),
    with_lock-Single (LockKey.ip_lock ip) w.next_id body (λ v h. (keeps v.locks v (refl, h)).1)
        with_token once,
  )

  pub attach_lem :
      (ip i : ℕ)
      → FreshToken
      → OneActive w.db.assignments
      → let w' = (attach ip i w).1 in SameHolders w.locks w'.locks × OneActive w'.db.assignments
  unfolding attach
  attach_lem ip i = one_lock ip (attach_locked ip i) (λ l. attach_locked-Orderly l ip i)

  pub detach_lem :
      (ip : ℕ)
      → FreshToken
      → OneActive w.db.assignments
      → let w' = (detach ip w).1 in SameHolders w.locks w'.locks × OneActive w'.db.assignments
  unfolding detach
  detach_lem ip = one_lock ip (detach_locked ip) (λ l. detach_locked-Orderly l ip)

  pub release_ip_lem :
      ⦃r : Real F⦄ (settings : Settings F) (ip : ℕ)
      → FreshToken
      → OneActive w.db.assignments
      → let w' = (release_ip settings ip w).1 in
        SameHolders w.locks w'.locks × OneActive w'.db.assignments
  unfolding release_ip
  release_ip_lem settings ip =
      one_lock ip (release_locked settings ip) (λ l. release_locked-Orderly l settings ip)

  other_lock :
      (b ip : ℕ)
      → FreshToken
      → holder (LockKey.ip_lock ip) (acquire (LockKey.broker_ip_lock b) w.next_id w.locks).1
        ≢ some w.next_id
  unfolding acquire
  other_lock b ip fresh = ground (
    arith,
    fresh (LockKey.ip_lock ip),
    holder-put (LockKey.ip_lock ip) (LockKey.broker_ip_lock b) w.next_id w.locks,
  )

  pub assign_lem :
      (ip b : ℕ) (client : Option ℕ)
      → FreshToken
      → OneActive w.db.assignments
      → let w' = (assign ip b client w).1 in
        SameHolders w.locks w'.locks × OneActive w'.db.assignments
  unfolding assign
  assign_lem ip b client fresh once = (
    with_lock-SameHolders (LockKey.broker_ip_lock b) w.next_id
        (with_lock (LockKey.ip_lock ip) w.next_id (assign_locked ip b client)) with_token
        (fresh (LockKey.broker_ip_lock b))
        (λ v e.
          with_lock-SameHolders (LockKey.ip_lock ip) w.next_id (assign_locked ip b client) v
            (rw e (other_lock b ip fresh))
            (λ u e' k.
              ap (holder k)
                (assign_locked-Orderly u.locks ip b client u (refl, rw e' (rw e once))).0)),
    assign-OneActive ip b client w once,
  )
