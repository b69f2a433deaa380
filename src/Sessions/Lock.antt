-- ===== src/Sessions/Lock.antt =====
-- The lock around `ensure`: it is free again at every end, and nothing else changes than the sessions.
use broker_bridge.Base.{
  ℕ, suc, ◌≡◌, refl, ◌≢◌, ◌⊎◌, inl, inr, Bool, none, some, List, arith, Bool-cases, Option-cases,
}
use broker_bridge.Models.{BrokerSession}
use broker_bridge.World.{Result, ok, Db, LockKey, Locks, World, Settings}
use broker_bridge.Locks.{holder, put, acquire, release, acquire_lock, release_lock}
use broker_bridge.Locks.Exclusion.{same_key-eq, same_key_refl, holder-put, holder-remove}
use broker_bridge.Sessions.{find_broker, locked, ensure}
use broker_bridge.Sessions.Ensure.{
  IsUsable, ensure_locked-Usable, holding, Unknown, Disabled, Contended, ensure-ends,
}

-- Taking a free key and giving it back leaves every key as it was.
holder-put-remove :
    (j k : LockKey) (t : ℕ) (l : Locks)
    → holder k l ≡ none
    → holder j (release k t (put k t l)).1 ≡ holder j l
unfolding release
holder-put-remove j k t l free = ground (
  arith,
  holder-put k k t l,
  holder-put j k t l,
  holder-remove j k (put k t l),
  same_key_refl k,
  same_key-eq k j,
)

module _ {F : Type 0} (settings : Settings F) (force : Bool) (id : ℕ) (w : World F) where
  -- The second state is the first but for the sessions, what is committed, the identifiers, and the
  -- list of the locks.
  abbrev pub Touched : World F → Type 0
  Touched w' =
      (s : List BrokerSession) × (d : Db F) × (n : ℕ) × (l : Locks) × (w'
        ≡ record w { db = record w.db { sessions = s }; durable = d; next_id = n; locks = l })

  pub ensure-Touched : Touched (ensure settings force id w).1
  unfolding ensure acquire_lock release_lock
  ensure-Touched = elim (Option-cases (find_broker id w.db)) [
    | inl missing ↦ (w.db.sessions, w.durable, w.next_id, w.locks, rw (missing, ensure))
    | inr (b, found) ↦ elim (Bool-cases b.enabled) [
      | inr off ↦ (w.db.sessions, w.durable, w.next_id, w.locks, rw (found, ensure, off))
      | inl on ↦
          let l = (acquire (LockKey.session_lock id) w.next_id w.locks).1 in
          elim (Bool-cases (acquire (LockKey.session_lock id) w.next_id w.locks).0) [
            | inr held ↦ (w.db.sessions, w.durable, suc w.next_id, l, rw (found, ensure, on, held))
            | inl got ↦
                let (good, (s, d, n, e)) =
                  ensure_locked-Usable settings force id
                    (record w { next_id = suc w.next_id; locks = l }) in
                (
                  s,
                  d,
                  n,
                  (release (LockKey.session_lock id) w.next_id l).1,
                  rw (found, ensure, on, got, e),
                )
          ]
    ]
  ]

  abbrev pub KeepsLocks : World F → Type 0
  KeepsLocks w' = (k : LockKey) → holder k w'.locks ≡ holder k w.locks

  -- What a run of `ensure` did, for its end.
  abbrev pub Ended : Result BrokerSession × World F → Type 0
  Ended (r, w') = Touched w' × KeepsLocks w'

  abbrev pub Succeeded : Type 0
  Succeeded =
      (holder (LockKey.session_lock id) w.locks ≡ none)
      × ((s : BrokerSession) × ((ensure settings force id w).0 ≡ ok s)
          × IsUsable settings force id w.now s)

  locked-Usable :
      holder (LockKey.session_lock id) w.locks ≡ none
      → ((s : BrokerSession) × ((locked settings force id w.next_id (holding settings force id w)).0
            ≡ ok s)
          × IsUsable settings force id w.now s)
        × Ended (locked settings force id w.next_id (holding settings force id w))
  unfolding release_lock
  locked-Usable free =
      let (good, (s, d, n, e)) =
        ensure_locked-Usable settings force id (holding settings force id w) in
      (
        good,
        (
          (
            s,
            d,
            n,
            (release (LockKey.session_lock id) w.next_id
                (put (LockKey.session_lock id) w.next_id w.locks)).1,
            ground arith,
          ),
          λ k. rw e (holder-put-remove k (LockKey.session_lock id) w.next_id w.locks free),
        ),
      )

  -- If no one holds the broker's session lock with the token that `ensure` is about to make, `ensure`
  -- raises NOT_FOUND for an unknown broker, BROKER_DISABLED for a disabled one and LOCK_CONTENTION
  -- while the lock is held, and otherwise returns a session of the broker that is valid and not
  -- expired. Every lock is held as before at each of these ends, and nothing has changed but the
  -- sessions, what is committed, and the identifiers in use.
  pub ensure_lem :
      holder (LockKey.session_lock id) w.locks ≢ some w.next_id
      → (Unknown settings force id w
          ⊎ (Disabled settings force id w ⊎ (Contended settings force id w ⊎ Succeeded)))
        × Ended (ensure settings force id w)
  ensure_lem fresh = elim (ensure-ends settings force id w fresh) [
    | inl unknown ↦ (
      inl unknown,
      rw unknown.1 ((w.db.sessions, w.durable, w.next_id, w.locks, refl), λ k. refl),
    )
    | inr (inl (b, found, off, e)) ↦ (
      inr (inl (b, found, off, e)),
      rw e ((w.db.sessions, w.durable, w.next_id, w.locks, refl), λ k. refl),
    )
    | inr (inr (inl (t, held, e))) ↦ (
      inr (inr (inl (t, held, e))),
      rw e ((w.db.sessions, w.durable, suc w.next_id, w.locks, refl), λ k. refl),
    )
    | inr (inr (inr (free, e))) ↦
        let (good, ended) = locked-Usable free in (inr (inr (inr (free, rw e good))), rw e ended)
  ]
