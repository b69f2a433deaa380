-- ===== src/Locks.antt =====
-- providers/memory.py `MemoryLock`, and the two functions of core/redis_deps.py that the services
-- call. The memory lock ignores its time to live.
pub mod Exclusion
use broker_bridge.Base.{ℕ, Bool, true, false, Option, none, some, [], ◌∷◌, ◌==◌, if◌then◌else◌}
use broker_bridge.World.{ok, LockKey, Locks, World, Action}

abbrev pub same_key : LockKey → LockKey → Bool
same_key (LockKey.ip_lock a) (LockKey.ip_lock b) = a == b
same_key (LockKey.broker_ip_lock a) (LockKey.broker_ip_lock b) = a == b
same_key (LockKey.session_lock a) (LockKey.session_lock b) = a == b
same_key _ _ = false

-- `self._locks.get(key)`
unfoldable pub holder : LockKey → Locks → Option ℕ
holder k [] = none
holder k ((j, t) ∷ l) = if same_key j k then some t else holder k l

-- `self._locks[key] = token`
unfoldable pub put : LockKey → ℕ → Locks → Locks
put k t [] = (k, t) ∷ []
put k t (e ∷ l) = if same_key e.0 k then (k, t) ∷ l else e ∷ put k t l

-- `del self._locks[key]`: a dictionary has a key once, and the copies that a list could hold go too.
unfoldable pub remove : LockKey → Locks → Locks
remove k [] = []
remove k (e ∷ l) = if same_key e.0 k then remove k l else e ∷ remove k l

unfoldable pub acquire : LockKey → ℕ → Locks → Bool × Locks
unfolding holder put
acquire key token l = elim (holder key l) [
  | some t ↦ if t == token then (true, put key token l) else (false, l)
  | none ↦ (true, put key token l)
]

unfoldable pub release : LockKey → ℕ → Locks → Bool × Locks
unfolding holder remove
release key token l = elim (holder key l) [
  | some t ↦ if t == token then (true, remove key l) else (false, l)
  | none ↦ (false, l)
]

module _ {F : Type 0} where
  unfoldable pub acquire_lock : LockKey → ℕ → Action F Bool
  acquire_lock key token w =
      let (got, l) = acquire key token w.locks in (ok got, record w { locks = l })

  -- What `finally: await release_lock(…)` does to the state.
  unfoldable pub release_lock : LockKey → ℕ → World F → World F
  release_lock key token w = record w { locks = (release key token w.locks).1 }
