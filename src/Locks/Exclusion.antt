-- ===== src/Locks/Exclusion.antt =====
-- Mutual exclusion of the memory lock, over any sequence of calls.
use broker_bridge.Base.{
  ℕ, true, false, ◌≡◌, ◌≢◌, refl, none, some, List, [], ◌∷◌, arith, ◌==◌, if◌then◌else◌, All,
  ==_iff,
}
use broker_bridge.World.{LockKey, Locks}
use broker_bridge.Locks.{same_key, holder, put, remove, acquire, release}

pub same_key-eq : (j k : LockKey) → same_key j k ≡ true → j ≡ k
same_key-eq (LockKey.ip_lock a) (LockKey.ip_lock b) h = ground arith
same_key-eq (LockKey.broker_ip_lock a) (LockKey.broker_ip_lock b) h = ground arith
same_key-eq (LockKey.session_lock a) (LockKey.session_lock b) h = ground arith
same_key-eq (LockKey.ip_lock a) (LockKey.broker_ip_lock b) h = cc
same_key-eq (LockKey.ip_lock a) (LockKey.session_lock b) h = cc
same_key-eq (LockKey.broker_ip_lock a) (LockKey.ip_lock b) h = cc
same_key-eq (LockKey.broker_ip_lock a) (LockKey.session_lock b) h = cc
same_key-eq (LockKey.session_lock a) (LockKey.ip_lock b) h = cc
same_key-eq (LockKey.session_lock a) (LockKey.broker_ip_lock b) h = cc

pub same_key_refl : (k : LockKey) → same_key k k ≡ true
same_key_refl (LockKey.ip_lock a) = ground arith
same_key_refl (LockKey.broker_ip_lock a) = ground arith
same_key_refl (LockKey.session_lock a) = ground arith

pub holder-put :
    (j k : LockKey) (t : ℕ) (l : Locks)
    → holder j (put k t l) ≡ (if same_key k j then some t else holder j l)
unfolding holder put
holder-put j k t [] = refl
holder-put j k t ((i, s) ∷ l) = ground (
  arith,
  same_key-eq i k,
  same_key-eq i j,
  same_key-eq k j,
  same_key_refl j,
  same_key_refl k,
  holder-put j k t l,
)

pub holder-remove :
    (j k : LockKey) (l : Locks)
    → holder j (remove k l) ≡ (if same_key k j then none else holder j l)
unfolding holder remove
holder-remove j k [] = ground arith
holder-remove j k ((i, s) ∷ l) = ground (
  arith,
  same_key-eq i k,
  same_key-eq i j,
  same_key-eq k j,
  same_key_refl j,
  same_key_refl k,
  holder-remove j k l,
)

-- A call on the lock, by whoever makes it.
pub data Call : Type 0 where
  acquire_call release_call : LockKey → ℕ → Call

abbrev pub step : Call → Locks → Locks
step (Call.acquire_call k t) l = (acquire k t l).1
step (Call.release_call k t) l = (release k t l).1

pub run : List Call → Locks → Locks
run [] l = l
run (c ∷ cs) l = run cs (step c l)

-- The call is not the release of `k` with the token `t`.
abbrev pub IsForeign : LockKey → ℕ → Call → Type 0
IsForeign k t (Call.acquire_call _ _) = Unit
IsForeign k t (Call.release_call j s) = (if same_key j k then s == t else false) ≡ false

step-holder :
    (k : LockKey) (t : ℕ) (c : Call) (l : Locks)
    → IsForeign k t c
    → holder k l ≡ some t
    → holder k (step c l) ≡ some t
unfolding acquire release
step-holder k t (Call.acquire_call j s) l f h =
    ground (arith, holder-put k j s l, same_key-eq j k, ==_iff t s)
step-holder k t (Call.release_call j s) l f h =
    ground (arith, holder-remove k j l, same_key-eq j k, ==_iff t s)

pub run-holder :
    (k : LockKey) (t : ℕ) (cs : List Call) (l : Locks)
    → All (IsForeign k t) cs
    → holder k l ≡ some t
    → holder k (run cs l) ≡ some t
unfolding run
run-holder k t [] l f h = h
run-holder k t (c ∷ cs) l f h = run-holder k t cs (step c l) f.1 (step-holder k t c l f.0 h)

-- Once `acquire` has returned true for a token, then through any calls of any callers other than
-- the release with that token, `acquire` with another token returns false and changes nothing.
pub acquire_excludes :
    (k : LockKey) (t s : ℕ) (l : Locks) (cs : List Call)
    → (acquire k t l).0 ≡ true
    → All (IsForeign k t) cs
    → t ≢ s
    → acquire k s (run cs (acquire k t l).1) ≡ (false, run cs (acquire k t l).1)
acquire_excludes k t s l cs got foreign other =
    unfold acquire in ground (arith, run-holder k t cs (acquire k t l).1 foreign (held k t l got))
  where
    held :
        (k : LockKey) (t : ℕ) (l : Locks)
        → (acquire k t l).0 ≡ true
        → holder k (acquire k t l).1 ≡ some t
    held k t l got = unfold acquire in ground (arith, holder-put k k t l, same_key_refl k)

-- `release` succeeds exactly for the token that holds the key; then the key is free, and every other
-- key is held as before. Otherwise nothing changes.
pub release_frees :
    (k j : LockKey) (t : ℕ) (l : Locks)
    → ((release k t l).0 ≡ true
        → (holder k l ≡ some t)
          × (holder j (release k t l).1 ≡ (if same_key k j then none else holder j l)))
      × ((release k t l).0 ≡ false → (holder k l ≢ some t) × ((release k t l).1 ≡ l))
unfolding release
release_frees k j t l = (λ h. ground (arith, holder-remove j k l), λ h. ground arith)
