-- ===== src/Tests/Locks.antt =====
-- The lock at work.
use broker_bridge.Base.{◌≡◌, refl, true, false, List, [], ◌∷◌, arith}
use broker_bridge.World.{LockKey}
use broker_bridge.Locks.{acquire}
use broker_bridge.Locks.Exclusion.{Call, run, acquire_excludes}

abbrev key : LockKey
key = LockKey.session_lock 10

abbrev others : List Call
others =
    Call.acquire_call key 8
    ∷ Call.release_call key 8
    ∷ Call.acquire_call (LockKey.ip_lock 20) 9
    ∷ Call.release_call (LockKey.ip_lock 20) 7
    ∷ []

acquired : (acquire key 7 []).0 ≡ true
unfolding acquire
acquired = refl

acquire_excludes_example :
    acquire key 8 (run others (acquire key 7 []).1) ≡ (false, run others (acquire key 7 []).1)
acquire_excludes_example =
    acquire_excludes key 7 8 [] others acquired (tt, (refl, (tt, (refl, tt)))) (ground arith)
