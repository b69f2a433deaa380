-- ===== src/Rotation/OneAddress.antt =====
-- A broker has one address at most through a rotation, and the new one after it.
use broker_bridge.Base.{
  ℕ, suc, ◌≤◌, ◌<◌, ◌≡◌, refl, inl, inr, Bool, true, ◌&&◌, some, List, arith, ◌==◌, Bool-cases,
  Option-cases, any, Real,
}
use broker_bridge.Models.{StaticIp, IpAssignment}
use broker_bridge.World.{
  Result, app, ip_reuse_policy, ok, raised, LockKey, Locks, World, Settings, Action, ◌>>=◌,
  raise_if, raise_if-Preserves,
}
use broker_bridge.Draining.{Environment}
use broker_bridge.Rotation.{
  RotationResult, unless_activated, attach_new, sync_whitelist, rotate_onto, rotate_locked, rotate,
}
use broker_bridge.Rotation.Frame.{
  Steady, allocate_ip-Steady, sync_whitelist-Steady, final_cleanup-Steady, attach_new-Steady,
}
use broker_bridge.Rotation.Marks.{count_id, active_assignment-any}
use broker_bridge.Addresses.{reuse_blocked, with_lock}
use broker_bridge.Whitelist.{Parsers}
use broker_bridge.Health.{active_for, active_assignment}
use broker_bridge.Locks.{holder, acquire, acquire_lock, release_lock}
use broker_bridge.Rotation.Switch.{AtMostOne, IsRespectful, Ends, Closed, drain_and_conclude-Closed}
use broker_bridge.Sessions.{find_broker}
use broker_bridge.Allocation.{allocate_ip}
use broker_bridge.Locks.Exclusion.{holder-put}
use broker_bridge.Addresses.Locked.{SameHolders, with_lock-SameHolders}
use broker_bridge.Addresses.OneActive.{count_active}

module _ {F : Type 0} (broker : ℕ) (l : Locks) (n : ℕ) where
  -- Up to the drain the assignments are as they were found.
  module _ (rows : List IpAssignment) where
    abbrev Untouched : World F → Type 0
    Untouched = Steady l n (λ m. m ≡ rows)

    then-Closed :
        {A : Type 0} (m : Action F A) (f : A → Action F RotationResult) (w : World F)
        → AtMostOne broker rows
        → Untouched (m w).1
        → ((a : A) (v : World F) → Untouched v → Closed broker l n (f a v))
        → Closed broker l n ((m >>= f) w)
    then-Closed {A = A} m f w few h k = by_end (m w) h
      where
        by_end :
            (x : Result A × World F)
            → Untouched x.1
            → Closed broker l n (((λ (_ : World F). x) >>= f) x.1)
        by_end (ok a, v) g = k a v g
        by_end (raised e, v) g = (g.0, g.1, rw g.2 few, rw g.3 few)

    module _ ⦃r : Real F⦄ (settings : Settings F) (p : Parsers) (env : Environment F) (force : Bool)
        (fair : IsRespectful broker env)
        (below : (k : LockKey) (t : ℕ) → holder k l ≡ some t → t < n) (few : AtMostOne broker rows)
        (unique : (id : ℕ) → count_id id rows ≤ 1) where
      rotate_onto-Closed :
          (a : IpAssignment) (old new : StaticIp) (w : World F)
          → any (λ (x : IpAssignment). x.id == a.id && active_for broker x) rows ≡ true
          → Untouched w
          → Closed broker l n (rotate_onto settings p env force broker (a, old) new w)
      unfolding rotate_onto
      rotate_onto-Closed a old new w stands h =
          then-Closed
            (λ v.
              raise_if (reuse_blocked broker new.id v.now v.db.usage) (app ip_reuse_policy 409) v)
            _ w few
            (raise_if-Preserves Untouched (reuse_blocked broker new.id w.now w.db.usage)
              (app ip_reuse_policy 409) w h)
            (λ _ v g.
              then-Closed (attach_new old.instance_id new) _ v few
                (attach_new-Steady l n (λ m. m ≡ rows) below old.instance_id new v g)
                (λ attached u g'.
                  then-Closed (sync_whitelist p broker) _ u few
                    (sync_whitelist-Steady l n (λ m. m ≡ rows) p broker u g')
                    (λ listed t (same, next, here, there).
                      drain_and_conclude-Closed broker l n a settings p env force fair attached
                        listed t (rw here stands) (rw here (unique a.id))
                        (same, next, rw here few, rw there few))))

      cleaned :
          (new : StaticIp) (x : Result RotationResult × World F)
          → Closed broker l n x
          → Closed broker l n (unless_activated new x)
      cleaned new (ok x, w) h = h
      cleaned new (raised e, w) h = final_cleanup-Steady l n (AtMostOne broker) new.id w h

      gives_up : (w : World F) → Untouched w → Steady l n (AtMostOne broker) w
      gives_up w h = (h.0, h.1, rw h.2 few, rw h.3 few)

      rotate_locked-Closed :
          (w : World F)
          → Untouched w
          → Closed broker l n (rotate_locked settings p env force broker w)
      unfolding rotate_locked
      rotate_locked-Closed w h = elim (Option-cases (find_broker broker w.db)) [
        | inl missing ↦ rw (missing, rotate_locked) (gives_up w h)
        | inr (b, found) ↦ elim (Option-cases (active_assignment broker w.db)) [
          | inl none' ↦ rw (found, rotate_locked, none') (gives_up w h)
          | inr ((a, old), assigned) ↦
              rw (found, rotate_locked, assigned)
                (then-Closed (allocate_ip old.region)
                  (λ new v.
                    unless_activated new (rotate_onto settings p env force broker (a, old) new v))
                  w few (allocate_ip-Steady l n (λ m. m ≡ rows) old.region w h)
                  (λ new v g. cleaned new (rotate_onto settings p env force broker (a, old) new v) (
                    rotate_onto-Closed a old new v
                      (rw (← h.2) (active_assignment-any broker w.db a old assigned)) g)))
        ]
      ]

module _ {F : Type 0} where
  -- No lock is held with a token that is still to be made.
  abbrev pub TokensBelow : World F → Type 0
  TokensBelow w = (k : LockKey) (t : ℕ) → holder k w.locks ≡ some t → t < w.next_id

  acquired_below :
      (w : World F) (key : LockKey)
      → TokensBelow w
      → (k : LockKey) (t : ℕ) → holder k (acquire key w.next_id w.locks).1 ≡ some t
      → t < suc w.next_id
  unfolding acquire
  acquired_below w key below k t h = ground (arith, holder-put k key w.next_id w.locks, below k t)

module _ {F : Type 0} (broker : ℕ) where
  Closed-SameHolders :
      (l : Locks) (n : ℕ) (x : Result RotationResult × World F)
      → Closed broker l n x
      → SameHolders l x.1.locks
  Closed-SameHolders l n (ok x, w) h = h.0
  Closed-SameHolders l n (raised e, w) h = h.0

  Closed-Ends :
      (l m : Locks) (n : ℕ) (x : Result RotationResult × World F)
      → Closed broker l n x
      → Ends broker (x.0, record x.1 { locks = m })
  Closed-Ends l m n (ok x, w) h = h.1
  Closed-Ends l m n (raised e, w) h = (h.2, h.3)

  module _ ⦃r : Real F⦄ (settings : Settings F) (p : Parsers) (env : Environment F) (force : Bool)
      (fair : IsRespectful broker env) (w : World F) (below : TokensBelow w)
      (clean : w.durable.assignments ≡ w.db.assignments)
      (few : count_active broker w.db.assignments ≤ 1)
      (unique : (id : ℕ) → count_id id w.db.assignments ≤ 1) where
    under_lock :
        let key = LockKey.broker_ip_lock broker in
        let l = (acquire key w.next_id w.locks).1 in
        Closed broker l (suc w.next_id) (
          rotate_locked settings p env force broker
            (record w { next_id = suc w.next_id; locks = l }))
    under_lock =
        let key = LockKey.broker_ip_lock broker in
        let l = (acquire key w.next_id w.locks).1 in
        rotate_locked-Closed broker l (suc w.next_id) w.db.assignments settings p env force fair
          (acquired_below w key below) few unique (record w { next_id = suc w.next_id; locks = l })
          (λ k. refl, omega arith, refl, clean)

    -- If no lock is held with a token that is still to be made, nothing of the assignments is uncommitted,
    -- their identifiers are unique, the broker has one active address at most, and in the waits no other
    -- process gives it one or gives an assignment an identifier that is in use: then after `rotate`,
    -- whatever its end, every lock is held as before; if it returns, the last assignment is that of the
    -- new address, it is the broker's only active one, and all is committed; and if it raises, the broker
    -- has one active address at most.
    pub rotate_lem :
        let (x, w') = rotate settings p env force broker w in
        SameHolders w.locks w'.locks × Ends broker (x, w')
    unfolding rotate with_lock acquire_lock release_lock
    rotate_lem = (
      with_lock-SameHolders (LockKey.broker_ip_lock broker) w.next_id
          (rotate_locked settings p env force broker) (record w { next_id = suc w.next_id })
          (λ held. absurd (omega (arith, below (LockKey.broker_ip_lock broker) w.next_id held)))
          (λ v e. rw e (
            Closed-SameHolders (acquire (LockKey.broker_ip_lock broker) w.next_id w.locks).1
              (suc w.next_id) _ under_lock)),
      elim (Bool-cases (acquire (LockKey.broker_ip_lock broker) w.next_id w.locks).0) [
        | inr held ↦ rw (held, with_lock) (few, rw clean few)
        | inl got ↦
            rw (got, with_lock)
              (Closed-Ends (acquire (LockKey.broker_ip_lock broker) w.next_id w.locks).1 _
                (suc w.next_id) _ under_lock)
      ],
    )
