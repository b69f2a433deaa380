-- ===== src/Rotation/Switch.antt =====
-- The part of a rotation that waits and switches the address, or gives up: the broker has one active
-- address at most at its end.
use broker_bridge.Base.{
  ℕ, zero, suc, ◌+◌, ◌-◌, ◌≤◌, String, ◌≡◌, refl, inl, inr, Bool, true, ◌&&◌, ◌||◌, Option, none,
  some, List, [], ◌∷◌, ◌++◌, arith, text_eq, leb, ◌==◌, Bool-cases, any, ℤ, Real, pos,
}
use broker_bridge.Models.{StaticIp, AssignmentStatus, IpAssignment}
use broker_bridge.World.{Result, Result-cases, ok, raised, Db, Locks, World, Settings, ◌>>=◌}
use broker_bridge.Draining.{Environment, count_inflight, sleep, drain, wait_until}
use broker_bridge.Addresses.OneActive.{count_active}
use broker_bridge.Rotation.{
  RotationResult, span, switched_assignment, or_stuck, cleanup_new_ip, retire_ip, start_draining,
  abort, end_old, switch, config_int, on_timeout_policy, conclude, drain_and_conclude,
}
use broker_bridge.Rotation.Frame.{Steady, cleanup_new_ip-Steady, retire_ip-Steady}
use broker_bridge.Rotation.Marks.{
  mark, count_id, count_active-drain, count_active-release, count_active-restore, count_id-mark,
}
use broker_bridge.Events.{enqueue_outbox}
use broker_bridge.Addresses.Locked.{SameHolders}
use broker_bridge.Addresses.{add_hours, cooldown_hours}
use broker_bridge.Whitelist.{Parsers}
use broker_bridge.Health.{active_for}

-- The old assignment drains: the broker has no active address, and the row is one.
abbrev pub IsDraining : ℕ → ℕ → List IpAssignment → Type 0
IsDraining broker id m = (count_active broker m ≡ 0) × (count_id id m ≤ 1)

abbrev pub IsCleared : ℕ → List IpAssignment → Type 0
IsCleared broker m = count_active broker m ≡ 0

abbrev pub AtMostOne : ℕ → List IpAssignment → Type 0
AtMostOne broker m = count_active broker m ≤ 1

module _ {F : Type 0} (broker : ℕ) where
  -- While this process holds the lock of the broker's address, no other gives the broker an address;
  -- others may add any other assignment, under an identifier that no assignment has.
  abbrev pub IsRespectful : Environment F → Type 0
  IsRespectful env =
      (k : ℕ) (db : Db F)
      → (count_active broker (env.others k db).assignments ≤ count_active broker db.assignments)
        × ((id : ℕ)
            → count_id id db.assignments ≤ 1
            → count_id id (env.others k db).assignments ≤ 1)

  -- The assignments are those of a finished rotation: the last row is the new address's, it is active,
  -- and the broker has no other.
  abbrev pub Switched : RotationResult → World F → Type 0
  Switched x w =
      (rows : List IpAssignment) × (a : IpAssignment) × (w.db.assignments ≡ rows ++ a ∷ [])
      × (a.id ≡ x.new_assignment_id)
      × (a.static_ip_id ≡ x.new_ip_id)
      × (a.broker_account_id ≡ broker)
      × (a.status ≡ AssignmentStatus.active)
      × (count_active broker rows ≡ 0)
      × (w.durable ≡ w.db)

  -- A rotation that returns has switched the address; one that raises leaves at most one.
  abbrev pub Ends : Result RotationResult × World F → Type 0
  Ends (ok x, w) = Switched x w
  Ends (raised e, w) =
      (count_active broker w.db.assignments ≤ 1) × (count_active broker w.durable.assignments ≤ 1)

  module _ (l : Locks) (n : ℕ) where
    -- The ends of the parts of a rotation, which also leave the locks.
    abbrev pub Closed : Result RotationResult × World F → Type 0
    Closed (ok x, w) = SameHolders l w.locks × Switched x w
    Closed (raised e, w) = Steady l n (AtMostOne broker) w

    module _ (a : IpAssignment) where
      drain-Steady :
          (env : Environment F)
          → IsRespectful env
          → (m k ip deadline : ℕ) (w : World F) → Steady l n (IsDraining broker a.id) w
          → Steady l n (IsDraining broker a.id) (drain m env k ip deadline w).1
      unfolding drain
      drain-Steady env fair zero k ip deadline w h = h
      drain-Steady env fair (suc m) k ip deadline w h =
          elim (Bool-cases (count_inflight ip w.db == 0)) [
            | inl empty ↦ rw (empty, drain) h
            | inr busy ↦ elim (Bool-cases (leb deadline w.now)) [
              | inl late ↦ rw (busy, drain, late) h
              | inr early ↦
                  let (here, rows) = fair k w.db in
                  let (there, kept) = fair k w.durable in
                  rw (busy, drain, early)
                    (drain-Steady env fair m (suc k) ip deadline (sleep env k w)
                      (h.0, h.1, (omega arith, rows a.id h.2.1), (omega arith, kept a.id h.3.1)))
            ]
          ]

      abort-Closed :
          (new : StaticIp) (w : World F)
          → Steady l n (IsDraining broker a.id) w
          → Closed (abort a new w)
      unfolding abort
      abort-Closed new w h =
          let v = cleanup_new_ip new w in
          let (same, next, here, there) =
            cleanup_new_ip-Steady l n (IsDraining broker a.id) new w h in
          let few : AtMostOne broker (mark a.id AssignmentStatus.active v.db.assignments) =
            omega (arith, count_active-restore broker a.id v.db.assignments) in
          (same, next, few, few)

      switch-Closed :
          (new : StaticIp) (force drained listed : Bool) (hours : ℤ) (w : World F)
          → Steady l n (IsDraining broker a.id) w
          → Closed (switch broker a new force drained listed hours w)
      unfolding enqueue_outbox
      switch-Closed new force drained listed hours w h =
          let ended : World F = record w {
            db = end_old broker a w.now (add_hours w.now hours) w.db;
          } in
          let u = retire_ip a.static_ip_id ended in
          let (same, next, here, there) =
            retire_ip-Steady l n (IsCleared broker) a.static_ip_id ended (
              h.0,
              h.1,
              omega (arith, count_active-release broker a.id w.now w.db.assignments, h.2.0),
              h.3.0,
            ) in
          (
            same,
            (
              u.db.assignments,
              switched_assignment u.next_id a broker new.id,
              refl,
              refl,
              refl,
              refl,
              refl,
              here,
              refl,
            ),
          )

      module _ ⦃r : Real F⦄ (settings : Settings F) (p : Parsers) (env : Environment F)
          (force : Bool) (fair : IsRespectful env) where
        weaker :
            (w : World F) → Steady l n (IsDraining broker a.id) w → Steady l n (AtMostOne broker) w
        weaker w h = (h.0, h.1, omega (arith, h.2.0), omega (arith, h.3.0))

        conclude-Closed :
            (new : StaticIp) (listed : Bool) (policy : String) (drained : Bool) (w : World F)
            → Steady l n (IsDraining broker a.id) w
            → Closed (conclude settings p env force broker a new listed policy drained w)
        unfolding conclude
        conclude-Closed new listed policy drained w h =
            elim (Bool-cases (drained || force || text_eq policy "FORCE")) [
              | inr stop ↦ rw (stop, conclude) (abort-Closed new w h)
              | inl go ↦ elim (Result-cases (cooldown_hours settings w.db)) [
                | inr (e, bad) ↦ rw (go, conclude, bad) (weaker w h)
                | inl (hours, good) ↦
                    rw (go, conclude, good) (switch-Closed new force drained listed hours w h)
              ]
            ]

        after_wait :
            (new : StaticIp) (listed : Bool) (policy : String) (x : Option Bool × World F)
            → Steady l n (IsDraining broker a.id) x.1
            → Closed (
                ((λ (_ : World F). or_stuck x)
                    >>= conclude settings p env force broker a new listed policy)
                  x.1)
        after_wait new listed policy (none, w) h = weaker w h
        after_wait new listed policy (some b, w) h = conclude-Closed new listed policy b w h

        pub drain_and_conclude-Closed :
            (new : StaticIp) (listed : Bool) (w : World F)
            → any (λ (x : IpAssignment). x.id == a.id && active_for broker x) w.db.assignments
              ≡ true
            → count_id a.id w.db.assignments ≤ 1
            → Steady l n (AtMostOne broker) w
            → Closed (drain_and_conclude settings p env force broker a new listed w)
        unfolding drain_and_conclude wait_until
        drain_and_conclude-Closed new listed w stands unique h =
            let v = (start_draining a.id w).1 in
            let draining : IsDraining broker a.id v.db.assignments = (
              omega (arith, count_active-drain broker a.id w.db.assignments stands, h.2),
              omega (arith, count_id-mark broker a.id AssignmentStatus.draining w.db.assignments),
            ) in
            let steady : Steady l n (IsDraining broker a.id) v = (h.0, h.1, draining, draining) in
            elim (Result-cases (config_int "ip.rotation.drain_timeout_seconds" (pos 30) v.db)) [
              | inr (e, bad) ↦ rw (bad, drain_and_conclude) (weaker v steady)
              | inl (seconds, good) ↦
                  let deadline = v.now + span seconds in
                  rw (good, drain_and_conclude)
                    (after_wait new listed (on_timeout_policy v.db)
                      (wait_until env a.static_ip_id deadline v)
                      (drain-Steady env fair (suc (deadline - v.now)) 0 a.static_ip_id deadline v
                        steady))
            ]
