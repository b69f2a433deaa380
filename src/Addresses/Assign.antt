-- ===== src/Addresses/Assign.antt =====
-- The ends of an assignment under its locks.
use broker_bridge.Base.{
  ℕ, ◌≡◌, ◌⊎◌, inl, inr, false, ◌||◌, Option, some, Bool-cases, Option-cases, any,
}
use broker_bridge.Models.{BrokerAccount, StaticIp}
use broker_bridge.World.{
  Failure, app, not_found, invalid_state, ip_reuse_policy, assignment_conflict, raised, World,
}
use broker_bridge.Health.{find_ip, active_for}
use broker_bridge.Sessions.{find_broker}
use broker_bridge.Addresses.{
  is_quarantined, is_attached, reuse_blocked, get_ip, record_assignment, assign_locked,
}

module _ {F : Type 0} (ip_id broker_id : ℕ) (client : Option ℕ) (w : World F) where
  -- A test failed, and nothing changed.
  abbrev pub Rejected : Type 0
  Rejected = (e : Failure) × (assign_locked ip_id broker_id client w ≡ (raised e, w))

  -- Every test was passed: the address can be had, the broker is there and has no address, and the
  -- cooldown is over.
  abbrev pub Accepted : Type 0
  Accepted =
      (ip : StaticIp) × (b : BrokerAccount F) × (find_ip ip_id w.db.ips ≡ some ip)
      × ((is_quarantined ip.status || is_attached ip.status) ≡ false)
      × (find_broker broker_id w.db ≡ some b)
      × (reuse_blocked broker_id ip_id w.now w.db.usage ≡ false)
      × (any (active_for broker_id) w.db.assignments ≡ false)
      × (assign_locked ip_id broker_id client w ≡ record_assignment ip_id client b w)

  pub assign_locked-ends : Rejected ⊎ Accepted
  unfolding assign_locked get_ip
  assign_locked-ends = elim (Option-cases (find_ip ip_id w.db.ips)) [
    | inl missing ↦ inl (app not_found 404, rw (missing, assign_locked))
    | inr (ip, found) ↦ elim (Bool-cases (is_quarantined ip.status || is_attached ip.status)) [
      | inl busy ↦ inl (app invalid_state 409, rw (found, assign_locked, busy))
      | inr idle ↦ elim (Option-cases (find_broker broker_id w.db)) [
        | inl unknown ↦ inl (app not_found 404, rw (found, assign_locked, idle, unknown))
        | inr (b, known) ↦ elim (Bool-cases (reuse_blocked broker_id ip_id w.now w.db.usage)) [
          | inl cooling ↦
              inl (app ip_reuse_policy 409, rw (found, assign_locked, idle, known, cooling))
          | inr cooled ↦ elim (Bool-cases (any (active_for broker_id) w.db.assignments)) [
            | inl taken ↦
                inl (
                  app assignment_conflict 409,
                  rw (found, assign_locked, idle, known, cooled, taken),
                )
            | inr free ↦ inr (
              ip,
              b,
              found,
              idle,
              known,
              cooled,
              free,
              rw (found, assign_locked, idle, known, cooled, free),
            )
          ]
        ]
      ]
    ]
  ]
