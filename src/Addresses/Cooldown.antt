-- ===== src/Addresses/Cooldown.antt =====
-- ip_manager/service.py: the cooldown between the release of an address and its next assignment to
-- the broker that had it.
use broker_bridge.Base.{
  ℕ, ◌<◌, ◌≡◌, refl, inl, inr, true, ◌&&◌, Option, List, [], ◌∷◌, arith, ltb, ◌==◌, Bool-cases,
  Option-cases, where_rows, any, update_rows, ℤ, Real,
}
use broker_bridge.Models.{IpStatus, StaticIp, IpAssignment, BrokerIpUsageHistory}
use broker_bridge.World.{
  app, not_found, ok, World, Settings, ◌>>◌, commit, Preserves, bind-Preserves, or_raise-Preserves,
}
use broker_bridge.Infra.{call_infra}
use broker_bridge.Infra.Frame.{call_infra-frame}
use broker_bridge.Events.{enqueue_outbox}
use broker_bridge.Health.{find_ip}
use broker_bridge.Addresses.{
  is_attached, reuse_blocked, add_hours, assigned_to, is_open_use, end_use, get_ip, update_ip,
  cooldown_hours, end_assignments, mark_released, delete_ip, end_and_delete, release_locked,
}
use broker_bridge.Addresses.Assign.{Rejected, assign_locked-ends}

-- The broker has a use of the address that a release ends.
abbrev pub HasOpenUse : ℕ → ℕ → List IpAssignment → List BrokerIpUsageHistory → Type 0
HasOpenUse broker ip assignments usage =
    any
      (λ (h : BrokerIpUsageHistory).
        h.broker_account_id == broker && is_open_use ip (where_rows (assigned_to ip) assignments) h)
      usage
    ≡ true

end_use-blocks :
    (broker ip now eligible t : ℕ) (ended : List IpAssignment) (l : List BrokerIpUsageHistory)
    → ltb t eligible ≡ true
    → any (λ (h : BrokerIpUsageHistory). h.broker_account_id == broker && is_open_use ip ended h) l
      ≡ true
    → reuse_blocked broker ip t (update_rows (is_open_use ip ended) (end_use now eligible) l) ≡ true
end_use-blocks broker ip now eligible t ended [] early h = h
end_use-blocks broker ip now eligible t ended (u ∷ l) early h =
    ground (arith, end_use-blocks broker ip now eligible t ended l early)

module _ {F : Type 0} (usage : List BrokerIpUsageHistory) where
  abbrev Uses : World F → Type 0
  Uses w = w.db.usage ≡ usage

  call_infra-Uses : Preserves Uses (call_infra {F = F})
  call_infra-Uses w h = let (m, e) = call_infra-frame w in rw e h

  mark_released-Uses :
      ⦃r : Real F⦄ (settings : Settings F) (ip : ℕ) → Preserves Uses (mark_released settings ip)
  unfolding mark_released enqueue_outbox get_ip
  mark_released-Uses settings ip w h =
      or_raise-Preserves Uses (λ v. find_ip ip v.db.ips) (app not_found 404)
        ((update_ip ip (λ a. record a { status = IpStatus.released })
            >> (enqueue_outbox "ip.released" "ip" ip >> commit))
          w).1
        h

  delete_ip-Uses :
      ⦃r : Real F⦄ (settings : Settings F) (ip : ℕ) → Preserves Uses (delete_ip settings ip)
  delete_ip-Uses settings ip =
      bind-Preserves Uses call_infra (λ _. mark_released settings ip) call_infra-Uses
        (λ _. mark_released-Uses settings ip)

module _ {F : Type 0} ⦃r : Real F⦄ (settings : Settings F) (ip : ℕ) (w : World F) where
  -- The history after a release with a cooldown of so many hours.
  abbrev pub ended_usage : ℤ → List BrokerIpUsageHistory
  ended_usage hours =
      update_rows (is_open_use ip (where_rows (assigned_to ip) w.db.assignments))
        (end_use w.now (add_hours w.now hours)) w.db.usage

  end_and_delete-usage :
      (hours : ℤ) → (end_and_delete settings ip hours w).1.db.usage ≡ ended_usage hours
  end_and_delete-usage hours =
      delete_ip-Uses (ended_usage hours) settings ip (end_assignments settings ip hours w).1 refl

  release_locked-usage :
      (hours : ℤ) (a : StaticIp)
      → (release_locked settings ip w).0 ≡ ok a
      → cooldown_hours settings w.db ≡ ok hours
      → (release_locked settings ip w).1.db.usage ≡ ended_usage hours
  unfolding release_locked get_ip
  release_locked-usage hours a done known = elim (Option-cases (find_ip ip w.db.ips)) [
    | inl missing ↦ absurd (ground arith)
    | inr (x, found) ↦ elim (Bool-cases (is_attached x.status)) [
      | inl busy ↦ absurd (ground arith)
      | inr idle ↦ rw (found, release_locked, idle, known) (end_and_delete-usage hours)
    ]
  ]

  -- After a release that returned, with a cooldown of so many hours, an assignment of the address
  -- to a broker whose use of it the release ended is refused and changes nothing until the cooldown
  -- is over, whatever else but the history of uses has changed by then.
  pub release_locked-cooldown :
      (hours : ℤ) (a : StaticIp) (broker : ℕ) (client : Option ℕ) (later : World F)
      → (release_locked settings ip w).0 ≡ ok a
      → cooldown_hours settings w.db ≡ ok hours
      → HasOpenUse broker ip w.db.assignments w.db.usage
      → later.db.usage ≡ (release_locked settings ip w).1.db.usage
      → later.now < add_hours w.now hours
      → Rejected ip broker client later
  release_locked-cooldown hours a broker client later done known used same early =
      elim (assign_locked-ends ip broker client later) [
        | inl refused ↦ refused
        | inr (x, b, found, idle, there, cooled, free, end) ↦
            let kept = release_locked-usage hours a done known in
            let blocked =
              end_use-blocks broker ip w.now (add_hours w.now hours) later.now
                (where_rows (assigned_to ip) w.db.assignments) w.db.usage (ground arith) used in
            absurd cc
      ]
