-- ===== src/Rotation/Frame.antt =====
-- What the steps of a rotation leave alone: the locks, but for those that they give back, and the
-- assignments.
use broker_bridge.Base.{
  ℕ, zero, suc, ◌≤◌, ◌<◌, String, ◌≡◌, refl, sym, ap, ◌∙◌, inl, inr, Option, none, some, List,
  arith, Bool-cases, Option-cases, is_some, any,
}
use broker_bridge.Models.{StaticIp, IpAssignment}
use broker_bridge.World.{
  Result-cases, LockKey, Locks, World, pure, ◌>>=◌, ◌>>◌, commit, rollback, fresh_id, Preserves,
  bind-Preserves,
}
use broker_bridge.Infra.{call_infra, call_resource, translate}
use broker_bridge.Infra.Frame.{call_infra-frame, call_resource-frame, translate_state}
use broker_bridge.Addresses.{
  is_attached, is_destroyed, assigned_to, find_instance, update_ip, attach_locked, attach,
}
use broker_bridge.Addresses.Locked.{SameHolders, with_lock-SameHolders, FreshToken}
use broker_bridge.Allocation.{
  has_address, new_ip, allocation_attempts, insert_ip, insert_or_retry, allocate_in, allocate_ip,
}
use broker_bridge.Events.{enqueue_outbox}
use broker_bridge.Locks.{holder}
use broker_bridge.Whitelist.{Parsers, normalize_whitelist, fetch_whitelist_raw, hint_for, sync}
use broker_bridge.Rotation.{
  is_released, detach_and_delete, cleanup_new_ip, final_cleanup, retire_ip, attach_new,
  sync_whitelist,
}
use broker_bridge.Sessions.{find_broker}
use broker_bridge.Health.{find_ip}
use broker_bridge.Addresses.OneActive.{with_lock-Preserves}
use broker_bridge.Addresses.Bodies.{attach_locked-Preserves}

module _ {F : Type 0} (l : Locks) (n : ℕ) (A : List IpAssignment → Type 0) where
  -- Every key is held as in `l`, the identifiers from `n` on are in use up to the next one, and the
  -- assignments have a property, in the session's view and in the database.
  abbrev pub Steady : World F → Type 0
  Steady w = SameHolders l w.locks × (n ≤ w.next_id) × A w.db.assignments × A w.durable.assignments

  pub call_infra-Steady : Preserves Steady (call_infra {F = F})
  call_infra-Steady w h = let (m, e) = call_infra-frame w in rw e h

  call_resource-Steady : Preserves Steady (λ (w : World F). translate (call_resource w))
  call_resource-Steady w h =
      let (m, e) = call_resource-frame w in rw (translate_state (call_resource w), e) h

  pub update_ip-Steady :
      (id : ℕ) (f : StaticIp → StaticIp) → Preserves Steady (update_ip {F = F} id f)
  update_ip-Steady id f w h = h

  pub commit-Steady : Preserves Steady (commit {F = F})
  commit-Steady w h = (h.0, h.1, h.2, h.2)

  insert_ip-Steady : (ip : StaticIp) → Preserves Steady (insert_ip {F = F} ip)
  unfolding insert_ip enqueue_outbox
  insert_ip-Steady ip w h = (h.0, omega arith, h.2, h.2)

  allocate_in-Steady : (k : ℕ) (region : String) → Preserves Steady (allocate_in {F = F} k region)
  unfolding allocate_in insert_or_retry
  allocate_in-Steady zero region w h = h
  allocate_in-Steady (suc k) region w h =
      bind-Preserves Steady (λ w. translate (call_resource w))
        (insert_or_retry region (allocate_in k region)) call_resource-Steady
        (λ x v g. elim (Bool-cases (has_address x.ip_address v.db.ips)) [
          | inl taken ↦ rw taken (allocate_in-Steady k region (rollback v).1 (g.0, g.1, g.3, g.3))
          | inr free ↦ rw free (
              insert_ip-Steady (new_ip v.next_id region x) (fresh_id v).1
                (g.0, omega arith, g.2, g.3))
        ])
        w h

  pub allocate_ip-Steady : (region : String) → Preserves Steady (allocate_ip {F = F} region)
  unfolding allocate_ip
  allocate_ip-Steady = allocate_in-Steady allocation_attempts

  pub sync_whitelist-Steady :
      (p : Parsers) (broker : ℕ) → Preserves Steady (sync_whitelist {F = F} p broker)
  unfolding sync_whitelist sync
  sync_whitelist-Steady p broker w h = elim (Option-cases (find_broker broker w.db)) [
    | inl missing ↦ rw (missing, sync) h
    | inr (b, found) ↦
        let raw = fetch_whitelist_raw p w.now (hint_for p none b) in
        elim (Result-cases (normalize_whitelist p raw.0 raw.1)) [
          | inl (ips, read) ↦ rw (found, sync, read) (h.0, h.1, h.2, h.2)
          | inr (e, failed) ↦ rw (found, sync, failed) h
        ]
  ]

  last_call-Steady : Preserves Steady (call_infra {F = F} >>= λ _. pure tt)
  last_call-Steady = bind-Preserves Steady call_infra (λ _. pure tt) call_infra-Steady (λ _ v g. g)

  detach_and_delete-Steady : (ip : StaticIp) → Preserves Steady (detach_and_delete {F = F} ip)
  detach_and_delete-Steady ip w h = elim (Bool-cases (is_some ip.instance_id)) [
    | inl on ↦ rw on (
        bind-Preserves Steady call_infra
          (λ _.
            update_ip ip.id (λ (a : StaticIp). record a { instance_id = none })
            >> (call_infra >>= λ _. pure tt))
          call_infra-Steady
          (λ _ v g.
            last_call-Steady
              (update_ip ip.id (λ (a : StaticIp). record a { instance_id = none }) v).1 g)
          w h)
    | inr off ↦ rw off (last_call-Steady w h)
  ]

  pub cleanup_new_ip-Steady :
      (ip : StaticIp) (w : World F) → Steady w → Steady (cleanup_new_ip ip w)
  unfolding cleanup_new_ip
  cleanup_new_ip-Steady ip w h = detach_and_delete-Steady ip w h

  pub final_cleanup-Steady : (id : ℕ) (w : World F) → Steady w → Steady (final_cleanup id w)
  unfolding final_cleanup
  final_cleanup-Steady id w h = elim (Bool-cases (any (assigned_to id) w.db.assignments)) [
    | inl used ↦ rw used h
    | inr unused ↦ elim (Option-cases (find_ip id w.db.ips)) [
      | inl missing ↦ rw (unused, missing) h
      | inr (ip, found) ↦ elim (Bool-cases (is_released ip.status)) [
        | inl done ↦ rw (unused, found, done) h
        | inr left ↦
            rw (unused, found, left)
              (commit-Steady (cleanup_new_ip ip w) (cleanup_new_ip-Steady ip w h))
      ]
    ]
  ]

  pub retire_ip-Steady : (id : ℕ) (w : World F) → Steady w → Steady (retire_ip id w)
  unfolding retire_ip
  retire_ip-Steady id w h = elim (Option-cases (find_ip id w.db.ips)) [
    | inl missing ↦ rw (missing, retire_ip) h
    | inr (ip, found) ↦ elim (Bool-cases (is_attached ip.status)) [
      | inl on ↦ rw (found, retire_ip, on) (call_infra-Steady w h)
      | inr off ↦ rw (found, retire_ip, off) h
    ]
  ]

  -- The part that does not speak of locks.
  abbrev Unlocked : World F → Type 0
  Unlocked w = (n ≤ w.next_id) × A w.db.assignments × A w.durable.assignments

  attach_locked-Unlocked : (ip i : ℕ) → Preserves Unlocked (attach_locked {F = F} ip i)
  attach_locked-Unlocked =
      attach_locked-Preserves Unlocked (λ u g. let (m, e) = call_infra-frame u in rw e g)
        (λ id f u g. g) (λ u g. (g.0, g.1, g.1))

  attach_locked-locks :
      (m : Locks) (ip i : ℕ) → Preserves (λ (u : World F). u.locks ≡ m) (attach_locked {F = F} ip i)
  attach_locked-locks m =
      attach_locked-Preserves (λ u. u.locks ≡ m) (λ u g. let (a, e) = call_infra-frame u in rw e g)
        (λ id f u g. g) (λ u g. g)

  module _ (below : (k : LockKey) (t : ℕ) → holder k l ≡ some t → t < n) where
    Steady-FreshToken : (w : World F) → Steady w → FreshToken w
    Steady-FreshToken w h k held = absurd (omega (arith, below k w.next_id (sym (h.0 k) ∙ held)))

    attach-Steady : (ip i : ℕ) → Preserves Steady (attach {F = F} ip i)
    unfolding attach
    attach-Steady ip i w h =
        let token_taken : World F = record w { next_id = suc w.next_id } in
        let apart =
          with_lock-Preserves Unlocked (LockKey.ip_lock ip) w.next_id (attach_locked ip i)
            (λ u m g. g) (attach_locked-Unlocked ip i) token_taken (omega arith, h.2, h.3) in
        let held =
          with_lock-SameHolders (LockKey.ip_lock ip) w.next_id (attach_locked ip i) token_taken
            (Steady-FreshToken w h (LockKey.ip_lock ip))
            (λ v e k. ap (holder k) (attach_locked-locks v.locks ip i v refl)) in
        (λ k. held k ∙ h.0 k, apart.0, apart.1, apart.2)

    pub attach_new-Steady :
        (i : Option ℕ) (ip : StaticIp) → Preserves Steady (attach_new {F = F} i ip)
    unfolding attach_new
    attach_new-Steady none ip w h = h
    attach_new-Steady (some i) ip w h = elim (Option-cases (find_instance i w.db)) [
      | inl missing ↦ rw (missing, attach_new) h
      | inr (x, found) ↦ elim (Bool-cases (is_destroyed x.status)) [
        | inl gone ↦ rw (found, attach_new, gone) h
        | inr up ↦ rw (found, attach_new, up) (attach-Steady ip.id x.id w h)
      ]
    ]
