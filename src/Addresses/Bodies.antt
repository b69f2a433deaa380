-- ===== src/Addresses/Bodies.antt =====
-- What the operations on addresses do under their locks: they touch no lock, and give no broker a
-- second address.
use broker_bridge.Base.{ℕ, ◌≡◌, inl, inr, Option, none, some, arith, ℤ, Real}
use broker_bridge.Models.{IpStatus, StaticIp}
use broker_bridge.World.{
  app, not_found, invalid_state, Locks, World, Settings, or_raise, ◌>>◌, raise_if, commit,
  Preserves, bind-Preserves, raise_if-Preserves, or_raise-Preserves,
}
use broker_bridge.Infra.{call_infra}
use broker_bridge.Infra.Frame.{call_infra-frame}
use broker_bridge.Addresses.{
  is_attached, is_destroyed, get_ip, find_instance, update_ip, record_assignment, assign_locked,
  attach_locked, detach_locked, cooldown_hours, end_assignments, mark_released, delete_ip,
  end_and_delete, release_locked,
}
use broker_bridge.Addresses.OneActive.{OneActive, count_active-end, assign_locked-Single}
use broker_bridge.Health.{find_ip}
use broker_bridge.Events.{enqueue_outbox}
use broker_bridge.Addresses.Assign.{assign_locked-ends}

-- A property that reads neither the addresses nor the provider's answers, and what is committed only
-- with what is in view, is kept by what is done to an address on its instance.
module _ {F : Type 0} (P : World F → Type 0) (infra : Preserves P call_infra)
    (ips : (id : ℕ) (f : StaticIp → StaticIp) → Preserves P (update_ip id f))
    (commits : Preserves P commit) where
  get_ip-Preserves : (id : ℕ) → Preserves P (get_ip id)
  unfolding get_ip
  get_ip-Preserves id = or_raise-Preserves P (λ w. find_ip id w.db.ips) (app not_found 404)

  -- The end of `attach` and of `detach`.
  settle_ip-Preserves :
      (id : ℕ) (f : StaticIp → StaticIp) → Preserves P (update_ip id f >> (commit >> get_ip id))
  settle_ip-Preserves id f w h =
      get_ip-Preserves id (commit (update_ip id f w).1).1
        (commits (update_ip id f w).1 (ips id f w h))

  pub attach_locked-Preserves : (ip i : ℕ) → Preserves P (attach_locked ip i)
  unfolding attach_locked
  attach_locked-Preserves ip i = bind-Preserves P (get_ip ip) _ (get_ip-Preserves ip) (λ a.
      bind-Preserves P (λ w. or_raise (find_instance i w.db) (app not_found 404) w) _
        (or_raise-Preserves P (λ w. find_instance i w.db) (app not_found 404))
        (λ x.
          bind-Preserves P (raise_if (is_destroyed x.status) (app invalid_state 409)) _
            (raise_if-Preserves P (is_destroyed x.status) (app invalid_state 409))
            (λ _. bind-Preserves P call_infra _ infra (λ _.
              settle_ip-Preserves ip
                (λ a. record a { instance_id = some i; status = IpStatus.attached })))))

  pub detach_locked-Preserves : (ip : ℕ) → Preserves P (detach_locked ip)
  unfolding detach_locked
  detach_locked-Preserves ip = bind-Preserves P (get_ip ip) _ (get_ip-Preserves ip) (λ a.
      bind-Preserves P call_infra _ infra (λ _.
        settle_ip-Preserves ip (λ a. record a { instance_id = none; status = IpStatus.detached })))

module _ {F : Type 0} (l : Locks) where
  -- The locks are these, and no broker has two active assignments.
  abbrev pub Orderly : World F → Type 0
  Orderly w = (w.locks ≡ l) × OneActive w.db.assignments

  call_infra-Orderly : Preserves Orderly (call_infra {F = F})
  call_infra-Orderly w h = let (m, e) = call_infra-frame w in rw e h

  get_ip-Orderly : (id : ℕ) → Preserves Orderly (get_ip {F = F} id)
  get_ip-Orderly = get_ip-Preserves Orderly call_infra-Orderly (λ id f w h. h) (λ w h. h)

  pub attach_locked-Orderly : (ip i : ℕ) → Preserves Orderly (attach_locked {F = F} ip i)
  attach_locked-Orderly =
      attach_locked-Preserves Orderly call_infra-Orderly (λ id f w h. h) (λ w h. h)

  pub detach_locked-Orderly : (ip : ℕ) → Preserves Orderly (detach_locked {F = F} ip)
  detach_locked-Orderly =
      detach_locked-Preserves Orderly call_infra-Orderly (λ id f w h. h) (λ w h. h)

  pub assign_locked-Orderly :
      (ip b : ℕ) (client : Option ℕ) → Preserves Orderly (assign_locked {F = F} ip b client)
  unfolding record_assignment
  assign_locked-Orderly ip b client w h = (
    elim (assign_locked-ends ip b client w) [
      | inl (e, same) ↦ rw same h.0
      | inr (a, x, found, idle, known, cooled, free, same) ↦ rw same h.0
    ],
    assign_locked-Single ip b client w h.1,
  )

  module _ ⦃r : Real F⦄ (settings : Settings F) where
    mark_released-Orderly : (ip : ℕ) → Preserves Orderly (mark_released settings ip)
    unfolding mark_released enqueue_outbox
    mark_released-Orderly ip w h =
        get_ip-Orderly ip
          ((update_ip ip (λ a. record a { status = IpStatus.released })
              >> (enqueue_outbox "ip.released" "ip" ip >> commit))
            w).1
          h

    delete_ip-Orderly : (ip : ℕ) → Preserves Orderly (delete_ip settings ip)
    delete_ip-Orderly ip =
        bind-Preserves Orderly call_infra (λ _. mark_released settings ip) call_infra-Orderly
          (λ _. mark_released-Orderly ip)

    end_and_delete-Orderly :
        (ip : ℕ) (hours : ℤ) → Preserves Orderly (end_and_delete settings ip hours)
    end_and_delete-Orderly ip hours w h =
        delete_ip-Orderly ip (end_assignments settings ip hours w).1
          (h.0, λ b. omega (arith, count_active-end b ip w.now w.db.assignments, h.1 b))

    pub release_locked-Orderly : (ip : ℕ) → Preserves Orderly (release_locked settings ip)
    unfolding release_locked
    release_locked-Orderly ip = bind-Preserves Orderly (get_ip ip) _ (get_ip-Orderly ip) (λ a.
        bind-Preserves Orderly (raise_if (is_attached a.status) (app invalid_state 409)) _
          (raise_if-Preserves Orderly (is_attached a.status) (app invalid_state 409))
          (λ _.
            bind-Preserves Orderly (λ w. (cooldown_hours settings w.db, w))
              (end_and_delete settings ip) (λ w h. h) (end_and_delete-Orderly ip)))
