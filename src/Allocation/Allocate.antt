-- ===== src/Allocation/Allocate.antt =====
-- How an allocation ends.
use broker_bridge.Base.{
  ℕ, zero, suc, String, ◌≡◌, refl, ◌⊎◌, inl, inr, false, ◌||◌, none, List, [], ◌∷◌, ◌++◌, arith,
  text_eq, text_eq_iff, Bool-cases,
}
use broker_bridge.Models.{IpStatus, StaticIp}
use broker_bridge.World.{Result, Result-cases, ok, raised, Resource, Reply, World, ◌>>=◌, fresh_id}
use broker_bridge.Infra.{call_resource}
use broker_bridge.Infra.Frame.{call_resource-frame}
use broker_bridge.Allocation.{
  has_address, new_ip, allocation_attempts, insert_ip, insert_or_retry, allocate_in, allocate_ip,
}

-- No two rows have one address.
abbrev pub IsUniqueAddress : List StaticIp → Type 0
IsUniqueAddress [] = Unit
IsUniqueAddress (ip ∷ l) = (has_address ip.ip_address l ≡ false) × IsUniqueAddress l

has_address-append :
    (a : String) (l : List StaticIp) (ip : StaticIp)
    → has_address a (l ++ ip ∷ []) ≡ (has_address a l || text_eq ip.ip_address a)
has_address-append a [] ip = ground arith
has_address-append a (x ∷ l) ip = ground (arith, has_address-append a l ip)

append-IsUniqueAddress :
    (l : List StaticIp) (ip : StaticIp)
    → has_address ip.ip_address l ≡ false
    → IsUniqueAddress l
    → IsUniqueAddress (l ++ ip ∷ [])
append-IsUniqueAddress [] ip h u = (refl, tt)
append-IsUniqueAddress (x ∷ l) ip h u = (
  ground (
    arith,
    has_address-append x.ip_address l ip,
    text_eq_iff ip.ip_address x.ip_address,
    text_eq_iff x.ip_address ip.ip_address,
  ),
  append-IsUniqueAddress l ip (ground arith) u.1,
)

module _ {F : Type 0} where
  -- The address is a new row with an address that no row had, at the end of the table, and committed.
  abbrev pub Allocated : String → World F → StaticIp → World F → Type 0
  Allocated region w ip w' =
      (old : List StaticIp) × (w'.db.ips ≡ old ++ ip ∷ [])
      × ((old ≡ w.db.ips) ⊎ (old ≡ w.durable.ips))
      × (has_address ip.ip_address old ≡ false)
      × (ip.region ≡ region)
      × (ip.status ≡ IpStatus.allocated)
      × (ip.instance_id ≡ none)
      × (w'.durable ≡ w'.db)

  -- An address, or no row more: the tables are as they were, or as they were committed.
  abbrev pub Ends : String → World F → Result StaticIp × World F → Type 0
  Ends region w (ok ip, w') = Allocated region w ip w'
  Ends region w (raised e, w') = (w'.durable ≡ w.durable) × ((w'.db ≡ w.db) ⊎ (w'.db ≡ w.durable))

  insert_ip-Allocated :
      (region : String) (x : Resource) (w : World F)
      → has_address x.ip_address w.db.ips ≡ false
      → Ends region w ((do id ← fresh_id; insert_ip (new_ip id region x)) w)
  unfolding insert_ip
  insert_ip-Allocated region x w free = (w.db.ips, refl, inl refl, free, refl, refl, refl, refl)

  after_rollback :
      (region : String) (w : World F) (l : List Reply) (r : Result StaticIp × World F)
      → Ends region (record w { infra = l; db = w.durable }) r
      → Ends region w r
  after_rollback region w l (ok ip, w') (old, rows, from, free, here, new, off, kept) =
      (old, rows, elim from [ inl e ↦ inr e | inr e ↦ inr e ], free, here, new, off, kept)
  after_rollback region w l (raised e, w') (kept, from) =
      (kept, elim from [ inl e ↦ inr e | inr e ↦ inr e ])

  allocate_in-Ends :
      (n : ℕ) (region : String) (w : World F) → Ends region w (allocate_in n region w)
  unfolding allocate_in insert_or_retry
  allocate_in-Ends zero region w = (refl, inl refl)
  allocate_in-Ends (suc n) region w =
      let (l, same) = call_resource-frame w in
      elim (Result-cases (call_resource w).0) [
        | inr (e, refused) ↦ rw (refused, allocate_in) (rw same (refl, inl refl))
        | inl (x, done) ↦ elim (Bool-cases (has_address x.ip_address w.db.ips)) [
          | inr free ↦
              rw (done, allocate_in)
                (rw same (rw free (insert_ip-Allocated region x (record w { infra = l }) free)))
          | inl taken ↦
              rw (done, allocate_in)
                (rw same (
                  rw taken (
                    after_rollback region w l
                      (allocate_in n region (record w { infra = l; db = w.durable }))
                      (allocate_in-Ends n region (record w { infra = l; db = w.durable })))))
        ]
      ]

  -- An allocation returns a new row with an address that no row had, at the end of the table and
  -- committed; or it raises, and nothing is committed and no row is new.
  pub allocate_ip-Ends : (region : String) (w : World F) → Ends region w (allocate_ip region w)
  unfolding allocate_ip
  allocate_ip-Ends region w = allocate_in-Ends allocation_attempts region w

  Ends-IsUnique :
      (region : String) (w : World F) (r : Result StaticIp × World F)
      → Ends region w r
      → IsUniqueAddress w.db.ips
      → IsUniqueAddress w.durable.ips
      → IsUniqueAddress r.1.db.ips × IsUniqueAddress r.1.durable.ips
  Ends-IsUnique region w (ok ip, w') (old, rows, from, free, here, new, off, kept) u v =
      let grown : IsUniqueAddress w'.db.ips =
        rw rows
          (append-IsUniqueAddress old ip free (elim from [ inl e ↦ rw e u | inr e ↦ rw e v ])) in
      (grown, rw kept grown)
  Ends-IsUnique region w (raised e, w') (kept, from) u v =
      (elim from [ inl e ↦ rw e u | inr e ↦ rw e v ], rw kept v)

  -- If no two rows have one address, in the session's view and in the database, none have one after an
  -- allocation, whatever the provider answered and whatever its end.
  pub allocate_ip-IsUnique :
      (region : String) (w : World F)
      → IsUniqueAddress w.db.ips
      → IsUniqueAddress w.durable.ips
      → let w' = (allocate_ip region w).1 in
        IsUniqueAddress w'.db.ips × IsUniqueAddress w'.durable.ips
  allocate_ip-IsUnique region w =
      Ends-IsUnique region w (allocate_ip region w) (allocate_ip-Ends region w)
